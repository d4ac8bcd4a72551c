-- ===== src/Conversation/Whisper.antt =====
-- A P2P message from the line that is typed to the screen of its recipient.
use mathlib.Core.Path.{subst}
use tcp_chat_server.Prelude.{
  ◌≡◌, ◌∙◌, sym, ap, ℕ, some, List, ◌++◌, take, drop, length, true, false,
}
use tcp_chat_server.Protocol.Types.{Message}
use tcp_chat_server.Protocol.Request.{Request}
use tcp_chat_server.Protocol.P2p.{build_p2p_broadcast_request}
use tcp_chat_server.Protocol.P2p.RoundTrip.{
  IsSendable, IsSendable-Fits, p2p_message, p2p_message-IsWire, build_p2p_broadcast_notification-eq,
}
use tcp_chat_server.Protocol.Transport.{ReadResult, WriteResult, read_one_message, read_message}
use tcp_chat_server.Protocol.Transport.Chunks.{Delivers, Takes}
use tcp_chat_server.Flags.{has_flag, is_auth}
use tcp_chat_server.Database.{Sqlite}
use tcp_chat_server.Server.Table.{flags_of, incoming_of, outgoing_of, username_of}
use tcp_chat_server.Server.Table.Layout.{IsTable}
use tcp_chat_server.Server.Session.{Server, try_one_request, empty_response}
use tcp_chat_server.Client.{Client, printed, handle_server_response}
use tcp_chat_server.Client.Responses.{handle_server_response-build_p2p_broadcast_notification}
use tcp_chat_server.Client.Words.Laws.{IsVisible}
use tcp_chat_server.Client.Shell.{command_shell}
use tcp_chat_server.Conversation.Reading.{behind, message_read}
use tcp_chat_server.Conversation.Whispers.{IsWhisperLine, whispered, command_shell-whisper}
use tcp_chat_server.Conversation.Forwarded.{IsAddressee, whisper_forwarded}

-- A private message from the keyboard of one user to the screen of another. A client that is logged
-- in types `/p2p`, in any spelling, a recipient and a message that is visible and ends with the
-- line; its own name and the recipient's differ and have at most 32 bytes, the message at most 255,
-- and the socket takes the request. The server, whose table is well-formed, has received just these
-- bytes in a slot that is authenticated under the sender's name, and `fd` is the first slot of the
-- recipient. Then the request is served, and the bytes put behind what was waiting for the
-- recipient, in whatever chunks its client reads them, header first, are one message, which that
-- client, whoever it takes itself for, prints with the sender, the recipient and the text as they
-- were typed, and which changes nothing else of it.
pub whisper_conversation :
    (sqlite : Sqlite) (connfd fd : ℕ) (s : Server sqlite.State) (conn receiver : Client)
    (results : List WriteResult) (input_line recipient content : List ℕ) (r : Request)
    (header_reads payload_reads more : List ReadResult) (message : Message)
    → IsWhisperLine input_line recipient content
    → has_flag conn.flags is_auth ≡ true
    → IsSendable (whispered conn recipient content)
    → build_p2p_broadcast_request (whispered conn recipient content) ≡ some r
    → Takes results r.bytes
    → IsTable s.table
    → has_flag (flags_of s.table connfd) is_auth ≡ true
    → username_of s.table connfd ≡ conn.user.username
    → incoming_of s.table connfd ≡ (command_shell conn results input_line).sent
    → IsAddressee s.table connfd recipient fd
    → let (served, s') = try_one_request sqlite connfd s in
      let new = drop (length (outgoing_of s.table fd)) (outgoing_of s'.table fd) in
      Delivers true header_reads (take 7 new)
      → Delivers false payload_reads (drop 7 new)
      → (served ≡ true)
        × ((m : Message) × (read_one_message (header_reads ++ (payload_reads ++ more)) message
              ≡ read_message m more)
            × (handle_server_response m receiver
                ≡ (printed conn.user.username recipient content, receiver)))
whisper_conversation sqlite connfd fd s conn receiver results input_line recipient content r
      header_reads payload_reads more message l logged_in limits built all_taken v auth name
      received a hs ps =
    let b = whispered conn recipient content in
    let turn =
      command_shell-whisper conn results input_line recipient content r l logged_in built
        all_taken in
    let (served, out) =
      whisper_forwarded sqlite connfd s b r fd v auth name limits (λ e. subst IsVisible e l.visible)
        built (received ∙ ap (λ t. t.sent) turn) a in
    let (wire, fits, payload) = p2p_message-IsWire empty_response b limits in
    let written = behind (outgoing_of s.table fd) _ _ out in
    (
      served,
      (
        p2p_message empty_response b,
        message_read (p2p_message empty_response b) wire fits (ap some (sym payload)) _ written
            header_reads payload_reads more message hs ps,
        ap (λ p. handle_server_response p.1 receiver)
              (sym (
                build_p2p_broadcast_notification-eq empty_response b (IsSendable-Fits b limits)
                  limits.to_another))
            ∙ handle_server_response-build_p2p_broadcast_notification empty_response receiver b
                limits,
      ),
    )
