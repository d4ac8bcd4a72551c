-- ===== src/Conversation/Shout.antt =====
-- A message to all from the line that is typed to the screens of the others.
use mathlib.Core.Path.{subst}
use tcp_chat_server.Prelude.{
  ◌≡◌, ◌≢◌, ◌∙◌, sym, refl, ap, ℕ, ◌≤◌, some, List, [], ◌++◌, take, drop, length, true, false,
  arith,
}
use tcp_chat_server.Protocol.Types.{Message, WorldBroadcast}
use tcp_chat_server.Protocol.Message.{parse_message, write_message_to_buffer}
use tcp_chat_server.Protocol.Request.{Request}
use tcp_chat_server.Protocol.World.{build_world_broadcast_request}
use tcp_chat_server.Protocol.World.RoundTrip.{
  world_message, world_message-IsWire, build_world_broadcast_notification-eq,
}
use tcp_chat_server.Protocol.Buffers.{to_all, Built-IsBuffered}
use tcp_chat_server.Protocol.Transport.{ReadResult, WriteResult, read_one_message, read_message}
use tcp_chat_server.Protocol.Transport.Chunks.{Delivers, Takes}
use tcp_chat_server.Flags.{has_flag, is_auth}
use tcp_chat_server.Database.{Sqlite}
use tcp_chat_server.Server.Table.{flags_of, incoming_of, outgoing_of, username_of}
use tcp_chat_server.Server.Table.Layout.{IsTable}
use tcp_chat_server.Server.Broadcast.{is_valid_recipient}
use tcp_chat_server.Server.Broadcast.Accepted.{handle_broadcast_message_world}
use tcp_chat_server.Server.Session.{Server, try_one_request, empty_response}
use tcp_chat_server.Client.{Client, printed, handle_server_response}
use tcp_chat_server.Client.Responses.{handle_server_response-build_world_broadcast_notification}
use tcp_chat_server.Client.Words.Laws.{IsVisible}
use tcp_chat_server.Client.Shell.{command_shell}
use tcp_chat_server.Conversation.Chat.{recipient_other, chat_served}
use tcp_chat_server.Conversation.Reading.{behind, message_read}
use tcp_chat_server.Conversation.Shouts.{
  IsShoutLine, shouted, command_shell-shout, Carries, request-Carries,
}

module _ (sqlite : Sqlite) (connfd : ℕ) (s : Server sqlite.State) (b : WorldBroadcast) (r : Request)
    (v : IsTable s.table) (auth : has_flag (flags_of s.table connfd) is_auth ≡ true)
    (name : username_of s.table connfd ≡ b.sender_username) (hu : length b.sender_username ≤ 32)
    (hc : length b.message_content ≤ 255) (filled : b.message_content ≢ [])
    (built : build_world_broadcast_request b ≡ some r)
    (received : incoming_of s.table connfd ≡ r.bytes) where
  pub shout_forwarded :
      (fd : ℕ)
      → is_valid_recipient s.table connfd fd ≡ true
      → let (served, s') = try_one_request sqlite connfd s in
        (served ≡ true)
        × (outgoing_of s'.table fd
            ≡ outgoing_of s.table fd ++ write_message_to_buffer [] (world_message empty_response b))
  shout_forwarded fd valid =
      let c =
        subst (λ bytes. Carries (parse_message bytes) b r) (sym received)
          (request-Carries b r hu hc built) in
      let fits = Built-IsBuffered r (to_all b built) in
      let renamed : record b { sender_username = username_of s.table connfd } ≡ b =
        ap (λ n. record b { sender_username = n }) name in
      let (_, answer, sent) =
        handle_broadcast_message_world connfd s.table (parse_message (incoming_of s.table connfd))
          empty_response b v auth c.tag c.parsed filled (omega (arith, ap length name)) hc in
      let (served, others) = chat_served sqlite connfd s r v auth fits received c.is_chat in
      (
        served,
        others fd (recipient_other s.table connfd fd valid)
            ∙ (sent.outgoing fd
                ∙ (rw valid refl
                    ∙ ap (λ m. outgoing_of s.table fd ++ write_message_to_buffer [] m)
                        (answer ∙ ap (world_message empty_response) renamed))),
      )

-- A message to all from the keyboard of one user to the screens of the others. A client that is
-- logged in types `/world`, in any spelling, and a message that is visible and ends with the line;
-- its own name has at most 32 bytes and the message at most 255, and the socket takes the request.
-- The server, whose table is well-formed, has received just these bytes in a slot that is
-- authenticated under the sender's name. Then the request is served, and for every other slot that
-- is authenticated, the bytes put behind what was waiting there, in whatever chunks its client reads
-- them, header first, are one message, which that client prints with the sender and the text as they
-- were typed, and which changes nothing else of it.
pub shout_conversation :
    (sqlite : Sqlite) (connfd fd : ℕ) (s : Server sqlite.State) (conn receiver : Client)
    (results : List WriteResult) (input_line content : List ℕ) (r : Request)
    (header_reads payload_reads more : List ReadResult) (message : Message)
    → IsShoutLine input_line content
    → has_flag conn.flags is_auth ≡ true
    → length conn.user.username ≤ 32
    → length content ≤ 255
    → build_world_broadcast_request (shouted conn content) ≡ some r
    → Takes results r.bytes
    → IsTable s.table
    → has_flag (flags_of s.table connfd) is_auth ≡ true
    → username_of s.table connfd ≡ conn.user.username
    → incoming_of s.table connfd ≡ (command_shell conn results input_line).sent
    → is_valid_recipient s.table connfd fd ≡ true
    → let (served, s') = try_one_request sqlite connfd s in
      let new = drop (length (outgoing_of s.table fd)) (outgoing_of s'.table fd) in
      Delivers true header_reads (take 7 new)
      → Delivers false payload_reads (drop 7 new)
      → (served ≡ true)
        × ((m : Message) × (read_one_message (header_reads ++ (payload_reads ++ more)) message
              ≡ read_message m more)
            × (handle_server_response m receiver
                ≡ (printed conn.user.username [] content, receiver)))
shout_conversation sqlite connfd fd s conn receiver results input_line content r header_reads
      payload_reads more message l logged_in hu hc built all_taken v auth name received valid hs
      ps =
    let b = shouted conn content in
    let turn = command_shell-shout conn results input_line content r l logged_in built all_taken in
    let (served, out) =
      shout_forwarded sqlite connfd s b r v auth name hu hc (λ e. subst IsVisible e l.visible) built
        (received ∙ ap (λ t. t.sent) turn) fd valid in
    let (wire, fits, payload) = world_message-IsWire empty_response b hu hc in
    let written = behind (outgoing_of s.table fd) _ _ out in
    (
      served,
      (
        world_message empty_response b,
        message_read (world_message empty_response b) wire fits (ap some (sym payload)) _ written
            header_reads payload_reads more message hs ps,
        ap (λ p. handle_server_response p.1 receiver)
              (sym (build_world_broadcast_notification-eq empty_response b (omega arith) hc))
            ∙ handle_server_response-build_world_broadcast_notification empty_response receiver b hu
                hc,
      ),
    )
