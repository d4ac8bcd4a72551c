-- ===== src/Conversation/Whispers.antt =====
-- What the client's `command_shell` sends when a P2P message is typed, and what the server reads.
use mathlib.Core.Path.{subst}
use tcp_chat_server.Prelude.{
  ◌≡◌, ◌∙◌, sym, refl, ap, ℕ, none, some, List, [], ◌++◌, append-nil, get_or, length, take_front,
  true, pos, arith,
}
use tcp_chat_server.Protocol.Types.{Message, P2pBroadcast, chat, tlv_tag, tag_p2p_broadcast}
use tcp_chat_server.Protocol.Message.{parse_message, peek_broadcast_type}
use tcp_chat_server.Protocol.Request.{Request, finish_request_lem, request_message}
use tcp_chat_server.Protocol.P2p.{
  p2p_payload, build_p2p_broadcast_request, parse_p2p_broadcast, no_p2p_broadcast,
}
use tcp_chat_server.Protocol.P2p.RoundTrip.{
  IsSendable, IsSendable-Fits, p2p_payload-encode, length-p2p_payload, parse_written,
  build_p2p_broadcast_request-eq,
}
use tcp_chat_server.Protocol.Transport.{WriteResult}
use tcp_chat_server.Protocol.Transport.Chunks.{Takes}
use tcp_chat_server.Flags.{has_flag, is_auth}
use tcp_chat_server.Database.{string_to_lower}
use tcp_chat_server.Protocol.Buffers.{to_one, Built-IsBuffered}
use tcp_chat_server.Conversation.Chat.{IsChat}
use tcp_chat_server.Client.{Client}
use tcp_chat_server.Client.Words.Laws.{IsBlank, IsWord, IsVisible, IsLine}
use tcp_chat_server.Client.Shell.{
  command_shell, run_command, p2p_command, handle_peer_message, send_request, after_request,
}
use tcp_chat_server.Client.Shell.Lines.{
  IsGap, gap-IsBreak, send_request-whole, command_shell-command, shell_p2p-words,
}

-- A line that starts with the word `/p2p`, in any spelling, then a recipient, then the message up to
-- the end of the line.
pub record IsWhisperLine (input_line recipient content : List ℕ) : Type 0 where
  pub blank : List ℕ
  pub command : List ℕ
  pub gap : List ℕ
  pub gap' : List ℕ
  pub leading : IsBlank blank
  pub first : IsWord command
  pub whisper : string_to_lower command ≡ p2p_command
  pub second : IsGap gap
  pub third : IsWord recipient
  pub fourth : IsGap gap'
  pub visible : IsVisible content
  pub to_the_end : IsLine content
  pub written : input_line ≡ blank ++ (command ++ (gap ++ (recipient ++ (gap' ++ content))))

abbrev pub whispered : Client → List ℕ → List ℕ → P2pBroadcast
whispered conn recipient content = record {
  sender_username = conn.user.username;
  recipient_username = recipient;
  message_content = content;
}

-- A client that is logged in sends the broadcast that was typed, under its own name.
pub command_shell-whisper :
    (conn : Client) (results : List WriteResult) (input_line recipient content : List ℕ)
    (r : Request)
    → IsWhisperLine input_line recipient content
    → has_flag conn.flags is_auth ≡ true
    → build_p2p_broadcast_request (whispered conn recipient content) ≡ some r
    → Takes results r.bytes
    → command_shell conn results input_line
      ≡ record { returned = some true; said = none; sent = r.bytes }
unfolding run_command
command_shell-whisper conn results input_line recipient content r l auth built all_taken =
    let fits = Built-IsBuffered r (to_one (whispered conn recipient content) built) in
    let sent : handle_peer_message conn recipient content results ≡ (some (pos 0), r.bytes) =
      unfold handle_peer_message in
      (ap (λ o. send_request o results) built ∙ send_request-whole r results fits all_taken) in
    let words = l.gap ++ (recipient ++ (l.gap' ++ content)) in
    ap (λ i. command_shell conn results i) l.written
    ∙ command_shell-command conn results l.blank l.command words l.leading l.first
        (gap-IsBreak l.gap (recipient ++ (l.gap' ++ content)) l.second)
    ∙ ap (λ w. run_command conn results w words) l.whisper
    ∙ shell_p2p-words conn results l.gap recipient l.gap' content l.second l.third l.fourth
        l.visible l.to_the_end auth
    ∙ ap after_request sent

-- What the server reads in the bytes of such a request.
pub record Carries (m : Message) (b : P2pBroadcast) (r : Request) : Type 0 where
  pub is_chat : IsChat m r
  pub tag : peek_broadcast_type m ≡ tlv_tag tag_p2p_broadcast
  pub parsed : parse_p2p_broadcast m no_p2p_broadcast ≡ (pos 0, b)

pub request-Carries :
    (b : P2pBroadcast) (r : Request)
    → IsSendable b
    → build_p2p_broadcast_request b ≡ some r
    → Carries (parse_message r.bytes) b r
unfolding peek_broadcast_type
request-Carries b r s built =
    let payload = p2p_payload b in
    let len = length-p2p_payload b (IsSendable-Fits b s) in
    let (r', built', counted, size, parsed) =
      finish_request_lem chat payload (omega (arith, len, s.sender_short, s.recipient_short)) in
    let same : r' ≡ r =
      (let e = sym built' ∙ sym (build_p2p_broadcast_request-eq b s) ∙ built in cc) in
    let read : parse_message r.bytes ≡ request_message chat payload [] =
      ap (λ q. parse_message q.bytes) (sym same)
      ∙ (ap parse_message (sym (append-nil r'.bytes)) ∙ parsed []) in
    subst (λ m. Carries m b r) (sym read)
      (record {
        is_chat = record {
          kind = refl;
          small = omega (arith, len, s.sender_short, s.recipient_short, s.content_short);
          whole = sym size ∙ (counted ∙ ap (λ q. length q.bytes) same);
        };
        tag = ap (λ p. get_or (p ++ []) 0 0) (p2p_payload-encode b (IsSendable-Fits b s));
        parsed =
            parse_written (request_message chat payload []) b s
              (take_front (length payload) payload [] refl);
      })
