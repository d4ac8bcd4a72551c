-- ===== src/Conversation/Shouts.antt =====
-- What the client's `command_shell` sends when a message to all is typed, and what the server reads.
use mathlib.Core.Path.{subst}
use tcp_chat_server.Prelude.{
  ◌≡◌, ◌∙◌, sym, refl, ap, ℕ, ◌≤◌, none, some, List, [], ◌++◌, append-nil, get_or, length,
  take_front, true, pos, arith,
}
use tcp_chat_server.Protocol.Types.{Message, WorldBroadcast, chat, tlv_tag, tag_world_broadcast}
use tcp_chat_server.Protocol.Message.{parse_message, peek_broadcast_type}
use tcp_chat_server.Protocol.Request.{Request, finish_request_lem, request_message}
use tcp_chat_server.Protocol.World.{
  world_payload, build_world_broadcast_request, parse_world_broadcast, no_world_broadcast,
}
use tcp_chat_server.Protocol.World.RoundTrip.{
  world_payload-encode, length-world_payload, parse_written, build_world_broadcast_request-eq,
}
use tcp_chat_server.Protocol.Transport.{WriteResult}
use tcp_chat_server.Protocol.Transport.Chunks.{Takes}
use tcp_chat_server.Flags.{has_flag, is_auth}
use tcp_chat_server.Database.{string_to_lower}
use tcp_chat_server.Protocol.Buffers.{to_all, Built-IsBuffered}
use tcp_chat_server.Conversation.Chat.{IsChat}
use tcp_chat_server.Client.{Client}
use tcp_chat_server.Client.Words.Laws.{IsBlank, IsWord, IsVisible, IsLine}
use tcp_chat_server.Client.Shell.{
  command_shell, run_command, world_command, handle_world_message, send_request, after_request,
}
use tcp_chat_server.Client.Shell.Lines.{
  IsGap, gap-IsBreak, send_request-whole, command_shell-command, shell_world-words,
}

-- A line that starts with the word `/world`, in any spelling, then the message up to its end.
pub record IsShoutLine (input_line content : List ℕ) : Type 0 where
  pub blank : List ℕ
  pub command : List ℕ
  pub gap : List ℕ
  pub leading : IsBlank blank
  pub first : IsWord command
  pub shout : string_to_lower command ≡ world_command
  pub second : IsGap gap
  pub visible : IsVisible content
  pub to_the_end : IsLine content
  pub written : input_line ≡ blank ++ (command ++ (gap ++ content))

abbrev pub shouted : Client → List ℕ → WorldBroadcast
shouted conn content = record { sender_username = conn.user.username; message_content = content }

-- A client that is logged in sends the broadcast that was typed, under its own name.
pub command_shell-shout :
    (conn : Client) (results : List WriteResult) (input_line content : List ℕ) (r : Request)
    → IsShoutLine input_line content
    → has_flag conn.flags is_auth ≡ true
    → build_world_broadcast_request (shouted conn content) ≡ some r
    → Takes results r.bytes
    → command_shell conn results input_line
      ≡ record { returned = some true; said = none; sent = r.bytes }
unfolding run_command
command_shell-shout conn results input_line content r l auth built all_taken =
    let fits = Built-IsBuffered r (to_all (shouted conn content) built) in
    let sent : handle_world_message conn content results ≡ (some (pos 0), r.bytes) =
      unfold handle_world_message in
      (ap (λ o. send_request o results) built ∙ send_request-whole r results fits all_taken) in
    ap (λ i. command_shell conn results i) l.written
    ∙ command_shell-command conn results l.blank l.command (l.gap ++ content) l.leading l.first
        (gap-IsBreak l.gap content l.second)
    ∙ ap (λ w. run_command conn results w (l.gap ++ content)) l.shout
    ∙ shell_world-words conn results l.gap content l.second.blank l.visible l.to_the_end auth
    ∙ ap after_request sent

-- What the server reads in the bytes of such a request.
pub record Carries (m : Message) (b : WorldBroadcast) (r : Request) : Type 0 where
  pub is_chat : IsChat m r
  pub tag : peek_broadcast_type m ≡ tlv_tag tag_world_broadcast
  pub parsed : parse_world_broadcast m no_world_broadcast ≡ (pos 0, b)

pub request-Carries :
    (b : WorldBroadcast) (r : Request)
    → length b.sender_username ≤ 32
    → length b.message_content ≤ 255
    → build_world_broadcast_request b ≡ some r
    → Carries (parse_message r.bytes) b r
unfolding peek_broadcast_type
request-Carries b r hu hc built =
    let payload = world_payload b in
    let len = length-world_payload b (omega arith) hc in
    let (r', built', counted, size, parsed) = finish_request_lem chat payload (omega arith) in
    let same : r' ≡ r =
      (let e = sym built' ∙ sym (build_world_broadcast_request-eq b hu hc) ∙ built in cc) in
    let read : parse_message r.bytes ≡ request_message chat payload [] =
      ap (λ q. parse_message q.bytes) (sym same)
      ∙ (ap parse_message (sym (append-nil r'.bytes)) ∙ parsed []) in
    subst (λ m. Carries m b r) (sym read)
      (record {
        is_chat = record {
          kind = refl;
          small = omega arith;
          whole = sym size ∙ (counted ∙ ap (λ q. length q.bytes) same);
        };
        tag = ap (λ p. get_or (p ++ []) 0 0) (world_payload-encode b (omega arith) hc);
        parsed =
            parse_written (request_message chat payload []) b hu hc
              (take_front (length payload) payload [] refl);
      })
