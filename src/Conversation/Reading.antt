-- ===== src/Conversation/Reading.antt =====
-- A client of src/client_utils.cpp reads a message that the server put behind what was waiting.
use mathlib.Core.Path.{subst}
use tcp_chat_server.Prelude.{
  ◌≡◌, ◌∙◌, sym, refl, ap, ℕ, ◌≤◌, some, List, [], ◌++◌, take, drop, take_front, drop_front, length,
  true, false,
}
use tcp_chat_server.Protocol.Types.{Message}
use tcp_chat_server.Protocol.Message.{write_message_to_buffer, payload_bytes, IsWire}
use tcp_chat_server.Protocol.Message.RoundTrip.{header, write_message_to_buffer_lem, length-header}
use tcp_chat_server.Protocol.Transport.{ReadResult, read_one_message, read_message}
use tcp_chat_server.Protocol.Transport.Chunks.{Delivers, read_one_message-chunks}

-- What stands behind what was waiting, once bytes were appended.
pub behind : (before after new : List ℕ) → after ≡ before ++ new → drop (length before) after ≡ new
behind before after new e = ap (drop (length before)) e ∙ drop_front (length before) before new refl

-- The bytes of one message, in whatever chunks, header first, are read as that message.
module _ (m : Message) (wire : IsWire m) (fits : m.payload_length ≤ 4096)
    (whole : m.payload ≡ some (payload_bytes m)) (sent : List ℕ)
    (written : sent ≡ write_message_to_buffer [] m) where
  pub message_read :
      (header_reads payload_reads more : List ReadResult) (message : Message)
      → Delivers true header_reads (take 7 sent)
      → Delivers false payload_reads (drop 7 sent)
      → read_one_message (header_reads ++ (payload_reads ++ more)) message ≡ read_message m more
  message_read header_reads payload_reads more message hs ps =
      let bytes = written ∙ write_message_to_buffer_lem [] m in
      let front = ap (take 7) bytes ∙ take_front 7 (header m) (payload_bytes m) (length-header m) in
      let back = ap (drop 7) bytes ∙ drop_front 7 (header m) (payload_bytes m) (length-header m) in
      read_one_message-chunks m message header_reads payload_reads more wire fits
        (subst (Delivers true header_reads) front hs) (subst (Delivers false payload_reads) back ps)
      ∙ ap (λ p. read_message (record m { payload = p }) more) (sym whole)
