-- ===== src/Protocol/Request.antt =====
-- How the client-side builders of src/protocol.cpp end: the payload's length, its check, the header.
use tcp_chat_server.Prelude.{
  ℕ, ◌+◌, ◌-◌, ◌%◌, ◌≤◌, ◌≡◌, ◌∙◌, refl, ap, Option, none, some, List, [], ◌∷◌, ◌++◌, ltb, length,
  if◌then◌else◌, arith, append_assoc, length-append, le→ltb,
}
use tcp_chat_server.Protocol.Types.{
  Message, MsgType, msg_type, msg_header_size, msg_max_payload_size,
}
use tcp_chat_server.Protocol.Bytes.{u32_bytes, htonl}
use tcp_chat_server.Protocol.Message.{parse_message}
use tcp_chat_server.Protocol.Message.RoundTrip.{header, parse_message-header, length-header}

-- A request as the client builds it: the bytes of the request buffer up to `message_len`.
pub record Request : Type 0 where
  pub bytes : List ℕ
  pub message_len : ℕ

-- The last steps of every client-side builder: the payload's length, its check and the header.
-- `none` is the return value -1.
unfoldable pub finish_request : MsgType → List ℕ → Option Request
finish_request type payload =
    let message_len = (msg_header_size + length payload) % 4294967296 in
    let payload_len = message_len - msg_header_size in
    if ltb msg_max_payload_size payload_len
    then none
    else some (record {
      bytes = (1 ∷ msg_type type ∷ 0 ∷ []) ++ (u32_bytes (htonl payload_len) ++ payload);
      message_len = message_len;
    })

-- The message that a request carries.
abbrev pub request_message : MsgType → List ℕ → List ℕ → Message
request_message type payload rest = record {
  payload_length = length payload;
  version = 1;
  type = msg_type type;
  rc = 0;
  payload = some (payload ++ rest);
}

abbrev request : MsgType → List ℕ → Request
request type payload = record {
  bytes = header (request_message type payload []) ++ payload;
  message_len = 7 + length payload;
}

finish_request-eq :
    (type : MsgType) (payload : List ℕ)
    → length payload ≤ 4096
    → finish_request type payload ≡ some (request type payload)
unfolding finish_request u32_bytes
finish_request-eq type payload fits =
    let whole : (7 + length payload) % 4294967296 ≡ 7 + length payload = omega arith in
    let behind : 7 + length payload - 7 ≡ length payload = omega arith in
    rw (whole, behind, le→ltb 4096 (length payload) fits)

-- A payload within the maximum gives a request whose length is known and whose bytes parse as a
-- message with that payload.
pub finish_request_lem :
    (type : MsgType) (payload : List ℕ)
    → length payload ≤ 4096
    → (r : Request) × (finish_request type payload ≡ some r)
      × (r.message_len ≡ length r.bytes)
      × (r.message_len ≡ 7 + length payload)
      × ((rest : List ℕ) → parse_message (r.bytes ++ rest) ≡ request_message type payload rest)
finish_request_lem type payload fits =
    let m = λ (rest : List ℕ). request_message type payload rest in
    (
      request type payload,
      finish_request-eq type payload fits,
      omega (arith, length-append (header (m [])) payload, length-header (m [])),
      refl,
      λ rest.
          ap parse_message (append_assoc (header (m rest)) payload rest)
          ∙ parse_message-header (m rest) (payload ++ rest) (omega arith),
    )
