-- ===== src/Protocol/Message.antt =====
-- Whole messages: src/protocol.cpp's buffers, headers, `parse_message`, `write_message_to_buffer`,
-- `peek_broadcast_type` and `build_server_response`.
pub mod RoundTrip
use tcp_chat_server.Prelude.{
  ℕ, ◌+◌, ◌<◌, ◌≡◌, Option, none, some, List, [], ◌∷◌, ◌++◌, Bool, true, false, ◌&&◌, take, drop,
  get_or, ltb, if◌then◌else◌, ℤ, to_u8, length, IsByte,
}
use tcp_chat_server.Protocol.Types.{Message, msg_header_size}
use tcp_chat_server.Protocol.Bytes.{u32_bytes, htonl, load_u32}

unfoldable pub buf_append : List ℕ → List ℕ → ℕ → List ℕ
buf_append buf bytes len = buf ++ take len bytes

unfoldable pub buf_consume : List ℕ → ℕ → List ℕ
buf_consume buf n = drop n buf

-- The memory behind the payload pointer.
abbrev pub memory : Option (List ℕ) → List ℕ
memory none = []
memory (some bytes) = bytes

-- The bytes from `payload` to `payload + payload_length`.
abbrev pub payload_bytes : Message → List ℕ
payload_bytes m = take m.payload_length (memory m.payload)

-- `message.payload`, as a test.
abbrev is_some : Option (List ℕ) → Bool
is_some none = false
is_some (some _) = true

unfoldable pub write_message_to_buffer : List ℕ → Message → List ℕ
unfolding buf_append
write_message_to_buffer buffer message =
    let buffer = buf_append buffer (message.version ∷ []) 1 in
    let buffer = buf_append buffer (message.type ∷ []) 1 in
    let buffer = buf_append buffer (message.rc ∷ []) 1 in
    let buffer = buf_append buffer (u32_bytes (htonl message.payload_length)) 4 in
    if is_some message.payload && ltb 0 message.payload_length
    then buf_append buffer (memory message.payload) message.payload_length
    else buffer

-- The source reads `buffer[0]` to `buffer[7]`: its callers have checked that they are there.
unfoldable pub parse_message : List ℕ → Message
parse_message buffer = record {
  payload_length = htonl (load_u32 (drop 3 buffer));
  version = get_or buffer 0 0;
  type = get_or buffer 1 0;
  rc = get_or buffer 2 0;
  payload = some (drop msg_header_size buffer);
}

-- `*request.payload`: the first byte behind the pointer, whatever the payload's length.
unfoldable pub peek_broadcast_type : Message → ℕ
peek_broadcast_type request = get_or (memory request.payload) 0 0

unfoldable pub build_server_response : ℕ → ℤ → Option (List ℕ) → ℕ → Message
build_server_response type rc payload payload_len = record {
  version = 1;
  type = type;
  rc = to_u8 rc;
  payload = payload;
  payload_length = payload_len;
}

-- A message that can be sent: its header fields fit, and its payload is all there.
pub record IsWire (m : Message) : Type 0 where
  pub version_fits : IsByte m.version
  pub type_fits : IsByte m.type
  pub rc_fits : IsByte m.rc
  pub length_fits : m.payload_length < 4294967296
  pub payload_there : length (payload_bytes m) ≡ m.payload_length
