-- ===== src/Protocol/World.antt =====
-- World broadcasts: the two `build_world_broadcast`, `parse_world_broadcast` and the notification
-- functions of src/protocol.cpp.
pub mod Parsing
pub mod RoundTrip
use tcp_chat_server.Prelude.{
  ℕ, ◌%◌, Option, none, some, List, [], Bool, true, false, ◌&&◌, ltb, ◌==◌, length, if◌then◌else◌,
  ℤ, pos, negsuc,
}
use tcp_chat_server.Protocol.Types.{
  Message, msg_type, chat, tlv_tag, tag_world_broadcast, tag_sender_username, tag_message_content,
  response_code, resp_error_malformed, WorldBroadcast, max_username_size, max_msg_content_size,
  msg_max_payload_size,
}
use tcp_chat_server.Protocol.Tlv.{write_tlv, Turn, next, stop, Walk, finished, stopped, walk}
use tcp_chat_server.Protocol.Message.{payload_bytes}
use tcp_chat_server.Protocol.Request.{Request, finish_request}

-- The three TLVs that both builders write.
unfoldable pub world_payload : WorldBroadcast → List ℕ
unfolding write_tlv
world_payload b =
    let payload = write_tlv [] tag_world_broadcast 0 [] false in
    let payload =
      write_tlv payload tag_sender_username (length b.sender_username % 256) b.sender_username
        false in
    write_tlv payload tag_message_content (length b.message_content % 256) b.message_content false

-- The client's overload, into a request buffer. `none` is the return value -1.
unfoldable pub build_world_broadcast_request : WorldBroadcast → Option Request
unfolding finish_request world_payload
build_world_broadcast_request b =
    if ltb max_username_size (length b.sender_username)
    then none
    else if ltb max_msg_content_size (length b.message_content)
    then none
    else finish_request chat (world_payload b)

-- The server's overload, into the payload buffer of a message.
unfoldable pub build_world_broadcast : Message → WorldBroadcast → ℤ × Message
unfolding world_payload
build_world_broadcast request b =
    let payload = world_payload b in
    let payload_len = length payload % 4294967296 in
    if ltb msg_max_payload_size payload_len
    then (negsuc 0, record request { payload = some payload })
    else (
      pos 0,
      record request {
        version = 1;
        type = msg_type chat;
        rc = 0;
        payload = some payload;
        payload_length = payload_len;
      },
    )

unfoldable pub build_world_broadcast_notification : Message → WorldBroadcast → ℤ × Message
unfolding build_world_broadcast
build_world_broadcast_notification response b = build_world_broadcast response b

-- The local variables of the parser's loop.
pub record WorldScan : Type 0 where
  pub broadcast : WorldBroadcast
  pub has_broadcast_tag : Bool
  pub has_sender : Bool
  pub has_content : Bool

unfoldable pub world_switch : ℕ → List ℕ → WorldScan → Turn WorldScan WorldScan
world_switch tag value s =
    if tag == tlv_tag tag_world_broadcast
    then next (record s { has_broadcast_tag = true })
    else if tag == tlv_tag tag_sender_username
    then (if ltb max_username_size (length value)
        then stop s
        else next (record s {
          broadcast = record {
            sender_username = value;
            message_content = s.broadcast.message_content;
          };
          has_sender = true;
        }))
    else if tag == tlv_tag tag_message_content
    then next (record s {
      broadcast = record { sender_username = s.broadcast.sender_username; message_content = value };
      has_content = true;
    })
    else next s

abbrev pub world_result : Walk WorldScan WorldScan → ℤ × WorldBroadcast
world_result (stopped s) = (pos (response_code resp_error_malformed), s.broadcast)
world_result (finished s) =
    if s.has_broadcast_tag && (s.has_sender && s.has_content)
    then (pos 0, s.broadcast)
    else (pos (response_code resp_error_malformed), s.broadcast)

abbrev pub world_start : WorldBroadcast → WorldScan
world_start b = record {
  broadcast = b;
  has_broadcast_tag = false;
  has_sender = false;
  has_content = false;
}

unfoldable pub parse_world_broadcast : Message → WorldBroadcast → ℤ × WorldBroadcast
unfolding walk world_switch
parse_world_broadcast request b =
    world_result (walk (λ s. s) world_switch (payload_bytes request) (world_start b))

unfoldable pub parse_world_broadcast_notification : Message → WorldBroadcast → ℤ × WorldBroadcast
unfolding parse_world_broadcast
parse_world_broadcast_notification msg b = parse_world_broadcast msg b

-- `world_broadcast_t broadcast{};`
abbrev pub no_world_broadcast : WorldBroadcast
no_world_broadcast = record { sender_username = []; message_content = [] }
