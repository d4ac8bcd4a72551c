-- ===== src/Protocol/P2p.antt =====
-- P2P broadcasts: the two `build_p2p_broadcast`, `parse_p2p_broadcast` and the notification
-- functions of src/protocol.cpp.
pub mod Parsing
pub mod RoundTrip
use tcp_chat_server.Prelude.{
  ℕ, ◌%◌, Option, none, some, List, [], Bool, true, false, ◌&&◌, ltb, ◌==◌, bytes_eq, length,
  if◌then◌else◌, ℤ, pos, negsuc,
}
use tcp_chat_server.Protocol.Types.{
  Message, msg_type, chat, tlv_tag, tag_p2p_broadcast, tag_sender_username, tag_recipient_username,
  tag_message_content, response_code, resp_error_malformed, P2pBroadcast, max_username_size,
  max_msg_content_size, msg_max_payload_size,
}
use tcp_chat_server.Protocol.Tlv.{write_tlv, Turn, next, stop, Walk, finished, stopped, walk}
use tcp_chat_server.Protocol.Message.{payload_bytes}
use tcp_chat_server.Protocol.Request.{Request, finish_request}

-- The four TLVs that both builders write.
unfoldable pub p2p_payload : P2pBroadcast → List ℕ
unfolding write_tlv
p2p_payload b =
    let payload = write_tlv [] tag_p2p_broadcast 0 [] false in
    let payload =
      write_tlv payload tag_sender_username (length b.sender_username % 256) b.sender_username
        false in
    let payload =
      write_tlv payload tag_recipient_username (length b.recipient_username % 256)
        b.recipient_username false in
    write_tlv payload tag_message_content (length b.message_content % 256) b.message_content false

-- The client's overload, into a request buffer. `none` is the return value -1.
unfoldable pub build_p2p_broadcast_request : P2pBroadcast → Option Request
unfolding finish_request p2p_payload
build_p2p_broadcast_request b =
    if ltb max_username_size (length b.sender_username)
    then none
    else if ltb max_username_size (length b.recipient_username)
    then none
    else if bytes_eq b.sender_username b.recipient_username
    then none
    else if ltb max_msg_content_size (length b.message_content)
    then none
    else finish_request chat (p2p_payload b)

-- The server's overload, into the payload buffer of a message.
unfoldable pub build_p2p_broadcast : Message → P2pBroadcast → ℤ × Message
unfolding p2p_payload
build_p2p_broadcast request b =
    let payload = p2p_payload b in
    let payload_len = length payload % 4294967296 in
    if bytes_eq b.sender_username b.recipient_username
    then (negsuc 0, request)
    else if ltb msg_max_payload_size payload_len
    then (negsuc 0, record request { payload = some payload })
    else (
      pos 0,
      record request {
        version = 1;
        type = msg_type chat;
        rc = 0;
        payload = some payload;
        payload_length = payload_len;
      },
    )

unfoldable pub build_p2p_broadcast_notification : Message → P2pBroadcast → ℤ × Message
unfolding build_p2p_broadcast
build_p2p_broadcast_notification response b = build_p2p_broadcast response b

-- The local variables of the parser's loop.
pub record P2pScan : Type 0 where
  pub broadcast : P2pBroadcast
  pub has_broadcast_tag : Bool
  pub has_sender : Bool
  pub has_recipient : Bool
  pub has_content : Bool

unfoldable pub p2p_switch : ℕ → List ℕ → P2pScan → Turn P2pScan P2pScan
p2p_switch tag value s =
    if tag == tlv_tag tag_p2p_broadcast
    then next (record s { has_broadcast_tag = true })
    else if tag == tlv_tag tag_sender_username
    then (if ltb max_username_size (length value)
        then stop s
        else next (record s {
          broadcast = record {
            sender_username = value;
            recipient_username = s.broadcast.recipient_username;
            message_content = s.broadcast.message_content;
          };
          has_sender = true;
        }))
    else if tag == tlv_tag tag_recipient_username
    then (if ltb max_username_size (length value)
        then stop s
        else next (record s {
          broadcast = record {
            sender_username = s.broadcast.sender_username;
            recipient_username = value;
            message_content = s.broadcast.message_content;
          };
          has_recipient = true;
        }))
    else if tag == tlv_tag tag_message_content
    then next (record s {
      broadcast = record {
        sender_username = s.broadcast.sender_username;
        recipient_username = s.broadcast.recipient_username;
        message_content = value;
      };
      has_content = true;
    })
    else next s

abbrev pub p2p_result : Walk P2pScan P2pScan → ℤ × P2pBroadcast
p2p_result (stopped s) = (pos (response_code resp_error_malformed), s.broadcast)
p2p_result (finished s) =
    if s.has_broadcast_tag && (s.has_sender && (s.has_recipient && s.has_content))
    then (pos 0, s.broadcast)
    else (pos (response_code resp_error_malformed), s.broadcast)

abbrev pub p2p_start : P2pBroadcast → P2pScan
p2p_start b = record {
  broadcast = b;
  has_broadcast_tag = false;
  has_sender = false;
  has_recipient = false;
  has_content = false;
}

unfoldable pub parse_p2p_broadcast : Message → P2pBroadcast → ℤ × P2pBroadcast
unfolding walk p2p_switch
parse_p2p_broadcast request b =
    p2p_result (walk (λ s. s) p2p_switch (payload_bytes request) (p2p_start b))

unfoldable pub parse_p2p_broadcast_notification : Message → P2pBroadcast → ℤ × P2pBroadcast
unfolding parse_p2p_broadcast
parse_p2p_broadcast_notification msg b = parse_p2p_broadcast msg b

-- `p2p_broadcast_t broadcast{};`
abbrev pub no_p2p_broadcast : P2pBroadcast
no_p2p_broadcast = record { sender_username = []; recipient_username = []; message_content = [] }
