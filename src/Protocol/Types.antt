-- ===== src/Protocol/Types.antt =====
-- The types and constants of include/protocol.hpp, and the limits of include/shared.hpp.
use tcp_chat_server.Prelude.{ℕ, List, Option}

-- `MSG_HEADER_SIZE`.
abbrev pub msg_header_size : ℕ
msg_header_size = 7

-- `MSG_MAX_PAYLOAD_SIZE`.
abbrev pub msg_max_payload_size : ℕ
msg_max_payload_size = 4096

abbrev pub max_username_size : ℕ
max_username_size = 32

abbrev pub max_password_size : ℕ
max_password_size = 32

abbrev pub max_msg_content_size : ℕ
max_msg_content_size = 255

-- `message_t`. The payload pointer is `none` for NULL, and otherwise the bytes that stand in the
-- memory behind it; only the first `payload_length` of them belong to the message.
pub record Message : Type 0 where
  pub payload_length : ℕ
  pub version : ℕ
  pub type : ℕ
  pub rc : ℕ
  pub payload : Option (List ℕ)

pub data MsgType : Type 0 where
  register login chat list : MsgType

abbrev pub msg_type : MsgType → ℕ
msg_type register = 0
msg_type login = 1
msg_type chat = 2
msg_type list = 3

pub data ResponseCode : Type 0 where
  resp_ok resp_error_malformed resp_error_user_exists resp_error_user_not_found : ResponseCode
  resp_error_invalid_credentials resp_error_internal resp_error_unknown_command : ResponseCode

abbrev pub response_code : ResponseCode → ℕ
response_code resp_ok = 0
response_code resp_error_malformed = 1
response_code resp_error_user_exists = 2
response_code resp_error_user_not_found = 3
response_code resp_error_invalid_credentials = 4
response_code resp_error_internal = 5
response_code resp_error_unknown_command = 6

pub data TlvTag : Type 0 where
  tag_username tag_password tag_response_code tag_response_message tag_world_broadcast : TlvTag
  tag_p2p_broadcast tag_user_id tag_room_id tag_is_auth tag_sender_username : TlvTag
  tag_recipient_username tag_message_content tag_timestamp : TlvTag

abbrev pub tlv_tag : TlvTag → ℕ
tlv_tag tag_username = 0
tlv_tag tag_password = 1
tlv_tag tag_response_code = 2
tlv_tag tag_response_message = 3
tlv_tag tag_world_broadcast = 4
tlv_tag tag_p2p_broadcast = 5
tlv_tag tag_user_id = 6
tlv_tag tag_room_id = 7
tlv_tag tag_is_auth = 8
tlv_tag tag_sender_username = 9
tlv_tag tag_recipient_username = 10
tlv_tag tag_message_content = 11
tlv_tag tag_timestamp = 12

-- `registration_credentials_t` and `login_credentials_t`, which have the same fields.
pub record Credentials : Type 0 where
  pub username : List ℕ
  pub password : List ℕ

pub record WorldBroadcast : Type 0 where
  pub sender_username : List ℕ
  pub message_content : List ℕ

pub record P2pBroadcast : Type 0 where
  pub sender_username : List ℕ
  pub recipient_username : List ℕ
  pub message_content : List ℕ

-- `user_t`.
pub record User : Type 0 where
  pub user_id : ℕ
  pub username : List ℕ
  pub password : List ℕ
