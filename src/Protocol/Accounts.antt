-- ===== src/Protocol/Accounts.antt =====
-- The responses to registrations and logins: `build_register_response`, `parse_register_response`,
-- `build_login_response` and `parse_login_response` of src/protocol.cpp.
pub mod RoundTrip
pub mod Faults
use tcp_chat_server.Prelude.{
  ℕ, ◌%◌, Option, some, List, [], ◌++◌, Bool, true, false, ◌&&◌, ltb, ◌==◌, length, drop,
  if◌then◌else◌, ℤ, pos, negsuc,
}
use tcp_chat_server.Protocol.Types.{
  Message, MsgType, msg_type, register, login, tlv_tag, tag_username, tag_user_id, response_code,
  resp_ok, resp_error_malformed, User, max_username_size, msg_max_payload_size,
}
use tcp_chat_server.Protocol.Bytes.{u32_bytes, htonl, load_u32}
use tcp_chat_server.Protocol.Tlv.{write_tlv, Turn, next, stop, Walk, finished, stopped, walk}
use tcp_chat_server.Protocol.Message.{payload_bytes}

-- The two TLVs of both responses.
unfoldable pub user_payload : User → List ℕ
unfolding write_tlv
user_payload user =
    let payload = write_tlv [] tag_user_id 4 (u32_bytes user.user_id) true in
    write_tlv payload tag_username (length user.username % 256) user.username false

-- Both builders write into the payload buffer that the caller's response points to. The response
-- then has the written bytes behind its pointer.
unfoldable pub account_response : MsgType → Message → User → ℤ × Message
unfolding user_payload
account_response type response user =
    let payload = user_payload user in
    let response = record response {
      version = 1;
      type = msg_type type;
      rc = response_code resp_ok;
      payload = some payload;
      payload_length = length payload % 4294967296;
    } in
    if ltb msg_max_payload_size response.payload_length
    then (negsuc 0, response)
    else (pos 0, response)

unfoldable pub build_register_response : Message → User → ℤ × Message
unfolding account_response
build_register_response response user = account_response register response user

unfoldable pub build_login_response : Message → User → ℤ × Message
unfolding account_response
build_login_response response user = account_response login response user

-- The local variables of the parsers' loop.
pub record UserScan : Type 0 where
  pub user : User
  pub has_id : Bool
  pub has_username : Bool

-- How the loop is left early: by `return RESP_ERROR_MALFORMED`, or by a `memcpy` that writes past
-- the end of `user.user_id`, after which C++ promises nothing.
pub data Stop : Type 0 where
  malformed : UserScan → Stop
  overrun : Stop

-- `memcpy(&user.user_id, payload_ptr, num_bytes); user.user_id = ntohl(user.user_id);` for at most
-- four bytes: the bytes behind those stay as they were.
unfoldable pub copy_user_id : List ℕ → ℕ → ℕ
copy_user_id value user_id = htonl (load_u32 (value ++ drop (length value) (u32_bytes user_id)))

unfoldable pub user_switch : ℕ → List ℕ → UserScan → Turn Stop UserScan
user_switch tag value s =
    if tag == tlv_tag tag_user_id
    then (if ltb 4 (length value)
        then stop overrun
        else next (record s {
          user = record {
            user_id = copy_user_id value s.user.user_id;
            username = s.user.username;
            password = s.user.password;
          };
          has_id = true;
        }))
    else if tag == tlv_tag tag_username
    then (if ltb max_username_size (length value)
        then stop (malformed s)
        else next (record s {
          user = record { user_id = s.user.user_id; username = value; password = s.user.password };
          has_username = true;
        }))
    else next s

-- A return value with the user that the caller's reference holds then, or undefined behaviour.
pub data Parsed : Type 0 where
  returns : ℤ → User → Parsed
  overruns : Parsed

-- `missing` is the return value when a tag is missing.
abbrev pub user_result : ℤ → Walk Stop UserScan → Parsed
user_result missing (stopped (malformed s)) =
    returns (pos (response_code resp_error_malformed)) s.user
user_result missing (stopped overrun) = overruns
user_result missing (finished s) =
    if s.has_id && s.has_username then returns (pos 0) s.user else returns missing s.user

abbrev pub user_start : User → UserScan
user_start user = record { user = user; has_id = false; has_username = false }

unfoldable pub parse_register_response : Message → User → Parsed
unfolding walk user_switch
parse_register_response response user =
    user_result (negsuc 0) (walk malformed user_switch (payload_bytes response) (user_start user))

unfoldable pub parse_login_response : Message → User → Parsed
unfolding walk user_switch
parse_login_response response user =
    user_result (pos (response_code resp_error_malformed))
      (walk malformed user_switch (payload_bytes response) (user_start user))

-- `user_t user{};`
abbrev pub no_user : User
no_user = record { user_id = 0; username = []; password = [] }
