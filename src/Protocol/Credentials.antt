-- ===== src/Protocol/Credentials.antt =====
-- Registration and login requests: `build_register_request`, `parse_register_request`,
-- `build_login_request` and `parse_login_request` of src/protocol.cpp.
pub mod Parsing
pub mod RoundTrip
use tcp_chat_server.Prelude.{
  ℕ, ◌+◌, ◌-◌, ◌%◌, Option, none, some, List, [], ◌∷◌, ◌++◌, Bool, true, false, ◌&&◌, ltb, ◌==◌,
  length, if◌then◌else◌, ℤ, pos,
}
use tcp_chat_server.Protocol.Types.{
  Message, MsgType, msg_type, register, login, tlv_tag, tag_username, tag_password, response_code,
  resp_error_malformed, Credentials, max_username_size, max_password_size, msg_header_size,
  msg_max_payload_size,
}
use tcp_chat_server.Protocol.Request.{Request, finish_request}
use tcp_chat_server.Protocol.Tlv.{write_tlv, Turn, next, stop, Walk, finished, stopped, walk}
use tcp_chat_server.Protocol.Message.{payload_bytes}

-- The two TLVs that both kinds of request hold.
unfoldable pub credentials_payload : Credentials → List ℕ
unfolding write_tlv
credentials_payload c =
    let payload = write_tlv [] tag_username (length c.username % 256) c.username false in
    write_tlv payload tag_password (length c.password % 256) c.password false

unfoldable pub build_register_request : Credentials → Option Request
unfolding finish_request credentials_payload
build_register_request c =
    if ltb max_username_size (length c.username)
    then none
    else if ltb max_password_size (length c.password)
    then none
    else finish_request register (credentials_payload c)

unfoldable pub build_login_request : Credentials → Option Request
unfolding finish_request credentials_payload
build_login_request c =
    if ltb max_username_size (length c.username)
    then none
    else if ltb max_password_size (length c.password)
    then none
    else finish_request login (credentials_payload c)

-- The local variables of the parsers' loop.
pub record CredentialsScan : Type 0 where
  pub credentials : Credentials
  pub has_username : Bool
  pub has_password : Bool

-- The `switch (tag)` of the loop. `stop` is `return RESP_ERROR_MALFORMED`.
unfoldable pub credentials_switch :
    ℕ → List ℕ → CredentialsScan → Turn CredentialsScan CredentialsScan
credentials_switch tag value s =
    if tag == tlv_tag tag_username
    then (if ltb max_username_size (length value)
        then stop s
        else next (record s {
          credentials = record { username = value; password = s.credentials.password };
          has_username = true;
        }))
    else if tag == tlv_tag tag_password
    then (if ltb max_password_size (length value)
        then stop s
        else next (record s {
          credentials = record { username = s.credentials.username; password = value };
          has_password = true;
        }))
    else next s

-- The return value and the credentials that the caller's reference holds then.
abbrev pub credentials_result : Walk CredentialsScan CredentialsScan → ℤ × Credentials
credentials_result (stopped s) = (pos (response_code resp_error_malformed), s.credentials)
credentials_result (finished s) =
    if s.has_username && s.has_password
    then (pos 0, s.credentials)
    else (pos (response_code resp_error_malformed), s.credentials)

abbrev pub credentials_start : Credentials → CredentialsScan
credentials_start c = record { credentials = c; has_username = false; has_password = false }

unfoldable pub parse_register_request : Message → Credentials → ℤ × Credentials
unfolding walk credentials_switch
parse_register_request msg c =
    credentials_result (walk (λ s. s) credentials_switch (payload_bytes msg) (credentials_start c))

unfoldable pub parse_login_request : Message → Credentials → ℤ × Credentials
unfolding walk credentials_switch
parse_login_request request c =
    credentials_result
      (walk (λ s. s) credentials_switch (payload_bytes request) (credentials_start c))

-- `registration_credentials_t credentials = {};`
abbrev pub no_credentials : Credentials
no_credentials = record { username = []; password = [] }
