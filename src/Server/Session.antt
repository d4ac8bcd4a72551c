-- ===== src/Server/Session.antt =====
-- Requests of src/server_utils.cpp: `register_user`, `login_user` and `try_one_request`.
pub mod Keeps
pub mod Codes
pub mod Serving
pub mod Login
pub mod Pipelining
pub mod Accounts
use tcp_chat_server.Prelude.{
  ℕ, ◌+◌, Option, none, some, List, [], Bool, true, false, not, ◌==◌, ltb, if◌then◌else◌, bytes_eq,
  length, set, ℤ, pos, negsuc, is_zero,
}
use tcp_chat_server.Protocol.Types.{
  Message, Credentials, User, msg_type, register, login, chat, response_code, resp_ok,
  resp_error_user_exists, resp_error_user_not_found, resp_error_invalid_credentials,
  resp_error_internal, resp_error_unknown_command, msg_header_size, msg_max_payload_size,
}
use tcp_chat_server.Protocol.Message.{
  parse_message, write_message_to_buffer, buf_consume, build_server_response,
}
use tcp_chat_server.Protocol.Credentials.{
  parse_register_request, parse_login_request, no_credentials,
}
use tcp_chat_server.Protocol.Accounts.{build_register_response, build_login_response, no_user}
use tcp_chat_server.Flags.{to_auth}
use tcp_chat_server.Database.{Sqlite, get_user_by_username, insert_user, string_to_lower}
use tcp_chat_server.Server.Table.{
  Table, ConnectionManager, flags_of, incoming_of, outgoing_of, set_flags, set_incoming,
  set_outgoing, set_connection_state, closing,
}
use tcp_chat_server.Server.Broadcast.{handle_broadcast_message}

-- The server's state: the connection table, and the database behind `db`.
pub record Server (D : Type 0) : Type 0 where
  pub table : Table
  pub database : D

-- `response = build_server_response(type, code, NULL, 0);`
abbrev pub error_response : ℕ → ℤ → Message
error_response type code = build_server_response type code none 0

-- The rows of the connection table that `login_user` writes.
unfoldable pub authenticate : Table → ℕ → User → Table
authenticate t connfd user =
    let t = record t {
      conns = record t.conns {
        user_ids = set t.conns.user_ids connfd user.user_id;
        usernames = set t.conns.usernames connfd user.username;
      };
    } in
    set_flags t connfd (to_auth (flags_of t connfd))

-- `message_t response{}` with the payload pointing to an empty buffer.
abbrev pub empty_response : Message
empty_response = record { payload_length = 0; version = 0; type = 0; rc = 0; payload = some [] }

-- Erase the message from the incoming buffer, and write the response to the outgoing one.
unfoldable pub answer : ℕ → Table → ℕ → Message → Table
answer connfd t consumed response =
    let t = set_incoming t connfd (buf_consume (incoming_of t connfd) consumed) in
    set_outgoing t connfd (write_message_to_buffer (outgoing_of t connfd) response)

module _ (sqlite : Sqlite) where
  open sqlite use {State}

  -- `register_user` once the username was looked up: `found` is the return value of the lookup.
  unfoldable pub register_found : State → ℤ → Credentials → Message → ℤ × State × Message
  register_found db (pos n) credentials response =
      if n == 1
      then (
        pos (response_code resp_error_user_exists),
        db,
        error_response (msg_type register) (pos (response_code resp_error_user_exists)),
      )
      else (let user : User = record {
        user_id = 0;
        username = credentials.username;
        password = credentials.password;
      } in
          let (db, inserted, user) = insert_user sqlite db user in
          if not (is_zero inserted)
          then (
            pos (response_code resp_error_internal),
            db,
            error_response (msg_type register) (pos (response_code resp_error_internal)),
          )
          else (let (built, response) = build_register_response response user in
              if not (is_zero built)
              then (
                pos (response_code resp_error_internal),
                db,
                error_response (msg_type register) (pos (response_code resp_error_internal)),
              )
              else (pos (response_code resp_ok), db, response)))
  register_found db (negsuc n) credentials response = (
    pos (response_code resp_error_internal),
    db,
    error_response (msg_type register) (pos (response_code resp_error_internal)),
  )

  -- The return value, the database and the response afterwards.
  unfoldable pub register_user : State → Message → Message → ℤ × State × Message
  register_user db request response =
      let (rc, credentials) = parse_register_request request no_credentials in
      if not (is_zero rc)
      then (rc, db, error_response (msg_type register) rc)
      else (let (found, user) =
            get_user_by_username sqlite db (string_to_lower credentials.username) no_user in
          register_found db found credentials response)

  -- `login_user` once the user was found in the database.
  unfoldable pub login_found : ℕ → Table → User → Credentials → Message → ℤ × Table × Message
  login_found connfd t user credentials response =
      if not (bytes_eq user.password credentials.password)
      then (
        pos (response_code resp_error_invalid_credentials),
        t,
        error_response (msg_type login) (pos (response_code resp_error_invalid_credentials)),
      )
      else (let t = authenticate t connfd user in
          let (built, response) = build_login_response response user in
          if not (is_zero built)
          then (
            pos (response_code resp_error_internal),
            t,
            error_response (msg_type login) (pos (response_code resp_error_internal)),
          )
          else (pos (response_code resp_ok), t, response))

  -- `if (rc != 1) { if (rc == 0) … else … }`, and what follows.
  unfoldable pub login_lookup : ℕ → Table → ℤ → User → Credentials → Message → ℤ × Table × Message
  login_lookup connfd t (pos n) user credentials response =
      if n == 1
      then login_found connfd t user credentials response
      else if n == 0
      then (
        pos (response_code resp_error_user_not_found),
        t,
        error_response (msg_type login) (pos (response_code resp_error_user_not_found)),
      )
      else (
        pos (response_code resp_error_internal),
        t,
        error_response (msg_type login) (pos (response_code resp_error_internal)),
      )
  login_lookup connfd t (negsuc n) user credentials response = (
    pos (response_code resp_error_internal),
    t,
    error_response (msg_type login) (pos (response_code resp_error_internal)),
  )

  -- The return value, the connection table and the response afterwards.
  unfoldable pub login_user : ℕ → Table → State → Message → Message → ℤ × Table × Message
  login_user connfd t db request response =
      let (rc, credentials) = parse_login_request request no_credentials in
      if not (is_zero rc)
      then (rc, t, error_response (msg_type login) rc)
      else (let (found, user) =
            get_user_by_username sqlite db (string_to_lower credentials.username) no_user in
          login_lookup connfd t found user credentials response)

  -- `switch (request.type)`: the server and the response afterwards.
  unfoldable pub dispatch : ℕ → Server State → Message → Message → Server State × Message
  dispatch connfd s request response =
      if request.type == msg_type register
      then (let (_, db, response) = register_user s.database request response in
          (record s { database = db }, response))
      else if request.type == msg_type login
      then (let (_, t, response) = login_user connfd s.table s.database request response in
          (record s { table = t }, response))
      else if request.type == msg_type chat
      then (let (_, t, response) = handle_broadcast_message connfd s.table request response in
          (record s { table = t }, response))
      else (s, error_response request.type (pos (response_code resp_error_unknown_command)))

  unfoldable pub try_one_request : ℕ → Server State → Bool × Server State
  try_one_request connfd s =
      if ltb (length (incoming_of s.table connfd)) (msg_header_size + 1)
      then (false, s)
      else (let request = parse_message (incoming_of s.table connfd) in
          if ltb msg_max_payload_size request.payload_length
          then (false, record s { table = set_connection_state s.table connfd closing })
          else if ltb (length (incoming_of s.table connfd))
              (msg_header_size + request.payload_length)
          then (false, s)
          else (let (s, response) = dispatch connfd s request empty_response in
              (
                true,
                record s {
                  table = answer connfd s.table (msg_header_size + request.payload_length) response;
                },
              )))
