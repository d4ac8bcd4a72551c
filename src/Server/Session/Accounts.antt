-- ===== src/Server/Session/Accounts.antt =====
-- Registering and logging in: what the one stores the other finds.
use tcp_chat_server.Prelude.{
  ℕ, ◌≡◌, ◌≤◌, ◌<◌, ◌%◌, refl, ◌∙◌, ap, none, List, length, bytes_eq_refl, pos, arith,
}
use tcp_chat_server.Protocol.Types.{
  Message, User, Credentials, msg_type, register, response_code, resp_ok, resp_error_user_exists,
}
use tcp_chat_server.Protocol.Message.{build_server_response}
use tcp_chat_server.Protocol.Credentials.{
  parse_register_request, parse_login_request, no_credentials,
}
use tcp_chat_server.Protocol.Accounts.{build_register_response, build_login_response, no_user}
use tcp_chat_server.Protocol.Accounts.RoundTrip.{
  parse_register_response-build_register_response, parse_login_response-build_login_response,
}
use tcp_chat_server.Database.{
  Sqlite, no_row, done, string_to_lower, get_user_by_username, insert_user, text_or_empty,
}
use tcp_chat_server.Database.Memory.{StoresUsers, IsText, string_to_lower-IsText}
use tcp_chat_server.Server.Table.{Table}
use tcp_chat_server.Server.Session.{
  authenticate, register_user, register_found, login_user, login_lookup, login_found,
}

module _ (sqlite : Sqlite) (stores : StoresUsers sqlite) where
  open sqlite use {State, select_by_lower_username, insert_row}

  module _ (db db' : State) (c : Credentials) (id : ℕ) (fits : id < 4294967296)
      (named : IsText c.username) (secret : IsText c.password) (short : length c.username ≤ 32)
      (missing : select_by_lower_username db (string_to_lower c.username) ≡ no_row)
      (inserted : insert_row db c.username c.password ≡ (db', done id)) where
    abbrev account : User
    account = record { user_id = id; username = c.username; password = c.password }

    register_user_stores :
        (request response : Message)
        → parse_register_request request no_credentials ≡ (pos 0, c)
        → register_user sqlite db request response
          ≡ (pos (response_code resp_ok), db', (build_register_response response account).1)
    unfolding register_user register_found get_user_by_username insert_user
    register_user_stores request response parsed =
        let (built, _, _, _) =
          parse_register_response-build_register_response response account fits short in
        let number : id % 4294967296 ≡ id = omega arith in
        rw
          (
            parsed,
            string_to_lower-IsText c.username named,
            missing,
            named,
            secret,
            inserted,
            number,
            built,
          )
          refl

    found_after :
        (key : List ℕ)
        → key ≡ string_to_lower c.username
        → get_user_by_username sqlite db' key no_user ≡ (pos 1, account)
    unfolding get_user_by_username text_or_empty
    found_after key e =
        let number : id % 4294967296 ≡ id = omega arith in
        rw
          (
            e,
            string_to_lower-IsText c.username named,
            stores.stored db db' c.username c.password id missing inserted,
            named,
            secret,
            number,
          )
          refl

    refused :
        (c' : Credentials) (again response : Message)
        → parse_register_request again no_credentials ≡ (pos 0, c')
        → string_to_lower c'.username ≡ string_to_lower c.username
        → register_user sqlite db' again response ≡ (
          pos (response_code resp_error_user_exists),
          db',
          build_server_response
              (msg_type register)
              (pos (response_code resp_error_user_exists))
              none
              0,
        )
    unfolding register_user register_found
    refused c' again response parsed same =
        rw (parsed, found_after (string_to_lower c'.username) same) refl

    -- A user who has registered can log in: the registration of a free username of at most 32 bytes
    -- is accepted and answered with the new id, and then a login with the same password, in any
    -- spelling of the username, is accepted. It gives the connection's slot that id and the
    -- username as it was registered, and authenticates it. The database stores users as its
    -- statements say, the INSERT succeeded with a 32-bit id, and the credentials have no zero byte.
    pub login_user-register_user :
        (connfd : ℕ) (t : Table) (c' : Credentials) (registration request : Message)
        (response response' : Message)
        → parse_register_request registration no_credentials ≡ (pos 0, c)
        → parse_login_request request no_credentials ≡ (pos 0, c')
        → string_to_lower c'.username ≡ string_to_lower c.username
        → c'.password ≡ c.password
        → (register_user sqlite db registration response
            ≡ (pos (response_code resp_ok), db', (build_register_response response account).1))
          × (login_user sqlite connfd t db' request response' ≡ (
            pos (response_code resp_ok),
            authenticate t connfd account,
            (build_login_response response' account).1,
          ))
    unfolding login_user login_lookup login_found
    login_user-register_user connfd t c' registration request response response' parsed again same
          right =
        let (built, _, _, _) =
          parse_login_response-build_login_response response' account fits short in
        (
          register_user_stores registration response parsed,
          rw
              (
                again,
                found_after (string_to_lower c'.username) same,
                right,
                bytes_eq_refl c.password,
                built,
              )
              refl,
        )

    -- After an accepted registration nobody can take the username in another spelling: a
    -- registration whose username has the same lower-case letters is rejected with
    -- RESP_ERROR_USER_EXISTS, and the database is as it was. The database stores users as its
    -- statements say, the first username was free, at most 32 bytes long, and the INSERT succeeded
    -- with a 32-bit id; the first credentials have no zero byte.
    pub register_user_taken :
        (c' : Credentials) (registration again : Message) (response response' : Message)
        → parse_register_request registration no_credentials ≡ (pos 0, c)
        → parse_register_request again no_credentials ≡ (pos 0, c')
        → string_to_lower c'.username ≡ string_to_lower c.username
        → (register_user sqlite db registration response).0 ≡ pos (response_code resp_ok)
          × (register_user sqlite (register_user sqlite db registration response).1 again response'
              ≡ (
                pos (response_code resp_error_user_exists),
                db',
                build_server_response
                    (msg_type register)
                    (pos (response_code resp_error_user_exists))
                    none
                    0,
              ))
    register_user_taken c' registration again response response' parsed parsed' same =
        let stored = register_user_stores registration response parsed in
        (
          ap (λ r. r.0) stored,
          ap (λ r. register_user sqlite r.1 again response') stored
              ∙ refused c' again response' parsed' same,
        )
