-- ===== src/Conversation/Served.antt =====
-- What the server's `try_one_request` makes of a login request with the right password.
use tcp_chat_server.Prelude.{
  ◌≡◌, ◌∙◌, sym, refl, ap, ℕ, ◌+◌, ◌≤◌, ◌<◌, some, [], ◌++◌, append-nil, get_or-set_self, length,
  true, false, bytes_eq, bytes_eq_refl, ◌==◌, pos, arith,
}
use tcp_chat_server.Protocol.Types.{Message, User, Credentials, msg_type, login}
use tcp_chat_server.Protocol.Message.{parse_message, write_message_to_buffer}
use tcp_chat_server.Protocol.Request.{Request}
use tcp_chat_server.Protocol.Credentials.{build_login_request, parse_login_request, no_credentials}
use tcp_chat_server.Protocol.Credentials.RoundTrip.{parse_login_request-build_login_request}
use tcp_chat_server.Protocol.Accounts.{build_login_response}
use tcp_chat_server.Protocol.Accounts.RoundTrip.{parse_login_response-build_login_response}
use tcp_chat_server.Flags.{has_flag, is_active, is_auth}
use tcp_chat_server.Database.{Sqlite, get_user_by_username, string_to_lower}
use tcp_chat_server.Server.Table.{
  Table, flags_of, incoming_of, outgoing_of, user_id_of, username_of,
}
use tcp_chat_server.Server.Table.Layout.{IsTable}
use tcp_chat_server.Server.Session.{
  Server, dispatch, try_one_request, empty_response, authenticate, login_user, login_lookup,
  login_found,
}
use tcp_chat_server.Protocol.Accounts.{no_user}
use tcp_chat_server.Protocol.Buffers.{credentials, Built-IsBuffered, build_login_request-short}
use tcp_chat_server.Server.Session.{answer}
use tcp_chat_server.Server.Session.Serving.{try_one_request-answer, incoming_lt}
use mathlib.Core.Path.{subst}
use tcp_chat_server.Flags.{to_auth, no_flags}
use tcp_chat_server.Flags.Laws.{to_auth-Flags}

module _ (sqlite : Sqlite) (connfd : ℕ) (s : Server sqlite.State) (m : Message) (c : Credentials)
    (user : User) (kind : m.type ≡ msg_type login)
    (parsed : parse_login_request m no_credentials ≡ (pos 0, c))
    (found : get_user_by_username sqlite s.database (string_to_lower c.username) no_user
      ≡ (pos 1, user))
    (right : user.password ≡ c.password) (small : user.user_id < 4294967296)
    (short : length user.username ≤ 32) where
  -- A login request with the right password is answered with the user.
  dispatch-login : dispatch sqlite connfd s m empty_response ≡ (
    record s { table = authenticate s.table connfd user },
    (build_login_response empty_response user).1,
  )
  unfolding dispatch login_user login_lookup login_found
  dispatch-login =
      let (built, _, _, _) =
        parse_login_response-build_login_response empty_response user small short in
      let other : (m.type == 0) ≡ false = ground arith in
      let own : (m.type == 1) ≡ true = ground arith in
      let same : bytes_eq user.password c.password ≡ true = rw right (bytes_eq_refl c.password) in
      rw (other, own) (rw (parsed, found, same, built) refl)

module _ (sqlite : Sqlite) (connfd : ℕ) (s : Server sqlite.State) (c : Credentials) (r : Request)
    (user : User) (v : IsTable s.table)
    (active : has_flag (flags_of s.table connfd) is_active ≡ true)
    (built : build_login_request c ≡ some r) (received : incoming_of s.table connfd ≡ r.bytes)
    (found : get_user_by_username sqlite s.database (string_to_lower c.username) no_user
      ≡ (pos 1, user))
    (right : user.password ≡ c.password) (small : user.user_id < 4294967296)
    (short : length user.username ≤ 32) where
  abbrev pub answered : Message
  answered = (build_login_response empty_response user).1

  -- The request as the server reads it.
  abbrev request : Message
  request = parse_message (incoming_of s.table connfd)

  request_carries :
      (r.message_len ≡ length r.bytes)
      × (request.type ≡ msg_type login)
      × (7 + request.payload_length ≡ r.message_len)
      × (parse_login_request request no_credentials ≡ (pos 0, c))
  request_carries =
      let (u, p) = build_login_request-short c r built in
      let (r', built', carries) = parse_login_request-build_login_request c u p in
      let (whole, carried) = carries in
      let same : r' ≡ r = cc in
      let front : parse_message (r'.bytes ++ []) ≡ request =
        ap parse_message (append-nil r'.bytes ∙ ap (λ q. q.bytes) same ∙ sym received) in
      let (_, kind, len, parsed) = carried [] in
      (
        ap (λ q. q.message_len) (sym same) ∙ whole ∙ ap (λ q. length q.bytes) same,
        ap (λ m. m.type) (sym front) ∙ kind,
        ap (λ m. 7 + m.payload_length) (sym front) ∙ len ∙ ap (λ q. q.message_len) same,
        ap (λ m. parse_login_request m no_credentials) (sym front) ∙ parsed,
      )

  pub login_served : try_one_request sqlite connfd s ≡ (
    true,
    record s { table = answer connfd (authenticate s.table connfd user) (length r.bytes) answered },
  )
  login_served =
      let (whole, kind, len, parsed) = request_carries in
      let fits = Built-IsBuffered r (credentials c built) in
      let size : length (incoming_of s.table connfd) ≡ length r.bytes = ap length received in
      let handled =
        dispatch-login sqlite connfd s request c user kind parsed found right small short in
      try_one_request-answer sqlite connfd s v active (omega (arith, fits.served))
        (omega (arith, fits.in_buffer)) (omega arith)
      ∙ rw handled (
          ap
            (λ n. (
              true,
              record s { table = answer connfd (authenticate s.table connfd user) n answered },
            ))
            (len ∙ whole))

  abbrev pub after : Table
  after = (try_one_request sqlite connfd s).1.table

  -- What the login leaves in the connection's slot.
  pub record IsLoggedIn (t : Table) : Type 0 where
    pub auth : has_flag (flags_of t connfd) is_auth ≡ true
    pub id : user_id_of t connfd ≡ user.user_id
    pub name : username_of t connfd ≡ user.username
    pub outgoing :
        outgoing_of t connfd ≡ write_message_to_buffer (outgoing_of s.table connfd) answered

  logged_slot : (n : ℕ) → IsLoggedIn (answer connfd (authenticate s.table connfd user) n answered)
  unfolding answer authenticate
  logged_slot n =
      let fits = Built-IsBuffered r (credentials c built) in
      let here = incoming_lt s.table connfd (omega (arith, ap length received, fits.served)) in
      let mask =
        get_or-set_self s.table.conns.flags connfd (to_auth (flags_of s.table connfd)) no_flags
          (omega (arith, v.incoming_size)) in
      record {
        auth =
            ap (λ f. has_flag f is_auth) mask
            ∙ (to_auth-Flags (flags_of s.table connfd) (v.slot connfd).in_range).auths;
        id =
            get_or-set_self s.table.conns.user_ids connfd user.user_id 0
              (omega (arith, v.incoming_size, v.user_ids_size));
        name =
            get_or-set_self s.table.conns.usernames connfd user.username []
              (omega (arith, v.incoming_size, v.usernames_size));
        outgoing =
            get_or-set_self s.table.conns.outgoing_buffers connfd
              (write_message_to_buffer (outgoing_of s.table connfd) answered) []
              (omega (arith, v.incoming_size, v.outgoing_size));
      }

  pub after-IsLoggedIn : IsLoggedIn after
  after-IsLoggedIn =
      subst IsLoggedIn (sym (ap (λ p. p.1.table) login_served)) (logged_slot (length r.bytes))
