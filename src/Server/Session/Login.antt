-- ===== src/Server/Session/Login.antt =====
-- Who becomes authenticated: only the connection whose own LOGIN request names a user of the
-- database and his password.
use tcp_chat_server.Prelude.{
  ℕ, ◌≡◌, refl, ◌∙◌, ap, [], Bool, true, false, not, ◌==◌, inl, inr, Bool-cases, ℤ, pos, negsuc,
  is_zero, is_zero→eq, pair_eq, bytes_eq, bytes_eq→eq, length, get_or, get_or-set, ltb, ◌&&◌,
  if◌then◌else◌, arith,
}
use tcp_chat_server.Protocol.Types.{Message, User, Credentials, msg_type, register, login, chat}
use tcp_chat_server.Protocol.Credentials.{parse_login_request, no_credentials}
use tcp_chat_server.Protocol.Accounts.{build_login_response, no_user}
use tcp_chat_server.Flags.{has_flag, is_auth, to_auth, no_flags}
use tcp_chat_server.Flags.Laws.{to_auth-Flags}
use tcp_chat_server.Database.{Sqlite, get_user_by_username, string_to_lower}
use tcp_chat_server.Server.Table.{Table, flags_of, user_id_of, username_of}
use tcp_chat_server.Server.Table.Layout.{IsTable}
use tcp_chat_server.Server.Broadcast.{Handled}
use tcp_chat_server.Server.Broadcast.Keeps.{handle_broadcast_message-Spares}
use tcp_chat_server.Server.Broadcast.Delivery.{and_true}
use tcp_chat_server.Server.Session.{
  Server, authenticate, login_found, login_lookup, login_user, dispatch,
}

module _ (sqlite : Sqlite) where
  open sqlite use {State}

  -- The request holds credentials that parse, and the lookup of the username, in lower case, found
  -- this user with this password.
  pub record Grants (db : State) (request : Message) (user : User) : Type 0 where
    pub credentials : Credentials
    pub parsed : parse_login_request request no_credentials ≡ (pos 0, credentials)
    pub found :
        get_user_by_username sqlite db (string_to_lower credentials.username) no_user
        ≡ (pos 1, user)
    pub password : user.password ≡ credentials.password

  -- A slot is as it was, or it is the request's own and has now become the granted user's.
  pub data Authentication (connfd : ℕ) (db : State) (request : Message) (t t' : Table) (j : ℕ)
      : Type 0 where
    as_before :
        has_flag (flags_of t' j) is_auth ≡ has_flag (flags_of t j) is_auth
        → user_id_of t' j ≡ user_id_of t j
        → username_of t' j ≡ username_of t j
        → Authentication connfd db request t t' j
    granted :
        (user : User)
        → Grants db request user
        → (connfd == j) ≡ true
        → has_flag (flags_of t' j) is_auth ≡ true
        → user_id_of t' j ≡ user.user_id
        → username_of t' j ≡ user.username
        → Authentication connfd db request t t' j

  module _ (connfd : ℕ) (t : Table) (db : State) (request : Message) (v : IsTable t) where
    same_slot : (j : ℕ) → Authentication connfd db request t t j
    same_slot j = as_before refl refl refl

    authenticate_slot :
        (user : User) (j : ℕ)
        → Grants db request user
        → Authentication connfd db request t (authenticate t connfd user) j
    unfolding authenticate
    authenticate_slot user j grants =
        let mask = get_or-set t.conns.flags connfd j (to_auth (flags_of t connfd)) no_flags in
        let id = get_or-set t.conns.user_ids connfd j user.user_id 0 in
        let name = get_or-set t.conns.usernames connfd j user.username [] in
        let l = to_auth-Flags (flags_of t connfd) (v.slot connfd).in_range in
        let ids : (connfd == j && ltb connfd (length t.conns.user_ids))
            ≡ (connfd == j && ltb connfd (length t.conns.flags)) =
          ap (λ n. connfd == j && ltb connfd n) v.user_ids_size in
        let names : (connfd == j && ltb connfd (length t.conns.usernames))
            ≡ (connfd == j && ltb connfd (length t.conns.flags)) =
          ap (λ n. connfd == j && ltb connfd n) v.usernames_size in
        elim (Bool-cases (connfd == j && ltb connfd (length t.conns.flags))) [
          | inl own ↦
              granted user grants (and_true _ _ own)
                (ap (λ f. has_flag f is_auth) (rw own at mask) ∙ l.auths) (rw (ids ∙ own) at id)
                (rw (names ∙ own) at name)
          | inr other ↦
              as_before (ap (λ f. has_flag f is_auth) (rw other at mask)) (rw (ids ∙ other) at id)
                (rw (names ∙ other) at name)
        ]

    -- What a handler returns, of every slot.
    record Authenticates (h : Handled) : Type 0 where
      slot : (j : ℕ) → Authentication connfd db request t h.1 j

    if-Authenticates :
        (b : Bool) (h k : Handled)
        → Authenticates h
        → Authenticates k
        → Authenticates (if b then h else k)
    if-Authenticates true h k ah ak = ah
    if-Authenticates false h k ah ak = ak

    same-Authenticates : (code : ℤ) (m : Message) → Authenticates (code, t, m)
    same-Authenticates code m = record { slot = same_slot }

    login_found-Authenticates :
        (user : User) (c : Credentials) (response : Message)
        → parse_login_request request no_credentials ≡ (pos 0, c)
        → get_user_by_username sqlite db (string_to_lower c.username) no_user ≡ (pos 1, user)
        → Authenticates (login_found sqlite connfd t user c response)
    unfolding login_found
    login_found-Authenticates user c response parsed found =
        elim (Bool-cases (bytes_eq user.password c.password)) [
          | inl right ↦
              let grants : Grants db request user = record {
                credentials = c;
                parsed = parsed;
                found = found;
                password = bytes_eq→eq user.password c.password right;
              } in
              let done : (code : ℤ) (m : Message)
                  → Authenticates (code, authenticate t connfd user, m) =
                λ code m. record { slot = λ j. authenticate_slot user j grants } in
              rw right (
                if-Authenticates (not (is_zero (build_login_response response user).0)) _ _
                  (done _ _) (done _ _))
          | inr wrong ↦ rw wrong (same-Authenticates _ _)
        ]

    login_lookup-Authenticates :
        (rc : ℤ) (user : User) (c : Credentials) (response : Message)
        → parse_login_request request no_credentials ≡ (pos 0, c)
        → get_user_by_username sqlite db (string_to_lower c.username) no_user ≡ (rc, user)
        → Authenticates (login_lookup sqlite connfd t rc user c response)
    unfolding login_lookup
    login_lookup-Authenticates (negsuc n) user c response parsed found = same-Authenticates _ _
    login_lookup-Authenticates (pos n) user c response parsed found = elim (Bool-cases (n == 1)) [
      | inl one ↦
          let e : n ≡ 1 = ground arith in
          rw one
            (login_found-Authenticates user c response parsed (found ∙ ap (λ k. (pos k, user)) e))
      | inr other ↦
          rw other (if-Authenticates (n == 0) _ _ (same-Authenticates _ _) (same-Authenticates _ _))
    ]

    login_user-Authenticates :
        (response : Message) → Authenticates (login_user sqlite connfd t db request response)
    unfolding login_user
    login_user-Authenticates response =
        let got = parse_login_request request no_credentials in
        let looked = get_user_by_username sqlite db (string_to_lower got.1.username) no_user in
        elim (Bool-cases (is_zero got.0)) [
          | inl ok ↦ rw ok (
              login_lookup-Authenticates looked.0 looked.1 got.1 response
                (pair_eq got (is_zero→eq got.0 ok)) refl)
          | inr failed ↦ rw failed (same-Authenticates _ _)
        ]

    -- However a request is dispatched, every slot of the connection table is authenticated exactly
    -- if it was before, and keeps its user id and username; or it is the request's own slot, the
    -- request holds credentials that parse, the lookup of their username in lower case found a user
    -- of the database with their password, and the slot is authenticated and has that user's id and
    -- username. The table is well formed.
    pub dispatch_authenticates :
        (answers : Message) (j : ℕ)
        → let s : Server State = record { table = t; database = db } in
          let (s', answer) = dispatch sqlite connfd s request answers in
          Authentication connfd db request t s'.table j
    unfolding dispatch
    dispatch_authenticates answers j =
        let b = handle_broadcast_message-Spares connfd t v request answers in
        elim (Bool-cases (request.type == msg_type register)) [
          | inl r ↦ rw r (same_slot j)
          | inr r ↦ rw r (elim (Bool-cases (request.type == msg_type login)) [
            | inl a ↦ rw a ((login_user-Authenticates answers).slot j)
            | inr a ↦ rw a (elim (Bool-cases (request.type == msg_type chat)) [
              | inl c ↦ rw c (
                  as_before (b.auths j) (ap (λ xs. get_or xs j 0) b.user_ids)
                    (ap (λ xs. get_or xs j []) b.usernames))
              | inr c ↦ rw c (same_slot j)
            ])
          ])
        ]
