-- ===== src/Server/Logins/Requests.antt =====
-- A request makes at most one step of the abstract machine.
use mathlib.Core.Path.{fun_ext, subst}
use tcp_chat_server.Prelude.{
  ℕ, ◌+◌, ◌⊎◌, ◌≡◌, ◌≢◌, ◌∙◌, refl, sym, some, true, false, ◌==◌, ltb, length, Bool-cases, inl, inr,
  ℤ, pos, negsuc, is_zero, arith,
}
use tcp_chat_server.Protocol.Types.{
  Message, User, Credentials, msg_type, register, msg_header_size, msg_max_payload_size,
}
use tcp_chat_server.Protocol.Message.{parse_message}
use tcp_chat_server.Protocol.Credentials.{parse_register_request, no_credentials}
use tcp_chat_server.Protocol.Accounts.{no_user, build_register_response}
use tcp_chat_server.Database.{Sqlite, get_user_by_username, insert_user, string_to_lower}
use tcp_chat_server.Server.Table.{Table, incoming_of, closing, set_connection_state}
use tcp_chat_server.Server.Table.Layout.{IsTable}
use tcp_chat_server.Server.Session.{
  Server, register_user, register_found, dispatch, answer, try_one_request, empty_response,
}
use tcp_chat_server.Server.Session.Login.{
  Grants, Authentication, as_before, granted, dispatch_authenticates,
}
use tcp_chat_server.Server.Logins.{View, registers, logs_in, Reach, here, next, Reach-trans}
use tcp_chat_server.Server.Logins.Keeps.{session_of, session_eq, set_connection_state-session}

-- What the abstract machine sees of the server.
abbrev pub view : {D : Type 0} → Server D → View D
view s = record { sessions = session_of s.table; database = s.database }

pub view_eq :
    {D : Type 0} (s s' : Server D)
    → ((j : ℕ) → session_of s'.table j ≡ session_of s.table j)
    → s'.database ≡ s.database
    → view s' ≡ view s
view_eq s s' same db i = record { sessions = fun_ext same i; database = db i }

module _ (sqlite : Sqlite) where
  open sqlite use {State}

  -- No session and no row changed.
  pub unchanged : (v w : View State) → w ≡ v → Reach sqlite v w
  unchanged v w e = subst (Reach sqlite v) (sym e) here

  -- A registration leaves the database as it was, or stores one user whose name was free.
  data Registered (db db' : State) : Type 0 where
    nobody : db' ≡ db → Registered db db'
    somebody :
        (user : User)
        → (get_user_by_username sqlite db (string_to_lower user.username) no_user).0 ≢ pos 1
        → db' ≡ (insert_user sqlite db user).0
        → Registered db db'

  register_found-Registered :
      (db : State) (found : ℤ) (c : Credentials) (response : Message)
      → (get_user_by_username sqlite db (string_to_lower c.username) no_user).0 ≡ found
      → Registered db (register_found sqlite db found c response).1
  unfolding register_found
  register_found-Registered db (negsuc n) c response e = nobody refl
  register_found-Registered db (pos n) c response e = elim (Bool-cases (n == 1)) [
    | inl taken ↦ rw taken (nobody refl)
    | inr free ↦
        let user : User = record { user_id = 0; username = c.username; password = c.password } in
        let inserted = insert_user sqlite db user in
        let other : pos n ≢ pos 1 = λ same. ground arith in
        let stored : Registered db inserted.0 = somebody user (λ same. other (sym e ∙ same)) refl in
        rw free (elim (Bool-cases (is_zero inserted.1)) [
          | inl ok ↦
              rw ok (elim (Bool-cases (is_zero (build_register_response response inserted.2).0)) [
                | inl b ↦ rw b stored
                | inr b ↦ rw b stored
              ])
          | inr failed ↦ rw failed stored
        ])
  ]

  register_user-Registered :
      (db : State) (request response : Message)
      → Registered db (register_user sqlite db request response).1
  unfolding register_user
  register_user-Registered db request response =
      let got = parse_register_request request no_credentials in
      elim (Bool-cases (is_zero got.0)) [
        | inl ok ↦ rw ok (register_found-Registered db _ got.1 response refl)
        | inr failed ↦ rw failed (nobody refl)
      ]

  module _ (connfd : ℕ) where
    -- Slots of which none is newly granted.
    Authentication-session :
        (db : State) (request : Message) (t t' : Table) (j : ℕ)
        → (connfd == j) ≡ false
        → Authentication sqlite connfd db request t t' j
        → session_of t' j ≡ session_of t j
    Authentication-session db request t t' j other (as_before auth id name) =
        session_eq t t' j auth id name
    Authentication-session db request t t' j other (granted user grants own auth id name) = cc

    own_slot :
        (db : State) (request : Message) (t t' : Table)
        → Authentication sqlite connfd db request t t' connfd
        → (session_of t' connfd ≡ session_of t connfd)
          ⊎ ((user : User) × Grants sqlite db request user
              × (session_of t' connfd ≡ some (user.user_id, user.username)))
    own_slot db request t t' (as_before auth id name) = inl (session_eq t t' connfd auth id name)
    own_slot db request t t' (granted user grants own auth id name) =
        inr (user, grants, rw (auth, id, name) refl)

    slots-Reach :
        (s s' : Server State) (request : Message)
        → ((j : ℕ) → Authentication sqlite connfd s.database request s.table s'.table j)
        → s'.database ≡ s.database
        → Reach sqlite (view s) (view s')
    slots-Reach s s' request slots db =
        let others = λ (j : ℕ) (other : (connfd == j) ≡ false).
          Authentication-session s.database request s.table s'.table j other (slots j) in
        elim (own_slot s.database request s.table s'.table (slots connfd)) [
          | inl same ↦ unchanged (view s) (view s') (
              view_eq s s'
                (λ j. elim (Bool-cases (connfd == j)) [
                  | inl own ↦
                      (let e : connfd ≡ j = ground arith in
                        subst (λ k. session_of s'.table k ≡ session_of s.table k) e same)
                  | inr other ↦ others j other
                ])
                db)
          | inr (user, grants, session) ↦
              next here
                (logs_in connfd grants.credentials.username user grants.found session others db)
        ]

    dispatch-database :
        (s : Server State) (request response : Message)
        → (request.type == msg_type register) ≡ false
        → (dispatch sqlite connfd s request response).0.database ≡ s.database
    unfolding dispatch
    dispatch-database s request response other = rw other (ground arith)

    dispatch-register :
        (s : Server State) (request response : Message)
        → (request.type == msg_type register) ≡ true
        → (dispatch sqlite connfd s request response).0
          ≡ record s { database = (register_user sqlite s.database request response).1 }
    unfolding dispatch
    dispatch-register s request response own = rw own refl

    Registered-Reach :
        (s : Server State) (db : State)
        → Registered s.database db
        → Reach sqlite (view s) (view (record s { database = db }))
    Registered-Reach s db (nobody e) =
        unchanged (view s) (view (record s { database = db }))
          (view_eq s (record s { database = db }) (λ j. refl) e)
    Registered-Reach s db (somebody user free stored) = next here (registers user free stored refl)

    -- A request that is dispatched makes at most one step.
    dispatch-Reach :
        (s : Server State) (request response : Message)
        → IsTable s.table
        → Reach sqlite (view s) (view (dispatch sqlite connfd s request response).0)
    dispatch-Reach s request response v = elim (Bool-cases (request.type == msg_type register)) [
      | inl own ↦
          subst (λ s'. Reach sqlite (view s) (view s'))
            (sym (dispatch-register s request response own))
            (Registered-Reach s _ (register_user-Registered s.database request response))
      | inr other ↦
          slots-Reach s (dispatch sqlite connfd s request response).0 request
            (λ j. dispatch_authenticates sqlite connfd s.table s.database request v response j)
            (dispatch-database s request response other)
    ]

    answer-session :
        (t : Table) (consumed : ℕ) (response : Message) (j : ℕ)
        → session_of (answer connfd t consumed response) j ≡ session_of t j
    unfolding answer
    answer-session t consumed response j = refl

    -- So does a call of `try_one_request`.
    pub try_one_request-Reach :
        (s : Server State)
        → IsTable s.table
        → Reach sqlite (view s) (view (try_one_request sqlite connfd s).1)
    unfolding try_one_request
    try_one_request-Reach s v =
        let waiting = incoming_of s.table connfd in
        let request = parse_message waiting in
        elim (Bool-cases (ltb (length waiting) (msg_header_size + 1))) [
          | inl a ↦ rw a here
          | inr a ↦ rw a (elim (Bool-cases (ltb msg_max_payload_size request.payload_length)) [
            | inl b ↦ rw b (
                unchanged (view s) _ (
                  view_eq s (record s { table = set_connection_state s.table connfd closing })
                    (λ j. set_connection_state-session s.table connfd closing j v) refl))
            | inr b ↦
                rw b
                  (elim (Bool-cases
                    (ltb (length waiting) (msg_header_size + request.payload_length))) [
                      | inl c ↦ rw c here
                      | inr c ↦
                          let (s', response) = dispatch sqlite connfd s request empty_response in
                          let n = msg_header_size + request.payload_length in
                          rw c (
                            Reach-trans sqlite (dispatch-Reach s request empty_response v) (
                              unchanged (view s') _ (
                                view_eq s' (record s' { table = answer connfd s'.table n response })
                                  (λ j. answer-session s'.table n response j) refl)))
                    ])
          ])
        ]
