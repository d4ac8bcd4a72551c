-- ===== src/Server/Session/Keeps.antt =====
-- Serving requests opens and closes no connection, and keeps the connection table well formed.
use tcp_chat_server.Prelude.{
  ℕ, ◌+◌, ◌≡◌, refl, Bool, true, false, ℤ, pos, negsuc, length, set, ◌∙◌, if◌then◌else◌, length-set,
  ltb, ◌==◌, ◌⊎◌, [], Bool-cases, inl, inr,
}
use tcp_chat_server.Protocol.Types.{
  Message, User, Credentials, msg_header_size, msg_max_payload_size, msg_type, register, login,
  chat,
}
use tcp_chat_server.Protocol.Message.{parse_message, buf_consume}
use tcp_chat_server.Flags.{has_flag, is_active, want_write, to_auth}
use tcp_chat_server.Flags.Laws.{to_auth-Flags}
use tcp_chat_server.Database.{Sqlite}
use tcp_chat_server.Server.Table.{Table, flags_of, incoming_of, outgoing_of, closing}
use tcp_chat_server.Server.Table.Drains.{Drains, set_flags-Drains}
use tcp_chat_server.Server.Table.Layout.{
  IsTable, Evolves, Evolves-refl, Evolves-trans, set_flags-Evolves, set_incoming-Evolves,
  set_outgoing-Evolves, set_connection_state-Evolves,
}
use tcp_chat_server.Server.Broadcast.{Handled}
use tcp_chat_server.Server.Broadcast.Keeps.{handle_broadcast_message-Spares}
use tcp_chat_server.Server.Session.{
  Server, authenticate, login_found, login_lookup, login_user, dispatch, answer, try_one_request,
  empty_response,
}

-- What a handler returns: its table evolves from the one it got, what was received is still there,
-- and what stands to be sent is going to be written.
pub record Keeps (t : Table) (h : Handled) : Type 0 where
  pub evolves : Evolves t h.1
  pub incoming : h.1.conns.incoming_buffers ≡ t.conns.incoming_buffers
  pub drains : (j : ℕ) → Drains t j → Drains h.1 j

if-Keeps :
    (t : Table) (b : Bool) (h k : Handled) → Keeps t h → Keeps t k → Keeps t (if b then h else k)
if-Keeps t true h k kh kk = kh
if-Keeps t false h k kh kk = kk

same-Keeps : (t : Table) (code : ℤ) (m : Message) → IsTable t → Keeps t (code, t, m)
same-Keeps t code m v = record { evolves = Evolves-refl t v; incoming = refl; drains = λ j d. d }

module _ (connfd : ℕ) (t : Table) (v : IsTable t)
    (active : has_flag (flags_of t connfd) is_active ≡ true) where
  authenticate-Evolves : (user : User) → Evolves t (authenticate t connfd user)
  unfolding authenticate
  authenticate-Evolves user =
      let named : Table = record t {
        conns = record t.conns {
          user_ids = set t.conns.user_ids connfd user.user_id;
          usernames = set t.conns.usernames connfd user.username;
        };
      } in
      let v' : IsTable named = record {
        incoming_size = v.incoming_size;
        outgoing_size = v.outgoing_size;
        user_ids_size = length-set t.conns.user_ids connfd user.user_id ∙ v.user_ids_size;
        usernames_size = length-set t.conns.usernames connfd user.username ∙ v.usernames_size;
        slot = v.slot;
      } in
      let l = to_auth-Flags (flags_of t connfd) (v.slot connfd).in_range in
      let e =
        set_flags-Evolves named v' connfd (to_auth (flags_of t connfd)) l.fits (l.actives ∙ active)
          active in
      record { valid = e.valid; actives = e.actives; size = e.size }

  still_waits :
      Drains t connfd
      → (has_flag (to_auth (flags_of t connfd)) want_write ≡ true) ⊎ (outgoing_of t connfd ≡ [])
  still_waits d = elim d [
    | inl waits ↦ inl ((to_auth-Flags (flags_of t connfd) (v.slot connfd).in_range).writes ∙ waits)
    | inr empty ↦ inr empty
  ]

  authenticated-Keeps :
      (code : ℤ) (user : User) (m : Message) → Keeps t (code, authenticate t connfd user, m)
  unfolding authenticate
  authenticated-Keeps code user m = record {
    evolves = unfold authenticate in authenticate-Evolves user;
    incoming = refl;
    drains = λ j d. set_flags-Drains t connfd (to_auth (flags_of t connfd)) still_waits j d;
  }

  answer-Evolves :
      (consumed : ℕ) (response : Message) → Evolves t (answer connfd t consumed response)
  unfolding answer
  answer-Evolves consumed response =
      let e = set_incoming-Evolves t v connfd (buf_consume (incoming_of t connfd) consumed) in
      Evolves-trans t _ _ e (set_outgoing-Evolves _ e.valid connfd _)

  module _ (sqlite : Sqlite) where
    open sqlite use {State}

    login_found-Keeps :
        (user : User) (c : Credentials) (response : Message)
        → Keeps t (login_found sqlite connfd t user c response)
    unfolding login_found
    login_found-Keeps user c response = search (same-Keeps, if-Keeps, authenticated-Keeps)

    login_lookup-Keeps :
        (found : ℤ) (user : User) (c : Credentials) (response : Message)
        → Keeps t (login_lookup sqlite connfd t found user c response)
    unfolding login_lookup
    login_lookup-Keeps (pos n) user c response = search (same-Keeps, if-Keeps, login_found-Keeps)
    login_lookup-Keeps (negsuc n) user c response = same-Keeps t _ _ v

    login_user-Keeps :
        (db : State) (request response : Message)
        → Keeps t (login_user sqlite connfd t db request response)
    unfolding login_user
    login_user-Keeps db request response = search (same-Keeps, if-Keeps, login_lookup-Keeps)

module _ (sqlite : Sqlite) where
  open sqlite use {State}

  -- The rows of the connection table for a request, answered or not.
  -- A request that is dispatched opens and closes no connection, and takes nothing from what was
  -- received.
  pub dispatch-Keeps :
      (connfd : ℕ) (s : Server State) (request response : Message)
      → IsTable s.table
      → has_flag (flags_of s.table connfd) is_active ≡ true
      → let (s', answer) = dispatch sqlite connfd s request response in
        Keeps s.table (pos 0, s'.table, answer)
  unfolding dispatch
  dispatch-Keeps connfd s request response v active =
      let l = login_user-Keeps connfd s.table v active sqlite s.database request response in
      let b = handle_broadcast_message-Spares connfd s.table v request response in
      elim (Bool-cases (request.type == msg_type register)) [
        | inl r ↦ rw r (same-Keeps s.table _ _ v)
        | inr r ↦ rw r (elim (Bool-cases (request.type == msg_type login)) [
          | inl a ↦ rw a (record { evolves = l.evolves; incoming = l.incoming; drains = l.drains })
          | inr a ↦ rw a (elim (Bool-cases (request.type == msg_type chat)) [
            | inl c ↦
                rw c (record { evolves = b.evolves; incoming = b.incoming; drains = b.drains })
            | inr c ↦ rw c (same-Keeps s.table _ _ v)
          ])
        ])
      ]

  pub try_one_request-Evolves :
      (connfd : ℕ) (s : Server State)
      → IsTable s.table
      → has_flag (flags_of s.table connfd) is_active ≡ true
      → Evolves s.table (try_one_request sqlite connfd s).1.table
  unfolding try_one_request
  try_one_request-Evolves connfd s v active =
      let waiting = incoming_of s.table connfd in
      let request = parse_message waiting in
      elim (Bool-cases (ltb (length waiting) (msg_header_size + 1))) [
        | inl a ↦ rw a (Evolves-refl s.table v)
        | inr a ↦ rw a (elim (Bool-cases (ltb msg_max_payload_size request.payload_length)) [
          | inl b ↦ rw b (set_connection_state-Evolves s.table v connfd closing active)
          | inr b ↦
              rw b
                (elim (Bool-cases
                  (ltb (length waiting) (msg_header_size + request.payload_length))) [
                    | inl c ↦ rw c (Evolves-refl s.table v)
                    | inr c ↦
                        let (s', response) = dispatch sqlite connfd s request empty_response in
                        let e = (dispatch-Keeps connfd s request empty_response v active).evolves in
                        rw c (
                          Evolves-trans s.table s'.table _ e (
                            answer-Evolves connfd s'.table e.valid (e.actives connfd ∙ active) _
                              response))
                  ])
        ])
      ]
