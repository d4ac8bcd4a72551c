-- ===== src/Server/Logins/Refines.antt =====
-- The event loop of src/server.cpp implements the abstract machine of logins.
use tcp_chat_server.Prelude.{
  ℕ, zero, suc, ◌≡◌, ◌∙◌, refl, ap, List, [], ◌∷◌, Bool, true, false, ◌||◌, ◌==◌, ltb, length,
  get_or-set, get_or, set, ◌+◌, ◌-◌, ◌++◌, leb, Bool-cases, inl, inr,
}
use tcp_chat_server.Flags.{
  has_flag, ConnFlags, is_active, is_auth, want_read, want_write, want_close, no_flags, flags_or,
}
use tcp_chat_server.Database.{Sqlite}
use tcp_chat_server.Server.Table.{
  Table, flags_of, incoming_of, outgoing_of, writing, closing, set_flags, set_connection_state,
  register_connection, remove_connection, grow, add_in,
}
use tcp_chat_server.Server.Table.Layout.{IsTable, flag_active}
use tcp_chat_server.Server.Session.{Server, try_one_request}
use tcp_chat_server.Server.Session.Keeps.{try_one_request-Evolves}
use tcp_chat_server.Server.Loop.{
  Reads, Writes, ReadEnd, would_block, read_error, end_of_file, append_chunks, write_counts,
  handle_write_connection, serve_requests, start_writing, end_reading, handle_read_connection,
}
use tcp_chat_server.Server.Loop.Invariant.{
  append_chunks-Evolves, serve_requests-Evolves, if_reading, if_writing, if_closing,
}
use tcp_chat_server.Server.Loop.Fresh.{get_or-extended}
use tcp_chat_server.Server.Logins.{leaves, Reach, here, next, Reach-trans}
use tcp_chat_server.Server.Logins.Keeps.{
  session_of, session_eq, set_connection_state-session, append_chunks-session, write_counts-session,
}
use tcp_chat_server.Server.Logins.Requests.{view, view_eq, unchanged, try_one_request-Reach}

-- A slot that gets a mask without IS_AUTH is without it, also if there is no such slot.
unauthenticated :
    (masks : List ConnFlags) (fd : ℕ) (f : ConnFlags)
    → has_flag f is_auth ≡ false
    → has_flag (get_or (set masks fd f) fd no_flags) is_auth ≡ false
unfolding has_flag
unauthenticated [] fd f guest = refl
unauthenticated (m ∷ masks) zero f guest = guest
unauthenticated (m ∷ masks) (suc fd) f guest = unauthenticated masks fd f guest

other_session :
    (t : Table) (fd j : ℕ) (f : ConnFlags)
    → (fd == j) ≡ false
    → session_of (set_flags t fd f) j ≡ session_of t j
other_session t fd j f other =
    session_eq t (set_flags t fd f) j
      (ap (λ m. has_flag m is_auth) (get_or-set t.conns.flags fd j f no_flags ∙ rw other refl)) refl
      refl

grown_session :
    (t grown : Table) (fd j : ℕ)
    → grown.conns ≡ grow t.conns fd
    → session_of grown j ≡ session_of t j
unfolding grow
grown_session t grown fd j e = elim (Bool-cases (leb (length t.conns.flags) fd)) [
  | inl small ↦ rw e (
      rw small (
        rw
          (
            get_or-extended t.conns.flags (fd + 1 - length t.conns.flags) j no_flags,
            get_or-extended t.conns.user_ids (fd + 1 - length t.conns.user_ids) j 0,
            get_or-extended t.conns.usernames (fd + 1 - length t.conns.usernames) j [],
          )
          refl))
  | inr large ↦ rw e (rw large refl)
]

module _ (sqlite : Sqlite) where
  open sqlite use {State}

  serve_requests-Reach :
      (fuel connfd : ℕ) (s : Server State)
      → IsTable s.table
      → has_flag (flags_of s.table connfd) is_active ≡ true
      → Reach sqlite (view s) (view (serve_requests sqlite fuel connfd s))
  unfolding serve_requests
  serve_requests-Reach zero connfd s v active = here
  serve_requests-Reach (suc fuel) connfd s v active =
      let s' = (try_one_request sqlite connfd s).1 in
      let e = try_one_request-Evolves sqlite connfd s v active in
      let one = try_one_request-Reach sqlite connfd s v in
      elim (Bool-cases (try_one_request sqlite connfd s).0) [
        | inl served ↦ rw served (
            Reach-trans sqlite one
              (serve_requests-Reach fuel connfd s' e.valid (e.actives connfd ∙ active)))
        | inr stopped ↦ rw stopped one
      ]

  -- A new table with the same sessions is no step.
  same-Reach :
      (s : Server State) (t : Table)
      → ((j : ℕ) → session_of t j ≡ session_of s.table j)
      → Reach sqlite (view s) (view (record s { table = t }))
  same-Reach s t same =
      unchanged sqlite (view s) (view (record s { table = t }))
        (view_eq s (record s { table = t }) same refl)

  start_writing-Reach :
      (connfd : ℕ) (s : Server State)
      → IsTable s.table
      → Reach sqlite (view s) (view (start_writing sqlite connfd s))
  unfolding start_writing
  start_writing-Reach connfd s v = elim (Bool-cases (ltb 0 (length (outgoing_of s.table connfd)))) [
    | inl more ↦ rw more (
        same-Reach s (set_connection_state s.table connfd writing)
          (λ j. set_connection_state-session s.table connfd writing j v))
    | inr empty ↦ rw empty here
  ]

  end_reading-Reach :
      (connfd : ℕ) (ending : ReadEnd) (s : Server State)
      → IsTable s.table
      → has_flag (flags_of s.table connfd) is_active ≡ true
      → Reach sqlite (view s) (view (end_reading sqlite connfd ending s))
  unfolding end_reading
  end_reading-Reach connfd would_block s v active =
      let fuel = suc (length (incoming_of s.table connfd)) in
      let e = serve_requests-Evolves sqlite fuel connfd s v active in
      Reach-trans sqlite (serve_requests-Reach fuel connfd s v active)
        (start_writing-Reach connfd (serve_requests sqlite fuel connfd s) e.valid)
  end_reading-Reach connfd read_error s v active =
      same-Reach s (set_connection_state s.table connfd closing)
        (λ j. set_connection_state-session s.table connfd closing j v)
  end_reading-Reach connfd end_of_file s v active =
      same-Reach s (set_connection_state s.table connfd closing)
        (λ j. set_connection_state-session s.table connfd closing j v)

  pub if_reading-Reach :
      (fd : ℕ) (reads : Reads) (s : Server State)
      → IsTable s.table
      → Reach sqlite (view s) (view (if_reading sqlite fd reads s))
  unfolding handle_read_connection
  if_reading-Reach fd reads s v = elim (Bool-cases (has_flag (flags_of s.table fd) want_read)) [
    | inl read ↦
        let active = flag_active s.table v fd want_read (unfold has_flag in refl) read in
        let e = append_chunks-Evolves s.table fd reads.chunks v in
        rw read (
          Reach-trans sqlite
            (same-Reach s (append_chunks s.table fd reads.chunks)
              (append_chunks-session s.table fd reads.chunks))
            (end_reading-Reach fd reads.ending
              (record s { table = append_chunks s.table fd reads.chunks }) e.valid
              (e.actives fd ∙ active)))
    | inr idle ↦ rw idle here
  ]

  pub if_writing-Reach :
      (fd : ℕ) (writes : Writes) (s : Server State)
      → IsTable s.table
      → Reach sqlite (view s) (view (if_writing sqlite fd writes s))
  unfolding handle_write_connection
  if_writing-Reach fd writes s v = elim (Bool-cases (has_flag (flags_of s.table fd) want_write)) [
    | inl write ↦ rw write (
        same-Reach s (write_counts s.table fd writes.counts writes.failed)
          (λ j. write_counts-session s.table fd writes.counts writes.failed j v))
    | inr idle ↦ rw idle here
  ]

  -- A slot whose mask lost IS_AUTH has no session, and the others keep theirs.
  emptied :
      (s : Server State) (t : Table) (fd : ℕ)
      → has_flag (flags_of t fd) is_auth ≡ false
      → ((j : ℕ) → (fd == j) ≡ false → session_of t j ≡ session_of s.table j)
      → Reach sqlite (view s) (view (record s { table = t }))
  emptied s t fd guest others = next here (leaves fd (rw guest refl) others refl)

  pub if_closing-Reach :
      (fd : ℕ) (error : Bool) (s : Server State)
      → Reach sqlite (view s) (view (if_closing sqlite fd error s))
  unfolding remove_connection
  if_closing-Reach fd error s =
      elim (Bool-cases (error || has_flag (flags_of s.table fd) want_close)) [
        | inl close ↦ rw close (
            emptied s (remove_connection s.table fd) fd
              (unauthenticated s.table.conns.flags fd no_flags (unfold has_flag in refl))
              (λ j other. other_session s.table fd j no_flags other))
        | inr stay ↦ rw stay here
      ]

  pub register_connection-Reach :
      (s : Server State) (fd : ℕ) (added : Bool)
      → Reach sqlite (view s) (view (record s { table = register_connection s.table fd added }))
  unfolding register_connection
  register_connection-Reach s fd false = here
  register_connection-Reach s fd true =
      let opened = flags_or is_active want_read in
      let grown : Table = record {
        conns = grow s.table.conns fd;
        epoll = s.table.epoll ++ (add_in fd ∷ []);
      } in
      emptied s (register_connection s.table fd true) fd
        (unauthenticated grown.conns.flags fd opened (unfold has_flag in refl))
        (λ j other. other_session grown fd j opened other ∙ grown_session s.table grown fd j refl)
