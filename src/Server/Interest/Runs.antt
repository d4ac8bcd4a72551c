-- ===== src/Server/Interest/Runs.antt =====
-- The event loop keeps the flags and what epoll was told in agreement.
use mathlib.Core.Path.{subst}
use tcp_chat_server.Prelude.{
  ℕ, zero, suc, ◌≡◌, refl, sym, arith, some, none, List, [], ◌∷◌, Bool, true, false, length, ltb,
  if◌then◌else◌, Option-cases, inl, inr,
}
use tcp_chat_server.Protocol.Message.{buf_append, buf_consume}
use tcp_chat_server.Flags.{has_flag, want_read, is_active, flags_or, no_flags}
use tcp_chat_server.Database.{Sqlite}
use tcp_chat_server.Server.Table.{
  Table, flags_of, incoming_of, outgoing_of, set_incoming, set_outgoing, reading, writing, closing,
  add_in, grow, register_connection, create_connection_manager,
}
use tcp_chat_server.Server.Session.{Server}
use tcp_chat_server.Server.Loop.Accepting.{register_all, handle_event_added, handle_event_console}
use tcp_chat_server.Server.Loop.{
  Accepted, wait_failed, Reads, Writes, ReadEnd, would_block, read_error, end_of_file, Event,
  listening, console, connection, append_chunks, write_counts, handle_write_connection,
  serve_requests, start_writing, end_reading, handle_read_connection, handle_connection,
  handle_event, run,
}
use tcp_chat_server.Server.Loop.Fresh.{flags-grow, get_or-default}
use tcp_chat_server.Server.Interest.{
  IsWatched, Agrees, unwatched, no_flags-Agrees, after_call, interest, call_epoll-IsWatched,
  set_connection_state-IsWatched, remove_connection-IsWatched,
}
use tcp_chat_server.Server.Interest.Handlers.{if-IsWatched, try_one_request-IsWatched}

append_chunks-IsWatched :
    (t : Table) (connfd : ℕ) (chunks : List (List ℕ))
    → IsWatched t
    → IsWatched (append_chunks t connfd chunks)
unfolding append_chunks
append_chunks-IsWatched t connfd [] a = a
append_chunks-IsWatched t connfd (chunk ∷ chunks) a =
    append_chunks-IsWatched
      (set_incoming t connfd (buf_append (incoming_of t connfd) chunk (length chunk))) connfd chunks
      a

write_counts-IsWatched :
    (t : Table) (connfd : ℕ) (counts : List ℕ) (failed : Bool)
    → IsWatched t
    → IsWatched (write_counts t connfd counts failed)
unfolding write_counts
write_counts-IsWatched t connfd [] false a = a
write_counts-IsWatched t connfd [] true a = set_connection_state-IsWatched t a connfd closing
write_counts-IsWatched t connfd (n ∷ counts) failed a =
    let u = set_outgoing t connfd (buf_consume (outgoing_of t connfd) n) in
    if-IsWatched (ltb 0 (length (outgoing_of u connfd))) (write_counts u connfd counts failed) _
      (write_counts-IsWatched u connfd counts failed a)
      (set_connection_state-IsWatched u a connfd reading)

register_connection-IsWatched :
    (t : Table) (fd : ℕ) (added : Bool) → IsWatched t → IsWatched (register_connection t fd added)
unfolding register_connection after_call has_flag
register_connection-IsWatched t fd false a = a
register_connection-IsWatched t fd true a =
    let grown : Table = record t { conns = grow t.conns fd } in
    let b : IsWatched grown = λ j.
      subst (λ f. Agrees f (interest t.epoll unwatched j)) (sym (flags-grow t.conns fd j)) (a j) in
    call_epoll-IsWatched grown fd (flags_or is_active want_read) b (add_in fd)
      (λ w. record { in_range = omega arith; reads = λ e. ground arith; writes = λ e. cc })
      (λ w j other. rw other refl)

register_all-IsWatched :
    (accepted : List Accepted) (t : Table) → IsWatched t → IsWatched (register_all t accepted)
unfolding register_all
register_all-IsWatched [] t a = a
register_all-IsWatched (c ∷ rest) t a =
    register_all-IsWatched rest (register_connection t c.connfd c.added)
      (register_connection-IsWatched t c.connfd c.added a)

module _ (sqlite : Sqlite) where
  open sqlite use {State}

  if-Watched :
      (b : Bool) (s u : Server State)
      → IsWatched s.table
      → IsWatched u.table
      → IsWatched (if b then s else u).table
  if-Watched true s u a b = a
  if-Watched false s u a b = b

  serve_requests-IsWatched :
      (fuel connfd : ℕ) (s : Server State)
      → IsWatched s.table
      → IsWatched (serve_requests sqlite fuel connfd s).table
  unfolding serve_requests
  serve_requests-IsWatched zero connfd s a = a
  serve_requests-IsWatched (suc fuel) connfd s a =
      let b = try_one_request-IsWatched sqlite connfd s a in
      if-Watched _ _ _ (serve_requests-IsWatched fuel connfd _ b) b

  start_writing-IsWatched :
      (connfd : ℕ) (s : Server State)
      → IsWatched s.table
      → IsWatched (start_writing sqlite connfd s).table
  unfolding start_writing
  start_writing-IsWatched connfd s a =
      if-Watched _ _ s (set_connection_state-IsWatched s.table a connfd writing) a

  end_reading-IsWatched :
      (connfd : ℕ) (ending : ReadEnd) (s : Server State)
      → IsWatched s.table
      → IsWatched (end_reading sqlite connfd ending s).table
  unfolding end_reading
  end_reading-IsWatched connfd would_block s a =
      start_writing-IsWatched connfd _ (serve_requests-IsWatched _ connfd s a)
  end_reading-IsWatched connfd read_error s a =
      set_connection_state-IsWatched s.table a connfd closing
  end_reading-IsWatched connfd end_of_file s a =
      set_connection_state-IsWatched s.table a connfd closing

  handle_read_connection-IsWatched :
      (connfd : ℕ) (reads : Reads) (s : Server State)
      → IsWatched s.table
      → IsWatched (handle_read_connection sqlite connfd reads s).table
  unfolding handle_read_connection
  handle_read_connection-IsWatched connfd reads s a =
      end_reading-IsWatched connfd reads.ending _
        (append_chunks-IsWatched s.table connfd reads.chunks a)

  handle_connection-IsWatched :
      (fd : ℕ) (error : Bool) (reads : Reads) (writes : Writes) (s : Server State)
      → IsWatched s.table
      → IsWatched (handle_connection sqlite fd error reads writes s).table
  unfolding handle_connection handle_write_connection
  handle_connection-IsWatched fd error reads writes s a =
      let b =
        if-Watched (has_flag (flags_of s.table fd) want_read) _ s
          (handle_read_connection-IsWatched fd reads s a) a in
      let c = if-Watched _ _ _ (write_counts-IsWatched _ fd writes.counts writes.failed b) b in
      if-Watched _ _ _ (remove_connection-IsWatched _ c fd) c

  handle_event-IsWatched :
      (event : Event) (s s' : Server State)
      → IsWatched s.table
      → handle_event sqlite event s ≡ some s'
      → IsWatched s'.table
  unfolding handle_event
  handle_event-IsWatched (listening error accepted failed) s s' a e =
      subst (λ u. IsWatched u.table) (handle_event_added sqlite error failed accepted s s' e)
        (register_all-IsWatched accepted s.table a)
  handle_event-IsWatched (console error chunks) s s' a e =
      subst (λ u. IsWatched u.table) (handle_event_console sqlite error chunks s s' e) a
  handle_event-IsWatched (connection fd error reads writes) s s' a e =
      let same : handle_connection sqlite fd error reads writes s ≡ s' = cc in
      subst (λ u. IsWatched u.table) same (handle_connection-IsWatched fd error reads writes s a)
  handle_event-IsWatched wait_failed s s' a e = cc

  run_from-IsWatched :
      (events : List Event) (s s' : Server State)
      → IsWatched s.table
      → run sqlite events s ≡ some s'
      → IsWatched s'.table
  unfolding run
  run_from-IsWatched [] s s' a e = let same : s ≡ s' = cc in subst (λ u. IsWatched u.table) same a
  run_from-IsWatched (event ∷ events) s s' a e = elim (Option-cases (handle_event sqlite event s)) [
    | inl ended ↦ (let no : none ≡ some s' = rw (ended, run) at e in cc)
    | inr (t, went_on) ↦
        let rest : run sqlite events t ≡ some s' = rw (went_on, run) at e in
        run_from-IsWatched events t s' (handle_event-IsWatched event s t a went_on) rest
  ]

  created-IsWatched :
      (n : ℕ) → IsWatched (record { conns = create_connection_manager n; epoll = [] })
  unfolding create_connection_manager interest
  created-IsWatched n j =
      subst (λ f. Agrees f unwatched) (sym (get_or-default n j no_flags))
        (no_flags-Agrees unwatched)

  -- What the server waits for is what epoll watches. Whatever the clients send and the system calls
  -- return, and in whatever order the events come: in the table that a run of the event loop from an
  -- empty table comes to, every slot with WANT_READ is one that the calls of epoll_ctl so far, if
  -- they succeed, have epoll watch for input, and every slot with WANT_WRITE is watched for output.
  pub run-IsWatched :
      (n : ℕ) (db : State) (events : List Event) (s : Server State)
      → run sqlite events (record {
        table = record { conns = create_connection_manager n; epoll = [] };
        database = db;
      })
        ≡ some s
      → IsWatched s.table
  run-IsWatched n db events s e = run_from-IsWatched events _ s (created-IsWatched n) e
