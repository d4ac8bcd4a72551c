-- ===== src/Server/Loop/Draining.antt =====
-- The output of a connection that is writing, over the events of the loop.
use mathlib.Core.Path.{subst}
use tcp_chat_server.Prelude.{
  ℕ, suc, ◌-◌, ◌≤◌, ◌<◌, ◌≡◌, refl, sym, ◌∙◌, ap, some, List, [], ◌∷◌, ◌++◌, length-append, ◌+◌,
  Bool, true, false, ltb, ltb→lt, ltb→le, get_or_out, length, length-drop, take, arith, Bool-cases,
  inl, inr,
}
use tcp_chat_server.Flags.{ConnFlags, has_flag, want_read, want_write, want_close, to_reading}
use tcp_chat_server.Flags.Laws.{to_reading-Flags}
use tcp_chat_server.Database.{Sqlite}
use tcp_chat_server.Server.Table.{Table, flags_of, outgoing_of}
use tcp_chat_server.Server.Table.Layout.{IsTable, Evolves, flag_active}
use tcp_chat_server.Server.Session.{Server}
use tcp_chat_server.Server.Loop.{
  Reads, Writes, Event, connection, handle_write_connection, write_counts, handle_connection,
  handle_event, run,
}
use tcp_chat_server.Server.Loop.Run.{handle_event-IsTable}
use tcp_chat_server.Server.Loop.Invariant.{write_counts-Evolves}
use tcp_chat_server.Server.Loop.Writing.{total, write_counts_rest, write_counts_enough}

-- The socket took something, and no call of `write` failed.
abbrev pub Progresses : Writes → Type 0
Progresses writes = (1 ≤ total writes.counts) × (writes.failed ≡ false)

-- The connection writes, and is not to be closed.
pub record IsWriting (f : ConnFlags) : Type 0 where
  pub writes : has_flag f want_write ≡ true
  pub no_reads : has_flag f want_read ≡ false
  pub stays : has_flag f want_close ≡ false

module _ (sqlite : Sqlite) (fd : ℕ) where
  open sqlite use {State}

  -- While a connection writes, its notifications do nothing else, unless it is then to be closed.
  connection-writes :
      (s : Server State) (reads : Reads) (writes : Writes)
      → IsWriting (flags_of s.table fd)
      → has_flag (flags_of (handle_write_connection s.table fd writes) fd) want_close ≡ false
      → handle_connection sqlite fd false reads writes s
        ≡ record s { table = handle_write_connection s.table fd writes }
  unfolding handle_connection
  connection-writes s reads writes w open_after = rw (w.no_reads, w.writes, open_after) refl

  -- A run of events from a state with `n` notifications of the connection that let it send, and one
  -- more for each byte that the events in between add to its output. These go on, leave its flags,
  -- and only add to its output. Nothing is asked of what comes once the output is gone.
  pub data Notified : ℕ → List Event → Server State → Type 0 where
    enough : {s : Server State} → Notified 0 [] s
    gone :
        {n : ℕ} {events : List Event} {s : Server State}
        → outgoing_of s.table fd ≡ []
        → Notified n events s
    notified :
        (n : ℕ) (events : List Event) (s : Server State) (reads : Reads) (writes : Writes)
        → Progresses writes
        → Notified n events (handle_connection sqlite fd false reads writes s)
        → Notified (suc n) (connection fd false reads writes ∷ events) s
    meanwhile :
        (n : ℕ) (event : Event) (events : List Event) (s s' : Server State) (more : List ℕ)
        → handle_event sqlite event s ≡ some s'
        → flags_of s'.table fd ≡ flags_of s.table fd
        → outgoing_of s'.table fd ≡ outgoing_of s.table fd ++ more
        → Notified (n + length more) events s'
        → Notified n (event ∷ events) s

  -- After some of the events, the output is gone and the connection reads again.
  pub record IsDrained (events : List Event) (s : Server State) : Type 0 where
    pub k : ℕ
    pub after : Server State
    pub goes_on : run sqlite (take k events) s ≡ some after
    pub nothing_left : outgoing_of after.table fd ≡ []
    pub reads_again : flags_of after.table fd ≡ to_reading (flags_of s.table fd)

  run_first :
      (event : Event) (events : List Event) (s s' : Server State)
      → handle_event sqlite event s ≡ some s'
      → run sqlite (event ∷ events) s ≡ run sqlite events s'
  unfolding run
  run_first event events s s' e = rw (run, e) refl

  handled :
      (s : Server State) (reads : Reads) (writes : Writes)
      → IsWriting (flags_of s.table fd)
      → has_flag (flags_of (handle_write_connection s.table fd writes) fd) want_close ≡ false
      → handle_event sqlite (connection fd false reads writes) s
        ≡ some (record s { table = handle_write_connection s.table fd writes })
  unfolding handle_event
  handled s reads writes w open_after = ap some (connection-writes s reads writes w open_after)

  outgoing_lt : (t : Table) → 1 ≤ length (outgoing_of t fd) → fd < length t.conns.outgoing_buffers
  outgoing_lt t h = elim (Bool-cases (ltb fd (length t.conns.outgoing_buffers))) [
    | inl small ↦ ltb→lt fd (length t.conns.outgoing_buffers) small
    | inr large ↦
        let out = get_or_out t.conns.outgoing_buffers fd [] (ltb→le fd _ large) in
        let none : length (outgoing_of t fd) ≡ 0 = ap length out in absurd (omega arith)
  ]

  all_taken :
      (t : Table) (counts : List ℕ) (failed : Bool)
      → fd < length t.conns.outgoing_buffers
      → fd < length t.conns.flags
      → 1 ≤ total counts
      → length (outgoing_of t fd) ≤ total counts
      → let t' = write_counts t fd counts failed in
        (outgoing_of t' fd ≡ []) × (flags_of t' fd ≡ to_reading (flags_of t fd))
  all_taken t [] failed inside flagged some_bytes all = absurd (omega arith)
  all_taken t (n ∷ counts) failed inside flagged some_bytes all =
      write_counts_enough fd counts t n failed inside flagged all

  some_taken :
      (t : Table) (writes : Writes)
      → writes.failed ≡ false
      → fd < length t.conns.outgoing_buffers
      → fd < length t.conns.flags
      → total writes.counts < length (outgoing_of t fd)
      → let t' = handle_write_connection t fd writes in
        (length (outgoing_of t' fd) ≡ length (outgoing_of t fd) - total writes.counts)
        × (flags_of t' fd ≡ flags_of t fd)
  unfolding handle_write_connection
  some_taken t writes fine inside flagged part =
      let (out, mask) = write_counts_rest fd t writes.counts writes.failed inside flagged part in
      (ap length out ∙ length-drop (total writes.counts) (outgoing_of t fd), mask ∙ rw fine refl)

  -- A connection that is writing, and not to be closed, gets rid of its output, if until then the
  -- following holds. Its own notifications carry no error, each lets its socket take at least a
  -- byte, and no `write` fails. The other events, of which there may be any number in between, do
  -- not end the loop, leave the connection's flags, and only add to its output. There are as many
  -- notifications of the connection as it has bytes to send, and one more for each byte so added.
  -- Then after some of the events the loop has gone on, all its output is sent, and it reads again.
  pub run_drains :
      (n : ℕ) (events : List Event) (s : Server State)
      → IsTable s.table
      → IsWriting (flags_of s.table fd)
      → Notified n events s
      → 1 ≤ length (outgoing_of s.table fd)
      → length (outgoing_of s.table fd) ≤ n
      → IsDrained events s
  run_drains _ _ s v w enough some_output few = absurd (omega arith)
  run_drains n events s v w (gone empty) some_output few =
      let none : length (outgoing_of s.table fd) ≡ 0 = ap length empty in absurd (omega arith)
  run_drains _ (_ ∷ events) _ v w (notified n _ s reads writes (some_bytes, fine) more) some_output
        few =
      let t' = handle_write_connection s.table fd writes in
      let s' : Server State = record s { table = t' } in
      let inside = outgoing_lt s.table some_output in
      let flagged : fd < length s.table.conns.flags = omega (arith, v.outgoing_size) in
      elim (Bool-cases (ltb (total writes.counts) (length (outgoing_of s.table fd)))) [
        | inl part ↦
            let fewer = ltb→lt (total writes.counts) (length (outgoing_of s.table fd)) part in
            let (left, mask) = some_taken s.table writes fine inside flagged fewer in
            let w' : IsWriting (flags_of t' fd) = subst IsWriting (sym mask) w in
            let active = flag_active s.table v fd want_write (unfold has_flag in refl) w.writes in
            let e : Evolves s.table t' =
              unfold handle_write_connection in
              write_counts-Evolves s.table fd writes.counts writes.failed v active in
            let later =
              subst (Notified n events) (connection-writes s reads writes w w'.stays) more in
            let d = run_drains n events s' e.valid w' later (omega arith) (omega arith) in
            record {
              k = suc d.k;
              after = d.after;
              goes_on =
                  run_first _ (take d.k events) s s' (handled s reads writes w w'.stays)
                  ∙ d.goes_on;
              nothing_left = d.nothing_left;
              reads_again = d.reads_again ∙ ap to_reading mask;
            }
        | inr whole ↦
            let most = ltb→le (total writes.counts) (length (outgoing_of s.table fd)) whole in
            let (empty, mask) : (outgoing_of t' fd ≡ [])
                × (flags_of t' fd ≡ to_reading (flags_of s.table fd)) =
              unfold handle_write_connection in
              (all_taken s.table writes.counts writes.failed inside flagged some_bytes most) in
            let l = to_reading-Flags (flags_of s.table fd) (v.slot fd).in_range in
            let stays = ap (λ f. has_flag f want_close) mask ∙ (l.closes ∙ w.stays) in
            record {
              k = 1;
              after = s';
              goes_on = run_first _ [] s s' (handled s reads writes w stays) ∙ unfold run in refl;
              nothing_left = empty;
              reads_again = mask;
            }
      ]
  run_drains _ (_ ∷ events) _ v w (meanwhile n event _ s s' more went_on mask added later)
        some_output few =
      let longer : length (outgoing_of s'.table fd)
          ≡ length (outgoing_of s.table fd) + length more =
        ap length added ∙ length-append (outgoing_of s.table fd) more in
      let d =
        run_drains (n + length more) events s' (handle_event-IsTable sqlite event s s' v went_on)
          (subst IsWriting (sym mask) w) later (omega arith) (omega arith) in
      record {
        k = suc d.k;
        after = d.after;
        goes_on = run_first event (take d.k events) s s' went_on ∙ d.goes_on;
        nothing_left = d.nothing_left;
        reads_again = d.reads_again ∙ ap to_reading mask;
      }
