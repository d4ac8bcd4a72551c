-- ===== src/Server/Loop/Run.antt =====
-- Whole runs of the event loop of `main`.
use mathlib.Core.Path.{subst}
use tcp_chat_server.Prelude.{ℕ, ◌≡◌, refl, Option, some, List, [], ◌∷◌, Bool, true, false, ◌||◌}
use tcp_chat_server.Database.{Sqlite}
use tcp_chat_server.Server.Table.{create_connection_manager}
use tcp_chat_server.Server.Table.Layout.{IsTable}
use tcp_chat_server.Server.Table.Growth.{create_connection_manager-IsTable}
use tcp_chat_server.Server.Session.{Server}
use tcp_chat_server.Server.Loop.Accepting.{
  register_all, any_blocking, or_false, handle_event_returns, handle_event_added,
  handle_event_console,
}
use tcp_chat_server.Server.Loop.{
  wait_failed, Event, listening, console, connection, handle_event, run, handle_connection,
}
use tcp_chat_server.Server.Loop.Invariant.{register_all-IsTable, handle_connection-IsTable}

-- The events at which `main` ends.
abbrev pub is_fatal : Event → Bool
is_fatal (listening error accepted failed) = error || (failed || any_blocking accepted)
is_fatal (console error chunks) = error
is_fatal (connection fd error reads writes) = false
is_fatal wait_failed = true

abbrev pub any_fatal : List Event → Bool
any_fatal [] = false
any_fatal (event ∷ events) = is_fatal event || any_fatal events

module _ (sqlite : Sqlite) where
  open sqlite use {State}

  -- The loop goes on, with a well-formed table.
  record Continues (r : Option (Server State)) : Type 0 where
    next : Server State
    returned : r ≡ some next
    valid : IsTable next.table

  handle_event-Continues :
      (event : Event) (s : Server State)
      → IsTable s.table
      → is_fatal event ≡ false
      → Continues (handle_event sqlite event s)
  unfolding handle_event
  handle_event-Continues (listening error accepted failed) s v safe = record {
    next = record s { table = register_all s.table accepted };
    returned = handle_event_returns sqlite error failed accepted s safe;
    valid = register_all-IsTable s.table accepted v;
  }
  handle_event-Continues (console error chunks) s v safe =
      rw safe (record { next = s; returned = refl; valid = v })
  handle_event-Continues (connection fd error reads writes) s v safe = record {
    next = handle_connection sqlite fd error reads writes s;
    returned = refl;
    valid = handle_connection-IsTable sqlite fd error reads writes s v;
  }
  handle_event-Continues wait_failed s v safe = cc

  -- So is what any event leaves of it, after which the loop goes on.
  pub handle_event-IsTable :
      (event : Event) (s s' : Server State)
      → IsTable s.table
      → handle_event sqlite event s ≡ some s'
      → IsTable s'.table
  unfolding handle_event
  handle_event-IsTable (listening error accepted failed) s s' v e =
      subst (λ u. IsTable u.table) (handle_event_added sqlite error failed accepted s s' e)
        (register_all-IsTable s.table accepted v)
  handle_event-IsTable (console error chunks) s s' v e =
      subst (λ u. IsTable u.table) (handle_event_console sqlite error chunks s s' e) v
  handle_event-IsTable (connection fd error reads writes) s s' v e =
      let same : handle_connection sqlite fd error reads writes s ≡ s' = cc in
      subst (λ u. IsTable u.table) same (handle_connection-IsTable sqlite fd error reads writes s v)
  handle_event-IsTable wait_failed s s' v e = cc

  run-Continues :
      (events : List Event) (s : Server State)
      → IsTable s.table
      → any_fatal events ≡ false
      → Continues (run sqlite events s)
  unfolding run
  run-Continues [] s v safe = record { next = s; returned = refl; valid = v }
  run-Continues (event ∷ events) s v safe =
      let (now, later) = or_false (is_fatal event) (any_fatal events) safe in
      let step = handle_event-Continues event s v now in
      rw (run, step.returned) (run-Continues events step.next step.valid later)

  -- Whatever the clients send, in whatever order the events come, and whatever `read`, `write` and
  -- `epoll_ctl` return: as long as no call of `epoll_wait` fails, EPOLLERR is not reported for the
  -- listening socket or the standard input, `accept` fails only when no connection is left, and the
  -- calls of `fcntl` make every accepted descriptor non-blocking, the server that starts with a
  -- table of n slots goes on, and its table is well formed: its five arrays have one length, each
  -- mask is in range, and a slot that is not active has no flag, so that it neither reads nor
  -- writes and is not authenticated.
  pub run-IsTable :
      (n : ℕ) (db : State) (events : List Event)
      → any_fatal events ≡ false
      → (s : Server State) × (run sqlite events (record {
        table = record { conns = create_connection_manager n; epoll = [] };
        database = db;
      })
          ≡ some s)
        × IsTable s.table
  run-IsTable n db events safe =
      let c = run-Continues events _ (create_connection_manager-IsTable n) safe in
      (c.next, c.returned, c.valid)
