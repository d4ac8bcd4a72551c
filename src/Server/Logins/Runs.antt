-- ===== src/Server/Logins/Runs.antt =====
-- Whole runs of the event loop of src/server.cpp, and the abstract machine of logins.
use mathlib.Core.Path.{subst, fun_ext}
use tcp_chat_server.Prelude.{ℕ, ◌≡◌, refl, none, some, List, [], ◌∷◌, Bool, Option-cases, inl, inr}
use tcp_chat_server.Flags.{has_flag, no_flags}
use tcp_chat_server.Database.{Sqlite}
use tcp_chat_server.Server.Table.{register_connection, create_connection_manager}
use tcp_chat_server.Server.Table.Layout.{IsTable}
use tcp_chat_server.Server.Table.Growth.{create_connection_manager-IsTable}
use tcp_chat_server.Server.Session.{Server}
use tcp_chat_server.Server.Loop.Accepting.{register_all, handle_event_added, handle_event_console}
use tcp_chat_server.Server.Loop.{
  Accepted, wait_failed, Reads, Writes, Event, listening, console, connection, handle_connection,
  handle_event, run,
}
use tcp_chat_server.Server.Loop.Invariant.{
  register_all-IsTable, if_reading, if_reading-IsTable, if_writing, handle_connection-IsTable,
}
use tcp_chat_server.Server.Loop.Fresh.{get_or-default}
use tcp_chat_server.Server.Logins.{Reach, here, Reach-trans}
use tcp_chat_server.Server.Logins.Keeps.{session_of}
use tcp_chat_server.Server.Logins.Requests.{view}
use tcp_chat_server.Server.Logins.Refines.{
  if_reading-Reach, if_writing-Reach, if_closing-Reach, register_connection-Reach,
}

module _ (sqlite : Sqlite) where
  open sqlite use {State}

  handle_connection-Reach :
      (fd : ℕ) (error : Bool) (reads : Reads) (writes : Writes) (s : Server State)
      → IsTable s.table
      → Reach sqlite (view s) (view (handle_connection sqlite fd error reads writes s))
  unfolding handle_connection
  handle_connection-Reach fd error reads writes s v =
      let s1 = if_reading sqlite fd reads s in
      let s2 = if_writing sqlite fd writes s1 in
      Reach-trans sqlite (if_reading-Reach sqlite fd reads s v) (
        Reach-trans sqlite
          (if_writing-Reach sqlite fd writes s1 (if_reading-IsTable sqlite fd reads s v))
          (if_closing-Reach sqlite fd error s2))

  register_all-Reach :
      (accepted : List Accepted) (s : Server State)
      → Reach sqlite (view s) (view (record s { table = register_all s.table accepted }))
  unfolding register_all
  register_all-Reach [] s = here
  register_all-Reach (a ∷ rest) s =
      Reach-trans sqlite (register_connection-Reach sqlite s a.connfd a.added) (
        register_all-Reach rest (record s { table = register_connection s.table a.connfd a.added }))

  -- An event after which `main` goes on.
  record Advances (s s' : Server State) : Type 0 where
    valid : IsTable s'.table
    reached : Reach sqlite (view s) (view s')

  handle_event-Advances :
      (event : Event) (s s' : Server State)
      → IsTable s.table
      → handle_event sqlite event s ≡ some s'
      → Advances s s'
  unfolding handle_event
  handle_event-Advances (listening error accepted failed) s s' v e =
      subst (Advances s) (handle_event_added sqlite error failed accepted s s' e) (record {
        valid = register_all-IsTable s.table accepted v;
        reached = register_all-Reach accepted s;
      })
  handle_event-Advances (console error chunks) s s' v e =
      subst (Advances s) (handle_event_console sqlite error chunks s s' e)
        (record { valid = v; reached = here })
  handle_event-Advances (connection fd error reads writes) s s' v e =
      let same : handle_connection sqlite fd error reads writes s ≡ s' = cc in
      subst (Advances s) same (record {
        valid = handle_connection-IsTable sqlite fd error reads writes s v;
        reached = handle_connection-Reach fd error reads writes s v;
      })
  handle_event-Advances wait_failed s s' v e = cc

  run-Reach :
      (events : List Event) (s s' : Server State)
      → IsTable s.table
      → run sqlite events s ≡ some s'
      → Reach sqlite (view s) (view s')
  unfolding run
  run-Reach [] s s' v e =
      let same : s ≡ s' = cc in subst (λ u. Reach sqlite (view s) (view u)) same here
  run-Reach (event ∷ events) s s' v e = elim (Option-cases (handle_event sqlite event s)) [
    | inl ended ↦ (let no : none ≡ some s' = rw (ended, run) at e in cc)
    | inr (t, went_on) ↦
        let first = handle_event-Advances event s t v went_on in
        let rest : run sqlite events t ≡ some s' = rw (went_on, run) at e in
        Reach-trans sqlite first.reached (run-Reach events t s' first.valid rest)
  ]

  -- The server that starts with a table of n slots and some database.
  abbrev pub started : ℕ → State → Server State
  started n db = record {
    table = record { conns = create_connection_manager n; epoll = [] };
    database = db;
  }

  nobody_yet : (n : ℕ) (db : State) (j : ℕ) → session_of (started n db).table j ≡ none
  unfolding create_connection_manager has_flag
  nobody_yet n db j = rw (get_or-default n j no_flags) refl

  -- The server implements the abstract machine of logins. Whatever the clients send and the system
  -- calls return, and in whatever order the events come: if a run of the event loop from an empty
  -- table has not ended, the sessions and the database it comes to, where a session is the id and
  -- the name in a slot with IS_AUTH, can be reached by the machine's steps from the state in which
  -- nobody is logged in. The steps are: a user is stored whose name nobody has in any spelling; a
  -- user whom the database has logs in on one connection; one connection's session ends.
  pub run-refines :
      (n : ℕ) (db : State) (events : List Event) (s : Server State)
      → run sqlite events (started n db) ≡ some s
      → Reach sqlite (record { sessions = λ j. none; database = db }) (view s)
  run-refines n db events s e =
      let start : view (started n db) ≡ record { sessions = λ j. none; database = db } =
        λ i. record { sessions = fun_ext (nobody_yet n db) i; database = db } in
      subst (λ v. Reach sqlite v (view s)) start
        (run-Reach events (started n db) s (create_connection_manager-IsTable n) e)
