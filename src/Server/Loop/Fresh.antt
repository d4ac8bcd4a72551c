-- ===== src/Server/Loop/Fresh.antt =====
-- Output over whole runs, while the kernel hands out descriptors whose slots have nothing to send.
use tcp_chat_server.Prelude.{
  ℕ, zero, suc, ◌+◌, ◌-◌, ◌≡◌, ◌∙◌, refl, inl, inr, sym, ap, Option, some, List, [], ◌∷◌, ◌++◌,
  Bool, true, false, ◌==◌, ◌&&◌, leb, ltb, length, get_or, get_or-set, replicate, Bool-cases, arith,
}
use tcp_chat_server.Flags.{has_flag, is_active, want_read, want_write, no_flags, flags_or}
use tcp_chat_server.Database.{Sqlite}
use tcp_chat_server.Server.Table.{
  Table, ConnectionManager, flags_of, outgoing_of, register_connection, grow,
  create_connection_manager,
}
use tcp_chat_server.Server.Table.Layout.{IsTable}
use tcp_chat_server.Server.Table.Growth.{create_connection_manager-IsTable}
use tcp_chat_server.Server.Session.{Server}
use tcp_chat_server.Server.Loop.Accepting.{register_all, handle_event_returns, or_false}
use tcp_chat_server.Server.Loop.{
  Accepted, wait_failed, Event, listening, console, connection, handle_connection, handle_event,
  run,
}
use tcp_chat_server.Server.Loop.Invariant.{register_all-IsTable, handle_connection-IsTable}
use tcp_chat_server.Server.Loop.Run.{any_fatal, is_fatal}
use tcp_chat_server.Server.Loop.Output.{AllDrain, handle_connection-AllDrain}

module _ {ℓ} {A : Type ℓ} where
  pub get_or-default : (n i : ℕ) (d : A) → get_or (replicate n d) i d ≡ d
  get_or-default zero i d = refl
  get_or-default (suc n) zero d = refl
  get_or-default (suc n) (suc i) d = get_or-default n i d

  pub get_or-extended :
      (xs : List A) (n i : ℕ) (d : A) → get_or (xs ++ replicate n d) i d ≡ get_or xs i d
  get_or-extended [] n i d = get_or-default n i d
  get_or-extended (x ∷ xs) n zero d = refl
  get_or-extended (x ∷ xs) n (suc i) d = get_or-extended xs n i d

pub flags-grow :
    (c : ConnectionManager) (fd i : ℕ)
    → get_or (grow c fd).flags i no_flags ≡ get_or c.flags i no_flags
unfolding grow
flags-grow c fd i = elim (Bool-cases (leb (length c.flags) fd)) [
  | inl small ↦ rw small (get_or-extended c.flags (fd + 1 - length c.flags) i no_flags)
  | inr large ↦ rw large
]

outgoing-grow :
    (c : ConnectionManager) (fd i : ℕ)
    → get_or (grow c fd).outgoing_buffers i [] ≡ get_or c.outgoing_buffers i []
unfolding grow
outgoing-grow c fd i = elim (Bool-cases (leb (length c.flags) fd)) [
  | inl small ↦
      rw small (get_or-extended c.outgoing_buffers (fd + 1 - length c.outgoing_buffers) i [])
  | inr large ↦ rw large
]

outgoing-register_connection :
    (t : Table) (fd j : ℕ) (added : Bool)
    → outgoing_of (register_connection t fd added) j ≡ outgoing_of t j
unfolding register_connection
outgoing-register_connection t fd j true = outgoing-grow t.conns fd j
outgoing-register_connection t fd j false = refl

register_connection-AllDrain :
    (t : Table) (fd : ℕ) (added : Bool)
    → outgoing_of t fd ≡ []
    → AllDrain t
    → AllDrain (register_connection t fd added)
unfolding register_connection
register_connection-AllDrain t fd false fresh all j open_after = all j open_after
register_connection-AllDrain t fd true fresh all j open_after =
    let opened = flags_or is_active want_read in
    let kept = outgoing-grow t.conns fd j in
    let mask = get_or-set (grow t.conns fd).flags fd j opened no_flags in
    elim (Bool-cases (fd == j && ltb fd (length (grow t.conns fd).flags))) [
      | inl own ↦
          let same : fd ≡ j = ground arith in inr (kept ∙ ap (outgoing_of t) (sym same) ∙ fresh)
      | inr other ↦
          let before : get_or (grow t.conns fd).flags j no_flags ≡ flags_of t j =
            flags-grow t.conns fd j in
          let now = rw other at mask ∙ before in
          elim (all j (ap (λ f. has_flag f is_active) (sym now) ∙ open_after)) [
            | inl waits ↦ inl (ap (λ f. has_flag f want_write) now ∙ waits)
            | inr empty ↦ inr (kept ∙ empty)
          ]
    ]

-- The slots of the accepted descriptors have nothing to send.
abbrev pub AllFresh : Table → List Accepted → Type 0
AllFresh t [] = Unit
AllFresh t (a ∷ rest) = (outgoing_of t a.connfd ≡ []) × AllFresh t rest

AllFresh-same :
    (t t' : Table) (accepted : List Accepted)
    → ((j : ℕ) → outgoing_of t' j ≡ outgoing_of t j)
    → AllFresh t accepted
    → AllFresh t' accepted
AllFresh-same t t' [] same fresh = fresh
AllFresh-same t t' (a ∷ rest) same (first, fresh) =
    (same a.connfd ∙ first, AllFresh-same t t' rest same fresh)

register_all-AllDrain :
    (accepted : List Accepted) (t : Table)
    → AllFresh t accepted
    → AllDrain t
    → AllDrain (register_all t accepted)
unfolding register_all
register_all-AllDrain [] t fresh all = all
register_all-AllDrain (a ∷ rest) t (first, fresh) all =
    let t' = register_connection t a.connfd a.added in
    let same = λ (j : ℕ). outgoing-register_connection t a.connfd j a.added in
    register_all-AllDrain rest t' (AllFresh-same t t' rest same fresh)
      (register_connection-AllDrain t a.connfd a.added first all)

abbrev pub FreshEvent : Event → Table → Type 0
FreshEvent (listening error accepted failed) t = AllFresh t accepted
FreshEvent (console error chunks) t = Unit
FreshEvent (connection fd error reads writes) t = Unit
FreshEvent wait_failed t = Unit

module _ (sqlite : Sqlite) where
  open sqlite use {State}

  -- In each event of a run, the slots of the accepted descriptors have nothing to send: so it is as
  -- long as the kernel hands out no descriptor twice.
  abbrev pub RunIsFresh : List Event → Server State → Type 0
  RunIsFresh [] s = Unit
  RunIsFresh (event ∷ events) s =
      FreshEvent event s.table
      × ((s' : Server State) → handle_event sqlite event s ≡ some s' → RunIsFresh events s')

  record Drained (r : Option (Server State)) : Type 0 where
    next : Server State
    returned : r ≡ some next
    valid : IsTable next.table
    drains : AllDrain next.table

  handle_event-Drained :
      (event : Event) (s : Server State)
      → IsTable s.table
      → AllDrain s.table
      → FreshEvent event s.table
      → is_fatal event ≡ false
      → Drained (handle_event sqlite event s)
  unfolding handle_event
  handle_event-Drained (listening error accepted failed) s v all fresh safe = record {
    next = record s { table = register_all s.table accepted };
    returned = handle_event_returns sqlite error failed accepted s safe;
    valid = register_all-IsTable s.table accepted v;
    drains = register_all-AllDrain accepted s.table fresh all;
  }
  handle_event-Drained (console error chunks) s v all fresh safe =
      rw safe (record { next = s; returned = refl; valid = v; drains = all })
  handle_event-Drained (connection fd error reads writes) s v all fresh safe = record {
    next = handle_connection sqlite fd error reads writes s;
    returned = refl;
    valid = handle_connection-IsTable sqlite fd error reads writes s v;
    drains = handle_connection-AllDrain sqlite fd error reads writes s v all;
  }
  handle_event-Drained wait_failed s v all fresh safe = cc

  run-Drained :
      (events : List Event) (s : Server State)
      → IsTable s.table
      → AllDrain s.table
      → RunIsFresh events s
      → any_fatal events ≡ false
      → Drained (run sqlite events s)
  unfolding run
  run-Drained [] s v all fresh safe = record { next = s; returned = refl; valid = v; drains = all }
  run-Drained (event ∷ events) s v all (first, fresh) safe =
      let (now, later) = or_false (is_fatal event) (any_fatal events) safe in
      let step = handle_event-Drained event s v all first now in
      rw (run, step.returned)
        (run-Drained events step.next step.valid step.drains (fresh step.next step.returned) later)

  created-AllDrain : (n : ℕ) → AllDrain (record { conns = create_connection_manager n; epoll = [] })
  unfolding create_connection_manager
  created-AllDrain n j open_slot =
      let idle : has_flag (get_or (replicate n no_flags) j no_flags) is_active ≡ false =
        ap (λ f. has_flag f is_active) (get_or-default n j no_flags) ∙ unfold has_flag in refl in
      cc

  -- No output is forgotten in any run: if the server starts with a table of n slots, no call of
  -- `epoll_wait` fails, EPOLLERR is not reported for the listening socket or the standard input,
  -- `accept` fails only when no connection is left, the calls of `fcntl` make every accepted
  -- descriptor non-blocking, and the slots of accepted descriptors have nothing to send, then the
  -- server goes on, and in the end every open connection waits to write or has nothing to write.
  pub run-AllDrain :
      (n : ℕ) (db : State) (events : List Event)
      → any_fatal events ≡ false
      → RunIsFresh events (record {
        table = record { conns = create_connection_manager n; epoll = [] };
        database = db;
      })
      → (s : Server State) × (run sqlite events (record {
        table = record { conns = create_connection_manager n; epoll = [] };
        database = db;
      })
          ≡ some s)
        × AllDrain s.table
  run-AllDrain n db events safe fresh =
      let d =
        run-Drained events _ (create_connection_manager-IsTable n) (created-AllDrain n) fresh
          safe in
      (d.next, d.returned, d.drains)
