-- ===== src/Server/Startup/Ready.antt =====
-- When `main` of src/server.cpp comes to its loop.
use tcp_chat_server.Prelude.{
  ◌≡◌, ◌↔◌, ◌∙◌, refl, ap, sym, ℕ, some, List, [], ◌∷◌, Bool, true, ◌==◌, not, if◌then◌else◌,
  Option-cases, Bool-cases, inl, inr, ℤ, arith,
}
use tcp_chat_server.Server.Startup.{
  set_nonblocking_fd, Opened, minus_one, exits, listens, open_listenfd, DbPath, app_db, test_db,
  init_db, Environment, is_zero, init_server, init_logger, returns_minus_one, loops, register_stdin,
  register_listenfd, start_server,
}

-- The file of the database: only an `is_test` of 0 is the real one.
abbrev pub db_path : ℤ → DbPath
db_path is_test = if not (is_zero is_test) then test_db else app_db

-- What epoll watches then: the console as well, unless the server is under test.
abbrev pub watched : ℤ → ℕ → List ℕ
watched is_test listenfd = if is_zero is_test then listenfd ∷ 0 ∷ [] else listenfd ∷ []

module _ (env : Environment) (is_test enable_logging : ℤ) where
  -- The environment lets the server start, with this listening socket and this epoll instance.
  pub record IsReady (listenfd epollfd : ℕ) : Type 0 where
    pub flags : ℕ
    pub logs : Bool
    pub logging : init_logger enable_logging ≡ some logs
    pub database : env.sqlite (db_path is_test) ≡ (true, true)
    pub listening :
        (open_listenfd env.addresses env.listen_fcntl env.listen_result).opened
        ≡ listens listenfd flags
    pub epoll : env.epoll ≡ some epollfd
    pub watches : env.adds_listenfd ≡ true
    pub stdin :
        is_zero is_test ≡ true
        → (env.adds_stdin ≡ true) × ((f : ℕ) × (set_nonblocking_fd env.stdin_fcntl ≡ some f))

  register_stdin_loops :
      (l k listenfd epollfd : ℕ) (fds : List ℕ)
      → register_stdin env is_test l k ≡ loops listenfd epollfd fds
      → (l ≡ listenfd) × (k ≡ epollfd) × (fds ≡ watched is_test listenfd)
  unfolding register_stdin
  register_stdin_loops l k listenfd epollfd fds e = ground arith

  register_stdin_console :
      (l k listenfd epollfd : ℕ) (fds : List ℕ)
      → register_stdin env is_test l k ≡ loops listenfd epollfd fds
      → is_zero is_test ≡ true
      → (env.adds_stdin ≡ true) × ((f : ℕ) × (set_nonblocking_fd env.stdin_fcntl ≡ some f))
  unfolding register_stdin
  register_stdin_console l k listenfd epollfd fds e real =
      elim (Option-cases (set_nonblocking_fd env.stdin_fcntl)) [
        | inl failed ↦ ground arith
        | inr (flags, set) ↦ (ground arith, (flags, set))
      ]

  record Registers (opened : Opened) (listenfd epollfd : ℕ) (fds : List ℕ) : Type 0 where
    flags : ℕ
    listening : opened ≡ listens listenfd flags
    epoll : env.epoll ≡ some epollfd
    watches : env.adds_listenfd ≡ true
    stdin : register_stdin env is_test listenfd epollfd ≡ loops listenfd epollfd fds

  register_listenfd-Registers :
      (opened : Opened) (listenfd epollfd : ℕ) (fds : List ℕ)
      → register_listenfd env is_test opened ≡ loops listenfd epollfd fds
      → Registers opened listenfd epollfd fds
  unfolding register_listenfd
  register_listenfd-Registers minus_one listenfd epollfd fds e = cc
  register_listenfd-Registers exits listenfd epollfd fds e = cc
  register_listenfd-Registers (listens l flags) listenfd epollfd fds e =
      elim (Option-cases env.epoll) [
        | inl failed ↦ ground arith
        | inr (k, made) ↦ elim (Bool-cases env.adds_listenfd) [
          | inl added ↦
              let went_on : register_stdin env is_test l k ≡ loops listenfd epollfd fds =
                rw (made, added) at e in
              let (same, same_epoll, _) = register_stdin_loops l k listenfd epollfd fds went_on in
              record {
                flags = flags;
                listening = ap (λ fd. listens fd flags) same;
                epoll = made ∙ ap some same_epoll;
                watches = added;
                stdin = cc;
              }
          | inr not_added ↦ ground arith
        ]
      ]

  init_db_ready :
      (path : DbPath) → is_zero (init_db env.sqlite path) ≡ true → env.sqlite path ≡ (true, true)
  unfolding init_db
  init_db_ready path e = ground arith

  init_server_opens :
      (listenfd flags : ℕ)
      → (init_server env is_test).opened ≡ listens listenfd flags
      → (env.sqlite (db_path is_test) ≡ (true, true))
        × ((open_listenfd env.addresses env.listen_fcntl env.listen_result).opened
            ≡ listens listenfd flags)
  unfolding init_server
  init_server_opens listenfd flags e =
      elim (Bool-cases (is_zero (init_db env.sqlite (db_path is_test)))) [
        | inl ready ↦ (init_db_ready (db_path is_test) ready, rw ready at e)
        | inr failed ↦ (let no : minus_one ≡ listens listenfd flags = rw failed at e in cc)
      ]

  start_server-IsReady :
      (argc listenfd epollfd : ℕ) (fds : List ℕ)
      → start_server env argc is_test enable_logging ≡ loops listenfd epollfd fds
      → (argc ≡ 4) × (fds ≡ watched is_test listenfd) × IsReady listenfd epollfd
  unfolding start_server
  start_server-IsReady argc listenfd epollfd fds e = elim (Bool-cases (argc == 4)) [
    | inl four ↦ elim (Option-cases (init_logger enable_logging)) [
      | inl failed ↦
          (let no : returns_minus_one ≡ loops listenfd epollfd fds = rw (four, failed) at e in cc)
      | inr (logs, logging) ↦
          let opened = (init_server env is_test).opened in
          let went_on : register_listenfd env is_test opened ≡ loops listenfd epollfd fds =
            rw (four, logging) at e in
          let r = register_listenfd-Registers opened listenfd epollfd fds went_on in
          let (_, _, fds_are) =
            register_stdin_loops listenfd epollfd listenfd epollfd fds r.stdin in
          let (database, listening) = init_server_opens listenfd r.flags r.listening in
          (
            ground arith,
            fds_are,
            record {
              flags = r.flags;
              logs = logs;
              logging = logging;
              database = database;
              listening = listening;
              epoll = r.epoll;
              watches = r.watches;
              stdin = register_stdin_console listenfd epollfd listenfd epollfd fds r.stdin;
            },
          )
    ]
    | inr other ↦ (let no : returns_minus_one ≡ loops listenfd epollfd fds = rw other at e in cc)
  ]

  init_server_succeeds :
      (opened : Opened)
      → env.sqlite (db_path is_test) ≡ (true, true)
      → (open_listenfd env.addresses env.listen_fcntl env.listen_result).opened ≡ opened
      → (init_server env is_test).opened ≡ opened
  unfolding init_server init_db
  init_server_succeeds opened database listening = rw (database, listening) refl

  register_stdin_succeeds :
      (listenfd epollfd : ℕ)
      → IsReady listenfd epollfd
      → register_stdin env is_test listenfd epollfd
        ≡ loops listenfd epollfd (watched is_test listenfd)
  unfolding register_stdin
  register_stdin_succeeds listenfd epollfd r = elim (Bool-cases (is_zero is_test)) [
    | inl real ↦ let (adds, (_, set)) = r.stdin real in rw (real, set, adds) refl
    | inr under_test ↦ rw under_test refl
  ]

  start_server_succeeds :
      (listenfd epollfd : ℕ)
      → IsReady listenfd epollfd
      → start_server env 4 is_test enable_logging
        ≡ loops listenfd epollfd (watched is_test listenfd)
  unfolding start_server register_listenfd
  start_server_succeeds listenfd epollfd r =
      rw
        (
          r.logging,
          init_server_succeeds (listens listenfd r.flags) r.database r.listening,
          r.epoll,
          r.watches,
        )
        (register_stdin_succeeds listenfd epollfd r)

  -- `main` comes to its loop exactly if it is called with three arguments, the logging is switched
  -- on or off, the database can be opened, a listening socket and an epoll instance can be had, and
  -- epoll takes the socket and, unless the server is under test, the console, which has become
  -- non-blocking; epoll then watches these and nothing else.
  pub start_server_loops :
      (argc listenfd epollfd : ℕ) (fds : List ℕ)
      → (start_server env argc is_test enable_logging ≡ loops listenfd epollfd fds)
        ↔ ((argc ≡ 4) × (fds ≡ watched is_test listenfd) × IsReady listenfd epollfd)
  start_server_loops argc listenfd epollfd fds = (
    start_server-IsReady argc listenfd epollfd fds,
    λ (four, fds_are, r).
        ap (λ n. start_server env n is_test enable_logging) four
        ∙ (start_server_succeeds listenfd epollfd r ∙ ap (loops listenfd epollfd) (sym fds_are)),
  )
