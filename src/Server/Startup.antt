-- ===== src/Server/Startup.antt =====
-- How the server starts: `set_nonblocking_fd`, `open_listenfd` and `init_server` of
-- src/server_utils.cpp, `init_db` of src/db.cpp, `init_logger` of src/logger.cpp, and `main` of
-- src/server.cpp up to its loop. What the system calls return is data.
pub mod Sockets
pub mod Ready
pub mod Signals
use tcp_chat_server.Prelude.{
  ℕ, bit_or, Option, none, some, List, [], ◌∷◌, ◌++◌, Bool, true, false, ◌==◌, ◌||◌, not,
  if◌then◌else◌, ℤ, pos, negsuc,
}
use tcp_chat_server.Descriptors.{Call, opens, closes}

-- What the two calls of `fcntl` return: the file's flags, or `none` for -1; and whether the new ones
-- are set.
pub record Fcntl : Type 0 where
  pub flags : Option ℕ
  pub sets : Bool

-- O_NONBLOCK on Linux.
abbrev pub o_nonblock : ℕ
o_nonblock = 2048

-- The file's flags then; `none` is `exit(-1)`.
unfoldable pub set_nonblocking_fd : Fcntl → Option ℕ
set_nonblocking_fd fcntl = elim fcntl.flags [
  | none ↦ none
  | some flags ↦ if fcntl.sets then some (bit_or flags o_nonblock) else none
]

-- What the calls for one address of the list return: no socket; a socket that `bind` takes; or one
-- that it refuses, and whether `close` then succeeds.
pub data Address : Type 0 where
  no_socket : Address
  binds : ℕ → Address
  refuses : ℕ → Bool → Address

-- How the loop over the addresses ends.
pub data Search : Type 0 where
  bound : ℕ → Search
  not_closed nothing_suitable : Search

unfoldable pub search_addresses : List Address → List Call × Search
search_addresses [] = ([], nothing_suitable)
search_addresses (no_socket ∷ addresses) = search_addresses addresses
search_addresses (binds fd ∷ addresses) = (opens fd ∷ [], bound fd)
search_addresses (refuses fd true ∷ addresses) =
    let (calls, found) = search_addresses addresses in (opens fd ∷ closes fd ∷ calls, found)
search_addresses (refuses fd false ∷ addresses) = (opens fd ∷ [], not_closed)

-- How `open_listenfd` ends: -1, `exit(-1)`, or the descriptor and its file's flags.
pub data Opened : Type 0 where
  minus_one exits : Opened
  listens : ℕ → ℕ → Opened

-- The calls on descriptors, how often `freeaddrinfo` is called, and how it ends.
pub record Opening : Type 0 where
  pub calls : List Call
  pub frees : ℕ
  pub opened : Opened

-- Once a socket is bound: its file's flags, unless the process ends, and whether `listen` succeeds.
unfoldable pub start_listening : List Call → ℕ → Option ℕ → Bool → Opening
start_listening calls fd none listen_result = record { calls = calls; frees = 0; opened = exits }
start_listening calls fd (some flags) true = record {
  calls = calls;
  frees = 1;
  opened = listens fd flags;
}
start_listening calls fd (some flags) false = record {
  calls = calls ++ (closes fd ∷ []);
  frees = 1;
  opened = minus_one;
}

unfoldable pub after_search : List Call → Search → Fcntl → Bool → Opening
unfolding set_nonblocking_fd start_listening
after_search calls (bound fd) fcntl listen_result =
    start_listening calls fd (set_nonblocking_fd fcntl) listen_result
after_search calls not_closed fcntl listen_result = record {
  calls = calls;
  frees = 0;
  opened = minus_one;
}
after_search calls nothing_suitable fcntl listen_result = record {
  calls = calls;
  frees = 1;
  opened = minus_one;
}

-- `none` is a failure of `getaddrinfo`.
unfoldable pub open_listenfd : Option (List Address) → Fcntl → Bool → Opening
unfolding search_addresses after_search
open_listenfd none fcntl listen_result = record { calls = []; frees = 0; opened = minus_one }
open_listenfd (some addresses) fcntl listen_result =
    let (calls, found) = search_addresses addresses in after_search calls found fcntl listen_result

-- DB_PATH and DB_TEST_PATH.
pub data DbPath : Type 0 where
  app_db test_db : DbPath

-- Whether `sqlite3_open` and the CREATE TABLE succeed, for each file.
abbrev pub SqliteStart : Type 0
SqliteStart = DbPath → Bool × Bool

unfoldable pub init_db : SqliteStart → DbPath → ℤ
init_db sqlite db_path =
    let (open_ok, exec_ok) = sqlite db_path in
    if not open_ok then negsuc 0 else if exec_ok then pos 0 else negsuc 0

-- What the environment answers to the calls of the start, in their order.
pub record Environment : Type 0 where
  pub sqlite : SqliteStart
  pub addresses : Option (List Address)
  pub listen_fcntl : Fcntl
  pub listen_result : Bool
  pub epoll : Option ℕ
  pub adds_listenfd : Bool
  pub stdin_fcntl : Fcntl
  pub adds_stdin : Bool

abbrev pub is_zero : ℤ → Bool
is_zero (pos n) = n == 0
is_zero (negsuc n) = false

unfoldable pub init_server : Environment → ℤ → Opening
unfolding init_db open_listenfd
init_server env is_test =
    let rc = init_db env.sqlite (if not (is_zero is_test) then test_db else app_db) in
    if is_zero rc
    then open_listenfd env.addresses env.listen_fcntl env.listen_result
    else record { calls = []; frees = 0; opened = minus_one }

-- `should_log` afterwards; `none` is the return value -1.
unfoldable pub init_logger : ℤ → Option Bool
init_logger (pos n) = if n == 0 then some false else if n == 1 then some true else none
init_logger (negsuc n) = none

-- What `main` comes to before its loop: `return -1`, `exit(-1)`, or the loop, with the listening
-- socket, the epoll instance, and the descriptors that it watches.
pub data Started : Type 0 where
  returns_minus_one process_exits : Started
  loops : ℕ → ℕ → List ℕ → Started

-- STDIN_FILENO is 0.
unfoldable pub register_stdin : Environment → ℤ → ℕ → ℕ → Started
unfolding set_nonblocking_fd
register_stdin env is_test listenfd epollfd =
    if not (is_zero is_test)
    then loops listenfd epollfd (listenfd ∷ [])
    else elim (set_nonblocking_fd env.stdin_fcntl) [
      | none ↦ process_exits
      | some flags ↦
          if env.adds_stdin then loops listenfd epollfd (listenfd ∷ 0 ∷ []) else returns_minus_one
    ]

unfoldable pub register_listenfd : Environment → ℤ → Opened → Started
unfolding register_stdin
register_listenfd env is_test minus_one = returns_minus_one
register_listenfd env is_test exits = process_exits
register_listenfd env is_test (listens listenfd flags) = elim env.epoll [
  | none ↦ returns_minus_one
  | some epollfd ↦
      if env.adds_listenfd then register_stdin env is_test listenfd epollfd else returns_minus_one
]

-- `is_test` and `enable_logging` are what `atoi` makes of the arguments.
unfoldable pub start_server : Environment → ℕ → ℤ → ℤ → Started
unfolding init_logger init_server register_listenfd
start_server env argc is_test enable_logging =
    if not (argc == 4) then returns_minus_one else elim (init_logger enable_logging) [
      | none ↦ returns_minus_one
      | some should_log ↦ register_listenfd env is_test (init_server env is_test).opened
    ]
