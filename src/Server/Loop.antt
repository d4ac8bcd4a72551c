-- ===== src/Server/Loop.antt =====
-- The event loop: `handle_read_connection`, `handle_write_connection` and
-- `accept_all_connections` of src/server_utils.cpp, and the loop of `main` in src/server.cpp.
pub mod Accepting
pub mod Invariant
pub mod Writing
pub mod Draining
pub mod Pending
pub mod Output
pub mod Fresh
pub mod Run
use mathlib.Core.Option
use tcp_chat_server.Prelude.{
  ℕ, zero, suc, ◌+◌, Option, none, some, List, [], ◌∷◌, ◌++◌, Bool, true, false, ◌||◌, ltb, length,
  if◌then◌else◌,
}
use tcp_chat_server.Protocol.Message.{buf_append, buf_consume}
use tcp_chat_server.Flags.{has_flag, want_read, want_write, want_close}
use tcp_chat_server.Database.{Sqlite}
use tcp_chat_server.Server.Table.{
  Table, flags_of, incoming_of, outgoing_of, set_incoming, set_outgoing, set_connection_state,
  reading, writing, closing, add_connection, remove_connection,
}
use tcp_chat_server.Server.Startup.{Fcntl}
use tcp_chat_server.Server.Session.{Server, try_one_request}

-- How a run of `read` calls on a non-blocking socket ends: no more bytes now, an error, or 0.
pub data ReadEnd : Type 0 where
  would_block read_error end_of_file : ReadEnd

-- What the `read` calls of one notification return: chunks of bytes, then the end.
pub record Reads : Type 0 where
  pub chunks : List (List ℕ)
  pub ending : ReadEnd

-- What the `write` calls of one notification return: counts, then no more room or an error. The
-- calls stop early when the outgoing buffer is empty.
pub record Writes : Type 0 where
  pub counts : List ℕ
  pub failed : Bool

-- `buf_append` of each chunk to the incoming buffer.
unfoldable pub append_chunks : Table → ℕ → List (List ℕ) → Table
append_chunks t connfd [] = t
append_chunks t connfd (chunk ∷ chunks) =
    append_chunks (set_incoming t connfd (buf_append (incoming_of t connfd) chunk (length chunk)))
      connfd chunks

-- `while (true)` of `handle_write_connection`, over the results of `write`.
unfoldable pub write_counts : Table → ℕ → List ℕ → Bool → Table
write_counts t connfd [] false = t
write_counts t connfd [] true = set_connection_state t connfd closing
write_counts t connfd (n ∷ counts) failed =
    let t = set_outgoing t connfd (buf_consume (outgoing_of t connfd) n) in
    let rest = write_counts t connfd counts failed in
    if ltb 0 (length (outgoing_of t connfd)) then rest else set_connection_state t connfd reading

unfoldable pub handle_write_connection : Table → ℕ → Writes → Table
handle_write_connection t connfd writes = write_counts t connfd writes.counts writes.failed

-- A connection that `accept` returns: its descriptor, what the calls of `fcntl` return for it, and
-- whether epoll takes it.
pub record Accepted : Type 0 where
  pub connfd : ℕ
  pub fcntl : Fcntl
  pub added : Bool

-- `while (true)` over what `accept` returns, until it would block or, with `failed`, fails otherwise.
-- `none` is an `exit(-1)`.
unfoldable pub accept_all_connections : Table → List Accepted → Bool → Option Table
accept_all_connections t [] failed = if failed then none else some t
accept_all_connections t (a ∷ rest) failed = elim (add_connection t a.connfd a.fcntl a.added) [
  | none ↦ none
  | some t' ↦ accept_all_connections t' rest failed
]

-- An event of `epoll_wait`: on the listening socket, on the standard input, or on a connection. The
-- first Boolean is EPOLLERR, and the other arguments are what the system calls of its handler
-- return: for the listening socket the accepted connections, and whether `accept` failed then for
-- another reason than that none is left. Between the events of two calls, `wait_failed` is a call of
-- `epoll_wait` that returns -1.
pub data Event : Type 0 where
  listening : Bool → List Accepted → Bool → Event
  console : Bool → List (List ℕ) → Event
  connection : ℕ → Bool → Reads → Writes → Event
  wait_failed : Event

module _ (sqlite : Sqlite) where
  open sqlite use {State}

  -- `while (try_one_request(connfd, epollfd)) {};` with fuel.
  unfoldable pub serve_requests : ℕ → ℕ → Server State → Server State
  serve_requests zero connfd s = s
  serve_requests (suc fuel) connfd s =
      let (served, s') = try_one_request sqlite connfd s in
      let rest = serve_requests fuel connfd s' in if served then rest else s'

  -- After the loop: write if there is something to write.
  unfoldable pub start_writing : ℕ → Server State → Server State
  start_writing connfd s =
      if ltb 0 (length (outgoing_of s.table connfd))
      then record s { table = set_connection_state s.table connfd writing }
      else s

  -- After the last `read`. Each served request is seven bytes at least, so the length of the buffer
  -- is enough fuel.
  unfoldable pub end_reading : ℕ → ReadEnd → Server State → Server State
  end_reading connfd would_block s =
      start_writing connfd (serve_requests (suc (length (incoming_of s.table connfd))) connfd s)
  end_reading connfd read_error s = record s { table = set_connection_state s.table connfd closing }
  end_reading connfd end_of_file s = record s {
    table = set_connection_state s.table connfd closing;
  }

  unfoldable pub handle_read_connection : ℕ → Reads → Server State → Server State
  handle_read_connection connfd reads s =
      end_reading connfd reads.ending
        (record s { table = append_chunks s.table connfd reads.chunks })

  -- Step 3b of `main`: the three tests look at the flags as they are then.
  unfoldable pub handle_connection : ℕ → Bool → Reads → Writes → Server State → Server State
  handle_connection fd error reads writes s =
      let s : Server State =
        (if has_flag (flags_of s.table fd) want_read
          then handle_read_connection fd reads s
          else s) in
      let s : Server State =
        (if has_flag (flags_of s.table fd) want_write
          then record s { table = handle_write_connection s.table fd writes }
          else s) in
      if error || has_flag (flags_of s.table fd) want_close
      then record s { table = remove_connection s.table fd }
      else s

  -- One event; `none` is the end of `main`. A console command prints and changes nothing here.
  unfoldable pub handle_event : Event → Server State → Option (Server State)
  handle_event (listening error accepted failed) s =
      if error
      then none
      else Option.map (λ t. record s { table = t }) (accept_all_connections s.table accepted failed)
  handle_event (console error chunks) s = if error then none else some s
  handle_event (connection fd error reads writes) s =
      some (handle_connection fd error reads writes s)
  handle_event wait_failed s = none

  -- `while (true)` over the events of all `epoll_wait` calls, in order.
  unfoldable pub run : List Event → Server State → Option (Server State)
  run [] s = some s
  run (event ∷ events) s = elim (handle_event event s) [ none ↦ none | some s' ↦ run events s' ]
