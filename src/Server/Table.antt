-- ===== src/Server/Table.antt =====
-- The connection table of include/server_utils.hpp and src/server_utils.cpp: a structure of arrays,
-- and the requests that its operations make of epoll.
pub mod Layout
pub mod Growth
pub mod States
pub mod Drains
use tcp_chat_server.Prelude.{
  ℕ, ◌+◌, Option, none, some, List, [], ◌∷◌, ◌++◌, Bool, leb, if◌then◌else◌, length, get_or, set,
  replicate, resize,
}
use tcp_chat_server.Server.Startup.{Fcntl, set_nonblocking_fd}
use tcp_chat_server.Flags.{
  ConnFlags, no_flags, want_read, is_active, flags_or, to_reading, to_writing, to_closing,
}

-- `ConnState`.
pub data ConnState : Type 0 where
  reading writing closing : ConnState

pub record ConnectionManager : Type 0 where
  pub flags : List ConnFlags
  pub incoming_buffers : List (List ℕ)
  pub outgoing_buffers : List (List ℕ)
  pub user_ids : List ℕ
  pub usernames : List (List ℕ)

unfoldable pub get_size : ConnectionManager → ℕ
get_size manager = length manager.flags

-- `epoll_ctl` calls: `EPOLL_CTL_ADD` and `EPOLL_CTL_MOD` with EPOLLIN or EPOLLOUT, edge-triggered,
-- and `EPOLL_CTL_DEL`.
pub data EpollCtl : Type 0 where
  add_in : ℕ → EpollCtl
  mod_in : ℕ → EpollCtl
  mod_out : ℕ → EpollCtl
  del : ℕ → EpollCtl

-- The global `conn_manager`, and the epoll calls that were made, oldest first; an EPOLL_CTL_ADD that
-- fails is not listed.
pub record Table : Type 0 where
  pub conns : ConnectionManager
  pub epoll : List EpollCtl

-- "user".
abbrev pub default_username : List ℕ
default_username = 117 ∷ 115 ∷ 101 ∷ 114 ∷ []

unfoldable pub create_connection_manager : ℕ → ConnectionManager
create_connection_manager n = record {
  flags = replicate n no_flags;
  incoming_buffers = replicate n [];
  outgoing_buffers = replicate n [];
  user_ids = replicate n 0;
  usernames = replicate n default_username;
}

-- `conn_manager.flags[i]` and its neighbours. The source indexes without a check; out of range the
-- model reads an inactive slot and writes nothing.
abbrev pub flags_of : Table → ℕ → ConnFlags
flags_of t i = get_or t.conns.flags i no_flags

abbrev pub incoming_of : Table → ℕ → List ℕ
incoming_of t i = get_or t.conns.incoming_buffers i []

abbrev pub outgoing_of : Table → ℕ → List ℕ
outgoing_of t i = get_or t.conns.outgoing_buffers i []

abbrev pub user_id_of : Table → ℕ → ℕ
user_id_of t i = get_or t.conns.user_ids i 0

abbrev pub username_of : Table → ℕ → List ℕ
username_of t i = get_or t.conns.usernames i []

abbrev pub set_flags : Table → ℕ → ConnFlags → Table
set_flags t i f = record t { conns = record t.conns { flags = set t.conns.flags i f } }

abbrev pub set_incoming : Table → ℕ → List ℕ → Table
set_incoming t i b = record t {
  conns = record t.conns { incoming_buffers = set t.conns.incoming_buffers i b };
}

abbrev pub set_outgoing : Table → ℕ → List ℕ → Table
set_outgoing t i b = record t {
  conns = record t.conns { outgoing_buffers = set t.conns.outgoing_buffers i b };
}

abbrev pub call_epoll : Table → EpollCtl → Table
call_epoll t call = record t { epoll = t.epoll ++ (call ∷ []) }

-- The result of `epoll_ctl` is only logged.
unfoldable pub set_connection_state : Table → ℕ → ConnState → Table
set_connection_state t connfd reading =
    call_epoll (set_flags t connfd (to_reading (flags_of t connfd))) (mod_in connfd)
set_connection_state t connfd writing =
    call_epoll (set_flags t connfd (to_writing (flags_of t connfd))) (mod_out connfd)
set_connection_state t connfd closing = set_flags t connfd (to_closing (flags_of t connfd))

-- `resize(connfd + 1)` of the five vectors, if the slot is not there.
unfoldable pub grow : ConnectionManager → ℕ → ConnectionManager
unfolding get_size
grow manager connfd =
    if leb (get_size manager) connfd
    then record {
      flags = resize manager.flags (connfd + 1) no_flags;
      incoming_buffers = resize manager.incoming_buffers (connfd + 1) [];
      outgoing_buffers = resize manager.outgoing_buffers (connfd + 1) [];
      user_ids = resize manager.user_ids (connfd + 1) 0;
      usernames = resize manager.usernames (connfd + 1) [];
    }
    else manager

-- `add_connection` once the descriptor is non-blocking. `added` says whether `epoll_ctl` with
-- EPOLL_CTL_ADD succeeds.
unfoldable pub register_connection : Table → ℕ → Bool → Table
unfolding grow flags_or
register_connection t connfd added =
    let grown = record (call_epoll t (add_in connfd)) { conns = grow t.conns connfd } in
    if added then set_flags grown connfd (flags_or is_active want_read) else t

-- `none` is the `exit(-1)` of `set_nonblocking_fd`.
unfoldable pub add_connection : Table → ℕ → Fcntl → Bool → Option Table
add_connection t connfd fcntl added = elim (set_nonblocking_fd fcntl) [
  | none ↦ none
  | some flags ↦ some (register_connection t connfd added)
]

unfoldable pub remove_connection : Table → ℕ → Table
remove_connection t connfd = call_epoll (set_flags t connfd no_flags) (del connfd)
