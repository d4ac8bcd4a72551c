-- ===== src/Server/Interest/Handlers.antt =====
-- The handlers of requests keep the flags and what epoll was told in agreement.
use tcp_chat_server.Prelude.{
  ℕ, zero, suc, ◌+◌, Option, none, some, List, [], ◌++◌, Bool, true, false, ◌==◌, ltb, length,
  if◌then◌else◌, Bool-cases, inl, inr, ℤ, pos, negsuc, set,
}
use tcp_chat_server.Protocol.Types.{
  Message, User, Credentials, WorldBroadcast, P2pBroadcast, msg_header_size, msg_max_payload_size,
  msg_type, register, login, chat,
}
use tcp_chat_server.Protocol.Message.{parse_message, write_message_to_buffer}
use tcp_chat_server.Database.{Sqlite}
use tcp_chat_server.Server.Table.{Table, incoming_of, outgoing_of, set_outgoing, writing, closing}
use tcp_chat_server.Server.Broadcast.{
  Handled, is_valid_recipient, deliver, deliver_world, reject, send_world, send_to, send_p2p,
  handle_world, handle_p2p, handle_broadcast_message,
}
use tcp_chat_server.Server.Session.{
  Server, authenticate, login_found, login_lookup, login_user, dispatch, answer, try_one_request,
  empty_response,
}
use tcp_chat_server.Server.Interest.{IsWatched, set_connection_state-IsWatched, to_auth-IsWatched}

-- What a handler returns.
record Watches (h : Handled) : Type 0 where
  watched : IsWatched h.1

if-Watches : (b : Bool) (h k : Handled) → Watches h → Watches k → Watches (if b then h else k)
if-Watches true h k kh kk = kh
if-Watches false h k kh kk = kk

pub if-IsWatched :
    (b : Bool) (t u : Table) → IsWatched t → IsWatched u → IsWatched (if b then t else u)
if-IsWatched true t u at au = at
if-IsWatched false t u at au = au

deliver-IsWatched :
    (t : Table) (i : ℕ) (serialized : List ℕ) → IsWatched t → IsWatched (deliver t i serialized)
unfolding deliver
deliver-IsWatched t i serialized a =
    set_connection_state-IsWatched (set_outgoing t i (outgoing_of t i ++ serialized)) a i writing

deliver_world-IsWatched :
    (rounds i connfd : ℕ) (serialized : List ℕ) (t : Table)
    → IsWatched t
    → IsWatched (deliver_world rounds i connfd serialized t)
unfolding deliver_world
deliver_world-IsWatched zero i connfd serialized t a = a
deliver_world-IsWatched (suc rounds) i connfd serialized t a =
    deliver_world-IsWatched rounds (i + 1) connfd serialized
      (if is_valid_recipient t connfd i then deliver t i serialized else t)
      (if-IsWatched (is_valid_recipient t connfd i) (deliver t i serialized) t
        (deliver-IsWatched t i serialized a) a)

module _ (connfd : ℕ) (t : Table) (a : IsWatched t) where
  same-Watches : (code : ℤ) (m : Message) → Watches (code, t, m)
  same-Watches code m = record { watched = a }

  reject-Watches : (code : ℤ) → Watches (reject t code)
  unfolding reject
  reject-Watches code = record { watched = a }

  world-Watches :
      (code : ℤ) (rounds : ℕ) (serialized : List ℕ) (m : Message)
      → Watches (code, deliver_world rounds 0 connfd serialized t, m)
  world-Watches code rounds serialized m = record {
    watched = deliver_world-IsWatched rounds 0 connfd serialized t a;
  }

  send_world-Watches :
      (response : Message) (b : WorldBroadcast) → Watches (send_world connfd t response b)
  unfolding send_world
  send_world-Watches response b = search (if-Watches, reject-Watches, world-Watches)

  send_to-Watches : (found : Option ℕ) (response : Message) → Watches (send_to found t response)
  unfolding send_to
  send_to-Watches none response = reject-Watches _
  send_to-Watches (some fd) response = record {
    watched = deliver-IsWatched t fd (write_message_to_buffer [] response) a;
  }

  send_p2p-Watches :
      (response : Message) (b : P2pBroadcast) → Watches (send_p2p connfd t response b)
  unfolding send_p2p
  send_p2p-Watches response b = search (if-Watches, reject-Watches, send_to-Watches)

  handle_world-Watches :
      (request response : Message) → Watches (handle_world connfd t request response)
  unfolding handle_world
  handle_world-Watches request response = search (if-Watches, reject-Watches, send_world-Watches)

  handle_p2p-Watches : (request response : Message) → Watches (handle_p2p connfd t request response)
  unfolding handle_p2p
  handle_p2p-Watches request response = search (if-Watches, reject-Watches, send_p2p-Watches)

  handle_broadcast_message-Watches :
      (request response : Message) → Watches (handle_broadcast_message connfd t request response)
  unfolding handle_broadcast_message
  handle_broadcast_message-Watches request response =
      search (if-Watches, reject-Watches, handle_world-Watches, handle_p2p-Watches)

  authenticated-Watches :
      (code : ℤ) (user : User) (m : Message) → Watches (code, authenticate t connfd user, m)
  unfolding authenticate
  authenticated-Watches code user m = record {
    watched =
        to_auth-IsWatched
          (record t {
            conns = record t.conns {
              user_ids = set t.conns.user_ids connfd user.user_id;
              usernames = set t.conns.usernames connfd user.username;
            };
          })
          a connfd;
  }

  module _ (sqlite : Sqlite) where
    login_found-Watches :
        (user : User) (c : Credentials) (response : Message)
        → Watches (login_found sqlite connfd t user c response)
    unfolding login_found
    login_found-Watches user c response = search (if-Watches, same-Watches, authenticated-Watches)

    login_lookup-Watches :
        (found : ℤ) (user : User) (c : Credentials) (response : Message)
        → Watches (login_lookup sqlite connfd t found user c response)
    unfolding login_lookup
    login_lookup-Watches (pos n) user c response =
        search (if-Watches, same-Watches, login_found-Watches)
    login_lookup-Watches (negsuc n) user c response = same-Watches _ _

    login_user-Watches :
        (db : sqlite.State) (request response : Message)
        → Watches (login_user sqlite connfd t db request response)
    unfolding login_user
    login_user-Watches db request response = search (if-Watches, same-Watches, login_lookup-Watches)

module _ (sqlite : Sqlite) (connfd : ℕ) where
  open sqlite use {State}

  dispatch-IsWatched :
      (s : Server State) (request response : Message)
      → IsWatched s.table
      → IsWatched (dispatch sqlite connfd s request response).0.table
  unfolding dispatch
  dispatch-IsWatched s request response a = elim (Bool-cases (request.type == msg_type register)) [
    | inl r ↦ rw r a
    | inr r ↦ elim (Bool-cases (request.type == msg_type login)) [
      | inl l ↦
          rw (r, l) (login_user-Watches connfd s.table a sqlite s.database request response).watched
      | inr l ↦ elim (Bool-cases (request.type == msg_type chat)) [
        | inl c ↦
            rw (r, l, c)
              (handle_broadcast_message-Watches connfd s.table a request response).watched
        | inr c ↦ rw (r, l, c) a
      ]
    ]
  ]

  pub try_one_request-IsWatched :
      (s : Server State) → IsWatched s.table → IsWatched (try_one_request sqlite connfd s).1.table
  unfolding try_one_request answer
  try_one_request-IsWatched s a =
      let waiting = incoming_of s.table connfd in
      let request = parse_message waiting in
      elim (Bool-cases (ltb (length waiting) (msg_header_size + 1))) [
        | inl few ↦ rw few a
        | inr header ↦ elim (Bool-cases (ltb msg_max_payload_size request.payload_length)) [
          | inl large ↦ rw (header, large) (set_connection_state-IsWatched s.table a connfd closing)
          | inr small ↦
              elim (Bool-cases (ltb (length waiting) (msg_header_size + request.payload_length))) [
                | inl partial ↦ rw (header, small, partial) a
                | inr whole ↦
                    rw (header, small, whole) (dispatch-IsWatched s request empty_response a)
              ]
        ]
      ]
