-- ===== src/Server/Session/Codes.antt =====
-- The codes of the responses that the handlers of src/server_utils.cpp build, and their texts.
use tcp_chat_server.Prelude.{
  ◌≡◌, ℕ, Option, none, some, [], Bool, true, false, if◌then◌else◌, ℤ, pos, negsuc, bytes_eq, inl,
  inr, Bool-cases,
}
use tcp_chat_server.Protocol.Types.{
  Message, Credentials, User, WorldBroadcast, P2pBroadcast, response_code, msg_type, register,
  login, chat, resp_ok, resp_error_malformed, resp_error_user_not_found,
  resp_error_invalid_credentials, resp_error_internal, resp_error_unknown_command,
}
use tcp_chat_server.Protocol.Codes.{IsCode, get_response_message, get_response_message_tells}
use tcp_chat_server.Protocol.Codes.Returned.{
  IsCoded, Returns, code-Returns, response-IsCoded, parse_register_request-Returns,
  parse_login_request-Returns, parse_world_broadcast-Returns, parse_p2p_broadcast-Returns,
  build_world_broadcast_notification-Builds, build_p2p_broadcast_notification-Builds,
  account_response-IsCoded,
}
use tcp_chat_server.Protocol.Credentials.{no_credentials}
use tcp_chat_server.Protocol.Accounts.{build_register_response, build_login_response}
use tcp_chat_server.Protocol.World.{no_world_broadcast}
use tcp_chat_server.Protocol.P2p.{no_p2p_broadcast}
use tcp_chat_server.Database.{Sqlite}
use tcp_chat_server.Server.Table.{Table, username_of}
use tcp_chat_server.Server.Broadcast.{
  Handled, reject, send_world, send_to, send_p2p, handle_world, handle_p2p,
  handle_broadcast_message,
}
use tcp_chat_server.Server.Session.{
  Server, error_response, register_found, register_user, login_found, login_lookup, login_user,
  dispatch,
}

-- What a handler returns with its response: the table, or the database.
record Coded {A : Type 0} (h : ℤ × A × Message) : Type 0 where
  code : IsCoded h.2

if-Coded :
    {A : Type 0} (b : Bool) (h k : ℤ × A × Message) → Coded h → Coded k → Coded (if b then h else k)
if-Coded true h k ch ck = ch
if-Coded false h k ch ck = ck

error-Coded :
    {A : Type 0} (z : ℤ) (a : A) (type : ℕ) → Returns z → Coded (z, a, error_response type z)
error-Coded z a type r = record { code = response-IsCoded type z r }

reject-Coded : (t : Table) (z : ℤ) → Returns z → Coded (reject t z)
unfolding reject
reject-Coded t z r = record { code = response-IsCoded (msg_type chat) z r }

send_world-Coded :
    (connfd : ℕ) (t : Table) (response : Message) (b : WorldBroadcast)
    → Coded (send_world connfd t response b)
unfolding send_world
send_world-Coded connfd t response b =
    let built =
      build_world_broadcast_notification-Builds response
        (record b { sender_username = username_of t connfd }) in
    if-Coded (bytes_eq b.message_content []) _ _
      (reject-Coded t _ (code-Returns resp_error_malformed))
      (rw built.succeeds (record { code = built.coded }))

send_to-Coded :
    (o : Option ℕ) (t : Table) (response : Message)
    → IsCoded response
    → Coded (send_to o t response)
unfolding send_to
send_to-Coded none t response c = reject-Coded t _ (code-Returns resp_error_user_not_found)
send_to-Coded (some fd) t response c = record { code = c }

send_p2p-Coded :
    (connfd : ℕ) (t : Table) (response : Message) (b : P2pBroadcast)
    → Coded (send_p2p connfd t response b)
unfolding send_p2p
send_p2p-Coded connfd t response b =
    if-Coded (bytes_eq b.message_content []) _ _
      (reject-Coded t _ (code-Returns resp_error_malformed))
      (elim (Bool-cases (bytes_eq (username_of t connfd) b.recipient_username)) [
        | inl same ↦ rw same (reject-Coded t _ (code-Returns resp_error_malformed))
        | inr others ↦
            let built =
              build_p2p_broadcast_notification-Builds response
                (record b { sender_username = username_of t connfd }) others in
            rw (others, built.succeeds) (send_to-Coded _ t _ built.coded)
      ])

handle_world-Coded :
    (connfd : ℕ) (t : Table) (request response : Message)
    → Coded (handle_world connfd t request response)
unfolding handle_world
handle_world-Coded connfd t request response =
    if-Coded _ _ _ (reject-Coded t _ (parse_world_broadcast-Returns request no_world_broadcast))
      (send_world-Coded connfd t response _)

handle_p2p-Coded :
    (connfd : ℕ) (t : Table) (request response : Message)
    → Coded (handle_p2p connfd t request response)
unfolding handle_p2p
handle_p2p-Coded connfd t request response =
    if-Coded _ _ _ (reject-Coded t _ (parse_p2p_broadcast-Returns request no_p2p_broadcast))
      (send_p2p-Coded connfd t response _)

handle_broadcast_message-Coded :
    (connfd : ℕ) (t : Table) (request response : Message)
    → Coded (handle_broadcast_message connfd t request response)
unfolding handle_broadcast_message
handle_broadcast_message-Coded connfd t request response =
    if-Coded _ _ _ (reject-Coded t _ (code-Returns resp_error_invalid_credentials)) (
      if-Coded _ _ _ (handle_world-Coded connfd t request response) (
        if-Coded _ _ _ (handle_p2p-Coded connfd t request response)
          (reject-Coded t _ (code-Returns resp_error_malformed))))

-- A response beside what the server's state has become.
record Replies {A : Type 0} (p : A × Message) : Type 0 where
  answer : IsCoded p.1

if-Replies :
    {A : Type 0} (b : Bool) (p q : A × Message)
    → Replies p
    → Replies q
    → Replies (if b then p else q)
if-Replies true p q rp rq = rp
if-Replies false p q rp rq = rq

module _ (sqlite : Sqlite) where
  open sqlite use {State}

  registered-Coded :
      (db : State) (response : Message) (user : User)
      → Coded (pos (response_code resp_ok), db, (build_register_response response user).1)
  unfolding build_register_response
  registered-Coded db response user = record {
    code = account_response-IsCoded register response user;
  }

  register_found-Coded :
      (db : State) (found : ℤ) (c : Credentials) (response : Message)
      → Coded (register_found sqlite db found c response)
  unfolding register_found
  register_found-Coded db (pos n) c response =
      search (if-Coded, error-Coded, code-Returns, registered-Coded)
  register_found-Coded db (negsuc n) c response =
      error-Coded _ _ _ (code-Returns resp_error_internal)

  register_user-Coded :
      (db : State) (request response : Message) → Coded (register_user sqlite db request response)
  unfolding register_user
  register_user-Coded db request response =
      if-Coded _ _ _ (error-Coded _ _ _ (parse_register_request-Returns request no_credentials))
        (register_found-Coded _ _ _ response)

  logged_in-Coded :
      (t : Table) (response : Message) (user : User)
      → Coded (pos (response_code resp_ok), t, (build_login_response response user).1)
  unfolding build_login_response
  logged_in-Coded t response user = record { code = account_response-IsCoded login response user }

  login_found-Coded :
      (connfd : ℕ) (t : Table) (user : User) (c : Credentials) (response : Message)
      → Coded (login_found sqlite connfd t user c response)
  unfolding login_found
  login_found-Coded connfd t user c response =
      search (if-Coded, error-Coded, code-Returns, logged_in-Coded)

  login_lookup-Coded :
      (connfd : ℕ) (t : Table) (found : ℤ) (user : User) (c : Credentials) (response : Message)
      → Coded (login_lookup sqlite connfd t found user c response)
  unfolding login_lookup
  login_lookup-Coded connfd t (pos n) user c response =
      search (if-Coded, error-Coded, code-Returns, login_found-Coded)
  login_lookup-Coded connfd t (negsuc n) user c response =
      error-Coded _ _ _ (code-Returns resp_error_internal)

  login_user-Coded :
      (connfd : ℕ) (t : Table) (db : State) (request response : Message)
      → Coded (login_user sqlite connfd t db request response)
  unfolding login_user
  login_user-Coded connfd t db request response =
      if-Coded _ _ _ (error-Coded _ _ _ (parse_login_request-Returns request no_credentials))
        (login_lookup-Coded connfd t _ _ _ response)

  stored-Replies :
      (s : Server State) (h : ℤ × State × Message)
      → Coded h
      → Replies {A = Server State} (record s { database = h.1 }, h.2)
  stored-Replies s h c = record { answer = c.code }

  seated-Replies :
      (s : Server State) (h : Handled)
      → Coded h
      → Replies {A = Server State} (record s { table = h.1 }, h.2)
  seated-Replies s h c = record { answer = c.code }

  unknown-Replies :
      (s : Server State) (type : ℕ)
      → Replies (s, error_response type (pos (response_code resp_error_unknown_command)))
  unknown-Replies s type = record {
    answer = response-IsCoded type _ (code-Returns resp_error_unknown_command);
  }

  dispatch-Replies :
      (connfd : ℕ) (s : Server State) (request response : Message)
      → Replies (dispatch sqlite connfd s request response)
  unfolding dispatch
  dispatch-Replies connfd s request response = search (
    if-Replies, stored-Replies, seated-Replies, unknown-Replies, register_user-Coded,
    login_user-Coded, handle_broadcast_message-Coded,
  )

  -- Whatever the request, the response of `dispatch` has one of the seven codes of
  -- `response_code_t`, and a number `k` whose text by `get_response_message` is that of the
  -- response's code is this code.
  pub dispatch_told :
      (connfd : ℕ) (s : Server State) (request response : Message) (k : ℕ)
      → get_response_message k
        ≡ get_response_message (dispatch sqlite connfd s request response).1.rc
      → IsCode (dispatch sqlite connfd s request response).1.rc
        × (k ≡ (dispatch sqlite connfd s request response).1.rc)
  dispatch_told connfd s request response k e =
      let coded = (dispatch-Replies connfd s request response).answer in
      (coded, get_response_message_tells k _ coded e)
