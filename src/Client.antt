-- ===== src/Client.antt =====
-- The client's handlers of the server's responses: `handle_registration_response`,
-- `handle_login_response`, `handle_broadcast_response` and the dispatch of `handle_server_response`
-- of src/client_utils.cpp.
pub mod Responses
pub mod Words
pub mod Shell
pub mod Threads
pub mod Startup
pub mod Texts
use tcp_chat_server.Prelude.{ℕ, List, [], Bool, false, not, ◌==◌, if◌then◌else◌, ℤ, pos, negsuc}
use tcp_chat_server.Protocol.Types.{
  Message, User, P2pBroadcast, WorldBroadcast, msg_type, register, login, chat, tlv_tag,
  tag_p2p_broadcast, tag_world_broadcast,
}
use tcp_chat_server.Protocol.Message.{peek_broadcast_type}
use tcp_chat_server.Protocol.Accounts.{
  Parsed, returns, overruns, parse_register_response, parse_login_response, no_user,
}
use tcp_chat_server.Protocol.World.{parse_world_broadcast_notification, no_world_broadcast}
use tcp_chat_server.Protocol.P2p.{parse_p2p_broadcast_notification, no_p2p_broadcast}
use tcp_chat_server.Flags.{ConnFlags, is_auth, flags_or}

-- What of `conn_t` the handlers change.
pub record Client : Type 0 where
  pub user : User
  pub flags : ConnFlags

-- What the user gets to see, or that C++ promises nothing from here on.
pub data Notice : Type 0 where
  refused : ℕ → Notice
  unparsed : Notice
  registered : User → Notice
  logged_in : User → Notice
  printed : List ℕ → List ℕ → List ℕ → Notice
  unknown_type : ℕ → Notice
  undefined : Notice

-- `ret == -1`.
abbrev is_minus_one : ℤ → Bool
is_minus_one (pos n) = false
is_minus_one (negsuc n) = n == 0

abbrev registration_notice : Parsed → Notice
registration_notice overruns = undefined
registration_notice (returns ret user) = if is_minus_one ret then unparsed else registered user

unfoldable pub handle_registration_response : Message → Notice
handle_registration_response response =
    if not (response.rc == 0)
    then refused response.rc
    else registration_notice (parse_register_response response no_user)

abbrev login_notice : Parsed → Client → Notice × Client
login_notice overruns client = (undefined, client)
login_notice (returns ret user) client = if is_minus_one ret then (unparsed, client) else (
  logged_in user,
  record {
    user = record client.user { user_id = user.user_id; username = user.username };
    flags = flags_or client.flags is_auth;
  },
)

-- The user of `g_client_conn` and its flags are changed under a lock.
unfoldable pub handle_login_response : Message → Client → Notice × Client
handle_login_response response client =
    if not (response.rc == 0)
    then (refused response.rc, client)
    else login_notice (parse_login_response response no_user) client

-- The return values of the two parsers are not looked at.
unfoldable pub handle_broadcast_response : Message → Notice
handle_broadcast_response response =
    if not (response.rc == 0)
    then refused response.rc
    else if peek_broadcast_type response == tlv_tag tag_p2p_broadcast
    then (let (_, broadcast) = parse_p2p_broadcast_notification response no_p2p_broadcast in
        printed broadcast.sender_username broadcast.recipient_username broadcast.message_content)
    else if peek_broadcast_type response == tlv_tag tag_world_broadcast
    then (let (_, broadcast) = parse_world_broadcast_notification response no_world_broadcast in
        printed broadcast.sender_username [] broadcast.message_content)
    else unknown_type (peek_broadcast_type response)

-- `switch (response.type)` of `handle_server_response`, once a message was read.
unfoldable pub handle_server_response : Message → Client → Notice × Client
handle_server_response response client =
    if response.type == msg_type register
    then (handle_registration_response response, client)
    else if response.type == msg_type login
    then handle_login_response response client
    else if response.type == msg_type chat
    then (handle_broadcast_response response, client)
    else (unknown_type response.type, client)
