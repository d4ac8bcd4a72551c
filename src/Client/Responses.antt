-- ===== src/Client/Responses.antt =====
-- What the client makes of the server's responses.
use tcp_chat_server.Prelude.{
  ◌≡◌, ◌≤◌, ◌<◌, ◌∙◌, refl, ap, get_or, [], length, ℤ, pos, inl, inr, arith,
}
use tcp_chat_server.Protocol.Types.{Message, User, P2pBroadcast, WorldBroadcast}
use tcp_chat_server.Protocol.Message.{peek_broadcast_type}
use tcp_chat_server.Protocol.Accounts.{returns, parse_login_response, build_login_response, no_user}
use tcp_chat_server.Protocol.Accounts.RoundTrip.{parse_login_response-build_login_response}
use tcp_chat_server.Protocol.Accounts.Faults.{parse_login_response-ne-minus_one}
use tcp_chat_server.Protocol.World.{build_world_broadcast_notification}
use tcp_chat_server.Protocol.World.RoundTrip.{
  world_payload-encode, build_world_broadcast_notification-eq,
  parse_world_broadcast_notification-build,
}
use tcp_chat_server.Protocol.P2p.{build_p2p_broadcast_notification}
use tcp_chat_server.Protocol.P2p.RoundTrip.{
  IsSendable, IsSendable-Fits, p2p_payload-encode, build_p2p_broadcast_notification-eq,
  parse_p2p_broadcast_notification-build,
}
use tcp_chat_server.Flags.{is_auth, flags_or}
use tcp_chat_server.Client.{
  Client, logged_in, printed, handle_login_response, handle_broadcast_response,
  handle_server_response,
}

-- The client after a login.
abbrev pub authenticated_as : User → Client → Client
authenticated_as user client = record {
  user = record client.user { user_id = user.user_id; username = user.username };
  flags = flags_or client.flags is_auth;
}

-- A response to a login with code RESP_OK authenticates the client whatever the parser makes of it:
-- also if it returns RESP_ERROR_MALFORMED, the client takes over what was parsed so far and sets
-- IS_AUTH. The parser does not leave its bounds.
pub handle_login_response_unchecked :
    (response : Message) (client : Client) (code : ℤ) (user : User)
    → response.rc ≡ 0
    → parse_login_response response no_user ≡ returns code user
    → handle_login_response response client ≡ (logged_in user, authenticated_as user client)
unfolding handle_login_response
handle_login_response_unchecked response client code user ok parsed =
    elim (parse_login_response-ne-minus_one response no_user user code parsed) [
      | inl zero ↦ rw (parsed, ok, zero) refl
      | inr one ↦ rw (parsed, ok, one) refl
    ]

-- The server's answer to an accepted login logs the client in: for a user with a 32-bit id and a
-- name of at most 32 bytes, the client takes over exactly this id and name and sets IS_AUTH.
pub handle_server_response-build_login_response :
    (response : Message) (client : Client) (user : User)
    → user.user_id < 4294967296
    → length user.username ≤ 32
    → handle_server_response (build_login_response response user).1 client
      ≡ (logged_in (record user { password = [] }), authenticated_as user client)
unfolding handle_server_response
handle_server_response-build_login_response response client user small short =
    let (built, ok, kind, parsed) =
      parse_login_response-build_login_response response user small short in
    rw kind (
      handle_login_response_unchecked (build_login_response response user).1 client (pos 0)
        (record user { password = [] }) ok parsed)

-- The notification of a P2P broadcast within the protocol's limits is printed at the client with its
-- sender, its recipient and its content, and changes nothing of the client.
pub handle_server_response-build_p2p_broadcast_notification :
    (response : Message) (client : Client) (b : P2pBroadcast)
    → IsSendable b
    → handle_server_response (build_p2p_broadcast_notification response b).1 client
      ≡ (printed b.sender_username b.recipient_username b.message_content, client)
unfolding handle_server_response handle_broadcast_response peek_broadcast_type
handle_server_response-build_p2p_broadcast_notification response client b s =
    let (built, ok, kind, parsed) = parse_p2p_broadcast_notification-build response b s in
    let tagged : peek_broadcast_type (build_p2p_broadcast_notification response b).1 ≡ 5 =
      ap (λ r. peek_broadcast_type r.1)
        (build_p2p_broadcast_notification-eq response b (IsSendable-Fits b s) s.to_another)
      ∙ ap (λ p. get_or p 0 0) (p2p_payload-encode b (IsSendable-Fits b s)) in
    rw (tagged, parsed, kind, ok) refl

-- So is that of a world broadcast, with no recipient.
pub handle_server_response-build_world_broadcast_notification :
    (response : Message) (client : Client) (b : WorldBroadcast)
    → length b.sender_username ≤ 32
    → length b.message_content ≤ 255
    → handle_server_response (build_world_broadcast_notification response b).1 client
      ≡ (printed b.sender_username [] b.message_content, client)
unfolding handle_server_response handle_broadcast_response peek_broadcast_type
handle_server_response-build_world_broadcast_notification response client b hu hc =
    let (built, ok, kind, parsed) = parse_world_broadcast_notification-build response b hu hc in
    let tagged : peek_broadcast_type (build_world_broadcast_notification response b).1 ≡ 4 =
      ap (λ r. peek_broadcast_type r.1)
        (build_world_broadcast_notification-eq response b (omega arith) hc)
      ∙ ap (λ p. get_or p 0 0) (world_payload-encode b (omega arith) hc) in
    rw (tagged, parsed, kind, ok) refl
