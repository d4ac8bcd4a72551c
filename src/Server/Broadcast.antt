-- ===== src/Server/Broadcast.antt =====
-- `handle_broadcast_message` of src/server_utils.cpp, its loops over the connection table first.
pub mod Delivery
pub mod Search
pub mod Outcomes
pub mod Keeps
pub mod Accepted
pub mod Senders
use tcp_chat_server.Prelude.{
  ℕ, zero, suc, ◌+◌, ◌≡◌, Option, none, some, List, [], ◌++◌, Bool, not, ◌&&◌, ◌==◌, if◌then◌else◌,
  bytes_eq, ℤ, pos, is_zero,
}
use tcp_chat_server.Protocol.Types.{
  Message, msg_type, chat, tlv_tag, tag_world_broadcast, tag_p2p_broadcast, response_code, resp_ok,
  resp_error_malformed, resp_error_user_not_found, resp_error_invalid_credentials, WorldBroadcast,
  P2pBroadcast,
}
use tcp_chat_server.Protocol.Message.{
  write_message_to_buffer, peek_broadcast_type, build_server_response,
}
use tcp_chat_server.Protocol.World.{
  parse_world_broadcast, build_world_broadcast_notification, no_world_broadcast,
}
use tcp_chat_server.Protocol.P2p.{
  parse_p2p_broadcast, build_p2p_broadcast_notification, no_p2p_broadcast,
}
use tcp_chat_server.Flags.{has_flag, is_auth}
use tcp_chat_server.Server.Table.{
  Table, get_size, flags_of, outgoing_of, username_of, set_outgoing, set_connection_state, writing,
}

-- `is_valid_recipient`: authenticated, and not the sender.
unfoldable pub is_valid_recipient : Table → ℕ → ℕ → Bool
is_valid_recipient t connfd i = has_flag (flags_of t i) is_auth && not (i == connfd)

-- Append the serialized message to a recipient's outgoing buffer, and let it write.
unfoldable pub deliver : Table → ℕ → List ℕ → Table
deliver t i serialized =
    set_connection_state (set_outgoing t i (outgoing_of t i ++ serialized)) i writing

-- The loop over all slots: `rounds` of them are left, from slot `i` on.
unfoldable pub deliver_world : ℕ → ℕ → ℕ → List ℕ → Table → Table
deliver_world zero i connfd serialized t = t
deliver_world (suc rounds) i connfd serialized t =
    deliver_world rounds (i + 1) connfd serialized
      (if is_valid_recipient t connfd i then deliver t i serialized else t)

-- The search for the recipient; `none` is the value -1 of `recipient_conn_fd`.
unfoldable pub find_recipient : ℕ → ℕ → ℕ → List ℕ → Table → Option ℕ
find_recipient zero i connfd recipient t = none
find_recipient (suc rounds) i connfd recipient t =
    if is_valid_recipient t connfd i && bytes_eq (username_of t i) recipient
    then some i
    else find_recipient rounds (i + 1) connfd recipient t

-- The return value, the connection table and the response afterwards.
abbrev pub Handled : Type 0
Handled = ℤ × Table × Message

-- `response = build_server_response(CHAT, code, NULL, 0); return code;`
unfoldable pub reject : Table → ℤ → Handled
reject t code = (code, t, build_server_response (msg_type chat) code none 0)

-- `case TAG_WORLD_BROADCAST`, from the parsed broadcast on.
unfoldable pub send_world : ℕ → Table → Message → WorldBroadcast → Handled
send_world connfd t response broadcast =
    if bytes_eq broadcast.message_content []
    then reject t (pos (response_code resp_error_malformed))
    else (let broadcast = record broadcast { sender_username = username_of t connfd } in
        let (ret, response) = build_world_broadcast_notification response broadcast in
        if not (is_zero ret) then reject t ret else (
          pos (response_code resp_ok),
          deliver_world (get_size t.conns) 0 connfd (write_message_to_buffer [] response) t,
          response,
        ))

-- The end of `case TAG_P2P_BROADCAST`, from the search on.
unfoldable pub send_to : Option ℕ → Table → Message → Handled
send_to none t response = reject t (pos (response_code resp_error_user_not_found))
send_to (some fd) t response =
    (pos (response_code resp_ok), deliver t fd (write_message_to_buffer [] response), response)

-- `case TAG_P2P_BROADCAST`, from the parsed broadcast on.
unfoldable pub send_p2p : ℕ → Table → Message → P2pBroadcast → Handled
send_p2p connfd t response broadcast =
    if bytes_eq broadcast.message_content []
    then reject t (pos (response_code resp_error_malformed))
    else (let broadcast = record broadcast { sender_username = username_of t connfd } in
        if bytes_eq broadcast.sender_username broadcast.recipient_username
        then reject t (pos (response_code resp_error_malformed))
        else (let (ret, response) = build_p2p_broadcast_notification response broadcast in
            if not (is_zero ret)
            then reject t ret
            else send_to (find_recipient (get_size t.conns) 0 connfd broadcast.recipient_username t)
                t response))

unfoldable pub handle_world : ℕ → Table → Message → Message → Handled
handle_world connfd t request response =
    let (ret, broadcast) = parse_world_broadcast request no_world_broadcast in
    if not (is_zero ret) then reject t ret else send_world connfd t response broadcast

unfoldable pub handle_p2p : ℕ → Table → Message → Message → Handled
handle_p2p connfd t request response =
    let (ret, broadcast) = parse_p2p_broadcast request no_p2p_broadcast in
    if not (is_zero ret) then reject t ret else send_p2p connfd t response broadcast

unfoldable pub handle_broadcast_message : ℕ → Table → Message → Message → Handled
handle_broadcast_message connfd t request response =
    if not (has_flag (flags_of t connfd) is_auth)
    then reject t (pos (response_code resp_error_invalid_credentials))
    else if peek_broadcast_type request == tlv_tag tag_world_broadcast
    then handle_world connfd t request response
    else if peek_broadcast_type request == tlv_tag tag_p2p_broadcast
    then handle_p2p connfd t request response
    else reject t (pos (response_code resp_error_malformed))
