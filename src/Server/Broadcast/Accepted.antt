-- ===== src/Server/Broadcast/Accepted.antt =====
-- What the broadcasts that the server accepts do: exactly their recipients get the notification.
use tcp_chat_server.Prelude.{
  ℕ, ◌≤◌, ◌<◌, ◌≡◌, ◌≢◌, refl, Option, none, some, List, [], Bool, true, false, ◌&&◌, ◌==◌, length,
  Bool-cases, inl, inr, arith, bytes_eq_ne, pos,
}
use tcp_chat_server.Protocol.Types.{
  Message, WorldBroadcast, P2pBroadcast, msg_type, chat, response_code, resp_ok,
  resp_error_user_not_found, tlv_tag, tag_world_broadcast, tag_p2p_broadcast,
}
use tcp_chat_server.Protocol.World.{parse_world_broadcast, no_world_broadcast}
use tcp_chat_server.Protocol.World.RoundTrip.{world_message, build_world_broadcast_notification-eq}
use tcp_chat_server.Protocol.P2p.{parse_p2p_broadcast, no_p2p_broadcast}
use tcp_chat_server.Protocol.P2p.RoundTrip.{p2p_message, build_p2p_broadcast_notification-eq, Fits}
use tcp_chat_server.Server.Table.Layout.{IsTable}
use tcp_chat_server.Server.Broadcast.Delivery.{
  Sent, deliver-Sent, deliver_world-Sent, from_to, auth_lt, valid_auth, and_true,
}
use tcp_chat_server.Server.Broadcast.Search.{is_recipient, IsFirst, find_recipient-IsFirst}
use mathlib.Core.Path.{subst, fun_ext}
use tcp_chat_server.Protocol.Message.{
  build_server_response, peek_broadcast_type, write_message_to_buffer,
}
use tcp_chat_server.Flags.{has_flag, is_auth}
use tcp_chat_server.Server.Table.{Table, flags_of, username_of, get_size}
use tcp_chat_server.Server.Broadcast.{
  Handled, reject, send_world, send_to, send_p2p, handle_world, handle_p2p,
  handle_broadcast_message, is_valid_recipient,
}

-- The recipients of a world broadcast.
Sent-cong :
    (chosen chosen' : ℕ → Bool) (serialized : List ℕ) (t t' : Table)
    → ((j : ℕ) → chosen j ≡ chosen' j)
    → Sent chosen serialized t t'
    → Sent chosen' serialized t t'
Sent-cong chosen chosen' serialized t t' same sent =
    subst (λ c. Sent c serialized t t') (fun_ext same) sent

world_recipients :
    (t : Table) (connfd j : ℕ)
    → (from_to 0 (length t.conns.flags) j && is_valid_recipient t connfd j)
      ≡ is_valid_recipient t connfd j
world_recipients t connfd j = elim (Bool-cases (is_valid_recipient t connfd j)) [
  | inl valid ↦ let inside = auth_lt t j (valid_auth t connfd j valid) in ground arith
  | inr other ↦ ground arith
]

-- A world broadcast that the sender may send, and that parses with some content, is accepted. Its
-- notification carries the sender's name from the connection table, whatever name the request
-- held, and the content of the request. Exactly the authenticated connections other than the
-- sender get its bytes behind what they had to read, and go over to writing; nothing else changes.
-- The sender's name and the content fit a TLV.
pub handle_broadcast_message_world :
    (connfd : ℕ) (t : Table) (request response : Message) (b : WorldBroadcast)
    → IsTable t
    → has_flag (flags_of t connfd) is_auth ≡ true
    → peek_broadcast_type request ≡ tlv_tag tag_world_broadcast
    → parse_world_broadcast request no_world_broadcast ≡ (pos 0, b)
    → b.message_content ≢ []
    → length (username_of t connfd) ≤ 255
    → length b.message_content ≤ 255
    → let sent : WorldBroadcast = record {
      sender_username = username_of t connfd;
      message_content = b.message_content;
    } in
      let (code, t', answer) = handle_broadcast_message connfd t request response in
      (code ≡ pos (response_code resp_ok))
      × (answer ≡ world_message response sent)
      × Sent (is_valid_recipient t connfd) (write_message_to_buffer [] answer) t t'
unfolding handle_broadcast_message handle_world send_world get_size
handle_broadcast_message_world connfd t request response b v auth tag parsed filled name content =
    let sent : WorldBroadcast = record {
      sender_username = username_of t connfd;
      message_content = b.message_content;
    } in
    let serialized = write_message_to_buffer [] (world_message response sent) in
    rw
      (
        auth,
        tag,
        parsed,
        bytes_eq_ne b.message_content [] filled,
        build_world_broadcast_notification-eq response sent name content,
      )
      (
        refl,
        refl,
        Sent-cong _ _ serialized t _ (world_recipients t connfd)
            (deliver_world-Sent (length t.conns.flags) 0 connfd serialized t v),
      )

-- The slots past the table are nobody's.
recipient_lt :
    (t : Table) (connfd : ℕ) (recipient : List ℕ) (j : ℕ)
    → is_recipient t connfd recipient j ≡ true
    → j < length t.conns.flags
recipient_lt t connfd recipient j h = elim (Bool-cases (is_valid_recipient t connfd j)) [
  | inl valid ↦ auth_lt t j (valid_auth t connfd j valid)
  | inr other ↦ let no : is_recipient t connfd recipient j ≡ false = rw other refl in cc
]

nobody :
    (t : Table) (connfd : ℕ) (recipient : List ℕ)
    → IsFirst t connfd recipient 0 (length t.conns.flags) none
    → (j : ℕ) → is_recipient t connfd recipient j ≡ false
nobody t connfd recipient missing j = elim (Bool-cases (is_recipient t connfd recipient j)) [
  | inl found ↦
      let inside = recipient_lt t connfd recipient j found in missing j (omega arith) (omega arith)
  | inr other ↦ other
]

-- What a P2P broadcast `sent` to `recipient` comes to: with `code` RESP_OK, its notification went
-- to the first slot of the recipient and to no other, and is also the answer to the sender; or
-- nobody has the name, and nothing changes.
pub data Delivered (t : Table) (connfd : ℕ) (recipient : List ℕ) (sent : Message)
    : Handled → Type 0 where
  to_first :
      (fd : ℕ) (t' : Table)
      → is_recipient t connfd recipient fd ≡ true
      → ((j : ℕ) → j < fd → is_recipient t connfd recipient j ≡ false)
      → Sent (λ j. fd == j) (write_message_to_buffer [] sent) t t'
      → Delivered t connfd recipient sent (pos (response_code resp_ok), t', sent)
  to_nobody :
      ((j : ℕ) → is_recipient t connfd recipient j ≡ false)
      → Delivered t connfd recipient sent (
        pos (response_code resp_error_user_not_found),
        t,
        build_server_response
            (msg_type chat)
            (pos (response_code resp_error_user_not_found))
            none
            0,
      )

send_to-Delivered :
    (t : Table) (connfd : ℕ) (recipient : List ℕ) (sent : Message) (found : Option ℕ)
    → IsTable t
    → IsFirst t connfd recipient 0 (length t.conns.flags) found
    → Delivered t connfd recipient sent (send_to found t sent)
unfolding send_to reject
send_to-Delivered t connfd recipient sent none v first = to_nobody (nobody t connfd recipient first)
send_to-Delivered t connfd recipient sent (some fd) v (lo, hi, found, earlier) =
    to_first fd _ found (λ j small. earlier j (omega arith) small)
      (deliver-Sent t v fd _ (valid_auth t connfd fd (and_true _ _ found)))

-- A P2P broadcast that the sender may send, and that parses with some content, for another name
-- than the sender's, is delivered: its notification carries the sender's name from the connection
-- table, whatever name the request held, and the recipient and the content of the request. The
-- first authenticated slot, other than the sender's, whose username is the recipient gets its bytes
-- behind what it had to read, and goes over to writing, nothing else changes, and the sender is
-- answered with the same notification. If there is no such slot, the code is
-- RESP_ERROR_USER_NOT_FOUND and nothing changes. The two names and the content fit a TLV.
pub handle_broadcast_message_p2p :
    (connfd : ℕ) (t : Table) (request response : Message) (b : P2pBroadcast)
    → IsTable t
    → has_flag (flags_of t connfd) is_auth ≡ true
    → peek_broadcast_type request ≡ tlv_tag tag_p2p_broadcast
    → parse_p2p_broadcast request no_p2p_broadcast ≡ (pos 0, b)
    → b.message_content ≢ []
    → username_of t connfd ≢ b.recipient_username
    → Fits (record b { sender_username = username_of t connfd })
    → Delivered t connfd b.recipient_username
        (p2p_message response (record b { sender_username = username_of t connfd }))
        (handle_broadcast_message connfd t request response)
unfolding handle_broadcast_message handle_p2p send_p2p get_size
handle_broadcast_message_p2p connfd t request response b v auth tag parsed filled other fits =
    let sent : P2pBroadcast = record b { sender_username = username_of t connfd } in
    rw
      (
        auth,
        tag,
        parsed,
        bytes_eq_ne b.message_content [] filled,
        bytes_eq_ne (username_of t connfd) b.recipient_username other,
        build_p2p_broadcast_notification-eq response sent fits other,
      )
      (send_to-Delivered t connfd b.recipient_username (p2p_message response sent) _ v
        (find_recipient-IsFirst t connfd b.recipient_username (length t.conns.flags) 0))
