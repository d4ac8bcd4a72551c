-- ===== src/Conversation/Chat.antt =====
-- What the server's `try_one_request` makes of any request of type CHAT.
use tcp_chat_server.Prelude.{◌≡◌, ◌∙◌, refl, ap, ℕ, ◌+◌, ◌≤◌, length, true, false, ◌==◌, arith}
use tcp_chat_server.Protocol.Types.{Message, msg_type, chat}
use tcp_chat_server.Protocol.Message.{parse_message}
use tcp_chat_server.Protocol.Request.{Request}
use tcp_chat_server.Protocol.Buffers.{IsBuffered}
use tcp_chat_server.Flags.{has_flag, is_auth}
use tcp_chat_server.Database.{Sqlite}
use tcp_chat_server.Server.Table.{Table, flags_of, incoming_of, outgoing_of}
use tcp_chat_server.Server.Table.Layout.{IsTable}
use tcp_chat_server.Server.Broadcast.{Handled, handle_broadcast_message, is_valid_recipient}
use tcp_chat_server.Server.Broadcast.Delivery.{auth_active}
use tcp_chat_server.Server.Session.{Server, dispatch, try_one_request, empty_response}
use tcp_chat_server.Server.Session.Serving.{try_one_request_whole}

-- A recipient is not the sender.
pub recipient_other :
    (t : Table) (connfd fd : ℕ) → is_valid_recipient t connfd fd ≡ true → (connfd == fd) ≡ false
unfolding is_valid_recipient
recipient_other t connfd fd valid = ground arith

-- A message that the server reads in a request, and knows for one of type CHAT.
pub record IsChat (m : Message) (r : Request) : Type 0 where
  pub kind : m.type ≡ msg_type chat
  pub small : m.payload_length ≤ 4096
  pub whole : 7 + m.payload_length ≡ length r.bytes

module _ (sqlite : Sqlite) (connfd : ℕ) (s : Server sqlite.State) (r : Request)
    (v : IsTable s.table) (auth : has_flag (flags_of s.table connfd) is_auth ≡ true)
    (fits : IsBuffered r) (received : incoming_of s.table connfd ≡ r.bytes) where
  abbrev pub received_request : Message
  received_request = parse_message (incoming_of s.table connfd)

  abbrev pub broadcast_handled : Handled
  broadcast_handled = handle_broadcast_message connfd s.table received_request empty_response

  dispatch-chat :
      received_request.type ≡ msg_type chat
      → dispatch sqlite connfd s received_request empty_response
        ≡ (record s { table = broadcast_handled.1 }, broadcast_handled.2)
  unfolding dispatch
  dispatch-chat kind =
      let register : (received_request.type == 0) ≡ false = ground arith in
      let login : (received_request.type == 1) ≡ false = ground arith in
      let own : (received_request.type == 2) ≡ true = ground arith in rw (register, login, own) refl

  -- It is served, and the others' output is what `handle_broadcast_message` leaves.
  pub chat_served :
      IsChat received_request r
      → let (served, s') = try_one_request sqlite connfd s in
        (served ≡ true)
        × ((fd : ℕ)
            → (connfd == fd) ≡ false
            → outgoing_of s'.table fd ≡ outgoing_of broadcast_handled.1 fd)
  chat_served c =
      let size : length (incoming_of s.table connfd) ≡ length r.bytes = ap length received in
      let (served, _, _, _, others) =
        try_one_request_whole sqlite connfd s v (auth_active s.table v connfd auth)
          (omega (arith, fits.served)) c.small (omega (arith, c.whole)) in
      (
        served,
        λ fd other. others fd other ∙ ap (λ p. outgoing_of p.0.table fd) (dispatch-chat c.kind),
      )
