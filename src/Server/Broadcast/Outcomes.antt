-- ===== src/Server/Broadcast/Outcomes.antt =====
-- What a broadcast request does as a whole: rejected ones change nothing, accepted ones reach
-- exactly their recipients.
use tcp_chat_server.Prelude.{
  ℕ, ◌≡◌, refl, Option, none, some, Bool, true, false, if◌then◌else◌, ℤ, pos, is_zero,
}
use tcp_chat_server.Protocol.Types.{
  Message, WorldBroadcast, P2pBroadcast, msg_type, chat, response_code, resp_ok,
}
use tcp_chat_server.Protocol.Message.{build_server_response}
use tcp_chat_server.Server.Table.{Table}
use tcp_chat_server.Server.Broadcast.{
  Handled, reject, send_world, send_to, send_p2p, handle_world, handle_p2p,
  handle_broadcast_message,
}

-- A handler that returns an error code leaves the table as it was, and answers with that code.
record Rejects (t : Table) (h : Handled) : Type 0 where
  unchanged :
      is_zero h.0 ≡ false → (h.1 ≡ t) × (h.2 ≡ build_server_response (msg_type chat) h.0 none 0)

reject-Rejects : (t : Table) (code : ℤ) → Rejects t (reject t code)
unfolding reject
reject-Rejects t code = record { unchanged = λ failed. (refl, refl) }

ok-Rejects :
    (t t' : Table) (response : Message) → Rejects t (pos (response_code resp_ok), t', response)
ok-Rejects t t' response = record { unchanged = λ failed. cc }

if-Rejects :
    (t : Table) (b : Bool) (h k : Handled)
    → Rejects t h
    → Rejects t k
    → Rejects t (if b then h else k)
if-Rejects t true h k rh rk = rh
if-Rejects t false h k rh rk = rk

ruleset reject_rules = (reject-Rejects, ok-Rejects, if-Rejects)

send_world-Rejects :
    (connfd : ℕ) (t : Table) (response : Message) (b : WorldBroadcast)
    → Rejects t (send_world connfd t response b)
unfolding send_world
send_world-Rejects connfd t response b = search reject_rules

send_to-Rejects : (o : Option ℕ) (t : Table) (response : Message) → Rejects t (send_to o t response)
unfolding send_to
send_to-Rejects none t response = search reject_rules
send_to-Rejects (some fd) t response = search reject_rules

send_p2p-Rejects :
    (connfd : ℕ) (t : Table) (response : Message) (b : P2pBroadcast)
    → Rejects t (send_p2p connfd t response b)
unfolding send_p2p
send_p2p-Rejects connfd t response b = search (reject_rules, send_to-Rejects)

handle_world-Rejects :
    (connfd : ℕ) (t : Table) (request response : Message)
    → Rejects t (handle_world connfd t request response)
unfolding handle_world
handle_world-Rejects connfd t request response = search (reject_rules, send_world-Rejects)

handle_p2p-Rejects :
    (connfd : ℕ) (t : Table) (request response : Message)
    → Rejects t (handle_p2p connfd t request response)
unfolding handle_p2p
handle_p2p-Rejects connfd t request response = search (reject_rules, send_p2p-Rejects)

handle-Rejects :
    (connfd : ℕ) (t : Table) (request response : Message)
    → Rejects t (handle_broadcast_message connfd t request response)
unfolding handle_broadcast_message
handle-Rejects connfd t request response =
    search (reject_rules, handle_world-Rejects, handle_p2p-Rejects)

-- Whatever the request, if the return code of `handle_broadcast_message` is not RESP_OK, then the
-- connection table is as it was, so nobody was sent anything, and the response is of type CHAT,
-- has that code and no payload.
pub handle_broadcast_message_rejected :
    (connfd : ℕ) (t : Table) (request response : Message)
    → is_zero (handle_broadcast_message connfd t request response).0 ≡ false
    → let (code, t', answer) = handle_broadcast_message connfd t request response in
      (t' ≡ t) × (answer ≡ build_server_response (msg_type chat) code none 0)
handle_broadcast_message_rejected connfd t request response failed =
    (handle-Rejects connfd t request response).unchanged failed
