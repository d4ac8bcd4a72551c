-- ===== src/Server/Broadcast/Keeps.antt =====
-- No broadcast opens or closes a connection, and the table stays well formed.
use tcp_chat_server.Prelude.{
  ap, ◌∙◌, inl, inr, Bool-cases, ℕ, ◌≡◌, refl, Option, none, some, List, Bool, true, false, ℤ,
  length, if◌then◌else◌,
}
use tcp_chat_server.Protocol.Types.{Message, WorldBroadcast, P2pBroadcast}
use tcp_chat_server.Flags.{to_writing, want_write, has_flag, is_auth}
use tcp_chat_server.Server.Table.{outgoing_of, Table, flags_of, get_size}
use tcp_chat_server.Flags.Laws.{to_writing-Flags}
use tcp_chat_server.Server.Table.Drains.{Drains}
use tcp_chat_server.Server.Table.Layout.{IsTable, Evolves, Evolves-refl}
use tcp_chat_server.Server.Broadcast.Delivery.{
  Sent, auth-Sent, deliver-Sent, deliver_world-Sent, valid_auth, and_true,
}
use tcp_chat_server.Server.Broadcast.Search.{IsFirst, find_recipient-IsFirst}
use tcp_chat_server.Server.Broadcast.{
  Handled, reject, send_world, send_to, send_p2p, handle_world, handle_p2p,
  handle_broadcast_message, deliver_world, find_recipient,
}

-- What a broadcast leaves of the table: no connection is opened, closed or authenticated, and what
-- was received is still there.
pub record Spares (t : Table) (h : Handled) : Type 0 where
  pub evolves : Evolves t h.1
  pub incoming : h.1.conns.incoming_buffers ≡ t.conns.incoming_buffers
  pub user_ids : h.1.conns.user_ids ≡ t.conns.user_ids
  pub usernames : h.1.conns.usernames ≡ t.conns.usernames
  pub auths : (j : ℕ) → has_flag (flags_of h.1 j) is_auth ≡ has_flag (flags_of t j) is_auth
  pub drains : (j : ℕ) → Drains t j → Drains h.1 j

if-Spares :
    (t : Table) (b : Bool) (h k : Handled) → Spares t h → Spares t k → Spares t (if b then h else k)
if-Spares t true h k kh kk = kh
if-Spares t false h k kh kk = kk

-- Who gets a message goes over to writing, and nobody else is concerned.
Sent-Drains :
    (t t' : Table) (chosen : ℕ → Bool) (serialized : List ℕ)
    → IsTable t
    → Sent chosen serialized t t'
    → (j : ℕ) → Drains t j
    → Drains t' j
Sent-Drains t t' chosen serialized v sent j d = elim (Bool-cases (chosen j)) [
  | inl picked ↦
      let mask : flags_of t' j ≡ to_writing (flags_of t j) = rw picked at (sent.masks j) in
      inl (
        ap (λ f. has_flag f want_write) mask
        ∙ (to_writing-Flags (flags_of t j) (v.slot j).in_range).writes)
  | inr left ↦
      let mask : flags_of t' j ≡ flags_of t j = rw left at (sent.masks j) in
      let kept : outgoing_of t' j ≡ outgoing_of t j = rw left at (sent.outgoing j) in
      elim d [
        | inl waits ↦ inl (ap (λ f. has_flag f want_write) mask ∙ waits)
        | inr empty ↦ inr (kept ∙ empty)
      ]
]

Sent-Spares :
    (t t' : Table) (code : ℤ) (m : Message) (chosen : ℕ → Bool) (serialized : List ℕ)
    → IsTable t
    → Sent chosen serialized t t'
    → Spares t (code, t', m)
Sent-Spares t t' code m chosen serialized v sent = record {
  evolves = sent.evolves;
  incoming = sent.incoming;
  user_ids = sent.user_ids;
  usernames = sent.usernames;
  auths = λ j. auth-Sent chosen serialized t t' j v sent;
  drains = Sent-Drains t t' chosen serialized v sent;
}

reject-Spares : (t : Table) (code : ℤ) → IsTable t → Spares t (reject t code)
unfolding reject
reject-Spares t code v = record {
  evolves = Evolves-refl t v;
  incoming = refl;
  user_ids = refl;
  usernames = refl;
  auths = λ j. refl;
  drains = λ j d. d;
}

ruleset spare_rules = (reject-Spares, if-Spares)

module _ (connfd : ℕ) (t : Table) (v : IsTable t) where
  world-Spares :
      (code : ℤ) (serialized : List ℕ) (m : Message)
      → Spares t (code, deliver_world (get_size t.conns) 0 connfd serialized t, m)
  unfolding get_size
  world-Spares code serialized m =
      Sent-Spares t _ code m _ serialized v
        (deliver_world-Sent (length t.conns.flags) 0 connfd serialized t v)

  send_world-Spares :
      (response : Message) (b : WorldBroadcast) → Spares t (send_world connfd t response b)
  unfolding send_world
  send_world-Spares response b = search (spare_rules, world-Spares)

  send_to-Spares :
      (recipient : List ℕ) (rounds : ℕ) (found : Option ℕ) (response : Message)
      → IsFirst t connfd recipient 0 rounds found
      → Spares t (send_to found t response)
  unfolding send_to
  send_to-Spares recipient rounds none response first = search spare_rules
  send_to-Spares recipient rounds (some fd) response (lo, hi, found, earlier) =
      Sent-Spares t _ _ response _ _ v
        (deliver-Sent t v fd _ (valid_auth t connfd fd (and_true _ _ found)))

  searched-Spares :
      (recipient : List ℕ) (rounds : ℕ) (response : Message)
      → Spares t (send_to (find_recipient rounds 0 connfd recipient t) t response)
  searched-Spares recipient rounds response =
      send_to-Spares recipient rounds _ response
        (find_recipient-IsFirst t connfd recipient rounds 0)

  send_p2p-Spares :
      (response : Message) (b : P2pBroadcast) → Spares t (send_p2p connfd t response b)
  unfolding send_p2p
  send_p2p-Spares response b = search (spare_rules, searched-Spares)

  handle_world-Spares :
      (request response : Message) → Spares t (handle_world connfd t request response)
  unfolding handle_world
  handle_world-Spares request response = search (spare_rules, send_world-Spares)

  handle_p2p-Spares : (request response : Message) → Spares t (handle_p2p connfd t request response)
  unfolding handle_p2p
  handle_p2p-Spares request response = search (spare_rules, send_p2p-Spares)

  pub handle_broadcast_message-Spares :
      (request response : Message) → Spares t (handle_broadcast_message connfd t request response)
  unfolding handle_broadcast_message
  handle_broadcast_message-Spares request response =
      search (spare_rules, handle_world-Spares, handle_p2p-Spares)
