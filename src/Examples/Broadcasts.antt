-- ===== src/Examples/Broadcasts.antt =====
-- `handle_broadcast_message` of src/server_utils.cpp at concrete requests.
use tcp_chat_server.Prelude.{◌≡◌, refl, none, [], ◌∷◌, pos, arith, is_zero, ap, ◌⊎◌, true}
use tcp_chat_server.Protocol.Types.{
  Message, WorldBroadcast, P2pBroadcast, msg_type, chat, response_code, resp_ok,
}
use tcp_chat_server.Protocol.Message.{
  write_message_to_buffer, build_server_response, peek_broadcast_type,
}
use tcp_chat_server.Protocol.World.{no_world_broadcast}
use tcp_chat_server.Protocol.World.Parsing.{parse_world_broadcast_complete}
use tcp_chat_server.Protocol.World.RoundTrip.{world_message}
use tcp_chat_server.Protocol.P2p.{no_p2p_broadcast}
use tcp_chat_server.Protocol.P2p.Parsing.{parse_p2p_broadcast_complete}
use tcp_chat_server.Protocol.P2p.RoundTrip.{p2p_message}
use tcp_chat_server.Flags.{has_flag, is_auth}
use tcp_chat_server.Server.Table.{flags_of}
use tcp_chat_server.Server.Broadcast.{handle_broadcast_message, is_valid_recipient, reject}
use tcp_chat_server.Server.Broadcast.Delivery.{Sent}
use tcp_chat_server.Server.Broadcast.Outcomes.{handle_broadcast_message_rejected}
use tcp_chat_server.Server.Broadcast.Senders.{IsWorld, IsP2p, handle_broadcast_message_ok}
use tcp_chat_server.Server.Broadcast.Accepted.{
  Delivered, handle_broadcast_message_world, handle_broadcast_message_p2p,
}
use tcp_chat_server.Examples.Wire.{alice, bob, hi, blank}
use tcp_chat_server.Examples.Payloads.{tlv, message}
use tcp_chat_server.Examples.Clients.{two_clients, two_clients-IsTable}

-- Alice says "hi" to all, under bob's name.
abbrev world_request : Message
world_request = message (tlv 4 [] ∷ tlv 9 bob ∷ tlv 11 hi ∷ []) 11

abbrev said_world : WorldBroadcast
said_world = record { sender_username = bob; message_content = hi }

handle_broadcast_message_world_example :
    let sent : WorldBroadcast = record { sender_username = alice; message_content = hi } in
    let (code, t', answer) = handle_broadcast_message 1 two_clients world_request blank in
    (code ≡ pos (response_code resp_ok))
    × (answer ≡ world_message blank sent)
    × Sent (is_valid_recipient two_clients 1) (write_message_to_buffer [] answer) two_clients t'
unfolding has_flag peek_broadcast_type
handle_broadcast_message_world_example =
    handle_broadcast_message_world 1 two_clients world_request blank said_world two_clients-IsTable
      refl refl
      (parse_world_broadcast_complete world_request no_world_broadcast
        (tlv 4 [] ∷ tlv 9 bob ∷ tlv 11 hi ∷ []) [] bob hi refl (refl, (refl, (refl, tt))) refl refl
        refl)
      (λ e. cc) (omega arith) (omega arith)

-- Alice says "hi" to bob, under her own name.
abbrev p2p_request : Message
p2p_request = message (tlv 5 [] ∷ tlv 9 alice ∷ tlv 10 bob ∷ tlv 11 hi ∷ []) 18

abbrev said_p2p : P2pBroadcast
said_p2p = record { sender_username = alice; recipient_username = bob; message_content = hi }

handle_broadcast_message_p2p_example :
    Delivered two_clients 1 bob
      (p2p_message blank said_p2p)
      (handle_broadcast_message 1 two_clients p2p_request blank)
unfolding has_flag peek_broadcast_type
handle_broadcast_message_p2p_example =
    handle_broadcast_message_p2p 1 two_clients p2p_request blank said_p2p two_clients-IsTable refl
      refl
      (parse_p2p_broadcast_complete p2p_request no_p2p_broadcast
        (tlv 5 [] ∷ tlv 9 alice ∷ tlv 10 bob ∷ tlv 11 hi ∷ []) [] alice bob hi refl
        (refl, (refl, (refl, (refl, tt)))) refl refl refl refl)
      (λ e. cc) (λ e. cc)
      (record {
        sender_fits = omega arith;
        recipient_fits = omega arith;
        content_fits = omega arith;
      })

world_accepted : is_zero (handle_broadcast_message 1 two_clients world_request blank).0 ≡ true
unfolding has_flag peek_broadcast_type
world_accepted =
    let (code, _, _) =
      handle_broadcast_message_world 1 two_clients world_request blank said_world
        two_clients-IsTable refl refl
        (parse_world_broadcast_complete world_request no_world_broadcast
          (tlv 4 [] ∷ tlv 9 bob ∷ tlv 11 hi ∷ []) [] bob hi refl (refl, (refl, (refl, tt))) refl
          refl refl)
        (λ e. cc) (omega arith) (omega arith) in
    ap is_zero code

handle_broadcast_message_ok_example :
    (has_flag (flags_of two_clients 1) is_auth ≡ true)
    × (IsWorld world_request ⊎ IsP2p alice world_request)
handle_broadcast_message_ok_example =
    handle_broadcast_message_ok 1 two_clients world_request blank world_accepted

handle_broadcast_message_rejected_example :
    let (code, t', answer) = handle_broadcast_message 3 two_clients world_request blank in
    (t' ≡ two_clients) × (answer ≡ build_server_response (msg_type chat) code none 0)
unfolding has_flag handle_broadcast_message reject
handle_broadcast_message_rejected_example =
    handle_broadcast_message_rejected 3 two_clients world_request blank refl
