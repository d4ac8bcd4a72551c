-- ===== src/Examples/Wire.antt =====
-- The protocol of src/protocol.cpp at concrete messages.
use tcp_chat_server.Prelude.{ℕ, ◌+◌, ◌≡◌, ◌≢◌, refl, some, List, [], ◌∷◌, ◌++◌, length, arith, pos}
use tcp_chat_server.Protocol.Types.{
  Message, msg_type, register, chat, Credentials, WorldBroadcast, P2pBroadcast,
}
use tcp_chat_server.Protocol.Message.{parse_message, write_message_to_buffer, payload_bytes, IsWire}
use tcp_chat_server.Protocol.Message.RoundTrip.{parse_message-write_message_to_buffer}
use tcp_chat_server.Protocol.Request.{Request}
use tcp_chat_server.Protocol.Credentials.{build_register_request, parse_register_request}
use tcp_chat_server.Protocol.Credentials.RoundTrip.{
  Carries, parse_register_request-build_register_request,
}
use tcp_chat_server.Protocol.Accounts.{
  parse_register_response, parse_login_response, overruns, no_user,
}
use tcp_chat_server.Protocol.Accounts.Faults.{user_id_overrun}
use tcp_chat_server.Protocol.P2p.{
  build_p2p_broadcast_request, parse_p2p_broadcast, no_p2p_broadcast,
}
use tcp_chat_server.Protocol.P2p.RoundTrip.{
  IsSendable, parse_p2p_broadcast-build_p2p_broadcast_request,
}

-- "alice", "bob" and "hi".
abbrev pub alice : List ℕ
alice = 97 ∷ 108 ∷ 105 ∷ 99 ∷ 101 ∷ []

abbrev pub bob : List ℕ
bob = 98 ∷ 111 ∷ 98 ∷ []

abbrev pub hi : List ℕ
hi = 104 ∷ 105 ∷ []

abbrev pub alice_credentials : Credentials
alice_credentials = record { username = alice; password = hi }

abbrev to_all : WorldBroadcast
to_all = record { sender_username = alice; message_content = hi }

abbrev to_bob : P2pBroadcast
to_bob = record { sender_username = alice; recipient_username = bob; message_content = hi }

-- `message_t response{}`.
abbrev pub blank : Message
blank = record { payload_length = 0; version = 0; type = 0; rc = 0; payload = some [] }

-- A message with three bytes of payload, in a buffer of five.
abbrev pub short_message : Message
short_message = record {
  payload_length = 3;
  version = 1;
  type = 2;
  rc = 0;
  payload = some (7 ∷ 8 ∷ 9 ∷ 10 ∷ 11 ∷ []);
}

pub short_message-IsWire : IsWire short_message
short_message-IsWire = record {
  version_fits = omega arith;
  type_fits = omega arith;
  rc_fits = omega arith;
  length_fits = omega arith;
  payload_there = refl;
}

parse_message-write_message_to_buffer_example :
    let got = parse_message (write_message_to_buffer [] short_message ++ hi) in
    (got.version ≡ 1)
    × (got.type ≡ 2)
    × (got.rc ≡ 0)
    × (got.payload_length ≡ 3)
    × (payload_bytes got ≡ 7 ∷ 8 ∷ 9 ∷ [])
    × (got.payload ≡ some (7 ∷ 8 ∷ 9 ∷ 104 ∷ 105 ∷ []))
parse_message-write_message_to_buffer_example =
    parse_message-write_message_to_buffer short_message hi short_message-IsWire

parse_register_request-build_register_request_example :
    (r : Request) × (build_register_request alice_credentials ≡ some r)
    × Carries register parse_register_request alice_credentials r
parse_register_request-build_register_request_example =
    parse_register_request-build_register_request alice_credentials (omega arith) (omega arith)

abbrev long_id : Message
long_id = record {
  payload_length = 7;
  version = 1;
  type = 1;
  rc = 0;
  payload = some (6 ∷ 5 ∷ 1 ∷ 2 ∷ 3 ∷ 4 ∷ 5 ∷ []);
}

user_id_overrun_example :
    (parse_register_response long_id no_user ≡ overruns)
    × (parse_login_response long_id no_user ≡ overruns)
user_id_overrun_example =
    user_id_overrun long_id no_user (1 ∷ 2 ∷ 3 ∷ 4 ∷ 5 ∷ []) [] (omega arith) refl

alice-ne-bob : alice ≢ bob
alice-ne-bob = λ e. cc

to_bob-IsSendable : IsSendable to_bob
to_bob-IsSendable = record {
  sender_short = omega arith;
  recipient_short = omega arith;
  content_short = omega arith;
  to_another = alice-ne-bob;
}

parse_p2p_broadcast-build_p2p_broadcast_request_example :
    (r : Request) × (build_p2p_broadcast_request to_bob ≡ some r)
    × (r.message_len ≡ length r.bytes)
    × ((rest : List ℕ)
        → let m = parse_message (r.bytes ++ rest) in
          (m.version ≡ 1)
          × (m.type ≡ msg_type chat)
          × (7 + m.payload_length ≡ r.message_len)
          × (parse_p2p_broadcast m no_p2p_broadcast ≡ (pos 0, to_bob)))
parse_p2p_broadcast-build_p2p_broadcast_request_example =
    parse_p2p_broadcast-build_p2p_broadcast_request to_bob to_bob-IsSendable
