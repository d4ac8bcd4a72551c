-- ===== src/Examples/Payloads.antt =====
-- The parsers of src/protocol.cpp at concrete payloads, in which the TLVs stand in another order
-- than the builders', with an unknown tag and a repeated one.
use tcp_chat_server.Prelude.{ℕ, ◌≡◌, refl, some, List, [], ◌∷◌, pos, true}
use tcp_chat_server.Protocol.Types.{Message, Credentials, WorldBroadcast, P2pBroadcast}
use tcp_chat_server.Protocol.Message.{payload_bytes}
use tcp_chat_server.Protocol.Tlv.Stream.{Tlv, encode}
use tcp_chat_server.Protocol.Tlv.Values.{last_value, is_given}
use tcp_chat_server.Protocol.Credentials.{parse_register_request, no_credentials}
use tcp_chat_server.Protocol.Credentials.Parsing.{
  AllWithin as CredentialsWithin, parse_register_request_sound, parse_register_request_complete,
}
use tcp_chat_server.Protocol.World.{parse_world_broadcast, no_world_broadcast}
use tcp_chat_server.Protocol.World.Parsing.{
  AllWithin as WorldWithin, parse_world_broadcast_sound, parse_world_broadcast_complete,
}
use tcp_chat_server.Protocol.P2p.{parse_p2p_broadcast, no_p2p_broadcast}
use tcp_chat_server.Protocol.P2p.Parsing.{
  AllWithin as P2pWithin, parse_p2p_broadcast_sound, parse_p2p_broadcast_complete,
}

abbrev pub tlv : ℕ → List ℕ → Tlv
tlv tag value = record { tag = tag; value = value }

abbrev pub message : List Tlv → ℕ → Message
message ts n = record {
  payload_length = n;
  version = 1;
  type = 0;
  rc = 0;
  payload = some (encode ts);
}

-- A password, an unknown tag, a username, and another username.
abbrev credentials_tlvs : List Tlv
credentials_tlvs = tlv 1 (5 ∷ []) ∷ tlv 99 (1 ∷ 2 ∷ []) ∷ tlv 0 (6 ∷ []) ∷ tlv 0 (7 ∷ []) ∷ []

abbrev parsed_credentials : Credentials
parsed_credentials = record { username = 7 ∷ []; password = 5 ∷ [] }

register_request_parses :
    parse_register_request (message credentials_tlvs 13) no_credentials
    ≡ (pos 0, parsed_credentials)
register_request_parses =
    parse_register_request_complete (message credentials_tlvs 13) no_credentials credentials_tlvs
      (7 ∷ []) (5 ∷ []) refl (refl, (refl, (refl, (refl, tt)))) refl refl

parse_register_request_complete_example :
    parse_register_request (message credentials_tlvs 13) no_credentials
    ≡ (pos 0, parsed_credentials)
parse_register_request_complete_example =
    parse_register_request_complete (message credentials_tlvs 13) no_credentials credentials_tlvs
      (7 ∷ []) (5 ∷ []) refl (refl, (refl, (refl, (refl, tt)))) refl refl

parse_register_request_sound_example :
    (ts : List Tlv) × (payload_bytes (message credentials_tlvs 13) ≡ encode ts)
    × CredentialsWithin ts
    × (last_value 0 ts ≡ some (7 ∷ []))
    × (last_value 1 ts ≡ some (5 ∷ []))
parse_register_request_sound_example =
    parse_register_request_sound (message credentials_tlvs 13) no_credentials parsed_credentials
      register_request_parses

abbrev world_tlvs : List Tlv
world_tlvs = tlv 11 (5 ∷ 6 ∷ []) ∷ tlv 4 [] ∷ tlv 99 (1 ∷ []) ∷ tlv 9 (7 ∷ []) ∷ []

abbrev parsed_world : WorldBroadcast
parsed_world = record { sender_username = 7 ∷ []; message_content = 5 ∷ 6 ∷ [] }

world_broadcast_parses :
    parse_world_broadcast (message world_tlvs 12) no_world_broadcast ≡ (pos 0, parsed_world)
world_broadcast_parses =
    parse_world_broadcast_complete (message world_tlvs 12) no_world_broadcast world_tlvs [] (7 ∷ [])
      (5 ∷ 6 ∷ []) refl (refl, (refl, (refl, (refl, tt)))) refl refl refl

parse_world_broadcast_sound_example :
    (ts : List Tlv) × (payload_bytes (message world_tlvs 12) ≡ encode ts)
    × WorldWithin ts
    × (is_given (last_value 4 ts) ≡ true)
    × (last_value 9 ts ≡ some (7 ∷ []))
    × (last_value 11 ts ≡ some (5 ∷ 6 ∷ []))
parse_world_broadcast_sound_example =
    parse_world_broadcast_sound (message world_tlvs 12) no_world_broadcast parsed_world
      world_broadcast_parses

abbrev p2p_tlvs : List Tlv
p2p_tlvs = tlv 11 (5 ∷ []) ∷ tlv 5 [] ∷ tlv 10 (8 ∷ []) ∷ tlv 9 (7 ∷ []) ∷ []

abbrev parsed_p2p : P2pBroadcast
parsed_p2p = record {
  sender_username = 7 ∷ [];
  recipient_username = 8 ∷ [];
  message_content = 5 ∷ [];
}

p2p_broadcast_parses :
    parse_p2p_broadcast (message p2p_tlvs 11) no_p2p_broadcast ≡ (pos 0, parsed_p2p)
p2p_broadcast_parses =
    parse_p2p_broadcast_complete (message p2p_tlvs 11) no_p2p_broadcast p2p_tlvs [] (7 ∷ [])
      (8 ∷ []) (5 ∷ []) refl (refl, (refl, (refl, (refl, tt)))) refl refl refl refl

parse_p2p_broadcast_complete_example :
    parse_p2p_broadcast (message p2p_tlvs 11) no_p2p_broadcast ≡ (pos 0, parsed_p2p)
parse_p2p_broadcast_complete_example =
    parse_p2p_broadcast_complete (message p2p_tlvs 11) no_p2p_broadcast p2p_tlvs [] (7 ∷ [])
      (8 ∷ []) (5 ∷ []) refl (refl, (refl, (refl, (refl, tt)))) refl refl refl refl

parse_p2p_broadcast_sound_example :
    (ts : List Tlv) × (payload_bytes (message p2p_tlvs 11) ≡ encode ts)
    × P2pWithin ts
    × (is_given (last_value 5 ts) ≡ true)
    × (last_value 9 ts ≡ some (7 ∷ []))
    × (last_value 10 ts ≡ some (8 ∷ []))
    × (last_value 11 ts ≡ some (5 ∷ []))
parse_p2p_broadcast_sound_example =
    parse_p2p_broadcast_sound (message p2p_tlvs 11) no_p2p_broadcast parsed_p2p p2p_broadcast_parses
