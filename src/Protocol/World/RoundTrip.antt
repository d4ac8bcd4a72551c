-- ===== src/Protocol/World/RoundTrip.antt =====
-- World broadcasts from the client to the server, and from the server to the other clients.
use tcp_chat_server.Prelude.{
  ℕ, ◌+◌, ◌%◌, ◌≤◌, ◌≡◌, refl, ap, sym, ◌∙◌, some, List, [], ◌∷◌, ◌++◌, length, take_all,
  take_front, length-append, arith, pos, false, le→ltb,
}
use tcp_chat_server.Protocol.Types.{
  Message, chat, msg_type, WorldBroadcast, tag_sender_username, tag_message_content,
}
use tcp_chat_server.Protocol.Tlv.{write_tlv}
use tcp_chat_server.Protocol.Tlv.Stream.{Tlv, encode, write_tlv_encoded}
use tcp_chat_server.Protocol.Message.{parse_message, payload_bytes, IsWire}
use tcp_chat_server.Protocol.Request.{Request, finish_request, finish_request_lem, request_message}
use tcp_chat_server.Protocol.World.{
  world_payload, build_world_broadcast_request, build_world_broadcast_notification,
  parse_world_broadcast, parse_world_broadcast_notification, no_world_broadcast,
}
use tcp_chat_server.Protocol.World.Parsing.{parse_world_broadcast_complete}

abbrev pub world_tlvs : WorldBroadcast → List Tlv
world_tlvs b =
    record { tag = 4; value = [] }
    ∷ record { tag = 9; value = b.sender_username }
    ∷ record { tag = 11; value = b.message_content }
    ∷ []

-- What the builders write is the list of the three TLVs.
pub world_payload-encode :
    (b : WorldBroadcast)
    → length b.sender_username ≤ 255
    → length b.message_content ≤ 255
    → world_payload b ≡ encode (world_tlvs b)
unfolding world_payload
world_payload-encode b hu hc =
    ap
      (λ p.
        write_tlv p tag_message_content (length b.message_content % 256) b.message_content false)
      (write_tlv_encoded (record { tag = 4; value = [] } ∷ []) tag_sender_username b.sender_username
        hu)
    ∙ write_tlv_encoded
        (record { tag = 4; value = [] } ∷ record { tag = 9; value = b.sender_username } ∷ [])
        tag_message_content b.message_content hc

pub length-world_payload :
    (b : WorldBroadcast)
    → length b.sender_username ≤ 255
    → length b.message_content ≤ 255
    → length (world_payload b) ≡ 6 + length b.sender_username + length b.message_content
length-world_payload b hu hc = rw (world_payload-encode b hu hc) (
    omega (
      arith,
      length-append b.sender_username (11 ∷ length b.message_content ∷ (b.message_content ++ [])),
      length-append b.message_content [],
    ))

-- A payload that the builders wrote is parsed, wherever the rest of its buffer is.
pub parse_written :
    (m : Message) (b : WorldBroadcast)
    → length b.sender_username ≤ 32
    → length b.message_content ≤ 255
    → payload_bytes m ≡ world_payload b
    → parse_world_broadcast m no_world_broadcast ≡ (pos 0, b)
parse_written m b hu hc e =
    parse_world_broadcast_complete m no_world_broadcast (world_tlvs b) [] b.sender_username
      b.message_content (e ∙ world_payload-encode b (omega arith) hc) (ground arith) refl refl refl

-- No guard stops such a broadcast.
pub build_world_broadcast_request-eq :
    (b : WorldBroadcast)
    → length b.sender_username ≤ 32
    → length b.message_content ≤ 255
    → build_world_broadcast_request b ≡ finish_request chat (world_payload b)
unfolding build_world_broadcast_request
build_world_broadcast_request-eq b hu hc =
    rw (le→ltb 32 (length b.sender_username) hu, le→ltb 255 (length b.message_content) hc) refl

-- A world broadcast whose sender has at most 32 bytes and whose content has at most 255 bytes can
-- be built as a request. Its header parses as version 1, type CHAT and the payload's length,
-- whatever follows it in the server's buffer, and the server parses the same broadcast from it.
parse_world_broadcast-build_world_broadcast_request :
    (b : WorldBroadcast)
    → length b.sender_username ≤ 32
    → length b.message_content ≤ 255
    → (r : Request) × (build_world_broadcast_request b ≡ some r)
      × (r.message_len ≡ length r.bytes)
      × ((rest : List ℕ)
          → let m = parse_message (r.bytes ++ rest) in
            (m.version ≡ 1)
            × (m.type ≡ msg_type chat)
            × (7 + m.payload_length ≡ r.message_len)
            × (parse_world_broadcast m no_world_broadcast ≡ (pos 0, b)))
parse_world_broadcast-build_world_broadcast_request b hu hc =
    let payload = world_payload b in
    let (r, built, whole, len, parsed) =
      finish_request_lem chat payload (omega (arith, length-world_payload b (omega arith) hc)) in
    (
      r,
      build_world_broadcast_request-eq b hu hc ∙ built,
      whole,
      λ rest. rw (parsed rest) (
        refl,
        refl,
        sym len,
        parse_written (request_message chat payload rest) b hu hc
            (take_front (length payload) payload rest refl),
      ),
    )

-- The message that the server's builder makes.
abbrev pub world_message : Message → WorldBroadcast → Message
world_message response b = record response {
  version = 1;
  type = msg_type chat;
  rc = 0;
  payload = some (world_payload b);
  payload_length = length (world_payload b);
}

-- The server's builder never fails on a broadcast whose strings fit a TLV.
pub build_world_broadcast_notification-eq :
    (response : Message) (b : WorldBroadcast)
    → length b.sender_username ≤ 255
    → length b.message_content ≤ 255
    → build_world_broadcast_notification response b ≡ (pos 0, world_message response b)
unfolding build_world_broadcast_notification
build_world_broadcast_notification-eq response b hu hc =
    let short = length-world_payload b hu hc in
    let whole : length (world_payload b) % 4294967296 ≡ length (world_payload b) = omega arith in
    rw (whole, le→ltb 4096 (length (world_payload b)) (omega arith))

-- The notification of a broadcast whose sender has at most 32 bytes and whose content has at most
-- 255 bytes can be built in any message, and the client parses the same broadcast from it.
pub parse_world_broadcast_notification-build :
    (response : Message) (b : WorldBroadcast)
    → length b.sender_username ≤ 32
    → length b.message_content ≤ 255
    → let (rc, m) = build_world_broadcast_notification response b in
      (rc ≡ pos 0)
      × (m.rc ≡ 0)
      × (m.type ≡ msg_type chat)
      × (parse_world_broadcast_notification m no_world_broadcast ≡ (pos 0, b))
unfolding parse_world_broadcast_notification
parse_world_broadcast_notification-build response b hu hc =
    rw (build_world_broadcast_notification-eq response b (omega arith) hc) (
      refl,
      refl,
      refl,
      parse_written (world_message response b) b hu hc
          (take_all (length (world_payload b)) (world_payload b) (omega arith)),
    )

-- The notification fits the wire, with a payload within the maximum.
pub world_message-IsWire :
    (response : Message) (b : WorldBroadcast)
    → length b.sender_username ≤ 32
    → length b.message_content ≤ 255
    → let m = world_message response b in
      IsWire m × (m.payload_length ≤ 4096) × (payload_bytes m ≡ world_payload b)
world_message-IsWire response b hu hc =
    let len = length-world_payload b (omega arith) hc in
    let whole = take_all (length (world_payload b)) (world_payload b) (omega arith) in
    (
      record {
        version_fits = omega arith;
        type_fits = omega arith;
        rc_fits = omega arith;
        length_fits = omega arith;
        payload_there = ap length whole;
      },
      omega arith,
      whole,
    )
