-- ===== src/Protocol/P2p/RoundTrip.antt =====
-- P2P broadcasts from the client to the server, and from the server to the recipient.
use tcp_chat_server.Prelude.{
  ℕ, ◌+◌, ◌%◌, ◌≤◌, ◌≡◌, ◌≢◌, refl, ap, sym, ◌∙◌, some, List, [], ◌∷◌, ◌++◌, length, take_all,
  take_front, length-append, arith, pos, false, le→ltb, bytes_eq_ne,
}
use tcp_chat_server.Protocol.Types.{
  Message, chat, msg_type, P2pBroadcast, tag_sender_username, tag_recipient_username,
  tag_message_content,
}
use tcp_chat_server.Protocol.Tlv.{write_tlv}
use tcp_chat_server.Protocol.Tlv.Stream.{Tlv, encode, write_tlv_encoded}
use tcp_chat_server.Protocol.Message.{parse_message, payload_bytes, IsWire}
use tcp_chat_server.Protocol.Request.{Request, finish_request, finish_request_lem, request_message}
use tcp_chat_server.Protocol.P2p.{
  p2p_payload, build_p2p_broadcast_request, build_p2p_broadcast_notification, parse_p2p_broadcast,
  parse_p2p_broadcast_notification, no_p2p_broadcast,
}
use tcp_chat_server.Protocol.P2p.Parsing.{parse_p2p_broadcast_complete}

abbrev pub p2p_tlvs : P2pBroadcast → List Tlv
p2p_tlvs b =
    record { tag = 5; value = [] }
    ∷ record { tag = 9; value = b.sender_username }
    ∷ record { tag = 10; value = b.recipient_username }
    ∷ record { tag = 11; value = b.message_content }
    ∷ []

-- The strings of the broadcast fit a TLV.
pub record Fits (b : P2pBroadcast) : Type 0 where
  pub sender_fits : length b.sender_username ≤ 255
  pub recipient_fits : length b.recipient_username ≤ 255
  pub content_fits : length b.message_content ≤ 255

-- What the builders write is the list of the four TLVs.
pub p2p_payload-encode : (b : P2pBroadcast) → Fits b → p2p_payload b ≡ encode (p2p_tlvs b)
unfolding p2p_payload
p2p_payload-encode b fits =
    ap
      (λ p.
        write_tlv
          (write_tlv p tag_recipient_username (length b.recipient_username % 256)
            b.recipient_username false)
          tag_message_content (length b.message_content % 256) b.message_content false)
      (write_tlv_encoded (record { tag = 5; value = [] } ∷ []) tag_sender_username b.sender_username
        fits.sender_fits)
    ∙ ap
        (λ p.
          write_tlv p tag_message_content (length b.message_content % 256) b.message_content false)
        (write_tlv_encoded
          (record { tag = 5; value = [] } ∷ record { tag = 9; value = b.sender_username } ∷ [])
          tag_recipient_username b.recipient_username fits.recipient_fits)
    ∙ write_tlv_encoded
        (record { tag = 5; value = [] }
          ∷ record { tag = 9; value = b.sender_username }
          ∷ record { tag = 10; value = b.recipient_username }
          ∷ [])
        tag_message_content b.message_content fits.content_fits

pub length-p2p_payload :
    (b : P2pBroadcast)
    → Fits b
    → length (p2p_payload b)
      ≡ 8 + length b.sender_username + length b.recipient_username + length b.message_content
length-p2p_payload b fits =
    let content = 11 ∷ length b.message_content ∷ (b.message_content ++ []) in
    let recipient = 10 ∷ length b.recipient_username ∷ (b.recipient_username ++ content) in
    rw (p2p_payload-encode b fits) (
      omega (
        arith,
        length-append b.sender_username recipient,
        length-append b.recipient_username content,
        length-append b.message_content [],
      ))

-- The strings are within the protocol's limits.
pub record IsSendable (b : P2pBroadcast) : Type 0 where
  pub sender_short : length b.sender_username ≤ 32
  pub recipient_short : length b.recipient_username ≤ 32
  pub content_short : length b.message_content ≤ 255
  pub to_another : b.sender_username ≢ b.recipient_username

pub IsSendable-Fits : (b : P2pBroadcast) → IsSendable b → Fits b
IsSendable-Fits b s = omega arith

-- A payload that the builders wrote is parsed, wherever the rest of its buffer is.
pub parse_written :
    (m : Message) (b : P2pBroadcast)
    → IsSendable b
    → payload_bytes m ≡ p2p_payload b
    → parse_p2p_broadcast m no_p2p_broadcast ≡ (pos 0, b)
parse_written m b s e =
    parse_p2p_broadcast_complete m no_p2p_broadcast (p2p_tlvs b) [] b.sender_username
      b.recipient_username b.message_content (e ∙ p2p_payload-encode b (IsSendable-Fits b s))
      (ground arith) refl refl refl refl

-- No guard stops such a broadcast.
pub build_p2p_broadcast_request-eq :
    (b : P2pBroadcast)
    → IsSendable b
    → build_p2p_broadcast_request b ≡ finish_request chat (p2p_payload b)
unfolding build_p2p_broadcast_request
build_p2p_broadcast_request-eq b s =
    rw
      (
        le→ltb 32 (length b.sender_username) s.sender_short,
        le→ltb 32 (length b.recipient_username) s.recipient_short,
        bytes_eq_ne b.sender_username b.recipient_username s.to_another,
        le→ltb 255 (length b.message_content) s.content_short,
      )
      refl

-- A P2P broadcast between two users whose names have at most 32 bytes, with at most 255 bytes of
-- content, can be built as a request. Its header parses as version 1, type CHAT and the payload's
-- length, whatever follows it in the server's buffer, and the server parses the same broadcast.
pub parse_p2p_broadcast-build_p2p_broadcast_request :
    (b : P2pBroadcast)
    → IsSendable b
    → (r : Request) × (build_p2p_broadcast_request b ≡ some r)
      × (r.message_len ≡ length r.bytes)
      × ((rest : List ℕ)
          → let m = parse_message (r.bytes ++ rest) in
            (m.version ≡ 1)
            × (m.type ≡ msg_type chat)
            × (7 + m.payload_length ≡ r.message_len)
            × (parse_p2p_broadcast m no_p2p_broadcast ≡ (pos 0, b)))
parse_p2p_broadcast-build_p2p_broadcast_request b s =
    let payload = p2p_payload b in
    let (r, built, whole, len, parsed) =
      finish_request_lem chat payload (omega (arith, length-p2p_payload b (IsSendable-Fits b s))) in
    (
      r,
      build_p2p_broadcast_request-eq b s ∙ built,
      whole,
      λ rest. rw (parsed rest) (
        refl,
        refl,
        sym len,
        parse_written (request_message chat payload rest) b s
            (take_front (length payload) payload rest refl),
      ),
    )

-- The message that the server's builder makes.
abbrev pub p2p_message : Message → P2pBroadcast → Message
p2p_message response b = record response {
  version = 1;
  type = msg_type chat;
  rc = 0;
  payload = some (p2p_payload b);
  payload_length = length (p2p_payload b);
}

-- The server's builder fails on nothing but equal names, if the strings fit a TLV.
pub build_p2p_broadcast_notification-eq :
    (response : Message) (b : P2pBroadcast)
    → Fits b
    → b.sender_username ≢ b.recipient_username
    → build_p2p_broadcast_notification response b ≡ (pos 0, p2p_message response b)
unfolding build_p2p_broadcast_notification
build_p2p_broadcast_notification-eq response b fits other =
    let len = length-p2p_payload b fits in
    let short : length (p2p_payload b) ≤ 4096 =
      omega (arith, fits.sender_fits, fits.recipient_fits, fits.content_fits) in
    let whole : length (p2p_payload b) % 4294967296 ≡ length (p2p_payload b) = omega arith in
    rw (
      bytes_eq_ne b.sender_username b.recipient_username other,
      whole,
      le→ltb 4096 (length (p2p_payload b)) short,
    )

-- The notification of such a broadcast can be built in any message, and the client parses the same
-- broadcast from it.
pub parse_p2p_broadcast_notification-build :
    (response : Message) (b : P2pBroadcast)
    → IsSendable b
    → let (rc, m) = build_p2p_broadcast_notification response b in
      (rc ≡ pos 0)
      × (m.rc ≡ 0)
      × (m.type ≡ msg_type chat)
      × (parse_p2p_broadcast_notification m no_p2p_broadcast ≡ (pos 0, b))
unfolding parse_p2p_broadcast_notification
parse_p2p_broadcast_notification-build response b s =
    rw (build_p2p_broadcast_notification-eq response b (IsSendable-Fits b s) s.to_another) (
      refl,
      refl,
      refl,
      parse_written (p2p_message response b) b s
          (take_all (length (p2p_payload b)) (p2p_payload b) (omega arith)),
    )

-- The notification fits the wire, with a payload within the maximum.
pub p2p_message-IsWire :
    (response : Message) (b : P2pBroadcast)
    → IsSendable b
    → let m = p2p_message response b in
      IsWire m × (m.payload_length ≤ 4096) × (payload_bytes m ≡ p2p_payload b)
p2p_message-IsWire response b s =
    let len = length-p2p_payload b (IsSendable-Fits b s) in
    let whole = take_all (length (p2p_payload b)) (p2p_payload b) (omega arith) in
    (
      record {
        version_fits = omega arith;
        type_fits = omega arith;
        rc_fits = omega arith;
        length_fits = omega (arith, s.sender_short, s.recipient_short, s.content_short);
        payload_there = ap length whole;
      },
      omega (arith, s.sender_short, s.recipient_short, s.content_short),
      whole,
    )
