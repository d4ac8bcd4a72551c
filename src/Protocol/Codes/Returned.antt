-- ===== src/Protocol/Codes/Returned.antt =====
-- The return values of the parsers and builders of src/protocol.cpp that the server answers with.
use tcp_chat_server.Prelude.{
  ◌≡◌, ◌∙◌, refl, ap, ℕ, ◌+◌, ◌≤◌, ◌%◌, none, List, [], ◌∷◌, length, length-append, Bool, true,
  false, ◌&&◌, take, length-take, if◌then◌else◌, ltb, ℤ, pos, to_u8, bytes_eq, Bool-cases, inl, inr,
  arith,
}
use tcp_chat_server.Protocol.Types.{
  Message, MsgType, Credentials, User, WorldBroadcast, P2pBroadcast, TlvTag, ResponseCode,
  response_code, resp_ok, resp_error_malformed, resp_error_user_exists, resp_error_user_not_found,
  resp_error_invalid_credentials, resp_error_internal, resp_error_unknown_command, tlv_tag,
  tag_world_broadcast, tag_sender_username, tag_p2p_broadcast, tag_recipient_username,
  tag_message_content,
}
use tcp_chat_server.Protocol.Codes.{IsCode}
use tcp_chat_server.Protocol.Tlv.{Walk, finished, stopped, write_tlv, tlv_value}
use tcp_chat_server.Protocol.Message.{build_server_response}
use tcp_chat_server.Protocol.Credentials.{
  CredentialsScan, credentials_result, parse_register_request, parse_login_request,
}
use tcp_chat_server.Protocol.Accounts.{user_payload, account_response}
use tcp_chat_server.Protocol.World.{
  WorldScan, world_payload, world_result, parse_world_broadcast, build_world_broadcast,
  build_world_broadcast_notification,
}
use tcp_chat_server.Protocol.P2p.{
  P2pScan, p2p_payload, p2p_result, parse_p2p_broadcast, build_p2p_broadcast,
  build_p2p_broadcast_notification,
}

-- The response has a code of `response_code_t`.
abbrev pub IsCoded : Message → Type 0
IsCoded m = IsCode m.rc

-- A return value that stands for a code.
pub record Returns (z : ℤ) : Type 0 where
  pub name : ResponseCode
  pub value : z ≡ pos (response_code name)

byte_of : (c : ResponseCode) → to_u8 (pos (response_code c)) ≡ response_code c
byte_of resp_ok = refl
byte_of resp_error_malformed = refl
byte_of resp_error_user_exists = refl
byte_of resp_error_user_not_found = refl
byte_of resp_error_invalid_credentials = refl
byte_of resp_error_internal = refl
byte_of resp_error_unknown_command = refl

pub response-IsCoded :
    (type : ℕ) (z : ℤ) → Returns z → IsCoded (build_server_response type z none 0)
unfolding build_server_response
response-IsCoded type z r = record { name = r.name; number = ap to_u8 r.value ∙ byte_of r.name }

pub code-Returns : (c : ResponseCode) → Returns (pos (response_code c))
code-Returns c = record { name = c; value = refl }

if-Returns :
    {A : Type 0} (b : Bool) (p q : ℤ × A)
    → Returns p.0
    → Returns q.0
    → Returns (if b then p else q).0
if-Returns true p q rp rq = rp
if-Returns false p q rp rq = rq

-- The parsers return RESP_OK or RESP_ERROR_MALFORMED.
credentials_result-Returns :
    (w : Walk CredentialsScan CredentialsScan) → Returns (credentials_result w).0
credentials_result-Returns (stopped s) = code-Returns resp_error_malformed
credentials_result-Returns (finished s) =
    if-Returns (s.has_username && s.has_password) _ _ (code-Returns resp_ok)
      (code-Returns resp_error_malformed)

world_result-Returns : (w : Walk WorldScan WorldScan) → Returns (world_result w).0
world_result-Returns (stopped s) = code-Returns resp_error_malformed
world_result-Returns (finished s) =
    if-Returns (s.has_broadcast_tag && (s.has_sender && s.has_content)) _ _ (code-Returns resp_ok)
      (code-Returns resp_error_malformed)

p2p_result-Returns : (w : Walk P2pScan P2pScan) → Returns (p2p_result w).0
p2p_result-Returns (stopped s) = code-Returns resp_error_malformed
p2p_result-Returns (finished s) =
    if-Returns (s.has_broadcast_tag && (s.has_sender && (s.has_recipient && s.has_content))) _ _
      (code-Returns resp_ok) (code-Returns resp_error_malformed)

-- A length is written as one byte, so a TLV takes at most 257 bytes.
length-write_tlv :
    (buf : List ℕ) (tag : TlvTag) (n : ℕ) (value : List ℕ)
    → length (write_tlv buf tag (n % 256) value false) ≤ length buf + 257
unfolding write_tlv tlv_value
length-write_tlv buf tag n value = omega (
  arith,
  length-append buf ((tlv_tag tag % 256) ∷ (n % 256) ∷ take (n % 256) value),
  length-take (n % 256) value,
)

length-world_payload_le : (b : WorldBroadcast) → length (world_payload b) ≤ 771
unfolding world_payload
length-world_payload_le b =
    let first : List ℕ = write_tlv [] tag_world_broadcast 0 [] false in
    let second : List ℕ =
      write_tlv first tag_sender_username (length b.sender_username % 256) b.sender_username
        false in
    omega (
      arith,
      length-write_tlv [] tag_world_broadcast 0 [],
      length-write_tlv first tag_sender_username (length b.sender_username) b.sender_username,
      length-write_tlv second tag_message_content (length b.message_content) b.message_content,
    )

length-p2p_payload_le : (b : P2pBroadcast) → length (p2p_payload b) ≤ 1028
unfolding p2p_payload
length-p2p_payload_le b =
    let first : List ℕ = write_tlv [] tag_p2p_broadcast 0 [] false in
    let second : List ℕ =
      write_tlv first tag_sender_username (length b.sender_username % 256) b.sender_username
        false in
    let third : List ℕ =
      write_tlv second tag_recipient_username (length b.recipient_username % 256)
        b.recipient_username false in
    omega (
      arith,
      length-write_tlv [] tag_p2p_broadcast 0 [],
      length-write_tlv first tag_sender_username (length b.sender_username) b.sender_username,
      length-write_tlv second tag_recipient_username (length b.recipient_username)
          b.recipient_username,
      length-write_tlv third tag_message_content (length b.message_content) b.message_content,
    )

-- Every request parser.
pub parse_register_request-Returns :
    (request : Message) (c : Credentials) → Returns (parse_register_request request c).0
unfolding parse_register_request
parse_register_request-Returns request c = credentials_result-Returns _

pub parse_login_request-Returns :
    (request : Message) (c : Credentials) → Returns (parse_login_request request c).0
unfolding parse_login_request
parse_login_request-Returns request c = credentials_result-Returns _

pub parse_world_broadcast-Returns :
    (request : Message) (b : WorldBroadcast) → Returns (parse_world_broadcast request b).0
unfolding parse_world_broadcast
parse_world_broadcast-Returns request b = world_result-Returns _

pub parse_p2p_broadcast-Returns :
    (request : Message) (b : P2pBroadcast) → Returns (parse_p2p_broadcast request b).0
unfolding parse_p2p_broadcast
parse_p2p_broadcast-Returns request b = p2p_result-Returns _

-- The builders leave RESP_OK in the message, and those of broadcasts do not fail.
pub record Builds (r : ℤ × Message) : Type 0 where
  pub succeeds : r.0 ≡ pos 0
  pub coded : IsCoded r.1

pub build_world_broadcast_notification-Builds :
    (response : Message) (b : WorldBroadcast)
    → Builds (build_world_broadcast_notification response b)
unfolding build_world_broadcast_notification build_world_broadcast
build_world_broadcast_notification-Builds response b =
    let len = length-world_payload_le b in
    let fits : ltb 4096 (length (world_payload b) % 4294967296) ≡ false = ground arith in
    rw fits (record { succeeds = refl; coded = record { name = resp_ok; number = refl } })

pub build_p2p_broadcast_notification-Builds :
    (response : Message) (b : P2pBroadcast)
    → bytes_eq b.sender_username b.recipient_username ≡ false
    → Builds (build_p2p_broadcast_notification response b)
unfolding build_p2p_broadcast_notification build_p2p_broadcast
build_p2p_broadcast_notification-Builds response b others =
    let len = length-p2p_payload_le b in
    let fits : ltb 4096 (length (p2p_payload b) % 4294967296) ≡ false = ground arith in
    rw (others, fits) (record { succeeds = refl; coded = record { name = resp_ok; number = refl } })

pub account_response-IsCoded :
    (type : MsgType) (response : Message) (user : User)
    → IsCoded (account_response type response user).1
unfolding account_response
account_response-IsCoded type response user =
    elim (Bool-cases (ltb 4096 (length (user_payload user) % 4294967296))) [
      | inl large ↦ rw large (record { name = resp_ok; number = refl })
      | inr fits ↦ rw fits (record { name = resp_ok; number = refl })
    ]
