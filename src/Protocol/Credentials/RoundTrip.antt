-- ===== src/Protocol/Credentials/RoundTrip.antt =====
-- What `build_register_request` and `build_login_request` write is what the parsers read.
use tcp_chat_server.Prelude.{
  ℕ, ◌+◌, ◌%◌, ◌≤◌, ◌<◌, ◌≡◌, ◌∙◌, ◌↔◌, ◌⊎◌, refl, ap, sym, none, some, List, [], ◌∷◌, ◌++◌, ltb,
  length, take_front, length-append, arith, pos, ℤ, false, le→ltb, ltb→le, ltb→lt, Bool-cases, inl,
  inr,
}
use tcp_chat_server.Protocol.Types.{
  Message, MsgType, register, login, msg_type, Credentials, tag_username, tag_password,
}
use tcp_chat_server.Protocol.Tlv.{write_tlv}
use tcp_chat_server.Protocol.Tlv.Stream.{Tlv, encode, write_tlv_encoded}
use tcp_chat_server.Protocol.Message.{parse_message}
use tcp_chat_server.Protocol.Request.{Request, finish_request, finish_request_lem, request_message}
use tcp_chat_server.Protocol.Credentials.{
  credentials_payload, build_register_request, build_login_request, parse_register_request,
  parse_login_request, no_credentials,
}
use tcp_chat_server.Protocol.Credentials.Parsing.{parse_register_request_complete}

abbrev credentials_tlvs : Credentials → List Tlv
credentials_tlvs c =
    record { tag = 0; value = c.username } ∷ record { tag = 1; value = c.password } ∷ []

credentials_payload-encode :
    (c : Credentials)
    → length c.username ≤ 32
    → length c.password ≤ 32
    → credentials_payload c ≡ encode (credentials_tlvs c)
unfolding credentials_payload
credentials_payload-encode c hu hp =
    ap (λ b. write_tlv b tag_password (length c.password % 256) c.password false)
      (write_tlv_encoded [] tag_username c.username (omega arith))
    ∙ write_tlv_encoded (record { tag = 0; value = c.username } ∷ []) tag_password c.password
        (omega arith)

pub length-credentials_payload :
    (c : Credentials)
    → length c.username ≤ 32
    → length c.password ≤ 32
    → length (credentials_payload c) ≡ 4 + length c.username + length c.password
length-credentials_payload c hu hp = rw (credentials_payload-encode c hu hp) (
    omega (
      arith,
      length-append c.username (1 ∷ length c.password ∷ (c.password ++ [])),
      length-append c.password [],
    ))

-- A request of the given type that carries the credentials: its length, and its parse.
abbrev pub Carries :
    MsgType → (Message → Credentials → ℤ × Credentials) → Credentials → Request → Type 0
Carries type parse c r =
    (r.message_len ≡ length r.bytes)
    × ((rest : List ℕ)
        → let m = parse_message (r.bytes ++ rest) in
          (m.version ≡ 1)
          × (m.type ≡ msg_type type)
          × (7 + m.payload_length ≡ r.message_len)
          × (parse m no_credentials ≡ (pos 0, c)))

same_parser : (m : Message) (c : Credentials) → parse_login_request m c ≡ parse_register_request m c
unfolding parse_login_request parse_register_request
same_parser m c = refl

module _ (type : MsgType) (parse : Message → Credentials → ℤ × Credentials)
    (same : (m : Message) (c : Credentials) → parse m c ≡ parse_register_request m c) where
  carries :
      (c : Credentials)
      → length c.username ≤ 32
      → length c.password ≤ 32
      → (r : Request) × (finish_request type (credentials_payload c) ≡ some r)
        × Carries type parse c r
  carries c hu hp =
      let payload = credentials_payload c in
      let (r, built, whole, len, parsed) =
        finish_request_lem type payload (omega (arith, length-credentials_payload c hu hp)) in
      (
        r,
        built,
        (
          whole,
          λ rest. rw (parsed rest) (
            refl,
            refl,
            sym len,
            same (request_message type payload rest) no_credentials
                ∙ parse_register_request_complete (request_message type payload rest) no_credentials
                    (credentials_tlvs c) c.username c.password
                    (take_front (length payload) payload rest refl
                      ∙ credentials_payload-encode c hu hp)
                    (ground arith) refl refl,
          ),
        ),
      )

-- A registration request can be built for a username and a password of at most 32 bytes each.
-- `message_len` is its length, and whatever bytes follow it in the receiver's buffer, its header
-- parses as version 1, type REGISTER and the payload's length, and `parse_register_request` gets
-- the same username and password from it.
pub parse_register_request-build_register_request :
    (c : Credentials)
    → length c.username ≤ 32
    → length c.password ≤ 32
    → (r : Request) × (build_register_request c ≡ some r)
      × Carries register parse_register_request c r
unfolding build_register_request
parse_register_request-build_register_request c hu hp =
    rw (le→ltb 32 (length c.username) hu, le→ltb 32 (length c.password) hp)
      (carries register parse_register_request (λ m c. refl) c hu hp)

-- A login request can be built for a username and a password of at most 32 bytes each.
-- `message_len` is its length, and whatever bytes follow it in the receiver's buffer, its header
-- parses as version 1, type LOGIN and the payload's length, and `parse_login_request` gets the
-- same username and password from it.
pub parse_login_request-build_login_request :
    (c : Credentials)
    → length c.username ≤ 32
    → length c.password ≤ 32
    → (r : Request) × (build_login_request c ≡ some r) × Carries login parse_login_request c r
unfolding build_login_request
parse_login_request-build_login_request c hu hp =
    rw (le→ltb 32 (length c.username) hu, le→ltb 32 (length c.password) hp)
      (carries login parse_login_request same_parser c hu hp)

-- The builder fails on nothing else: -1 is returned exactly if a string is too long.
build_register_request-none :
    (c : Credentials)
    → (build_register_request c ≡ none) ↔ ((32 < length c.username) ⊎ (32 < length c.password))
unfolding build_register_request
build_register_request-none c = (
  λ failed. elim (Bool-cases (ltb 32 (length c.username))) [
    | inl long ↦ inl (ltb→lt 32 (length c.username) long)
    | inr short ↦ elim (Bool-cases (ltb 32 (length c.password))) [
      | inl long ↦ inr (ltb→lt 32 (length c.password) long)
      | inr short' ↦
          let (r, built, _) =
            parse_register_request-build_register_request c (ltb→le 32 (length c.username) short)
              (ltb→le 32 (length c.password) short') in
          cc
    ]
  ],
  λ long. ground arith,
)
