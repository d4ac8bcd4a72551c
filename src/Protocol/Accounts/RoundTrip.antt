-- ===== src/Protocol/Accounts/RoundTrip.antt =====
-- A response that the server builds for a user is parsed back by the client.
use tcp_chat_server.Prelude.{
  ℕ, ◌%◌, ◌≤◌, ◌<◌, ◌≡◌, refl, sym, ap, ◌∙◌, some, List, [], ◌∷◌, ◌++◌, length, take, take_all,
  arith, ℤ, pos, negsuc, false, true, le→ltb, length-append, append-nil,
}
use tcp_chat_server.Protocol.Types.{
  Message, MsgType, msg_type, register, login, User, tag_user_id, tag_username,
}
use tcp_chat_server.Protocol.Bytes.{
  u32_bytes, htonl, load_u32, load_u32-u32_bytes, htonl-lt, htonl-htonl, length-u32_bytes,
}
use tcp_chat_server.Protocol.Message.{IsWire, payload_bytes}
use tcp_chat_server.Protocol.Tlv.{write_tlv, walk, finished}
use tcp_chat_server.Protocol.Tlv.Stream.{Tlv, encode, walk-encode, write_tlv_encoded}
use tcp_chat_server.Protocol.Accounts.{
  user_payload, account_response, build_register_response, build_login_response, malformed,
  copy_user_id, user_switch, returns, user_result, user_start, parse_register_response,
  parse_login_response, no_user,
}

abbrev user_tlvs : User → List Tlv
user_tlvs user =
    record { tag = 6; value = u32_bytes (htonl user.user_id) }
    ∷ record { tag = 0; value = user.username }
    ∷ []

-- The user's id goes out in network byte order.
write_id :
    (user_id : ℕ)
    → user_id < 4294967296
    → write_tlv [] tag_user_id 4 (u32_bytes user_id) true
      ≡ encode (record { tag = 6; value = u32_bytes (htonl user_id) } ∷ [])
unfolding write_tlv
write_id user_id h =
    let same : load_u32 (u32_bytes user_id) ≡ user_id =
      rw append-nil at (load_u32-u32_bytes user_id [] h) in
    rw (same, length-u32_bytes (htonl user_id), append-nil (u32_bytes (htonl user_id)))

user_payload-encode :
    (user : User)
    → user.user_id < 4294967296
    → length user.username ≤ 255
    → user_payload user ≡ encode (user_tlvs user)
unfolding user_payload
user_payload-encode user hi hu =
    ap (λ p. write_tlv p tag_username (length user.username % 256) user.username false)
      (write_id user.user_id hi)
    ∙ write_tlv_encoded (record { tag = 6; value = u32_bytes (htonl user.user_id) } ∷ [])
        tag_username user.username hu

user_fits :
    (user : User)
    → user.user_id < 4294967296
    → length user.username ≤ 255
    → length (user_payload user) ≤ 263
user_fits user hi hu = rw (user_payload-encode user hi hu) (
    omega (
      arith,
      length-append (u32_bytes (htonl user.user_id))
          (0 ∷ length user.username ∷ (user.username ++ [])),
      length-u32_bytes (htonl user.user_id),
      length-append user.username [],
    ))

-- The four bytes of an id replace those of the id that stood there.
copy_user_id-u32_bytes :
    (user_id old : ℕ)
    → user_id < 4294967296
    → copy_user_id (u32_bytes (htonl user_id)) old ≡ user_id
unfolding copy_user_id
copy_user_id-u32_bytes user_id old h =
    rw (load_u32-u32_bytes (htonl user_id) _ (htonl-lt user_id)) (htonl-htonl user_id h)

-- The loop over the payload of a response.
user_walk :
    (user : User)
    → user.user_id < 4294967296
    → length user.username ≤ 32
    → walk malformed user_switch (user_payload user) (user_start no_user)
      ≡ finished (record {
        user = record { user_id = user.user_id; username = user.username; password = [] };
        has_id = true;
        has_username = true;
      })
unfolding user_switch
user_walk user hi hu =
    ap (λ p. walk malformed user_switch p (user_start no_user))
      (user_payload-encode user hi (omega arith))
    ∙ walk-encode malformed user_switch (user_tlvs user) (user_start no_user)
    ∙ rw (
      length-u32_bytes (htonl user.user_id),
      copy_user_id-u32_bytes user.user_id 0 hi,
      le→ltb 32 (length user.username) hu,
    )

-- The message that the builders make.
abbrev account_message : MsgType → Message → User → Message
account_message type response user = record response {
  version = 1;
  type = msg_type type;
  rc = 0;
  payload = some (user_payload user);
  payload_length = length (user_payload user);
}

account_response-eq :
    (type : MsgType) (response : Message) (user : User)
    → user.user_id < 4294967296
    → length user.username ≤ 255
    → account_response type response user ≡ (pos 0, account_message type response user)
unfolding account_response
account_response-eq type response user hi hu =
    let fits = user_fits user hi hu in
    let whole : length (user_payload user) % 4294967296 ≡ length (user_payload user) =
      omega arith in
    rw (whole, le→ltb 4096 (length (user_payload user)) (omega arith))

-- The payload of such a message.
written : (user : User) → take (length (user_payload user)) (user_payload user) ≡ user_payload user
written user = take_all (length (user_payload user)) (user_payload user) (omega arith)

written_result :
    (missing : ℤ) (user : User)
    → user.user_id < 4294967296
    → length user.username ≤ 32
    → user_result missing (
        walk malformed user_switch
          (take (length (user_payload user)) (user_payload user))
          (user_start no_user))
      ≡ returns (pos 0) (record user { password = [] })
written_result missing user hi hu =
    ap (λ p. user_result missing (walk malformed user_switch p (user_start no_user))) (written user)
    ∙ ap (user_result missing) (user_walk user hi hu)

-- A response to a registration can be built for a user with a 32-bit id and a name of at most 32
-- bytes. Its return code is RESP_OK and its type REGISTER, and the client parses the same id and
-- name from it, and no password.
pub parse_register_response-build_register_response :
    (response : Message) (user : User)
    → user.user_id < 4294967296
    → length user.username ≤ 32
    → let (rc, m) = build_register_response response user in
      (rc ≡ pos 0)
      × (m.rc ≡ 0)
      × (m.type ≡ msg_type register)
      × (parse_register_response m no_user ≡ returns (pos 0) (record user { password = [] }))
unfolding build_register_response parse_register_response
parse_register_response-build_register_response response user hi hu =
    rw (account_response-eq register response user hi (omega arith))
      (refl, refl, refl, written_result (negsuc 0) user hi hu)

-- A response to a login can be built for a user with a 32-bit id and a name of at most 32 bytes.
-- Its return code is RESP_OK and its type LOGIN, and the client parses the same id and name from it,
-- and no password.
pub parse_login_response-build_login_response :
    (response : Message) (user : User)
    → user.user_id < 4294967296
    → length user.username ≤ 32
    → let (rc, m) = build_login_response response user in
      (rc ≡ pos 0)
      × (m.rc ≡ 0)
      × (m.type ≡ msg_type login)
      × (parse_login_response m no_user ≡ returns (pos 0) (record user { password = [] }))
unfolding build_login_response parse_login_response
parse_login_response-build_login_response response user hi hu =
    rw (account_response-eq login response user hi (omega arith))
      (refl, refl, refl, written_result (pos 1) user hi hu)

-- The answer to a login fits the wire, with a payload within the maximum.
pub build_login_response-IsWire :
    (response : Message) (user : User)
    → user.user_id < 4294967296
    → length user.username ≤ 32
    → let m = (build_login_response response user).1 in
      IsWire m × (m.payload_length ≤ 4096) × (m.payload ≡ some (payload_bytes m))
unfolding build_login_response
build_login_response-IsWire response user hi hu =
    let fits = user_fits user hi (omega arith) in
    rw (account_response-eq login response user hi (omega arith)) (
      record {
        version_fits = omega arith;
        type_fits = omega arith;
        rc_fits = omega arith;
        length_fits = omega arith;
        payload_there = ap length (written user);
      },
      omega arith,
      ap some (sym (written user)),
    )
