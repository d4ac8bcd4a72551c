-- ===== src/Protocol/Buffers.antt =====
-- The request buffers of the client, `uint8_t request_buffer[MSG_HEADER_SIZE +
-- MSG_MAX_PAYLOAD_SIZE]` in src/client_utils.cpp, against what the builders write to them.
use tcp_chat_server.Prelude.{
  ℕ, ◌≤◌, ◌≡◌, refl, Option, some, none, List, Bool, true, false, if◌then◌else◌, length, ltb,
  ltb→le, bytes_eq, bytes_eq→ne, arith,
}
use tcp_chat_server.Protocol.Types.{MsgType, Credentials, WorldBroadcast, P2pBroadcast}
use tcp_chat_server.Protocol.Request.{Request, finish_request, finish_request_lem}
use tcp_chat_server.Protocol.Credentials.{
  credentials_payload, build_register_request, build_login_request,
}
use tcp_chat_server.Protocol.Credentials.RoundTrip.{length-credentials_payload}
use tcp_chat_server.Protocol.World.{world_payload, build_world_broadcast_request}
use tcp_chat_server.Protocol.World.RoundTrip.{length-world_payload}
use tcp_chat_server.Protocol.P2p.{p2p_payload, build_p2p_broadcast_request}
use tcp_chat_server.Protocol.P2p.RoundTrip.{IsSendable, IsSendable-Fits, length-p2p_payload}

-- The four ways to get a request.
pub data Built (r : Request) : Type 0 where
  registration : (c : Credentials) → build_register_request c ≡ some r → Built r
  credentials : (c : Credentials) → build_login_request c ≡ some r → Built r
  to_all : (b : WorldBroadcast) → build_world_broadcast_request b ≡ some r → Built r
  to_one : (b : P2pBroadcast) → build_p2p_broadcast_request b ≡ some r → Built r

-- The buffer has room for it, `message_len` is the number of bytes written, and they are at least
-- the eight bytes for which `try_one_request` waits.
pub record IsBuffered (r : Request) : Type 0 where
  pub counted : r.message_len ≡ length r.bytes
  pub in_buffer : length r.bytes ≤ 4103
  pub served : 8 ≤ length r.bytes

finish_request-IsBuffered :
    (type : MsgType) (payload : List ℕ) (r : Request)
    → 1 ≤ length payload
    → length payload ≤ 4096
    → finish_request type payload ≡ some r
    → IsBuffered r
finish_request-IsBuffered type payload r some_byte fits built =
    let (r', built', whole, len, _) = finish_request_lem type payload fits in
    let same : r' ≡ r = cc in
    rw same at (
      let b : IsBuffered r' = record {
        counted = whole;
        in_buffer = omega arith;
        served = omega arith;
      } in
      b)

-- A request is only returned behind guards that do not hold.
passed :
    {r : Request} (b : Bool) (o : Option Request)
    → (if b then none else o) ≡ some r
    → (b ≡ false) × (o ≡ some r)
passed true o built = cc
passed false o built = (refl, built)

credentials-IsBuffered :
    (type : MsgType) (c : Credentials) (r : Request)
    → (if ltb 32 (length c.username)
        then none
        else if ltb 32 (length c.password)
        then none
        else finish_request type (credentials_payload c))
      ≡ some r
    → IsBuffered r
credentials-IsBuffered type c r built =
    let (u, behind) = passed _ _ built in
    let (p, request) = passed _ _ behind in
    let username = ltb→le 32 (length c.username) u in
    let password = ltb→le 32 (length c.password) p in
    let len = length-credentials_payload c username password in
    finish_request-IsBuffered type (credentials_payload c) r (omega arith) (omega arith) request

-- What a login request that was built says of its strings.
pub build_login_request-short :
    (c : Credentials) (r : Request)
    → build_login_request c ≡ some r
    → (length c.username ≤ 32) × (length c.password ≤ 32)
unfolding build_login_request
build_login_request-short c r built =
    let (u, behind) = passed (ltb 32 (length c.username)) _ built in
    let (p, request) = passed (ltb 32 (length c.password)) _ behind in
    (ltb→le 32 (length c.username) u, ltb→le 32 (length c.password) p)

world-IsBuffered :
    (b : WorldBroadcast) (r : Request)
    → (if ltb 32 (length b.sender_username)
        then none
        else if ltb 255 (length b.message_content)
        then none
        else finish_request MsgType.chat (world_payload b))
      ≡ some r
    → IsBuffered r
world-IsBuffered b r built =
    let (u, behind) = passed _ _ built in
    let (c, request) = passed _ _ behind in
    let sender = ltb→le 32 (length b.sender_username) u in
    let content = ltb→le 255 (length b.message_content) c in
    let len = length-world_payload b (omega arith) content in
    finish_request-IsBuffered MsgType.chat (world_payload b) r (omega arith) (omega arith) request

p2p-IsBuffered :
    (b : P2pBroadcast) (r : Request)
    → (if ltb 32 (length b.sender_username)
        then none
        else if ltb 32 (length b.recipient_username)
        then none
        else if bytes_eq b.sender_username b.recipient_username
        then none
        else if ltb 255 (length b.message_content)
        then none
        else finish_request MsgType.chat (p2p_payload b))
      ≡ some r
    → IsBuffered r
p2p-IsBuffered b r built =
    let (u, behind) = passed _ _ built in
    let (v, further) = passed _ _ behind in
    let (n, last) = passed _ _ further in
    let (c, request) = passed _ _ last in
    let s : IsSendable b = record {
      sender_short = ltb→le 32 (length b.sender_username) u;
      recipient_short = ltb→le 32 (length b.recipient_username) v;
      content_short = ltb→le 255 (length b.message_content) c;
      to_another = bytes_eq→ne b.sender_username b.recipient_username n;
    } in
    let len = length-p2p_payload b (IsSendable-Fits b s) in
    finish_request-IsBuffered MsgType.chat (p2p_payload b) r (omega arith) (omega arith) request

-- Whatever strings the four builders get: a request that they return lies within the request buffer
-- of 4103 bytes, `message_len`, a 32-bit number, is exactly the number of its bytes, and they are the
-- eight at least for which the server waits.
pub Built-IsBuffered : (r : Request) → Built r → IsBuffered r
unfolding build_register_request build_login_request build_world_broadcast_request
    build_p2p_broadcast_request
Built-IsBuffered r (registration c built) = credentials-IsBuffered MsgType.register c r built
Built-IsBuffered r (credentials c built) = credentials-IsBuffered MsgType.login c r built
Built-IsBuffered r (to_all b built) = world-IsBuffered b r built
Built-IsBuffered r (to_one b built) = p2p-IsBuffered b r built
