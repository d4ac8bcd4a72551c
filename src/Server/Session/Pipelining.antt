-- ===== src/Server/Session/Pipelining.antt =====
-- Messages that a client has sent one behind the other are all served, in order.
use tcp_chat_server.Prelude.{
  ℕ, zero, suc, ◌+◌, ◌≤◌, ◌<◌, ◌≡◌, refl, sym, ◌∙◌, ap, List, [], ◌∷◌, ◌++◌, some, true, false,
  lt→ltb, length, length-append, drop, drop_front, arith, All,
}
use mathlib.Core.Path.{subst}
use tcp_chat_server.Protocol.Types.{Message}
use tcp_chat_server.Protocol.Message.{write_message_to_buffer, payload_bytes, IsWire, parse_message}
use tcp_chat_server.Protocol.Message.RoundTrip.{
  parse_message_written, length-write_message_to_buffer,
}
use tcp_chat_server.Flags.{has_flag, is_active}
use tcp_chat_server.Database.{Sqlite}
use tcp_chat_server.Server.Table.{flags_of, incoming_of, outgoing_of}
use tcp_chat_server.Server.Table.Layout.{IsTable}
use tcp_chat_server.Server.Session.{Server, dispatch, try_one_request, empty_response}
use tcp_chat_server.Server.Session.Keeps.{try_one_request-Evolves}
use tcp_chat_server.Server.Session.Serving.{try_one_request_whole}
use tcp_chat_server.Server.Loop.{serve_requests}

-- A message that the server serves: it fits the wire, and has a payload of 1 to 4096 bytes.
pub record IsServable (m : Message) : Type 0 where
  pub wire : IsWire m
  pub some_payload : 1 ≤ m.payload_length
  pub small_payload : m.payload_length ≤ 4096

-- Messages one behind the other.
abbrev pub stream : List Message → List ℕ → List ℕ
stream [] rest = rest
stream (m ∷ ms) rest = write_message_to_buffer [] m ++ stream ms rest

module _ (sqlite : Sqlite) (connfd : ℕ) where
  open sqlite use {State}

  -- A message at the front of a connection's incoming buffer, with whatever bytes behind
  -- it, is served: `try_one_request` returns true, exactly the message's bytes are gone from the
  -- buffer, the handler got the message with its payload, and the response stands behind what the
  -- handler left to be sent. The connection is active, the message fits the wire, and its payload
  -- has 1 to 4096 bytes.
  pub try_one_request_framed :
      (s : Server State) (m : Message) (rest : List ℕ)
      → IsTable s.table
      → has_flag (flags_of s.table connfd) is_active ≡ true
      → IsServable m
      → incoming_of s.table connfd ≡ write_message_to_buffer [] m ++ rest
      → let (served, s') = try_one_request sqlite connfd s in
        let got : Message = record m { payload = some (payload_bytes m ++ rest) } in
        let (handled, response) = dispatch sqlite connfd s got empty_response in
        (served ≡ true)
        × (incoming_of s'.table connfd ≡ rest)
        × (outgoing_of s'.table connfd
            ≡ write_message_to_buffer (outgoing_of handled.table connfd) response)
  try_one_request_framed s m rest v active ok here =
      let bytes = write_message_to_buffer [] m in
      let len = length-write_message_to_buffer m ok.wire in
      let got : Message = record m { payload = some (payload_bytes m ++ rest) } in
      let parsed : parse_message (incoming_of s.table connfd) ≡ got =
        ap parse_message here ∙ parse_message_written m rest ok.wire in
      let total : length (incoming_of s.table connfd) ≡ 7 + m.payload_length + length rest =
        ap length here ∙ length-append bytes rest ∙ ap (λ n. n + length rest) len in
      let size : (parse_message (incoming_of s.table connfd)).payload_length ≡ m.payload_length =
        ap (λ r. r.payload_length) parsed in
      let (served, left, _, answered, _) =
        try_one_request_whole sqlite connfd s v active (omega (arith, ok.some_payload))
          (omega (arith, ok.small_payload)) (omega arith) in
      (
        served,
        left
            ∙ ap (λ n. drop (7 + n) (incoming_of s.table connfd)) size
            ∙ ap (λ b. drop (7 + m.payload_length) b) here
            ∙ drop_front (7 + m.payload_length) bytes rest len,
        answered
            ∙ ap
                (λ r.
                  let (handled, response) = dispatch sqlite connfd s r empty_response in
                  write_message_to_buffer (outgoing_of handled.table connfd) response)
                parsed,
      )

  waits :
      (s : Server State)
      → length (incoming_of s.table connfd) < 8
      → try_one_request sqlite connfd s ≡ (false, s)
  unfolding try_one_request
  waits s small = rw (lt→ltb (length (incoming_of s.table connfd)) 8 small) refl

  -- Messages that a client has pipelined are all served in one go: if the incoming buffer of an
  -- active connection holds any number of messages that fit the wire, each with a payload of 1 to
  -- 4096 bytes, and fewer than eight bytes behind them, then the loop leaves exactly these bytes.
  -- One round for each message and one more are enough.
  pub serve_requests_pipelined :
      (fuel : ℕ) (s : Server State) (ms : List Message) (rest : List ℕ)
      → IsTable s.table
      → has_flag (flags_of s.table connfd) is_active ≡ true
      → All IsServable ms
      → length rest < 8
      → incoming_of s.table connfd ≡ stream ms rest
      → length ms < fuel
      → incoming_of (serve_requests sqlite fuel connfd s).table connfd ≡ rest
  unfolding serve_requests
  serve_requests_pipelined zero s ms rest v active ok small here enough = absurd (omega arith)
  serve_requests_pipelined (suc fuel) s [] rest v active ok small here enough =
      rw (waits s (subst (λ b. length b < 8) (sym here) small)) here
  serve_requests_pipelined (suc fuel) s (m ∷ ms) rest v active (good, ok) small here enough =
      let s' = (try_one_request sqlite connfd s).1 in
      let (served, left, _) = try_one_request_framed s m (stream ms rest) v active good here in
      let e = try_one_request-Evolves sqlite connfd s v active in
      rw served (
        serve_requests_pipelined fuel s' ms rest e.valid (e.actives connfd ∙ active) ok small left
          (omega arith))

  -- A whole message without a payload is not served, although it is complete: `try_one_request`
  -- returns false and changes nothing when the incoming buffer holds exactly such a message.
  pub try_one_request_no_payload :
      (s : Server State) (m : Message)
      → IsWire m
      → m.payload_length ≡ 0
      → incoming_of s.table connfd ≡ write_message_to_buffer [] m
      → try_one_request sqlite connfd s ≡ (false, s)
  try_one_request_no_payload s m wire empty here =
      let len = length-write_message_to_buffer m wire in
      let all : length (incoming_of s.table connfd) ≡ length (write_message_to_buffer [] m) =
        ap length here in
      waits s (omega arith)
