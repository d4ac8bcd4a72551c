-- ===== src/Server/Session/Serving.antt =====
-- `try_one_request` serves whole messages in order, one answer each, and its loop ends.
use tcp_chat_server.Prelude.{
  ℕ, zero, suc, ◌+◌, ◌≤◌, ◌<◌, ◌≡◌, refl, ◌∙◌, ap, [], true, false, ltb, length, drop, get_or-set,
  get_or_out, length-drop, pair_eq, le→ltb, ltb→lt, ltb→le, get_or, get_or-set_self, ◌==◌,
  Bool-cases, inl, inr, arith,
}
use tcp_chat_server.Protocol.Types.{Message}
use tcp_chat_server.Protocol.Message.{parse_message, buf_consume, write_message_to_buffer}
use tcp_chat_server.Flags.{has_flag, is_active}
use tcp_chat_server.Database.{Sqlite}
use tcp_chat_server.Server.Table.{Table, flags_of, incoming_of, outgoing_of}
use tcp_chat_server.Server.Table.Layout.{IsTable}
use tcp_chat_server.Server.Session.{Server, dispatch, answer, try_one_request, empty_response}
use tcp_chat_server.Server.Session.Keeps.{dispatch-Keeps, try_one_request-Evolves}
use tcp_chat_server.Server.Loop.{serve_requests}

-- What an answer does to the buffers: it takes the request from what was received, and puts the
-- response behind what is to be sent.
record Answered (connfd consumed : ℕ) (response : Message) (t t' : Table) : Type 0 where
  own_incoming : incoming_of t' connfd ≡ drop consumed (incoming_of t connfd)
  other_incoming : (j : ℕ) → (connfd == j) ≡ false → incoming_of t' j ≡ incoming_of t j
  own_outgoing : outgoing_of t' connfd ≡ write_message_to_buffer (outgoing_of t connfd) response
  other_outgoing : (j : ℕ) → (connfd == j) ≡ false → outgoing_of t' j ≡ outgoing_of t j

answer-Answered :
    (connfd consumed : ℕ) (response : Message) (t : Table)
    → connfd < length t.conns.incoming_buffers
    → connfd < length t.conns.outgoing_buffers
    → Answered connfd consumed response t (answer connfd t consumed response)
unfolding answer buf_consume
answer-Answered connfd consumed response t here there =
    let received = drop consumed (incoming_of t connfd) in
    let sent = write_message_to_buffer (outgoing_of t connfd) response in
    record {
      own_incoming = get_or-set_self t.conns.incoming_buffers connfd received [] here;
      other_incoming =
          λ j other. get_or-set t.conns.incoming_buffers connfd j received [] ∙ rw other refl;
      own_outgoing = get_or-set_self t.conns.outgoing_buffers connfd sent [] there;
      other_outgoing =
          λ j other. get_or-set t.conns.outgoing_buffers connfd j sent [] ∙ rw other refl;
    }

-- A buffer that holds something belongs to a slot of the table.
pub incoming_lt :
    (t : Table) (connfd : ℕ)
    → 1 ≤ length (incoming_of t connfd)
    → connfd < length t.conns.incoming_buffers
incoming_lt t connfd h = elim (Bool-cases (ltb connfd (length t.conns.incoming_buffers))) [
  | inl small ↦ ltb→lt connfd (length t.conns.incoming_buffers) small
  | inr large ↦
      let out = get_or_out t.conns.incoming_buffers connfd [] (ltb→le connfd _ large) in
      let none : length (incoming_of t connfd) ≡ 0 = ap length out in absurd (omega arith)
]

module _ (sqlite : Sqlite) (connfd : ℕ) where
  open sqlite use {State}

  module _ (s : Server State) (v : IsTable s.table)
      (active : has_flag (flags_of s.table connfd) is_active ≡ true) where
    served_whole :
        let waiting = incoming_of s.table connfd in
        let request = parse_message waiting in
        8 ≤ length waiting
        → request.payload_length ≤ 4096
        → 7 + request.payload_length ≤ length waiting
        → let (served, s') = try_one_request sqlite connfd s in
          let (handled, response) = dispatch sqlite connfd s request empty_response in
          (served ≡ true)
          × (s'.database ≡ handled.database)
          × Answered connfd (7 + request.payload_length) response handled.table s'.table
    unfolding try_one_request
    served_whole header small whole =
        let waiting = incoming_of s.table connfd in
        let request = parse_message waiting in
        let (handled, response) = dispatch sqlite connfd s request empty_response in
        let k = dispatch-Keeps sqlite connfd s request empty_response v active in
        let inside = incoming_lt s.table connfd (omega arith) in
        let there : connfd < length handled.table.conns.incoming_buffers =
          omega (arith, ap length k.incoming) in
        rw
          (
            le→ltb (length waiting) 8 header,
            le→ltb 4096 request.payload_length small,
            le→ltb (length waiting) (7 + request.payload_length) whole,
          )
          (
            refl,
            refl,
            answer-Answered connfd (7 + request.payload_length) response handled.table there
                (omega (arith, k.evolves.valid.incoming_size, k.evolves.valid.outgoing_size)),
          )

    -- What `try_one_request` leaves then: the handler's server, with the answer.
    pub try_one_request-answer :
        let waiting = incoming_of s.table connfd in
        let request = parse_message waiting in
        8 ≤ length waiting
        → request.payload_length ≤ 4096
        → 7 + request.payload_length ≤ length waiting
        → let (handled, response) = dispatch sqlite connfd s request empty_response in
          try_one_request sqlite connfd s ≡ (
            true,
            record handled {
              table = answer connfd handled.table (7 + request.payload_length) response;
            },
          )
    unfolding try_one_request
    try_one_request-answer header small whole =
        let waiting = incoming_of s.table connfd in
        let request = parse_message waiting in
        rw
          (
            le→ltb (length waiting) 8 header,
            le→ltb 4096 request.payload_length small,
            le→ltb (length waiting) (7 + request.payload_length) whole,
          )
          refl

    -- A request that is wholly in the incoming buffer of an active connection, with at least eight
    -- bytes in the buffer and a payload of at most 4096 bytes, is served: `try_one_request` returns
    -- true, takes exactly its header and payload from that buffer, leaves all other incoming
    -- buffers as they were, and appends the response to what the handler left in the connection's
    -- outgoing buffer; the other outgoing buffers are the handler's.
    pub try_one_request_whole :
        let waiting = incoming_of s.table connfd in
        let request = parse_message waiting in
        8 ≤ length waiting
        → request.payload_length ≤ 4096
        → 7 + request.payload_length ≤ length waiting
        → let (served, s') = try_one_request sqlite connfd s in
          let (handled, response) = dispatch sqlite connfd s request empty_response in
          (served ≡ true)
          × (incoming_of s'.table connfd ≡ drop (7 + request.payload_length) waiting)
          × ((j : ℕ) → (connfd == j) ≡ false → incoming_of s'.table j ≡ incoming_of s.table j)
          × (outgoing_of s'.table connfd
              ≡ write_message_to_buffer (outgoing_of handled.table connfd) response)
          × ((j : ℕ) → (connfd == j) ≡ false → outgoing_of s'.table j ≡ outgoing_of handled.table j)
    try_one_request_whole header small whole =
        let (served, same, a) = served_whole header small whole in
        let request = parse_message (incoming_of s.table connfd) in
        let k = dispatch-Keeps sqlite connfd s request empty_response v active in
        (
          served,
          a.own_incoming
              ∙ ap (λ b. drop (7 + request.payload_length) (get_or b connfd [])) k.incoming,
          λ j other. a.other_incoming j other ∙ ap (λ b. get_or b j []) k.incoming,
          a.own_outgoing,
          a.other_outgoing,
        )

    served_conditions :
        let waiting = incoming_of s.table connfd in
        let request = parse_message waiting in
        (try_one_request sqlite connfd s).0 ≡ true
        → (8 ≤ length waiting)
          × (request.payload_length ≤ 4096)
          × (7 + request.payload_length ≤ length waiting)
    unfolding try_one_request
    served_conditions served =
        let waiting = incoming_of s.table connfd in
        let request = parse_message waiting in
        elim (Bool-cases (ltb (length waiting) 8)) [
          | inl a ↦ (let no : false ≡ true = rw a at served in cc)
          | inr a ↦ elim (Bool-cases (ltb 4096 request.payload_length)) [
            | inl b ↦ (let no : false ≡ true = rw (a, b) at served in cc)
            | inr b ↦ elim (Bool-cases (ltb (length waiting) (7 + request.payload_length))) [
              | inl c ↦ (let no : false ≡ true = rw (a, b, c) at served in cc)
              | inr c ↦ (
                ltb→le (length waiting) 8 a,
                ltb→le 4096 request.payload_length b,
                ltb→le (length waiting) (7 + request.payload_length) c,
              )
            ]
          ]
        ]

    -- A served request takes seven bytes at least from what was received.
    progress :
        (try_one_request sqlite connfd s).0 ≡ true
        → 7 + length (incoming_of (try_one_request sqlite connfd s).1.table connfd)
          ≤ length (incoming_of s.table connfd)
    progress served =
        let waiting = incoming_of s.table connfd in
        let request = parse_message waiting in
        let (header, small, whole) = served_conditions served in
        let (_, left, _, _, _) = try_one_request_whole header small whole in
        omega (arith, ap length left, length-drop (7 + request.payload_length) waiting)

  -- `while (try_one_request(connfd, epollfd)) {};` as a relation: the last call returns false, each
  -- one before it true.
  pub data Serves : Server State → Server State → Type 0 where
    stops : (s s' : Server State) → try_one_request sqlite connfd s ≡ (false, s') → Serves s s'
    serves :
        (s s' s'' : Server State)
        → try_one_request sqlite connfd s ≡ (true, s')
        → Serves s' s''
        → Serves s s''

  -- The loop of `handle_read_connection` ends: on an active connection of a well-formed table, with
  -- more fuel than the incoming buffer has bytes, it runs until `try_one_request` returns false.
  pub serve_requests-Serves :
      (fuel : ℕ) (s : Server State)
      → IsTable s.table
      → has_flag (flags_of s.table connfd) is_active ≡ true
      → length (incoming_of s.table connfd) < fuel
      → Serves s (serve_requests sqlite fuel connfd s)
  unfolding serve_requests
  serve_requests-Serves zero s v active enough = absurd (omega arith)
  serve_requests-Serves (suc fuel) s v active enough =
      let s' = (try_one_request sqlite connfd s).1 in
      let e = try_one_request-Evolves sqlite connfd s v active in
      elim (Bool-cases (try_one_request sqlite connfd s).0) [
        | inl served ↦
            let less = progress s v active served in
            rw served (
              serves s s' _ (pair_eq _ served)
                (serve_requests-Serves fuel s' e.valid (e.actives connfd ∙ active) (omega arith)))
        | inr stopped ↦ rw stopped (stops s s' (pair_eq _ stopped))
      ]
