-- ===== src/Server/Loop/Pending.antt =====
-- No output is forgotten: after each event, an open connection with bytes to send waits to write.
use tcp_chat_server.Prelude.{
  ℕ, zero, suc, ◌+◌, ◌<◌, ◌≡◌, ◌∙◌, inl, inr, refl, ap, List, [], ◌∷◌, Bool, true, false, ◌==◌,
  ◌&&◌, ltb, length, get_or, get_or-set, get_or_out, Bool-cases, arith, ltb→le, ltb→lt, drop,
}
use mathlib.Core.Path.{subst}
use tcp_chat_server.Protocol.Types.{Message, msg_header_size, msg_max_payload_size}
use tcp_chat_server.Protocol.Message.{
  buf_append, buf_consume, parse_message, write_message_to_buffer,
}
use tcp_chat_server.Flags.{has_flag, is_active}
use tcp_chat_server.Database.{Sqlite}
use tcp_chat_server.Server.Table.{
  Table, flags_of, incoming_of, outgoing_of, set_incoming, set_outgoing, set_connection_state,
  writing,
}
use tcp_chat_server.Server.Table.Layout.{IsTable, set_outgoing-Evolves}
use tcp_chat_server.Server.Table.States.{set_connection_state-Enters}
use tcp_chat_server.Server.Loop.Writing.{length_zero, drop_nil}
use tcp_chat_server.Server.Table.Drains.{Drains, writing-Drains, closing-Drains, reading-Drains}
use tcp_chat_server.Server.Session.{Server, answer, try_one_request, empty_response}
use tcp_chat_server.Server.Session.Keeps.{dispatch-Keeps, try_one_request-Evolves}
use tcp_chat_server.Server.Loop.{
  Reads, ReadEnd, would_block, read_error, end_of_file, append_chunks, write_counts, serve_requests,
  start_writing, end_reading, handle_read_connection,
}
use tcp_chat_server.Server.Loop.Invariant.{append_chunks-Evolves, serve_requests-Evolves}

append_chunks-Drains :
    (chunks : List (List ℕ)) (t : Table) (connfd j : ℕ)
    → Drains t j
    → Drains (append_chunks t connfd chunks) j
unfolding append_chunks
append_chunks-Drains [] t connfd j d = d
append_chunks-Drains (chunk ∷ chunks) t connfd j d =
    append_chunks-Drains chunks
      (set_incoming t connfd (buf_append (incoming_of t connfd) chunk (length chunk))) connfd j d

module _ (sqlite : Sqlite) (connfd j : ℕ) (other : (connfd == j) ≡ false) where
  open sqlite use {State}

  answer-Drains :
      (t : Table) (consumed : ℕ) (response : Message)
      → Drains t j
      → Drains (answer connfd t consumed response) j
  unfolding answer
  answer-Drains t consumed response d =
      let sent = write_message_to_buffer (outgoing_of t connfd) response in
      let same : get_or (set_outgoing t connfd sent).conns.outgoing_buffers j [] ≡ outgoing_of t j =
        get_or-set t.conns.outgoing_buffers connfd j sent [] ∙ rw other refl in
      elim d [ inl waits ↦ inl waits | inr empty ↦ inr (same ∙ empty) ]

  try_one_request-Drains :
      (s : Server State)
      → IsTable s.table
      → has_flag (flags_of s.table connfd) is_active ≡ true
      → Drains s.table j
      → Drains (try_one_request sqlite connfd s).1.table j
  unfolding try_one_request
  try_one_request-Drains s v active d =
      let waiting = incoming_of s.table connfd in
      let request = parse_message waiting in
      elim (Bool-cases (ltb (length waiting) (msg_header_size + 1))) [
        | inl a ↦ rw a d
        | inr a ↦ rw a (elim (Bool-cases (ltb msg_max_payload_size request.payload_length)) [
          | inl b ↦ rw b (closing-Drains s.table v connfd j d)
          | inr b ↦
              rw b
                (elim (Bool-cases
                  (ltb (length waiting) (msg_header_size + request.payload_length))) [
                    | inl c ↦ rw c d
                    | inr c ↦
                        let k = dispatch-Keeps sqlite connfd s request empty_response v active in
                        rw c (answer-Drains _ _ _ (k.drains j d))
                  ])
        ])
      ]

  serve_requests-Drains :
      (fuel : ℕ) (s : Server State)
      → IsTable s.table
      → has_flag (flags_of s.table connfd) is_active ≡ true
      → Drains s.table j
      → Drains (serve_requests sqlite fuel connfd s).table j
  unfolding serve_requests
  serve_requests-Drains zero s v active d = d
  serve_requests-Drains (suc fuel) s v active d =
      let s' = (try_one_request sqlite connfd s).1 in
      let e = try_one_request-Evolves sqlite connfd s v active in
      let d' = try_one_request-Drains s v active d in
      elim (Bool-cases (try_one_request sqlite connfd s).0) [
        | inl served ↦
            rw served (serve_requests-Drains fuel s' e.valid (e.actives connfd ∙ active) d')
        | inr stopped ↦ rw stopped d'
      ]

outgoing_lt :
    (t : Table) (i : ℕ) → 0 < length (outgoing_of t i) → i < length t.conns.outgoing_buffers
outgoing_lt t i h = elim (Bool-cases (ltb i (length t.conns.outgoing_buffers))) [
  | inl small ↦ ltb→lt i (length t.conns.outgoing_buffers) small
  | inr large ↦
      let out = get_or_out t.conns.outgoing_buffers i [] (ltb→le i _ large) in
      let none : length (outgoing_of t i) ≡ 0 = ap length out in absurd (omega arith)
]

module _ (sqlite : Sqlite) where
  open sqlite use {State}

  -- After `start_writing` the connection itself drains, whatever it did before.
  start_writing-own :
      (connfd : ℕ) (s : Server State)
      → IsTable s.table
      → Drains (start_writing sqlite connfd s).table connfd
  unfolding start_writing set_connection_state
  start_writing-own connfd s v =
      let pending = outgoing_of s.table connfd in
      elim (Bool-cases (ltb 0 (length pending))) [
        | inl more ↦
            let inside = outgoing_lt s.table connfd (ltb→lt 0 (length pending) more) in
            let fits = (v.slot connfd).in_range in
            let (enters, _) =
              set_connection_state-Enters s.table connfd (omega (arith, v.outgoing_size)) fits
                writing in
            rw more (inl enters.writes)
        | inr empty ↦
            let none_left = ltb→le 0 (length pending) empty in
            rw empty (inr (length_zero pending (omega arith)))
      ]

  start_writing-Drains :
      (connfd j : ℕ) (s : Server State)
      → IsTable s.table
      → Drains s.table j
      → Drains (start_writing sqlite connfd s).table j
  unfolding start_writing
  start_writing-Drains connfd j s v d =
      elim (Bool-cases (ltb 0 (length (outgoing_of s.table connfd)))) [
        | inl more ↦ rw more (writing-Drains s.table v connfd j d)
        | inr empty ↦ rw empty d
      ]

  end_reading-Drains :
      (connfd j : ℕ) (ending : ReadEnd) (s : Server State)
      → IsTable s.table
      → has_flag (flags_of s.table connfd) is_active ≡ true
      → Drains s.table j
      → Drains (end_reading sqlite connfd ending s).table j
  unfolding end_reading
  end_reading-Drains connfd j read_error s v active d = closing-Drains s.table v connfd j d
  end_reading-Drains connfd j end_of_file s v active d = closing-Drains s.table v connfd j d
  end_reading-Drains connfd j would_block s v active d =
      let fuel = suc (length (incoming_of s.table connfd)) in
      let e = serve_requests-Evolves sqlite fuel connfd s v active in
      let s' = serve_requests sqlite fuel connfd s in
      elim (Bool-cases (connfd == j)) [
        | inl own ↦
            let same : connfd ≡ j = ground arith in
            subst (λ k. Drains (start_writing sqlite connfd s').table k) same
              (start_writing-own connfd s' e.valid)
        | inr other ↦
            start_writing-Drains connfd j s' e.valid
              (serve_requests-Drains sqlite connfd j other fuel s v active d)
      ]

  pub handle_read_connection-Drains :
      (connfd j : ℕ) (reads : Reads) (s : Server State)
      → IsTable s.table
      → has_flag (flags_of s.table connfd) is_active ≡ true
      → Drains s.table j
      → Drains (handle_read_connection sqlite connfd reads s).table j
  unfolding handle_read_connection
  handle_read_connection-Drains connfd j reads s v active d =
      let e = append_chunks-Evolves s.table connfd reads.chunks v in
      end_reading-Drains connfd j reads.ending _ e.valid (e.actives connfd ∙ active)
        (append_chunks-Drains reads.chunks s.table connfd j d)

consumed-Drains :
    (t : Table) (connfd j n : ℕ)
    → Drains t j
    → Drains (set_outgoing t connfd (buf_consume (outgoing_of t connfd) n)) j
unfolding buf_consume
consumed-Drains t connfd j n (inl waits) = inl waits
consumed-Drains t connfd j n (inr empty) =
    let rest = drop n (outgoing_of t connfd) in
    let kept = get_or-set t.conns.outgoing_buffers connfd j rest [] in
    inr (elim (Bool-cases (connfd == j && ltb connfd (length t.conns.outgoing_buffers))) [
      | inr other ↦ rw other at kept ∙ empty
      | inl own ↦
          let same : connfd ≡ j = ground arith in
          let nothing : outgoing_of t connfd ≡ [] = ap (outgoing_of t) same ∙ empty in
          rw own at kept ∙ ap (drop n) nothing ∙ drop_nil n
    ])

pub write_counts-Drains :
    (counts : List ℕ) (t : Table) (connfd j : ℕ) (failed : Bool)
    → IsTable t
    → Drains t j
    → Drains (write_counts t connfd counts failed) j
unfolding write_counts
write_counts-Drains [] t connfd j false v d = d
write_counts-Drains [] t connfd j true v d = closing-Drains t v connfd j d
write_counts-Drains (n ∷ counts) t connfd j failed v d =
    let left = buf_consume (outgoing_of t connfd) n in
    let u = set_outgoing t connfd left in
    let e = set_outgoing-Evolves t v connfd left in
    let d' = consumed-Drains t connfd j n d in
    elim (Bool-cases (ltb 0 (length (outgoing_of u connfd)))) [
      | inl more ↦ rw more (write_counts-Drains counts u connfd j failed e.valid d')
      | inr empty ↦
          let none_left = ltb→le 0 (length (outgoing_of u connfd)) empty in
          rw empty (
            reading-Drains u e.valid connfd (length_zero (outgoing_of u connfd) (omega arith)) j d')
    ]
