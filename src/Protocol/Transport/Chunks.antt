-- ===== src/Protocol/Transport/Chunks.antt =====
-- Messages arrive whole, in whatever chunks the socket hands them over.
use tcp_chat_server.Prelude.{
  ℕ, suc, ◌-◌, ◌≤◌, ◌<◌, ltb, false, ◌≡◌, refl, sym, ◌∙◌, ap, some, List, [], ◌∷◌, ◌++◌, Bool, true,
  false, lt→ltb, le→ltb, length, length-append, append-nil, append_assoc, take, drop,
  take-append-drop, pos, arith,
}
use tcp_chat_server.Protocol.Types.{Message}
use tcp_chat_server.Protocol.Bytes.{u32_bytes, load_u32-htonl}
use tcp_chat_server.Protocol.Message.{payload_bytes, IsWire}
use tcp_chat_server.Protocol.Message.RoundTrip.{header, length-header}
use tcp_chat_server.Protocol.Transport.{
  ReadResult, got, closed, read_interrupted, read_failed, filled, read_bytes, finish_message,
  read_payload, read_one_message, read_message, WriteResult, took, write_interrupted, write_bytes,
  after_writing, write_one_message, sent_all,
}

-- Calls of `read` that hand over the bytes in chunks; with `retries` they can be interrupted.
pub data Delivers (retries : Bool) : List ReadResult → List ℕ → Type 0 where
  delivered : Delivers retries [] []
  chunk :
      (c : ℕ) (cs : List ℕ) (results : List ReadResult) (rest : List ℕ)
      → Delivers retries results rest
      → Delivers retries (got (c ∷ cs) ∷ results) (c ∷ (cs ++ rest))
  interrupted :
      (results : List ReadResult) (b : ℕ) (bytes : List ℕ)
      → retries ≡ true
      → Delivers retries results (b ∷ bytes)
      → Delivers retries (read_interrupted ∷ results) (b ∷ bytes)

read_nothing :
    (retries : Bool) (more : List ReadResult) (acc : List ℕ)
    → read_bytes retries more 0 acc ≡ filled acc more
unfolding read_bytes
read_nothing retries [] acc = refl
read_nothing retries (got bytes ∷ more) acc = refl
read_nothing retries (closed ∷ more) acc = refl
read_nothing retries (read_interrupted ∷ more) acc = refl
read_nothing retries (read_failed ∷ more) acc = refl

read_bytes-Delivers :
    (retries : Bool) (results more : List ReadResult) (bytes acc : List ℕ)
    → Delivers retries results bytes
    → read_bytes retries (results ++ more) (length bytes) acc ≡ filled (acc ++ bytes) more
unfolding read_bytes
read_bytes-Delivers retries _ more _ acc delivered =
    read_nothing retries more acc ∙ ap (λ b. filled b more) (sym (append-nil acc))
read_bytes-Delivers retries _ more _ acc (chunk c cs results rest d) =
    let behind : suc (length (cs ++ rest)) - suc (length cs) ≡ length rest =
      omega (arith, length-append cs rest) in
    rw (lt→ltb 0 (suc (length (cs ++ rest))) (omega arith), behind)
      (read_bytes-Delivers retries results more rest (acc ++ (c ∷ cs)) d
        ∙ ap (λ b. filled b more) (append_assoc acc (c ∷ cs) rest))
read_bytes-Delivers retries _ more _ acc (interrupted results b bytes again d) =
    rw (lt→ltb 0 (suc (length bytes)) (omega arith), again)
      (read_bytes-Delivers retries results more (b ∷ bytes) acc d)

-- Whatever chunks the bytes of a message arrive in, and however often the reads of its header are
-- interrupted, `read_one_message` reads exactly this message: its header fields and its payload,
-- and none of the bytes behind it. The message fits the wire and its payload has at most 4096 bytes;
-- no chunk holds bytes of both the header and the payload, since `read` is asked for no more than
-- the header first.
pub read_one_message-chunks :
    (m message : Message) (header_reads payload_reads more : List ReadResult)
    → IsWire m
    → m.payload_length ≤ 4096
    → Delivers true header_reads (header m)
    → Delivers false payload_reads (payload_bytes m)
    → read_one_message (header_reads ++ (payload_reads ++ more)) message
      ≡ read_message (record m { payload = some (payload_bytes m) }) more
unfolding read_one_message read_payload finish_message u32_bytes
read_one_message-chunks m message header_reads payload_reads more wire small hs ps =
    let first : read_bytes true (header_reads ++ (payload_reads ++ more)) 7 []
        ≡ filled (header m) (payload_reads ++ more) =
      ap (λ n. read_bytes true (header_reads ++ (payload_reads ++ more)) n [])
        (sym (length-header m))
      ∙ read_bytes-Delivers true header_reads (payload_reads ++ more) (header m) [] hs in
    let second : read_bytes false (payload_reads ++ more) m.payload_length []
        ≡ filled (payload_bytes m) more =
      ap (λ n. read_bytes false (payload_reads ++ more) n []) (sym wire.payload_there)
      ∙ read_bytes-Delivers false payload_reads more (payload_bytes m) [] ps in
    rw (
      first,
      load_u32-htonl m.payload_length [] wire.length_fits,
      le→ltb 4096 m.payload_length small,
      second,
    )

-- Calls of `write` that take the bytes bit by bit; they can be interrupted.
pub data Takes : List WriteResult → List ℕ → Type 0 where
  taken : Takes [] []
  takes :
      (n : ℕ) (results : List WriteResult) (b : ℕ) (bytes : List ℕ)
      → n ≤ length bytes
      → Takes results (drop n bytes)
      → Takes (took (suc n) ∷ results) (b ∷ bytes)
  again :
      (results : List WriteResult) (b : ℕ) (bytes : List ℕ)
      → Takes results (b ∷ bytes)
      → Takes (write_interrupted ∷ results) (b ∷ bytes)

write_nothing :
    (results : List WriteResult) (done : List ℕ) → write_bytes results [] done ≡ sent_all done
unfolding write_bytes
write_nothing [] done = refl
write_nothing (r ∷ results) done = refl

write_bytes-Takes :
    (results more : List WriteResult) (bytes done : List ℕ)
    → Takes results bytes
    → write_bytes (results ++ more) bytes done ≡ sent_all (done ++ bytes)
unfolding write_bytes
write_bytes-Takes _ more _ done taken =
    write_nothing more done ∙ ap sent_all (sym (append-nil done))
write_bytes-Takes _ more _ done (takes n results b bytes fits t) =
    rw (lt→ltb 0 (suc n) (omega arith)) (
      write_bytes-Takes results more (drop n bytes) (done ++ (b ∷ take n bytes)) t
      ∙ ap sent_all (
          append_assoc done (b ∷ take n bytes) (drop n bytes)
          ∙ ap (λ bs. done ++ (b ∷ bs)) (take-append-drop n bytes)))
write_bytes-Takes _ more _ done (again results b bytes t) =
    write_bytes-Takes results more (b ∷ bytes) done t

-- For a length that lies within the buffer and below 2^31, as every `int` does: however few bytes
-- each call of `write` takes, and however often the calls are interrupted, if together they take
-- the message, then `write_one_message` returns its length, and the socket has got exactly the
-- message's bytes in their order.
pub write_one_message-chunks :
    (results more : List WriteResult) (message_buffer : List ℕ) (message_len : ℕ)
    → message_len ≤ length message_buffer
    → message_len < 2147483648
    → Takes results (take message_len message_buffer)
    → write_one_message (results ++ more) message_buffer message_len
      ≡ (some (pos message_len), take message_len message_buffer)
unfolding write_one_message after_writing
write_one_message-chunks results more message_buffer message_len inside small t =
    let within : ltb (length message_buffer) message_len ≡ false = ground arith in
    rw
      (
        within,
        write_bytes-Takes results more (take message_len message_buffer) [] t,
        lt→ltb message_len 2147483648 small,
      )
      refl
