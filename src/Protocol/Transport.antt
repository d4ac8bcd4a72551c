-- ===== src/Protocol/Transport.antt =====
-- `read_one_message` and `write_one_message` of src/protocol.cpp, on a blocking socket.
pub mod Chunks
use tcp_chat_server.Prelude.{
  ℕ, suc, ◌+◌, ◌-◌, Option, none, some, List, [], ◌∷◌, ◌++◌, Bool, true, false, ltb, length, take,
  drop, get_or, if◌then◌else◌, ℤ, pos, negsuc,
}
use tcp_chat_server.Protocol.Types.{Message, msg_header_size, msg_max_payload_size}
use tcp_chat_server.Protocol.Bytes.{load_u32, htonl}

-- What one call of `read` returns: bytes, at most as many as were asked for; 0; -1 with EINTR; or -1
-- with another error.
pub data ReadResult : Type 0 where
  got : List ℕ → ReadResult
  closed : ReadResult
  read_interrupted : ReadResult
  read_failed : ReadResult

-- How the loop over `read` ends: all bytes are there, and so many calls are left; `return -1`; or
-- it waits for a call that does not return.
pub data Filled : Type 0 where
  filled : List ℕ → List ReadResult → Filled
  gave_up : Filled
  waiting : Filled

-- `while (bytes_to_read > 0)`; `acc` is what stands before `ptr`. Only the loop for the header tries
-- again when it is interrupted.
unfoldable pub read_bytes : Bool → List ReadResult → ℕ → List ℕ → Filled
read_bytes retries [] bytes_to_read acc = if ltb 0 bytes_to_read then waiting else filled acc []
read_bytes retries (got bytes ∷ results) bytes_to_read acc =
    let rest = read_bytes retries results (bytes_to_read - length bytes) (acc ++ bytes) in
    if ltb 0 bytes_to_read then rest else filled acc (got bytes ∷ results)
read_bytes retries (closed ∷ results) bytes_to_read acc =
    if ltb 0 bytes_to_read then gave_up else filled acc (closed ∷ results)
read_bytes retries (read_interrupted ∷ results) bytes_to_read acc =
    let rest = read_bytes retries results bytes_to_read acc in
    if ltb 0 bytes_to_read
    then (if retries then rest else gave_up)
    else filled acc (read_interrupted ∷ results)
read_bytes retries (read_failed ∷ results) bytes_to_read acc =
    if ltb 0 bytes_to_read then gave_up else filled acc (read_failed ∷ results)

-- The message, whose payload buffer starts with the payload read, and the calls that are left; or
-- the return value -1.
pub data ReadMessage : Type 0 where
  read_message : Message → List ReadResult → ReadMessage
  read_error : ReadMessage
  read_blocks : ReadMessage

unfoldable pub finish_message : Message → Filled → ReadMessage
finish_message message (filled payload results) =
    read_message (record message { payload = some payload }) results
finish_message message gave_up = read_error
finish_message message waiting = read_blocks

unfoldable pub read_payload : Filled → Message → ReadMessage
read_payload gave_up message = read_error
read_payload waiting message = read_blocks
read_payload (filled header_buffer results) message =
    let message : Message = record {
      payload_length = htonl (load_u32 (drop 3 header_buffer));
      version = get_or header_buffer 0 0;
      type = get_or header_buffer 1 0;
      rc = get_or header_buffer 2 0;
      payload = message.payload;
    } in
    if ltb msg_max_payload_size message.payload_length
    then read_error
    else finish_message message (read_bytes false results message.payload_length [])

unfoldable pub read_one_message : List ReadResult → Message → ReadMessage
read_one_message results message = read_payload (read_bytes true results msg_header_size []) message

-- What one call of `write` returns: a count of at most the bytes that are left, which can be 0; -1
-- with EINTR; or -1 with another error.
pub data WriteResult : Type 0 where
  took : ℕ → WriteResult
  write_interrupted : WriteResult
  write_failed : WriteResult

-- How the loop over `write` ends, and the bytes that the socket took.
pub data Sending : Type 0 where
  sent_all : List ℕ → Sending
  sending_failed : List ℕ → Sending
  sending_blocks : List ℕ → Sending

-- `while (bytes_sent < bytes_to_send)`: `left` are the bytes from the moving pointer on, `done` those
-- before it. A result of 0 is an error: EINTR does not come with it.
unfoldable pub write_bytes : List WriteResult → List ℕ → List ℕ → Sending
write_bytes results [] done = sent_all done
write_bytes [] (b ∷ left) done = sending_blocks done
write_bytes (took n ∷ results) (b ∷ left) done =
    let rest = write_bytes results (drop n (b ∷ left)) (done ++ take n (b ∷ left)) in
    if ltb 0 n then rest else sending_failed done
write_bytes (write_interrupted ∷ results) (b ∷ left) done = write_bytes results (b ∷ left) done
write_bytes (write_failed ∷ results) (b ∷ left) done = sending_failed done

-- `(int)n` of a 32-bit `n`, in a `size_t`.
abbrev pub to_int : ℕ → ℤ
to_int n = if ltb n 2147483648 then pos n else negsuc (4294967295 - n)

unfoldable pub after_writing : ℕ → Sending → Option ℤ × List ℕ
after_writing message_len (sent_all done) = (some (to_int message_len), done)
after_writing message_len (sending_failed done) = (some (negsuc 0), done)
after_writing message_len (sending_blocks done) = (none, done)

-- The return value, and the bytes that the socket took. `message_len` has 32 bits. There is no
-- return value if a call does not return, or if `message_len` goes past the buffer: then `write` is
-- given memory behind it, of which C++ promises nothing.
unfoldable pub write_one_message : List WriteResult → List ℕ → ℕ → Option ℤ × List ℕ
unfolding write_bytes after_writing
write_one_message results message_buffer message_len =
    if ltb (length message_buffer) message_len
    then (none, [])
    else after_writing message_len (write_bytes results (take message_len message_buffer) [])
