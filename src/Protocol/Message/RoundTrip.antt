-- ===== src/Protocol/Message/RoundTrip.antt =====
-- What `write_message_to_buffer` appends, and that `parse_message` reads it back.
use tcp_chat_server.Prelude.{
  ℕ, zero, suc, ◌+◌, ◌<◌, ◌≡◌, ◌∙◌, refl, ap, Option, none, some, List, [], ◌∷◌, ◌++◌, take, arith,
  ◌&&◌, ltb, if◌then◌else◌, length, append_assoc, append-nil, length-append, take_front, take_all,
}
use tcp_chat_server.Protocol.Types.{Message}
use tcp_chat_server.Protocol.Bytes.{u32_bytes, htonl, load_u32-htonl, length-u32_bytes}
use tcp_chat_server.Protocol.Message.{
  write_message_to_buffer, parse_message, memory, is_some, payload_bytes, IsWire,
}

-- The seven bytes of a header.
abbrev pub header : Message → List ℕ
header m = m.version ∷ m.type ∷ m.rc ∷ u32_bytes (htonl m.payload_length)

take-none : (n : ℕ) → take n (memory none) ≡ []
take-none n = take_all n [] (omega arith)

-- The payload is appended only if there is one, which is no exception: nothing is appended else.
append_payload :
    (buffer : List ℕ) (payload : Option (List ℕ)) (n : ℕ)
    → (if is_some payload && ltb 0 n then buffer ++ take n (memory payload) else buffer)
      ≡ buffer ++ take n (memory payload)
append_payload buffer none n = rw (take-none n, append-nil)
append_payload buffer (some bytes) zero = rw append-nil
append_payload buffer (some bytes) (suc n) = ground arith

-- A message is written behind what the buffer holds: its header, then its payload.
pub write_message_to_buffer_lem :
    (buffer : List ℕ) (m : Message)
    → write_message_to_buffer buffer m ≡ buffer ++ (header m ++ payload_bytes m)
unfolding write_message_to_buffer u32_bytes
write_message_to_buffer_lem buffer m =
    append_payload _ m.payload m.payload_length ∙ simp append_assoc

pub length-header : (m : Message) → length (header m) ≡ 7
length-header m = omega (arith, length-u32_bytes (htonl m.payload_length))

-- The bytes behind a header are read as the message with that header.
pub parse_message-header :
    (m : Message) (behind : List ℕ)
    → m.payload_length < 4294967296
    → parse_message (header m ++ behind) ≡ record m { payload = some behind }
unfolding parse_message u32_bytes
parse_message-header m behind fits =
    ap
      (λ n. record {
        payload_length = n;
        version = m.version;
        type = m.type;
        rc = m.rc;
        payload = some behind;
      })
      (load_u32-htonl m.payload_length behind fits)

-- The bytes of a message are read as the message, with what follows them behind its payload.
pub parse_message_written :
    (m : Message) (rest : List ℕ)
    → IsWire m
    → parse_message (write_message_to_buffer [] m ++ rest)
      ≡ record m { payload = some (payload_bytes m ++ rest) }
parse_message_written m rest wire =
    ap (λ b. parse_message (b ++ rest)) (write_message_to_buffer_lem [] m)
    ∙ ap parse_message (append_assoc (header m) (payload_bytes m) rest)
    ∙ parse_message-header m (payload_bytes m ++ rest) wire.length_fits

pub length-write_message_to_buffer :
    (m : Message) → IsWire m → length (write_message_to_buffer [] m) ≡ 7 + m.payload_length
length-write_message_to_buffer m wire =
    rw (write_message_to_buffer_lem [] m) (
      omega
        (arith, length-append (header m) (payload_bytes m), length-header m, wire.payload_there))

-- Parsing the bytes of a message gives back its header fields and its payload, and leaves the
-- bytes that follow it behind the payload.
pub parse_message-write_message_to_buffer :
    (m : Message) (rest : List ℕ)
    → IsWire m
    → let got = parse_message (write_message_to_buffer [] m ++ rest) in
      (got.version ≡ m.version)
      × (got.type ≡ m.type)
      × (got.rc ≡ m.rc)
      × (got.payload_length ≡ m.payload_length)
      × (payload_bytes got ≡ payload_bytes m)
      × (got.payload ≡ some (payload_bytes m ++ rest))
parse_message-write_message_to_buffer m rest wire =
    let payload = payload_bytes m in
    rw (parse_message_written m rest wire)
      (refl, refl, refl, refl, take_front m.payload_length payload rest wire.payload_there, refl)
