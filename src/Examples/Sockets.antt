-- ===== src/Examples/Sockets.antt =====
-- `read_one_message` and `write_one_message` of src/protocol.cpp on concrete results of the calls.
use tcp_chat_server.Prelude.{◌≡◌, refl, some, List, [], ◌∷◌, ◌++◌, arith, pos, true}
use tcp_chat_server.Protocol.Bytes.{u32_bytes, htonl}
use tcp_chat_server.Protocol.Message.RoundTrip.{header}
use tcp_chat_server.Protocol.Transport.{
  ReadResult, got, closed, read_interrupted, read_message, read_one_message, took,
  write_interrupted, write_failed, write_one_message,
}
use tcp_chat_server.Protocol.Transport.Chunks.{
  Delivers, delivered, chunk, interrupted, read_one_message-chunks, taken, takes, again,
  write_one_message-chunks,
}
use tcp_chat_server.Examples.Wire.{blank, hi, short_message, short_message-IsWire}

-- The header in two chunks, with an interruption, and the payload in two.
abbrev header_reads : List ReadResult
header_reads = got (1 ∷ []) ∷ read_interrupted ∷ got (2 ∷ 0 ∷ 0 ∷ 0 ∷ 0 ∷ 3 ∷ []) ∷ []

abbrev payload_reads : List ReadResult
payload_reads = got (7 ∷ 8 ∷ []) ∷ got (9 ∷ []) ∷ []

header_arrives : Delivers true header_reads (header short_message)
unfolding u32_bytes htonl
header_arrives = chunk 1 [] _ (2 ∷ 0 ∷ 0 ∷ 0 ∷ 0 ∷ 3 ∷ []) (
    interrupted _ 2 (0 ∷ 0 ∷ 0 ∷ 0 ∷ 3 ∷ []) refl
      (chunk 2 (0 ∷ 0 ∷ 0 ∷ 0 ∷ 3 ∷ []) [] [] delivered))

read_one_message-chunks_example :
    read_one_message (header_reads ++ (payload_reads ++ (closed ∷ []))) blank
    ≡ read_message (record short_message { payload = some (7 ∷ 8 ∷ 9 ∷ []) }) (closed ∷ [])
read_one_message-chunks_example =
    read_one_message-chunks short_message blank header_reads payload_reads (closed ∷ [])
      short_message-IsWire (omega arith) header_arrives
      (chunk 7 (8 ∷ []) _ (9 ∷ []) (chunk 9 [] [] [] delivered))

write_one_message-chunks_example :
    write_one_message ((took 1 ∷ write_interrupted ∷ took 1 ∷ []) ++ (write_failed ∷ [])) hi 2
    ≡ (some (pos 2), hi)
write_one_message-chunks_example =
    write_one_message-chunks (took 1 ∷ write_interrupted ∷ took 1 ∷ []) (write_failed ∷ []) hi 2
      (omega arith) (omega arith)
      (takes 0 _ 104 (105 ∷ []) (omega arith)
        (again _ 105 [] (takes 0 [] 105 [] (omega arith) taken)))
