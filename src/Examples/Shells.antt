-- ===== src/Examples/Shells.antt =====
-- The two threads of the client in src/client_utils.cpp at concrete inputs.
use tcp_chat_server.Prelude.{◌≡◌, ℕ, some, List, [], ◌∷◌, ◌++◌, true, false, arith}
use tcp_chat_server.Protocol.Bytes.{u32_bytes, htonl}
use tcp_chat_server.Protocol.Transport.{ReadResult, got}
use tcp_chat_server.Protocol.Transport.Chunks.{delivered, chunk}
use tcp_chat_server.Client.Threads.{ready, Round, socket_thread_handler}
use tcp_chat_server.Client.Threads.Stream.{
  Arrive, nothing, message, handle_all, polls_for, socket_thread_handler-Arrive,
}
use tcp_chat_server.Examples.Wire.{short_message, short_message-IsWire}
use tcp_chat_server.Examples.Conversations.{guest}

-- The message in chunks.
abbrev reads : List ReadResult
reads =
    (got (1 ∷ 2 ∷ []) ∷ got (0 ∷ 0 ∷ 0 ∷ 0 ∷ 3 ∷ []) ∷ []) ++ ((got (7 ∷ 8 ∷ 9 ∷ []) ∷ []) ++ [])

reads-Arrive : Arrive (short_message ∷ []) reads
unfolding u32_bytes htonl
reads-Arrive =
    message short_message [] (got (1 ∷ 2 ∷ []) ∷ got (0 ∷ 0 ∷ 0 ∷ 0 ∷ 3 ∷ []) ∷ [])
      (got (7 ∷ 8 ∷ 9 ∷ []) ∷ []) [] short_message-IsWire (omega arith)
      (chunk 1 (2 ∷ []) _ _ (chunk 0 (0 ∷ 0 ∷ 0 ∷ 3 ∷ []) [] [] delivered))
      (chunk 7 (8 ∷ 9 ∷ []) [] [] delivered) nothing

socket_thread_handler-Arrive_example :
    socket_thread_handler
      (polls_for (short_message ∷ []) (ready true false ∷ []))
      (reads ++ [])
      guest
    ≡ handle_all (short_message ∷ []) guest (socket_thread_handler (ready true false ∷ []) [])
socket_thread_handler-Arrive_example =
    socket_thread_handler-Arrive (short_message ∷ []) reads [] (ready true false ∷ []) guest
      reads-Arrive

abbrev quit_line : List ℕ
quit_line = 32 ∷ (47 ∷ 81 ∷ 117 ∷ 105 ∷ 116 ∷ []) ++ (32 ∷ 120 ∷ [])

abbrev pub quitting : Round
quitting = record { keep_running = true; conn = guest; input = some quit_line; writes = [] }
