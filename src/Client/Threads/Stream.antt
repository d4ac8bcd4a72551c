-- ===== src/Client/Threads/Stream.antt =====
-- The client's thread handles each message of the server, in order.
use tcp_chat_server.Prelude.{
  ◌≡◌, ◌∙◌, refl, ap, ◌≤◌, List, [], ◌∷◌, ◌++◌, some, true, false, append_assoc,
}
use tcp_chat_server.Protocol.Types.{Message}
use tcp_chat_server.Protocol.Message.{payload_bytes, IsWire}
use tcp_chat_server.Protocol.Message.RoundTrip.{header}
use tcp_chat_server.Protocol.Transport.{ReadResult, read_one_message}
use tcp_chat_server.Protocol.Transport.Chunks.{Delivers, read_one_message-chunks}
use tcp_chat_server.Client.{Client, handle_server_response}
use tcp_chat_server.Client.Threads.{
  Poll, ready, Thread, sees, after_read, receive_response, socket_thread_handler, empty_message,
  handled,
}

-- Calls of `read` that hand over these messages one behind the other, each within the limits, its
-- header first and then its payload, in whatever chunks.
pub data Arrive : List Message → List ReadResult → Type 0 where
  nothing : Arrive [] []
  message :
      (m : Message) (ms : List Message) (header_reads payload_reads results : List ReadResult)
      → IsWire m
      → m.payload_length ≤ 4096
      → Delivers true header_reads (header m)
      → Delivers false payload_reads (payload_bytes m)
      → Arrive ms results
      → Arrive (m ∷ ms) (header_reads ++ (payload_reads ++ results))

-- The message with its payload in the client's buffer.
abbrev pub as_read : Message → Message
as_read m = record m { payload = some (payload_bytes m) }

-- What the handlers make of the messages, one after the other, and then the rest.
abbrev pub handle_all : List Message → Client → (Client → Thread) → Thread
handle_all [] client rest = rest client
handle_all (m ∷ ms) client rest =
    let (notice, client') = handle_server_response (as_read m) client in
    sees notice (handle_all ms client' rest)

abbrev pub polls_for : List Message → List Poll → List Poll
polls_for [] polls = polls
polls_for (m ∷ ms) polls = ready false true ∷ polls_for ms polls

-- However the server's messages are cut into chunks, as long as the pipe is quiet and the socket
-- is readable once for each of them, the thread hands every one of them to its handler, whole and
-- in the order in which they were sent, with the client as the one before has left it; then it goes
-- on with the bytes behind them.
pub socket_thread_handler-Arrive :
    (ms : List Message) (results more : List ReadResult) (polls : List Poll) (client : Client)
    → Arrive ms results
    → socket_thread_handler (polls_for ms polls) (results ++ more) client
      ≡ handle_all ms client (socket_thread_handler polls more)
unfolding socket_thread_handler
socket_thread_handler-Arrive _ _ more polls client nothing = refl
socket_thread_handler-Arrive _ _ more polls client
      (message m ms header_reads payload_reads results wire small hs ps arrive) =
    let regrouped : (header_reads ++ (payload_reads ++ results)) ++ more
        ≡ header_reads ++ (payload_reads ++ (results ++ more)) =
      append_assoc header_reads (payload_reads ++ results) more
      ∙ ap (λ r. header_reads ++ r) (append_assoc payload_reads results more) in
    let got =
      ap (λ r. read_one_message r empty_message) regrouped
      ∙ read_one_message-chunks m empty_message header_reads payload_reads (results ++ more) wire
          small hs ps in
    let (notice, client') = handle_server_response (as_read m) client in
    let received : receive_response ((header_reads ++ (payload_reads ++ results)) ++ more) client
        ≡ handled notice client' (results ++ more) =
      unfold receive_response in ap (after_read client) got in
    rw (received, socket_thread_handler)
      (ap (sees notice) (socket_thread_handler-Arrive ms results more polls client' arrive))
