-- ===== src/Examples/Whispers.antt =====
-- A private message from alice to bob.
use mathlib.Core.Path.{subst}
use tcp_chat_server.Prelude.{
  ◌≡◌, ◌∙◌, sym, refl, ap, ℕ, zero, suc, ◌<◌, some, List, [], ◌∷◌, ◌++◌, take, drop, length, true,
  false, arith,
}
use tcp_chat_server.Protocol.Types.{Message, P2pBroadcast}
use tcp_chat_server.Protocol.Bytes.{u32_bytes, htonl, load_u32}
use tcp_chat_server.Protocol.Message.{write_message_to_buffer}
use tcp_chat_server.Protocol.Request.{Request}
use tcp_chat_server.Protocol.P2p.{p2p_payload, build_p2p_broadcast_request}
use tcp_chat_server.Protocol.P2p.RoundTrip.{IsSendable, p2p_message}
use tcp_chat_server.Protocol.Transport.{
  ReadResult, got, WriteResult, took, read_one_message, read_message,
}
use tcp_chat_server.Protocol.Transport.Chunks.{Delivers, delivered, chunk, Takes, taken, takes}
use tcp_chat_server.Flags.{has_flag}
use tcp_chat_server.Database.{string_to_lower, to_lower}
use tcp_chat_server.Database.Memory.{memory_sqlite}
use tcp_chat_server.Server.Table.{set_incoming, outgoing_of}
use tcp_chat_server.Server.Table.Layout.{IsTable, set_incoming-Evolves}
use tcp_chat_server.Server.Broadcast.{is_valid_recipient}
use tcp_chat_server.Server.Broadcast.Search.{is_recipient}
use tcp_chat_server.Server.Session.{Server, try_one_request, empty_response}
use tcp_chat_server.Client.{Client, printed, handle_server_response}
use tcp_chat_server.Client.Words.{is_space}
use tcp_chat_server.Client.Shell.{command_shell}
use tcp_chat_server.Conversation.Whispers.{IsWhisperLine, whispered, command_shell-whisper}
use tcp_chat_server.Conversation.Forwarded.{IsAddressee, whisper_forwarded}
use tcp_chat_server.Conversation.Reading.{behind}
use tcp_chat_server.Conversation.Whisper.{whisper_conversation}
use tcp_chat_server.Examples.Wire.{alice, bob, hi, blank}
use tcp_chat_server.Examples.Clients.{two_clients, two_clients-IsTable}

abbrev pub alices : Client
alices = record { user = record { user_id = 1; username = alice; password = [] }; flags = 16 }

abbrev pub bobs : Client
bobs = record { user = record { user_id = 2; username = bob; password = [] }; flags = 16 }

-- "/P2P".
abbrev command : List ℕ
command = 47 ∷ 80 ∷ 50 ∷ 80 ∷ []

-- "/P2P bob hi".
abbrev typed : List ℕ
typed = command ++ (32 ∷ (bob ++ (32 ∷ hi)))

typed-IsWhisperLine : IsWhisperLine typed bob hi
unfolding is_space string_to_lower to_lower
typed-IsWhisperLine = record {
  blank = [];
  command = command;
  gap = 32 ∷ [];
  gap' = 32 ∷ [];
  leading = tt;
  first = record { visible = (refl, (refl, (refl, (refl, tt)))); some_byte = λ e. cc };
  whisper = refl;
  second = record { blank = (refl, tt); some_space = λ e. cc };
  third = record { visible = (refl, (refl, (refl, tt))); some_byte = λ e. cc };
  fourth = record { blank = (refl, tt); some_space = λ e. cc };
  visible = refl;
  to_the_end = (λ e. cc, (λ e. cc, tt));
  written = refl;
}

abbrev payload : List ℕ
payload =
    5 ∷ 0 ∷ 9 ∷ 5 ∷ 97 ∷ 108 ∷ 105 ∷ 99 ∷ 101 ∷ 10 ∷ 3 ∷ 98 ∷ 111 ∷ 98 ∷ 11 ∷ 2 ∷ 104 ∷ 105 ∷ []

abbrev after_version : List ℕ
after_version = 2 ∷ 0 ∷ 0 ∷ 0 ∷ 0 ∷ 18 ∷ payload

abbrev request : Request
request = record { bytes = 1 ∷ after_version; message_len = 25 }

abbrev message : P2pBroadcast
message = whispered alices bob hi

request_built : build_p2p_broadcast_request message ≡ some request
unfolding build_p2p_broadcast_request u32_bytes htonl
request_built = refl

message-IsSendable : IsSendable message
message-IsSendable = record {
  sender_short = omega arith;
  recipient_short = omega arith;
  content_short = omega arith;
  to_another = λ e. cc;
}

abbrev results : List WriteResult
results = took 25 ∷ []

results-Takes : Takes results request.bytes
results-Takes = takes 24 [] 1 after_version (omega arith) taken

abbrev server : Server (List (ℕ × List ℕ × List ℕ))
server = record { table = set_incoming two_clients 1 request.bytes; database = [] }

server-IsTable : IsTable server.table
server-IsTable = (set_incoming-Evolves two_clients two_clients-IsTable 1 request.bytes).valid

not_earlier : (j : ℕ) → j < 2 → is_recipient server.table 1 bob j ≡ false
unfolding is_valid_recipient has_flag
not_earlier zero small = refl
not_earlier (suc zero) small = refl
not_earlier (suc (suc j)) small = absurd (omega arith)

bob-IsAddressee : IsAddressee server.table 1 bob 2
unfolding is_valid_recipient has_flag
bob-IsAddressee = record { named = refl; no_earlier = not_earlier }

received : request.bytes ≡ (command_shell alices results typed).sent
received = sym (
    ap (λ t. t.sent)
      (command_shell-whisper alices results typed bob hi request typed-IsWhisperLine
        (unfold has_flag in refl) request_built results-Takes))

notification : write_message_to_buffer [] (p2p_message empty_response message) ≡ request.bytes
unfolding write_message_to_buffer p2p_payload u32_bytes htonl load_u32
notification = refl

for_bob :
    drop
      (length (outgoing_of server.table 2))
      (outgoing_of (try_one_request memory_sqlite 1 server).1.table 2)
    ≡ request.bytes
for_bob =
    behind (outgoing_of server.table 2) _ _
      (whisper_forwarded memory_sqlite 1 server message request 2 server-IsTable
        (unfold has_flag in refl) refl message-IsSendable (λ e. cc) request_built refl
        bob-IsAddressee).1
    ∙ notification

abbrev header_reads : List ReadResult
header_reads = got (1 ∷ 2 ∷ []) ∷ got (0 ∷ 0 ∷ 0 ∷ 0 ∷ 18 ∷ []) ∷ []

abbrev payload_reads : List ReadResult
payload_reads = got payload ∷ []

whisper_conversation_example :
    let (served, s') = try_one_request memory_sqlite 1 server in
    (served ≡ true)
    × ((m : Message) × (read_one_message (header_reads ++ (payload_reads ++ [])) blank
          ≡ read_message m [])
        × (handle_server_response m bobs ≡ (printed alice bob hi, bobs)))
whisper_conversation_example =
    whisper_conversation memory_sqlite 1 2 server alices bobs results typed bob hi request
      header_reads payload_reads [] blank typed-IsWhisperLine (unfold has_flag in refl)
      message-IsSendable request_built results-Takes server-IsTable (unfold has_flag in refl) refl
      received bob-IsAddressee
      (subst (λ b. Delivers true header_reads (take 7 b)) (sym for_bob)
        (chunk 1 (2 ∷ []) _ (0 ∷ 0 ∷ 0 ∷ 0 ∷ 18 ∷ [])
          (chunk 0 (0 ∷ 0 ∷ 0 ∷ 18 ∷ []) [] [] delivered)))
      (subst (λ b. Delivers false payload_reads (drop 7 b)) (sym for_bob)
        (chunk 5 (drop 1 payload) [] [] delivered))
