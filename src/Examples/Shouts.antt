-- ===== src/Examples/Shouts.antt =====
-- A message from alice to all.
use mathlib.Core.Path.{subst}
use tcp_chat_server.Prelude.{
  ◌≡◌, ◌∙◌, sym, refl, ap, ℕ, some, List, [], ◌∷◌, ◌++◌, take, drop, length, true, false, arith,
}
use tcp_chat_server.Protocol.Types.{Message, WorldBroadcast}
use tcp_chat_server.Protocol.Bytes.{u32_bytes, htonl, load_u32}
use tcp_chat_server.Protocol.Message.{write_message_to_buffer}
use tcp_chat_server.Protocol.Request.{Request}
use tcp_chat_server.Protocol.World.{world_payload, build_world_broadcast_request}
use tcp_chat_server.Protocol.World.RoundTrip.{world_message}
use tcp_chat_server.Protocol.Transport.{
  ReadResult, got, WriteResult, took, read_one_message, read_message,
}
use tcp_chat_server.Protocol.Transport.Chunks.{Delivers, delivered, chunk, Takes, taken, takes}
use tcp_chat_server.Flags.{has_flag}
use tcp_chat_server.Database.{string_to_lower, to_lower}
use tcp_chat_server.Database.Memory.{memory_sqlite}
use tcp_chat_server.Server.Table.{set_incoming, outgoing_of}
use tcp_chat_server.Server.Table.Layout.{IsTable, set_incoming-Evolves}
use tcp_chat_server.Server.Broadcast.{is_valid_recipient}
use tcp_chat_server.Server.Session.{Server, try_one_request, empty_response}
use tcp_chat_server.Client.{printed, handle_server_response}
use tcp_chat_server.Client.Words.{is_space}
use tcp_chat_server.Client.Shell.{command_shell}
use tcp_chat_server.Conversation.Reading.{behind}
use tcp_chat_server.Conversation.Shouts.{IsShoutLine, shouted, command_shell-shout}
use tcp_chat_server.Conversation.Shout.{shout_forwarded, shout_conversation}
use tcp_chat_server.Examples.Wire.{alice, hi, blank}
use tcp_chat_server.Examples.Clients.{two_clients, two_clients-IsTable}
use tcp_chat_server.Examples.Whispers.{alices, bobs}

-- "/World".
abbrev command : List ℕ
command = 47 ∷ 87 ∷ 111 ∷ 114 ∷ 108 ∷ 100 ∷ []

-- "/World hi".
abbrev typed : List ℕ
typed = command ++ (32 ∷ hi)

typed-IsShoutLine : IsShoutLine typed hi
unfolding is_space string_to_lower to_lower
typed-IsShoutLine = record {
  blank = [];
  command = command;
  gap = 32 ∷ [];
  leading = tt;
  first = record {
    visible = (refl, (refl, (refl, (refl, (refl, (refl, tt))))));
    some_byte = λ e. cc;
  };
  shout = refl;
  second = record { blank = (refl, tt); some_space = λ e. cc };
  visible = refl;
  to_the_end = (λ e. cc, (λ e. cc, tt));
  written = refl;
}

abbrev payload : List ℕ
payload = 4 ∷ 0 ∷ 9 ∷ 5 ∷ 97 ∷ 108 ∷ 105 ∷ 99 ∷ 101 ∷ 11 ∷ 2 ∷ 104 ∷ 105 ∷ []

abbrev after_version : List ℕ
after_version = 2 ∷ 0 ∷ 0 ∷ 0 ∷ 0 ∷ 13 ∷ payload

abbrev request : Request
request = record { bytes = 1 ∷ after_version; message_len = 20 }

abbrev message : WorldBroadcast
message = shouted alices hi

request_built : build_world_broadcast_request message ≡ some request
unfolding build_world_broadcast_request u32_bytes htonl
request_built = refl

abbrev results : List WriteResult
results = took 20 ∷ []

results-Takes : Takes results request.bytes
results-Takes = takes 19 [] 1 after_version (omega arith) taken

abbrev server : Server (List (ℕ × List ℕ × List ℕ))
server = record { table = set_incoming two_clients 1 request.bytes; database = [] }

server-IsTable : IsTable server.table
server-IsTable = (set_incoming-Evolves two_clients two_clients-IsTable 1 request.bytes).valid

bob_listens : is_valid_recipient server.table 1 2 ≡ true
unfolding is_valid_recipient has_flag
bob_listens = refl

received : request.bytes ≡ (command_shell alices results typed).sent
received = sym (
    ap (λ t. t.sent)
      (command_shell-shout alices results typed hi request typed-IsShoutLine
        (unfold has_flag in refl) request_built results-Takes))

notification : write_message_to_buffer [] (world_message empty_response message) ≡ request.bytes
unfolding write_message_to_buffer world_payload u32_bytes htonl load_u32
notification = refl

for_bob :
    drop
      (length (outgoing_of server.table 2))
      (outgoing_of (try_one_request memory_sqlite 1 server).1.table 2)
    ≡ request.bytes
for_bob =
    behind (outgoing_of server.table 2) _ _
      (shout_forwarded memory_sqlite 1 server message request server-IsTable
        (unfold has_flag in refl) refl (omega arith) (omega arith) (λ e. cc) request_built refl 2
        bob_listens).1
    ∙ notification

abbrev header_reads : List ReadResult
header_reads = got (1 ∷ 2 ∷ []) ∷ got (0 ∷ 0 ∷ 0 ∷ 0 ∷ 13 ∷ []) ∷ []

abbrev payload_reads : List ReadResult
payload_reads = got payload ∷ []

shout_conversation_example :
    let (served, s') = try_one_request memory_sqlite 1 server in
    (served ≡ true)
    × ((m : Message) × (read_one_message (header_reads ++ (payload_reads ++ [])) blank
          ≡ read_message m [])
        × (handle_server_response m bobs ≡ (printed alice [] hi, bobs)))
shout_conversation_example =
    shout_conversation memory_sqlite 1 2 server alices bobs results typed hi request header_reads
      payload_reads [] blank typed-IsShoutLine (unfold has_flag in refl) (omega arith) (omega arith)
      request_built results-Takes server-IsTable (unfold has_flag in refl) refl received bob_listens
      (subst (λ b. Delivers true header_reads (take 7 b)) (sym for_bob)
        (chunk 1 (2 ∷ []) _ (0 ∷ 0 ∷ 0 ∷ 0 ∷ 13 ∷ [])
          (chunk 0 (0 ∷ 0 ∷ 0 ∷ 13 ∷ []) [] [] delivered)))
      (subst (λ b. Delivers false payload_reads (drop 7 b)) (sym for_bob)
        (chunk 4 (drop 1 payload) [] [] delivered))
