-- ===== src/Examples/Conversations.antt =====
-- What is typed at the client of src/client_utils.cpp, and what comes of it at the server.
use mathlib.Core.Path.{subst}
use tcp_chat_server.Prelude.{
  ◌≡◌, ◌∙◌, sym, refl, ap, ℕ, some, List, [], ◌∷◌, ◌++◌, take, drop, true, false, pos, arith,
}
use tcp_chat_server.Protocol.Types.{Message, User}
use tcp_chat_server.Protocol.Bytes.{u32_bytes, htonl, load_u32}
use tcp_chat_server.Protocol.Message.{write_message_to_buffer}
use tcp_chat_server.Protocol.Request.{Request}
use tcp_chat_server.Protocol.Credentials.{build_login_request}
use tcp_chat_server.Protocol.Buffers.{credentials, IsBuffered, Built-IsBuffered}
use tcp_chat_server.Protocol.Accounts.{build_login_response, no_user}
use tcp_chat_server.Protocol.Transport.{
  ReadResult, got, WriteResult, took, read_one_message, read_message,
}
use tcp_chat_server.Protocol.Transport.Chunks.{Delivers, delivered, chunk, Takes, taken, takes}
use tcp_chat_server.Flags.{has_flag, is_auth}
use tcp_chat_server.Database.{get_user_by_username, c_str, string_to_lower, to_lower, text_or_empty}
use tcp_chat_server.Database.Memory.{memory_sqlite}
use tcp_chat_server.Server.Table.{set_incoming, flags_of, user_id_of, username_of, outgoing_of}
use tcp_chat_server.Server.Table.Layout.{IsTable, set_incoming-Evolves}
use tcp_chat_server.Server.Session.{Server, try_one_request, empty_response}
use tcp_chat_server.Client.{Client, logged_in, handle_server_response}
use tcp_chat_server.Client.Responses.{authenticated_as}
use tcp_chat_server.Client.Words.{is_space}
use tcp_chat_server.Client.Shell.{command_shell}
use tcp_chat_server.Client.Shell.Sends.{Obeys, command_shell-Obeys}
use tcp_chat_server.Conversation.Typing.{IsLoginLine, command_shell-login}
use tcp_chat_server.Conversation.Served.{after-IsLoggedIn}
use tcp_chat_server.Conversation.Login.{login_conversation}
use tcp_chat_server.Examples.Wire.{alice, hi, alice_credentials, blank}
use tcp_chat_server.Examples.Clients.{two_clients, two_clients-IsTable}

abbrev pub guest : Client
guest = record { user = no_user; flags = 0 }

-- "/LOGIN".
abbrev command : List ℕ
command = 47 ∷ 76 ∷ 79 ∷ 71 ∷ 73 ∷ 78 ∷ []

-- "/LOGIN alice hi".
abbrev typed : List ℕ
typed = command ++ (32 ∷ (alice ++ (32 ∷ hi)))

typed-IsLoginLine : IsLoginLine typed alice hi
unfolding is_space string_to_lower to_lower
typed-IsLoginLine = record {
  blank = [];
  command = command;
  gap = 32 ∷ [];
  gap' = 32 ∷ [];
  rest = [];
  leading = tt;
  first = record {
    visible = (refl, (refl, (refl, (refl, (refl, (refl, tt))))));
    some_byte = λ e. cc;
  };
  login = refl;
  second = record { blank = (refl, tt); some_space = λ e. cc };
  third = record { visible = (refl, (refl, (refl, (refl, (refl, tt))))); some_byte = λ e. cc };
  fourth = record { blank = (refl, tt); some_space = λ e. cc };
  fifth = record { visible = (refl, (refl, tt)); some_byte = λ e. cc };
  behind = tt;
  written = refl;
}

abbrev after_version : List ℕ
after_version = 1 ∷ 0 ∷ 0 ∷ 0 ∷ 0 ∷ 11 ∷ 0 ∷ 5 ∷ 97 ∷ 108 ∷ 105 ∷ 99 ∷ 101 ∷ 1 ∷ 2 ∷ 104 ∷ 105 ∷ []

abbrev login_request : Request
login_request = record { bytes = 1 ∷ after_version; message_len = 18 }

login_request_built : build_login_request alice_credentials ≡ some login_request
unfolding build_login_request u32_bytes htonl
login_request_built = refl

abbrev results : List WriteResult
results = took 18 ∷ []

results-Takes : Takes results login_request.bytes
results-Takes = takes 17 [] 1 after_version (omega arith) taken

Built-IsBuffered_example : IsBuffered login_request
Built-IsBuffered_example =
    Built-IsBuffered login_request (credentials alice_credentials login_request_built)

command_shell-Obeys_example : Obeys guest (command_shell guest results typed)
command_shell-Obeys_example = command_shell-Obeys guest results typed

abbrev account : User
account = record { user_id = 1; username = alice; password = hi }

abbrev server : Server (List (ℕ × List ℕ × List ℕ))
server = record {
  table = set_incoming two_clients 3 login_request.bytes;
  database = (1, alice, hi) ∷ [];
}

server-IsTable : IsTable server.table
server-IsTable = (set_incoming-Evolves two_clients two_clients-IsTable 3 login_request.bytes).valid

found :
    get_user_by_username memory_sqlite server.database (string_to_lower alice) no_user
    ≡ (pos 1, account)
unfolding get_user_by_username c_str string_to_lower to_lower text_or_empty
found = refl

-- The answer's seven bytes of header, and its payload: the id 1 and the name.
abbrev answer_header : List ℕ
answer_header = 1 ∷ 1 ∷ 0 ∷ 0 ∷ 0 ∷ 0 ∷ 13 ∷ []

abbrev answer_payload : List ℕ
answer_payload = 6 ∷ 4 ∷ 0 ∷ 0 ∷ 0 ∷ 1 ∷ 0 ∷ 5 ∷ 97 ∷ 108 ∷ 105 ∷ 99 ∷ 101 ∷ []

answer_bytes :
    write_message_to_buffer [] (build_login_response empty_response account).1
    ≡ answer_header ++ answer_payload
unfolding write_message_to_buffer build_login_response u32_bytes htonl load_u32
answer_bytes = refl

outgoing :
    outgoing_of (try_one_request memory_sqlite 3 server).1.table 3 ≡ answer_header ++ answer_payload
outgoing =
    (after-IsLoggedIn memory_sqlite 3 server alice_credentials login_request account server-IsTable
      (unfold has_flag in refl) login_request_built refl found refl (omega arith)
      (omega arith)).outgoing
    ∙ answer_bytes

abbrev header_reads : List ReadResult
header_reads = got (1 ∷ []) ∷ got (1 ∷ 0 ∷ 0 ∷ 0 ∷ 0 ∷ 13 ∷ []) ∷ []

abbrev payload_reads : List ReadResult
payload_reads = got answer_payload ∷ []

login_conversation_example :
    let (served, s') = try_one_request memory_sqlite 3 server in
    (served ≡ true)
    × (has_flag (flags_of s'.table 3) is_auth ≡ true)
    × (user_id_of s'.table 3 ≡ 1)
    × (username_of s'.table 3 ≡ alice)
    × ((m : Message) × (read_one_message (header_reads ++ (payload_reads ++ [])) blank
          ≡ read_message m [])
        × (handle_server_response m guest
            ≡ (logged_in (record account { password = [] }), authenticated_as account guest)))
login_conversation_example =
    login_conversation memory_sqlite 3 server guest results typed alice_credentials login_request
      account header_reads payload_reads [] blank typed-IsLoginLine (unfold has_flag in refl)
      login_request_built results-Takes server-IsTable (unfold has_flag in refl)
      (sym (
        ap (λ t. t.sent)
          (command_shell-login guest results typed alice_credentials login_request typed-IsLoginLine
            (unfold has_flag in refl) login_request_built results-Takes)))
      refl found refl (omega arith) (omega arith)
      (subst (λ b. Delivers true header_reads (take 7 b)) (sym outgoing)
        (chunk 1 [] _ (1 ∷ 0 ∷ 0 ∷ 0 ∷ 0 ∷ 13 ∷ [])
          (chunk 1 (0 ∷ 0 ∷ 0 ∷ 0 ∷ 13 ∷ []) [] [] delivered)))
      (subst (λ b. Delivers false payload_reads (drop 7 b)) (sym outgoing)
        (chunk 6 (drop 1 answer_payload) [] [] delivered))
