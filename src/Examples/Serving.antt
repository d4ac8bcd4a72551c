-- ===== src/Examples/Serving.antt =====
-- The event loop and the request loop of src/server_utils.cpp at concrete inputs.
use tcp_chat_server.Prelude.{
  zero, suc, inl, inr, ℕ, ◌≡◌, refl, some, none, List, [], ◌∷◌, ◌++◌, true, false, arith,
}
use tcp_chat_server.Protocol.Types.{Message}
use tcp_chat_server.Protocol.Message.{write_message_to_buffer, payload_bytes}
use tcp_chat_server.Flags.{has_flag, is_active}
use tcp_chat_server.Database.Memory.{memory_sqlite}
use tcp_chat_server.Server.Table.{
  Table, create_connection_manager, set_incoming, flags_of, incoming_of, outgoing_of,
}
use tcp_chat_server.Server.Table.Layout.{IsTable, set_incoming-Evolves}
use tcp_chat_server.Server.Startup.{Fcntl, set_nonblocking_fd}
use tcp_chat_server.Server.Session.{Server, dispatch, try_one_request, empty_response}
use tcp_chat_server.Server.Session.Serving.{Serves, serve_requests-Serves}
use tcp_chat_server.Server.Session.Pipelining.{
  IsServable, stream, try_one_request_framed, serve_requests_pipelined, try_one_request_no_payload,
}
use tcp_chat_server.Server.Loop.{
  Event, listening, console, connection, would_block, serve_requests, run,
}
use tcp_chat_server.Server.Loop.Output.{AllDrain}
use tcp_chat_server.Server.Loop.Run.{any_fatal, run-IsTable}
use tcp_chat_server.Server.Loop.Fresh.{run-AllDrain}
use tcp_chat_server.Server.Interest.{IsWatched}
use tcp_chat_server.Server.Interest.Runs.{run-IsWatched}
use tcp_chat_server.Server.Logins.{Reach}
use tcp_chat_server.Server.Logins.Requests.{view}
use tcp_chat_server.Server.Logins.Runs.{run-refines}
use tcp_chat_server.Examples.Wire.{short_message, short_message-IsWire}
use tcp_chat_server.Examples.Clients.{two_clients, two_clients-IsTable}

abbrev Rows : Type 0
Rows = List (ℕ × List ℕ × List ℕ)

-- The guest in slot 3 has sent the bytes.
abbrev received : List ℕ → Table
received bytes = set_incoming two_clients 3 bytes

received-IsTable : (bytes : List ℕ) → IsTable (received bytes)
received-IsTable bytes = (set_incoming-Evolves two_clients two_clients-IsTable 3 bytes).valid

abbrev server : List ℕ → Server Rows
server bytes = record { table = received bytes; database = [] }

guest : (bytes : List ℕ) → has_flag (flags_of (received bytes) 3) is_active ≡ true
unfolding has_flag
guest bytes = refl

short_message-IsServable : IsServable short_message
short_message-IsServable = record {
  wire = short_message-IsWire;
  some_payload = omega arith;
  small_payload = omega arith;
}

-- The bytes of `short_message`, and three more.
abbrev framed : List ℕ
framed = write_message_to_buffer [] short_message ++ (1 ∷ 2 ∷ 3 ∷ [])

try_one_request_framed_example :
    let (served, s') = try_one_request memory_sqlite 3 (server framed) in
    let got : Message = record short_message {
      payload = some (payload_bytes short_message ++ (1 ∷ 2 ∷ 3 ∷ []));
    } in
    let (handled, response) = dispatch memory_sqlite 3 (server framed) got empty_response in
    (served ≡ true)
    × (incoming_of s'.table 3 ≡ 1 ∷ 2 ∷ 3 ∷ [])
    × (outgoing_of s'.table 3 ≡ write_message_to_buffer (outgoing_of handled.table 3) response)
try_one_request_framed_example =
    try_one_request_framed memory_sqlite 3 (server framed) short_message (1 ∷ 2 ∷ 3 ∷ [])
      (received-IsTable framed) (guest framed) short_message-IsServable refl

serve_requests_pipelined_example :
    let bytes = stream (short_message ∷ short_message ∷ []) (1 ∷ 2 ∷ 3 ∷ []) in
    incoming_of (serve_requests memory_sqlite 3 3 (server bytes)).table 3 ≡ 1 ∷ 2 ∷ 3 ∷ []
serve_requests_pipelined_example =
    let bytes = stream (short_message ∷ short_message ∷ []) (1 ∷ 2 ∷ 3 ∷ []) in
    serve_requests_pipelined memory_sqlite 3 3 (server bytes) (short_message ∷ short_message ∷ [])
      (1 ∷ 2 ∷ 3 ∷ []) (received-IsTable bytes) (guest bytes)
      (short_message-IsServable, (short_message-IsServable, tt)) (omega arith) refl (omega arith)

-- A message without a payload.
abbrev empty_message : Message
empty_message = record { payload_length = 0; version = 1; type = 2; rc = 0; payload = some [] }

try_one_request_no_payload_example :
    let bytes = write_message_to_buffer [] empty_message in
    try_one_request memory_sqlite 3 (server bytes) ≡ (false, server bytes)
try_one_request_no_payload_example =
    let bytes = write_message_to_buffer [] empty_message in
    try_one_request_no_payload memory_sqlite 3 (server bytes) empty_message
      (record {
        version_fits = omega arith;
        type_fits = omega arith;
        rc_fits = omega arith;
        length_fits = omega arith;
        payload_there = refl;
      })
      refl refl

-- A whole request of an unknown type, byte by byte.
abbrev unknown_request : List ℕ
unknown_request = 1 ∷ 9 ∷ 0 ∷ 0 ∷ 0 ∷ 0 ∷ 1 ∷ 7 ∷ 5 ∷ []

serve_requests-Serves_example :
    let s = server unknown_request in Serves memory_sqlite 3 s (serve_requests memory_sqlite 10 3 s)
serve_requests-Serves_example =
    serve_requests-Serves memory_sqlite 3 10 (server unknown_request)
      (received-IsTable unknown_request) (guest unknown_request) (omega arith)

abbrev fcntl : Fcntl
fcntl = record { flags = some 2; sets = true }

-- A client connects, sends a request, and gets its answer; the operator asks for the metrics.
abbrev events : List Event
events =
    listening false (record { connfd = 5; fcntl = fcntl; added = true } ∷ []) false
    ∷ connection 5 false (record { chunks = unknown_request ∷ []; ending = would_block })
        (record { counts = 7 ∷ []; failed = false })
    ∷ console false ((47 ∷ 109 ∷ 10 ∷ []) ∷ [])
    ∷ []

none_fatal : any_fatal events ≡ false
unfolding set_nonblocking_fd
none_fatal = refl

run-IsTable_example :
    (s : Server Rows) × (run memory_sqlite events (record {
      table = record { conns = create_connection_manager 4; epoll = [] };
      database = [];
    })
      ≡ some s)
    × IsTable s.table
run-IsTable_example = run-IsTable memory_sqlite 4 [] events none_fatal

run-AllDrain_example :
    (s : Server Rows) × (run memory_sqlite events (record {
      table = record { conns = create_connection_manager 4; epoll = [] };
      database = [];
    })
      ≡ some s)
    × AllDrain s.table
unfolding create_connection_manager
run-AllDrain_example =
    run-AllDrain memory_sqlite 4 [] events none_fatal
      ((refl, tt), λ s1 e1. (tt, λ s2 e2. (tt, λ s3 e3. tt)))

received-AllDrain : AllDrain (received [])
unfolding has_flag
received-AllDrain zero active = inr refl
received-AllDrain (suc zero) active = inr refl
received-AllDrain (suc (suc zero)) active = inl refl
received-AllDrain (suc (suc (suc zero))) active = inr refl
received-AllDrain (suc (suc (suc (suc j)))) active = inr refl

-- The server after the events.
abbrev after_events : Server Rows
after_events = (run-IsTable memory_sqlite 4 [] events none_fatal).0

run-refines_example :
    Reach memory_sqlite (record { sessions = λ j. none; database = [] }) (view after_events)
run-refines_example =
    run-refines memory_sqlite 4 [] events after_events
      (run-IsTable memory_sqlite 4 [] events none_fatal).1

run-IsWatched_example : IsWatched after_events.table
run-IsWatched_example =
    run-IsWatched memory_sqlite 4 [] events after_events
      (run-IsTable memory_sqlite 4 [] events none_fatal).1
