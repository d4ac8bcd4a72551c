-- ===== src/Examples/Outputs.antt =====
-- Bob's connection gets rid of its output, a byte at a time; and a line of the console.
use tcp_chat_server.Prelude.{
  ◌≡◌, refl, sym, append-nil, ℕ, some, List, [], ◌∷◌, ◌++◌, take, false, arith,
}
use tcp_chat_server.Flags.{has_flag}
use tcp_chat_server.Database.Memory.{memory_sqlite}
use tcp_chat_server.Server.Session.{Server}
use tcp_chat_server.Server.Loop.{
  Reads, Writes, would_block, Event, console, connection, handle_event,
}
use tcp_chat_server.Server.Loop.Draining.{
  IsDrained, Notified, enough, notified, meanwhile, run_drains,
}
use tcp_chat_server.Console.{get_stdin}
use tcp_chat_server.Console.Lines.{get_stdin_line}
use tcp_chat_server.Examples.Wire.{alice, hi}
use tcp_chat_server.Examples.Clients.{two_clients, two_clients-IsTable}

abbrev reads : Reads
reads = record { chunks = []; ending = would_block }

abbrev one_byte : Writes
one_byte = record { counts = 1 ∷ []; failed = false }

abbrev server : Server (List (ℕ × List ℕ × List ℕ))
server = record { table = two_clients; database = [] }

-- In between, the operator types something.
abbrev events : List Event
events =
    connection 2 false reads one_byte
    ∷ console false ((47 ∷ 109 ∷ 10 ∷ []) ∷ [])
    ∷ connection 2 false reads one_byte
    ∷ []

events-Notified : Notified memory_sqlite 2 2 events server
unfolding handle_event
events-Notified =
    notified 1 _ server reads one_byte (omega arith, refl)
      (meanwhile 1 _ _ _ _ [] refl refl (sym (append-nil _))
        (notified 0 [] _ reads one_byte (omega arith, refl) enough))

run_drains_example : IsDrained memory_sqlite 2 events server
unfolding has_flag
run_drains_example =
    run_drains memory_sqlite 2 2 events server two_clients-IsTable
      (record { writes = refl; no_reads = refl; stays = refl }) events-Notified (omega arith)
      (omega arith)

get_stdin_line_example : get_stdin 1 (hi ++ (10 ∷ alice)) ≡ some (take 1 hi, alice)
get_stdin_line_example = get_stdin_line 1 hi alice ((λ e. cc, λ e. cc), ((λ e. cc, λ e. cc), tt))
