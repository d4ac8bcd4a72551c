-- ===== src/Examples/Starts.antt =====
-- The start of the server and a run of the client at concrete inputs.
use tcp_chat_server.Prelude.{◌≡◌, ◌↔◌, refl, ℕ, some, List, [], ◌∷◌, true, false, pos}
use tcp_chat_server.Descriptors.{held}
use tcp_chat_server.Database.{string_to_lower, to_lower}
use tcp_chat_server.Client.Words.{is_space}
use tcp_chat_server.Client.Shell.{says, user_quit}
use tcp_chat_server.Client.Threads.{joined}
use tcp_chat_server.Client.Threads.Endings.{start}
use tcp_chat_server.Client.Startup.{Network, exit_code, run_client}
use tcp_chat_server.Client.Startup.Shutdown.{run_client_quit}
use tcp_chat_server.Server.Startup.{
  Fcntl, Address, no_socket, binds, refuses, open_listenfd, Environment, loops, start_server,
}
use tcp_chat_server.Server.Startup.Sockets.{Clean, open_listenfd-Clean}
use tcp_chat_server.Server.Startup.Ready.{watched, IsReady, start_server_loops}
use tcp_chat_server.Examples.Shells.{quitting}

-- The second address is in use.
abbrev addresses : List Address
addresses = no_socket ∷ refuses 3 true ∷ binds 3 ∷ []

abbrev fcntl : Fcntl
fcntl = record { flags = some 2; sets = true }

open_listenfd-Clean_example : Clean 1 (open_listenfd (some addresses) fcntl false)
open_listenfd-Clean_example =
    open_listenfd-Clean (some addresses) fcntl false (tt, (refl, (tt, tt)))

abbrev environment : Environment
environment = record {
  sqlite = λ path. (true, true);
  addresses = some addresses;
  listen_fcntl = fcntl;
  listen_result = true;
  epoll = some 4;
  adds_listenfd = true;
  stdin_fcntl = fcntl;
  adds_stdin = true;
}

-- The number of arguments, with the name of the program.
abbrev argc : ℕ
argc = 4

abbrev fds : List ℕ
fds = 3 ∷ 0 ∷ []

start_server_loops_example :
    (start_server environment argc (pos 0) (pos 1) ≡ loops 3 4 fds)
    ↔ ((argc ≡ 4) × (fds ≡ watched (pos 0) 3) × IsReady environment (pos 0) (pos 1) 3 4)
start_server_loops_example = start_server_loops environment (pos 0) (pos 1) argc 3 4 fds

run_client_quit_example :
    let network : Network = record { socket = some 3; address_valid = true; connects = true } in
    let run = run_client true network (some (4, 5)) (quitting ∷ []) joined in
    (run.turns ≡ says false user_quit ∷ []) × (run.ending ≡ exit_code 0) × (held run.calls [] ≡ [])
unfolding is_space string_to_lower to_lower
run_client_quit_example =
    run_client_quit 3 4 5 refl refl [] [] [] start quitting refl (32 ∷ [])
      (47 ∷ 81 ∷ 117 ∷ 105 ∷ 116 ∷ []) (32 ∷ 120 ∷ []) (refl, tt)
      (record { visible = (refl, (refl, (refl, (refl, (refl, tt))))); some_byte = λ e. cc }) refl
      refl refl
