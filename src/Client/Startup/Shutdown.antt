-- ===== src/Client/Startup/Shutdown.antt =====
-- What a run of the client leaves open.
use tcp_chat_server.Prelude.{
  ◌≡◌, refl, ℕ, Option, none, some, List, [], ◌∷◌, ◌++◌, Bool, true, false, ◌==◌, arith,
}
use tcp_chat_server.Descriptors.{closes, remove, held}
use tcp_chat_server.Database.{string_to_lower}
use tcp_chat_server.Client.Words.Laws.{IsBlank, IsWord, IsBreak}
use tcp_chat_server.Client.Shell.{ShellTurn, quit_command, says, user_quit}
use tcp_chat_server.Client.Threads.{Round, Signal, joined}
use tcp_chat_server.Client.Threads.Endings.{GoesOn, run_messaging_loop_quit}
use tcp_chat_server.Client.Startup.{
  Network, create_client_connection, exit_code, end_calls, exit_of, run_client,
}

-- If no connection comes about, nothing is left open and the exit code is 1.
run_client_unconnected :
    (installed : Bool) (network : Network) (pipe_fds : Option (ℕ × ℕ)) (rounds : List Round)
    (signal : Signal)
    → (create_client_connection network).1 ≡ none
    → let r = run_client installed network pipe_fds rounds signal in
      (r.ending ≡ exit_code 1) × (held r.calls [] ≡ [])
unfolding run_client create_client_connection held remove
run_client_unconnected installed network pipe_fds rounds signal e = ground arith

three_closed :
    (fd reading writing : ℕ)
    → (writing == reading) ≡ false
    → (writing == fd) ≡ false
    → held (closes reading ∷ closes writing ∷ closes fd ∷ []) (writing ∷ reading ∷ fd ∷ []) ≡ []
unfolding held remove
three_closed fd reading writing d e = ground arith

module _ (fd reading writing : ℕ) (other : (writing == reading) ≡ false)
    (another : (writing == fd) ≡ false) where
  -- A user who quits, whatever the lines before did, ends the client, if its thread ends on the
  -- signal, with exit code 0 and every descriptor closed that it has opened: the socket and both
  -- ends of the pipe.
  pub run_client_quit :
      (rounds later : List Round) (turns : List ShellTurn)
      → GoesOn rounds turns
      → (r : Round) → r.keep_running ≡ true
      → (blank command rest : List ℕ) → IsBlank blank
      → IsWord command
      → IsBreak rest
      → string_to_lower command ≡ quit_command
      → r.input ≡ some (blank ++ (command ++ rest))
      → let network : Network = record {
        socket = some fd;
        address_valid = true;
        connects = true;
      } in
        let run =
          run_client true network (some (reading, writing)) (rounds ++ (r ∷ later)) joined in
        (run.turns ≡ turns ++ (says false user_quit ∷ []))
        × (run.ending ≡ exit_code 0)
        × (held run.calls [] ≡ [])
  unfolding run_client held end_calls exit_of
  run_client_quit rounds later turns g r keeps blank command rest b i k quits typed =
      rw
        (run_messaging_loop_quit reading writing (some fd) rounds later turns g r keeps blank
          command rest b i k quits typed)
        (refl, refl, three_closed fd reading writing other another)
