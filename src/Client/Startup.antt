-- ===== src/Client/Startup.antt =====
-- The start of the client: `setup_client_signal_handlers` and `create_client_connection` of
-- src/client_utils.cpp, and `main` of src/client.cpp.
pub mod Shutdown
use tcp_chat_server.Prelude.{
  ℕ, Option, none, some, List, [], ◌∷◌, ◌++◌, Bool, true, false, map, if◌then◌else◌, ℤ, pos, negsuc,
}
use tcp_chat_server.Descriptors.{Call, opens, closes}
use tcp_chat_server.Client.Shell.{ShellTurn}
use tcp_chat_server.Client.Threads.{
  Round, Signal, Ending, no_pipe, terminates, still_running, says_goodbye, run_messaging_loop,
}

-- The first argument says whether there is a connection, the second whether `sigaction` succeeds.
unfoldable pub setup_client_signal_handlers : Bool → Bool → ℤ
setup_client_signal_handlers conn installed =
    if conn then if installed then pos 0 else negsuc 0 else negsuc 0

-- What the calls for the connection return: the socket, if there is one; whether `inet_pton` takes
-- the address; and whether `connect` succeeds.
pub record Network : Type 0 where
  pub socket : Option ℕ
  pub address_valid : Bool
  pub connects : Bool

-- The calls on descriptors, and the descriptor that is returned and becomes `conn.fd`; `none` is -1.
unfoldable pub create_client_connection : Network → List Call × Option ℕ
create_client_connection network = elim network.socket [
  | none ↦ ([], none)
  | some fd ↦
      if network.address_valid
      then if network.connects then (opens fd ∷ [], some fd) else (opens fd ∷ closes fd ∷ [], none)
      else (opens fd ∷ closes fd ∷ [], none)
]

-- How the client ends: an exit code; `std::terminate`; or it still runs.
pub data Exit : Type 0 where
  exit_code : ℕ → Exit
  aborted running : Exit

-- What a run of the client does: its calls on descriptors, the turns of the shell, and its end.
pub record ClientRun : Type 0 where
  pub calls : List Call
  pub turns : List ShellTurn
  pub ending : Exit

unfoldable pub pipe_calls : Option (ℕ × ℕ) → List Call
pipe_calls none = []
pipe_calls (some (reading, writing)) = opens reading ∷ opens writing ∷ []

-- What `run_messaging_loop` closes, and how `main` ends behind it.
unfoldable pub end_calls : Ending → List Call
end_calls no_pipe = []
end_calls terminates = []
end_calls still_running = []
end_calls (says_goodbye fds) = map closes fds

unfoldable pub exit_of : Ending → Exit
exit_of no_pipe = exit_code 0
exit_of terminates = aborted
exit_of still_running = running
exit_of (says_goodbye fds) = exit_code 0

-- `main`: whether `sigaction` succeeds, what the calls for the connection return, the pipe, if it can
-- be made, the rounds of the loop, and what comes of the signal to the thread.
unfoldable pub run_client : Bool → Network → Option (ℕ × ℕ) → List Round → Signal → ClientRun
unfolding setup_client_signal_handlers create_client_connection pipe_calls end_calls exit_of
run_client installed network pipe_fds rounds signal =
    elim (setup_client_signal_handlers true installed) [
      | negsuc n ↦ record { calls = []; turns = []; ending = exit_code 1 }
      | pos n ↦
          let (calls, connection) = create_client_connection network in
          elim connection [
            | none ↦ record { calls = calls; turns = []; ending = exit_code 1 }
            | some fd ↦
                let (turns, ending) = run_messaging_loop pipe_fds (some fd) rounds signal in
                record {
                  calls = calls ++ (pipe_calls pipe_fds ++ end_calls ending);
                  turns = turns;
                  ending = exit_of ending;
                }
          ]
    ]
