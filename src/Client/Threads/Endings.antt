-- ===== src/Client/Threads/Endings.antt =====
-- How the client's command loop ends.
use tcp_chat_server.Prelude.{◌≡◌, refl, ap, ℕ, Option, none, some, List, [], ◌∷◌, ◌++◌, true, false}
use tcp_chat_server.Client.Words.Laws.{IsBlank, IsWord, IsBreak}
use tcp_chat_server.Client.Shell.{
  ShellTurn, command_shell, run_command, quit_command, says, user_quit,
}
use tcp_chat_server.Protocol.Transport.{WriteResult}
use tcp_chat_server.Client.{Client}
use tcp_chat_server.Client.Shell.Lines.{command_shell-command}
use tcp_chat_server.Database.{string_to_lower}
use tcp_chat_server.Client.Threads.{
  Round, joined, finished, command_loop, after_loop, run_messaging_loop, says_goodbye,
}

-- Rounds after which the loop goes on, with what the shell does in them.
pub data GoesOn : List Round → List ShellTurn → Type 0 where
  start : GoesOn [] []
  round :
      (r : Round) (buffer : List ℕ) (rounds : List Round) (turns : List ShellTurn)
      → r.keep_running ≡ true
      → r.input ≡ some buffer
      → (command_shell r.conn r.writes buffer).returned ≡ some true
      → GoesOn rounds turns
      → GoesOn (r ∷ rounds) (command_shell r.conn r.writes buffer ∷ turns)

command_loop-GoesOn :
    (rounds later : List Round) (turns : List ShellTurn)
    → GoesOn rounds turns
    → command_loop (rounds ++ later) ≡ (turns ++ (command_loop later).0, (command_loop later).1)
unfolding command_loop command_shell
command_loop-GoesOn _ later _ start = refl
command_loop-GoesOn _ later _ (round r buffer rounds turns keeps typed stays more) =
    let rest = command_loop-GoesOn rounds later turns more in
    rw (keeps, typed, stays) (ap (λ l. (command_shell r.conn r.writes buffer ∷ l.0, l.1)) rest)

command_loop_quit :
    (r : Round) (later : List Round) (buffer : List ℕ)
    → r.keep_running ≡ true
    → r.input ≡ some buffer
    → command_shell r.conn r.writes buffer ≡ says false user_quit
    → command_loop (r ∷ later) ≡ (says false user_quit ∷ [], finished)
unfolding command_loop
command_loop_quit r later buffer keeps typed quits = simp (keeps, typed, quits)

command_shell_quit :
    (conn : Client) (writes : List WriteResult) (blank command rest : List ℕ)
    → IsBlank blank
    → IsWord command
    → IsBreak rest
    → string_to_lower command ≡ quit_command
    → command_shell conn writes (blank ++ (command ++ rest)) ≡ says false user_quit
unfolding run_command
command_shell_quit conn writes blank command rest b i k quits =
    rw (command_shell-command conn writes blank command rest b i k, quits) refl

module _ (reading writing : ℕ) (fd : Option ℕ) (rounds later : List Round) (turns : List ShellTurn)
    (g : GoesOn rounds turns) (r : Round) (keeps : r.keep_running ≡ true) where
  -- A line whose first word is `/quit`, in any spelling, ends the loop, whatever the lines before
  -- it did: if the pipe takes the signal and the thread ends on it, the pipe and an open socket are
  -- closed, and no more lines are read.
  pub run_messaging_loop_quit :
      (blank command rest : List ℕ)
      → IsBlank blank
      → IsWord command
      → IsBreak rest
      → string_to_lower command ≡ quit_command
      → r.input ≡ some (blank ++ (command ++ rest))
      → run_messaging_loop (some (reading, writing)) fd (rounds ++ (r ∷ later)) joined ≡ (
        turns ++ (says false user_quit ∷ []),
        says_goodbye (reading ∷ writing ∷ elim fd [ none ↦ [] | some fd ↦ fd ∷ [] ]),
      )
  unfolding run_messaging_loop after_loop
  run_messaging_loop_quit blank command rest b i k quits typed =
      rw
        (
          command_loop-GoesOn rounds (r ∷ later) turns g,
          command_loop_quit r later (blank ++ (command ++ rest)) keeps typed
              (command_shell_quit r.conn r.writes blank command rest b i k quits),
        )
        refl
