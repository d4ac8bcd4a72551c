-- ===== src/Client/Threads.antt =====
-- The two threads of the client in src/client_utils.cpp: `socket_thread_handler`, which handles the
-- server's messages, and `run_messaging_loop`, which runs the command line.
pub mod Stream
pub mod Endings
use tcp_chat_server.Prelude.{ℕ, Option, none, some, List, [], ◌∷◌, Bool, true, false, if◌then◌else◌}
use tcp_chat_server.Protocol.Types.{Message}
use tcp_chat_server.Protocol.Transport.{
  ReadResult, WriteResult, ReadMessage, read_message, read_error, read_blocks, read_one_message,
}
use tcp_chat_server.Client.{Client, Notice, handle_server_response}
use tcp_chat_server.Client.Shell.{ShellTurn, command_shell}

-- `message_t response{}` with a payload buffer.
abbrev pub empty_message : Message
empty_message = record { payload_length = 0; version = 0; type = 0; rc = 0; payload = some [] }

-- What the whole of `handle_server_response` comes to: `true`, with what the user sees, the client
-- afterwards and the calls of `read` that are left; `false`; or a call of `read` does not return.
pub data Received : Type 0 where
  handled : Notice → Client → List ReadResult → Received
  lost : Received
  waits : Received

unfoldable pub after_read : Client → ReadMessage → Received
after_read client (read_message response more) =
    let (notice, client) = handle_server_response response client in handled notice client more
after_read client read_error = lost
after_read client read_blocks = waits

unfoldable pub receive_response : List ReadResult → Client → Received
unfolding after_read
receive_response results client = after_read client (read_one_message results empty_message)

-- What one call of `poll` returns: -1, or whether the pipe is readable, and whether the socket is
-- readable or has an error.
pub data Poll : Type 0 where
  poll_failed : Poll
  ready : Bool → Bool → Poll

-- How the thread stands after these calls: it has left its loop, or waits in `poll` or in `read`.
pub data ThreadState : Type 0 where
  left_loop in_poll in_read : ThreadState

pub record Thread : Type 0 where
  pub notices : List Notice
  pub client : Client
  pub state : ThreadState

abbrev pub sees : Notice → Thread → Thread
sees notice t = record t { notices = notice ∷ t.notices }

-- `while (true)` over the results of `poll`.
unfoldable pub socket_thread_handler : List Poll → List ReadResult → Client → Thread
socket_thread_handler [] results client = record { notices = []; client = client; state = in_poll }
socket_thread_handler (poll_failed ∷ polls) results client = record {
  notices = [];
  client = client;
  state = left_loop;
}
socket_thread_handler (ready true socket ∷ polls) results client = record {
  notices = [];
  client = client;
  state = left_loop;
}
socket_thread_handler (ready false false ∷ polls) results client =
    socket_thread_handler polls results client
socket_thread_handler (ready false true ∷ polls) results client =
    elim (receive_response results client) [
      | handled notice client' more ↦ sees notice (socket_thread_handler polls more client')
      | lost ↦ record { notices = []; client = client; state = left_loop }
      | waits ↦ record { notices = []; client = client; state = in_read }
    ]

-- One round of the command loop: `g_keep_running` as it is read then, the connection as the other
-- thread has left it, what `std::getline` gives (`none` at an end of file or an error), and what
-- `write` returns.
pub record Round : Type 0 where
  pub keep_running : Bool
  pub conn : Client
  pub input : Option (List ℕ)
  pub writes : List WriteResult

-- How the command loop is left: by `break` or its condition; by `return` in it; or it waits for
-- input, or in `write`.
pub data LoopEnd : Type 0 where
  finished returned waiting : LoopEnd

unfoldable pub command_loop : List Round → List ShellTurn × LoopEnd
command_loop [] = ([], waiting)
command_loop (round ∷ rounds) =
    let rest = command_loop rounds in
    if round.keep_running
    then elim round.input [
      | none ↦ ([], returned)
      | some buffer ↦
          let turn = command_shell round.conn round.writes buffer in
          elim turn.returned [
            | none ↦ (turn ∷ [], waiting)
            | some true ↦ (let (turns, ending) = rest in (turn ∷ turns, ending))
            | some false ↦ (turn ∷ [], finished)
          ]
    ]
    else ([], finished)

-- How `run_messaging_loop` ends. It returns at once if there is no pipe. Once the thread runs, a
-- `return` without `join` destroys a thread that can be joined, which is `std::terminate`. The last
-- way is the intended one: the thread is joined, and the pipe and an open socket are closed.
pub data Ending : Type 0 where
  no_pipe terminates still_running : Ending
  says_goodbye : List ℕ → Ending

-- What comes of the signal to the thread: the pipe does not take it; the thread does not end, since
-- it waits in `read` for the rest of a message; or it ends and is joined.
pub data Signal : Type 0 where
  unsent unanswered joined : Signal

-- `fd` is the connection's descriptor, if it is not -1, and `pipe_fds` are those of the pipe, if it
-- can be made.
unfoldable pub after_loop : Option ℕ → ℕ × ℕ → Signal → LoopEnd → Ending
after_loop fd pipe_fds signal waiting = still_running
after_loop fd pipe_fds signal returned = terminates
after_loop fd pipe_fds unsent finished = terminates
after_loop fd pipe_fds unanswered finished = still_running
after_loop fd (reading, writing) joined finished =
    says_goodbye (reading ∷ writing ∷ elim fd [ none ↦ [] | some fd ↦ fd ∷ [] ])

unfoldable pub run_messaging_loop :
    Option (ℕ × ℕ) → Option ℕ → List Round → Signal → List ShellTurn × Ending
unfolding command_loop after_loop
run_messaging_loop none fd rounds signal = ([], no_pipe)
run_messaging_loop (some pipe_fds) fd rounds signal =
    let (turns, ending) = command_loop rounds in (turns, after_loop fd pipe_fds signal ending)
