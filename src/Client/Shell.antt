-- ===== src/Client/Shell.antt =====
-- The command line of the client: `command_shell` of src/client_utils.cpp, and the functions that
-- send a request.
pub mod Sends
pub mod Lines
use mathlib.Core.Option
use tcp_chat_server.Prelude.{
  ℕ, Option, none, some, List, [], ◌∷◌, Bool, true, false, ◌||◌, not, ◌==◌, if◌then◌else◌, bytes_eq,
  ℤ, pos, negsuc,
}
use tcp_chat_server.Protocol.Request.{Request}
use tcp_chat_server.Protocol.Credentials.{build_register_request, build_login_request}
use tcp_chat_server.Protocol.World.{build_world_broadcast_request}
use tcp_chat_server.Protocol.P2p.{build_p2p_broadcast_request}
use tcp_chat_server.Protocol.Transport.{WriteResult, write_one_message}
use tcp_chat_server.Flags.{has_flag, is_auth}
use tcp_chat_server.Database.{string_to_lower}
use tcp_chat_server.Client.{Client, is_minus_one}
use tcp_chat_server.Client.Words.{extract, skip_spaces, line}

-- How the four functions end: -1 if the request could not be built or written, otherwise 0; the
-- two for broadcasts return nothing, and stop early where this is -1. `none` is a call of `write`
-- that does not return. Behind it stand the bytes that the socket took.
unfoldable pub send_request : Option Request → List WriteResult → Option ℤ × List ℕ
send_request none results = (some (negsuc 0), [])
send_request (some r) results =
    let (rc, sent) = write_one_message results r.bytes r.message_len in
    (Option.map (λ code. if is_minus_one code then negsuc 0 else pos 0) rc, sent)

unfoldable pub handle_client_registration : List ℕ → List ℕ → List WriteResult → Option ℤ × List ℕ
unfolding send_request
handle_client_registration username password results =
    send_request (build_register_request (record { username = username; password = password }))
      results

unfoldable pub handle_client_login : List ℕ → List ℕ → List WriteResult → Option ℤ × List ℕ
unfolding send_request
handle_client_login username password results =
    send_request (build_login_request (record { username = username; password = password })) results

unfoldable pub handle_world_message : Client → List ℕ → List WriteResult → Option ℤ × List ℕ
unfolding send_request
handle_world_message conn message_content results =
    send_request
      (build_world_broadcast_request
        (record { sender_username = conn.user.username; message_content = message_content }))
      results

unfoldable pub handle_peer_message : Client → List ℕ → List ℕ → List WriteResult → Option ℤ × List ℕ
unfolding send_request
handle_peer_message conn recipient_username message_content results =
    send_request
      (build_p2p_broadcast_request (record {
        sender_username = conn.user.username;
        recipient_username = recipient_username;
        message_content = message_content;
      }))
      results

-- What the shell prints.
pub data Said : Type 0 where
  must_log_in usage_p2p usage_world usage_login usage_register user_quit : Said
  cannot_login cannot_register unknown_command : List ℕ → Said

-- What a call of the shell does: its return value, if the calls of `write` return; what it prints;
-- and the bytes that the socket took.
pub record ShellTurn : Type 0 where
  pub returned : Option Bool
  pub said : Option Said
  pub sent : List ℕ

abbrev pub says : Bool → Said → ShellTurn
says returned said = record { returned = some returned; said = some said; sent = [] }

abbrev pub silent : ShellTurn
silent = record { returned = some true; said = none; sent = [] }

-- The shell goes on whatever the function for the request returned.
abbrev pub after_request : Option ℤ × List ℕ → ShellTurn
after_request (rc, sent) = record { returned = Option.map (λ _. true) rc; said = none; sent = sent }

abbrev pub is_nil : List ℕ → Bool
is_nil [] = true
is_nil (c ∷ cs) = false

abbrev pub p2p_command : List ℕ
p2p_command = b'/' ∷ b'p' ∷ b'2' ∷ b'p' ∷ []

abbrev pub world_command : List ℕ
world_command = b'/' ∷ b'w' ∷ b'o' ∷ b'r' ∷ b'l' ∷ b'd' ∷ []

abbrev pub login_command : List ℕ
login_command = b'/' ∷ b'l' ∷ b'o' ∷ b'g' ∷ b'i' ∷ b'n' ∷ []

abbrev pub register_command : List ℕ
register_command = b'/' ∷ b'r' ∷ b'e' ∷ b'g' ∷ b'i' ∷ b's' ∷ b't' ∷ b'e' ∷ b'r' ∷ []

abbrev pub quit_command : List ℕ
quit_command = b'/' ∷ b'q' ∷ b'u' ∷ b'i' ∷ b't' ∷ []

module _ (conn : Client) (results : List WriteResult) where
  -- The branch for `/p2p`, on the stream behind the command.
  unfoldable pub shell_p2p : List ℕ → ShellTurn
  shell_p2p ss =
      let (recipient, ss) = extract ss in
      let message = line (skip_spaces ss) in
      if not (has_flag conn.flags is_auth)
      then says true must_log_in
      else if is_nil recipient || is_nil message
      then says true usage_p2p
      else after_request (handle_peer_message conn recipient message results)

  unfoldable pub shell_world : List ℕ → ShellTurn
  shell_world ss =
      let message = line (skip_spaces ss) in
      if not (has_flag conn.flags is_auth)
      then says true must_log_in
      else if is_nil message
      then says true usage_world
      else after_request (handle_world_message conn message results)

  unfoldable pub shell_login : List ℕ → ShellTurn
  shell_login ss =
      let (username, ss) = extract ss in
      let (password, ss) = extract ss in
      if has_flag conn.flags is_auth
      then says true (cannot_login conn.user.username)
      else if is_nil username || is_nil password
      then says true usage_login
      else after_request (handle_client_login username password results)

  unfoldable pub shell_register : List ℕ → ShellTurn
  shell_register ss =
      let (username, ss) = extract ss in
      let (password, ss) = extract ss in
      if has_flag conn.flags is_auth
      then says true (cannot_register conn.user.username)
      else if is_nil username || is_nil password
      then says true usage_register
      else after_request (handle_client_registration username password results)

  -- The chain of `command == ...`.
  unfoldable pub run_command : List ℕ → List ℕ → ShellTurn
  run_command command ss =
      if bytes_eq command p2p_command
      then shell_p2p ss
      else if bytes_eq command world_command
      then shell_world ss
      else if bytes_eq command login_command
      then shell_login ss
      else if bytes_eq command register_command
      then shell_register ss
      else if bytes_eq command quit_command
      then says false user_quit
      else says true (unknown_command command)

  unfoldable pub command_shell : List ℕ → ShellTurn
  unfolding run_command
  command_shell input_line =
      let (command, ss) = extract input_line in
      if is_nil command then silent else run_command (string_to_lower command) ss
