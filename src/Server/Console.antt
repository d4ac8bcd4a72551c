-- ===== src/Server/Console.antt =====
-- The server's console: `handle_server_input` and the counts of `log_server_metrics` of
-- src/server_utils.cpp.
pub mod Metrics
use tcp_chat_server.Prelude.{
  ℕ, ◌+◌, Option, none, some, List, [], ◌∷◌, ◌++◌, Bool, true, false, not, ◌||◌, ◌==◌,
  if◌then◌else◌, bytes_eq, ℤ, pos, negsuc,
}
use tcp_chat_server.Flags.{ConnFlags, has_flag, is_active, is_auth}
use tcp_chat_server.Server.Table.{ConnectionManager}
use tcp_chat_server.Database.{c_str}

-- `num_connected` and `num_auth`.
pub record Counts : Type 0 where
  pub num_connected : ℕ
  pub num_auth : ℕ

unfoldable pub count_connections : List ConnFlags → Counts → Counts
count_connections [] c = c
count_connections (conn ∷ rest) c = count_connections rest (
    if not (has_flag conn is_active)
    then c
    else if not (has_flag conn is_auth)
    then record c { num_connected = c.num_connected + 1 }
    else record { num_connected = c.num_connected + 1; num_auth = c.num_auth + 1 })

-- The two counts that `log_server_metrics` prints.
unfoldable pub log_server_metrics : ConnectionManager → Counts
log_server_metrics manager =
    count_connections manager.flags (record { num_connected = 0; num_auth = 0 })

-- `command_buffer.back() == '\n'`.
unfoldable pub ends_line : List ℕ → Bool
ends_line [] = false
ends_line (c ∷ []) = c == 10
ends_line (c ∷ d ∷ cs) = ends_line (d ∷ cs)

unfoldable pub drop_last : List ℕ → List ℕ
drop_last [] = []
drop_last (c ∷ []) = []
drop_last (c ∷ d ∷ cs) = c ∷ drop_last (d ∷ cs)

-- The loop over the chunks that `read` returns before it would block, fails or ends: the buffer is
-- a C string, so each chunk counts up to its first zero byte.
unfoldable pub read_command : List (List ℕ) → List ℕ → Bool → List ℕ × Bool
read_command [] command_buffer input_complete = (command_buffer, input_complete)
read_command (chunk ∷ chunks) command_buffer input_complete =
    let buffer = command_buffer ++ c_str chunk in
    read_command chunks buffer (input_complete || ends_line buffer)

-- "/metrics".
abbrev pub metrics_command : List ℕ
metrics_command = 47 ∷ 109 ∷ 101 ∷ 116 ∷ 114 ∷ 105 ∷ 99 ∷ 115 ∷ []

-- The return value, and the counts if they are logged.
unfoldable pub handle_server_input : List (List ℕ) → ConnectionManager → ℤ × Option Counts
handle_server_input chunks manager =
    let (buffer, input_complete) = read_command chunks [] false in
    if not input_complete
    then (negsuc 0, none)
    else (let command = (if ends_line buffer then drop_last buffer else buffer) in
        if bytes_eq command metrics_command
        then (pos 0, some (log_server_metrics manager))
        else (negsuc 0, none))
