-- ===== src/Conversation/Typing.antt =====
-- What the client's `command_shell` sends when a login is typed.
use tcp_chat_server.Prelude.{◌≡◌, ◌∙◌, ap, ℕ, none, some, List, ◌++◌, true, false, pos}
use tcp_chat_server.Protocol.Types.{Credentials}
use tcp_chat_server.Protocol.Request.{Request}
use tcp_chat_server.Protocol.Credentials.{build_login_request}
use tcp_chat_server.Protocol.Transport.{WriteResult}
use tcp_chat_server.Protocol.Transport.Chunks.{Takes}
use tcp_chat_server.Flags.{has_flag, is_auth}
use tcp_chat_server.Database.{string_to_lower}
use tcp_chat_server.Protocol.Buffers.{credentials, Built-IsBuffered}
use tcp_chat_server.Client.{Client}
use tcp_chat_server.Client.Words.Laws.{IsBlank, IsWord, IsBreak}
use tcp_chat_server.Client.Shell.{
  command_shell, run_command, login_command, handle_client_login, send_request, after_request,
}
use tcp_chat_server.Client.Shell.Lines.{
  IsGap, gap-IsBreak, send_request-whole, command_shell-command, shell_login-words,
}

-- A line that starts with the word `/login`, in any spelling, then a username and a password.
pub record IsLoginLine (input_line username password : List ℕ) : Type 0 where
  pub blank : List ℕ
  pub command : List ℕ
  pub gap : List ℕ
  pub gap' : List ℕ
  pub rest : List ℕ
  pub leading : IsBlank blank
  pub first : IsWord command
  pub login : string_to_lower command ≡ login_command
  pub second : IsGap gap
  pub third : IsWord username
  pub fourth : IsGap gap'
  pub fifth : IsWord password
  pub behind : IsBreak rest
  pub written :
      input_line ≡ blank ++ (command ++ (gap ++ (username ++ (gap' ++ (password ++ rest)))))

-- A client that is not logged in sends the login request that was typed.
pub command_shell-login :
    (conn : Client) (results : List WriteResult) (input_line : List ℕ) (c : Credentials)
    (r : Request)
    → IsLoginLine input_line c.username c.password
    → has_flag conn.flags is_auth ≡ false
    → build_login_request c ≡ some r
    → Takes results r.bytes
    → command_shell conn results input_line
      ≡ record { returned = some true; said = none; sent = r.bytes }
unfolding run_command
command_shell-login conn results input_line c r l guest built all_taken =
    let fits = Built-IsBuffered r (credentials c built) in
    let sent : handle_client_login c.username c.password results ≡ (some (pos 0), r.bytes) =
      unfold handle_client_login in
      (ap (λ o. send_request o results) built ∙ send_request-whole r results fits all_taken) in
    let words = l.gap ++ (c.username ++ (l.gap' ++ (c.password ++ l.rest))) in
    ap (λ i. command_shell conn results i) l.written
    ∙ command_shell-command conn results l.blank l.command words l.leading l.first
        (gap-IsBreak l.gap (c.username ++ (l.gap' ++ (c.password ++ l.rest))) l.second)
    ∙ ap (λ w. run_command conn results w words) l.login
    ∙ shell_login-words conn results l.gap c.username l.gap' c.password l.rest l.second l.third
        l.fourth l.fifth l.behind guest
    ∙ ap after_request sent
