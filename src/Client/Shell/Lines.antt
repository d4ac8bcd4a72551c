-- ===== src/Client/Shell/Lines.antt =====
-- What the command line does with a line that is written out in its words.
use tcp_chat_server.Prelude.{
  ◌≡◌, ◌≢◌, ◌∙◌, sym, refl, ap, ℕ, some, List, [], ◌∷◌, ◌++◌, append-nil, take, take_all, true,
  false, pos, arith,
}
use tcp_chat_server.Protocol.Request.{Request}
use tcp_chat_server.Protocol.Buffers.{IsBuffered}
use tcp_chat_server.Protocol.Transport.{WriteResult, write_one_message}
use tcp_chat_server.Protocol.Transport.Chunks.{Takes, write_one_message-chunks}
use tcp_chat_server.Flags.{has_flag, is_auth}
use tcp_chat_server.Database.{string_to_lower}
use tcp_chat_server.Client.{Client}
use tcp_chat_server.Client.Words.{skip_spaces, line}
use tcp_chat_server.Client.Words.Laws.{
  IsBlank, IsWord, IsBreak, IsVisible, IsLine, extract-word, skip_spaces-append, line_whole,
}
use tcp_chat_server.Client.Shell.{
  after_request, send_request, is_nil, handle_client_registration, handle_client_login,
  handle_world_message, handle_peer_message, shell_p2p, shell_world, shell_login, shell_register,
  run_command, command_shell,
}

-- White space between two words.
pub record IsGap (gap : List ℕ) : Type 0 where
  pub blank : IsBlank gap
  pub some_space : gap ≢ []

pub gap-IsBreak : (gap rest : List ℕ) → IsGap gap → IsBreak (gap ++ rest)
gap-IsBreak [] rest g = absurd (g.some_space refl)
gap-IsBreak (c ∷ cs) rest g = g.blank.0

is_nil-word : (w : List ℕ) → IsWord w → is_nil w ≡ false
is_nil-word [] i = absurd (i.some_byte refl)
is_nil-word (c ∷ cs) i = refl

-- A request that is taken whole by the socket.
pub send_request-whole :
    (r : Request) (results : List WriteResult)
    → IsBuffered r
    → Takes results r.bytes
    → send_request (some r) results ≡ (some (pos 0), r.bytes)
unfolding send_request
send_request-whole r results fits all_taken =
    let whole : take r.message_len r.bytes ≡ r.bytes =
      take_all r.message_len r.bytes (omega (arith, fits.counted)) in
    let wrote : write_one_message results r.bytes r.message_len
        ≡ (some (pos r.message_len), r.bytes) =
      ap (λ rs. write_one_message rs r.bytes r.message_len) (sym (append-nil results))
      ∙ write_one_message-chunks results [] r.bytes r.message_len (omega (arith, fits.counted))
          (omega (arith, fits.counted, fits.in_buffer)) (rw whole all_taken)
      ∙ ap (λ b. (some (pos r.message_len), b)) whole in
    rw wrote refl

module _ (conn : Client) (results : List WriteResult) where
  -- The command is the first word, in lower case.
  pub command_shell-command :
      (blank command ss : List ℕ)
      → IsBlank blank
      → IsWord command
      → IsBreak ss
      → command_shell conn results (blank ++ (command ++ ss))
        ≡ run_command conn results (string_to_lower command) ss
  unfolding command_shell
  command_shell-command blank command ss b i k =
      rw (extract-word blank command ss b i k, is_nil-word command i) refl

  module _ (gap first gap' second rest : List ℕ) (g : IsGap gap) (i : IsWord first)
      (g' : IsGap gap') (j : IsWord second) (k : IsBreak rest) where
    pub shell_login-words :
        has_flag conn.flags is_auth ≡ false
        → shell_login conn results (gap ++ (first ++ (gap' ++ (second ++ rest))))
          ≡ after_request (handle_client_login first second results)
    unfolding shell_login
    shell_login-words guest =
        rw
          (
            guest,
            extract-word gap first (gap' ++ (second ++ rest)) g.blank i (gap-IsBreak gap' _ g'),
            extract-word gap' second rest g'.blank j k,
            is_nil-word first i,
            is_nil-word second j,
          )
          refl

    shell_register-words :
        has_flag conn.flags is_auth ≡ false
        → shell_register conn results (gap ++ (first ++ (gap' ++ (second ++ rest))))
          ≡ after_request (handle_client_registration first second results)
    unfolding shell_register
    shell_register-words guest =
        rw
          (
            guest,
            extract-word gap first (gap' ++ (second ++ rest)) g.blank i (gap-IsBreak gap' _ g'),
            extract-word gap' second rest g'.blank j k,
            is_nil-word first i,
            is_nil-word second j,
          )
          refl

  -- The rest of the line from its first visible byte on is the message.
  message-rest :
      (gap message : List ℕ)
      → IsBlank gap
      → IsVisible message
      → IsLine message
      → line (skip_spaces (gap ++ message)) ≡ message
  message-rest gap message b v l =
      ap line (skip_spaces-append gap message b v) ∙ line_whole message l

  is_nil-visible : (message : List ℕ) → IsVisible message → is_nil message ≡ false
  is_nil-visible [] v = absurd v
  is_nil-visible (c ∷ cs) v = refl

  pub shell_world-words :
      (gap message : List ℕ)
      → IsBlank gap
      → IsVisible message
      → IsLine message
      → has_flag conn.flags is_auth ≡ true
      → shell_world conn results (gap ++ message)
        ≡ after_request (handle_world_message conn message results)
  unfolding shell_world
  shell_world-words gap message b v l auth =
      rw (auth, message-rest gap message b v l, is_nil-visible message v) refl

  pub shell_p2p-words :
      (gap recipient gap' message : List ℕ)
      → IsGap gap
      → IsWord recipient
      → IsGap gap'
      → IsVisible message
      → IsLine message
      → has_flag conn.flags is_auth ≡ true
      → shell_p2p conn results (gap ++ (recipient ++ (gap' ++ message)))
        ≡ after_request (handle_peer_message conn recipient message results)
  unfolding shell_p2p
  shell_p2p-words gap recipient gap' message g i g' v l auth =
      rw
        (
          auth,
          extract-word gap recipient (gap' ++ message) g.blank i (gap-IsBreak gap' _ g'),
          message-rest gap' message g'.blank v l,
          is_nil-word recipient i,
          is_nil-visible message v,
        )
        refl
