-- ===== src/Client/Shell/Sends.antt =====
-- What the command line sends, whatever is typed.
use tcp_chat_server.Prelude.{
  length, ◌≡◌, ◌∙◌, sym, refl, ap, ℕ, Option, none, some, List, [], ◌∷◌, ◌++◌, append_assoc, take,
  drop, take-append-drop, ltb, Bool, true, false, not, if◌then◌else◌, Bool-cases, inl, inr,
}
use tcp_chat_server.Protocol.Types.{Credentials}
use tcp_chat_server.Protocol.Request.{Request}
use tcp_chat_server.Protocol.Credentials.{build_register_request, build_login_request}
use tcp_chat_server.Protocol.World.{build_world_broadcast_request}
use tcp_chat_server.Protocol.P2p.{build_p2p_broadcast_request}
use tcp_chat_server.Protocol.Transport.{
  WriteResult, took, write_interrupted, write_failed, Sending, sent_all, sending_failed,
  sending_blocks, write_bytes, after_writing, write_one_message,
}
use tcp_chat_server.Flags.{has_flag, is_auth}
use tcp_chat_server.Database.{string_to_lower}
use tcp_chat_server.Client.{Client}
use tcp_chat_server.Client.Words.{extract}
use tcp_chat_server.Client.Shell.{
  ShellTurn, says, silent, Said, after_request, send_request, is_nil, handle_client_registration,
  handle_client_login, handle_world_message, handle_peer_message, shell_p2p, shell_world,
  shell_login, shell_register, run_command, command_shell,
}

abbrev sent_bytes : Sending → List ℕ
sent_bytes (sent_all done) = done
sent_bytes (sending_failed done) = done
sent_bytes (sending_blocks done) = done

-- The bytes are a beginning of the others.
pub record Begins (start whole : List ℕ) : Type 0 where
  pub rest : List ℕ
  pub joined : start ++ rest ≡ whole

write_bytes-Begins :
    (results : List WriteResult) (left done : List ℕ)
    → Begins (sent_bytes (write_bytes results left done)) (done ++ left)
unfolding write_bytes
write_bytes-Begins [] [] done = record { rest = []; joined = refl }
write_bytes-Begins (r ∷ results) [] done = record { rest = []; joined = refl }
write_bytes-Begins [] (b ∷ left) done = record { rest = b ∷ left; joined = refl }
write_bytes-Begins (took n ∷ results) (b ∷ left) done = elim (Bool-cases (ltb 0 n)) [
  | inl some_taken ↦
      let later = write_bytes-Begins results (drop n (b ∷ left)) (done ++ take n (b ∷ left)) in
      rw some_taken (record {
        rest = later.rest;
        joined =
            later.joined
            ∙ append_assoc done (take n (b ∷ left)) (drop n (b ∷ left))
            ∙ ap (λ bs. done ++ bs) (take-append-drop n (b ∷ left));
      })
  | inr failed ↦ rw failed (record { rest = b ∷ left; joined = refl })
]
write_bytes-Begins (write_interrupted ∷ results) (b ∷ left) done =
    write_bytes-Begins results (b ∷ left) done
write_bytes-Begins (write_failed ∷ results) (b ∷ left) done = record {
  rest = b ∷ left;
  joined = refl;
}

outcome_bytes : (message_len : ℕ) (s : Sending) → (after_writing message_len s).1 ≡ sent_bytes s
unfolding after_writing
outcome_bytes message_len (sent_all done) = refl
outcome_bytes message_len (sending_failed done) = refl
outcome_bytes message_len (sending_blocks done) = refl

written-Begins :
    (results : List WriteResult) (bytes : List ℕ) (message_len : ℕ)
    → Begins (after_writing message_len (write_bytes results (take message_len bytes) [])).1 bytes
written-Begins results bytes message_len =
    let left = take message_len bytes in
    let b = write_bytes-Begins results left [] in
    let same = outcome_bytes message_len (write_bytes results left []) in
    record {
      rest = b.rest ++ drop message_len bytes;
      joined =
          ap (λ s. s ++ (b.rest ++ drop message_len bytes)) same
          ∙ sym (append_assoc (sent_bytes (write_bytes results left [])) b.rest _)
          ∙ ap (λ s. s ++ drop message_len bytes) b.joined
          ∙ take-append-drop message_len bytes;
    }

write_one_message-Begins :
    (results : List WriteResult) (bytes : List ℕ) (message_len : ℕ)
    → Begins (write_one_message results bytes message_len).1 bytes
unfolding write_one_message
write_one_message-Begins results bytes message_len =
    elim (Bool-cases (ltb (length bytes) message_len)) [
      | inl beyond ↦ rw beyond (record { rest = bytes; joined = refl })
      | inr inside ↦ rw inside (written-Begins results bytes message_len)
    ]

-- What a request's function has sent is a beginning of the request.
send_request-Begins :
    (r : Request) (results : List WriteResult) → Begins (send_request (some r) results).1 r.bytes
unfolding send_request
send_request-Begins r results = write_one_message-Begins results r.bytes r.message_len

-- The requests that this client may send as it is logged in or not.
pub data MaySend (conn : Client) (r : Request) : Type 0 where
  to_all :
      (message : List ℕ)
      → has_flag conn.flags is_auth ≡ true
      → build_world_broadcast_request
          (record { sender_username = conn.user.username; message_content = message })
        ≡ some r
      → MaySend conn r
  to_one :
      (recipient message : List ℕ)
      → has_flag conn.flags is_auth ≡ true
      → build_p2p_broadcast_request (record {
        sender_username = conn.user.username;
        recipient_username = recipient;
        message_content = message;
      })
        ≡ some r
      → MaySend conn r
  registration :
      (c : Credentials)
      → has_flag conn.flags is_auth ≡ false
      → build_register_request c ≡ some r
      → MaySend conn r
  credentials :
      (c : Credentials)
      → has_flag conn.flags is_auth ≡ false
      → build_login_request c ≡ some r
      → MaySend conn r

-- A turn of the shell sends nothing, or a beginning of one such request.
pub data Obeys (conn : Client) (turn : ShellTurn) : Type 0 where
  sends_nothing : turn.sent ≡ [] → Obeys conn turn
  sends : (r : Request) → MaySend conn r → Begins turn.sent r.bytes → Obeys conn turn

module _ (conn : Client) (results : List WriteResult) where
  request-Obeys :
      (o : Option Request)
      → ((r : Request) → o ≡ some r → MaySend conn r)
      → Obeys conn (after_request (send_request o results))
  unfolding send_request
  request-Obeys none may = sends_nothing refl
  request-Obeys (some r) may = sends r (may r refl) (send_request-Begins r results)

  guarded-Obeys :
      (b c : Bool) (refusal usage : Said) (o : Option Request)
      → ((r : Request) → b ≡ false → o ≡ some r → MaySend conn r)
      → Obeys conn (
          if b
          then says true refusal
          else if c
          then says true usage
          else after_request (send_request o results))
  guarded-Obeys true c refusal usage o may = sends_nothing refl
  guarded-Obeys false true refusal usage o may = sends_nothing refl
  guarded-Obeys false false refusal usage o may = request-Obeys o (λ r built. may r refl built)

  logged_in : not (has_flag conn.flags is_auth) ≡ false → has_flag conn.flags is_auth ≡ true
  logged_in h = elim (Bool-cases (has_flag conn.flags is_auth)) [
    | inl auth ↦ auth
    | inr guest ↦ (let no : true ≡ false = rw guest at h in cc)
  ]

  shell_p2p-Obeys : (ss : List ℕ) → Obeys conn (shell_p2p conn results ss)
  unfolding shell_p2p handle_peer_message
  shell_p2p-Obeys ss = guarded-Obeys _ _ _ _ _ (λ r auth built. to_one _ _ (logged_in auth) built)

  shell_world-Obeys : (ss : List ℕ) → Obeys conn (shell_world conn results ss)
  unfolding shell_world handle_world_message
  shell_world-Obeys ss = guarded-Obeys _ _ _ _ _ (λ r auth built. to_all _ (logged_in auth) built)

  shell_login-Obeys : (ss : List ℕ) → Obeys conn (shell_login conn results ss)
  unfolding shell_login handle_client_login
  shell_login-Obeys ss = guarded-Obeys _ _ _ _ _ (λ r guest built. credentials _ guest built)

  shell_register-Obeys : (ss : List ℕ) → Obeys conn (shell_register conn results ss)
  unfolding shell_register handle_client_registration
  shell_register-Obeys ss = guarded-Obeys _ _ _ _ _ (λ r guest built. registration _ guest built)

  if-Obeys :
      (b : Bool) (t u : ShellTurn) → Obeys conn t → Obeys conn u → Obeys conn (if b then t else u)
  if-Obeys true t u ot ou = ot
  if-Obeys false t u ot ou = ou

  says-Obeys : (b : Bool) (s : Said) → Obeys conn (says b s)
  says-Obeys b s = sends_nothing refl

  run_command-Obeys : (command ss : List ℕ) → Obeys conn (run_command conn results command ss)
  unfolding run_command
  run_command-Obeys command ss =
      search
        (
          if-Obeys, says-Obeys, shell_p2p-Obeys, shell_world-Obeys, shell_login-Obeys,
          shell_register-Obeys,
        )
        depth 8

  -- Whatever is typed, and whatever `write` returns: the shell sends nothing, or a beginning of one
  -- request. A client that is logged in sends only broadcasts, in its own name; a client that is not
  -- sends only registrations and logins.
  pub command_shell-Obeys :
      (input_line : List ℕ) → Obeys conn (command_shell conn results input_line)
  unfolding command_shell
  command_shell-Obeys input_line =
      if-Obeys (is_nil (extract input_line).0) silent _ (sends_nothing refl)
        (run_command-Obeys (string_to_lower (extract input_line).0) (extract input_line).1)
