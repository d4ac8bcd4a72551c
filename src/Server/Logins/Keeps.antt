-- ===== src/Server/Logins/Keeps.antt =====
-- Which operations on the connection table change no session.
use tcp_chat_server.Prelude.{
  ℕ, ◌≡◌, refl, none, some, List, [], ◌∷◌, Bool, true, false, ltb, length, get_or-set,
  if◌then◌else◌, Bool-cases, inl, inr, arith,
}
use tcp_chat_server.Flags.{
  ConnFlags, has_flag, is_auth, no_flags, to_reading, to_writing, to_closing,
}
use tcp_chat_server.Flags.Laws.{to_reading-Flags, to_writing-Flags, to_closing-Flags}
use tcp_chat_server.Protocol.Message.{buf_append, buf_consume}
use tcp_chat_server.Server.Table.{
  Table, flags_of, user_id_of, username_of, set_flags, set_incoming, set_outgoing, incoming_of,
  outgoing_of, ConnState, reading, writing, closing, set_connection_state,
}
use tcp_chat_server.Server.Table.Layout.{IsTable, set_outgoing-Evolves}
use tcp_chat_server.Server.Loop.{append_chunks, write_counts}
use tcp_chat_server.Server.Logins.{Session}

-- The session of a slot.
abbrev pub session_of : Table → ℕ → Session
session_of t j =
    if has_flag (flags_of t j) is_auth then some (user_id_of t j, username_of t j) else none

pub session_eq :
    (t t' : Table) (j : ℕ)
    → has_flag (flags_of t' j) is_auth ≡ has_flag (flags_of t j) is_auth
    → user_id_of t' j ≡ user_id_of t j
    → username_of t' j ≡ username_of t j
    → session_of t' j ≡ session_of t j
session_eq t t' j auth id name = rw (auth, id, name) refl

-- Another mask with the same IS_AUTH changes no session.
set_flags-session :
    (t : Table) (i : ℕ) (f : ConnFlags) (j : ℕ)
    → has_flag f is_auth ≡ has_flag (flags_of t i) is_auth
    → session_of (set_flags t i f) j ≡ session_of t j
set_flags-session t i f j same =
    session_eq t (set_flags t i f) j (ground (arith, get_or-set t.conns.flags i j f no_flags)) refl
      refl

pub set_connection_state-session :
    (t : Table) (i : ℕ) (state : ConnState) (j : ℕ)
    → IsTable t
    → session_of (set_connection_state t i state) j ≡ session_of t j
unfolding set_connection_state
set_connection_state-session t i reading j v =
    set_flags-session t i (to_reading (flags_of t i)) j
      (to_reading-Flags (flags_of t i) (v.slot i).in_range).auths
set_connection_state-session t i writing j v =
    set_flags-session t i (to_writing (flags_of t i)) j
      (to_writing-Flags (flags_of t i) (v.slot i).in_range).auths
set_connection_state-session t i closing j v =
    set_flags-session t i (to_closing (flags_of t i)) j
      (to_closing-Flags (flags_of t i) (v.slot i).in_range).auths

pub append_chunks-session :
    (t : Table) (connfd : ℕ) (chunks : List (List ℕ)) (j : ℕ)
    → session_of (append_chunks t connfd chunks) j ≡ session_of t j
unfolding append_chunks
append_chunks-session t connfd [] j = refl
append_chunks-session t connfd (chunk ∷ chunks) j =
    append_chunks-session
      (set_incoming t connfd (buf_append (incoming_of t connfd) chunk (length chunk))) connfd chunks
      j

pub write_counts-session :
    (t : Table) (connfd : ℕ) (counts : List ℕ) (failed : Bool) (j : ℕ)
    → IsTable t
    → session_of (write_counts t connfd counts failed) j ≡ session_of t j
unfolding write_counts
write_counts-session t connfd [] false j v = refl
write_counts-session t connfd [] true j v = set_connection_state-session t connfd closing j v
write_counts-session t connfd (n ∷ counts) failed j v =
    let u = set_outgoing t connfd (buf_consume (outgoing_of t connfd) n) in
    let e = set_outgoing-Evolves t v connfd (buf_consume (outgoing_of t connfd) n) in
    elim (Bool-cases (ltb 0 (length (outgoing_of u connfd)))) [
      | inl more ↦ rw more (write_counts-session u connfd counts failed j e.valid)
      | inr empty ↦ rw empty (set_connection_state-session u connfd reading j e.valid)
    ]
