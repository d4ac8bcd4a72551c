-- ===== src/Server/Table/States.antt =====
-- The states of a connection as `set_connection_state` of src/server_utils.cpp sets them.
use tcp_chat_server.Prelude.{
  ℕ, ◌<◌, ◌≡◌, ◌∙◌, refl, sym, true, false, ◌==◌, length, get_or-set, get_or-set_self, IsByte,
}
use mathlib.Core.Path.{subst}
use tcp_chat_server.Flags.{
  ConnFlags, no_flags, has_flag, want_read, want_write, want_close, is_active, is_auth, to_reading,
  to_writing, to_closing,
}
use tcp_chat_server.Flags.Laws.{Flags, to_reading-Flags, to_writing-Flags, to_closing-Flags}
use tcp_chat_server.Server.Table.{
  Table, flags_of, set_flags, ConnState, reading, writing, closing, set_connection_state,
}

-- The flags of a connection that enters a state, from the mask that it had.
abbrev pub Enters : ConnState → ConnFlags → ConnFlags → Type 0
Enters reading f g =
    Flags g true false (has_flag f want_close) (has_flag f is_active) (has_flag f is_auth)
Enters writing f g =
    Flags g false true (has_flag f want_close) (has_flag f is_active) (has_flag f is_auth)
Enters closing f g =
    Flags g (has_flag f want_read) (has_flag f want_write) true (has_flag f is_active)
      (has_flag f is_auth)

module _ (t : Table) (i : ℕ) (inside : i < length t.conns.flags)
    (fits : IsByte (flags_of t i)) where
  entered :
      (next : ConnState) (f : ConnFlags)
      → Enters next (flags_of t i) f
      → Enters next (flags_of t i) (flags_of (set_flags t i f) i)
  entered reading f e =
      subst (Enters reading (flags_of t i))
        (sym (get_or-set_self t.conns.flags i f no_flags inside)) e
  entered writing f e =
      subst (Enters writing (flags_of t i))
        (sym (get_or-set_self t.conns.flags i f no_flags inside)) e
  entered closing f e =
      subst (Enters closing (flags_of t i))
        (sym (get_or-set_self t.conns.flags i f no_flags inside)) e

  -- A connection that goes over to reading wants to read and not to write, one that goes over to
  -- writing wants to write and not to read, and one that goes over to closing wants to be closed; in
  -- each case its other flags are as they were, and so are the flags of all other slots. The slot is
  -- in the table and its mask has eight bits.
  pub set_connection_state-Enters :
      (next : ConnState)
      → Enters next (flags_of t i) (flags_of (set_connection_state t i next) i)
        × ((j : ℕ) → (i == j) ≡ false → flags_of (set_connection_state t i next) j ≡ flags_of t j)
  unfolding set_connection_state
  set_connection_state-Enters reading = (
    entered reading (to_reading (flags_of t i)) (to_reading-Flags (flags_of t i) fits),
    λ j other. get_or-set t.conns.flags i j (to_reading (flags_of t i)) no_flags ∙ rw other refl,
  )
  set_connection_state-Enters writing = (
    entered writing (to_writing (flags_of t i)) (to_writing-Flags (flags_of t i) fits),
    λ j other. get_or-set t.conns.flags i j (to_writing (flags_of t i)) no_flags ∙ rw other refl,
  )
  set_connection_state-Enters closing = (
    entered closing (to_closing (flags_of t i)) (to_closing-Flags (flags_of t i) fits),
    λ j other. get_or-set t.conns.flags i j (to_closing (flags_of t i)) no_flags ∙ rw other refl,
  )
