-- ===== src/Server/Table/Layout.antt =====
-- The shape of the connection table, and what its operations keep of it.
use tcp_chat_server.Prelude.{
  ℕ, ◌≡◌, refl, ◌∙◌, sym, List, Bool, true, false, ◌==◌, ◌&&◌, ltb, if◌then◌else◌, length,
  length-set, get_or-set, Bool-cases, inl, inr, arith, IsByte,
}
use tcp_chat_server.Flags.{
  ConnFlags, no_flags, has_flag, is_active, to_reading, to_writing, to_closing,
}
use tcp_chat_server.Flags.Laws.{to_reading-Flags, to_writing-Flags, to_closing-Flags}
use tcp_chat_server.Server.Table.{
  Table, flags_of, set_flags, set_incoming, set_outgoing, call_epoll, ConnState, reading, writing,
  closing, set_connection_state, remove_connection, EpollCtl,
}

-- A slot's mask is in range, and a slot that is not active has no flag at all.
pub record IsSlot (f : ConnFlags) : Type 0 where
  pub in_range : IsByte f
  pub idle : has_flag f is_active ≡ false → f ≡ 0

-- The five arrays have one length, and every slot's mask is well formed.
pub record IsTable (t : Table) : Type 0 where
  pub incoming_size : length t.conns.incoming_buffers ≡ length t.conns.flags
  pub outgoing_size : length t.conns.outgoing_buffers ≡ length t.conns.flags
  pub user_ids_size : length t.conns.user_ids ≡ length t.conns.flags
  pub usernames_size : length t.conns.usernames ≡ length t.conns.flags
  pub slot : (i : ℕ) → IsSlot (flags_of t i)

-- An active mask in range is well formed.
active-IsSlot : (f : ConnFlags) → IsByte f → has_flag f is_active ≡ true → IsSlot f
active-IsSlot f small active = record { in_range = small; idle = λ idle. cc }

pub no_flags-IsSlot : IsSlot no_flags
no_flags-IsSlot = record { in_range = omega arith; idle = λ _. refl }

pub set_flags-IsTable :
    (t : Table) (i : ℕ) (f : ConnFlags) → IsTable t → IsSlot f → IsTable (set_flags t i f)
set_flags-IsTable t i f v s = record {
  incoming_size = v.incoming_size ∙ sym (length-set t.conns.flags i f);
  outgoing_size = v.outgoing_size ∙ sym (length-set t.conns.flags i f);
  user_ids_size = v.user_ids_size ∙ sym (length-set t.conns.flags i f);
  usernames_size = v.usernames_size ∙ sym (length-set t.conns.flags i f);
  slot = λ j.
      rw (get_or-set t.conns.flags i j f no_flags)
        (slot_if (i == j && ltb i (length t.conns.flags)) f (flags_of t j) s (v.slot j));
}
  where
    slot_if : (b : Bool) (f g : ConnFlags) → IsSlot f → IsSlot g → IsSlot (if b then f else g)
    slot_if true f g s s' = s
    slot_if false f g s s' = s'

set_incoming-IsTable : (t : Table) (i : ℕ) (b : List ℕ) → IsTable t → IsTable (set_incoming t i b)
set_incoming-IsTable t i b v = record {
  incoming_size = length-set t.conns.incoming_buffers i b ∙ v.incoming_size;
  outgoing_size = v.outgoing_size;
  user_ids_size = v.user_ids_size;
  usernames_size = v.usernames_size;
  slot = v.slot;
}

set_outgoing-IsTable : (t : Table) (i : ℕ) (b : List ℕ) → IsTable t → IsTable (set_outgoing t i b)
set_outgoing-IsTable t i b v = record {
  incoming_size = v.incoming_size;
  outgoing_size = length-set t.conns.outgoing_buffers i b ∙ v.outgoing_size;
  user_ids_size = v.user_ids_size;
  usernames_size = v.usernames_size;
  slot = v.slot;
}

call_epoll-IsTable : (t : Table) (c : EpollCtl) → IsTable t → IsTable (call_epoll t c)
call_epoll-IsTable t c v = record {
  incoming_size = v.incoming_size;
  outgoing_size = v.outgoing_size;
  user_ids_size = v.user_ids_size;
  usernames_size = v.usernames_size;
  slot = v.slot;
}

-- From one table to another, no connection is opened or closed, and the table stays well formed.
pub record Evolves (t t' : Table) : Type 0 where
  pub valid : IsTable t'
  pub actives : (i : ℕ) → has_flag (flags_of t' i) is_active ≡ has_flag (flags_of t i) is_active
  pub size : length t'.conns.flags ≡ length t.conns.flags

pub Evolves-refl : (t : Table) → IsTable t → Evolves t t
Evolves-refl t v = record { valid = v; actives = λ i. refl; size = refl }

pub Evolves-trans : (t u w : Table) → Evolves t u → Evolves u w → Evolves t w
Evolves-trans t u w e f = record {
  valid = f.valid;
  actives = λ i. f.actives i ∙ e.actives i;
  size = f.size ∙ e.size;
}

module _ (t : Table) (v : IsTable t) where
  pub set_incoming-Evolves : (i : ℕ) (b : List ℕ) → Evolves t (set_incoming t i b)
  set_incoming-Evolves i b = record {
    valid = set_incoming-IsTable t i b v;
    actives = λ j. refl;
    size = refl;
  }

  pub set_outgoing-Evolves : (i : ℕ) (b : List ℕ) → Evolves t (set_outgoing t i b)
  set_outgoing-Evolves i b = record {
    valid = set_outgoing-IsTable t i b v;
    actives = λ j. refl;
    size = refl;
  }

  call_epoll-Evolves : (c : EpollCtl) → Evolves t (call_epoll t c)
  call_epoll-Evolves c = record {
    valid = call_epoll-IsTable t c v;
    actives = λ j. refl;
    size = refl;
  }

  -- A slot that is active keeps its flag when it gets another mask that is active.
  pub set_flags-Evolves :
      (i : ℕ) (f : ConnFlags)
      → IsByte f
      → has_flag f is_active ≡ true
      → has_flag (flags_of t i) is_active ≡ true
      → Evolves t (set_flags t i f)
  set_flags-Evolves i f small active was = record {
    valid = set_flags-IsTable t i f v (active-IsSlot f small active);
    actives = λ j. ground (arith, get_or-set t.conns.flags i j f no_flags);
    size = length-set t.conns.flags i f;
  }

  pub set_connection_state-Evolves :
      (i : ℕ) (next : ConnState)
      → has_flag (flags_of t i) is_active ≡ true
      → Evolves t (set_connection_state t i next)
  unfolding set_connection_state
  set_connection_state-Evolves i reading was =
      let l = to_reading-Flags (flags_of t i) (v.slot i).in_range in
      let e = set_flags-Evolves i (to_reading (flags_of t i)) l.fits (l.actives ∙ was) was in
      record { valid = call_epoll-IsTable _ _ e.valid; actives = e.actives; size = e.size }
  set_connection_state-Evolves i writing was =
      let l = to_writing-Flags (flags_of t i) (v.slot i).in_range in
      let e = set_flags-Evolves i (to_writing (flags_of t i)) l.fits (l.actives ∙ was) was in
      record { valid = call_epoll-IsTable _ _ e.valid; actives = e.actives; size = e.size }
  set_connection_state-Evolves i closing was =
      let l = to_closing-Flags (flags_of t i) (v.slot i).in_range in
      set_flags-Evolves i (to_closing (flags_of t i)) l.fits (l.actives ∙ was) was

  -- An authenticated or waiting slot is active, since a slot that is not has no flag.
  pub flag_active :
      (i : ℕ) (flag : ConnFlags)
      → has_flag 0 flag ≡ false
      → has_flag (flags_of t i) flag ≡ true
      → has_flag (flags_of t i) is_active ≡ true
  flag_active i flag none given = elim (Bool-cases (has_flag (flags_of t i) is_active)) [
    | inl active ↦ active
    | inr idle ↦ cc ((v.slot i).idle idle)
  ]

  -- A connection that is removed has no flag, whatever it had.
  pub remove_connection-IsTable : (i : ℕ) → IsTable (remove_connection t i)
  unfolding remove_connection
  remove_connection-IsTable i =
      call_epoll-IsTable _ _ (set_flags-IsTable t i no_flags v no_flags-IsSlot)
