-- ===== src/Server/Table/Growth.antt =====
-- The connection table grows as connections are added, and stays well formed.
use mathlib.Core.Path.{subst}
use tcp_chat_server.Prelude.{
  ℕ, zero, suc, ◌+◌, ◌-◌, ◌≤◌, ◌≡◌, refl, ◌∙◌, sym, List, [], ◌∷◌, ◌++◌, Bool, true, false, leb,
  length, get_or, replicate, resize, length-append, length-replicate, Bool-cases, inl, inr, arith,
}
use tcp_chat_server.Flags.{ConnFlags, no_flags, has_flag, is_active, want_read, flags_or}
use tcp_chat_server.Server.Table.{
  Table, grow, register_connection, create_connection_manager, default_username, EpollCtl,
}
use tcp_chat_server.Server.Table.Layout.{IsSlot, IsTable, set_flags-IsTable, no_flags-IsSlot}

length-resize {ℓ} :
    {A : Type ℓ} (xs : List A) (n : ℕ) (d : A) → length xs ≤ n → length (resize xs n d) ≡ n
length-resize xs n d h =
    omega
      (arith, length-append xs (replicate (n - length xs) d), length-replicate (n - length xs) d)

get_or-append_replicate :
    (xs : List ConnFlags) (n i : ℕ)
    → get_or (xs ++ replicate n no_flags) i no_flags ≡ get_or xs i no_flags
get_or-append_replicate [] zero i = refl
get_or-append_replicate [] (suc n) zero = refl
get_or-append_replicate [] (suc n) (suc i) = get_or-append_replicate [] n i
get_or-append_replicate (x ∷ xs) n zero = refl
get_or-append_replicate (x ∷ xs) n (suc i) = get_or-append_replicate xs n i

grow-IsTable :
    (t : Table) (fd : ℕ) (calls : List EpollCtl)
    → IsTable t
    → IsTable (record { conns = grow t.conns fd; epoll = calls })
unfolding grow
grow-IsTable t fd calls v = elim (Bool-cases (leb (length t.conns.flags) fd)) [
  | inl small ↦
      let fits : length t.conns.flags ≤ fd + 1 = ground arith in
      let sized = sym (length-resize t.conns.flags (fd + 1) no_flags fits) in
      rw small (record {
        incoming_size = length-resize t.conns.incoming_buffers (fd + 1) [] (omega arith) ∙ sized;
        outgoing_size = length-resize t.conns.outgoing_buffers (fd + 1) [] (omega arith) ∙ sized;
        user_ids_size = length-resize t.conns.user_ids (fd + 1) 0 (omega arith) ∙ sized;
        usernames_size = length-resize t.conns.usernames (fd + 1) [] (omega arith) ∙ sized;
        slot = λ i. subst IsSlot (sym (get_or-append_replicate t.conns.flags _ i)) (v.slot i);
      })
  | inr large ↦ rw large (record {
    incoming_size = v.incoming_size;
    outgoing_size = v.outgoing_size;
    user_ids_size = v.user_ids_size;
    usernames_size = v.usernames_size;
    slot = v.slot;
  })
]

opened-IsSlot : IsSlot (flags_or is_active want_read)
unfolding flags_or has_flag
opened-IsSlot = record { in_range = omega arith; idle = λ idle. cc }

-- Adding a connection, or failing to, keeps the table well formed.
pub register_connection-IsTable :
    (t : Table) (fd : ℕ) (added : Bool) → IsTable t → IsTable (register_connection t fd added)
unfolding register_connection
register_connection-IsTable t fd true v =
    set_flags-IsTable _ fd _ (grow-IsTable t fd _ v) (unfold flags_or in opened-IsSlot)
register_connection-IsTable t fd false v = v

get_or-replicate : (n i : ℕ) → get_or (replicate n no_flags) i no_flags ≡ no_flags
get_or-replicate n i = get_or-append_replicate [] n i

-- The table that the server starts with is well formed.
pub create_connection_manager-IsTable :
    (n : ℕ) → IsTable (record { conns = create_connection_manager n; epoll = [] })
unfolding create_connection_manager
create_connection_manager-IsTable n = record {
  incoming_size = length-replicate n [] ∙ sym (length-replicate n no_flags);
  outgoing_size = length-replicate n [] ∙ sym (length-replicate n no_flags);
  user_ids_size = length-replicate n 0 ∙ sym (length-replicate n no_flags);
  usernames_size = length-replicate n default_username ∙ sym (length-replicate n no_flags);
  slot = λ i. subst IsSlot (sym (get_or-replicate n i)) no_flags-IsSlot;
}
