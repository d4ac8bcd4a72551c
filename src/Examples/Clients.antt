-- ===== src/Examples/Clients.antt =====
-- A connection table with two clients, alice and bob, and one connection that has not logged in.
use tcp_chat_server.Prelude.{
  ℕ, zero, suc, ◌≡◌, refl, List, [], ◌∷◌, arith, get_or, All, true, IsByte,
}
use tcp_chat_server.Flags.{ConnFlags, no_flags, has_flag, is_active}
use tcp_chat_server.Server.Table.{Table}
use tcp_chat_server.Server.Table.Layout.{IsSlot, IsTable}
use tcp_chat_server.Examples.Wire.{alice, bob, hi}

-- Slot 0 is closed, 1 is alice's, 2 is bob's, and 3 is a guest's. Bob's waits to write, the others
-- read.
abbrev pub two_clients : Table
two_clients = record {
  conns = record {
    flags = 0 ∷ 25 ∷ 26 ∷ 9 ∷ [];
    incoming_buffers = [] ∷ [] ∷ [] ∷ [] ∷ [];
    outgoing_buffers = [] ∷ [] ∷ hi ∷ [] ∷ [];
    user_ids = 0 ∷ 1 ∷ 2 ∷ 0 ∷ [];
    usernames = [] ∷ alice ∷ bob ∷ [] ∷ [];
  };
  epoll = [];
}

IsSlot-of : (fs : List ConnFlags) (i : ℕ) → All IsSlot fs → IsSlot (get_or fs i no_flags)
IsSlot-of [] i all = record { in_range = omega arith; idle = λ _. refl }
IsSlot-of (f ∷ fs) zero (s, all) = s
IsSlot-of (f ∷ fs) (suc i) (s, all) = IsSlot-of fs i all

client : (f : ConnFlags) → IsByte f → has_flag f is_active ≡ true → IsSlot f
client f small active = record { in_range = small; idle = λ idle. cc }

pub two_clients-IsTable : IsTable two_clients
unfolding has_flag
two_clients-IsTable = record {
  incoming_size = refl;
  outgoing_size = refl;
  user_ids_size = refl;
  usernames_size = refl;
  slot = λ i. IsSlot-of two_clients.conns.flags i (
    record { in_range = omega arith; idle = λ _. refl },
    (
      client 25 (omega arith) refl,
      (client 26 (omega arith) refl, (client 9 (omega arith) refl, tt)),
    ),
  );
}
