-- ===== src/Server/Interest.antt =====
-- What epoll has been told of each connection, against the flags in the connection table of
-- src/server_utils.cpp.
pub mod Handlers
pub mod Runs
use mathlib.Core.Path.{subst}
use tcp_chat_server.Prelude.{
  ℕ, ◌≡◌, refl, ◌∙◌, ap, sym, List, [], ◌∷◌, ◌++◌, Bool, true, false, ◌==◌, ◌&&◌, ltb, ltb→le,
  if◌then◌else◌, length, get_or-set, get_or_out, Bool-cases, inl, inr, arith, IsByte,
}
use tcp_chat_server.Flags.{
  ConnFlags, no_flags, has_flag, want_read, want_write, is_active, flags_or, to_reading, to_writing,
  to_closing, to_auth,
}
use tcp_chat_server.Flags.Laws.{
  Flags, to_reading-Flags, to_writing-Flags, to_closing-Flags, to_auth-Flags,
}
use tcp_chat_server.Server.Table.{
  EpollCtl, add_in, mod_in, mod_out, del, Table, flags_of, set_flags, call_epoll, ConnState,
  reading, writing, closing, set_connection_state, remove_connection,
}

-- What epoll waits for on a descriptor.
pub data Watch : Type 0 where
  unwatched for_input for_output : Watch

unfoldable pub after_call : Watch → EpollCtl → ℕ → Watch
after_call w (add_in fd) i = if fd == i then for_input else w
after_call w (mod_in fd) i = if fd == i then for_input else w
after_call w (mod_out fd) i = if fd == i then for_output else w
after_call w (del fd) i = if fd == i then unwatched else w

-- After calls that all succeed, the oldest first.
unfoldable pub interest : List EpollCtl → Watch → ℕ → Watch
unfolding after_call
interest [] w i = w
interest (c ∷ calls) w i = interest calls (after_call w c i) i

interest-append :
    (calls : List EpollCtl) (c : EpollCtl) (w : Watch) (i : ℕ)
    → interest (calls ++ (c ∷ [])) w i ≡ after_call (interest calls w i) c i
unfolding interest
interest-append [] c w i = refl
interest-append (d ∷ calls) c w i = interest-append calls c (after_call w d i) i

-- A connection that wants to read is watched for input, and one that wants to write for output.
pub record Agrees (f : ConnFlags) (w : Watch) : Type 0 where
  pub in_range : IsByte f
  pub reads : has_flag f want_read ≡ true → w ≡ for_input
  pub writes : has_flag f want_write ≡ true → w ≡ for_output

abbrev pub IsWatched : Table → Type 0
IsWatched t = (i : ℕ) → Agrees (flags_of t i) (interest t.epoll unwatched i)

pub no_flags-Agrees : (w : Watch) → Agrees no_flags w
unfolding has_flag
no_flags-Agrees w = record { in_range = omega arith; reads = λ e. cc; writes = λ e. cc }

-- A mask that wants no more than another one.
keeps-Agrees :
    (f g : ConnFlags) (w : Watch)
    → IsByte g
    → has_flag g want_read ≡ has_flag f want_read
    → has_flag g want_write ≡ has_flag f want_write
    → Agrees f w
    → Agrees g w
keeps-Agrees f g w small r o a = record {
  in_range = small;
  reads = λ e. a.reads (cc);
  writes = λ e. a.writes (cc);
}

module _ (t : Table) (i : ℕ) (f : ConnFlags) (a : IsWatched t) where
  at_slot :
      (j : ℕ) (w : Watch)
      → ((i == j) ≡ true → Agrees f w)
      → ((i == j) ≡ false → Agrees (flags_of t j) w)
      → Agrees (flags_of (set_flags t i f) j) w
  at_slot j w own others = elim (Bool-cases (i == j)) [
    | inl here ↦ elim (Bool-cases (ltb i (length t.conns.flags))) [
      | inl inside ↦ rw (get_or-set t.conns.flags i j f no_flags, here, inside) (own here)
      | inr outside ↦
          let same : i ≡ j = ground arith in
          let out : flags_of t j ≡ no_flags =
            ap (flags_of t) (sym same)
            ∙ get_or_out t.conns.flags i no_flags (ltb→le i (length t.conns.flags) outside) in
          rw (get_or-set t.conns.flags i j f no_flags, here, outside, out) (no_flags-Agrees w)
    ]
    | inr there ↦ rw (get_or-set t.conns.flags i j f no_flags, there) (others there)
  ]

  set_flags-IsWatched : Agrees f (interest t.epoll unwatched i) → IsWatched (set_flags t i f)
  set_flags-IsWatched own j =
      at_slot j (interest t.epoll unwatched j)
        (λ here.
          let same : i ≡ j = ground arith in
          subst (λ k. Agrees f (interest t.epoll unwatched k)) same own)
        (λ there. a j)

  -- The slot's flags change together with what epoll is told of it.
  pub call_epoll-IsWatched :
      (c : EpollCtl)
      → ((w : Watch) → Agrees f (after_call w c i))
      → ((w : Watch) (j : ℕ) → (i == j) ≡ false → after_call w c j ≡ w)
      → IsWatched (call_epoll (set_flags t i f) c)
  call_epoll-IsWatched c own others j =
      let before = interest t.epoll unwatched j in
      subst (Agrees (flags_of (set_flags t i f) j)) (sym (interest-append t.epoll c unwatched j)) (
        at_slot j (after_call before c j)
          (λ here.
            let same : i ≡ j = ground arith in
            subst (λ k. Agrees f (after_call before c k)) same (own before))
          (λ there. subst (Agrees (flags_of t j)) (sym (others before j there)) (a j)))

module _ (t : Table) (a : IsWatched t) (i : ℕ) where
  pub set_connection_state-IsWatched :
      (next : ConnState) → IsWatched (set_connection_state t i next)
  unfolding set_connection_state after_call
  set_connection_state-IsWatched reading =
      let l = to_reading-Flags (flags_of t i) (a i).in_range in
      call_epoll-IsWatched t i (to_reading (flags_of t i)) a (mod_in i)
        (λ w. record { in_range = l.fits; reads = λ e. ground arith; writes = λ e. cc })
        (λ w j other. rw other refl)
  set_connection_state-IsWatched writing =
      let l = to_writing-Flags (flags_of t i) (a i).in_range in
      call_epoll-IsWatched t i (to_writing (flags_of t i)) a (mod_out i)
        (λ w. record { in_range = l.fits; reads = λ e. cc; writes = λ e. ground arith })
        (λ w j other. rw other refl)
  set_connection_state-IsWatched closing =
      let l = to_closing-Flags (flags_of t i) (a i).in_range in
      set_flags-IsWatched t i (to_closing (flags_of t i)) a
        (keeps-Agrees (flags_of t i) (to_closing (flags_of t i)) _ l.fits l.reads l.writes (a i))

  pub remove_connection-IsWatched : IsWatched (remove_connection t i)
  unfolding remove_connection after_call
  remove_connection-IsWatched =
      call_epoll-IsWatched t i no_flags a (del i) (λ w. no_flags-Agrees _)
        (λ w j other. rw other refl)

  pub to_auth-IsWatched : IsWatched (set_flags t i (to_auth (flags_of t i)))
  to_auth-IsWatched =
      let l = to_auth-Flags (flags_of t i) (a i).in_range in
      set_flags-IsWatched t i (to_auth (flags_of t i)) a
        (keeps-Agrees (flags_of t i) (to_auth (flags_of t i)) _ l.fits l.reads l.writes (a i))
