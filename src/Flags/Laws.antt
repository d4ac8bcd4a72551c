-- ===== src/Flags/Laws.antt =====
-- The five flags under each update of a connection's mask, from tables over all 256 masks.
use tcp_chat_server.Prelude.{
  ℕ, zero, suc, ◌<◌, ◌≡◌, refl, Bool, true, false, not, ◌&&◌, ◌||◌, ltb, arith, IsByte, ltb→lt,
  Bool-cases, inl, inr, ◌==◌, if◌then◌else◌,
}
use tcp_chat_server.Flags.{
  ConnFlags, want_read, want_write, want_close, is_active, is_auth, has_flag, to_reading,
  to_writing, to_closing, to_auth,
}

-- A test that every mask with a value below the bound passes.
passes : (ConnFlags → Bool) → (bound : ℕ) → Bool
passes test zero = true
passes test (suc bound) = let lower = passes test bound in if test bound then lower else false

-- So does each single mask.
passes_at :
    (test : ConnFlags → Bool) (f : ConnFlags) (bound : ℕ)
    → f < bound
    → passes test bound ≡ true
    → test f ≡ true
unfolding passes
passes_at test f zero small all = absurd (omega arith)
passes_at test f (suc bound) small all = elim (Bool-cases (test bound)) [
  | inr fails ↦ let never : false ≡ true = rw fails at all in cc
  | inl holds ↦ elim (Bool-cases (f == bound)) [
    | inl last ↦ ground arith
    | inr other ↦ passes_at test f bound (ground arith) (rw holds at all)
  ]
]

same : Bool → Bool → Bool
same true b = b
same false b = not b

same→eq : (a b : Bool) → same a b ≡ true → a ≡ b
unfolding same
same→eq true b h = ground arith
same→eq false b h = ground arith

-- An update sets and clears flags: `set` and `clear` are masks.
updates : (ConnFlags → ConnFlags) → ConnFlags → ConnFlags → ConnFlags → ConnFlags → Bool
unfolding same has_flag
updates update set clear flag f =
    same (has_flag (update f) flag)
      (has_flag set flag || (not (has_flag clear flag) && has_flag f flag))

-- All five flags and the range, at one mask.
updates_all : (ConnFlags → ConnFlags) → ConnFlags → ConnFlags → ConnFlags → Bool
unfolding updates
updates_all update set clear f =
    ltb (update f) 256
    && (updates update set clear want_read f
        && (updates update set clear want_write f
            && (updates update set clear want_close f
                && (updates update set clear is_active f && updates update set clear is_auth f))))

reading_table : passes (updates_all to_reading want_read want_write) 256 ≡ true
unfolding passes updates_all to_reading
reading_table = refl

writing_table : passes (updates_all to_writing want_write want_read) 256 ≡ true
unfolding passes updates_all to_writing
writing_table = refl

closing_table : passes (updates_all to_closing want_close 0) 256 ≡ true
unfolding passes updates_all to_closing
closing_table = refl

auth_table : passes (updates_all to_auth is_auth 0) 256 ≡ true
unfolding passes updates_all to_auth
auth_table = refl

-- The five flags of a mask.
pub record Flags (f : ConnFlags) (read write close active auth : Bool) : Type 0 where
  pub fits : IsByte f
  pub reads : has_flag f want_read ≡ read
  pub writes : has_flag f want_write ≡ write
  pub closes : has_flag f want_close ≡ close
  pub actives : has_flag f is_active ≡ active
  pub auths : has_flag f is_auth ≡ auth

and_true : (a b : Bool) → (a && b) ≡ true → (a ≡ true) × (b ≡ true)
and_true true b h = (refl, h)
and_true false b h = cc

module _ (update : ConnFlags → ConnFlags) (set clear : ConnFlags) (f : ConnFlags) where
  abbrev after : ConnFlags → Bool
  after flag = has_flag set flag || (not (has_flag clear flag) && has_flag f flag)

  updates_sound :
      updates_all update set clear f ≡ true
      → Flags
          (update f)
          (after want_read)
          (after want_write)
          (after want_close)
          (after is_active)
          (after is_auth)
  unfolding updates_all updates
  updates_sound h =
      let (small, h1) = and_true (ltb (update f) 256) _ h in
      let (read, h2) = and_true (updates update set clear want_read f) _ h1 in
      let (write, h3) = and_true (updates update set clear want_write f) _ h2 in
      let (close, h4) = and_true (updates update set clear want_close f) _ h3 in
      let (active, auth) = and_true (updates update set clear is_active f) _ h4 in
      record {
        fits = ltb→lt (update f) 256 small;
        reads = same→eq _ _ read;
        writes = same→eq _ _ write;
        closes = same→eq _ _ close;
        actives = same→eq _ _ active;
        auths = same→eq _ _ auth;
      }

module _ (f : ConnFlags) (fits : IsByte f) where
  -- A connection that reads does not write; its other flags are as they were.
  pub to_reading-Flags :
      Flags
        (to_reading f)
        true
        false
        (has_flag f want_close)
        (has_flag f is_active)
        (has_flag f is_auth)
  unfolding has_flag
  to_reading-Flags =
      updates_sound to_reading want_read want_write f
        (passes_at (updates_all to_reading want_read want_write) f 256 fits reading_table)

  -- A connection that writes does not read; its other flags are as they were.
  pub to_writing-Flags :
      Flags
        (to_writing f)
        false
        true
        (has_flag f want_close)
        (has_flag f is_active)
        (has_flag f is_auth)
  unfolding has_flag
  to_writing-Flags =
      updates_sound to_writing want_write want_read f
        (passes_at (updates_all to_writing want_write want_read) f 256 fits writing_table)

  -- A connection that is to be closed keeps its other flags.
  pub to_closing-Flags :
      Flags
        (to_closing f)
        (has_flag f want_read)
        (has_flag f want_write)
        true
        (has_flag f is_active)
        (has_flag f is_auth)
  unfolding has_flag
  to_closing-Flags =
      updates_sound to_closing want_close 0 f
        (passes_at (updates_all to_closing want_close 0) f 256 fits closing_table)

  -- A connection that is authenticated keeps its other flags.
  pub to_auth-Flags :
      Flags
        (to_auth f)
        (has_flag f want_read)
        (has_flag f want_write)
        (has_flag f want_close)
        (has_flag f is_active)
        true
  unfolding has_flag
  to_auth-Flags =
      updates_sound to_auth is_auth 0 f
        (passes_at (updates_all to_auth is_auth 0) f 256 fits auth_table)
