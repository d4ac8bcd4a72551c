-- ===== src/Server/Loop/Writing.antt =====
-- `handle_write_connection` sends the outgoing bytes in order, as the socket takes them.
use tcp_chat_server.Prelude.{
  ℕ, zero, suc, ◌+◌, ◌-◌, ◌≤◌, ◌<◌, ◌≡◌, refl, sym, ◌∙◌, ap, List, [], ◌∷◌, Bool, true, false,
  Bool-cases, inl, inr, ltb→le, ltb, lt→ltb, le→ltb, length, length-drop, length-set, drop,
  get_or-set_self, if◌then◌else◌, arith,
}
use tcp_chat_server.Protocol.Message.{buf_consume}
use tcp_chat_server.Flags.{to_reading, to_closing, no_flags}
use tcp_chat_server.Server.Table.{Table, flags_of, outgoing_of, set_outgoing, set_connection_state}
use tcp_chat_server.Server.Loop.{write_counts}

-- The bytes that the calls of `write` took.
abbrev pub total : List ℕ → ℕ
total [] = 0
total (n ∷ ns) = n + total ns

pub drop_nil : (n : ℕ) → let nil : List ℕ = [] in drop n nil ≡ nil
drop_nil zero = refl
drop_nil (suc n) = refl

drop-drop : (m n : ℕ) (xs : List ℕ) → drop n (drop m xs) ≡ drop (m + n) xs
drop-drop zero n xs = ap (λ k. drop k xs) (omega arith)
drop-drop (suc m) n [] = drop_nil n ∙ sym (drop_nil (suc m + n))
drop-drop (suc m) n (x ∷ xs) =
    let plus : suc (m + n) ≡ suc m + n = omega arith in
    drop-drop m n xs ∙ ap (λ k. drop k (x ∷ xs)) plus

pub length_zero : (xs : List ℕ) → length xs ≡ 0 → xs ≡ []
length_zero [] e = refl
length_zero (x ∷ xs) e = absurd (omega arith)

module _ (connfd : ℕ) where
  -- After one `write`.
  abbrev after : Table → ℕ → Table
  after t n = set_outgoing t connfd (buf_consume (outgoing_of t connfd) n)

  after-outgoing :
      (t : Table) (n : ℕ)
      → connfd < length t.conns.outgoing_buffers
      → outgoing_of (after t n) connfd ≡ drop n (outgoing_of t connfd)
  unfolding buf_consume
  after-outgoing t n inside =
      get_or-set_self t.conns.outgoing_buffers connfd (drop n (outgoing_of t connfd)) [] inside

  after-length :
      (t : Table) (n : ℕ)
      → connfd < length t.conns.outgoing_buffers
      → length (outgoing_of (after t n) connfd) ≡ length (outgoing_of t connfd) - n
  after-length t n inside =
      ap length (after-outgoing t n inside) ∙ length-drop n (outgoing_of t connfd)

  after_lt :
      (t : Table) (n : ℕ)
      → connfd < length t.conns.outgoing_buffers
      → connfd < length (after t n).conns.outgoing_buffers
  after_lt t n inside =
      omega
        (arith, length-set t.conns.outgoing_buffers connfd (buf_consume (outgoing_of t connfd) n))

  -- If the calls of `write` took less than the outgoing buffer of a connection holds, exactly the
  -- bytes that they took are gone from its front. The flags are as they were, or WANT_CLOSE is set
  -- if the last call failed.
  pub write_counts_rest :
      (t : Table) (counts : List ℕ) (failed : Bool)
      → connfd < length t.conns.outgoing_buffers
      → connfd < length t.conns.flags
      → total counts < length (outgoing_of t connfd)
      → let t' = write_counts t connfd counts failed in
        (outgoing_of t' connfd ≡ drop (total counts) (outgoing_of t connfd))
        × (flags_of t' connfd
            ≡ (if failed then to_closing (flags_of t connfd) else flags_of t connfd))
  unfolding write_counts set_connection_state
  write_counts_rest t [] false inside flagged more = (refl, refl)
  write_counts_rest t [] true inside flagged more =
      (refl, get_or-set_self t.conns.flags connfd (to_closing (flags_of t connfd)) no_flags flagged)
  write_counts_rest t (n ∷ counts) failed inside flagged more =
      let left = after-length t n inside in
      let (outgoing, flags) =
        write_counts_rest (after t n) counts failed (after_lt t n inside) flagged (omega arith) in
      rw (lt→ltb 0 (length (outgoing_of (after t n) connfd)) (omega arith)) (
        outgoing
            ∙ ap (drop (total counts)) (after-outgoing t n inside)
            ∙ drop-drop n (total counts) (outgoing_of t connfd),
        flags,
      )

  empty_reads :
      (t : Table) (n : ℕ) (counts : List ℕ) (failed : Bool)
      → connfd < length t.conns.outgoing_buffers
      → connfd < length t.conns.flags
      → length (outgoing_of t connfd) ≤ n
      → let t' = write_counts t connfd (n ∷ counts) failed in
        (outgoing_of t' connfd ≡ []) × (flags_of t' connfd ≡ to_reading (flags_of t connfd))
  unfolding write_counts set_connection_state
  empty_reads t n counts failed inside flagged all =
      let none : length (outgoing_of (after t n) connfd) ≡ 0 =
        omega (arith, after-length t n inside) in
      rw (le→ltb 0 (length (outgoing_of (after t n) connfd)) (omega arith)) (
        length_zero (outgoing_of (after t n) connfd) none,
        get_or-set_self t.conns.flags connfd (to_reading (flags_of t connfd)) no_flags flagged,
      )

  -- So it is if they could have taken more.
  pub write_counts_enough :
      (counts : List ℕ) (t : Table) (n : ℕ) (failed : Bool)
      → connfd < length t.conns.outgoing_buffers
      → connfd < length t.conns.flags
      → length (outgoing_of t connfd) ≤ total (n ∷ counts)
      → let t' = write_counts t connfd (n ∷ counts) failed in
        (outgoing_of t' connfd ≡ []) × (flags_of t' connfd ≡ to_reading (flags_of t connfd))
  unfolding write_counts
  write_counts_enough [] t n failed inside flagged all =
      empty_reads t n [] failed inside flagged (omega arith)
  write_counts_enough (m ∷ counts) t n failed inside flagged all =
      let left = after-length t n inside in
      elim (Bool-cases (ltb 0 (length (outgoing_of (after t n) connfd)))) [
        | inl more ↦ rw more (
            write_counts_enough counts (after t n) m failed (after_lt t n inside) flagged
              (omega arith))
        | inr empty ↦
            let none_left = ltb→le 0 (length (outgoing_of (after t n) connfd)) empty in
            empty_reads t n (m ∷ counts) failed inside flagged (omega arith)
      ]

  -- If the calls of `write` took all that the outgoing buffer of a connection holds, the buffer is
  -- empty and the connection reads again.
  write_counts_all :
      (counts : List ℕ) (t : Table) (n : ℕ) (failed : Bool)
      → connfd < length t.conns.outgoing_buffers
      → connfd < length t.conns.flags
      → total (n ∷ counts) ≡ length (outgoing_of t connfd)
      → let t' = write_counts t connfd (n ∷ counts) failed in
        (outgoing_of t' connfd ≡ []) × (flags_of t' connfd ≡ to_reading (flags_of t connfd))
  write_counts_all counts t n failed inside flagged all =
      write_counts_enough counts t n failed inside flagged (omega arith)
