-- ===== src/Server/Broadcast/Search.antt =====
-- The search of a P2P broadcast for its recipient.
use tcp_chat_server.Prelude.{
  ℕ, zero, suc, ◌+◌, ◌≤◌, ◌<◌, ◌≡◌, Option, none, some, List, Bool, true, false, ◌&&◌, ◌==◌,
  bytes_eq, Bool-cases, inl, inr, arith,
}
use tcp_chat_server.Server.Table.{Table, username_of}
use tcp_chat_server.Server.Broadcast.{is_valid_recipient, find_recipient}

-- The slot belongs to an authenticated client other than the sender, under the recipient's name.
abbrev pub is_recipient : Table → ℕ → List ℕ → ℕ → Bool
is_recipient t connfd recipient j =
    is_valid_recipient t connfd j && bytes_eq (username_of t j) recipient

-- The result is the first slot of the range that is the recipient's.
abbrev pub IsFirst : Table → ℕ → List ℕ → ℕ → ℕ → Option ℕ → Type 0
IsFirst t connfd recipient i rounds none =
    (k : ℕ) → i ≤ k → k < i + rounds → is_recipient t connfd recipient k ≡ false
IsFirst t connfd recipient i rounds (some j) =
    (i ≤ j)
    × (j < i + rounds)
    × (is_recipient t connfd recipient j ≡ true)
    × ((k : ℕ) → i ≤ k → k < j → is_recipient t connfd recipient k ≡ false)

module _ (t : Table) (connfd : ℕ) (recipient : List ℕ) where
  widen :
      (rounds i : ℕ) (r : Option ℕ)
      → is_recipient t connfd recipient i ≡ false
      → IsFirst t connfd recipient (i + 1) rounds r
      → IsFirst t connfd recipient i (suc rounds) r
  widen rounds i none miss later = λ k lo hi. elim (Bool-cases (i == k)) [
    | inl here ↦ ground arith
    | inr there ↦ later k (ground arith) (omega arith)
  ]
  widen rounds i (some j) miss (lo, hi, found, earlier) = (
    omega arith,
    omega arith,
    found,
    λ k low high. elim (Bool-cases (i == k)) [
      | inl here ↦ ground arith
      | inr there ↦ earlier k (ground arith) high
    ],
  )

  -- The search finds the first slot that is the recipient's, and `none` only if there is none.
  pub find_recipient-IsFirst :
      (rounds i : ℕ)
      → IsFirst t connfd recipient i rounds (find_recipient rounds i connfd recipient t)
  unfolding find_recipient
  find_recipient-IsFirst zero i = λ k lo hi. absurd (omega arith)
  find_recipient-IsFirst (suc rounds) i = elim (Bool-cases (is_recipient t connfd recipient i)) [
    | inl hit ↦ rw hit (omega arith, omega arith, hit, λ k lo hi. absurd (omega arith))
    | inr miss ↦ rw miss (widen rounds i _ miss (find_recipient-IsFirst rounds (i + 1)))
  ]
