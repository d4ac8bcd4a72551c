-- ===== src/Server/Table/Drains.antt =====
-- Slots whose outgoing bytes are going to be written.
use mathlib.Core.Path.{subst}
use tcp_chat_server.Prelude.{
  ℕ, ◌≡◌, ◌∙◌, ◌⊎◌, inl, inr, sym, [], true, ◌==◌, ◌&&◌, ltb, length, get_or-set, Bool-cases, arith,
}
use tcp_chat_server.Flags.{
  ConnFlags, no_flags, has_flag, want_write, to_reading, to_writing, to_closing,
}
use tcp_chat_server.Flags.Laws.{to_writing-Flags, to_closing-Flags}
use tcp_chat_server.Server.Table.{
  Table, flags_of, outgoing_of, set_flags, set_connection_state, reading, writing, closing,
}
use tcp_chat_server.Server.Table.Layout.{IsTable}

-- The connection waits to write, or has nothing to write.
abbrev pub Drains : Table → ℕ → Type 0
Drains t j = (has_flag (flags_of t j) want_write ≡ true) ⊎ (outgoing_of t j ≡ [])

pub set_flags-Drains :
    (t : Table) (i : ℕ) (f : ConnFlags)
    → (Drains t i → (has_flag f want_write ≡ true) ⊎ (outgoing_of t i ≡ []))
    → (j : ℕ) → Drains t j
    → Drains (set_flags t i f) j
set_flags-Drains t i f keeps j d =
    let mask = get_or-set t.conns.flags i j f no_flags in
    let with_mask = λ (g : ConnFlags). (has_flag g want_write ≡ true) ⊎ (outgoing_of t j ≡ []) in
    elim (Bool-cases (i == j && ltb i (length t.conns.flags))) [
      | inr other ↦ subst with_mask (sym (rw other at mask)) d
      | inl own ↦
          let same : i ≡ j = ground arith in
          subst with_mask (sym (rw own at mask)) (
            subst (λ k. (has_flag f want_write ≡ true) ⊎ (outgoing_of t k ≡ [])) same
              (keeps (subst (λ k. Drains t k) (sym same) d)))
    ]

module _ (t : Table) (v : IsTable t) (i : ℕ) where
  pub writing-Drains : (j : ℕ) → Drains t j → Drains (set_connection_state t i writing) j
  unfolding set_connection_state
  writing-Drains =
      set_flags-Drains t i (to_writing (flags_of t i))
        (λ d. inl (to_writing-Flags (flags_of t i) (v.slot i).in_range).writes)

  pub closing-Drains : (j : ℕ) → Drains t j → Drains (set_connection_state t i closing) j
  unfolding set_connection_state
  closing-Drains = set_flags-Drains t i (to_closing (flags_of t i)) (λ d. elim d [
    | inl waits ↦ inl ((to_closing-Flags (flags_of t i) (v.slot i).in_range).writes ∙ waits)
    | inr empty ↦ inr empty
  ])

  pub reading-Drains :
      outgoing_of t i ≡ [] → (j : ℕ) → Drains t j → Drains (set_connection_state t i reading) j
  unfolding set_connection_state
  reading-Drains empty = set_flags-Drains t i (to_reading (flags_of t i)) (λ d. inr empty)
