-- ===== src/Protocol/Tlv/Values.antt =====
-- What a list of TLVs says of one tag, and TLVs that a parser skips.
use tcp_chat_server.Prelude.{
  ℕ, ◌≡◌, refl, ap, ◌∙◌, Option, none, some, List, [], ◌∷◌, ◌++◌, Bool, true, false, ◌==◌,
  if◌then◌else◌, Bool-cases, Option-cases, ==_iff, All, inl, inr,
}
use tcp_chat_server.Protocol.Tlv.{finished, Turn, next, stop, resume}
use tcp_chat_server.Protocol.Tlv.Stream.{Tlv, scan}
use mathlib.Core.Path.{fun_ext, subst}

abbrev or_else : Option (List ℕ) → Option (List ℕ) → Option (List ℕ)
or_else (some v) other = some v
or_else none other = other

-- The value of the last TLV with the given tag.
abbrev pub last_value : ℕ → List Tlv → Option (List ℕ)
last_value tag [] = none
last_value tag (t ∷ ts) = or_else (last_value tag ts) (if t.tag == tag then some t.value else none)

abbrev pub value_or : Option (List ℕ) → List ℕ → List ℕ
value_or none v = v
value_or (some w) v = w

abbrev pub is_given : Option (List ℕ) → Bool
is_given none = false
is_given (some v) = true

given_value : (o : Option (List ℕ)) (v : List ℕ) → is_given o ≡ true → o ≡ some (value_or o v)
given_value none v e = cc
given_value (some w) v e = refl

module _ {E S : Type 0} (handle : ℕ → List ℕ → S → Turn E S) where
  -- A TLV that the `switch` ignores can stand anywhere.
  scan_skip :
      (ts us : List Tlv) (t : Tlv)
      → ((s : S) → handle t.tag t.value s ≡ next s)
      → (s : S) → scan handle (ts ++ (t ∷ us)) s ≡ scan handle (ts ++ us) s
  scan_skip [] us t skips s = rw (skips s)
  scan_skip (x ∷ ts) us t skips s =
      ap (resume (handle x.tag x.value s)) (fun_ext λ s'. scan_skip ts us t skips s')

-- Storing TLVs one after the other.
abbrev pub put_all : {S : Type 0} → (Tlv → S → S) → List Tlv → S → S
put_all put [] s = s
put_all put (t ∷ ts) s = put_all put ts (put t s)

-- A `switch` that never looks at what was parsed before: a TLV is refused, or it is stored.
module _ {E S : Type 0} (handle : ℕ → List ℕ → S → Turn E S) (within : Tlv → Bool)
    (put : Tlv → S → S) (reject : S → E)
    (switches : (t : Tlv) (s : S)
      → handle t.tag t.value s ≡ (if within t then next (put t s) else stop (reject s))) where
  pub scan-put_all :
      (ts : List Tlv) (s : S)
      → All (λ t. within t ≡ true) ts
      → scan handle ts s ≡ finished (put_all put ts s)
  scan-put_all [] s w = refl
  scan-put_all (t ∷ ts) s (w, ws) = rw (switches t s, w) (scan-put_all ts (put t s) ws)

  pub scan_finished :
      (ts : List Tlv) (s s' : S)
      → scan handle ts s ≡ finished s'
      → All (λ t. within t ≡ true) ts × (s' ≡ put_all put ts s)
  scan_finished [] s s' e = (tt, cc)
  scan_finished (t ∷ ts) s s' e = elim (Bool-cases (within t)) [
    | inl w ↦
        let (ws, same) = scan_finished ts (put t s) s' (rw (switches t s, w) at e) in
        ((w, ws), same)
    | inr w ↦ let refused = rw (switches t s, w) at e in cc
  ]

-- The last value with a tag is one of the values with that tag.
last_value-All :
    (P : Tlv → Bool) (tag : ℕ) (ts : List Tlv) (v : List ℕ)
    → All (λ t. P t ≡ true) ts
    → last_value tag ts ≡ some v
    → P (record { tag = tag; value = v }) ≡ true
last_value-All P tag [] v w e = cc
last_value-All P tag (t ∷ ts) v (w, ws) e = elim (Option-cases (last_value tag ts)) [
  | inr (v', later) ↦ last_value-All P tag ts v ws (later ∙ rw later at e)
  | inl never ↦ elim (Bool-cases (t.tag == tag)) [
    | inl here ↦
        let same : some t.value ≡ some v = rw (never, here) at e in
        let value_same : t.value ≡ v = cc in
        let tag_same : t.tag ≡ tag = (==_iff t.tag tag).0 here in
        subst (λ x. P x ≡ true) (λ i. record { tag = tag_same i; value = value_same i }) w
    | inr other ↦ let absent = rw (never, other) at e in cc
  ]
]
