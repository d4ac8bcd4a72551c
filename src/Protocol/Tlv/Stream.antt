-- ===== src/Protocol/Tlv/Stream.antt =====
-- The TLV loop against an independent description of a payload: a list of tags with values.
use mathlib.Core.Path.{subst, fun_ext}
use native.Mathlib.Bridge.{le_prop}
use tcp_chat_server.Prelude.{
  ℕ, zero, suc, ◌≤◌, ◌<◌, ◌%◌, ◌≡◌, refl, sym, ap, ◌∙◌, List, [], ◌∷◌, ◌++◌, false, length, take,
  drop, ltb, Bool-cases, ◌⊎◌, inl, inr, arith, take-append, drop-append, length-append,
  append_assoc, length-take, take-append-drop, take_all, append-nil, ltb→le, le→ltb,
}
use tcp_chat_server.Protocol.Types.{TlvTag, tlv_tag}
use tcp_chat_server.Protocol.Tlv.{
  write_tlv, Walk, finished, stopped, Turn, next, stop, resume, drop_fits, walk_below, walk,
}

-- A TLV: its tag and its value. The length byte is the length of the value.
pub record Tlv : Type 0 where
  pub tag : ℕ
  pub value : List ℕ

abbrev pub encode : List Tlv → List ℕ
encode [] = []
encode (t ∷ ts) = t.tag ∷ length t.value ∷ (t.value ++ encode ts)

encode-append : (ts us : List Tlv) → encode (ts ++ us) ≡ encode ts ++ encode us
encode-append [] us = refl
encode-append (t ∷ ts) us = rw (encode-append ts us, append_assoc)

tlv_tag-lt : (t : TlvTag) → tlv_tag t < 256
tlv_tag-lt t = ground arith

-- A string of at most 255 bytes is written as one TLV behind what the buffer holds.
write_tlv-encode :
    (buf : List ℕ) (tag : TlvTag) (value : List ℕ)
    → length value ≤ 255
    → write_tlv buf tag (length value % 256) value false
      ≡ buf ++ encode (record { tag = tlv_tag tag; value = value } ∷ [])
unfolding write_tlv
write_tlv-encode buf tag value h =
    let whole_tag : tlv_tag tag % 256 ≡ tlv_tag tag = omega (arith, tlv_tag-lt tag) in
    let whole : length value % 256 ≡ length value = omega arith in
    rw (whole_tag, whole, take_all (length value) value (omega arith), append-nil value)

-- A TLV that is written behind others joins them.
pub write_tlv_encoded :
    (ts : List Tlv) (tag : TlvTag) (value : List ℕ)
    → length value ≤ 255
    → write_tlv (encode ts) tag (length value % 256) value false
      ≡ encode (ts ++ record { tag = tlv_tag tag; value = value } ∷ [])
write_tlv_encoded ts tag value h =
    write_tlv-encode (encode ts) tag value h ∙ sym (encode-append ts _)

Turn-cases : {E S : Type 0} (r : Turn E S) → ((s : S) × (r ≡ next s)) ⊎ ((e : E) × (r ≡ stop e))
Turn-cases (next s) = inl (s, refl)
Turn-cases (stop e) = inr (e, refl)

pub Walk-cases :
    {E S : Type 0} (w : Walk E S) → ((s : S) × (w ≡ finished s)) ⊎ ((e : E) × (w ≡ stopped e))
Walk-cases (finished s) = inl (s, refl)
Walk-cases (stopped e) = inr (e, refl)

-- A TLV that is wholly there, and the bytes behind it.
split_tlv :
    (tag n : ℕ) (rest tail : List ℕ)
    → n ≤ length rest
    → drop n rest ≡ tail
    → ◌≡◌ {A = List ℕ} (tag ∷ n ∷ rest) (tag ∷ length (take n rest) ∷ (take n rest ++ tail))
split_tlv tag n rest tail fits same =
    let long : length (take n rest) ≡ n = omega (arith, length-take n rest) in
    rw (← same, long, take-append-drop n rest)

module _ {E S : Type 0} (handle : ℕ → List ℕ → S → Turn E S) where
  -- What a parser should do: hand the TLVs to its `switch` one after the other.
  abbrev pub scan : List Tlv → S → Walk E S
  scan [] s = finished s
  scan (t ∷ ts) s = resume (handle t.tag t.value s) (scan ts)

module _ {E S : Type 0} (malformed : S → E) (handle : ℕ → List ℕ → S → Turn E S) where
  walk_below-cong :
      (xs ys : List ℕ) (k : ℕ) (p : length xs ≤ k) (q : length ys ≤ k) (s : S)
      → xs ≡ ys
      → walk_below malformed handle xs k p s ≡ walk_below malformed handle ys k q s
  walk_below-cong xs ys k p q s e =
      subst
        (λ zs.
          (r : length zs ≤ k)
          → walk_below malformed handle xs k p s ≡ walk_below malformed handle zs k r s)
        e (λ r. ap (λ h. walk_below malformed handle xs k h s) (le_prop p r)) q

  -- One round of the loop at a whole TLV.
  walk_below_step :
      (t : Tlv) (rest : List ℕ) (k : ℕ)
      (fits : length (t.tag ∷ length t.value ∷ (t.value ++ rest)) ≤ suc k)
      (shorter : length rest ≤ k) (s : S)
      → walk_below malformed handle (t.tag ∷ length t.value ∷ (t.value ++ rest)) (suc k) fits s
        ≡ resume (handle t.tag t.value s) (walk_below malformed handle rest k shorter)
  unfolding walk_below
  walk_below_step t rest k fits shorter s =
      rw
        (
          le→ltb (length (t.value ++ rest)) (length t.value)
              (omega (arith, length-append t.value rest)),
          take-append t.value rest,
        )
        (ap (resume (handle t.tag t.value s))
          (fun_ext λ s'. walk_below-cong _ rest k _ shorter s' (drop-append t.value rest)))

  walk_below-encode :
      (ts : List Tlv) (k : ℕ) (fits : length (encode ts) ≤ k) (s : S)
      → walk_below malformed handle (encode ts) k fits s ≡ scan handle ts s
  walk_below-encode [] k fits s = unfold walk_below in refl
  walk_below-encode (t ∷ ts) zero fits s = absurd (omega arith)
  walk_below-encode (t ∷ ts) (suc k) fits s =
      let shorter : length (encode ts) ≤ k = omega (arith, length-append t.value (encode ts)) in
      walk_below_step t (encode ts) k fits shorter s
      ∙ ap (resume (handle t.tag t.value s)) (fun_ext λ s'. walk_below-encode ts k shorter s')

  -- On a payload that is a list of TLVs the loop hands each of them to the `switch`, in order.
  pub walk-encode : (ts : List Tlv) (s : S) → walk malformed handle (encode ts) s ≡ scan handle ts s
  unfolding walk
  walk-encode ts s = walk_below-encode ts _ _ s

  -- The loop ends with the first TLV that the `switch` stops at, whatever comes behind it.
  pub walk_first_stops :
      (t : Tlv) (rest : List ℕ) (s : S) (e : E)
      → handle t.tag t.value s ≡ stop e
      → walk malformed handle (t.tag ∷ length t.value ∷ (t.value ++ rest)) s ≡ stopped e
  unfolding walk
  walk_first_stops t rest s e h =
      let k = suc (length (t.value ++ rest)) in
      let shorter : length rest ≤ k = omega (arith, length-append t.value rest) in
      walk_below_step t rest k _ shorter s
      ∙ ap (λ r. resume r (walk_below malformed handle rest k shorter)) h

  walk_below-finished :
      (bytes : List ℕ) (k : ℕ) (fits : length bytes ≤ k) (s s' : S)
      → walk_below malformed handle bytes k fits s ≡ finished s'
      → (ts : List Tlv) × (bytes ≡ encode ts) × (scan handle ts s ≡ finished s')
  unfolding walk_below
  walk_below-finished [] k fits s s' e = ([], refl, e)
  walk_below-finished (tag ∷ []) k fits s s' e = cc
  walk_below-finished (tag ∷ n ∷ rest) zero fits s s' e = absurd (omega arith)
  walk_below-finished (tag ∷ n ∷ rest) (suc k) fits s s' e =
      elim (Bool-cases (ltb (length rest) n)) [
        | inl short ↦ let stops = rw short at e in cc
        | inr whole ↦ elim (Turn-cases (handle tag (take n rest) s)) [
          | inl (s2, h) ↦
              let (ts, same, scanned) =
                walk_below-finished (drop n rest) k (drop_fits k tag n rest fits) s2 s'
                  (rw (whole, h) at e) in
              (
                record { tag = tag; value = take n rest } ∷ ts,
                split_tlv tag n rest (encode ts) (ltb→le (length rest) n whole) same,
                rw h scanned,
              )
          | inr (x, h) ↦ let stops = rw (whole, h) at e in cc
        ]
      ]

  -- A parser accepts only a payload that is, byte for byte, a list of TLVs.
  pub walk-finished :
      (bytes : List ℕ) (s s' : S)
      → walk malformed handle bytes s ≡ finished s'
      → (ts : List Tlv) × (bytes ≡ encode ts) × (scan handle ts s ≡ finished s')
  unfolding walk
  walk-finished bytes s s' e = walk_below-finished bytes _ _ s s' e
