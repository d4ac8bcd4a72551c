-- ===== src/Protocol/Tlv.antt =====
-- `write_tlv`, and the loop over the TLVs of a payload that every parser of src/protocol.cpp has.
pub mod Stream
pub mod Values
use native.Mathlib.Nat.{le_refl}
use tcp_chat_server.Prelude.{
  ℕ, zero, suc, ◌+◌, ◌-◌, ◌%◌, ◌≤◌, List, [], ◌∷◌, ◌++◌, Bool, true, false, length, take, drop,
  length-drop, ltb, ◌==◌, if◌then◌else◌, arith,
}
use tcp_chat_server.Protocol.Types.{TlvTag, tlv_tag}
use tcp_chat_server.Protocol.Bytes.{u32_bytes, htonl, load_u32}

-- `htons` on the two bytes of a `uint16_t` in memory.
abbrev swap_bytes : List ℕ → List ℕ
swap_bytes (a ∷ b ∷ _) = b ∷ a ∷ []
swap_bytes v = v

-- The bytes that stand behind the tag and the length.
unfoldable pub tlv_value : ℕ → List ℕ → Bool → List ℕ
tlv_value len value convert_to_network =
    if convert_to_network
    then (if len == 2
        then swap_bytes (take 2 value)
        else if len == 4
        then u32_bytes (htonl (load_u32 value))
        else take len value)
    else take len value

-- `buf` is what stands before the moving pointer; the value is the memory behind its pointer.
unfoldable pub write_tlv : List ℕ → TlvTag → ℕ → List ℕ → Bool → List ℕ
unfolding tlv_value
write_tlv buf tag len value convert_to_network =
    buf ++ ((tlv_tag tag % 256) ∷ len ∷ tlv_value len value convert_to_network)

no_room : (t n : ℕ) (rest : List ℕ) → length (t ∷ n ∷ rest) ≤ 0 → ⊥
no_room t n rest h = omega arith

pub drop_fits :
    (k t n : ℕ) (rest : List ℕ) → length (t ∷ n ∷ rest) ≤ suc k → length (drop n rest) ≤ k
drop_fits k t n rest h = omega (arith, length-drop n rest)

-- How a parser's loop ends: at the end of the payload, or by an early return.
pub data Walk (E S : Type 0) : Type 0 where
  finished : S → Walk E S
  stopped : E → Walk E S

-- The `switch` on one TLV: go on with the parsed fields, or return early.
pub data Turn (E S : Type 0) : Type 0 where
  next : S → Turn E S
  stop : E → Turn E S

abbrev pub resume : {E S : Type 0} → Turn E S → (S → Walk E S) → Walk E S
resume (next s) rest = rest s
resume (stop e) rest = stopped e

module _ {E S : Type 0} (malformed : S → E) (handle : ℕ → List ℕ → S → Turn E S) where
  -- `while (payload_ptr < payload_end)`: the list runs from `payload_ptr` to `payload_end`. It is at
  -- most `k` bytes long and gets shorter in each round, so the loop ends.
  unfoldable pub walk_below : (bytes : List ℕ) (k : ℕ) → length bytes ≤ k → S → Walk E S
  unfolding no_room
  walk_below [] k fits s = finished s
  walk_below (tag ∷ []) k fits s = stopped (malformed s)
  walk_below (tag ∷ num_bytes ∷ rest) zero fits s = absurd (no_room tag num_bytes rest fits)
  walk_below (tag ∷ num_bytes ∷ rest) (suc k) fits s =
      if ltb (length rest) num_bytes
      then stopped (malformed s)
      else resume (handle tag (take num_bytes rest) s)
          (walk_below (drop num_bytes rest) k (drop_fits k tag num_bytes rest fits))

  unfoldable pub walk : List ℕ → S → Walk E S
  unfolding walk_below
  walk bytes s = walk_below bytes (length bytes) (le_refl (length bytes)) s
