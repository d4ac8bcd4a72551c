-- ===== src/Protocol/Bytes.antt =====
-- 32-bit integers in memory and in network byte order: `htonl`, `ntohl` and `memcpy` as
-- src/protocol.cpp uses them, on the little-endian host that the server is built for.
use tcp_chat_server.Prelude.{
  ℕ, ◌+◌, ◌*◌, ◌/◌, ◌%◌, ◌<◌, ◌≡◌, ◌∙◌, refl, List, [], ◌∷◌, ◌++◌, length, arith,
}

-- The four bytes of a `uint32_t` in memory.
unfoldable pub u32_bytes : ℕ → List ℕ
u32_bytes v = (v % 256) ∷ (v / 256 % 256) ∷ (v / 65536 % 256) ∷ (v / 16777216 % 256) ∷ []

-- The `uint32_t` whose memory starts with the given bytes.
unfoldable pub load_u32 : List ℕ → ℕ
load_u32 (a ∷ b ∷ c ∷ d ∷ _) = a + b * 256 + c * 65536 + d * 16777216
load_u32 _ = 0

-- `htonl`, which is `ntohl` as well.
unfoldable pub htonl : ℕ → ℕ
htonl v = v % 256 * 16777216 + v / 256 % 256 * 65536 + v / 65536 % 256 * 256 + v / 16777216 % 256

pub load_u32-u32_bytes :
    (v : ℕ) (rest : List ℕ) → v < 4294967296 → load_u32 (u32_bytes v ++ rest) ≡ v
unfolding load_u32 u32_bytes
load_u32-u32_bytes v rest h = omega arith

pub htonl-lt : (v : ℕ) → htonl v < 4294967296
unfolding htonl
htonl-lt v = omega arith

-- Reversing the bytes of a number whose bytes are known.
htonl_of_bytes :
    (a b c d : ℕ)
    → a < 256
    → b < 256
    → c < 256
    → d < 256
    → htonl (a + b * 256 + c * 65536 + d * 16777216) ≡ a * 16777216 + b * 65536 + c * 256 + d
unfolding htonl
htonl_of_bytes a b c d ha hb hc hd = omega arith

htonl_parts :
    (v : ℕ)
    → htonl v
      ≡ v / 16777216 % 256 + v / 65536 % 256 * 256 + v / 256 % 256 * 65536 + v % 256 * 16777216
unfolding htonl
htonl_parts v = omega arith

-- Converting twice gives the number back.
pub htonl-htonl : (v : ℕ) → v < 4294967296 → htonl (htonl v) ≡ v
htonl-htonl v h = rw (htonl_parts v) (
    htonl_of_bytes (v / 16777216 % 256) (v / 65536 % 256) (v / 256 % 256) (v % 256) (omega arith)
      (omega arith) (omega arith) (omega arith)
    ∙ omega arith)

-- A length that was written in network order is read back.
pub load_u32-htonl :
    (v : ℕ) (rest : List ℕ) → v < 4294967296 → htonl (load_u32 (u32_bytes (htonl v) ++ rest)) ≡ v
load_u32-htonl v rest h = rw (load_u32-u32_bytes (htonl v) rest (htonl-lt v)) (htonl-htonl v h)

pub length-u32_bytes : (v : ℕ) → length (u32_bytes v) ≡ 4
unfolding u32_bytes
length-u32_bytes v = refl
