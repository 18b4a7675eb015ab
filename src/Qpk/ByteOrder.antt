-- ===== src/Qpk/ByteOrder.antt =====
-- firmware/include/qpk/byte_order.h: little-endian fields of a byte buffer.
-- A pointer is the list of the bytes from it on; a byte past the end reads as 0 here.
use diy_ebook.Prelude.{
  zero, suc, length, ℕ, ◌+◌, ◌*◌, ◌/◌, ◌%◌, ◌^◌, ◌<◌, ◌≡◌, arith, List, [], ◌∷◌, ◌++◌, get_or, drop,
  bit_or, ◌∙◌, ap₂,
}
use diy_ebook.Prelude.Bits.{bit_or-high}

abbrev pub IsByte : ℕ → Type 0
IsByte b = b < 256

abbrev pub Bytes : Type 0
Bytes = List ℕ

-- p[i]
abbrev pub at : Bytes → ℕ → ℕ
at p i = get_or p i 0

unfoldable pub read16 : Bytes → ℕ
read16 p = bit_or (at p 0) (at p 1 * 2 ^ 8)

unfoldable pub read32 : Bytes → ℕ
read32 p = bit_or (bit_or (bit_or (at p 0) (at p 1 * 2 ^ 8)) (at p 2 * 2 ^ 16)) (at p 3 * 2 ^ 24)

unfoldable pub read64 : Bytes → ℕ
read64 p = bit_or (read32 p) (read32 (drop 4 p) * 2 ^ 32)

-- The bytes that a store at `p` writes.
unfoldable pub write16 : ℕ → Bytes
write16 v = v % 256 ∷ v / 2 ^ 8 % 256 ∷ []

unfoldable pub write32 : ℕ → Bytes
write32 v = v % 256 ∷ v / 2 ^ 8 % 256 ∷ v / 2 ^ 16 % 256 ∷ v / 2 ^ 24 % 256 ∷ []

unfoldable pub write64 : ℕ → Bytes
unfolding write32
write64 v = write32 (v % 2 ^ 32) ++ write32 (v / 2 ^ 32 % 2 ^ 32)

read16-sum : (a b : ℕ) (p : Bytes) → IsByte a → read16 (a ∷ b ∷ p) ≡ a + b * 2 ^ 8
unfolding read16
read16-sum a b p ha = bit_or-high 8 a b (omega arith)

read32-sum :
    (a b c d : ℕ) (p : Bytes)
    → IsByte a
    → IsByte b
    → IsByte c
    → read32 (a ∷ b ∷ c ∷ d ∷ p) ≡ a + b * 2 ^ 8 + c * 2 ^ 16 + d * 2 ^ 24
unfolding read32
read32-sum a b c d p ha hb hc = rw (
  bit_or-high 8 a b (omega arith),
  bit_or-high 16 (a + b * 2 ^ 8) c (omega arith),
  bit_or-high 24 (a + b * 2 ^ 8 + c * 2 ^ 16) d (omega arith),
)

-- A stored field reads back as what was stored, whatever follows it.
pub read16-write16 : (v : ℕ) (p : Bytes) → v < 2 ^ 16 → read16 (write16 v ++ p) ≡ v
unfolding write16
read16-write16 v p h = omega (arith, read16-sum (v % 256) (v / 2 ^ 8 % 256) p (omega arith))

pub read32-write32 : (v : ℕ) (p : Bytes) → v < 2 ^ 32 → read32 (write32 v ++ p) ≡ v
unfolding write32
read32-write32 v p h = omega (
  arith,
  read32-sum (v % 256) (v / 2 ^ 8 % 256) (v / 2 ^ 16 % 256) (v / 2 ^ 24 % 256) p (omega arith)
      (omega arith) (omega arith),
)

read64-halves :
    (v : ℕ) (p : Bytes)
    → bit_or (read32 (write64 v ++ p)) (read32 (drop 4 (write64 v ++ p)) * 2 ^ 32)
      ≡ bit_or (v % 2 ^ 32) (v / 2 ^ 32 % 2 ^ 32 * 2 ^ 32)
unfolding write64
read64-halves v p =
    ap₂ (λ (a b : ℕ). bit_or a (b * 2 ^ 32))
      (read32-write32 (v % 2 ^ 32) (write32 (v / 2 ^ 32 % 2 ^ 32) ++ p) (omega arith))
      (read32-write32 (v / 2 ^ 32 % 2 ^ 32) p (omega arith))

-- A 64-bit value that is written reads back, whatever bytes follow.
pub read64-write64 : (v : ℕ) (p : Bytes) → v < 2 ^ 64 → read64 (write64 v ++ p) ≡ v
unfolding read64
read64-write64 v p h =
    read64-halves v p
    ∙ bit_or-high 32 (v % 2 ^ 32) (v / 2 ^ 32 % 2 ^ 32) (omega arith)
    ∙ omega arith

-- What a read returns fits the field.
pub read16-lt : (a b : ℕ) (p : Bytes) → IsByte a → IsByte b → read16 (a ∷ b ∷ p) < 2 ^ 16
read16-lt a b p ha hb = omega (arith, read16-sum a b p ha)

pub read32-lt :
    (a b c d : ℕ) (p : Bytes)
    → IsByte a
    → IsByte b
    → IsByte c
    → IsByte d
    → read32 (a ∷ b ∷ c ∷ d ∷ p) < 2 ^ 32
read32-lt a b c d p ha hb hc hd = omega (arith, read32-sum a b c d p ha hb hc)

-- memcpy into a buffer, which keeps its size.
abbrev pub overwrite : Bytes → Bytes → Bytes
overwrite [] bytes = []
overwrite (x ∷ buf) [] = x ∷ buf
overwrite (x ∷ buf) (b ∷ bytes) = b ∷ overwrite buf bytes

-- memcpy(buf + offset, bytes, length)
abbrev pub store : ℕ → Bytes → Bytes → Bytes
store offset bytes [] = []
store zero bytes (x ∷ buf) = overwrite (x ∷ buf) bytes
store (suc offset) bytes (x ∷ buf) = x ∷ store offset bytes buf

-- A stored word reads back inside a buffer whose bytes are written out.
pub read32-bytes :
    (v : ℕ)
    → v < 2 ^ 32
    → (p : Bytes) → read32 (v % 256 ∷ v / 2 ^ 8 % 256 ∷ v / 2 ^ 16 % 256 ∷ v / 2 ^ 24 % 256 ∷ p) ≡ v
read32-bytes v h p = unfold write32 in read32-write32 v p h

pub read16-bytes : (v : ℕ) → v < 2 ^ 16 → (p : Bytes) → read16 (v % 256 ∷ v / 2 ^ 8 % 256 ∷ p) ≡ v
read16-bytes v h p = unfold write16 in read16-write16 v p h

-- A content id of 16 bytes, taken apart.
pub data Sixteen : Bytes → Type 0 where
  sixteen :
      (x0 x1 x2 x3 x4 x5 x6 x7 x8 x9 xa xb xc xd xe xf : ℕ)
      → Sixteen (x0 ∷ x1 ∷ x2 ∷ x3 ∷ x4 ∷ x5 ∷ x6 ∷ x7 ∷ x8 ∷ x9 ∷ xa ∷ xb ∷ xc ∷ xd ∷ xe ∷ xf ∷ [])

pub Sixteen-length : (id : Bytes) → length id ≡ 16 → Sixteen id
Sixteen-length (x0 ∷ x1 ∷ x2 ∷ x3 ∷ x4 ∷ x5 ∷ x6 ∷ x7 ∷ x8 ∷ x9 ∷ xa ∷ xb ∷ xc ∷ xd ∷ xe ∷ xf ∷ [])
      h =
    sixteen x0 x1 x2 x3 x4 x5 x6 x7 x8 x9 xa xb xc xd xe xf
Sixteen-length _ h = absurd (omega arith)

pub read64-bytes :
    (v : ℕ)
    → v < 2 ^ 64
    → (p : Bytes)
    → read64 (
        v % 2 ^ 32 % 256
        ∷ v % 2 ^ 32 / 2 ^ 8 % 256
        ∷ v % 2 ^ 32 / 2 ^ 16 % 256
        ∷ v % 2 ^ 32 / 2 ^ 24 % 256
        ∷ v / 2 ^ 32 % 2 ^ 32 % 256
        ∷ v / 2 ^ 32 % 2 ^ 32 / 2 ^ 8 % 256
        ∷ v / 2 ^ 32 % 2 ^ 32 / 2 ^ 16 % 256
        ∷ v / 2 ^ 32 % 2 ^ 32 / 2 ^ 24 % 256
        ∷ p)
      ≡ v
read64-bytes v h p = unfold write64 write32 in read64-write64 v p h
