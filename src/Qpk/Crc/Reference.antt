-- ===== src/Qpk/Crc/Reference.antt =====
-- The table-driven checksum against the bit-at-a-time division by the CRC-32 polynomial.
use diy_ebook.Prelude.{
  ℕ, zero, suc, ◌*◌, ◌/◌, ◌%◌, ◌<◌, ◌≡◌, refl, ◌∙◌, ap, ap₂, sym, all_below, all_below_sound, arith,
  true, [], ◌∷◌, get_or, bit_xor, ◌==◌, ==_iff, if◌then◌else◌,
}
use diy_ebook.Prelude.Bits.{
  bit_xor-zero, bit_xor-high, bit_xor_swap, half-bit_xor, parity-bit_xor, bit_xor_comm,
}
use diy_ebook.Qpk.ByteOrder.{Bytes}
use diy_ebook.Qpk.Crc.{table, crc32_nibble, crc32_update, crc32_init, crc32_finish, crc32}

-- The reversed CRC-32 polynomial.
abbrev polynomial : ℕ
polynomial = 0xEDB88320

-- What is added when the bit that is shifted out is one.
feedback : ℕ → ℕ
feedback x = if x % 2 == 1 then polynomial else 0

-- One step of the division: shift out a bit.
bit_step : ℕ → ℕ
unfolding feedback
bit_step x = bit_xor (x / 2) (feedback x)

abbrev bit_steps : ℕ → ℕ → ℕ
bit_steps zero x = x
bit_steps (suc n) x = bit_steps n (bit_step x)

feedback-bit_xor : (a b : ℕ) → feedback (bit_xor a b) ≡ bit_xor (feedback a) (feedback b)
unfolding feedback
feedback-bit_xor a b = ground (arith, parity-bit_xor a b)

bit_step-bit_xor : (a b : ℕ) → bit_step (bit_xor a b) ≡ bit_xor (bit_step a) (bit_step b)
unfolding bit_step
bit_step-bit_xor a b =
    rw (half-bit_xor a b, feedback-bit_xor a b)
      (bit_xor_swap (a / 2) (b / 2) (feedback a) (feedback b))

bit_steps-bit_xor :
    (n a b : ℕ) → bit_steps n (bit_xor a b) ≡ bit_xor (bit_steps n a) (bit_steps n b)
bit_steps-bit_xor zero a b = refl
bit_steps-bit_xor (suc n) a b =
    ap (λ (t : ℕ). bit_steps n t) (bit_step-bit_xor a b)
    ∙ bit_steps-bit_xor n (bit_step a) (bit_step b)

bit_step-even : (h : ℕ) → bit_step (h * 2) ≡ h
unfolding bit_step feedback
bit_step-even h = ground (arith, bit_xor-zero (h * 2 / 2))

bit_steps-sixteen : (h : ℕ) → bit_steps 4 (h * 16) ≡ h
bit_steps-sixteen h =
    ap (λ (t : ℕ). bit_steps 4 t) doubled
    ∙ ap (λ (t : ℕ). bit_steps 3 t) (bit_step-even (h * 2 * 2 * 2))
    ∙ ap (λ (t : ℕ). bit_steps 2 t) (bit_step-even (h * 2 * 2))
    ∙ ap (λ (t : ℕ). bit_steps 1 t) (bit_step-even (h * 2))
    ∙ bit_step-even h
  where
    doubled : h * 16 ≡ h * 2 * 2 * 2 * 2
    doubled = omega arith

table_check : all_below 16 (λ n. bit_steps 4 n == get_or table n 0) ≡ true
unfolding all_below bit_step
table_check = refl

bit_steps-table : (n : ℕ) → n < 16 → bit_steps 4 n ≡ get_or table n 0
bit_steps-table n h = (==_iff _ _).0 (all_below_sound 16 _ n table_check h)

split_nibble : (x : ℕ) → x ≡ bit_xor (x / 16 * 16) (x % 16)
split_nibble x = omega (arith, bit_xor-high 4 (x % 16) (x / 16) (omega arith))

-- A table lookup is four steps of the division.
crc32_nibble-bit_steps : (x : ℕ) → crc32_nibble x ≡ bit_steps 4 x
unfolding crc32_nibble
crc32_nibble-bit_steps x =
    bit_xor_comm (get_or table (x % 16) 0) (x / 16)
    ∙ ap₂ bit_xor (sym (bit_steps-sixteen (x / 16))) (sym (bit_steps-table (x % 16) (omega arith)))
    ∙ sym (bit_steps-bit_xor 4 (x / 16 * 16) (x % 16))
    ∙ ap (λ (t : ℕ). bit_steps 4 t) (sym (split_nibble x))

-- The CRC-32 of the bits, least significant first, divided one at a time.
reference_update : ℕ → Bytes → ℕ
unfolding bit_step
reference_update crc [] = crc
reference_update crc (b ∷ rest) = reference_update (bit_steps 8 (bit_xor crc b)) rest

pub reference_crc32 : Bytes → ℕ
unfolding reference_update crc32_finish
reference_crc32 bytes = crc32_finish (reference_update 0xFFFFFFFF bytes)

two_nibbles : (x : ℕ) → crc32_nibble (crc32_nibble x) ≡ bit_steps 8 x
two_nibbles x =
    crc32_nibble-bit_steps (crc32_nibble x)
    ∙ ap (λ (t : ℕ). bit_steps 4 t) (crc32_nibble-bit_steps x)

crc32_update-reference :
    (crc : ℕ) (bytes : Bytes) → crc32_update crc bytes ≡ reference_update crc bytes
unfolding crc32_update reference_update
crc32_update-reference crc [] = refl
crc32_update-reference crc (b ∷ rest) =
    ap (λ (t : ℕ). crc32_update t rest) (two_nibbles (bit_xor crc b))
    ∙ crc32_update-reference (bit_steps 8 (bit_xor crc b)) rest

-- The nibble-wise checksum is the CRC-32 computed bit by bit, for every byte sequence.
pub crc32-reference : (bytes : Bytes) → crc32 bytes ≡ reference_crc32 bytes
unfolding crc32 reference_crc32
crc32-reference bytes = ap crc32_finish (crc32_update-reference crc32_init bytes)
