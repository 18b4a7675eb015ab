-- ===== src/Qpk/Crc.antt =====
-- firmware/qpk/crc32.cpp and firmware/include/qpk/crc32.h: the nibble-wise CRC-32.
pub mod Reference
use diy_ebook.Prelude.{
  ℕ, ◌/◌, ◌%◌, ◌^◌, ◌<◌, ◌≡◌, refl, arith, List, [], ◌∷◌, ◌++◌, get_or, bit_xor, All, true, ltb,
  ltb→lt, all_below, all_below_sound,
}
use diy_ebook.Prelude.Bits.{bit_xor-lt}
use diy_ebook.Qpk.ByteOrder.{Bytes, IsByte}

-- kTable
abbrev pub table : List ℕ
table =
    0x00000000 ∷ 0x1DB71064 ∷ 0x3B6E20C8 ∷ 0x26D930AC ∷ 0x76DC4190 ∷ 0x6B6B51F4 ∷ 0x4DB26158
    ∷ 0x5005713C ∷ 0xEDB88320 ∷ 0xF00F9344 ∷ 0xD6D6A3E8 ∷ 0xCB61B38C ∷ 0x9B64C2B0 ∷ 0x86D3D2D4
    ∷ 0xA00AE278 ∷ 0xBDBDF21C ∷ []

abbrev pub crc32_init : ℕ
crc32_init = 0xFFFFFFFF

-- crc = kTable[crc & 0x0F] ^ (crc >> 4)
crc32_nibble : ℕ → ℕ
crc32_nibble crc = bit_xor (get_or table (crc % 16) 0) (crc / 16)

unfoldable pub crc32_update : ℕ → Bytes → ℕ
unfolding crc32_nibble
crc32_update crc [] = crc
crc32_update crc (b ∷ rest) = crc32_update (crc32_nibble (crc32_nibble (bit_xor crc b))) rest

unfoldable pub crc32_finish : ℕ → ℕ
crc32_finish crc = bit_xor crc 0xFFFFFFFF

unfoldable pub crc32 : Bytes → ℕ
unfolding crc32_update crc32_finish
crc32 data_bytes = crc32_finish (crc32_update crc32_init data_bytes)

table_bound : (n : ℕ) → n < 16 → get_or table n 0 < 2 ^ 32
table_bound n h =
    ltb→lt _ _ (all_below_sound 16 (λ n. ltb (get_or table n 0) (2 ^ 32)) n table_bound_check h)
  where
    table_bound_check : all_below 16 (λ n. ltb (get_or table n 0) (2 ^ 32)) ≡ true
    table_bound_check = unfold all_below in refl

crc32_nibble-lt : (crc : ℕ) → crc < 2 ^ 32 → crc32_nibble crc < 2 ^ 32
unfolding crc32_nibble
crc32_nibble-lt crc h =
    bit_xor-lt 32 _ (crc / 16) (table_bound (crc % 16) (omega arith)) (omega arith)

crc32_update-lt :
    (crc : ℕ) (bytes : Bytes) → crc < 2 ^ 32 → All IsByte bytes → crc32_update crc bytes < 2 ^ 32
unfolding crc32_update
crc32_update-lt crc [] h hb = h
crc32_update-lt crc (b ∷ rest) h hb =
    crc32_update-lt (crc32_nibble (crc32_nibble (bit_xor crc b))) rest
      (crc32_nibble-lt _ (crc32_nibble-lt _ (bit_xor-lt 32 crc b h (omega arith)))) hb.1

-- The checksum of bytes fits the 32-bit field that it is stored in.
pub crc32-lt : (bytes : Bytes) → All IsByte bytes → crc32 bytes < 2 ^ 32
unfolding crc32
crc32-lt bytes hb =
    bit_xor-lt 32 _ 0xFFFFFFFF (crc32_update-lt crc32_init bytes (omega arith) hb) (omega arith)

-- The checksum may be computed a piece at a time.
pub crc32_update-append :
    (crc : ℕ) (xs ys : Bytes) → crc32_update crc (xs ++ ys) ≡ crc32_update (crc32_update crc xs) ys
unfolding crc32_update
crc32_update-append crc [] ys = refl
crc32_update-append crc (x ∷ xs) ys =
    crc32_update-append (crc32_nibble (crc32_nibble (bit_xor crc x))) xs ys

-- The check value of CRC-32.
crc32_check_value :
    crc32 (0x31 ∷ 0x32 ∷ 0x33 ∷ 0x34 ∷ 0x35 ∷ 0x36 ∷ 0x37 ∷ 0x38 ∷ 0x39 ∷ []) ≡ 0xCBF43926
unfolding crc32
crc32_check_value = refl
