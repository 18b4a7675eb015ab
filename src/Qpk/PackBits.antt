-- ===== src/Qpk/PackBits.antt =====
-- UnpackBits of firmware/qpk/qpk_reader.cpp.
pub mod Laws
use diy_ebook.Prelude.{
  ℕ, zero, suc, ◌+◌, ◌-◌, true, false, Option, none, some, [], ◌∷◌, ◌++◌, ltb, ◌==◌, ◌||◌, length,
  take, drop, replicate, if◌then◌else◌,
}
use diy_ebook.Qpk.ByteOrder.{Bytes}

-- The bytes already written in front of what the rest of the loop writes.
abbrev pub written : Bytes → Option Bytes → Option Bytes
written out none = none
written out (some rest) = some (out ++ rest)

-- while (i < src_len): `src` is what is left of the source and `room` of the destination; `rounds`
-- bounds the loop, which reads a byte at least in every round. At the end o == dst_len.
unfoldable pub unpack : ℕ → Bytes → ℕ → Option Bytes
unpack rounds [] room = if room == 0 then some [] else none
unpack zero (n ∷ src) room = none
unpack (suc rounds) (n ∷ src) room = elim (ltb n 128) [
  | true ↦ elim (ltb (length src) (n + 1) || ltb room (n + 1)) [
    | true ↦ none
    | false ↦ written (take (n + 1) src) (unpack rounds (drop (n + 1) src) (room - (n + 1)))
  ]
  | false ↦ elim (n == 128) [
    | true ↦ unpack rounds src room
    | false ↦ elim src [
      | [] ↦ none
      | value ∷ rest ↦ elim (ltb room (257 - n)) [
        | true ↦ none
        | false ↦ written (replicate (257 - n) value) (unpack rounds rest (room - (257 - n)))
      ]
    ]
  ]
]

-- UnpackBits: the destination's bytes, and none where it returns false
unfoldable pub unpack_bits : Bytes → ℕ → Option Bytes
unfolding unpack
unpack_bits src dst_len = unpack (length src) src dst_len
