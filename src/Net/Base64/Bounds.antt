-- ===== src/Net/Base64/Bounds.antt =====
-- firmware/wifi/base64.cpp: DecodeBase64 stays inside the caller's buffer, whatever the text is.
use diy_ebook.Prelude.{
  ℕ, ◌+◌, ◌-◌, ◌/◌, ◌%◌, ◌^◌, ◌≤◌, ◌≡◌, subst, ◌⊎◌, inl, inr, true, false, ◌||◌, Option, none, some,
  List, [], ◌∷◌, ◌++◌, length, length-append, ltb, leb, ◌==◌, either, if◌then◌else◌, arith,
  Bool-cases, Option-cases,
}
use diy_ebook.Net.Base64.{
  Decoder, digit_value, shift_in, put_bits, data_char, other_char, decode_char, decode_loop, start,
  decode_base64,
}

-- What is written is inside the buffer.
abbrev Inside : ℕ → Option Decoder → Type 0
Inside capacity none = Unit {0}
Inside capacity (some d) = length d.out ≤ capacity

module _ (capacity : ℕ) where
  put_bits-Inside :
      (bits : ℕ) (d : Decoder)
      → length d.out ≤ capacity
      → Inside capacity (put_bits capacity bits d)
  unfolding put_bits
  put_bits-Inside bits d h =
      either (Inside capacity) (leb 8 bits) _ (some record d { bits = bits })
        (choose (Bool-cases (leb capacity (length d.out)))) h
    where
      byte : ℕ
      byte = d.accumulator / 2 ^ (bits - 8) % 256

      choose :
          (leb capacity (length d.out) ≡ true) ⊎ (leb capacity (length d.out) ≡ false)
          → Inside capacity (
              if leb capacity (length d.out)
              then none
              else some record d { bits = bits - 8; out = d.out ++ byte ∷ [] })
      choose (inl full) = rw full tt
      choose (inr room) = rw room (ground (arith, length-append {0} d.out (byte ∷ [])))

  decode_char-Inside :
      (c : ℕ) (d : Decoder) → length d.out ≤ capacity → Inside capacity (decode_char capacity c d)
  unfolding decode_char
  decode_char-Inside c d h = by_value (digit_value c)
    where
      by_value :
          (o : Option ℕ)
          → Inside capacity
              (elim o [ some value ↦ data_char capacity value d | none ↦ other_char c d ])
      by_value none =
          unfold other_char in
          either (Inside capacity) (c == b'=') _ _ h
            (either (Inside capacity) (c == 13 || c == 10) _ _ h tt)
      by_value (some value) =
          unfold data_char in
          either (Inside capacity) (ltb 0 d.padding) none _ tt
            (put_bits-Inside (d.bits + 6) record d { accumulator = shift_in d.accumulator value } h)

  decode_loop-Inside :
      (text : List ℕ) (d : Decoder)
      → length d.out ≤ capacity
      → Inside capacity (decode_loop capacity text d)
  unfolding decode_loop
  decode_loop-Inside [] d h = h
  decode_loop-Inside (c ∷ cs) d h = elim (Option-cases (decode_char capacity c d)) [
    | inl refused ↦ rw (refused, decode_loop) tt
    | inr (d', e) ↦
        rw (e, decode_loop)
          (decode_loop-Inside cs d' (subst (Inside capacity) e (decode_char-Inside c d h)))
  ]

pub length-decode_base64 :
    (capacity : ℕ) (text : List ℕ) {out : List ℕ}
    → decode_base64 capacity text ≡ some out
    → length out ≤ capacity
unfolding decode_base64
length-decode_base64 capacity text h = elim (Option-cases (decode_loop capacity text start)) [
  | inl refused ↦ ground arith
  | inr (d, e) ↦
      let room : length d.out ≤ capacity =
        subst (Inside capacity) e (decode_loop-Inside capacity text start (omega arith)) in
      ground arith
]
