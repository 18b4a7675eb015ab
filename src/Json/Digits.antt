-- ===== src/Json/Digits.antt =====
-- firmware/wifi/json.cpp: the digits that JsonWriter writes, and what getUint64 reads from them.
use diy_ebook.Prelude.{
  ℕ, zero, suc, ◌+◌, ◌-◌, ◌*◌, ◌/◌, ◌%◌, ◌^◌, ◌≤◌, ◌<◌, ◌≡◌, refl, ap, ◌∙◌, inl, inr, some, List,
  [], ◌∷◌, length, All, ltb, ◌==◌, arith, Bool-cases,
}
use native.Mathlib.Nat.{pow-suc}
use diy_ebook.Json.Writer.{digit_loop, digits_of}
use diy_ebook.Json.Values.{digits_value, read_uint64}

abbrev pub IsDigit : ℕ → Type 0
IsDigit c = (b'0' ≤ c) × (c ≤ b'9')

pub All-digit_loop : (at v : ℕ) (ds : List ℕ) → All IsDigit ds → All IsDigit (digit_loop at v ds)
unfolding digit_loop
All-digit_loop zero v ds h = h
All-digit_loop (suc at) v ds h = elim (Bool-cases (ltb 0 v)) [
  | inl more ↦
      rw more (All-digit_loop at (v / 10) ((b'0' + v % 10) ∷ ds) ((omega arith, omega arith), h))
  | inr done ↦ rw done h
]

pub All-digits_of : (v : ℕ) → All IsDigit (digits_of v)
unfolding digits_of
All-digits_of v = elim (Bool-cases (v == 0)) [
  | inl h ↦ rw h ((omega arith, omega arith), tt)
  | inr h ↦ rw h (All-digit_loop 20 v [] tt)
]

-- The value that was read grows by the next digit.
digits_value_step :
    (v : ℕ) (ds : List ℕ)
    → v < 2 ^ 64
    → digits_value (v / 10) ((b'0' + v % 10) ∷ ds) ≡ digits_value v ds
unfolding digits_value
digits_value_step v ds h =
    let digit : b'0' + v % 10 - b'0' ≡ v % 10 = omega arith in
    let value : v / 10 * 10 + v % 10 ≡ v = omega arith in rw (digit, value) (ground arith)

digits_value-digit_loop :
    (at v : ℕ) (ds : List ℕ)
    → v < 2 ^ 64
    → v < 10 ^ at
    → digits_value 0 (digit_loop at v ds) ≡ digits_value v ds
unfolding digit_loop
digits_value-digit_loop zero v ds h k =
    let e : 0 ≡ v = omega arith in ap (λ (t : ℕ). digits_value t ds) e
digits_value-digit_loop (suc at) v ds h k = elim (Bool-cases (ltb 0 v)) [
  | inl more ↦ rw more (
      digits_value-digit_loop at (v / 10) ((b'0' + v % 10) ∷ ds) (omega arith)
        (omega (arith, pow-suc 10 at))
      ∙ digits_value_step v ds h)
  | inr done ↦ let e : 0 ≡ v = ground arith in rw done (ap (λ (t : ℕ). digits_value t ds) e)
]

digits_value-digits_of : (v : ℕ) → v < 2 ^ 64 → digits_value 0 (digits_of v) ≡ some v
unfolding digits_of
digits_value-digits_of v h = elim (Bool-cases (v == 0)) [
  | inl zero_value ↦
      let e : 0 ≡ v = ground arith in rw zero_value (unfold digits_value in ap some e)
  | inr other ↦
      rw other (digits_value-digit_loop 20 v [] h (omega arith) ∙ unfold digits_value in refl)
]

read_uint64-digits :
    (ds : List ℕ) (v : ℕ)
    → All IsDigit ds
    → digits_value 0 ds ≡ some v
    → 0 < length ds
    → read_uint64 (some ds) ≡ some v
unfolding read_uint64
read_uint64-digits [] v h e k = absurd (omega arith)
read_uint64-digits (c ∷ cs) v h e k = ground arith

length-digit_loop : (at v : ℕ) (ds : List ℕ) → length ds ≤ length (digit_loop at v ds)
unfolding digit_loop
length-digit_loop zero v ds = omega arith
length-digit_loop (suc at) v ds = elim (Bool-cases (ltb 0 v)) [
  | inl more ↦ rw more (omega (arith, length-digit_loop at (v / 10) ((b'0' + v % 10) ∷ ds)))
  | inr done ↦ rw done (omega arith)
]

pub length-digits_of : (v : ℕ) → 0 < length (digits_of v)
unfolding digits_of digit_loop
length-digits_of v = ground (arith, length-digit_loop 19 (v / 10) ((b'0' + v % 10) ∷ []))

-- What keyUint writes for a value of 64 bits, getUint64 reads.
pub read_uint64-digits_of : (v : ℕ) → v < 2 ^ 64 → read_uint64 (some (digits_of v)) ≡ some v
read_uint64-digits_of v h =
    read_uint64-digits (digits_of v) v (All-digits_of v) (digits_value-digits_of v h)
      (length-digits_of v)
