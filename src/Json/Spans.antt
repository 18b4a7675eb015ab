-- ===== src/Json/Spans.antt =====
-- firmware/wifi/json.cpp: a value that JsonWriter wrote is what SkipValue goes past.
use diy_ebook.Prelude.{
  ℕ, ◌<◌, ◌≡◌, refl, Bool, true, false, ◌||◌, List, [], ◌∷◌, ◌++◌, length, All, ◌==◌, if◌then◌else◌,
  codes, arith,
}
use diy_ebook.Json.Writer.{digits_of}
use diy_ebook.Json.Written.{quoted}
use diy_ebook.Json.Reader.{is_space, skip_space, scalar_end, value_end_at, skip_value}
use diy_ebook.Json.Escapes.{skip_string-quoted}
use diy_ebook.Json.Digits.{IsDigit, All-digits_of, length-digits_of}
use diy_ebook.Json.Fields.{Value, value_text}

-- What follows a value that was written.
abbrev pub is_end : List ℕ → Bool
is_end [] = false
is_end (c ∷ cs) = c == b',' || c == b'}'

scalar_end-digits :
    (ds rest : List ℕ) → All IsDigit ds → is_end rest ≡ true → scalar_end (ds ++ rest) ≡ rest
unfolding scalar_end is_space
scalar_end-digits [] [] h e = cc
scalar_end-digits [] (c ∷ rest) h e = ground arith
scalar_end-digits (d ∷ ds) rest h e = ground (arith, scalar_end-digits ds rest)

skip_space-digits :
    (ds rest : List ℕ) → All IsDigit ds → 0 < length ds → skip_space (ds ++ rest) ≡ ds ++ rest
unfolding skip_space is_space
skip_space-digits [] rest h k = absurd (omega arith)
skip_space-digits (d ∷ ds) rest h k = ground arith

value_end_at-digits :
    (ds rest : List ℕ)
    → All IsDigit ds
    → 0 < length ds
    → value_end_at (ds ++ rest) ≡ scalar_end (ds ++ rest)
unfolding value_end_at
value_end_at-digits [] rest h k = absurd (omega arith)
value_end_at-digits (d ∷ ds) rest h k = ground arith

skip_value-digits :
    (ds rest : List ℕ)
    → All IsDigit ds
    → 0 < length ds
    → is_end rest ≡ true
    → skip_value (ds ++ rest) ≡ rest
unfolding skip_value
skip_value-digits ds rest h k e =
    rw (skip_space-digits ds rest h k, value_end_at-digits ds rest h k)
      (scalar_end-digits ds rest h e)

skip_value-word :
    (word : Bool) (rest : List ℕ)
    → is_end rest ≡ true
    → skip_value ((if word then codes "true" else codes "false") ++ rest) ≡ rest
unfolding skip_value skip_space value_end_at scalar_end is_space
skip_value-word word [] e = cc
skip_value-word true (c ∷ rest) e = ground arith
skip_value-word false (c ∷ rest) e = ground arith

skip_value-quoted : (cs rest : List ℕ) → skip_value (quoted cs ++ rest) ≡ rest
unfolding skip_value skip_space value_end_at is_space
skip_value-quoted cs rest = skip_string-quoted cs rest

-- A value that was written is skipped up to the comma or the brace behind it.
pub skip_value-value_text :
    (v : Value) (rest : List ℕ) → is_end rest ≡ true → skip_value (value_text v ++ rest) ≡ rest
skip_value-value_text (Value.string cs) rest e = skip_value-quoted cs rest
skip_value-value_text (Value.uint n) rest e =
    skip_value-digits (digits_of n) rest (All-digits_of n) (length-digits_of n) e
skip_value-value_text (Value.truth b) rest e = skip_value-word b rest e

pub skip_space-value_text :
    (v : Value) (rest : List ℕ) → skip_space (value_text v ++ rest) ≡ value_text v ++ rest
unfolding skip_space is_space
skip_space-value_text (Value.string cs) rest = refl
skip_space-value_text (Value.uint n) rest =
    skip_space-digits (digits_of n) rest (All-digits_of n) (length-digits_of n)
skip_space-value_text (Value.truth true) rest = refl
skip_space-value_text (Value.truth false) rest = refl

pub length-value_text : (v : Value) → 0 < length (value_text v)
length-value_text (Value.string cs) = omega arith
length-value_text (Value.uint n) = length-digits_of n
length-value_text (Value.truth true) = omega arith
length-value_text (Value.truth false) = omega arith
