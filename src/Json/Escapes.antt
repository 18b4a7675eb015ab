-- ===== src/Json/Escapes.antt =====
-- firmware/wifi/json.cpp: what JsonReader makes of the quoted texts and of the digits that
-- JsonWriter writes.
use diy_ebook.Prelude.{
  ℕ, zero, suc, ◌+◌, ◌-◌, ◌*◌, ◌/◌, ◌%◌, ◌≤◌, ◌<◌, ◌≡◌, refl, ap, ◌∙◌, Bool, true, false, ◌&&◌, not,
  Option, none, some, List, [], ◌∷◌, ◌++◌, length, length-append, take-append, ◌==◌, arith,
  all_below, all_below_sound, ==_iff,
}
use mathlib.Core.List.{append_assoc, append-nil}
use diy_ebook.Json.Writer.{hex_char}
use diy_ebook.Json.Written.{escape, escapes, quoted}
use diy_ebook.Json.Reader.{
  string_end, skip_string, append_bytes, append_utf8, utf8_bytes, hex_digit, hex_code,
  simple_escape, inside_quotes,
}
use diy_ebook.Json.Values.{
  after_code, simple_char, after_backslash, next_char, unescape, read_string,
}

is_some_digit : ℕ → Option ℕ → Bool
is_some_digit d none = false
is_some_digit d (some v) = v == d

hex_table : all_below 16 (λ d. is_some_digit d (hex_digit (hex_char d))) ≡ true
unfolding all_below is_some_digit hex_digit
hex_table = refl

is_some_digit_lem : (d : ℕ) (o : Option ℕ) → is_some_digit d o ≡ true → o ≡ some d
unfolding is_some_digit
is_some_digit_lem d none h = cc
is_some_digit_lem d (some v) h = ap some ((==_iff v d).0 h)

hex_digit-hex_char : (d : ℕ) → d < 16 → hex_digit (hex_char d) ≡ some d
hex_digit-hex_char d h = is_some_digit_lem d _ (all_below_sound 16 _ d hex_table h)

plain_table : all_below 16 (λ d. not (hex_char d == b'"') && not (hex_char d == b'\\')) ≡ true
unfolding all_below
plain_table = refl

both_not : (a b : Bool) → (not a && not b) ≡ true → (a ≡ false) × (b ≡ false)
both_not a b h = ground arith

hex_char-plain : (d : ℕ) → d < 16 → ((hex_char d == b'"') ≡ false) × ((hex_char d == b'\\') ≡ false)
hex_char-plain d h = both_not _ _ (all_below_sound 16 _ d plain_table h)

string_end_plain :
    (c : ℕ) (rest : List ℕ)
    → (c == b'"') ≡ false
    → (c == b'\\') ≡ false
    → string_end false (c ∷ rest) ≡ string_end false rest
unfolding string_end
string_end_plain c rest h k = rw (h, k) refl

string_end-hex :
    (a b : ℕ) (rest : List ℕ)
    → a < 16
    → b < 16
    → string_end false (hex_char a ∷ hex_char b ∷ rest) ≡ string_end false rest
string_end-hex a b rest p q =
    string_end_plain (hex_char a) (hex_char b ∷ rest) (hex_char-plain a p).0 (hex_char-plain a p).1
    ∙ string_end_plain (hex_char b) rest (hex_char-plain b q).0 (hex_char-plain b q).1

string_end-control :
    (c : ℕ) (rest : List ℕ)
    → string_end false
        (b'\\' ∷ b'u' ∷ b'0' ∷ b'0' ∷ hex_char (c / 16 % 16) ∷ hex_char (c % 16) ∷ rest)
      ≡ string_end false rest
unfolding string_end
string_end-control c rest = string_end-hex (c / 16 % 16) (c % 16) rest (omega arith) (omega arith)

string_end-escape :
    (c : ℕ) (rest : List ℕ) → string_end false (escape c ++ rest) ≡ string_end false rest
unfolding escape string_end
string_end-escape c rest = ground (arith, string_end-control c rest, string_end_plain c rest)

pub string_end-escapes :
    (cs rest : List ℕ) → string_end false (escapes cs ++ rest) ≡ string_end false rest
unfolding escapes
string_end-escapes [] rest = refl
string_end-escapes (c ∷ cs) rest =
    rw (append_assoc (escape c) (escapes cs) rest)
      (string_end-escape c (escapes cs ++ rest) ∙ string_end-escapes cs rest)

-- A quoted text is skipped as a whole.
pub skip_string-quoted : (cs rest : List ℕ) → skip_string (quoted cs ++ rest) ≡ rest
unfolding skip_string string_end
skip_string-quoted cs rest =
    rw (append_assoc (escapes cs) (b'"' ∷ []) rest) (string_end-escapes cs (b'"' ∷ rest))

hex_code_step :
    (n code c d : ℕ) (cs : List ℕ)
    → hex_digit c ≡ some d
    → hex_code (suc n) code (c ∷ cs) ≡ hex_code n (code * 16 + d) cs
unfolding hex_code
hex_code_step n code c d cs h = rw (h, hex_code) refl

hex_code-control :
    (a b : ℕ) (rest : List ℕ)
    → a < 16
    → b < 16
    → hex_code 4 0 (b'0' ∷ b'0' ∷ hex_char a ∷ hex_char b ∷ rest) ≡ some (a * 16 + b, rest)
unfolding hex_code
hex_code-control a b rest p q =
    let zero_digit = hex_digit-hex_char 0 (omega arith) in
    hex_code_step 3 0 b'0' 0 (b'0' ∷ hex_char a ∷ hex_char b ∷ rest) zero_digit
    ∙ hex_code_step 2 0 b'0' 0 (hex_char a ∷ hex_char b ∷ rest) zero_digit
    ∙ hex_code_step 1 0 (hex_char a) a (hex_char b ∷ rest) (hex_digit-hex_char a p)
    ∙ hex_code_step 0 (0 * 16 + a) (hex_char b) b rest (hex_digit-hex_char b q)
    ∙ ap (λ (t : ℕ). some (t, rest)) (omega arith)

module _ (capacity : ℕ) (out : List ℕ) where
  append_byte :
      (c : ℕ)
      → length out + 1 < capacity
      → append_bytes capacity out (c ∷ []) ≡ some (out ++ c ∷ [])
  unfolding append_bytes
  append_byte c h = ground arith

  after_backslash-control :
      (c : ℕ) (rest : List ℕ)
      → c < 32
      → length out + 1 < capacity
      → after_backslash capacity out
          (b'u' ∷ b'0' ∷ b'0' ∷ hex_char (c / 16 % 16) ∷ hex_char (c % 16) ∷ rest)
        ≡ some (out ++ c ∷ [], rest)
  unfolding after_backslash after_code append_utf8 utf8_bytes
  after_backslash-control c rest low room =
      let value : c / 16 % 16 * 16 + c % 16 ≡ c = omega arith in
      rw (hex_code-control (c / 16 % 16) (c % 16) rest (omega arith) (omega arith), value)
        (ground (arith, append_byte c))

  -- A round of the reader's loop undoes one of the writer's.
  unescape-escape :
      (fuel c : ℕ) (rest : List ℕ)
      → length out + 1 < capacity
      → unescape (suc fuel) capacity out (escape c ++ rest)
        ≡ unescape fuel capacity (out ++ c ∷ []) rest
  unfolding unescape escape next_char simple_char after_backslash simple_escape
  unescape-escape fuel c rest room = ground (arith, append_byte c, after_backslash-control c rest)

length-escape : (c : ℕ) → 1 ≤ length (escape c)
unfolding escape
length-escape c = ground arith

length-escapes : (cs : List ℕ) → length cs ≤ length (escapes cs)
unfolding escapes
length-escapes [] = omega arith
length-escapes (c ∷ cs) =
    omega (arith, length-append {0} (escape c) (escapes cs), length-escape c, length-escapes cs)

unescape-escapes :
    (fuel capacity : ℕ) (out cs : List ℕ)
    → length cs < fuel
    → length out + length cs < capacity
    → unescape fuel capacity out (escapes cs) ≡ some (out ++ cs)
unfolding escapes
unescape-escapes zero capacity out cs h k = absurd (omega arith)
unescape-escapes (suc fuel) capacity out [] h k = rw (append-nil out) (unfold unescape in refl)
unescape-escapes (suc fuel) capacity out (c ∷ cs) h k =
    unescape-escape capacity out fuel c (escapes cs) (omega arith)
    ∙ unescape-escapes fuel capacity (out ++ c ∷ []) cs (omega arith)
        (omega (arith, length-append {0} out (c ∷ [])))
    ∙ ap some (append_assoc out (c ∷ []) cs)

pub inside_quotes-opened :
    (cs : List ℕ) (last : ℕ) → inside_quotes (b'"' ∷ escapes cs ++ last ∷ []) ≡ escapes cs
inside_quotes-opened cs last =
    let e : length (b'"' ∷ escapes cs ++ last ∷ []) - 1 ≡ suc (length (escapes cs)) =
      omega (arith, length-append {0} (escapes cs) (last ∷ [])) in
    rw e (take-append (escapes cs) (last ∷ []))

-- A text that fits the buffer with its NUL is read from its escaped form behind a quote; the last
-- character, which should be the other quote, is not looked at.
pub read_string-opened :
    (capacity : ℕ) (cs : List ℕ) (last : ℕ)
    → length cs < capacity
    → read_string capacity (some (b'"' ∷ escapes cs ++ last ∷ [])) ≡ some cs
unfolding read_string
read_string-opened capacity cs last h =
    let e : length (escapes cs ++ last ∷ []) ≡ suc (length (escapes cs)) =
      omega (arith, length-append {0} (escapes cs) (last ∷ [])) in
    rw (inside_quotes-opened cs last, e)
      (ground (
        arith,
        length-escapes cs,
        unescape-escapes (suc (suc (length (escapes cs)))) capacity [] cs,
      ))
