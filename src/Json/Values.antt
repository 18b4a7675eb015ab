-- ===== src/Json/Values.antt =====
-- JsonReader of firmware/wifi/json.cpp: the values that getString, getUint64, getUint32 and getBool
-- make of the span that findValue gives.
use diy_ebook.Prelude.{
  ℕ, zero, suc, ◌+◌, ◌-◌, ◌*◌, ◌/◌, Bool, true, false, Option, none, some, List, [], ◌∷◌, length,
  ltb, leb, ◌==◌, ◌&&◌, ◌||◌, not, if◌then◌else◌, codes, same, get_or,
}
use diy_ebook.Json.Reader.{
  find_value, inside_quotes, append_bytes, append_utf8, hex_code, simple_escape,
}

-- What is written so far, and the text that is left.
abbrev pub put : Option (List ℕ) → List ℕ → Option (List ℕ × List ℕ)
put none rest = none
put (some out) rest = some (out, rest)

module _ (capacity : ℕ) (out : List ℕ) where
  -- Surrogate halves are refused.
  unfoldable pub after_code : Option (ℕ × List ℕ) → Option (List ℕ × List ℕ)
  unfolding append_utf8
  after_code none = none
  after_code (some (code, rest)) =
      if leb 0xD800 code && leb code 0xDFFF then none else put (append_utf8 capacity out code) rest

  unfoldable pub simple_char : Option ℕ → List ℕ → Option (List ℕ × List ℕ)
  unfolding append_bytes
  simple_char none rest = none
  simple_char (some c) rest = put (append_bytes capacity out (c ∷ [])) rest

  unfoldable pub after_backslash : List ℕ → Option (List ℕ × List ℕ)
  unfolding simple_escape
  after_backslash [] = none
  after_backslash (c ∷ rest) =
      if c == b'u' then after_code (hex_code 4 0 rest) else simple_char (simple_escape c) rest

  unfoldable pub next_char : ℕ → List ℕ → Option (List ℕ × List ℕ)
  unfolding append_bytes after_backslash
  next_char c rest =
      if not (c == b'\\')
      then put (append_bytes capacity out (c ∷ [])) rest
      else after_backslash rest

-- The loop of getString, on fuel: each round moves on in the text.
unfoldable pub unescape : ℕ → ℕ → List ℕ → List ℕ → Option (List ℕ)
unescape zero capacity out text = none
unescape (suc fuel) capacity out [] = some out
unescape (suc fuel) capacity out (c ∷ cs) = elim (next_char capacity out c cs) [
  | none ↦ none
  | some (out', rest) ↦ unescape fuel capacity out' rest
]

unfoldable pub read_string : ℕ → Option (List ℕ) → Option (List ℕ)
read_string capacity none = none
read_string capacity (some span) =
    if not (get_or span 0 0 == b'"') || ltb (length span) 2
    then none
    else unescape (length span) capacity [] (inside_quotes span)

unfoldable pub get_string : List ℕ → ℕ → List ℕ → Option (List ℕ)
get_string key capacity text =
    if capacity == 0 then none else read_string capacity (find_value key text)

-- The loop of getUint64; the subtraction and the division are the code's overflow test.
unfoldable pub digits_value : ℕ → List ℕ → Option ℕ
digits_value value [] = some value
digits_value value (c ∷ cs) =
    if ltb c b'0' || ltb b'9' c
    then none
    else if ltb ((0xFFFFFFFFFFFFFFFF - (c - b'0')) / 10) value
    then none
    else digits_value (value * 10 + (c - b'0')) cs

unfoldable pub read_uint64 : Option (List ℕ) → Option ℕ
read_uint64 none = none
read_uint64 (some []) = none
read_uint64 (some (c ∷ cs)) = if c == b'-' then none else digits_value 0 (c ∷ cs)

unfoldable pub get_uint64 : List ℕ → List ℕ → Option ℕ
get_uint64 key text = read_uint64 (find_value key text)

unfoldable pub read_uint32 : Option ℕ → Option ℕ
read_uint32 none = none
read_uint32 (some wide) = if ltb 0xFFFFFFFF wide then none else some wide

unfoldable pub get_uint32 : List ℕ → List ℕ → Option ℕ
get_uint32 key text = read_uint32 (get_uint64 key text)

unfoldable pub read_bool : Option (List ℕ) → Option Bool
unfolding same
read_bool none = none
read_bool (some span) =
    if same span (codes "true")
    then some true
    else if same span (codes "false")
    then some false
    else none

unfoldable pub get_bool : List ℕ → List ℕ → Option Bool
get_bool key text = read_bool (find_value key text)
