-- ===== src/Json/Reader.antt =====
-- JsonReader of firmware/wifi/json.cpp. A position in the text is the text from there on, so that
-- `length` stands for the empty text, and a span of the text is the bytes between two positions.
use diy_ebook.Prelude.{
  ℕ, zero, suc, ◌+◌, ◌-◌, ◌*◌, ◌/◌, Bool, true, false, Option, none, some, List, [], ◌∷◌, ◌++◌,
  length, take, drop, ltb, leb, ◌==◌, ◌&&◌, ◌||◌, not, if◌then◌else◌, same, bit_and, bit_or,
}

unfoldable pub is_space : ℕ → Bool
is_space c = c == b' ' || c == 9 || c == 10 || c == 13

unfoldable pub skip_space : List ℕ → List ℕ
unfolding is_space
skip_space [] = []
skip_space (c ∷ cs) = if is_space c then skip_space cs else c ∷ cs

-- The loop of SkipString. The test says that the byte before was a backslash, which takes the
-- position past this one (at += 2).
unfoldable pub string_end : Bool → List ℕ → List ℕ
string_end after_backslash [] = []
string_end true (c ∷ cs) = string_end false cs
string_end false (c ∷ cs) = if c == b'"' then cs else string_end (c == b'\\') cs

unfoldable pub skip_string : List ℕ → List ℕ
unfolding string_end
skip_string [] = []
skip_string (c ∷ cs) = if not (c == b'"') then [] else string_end false cs

-- The loop over a nested object or array, on fuel; `none` says that the fuel ran out.
unfoldable pub nested_end : ℕ → ℕ → ℕ → ℕ → List ℕ → Option (List ℕ)
unfolding skip_string
nested_end zero open_char close_char depth text = none
nested_end (suc fuel) open_char close_char depth [] = some []
nested_end (suc fuel) open_char close_char depth (d ∷ cs) = elim (d == b'"') [
  | true ↦ nested_end fuel open_char close_char depth (skip_string (d ∷ cs))
  | false ↦ elim (d == open_char) [
    | true ↦ nested_end fuel open_char close_char (depth + 1) cs
    | false ↦ elim (d == close_char) [
      | true ↦ elim (depth - 1 == 0) [
        | true ↦ some cs
        | false ↦ nested_end fuel open_char close_char (depth - 1) cs
      ]
      | false ↦ nested_end fuel open_char close_char depth cs
    ]
  ]
]

-- The fuel for a nested value: a round for every byte, and one for the end of the text.
abbrev pub nested_fuel : List ℕ → ℕ
nested_fuel text = suc (length text)

-- Where a loop on fuel stopped, and the end of the text for a loop without fuel.
abbrev pub or_end : Option (List ℕ) → List ℕ
or_end none = []
or_end (some text) = text

unfoldable pub scalar_end : List ℕ → List ℕ
unfolding is_space
scalar_end [] = []
scalar_end (c ∷ cs) =
    if not (c == b',') && not (c == b'}') && not (is_space c) then scalar_end cs else c ∷ cs

-- SkipValue after its SkipSpace.
unfoldable pub value_end_at : List ℕ → List ℕ
unfolding skip_string nested_end scalar_end
value_end_at [] = []
value_end_at (c ∷ cs) =
    if c == b'"'
    then skip_string (c ∷ cs)
    else if c == b'{' || c == b'['
    then or_end (nested_end (nested_fuel (c ∷ cs)) c (if c == b'{' then b'}' else b']') 0 (c ∷ cs))
    else scalar_end (c ∷ cs)

unfoldable pub skip_value : List ℕ → List ℕ
skip_value text = value_end_at (skip_space text)

-- text[start] .. text[end - 1]
abbrev pub between : List ℕ → List ℕ → List ℕ
between start end = take (length start - length end) start

-- The bytes of a quoted span without its two quotes.
abbrev pub inside_quotes : List ℕ → List ℕ
inside_quotes span = drop 1 (take (length span - 1) span)

unfoldable pub key_matches : List ℕ → List ℕ → Bool
unfolding same
key_matches span key = if ltb (length span) 2 then false else same key (inside_quotes span)

unfoldable pub valid : List ℕ → Bool
unfolding skip_space
valid text = elim (skip_space text) [ [] ↦ false | c ∷ cs ↦ c == b'{' ]

-- What a round of findValue comes to, where `next` goes on from a later position: `none` if that runs
-- out of fuel, else `some` of the answer, the span of the value if there is one.
module _ (next : List ℕ → Option (Option (List ℕ))) (key : List ℕ) where
  -- After a value of another key.
  unfoldable pub after_value : List ℕ → Option (Option (List ℕ))
  after_value [] = some none
  after_value (c ∷ cs) = elim (c == b',') [ true ↦ next cs | false ↦ some none ]

  unfoldable pub value_of_key : List ℕ → List ℕ → Option (Option (List ℕ))
  value_of_key quoted value =
      if leb (length value) (length (skip_value value))
      then some none
      else if key_matches quoted key
      then some (some (between value (skip_value value)))
      else after_value (skip_space (skip_value value))

  unfoldable pub at_colon : List ℕ → List ℕ → Option (Option (List ℕ))
  at_colon quoted [] = some none
  at_colon quoted (c ∷ cs) =
      if not (c == b':') then some none else value_of_key quoted (skip_space cs)

  unfoldable pub at_key : List ℕ → Option (Option (List ℕ))
  at_key [] = some none
  at_key (c ∷ cs) =
      if c == b'}'
      then some none
      else if not (c == b'"')
      then some none
      else at_colon (between (c ∷ cs) (skip_string (c ∷ cs))) (skip_space (skip_string (c ∷ cs)))

-- The loop of findValue, on fuel; `none` says that the fuel ran out.
unfoldable pub find_from : ℕ → List ℕ → List ℕ → Option (Option (List ℕ))
find_from zero key text = none
find_from (suc fuel) key text = at_key (find_from fuel key) key (skip_space text)

-- The answer of a loop on fuel, and no value for a loop without fuel.
abbrev pub or_absent : Option (Option (List ℕ)) → Option (List ℕ)
or_absent none = none
or_absent (some answer) = answer

-- The span of the value, in place of its start and its end.
unfoldable pub find_value : List ℕ → List ℕ → Option (List ℕ)
find_value key text =
    if not (valid text)
    then none
    else or_absent (find_from (length text) key (drop 1 (skip_space text)))

unfoldable pub has : List ℕ → List ℕ → Bool
has key text = elim (find_value key text) [ none ↦ false | some span ↦ true ]

-- Bytes that are appended to a buffer that keeps room for the NUL.
unfoldable pub append_bytes : ℕ → List ℕ → List ℕ → Option (List ℕ)
append_bytes capacity out bytes =
    if leb capacity (length out + length bytes) then none else some (out ++ bytes)

-- A code in UTF-8.
unfoldable pub utf8_bytes : ℕ → List ℕ
utf8_bytes code =
    if ltb code 0x80
    then code ∷ []
    else if ltb code 0x800
    then bit_or 0xC0 (code / 64) ∷ bit_or 0x80 (bit_and code 0x3F) ∷ []
    else bit_or 0xE0 (code / 4096)
      ∷ bit_or 0x80 (bit_and (code / 64) 0x3F)
      ∷ bit_or 0x80 (bit_and code 0x3F)
      ∷ []

-- Each branch of AppendUtf8 asks for the room of the bytes that it writes.
unfoldable pub append_utf8 : ℕ → List ℕ → ℕ → Option (List ℕ)
append_utf8 capacity out code = append_bytes capacity out (utf8_bytes code)

unfoldable pub hex_digit : ℕ → Option ℕ
hex_digit c =
    if leb b'0' c && leb c b'9'
    then some (c - b'0')
    else if leb b'a' c && leb c b'f'
    then some (c - b'a' + 10)
    else if leb b'A' c && leb c b'F'
    then some (c - b'A' + 10)
    else none

-- The digits of \uXXXX that are left to read, the code so far, and the text.
unfoldable pub hex_code : ℕ → ℕ → List ℕ → Option (ℕ × List ℕ)
hex_code zero code cs = some (code, cs)
hex_code (suc n) code [] = none
hex_code (suc n) code (c ∷ cs) = elim (hex_digit c) [
  | none ↦ none
  | some digit ↦ hex_code n (code * 16 + digit) cs
]

-- The switch of getString; 'u' is apart.
unfoldable pub simple_escape : ℕ → Option ℕ
simple_escape c =
    if c == b'"'
    then some b'"'
    else if c == b'\\'
    then some b'\\'
    else if c == b'/'
    then some b'/'
    else if c == b'b'
    then some 8
    else if c == b'f'
    then some 12
    else if c == b'n'
    then some 10
    else if c == b'r'
    then some 13
    else if c == b't'
    then some 9
    else none
