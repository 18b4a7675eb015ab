-- ===== src/Json/Writer.antt =====
-- JsonWriter of firmware/wifi/json.cpp. The buffer is the text before its NUL; `length_` is the
-- length of that text.
use diy_ebook.Prelude.{
  ℕ, zero, suc, ◌+◌, ◌/◌, ◌%◌, Bool, true, false, List, [], ◌∷◌, ◌++◌, length, ltb, leb, ◌==◌, not,
  ◌||◌, if◌then◌else◌, codes, get_or,
}

pub record JsonWriter : Type 0 where
  pub text : List ℕ
  pub capacity : ℕ
  pub ok : Bool
  pub need_comma : Bool

-- The constructor; the test says that the buffer is not null.
unfoldable pub new_writer : Bool → ℕ → JsonWriter
new_writer has_buffer capacity = record {
  text = [];
  capacity = capacity;
  ok = not (not has_buffer || capacity == 0);
  need_comma = false;
}

unfoldable pub raw_char : ℕ → JsonWriter → JsonWriter
raw_char c w =
    if not w.ok
    then w
    else if leb w.capacity (length w.text + 1)
    then record w { ok = false }
    else record w { text = w.text ++ c ∷ [] }

unfoldable pub raw : List ℕ → JsonWriter → JsonWriter
raw [] w = w
raw (c ∷ cs) w = raw cs (raw_char c w)

-- kHex
abbrev pub hex_char : ℕ → ℕ
hex_char digit = get_or (codes "0123456789abcdef") digit 0

-- The body of the loop of `escaped`.
unfoldable pub escape_char : ℕ → JsonWriter → JsonWriter
escape_char c w =
    if c == b'"'
    then raw (b'\\' ∷ b'"' ∷ []) w
    else if c == b'\\'
    then raw (b'\\' ∷ b'\\' ∷ []) w
    else if c == 10
    then raw (b'\\' ∷ b'n' ∷ []) w
    else if c == 13
    then raw (b'\\' ∷ b'r' ∷ []) w
    else if c == 9
    then raw (b'\\' ∷ b't' ∷ []) w
    else if c == 8
    then raw (b'\\' ∷ b'b' ∷ []) w
    else if c == 12
    then raw (b'\\' ∷ b'f' ∷ []) w
    else if ltb c 0x20
    then raw_char (hex_char (c % 16)) (raw_char (hex_char (c / 16 % 16)) (raw (codes "\\u00") w))
    else raw_char c w

unfoldable pub escape_all : List ℕ → JsonWriter → JsonWriter
escape_all [] w = w
escape_all (c ∷ cs) w = escape_all cs (escape_char c w)

unfoldable pub escaped : List ℕ → JsonWriter → JsonWriter
escaped text w = raw_char b'"' (escape_all text (raw_char b'"' w))

unfoldable pub comma : JsonWriter → JsonWriter
comma w = if w.need_comma then raw_char b',' w else w

unfoldable pub separator : JsonWriter → JsonWriter
separator w = record (comma w) { need_comma = true }

-- separator(); escaped(key); rawChar(':')
unfoldable pub key_colon : List ℕ → JsonWriter → JsonWriter
key_colon key w = raw_char b':' (escaped key (separator w))

unfoldable pub begin_object : JsonWriter → JsonWriter
begin_object w = record (raw_char b'{' (comma w)) { need_comma = false }

unfoldable pub begin_object_at : List ℕ → JsonWriter → JsonWriter
begin_object_at key w = record (raw_char b'{' (key_colon key w)) { need_comma = false }

unfoldable pub end_object : JsonWriter → JsonWriter
end_object w = record (raw_char b'}' w) { need_comma = true }

unfoldable pub begin_array : List ℕ → JsonWriter → JsonWriter
begin_array key w = record (raw_char b'[' (key_colon key w)) { need_comma = false }

unfoldable pub end_array : JsonWriter → JsonWriter
end_array w = record (raw_char b']' w) { need_comma = true }

unfoldable pub begin_array_element : JsonWriter → JsonWriter
begin_array_element w = record (comma w) { need_comma = false }

unfoldable pub key_string : List ℕ → List ℕ → JsonWriter → JsonWriter
key_string key value w = escaped value (key_colon key w)

-- while (value > 0 && at > 0): the digits go in front of those that are written.
unfoldable pub digit_loop : ℕ → ℕ → List ℕ → List ℕ
digit_loop zero value digits = digits
digit_loop (suc at) value digits =
    let rest = digit_loop at (value / 10) ((b'0' + value % 10) ∷ digits) in
    if ltb 0 value then rest else digits

-- The array of 21 characters has room for 20 digits and the NUL.
unfoldable pub digits_of : ℕ → List ℕ
unfolding digit_loop
digits_of value = if value == 0 then b'0' ∷ [] else digit_loop 20 value []

unfoldable pub key_uint : List ℕ → ℕ → JsonWriter → JsonWriter
key_uint key value w = raw (digits_of value) (key_colon key w)

-- The branch of keyInt for a value below 0, given as -(value + 1).
unfoldable pub key_negative : List ℕ → ℕ → JsonWriter → JsonWriter
key_negative key below w = raw (digit_loop 20 (below + 1) []) (raw_char b'-' (key_colon key w))

unfoldable pub key_bool : List ℕ → Bool → JsonWriter → JsonWriter
key_bool key value w = raw (if value then codes "true" else codes "false") (key_colon key w)
