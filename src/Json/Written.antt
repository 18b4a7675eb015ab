-- ===== src/Json/Written.antt =====
-- What JsonWriter of firmware/wifi/json.cpp promises: the text that a sequence of its calls stands
-- for, and the writer as that text cut off at the room of its buffer.
use diy_ebook.Prelude.{
  ℕ, ◌+◌, ◌-◌, ◌/◌, ◌%◌, Bool, true, false, List, [], ◌∷◌, ◌++◌, length, take, ltb, ◌==◌,
  if◌then◌else◌, codes,
}
use diy_ebook.Json.Writer.{
  JsonWriter, hex_char, begin_object, begin_object_at, end_object, begin_array, end_array,
  begin_array_element, key_string, digit_loop, digits_of, key_uint, key_negative, key_bool,
}

-- The text of one character inside quotes.
unfoldable pub escape : ℕ → List ℕ
escape c =
    if c == b'"'
    then b'\\' ∷ b'"' ∷ []
    else if c == b'\\'
    then b'\\' ∷ b'\\' ∷ []
    else if c == 10
    then b'\\' ∷ b'n' ∷ []
    else if c == 13
    then b'\\' ∷ b'r' ∷ []
    else if c == 9
    then b'\\' ∷ b't' ∷ []
    else if c == 8
    then b'\\' ∷ b'b' ∷ []
    else if c == 12
    then b'\\' ∷ b'f' ∷ []
    else if ltb c 0x20
    then b'\\' ∷ b'u' ∷ b'0' ∷ b'0' ∷ hex_char (c / 16 % 16) ∷ hex_char (c % 16) ∷ []
    else c ∷ []

unfoldable pub escapes : List ℕ → List ℕ
escapes [] = []
escapes (c ∷ cs) = escape c ++ escapes cs

abbrev pub quoted : List ℕ → List ℕ
quoted text = b'"' ∷ escapes text ++ b'"' ∷ []

abbrev pub comma_text : Bool → List ℕ
comma_text due = if due then b',' ∷ [] else []

abbrev pub key_text : List ℕ → Bool → List ℕ
key_text key due = comma_text due ++ quoted key ++ b':' ∷ []

-- A call of the writer.
pub data Call : Type 0 where
  object end_of_object end_of_array array_element : Call
  object_at array : List ℕ → Call
  string : List ℕ → List ℕ → Call
  uint negative : List ℕ → ℕ → Call
  truth : List ℕ → Bool → Call

unfoldable pub run : Call → JsonWriter → JsonWriter
unfolding begin_object end_object end_array begin_array_element begin_object_at begin_array
    key_string key_uint key_negative key_bool
run Call.object w = begin_object w
run Call.end_of_object w = end_object w
run Call.end_of_array w = end_array w
run Call.array_element w = begin_array_element w
run (Call.object_at key) w = begin_object_at key w
run (Call.array key) w = begin_array key w
run (Call.string key value) w = key_string key value w
run (Call.uint key value) w = key_uint key value w
run (Call.negative key below) w = key_negative key below w
run (Call.truth key value) w = key_bool key value w

unfoldable pub run_all : List Call → JsonWriter → JsonWriter
run_all [] w = w
run_all (c ∷ cs) w = run_all cs (run c w)

-- The text that a call adds, where the test says that a comma is due.
unfoldable pub call_text : Call → Bool → List ℕ
call_text Call.object due = comma_text due ++ b'{' ∷ []
call_text Call.end_of_object due = b'}' ∷ []
call_text Call.end_of_array due = b']' ∷ []
call_text Call.array_element due = comma_text due
call_text (Call.object_at key) due = key_text key due ++ b'{' ∷ []
call_text (Call.array key) due = key_text key due ++ b'[' ∷ []
call_text (Call.string key value) due = key_text key due ++ quoted value
call_text (Call.uint key value) due = key_text key due ++ digits_of value
call_text (Call.negative key below) due = key_text key due ++ b'-' ∷ digit_loop 20 (below + 1) []
call_text (Call.truth key value) due =
    key_text key due ++ (if value then codes "true" else codes "false")

-- A comma is due after a value or an end, and not after a start.
unfoldable pub comma_after : Call → Bool
comma_after Call.object = false
comma_after Call.array_element = false
comma_after (Call.object_at key) = false
comma_after (Call.array key) = false
comma_after _ = true

unfoldable pub text_of : List Call → Bool → List ℕ
unfolding call_text comma_after
text_of [] due = []
text_of (c ∷ cs) due = call_text c due ++ text_of cs (comma_after c)

unfoldable pub comma_at_end : List Call → Bool → Bool
unfolding comma_after
comma_at_end [] due = due
comma_at_end (c ∷ cs) due = comma_at_end cs (comma_after c)

-- The writer that was asked to write a text: the buffer holds what fits with the NUL.
unfoldable pub holding : ℕ → List ℕ → Bool → JsonWriter
holding capacity text due = record {
  text = take (capacity - 1) text;
  capacity = capacity;
  ok = ltb (length text) capacity;
  need_comma = due;
}
