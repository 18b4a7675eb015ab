-- ===== src/Witnesses/Json.antt =====
-- The JSON writer and reader at concrete inputs.
use diy_ebook.Prelude.{
  ℕ, ◌-◌, ◌∙◌, same, ◌≡◌, ◌<◌, ◌≤◌, refl, arith, true, false, some, List, [], ◌∷◌, ◌++◌, length,
  take, drop, ltb, codes,
}
use diy_ebook.Json.Writer.{new_writer, digits_of}
use diy_ebook.Json.Written.{Call, run_all, text_of, quoted, escapes, escape, call_text, comma_after}
use diy_ebook.Json.Refines.{run_all-new_writer}
use diy_ebook.Json.Reader.{
  find_value, find_from, nested_end, nested_fuel, valid, skip_space, at_key, at_colon, value_of_key,
  after_value, key_matches, skip_value, skip_string, value_end_at, append_bytes,
}
use diy_ebook.Json.Values.{get_string, read_string, unescape, next_char}
use diy_ebook.Json.Fields.{
  Value, Field, write_object, lookup, fits, get_like, plain_keys, plain_text, field_calls,
  field_call,
}
use diy_ebook.Json.Fuel.{find_value-fuel}
use diy_ebook.Json.Bounds.{get_string-length}
use diy_ebook.Json.ReadBack.{get_like-write_object, get_string-unterminated}

-- A quote, a backslash, a line feed and a control character.
abbrev tricky : List ℕ
tricky = b'a' ∷ b'"' ∷ b'\\' ∷ 10 ∷ 27 ∷ []

abbrev fields : List Field
fields =
    (codes "ssid", Value.string tricky)
    ∷ (codes "size", Value.uint 18446744073709551615)
    ∷ (codes "on", Value.truth false)
    ∷ []

abbrev calls : List Call
calls = Call.object ∷ Call.uint (codes "n") 42 ∷ Call.array (codes "a") ∷ Call.end_of_array ∷ []

run_all_example :
    ((run_all calls (new_writer true 8)).ok ≡ ltb (length (text_of calls false)) 8)
    × ((run_all calls (new_writer true 8)).text ≡ take (8 - 1) (text_of calls false))
run_all_example = run_all-new_writer calls 8

short_enough : ltb (length (text_of (Call.object ∷ field_calls fields) false)) 80 ≡ true
unfolding text_of call_text comma_after field_calls field_call escapes escape digits_of
short_enough = refl

written : (write_object fields 80).ok ≡ true
unfolding write_object
written = (run_all-new_writer (Call.object ∷ field_calls fields) 80).0 ∙ short_enough

plain : plain_keys fields ≡ true
unfolding plain_keys
plain = refl

found : lookup (codes "ssid") fields ≡ some (Value.string tricky)
unfolding lookup same
found = refl

room : fits 6 (Value.string tricky) ≡ true
unfolding fits
room = refl

get_like_example :
    get_like (Value.string tricky) (codes "ssid") 6 (write_object fields 80).text
    ≡ some (Value.string tricky)
get_like_example =
    get_like-write_object fields (codes "ssid") (Value.string tricky) 80 6 plain written found room

abbrev nested_text : List ℕ
nested_text = codes "{\"m\":[1,{}],\"n\":7}"

is_object : valid nested_text ≡ true
unfolding valid skip_space
is_object = refl

find_value_example :
    (find_from 40 (codes "n") (drop 1 (skip_space nested_text))
      ≡ some (find_value (codes "n") nested_text))
    × (end : List ℕ) × (nested_end 40 b'[' b']' 0 (codes "[1,{}],\"n\":7}") ≡ some end)
    × (nested_end (nested_fuel (codes "[1,{}],\"n\":7}")) b'[' b']' 0 (codes "[1,{}],\"n\":7}")
        ≡ some end)
    × (length end ≤ length (codes "[1,{}],\"n\":7}"))
find_value_example =
    find_value-fuel (codes "n") nested_text (codes "[1,{}],\"n\":7}") 40 b'[' b']' 0 is_object
      (omega arith) (omega arith)

-- The reader goes past nested values.
nested_skipped : find_value (codes "n") nested_text ≡ some (codes "7")
unfolding find_value find_from at_key at_colon value_of_key after_value key_matches valid skip_value
    skip_space skip_string value_end_at same
nested_skipped = refl

read_two : get_string (codes "k") 4 (codes "{\"k\":\"ab\"}") ≡ some (codes "ab")
unfolding get_string find_value find_from at_key at_colon value_of_key after_value key_matches valid
    skip_value skip_space skip_string value_end_at same read_string unescape next_char append_bytes
read_two = refl

get_string_example : length (codes "ab") < 4
get_string_example = get_string-length (codes "k") 4 (codes "{\"k\":\"ab\"}") read_two

plain_key : plain_text (codes "k") ≡ true
unfolding plain_text
plain_key = refl

unterminated_example :
    get_string
      (codes "k")
      9
      (b'{' ∷ (quoted (codes "k") ++ b':' ∷ (b'"' ∷ (escapes (codes "ab") ++ b'c' ∷ []))))
    ≡ some (codes "ab")
unterminated_example =
    get_string-unterminated (codes "k") (codes "ab") b'c' 9 plain_key refl (omega arith)
