-- ===== src/Json/ReadBack.antt =====
-- firmware/wifi/json.cpp: JsonReader on the text that JsonWriter wrote, and on one that ends inside
-- a quoted value.
use diy_ebook.Prelude.{
  take_long, ℕ, suc, ◌-◌, ◌≤◌, ◌<◌, ◌^◌, ◌≡◌, refl, ap, sym, ◌∙◌, Bool, true, false, Option, none,
  some, List, [], ◌∷◌, ◌++◌, length, length-append, arith, same, same_refl, ltb→lt,
}
use mathlib.Core.List.{append-nil}
use diy_ebook.Json.Written.{escapes, quoted, Call, call_text, text_of, comma_after}
use diy_ebook.Json.Refines.{run_all-new_writer}
use diy_ebook.Json.Reader.{
  is_space, skip_space, skip_string, string_end, value_end_at, skip_value, valid, at_key, find_from,
  find_value, has, or_absent,
}
use diy_ebook.Json.Values.{get_string, get_uint64, read_bool, get_bool}
use diy_ebook.Json.Escapes.{read_string-opened, string_end-escapes}
use diy_ebook.Json.Digits.{read_uint64-digits_of}
use diy_ebook.Json.Fields.{
  Value, Field, field_call, field_calls, write_object, value_text, lookup, plain_text, plain_keys,
  fits, get_like, is_plain,
}
use diy_ebook.Json.Find.{find_from-fields, fields_text, span_of, at_key-field}

length-call_text : (f : Field) (due : Bool) → 0 < length (call_text (field_call f) due)
unfolding call_text field_call
length-call_text (k, Value.string v) true = omega arith
length-call_text (k, Value.string v) false = omega arith
length-call_text (k, Value.uint v) true = omega arith
length-call_text (k, Value.uint v) false = omega arith
length-call_text (k, Value.truth v) true = omega arith
length-call_text (k, Value.truth v) false = omega arith

length-fields_text : (fs : List Field) (due : Bool) → length fs ≤ length (fields_text fs due)
unfolding text_of field_calls
length-fields_text [] due = omega arith
length-fields_text (f ∷ fs) due =
    let rest = text_of (field_calls fs) (comma_after (field_call f)) in
    omega (
      arith,
      length-append {0} (call_text (field_call f) due) rest,
      length-call_text f due,
      length-fields_text fs (comma_after (field_call f)),
    )

object_text :
    (fs : List Field) → text_of (Call.object ∷ field_calls fs) false ≡ b'{' ∷ fields_text fs false
unfolding text_of call_text comma_after
object_text fs = refl

find_value-object :
    (key : List ℕ) (text : List ℕ)
    → find_value key (b'{' ∷ text) ≡ or_absent (find_from (suc (length text)) key text)
unfolding find_value valid skip_space is_space
find_value-object key text = refl

-- Once the writer is ok, its text is whole.
text-write_object :
    (fields : List Field) (capacity : ℕ)
    → (write_object fields capacity).ok ≡ true
    → (write_object fields capacity).text ≡ b'{' ∷ fields_text fields false
unfolding write_object
text-write_object fields capacity done =
    let whole = text_of (Call.object ∷ field_calls fields) false in
    let result = run_all-new_writer (Call.object ∷ field_calls fields) capacity in
    let short : length whole < capacity = ltb→lt _ _ (sym result.0 ∙ done) in
    result.1 ∙ take_long (capacity - 1) whole (omega arith) ∙ object_text fields

find_value-write_object :
    (key : List ℕ) (fields : List Field) (capacity : ℕ)
    → plain_keys fields ≡ true
    → (write_object fields capacity).ok ≡ true
    → find_value key (write_object fields capacity).text ≡ span_of (lookup key fields)
find_value-write_object key fields capacity plain done =
    rw (text-write_object fields capacity done, find_value-object key (fields_text fields false))
      (ap or_absent (
        find_from-fields key fields (suc (length (fields_text fields false))) plain
          (omega (arith, length-fields_text fields false))))

read_bool-word : (b : Bool) → read_bool (some (value_text (Value.truth b))) ≡ some b
unfolding read_bool same
read_bool-word true = refl
read_bool-word false = refl

-- The getter that suits a value, on the span of that value.
get_like-span :
    (v : Value) (key : List ℕ) (room : ℕ) (text : List ℕ)
    → fits room v ≡ true
    → find_value key text ≡ some (value_text v)
    → get_like v key room text ≡ some v
unfolding get_like get_string get_uint64 get_bool fits
get_like-span (Value.string cs) key room text h e =
    let read = read_string-opened room cs b'"' (ground arith) in
    let got : get_string key room text ≡ some cs = rw e (ground (arith, read)) in
    rw (got, get_like) refl
get_like-span (Value.uint n) key room text h e =
    let small : n < 2 ^ 64 = ground arith in
    let got : get_uint64 key text ≡ some n = rw e (read_uint64-digits_of n small) in
    rw (got, get_like) refl
get_like-span (Value.truth b) key room text h e =
    let got : get_bool key text ≡ some b = rw e (read_bool-word b) in rw (got, get_like) refl

-- Where the keys of a flat object need no escapes and the writer of the object is ok, a value that
-- its fields have first under a key and that fits, a text with its NUL in the room given or a
-- number in 64 bits, is what the getter of its kind reads from the text written.
pub get_like-write_object :
    (fields : List Field) (key : List ℕ) (v : Value) (capacity room : ℕ)
    → plain_keys fields ≡ true
    → (write_object fields capacity).ok ≡ true
    → lookup key fields ≡ some v
    → fits room v ≡ true
    → get_like v key room (write_object fields capacity).text ≡ some v
get_like-write_object fields key v capacity room plain done found room_left =
    get_like-span v key room (write_object fields capacity).text room_left
      (find_value-write_object key fields capacity plain done ∙ ap span_of found)

abbrev pub is_found : Option Value → Bool
is_found none = false
is_found (some v) = true

is_found-span :
    (o : Option Value) → elim (span_of o) [ none ↦ false | some span ↦ true ] ≡ is_found o
is_found-span none = refl
is_found-span (some v) = refl

pub has-write_object :
    (fields : List Field) (key : List ℕ) (capacity : ℕ)
    → plain_keys fields ≡ true
    → (write_object fields capacity).ok ≡ true
    → has key (write_object fields capacity).text ≡ is_found (lookup key fields)
unfolding has
has-write_object fields key capacity plain done =
    rw (find_value-write_object key fields capacity plain done, has)
      (is_found-span (lookup key fields))

string_end-plain : (c : ℕ) → is_plain c ≡ true → string_end false (c ∷ []) ≡ []
unfolding string_end
string_end-plain c h = ground arith

skip_value-open :
    (cs : List ℕ) (last : ℕ)
    → is_plain last ≡ true
    → skip_value (b'"' ∷ (escapes cs ++ last ∷ [])) ≡ []
unfolding skip_value skip_space is_space value_end_at skip_string
skip_value-open cs last h = string_end-escapes cs (last ∷ []) ∙ string_end-plain last h

-- A value that reaches to the end of the text.
find_from-last :
    (key value : List ℕ) (fuel : ℕ)
    → plain_text key ≡ true
    → 0 < length value
    → skip_space value ≡ value
    → skip_value value ≡ []
    → find_from (suc fuel) key (quoted key ++ b':' ∷ value) ≡ some (some value)
unfolding find_from
find_from-last key value fuel plain long spaces skips =
    let whole : value ++ [] ≡ value = append-nil value in
    let start : skip_space (quoted key ++ b':' ∷ value) ≡ quoted key ++ b':' ∷ value =
      unfold skip_space in unfold is_space in refl in
    let found =
      at_key-field (find_from fuel key) key key value [] plain long (rw (sym whole) at spaces)
        (rw (sym whole) at skips) in
    let step = at_key (find_from fuel key) key in
    ap step start
    ∙ ap (λ (t : List ℕ). step (quoted key ++ b':' ∷ t)) (sym whole)
    ∙ rw (same_refl key) at found

-- From an object that ends inside the quoted value of a plain key, where the last character is
-- plain and the rest fits, getString gives the value without that last character.
pub get_string-unterminated :
    (key cs : List ℕ) (last room : ℕ)
    → plain_text key ≡ true
    → is_plain last ≡ true
    → length cs < room
    → get_string key room (b'{' ∷ (quoted key ++ b':' ∷ (b'"' ∷ (escapes cs ++ last ∷ []))))
      ≡ some cs
unfolding get_string
get_string-unterminated key cs last room plain plain_last h =
    let value = b'"' ∷ (escapes cs ++ last ∷ []) in
    let text = quoted key ++ b':' ∷ value in
    let found : find_from (suc (length text)) key text ≡ some (some value) =
      find_from-last key value (length text) plain (omega arith)
        (unfold skip_space in unfold is_space in refl) (skip_value-open cs last plain_last) in
    rw (find_value-object key text, found) (ground (arith, read_string-opened room cs last))
