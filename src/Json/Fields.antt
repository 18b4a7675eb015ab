-- ===== src/Json/Fields.antt =====
-- firmware/wifi/json.cpp: a flat object as a list of fields, the calls of JsonWriter that write it,
-- and what a look-up of a key is to give.
use diy_ebook.Prelude.{
  ℕ, ◌+◌, ◌^◌, Bool, true, ◌&&◌, not, Option, none, some, List, [], ◌∷◌, length, leb, ◌==◌,
  if◌then◌else◌, codes, same,
}
use diy_ebook.Json.Writer.{JsonWriter, new_writer, digits_of}
use diy_ebook.Json.Written.{Call, run_all, quoted}
use diy_ebook.Json.Values.{get_string, get_uint64, get_bool}

pub data Value : Type 0 where
  string : List ℕ → Value
  uint : ℕ → Value
  truth : Bool → Value

abbrev pub Field : Type 0
Field = List ℕ × Value

unfoldable pub field_call : Field → Call
field_call (key, Value.string value) = Call.string key value
field_call (key, Value.uint value) = Call.uint key value
field_call (key, Value.truth value) = Call.truth key value

unfoldable pub field_calls : List Field → List Call
field_calls [] = Call.end_of_object ∷ []
field_calls (f ∷ fs) = field_call f ∷ field_calls fs

-- beginObject(), a call for each field, endObject().
unfoldable pub write_object : List Field → ℕ → JsonWriter
write_object fields capacity = run_all (Call.object ∷ field_calls fields) (new_writer true capacity)

abbrev pub value_text : Value → List ℕ
value_text (Value.string value) = quoted value
value_text (Value.uint value) = digits_of value
value_text (Value.truth value) = if value then codes "true" else codes "false"

-- The first field of a key.
unfoldable pub lookup : List ℕ → List Field → Option Value
lookup key [] = none
lookup key ((k, value) ∷ fields) = if same key k then some value else lookup key fields

-- A character that is written as it is.
abbrev pub is_plain : ℕ → Bool
is_plain c = leb 0x20 c && not (c == b'"') && not (c == b'\\')

unfoldable pub plain_text : List ℕ → Bool
plain_text [] = true
plain_text (c ∷ cs) = is_plain c && plain_text cs

unfoldable pub plain_keys : List Field → Bool
unfolding plain_text
plain_keys [] = true
plain_keys ((k, value) ∷ fields) = plain_text k && plain_keys fields

-- A text needs its bytes and the NUL, a number 64 bits.
unfoldable pub fits : ℕ → Value → Bool
fits capacity (Value.string value) = leb (length value + 1) capacity
fits capacity (Value.uint value) = leb (value + 1) (2 ^ 64)
fits capacity (Value.truth value) = true

-- getString, getUint64 or getBool, the one that suits a value like the one given.
unfoldable pub get_like : Value → List ℕ → ℕ → List ℕ → Option Value
get_like (Value.string _) key capacity text = elim (get_string key capacity text) [
  | none ↦ none
  | some value ↦ some (Value.string value)
]
get_like (Value.uint _) key capacity text = elim (get_uint64 key text) [
  | none ↦ none
  | some value ↦ some (Value.uint value)
]
get_like (Value.truth _) key capacity text = elim (get_bool key text) [
  | none ↦ none
  | some value ↦ some (Value.truth value)
]
