-- ===== src/Json/Find.antt =====
-- firmware/wifi/json.cpp: how findValue goes through the fields that JsonWriter wrote.
use diy_ebook.Prelude.{
  ℕ, zero, suc, ◌-◌, ◌<◌, ◌≡◌, refl, sym, inl, inr, Bool, true, false, Option, none, some, List, [],
  ◌∷◌, ◌++◌, length, length-append, take-append, if◌then◌else◌, arith, Bool-cases, same,
}
use mathlib.Core.List.{append_assoc}
use diy_ebook.Json.Written.{escape, escapes, quoted, call_text, text_of, comma_after}
use diy_ebook.Json.Reader.{
  is_space, skip_space, skip_value, between, key_matches, after_value, value_of_key, at_colon,
  at_key, find_from,
}
use diy_ebook.Json.Escapes.{skip_string-quoted, inside_quotes-opened}
use diy_ebook.Json.Fields.{
  Value, Field, field_call, field_calls, value_text, lookup, plain_text, plain_keys,
}
use diy_ebook.Json.Spans.{is_end, skip_value-value_text, skip_space-value_text, length-value_text}

pub escapes-plain : (cs : List ℕ) → plain_text cs ≡ true → escapes cs ≡ cs
unfolding escapes plain_text escape
escapes-plain [] h = refl
escapes-plain (c ∷ cs) h = ground (arith, escapes-plain cs)

pub between-append : (xs ys : List ℕ) → between (xs ++ ys) ys ≡ xs
between-append xs ys =
    let e : length (xs ++ ys) - length ys ≡ length xs = omega (arith, length-append {0} xs ys) in
    rw e (take-append xs ys)

key_matches-quoted :
    (key k : List ℕ) → plain_text k ≡ true → key_matches (quoted k) key ≡ same key k
unfolding key_matches
key_matches-quoted key k plain =
    rw (inside_quotes-opened k b'"', escapes-plain k plain)
      (ground (arith, length-append {0} k (b'"' ∷ [])))

skip_space-colon : (cs : List ℕ) → skip_space (b':' ∷ cs) ≡ b':' ∷ cs
unfolding skip_space is_space
skip_space-colon cs = refl

module _ (next : List ℕ → Option (Option (List ℕ))) (key : List ℕ) where
  value_of_key-span :
      (quoted_key value rest : List ℕ)
      → 0 < length value
      → skip_value (value ++ rest) ≡ rest
      → value_of_key next key quoted_key (value ++ rest) ≡ (
          if key_matches quoted_key key
          then some (some value)
          else after_value next key (skip_space rest))
  unfolding value_of_key
  value_of_key-span quoted_key value rest long skips =
      rw (skips, between-append value rest) (ground (arith, length-append {0} value rest))

  -- One field: the span of its value, if the key is the one sought.
  pub at_key-field :
      (k value rest : List ℕ)
      → plain_text k ≡ true
      → 0 < length value
      → skip_space (value ++ rest) ≡ value ++ rest
      → skip_value (value ++ rest) ≡ rest
      → at_key next key (quoted k ++ b':' ∷ (value ++ rest))
        ≡ (if same key k then some (some value) else after_value next key (skip_space rest))
  unfolding at_key at_colon
  at_key-field k value rest plain long spaces skips =
      rw
        (
          skip_string-quoted k (b':' ∷ (value ++ rest)),
          between-append (quoted k) (b':' ∷ (value ++ rest)),
          skip_space-colon (value ++ rest),
          spaces,
          value_of_key-span (quoted k) value rest long skips,
          key_matches-quoted key k plain,
        )
        refl

-- A field at the start of the object, and one behind another.
first_field :
    (f : Field) (rest : List ℕ)
    → call_text (field_call f) false ++ rest ≡ quoted f.0 ++ b':' ∷ (value_text f.1 ++ rest)
unfolding call_text field_call
first_field (k, Value.string v) rest = simp append_assoc
first_field (k, Value.uint v) rest = simp append_assoc
first_field (k, Value.truth v) rest = simp append_assoc

next_field :
    (f : Field) (rest : List ℕ)
    → call_text (field_call f) true ++ rest ≡ b',' ∷ (call_text (field_call f) false ++ rest)
unfolding call_text field_call
next_field (k, Value.string v) rest = refl
next_field (k, Value.uint v) rest = refl
next_field (k, Value.truth v) rest = refl

comma_after-field : (f : Field) → comma_after (field_call f) ≡ true
unfolding comma_after field_call
comma_after-field (k, Value.string v) = refl
comma_after-field (k, Value.uint v) = refl
comma_after-field (k, Value.truth v) = refl

abbrev pub fields_text : List Field → Bool → List ℕ
fields_text fields due = text_of (field_calls fields) due

fields_text-cons :
    (f : Field) (fs : List Field) (due : Bool)
    → fields_text (f ∷ fs) due ≡ call_text (field_call f) due ++ fields_text fs true
unfolding text_of field_calls
fields_text-cons f fs due = rw (comma_after-field f) refl

-- The text behind a field: the brace, or a comma and the other fields.
fields_text-next :
    (f : Field) (fs : List Field) → fields_text (f ∷ fs) true ≡ b',' ∷ fields_text (f ∷ fs) false
fields_text-next f fs =
    rw (fields_text-cons f fs true, fields_text-cons f fs false)
      (next_field f (fields_text fs true))

fields_text-end : (fs : List Field) → is_end (fields_text fs true) ≡ true
unfolding text_of field_calls call_text
fields_text-end [] = refl
fields_text-end (f ∷ fs) = rw (fields_text-next f fs) refl

abbrev pub span_of : Option Value → Option (List ℕ)
span_of none = none
span_of (some v) = some (value_text v)

after_value-fields :
    (next : List ℕ → Option (Option (List ℕ))) (key : List ℕ) (fs : List Field)
    → next (fields_text fs false) ≡ some (span_of (lookup key fs))
    → after_value next key (skip_space (fields_text fs true)) ≡ some (span_of (lookup key fs))
unfolding after_value skip_space is_space
after_value-fields next key [] h =
    unfold text_of in unfold field_calls in unfold call_text in unfold lookup in refl
after_value-fields next key (f ∷ fs) h = rw (fields_text-next f fs) h

lookup_cons :
    (key k : List ℕ) (v : Value) (fs : List Field)
    → some (span_of (lookup key ((k, v) ∷ fs)))
      ≡ (if same key k then some (some (value_text v)) else some (span_of (lookup key fs)))
unfolding lookup
lookup_cons key k v fs = elim (Bool-cases (same key k)) [ inl h ↦ rw h | inr h ↦ rw h ]

plain_keys_cons :
    (f : Field) (fs : List Field)
    → plain_keys (f ∷ fs) ≡ true
    → (plain_text f.0 ≡ true) × (plain_keys fs ≡ true)
unfolding plain_keys
plain_keys_cons (k, v) fs h = ground arith

skip_space-fields :
    (f : Field) (rest : List ℕ) → skip_space (quoted f.0 ++ rest) ≡ quoted f.0 ++ rest
unfolding skip_space is_space
skip_space-fields f rest = refl

pub find_from-fields :
    (key : List ℕ) (fs : List Field) (fuel : ℕ)
    → plain_keys fs ≡ true
    → length fs < fuel
    → find_from fuel key (fields_text fs false) ≡ some (span_of (lookup key fs))
unfolding find_from
find_from-fields key fs zero plain enough = absurd (omega arith)
find_from-fields key [] (suc fuel) plain enough =
    unfold text_of in
    unfold field_calls in
    unfold call_text in
    unfold lookup in unfold skip_space in unfold is_space in unfold at_key in refl
find_from-fields key (f ∷ fs) (suc fuel) plain enough =
    let rest = fields_text fs true in
    rw
      (
        fields_text-cons f fs false,
        first_field f rest,
        skip_space-fields f (b':' ∷ (value_text f.1 ++ rest)),
        at_key-field (find_from fuel key) key f.0 (value_text f.1) rest
            (plain_keys_cons f fs plain).0 (length-value_text f.1) (skip_space-value_text f.1 rest)
            (skip_value-value_text f.1 rest (fields_text-end fs)),
        after_value-fields (find_from fuel key) key fs
            (find_from-fields key fs fuel (plain_keys_cons f fs plain).1 (omega arith)),
      )
      (sym (lookup_cons key f.0 f.1 fs))
