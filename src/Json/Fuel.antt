-- ===== src/Json/Fuel.antt =====
-- firmware/wifi/json.cpp: the rounds of the loops in SkipValue and findValue, and their fuel.
use diy_ebook.Prelude.{
  ℕ, zero, suc, ◌+◌, ◌-◌, ◌≤◌, ◌<◌, ◌≡◌, ◌∙◌, refl, inl, inr, Bool, true, false, Option, none, List,
  [], ◌∷◌, length, drop, ◌==◌, if◌then◌else◌, arith, Bool-cases, some, leb,
}
use diy_ebook.Json.Reader.{
  skip_space, string_end, skip_string, nested_end, scalar_end, value_end_at, skip_value, between,
  nested_fuel, or_end, key_matches, after_value, value_of_key, at_colon, at_key, find_from,
  find_value, valid,
}

length-skip_space : (text : List ℕ) → length (skip_space text) ≤ length text
unfolding skip_space
length-skip_space [] = omega arith
length-skip_space (c ∷ cs) = ground (arith, length-skip_space cs)

length-string_end : (b : Bool) (text : List ℕ) → length (string_end b text) ≤ length text
unfolding string_end
length-string_end b [] = omega arith
length-string_end true (c ∷ cs) = omega (arith, length-string_end false cs)
length-string_end false (c ∷ cs) = ground (arith, length-string_end (c == b'\\') cs)

length-skip_string : (text : List ℕ) → length (skip_string text) ≤ length text
unfolding skip_string
length-skip_string [] = omega arith
length-skip_string (c ∷ cs) = ground (arith, length-string_end false cs)

length-skip_string-quote :
    (d : ℕ) (cs : List ℕ) → (d == b'"') ≡ true → length (skip_string (d ∷ cs)) ≤ length cs
unfolding skip_string
length-skip_string-quote d cs h = rw h (length-string_end false cs)

-- Two runs of a loop that both end, and in the same.
abbrev IsSettled {ℓ} : {A : Type ℓ} → Option A → Option A → Type ℓ
IsSettled {A = A} x y = (r : A) × (x ≡ some r) × (y ≡ some r)

-- The loop over a nested value ends, behind where it starts, on any fuel above the length.
nested_end-IsSettled :
    (fuel more o c depth : ℕ) (text : List ℕ)
    → length text < fuel
    → length text < more
    → (end : List ℕ) × (nested_end fuel o c depth text ≡ some end)
      × (nested_end more o c depth text ≡ some end)
      × (length end ≤ length text)
unfolding nested_end
nested_end-IsSettled zero more o c depth text h k = absurd (omega arith)
nested_end-IsSettled (suc fuel) zero o c depth text h k = absurd (omega arith)
nested_end-IsSettled (suc fuel) (suc more) o c depth [] h k = ([], refl, refl, omega arith)
nested_end-IsSettled (suc fuel) (suc more) o c depth (d ∷ cs) h k = elim (Bool-cases (d == b'"')) [
  | inl quote ↦
      let shorter : length (skip_string (d ∷ cs)) ≤ length cs =
        length-skip_string-quote d cs quote in
      let (end, e, f, le) =
        nested_end-IsSettled fuel more o c depth (skip_string (d ∷ cs)) (omega arith)
          (omega arith) in
      rw (quote, nested_end) (end, e, f, omega arith)
  | inr plain ↦ elim (Bool-cases (d == o)) [
    | inl open_char ↦
        let (end, e, f, le) =
          nested_end-IsSettled fuel more o c (depth + 1) cs (omega arith) (omega arith) in
        rw (plain, open_char, nested_end) (end, e, f, omega arith)
    | inr inside ↦ elim (Bool-cases (d == c)) [
      | inl close_char ↦ elim (Bool-cases (depth - 1 == 0)) [
        | inl last ↦ rw (plain, inside, close_char, last, nested_end) (cs, refl, refl, omega arith)
        | inr deep ↦
            let (end, e, f, le) =
              nested_end-IsSettled fuel more o c (depth - 1) cs (omega arith) (omega arith) in
            rw (plain, inside, close_char, deep, nested_end) (end, e, f, omega arith)
      ]
      | inr other ↦
          let (end, e, f, le) =
            nested_end-IsSettled fuel more o c depth cs (omega arith) (omega arith) in
          rw (plain, inside, other, nested_end) (end, e, f, omega arith)
    ]
  ]
]

length-nested_end :
    (o c depth : ℕ) (text : List ℕ)
    → length (or_end (nested_end (nested_fuel text) o c depth text)) ≤ length text
length-nested_end o c depth text =
    let (end, e, f, le) =
      nested_end-IsSettled (nested_fuel text) (nested_fuel text) o c depth text (omega arith)
        (omega arith) in
    rw e le

length-scalar_end : (text : List ℕ) → length (scalar_end text) ≤ length text
unfolding scalar_end
length-scalar_end [] = omega arith
length-scalar_end (c ∷ cs) = ground (arith, length-scalar_end cs)

length-value_end_at : (text : List ℕ) → length (value_end_at text) ≤ length text
unfolding value_end_at
length-value_end_at [] = omega arith
length-value_end_at (c ∷ cs) = ground (
  arith,
  length-skip_string (c ∷ cs),
  length-nested_end c (if c == b'{' then b'}' else b']') 0 (c ∷ cs),
  length-scalar_end (c ∷ cs),
)

length-skip_value : (text : List ℕ) → length (skip_value text) ≤ length text
unfolding skip_value
length-skip_value text =
    omega (arith, length-value_end_at (skip_space text), length-skip_space text)

-- A round of the loop asks for the rest only behind where it stands.
module _ (next more : List ℕ → Option (Option (List ℕ))) (key : List ℕ) (bound : ℕ)
    (settled : (text : List ℕ) → length text < bound → IsSettled (next text) (more text)) where
  after_value-IsSettled :
      (text : List ℕ)
      → length text ≤ bound
      → IsSettled (after_value next key text) (after_value more key text)
  unfolding after_value
  after_value-IsSettled [] h = (none, refl, refl)
  after_value-IsSettled (c ∷ cs) h = elim (Bool-cases (c == b',')) [
    | inl comma ↦ rw (comma, after_value) (settled cs (omega arith))
    | inr other ↦ rw (other, after_value) (none, refl, refl)
  ]

  value_of_key-IsSettled :
      (quoted value : List ℕ)
      → length value ≤ bound
      → IsSettled (value_of_key next key quoted value) (value_of_key more key quoted value)
  unfolding value_of_key
  value_of_key-IsSettled quoted value h =
      elim (Bool-cases (leb (length value) (length (skip_value value)))) [
        | inl stuck ↦ rw (stuck, value_of_key) (none, refl, refl)
        | inr moved ↦ elim (Bool-cases (key_matches quoted key)) [
          | inl found ↦
              rw (moved, found, value_of_key) (some (between value (skip_value value)), refl, refl)
          | inr other ↦
              let rest = skip_space (skip_value value) in
              let behind : length rest ≤ bound =
                omega (arith, length-skip_space (skip_value value), length-skip_value value) in
              rw (moved, other, value_of_key) (after_value-IsSettled rest behind)
        ]
      ]

  at_colon-IsSettled :
      (quoted text : List ℕ)
      → length text ≤ bound
      → IsSettled (at_colon next key quoted text) (at_colon more key quoted text)
  unfolding at_colon
  at_colon-IsSettled quoted [] h = (none, refl, refl)
  at_colon-IsSettled quoted (c ∷ cs) h = elim (Bool-cases (c == b':')) [
    | inl colon ↦
        rw (colon, at_colon)
          (value_of_key-IsSettled quoted (skip_space cs) (omega (arith, length-skip_space cs)))
    | inr other ↦ rw (other, at_colon) (none, refl, refl)
  ]

  at_key-IsSettled :
      (text : List ℕ)
      → length text ≤ bound
      → IsSettled (at_key next key text) (at_key more key text)
  unfolding at_key
  at_key-IsSettled [] h = (none, refl, refl)
  at_key-IsSettled (c ∷ cs) h = elim (Bool-cases (c == b'}')) [
    | inl end ↦ rw (end, at_key) (none, refl, refl)
    | inr more_keys ↦ elim (Bool-cases (c == b'"')) [
      | inl quote ↦
          let behind : length (skip_space (skip_string (c ∷ cs))) ≤ bound =
            omega (arith, length-skip_space (skip_string (c ∷ cs)), length-skip_string (c ∷ cs)) in
          rw (more_keys, quote, at_key)
            (at_colon-IsSettled (between (c ∷ cs) (skip_string (c ∷ cs)))
              (skip_space (skip_string (c ∷ cs))) behind)
      | inr other ↦ rw (more_keys, other, at_key) (none, refl, refl)
    ]
  ]

find_from-IsSettled :
    (key : List ℕ) (fuel more : ℕ) (text : List ℕ)
    → length text < fuel
    → length text < more
    → IsSettled (find_from fuel key text) (find_from more key text)
unfolding find_from
find_from-IsSettled key zero more text h k = absurd (omega arith)
find_from-IsSettled key (suc fuel) zero text h k = absurd (omega arith)
find_from-IsSettled key (suc fuel) (suc more) text h k =
    at_key-IsSettled (find_from fuel key) (find_from more key) key (length text)
      (λ t short. find_from-IsSettled key fuel more t (omega arith) (omega arith)) (skip_space text)
      (length-skip_space text)

valid_shorter :
    (text : List ℕ) → valid text ≡ true → length (drop 1 (skip_space text)) < length text
unfolding valid
valid_shorter text h = shorter (skip_space text) h (length-skip_space text)
  where
    shorter :
        (t : List ℕ)
        → elim t [ [] ↦ false | c ∷ cs ↦ c == b'{' ] ≡ true
        → length t ≤ length text
        → length (drop 1 t) < length text
    shorter [] e le = cc
    shorter (c ∷ cs) e le = omega arith

-- For a text that starts an object and any fuel above its length, the loop of findValue ends with
-- the answer of find_value, and the loop over a nested value ends on every text that is shorter
-- than the fuel, in the same place as on the fuel that value_end_at gives it, at or behind its
-- start.
pub find_value-fuel :
    (key text nested : List ℕ) (fuel open_char close_char depth : ℕ)
    → valid text ≡ true
    → length text < fuel
    → length nested < fuel
    → (find_from fuel key (drop 1 (skip_space text)) ≡ some (find_value key text))
      × (end : List ℕ) × (nested_end fuel open_char close_char depth nested ≡ some end)
      × (nested_end (nested_fuel nested) open_char close_char depth nested ≡ some end)
      × (length end ≤ length nested)
unfolding find_value
find_value-fuel key text nested fuel open_char close_char depth object enough deep =
    let short = valid_shorter text object in
    let (r, e, f) =
      find_from-IsSettled key fuel (length text) (drop 1 (skip_space text)) (omega arith) short in
    let (end, ended, same_end, behind) =
      nested_end-IsSettled fuel (nested_fuel nested) open_char close_char depth nested deep
        (omega arith) in
    (e ∙ rw (object, f) refl, end, ended, same_end, behind)
