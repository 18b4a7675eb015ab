-- ===== src/Net/Allowed.antt =====
-- firmware/wifi/time_zone.cpp (ValidTimeZone) and ValidPhotoName of firmware/wifi/photo_store.cpp:
-- texts of allowed characters with a longest length.
use diy_ebook.Prelude.{
  ℕ, ◌+◌, ◌≤◌, ◌≡◌, ◌↔◌, refl, ap, inl, inr, Bool, true, false, ◌&&◌, ◌||◌, not, Option, none, some,
  List, [], ◌∷◌, length, All, leb, ◌==◌, if◌then◌else◌, arith, Bool-cases, Option-cases, leb→le,
  ◌⊎◌,
}
use mathlib.Core.Bool.{false≢true}

-- The loop of both: the number of characters, or none where the code returns false.
unfoldable pub count_allowed : (ℕ → Bool) → ℕ → ℕ → List ℕ → Option ℕ
count_allowed allowed limit count [] = some count
count_allowed allowed limit count (c ∷ cs) =
    if not (allowed c) || leb limit count then none else count_allowed allowed limit (count + 1) cs

abbrev at_least : ℕ → Option ℕ → Bool
at_least least none = false
at_least least (some count) = leb least count

abbrev pub time_zone_char : ℕ → Bool
time_zone_char c =
    (leb b'A' c && leb c b'Z')
    || (leb b'a' c && leb c b'z')
    || (leb b'0' c && leb c b'9')
    || c == b'+'
    || c == b'-'
    || c == b':'
    || c == b','
    || c == b'.'
    || c == b'/'
    || c == b'<'
    || c == b'>'

abbrev pub starts_zone : List ℕ → Bool
starts_zone [] = false
starts_zone (c ∷ cs) = (leb b'A' c && leb c b'Z') || (leb b'a' c && leb c b'z') || c == b'<'

abbrev pub time_zone_max_chars : ℕ
time_zone_max_chars = 63

unfoldable pub valid_time_zone : List ℕ → Bool
valid_time_zone tz =
    if not (starts_zone tz)
    then false
    else at_least 3 (count_allowed time_zone_char time_zone_max_chars 0 tz)

abbrev pub photo_name_char : ℕ → Bool
photo_name_char c =
    (leb b'a' c && leb c b'z') || (leb b'0' c && leb c b'9') || c == b'-' || c == b'_'

abbrev pub photo_name_max_chars : ℕ
photo_name_max_chars = 32

unfoldable pub valid_photo_name : List ℕ → Bool
valid_photo_name name = at_least 1 (count_allowed photo_name_char photo_name_max_chars 0 name)

-- A text of allowed characters whose length lies in a range.
abbrev pub Consists : (ℕ → Bool) → ℕ → ℕ → List ℕ → Type 0
Consists allowed least limit text =
    All (λ c. allowed c ≡ true) text × (least ≤ length text) × (length text ≤ limit)

module _ (allowed : ℕ → Bool) (limit : ℕ) where
  counted :
      (count : ℕ) (text : List ℕ) {n : ℕ}
      → count ≤ limit
      → count_allowed allowed limit count text ≡ some n
      → All (λ c. allowed c ≡ true) text × (n ≡ count + length text) × (n ≤ limit)
  unfolding count_allowed
  counted count [] h e = (tt, ground arith, ground arith)
  counted count (c ∷ cs) h e = elim (Bool-cases (not (allowed c) || leb limit count)) [
    | inl refused ↦ absurd (ground arith)
    | inr fine ↦
        let tail = counted (count + 1) cs (ground arith) (rw fine at e) in
        ((ground arith, tail.0), omega (arith, tail.1), tail.2)
  ]

  count_allowed-all :
      (count : ℕ) (text : List ℕ)
      → All (λ c. allowed c ≡ true) text
      → count + length text ≤ limit
      → count_allowed allowed limit count text ≡ some (count + length text)
  unfolding count_allowed
  count_allowed-all count [] h room = ap some (omega arith)
  count_allowed-all count (c ∷ cs) (here, more) room =
      rw here (ground (arith, count_allowed-all (count + 1) cs more (omega arith)))

  count_allowed_lem :
      (least : ℕ) (text : List ℕ)
      → (at_least least (count_allowed allowed limit 0 text) ≡ true)
        ↔ Consists allowed least limit text
  count_allowed_lem least text = (forth (Option-cases (count_allowed allowed limit 0 text)), back)
    where
      forth :
          (count_allowed allowed limit 0 text ≡ none)
            ⊎ ((n : ℕ) × (count_allowed allowed limit 0 text ≡ some n))
          → at_least least (count_allowed allowed limit 0 text) ≡ true
          → Consists allowed least limit text
      forth (inl e) h = absurd (false≢true (rw e at h))
      forth (inr (n, e)) h =
          let found = counted 0 text (omega arith) e in
          let enough : leb least n ≡ true = rw e at h in
          (found.0, omega (arith, found.1, leb→le least n enough), omega (arith, found.1, found.2))

      back :
          Consists allowed least limit text
          → at_least least (count_allowed allowed limit 0 text) ≡ true
      back (chars, enough, short) = rw (count_allowed-all 0 text chars (omega arith)) (ground arith)

pub valid_photo_name_lem :
    (name : List ℕ)
    → (valid_photo_name name ≡ true) ↔ Consists photo_name_char 1 photo_name_max_chars name
unfolding valid_photo_name
valid_photo_name_lem name = count_allowed_lem photo_name_char photo_name_max_chars 1 name

with_start :
    (start rest : Bool) (P : Type 0)
    → ((rest ≡ true) ↔ P)
    → ((if not start then false else rest) ≡ true) ↔ ((start ≡ true) × P)
with_start true rest P h = (λ (e : rest ≡ true). (refl, h.0 e), λ (p : (true ≡ true) × P). h.1 p.1)
with_start false rest P h =
    (λ (e : false ≡ true). absurd (false≢true e), λ (p : (false ≡ true) × P). p.0)

pub valid_time_zone_lem :
    (tz : List ℕ)
    → (valid_time_zone tz ≡ true)
      ↔ ((starts_zone tz ≡ true) × Consists time_zone_char 3 time_zone_max_chars tz)
unfolding valid_time_zone
valid_time_zone_lem tz =
    with_start (starts_zone tz) (at_least 3 (count_allowed time_zone_char time_zone_max_chars 0 tz))
      (Consists time_zone_char 3 time_zone_max_chars tz)
      (count_allowed_lem time_zone_char time_zone_max_chars 3 tz)
