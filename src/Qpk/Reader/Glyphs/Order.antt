-- ===== src/Qpk/Reader/Glyphs/Order.antt =====
-- The order that buildGlyphIndex of firmware/qpk/qpk_reader.cpp keeps, and the search in it.
use diy_ebook.Prelude.{
  ℕ, ◌≤◌, ◌≡◌, ◌⊎◌, inl, inr, refl, sym, ap, ◌∙◌, arith, true, false, Option, none, some, List, [],
  ◌∷◌, ◌++◌, All, ltb, ◌==◌, if◌then◌else◌, Bool-cases,
}
use diy_ebook.Qpk.Records.{GlyphRecord}
use diy_ebook.Qpk.Reader.Glyphs.{place_glyph, first_to_last}

-- The first record of an id in table order.
abbrev pub first_with : ℕ → List GlyphRecord → Option GlyphRecord
first_with id [] = none
first_with id (g ∷ table) = if g.glyph_id == id then some g else first_with id table

abbrev or_else : Option GlyphRecord → Option GlyphRecord → Option GlyphRecord
or_else (some g) later = some g
or_else (none) later = later

first_with-append :
    (id : ℕ) (xs ys : List GlyphRecord)
    → first_with id (xs ++ ys) ≡ or_else (first_with id xs) (first_with id ys)
first_with-append id [] ys = refl
first_with-append id (g ∷ xs) ys = elim (Bool-cases (g.glyph_id == id)) [
  | inl t ↦ rw t refl
  | inr t ↦ rw t (first_with-append id xs ys)
]

-- The record that a search from the last one on would find first in table order.
abbrev with_id : ℕ → List GlyphRecord → Option GlyphRecord
with_id id [] = none
with_id id (g ∷ placed) = or_else (with_id id placed) (first_with id (g ∷ []))

first_to_last-with_id :
    (id : ℕ) (placed : List GlyphRecord) → first_with id (first_to_last placed) ≡ with_id id placed
unfolding first_to_last
first_to_last-with_id id [] = refl
first_to_last-with_id id (g ∷ placed) =
    first_with-append id (first_to_last placed) (g ∷ [])
    ∙ ap (λ (r : Option GlyphRecord). or_else r (first_with id (g ∷ [])))
        (first_to_last-with_id id placed)

or_else-none : (a : Option GlyphRecord) → or_else a none ≡ a
or_else-none none = refl
or_else-none (some g) = refl

-- Of two records of different ids one at most is found.
swap_last :
    (r a b : Option GlyphRecord)
    → (a ≡ none) ⊎ (b ≡ none)
    → or_else (or_else r a) b ≡ or_else (or_else r b) a
swap_last (some g) a b h = refl
swap_last none a b (inl h) = rw h (sym (or_else-none b))
swap_last none a b (inr h) = rw h (or_else-none a)

one_at_most :
    (id : ℕ) (g before : GlyphRecord)
    → ltb g.glyph_id before.glyph_id ≡ true
    → (first_with id (g ∷ []) ≡ none) ⊎ (first_with id (before ∷ []) ≡ none)
one_at_most id g before t = elim (Bool-cases (g.glyph_id == id)) [
  | inr u ↦ inl (rw u refl)
  | inl u ↦
      (let other : (before.glyph_id == id) ≡ false = ground (arith, t, u) in inr (rw other refl))
]

-- A record that is placed is found after those that were there.
place_glyph-with_id :
    (id : ℕ) (g : GlyphRecord) (placed : List GlyphRecord)
    → with_id id (place_glyph g placed) ≡ or_else (with_id id placed) (first_with id (g ∷ []))
unfolding place_glyph
place_glyph-with_id id g [] = refl
place_glyph-with_id id g (before ∷ placed) = elim (Bool-cases (ltb g.glyph_id before.glyph_id)) [
  | inr t ↦ rw (t, place_glyph) refl
  | inl t ↦
      rw (t, place_glyph)
        (ap (λ (r : Option GlyphRecord). or_else r (first_with id (before ∷ [])))
            (place_glyph-with_id id g placed)
          ∙ swap_last (with_id id placed) (first_with id (g ∷ [])) (first_with id (before ∷ []))
              (one_at_most id g before t))
]

-- Records placed one after another.
abbrev pub place_all : List GlyphRecord → List GlyphRecord → List GlyphRecord
place_all [] placed = placed
place_all (g ∷ table) placed = place_all table (place_glyph g placed)

or_else_assoc : (a b c : Option GlyphRecord) → or_else (or_else a b) c ≡ or_else a (or_else b c)
or_else_assoc none b c = refl
or_else_assoc (some g) b c = refl

first_with-cons :
    (id : ℕ) (g : GlyphRecord) (table : List GlyphRecord)
    → or_else (first_with id (g ∷ [])) (first_with id table) ≡ first_with id (g ∷ table)
first_with-cons id g table = sym (first_with-append id (g ∷ []) table)

place_all-with_id :
    (id : ℕ) (table placed : List GlyphRecord)
    → with_id id (place_all table placed) ≡ or_else (with_id id placed) (first_with id table)
place_all-with_id id [] placed = sym (or_else-none (with_id id placed))
place_all-with_id id (g ∷ table) placed =
    place_all-with_id id table (place_glyph g placed)
    ∙ ap (λ (r : Option GlyphRecord). or_else r (first_with id table))
        (place_glyph-with_id id g placed)
    ∙ or_else_assoc (with_id id placed) (first_with id (g ∷ [])) (first_with id table)
    ∙ ap (or_else (with_id id placed)) (first_with-cons id g table)

-- The index finds the same record of an id as the table.
pub index-first_with :
    (id : ℕ) (table : List GlyphRecord)
    → first_with id (first_to_last (place_all table [])) ≡ first_with id table
index-first_with id table =
    first_to_last-with_id id (place_all table []) ∙ place_all-with_id id table []

-- Ids that do not descend towards the end, and towards the front.
abbrev AtMost : ℕ → List GlyphRecord → Type 0
AtMost id = All (λ (g : GlyphRecord). g.glyph_id ≤ id)

abbrev pub AtLeast : ℕ → List GlyphRecord → Type 0
AtLeast id = All (λ (g : GlyphRecord). id ≤ g.glyph_id)

abbrev Descends : List GlyphRecord → Type 0
Descends [] = Unit {0}
Descends (g ∷ placed) = AtMost g.glyph_id placed × Descends placed

abbrev pub Ascends : List GlyphRecord → Type 0
Ascends [] = Unit {0}
Ascends (g ∷ index) = AtLeast g.glyph_id index × Ascends index

AtMost-weaken : (m n : ℕ) (placed : List GlyphRecord) → m ≤ n → AtMost m placed → AtMost n placed
AtMost-weaken m n [] h p = tt
AtMost-weaken m n (g ∷ placed) h p = (omega (arith, p.0), AtMost-weaken m n placed h p.1)

place_glyph-AtMost :
    (n : ℕ) (g : GlyphRecord) (placed : List GlyphRecord)
    → g.glyph_id ≤ n
    → AtMost n placed
    → AtMost n (place_glyph g placed)
unfolding place_glyph
place_glyph-AtMost n g [] h p = (h, tt)
place_glyph-AtMost n g (before ∷ placed) h p = elim (Bool-cases (ltb g.glyph_id before.glyph_id)) [
  | inr t ↦ rw (t, place_glyph) (h, p)
  | inl t ↦ rw (t, place_glyph) (p.0, place_glyph-AtMost n g placed h p.1)
]

place_glyph-Descends :
    (g : GlyphRecord) (placed : List GlyphRecord)
    → Descends placed
    → Descends (place_glyph g placed)
unfolding place_glyph
place_glyph-Descends g [] d = (tt, tt)
place_glyph-Descends g (before ∷ placed) d = elim (Bool-cases (ltb g.glyph_id before.glyph_id)) [
  | inr t ↦
      rw (t, place_glyph)
        (
          (
            ground (arith, t),
            AtMost-weaken before.glyph_id g.glyph_id placed (ground (arith, t)) d.0,
          ),
          d,
        )
  | inl t ↦
      rw (t, place_glyph)
        (
          place_glyph-AtMost before.glyph_id g placed (ground (arith, t)) d.0,
          place_glyph-Descends g placed d.1,
        )
]

place_all-Descends :
    (table placed : List GlyphRecord) → Descends placed → Descends (place_all table placed)
place_all-Descends [] placed d = d
place_all-Descends (g ∷ table) placed d =
    place_all-Descends table (place_glyph g placed) (place_glyph-Descends g placed d)

AtLeast-append :
    (n : ℕ) (xs : List GlyphRecord) (g : GlyphRecord)
    → AtLeast n xs
    → n ≤ g.glyph_id
    → AtLeast n (xs ++ (g ∷ []))
AtLeast-append n [] g p h = (h, tt)
AtLeast-append n (x ∷ xs) g p h = (p.0, AtLeast-append n xs g p.1 h)

AtMost-append :
    (n : ℕ) (xs : List GlyphRecord) (g : GlyphRecord)
    → AtMost n xs
    → g.glyph_id ≤ n
    → AtMost n (xs ++ (g ∷ []))
AtMost-append n [] g p h = (h, tt)
AtMost-append n (x ∷ xs) g p h = (p.0, AtMost-append n xs g p.1 h)

Ascends-append :
    (xs : List GlyphRecord) (g : GlyphRecord)
    → Ascends xs
    → AtMost g.glyph_id xs
    → Ascends (xs ++ (g ∷ []))
Ascends-append [] g a p = (tt, tt)
Ascends-append (x ∷ xs) g a p =
    (AtLeast-append x.glyph_id xs g a.0 p.0, Ascends-append xs g a.1 p.1)

first_to_last-AtMost :
    (n : ℕ) (placed : List GlyphRecord) → AtMost n placed → AtMost n (first_to_last placed)
unfolding first_to_last
first_to_last-AtMost n [] p = tt
first_to_last-AtMost n (g ∷ placed) p =
    AtMost-append n (first_to_last placed) g (first_to_last-AtMost n placed p.1) p.0

first_to_last-Ascends :
    (placed : List GlyphRecord) → Descends placed → Ascends (first_to_last placed)
unfolding first_to_last
first_to_last-Ascends [] d = tt
first_to_last-Ascends (g ∷ placed) d =
    Ascends-append (first_to_last placed) g (first_to_last-Ascends placed d.1)
      (first_to_last-AtMost g.glyph_id placed d.0)

-- The index is in the order that the search relies on.
pub index-Ascends : (table : List GlyphRecord) → Ascends (first_to_last (place_all table []))
index-Ascends table = first_to_last-Ascends (place_all table []) (place_all-Descends table [] tt)
