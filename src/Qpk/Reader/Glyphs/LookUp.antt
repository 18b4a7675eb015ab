-- ===== src/Qpk/Reader/Glyphs/LookUp.antt =====
-- The search of getGlyph in the index: firmware/qpk/qpk_reader.cpp.
use diy_ebook.Prelude.{
  ℕ, zero, suc, ◌≤◌, ◌<◌, ◌≡◌, refl, arith, inl, inr, true, false, none, List, [], ◌∷◌, length, ltb,
  ◌==◌, get_elem?, Bool-cases,
}
use diy_ebook.Qpk.Result.{ok, or_error, out_of_range}
use diy_ebook.Qpk.Records.{GlyphRecord}
use diy_ebook.Qpk.Reader.Partition.{partition_point_lem}
use diy_ebook.Qpk.Reader.Glyphs.{id_at, glyph_here, look_up_glyph}
use diy_ebook.Qpk.Reader.Glyphs.Order.{first_with, Ascends, AtLeast}

AtLeast-id_at :
    (n : ℕ) (index : List GlyphRecord) (j : ℕ)
    → AtLeast n index
    → j < length index
    → n ≤ id_at index j
AtLeast-id_at n [] j p h = absurd (omega arith)
AtLeast-id_at n (g ∷ index) zero p h = p.0
AtLeast-id_at n (g ∷ index) (suc j) p h = AtLeast-id_at n index j p.1 (omega arith)

id_at-Ascends :
    (index : List GlyphRecord) (i j : ℕ)
    → Ascends index
    → i ≤ j
    → j < length index
    → id_at index i ≤ id_at index j
id_at-Ascends [] i j a h inside = absurd (omega arith)
id_at-Ascends (g ∷ index) zero zero a h inside = omega arith
id_at-Ascends (g ∷ index) zero (suc j) a h inside =
    AtLeast-id_at g.glyph_id index j a.0 (omega arith)
id_at-Ascends (g ∷ index) (suc i) zero a h inside = absurd (omega arith)
id_at-Ascends (g ∷ index) (suc i) (suc j) a h inside =
    id_at-Ascends index i j a.1 (omega arith) (omega arith)

absent :
    (id n : ℕ) (index : List GlyphRecord) → id < n → AtLeast n index → first_with id index ≡ none
absent id n [] h p = refl
absent id n (g ∷ index) h p =
    let other : (g.glyph_id == id) ≡ false = ground (arith, p.0) in
    rw other (absent id n index h p.1)

-- The lower bound of an id is at its first record.
here_lem :
    (id : ℕ) (index : List GlyphRecord) (p : ℕ)
    → Ascends index
    → ((i : ℕ) → i < p → ltb (id_at index i) id ≡ true)
    → ((i : ℕ) → p ≤ i → i < length index → ltb (id_at index i) id ≡ false)
    → glyph_here (get_elem? index p) id ≡ or_error out_of_range (first_with id index)
here_lem id [] p a below over = refl
here_lem id (g ∷ index) zero a below over = elim (Bool-cases (g.glyph_id == id)) [
  | inl t ↦ rw t refl
  | inr t ↦
      (let behind : id < g.glyph_id = ground (arith, t, over 0 (omega arith) (omega arith)) in
        rw (t, absent id g.glyph_id index behind a.0) refl)
]
here_lem id (g ∷ index) (suc p) a below over =
    let other : (g.glyph_id == id) ≡ false = ground (arith, below 0 (omega arith)) in
    rw other (
      here_lem id index p a.1 (λ i h. below (suc i) (omega (arith, h)))
        (λ i h k. over (suc i) (omega (arith, h)) (omega (arith, k))))

pub look_up_glyph_lem :
    (index : List GlyphRecord) (id : ℕ)
    → Ascends index
    → look_up_glyph index id ≡ or_error out_of_range (first_with id index)
unfolding look_up_glyph
look_up_glyph_lem index id a =
    let found =
      partition_point_lem (λ i. ok (ltb (id_at index i) id)) (λ i. ltb (id_at index i) id)
        (length index) (λ i h. refl)
        (λ i j h k t. ground (arith, t, id_at-Ascends index i j a h k)) in
    rw found.1.0 (here_lem id index found.0 a found.1.1.1 found.1.1.2)
