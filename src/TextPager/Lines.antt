-- ===== src/TextPager/Lines.antt =====
-- The lines of a text together: every character is on a line or is a blank.
use diy_ebook.Prelude.{
  ℕ, zero, suc, ◌+◌, ◌^◌, ◌≤◌, ◌<◌, ◌≡◌, ◌⊎◌, inl, inr, refl, ap, sym, ◌∙◌, arith, none, some, List,
  [], ◌∷◌, length, ltb, Bool-cases,
}
use diy_ebook.TextPager.{TextPager, LineSlice, next_line, lines_from}
use diy_ebook.TextPager.Line.{IsBlank, IsLine, next_line-IsLine}

-- Index `i` of the text is on one of the lines.
abbrev pub Shown : ℕ → List LineSlice → Type 0
Shown i [] = ⊥
Shown i (l ∷ ls) = ((l.offset ≤ i) × (i < l.offset + l.size)) ⊎ Shown i ls

-- Each line fits the width and lies in the text, before those that follow it.
abbrev pub InOrder : TextPager → ℕ → List LineSlice → Type 0
InOrder p from [] = Unit
InOrder p from (l ∷ ls) =
    (from ≤ l.offset)
    × (l.size ≤ p.chars_per_line)
    × (l.offset + l.size ≤ length p.text)
    × InOrder p (l.offset + l.size) ls

module _ (p : TextPager) (wide : 0 < p.chars_per_line) (u16 : p.chars_per_line < 2 ^ 16) where
  pub next_line-end : (cursor : ℕ) → length p.text ≤ cursor → next_line p cursor ≡ none
  unfolding next_line
  next_line-end cursor h = ground arith

  InOrder-weaken : (a b : ℕ) (ls : List LineSlice) → a ≤ b → InOrder p b ls → InOrder p a ls
  InOrder-weaken a b [] h k = tt
  InOrder-weaken a b (l ∷ ls) h k = (omega arith, k.1, k.2, k.3)

  pub lines_from-step :
      (fuel cursor : ℕ) (r : LineSlice × ℕ)
      → next_line p cursor ≡ some r
      → lines_from p (suc fuel) cursor ≡ r.0 ∷ lines_from p fuel r.1
  unfolding lines_from
  lines_from-step fuel cursor r e = rw (e, lines_from)

  pub lines_from-end :
      (fuel cursor : ℕ) → length p.text ≤ cursor → lines_from p (suc fuel) cursor ≡ []
  unfolding lines_from
  lines_from-end fuel cursor h = rw (next_line-end cursor h, lines_from)

  pub lines_from-zero : (cursor : ℕ) → lines_from p zero cursor ≡ []
  unfolding lines_from
  lines_from-zero cursor = refl

  pub lines_from-InOrder :
      (fuel cursor : ℕ) → cursor ≤ length p.text → InOrder p cursor (lines_from p fuel cursor)
  lines_from-InOrder zero cursor h = rw (lines_from-zero cursor) tt
  lines_from-InOrder (suc fuel) cursor h = elim (Bool-cases (ltb cursor (length p.text))) [
    | inl inside ↦
        let (r, e, line) = next_line-IsLine p wide u16 cursor (ground (arith, inside)) in
        rw (lines_from-step fuel cursor r e) (
          omega (arith, line.starts),
          line.fits,
          omega (arith, line.starts, line.ends, line.stays),
          InOrder-weaken (r.0.offset + r.0.size) r.1 (lines_from p fuel r.1)
              (omega (arith, line.starts, line.ends)) (lines_from-InOrder fuel r.1 line.stays),
        )
    | inr over ↦ rw (lines_from-end fuel cursor (ground (arith, over))) tt
  ]

  on_line :
      (cursor i : ℕ) (r : LineSlice × ℕ) (ls : List LineSlice)
      → IsLine p cursor r.0 r.1
      → cursor ≤ i
      → (r.1 ≤ i → Shown i ls ⊎ IsBlank p i)
      → Shown i (r.0 ∷ ls) ⊎ IsBlank p i
  on_line cursor i r ls line h later = elim (Bool-cases (ltb i (cursor + r.0.size))) [
    | inl e ↦ inl (inl (omega (arith, line.starts), ground (arith, line.starts, e)))
    | inr e ↦ elim (Bool-cases (ltb i r.1)) [
      | inl f ↦ inr (line.blank i (ground (arith, e)) (ground (arith, f)))
      | inr f ↦ elim (later (ground (arith, f))) [
        | inl shown ↦ inl (inr shown)
        | inr blank ↦ inr blank
      ]
    ]
  ]

  pub lines_from_cover :
      (fuel cursor i : ℕ)
      → length p.text ≤ cursor + fuel
      → cursor ≤ i
      → i < length p.text
      → Shown i (lines_from p fuel cursor) ⊎ IsBlank p i
  lines_from_cover zero cursor i f h k = absurd (omega arith)
  lines_from_cover (suc fuel) cursor i f h k =
      let (r, e, line) = next_line-IsLine p wide u16 cursor (omega arith) in
      let advances = line.advances in
      rw (lines_from-step fuel cursor r e) (
        on_line cursor i r (lines_from p fuel r.1) line h
          λ g. lines_from_cover fuel r.1 i (omega arith) g k)

  -- More fuel than there are characters left changes nothing.
  pub lines_from-fuel :
      (m n cursor : ℕ)
      → length p.text ≤ cursor + m
      → length p.text ≤ cursor + n
      → lines_from p m cursor ≡ lines_from p n cursor
  lines_from-fuel zero zero cursor h k = refl
  lines_from-fuel zero (suc n) cursor h k =
      lines_from-zero cursor ∙ sym (lines_from-end n cursor (omega arith))
  lines_from-fuel (suc m) zero cursor h k =
      lines_from-end m cursor (omega arith) ∙ sym (lines_from-zero cursor)
  lines_from-fuel (suc m) (suc n) cursor h k = elim (Bool-cases (ltb cursor (length p.text))) [
    | inl inside ↦
        let (r, e, line) = next_line-IsLine p wide u16 cursor (ground (arith, inside)) in
        let advances = line.advances in
        lines_from-step m cursor r e
        ∙ ap (λ (t : List LineSlice). r.0 ∷ t) (lines_from-fuel m n r.1 (omega arith) (omega arith))
        ∙ sym (lines_from-step n cursor r e)
    | inr over ↦
        lines_from-end m cursor (ground (arith, over))
        ∙ sym (lines_from-end n cursor (ground (arith, over)))
  ]
