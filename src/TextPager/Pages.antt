-- ===== src/TextPager/Pages.antt =====
-- The pages of a text: each is a stretch of the list of lines, and together they are all of it.
use diy_ebook.Prelude.{
  take_long, ℕ, zero, suc, ◌+◌, ◌-◌, ◌*◌, ◌/◌, ◌%◌, ◌^◌, ◌≤◌, ◌<◌, ◌≡◌, ◌⊎◌, inl, inr, refl, ap,
  ap₂, sym, ◌∙◌, arith, none, some, List, [], ◌∷◌, ◌++◌, length, take, drop, ltb, ◌==◌,
  if◌then◌else◌, Bool-cases, Option-cases, ==_iff,
}
use diy_ebook.TextPager.{
  TextPager, LineSlice, next_line, lines_from, count_lines, skip_lines, fill_page, fill_from,
  lines_for_page, reset,
}
use diy_ebook.TextPager.Line.{IsBlank, next_line-IsLine}
use diy_ebook.TextPager.Lines.{
  Shown, InOrder, lines_from-step, lines_from-end, lines_from-zero, lines_from-InOrder,
  lines_from_cover, next_line-end,
}

-- All lines of the text.
abbrev pub all_lines : TextPager → List LineSlice
all_lines p = lines_from p (length p.text) 0

take-nil {ℓ} : {A : Type ℓ} (n : ℕ) → take {A = A} n [] ≡ []
take-nil zero = refl
take-nil (suc n) = refl

drop-nil {ℓ} : {A : Type ℓ} (n : ℕ) → drop {A = A} n [] ≡ []
drop-nil zero = refl
drop-nil (suc n) = refl

take-drop {ℓ} :
    {A : Type ℓ} (a b : ℕ) (xs : List A) → take a xs ++ take b (drop a xs) ≡ take (a + b) xs
take-drop zero b xs = ap (λ (t : ℕ). take t xs) (omega arith)
take-drop {A} (suc a) b [] = take-nil b ∙ sym (take-nil (suc a + b))
take-drop {A} (suc a) b (x ∷ xs) =
    ap (λ (t : List A). x ∷ t) (take-drop a b xs)
    ∙ ap (λ (t : ℕ). take t (x ∷ xs)) {x = suc (a + b)} (omega arith)

-- The first `n` pages, one after the other.
unfoldable pub pages_upto : TextPager → ℕ → List LineSlice
pages_upto p zero = []
pages_upto p (suc n) = pages_upto p n ++ lines_for_page p (suc n) p.lines_per_page

module _ (p : TextPager) (wide : 0 < p.chars_per_line) (u16 : p.chars_per_line < 2 ^ 16) where
  fill_page-lines_from : (n cursor : ℕ) → fill_page p n cursor ≡ lines_from p n cursor
  unfolding fill_page lines_from
  fill_page-lines_from zero cursor = refl
  fill_page-lines_from (suc n) cursor = elim (Option-cases (next_line p cursor)) [
    | inl e ↦ rw (e, fill_page, lines_from)
    | inr (r, e) ↦
        rw (e, fill_page, lines_from)
          (ap (λ (t : List LineSlice). r.0 ∷ t) (fill_page-lines_from n r.1))
  ]

  no_lines : (k : ℕ) → fill_from p k none ≡ take k []
  unfolding fill_from
  no_lines k = sym (take-nil k)

  lines_from-take :
      (n fuel cursor : ℕ)
      → length p.text ≤ cursor + fuel
      → lines_from p n cursor ≡ take n (lines_from p fuel cursor)
  lines_from-take zero fuel cursor h = lines_from-zero p wide u16 cursor
  lines_from-take (suc n) zero cursor h =
      lines_from-end p wide u16 n cursor (omega arith)
      ∙ ap (λ (t : List LineSlice). take (suc n) t) (sym (lines_from-zero p wide u16 cursor))
  lines_from-take (suc n) (suc fuel) cursor h = elim (Bool-cases (ltb cursor (length p.text))) [
    | inl inside ↦
        let (r, e, line) = next_line-IsLine p wide u16 cursor (ground (arith, inside)) in
        let advances = line.advances in
        lines_from-step p wide u16 n cursor r e
        ∙ ap (λ (t : List LineSlice). r.0 ∷ t) (lines_from-take n fuel r.1 (omega arith))
        ∙ ap (λ (t : List LineSlice). take (suc n) t)
            (sym (lines_from-step p wide u16 fuel cursor r e))
    | inr over ↦
        lines_from-end p wide u16 n cursor (ground (arith, over))
        ∙ ap (λ (t : List LineSlice). take (suc n) t)
            (sym (lines_from-end p wide u16 fuel cursor (ground (arith, over))))
  ]

  skip_lines-step :
      (n cursor : ℕ) (r : LineSlice × ℕ)
      → next_line p cursor ≡ some r
      → skip_lines p (suc n) cursor ≡ skip_lines p n r.1
  unfolding skip_lines
  skip_lines-step n cursor r e = rw (e, skip_lines)

  skip_lines-end : (n cursor : ℕ) → length p.text ≤ cursor → skip_lines p (suc n) cursor ≡ none
  unfolding skip_lines
  skip_lines-end n cursor h = rw (next_line-end p wide u16 cursor h, skip_lines)

  no_skip : (k cursor : ℕ) → fill_from p k (skip_lines p 0 cursor) ≡ fill_page p k cursor
  unfolding fill_from skip_lines
  no_skip k cursor = refl

  whole_page :
      (page capacity : ℕ)
      → 0 < page
      → p.lines_per_page ≤ capacity
      → 0 < p.lines_per_page
      → lines_for_page p page capacity
        ≡ fill_from p p.lines_per_page (skip_lines p ((page - 1) * p.lines_per_page) 0)
  unfolding lines_for_page
  whole_page page capacity h k pos = elim (Bool-cases (ltb p.lines_per_page capacity)) [
    | inl e ↦ ground arith
    | inr e ↦ let same_size : capacity ≡ p.lines_per_page = ground (arith, e) in ground arith
  ]

  -- Skipping lines and filling a page reads a stretch of the list of lines.
  page_stretch :
      (n k fuel cursor : ℕ)
      → length p.text ≤ cursor + fuel
      → fill_from p k (skip_lines p n cursor) ≡ take k (drop n (lines_from p fuel cursor))
  page_stretch zero k fuel cursor h =
      no_skip k cursor ∙ fill_page-lines_from k cursor ∙ lines_from-take k fuel cursor h
  page_stretch (suc n) k zero cursor h =
      ap (fill_from p k) (skip_lines-end n cursor (omega arith))
      ∙ no_lines k
      ∙ ap (λ (t : List LineSlice). take k (drop (suc n) t))
          (sym (lines_from-zero p wide u16 cursor))
  page_stretch (suc n) k (suc fuel) cursor h = elim (Bool-cases (ltb cursor (length p.text))) [
    | inl inside ↦
        let (r, e, line) = next_line-IsLine p wide u16 cursor (ground (arith, inside)) in
        let advances = line.advances in
        ap (fill_from p k) (skip_lines-step n cursor r e)
        ∙ page_stretch n k fuel r.1 (omega arith)
        ∙ ap (λ (t : List LineSlice). take k (drop (suc n) t))
            (sym (lines_from-step p wide u16 fuel cursor r e))
    | inr over ↦
        ap (fill_from p k) (skip_lines-end n cursor (ground (arith, over)))
        ∙ no_lines k
        ∙ ap (λ (t : List LineSlice). take k (drop (suc n) t))
            (sym (lines_from-end p wide u16 fuel cursor (ground (arith, over))))
  ]

  -- With a width that is not zero and fits its field, a page from 1 on and room for a page,
  -- lines_for_page gives the lines of the text from (page - 1) * lines_per_page on, as many as a
  -- page has.
  pub lines_for_page_lem :
      (page capacity : ℕ)
      → 0 < page
      → p.lines_per_page ≤ capacity
      → 0 < p.lines_per_page
      → lines_for_page p page capacity
        ≡ take p.lines_per_page (drop ((page - 1) * p.lines_per_page) (all_lines p))
  lines_for_page_lem page capacity h k pos =
      whole_page page capacity h k pos
      ∙ page_stretch ((page - 1) * p.lines_per_page) p.lines_per_page (length p.text) 0
          (omega arith)

  count_lines-length :
      (fuel cursor k : ℕ) → count_lines p fuel cursor k ≡ k + length (lines_from p fuel cursor)
  unfolding count_lines lines_from
  count_lines-length zero cursor k = omega arith
  count_lines-length (suc fuel) cursor k = elim (Option-cases (next_line p cursor)) [
    | inl e ↦ rw (e, count_lines, lines_from) (omega arith)
    | inr (r, e) ↦
        rw (e, count_lines, lines_from) (omega (arith, count_lines-length fuel r.1 (k + 1)))
  ]

  pages_upto-take :
      (n : ℕ) → 0 < p.lines_per_page → pages_upto p n ≡ take (n * p.lines_per_page) (all_lines p)
  unfolding pages_upto
  pages_upto-take zero pos = ap (λ (t : ℕ). take t (all_lines p)) {x = 0} (omega arith)
  pages_upto-take (suc n) pos =
      ap₂ (λ (a b : List LineSlice). a ++ b) (pages_upto-take n pos)
        (lines_for_page_lem (suc n) p.lines_per_page (omega arith) (omega arith) pos
          ∙ ap (λ (t : ℕ). take p.lines_per_page (drop (t * p.lines_per_page) (all_lines p)))
              (omega arith))
      ∙ take-drop (n * p.lines_per_page) p.lines_per_page (all_lines p)
      ∙ ap (λ (t : ℕ). take t (all_lines p)) (omega arith)

  all_pages :
      (n : ℕ)
      → 0 < p.lines_per_page
      → length (all_lines p) ≤ n * p.lines_per_page
      → pages_upto p n ≡ all_lines p
  all_pages n pos h = pages_upto-take n pos ∙ take_long _ (all_lines p) h

pages_enough : (n d : ℕ) → 0 < d → n ≤ (n + d - 1) / d * d
pages_enough n d h = omega arith

pages_fit : (n d : ℕ) → 0 < d → n < 2 ^ 16 → (n + d - 1) / d < 2 ^ 16
pages_fit n d h k = grind arith

pages_cover :
    (n d : ℕ)
    → 0 < d
    → n < 2 ^ 16
    → n ≤ (if (n + d - 1) / d % 2 ^ 16 == 0 then 1 else (n + d - 1) / d % 2 ^ 16) * d
pages_cover n d h k =
    let q = (n + d - 1) / d in
    let unwrapped : q % 2 ^ 16 ≡ q = omega (arith, pages_fit n d h k) in
    rw unwrapped (elim (Bool-cases (q == 0)) [
      | inl e ↦
          let zero_pages : q ≡ 0 = (==_iff q 0).0 e in
          rw e (omega (arith, ap (λ (t : ℕ). t * d) zero_pages, pages_enough n d h))
      | inr e ↦ rw e (pages_enough n d h)
    ])

module _ (text : List ℕ) (cpl lpp : ℕ) where
  reset_sizes :
      (0 < (reset text cpl lpp).pager.chars_per_line)
      × (0 < (reset text cpl lpp).pager.lines_per_page)
      × ((reset text cpl lpp).pager.text ≡ text)
  unfolding reset
  reset_sizes = (ground arith, ground arith, refl)

  reset_width : cpl < 2 ^ 16 → (reset text cpl lpp).pager.chars_per_line < 2 ^ 16
  unfolding reset
  reset_width h = ground arith

  reset_lines :
      cpl < 2 ^ 16 → (reset text cpl lpp).line_count ≡ length (all_lines (reset text cpl lpp).pager)
  unfolding reset
  reset_lines h =
      count_lines-length (reset text cpl lpp).pager reset_sizes.0 (reset_width h) (length text) 0 0
      ∙ omega arith

  reset_pages :
      (reset text cpl lpp).line_count < 2 ^ 16
      → (reset text cpl lpp).line_count
        ≤ (reset text cpl lpp).page_count * (reset text cpl lpp).pager.lines_per_page
  unfolding reset
  reset_pages h =
      pages_cover (reset text cpl lpp).line_count (reset text cpl lpp).pager.lines_per_page
        reset_sizes.1 h

-- What all the pages that `reset` counts show.
abbrev pub shown_lines : List ℕ → ℕ → ℕ → List LineSlice
shown_lines text cpl lpp = pages_upto (reset text cpl lpp).pager (reset text cpl lpp).page_count

-- For a text of fewer than 65536 lines and a width that fits its field, the pages that reset counts
-- show as many lines as it counts, in the order of the text, within the width and apart, and every
-- character of the text is on one of them or is a space or a line break.
pub reset_shows_all :
    (text : List ℕ) (chars_per_line lines_per_page i : ℕ)
    → chars_per_line < 2 ^ 16
    → (reset text chars_per_line lines_per_page).line_count < 2 ^ 16
    → i < length text
    → (length (shown_lines text chars_per_line lines_per_page)
        ≡ (reset text chars_per_line lines_per_page).line_count)
      × InOrder
          (reset text chars_per_line lines_per_page).pager
          0
          (shown_lines text chars_per_line lines_per_page)
      × (Shown i (shown_lines text chars_per_line lines_per_page)
          ⊎ IsBlank (reset text chars_per_line lines_per_page).pager i)
reset_shows_all text cpl lpp i h few inside =
    let r = reset text cpl lpp in
    let (wide, tall, same_text) = reset_sizes text cpl lpp in
    let u16 = reset_width text cpl lpp h in
    let lines = reset_lines text cpl lpp h in
    let whole : pages_upto r.pager r.page_count ≡ all_lines r.pager =
      all_pages r.pager wide u16 r.page_count tall
        (omega (arith, lines, reset_pages text cpl lpp few)) in
    rw whole (
      sym lines,
      lines_from-InOrder r.pager wide u16 (length r.pager.text) 0 (omega arith),
      lines_from_cover r.pager wide u16 (length r.pager.text) 0 i (omega arith) (omega arith)
          (rw same_text inside),
    )
