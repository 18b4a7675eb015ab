-- ===== src/TextPager/Line.antt =====
-- One line: progress, bounds, and that only blanks are left out.
use diy_ebook.Prelude.{
  ℕ, zero, suc, ◌+◌, ◌-◌, ◌^◌, ◌≤◌, ◌<◌, ◌≡◌, ◌≢◌, ◌⊎◌, inl, inr, refl, arith, true, false, some,
  length, ◌==◌, Bool-cases,
}
use diy_ebook.TextPager.{
  TextPager, LineSlice, Scan, passed_char, newline, space, char_at, scan, line_end, trim,
  skip_spaces, skip_newline, wrap_line, next_line,
}

-- What no line shows: a space or a line break.
abbrev pub IsBlank : TextPager → ℕ → Type 0
IsBlank p i = (char_at p i ≡ space) ⊎ (char_at p i ≡ newline)

module _ (p : TextPager) where
  -- What the scan from `start` keeps: it stays in the text, and the space that it noted is one it
  -- has passed.
  pub record IsScanned (start limit : ℕ) (s : Scan) : Type 0 where
    pub from : start ≤ s.at
    pub upto : s.at ≤ limit
    pub inside : s.at ≤ length p.text
    pub passed : s.have_space ≡ true → s.last_space < s.at

  scan-IsScanned :
      (rounds start limit : ℕ) (s : Scan)
      → s.at + rounds ≤ limit
      → IsScanned start limit s
      → IsScanned start limit (scan p rounds s) × (s.at ≤ (scan p rounds s).at)
  unfolding scan
  scan-IsScanned zero start limit s h k = (k, omega arith)
  scan-IsScanned (suc rounds) start limit s h k = ground (
    arith,
    k.from,
    k.upto,
    k.inside,
    k.passed,
    scan-IsScanned rounds start limit (passed_char p s) (omega arith),
  )

  trim_bounds : (start n : ℕ) → start ≤ n → (start ≤ trim p start n) × (trim p start n ≤ n)
  unfolding trim
  trim_bounds start zero h = omega arith
  trim_bounds start (suc n) h = ground (arith, trim_bounds start n)

  trim_blank : (start n i : ℕ) → trim p start n ≤ i → i < n → char_at p i ≡ space
  unfolding trim
  trim_blank start zero i h k = absurd (omega arith)
  trim_blank start (suc n) i h k = ground (arith, trim_blank start n i)

  skip_spaces_bounds :
      (fuel cursor : ℕ)
      → cursor ≤ length p.text
      → (cursor ≤ skip_spaces p fuel cursor) × (skip_spaces p fuel cursor ≤ length p.text)
  unfolding skip_spaces
  skip_spaces_bounds zero cursor h = omega arith
  skip_spaces_bounds (suc fuel) cursor h = ground (arith, skip_spaces_bounds fuel (cursor + 1))

  skip_spaces_blank :
      (fuel cursor i : ℕ) → cursor ≤ i → i < skip_spaces p fuel cursor → char_at p i ≡ space
  unfolding skip_spaces
  skip_spaces_blank zero cursor i h k = absurd (omega arith)
  skip_spaces_blank (suc fuel) cursor i h k = ground (arith, skip_spaces_blank fuel (cursor + 1) i)

  skip_newline_bounds :
      (cursor : ℕ)
      → cursor ≤ length p.text
      → (cursor ≤ skip_newline p cursor) × (skip_newline p cursor ≤ length p.text)
  unfolding skip_newline
  skip_newline_bounds cursor h = ground arith

  skip_newline_blank :
      (cursor i : ℕ) → cursor ≤ i → i < skip_newline p cursor → char_at p i ≡ newline
  unfolding skip_newline
  skip_newline_blank cursor i h k = ground arith

  line_end_bounds :
      (start limit : ℕ) (s : Scan)
      → IsScanned start limit s
      → start < s.at
      → (start < line_end p start s) × (line_end p start s ≤ s.at)
  unfolding line_end
  line_end_bounds start limit s k h = ground (arith, k.passed)

  -- What a line is: a stretch of the text that starts at the cursor and fits the width, with
  -- nothing but blanks between its end and the next cursor.
  pub record IsLine (cursor : ℕ) (slice : LineSlice) (after : ℕ) : Type 0 where
    pub starts : slice.offset ≡ cursor
    pub fits : slice.size ≤ p.chars_per_line
    pub ends : cursor + slice.size ≤ after
    pub advances : cursor < after
    pub stays : after ≤ length p.text
    pub blank : (i : ℕ) → cursor + slice.size ≤ i → i < after → IsBlank p i

  abbrev started : ℕ → Scan
  started start = record { at = start; last_space = 0; have_space = false }

  first_char :
      (n start : ℕ)
      → 0 < n
      → start < length p.text
      → char_at p start ≢ newline
      → start < (scan p n (started start)).at
  unfolding scan
  first_char zero start pos h k = absurd (omega arith)
  first_char (suc n) start pos h k =
      ground (
        arith,
        scan-IsScanned n start (start + suc n) (passed_char p (started start)) (omega arith),
      )

  module _ (wide : 0 < p.chars_per_line) (u16 : p.chars_per_line < 2 ^ 16) where
    wrapped :
        (start : ℕ)
        → start < length p.text
        → char_at p start ≢ newline
        → IsLine start (wrap_line p start).0 (wrap_line p start).1
    unfolding wrap_line
    wrapped start h k =
        let n = p.chars_per_line in
        let s = scan p n (started start) in
        let stop = line_end p start s in
        let trimmed = trim p start stop in
        let skipped = skip_spaces p (length p.text - stop) stop in
        let scanned : IsScanned start (start + n) s =
          (scan-IsScanned n start (start + n) (started start) (omega arith) (record {
            from = omega arith;
            upto = omega arith;
            inside = omega arith;
            passed = λ e. cc;
          })).0 in
        let (after_start, before_at) =
          line_end_bounds start (start + n) s scanned (first_char n start wide h k) in
        let (t1, t2) = trim_bounds start stop (omega arith) in
        let upto = scanned.upto in
        let inside = scanned.inside in
        let (s1, s2) = skip_spaces_bounds (length p.text - stop) stop (omega arith) in
        let (n1, n2) = skip_newline_bounds skipped s2 in
        record {
          starts = refl;
          fits = omega arith;
          ends = omega arith;
          advances = omega arith;
          stays = n2;
          blank = λ i lo hi. ground (
            arith,
            trim_blank start stop i,
            skip_spaces_blank (length p.text - stop) stop i,
            skip_newline_blank skipped i,
          );
        }

    -- nextLine from any cursor inside the text returns a line.
    pub next_line-IsLine :
        (cursor : ℕ)
        → cursor < length p.text
        → (r : LineSlice × ℕ) × (next_line p cursor ≡ some r) × IsLine cursor r.0 r.1
    unfolding next_line
    next_line-IsLine cursor h = elim (Bool-cases (char_at p cursor == newline)) [
      | inl e ↦ (
        (record { offset = cursor; size = 0 }, cursor + 1),
        ground (arith, e),
        record {
          starts = refl;
          fits = omega arith;
          ends = omega arith;
          advances = omega arith;
          stays = omega arith;
          blank = λ i lo hi. ground (arith, e);
        },
      )
      | inr e ↦ (wrap_line p cursor, ground (arith, e), wrapped cursor h (ground (arith, e)))
    ]
