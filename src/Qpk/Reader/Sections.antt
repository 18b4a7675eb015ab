-- ===== src/Qpk/Reader/Sections.antt =====
-- The section table that validateSectionTable, requireSectionsForType and the rules on the flags accept:
-- firmware/qpk/qpk_reader.cpp.
use diy_ebook.Prelude.{
  ℕ, ◌+◌, ◌*◌, ◌%◌, ◌≤◌, ◌<◌, ◌≡◌, ◌⊎◌, inl, inr, arith, or-false, subst, Bool-cases, Bool, true,
  false, not, Option, none, some, List, [], ◌∷◌, All, ◌&&◌, ltb, ◌==◌, if◌then◌else◌,
}
use diy_ebook.Qpk.Result.{Result, ◌>>=◌, ◌>>◌, done, refuse_if}
use diy_ebook.Qpk.Result
use diy_ebook.Qpk.Format
use diy_ebook.Qpk.Result.Success.{passed, then-ok, refuse-done}
use diy_ebook.Qpk.Format.{Header, SectionEntry, record_size_for}
use diy_ebook.Qpk.Reader.{
  within_bounds, table_end, check_entry, is_out_of_order, check_entries, overlaps, overlaps_any,
  check_overlaps, has_section, require_all, has_flag, require_font_sections_if_shaped,
  require_layout_if_has_word_layout,
}

-- One entry: aligned, after the table and inside the package, with as many records as fill it and
-- with the record size that its id is given.
abbrev pub IsInPlace : Header → SectionEntry → Type 0
IsInPlace h e =
    (e.offset % 4 ≡ 0)
    × (table_end h ≤ e.offset)
    × (e.offset + e.size ≤ h.package_size)
    × ((e.record_size ≡ 0) ⊎ (e.count * e.record_size ≡ e.size))
    × ((record_size_for e.id ≡ 0) ⊎ (e.record_size ≡ record_size_for e.id))

abbrev pub IsAbove : Option ℕ → ℕ → Type 0
IsAbove none id = Unit {0}
IsAbove (some before) id = before < id

-- The ids ascend, so none occurs twice.
abbrev pub AreInPlace : Header → Option ℕ → List SectionEntry → Type 0
AreInPlace h before [] = Unit {0}
AreInPlace h before (e ∷ rest) = IsAbove before e.id × IsInPlace h e × AreInPlace h (some e.id) rest

abbrev pub IsApart : SectionEntry → SectionEntry → Type 0
IsApart a b =
    ((a.size ≡ 0) ⊎ (b.size ≡ 0))
    ⊎ ((a.offset + a.size ≤ b.offset) ⊎ (b.offset + b.size ≤ a.offset))

-- No two entries share a byte.
abbrev pub AreApart : List SectionEntry → Type 0
AreApart [] = Unit {0}
AreApart (a ∷ rest) = All (IsApart a) rest × AreApart rest

check_entry-IsInPlace : (h : Header) (e : SectionEntry) → check_entry h e ≡ done → IsInPlace h e
unfolding check_entry
check_entry-IsInPlace h e accepted =
    let s1 = passed (not (e.offset % 4 == 0)) _ _ _ accepted in
    let s2 = passed (ltb e.offset (table_end h)) _ _ _ s1.1 in
    let s3 = passed (not (within_bounds e.offset e.size h.package_size)) _ _ _ s2.1 in
    let s4 =
      passed (not (record_size_for e.id == 0) && not (e.record_size == record_size_for e.id)) _ _ _
        s3.1 in
    let s5 =
      refuse-done (not (e.record_size == 0) && not (e.count * e.record_size == e.size)) _ s4.1 in
    (
      ground (arith, s1.0),
      ground (arith, s2.0),
      ground (arith, s3.0),
      ground (arith, s5),
      ground (arith, s4.0),
    )

above : (before : Option ℕ) (id : ℕ) → is_out_of_order before id ≡ false → IsAbove before id
above none id h = tt
above (some before) id h = ground arith

pub check_entries-AreInPlace :
    (h : Header) (before : Option ℕ) (sections : List SectionEntry)
    → check_entries h before sections ≡ done
    → AreInPlace h before sections
unfolding check_entries
check_entries-AreInPlace h before [] accepted = tt
check_entries-AreInPlace h before (e ∷ rest) accepted =
    let ordered = passed _ _ _ _ accepted in
    let placed = then-ok _ _ _ ordered.1 in
    (
      above before e.id ordered.0,
      check_entry-IsInPlace h e placed.0,
      check_entries-AreInPlace h (some e.id) rest placed.1,
    )

overlaps-IsApart : (a b : SectionEntry) → overlaps a b ≡ false → IsApart a b
overlaps-IsApart a b h = ground arith

overlaps_any-IsApart :
    (a : SectionEntry) (rest : List SectionEntry)
    → overlaps_any a rest ≡ false
    → All (IsApart a) rest
unfolding overlaps_any
overlaps_any-IsApart a [] h = tt
overlaps_any-IsApart a (b ∷ rest) h =
    let s = or-false _ _ h in (overlaps-IsApart a b s.0, overlaps_any-IsApart a rest s.1)

pub check_overlaps-AreApart :
    (sections : List SectionEntry) → check_overlaps sections ≡ done → AreApart sections
unfolding check_overlaps
check_overlaps-AreApart [] accepted = tt
check_overlaps-AreApart (a ∷ rest) accepted =
    let s = passed _ _ _ _ accepted in
    (overlaps_any-IsApart a rest s.0, check_overlaps-AreApart rest s.1)

-- Every section that the package's type requires is there.
abbrev pub AreThere : List ℕ → List SectionEntry → Type 0
AreThere ids sections = All (λ id. has_section id sections ≡ true) ids

pub require_all-AreThere :
    (ids : List ℕ) (sections : List SectionEntry)
    → require_all ids sections ≡ done
    → AreThere ids sections
unfolding require_all
require_all-AreThere [] sections accepted = tt
require_all-AreThere (id ∷ ids) sections accepted =
    let s = passed (not (has_section id sections)) _ _ _ accepted in
    (ground (arith, s.0), require_all-AreThere ids sections s.1)

-- The flags' promises: glyphs with their bitmaps, and the lines of the layout.
abbrev pub AreShaped : Header → List SectionEntry → Type 0
AreShaped h sections =
    (has_flag h.flags 3 ≡ false) ⊎ (AreThere (Format.font_metadata ∷ Format.assets ∷ []) sections)

abbrev pub AreLaidOut : Header → List SectionEntry → Type 0
AreLaidOut h sections =
    (has_flag h.flags 0 ≡ false) ⊎ (has_section Format.layout_data sections ≡ true)

-- The two tests of a package with shaped text.
abbrev shaped_tests : List SectionEntry → Result (Unit {0})
shaped_tests sections =
    refuse_if (not (has_section Format.font_metadata sections)) Result.font_sections_required
    >> refuse_if (not (has_section Format.assets sections)) Result.font_sections_required

shaped_both :
    (sections : List SectionEntry)
    → shaped_tests sections ≡ done
    → AreThere (Format.font_metadata ∷ Format.assets ∷ []) sections
shaped_both sections accepted =
    let s = passed (not (has_section Format.font_metadata sections)) _ _ _ accepted in
    let assets_there = refuse-done (not (has_section Format.assets sections)) _ s.1 in
    (ground (arith, s.0), (ground (arith, assets_there), tt))

pub shaped :
    (h : Header) (sections : List SectionEntry)
    → require_font_sections_if_shaped h sections ≡ done
    → AreShaped h sections
unfolding require_font_sections_if_shaped
shaped h sections accepted = elim (Bool-cases (has_flag h.flags 3)) [
  | inr t ↦ inl t
  | inl t ↦ inr (
      shaped_both sections
        (subst (λ (b : Bool). (if not b then done else shaped_tests sections) ≡ done) t accepted))
]

laid_out_cases : (a b : Bool) → (a && not b) ≡ false → (a ≡ false) ⊎ (b ≡ true)
laid_out_cases a b h = ground arith

pub laid_out :
    (h : Header) (sections : List SectionEntry)
    → require_layout_if_has_word_layout h sections ≡ done
    → AreLaidOut h sections
unfolding require_layout_if_has_word_layout
laid_out h sections accepted =
    laid_out_cases (has_flag h.flags 0) (has_section Format.layout_data sections)
      (refuse-done _ _ accepted)
