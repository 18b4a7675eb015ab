-- ===== src/Qpk/Reader/WellFormed.antt =====
-- What Reader::open of firmware/qpk/qpk_reader.cpp establishes of the header and the section table.
use diy_ebook.Prelude.{
  ℕ, zero, suc, ◌+◌, ◌*◌, ◌≤◌, ◌≡◌, arith, refl, sym, ap, ◌∙◌, take, drop, subst, length, Bool, not,
  none, List, ◌||◌, ltb, ◌==◌, if◌then◌else◌,
}
use diy_ebook.Qpk.ByteOrder.{Bytes, read16, read32, read64}
use diy_ebook.Qpk.Crc.{crc32}
use diy_ebook.Qpk.File.{File, read_exact}
use diy_ebook.Qpk.Result.{Result, ok, ◌>>=◌, ◌>>◌, done, or_error}
use diy_ebook.Qpk.Result
use diy_ebook.Qpk.Result.Success.{ok-inj, passed, then-ok, bind-ok, refuse-done}
use diy_ebook.Qpk.Format.{Header, SectionEntry}
use diy_ebook.Qpk.Reader.{
  Reader, check_header, read_header, decode_header, check_table, read_section_table, read_entries,
  is_package, within_bounds, table_end, check_entries, validate_section_table, required_sections,
  require_sections_for_type, require_font_sections_if_shaped,
}
use diy_ebook.Qpk.Reader.Checks.{
  check_sections, open_package, verify_fixed_index_checksums, check_index_consistency,
}
use diy_ebook.Qpk.Reader.Sections.{
  check_entries-AreInPlace, check_overlaps-AreApart, require_all-AreThere, shaped, laid_out,
  AreInPlace, AreApart, AreThere, AreShaped, AreLaidOut,
}

-- The header: its size, the size of the file and the place of the section table.
abbrev pub IsHeader : ℕ → Header → Type 0
IsHeader file_size h =
    (h.package_size ≡ file_size)
    × (64 ≤ h.size)
    × (h.size ≤ h.section_table_offset)
    × (table_end h ≤ h.package_size)

-- Everything about the header and the table that the reads rely on.
abbrev pub IsWellFormed : Reader → Type 0
IsWellFormed r =
    IsHeader r.file.size r.header
    × (length r.sections ≡ r.header.section_count)
    × AreInPlace r.header none r.sections
    × AreApart r.sections
    × AreThere (required_sections r.header.package_type) r.sections
    × AreShaped r.header r.sections
    × AreLaidOut r.header r.sections

check_header-ok :
    (file_size : ℕ) (b : Bytes)
    → check_header file_size b ≡ done
    → (64 ≤ read16 (drop 6 b)) × (read64 (drop 16 b) ≡ file_size)
unfolding check_header
check_header-ok file_size b accepted =
    let s1 = passed (not (is_package b)) _ _ _ accepted in
    let s2 = passed (not (read16 (drop 4 b) == 1)) _ _ _ s1.1 in
    let s3 = passed (ltb (read16 (drop 6 b)) 64 || ltb file_size (read16 (drop 6 b))) _ _ _ s2.1 in
    let s4 = passed (not (crc32 (take 60 b) == read32 (drop 60 b))) _ _ _ s3.1 in
    let s5 = refuse-done (not (read64 (drop 16 b) == file_size)) _ s4.1 in
    (ground (arith, s3.0), ground (arith, s5))

read_header-ok :
    (f : File) (h : Header) → read_header f ≡ ok h → (64 ≤ h.size) × (h.package_size ≡ f.size)
unfolding read_header
read_header-ok f h accepted =
    let s1 = passed (ltb f.size 64) _ _ _ accepted in
    let s2 = bind-ok (or_error Result.io_error (read_exact f 0 64)) _ _ s1.1 in
    let s3 = then-ok (check_header f.size s2.0) _ _ s2.1.1 in
    let facts = check_header-ok f.size s2.0 s3.0 in
    subst (λ (t : Header). (64 ≤ t.size) × (t.package_size ≡ f.size))
      (ok-inj (decode_header s2.0) h s3.1) facts

read_entries-count :
    (f : File) (n offset : ℕ) (sections : List SectionEntry)
    → read_entries f n offset ≡ ok sections
    → length sections ≡ n
unfolding read_entries
read_entries-count f zero offset sections accepted = ap length (sym (ok-inj _ _ accepted))
read_entries-count f (suc n) offset sections accepted =
    let s1 = bind-ok (or_error Result.io_error (read_exact f offset 32)) _ _ accepted in
    let s2 = bind-ok (read_entries f n (offset + 32)) _ _ s1.1.1 in
    ap length (sym (ok-inj _ _ s2.1.1)) ∙ ap suc (read_entries-count f n (offset + 32) s2.0 s2.1.0)

check_table-ok :
    (h : Header)
    → check_table h ≡ done
    → (h.size ≤ h.section_table_offset) × (table_end h ≤ h.package_size)
unfolding check_table
check_table-ok h accepted =
    let s1 = passed (h.section_count == 0 || ltb 32 h.section_count) _ _ _ accepted in
    let s2 = passed (not (h.section_count * 32 == h.section_table_length)) _ _ _ s1.1 in
    let s3 = passed (ltb h.section_table_offset h.size) _ _ _ s2.1 in
    let s4 =
      refuse-done (not (within_bounds h.section_table_offset h.section_table_length h.package_size))
        _ s3.1 in
    (ground (arith, s3.0), ground (arith, s4))

-- The reader that open leaves.
abbrev opened : File → Header → List SectionEntry → Reader
opened f h sections = record { file = f; header = h; sections = sections; glyph_index = none }

well_formed :
    (f : File) (h : Header) (sections : List SectionEntry)
    → read_header f ≡ ok h
    → read_section_table f h ≡ ok sections
    → check_sections h sections ≡ done
    → IsWellFormed (opened f h sections)
unfolding read_section_table check_sections validate_section_table require_sections_for_type
well_formed f h sections header_read table_read accepted =
    let s1 = then-ok (check_table h) _ _ table_read in
    let head = read_header-ok f h header_read in
    let table = check_table-ok h s1.0 in
    let t1 = then-ok (validate_section_table h sections) _ _ accepted in
    let t2 = then-ok (check_entries h none sections) _ _ t1.0 in
    let t3 = then-ok (require_sections_for_type h sections) _ _ t1.1 in
    let t4 = then-ok (require_font_sections_if_shaped h sections) _ _ t3.1 in
    (
      (head.1, head.0, table.0, table.1),
      read_entries-count f h.section_count h.section_table_offset sections s1.1,
      check_entries-AreInPlace h none sections t2.0,
      check_overlaps-AreApart sections t2.1,
      require_all-AreThere (required_sections h.package_type) sections t3.0,
      shaped h sections t4.0,
      laid_out h sections t4.1,
    )

-- Where opening a package succeeds, with or without the checksums, the reader has that file, the
-- header's sizes agree with the file and the section table, the table has the declared number of
-- entries, their ids ascend, every section is aligned, behind the table, inside the file and filled
-- by its records of the size that its id is given, no two sections share a byte, and the sections
-- that the package's type and flags require are there.
pub open_package-IsWellFormed :
    (f : File) (verify : Bool) (r : Reader)
    → open_package f verify ≡ ok r
    → (r.file ≡ f) × IsWellFormed r
unfolding open_package
open_package-IsWellFormed f verify r accepted =
    let s1 = passed (not f.valid) _ _ _ accepted in
    let s2 = bind-ok (read_header f) _ _ s1.1 in
    let s3 = bind-ok (read_section_table f s2.0) _ _ s2.1.1 in
    let s4 = then-ok (check_sections s2.0 s3.0) _ _ s3.1.1 in
    let s5 = then-ok (if verify then verify_fixed_index_checksums f s3.0 else done) _ _ s4.1 in
    let s6 = then-ok (check_index_consistency f s3.0) _ _ s5.1 in
    subst (λ (t : Reader). (t.file ≡ f) × IsWellFormed t) (ok-inj (opened f s2.0 s3.0) r s6.1)
      (refl, well_formed f s2.0 s3.0 s2.1.0 s3.1.0 s4.0)
