-- ===== src/Qpk/Reader.antt =====
-- qpk::Reader of firmware/qpk/qpk_reader.cpp: opening a package. The checks run in the order of the
-- code, on the bytes that the file returns.
pub mod Checks
pub mod Access
pub mod Blobs
pub mod Search
pub mod Glyphs
pub mod Sections
pub mod WellFormed
pub mod Opening
pub mod Checksums
pub mod Partition
pub mod ByWord
use diy_ebook.Prelude.{
  ℕ, zero, suc, ◌+◌, ◌-◌, ◌*◌, ◌/◌, ◌%◌, ◌^◌, Bool, true, false, not, Option, none, some, List, [],
  ◌∷◌, ◌&&◌, ◌||◌, ltb, leb, ◌==◌, take, drop, if◌then◌else◌,
}
use diy_ebook.Qpk.ByteOrder.{Bytes, at, read16, read32, read64}
use diy_ebook.Qpk.Crc.{crc32}
use diy_ebook.Qpk.File.{File, read_exact}
use diy_ebook.Qpk.Result.{
  Result, ok, ◌>>=◌, ◌>>◌, or_error, done, refuse_if, io_error, too_small, bad_magic,
  unsupported_version, bad_header_size, header_checksum, size_mismatch, bad_section_table,
  section_misaligned, section_out_of_range, section_overlap, section_order, section_size_mismatch,
  missing_section, font_sections_required, layout_section_required,
}
use diy_ebook.Qpk.Format.{
  Header, SectionEntry, format_version, header_size, section_entry_size, max_sections,
  record_size_for,
}
use diy_ebook.Qpk.Format
use diy_ebook.Qpk.Records.{GlyphRecord}

-- WithinBounds
abbrev pub within_bounds : ℕ → ℕ → ℕ → Bool
within_bounds offset size limit = leb offset limit && leb size (limit - offset)

-- An open package; `glyph_index` is what buildGlyphIndex left.
pub record Reader : Type 0 where
  pub file : File
  pub header : Header
  pub sections : List SectionEntry
  pub glyph_index : Option (List GlyphRecord)

abbrev pub is_package : Bytes → Bool
is_package b = at b 0 == b'Q' && at b 1 == b'P' && at b 2 == b'K' && at b 3 == b'1'

abbrev pub decode_header : Bytes → Header
decode_header b = record {
  version = read16 (drop 4 b);
  size = read16 (drop 6 b);
  package_type = read16 (drop 8 b);
  section_count = read16 (drop 10 b);
  flags = read32 (drop 12 b);
  package_size = read64 (drop 16 b);
  content_id = take 16 (drop 24 b);
  content_version = read32 (drop 40 b);
  section_table_offset = read32 (drop 44 b);
  section_table_length = read32 (drop 48 b);
  payload_crc32 = read32 (drop 52 b);
  header_crc32 = read32 (drop 60 b);
}

-- The tests of Reader::readHeader on the bytes that it read.
unfoldable pub check_header : ℕ → Bytes → Result (Unit {0})
check_header file_size b = do
  refuse_if (not (is_package b)) bad_magic
  refuse_if (not (read16 (drop 4 b) == format_version)) unsupported_version
  refuse_if (ltb (read16 (drop 6 b)) header_size || ltb file_size (read16 (drop 6 b)))
      bad_header_size
  refuse_if (not (crc32 (take 60 b) == read32 (drop 60 b))) header_checksum
  refuse_if (not (read64 (drop 16 b) == file_size)) size_mismatch

-- Reader::readHeader
unfoldable pub read_header : File → Result Header
unfolding check_header read_exact
read_header f = do
  refuse_if (ltb f.size header_size) too_small
  b ← or_error io_error (read_exact f 0 header_size)
  check_header f.size b
  ok (decode_header b)

abbrev pub decode_entry : Bytes → SectionEntry
decode_entry b = record {
  id = read16 (drop 0 b);
  version = read16 (drop 2 b);
  offset = read64 (drop 4 b);
  size = read64 (drop 12 b);
  count = read32 (drop 20 b);
  crc32 = read32 (drop 24 b);
  record_size = read16 (drop 28 b);
  flags = read16 (drop 30 b);
}

-- for (i = 0; i < count; ++i), from the offset of entry i on
unfoldable pub read_entries : File → ℕ → ℕ → Result (List SectionEntry)
unfolding read_exact
read_entries f zero offset = ok []
read_entries f (suc n) offset = do
  b ← or_error io_error (read_exact f offset section_entry_size)
  rest ← read_entries f n (offset + section_entry_size)
  ok (decode_entry b ∷ rest)

-- The tests of Reader::readSectionTable on the header.
unfoldable pub check_table : Header → Result (Unit {0})
check_table h = do
  refuse_if (h.section_count == 0 || ltb max_sections h.section_count) bad_section_table
  refuse_if (not (h.section_count * section_entry_size == h.section_table_length)) bad_section_table
  refuse_if (ltb h.section_table_offset h.size) bad_section_table
  refuse_if (not (within_bounds h.section_table_offset h.section_table_length h.package_size))
      bad_section_table

-- Reader::readSectionTable
unfoldable pub read_section_table : File → Header → Result (List SectionEntry)
unfolding check_table read_entries
read_section_table f h = do check_table h; read_entries f h.section_count h.section_table_offset

-- The end of the section table.
abbrev pub table_end : Header → ℕ
table_end h = h.section_table_offset + h.section_table_length

-- Rules 8 and 11 on one entry.
unfoldable pub check_entry : Header → SectionEntry → Result (Unit {0})
unfolding record_size_for
check_entry h e = do
  refuse_if (not (e.offset % 4 == 0)) section_misaligned
  refuse_if (ltb e.offset (table_end h)) section_out_of_range
  refuse_if (not (within_bounds e.offset e.size h.package_size)) section_out_of_range
  refuse_if (not (record_size_for e.id == 0) && not (e.record_size == record_size_for e.id))
      section_size_mismatch
  refuse_if (not (e.record_size == 0) && not (e.count * e.record_size == e.size))
      section_size_mismatch

-- i > 0 && e.id <= sections_[i - 1].id
abbrev pub is_out_of_order : Option ℕ → ℕ → Bool
is_out_of_order none id = false
is_out_of_order (some before) id = leb id before

unfoldable pub check_entries : Header → Option ℕ → List SectionEntry → Result (Unit {0})
unfolding check_entry
check_entries h before [] = done
check_entries h before (e ∷ rest) = do
  refuse_if (is_out_of_order before e.id) section_order
  check_entry h e
  check_entries h (some e.id) rest

-- Both are checked to end inside the file, so the sums do not wrap around.
abbrev pub overlaps : SectionEntry → SectionEntry → Bool
overlaps a b =
    not (a.size == 0)
    && not (b.size == 0)
    && ltb a.offset (b.offset + b.size)
    && ltb b.offset (a.offset + a.size)

unfoldable pub overlaps_any : SectionEntry → List SectionEntry → Bool
overlaps_any a [] = false
overlaps_any a (b ∷ rest) = overlaps a b || overlaps_any a rest

unfoldable pub check_overlaps : List SectionEntry → Result (Unit {0})
unfolding overlaps_any
check_overlaps [] = done
check_overlaps (a ∷ rest) = do refuse_if (overlaps_any a rest) section_overlap; check_overlaps rest

-- Reader::validateSectionTable
unfoldable pub validate_section_table : Header → List SectionEntry → Result (Unit {0})
unfolding check_entries check_overlaps
validate_section_table h sections = do check_entries h none sections; check_overlaps sections

-- Reader::section; nullptr is `none`
unfoldable pub section : ℕ → List SectionEntry → Option SectionEntry
section id [] = none
section id (e ∷ rest) = if e.id == id then some e else section id rest

abbrev pub is_some : Option SectionEntry → Bool
is_some none = false
is_some (some e) = true

unfoldable pub has_section : ℕ → List SectionEntry → Bool
unfolding section
has_section id sections = is_some (section id sections)

unfoldable pub required_sections : ℕ → List ℕ
required_sections type =
    if type == 1
    then Format.metadata ∷ Format.surah_index ∷ Format.page_index ∷ Format.ayah_index
      ∷ Format.text_data ∷ []
    else if type == 2
    then Format.metadata ∷ Format.chapter_index ∷ Format.page_index ∷ Format.text_index
      ∷ Format.text_data ∷ []
    else if type == 3 || type == 4
    then Format.metadata ∷ Format.translation_index ∷ Format.translation_data ∷ []
    else Format.metadata ∷ []

unfoldable pub require_all : List ℕ → List SectionEntry → Result (Unit {0})
unfolding has_section
require_all [] sections = done
require_all (id ∷ ids) sections = do
  refuse_if (not (has_section id sections)) missing_section
  require_all ids sections

-- Reader::requireSectionsForType
unfoldable pub require_sections_for_type : Header → List SectionEntry → Result (Unit {0})
unfolding required_sections require_all
require_sections_for_type h sections = require_all (required_sections h.package_type) sections

-- kFlagShapedTextData, kFlagHasWordLayout
abbrev pub has_flag : ℕ → ℕ → Bool
has_flag flags n = flags / 2 ^ n % 2 == 1

-- Reader::requireFontSectionsIfShaped
unfoldable pub require_font_sections_if_shaped : Header → List SectionEntry → Result (Unit {0})
unfolding has_section
require_font_sections_if_shaped h sections = if not (has_flag h.flags 3) then done else (do
  refuse_if (not (has_section Format.font_metadata sections)) font_sections_required
  refuse_if (not (has_section Format.assets sections)) font_sections_required)

-- Reader::requireLayoutIfHasWordLayout
unfoldable pub require_layout_if_has_word_layout : Header → List SectionEntry → Result (Unit {0})
unfolding has_section
require_layout_if_has_word_layout h sections =
    refuse_if (has_flag h.flags 0 && not (has_section Format.layout_data sections))
      layout_section_required
