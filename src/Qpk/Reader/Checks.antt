-- ===== src/Qpk/Reader/Checks.antt =====
-- Reader::open of firmware/qpk/qpk_reader.cpp: checksums and the consistency of the indexes.
use diy_ebook.Prelude.{
  ℕ, zero, suc, ◌+◌, ◌-◌, ◌*◌, ◌/◌, Bool, true, false, not, Option, none, some, List, [], ◌∷◌, ◌||◌,
  ltb, leb, ◌==◌, drop, if◌then◌else◌,
}
use diy_ebook.Qpk.ByteOrder.{Bytes, read16}
use diy_ebook.Qpk.Crc.{crc32_init, crc32_update, crc32_finish}
use diy_ebook.Qpk.File.{File, read_exact}
use diy_ebook.Qpk.Result.{
  Result, ok, err, ◌>>=◌, ◌>>◌, or_error, done, refuse_if, io_error, section_size_mismatch,
  section_checksum, index_inconsistent, no_such_section, out_of_range,
}
use diy_ebook.Qpk.Format.{Header, SectionEntry, is_fixed_index_section, max_record_size}
use diy_ebook.Qpk.Format
use diy_ebook.Qpk.Records
use diy_ebook.Qpk.Reader.{
  Reader, within_bounds, section, read_header, read_section_table, validate_section_table,
  require_sections_for_type, require_font_sections_if_shaped, require_layout_if_has_word_layout,
}

-- kCrcChunkBytes
abbrev pub crc_chunk_bytes : ℕ
crc_chunk_bytes = 8192

-- while (done < length), in chunks of `chunk_bytes`; `rounds` bounds the loop, which reads a byte
-- at least in every round
unfoldable pub crc_chunks : File → ℕ → ℕ → ℕ → ℕ → ℕ → Result ℕ
unfolding read_exact crc32_update crc32_finish
crc_chunks f chunk_bytes rounds offset zero crc = ok (crc32_finish crc)
crc_chunks f chunk_bytes zero offset (suc remaining) crc = err io_error
crc_chunks f chunk_bytes (suc rounds) offset (suc remaining) crc = do
  let n = if ltb (suc remaining) chunk_bytes then suc remaining else chunk_bytes
  chunk ← or_error io_error (read_exact f offset n)
  crc_chunks f chunk_bytes rounds (offset + n) (suc remaining - n) (crc32_update crc chunk)

-- Reader::crcRange
unfoldable pub crc_range : File → ℕ → ℕ → Result ℕ
unfolding crc_chunks
crc_range f offset size = crc_chunks f crc_chunk_bytes size offset size crc32_init

-- crcRange and the comparison with what the file declares.
unfoldable pub verify_range : File → ℕ → ℕ → ℕ → Result (Unit {0})
unfolding crc_range
verify_range f offset size declared = do
  actual ← crc_range f offset size
  refuse_if (not (actual == declared)) section_checksum

-- Reader::verifyFixedIndexChecksums
unfoldable pub verify_fixed_index_checksums : File → List SectionEntry → Result (Unit {0})
unfolding verify_range is_fixed_index_section
verify_fixed_index_checksums f [] = done
verify_fixed_index_checksums f (e ∷ rest) = do
  if is_fixed_index_section e.id then verify_range f e.offset e.size e.crc32 else done
  verify_fixed_index_checksums f rest

-- Reader::readRecordBytes
unfoldable pub read_record_bytes : File → SectionEntry → ℕ → Result Bytes
unfolding read_exact
read_record_bytes f e index = do
  refuse_if (e.record_size == 0) no_such_section
  refuse_if (ltb max_record_size e.record_size) section_size_mismatch
  refuse_if (leb e.count index) out_of_range
  or_error io_error (read_exact f (e.offset + index * e.record_size) e.record_size)

-- text != nullptr && !WithinBounds(offset, length, text->length)
abbrev pub is_outside : ℕ → ℕ → Option SectionEntry → Bool
is_outside offset size none = false
is_outside offset size (some e) = not (within_bounds offset size e.size)

-- words != nullptr && !WithinBounds(first, count, words->count)
abbrev pub is_past : ℕ → ℕ → Option SectionEntry → Bool
is_past first n none = false
is_past first n (some e) = not (within_bounds first n e.count)

-- The loop over SURAH_INDEX, with `n` records left from `i` on.
unfoldable pub check_surahs :
    File → SectionEntry → SectionEntry → Option SectionEntry → ℕ → ℕ → Result (Unit {0})
unfolding read_record_bytes Records.decode_surah
check_surahs f surahs ayahs text zero i = done
check_surahs f surahs ayahs text (suc n) i = do
  b ← read_record_bytes f surahs i
  let s = Records.decode_surah b
  refuse_if (not (within_bounds s.first_ayah_index s.ayah_count ayahs.count)) index_inconsistent
  refuse_if (is_outside s.name_offset s.name_length text) index_inconsistent
  check_surahs f surahs ayahs text n (i + 1)

unfoldable pub check_ayah :
    File → SectionEntry → Option SectionEntry → Option SectionEntry → ℕ → Result (Unit {0})
unfolding read_record_bytes Records.decode_ayah
check_ayah f ayahs words text i = do
  b ← read_record_bytes f ayahs i
  let a = Records.decode_ayah b
  refuse_if (is_outside a.text_offset a.text_length text) index_inconsistent
  refuse_if (is_past a.first_word_index a.word_count words) index_inconsistent

-- (p + 3u) & ~3ull
abbrev pub next_record : ℕ → ℕ
next_record p = (p + 3) / 4 * 4

-- The walk over METADATA; every record moves `position` on by 4 at least, which bounds the rounds.
unfoldable pub check_metadata : File → SectionEntry → ℕ → ℕ → Result (Unit {0})
unfolding read_exact
check_metadata f e zero position =
    if leb (position + 4) e.size then err index_inconsistent else done
check_metadata f e (suc rounds) position = elim (leb (position + 4) e.size) [
  | false ↦ done
  | true ↦ (do
    head ← or_error io_error (read_exact f (e.offset + position) 4)
    let value_length = read16 (drop 2 head)
    refuse_if (not (within_bounds (position + 4) value_length e.size)) index_inconsistent
    let next = next_record (position + 4 + value_length)
    refuse_if (leb next position) index_inconsistent
    check_metadata f e rounds next)
]

unfoldable pub check_pages : File → SectionEntry → Result (Unit {0})
unfolding read_record_bytes Records.decode_page
check_pages f pages = do
  first ← read_record_bytes f pages 0
  last ← read_record_bytes f pages (pages.count - 1)
  refuse_if
      (not ((Records.decode_page first).page_number == 1)
        || not ((Records.decode_page last).page_number == pages.count))
      index_inconsistent

-- The four parts of Reader::checkIndexConsistency; a section that is absent is not checked.
unfoldable pub check_surah_index :
    File → Option SectionEntry → Option SectionEntry → Option SectionEntry → Result (Unit {0})
unfolding check_surahs
check_surah_index f (some surahs) (some ayahs) text =
    check_surahs f surahs ayahs text surahs.count 0
check_surah_index f _ _ text = done

unfoldable pub check_ayah_index :
    File → Option SectionEntry → Option SectionEntry → Option SectionEntry → Result (Unit {0})
unfolding check_ayah
check_ayah_index f none words text = done
check_ayah_index f (some ayahs) words text =
    if ayahs.count == 0
    then done
    else (do check_ayah f ayahs words text 0; check_ayah f ayahs words text (ayahs.count - 1))

unfoldable pub check_metadata_section : File → Option SectionEntry → Result (Unit {0})
unfolding check_metadata
check_metadata_section f none = done
check_metadata_section f (some e) = check_metadata f e e.size 0

unfoldable pub check_page_index : File → Option SectionEntry → Result (Unit {0})
unfolding check_pages
check_page_index f none = done
check_page_index f (some pages) = if pages.count == 0 then done else check_pages f pages

-- Reader::checkIndexConsistency
unfoldable pub check_index_consistency : File → List SectionEntry → Result (Unit {0})
unfolding check_surah_index check_ayah_index check_metadata_section check_page_index section
check_index_consistency f sections = do
  check_surah_index f (section Format.surah_index sections) (section Format.ayah_index sections)
      (section Format.text_data sections)
  check_ayah_index f (section Format.ayah_index sections) (section Format.word_index sections)
      (section Format.text_data sections)
  check_metadata_section f (section Format.metadata sections)
  check_page_index f (section Format.page_index sections)

-- The rules that need the header and the table only.
unfoldable pub check_sections : Header → List SectionEntry → Result (Unit {0})
unfolding validate_section_table require_sections_for_type require_font_sections_if_shaped
    require_layout_if_has_word_layout
check_sections h sections = do
  validate_section_table h sections
  require_sections_for_type h sections
  require_font_sections_if_shaped h sections
  require_layout_if_has_word_layout h sections

-- Reader::open; on an error nothing is open
unfoldable pub open_package : File → Bool → Result Reader
unfolding read_header read_section_table check_sections verify_fixed_index_checksums
    check_index_consistency
open_package f verify_index_checksums = do
  refuse_if (not f.valid) io_error
  h ← read_header f
  sections ← read_section_table f h
  check_sections h sections
  if verify_index_checksums then verify_fixed_index_checksums f sections else done
  check_index_consistency f sections
  ok (record { file = f; header = h; sections = sections; glyph_index = none })

-- Reader::verifyIndexChecksums
unfoldable pub verify_index_checksums : Reader → Result (Unit {0})
unfolding verify_fixed_index_checksums
verify_index_checksums r = verify_fixed_index_checksums r.file r.sections

-- Reader::verifySection
unfoldable pub verify_section : Reader → ℕ → Result (Unit {0})
unfolding section verify_range
verify_section r id = do
  e ← or_error no_such_section (section id r.sections)
  verify_range r.file e.offset e.size e.crc32

-- Reader::verifyPayload
unfoldable pub verify_payload : Reader → Result (Unit {0})
unfolding verify_range
verify_payload r =
    verify_range r.file r.header.size (r.header.package_size - r.header.size) r.header.payload_crc32
