-- ===== src/Qpk/Reader/Blobs.antt =====
-- Covers, page pictures and metadata of firmware/qpk/qpk_reader.cpp.
use diy_ebook.Prelude.{
  ℕ, zero, suc, ◌+◌, ◌*◌, ◌/◌, Bool, true, false, not, Option, none, some, ◌&&◌, ◌||◌, ltb, leb,
  ◌==◌, drop, length, if◌then◌else◌,
}
use diy_ebook.Qpk.ByteOrder.{Bytes, at, read16, read32, read64}
use diy_ebook.Qpk.File.{File, read_exact}
use diy_ebook.Qpk.Result.{
  Result, ok, err, ◌>>=◌, ◌>>◌, or_error, refuse_if, io_error, bad_magic, bad_section_table,
  section_out_of_range, section_size_mismatch, no_such_section, out_of_range,
}
use diy_ebook.Qpk.Format.{SectionEntry, header_size, section_entry_size, max_sections}
use diy_ebook.Qpk.Format
use diy_ebook.Qpk.Records
use diy_ebook.Qpk.Records.{PageImageRecord}
use diy_ebook.Qpk.Reader.{Reader, within_bounds, section, is_package, has_section}
use diy_ebook.Qpk.PackBits.{unpack_bits}
use diy_ebook.Qpk.Reader.Checks.{next_record}
use diy_ebook.Qpk.Reader.Access.{read_blob, smaller}

-- kCoverPixelBytes, kCoverBytes
abbrev pub cover_pixel_bytes : ℕ
cover_pixel_bytes = 3888

abbrev pub cover_bytes : ℕ
cover_bytes = 3904

-- The tests on the 16 bytes in front of the pixels.
unfoldable pub is_cover_header : Bytes → Bool
is_cover_header b =
    at b 0 == b'Q'
    && at b 1 == b'C'
    && at b 2 == b'V'
    && at b 3 == b'1'
    && read16 (drop 4 b) == 108
    && read16 (drop 6 b) == 144
    && at b 8 == 2

-- Exactly `n` bytes of a blob.
abbrev pub whole_blob : ℕ → Option Bytes → Result Bytes
whole_blob n none = err section_out_of_range
whole_blob n (some b) = if length b == n then ok b else err section_out_of_range

-- Reader::readCover: the pixels
unfoldable pub read_cover : Reader → ℕ → Result Bytes
unfolding section read_blob is_cover_header
read_cover r capacity = do
  e ← or_error no_such_section (section Format.cover r.sections)
  refuse_if (not (e.size == cover_bytes) || ltb capacity cover_pixel_bytes) section_size_mismatch
  head ← whole_blob 16 (read_blob r Format.cover 0 16 16)
  refuse_if (not (is_cover_header head)) section_size_mismatch
  whole_blob cover_pixel_bytes (read_blob r Format.cover 16 cover_pixel_bytes capacity)

-- The cover that an entry of the table names.
unfoldable pub cover_at : File → ℕ → ℕ → Result Bytes
unfolding read_exact is_cover_header
cover_at f offset size = do
  refuse_if (not (size == cover_bytes) || not (within_bounds offset size f.size))
      section_size_mismatch
  head ← or_error io_error (read_exact f offset 16)
  refuse_if (not (is_cover_header head)) section_size_mismatch
  or_error io_error (read_exact f (offset + 16) cover_pixel_bytes)

-- The loop over the table, with `n` entries left from `at_offset` on.
unfoldable pub cover_in_table : File → ℕ → ℕ → Result Bytes
unfolding read_exact cover_at
cover_in_table f zero at_offset = err no_such_section
cover_in_table f (suc n) at_offset = do
  entry ← or_error io_error (read_exact f at_offset section_entry_size)
  let others = cover_in_table f n (at_offset + section_entry_size)
  if read16 entry == Format.cover
      then cover_at f (read64 (drop 4 entry)) (read64 (drop 12 entry))
      else others

-- ReadCoverFromFile
unfoldable pub read_cover_from_file : File → ℕ → Result Bytes
unfolding read_exact cover_in_table
read_cover_from_file f capacity = do
  refuse_if (not f.valid || ltb capacity cover_pixel_bytes) out_of_range
  head ← or_error io_error (read_exact f 0 header_size)
  refuse_if (not (is_package head)) bad_magic
  let count = read16 (drop 10 head)
  refuse_if (count == 0 || ltb max_sections count) bad_section_table
  cover_in_table f count (read32 (drop 44 head))

-- Reader::pageImageCount
unfoldable pub page_image_count : Reader → ℕ
unfolding section has_section
page_image_count r = elim (section Format.page_image_index r.sections) [
  | none ↦ 0
  | some e ↦ if has_section Format.page_image_data r.sections then e.count else 0
]

-- Reader::getPageImage
unfoldable pub get_page_image : Reader → ℕ → Result PageImageRecord
unfolding section read_exact Records.decode_page_image
get_page_image r index = do
  pages ← or_error no_such_section (section Format.page_image_index r.sections)
  pictures ← or_error no_such_section (section Format.page_image_data r.sections)
  refuse_if (leb pages.count index) out_of_range
  raw ← or_error section_out_of_range (read_exact r.file (pages.offset + index * 16) 16)
  let p = Records.decode_page_image raw
  refuse_if (not (within_bounds p.offset p.size pictures.size)) section_out_of_range
  ok p

-- Reader::readPageImage: the decoded picture
unfoldable pub read_page_image : Reader → ℕ → ℕ → ℕ → Result Bytes
unfolding get_page_image read_blob unpack_bits
read_page_image r index scratch_capacity dst_capacity = do
  p ← get_page_image r index
  let bytes = (p.width + 7) / 8 * p.height
  refuse_if (bytes == 0 || ltb dst_capacity bytes || ltb scratch_capacity p.size)
      section_size_mismatch
  packed ← whole_blob p.size (read_blob r Format.page_image_data p.offset p.size scratch_capacity)
  or_error section_size_mismatch (unpack_bits packed bytes)

-- What `metadata` copies, and the length of the whole value.
pub record Metadata : Type 0 where
  pub value : Bytes
  pub size : ℕ

unfoldable pub copy_value : File → ℕ → ℕ → ℕ → Option Metadata
unfolding read_exact
copy_value f offset size capacity = elim (read_exact f offset (smaller size capacity)) [
  | none ↦ none
  | some value ↦ some (record { value = value; size = size })
]

-- The walk of Reader::metadata, from `position` on.
unfoldable pub find_value : File → SectionEntry → ℕ → ℕ → ℕ → ℕ → Option Metadata
unfolding read_exact copy_value
find_value f e key capacity zero position = none
find_value f e key capacity (suc rounds) position = elim (leb (position + 4) e.size) [
  | false ↦ none
  | true ↦ elim (read_exact f (e.offset + position) 4) [
    | none ↦ none
    | some head ↦
        (let size = read16 (drop 2 head) in
          let rest = find_value f e key capacity rounds (next_record (position + 4 + size)) in
          if not (within_bounds (position + 4) size e.size)
          then none
          else if read16 head == key
          then copy_value f (e.offset + (position + 4)) size capacity
          else if leb (next_record (position + 4 + size)) position
          then none
          else rest)
  ]
]

-- Reader::metadata; false is `none`
unfoldable pub metadata : Reader → ℕ → ℕ → Option Metadata
unfolding section find_value
metadata r key capacity = elim (section Format.metadata r.sections) [
  | none ↦ none
  | some e ↦ find_value r.file e key capacity e.size 0
]
