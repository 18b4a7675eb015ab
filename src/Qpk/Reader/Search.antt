-- ===== src/Qpk/Reader/Search.antt =====
-- Layout, the searches by word and the glyphs of an ayah mark: firmware/qpk/qpk_reader.cpp.
use diy_ebook.Prelude.{
  ℕ, zero, suc, ◌+◌, ◌-◌, ◌*◌, ◌/◌, Bool, true, false, not, Option, none, some, List, [], ◌∷◌, ◌&&◌,
  ◌||◌, ltb, leb, ◌==◌, if◌then◌else◌,
}
use diy_ebook.Qpk.File.{read_exact}
use diy_ebook.Qpk.Result.{
  Result, ok, ◌>>=◌, ◌>>◌, or_error, refuse_if, io_error, no_such_section, out_of_range,
}
use diy_ebook.Qpk.Format
use diy_ebook.Qpk.Records
use diy_ebook.Qpk.Records.{AyahRecord, LayoutHeader, LineRecord}
use diy_ebook.Qpk.Reader.{Reader, within_bounds, section}
use diy_ebook.Qpk.Reader.Access.{record_count, get_ayah_by_index}
use diy_ebook.Qpk.Reader.Blobs.{metadata}

-- kLayoutHeaderSize, kLineRecordSize, kGlyphRecordSize
abbrev pub layout_header_size : ℕ
layout_header_size = 12

abbrev pub line_record_size : ℕ
line_record_size = 12

abbrev pub glyph_record_size : ℕ
glyph_record_size = 12

-- Reader::getLayoutHeader
unfoldable pub get_layout_header : Reader → Result LayoutHeader
unfolding section read_exact Records.decode_layout_header
get_layout_header r = do
  e ← or_error no_such_section (section Format.layout_data r.sections)
  refuse_if (ltb e.size layout_header_size) out_of_range
  b ← or_error io_error (read_exact r.file e.offset layout_header_size)
  let layout = Records.decode_layout_header b
  refuse_if
      (not (
        within_bounds layout.line_records_offset (layout.line_count_total * line_record_size)
          e.size))
      out_of_range
  ok layout

-- Reader::getLine
unfoldable pub get_line : Reader → ℕ → Result LineRecord
unfolding section read_exact get_layout_header Records.decode_line
get_line r index = do
  e ← or_error no_such_section (section Format.layout_data r.sections)
  layout ← get_layout_header r
  refuse_if (leb layout.line_count_total index) out_of_range
  b ← or_error io_error (
      read_exact r.file (e.offset + layout.line_records_offset + index * line_record_size)
        line_record_size)
  ok (Records.decode_line b)

-- while (low < high): `goes_right` is the test on the record in the middle. Every round makes the
-- interval smaller, which bounds the rounds.
unfoldable pub partition_point : (ℕ → Result Bool) → ℕ → ℕ → ℕ → Result ℕ
partition_point goes_right zero low high = ok low
partition_point goes_right (suc rounds) low high = elim (ltb low high) [
  | false ↦ ok low
  | true ↦ (do
    right ← goes_right (low + (high - low) / 2)
    elim right [
      | true ↦ partition_point goes_right rounds (low + (high - low) / 2 + 1) high
      | false ↦ partition_point goes_right rounds low (low + (high - low) / 2)
    ])
]

-- probe.first_word_index <= word_index, of an ayah and of a line
unfoldable pub ayah_starts_by : Reader → ℕ → ℕ → Result Bool
unfolding get_ayah_by_index
ayah_starts_by r word_index i = do a ← get_ayah_by_index r i; ok (leb a.first_word_index word_index)

unfoldable pub line_starts_by : Reader → ℕ → ℕ → Result Bool
line_starts_by r word_index i = do l ← get_line r i; ok (leb l.first_word_index word_index)

-- Reader::findAyahByWordIndex: the index and the record
unfoldable pub find_ayah_by_word_index : Reader → ℕ → Result (ℕ × AyahRecord)
unfolding record_count partition_point ayah_starts_by get_ayah_by_index
find_ayah_by_word_index r word_index = do
  let total = record_count r Format.ayah_index
  refuse_if (total == 0) no_such_section
  low ← partition_point (ayah_starts_by r word_index) total 0 total
  refuse_if (low == 0) out_of_range
  a ← get_ayah_by_index r (low - 1)
  ok (low - 1, a)

-- Reader::findLineByWordIndex: the index and the record
unfoldable pub find_line_by_word_index : Reader → ℕ → Result (ℕ × LineRecord)
unfolding partition_point line_starts_by
find_line_by_word_index r word_index = do
  layout ← get_layout_header r
  refuse_if (layout.line_count_total == 0) out_of_range
  low ←
      partition_point (line_starts_by r word_index) layout.line_count_total 0
        layout.line_count_total
  refuse_if (low == 0) out_of_range
  l ← get_line r (low - 1)
  ok (low - 1, l)

-- The loop of ayahMarkerGlyphs, with the two values, the field that is read and whether it has a
-- digit. The values stay below 2^16, so their products do not wrap around.
unfoldable pub parse_marker : List ℕ → ℕ → ℕ → ℕ → Bool → Option (ℕ × ℕ)
parse_marker [] first count field digits_seen =
    if not (field == 1) || not digits_seen
    then none
    else if count == 0 || ltb 65535 (first + count - 1)
    then none
    else some (first, count)
parse_marker (c ∷ raw) first count field digits_seen = elim (leb b'0' c && leb c b'9') [
  | true ↦ elim (field == 0) [
    | true ↦ elim (ltb 65535 (first * 10 + (c - b'0'))) [
      | true ↦ none
      | false ↦ parse_marker raw (first * 10 + (c - b'0')) count field true
    ]
    | false ↦ elim (ltb 65535 (count * 10 + (c - b'0'))) [
      | true ↦ none
      | false ↦ parse_marker raw first (count * 10 + (c - b'0')) field true
    ]
  ]
  | false ↦ elim (c == b':' && field == 0 && digits_seen) [
    | true ↦ parse_marker raw first count 1 false
    | false ↦ none
  ]
]

-- Reader::ayahMarkerGlyphs: the first glyph id and the count
unfoldable pub ayah_marker_glyphs : Reader → Option (ℕ × ℕ)
unfolding metadata parse_marker
ayah_marker_glyphs r = elim (metadata r 10 16) [
  | none ↦ none
  | some m ↦ if m.size == 0 || ltb 16 m.size then none else parse_marker m.value 0 0 0 false
]
