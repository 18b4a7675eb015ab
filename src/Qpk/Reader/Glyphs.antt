-- ===== src/Qpk/Reader/Glyphs.antt =====
-- Glyphs of firmware/qpk/qpk_reader.cpp: the scan, the index and the search in it.
pub mod Order
pub mod LookUp
pub mod Table
pub mod Same
use diy_ebook.Prelude.{
  ℕ, zero, suc, ◌+◌, ◌-◌, ◌*◌, true, false, not, Option, none, some, List, [], ◌∷◌, ◌++◌, ◌||◌, ltb,
  ◌==◌, drop, length, get_elem?, if◌then◌else◌,
}
use diy_ebook.Qpk.ByteOrder.{Bytes}
use diy_ebook.Qpk.File.{File, read_exact}
use diy_ebook.Qpk.Result.{Result, ok, err, ◌>>=◌, or_error, no_such_section, out_of_range}
use diy_ebook.Qpk.Format.{SectionEntry}
use diy_ebook.Qpk.Format
use diy_ebook.Qpk.Records
use diy_ebook.Qpk.Records.{GlyphRecord}
use diy_ebook.Qpk.Reader.{Reader, section}
use diy_ebook.Qpk.Reader.Checks.{read_record_bytes}
use diy_ebook.Qpk.Reader.Access.{smaller}
use diy_ebook.Qpk.Reader.Search.{partition_point, glyph_record_size}

-- glyph_index_[i].glyph_id; the search reads it in range only
abbrev pub id_at : List GlyphRecord → ℕ → ℕ
id_at [] i = 0
id_at (g ∷ index) zero = g.glyph_id
id_at (g ∷ index) (suc i) = id_at index i

-- The test behind the search: the glyph at the lower bound, if it is the one asked for.
abbrev pub glyph_here : Option GlyphRecord → ℕ → Result GlyphRecord
glyph_here none glyph_id = err out_of_range
glyph_here (some g) glyph_id = if g.glyph_id == glyph_id then ok g else err out_of_range

-- getGlyph through the index
unfoldable pub look_up_glyph : List GlyphRecord → ℕ → Result GlyphRecord
unfolding partition_point
look_up_glyph index glyph_id = do
  low ← partition_point (λ i. ok (ltb (id_at index i) glyph_id)) (length index) 0 (length index)
  glyph_here (get_elem? index low) glyph_id

-- The scan of getGlyph, with `n` records left from `i` on.
unfoldable pub scan_glyphs : File → SectionEntry → ℕ → ℕ → ℕ → Result GlyphRecord
unfolding read_record_bytes Records.decode_glyph
scan_glyphs f e glyph_id zero i = err out_of_range
scan_glyphs f e glyph_id (suc n) i = do
  b ← read_record_bytes f e i
  elim ((Records.decode_glyph b).glyph_id == glyph_id) [
    | true ↦ ok (Records.decode_glyph b)
    | false ↦ scan_glyphs f e glyph_id n (i + 1)
  ]

-- Reader::getGlyph
unfoldable pub get_glyph : Reader → ℕ → Result GlyphRecord
get_glyph r glyph_id = do
  e ← or_error no_such_section (section Format.font_metadata r.sections)
  elim r.glyph_index [
    | some index ↦ look_up_glyph index glyph_id
    | none ↦ scan_glyphs r.file e glyph_id e.count 0
  ]

-- The insertion: `placed` is storage[0 .. done + i), the last one first.
unfoldable pub place_glyph : GlyphRecord → List GlyphRecord → List GlyphRecord
place_glyph g [] = g ∷ []
place_glyph g (before ∷ placed) = elim (ltb g.glyph_id before.glyph_id) [
  | true ↦ before ∷ place_glyph g placed
  | false ↦ g ∷ before ∷ placed
]

-- for (i = 0; i < n; ++i), on what is left of the chunk
unfoldable pub place_chunk : ℕ → Bytes → List GlyphRecord → List GlyphRecord
unfolding place_glyph Records.decode_glyph
place_chunk zero chunk placed = placed
place_chunk (suc n) chunk placed =
    place_chunk n (drop glyph_record_size chunk) (place_glyph (Records.decode_glyph chunk) placed)

-- kChunkRecords
abbrev pub chunk_records : ℕ
chunk_records = 64

-- while (done < e->count), with `remaining` records from `offset` on; a chunk has one at least,
-- which bounds the rounds
unfoldable pub place_chunks : File → ℕ → ℕ → ℕ → List GlyphRecord → Option (List GlyphRecord)
unfolding place_chunk
place_chunks f rounds zero offset placed = some placed
place_chunks f zero (suc remaining) offset placed = none
place_chunks f (suc rounds) (suc remaining) offset placed =
    let n = smaller (suc remaining) chunk_records in
    elim (read_exact f offset (n * glyph_record_size)) [
      | none ↦ none
      | some chunk ↦
          place_chunks f rounds (suc remaining - n) (offset + n * glyph_record_size)
            (place_chunk n chunk placed)
    ]

-- The storage from its first record on.
unfoldable pub first_to_last : List GlyphRecord → List GlyphRecord
first_to_last [] = []
first_to_last (g ∷ placed) = first_to_last placed ++ (g ∷ [])

abbrev pub index_of : Option (List GlyphRecord) → Option (List GlyphRecord)
index_of none = none
index_of (some placed) = some (first_to_last placed)

-- The index that buildGlyphIndex leaves; where it returns 0 there is none.
unfoldable pub glyph_index_for : File → Option SectionEntry → ℕ → Option (List GlyphRecord)
unfolding place_chunks first_to_last
glyph_index_for f none capacity = none
glyph_index_for f (some e) capacity =
    if e.count == 0 || ltb capacity e.count
    then none
    else if not (e.record_size == glyph_record_size)
    then none
    else index_of (place_chunks f e.count e.count e.offset [])

-- Reader::buildGlyphIndex
unfoldable pub build_glyph_index : Reader → ℕ → Reader
build_glyph_index r capacity = record {
  file = r.file;
  header = r.header;
  sections = r.sections;
  glyph_index = glyph_index_for r.file (section Format.font_metadata r.sections) capacity;
}
