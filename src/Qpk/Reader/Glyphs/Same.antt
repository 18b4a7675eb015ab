-- ===== src/Qpk/Reader/Glyphs/Same.antt =====
-- getGlyph answers the same with the index of buildGlyphIndex and without: firmware/qpk/qpk_reader.cpp.
use diy_ebook.Prelude.{
  ℕ, ◌+◌, ◌*◌, ◌≤◌, ◌≡◌, refl, sym, ap, subst, ◌∙◌, arith, Bool, true, false, Option, none, some,
  List, [], length, ltb, ◌==◌, ◌||◌, not, if◌then◌else◌, ==_iff,
}
use diy_ebook.Qpk.ByteOrder.{Bytes}
use diy_ebook.Qpk.File.{File}
use diy_ebook.Qpk.File.Exact.{IsFaithful}
use diy_ebook.Qpk.Result.{Result, or_error, out_of_range}
use diy_ebook.Qpk.Format
use diy_ebook.Qpk.Format.{SectionEntry}
use diy_ebook.Qpk.Records.{GlyphRecord}
use diy_ebook.Qpk.Reader.{Reader, section}
use diy_ebook.Qpk.Reader.Glyphs.{
  look_up_glyph, scan_glyphs, get_glyph, place_chunks, first_to_last, index_of, glyph_index_for,
  build_glyph_index,
}
use diy_ebook.Qpk.Reader.Glyphs.Order.{first_with, place_all, index-first_with, index-Ascends}
use diy_ebook.Qpk.Reader.Glyphs.LookUp.{look_up_glyph_lem}
use diy_ebook.Qpk.Reader.Glyphs.Table.{table_at, place_chunks_lem, scan_glyphs_lem}

-- The answer once the section is known.
abbrev answer : File → SectionEntry → ℕ → Option (List GlyphRecord) → Result GlyphRecord
answer f e id none = scan_glyphs f e id e.count 0
answer f e id (some index) = look_up_glyph index id

get_glyph-answer :
    (r : Reader) (e : SectionEntry) (id : ℕ) (index : Option (List GlyphRecord))
    → section Format.font_metadata r.sections ≡ some e
    → r.glyph_index ≡ index
    → get_glyph r id ≡ answer r.file e id index
unfolding get_glyph
get_glyph-answer r e id none there h = rw (there, h, get_glyph) refl
get_glyph-answer r e id (some index) there h = rw (there, h, get_glyph) refl

module _ (f : File) (bytes : Bytes) (faithful : IsFaithful f bytes) (e : SectionEntry)
    (inside : e.offset + e.count * e.record_size ≤ length bytes) (id : ℕ) where
  abbrev Same : Option (List GlyphRecord) → Type 0
  Same index = answer f e id index ≡ answer f e id none

  indexed : e.record_size ≡ 12 → Same (index_of (place_chunks f e.count e.count e.offset []))
  indexed sized =
      let fits : e.offset + e.count * 12 ≤ length bytes =
        subst (λ (n : ℕ). e.offset + e.count * n ≤ length bytes) sized inside in
      let table = table_at bytes e.offset e.count in
      rw (place_chunks_lem f bytes faithful e.count e.count e.offset [] (omega arith) fits) (
        look_up_glyph_lem (first_to_last (place_all table [])) id (index-Ascends table)
        ∙ ap (or_error out_of_range) (index-first_with id table)
        ∙ ap (λ (o : ℕ). or_error out_of_range (first_with id (table_at bytes o e.count)))
            (omega arith)
        ∙ sym (scan_glyphs_lem f bytes faithful e id e.count 0 sized (omega arith) fits))

  if_sized :
      (b : Bool)
      → (b ≡ true → e.record_size ≡ 12)
      → Same (if not b then none else index_of (place_chunks f e.count e.count e.offset []))
  if_sized false h = refl
  if_sized true h = indexed (h refl)

  if_fits :
      (b : Bool)
      → Same (
          if b
          then none
          else if not (e.record_size == 12)
          then none
          else index_of (place_chunks f e.count e.count e.offset []))
  if_fits true = refl
  if_fits false = if_sized (e.record_size == 12) (λ h. (==_iff e.record_size 12).0 h)

  for_any_capacity : (capacity : ℕ) → Same (glyph_index_for f (some e) capacity)
  unfolding glyph_index_for
  for_any_capacity capacity = if_fits (e.count == 0 || ltb capacity e.count)

-- For a reader without an index, on a file that gives its bytes and has its whole glyph section,
-- get_glyph answers the same for every id after build_glyph_index with any capacity as before,
-- duplicates and unsorted records included.
pub get_glyph-build_glyph_index :
    (r : Reader) (bytes : Bytes) (e : SectionEntry) (capacity id : ℕ)
    → IsFaithful r.file bytes
    → r.glyph_index ≡ none
    → section Format.font_metadata r.sections ≡ some e
    → e.offset + e.count * e.record_size ≤ length bytes
    → get_glyph (build_glyph_index r capacity) id ≡ get_glyph r id
unfolding build_glyph_index
get_glyph-build_glyph_index r bytes e capacity id faithful fresh there inside =
    get_glyph-answer (build_glyph_index r capacity) e id (glyph_index_for r.file (some e) capacity)
      there (ap (λ (o : Option SectionEntry). glyph_index_for r.file o capacity) there)
    ∙ for_any_capacity r.file bytes faithful e inside id capacity
    ∙ sym (get_glyph-answer r e id none there fresh)
