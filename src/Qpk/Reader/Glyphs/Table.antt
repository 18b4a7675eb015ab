-- ===== src/Qpk/Reader/Glyphs/Table.antt =====
-- The glyph table of a file, as getGlyph scans it and as buildGlyphIndex reads it in chunks:
-- firmware/qpk/qpk_reader.cpp.
use diy_ebook.Prelude.{
  ℕ, zero, suc, ◌+◌, ◌-◌, ◌*◌, ◌≤◌, ◌<◌, ◌≡◌, refl, sym, ap, ◌∙◌, arith, inl, inr, true, false,
  some, List, [], ◌∷◌, ◌++◌, length, drop, leb, ◌==◌, Bool-cases, drop-append,
}
use diy_ebook.Qpk.ByteOrder.{Bytes, read16, read32}
use diy_ebook.Qpk.File.{File, read_exact}
use diy_ebook.Qpk.File.Exact.{IsFaithful, slice, slice-split, length-slice, read_exact-inside}
use diy_ebook.Qpk.Result.{Result, ok, or_error, out_of_range}
use diy_ebook.Qpk.Format.{SectionEntry}
use diy_ebook.Qpk.Records.{GlyphRecord, decode_glyph}
use diy_ebook.Qpk.Reader.Checks.{read_record_bytes}
use diy_ebook.Qpk.Reader.Access.{smaller}
use diy_ebook.Qpk.Reader.Glyphs.{scan_glyphs, place_glyph, place_chunk, chunk_records, place_chunks}
use diy_ebook.Qpk.Reader.Glyphs.Order.{first_with, place_all}

-- `n` records of 12 bytes from `offset` on.
abbrev pub table_at : Bytes → ℕ → ℕ → List GlyphRecord
table_at bytes offset zero = []
table_at bytes offset (suc n) =
    decode_glyph (slice bytes offset 12) ∷ table_at bytes (offset + 12) n

-- A glyph is decoded from its first 12 bytes.
decode_glyph-front :
    (xs rest : Bytes) → length xs ≡ 12 → decode_glyph (xs ++ rest) ≡ decode_glyph xs
unfolding decode_glyph
decode_glyph-front (a ∷ b ∷ c ∷ d ∷ e ∷ f ∷ g ∷ h ∷ i ∷ j ∷ k ∷ l ∷ xs) rest full =
    unfold read16 read32 in refl
decode_glyph-front [] rest full = absurd (omega (arith, full))
decode_glyph-front (a ∷ []) rest full = absurd (omega (arith, full))
decode_glyph-front (a ∷ b ∷ []) rest full = absurd (omega (arith, full))
decode_glyph-front (a ∷ b ∷ c ∷ []) rest full = absurd (omega (arith, full))
decode_glyph-front (a ∷ b ∷ c ∷ d ∷ []) rest full = absurd (omega (arith, full))
decode_glyph-front (a ∷ b ∷ c ∷ d ∷ e ∷ []) rest full = absurd (omega (arith, full))
decode_glyph-front (a ∷ b ∷ c ∷ d ∷ e ∷ f ∷ []) rest full = absurd (omega (arith, full))
decode_glyph-front (a ∷ b ∷ c ∷ d ∷ e ∷ f ∷ g ∷ []) rest full = absurd (omega (arith, full))
decode_glyph-front (a ∷ b ∷ c ∷ d ∷ e ∷ f ∷ g ∷ h ∷ []) rest full = absurd (omega (arith, full))
decode_glyph-front (a ∷ b ∷ c ∷ d ∷ e ∷ f ∷ g ∷ h ∷ i ∷ []) rest full = absurd (omega (arith, full))
decode_glyph-front (a ∷ b ∷ c ∷ d ∷ e ∷ f ∷ g ∷ h ∷ i ∷ j ∷ []) rest full =
    absurd (omega (arith, full))
decode_glyph-front (a ∷ b ∷ c ∷ d ∷ e ∷ f ∷ g ∷ h ∷ i ∷ j ∷ k ∷ []) rest full =
    absurd (omega (arith, full))

zero_plus : (n : ℕ) → 0 + n ≡ n
zero_plus n = omega arith

suc_plus : (m n : ℕ) → suc m + n ≡ suc (m + n)
suc_plus m n = omega arith

table_at-append :
    (bytes : Bytes) (offset m n : ℕ)
    → table_at bytes offset (m + n) ≡ table_at bytes offset m ++ table_at bytes (offset + m * 12) n
table_at-append bytes offset zero n =
    ap (λ (k : ℕ). table_at bytes offset k) (zero_plus n)
    ∙ ap (λ (o : ℕ). table_at bytes o n) (omega arith)
table_at-append bytes offset (suc m) n =
    ap (λ (k : ℕ). table_at bytes offset k) (suc_plus m n)
    ∙ ap (λ (t : List GlyphRecord). decode_glyph (slice bytes offset 12) ∷ t)
        (table_at-append bytes (offset + 12) m n
          ∙ ap (λ (o : ℕ). table_at bytes (offset + 12) m ++ table_at bytes o n) (omega arith))

place_all-append :
    (xs ys placed : List GlyphRecord)
    → place_all (xs ++ ys) placed ≡ place_all ys (place_all xs placed)
place_all-append [] ys placed = refl
place_all-append (g ∷ xs) ys placed = place_all-append xs ys (place_glyph g placed)

-- A chunk is its first record and the others.
chunk-split :
    (bytes : Bytes) (offset n : ℕ)
    → slice bytes offset (suc n * 12) ≡ slice bytes offset 12 ++ slice bytes (offset + 12) (n * 12)
chunk-split bytes offset n =
    ap (slice bytes offset) (omega arith) ∙ slice-split bytes offset 12 (n * 12)

place_chunk_lem :
    (bytes : Bytes) (n offset : ℕ) (placed : List GlyphRecord)
    → offset + n * 12 ≤ length bytes
    → place_chunk n (slice bytes offset (n * 12)) placed
      ≡ place_all (table_at bytes offset n) placed
unfolding place_chunk
place_chunk_lem bytes zero offset placed inside = refl
place_chunk_lem bytes (suc n) offset placed inside =
    let front = slice bytes offset 12 in
    let behind = slice bytes (offset + 12) (n * 12) in
    let full : length front ≡ 12 = length-slice bytes offset 12 (omega arith) in
    let rest_ : drop 12 (front ++ behind) ≡ behind =
      ap (λ (k : ℕ). drop k (front ++ behind)) (sym full) ∙ drop-append front behind in
    ap (λ (chunk : Bytes). place_chunk (suc n) chunk placed) (chunk-split bytes offset n)
    ∙ ap (λ (g : GlyphRecord). place_chunk n (drop 12 (front ++ behind)) (place_glyph g placed))
        (decode_glyph-front front behind full)
    ∙ ap (λ (chunk : Bytes). place_chunk n chunk (place_glyph (decode_glyph front) placed)) rest_
    ∙ place_chunk_lem bytes n (offset + 12) (place_glyph (decode_glyph front) placed) (omega arith)

-- The length of the next chunk, and what is done with it.
abbrev next_chunk : ℕ → ℕ
next_chunk remaining = smaller remaining chunk_records

chunk_placed :
    (f : File) (rounds n offset : ℕ) (placed : List GlyphRecord) (chunk : Bytes)
    → read_exact f offset (next_chunk (suc n) * 12) ≡ some chunk
    → place_chunks f (suc rounds) (suc n) offset placed
      ≡ place_chunks f rounds
          (suc n - next_chunk (suc n))
          (offset + next_chunk (suc n) * 12)
          (place_chunk (next_chunk (suc n)) chunk placed)
unfolding place_chunks
chunk_placed f rounds n offset placed chunk h = rw (h, place_chunks) refl

chosen :
    (g : GlyphRecord) (id : ℕ) (later : Result GlyphRecord) (table : List GlyphRecord)
    → later ≡ or_error out_of_range (first_with id table)
    → (elim (g.glyph_id == id) as (λ x. Result GlyphRecord) [ true ↦ ok g | false ↦ later ])
      ≡ or_error out_of_range (first_with id (g ∷ table))
chosen g id later table h = elim (Bool-cases (g.glyph_id == id)) [
  | inl t ↦ rw t refl
  | inr t ↦ rw t h
]

module _ (f : File) (bytes : Bytes) (faithful : IsFaithful f bytes) where
  pub place_chunks_lem :
      (rounds remaining offset : ℕ) (placed : List GlyphRecord)
      → remaining ≤ rounds
      → offset + remaining * 12 ≤ length bytes
      → place_chunks f rounds remaining offset placed
        ≡ some (place_all (table_at bytes offset remaining) placed)
  unfolding place_chunks
  place_chunks_lem rounds zero offset placed enough inside = refl
  place_chunks_lem zero (suc n) offset placed enough inside = absurd (omega arith)
  place_chunks_lem (suc rounds) (suc n) offset placed enough inside =
      let m = smaller (suc n) chunk_records in
      let small : m ≤ suc n = ground arith in
      let some_ : 0 < m = ground arith in
      let parted : m + (suc n - m) ≡ suc n = omega (arith, small) in
      let read_ =
        read_exact-inside f bytes faithful offset (m * 12) (omega (arith, inside, small)) in
      let whole =
        sym (
          place_all-append (table_at bytes offset m) (table_at bytes (offset + m * 12) (suc n - m))
            placed)
        ∙ ap (λ (t : List GlyphRecord). place_all t placed)
            (sym (table_at-append bytes offset m (suc n - m)))
        ∙ ap (λ (k : ℕ). place_all (table_at bytes offset k) placed) parted in
      chunk_placed f rounds n offset placed (slice bytes offset (m * 12)) read_
      ∙ ap (place_chunks f rounds (suc n - m) (offset + m * 12))
          (place_chunk_lem bytes m offset placed (omega (arith, inside, small)))
      ∙ place_chunks_lem rounds (suc n - m) (offset + m * 12)
          (place_all (table_at bytes offset m) placed) (omega (arith, small, some_, enough))
          (omega (arith, inside, small))
      ∙ ap some whole

  record_read :
      (e : SectionEntry) (i : ℕ)
      → e.record_size ≡ 12
      → i < e.count
      → e.offset + e.count * 12 ≤ length bytes
      → read_record_bytes f e i ≡ ok (slice bytes (e.offset + i * 12) 12)
  unfolding read_record_bytes
  record_read e i sized below inside =
      let some_ : leb e.count i ≡ false = ground (arith, below) in
      rw
        (
          sized,
          some_,
          read_exact-inside f bytes faithful (e.offset + i * 12) 12 (omega (arith, below, inside)),
        )
        refl

  pub scan_glyphs_lem :
      (e : SectionEntry) (id n i : ℕ)
      → e.record_size ≡ 12
      → i + n ≤ e.count
      → e.offset + e.count * 12 ≤ length bytes
      → scan_glyphs f e id n i
        ≡ or_error out_of_range (first_with id (table_at bytes (e.offset + i * 12) n))
  unfolding scan_glyphs
  scan_glyphs_lem e id zero i sized below inside = refl
  scan_glyphs_lem e id (suc n) i sized below inside =
      let g = decode_glyph (slice bytes (e.offset + i * 12) 12) in
      let next =
        scan_glyphs_lem e id n (i + 1) sized (omega arith) inside
        ∙ ap (λ (o : ℕ). or_error out_of_range (first_with id (table_at bytes o n)))
            (omega arith) in
      rw (record_read e i sized (omega arith) inside) (
        chosen g id (scan_glyphs f e id n (i + 1)) (table_at bytes (e.offset + i * 12 + 12) n) next)
