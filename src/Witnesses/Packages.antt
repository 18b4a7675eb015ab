-- ===== src/Witnesses/Packages.antt =====
-- The package reader at a concrete package.
use diy_ebook.Prelude.{
  ℕ, zero, suc, ◌≡◌, ◌↔◌, refl, arith, true, false, Option, none, some, List, [], ◌∷◌,
}
use diy_ebook.Qpk.ByteOrder.{Bytes, read16, read32, read64}
use diy_ebook.Qpk.Crc.{crc32}
use diy_ebook.Qpk.File.{File, memory_file}
use diy_ebook.Qpk.File.Exact.{slice, memory_file-IsFaithful}
use diy_ebook.Qpk.Result.{ok, done}
use diy_ebook.Qpk.Format.{Header, SectionEntry}
use diy_ebook.Qpk.Records.{AyahRecord}
use diy_ebook.Qpk.PackBits.{unpack_bits}
use diy_ebook.Qpk.PackBits.Laws.{Packet, literal, run, pack, unpack_bits-pack}
use diy_ebook.Qpk.Reader.{Reader, section}
use diy_ebook.Qpk.Reader.Checks.{open_package, verify_index_checksums, verify_payload}
use diy_ebook.Qpk.Reader.Glyphs.{get_glyph, build_glyph_index}
use diy_ebook.Qpk.Reader.Glyphs.Same.{get_glyph-build_glyph_index}
use diy_ebook.Qpk.Reader.WellFormed.{IsWellFormed, open_package-IsWellFormed}
use diy_ebook.Qpk.Reader.Opening.{open_package-verify}
use diy_ebook.Qpk.Reader.Checksums.{payload, verify_payload-opened}

-- A package of two sections: a title, and two ayahs of two and three words.
abbrev sample : Bytes
sample =
    81 ∷ 80 ∷ 75 ∷ 49 ∷ 1 ∷ 0 ∷ 64 ∷ 0 ∷ 0 ∷ 0 ∷ 2 ∷ 0 ∷ 0 ∷ 0 ∷ 0 ∷ 0 ∷ 184 ∷ 0 ∷ 0 ∷ 0 ∷ 0 ∷ 0 ∷ 0
    ∷ 0 ∷ 0 ∷ 1 ∷ 2 ∷ 3 ∷ 4 ∷ 5 ∷ 6 ∷ 7 ∷ 8 ∷ 9 ∷ 10 ∷ 11 ∷ 12 ∷ 13 ∷ 14 ∷ 15 ∷ 1 ∷ 0 ∷ 0 ∷ 0 ∷ 64
    ∷ 0 ∷ 0 ∷ 0 ∷ 64 ∷ 0 ∷ 0 ∷ 0 ∷ 109 ∷ 7 ∷ 71 ∷ 137 ∷ 0 ∷ 0 ∷ 0 ∷ 0 ∷ 251 ∷ 227 ∷ 187 ∷ 149 ∷ 1
    ∷ 0 ∷ 1 ∷ 0 ∷ 128 ∷ 0 ∷ 0 ∷ 0 ∷ 0 ∷ 0 ∷ 0 ∷ 0 ∷ 8 ∷ 0 ∷ 0 ∷ 0 ∷ 0 ∷ 0 ∷ 0 ∷ 0 ∷ 1 ∷ 0 ∷ 0 ∷ 0
    ∷ 207 ∷ 147 ∷ 16 ∷ 107 ∷ 0 ∷ 0 ∷ 0 ∷ 0 ∷ 7 ∷ 0 ∷ 1 ∷ 0 ∷ 136 ∷ 0 ∷ 0 ∷ 0 ∷ 0 ∷ 0 ∷ 0 ∷ 0 ∷ 48
    ∷ 0 ∷ 0 ∷ 0 ∷ 0 ∷ 0 ∷ 0 ∷ 0 ∷ 2 ∷ 0 ∷ 0 ∷ 0 ∷ 84 ∷ 70 ∷ 79 ∷ 81 ∷ 24 ∷ 0 ∷ 0 ∷ 0 ∷ 1 ∷ 0 ∷ 4 ∷ 0
    ∷ 84 ∷ 101 ∷ 115 ∷ 116 ∷ 1 ∷ 0 ∷ 1 ∷ 0 ∷ 1 ∷ 0 ∷ 0 ∷ 0 ∷ 2 ∷ 0 ∷ 0 ∷ 0 ∷ 0 ∷ 0 ∷ 0 ∷ 0 ∷ 5 ∷ 0
    ∷ 0 ∷ 0 ∷ 0 ∷ 0 ∷ 0 ∷ 0 ∷ 1 ∷ 0 ∷ 2 ∷ 0 ∷ 1 ∷ 0 ∷ 0 ∷ 0 ∷ 3 ∷ 0 ∷ 0 ∷ 0 ∷ 5 ∷ 0 ∷ 0 ∷ 0 ∷ 9 ∷ 0
    ∷ 0 ∷ 0 ∷ 2 ∷ 0 ∷ 0 ∷ 0 ∷ []

abbrev title_section : SectionEntry
title_section = record {
  id = 1;
  version = 1;
  offset = 128;
  size = 8;
  count = 1;
  crc32 = 1796248527;
  record_size = 0;
  flags = 0;
}

abbrev ayah_section : SectionEntry
ayah_section = record {
  id = 7;
  version = 1;
  offset = 136;
  size = 48;
  count = 2;
  crc32 = 1364149844;
  record_size = 24;
  flags = 0;
}

abbrev package_header : Header
package_header = record {
  version = 1;
  size = 64;
  package_type = 0;
  section_count = 2;
  flags = 0;
  package_size = 184;
  content_id = 0 ∷ 1 ∷ 2 ∷ 3 ∷ 4 ∷ 5 ∷ 6 ∷ 7 ∷ 8 ∷ 9 ∷ 10 ∷ 11 ∷ 12 ∷ 13 ∷ 14 ∷ 15 ∷ [];
  content_version = 1;
  section_table_offset = 64;
  section_table_length = 64;
  payload_crc32 = 2303133549;
  header_crc32 = 2512118779;
}

abbrev package_reader : Reader
package_reader = record {
  file = memory_file sample;
  header = package_header;
  sections = title_section ∷ ayah_section ∷ [];
  glyph_index = none;
}

package_opens : open_package (memory_file sample) true ≡ ok package_reader
unfolding open_package memory_file read16 crc32 read32 read64
package_opens = refl

open_package_example : (package_reader.file ≡ memory_file sample) × IsWellFormed package_reader
open_package_example =
    open_package-IsWellFormed (memory_file sample) true package_reader package_opens

open_verify_example : (open_package (memory_file sample) true ≡ ok package_reader) ↔ (
    (open_package (memory_file sample) false ≡ ok package_reader)
    × (verify_index_checksums package_reader ≡ done))
open_verify_example = open_package-verify (memory_file sample) package_reader

verify_payload_example :
    (verify_payload package_reader ≡ done)
    ↔ (crc32 (payload package_reader sample) ≡ package_reader.header.payload_crc32)
verify_payload_example =
    verify_payload-opened (memory_file sample) sample true package_reader
      (memory_file-IsFaithful sample) package_opens

-- A file that gives one byte at a time.
abbrev slow_answer : Bytes → Option Bytes
slow_answer [] = none
slow_answer (b ∷ more) = some (b ∷ [])

abbrev slow_file : File
slow_file = record {
  valid = true;
  size = 3;
  read = λ offset n. slow_answer (slice (7 ∷ 8 ∷ 9 ∷ []) offset n);
}

abbrev packets : List Packet
packets = literal (1 ∷ 2 ∷ []) ∷ run 3 9 ∷ []

unpack_bits-pack_example : unpack_bits (pack packets) 5 ≡ some (1 ∷ 2 ∷ 9 ∷ 9 ∷ 9 ∷ [])
unpack_bits-pack_example =
    unpack_bits-pack packets ((omega arith, omega arith), ((omega arith, omega arith), tt))

abbrev ayahs : ℕ → AyahRecord
ayahs zero = record {
  surah_id = 1;
  ayah_number = 1;
  page = 1;
  line = 0;
  word_count = 2;
  flags = 0;
  text_offset = 0;
  text_length = 5;
  first_word_index = 0;
}
ayahs (suc i) = record {
  surah_id = 1;
  ayah_number = 2;
  page = 1;
  line = 0;
  word_count = 3;
  flags = 0;
  text_offset = 5;
  text_length = 9;
  first_word_index = 2;
}

-- Three glyphs that are not in the order of their ids, two of them of the same id.
abbrev glyph_bytes : Bytes
glyph_bytes =
    9 ∷ 0 ∷ 0 ∷ 0 ∷ 0 ∷ 0 ∷ 4 ∷ 5 ∷ 6 ∷ 0 ∷ 255 ∷ 0 ∷ 3 ∷ 0 ∷ 16 ∷ 0 ∷ 0 ∷ 0 ∷ 4 ∷ 5 ∷ 6 ∷ 0 ∷ 0 ∷ 0
    ∷ 3 ∷ 0 ∷ 32 ∷ 0 ∷ 0 ∷ 0 ∷ 4 ∷ 5 ∷ 6 ∷ 0 ∷ 0 ∷ 0 ∷ []

abbrev glyph_section : SectionEntry
glyph_section = record {
  id = 14;
  version = 1;
  offset = 0;
  size = 36;
  count = 3;
  crc32 = 0;
  record_size = 12;
  flags = 0;
}

abbrev glyph_reader : Reader
glyph_reader = record {
  file = memory_file glyph_bytes;
  header = package_header;
  sections = glyph_section ∷ [];
  glyph_index = none;
}

glyph_index_example : get_glyph (build_glyph_index glyph_reader 8) 3 ≡ get_glyph glyph_reader 3
glyph_index_example =
    get_glyph-build_glyph_index glyph_reader glyph_bytes glyph_section 8 3
      (memory_file-IsFaithful glyph_bytes) refl (unfold section in refl) (omega arith)
