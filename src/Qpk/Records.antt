-- ===== src/Qpk/Records.antt =====
-- The record types of firmware/include/qpk/qpk_format.h and their decoders in
-- firmware/qpk/qpk_reader.cpp.
use diy_ebook.Prelude.{ℕ, ◌-◌, ltb, drop, if◌then◌else◌}
use diy_ebook.Qpk.ByteOrder.{Bytes, at, read16, read32}

-- An int8_t; negsuc n is -(n + 1).
pub data ℤ : Type 0 where
  pos negsuc : ℕ → ℤ

-- static_cast<int8_t>
unfoldable pub signed8 : ℕ → ℤ
signed8 b = if ltb b 128 then pos b else negsuc (255 - b)

pub record SurahRecord : Type 0 where
  pub surah_id : ℕ
  pub ayah_count : ℕ
  pub first_ayah_index : ℕ
  pub first_page : ℕ
  pub last_page : ℕ
  pub first_juz : ℕ
  pub revelation_place : ℕ
  pub has_bismillah : ℕ
  pub name_offset : ℕ
  pub name_length : ℕ

unfoldable pub decode_surah : Bytes → SurahRecord
decode_surah b = record {
  surah_id = read16 (drop 0 b);
  ayah_count = read16 (drop 2 b);
  first_ayah_index = read32 (drop 4 b);
  first_page = read16 (drop 8 b);
  last_page = read16 (drop 10 b);
  first_juz = read16 (drop 12 b);
  revelation_place = at b 14;
  has_bismillah = at b 15;
  name_offset = read32 (drop 16 b);
  name_length = read16 (drop 20 b);
}

pub record AyahRecord : Type 0 where
  pub surah_id : ℕ
  pub ayah_number : ℕ
  pub page : ℕ
  pub line : ℕ
  pub word_count : ℕ
  pub flags : ℕ
  pub text_offset : ℕ
  pub text_length : ℕ
  pub first_word_index : ℕ

unfoldable pub decode_ayah : Bytes → AyahRecord
decode_ayah b = record {
  surah_id = read16 (drop 0 b);
  ayah_number = read16 (drop 2 b);
  page = read16 (drop 4 b);
  line = read16 (drop 6 b);
  word_count = read16 (drop 8 b);
  flags = read16 (drop 10 b);
  text_offset = read32 (drop 12 b);
  text_length = read32 (drop 16 b);
  first_word_index = read32 (drop 20 b);
}

pub record WordRecord : Type 0 where
  pub text_offset : ℕ
  pub text_length : ℕ
  pub x : ℕ
  pub y : ℕ
  pub width : ℕ
  pub height : ℕ
  pub line_id : ℕ

unfoldable pub decode_word : Bytes → WordRecord
decode_word b = record {
  text_offset = read32 (drop 0 b);
  text_length = read16 (drop 4 b);
  x = read16 (drop 6 b);
  y = read16 (drop 8 b);
  width = read16 (drop 10 b);
  height = read16 (drop 12 b);
  line_id = read16 (drop 14 b);
}

pub record PageRecord : Type 0 where
  pub page_number : ℕ
  pub ayah_count : ℕ
  pub first_ayah_index : ℕ
  pub first_word_index : ℕ
  pub line_count : ℕ
  pub juz : ℕ
  pub flags : ℕ

unfoldable pub decode_page : Bytes → PageRecord
decode_page b = record {
  page_number = read16 (drop 0 b);
  ayah_count = read16 (drop 2 b);
  first_ayah_index = read32 (drop 4 b);
  first_word_index = read32 (drop 8 b);
  line_count = at b 12;
  juz = at b 13;
  flags = read16 (drop 14 b);
}

pub record RangeRecord : Type 0 where
  pub id : ℕ
  pub first_page : ℕ
  pub first_ayah_index : ℕ

unfoldable pub decode_range : Bytes → RangeRecord
decode_range b = record {
  id = read16 (drop 0 b);
  first_page = read16 (drop 2 b);
  first_ayah_index = read32 (drop 4 b);
}

pub record SajdahRecord : Type 0 where
  pub ayah_index : ℕ
  pub page : ℕ
  pub kind : ℕ

unfoldable pub decode_sajdah : Bytes → SajdahRecord
decode_sajdah b = record { ayah_index = read32 (drop 0 b); page = read16 (drop 4 b); kind = at b 6 }

pub record TranslationRecord : Type 0 where
  pub text_offset : ℕ
  pub text_length : ℕ

unfoldable pub decode_translation : Bytes → TranslationRecord
decode_translation b = record { text_offset = read32 (drop 0 b); text_length = read32 (drop 4 b) }

pub record ChapterRecord : Type 0 where
  pub chapter_number : ℕ
  pub first_page : ℕ
  pub first_section_index : ℕ
  pub title_offset : ℕ
  pub title_length : ℕ
  pub depth : ℕ
  pub parent_index : ℕ

unfoldable pub decode_chapter : Bytes → ChapterRecord
decode_chapter b = record {
  chapter_number = read32 (drop 0 b);
  first_page = read32 (drop 4 b);
  first_section_index = read32 (drop 8 b);
  title_offset = read32 (drop 12 b);
  title_length = read16 (drop 16 b);
  depth = read16 (drop 18 b);
  parent_index = read32 (drop 20 b);
}

pub record BookSectionRecord : Type 0 where
  pub first_page : ℕ
  pub title_offset : ℕ
  pub title_length : ℕ
  pub depth : ℕ
  pub first_text_index : ℕ

unfoldable pub decode_book_section : Bytes → BookSectionRecord
decode_book_section b = record {
  first_page = read32 (drop 0 b);
  title_offset = read32 (drop 4 b);
  title_length = read16 (drop 8 b);
  depth = read16 (drop 10 b);
  first_text_index = read32 (drop 12 b);
}

pub record TextRecord : Type 0 where
  pub text_offset : ℕ
  pub text_length : ℕ
  pub page_number : ℕ
  pub flags : ℕ

unfoldable pub decode_text : Bytes → TextRecord
decode_text b = record {
  text_offset = read32 (drop 0 b);
  text_length = read32 (drop 4 b);
  page_number = read16 (drop 8 b);
  flags = read16 (drop 10 b);
}

pub record LayoutHeader : Type 0 where
  pub layout_version : ℕ
  pub page_width : ℕ
  pub page_height : ℕ
  pub line_count_total : ℕ
  pub line_records_offset : ℕ

unfoldable pub decode_layout_header : Bytes → LayoutHeader
decode_layout_header b = record {
  layout_version = read16 (drop 0 b);
  page_width = read16 (drop 2 b);
  page_height = read16 (drop 4 b);
  line_count_total = read16 (drop 6 b);
  line_records_offset = read32 (drop 8 b);
}

pub record LineRecord : Type 0 where
  pub page : ℕ
  pub line_id : ℕ
  pub y : ℕ
  pub height : ℕ
  pub first_word_index : ℕ

unfoldable pub decode_line : Bytes → LineRecord
decode_line b = record {
  page = read16 (drop 0 b);
  line_id = read16 (drop 2 b);
  y = read16 (drop 4 b);
  height = read16 (drop 6 b);
  first_word_index = read32 (drop 8 b);
}

pub record GlyphRecord : Type 0 where
  pub glyph_id : ℕ
  pub bitmap_offset : ℕ
  pub width : ℕ
  pub height : ℕ
  pub x_advance : ℤ
  pub x_offset : ℤ
  pub y_offset : ℤ
  pub reserved : ℕ

unfoldable pub decode_glyph : Bytes → GlyphRecord
unfolding signed8
decode_glyph b = record {
  glyph_id = read16 (drop 0 b);
  bitmap_offset = read32 (drop 2 b);
  width = at b 6;
  height = at b 7;
  x_advance = signed8 (at b 8);
  x_offset = signed8 (at b 9);
  y_offset = signed8 (at b 10);
  reserved = at b 11;
}

pub record PageImageRecord : Type 0 where
  pub offset : ℕ
  pub size : ℕ
  pub width : ℕ
  pub height : ℕ

unfoldable pub decode_page_image : Bytes → PageImageRecord
decode_page_image b = record {
  offset = read32 (drop 0 b);
  size = read32 (drop 4 b);
  width = read16 (drop 8 b);
  height = read16 (drop 10 b);
}
