-- ===== src/Qpk/Format.antt =====
-- firmware/include/qpk/qpk_format.h and firmware/qpk/qpk_format.cpp: section ids, record sizes,
-- flags, the header and the section table's entries. Ids are numbers: a file may name any.
use diy_ebook.Prelude.{ℕ, Bool, List, not, ◌==◌, if◌then◌else◌, codes}
use diy_ebook.Qpk.ByteOrder.{Bytes}

-- kFormatVersion, kHeaderSize, kSectionEntrySize, kMaxSections
abbrev pub format_version : ℕ
format_version = 1

abbrev pub header_size : ℕ
header_size = 64

abbrev pub section_entry_size : ℕ
section_entry_size = 32

abbrev pub max_sections : ℕ
max_sections = 32

-- SectionId
abbrev pub metadata : ℕ
metadata = 1

abbrev pub surah_index : ℕ
surah_index = 2

abbrev pub juz_index : ℕ
juz_index = 3

abbrev pub hizb_index : ℕ
hizb_index = 4

abbrev pub rub_index : ℕ
rub_index = 5

abbrev pub page_index : ℕ
page_index = 6

abbrev pub ayah_index : ℕ
ayah_index = 7

abbrev pub word_index : ℕ
word_index = 8

abbrev pub sajdah_index : ℕ
sajdah_index = 9

abbrev pub text_data : ℕ
text_data = 10

abbrev pub layout_data : ℕ
layout_data = 11

abbrev pub translation_index : ℕ
translation_index = 12

abbrev pub translation_data : ℕ
translation_data = 13

abbrev pub font_metadata : ℕ
font_metadata = 14

abbrev pub assets : ℕ
assets = 15

abbrev pub chapter_index : ℕ
chapter_index = 16

abbrev pub section_index : ℕ
section_index = 17

abbrev pub text_index : ℕ
text_index = 18

abbrev pub cover : ℕ
cover = 19

abbrev pub page_image_index : ℕ
page_image_index = 20

abbrev pub page_image_data : ℕ
page_image_data = 21

-- RecordSizeFor; 0 for a blob, a variable section or an unknown one
unfoldable pub record_size_for : ℕ → ℕ
record_size_for id =
    if id == surah_index
    then 24
    else if id == juz_index
    then 8
    else if id == hizb_index
    then 8
    else if id == rub_index
    then 8
    else if id == page_index
    then 16
    else if id == ayah_index
    then 24
    else if id == word_index
    then 16
    else if id == sajdah_index
    then 8
    else if id == translation_index
    then 8
    else if id == chapter_index
    then 24
    else if id == section_index
    then 16
    else if id == text_index
    then 12
    else if id == font_metadata
    then 12
    else if id == page_image_index
    then 16
    else 0

-- IsFixedIndexSection
unfoldable pub is_fixed_index_section : ℕ → Bool
unfolding record_size_for
is_fixed_index_section id = not (record_size_for id == 0)

-- kMaxRecordSize
abbrev pub max_record_size : ℕ
max_record_size = 24

-- PackageTypeName of namespace qpk
unfoldable pub type_name : ℕ → List ℕ
type_name type =
    if type == 1
    then codes "QURAN"
    else if type == 2
    then codes "BOOK"
    else if type == 3
    then codes "TRANSLATION"
    else if type == 4
    then codes "TAFSIR"
    else codes "UNKNOWN"

-- SectionName
unfoldable pub section_name : ℕ → List ℕ
section_name id =
    if id == metadata
    then codes "METADATA"
    else if id == surah_index
    then codes "SURAH_INDEX"
    else if id == juz_index
    then codes "JUZ_INDEX"
    else if id == hizb_index
    then codes "HIZB_INDEX"
    else if id == rub_index
    then codes "RUB_INDEX"
    else if id == page_index
    then codes "PAGE_INDEX"
    else if id == ayah_index
    then codes "AYAH_INDEX"
    else if id == word_index
    then codes "WORD_INDEX"
    else if id == sajdah_index
    then codes "SAJDAH_INDEX"
    else if id == text_data
    then codes "TEXT_DATA"
    else if id == layout_data
    then codes "LAYOUT_DATA"
    else if id == translation_index
    then codes "TRANSLATION_INDEX"
    else if id == translation_data
    then codes "TRANSLATION_DATA"
    else if id == font_metadata
    then codes "FONT_METADATA"
    else if id == assets
    then codes "ASSETS"
    else if id == chapter_index
    then codes "CHAPTER_INDEX"
    else if id == section_index
    then codes "SECTION_INDEX"
    else if id == text_index
    then codes "TEXT_INDEX"
    else codes "UNKNOWN"

-- Header
pub record Header : Type 0 where
  pub version : ℕ
  pub size : ℕ
  pub package_type : ℕ
  pub section_count : ℕ
  pub flags : ℕ
  pub package_size : ℕ
  pub content_id : Bytes
  pub content_version : ℕ
  pub section_table_offset : ℕ
  pub section_table_length : ℕ
  pub payload_crc32 : ℕ
  pub header_crc32 : ℕ

-- SectionEntry
pub record SectionEntry : Type 0 where
  pub id : ℕ
  pub version : ℕ
  pub offset : ℕ
  pub size : ℕ
  pub count : ℕ
  pub crc32 : ℕ
  pub record_size : ℕ
  pub flags : ℕ
