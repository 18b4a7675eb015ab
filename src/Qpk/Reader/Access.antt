-- ===== src/Qpk/Reader/Access.antt =====
-- Record access of firmware/qpk/qpk_reader.cpp. A reader that is closed has no value here: the test
-- for kNotOpen is that there is one.
use diy_ebook.Prelude.{
  ℕ, ◌+◌, ◌-◌, ◌*◌, ◌/◌, ◌%◌, ◌^◌, not, Option, none, some, [], ◌||◌, ltb, leb, ◌==◌, get_elem?,
  if◌then◌else◌,
}
use diy_ebook.Qpk.ByteOrder.{Bytes}
use diy_ebook.Qpk.File.{read_exact}
use diy_ebook.Qpk.Result.{
  Result, ok, ◌>>=◌, ◌>>◌, or_error, refuse_if, index_inconsistent, no_such_section, out_of_range,
}
use diy_ebook.Qpk.Format.{SectionEntry}
use diy_ebook.Qpk.Format
use diy_ebook.Qpk.Records
use diy_ebook.Qpk.Records.{
  SurahRecord, AyahRecord, PageRecord, WordRecord, RangeRecord, SajdahRecord, TranslationRecord,
  ChapterRecord, BookSectionRecord, TextRecord,
}
use diy_ebook.Qpk.Reader.{Reader, within_bounds, section}
use diy_ebook.Qpk.Reader.Checks.{read_record_bytes}

-- Reader::sectionAt
unfoldable pub section_at : Reader → ℕ → Option SectionEntry
section_at r index = get_elem? r.sections index

-- Reader::recordCount
unfoldable pub record_count : Reader → ℕ → ℕ
unfolding section
record_count r id = elim (section id r.sections) [ none ↦ 0 | some e ↦ e.count ]

-- The bytes of record `index` of a section.
unfoldable pub record_bytes : Reader → ℕ → ℕ → Result Bytes
unfolding section read_record_bytes
record_bytes r id index = do
  e ← or_error no_such_section (section id r.sections)
  read_record_bytes r.file e index

-- The same for a section that is addressed from 1 on.
unfoldable pub numbered_bytes : Reader → ℕ → ℕ → Result Bytes
unfolding section read_record_bytes
numbered_bytes r id number = do
  e ← or_error no_such_section (section id r.sections)
  refuse_if (number == 0 || ltb e.count number) out_of_range
  read_record_bytes r.file e (number - 1)

unfoldable pub get_surah : Reader → ℕ → Result SurahRecord
unfolding numbered_bytes Records.decode_surah
get_surah r surah_id = do
  b ← numbered_bytes r Format.surah_index surah_id
  refuse_if (not ((Records.decode_surah b).surah_id == surah_id)) index_inconsistent
  ok (Records.decode_surah b)

unfoldable pub get_ayah_by_index : Reader → ℕ → Result AyahRecord
unfolding record_bytes Records.decode_ayah
get_ayah_by_index r index = do
  b ← record_bytes r Format.ayah_index index
  ok (Records.decode_ayah b)

unfoldable pub get_ayah : Reader → ℕ → ℕ → Result AyahRecord
unfolding get_surah get_ayah_by_index
get_ayah r surah_id ayah_number = do
  surah ← get_surah r surah_id
  refuse_if (ayah_number == 0 || ltb surah.ayah_count ayah_number) out_of_range
  a ← get_ayah_by_index r ((surah.first_ayah_index + (ayah_number - 1)) % 2 ^ 32)
  refuse_if (not (a.surah_id == surah_id) || not (a.ayah_number == ayah_number)) index_inconsistent
  ok a

unfoldable pub get_word_by_index : Reader → ℕ → Result WordRecord
unfolding record_bytes Records.decode_word
get_word_by_index r index = do
  b ← record_bytes r Format.word_index index
  ok (Records.decode_word b)

unfoldable pub get_word : Reader → ℕ → ℕ → ℕ → Result WordRecord
unfolding get_ayah get_word_by_index
get_word r surah_id ayah_number word_id = do
  a ← get_ayah r surah_id ayah_number
  refuse_if (leb a.word_count word_id) out_of_range
  get_word_by_index r ((a.first_word_index + word_id) % 2 ^ 32)

unfoldable pub get_page : Reader → ℕ → Result PageRecord
unfolding numbered_bytes Records.decode_page
get_page r page_number = do
  b ← numbered_bytes r Format.page_index page_number
  refuse_if (not ((Records.decode_page b).page_number == page_number)) index_inconsistent
  ok (Records.decode_page b)

unfoldable pub get_range : Reader → ℕ → ℕ → Result RangeRecord
unfolding numbered_bytes Records.decode_range
get_range r section_id id = do
  b ← numbered_bytes r section_id id
  refuse_if (not ((Records.decode_range b).id == id)) index_inconsistent
  ok (Records.decode_range b)

abbrev pub get_juz : Reader → ℕ → Result RangeRecord
get_juz r id = get_range r Format.juz_index id

abbrev pub get_hizb : Reader → ℕ → Result RangeRecord
get_hizb r id = get_range r Format.hizb_index id

abbrev pub get_rub : Reader → ℕ → Result RangeRecord
get_rub r id = get_range r Format.rub_index id

unfoldable pub get_sajdah_by_index : Reader → ℕ → Result SajdahRecord
unfolding record_bytes Records.decode_sajdah
get_sajdah_by_index r index = do
  b ← record_bytes r Format.sajdah_index index
  ok (Records.decode_sajdah b)

unfoldable pub get_chapter : Reader → ℕ → Result ChapterRecord
unfolding record_bytes Records.decode_chapter
get_chapter r index = do
  b ← record_bytes r Format.chapter_index index
  ok (Records.decode_chapter b)

unfoldable pub get_book_section : Reader → ℕ → Result BookSectionRecord
unfolding record_bytes Records.decode_book_section
get_book_section r index = do
  b ← record_bytes r Format.section_index index
  ok (Records.decode_book_section b)

unfoldable pub get_text_record : Reader → ℕ → Result TextRecord
unfolding record_bytes Records.decode_text
get_text_record r index = do b ← record_bytes r Format.text_index index; ok (Records.decode_text b)

unfoldable pub get_translation : Reader → ℕ → Result TranslationRecord
unfolding record_bytes Records.decode_translation
get_translation r ayah_index = do
  b ← record_bytes r Format.translation_index ayah_index
  ok (Records.decode_translation b)

abbrev pub smaller : ℕ → ℕ → ℕ
smaller a b = if ltb a b then a else b

abbrev pub bytes_or_none : Option Bytes → Bytes
bytes_or_none none = []
bytes_or_none (some b) = b

-- Reader::readRecordRange: the bytes that are copied, [] where it returns 0
unfoldable pub read_record_range : Reader → ℕ → ℕ → ℕ → ℕ → Bytes
unfolding section read_exact
read_record_range r id first count capacity = elim (section id r.sections) [
  | none ↦ []
  | some e ↦
      if e.record_size == 0 || leb e.count first
      then []
      else (let n = smaller (smaller count (e.count - first)) (capacity / e.record_size) in
          if n == 0
          then []
          else bytes_or_none
              (read_exact r.file (e.offset + first * e.record_size) (n * e.record_size)))
]

-- Reader::readBlob; -1 is `none`
unfoldable pub read_blob : Reader → ℕ → ℕ → ℕ → ℕ → Option Bytes
unfolding section read_exact
read_blob r section_id offset size capacity = elim (section section_id r.sections) [
  | none ↦ none
  | some e ↦
      if not (within_bounds offset size e.size)
      then none
      else if smaller size capacity == 0
      then some []
      else read_exact r.file (e.offset + offset) (smaller size capacity)
]

abbrev pub read_text : Reader → ℕ → ℕ → ℕ → Option Bytes
read_text r offset size capacity = read_blob r Format.text_data offset size capacity

abbrev pub read_translation_text : Reader → ℕ → ℕ → ℕ → Option Bytes
read_translation_text r offset size capacity =
    read_blob r Format.translation_data offset size capacity

abbrev pub read_asset : Reader → ℕ → ℕ → ℕ → Option Bytes
read_asset r offset size capacity = read_blob r Format.assets offset size capacity
