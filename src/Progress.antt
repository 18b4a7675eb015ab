-- ===== src/Progress.antt =====
-- firmware/storage/reading_progress.cpp and firmware/include/net/reading_progress.h: where the reader
-- left off, /USER/progress.bin and /USER/pages.bin.
pub mod Laws
use diy_ebook.Prelude.{
  ℕ, ◌+◌, Bool, Option, none, some, List, ◌++◌, replicate, length, take, drop, ◌==◌, ◌&&◌, codes,
  if◌then◌else◌,
}
use diy_ebook.Qpk.ByteOrder.{Bytes, at, read16, read32, write16, write32, store}
use diy_ebook.Qpk.Crc.{crc32}
use diy_ebook.Storage.{Storage, FilePath, read}
use diy_ebook.Storage.Commit.{rewrite_file}

pub record ReadingProgress : Type 0 where
  pub content_id : Bytes
  pub surah_id : ℕ
  pub first_ayah_index : ℕ
  pub screen_number : ℕ

pub record PageProgress : Type 0 where
  pub content_id : Bytes
  pub page : ℕ

abbrev pub progress_path : FilePath
progress_path = codes "/USER/progress.bin"

abbrev pub progress_temp_path : FilePath
progress_temp_path = codes "/USER/progress.tmp"

abbrev pub page_path : FilePath
page_path = codes "/USER/pages.bin"

abbrev pub page_temp_path : FilePath
page_temp_path = codes "/USER/pages.tmp"

-- kFormatVersion
abbrev pub progress_version : ℕ
progress_version = 1

-- The record in front of its checksum.
unfoldable pub progress_fields : ReadingProgress → Bytes
unfolding write16 write32
progress_fields p = store 16 p.content_id (
    store 12 (write16 p.screen_number) (
      store 8 (write32 p.first_ayah_index) (
        store 6 (write16 p.surah_id)
          (store 4 (write16 progress_version) (store 0 (codes "PRG1") (replicate 32 0))))))

unfoldable pub page_fields : PageProgress → Bytes
unfolding write16 write32
page_fields p = store 12 p.content_id (
    store 8 (write32 p.page)
      (store 4 (write16 progress_version) (store 0 (codes "PPG1") (replicate 28 0))))

-- Fields with their checksum behind them.
unfoldable pub sealed : Bytes → Bytes
sealed fields = fields ++ write32 (crc32 fields)

-- The tests of a load: the length, the magic, the version and the checksum over the first `n` bytes.
unfoldable pub is_record : List ℕ → ℕ → Bytes → Bool
is_record magic n b =
    length b == n + 4
    && at b 0 == at magic 0
    && at b 1 == at magic 1
    && at b 2 == at magic 2
    && at b 3 == at magic 3
    && read16 (drop 4 b) == progress_version
    && crc32 (take n b) == read32 (drop n b)

unfoldable pub decode_progress : Option Bytes → Option ReadingProgress
unfolding is_record
decode_progress none = none
decode_progress (some b) =
    if is_record (codes "PRG1") 32 b
    then some (record {
      content_id = take 16 (drop 16 b);
      surah_id = read16 (drop 6 b);
      first_ayah_index = read32 (drop 8 b);
      screen_number = read16 (drop 12 b);
    })
    else none

unfoldable pub decode_page_progress : Option Bytes → Option PageProgress
unfolding is_record
decode_page_progress none = none
decode_page_progress (some b) =
    if is_record (codes "PPG1") 28 b
    then some (record { content_id = take 16 (drop 12 b); page = read32 (drop 8 b) })
    else none

module _ (s : Storage) where
  -- LoadReadingProgress; false is `none`
  unfoldable pub load_reading_progress : s.Card → Option ReadingProgress
  unfolding decode_progress read
  load_reading_progress c = decode_progress (read s progress_path 0 36 c)

  -- SaveReadingProgress
  unfoldable pub save_reading_progress : ReadingProgress → s.Card → Bool × s.Card
  unfolding progress_fields sealed rewrite_file
  save_reading_progress p c =
      rewrite_file s progress_temp_path progress_path (sealed (progress_fields p)) c

  -- LoadPageProgress; false is `none`
  unfoldable pub load_page_progress : s.Card → Option PageProgress
  unfolding decode_page_progress read
  load_page_progress c = decode_page_progress (read s page_path 0 32 c)

  -- SavePageProgress
  unfoldable pub save_page_progress : PageProgress → s.Card → Bool × s.Card
  unfolding page_fields sealed rewrite_file
  save_page_progress p c = rewrite_file s page_temp_path page_path (sealed (page_fields p)) c
