-- ===== src/Witnesses/Progress.antt =====
-- The reading position at a concrete input, on a card in memory.
use diy_ebook.Prelude.{◌≡◌, refl, arith, true, some, [], replicate, same}
use diy_ebook.Storage.Memory.{MemoryCard, memory}
use diy_ebook.Storage.Memory
use diy_ebook.Storage.Commit.{rewrite_file}
use diy_ebook.Progress.{
  ReadingProgress, PageProgress, load_reading_progress, save_reading_progress, save_page_progress,
}
use diy_ebook.Progress.Laws.{Fits, load_reading_progress-save, load_reading_progress-save_page}

abbrev position : ReadingProgress
position = record {
  content_id = replicate 16 7;
  surah_id = 18;
  first_ayah_index = 2150;
  screen_number = 3;
}

abbrev spare_card : MemoryCard
spare_card = record { files = []; budget = 20; free = 1000; renames = true }

position-Fits : Fits position
position-Fits = record {
  id_length = refl;
  id_bytes = omega arith;
  surah_half = omega arith;
  ayah_word = omega arith;
  screen_half = omega arith;
}

position_saved : (save_reading_progress memory position spare_card).0 ≡ true
unfolding save_reading_progress rewrite_file Memory.rename Memory.try_rename Memory.remove
    Memory.write_all Memory.spend Memory.powered Memory.put_file Memory.move_file Memory.without
    Memory.find_file same
position_saved = refl

reading_progress_example :
    load_reading_progress memory (save_reading_progress memory position spare_card).1
    ≡ some position
reading_progress_example =
    load_reading_progress-save memory position spare_card position-Fits position_saved

abbrev picture_page : PageProgress
picture_page = record { content_id = replicate 16 9; page = 412 }

page_progress_example :
    load_reading_progress memory
      (save_page_progress memory picture_page
        (save_reading_progress memory position spare_card).1).1
    ≡ load_reading_progress memory (save_reading_progress memory position spare_card).1
page_progress_example =
    load_reading_progress-save_page memory picture_page
      (save_reading_progress memory position spare_card).1
