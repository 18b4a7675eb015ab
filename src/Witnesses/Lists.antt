-- ===== src/Witnesses/Lists.antt =====
-- The saved lists at concrete inputs, on a card in memory.
use diy_ebook.Prelude.{
  ℕ, ◌^◌, ◌<◌, ◌≡◌, ◌≢◌, ◌⊎◌, ◌↔◌, refl, arith, true, false, none, some, [], ◌∷◌, replicate, take,
  same, same→ne,
}
use diy_ebook.Storage.{FilePath}
use diy_ebook.Storage.Memory.{MemoryCard, memory}
use diy_ebook.Storage.Memory
use diy_ebook.Storage.Commit.{rewrite_file, rewrite_file-lost}
use diy_ebook.Slots.{Slots, IsValid, listed, erase_first}
use diy_ebook.RecordFile
use diy_ebook.RecordFile.RoundTrip
use diy_ebook.Bookmarks
use diy_ebook.Bookmarks.{Bookmark, max_bookmarks, same_place}
use diy_ebook.Bookmarks.File as BookmarkFile
use diy_ebook.Bookmarks.Laws.{add_lem}
use diy_ebook.Verified
use diy_ebook.Verified.{PackageFingerprint}
use diy_ebook.Verified.File as VerifiedFile
use diy_ebook.Verified.Laws.{contains-load-save-add}

abbrev card : MemoryCard
card = record { files = []; budget = 100; free = 1000000; renames = true }

abbrev bookmark : ℕ → Bookmark
bookmark n = record Bookmarks.blank { a = n; b = 7; created_unix = 1700000000 }

abbrev marked : Slots Bookmark
marked = record { items = bookmark 1 ∷ bookmark 2 ∷ replicate 62 Bookmarks.blank; count = 2 }

marked-IsValid : IsValid max_bookmarks marked
marked-IsValid = record { size = refl; within = omega arith }

bookmark-Fits : (n : ℕ) → n < 2 ^ 32 → BookmarkFile.Fits (bookmark n)
bookmark-Fits n h = record {
  id_length = refl;
  id_bytes = omega arith;
  kind_byte = omega arith;
  a_word = h;
  b_word = omega arith;
  c_word = omega arith;
  created_word = omega arith;
}

saved : (BookmarkFile.save memory marked card).0 ≡ true
unfolding BookmarkFile.save rewrite_file Memory.remove Memory.rename Memory.try_rename
    Memory.write_all Memory.spend Memory.powered Memory.move_file Memory.put_file Memory.find_file
    Memory.without same
saved = refl

abbrev empty : Slots Bookmark
empty = record { items = replicate 64 Bookmarks.blank; count = 0 }

bookmarks_example :
    listed (BookmarkFile.load memory empty (BookmarkFile.save memory marked card).1) ≡ listed marked
bookmarks_example =
    BookmarkFile.load-save memory marked empty card marked-IsValid
      (bookmark-Fits 1 (omega arith), (bookmark-Fits 2 (omega arith), tt)) saved

add_lem_example :
    listed (Bookmarks.add (bookmark 2) marked)
    ≡ take max_bookmarks (bookmark 2 ∷ erase_first (λ y. same_place y (bookmark 2)) (listed marked))
add_lem_example = add_lem (bookmark 2) marked marked-IsValid

abbrev fingerprint : ℕ → PackageFingerprint
fingerprint n = record Verified.blank { header_crc32 = n; package_size = 4096 }

abbrev verified : Slots PackageFingerprint
verified = record { items = fingerprint 1 ∷ replicate 63 Verified.blank; count = 1 }

fingerprint-Fits : (n : ℕ) → n < 2 ^ 32 → VerifiedFile.Fits (fingerprint n)
fingerprint-Fits n h = record {
  id_length = refl;
  id_bytes = omega arith;
  header_word = h;
  payload_word = omega arith;
  size_word = omega arith;
}

saved_fingerprints :
    (VerifiedFile.save memory (Verified.add (fingerprint 2) verified) card).0 ≡ true
unfolding VerifiedFile.save rewrite_file Memory.remove Memory.rename Memory.try_rename
    Memory.write_all Memory.spend Memory.powered Memory.move_file Memory.put_file Memory.find_file
    Memory.without same
saved_fingerprints = refl

contains_example :
    Verified.contains (fingerprint 2) (
      VerifiedFile.load memory verified
        (VerifiedFile.save memory (Verified.add (fingerprint 2) verified) card).1)
    ≡ true
contains_example =
    contains-load-save-add memory (fingerprint 2) verified verified card
      (record { size = refl; within = omega arith }) (fingerprint-Fits 2 (omega arith))
      (fingerprint-Fits 1 (omega arith), tt) saved_fingerprints

-- The power is gone after three writes.
abbrev weak_card : MemoryCard
weak_card = record {
  files = (Bookmarks.path, 1 ∷ []) ∷ [];
  budget = 3;
  free = 1000000;
  renames = true;
}

not_saved : (BookmarkFile.save memory marked weak_card).0 ≡ false
unfolding BookmarkFile.save rewrite_file Memory.remove Memory.rename Memory.try_rename
    Memory.write_all Memory.spend Memory.powered Memory.move_file Memory.put_file Memory.find_file
    Memory.without same
not_saved = refl

load_failed_example :
    (RecordFile.load_records BookmarkFile.bookmarks_file memory
        (RecordFile.save BookmarkFile.bookmarks_file memory marked weak_card).1
      ≡ RecordFile.load_records BookmarkFile.bookmarks_file memory weak_card)
    ⊎ (RecordFile.load_records BookmarkFile.bookmarks_file memory
          (RecordFile.save BookmarkFile.bookmarks_file memory marked weak_card).1
        ≡ none)
load_failed_example =
    RoundTrip.load-save_failed BookmarkFile.bookmarks_file BookmarkFile.bookmarks_file-IsLawful
      memory marked weak_card (unfold BookmarkFile.save in not_saved)

-- A card whose directory refuses to rename.
abbrev stubborn_card : MemoryCard
stubborn_card = record {
  files = (Bookmarks.path, 1 ∷ []) ∷ [];
  budget = 100;
  free = 1000000;
  renames = false;
}

abbrev temp : FilePath
temp = Bookmarks.temp_path

temp_apart : temp ≢ Bookmarks.path
temp_apart = same→ne temp Bookmarks.path (unfold same in refl)

stubborn_file : Memory.file stubborn_card Bookmarks.path ≡ some (1 ∷ [])
unfolding Memory.file Memory.find_file same
stubborn_file = refl

rewrite_file-lost_example :
    (((rewrite_file memory temp Bookmarks.path (5 ∷ []) stubborn_card).0 ≡ false)
      × (Memory.file
            (rewrite_file memory temp Bookmarks.path (5 ∷ []) stubborn_card).1
            Bookmarks.path
          ≡ none))
    ↔ (((Memory.write_all temp (5 ∷ []) (Memory.remove temp stubborn_card).1).0 ≡ true)
        × ((Memory.remove Bookmarks.path
              (Memory.write_all temp (5 ∷ []) (Memory.remove temp stubborn_card).1).1).0
            ≡ true)
        × ((Memory.rename temp Bookmarks.path
              (Memory.remove Bookmarks.path
                (Memory.write_all temp (5 ∷ []) (Memory.remove temp stubborn_card).1).1).1).0
            ≡ false))
rewrite_file-lost_example =
    rewrite_file-lost memory temp Bookmarks.path (5 ∷ []) stubborn_card temp_apart (1 ∷ [])
      stubborn_file

-- On this card both the file and the temporary file are gone.
both_lost :
    ((rewrite_file memory temp Bookmarks.path (5 ∷ []) stubborn_card).0 ≡ false)
    × (Memory.file (rewrite_file memory temp Bookmarks.path (5 ∷ []) stubborn_card).1 Bookmarks.path
        ≡ none)
    × (Memory.file (rewrite_file memory temp Bookmarks.path (5 ∷ []) stubborn_card).1 temp ≡ none)
unfolding rewrite_file Memory.file Memory.remove Memory.rename Memory.try_rename Memory.write_all
    Memory.spend Memory.powered Memory.move_file Memory.put_file Memory.find_file Memory.without
    same
both_lost = (refl, refl, refl)
