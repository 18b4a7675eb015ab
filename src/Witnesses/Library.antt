-- ===== src/Witnesses/Library.antt =====
-- The library index at concrete inputs.
use diy_ebook.Prelude.{ℕ, ◌≡◌, refl, arith, true, some, ◌∷◌, replicate, same}
use diy_ebook.Qpk.ByteOrder.{Bytes}
use diy_ebook.Slots.{Slots, IsValid, find_slot}
use diy_ebook.Library.Index.{LibraryEntry, max_library_entries, blank, has_id, find, upsert}
use diy_ebook.Library.Index.Laws.{find-upsert}

abbrev id_of : ℕ → Bytes
id_of n = n ∷ replicate 15 0

abbrev entry_of : ℕ → ℕ → LibraryEntry
entry_of n version = record blank { content_id = id_of n; content_version = version }

abbrev index : Slots LibraryEntry
index = record { items = entry_of 1 1 ∷ entry_of 2 1 ∷ replicate 94 blank; count = 2 }

index-IsValid : IsValid max_library_entries index
index-IsValid = record { size = refl; within = omega arith }

replaced : (upsert (entry_of 2 5) index).1 ≡ true
unfolding upsert find_slot has_id same
replaced = refl

find-upsert_example : find (id_of 2) (upsert (entry_of 2 5) index).0 ≡ some (entry_of 2 5)
find-upsert_example = find-upsert (entry_of 2 5) index index-IsValid replaced
