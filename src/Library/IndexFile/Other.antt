-- ===== src/Library/IndexFile/Other.antt =====
-- Saving the index (firmware/storage/library_index.cpp) leaves every other file alone.
use diy_ebook.Prelude.{◌≡◌, ◌≢◌, refl, arith, List, [], ◌∷◌}
use diy_ebook.Storage.{Storage, FilePath}
use diy_ebook.Slots.{Slots, listed}
use diy_ebook.Library.Index.{LibraryEntry}
use diy_ebook.Library.IndexFile.{
  index_path, index_temp_path, index_header, encode_entry, append_entries, commit_index, save,
}

module _ (s : Storage) (q : FilePath) (h : q ≢ index_temp_path) (k : q ≢ index_path) where
  open s use {Card, file, remove, rename, write_all, append}

  append_entries-other :
      (entries : List LibraryEntry) (c : Card) → file (append_entries s entries c).1 q ≡ file c q
  unfolding append_entries
  append_entries-other [] c = refl
  append_entries-other (e ∷ entries) c = ground (
    arith,
    append_entries-other entries (append index_temp_path (encode_entry e) c).1,
    s.append_other index_temp_path q (encode_entry e) c h,
    s.remove_other index_temp_path q (append index_temp_path (encode_entry e) c).1 h,
  )

  commit_index-other : (c : Card) → file (commit_index s c).1 q ≡ file c q
  unfolding commit_index
  commit_index-other c = ground (
    arith,
    s.remove_other index_path q c k,
    s.rename_other index_temp_path index_path q (remove index_path c).1 h k,
    s.remove_other index_temp_path q (rename index_temp_path index_path (remove index_path c).1).1
        h,
  )

  -- The card when the header has been written.
  abbrev headed : Slots LibraryEntry → Card → Card
  headed index c = (write_all index_temp_path (index_header index) (remove index_temp_path c).1).1

  pub save-other : (index : Slots LibraryEntry) (c : Card) → file (save s index c).1 q ≡ file c q
  unfolding save
  save-other index c = ground (
    arith,
    s.remove_other index_temp_path q c h,
    s.write_all_other index_temp_path q (index_header index) (remove index_temp_path c).1 h,
    append_entries-other (listed index) (headed index c),
    commit_index-other (append_entries s (listed index) (headed index c)).1,
  )
