-- ===== src/Storage/Commit.antt =====
-- The .tmp-then-rename sequence that every small file of the card is rewritten by
-- (storage/bookmarks.cpp, reading_progress.cpp, verified_packages.cpp).
use diy_ebook.Prelude.{◌≡◌, ◌≢◌, ◌⊎◌, ◌↔◌, sym, Bool, true, false, none, some, if◌then◌else◌, arith}
use diy_ebook.Qpk.ByteOrder.{Bytes}
use diy_ebook.Storage.{Storage, FilePath}

module _ (s : Storage) where
  open s use {Card, file, remove, rename, write_all}

  -- What follows a successful write of the temporary file.
  abbrev move_into_place : FilePath → FilePath → Card → Bool × Card
  move_into_place temp path c =
      let c1 = (remove path c).1 in
      let (moved, c2) = rename temp path c1 in
      if moved then (true, c2) else (false, (remove temp c2).1)

  unfoldable pub rewrite_file : FilePath → FilePath → Bytes → Card → Bool × Card
  rewrite_file temp path bytes c =
      let c1 = (remove temp c).1 in
      let (written, c2) = write_all temp bytes c1 in
      if written then move_into_place temp path c2 else (false, (remove temp c2).1)

module _ (s : Storage) (temp path : FilePath) (bytes : Bytes) (c : s.Card)
    (apart : temp ≢ path) where
  open s use {Card, file, remove, rename, write_all}

  -- The card after each of the first three steps.
  abbrev pub cleared : Card
  cleared = (remove temp c).1

  abbrev pub staged : Card
  staged = (write_all temp bytes (remove temp c).1).1

  abbrev pub vacated : Card
  vacated = (remove path (write_all temp bytes (remove temp c).1).1).1

  -- The sequence leaves every other file alone.
  pub rewrite_file-other :
      (q : FilePath) → q ≢ temp → q ≢ path → file (rewrite_file s temp path bytes c).1 q ≡ file c q
  unfolding rewrite_file
  rewrite_file-other q h k = ground (
    arith,
    s.remove_other temp q c h,
    s.write_all_other temp q bytes cleared h,
    s.remove_other temp q staged h,
    s.remove_other path q staged k,
    s.rename_other temp path q vacated h k,
    s.remove_other temp q (rename temp path vacated).1 h,
  )

  pub rewrite_file-done :
      (rewrite_file s temp path bytes c).0 ≡ true
      → file (rewrite_file s temp path bytes c).1 path ≡ some bytes
  unfolding rewrite_file
  rewrite_file-done h = ground (
    arith,
    s.rename_done temp path vacated apart,
    s.write_all_done temp bytes cleared,
    s.remove_other path temp staged apart,
  )

  -- When the sequence fails the file is as it was, or gone.
  pub rewrite_file-failed :
      (rewrite_file s temp path bytes c).0 ≡ false
      → (file (rewrite_file s temp path bytes c).1 path ≡ file c path)
        ⊎ (file (rewrite_file s temp path bytes c).1 path ≡ none)
  unfolding rewrite_file
  rewrite_file-failed h = ground (
    arith,
    s.remove_other temp path c (λ e. apart (sym e)),
    s.write_all_other temp path bytes cleared (λ e. apart (sym e)),
    s.remove_other temp path staged (λ e. apart (sym e)),
    s.remove_done path staged,
    s.remove_failed path staged,
    s.rename_failed temp path path vacated,
    s.remove_other temp path (rename temp path vacated).1 (λ e. apart (sym e)),
  )

  -- Where the sequence fails and takes the file away, it was by a renaming that was refused.
  refused_by_rename :
      (old : Bytes)
      → file c path ≡ some old
      → (rewrite_file s temp path bytes c).0 ≡ false
      → file (rewrite_file s temp path bytes c).1 path ≡ none
      → ((write_all temp bytes cleared).0 ≡ true)
        × ((remove path staged).0 ≡ true)
        × ((rename temp path vacated).0 ≡ false)
  unfolding rewrite_file
  refused_by_rename old had failed gone = ground (
    arith,
    s.remove_other temp path c (λ e. apart (sym e)),
    s.write_all_other temp path bytes cleared (λ e. apart (sym e)),
    s.remove_other temp path staged (λ e. apart (sym e)),
    s.remove_failed path staged,
    s.rename_failed temp path path vacated,
    s.remove_other temp path (rename temp path vacated).1 (λ e. apart (sym e)),
  )

  -- For two different paths and a card that has the file, the sequence fails and the file is gone
  -- if and only if the new bytes were written to the temporary file, the old file was removed and
  -- the renaming was refused.
  pub rewrite_file-lost :
      (old : Bytes)
      → file c path ≡ some old
      → (((rewrite_file s temp path bytes c).0 ≡ false)
          × (file (rewrite_file s temp path bytes c).1 path ≡ none))
        ↔ (((write_all temp bytes cleared).0 ≡ true)
            × ((remove path staged).0 ≡ true)
            × ((rename temp path vacated).0 ≡ false))
  unfolding rewrite_file
  rewrite_file-lost old had = (
    λ (failed, gone). refused_by_rename old had failed gone,
    λ (written, removed, refused). ground (
      arith,
      s.remove_done path staged,
      s.rename_failed temp path path vacated,
      s.remove_other temp path (rename temp path vacated).1 (λ e. apart (sym e)),
    ),
  )
