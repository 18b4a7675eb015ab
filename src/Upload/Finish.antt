-- ===== src/Upload/Finish.antt =====
-- UploadManager::finish, openSessionCount and sweepOrphans of firmware/wifi/upload_manager.cpp.
use diy_ebook.Prelude.{
  ℕ, zero, suc, ◌+◌, ◌-◌, Bool, true, false, not, Option, none, some, List, [], ◌∷◌, length, take,
  drop, ltb, ◌==◌, ◌&&◌, codes, if◌then◌else◌,
}
use diy_ebook.Qpk.ByteOrder.{Bytes, read16, read32, read64}
use diy_ebook.Qpk.Crc.{crc32, crc32_init}
use diy_ebook.Qpk.File.{File, read_exact}
use diy_ebook.Qpk.Result.{Result}
use diy_ebook.Qpk.Reader.{Reader, is_package}
use diy_ebook.Qpk.Reader.Checks.{open_package, crc_chunks}
use diy_ebook.Storage.{Storage, FilePath, exists}
use diy_ebook.Slots.{Slots}
use diy_ebook.Protocol.{
  Error, ok, bad_request, size_mismatch, verify_failed, package_rejected, no_session, storage_error,
  library_dir_for, content_id_hex_chars,
}
use diy_ebook.Library.Paths.{join_path, build_package_path}
use diy_ebook.Library.Index.{LibraryEntry, upsert}
use diy_ebook.Library.Describe.{open_file, describe_package, ends_with}
use diy_ebook.Library.IndexFile.{save}
use diy_ebook.Upload.Meta.{UploadBegin, expired}
use diy_ebook.Upload.Session.{
  valid_hex_id, meta_path, part_path, part_size, read_meta, discard, remove_at,
}

-- kCrcChunkBytes of the uploads
abbrev pub part_chunk_bytes : ℕ
part_chunk_bytes = 512

-- The tests on the header of the received file.
unfoldable pub is_declared : UploadBegin → Bytes → Bool
unfolding crc32
is_declared meta b =
    is_package b
    && read16 (drop 4 b) == 1
    && not (ltb (read16 (drop 6 b)) 64)
    && not (ltb meta.size (read16 (drop 6 b)))
    && crc32 (take 60 b) == read32 (drop 60 b)
    && read64 (drop 16 b) == meta.size
    && read32 (drop 52 b) == meta.payload_crc32

abbrev pub is_crc : ℕ → Result ℕ → Bool
is_crc declared (Result.err e) = false
is_crc declared (Result.ok crc) = crc == declared

-- `verified`: the header is the declared one and so is the checksum of what follows it.
unfoldable pub verify_header : File → UploadBegin → Bytes → Bool
unfolding is_declared crc_chunks
verify_header f meta b =
    is_declared meta b
    && is_crc (read32 (drop 52 b)) (
        crc_chunks f part_chunk_bytes (meta.size - read16 (drop 6 b)) (read16 (drop 6 b))
          (meta.size - read16 (drop 6 b)) crc32_init)

unfoldable pub verify_part : File → UploadBegin → Bool
unfolding verify_header read_exact
verify_part f meta = elim (read_exact f 0 64) [ none ↦ false | some b ↦ verify_header f meta b ]

abbrev pub opens : Result Reader → Bool
opens (Result.err e) = false
opens (Result.ok r) = true

-- What finish leaves: the answer, the entry that it stores through its pointer, the index and the card.
pub record Finished {ℓ} (Card : Type ℓ) : Type ℓ where
  pub error : Error
  pub installed : Option LibraryEntry
  pub index : Slots LibraryEntry
  pub card : Card

abbrev pub has_session : Option UploadBegin → Bool
has_session none = false
has_session (some meta) = true

module _ (s : Storage) where
  open s use {Card, file, remove, rename, mkdirs}

  abbrev pub fail : Error → Slots LibraryEntry → Card → Finished Card
  fail e index c = record { error = e; installed = none; index = index; card = c }

  -- Steps 5 and 6: the index, then the .meta file.
  unfoldable pub register : List ℕ → LibraryEntry → Slots LibraryEntry → Card → Finished Card
  register hex entry index c =
      let (index1, taken) = upsert entry index in
      let (saved, c1) = save s index1 c in
      if not taken
      then fail storage_error index1 c
      else if not saved
      then fail storage_error index1 c1
      else record {
        error = ok;
        installed = some entry;
        index = index1;
        card = remove_at s (meta_path hex) c1;
      }

  -- The path that is free when an older version has been removed.
  unfoldable pub make_room : FilePath → Card → Card
  make_room final c = if exists s final c then (remove final c).1 else c

  -- The library's directory of a type that has one.
  abbrev pub make_directory : ℕ → Card → Card
  make_directory type c = elim (library_dir_for type) [
    | none ↦ c
    | some dir ↦ (mkdirs (join_path 64 (codes "/LIBRARY/") dir []) c).1
  ]

  -- Step 4, the commit point, and what follows it.
  unfoldable pub install_at :
      List ℕ → FilePath → FilePath → LibraryEntry → Slots LibraryEntry → Card → Finished Card
  unfolding library_dir_for
  install_at hex part final entry index c =
      let (moved, c1) = rename part final (make_room final (make_directory entry.type c)) in
      if not moved then fail storage_error index c1 else register hex entry index c1

  abbrev pub installed_now : ℕ → LibraryEntry → LibraryEntry
  installed_now now_unix e = record e { installed_at = now_unix }

  unfoldable pub install :
      List ℕ → FilePath → LibraryEntry → Slots LibraryEntry → Card → Finished Card
  install hex part entry index c = elim (build_package_path entry.type entry.content_id) [
    | none ↦ fail storage_error index c
    | some final ↦ install_at hex part final entry index c
  ]

  -- Step 3 after the package was opened: its entry, whose type is the declared one.
  unfoldable pub install_described :
      List ℕ
      → UploadBegin
      → ℕ
      → FilePath
      → Option LibraryEntry
      → Slots LibraryEntry
      → Card
      → Finished Card
  install_described hex meta now_unix part none index c =
      fail package_rejected index (discard s hex c)
  install_described hex meta now_unix part (some e) index c =
      if not (e.type == meta.type)
      then fail package_rejected index (discard s hex c)
      else install hex part (installed_now now_unix e) index c

  -- Steps 2 and 3 on the open file.
  unfoldable pub check_part :
      List ℕ → UploadBegin → ℕ → FilePath → File → Slots LibraryEntry → Card → Finished Card
  check_part hex meta now_unix part f index c =
      if not (verify_part f meta)
      then fail verify_failed index (discard s hex c)
      else if not (opens (open_package f true))
      then fail package_rejected index (discard s hex c)
      else install_described hex meta now_unix part (describe_package s part c) index c

  unfoldable pub finish_open :
      List ℕ → UploadBegin → ℕ → FilePath → Option File → Slots LibraryEntry → Card → Finished Card
  finish_open hex meta now_unix part none index c = fail storage_error index c
  finish_open hex meta now_unix part (some f) index c = check_part hex meta now_unix part f index c

  -- Step 1: the declared size.
  unfoldable pub finish_part :
      List ℕ → UploadBegin → ℕ → Option FilePath → Slots LibraryEntry → Card → Finished Card
  finish_part hex meta now_unix none index c = fail bad_request index c
  finish_part hex meta now_unix (some part) index c =
      if not (part_size s hex c == meta.size)
      then fail size_mismatch index c
      else finish_open hex meta now_unix part (open_file s part c) index c

  unfoldable pub finish_session :
      List ℕ → ℕ → Option UploadBegin → Slots LibraryEntry → Card → Finished Card
  finish_session hex now_unix none index c = fail no_session index c
  finish_session hex now_unix (some meta) index c =
      if expired meta now_unix
      then fail no_session index (discard s hex c)
      else finish_part hex meta now_unix (part_path hex) index c

  -- UploadManager::finish
  unfoldable pub finish : List ℕ → ℕ → Slots LibraryEntry → Card → Finished Card
  finish hex now_unix index c = finish_session hex now_unix (read_meta s hex c) index c

  -- while (dir->next(...)): the names are what is left of the directory
  unfoldable pub count_meta : List (List ℕ) → ℕ
  count_meta [] = 0
  count_meta (name ∷ names) =
      if ends_with name (codes ".meta") then suc (count_meta names) else count_meta names

  -- UploadManager::openSessionCount; a directory that does not open is `none`
  unfoldable pub open_session_count : Option (List (List ℕ)) → ℕ
  open_session_count none = 0
  open_session_count (some names) = count_meta names

  abbrev pub is_orphan : List ℕ → Card → Bool
  is_orphan name c =
      ends_with name (codes ".part")
      && length name == content_id_hex_chars + 5
      && valid_hex_id (take content_id_hex_chars name)
      && not (has_session (read_meta s (take content_id_hex_chars name) c))

  -- The ids that are collected, with room for `room` more.
  unfoldable pub find_orphans : ℕ → List (List ℕ) → Card → List (List ℕ)
  find_orphans zero names c = []
  find_orphans (suc room) [] c = []
  find_orphans (suc room) (name ∷ names) c =
      if is_orphan name c
      then take content_id_hex_chars name ∷ find_orphans room names c
      else find_orphans (suc room) names c

  unfoldable pub discard_all : List (List ℕ) → Card → Card
  discard_all [] c = c
  discard_all (hex ∷ others) c = discard_all others (discard s hex c)

  -- UploadManager::sweepOrphans: how many were found, and the card
  unfoldable pub sweep_orphans : Option (List (List ℕ)) → Card → ℕ × Card
  sweep_orphans none c = (0, c)
  sweep_orphans (some names) c =
      let found = find_orphans 8 names c in (length found, discard_all found c)
