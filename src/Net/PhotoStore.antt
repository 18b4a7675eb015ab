-- ===== src/Net/PhotoStore.antt =====
-- firmware/include/net/photo_store.h and firmware/wifi/photo_store.cpp: the photos of the home screen
-- on the card. A store without storage is not modelled.
pub mod Header
pub mod Kept
pub mod Paths
pub mod Requests
pub mod Grown
pub mod Finished
pub mod Listed
pub mod Sorted
use diy_ebook.Prelude.{
  ℕ, ◌+◌, ◌*◌, ◌/◌, ◌%◌, Bool, true, false, ◌&&◌, ◌||◌, not, Option, none, some, List, [], ◌∷◌,
  ◌++◌, length, take, drop, ltb, ◌==◌, if◌then◌else◌, codes, same,
}
use diy_ebook.Qpk.ByteOrder.{Bytes, at, read16}
use diy_ebook.Storage.{Storage, FilePath, exists, size, read}
use diy_ebook.Protocol.{
  Error, ok, bad_request, not_found, offset_mismatch, size_mismatch, verify_failed, no_space,
  no_session, storage_error,
}
use diy_ebook.Net.Allowed.{valid_photo_name}

abbrev pub photo_dir : FilePath
photo_dir = codes "/PHOTOS"

abbrev pub photo_extension : List ℕ
photo_extension = codes ".g4"

abbrev pub part_extension : List ℕ
part_extension = codes ".part"

abbrev pub photo_width : ℕ
photo_width = 400

abbrev pub photo_height : ℕ
photo_height = 480

abbrev pub photo_header_bytes : ℕ
photo_header_bytes = 16

abbrev pub photo_pixel_bytes : ℕ
photo_pixel_bytes = photo_width / 4 * photo_height

abbrev pub photo_file_bytes : ℕ
photo_file_bytes = photo_header_bytes + photo_pixel_bytes

-- BuildPath, with a buffer of 64 bytes.
unfoldable pub build_path : List ℕ → List ℕ → Option FilePath
build_path name extension =
    let path = photo_dir ++ codes "/" ++ name ++ extension in
    if ltb (length path) 64 then some path else none

abbrev all_zero : Bytes → Bool
all_zero [] = true
all_zero (b ∷ bs) = b == 0 && all_zero bs

-- On the kPhotoHeaderBytes that were read.
unfoldable pub parse_photo_header : Bytes → Bool
unfolding read16 same
parse_photo_header header =
    if not (same (take 4 header) (codes "QPH1"))
    then false
    else if not (read16 (drop 4 header) == photo_width)
        || not (read16 (drop 6 header) == photo_height)
        || not (at header 8 == 2)
    then false
    else all_zero (drop 9 header)

unfoldable pub write_photo_header : Bytes
write_photo_header =
    codes "QPH1"
    ++ (photo_width % 256)
      ∷ (photo_width / 256)
      ∷ (photo_height % 256)
      ∷ (photo_height / 256)
      ∷ 2
      ∷ 0
      ∷ 0
      ∷ 0
      ∷ 0
      ∷ 0
      ∷ 0
      ∷ 0
      ∷ []

-- The result of writeChunk, with *received and *expected where they are set.
pub record ChunkReply : Type 0 where
  pub error : Error
  pub received : Option ℕ
  pub expected : Option ℕ

abbrev pub fails : Error → ChunkReply
fails e = record { error = e; received = none; expected = none }

abbrev pub is_header : Option Bytes → Bool
is_header none = false
is_header (some header) = length header == photo_header_bytes && parse_photo_header header

abbrev pub has_size : Option ℕ → ℕ → Bool
has_size none n = false
has_size (some m) n = m == n

abbrev pub pixels_of : Option Bytes → Option Bytes
pixels_of none = none
pixels_of (some pixels) = if length pixels == photo_pixel_bytes then some pixels else none

module _ (s : Storage) where
  open s use {Card, append, remove, rename, mkdirs, free_bytes}

  unfoldable pub append_part : FilePath → ℕ → Bytes → Card → ChunkReply × Card
  append_part part offset chunk c =
      if ltb photo_file_bytes (offset + length chunk)
      then (fails size_mismatch, c)
      else if ltb (free_bytes c) (length chunk)
      then (fails no_space, c)
      else let (written, c1) = append part chunk c in
        if written
        then (record { error = ok; received = some (offset + length chunk); expected = none }, c1)
        else (fails storage_error, c1)

  unfoldable pub at_offset : FilePath → ℕ → ℕ → Bytes → Card → ChunkReply × Card
  at_offset part have offset chunk c =
      if not (offset == have)
      then (record { error = offset_mismatch; received = none; expected = some have }, c)
      else append_part part offset chunk c

  -- An upload from the start drops the part of an abandoned one.
  unfoldable pub write_part : FilePath → ℕ → ℕ → Bytes → Card → ChunkReply × Card
  write_part part have offset chunk c =
      if offset == 0 && ltb 0 have
      then (let (removed, c1) = remove part c in
          if removed then at_offset part 0 offset chunk c1 else (fails storage_error, c1))
      else at_offset part have offset chunk c

  unfoldable pub part_size : FilePath → Card → Option ℕ
  unfolding exists size
  part_size part c = if exists s part c then size s part c else some 0

  abbrev pub write_sized : FilePath → Option ℕ → ℕ → Bytes → Card → ChunkReply × Card
  write_sized part none offset chunk c = (fails storage_error, c)
  write_sized part (some have) offset chunk c = write_part part have offset chunk c

  abbrev pub write_at : Option FilePath → ℕ → Bytes → Card → ChunkReply × Card
  write_at none offset chunk c = (fails bad_request, c)
  write_at (some part) offset chunk c =
      let (made, c1) = mkdirs photo_dir c in
      if made
      then write_sized part (part_size part c1) offset chunk c1
      else (fails storage_error, c1)

  unfoldable pub write_chunk : List ℕ → ℕ → Bytes → Card → ChunkReply × Card
  unfolding build_path
  write_chunk name offset chunk c =
      if not (valid_photo_name name)
      then (fails bad_request, c)
      else write_at (build_path name part_extension) offset chunk c

  unfoldable pub move_photo : FilePath → FilePath → Card → Error × Card
  move_photo part photo c =
      let (moved, c1) = rename part photo c in if moved then (ok, c1) else (storage_error, c1)

  unfoldable pub install_photo : FilePath → FilePath → Card → Error × Card
  unfolding exists
  install_photo part photo c =
      if exists s photo c
      then (let (removed, c1) = remove photo c in
          if removed then move_photo part photo c1 else (storage_error, c1))
      else move_photo part photo c

  unfoldable pub finish_part : FilePath → FilePath → Card → Error × Card
  unfolding exists size read
  finish_part part photo c =
      if not (exists s part c)
      then (no_session, c)
      else if not (has_size (size s part c) photo_file_bytes)
      then (size_mismatch, c)
      else if not (is_header (read s part 0 photo_header_bytes c))
      then (verify_failed, (remove part c).1)
      else install_photo part photo c

  abbrev pub with_paths :
      (FilePath → FilePath → Card → Error × Card)
      → Option FilePath
      → Option FilePath
      → Card
      → Error × Card
  with_paths act (some part) (some photo) c = act part photo c
  with_paths act (some part) none c = (bad_request, c)
  with_paths act none photo c = (bad_request, c)

  unfoldable pub finish : List ℕ → Card → Error × Card
  unfolding build_path
  finish name c =
      if not (valid_photo_name name)
      then (bad_request, c)
      else with_paths finish_part (build_path name part_extension) (build_path name photo_extension)
          c

  unfoldable pub remove_part : Bool → FilePath → Card → Error × Card
  remove_part had_part part c =
      if had_part
      then (let (removed, c1) = remove part c in if removed then (ok, c1) else (storage_error, c1))
      else (ok, c)

  unfoldable pub remove_both : FilePath → FilePath → Card → Error × Card
  unfolding exists
  remove_both part photo c =
      let had_photo = exists s photo c in
      let had_part = exists s part c in
      if not had_photo && not had_part
      then (not_found, c)
      else if had_photo
      then (let (removed, c1) = remove photo c in
          if removed then remove_part had_part part c1 else (storage_error, c1))
      else remove_part had_part part c

  unfoldable pub remove_photo : List ℕ → Card → Error × Card
  unfolding build_path
  remove_photo name c =
      if not (valid_photo_name name)
      then (bad_request, c)
      else with_paths remove_both (build_path name part_extension) (build_path name photo_extension)
          c

  abbrev pub load_at : Option FilePath → Card → Option Bytes
  load_at none c = none
  load_at (some photo) c =
      if not (is_header (read s photo 0 photo_header_bytes c))
      then none
      else pixels_of (read s photo photo_header_bytes photo_pixel_bytes c)

  unfoldable pub load : List ℕ → ℕ → Card → Option Bytes
  unfolding build_path read
  load name capacity c =
      if ltb capacity photo_pixel_bytes || not (valid_photo_name name)
      then none
      else load_at (build_path name photo_extension) c
