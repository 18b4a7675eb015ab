-- ===== src/Upload/Session.antt =====
-- Sessions of firmware/wifi/upload_manager.cpp: paths, beginUpload, writeChunk, abort. All state is
-- on the card; `index_` and `storage_` are not null.
use diy_ebook.Prelude.{
  ℕ, ◌+◌, ◌-◌, ◌%◌, ◌^◌, Bool, true, false, Option, none, some, List, [], length, ltb, leb, ◌==◌,
  ◌&&◌, ◌||◌, not, if◌then◌else◌, codes,
}
use diy_ebook.Qpk.ByteOrder.{Bytes}
use diy_ebook.Storage.{Storage, FilePath, size, read}
use diy_ebook.Protocol.{
  Error, ok, bad_request, offset_mismatch, chunk_too_large, size_mismatch, no_space, no_session,
  storage_error, max_chunk_bytes, session_expiry_seconds, library_dir_for,
}
use diy_ebook.Library.ContentId.{hex_to_content_id}
use diy_ebook.Library.Paths.{join_path}
use diy_ebook.Upload.Meta.{UploadBegin, meta_bytes, encode_meta, decode_meta, expired}

abbrev pub upload_dir : FilePath
upload_dir = codes "/DEVICE/uploads"

-- ValidHexId
unfoldable pub valid_hex_id : List ℕ → Bool
unfolding hex_to_content_id
valid_hex_id hex = elim (hex_to_content_id hex) [ none ↦ false | some id ↦ true ]

-- BuildUploadPath into a buffer of 96; false is `none`
unfoldable pub build_upload_path : List ℕ → List ℕ → Option FilePath
unfolding valid_hex_id join_path
build_upload_path hex suffix =
    if valid_hex_id hex
    then some (join_path 96 upload_dir (codes "/") (join_path 40 hex suffix []))
    else none

abbrev pub meta_path : List ℕ → Option FilePath
meta_path hex = build_upload_path hex (codes ".meta")

abbrev pub part_path : List ℕ → Option FilePath
part_path hex = build_upload_path hex (codes ".part")

-- What a call returns and stores through its pointers; `none` is a pointer that is not written.
pub record Reply : Type 0 where
  pub error : Error
  pub received : Option ℕ
  pub expected : Option ℕ

abbrev pub refuse : Error → Reply
refuse e = record { error = e; received = none; expected = none }

abbrev pub accept : ℕ → Reply
accept n = record { error = ok; received = some n; expected = some n }

abbrev pub or_zero : Option ℕ → ℕ
or_zero none = 0
or_zero (some n) = n

-- Bytes read at the start of a file; what was read is decoded.
unfoldable pub decode_read : Option Bytes → Option UploadBegin
unfolding decode_meta
decode_read none = none
decode_read (some m) = decode_meta m

module _ (s : Storage) where
  open s use {Card, remove, write_all, append, mkdirs, free_bytes}

  unfoldable pub part_size : List ℕ → Card → ℕ
  unfolding size
  part_size hex c = elim (part_path hex) [ none ↦ 0 | some p ↦ or_zero (size s p c) ]

  unfoldable pub write_meta : UploadBegin → Card → Bool × Card
  unfolding encode_meta
  write_meta request c = elim (meta_path request.content_id_hex) [
    | none ↦ (false, c)
    | some p ↦ write_all p (encode_meta request) c
  ]

  unfoldable pub read_meta : List ℕ → Card → Option UploadBegin
  unfolding read decode_read
  read_meta hex c = elim (meta_path hex) [
    | none ↦ none
    | some p ↦ decode_read (read s p 0 meta_bytes c)
  ]

  -- remove(path), if there is a path; the result is ignored
  unfoldable pub remove_at : Option FilePath → Card → Card
  remove_at none c = c
  remove_at (some p) c = (remove p c).1

  unfoldable pub discard : List ℕ → Card → Card
  unfolding remove_at
  discard hex c = remove_at (meta_path hex) (remove_at (part_path hex) c)

  -- The bytes of a chunk go to the end of the .part file.
  unfoldable pub append_chunk : Option FilePath → ℕ → Bytes → Card → Reply × Card
  append_chunk none current chunk c =
      (record { error = bad_request; received = none; expected = some current }, c)
  append_chunk (some p) current chunk c =
      let (written, c1) = append p chunk c in
      if written
      then (accept (current + length chunk), c1)
      else (record { error = storage_error; received = none; expected = some current }, c1)

  -- writeChunk in an open session of `total` bytes whose .part file has `current`.
  unfoldable pub place_chunk : Option FilePath → ℕ → ℕ → ℕ → Bytes → Card → Reply × Card
  unfolding append_chunk
  place_chunk part current total offset chunk c =
      let stay : Error → Reply =
        λ e. record { error = e; received = none; expected = some current } in
      if ltb total offset || ltb (total - offset) (length chunk)
      then (stay size_mismatch, c)
      else if leb (offset + length chunk) current
      then (accept current, c)
      else if not (offset == current)
      then (stay offset_mismatch, c)
      else append_chunk part current chunk c

  -- writeChunk once the record of the session was read.
  unfoldable pub chunk_in_session :
      List ℕ → Option UploadBegin → ℕ → Bytes → ℕ → Card → Reply × Card
  unfolding place_chunk part_size discard expired
  chunk_in_session hex none offset chunk now_unix c = (refuse no_session, c)
  chunk_in_session hex (some meta) offset chunk now_unix c =
      if expired meta now_unix
      then (refuse no_session, discard hex c)
      else place_chunk (part_path hex) (part_size hex c) meta.size offset chunk c

  -- UploadManager::writeChunk
  unfoldable pub write_chunk : List ℕ → ℕ → Bytes → ℕ → Card → Reply × Card
  unfolding chunk_in_session read_meta
  write_chunk hex offset chunk now_unix c =
      if ltb max_chunk_bytes (length chunk)
      then (refuse chunk_too_large, c)
      else chunk_in_session hex (read_meta hex c) offset chunk now_unix c

  -- UploadManager::abort
  unfoldable pub abort : List ℕ → Card → Error × Card
  unfolding valid_hex_id read_meta discard
  abort hex c = if not (valid_hex_id hex) then (bad_request, c) else elim (read_meta hex c) [
    | none ↦ (no_session, discard hex c)
    | some meta ↦ (ok, discard hex c)
  ]

  -- The end of beginUpload: a fresh session. `expected` stands for expires_at_out.
  unfoldable pub open_fresh : UploadBegin → Option ℕ → Option ℕ → ℕ → Card → Reply × Card
  unfolding write_meta
  open_fresh request received deadline now_unix c =
      if ltb (free_bytes c) request.size
      then (record { error = no_space; received = received; expected = deadline }, c)
      else (let fresh : UploadBegin = record {
        content_id_hex = request.content_id_hex;
        content_version = request.content_version;
        type = request.type;
        size = request.size;
        payload_crc32 = request.payload_crc32;
        title = request.title;
        expires_at = if now_unix == 0 then 0 else (now_unix + session_expiry_seconds) % 2 ^ 32;
      } in
          let (written, c1) = write_meta fresh c in
          if written
          then (record { error = ok; received = some 0; expected = some fresh.expires_at }, c1)
          else (record { error = storage_error; received = received; expected = deadline }, c1))

  -- The `same` of beginUpload: the declarations agree.
  unfoldable pub agrees : UploadBegin → UploadBegin → Bool
  agrees existing request =
      existing.content_version == request.content_version
      && existing.size == request.size
      && existing.payload_crc32 == request.payload_crc32
      && existing.type == request.type

  -- A session that is not expired: resume it, or discard it and open another.
  unfoldable pub resume : UploadBegin → UploadBegin → ℕ → Card → Reply × Card
  unfolding agrees part_size discard open_fresh
  resume existing request now_unix c =
      let hex = request.content_id_hex in
      if agrees existing request
      then if ltb request.size (part_size hex c)
        then open_fresh request (some 0) (some existing.expires_at) now_unix (discard hex c)
        else (
          record {
            error = ok;
            received = some (part_size hex c);
            expected = some existing.expires_at;
          },
          c,
        )
      else open_fresh request none (some 0) now_unix (discard hex c)

  unfoldable pub begin_session : UploadBegin → Option UploadBegin → ℕ → Card → Reply × Card
  unfolding resume discard open_fresh expired
  begin_session request none now_unix c =
      open_fresh request none (some 0) now_unix (discard request.content_id_hex c)
  begin_session request (some existing) now_unix c =
      if expired existing now_unix
      then open_fresh request none (some 0) now_unix (discard request.content_id_hex c)
      else resume existing request now_unix c

  -- UploadManager::beginUpload; the reply's `expected` stands for expires_at_out
  unfoldable pub begin_upload : UploadBegin → ℕ → Card → Reply × Card
  unfolding begin_session valid_hex_id read_meta library_dir_for
  begin_upload request now_unix c =
      let reject : Reply = record { error = bad_request; received = none; expected = some 0 } in
      if not (valid_hex_id request.content_id_hex)
      then (reject, c)
      else if request.size == 0
      then (reject, c)
      else elim (library_dir_for request.type) [
        | none ↦ (reject, c)
        | some dir ↦
            if ltb 0xFFFFFFFF request.size
            then (reject, c)
            else (let c1 = (mkdirs upload_dir c).1 in
                begin_session request (read_meta request.content_id_hex c1) now_unix c1)
      ]
