-- ===== src/Library/IndexFile.antt =====
-- The file of the library index: load and save of firmware/storage/library_index.cpp.
pub mod Other
use diy_ebook.Prelude.{
  ℕ, zero, suc, ◌+◌, ◌-◌, ◌*◌, Bool, true, false, not, Option, none, some, List, [], ◌∷◌, ◌++◌,
  replicate, take, drop, set, ltb, ◌==◌, ◌&&◌, codes, if◌then◌else◌,
}
use diy_ebook.Qpk.ByteOrder.{Bytes, read16, read32, read64, write16, write32, write64, store, at}
use diy_ebook.Qpk.Crc.{crc32, crc32_init, crc32_update, crc32_finish}
use diy_ebook.Qpk.File.{File, read_exact}
use diy_ebook.Storage.{Storage, FilePath}
use diy_ebook.Slots.{Slots, listed}
use diy_ebook.Library.Index.{LibraryEntry, max_library_entries}
use diy_ebook.Library.Describe.{open_file}

abbrev pub index_path : FilePath
index_path = codes "/LIBRARY/library_index.bin"

abbrev pub index_temp_path : FilePath
index_temp_path = codes "/LIBRARY/library_index.tmp"

-- kLibraryIndexHeaderSize, kLibraryEntrySize, kLibraryIndexVersion
abbrev pub index_header_size : ℕ
index_header_size = 32

abbrev pub entry_size : ℕ
entry_size = 256

abbrev pub index_version : ℕ
index_version = 1

-- EncodeEntry
unfoldable pub encode_entry : LibraryEntry → Bytes
unfolding write16 write32 write64
encode_entry e = store 0 e.content_id (
    store 16 (write32 e.content_version) (
      store 20 (write64 e.package_size) (
        store 28 (write32 e.payload_crc32) (
          store 32 (write32 e.installed_at) (
            store 36 (write16 e.type) (
              store 38 (write16 e.flags) (
                store 40 e.title
                  (store 136 e.author (store 200 e.language (replicate entry_size 0))))))))))

-- The last byte of a text is set to NUL.
abbrev pub closed : ℕ → Bytes → Bytes
closed capacity text = set text (capacity - 1) 0

-- DecodeEntry
unfoldable pub decode_entry : Bytes → LibraryEntry
decode_entry b = record {
  content_id = take 16 b;
  content_version = read32 (drop 16 b);
  package_size = read64 (drop 20 b);
  payload_crc32 = read32 (drop 28 b);
  installed_at = read32 (drop 32 b);
  type = read16 (drop 36 b);
  flags = read16 (drop 38 b);
  title = closed 96 (take 96 (drop 40 b));
  author = closed 64 (take 64 (drop 136 b));
  language = closed 16 (take 16 (drop 200 b));
}

-- The checksum of the entries, one behind another.
unfoldable pub entries_crc : ℕ → List LibraryEntry → ℕ
unfolding encode_entry crc32_update crc32_finish
entries_crc crc [] = crc32_finish crc
entries_crc crc (e ∷ entries) = entries_crc (crc32_update crc (encode_entry e)) entries

-- The header up to its own checksum.
unfoldable pub header_fields : Slots LibraryEntry → Bytes
unfolding write16 write32 write64 entries_crc
header_fields index = store 0 (codes "LIB1") (
    store 4 (write16 index_version) (
      store 6 (write16 index_header_size) (
        store 8 (write16 index.count) (
          store 10 (write16 entry_size) (
            store 12 (write32 (entries_crc crc32_init (listed index))) (
              store 16 (write64 (index_header_size + index.count * entry_size))
                (replicate 28 0)))))))

unfoldable pub index_header : Slots LibraryEntry → Bytes
unfolding header_fields crc32 write32
index_header index = header_fields index ++ write32 (crc32 (header_fields index))

-- The tests of load on the header.
unfoldable pub is_index_header : ℕ → Bytes → Bool
unfolding crc32
is_index_header file_size b =
    at b 0 == b'L'
    && at b 1 == b'I'
    && at b 2 == b'B'
    && at b 3 == b'1'
    && read16 (drop 4 b) == index_version
    && read16 (drop 6 b) == index_header_size
    && crc32 (take 28 b) == read32 (drop 28 b)
    && read16 (drop 10 b) == entry_size
    && not (ltb max_library_entries (read16 (drop 8 b)))
    && read64 (drop 16 b) == index_header_size + read16 (drop 8 b) * entry_size
    && file_size == index_header_size + read16 (drop 8 b) * entry_size

-- for (i = 0; i < entry_count; ++i), with `n` entries left: the array, and the checksum if all
-- entries were read
unfoldable pub load_entries : File → ℕ → ℕ → List LibraryEntry → ℕ → List LibraryEntry × Option ℕ
unfolding read_exact decode_entry crc32_update
load_entries f zero i items crc = (items, some crc)
load_entries f (suc n) i items crc =
    elim (read_exact f (index_header_size + i * entry_size) entry_size) [
      | none ↦ (items, none)
      | some b ↦ load_entries f n (i + 1) (set items i (decode_entry b)) (crc32_update crc b)
    ]

abbrev pub has_crc : ℕ → Option ℕ → Bool
has_crc declared none = false
has_crc declared (some crc) = crc32_finish crc == declared

-- load once the header was read
unfoldable pub load_body : File → Bytes → List LibraryEntry → Slots LibraryEntry × Bool
unfolding is_index_header load_entries crc32_finish
load_body f b items =
    if not (is_index_header f.size b)
    then (record { items = items; count = 0 }, false)
    else (let (loaded, crc) = load_entries f (read16 (drop 8 b)) 0 items crc32_init in
        if has_crc (read32 (drop 12 b)) crc
        then (record { items = loaded; count = read16 (drop 8 b) }, true)
        else (record { items = loaded; count = 0 }, false))

unfoldable pub load_file : File → List LibraryEntry → Slots LibraryEntry × Bool
unfolding load_body read_exact
load_file f items =
    if ltb f.size index_header_size
    then (record { items = items; count = 0 }, false)
    else elim (read_exact f 0 index_header_size) [
      | none ↦ (record { items = items; count = 0 }, false)
      | some b ↦ load_body f b items
    ]

module _ (s : Storage) where
  open s use {Card, file, remove, rename, write_all, append}

  -- LibraryIndex::load
  unfoldable pub load : Card → Slots LibraryEntry → Slots LibraryEntry × Bool
  unfolding load_file open_file
  load c index = elim (open_file s index_path c) [
    | none ↦ (record index { count = 0 }, false)
    | some f ↦ load_file f index.items
  ]

  -- The entries are appended; on a failure the temporary file is removed.
  unfoldable pub append_entries : List LibraryEntry → Card → Bool × Card
  unfolding encode_entry
  append_entries [] c = (true, c)
  append_entries (e ∷ entries) c =
      let (written, c1) = append index_temp_path (encode_entry e) c in
      elim written [
        | true ↦ append_entries entries c1
        | false ↦ (false, (remove index_temp_path c1).1)
      ]

  -- What follows when the temporary file is complete.
  unfoldable pub commit_index : Card → Bool × Card
  commit_index c =
      let (moved, c1) = rename index_temp_path index_path (remove index_path c).1 in
      if moved then (true, c1) else (false, (remove index_temp_path c1).1)

  -- LibraryIndex::save
  unfoldable pub save : Slots LibraryEntry → Card → Bool × Card
  unfolding append_entries commit_index index_header
  save index c =
      let (written, c1) =
        write_all index_temp_path (index_header index) (remove index_temp_path c).1 in
      if written
      then (let (appended, c2) = append_entries (listed index) c1 in
          if appended then commit_index c2 else (false, c2))
      else (false, c1)
