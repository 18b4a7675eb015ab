-- ===== src/Library/Describe.antt =====
-- LibraryIndex::describePackage, prune and rebuild of firmware/storage/library_index.cpp.
use diy_ebook.Prelude.{
  ℕ, zero, suc, ◌+◌, ◌-◌, ◌%◌, ◌^◌, Bool, true, false, Option, none, some, List, [], ◌∷◌, ◌++◌,
  length, replicate, drop, same, ltb, ◌&&◌, codes, get_elem?, if◌then◌else◌,
}
use diy_ebook.Qpk.ByteOrder.{Bytes}
use diy_ebook.Qpk.File.{File, memory_file}
use diy_ebook.Qpk.Result.{Result, ok, err}
use diy_ebook.Qpk.Reader.{Reader}
use diy_ebook.Qpk.Reader.Checks.{open_package}
use diy_ebook.Qpk.Reader.Blobs.{Metadata, metadata}
use diy_ebook.Storage.{Storage, FilePath, exists}
use diy_ebook.Slots.{Slots, remove_at}
use diy_ebook.Library.Paths.{join_path, build_package_path, copy_utf8_truncated}
use diy_ebook.Library.Index.{LibraryEntry, blank, upsert}

-- EndsWith
unfoldable pub ends_with : List ℕ → List ℕ → Bool
unfolding same
ends_with text suffix =
    if ltb (length text) (length suffix)
    then false
    else same (drop (length text - length suffix) text) suffix

-- A buffer of zeros with a text at its start.
abbrev pub buffer : ℕ → List ℕ → Bytes
buffer capacity text = text ++ replicate (capacity - length text) 0

-- What is copied of a value that was read into the scratch buffer; where there is none the buffer
-- stays zero.
unfoldable pub text_of : ℕ → Option Metadata → Bytes
unfolding copy_utf8_truncated
text_of capacity none = buffer capacity []
text_of capacity (some m) = buffer capacity (copy_utf8_truncated m.value capacity)

-- sizeof(scratch)
abbrev pub scratch_bytes : ℕ
scratch_bytes = 192

-- The entry of an open package.
unfoldable pub describe_reader : Reader → LibraryEntry
unfolding text_of metadata
describe_reader r = record {
  content_id = r.header.content_id;
  content_version = r.header.content_version;
  package_size = r.header.package_size;
  payload_crc32 = r.header.payload_crc32;
  installed_at = 0;
  type = r.header.package_type;
  flags = r.header.flags % 2 ^ 16;
  title = text_of 96 (metadata r 1 scratch_bytes);
  author = text_of 64 (metadata r 2 scratch_bytes);
  language = text_of 16 (metadata r 3 scratch_bytes);
}

abbrev pub described : Result Reader → Option LibraryEntry
described (err e) = none
described (ok r) = some (describe_reader r)

-- The part of describePackage on an open file.
unfoldable pub describe_file : File → Option LibraryEntry
unfolding describe_reader open_package
describe_file f = described (open_package f true)

abbrev pub is_described : Option LibraryEntry → Bool
is_described none = false
is_described (some e) = true

module _ (s : Storage) where
  open s use {Card, file}

  -- open(path); nullptr is `none`
  unfoldable pub open_file : FilePath → Card → Option File
  unfolding memory_file
  open_file p c = elim (file c p) [ none ↦ none | some b ↦ some (memory_file b) ]

  -- LibraryIndex::describePackage; false is `none`
  unfoldable pub describe_package : FilePath → Card → Option LibraryEntry
  unfolding open_file describe_file
  describe_package p c = elim (open_file p c) [ none ↦ none | some f ↦ describe_file f ]

  -- The `keep` of prune.
  unfoldable pub is_kept : Card → LibraryEntry → Bool
  unfolding build_package_path exists describe_package
  is_kept c e = elim (build_package_path e.type e.content_id) [
    | none ↦ false
    | some p ↦ exists s p c && is_described (describe_package p c)
  ]

  abbrev pub kept_at : Card → Option LibraryEntry → Bool
  kept_at c none = true
  kept_at c (some e) = is_kept c e

  -- for (i = count_; i > 0; --i): the index and how many entries were dropped
  unfoldable pub prune_below : Card → ℕ → ℕ → Slots LibraryEntry → Slots LibraryEntry × ℕ
  unfolding is_kept remove_at
  prune_below c zero dropped index = (index, dropped)
  prune_below c (suc i) dropped index = elim (kept_at c (get_elem? index.items i)) [
    | true ↦ prune_below c i dropped index
    | false ↦ prune_below c i (dropped + 1) (remove_at blank i index).0
  ]

  -- LibraryIndex::prune
  unfoldable pub prune : Card → Slots LibraryEntry → Slots LibraryEntry × ℕ
  unfolding prune_below
  prune c index = prune_below c index.count 0 index

  -- while (handle->next(...)) over the names that the directory still has
  unfoldable pub add_described :
      FilePath → List FilePath → Card → Slots LibraryEntry → Slots LibraryEntry
  unfolding ends_with describe_package upsert join_path
  add_described dir [] c index = index
  add_described dir (name ∷ names) c index = elim (ends_with name (codes ".qpk")) [
    | false ↦ add_described dir names c index
    | true ↦ elim (describe_package (join_path 112 dir (codes "/") name) c) [
      | none ↦ add_described dir names c index
      | some e ↦ elim (upsert e index).1 [
        | false ↦ (upsert e index).0
        | true ↦ add_described dir names c (upsert e index).0
      ]
    ]
  ]

  -- for (dir : kDirs); a directory that does not open is skipped. `list` is what a directory of the
  -- card has.
  unfoldable pub add_all :
      (Card → FilePath → Option (List FilePath))
      → List (List ℕ)
      → Card
      → Slots LibraryEntry
      → Slots LibraryEntry
  unfolding add_described join_path
  add_all list [] c index = index
  add_all list (dir ∷ dirs) c index =
      let path = join_path 48 (codes "/LIBRARY/") dir [] in
      add_all list dirs c
        (elim (list c path) [ none ↦ index | some names ↦ add_described path names c index ])

  -- LibraryIndex::rebuild
  unfoldable pub rebuild :
      (Card → FilePath → Option (List FilePath)) → Card → Slots LibraryEntry → Slots LibraryEntry
  unfolding add_all
  rebuild list c index =
      add_all list (codes "QURAN" ∷ codes "BOOKS" ∷ codes "TRANSLATIONS" ∷ codes "TAFSIR" ∷ []) c
        (record index { count = 0 })
