-- ===== src/Library/Index.antt =====
-- The entries of LibraryIndex (firmware/include/net/library_index.h, firmware/storage/library_index.cpp)
-- and their look-up, replacement and removal. Texts are their whole buffers.
pub mod Laws
use diy_ebook.Prelude.{
  ℕ, zero, suc, ◌+◌, Bool, true, false, Option, none, some, List, [], ◌∷◌, if◌then◌else◌, set, same,
  ltb, leb, get_elem?, replicate,
}
use diy_ebook.Qpk.ByteOrder.{Bytes}
use diy_ebook.Slots.{Slots, find_slot, remove_at}

abbrev pub max_library_entries : ℕ
max_library_entries = 96

pub record LibraryEntry : Type 0 where
  pub content_id : Bytes
  pub content_version : ℕ
  pub package_size : ℕ
  pub payload_crc32 : ℕ
  pub installed_at : ℕ
  pub type : ℕ
  pub flags : ℕ
  pub title : Bytes
  pub author : Bytes
  pub language : Bytes

-- memcmp(entries_[i].content_id, content_id, 16) == 0
unfoldable pub has_id : Bytes → LibraryEntry → Bool
unfolding same
has_id id entry = same entry.content_id id

-- for (i = 0; i < count; ++i) if (p(entries[i])) return &entries[i];  nullptr is `none`
unfoldable pub first_entry : (LibraryEntry → Bool) → ℕ → List LibraryEntry → Option LibraryEntry
first_entry p zero entries = none
first_entry p (suc n) [] = none
first_entry p (suc n) (x ∷ entries) = if p x then some x else first_entry p n entries

-- LibraryIndex::at
unfoldable pub entry : ℕ → Slots LibraryEntry → Option LibraryEntry
entry index s = if ltb index s.count then get_elem? s.items index else none

-- LibraryIndex::find
unfoldable pub find : Bytes → Slots LibraryEntry → Option LibraryEntry
unfolding first_entry
find id s = first_entry (has_id id) s.count s.items

-- LibraryIndex::upsert; `i` is where the loop stops
unfoldable pub upsert : LibraryEntry → Slots LibraryEntry → Slots LibraryEntry × Bool
upsert e s =
    let i = find_slot (has_id e.content_id) s.count s.items in
    if ltb i s.count
    then (record s { items = set s.items i e }, true)
    else if leb max_library_entries s.count
    then (s, false)
    else (record { items = set s.items s.count e; count = s.count + 1 }, true)

-- A `LibraryEntry` with no initialiser.
abbrev pub blank : LibraryEntry
blank = record {
  content_id = replicate 16 0;
  content_version = 0;
  package_size = 0;
  payload_crc32 = 0;
  installed_at = 0;
  type = 0;
  flags = 0;
  title = replicate 96 0;
  author = replicate 64 0;
  language = replicate 16 0;
}

-- LibraryIndex::remove
unfoldable pub remove : Bytes → Slots LibraryEntry → Slots LibraryEntry × Bool
unfolding remove_at
remove id s = remove_at blank (find_slot (has_id id) s.count s.items) s
