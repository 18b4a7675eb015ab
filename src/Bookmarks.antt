-- ===== src/Bookmarks.antt =====
-- firmware/include/net/bookmarks.h and firmware/storage/bookmarks.cpp: /USER/bookmarks.bin.
pub mod File
pub mod Laws
use diy_ebook.Prelude.{
  ℕ, Bool, Option, none, [], ◌∷◌, replicate, get_elem?, take, drop, same, ltb, ◌==◌, ◌&&◌, codes,
  if◌then◌else◌,
}
use diy_ebook.Qpk.ByteOrder.{Bytes, at, read32, write32, store}
use diy_ebook.Storage.{FilePath}
use diy_ebook.Slots.{Slots, add_front, remove_at, any_slot}

abbrev pub max_bookmarks : ℕ
max_bookmarks = 64

-- `kind` is the byte of BookmarkKind; `load` does not check it.
pub record Bookmark : Type 0 where
  pub content_id : Bytes
  pub kind : ℕ
  pub a : ℕ
  pub b : ℕ
  pub c : ℕ
  pub created_unix : ℕ

-- BookmarkKind
abbrev pub kind_quran : ℕ
kind_quran = 1

abbrev pub kind_page_book : ℕ
kind_page_book = 2

abbrev pub kind_text_book : ℕ
kind_text_book = 3

-- The value of a `Bookmark` with no initialiser.
abbrev pub blank : Bookmark
blank = record {
  content_id = replicate 16 0;
  kind = kind_page_book;
  a = 0;
  b = 0;
  c = 0;
  created_unix = 0;
}

abbrev pub path : FilePath
path = codes "/USER/bookmarks.bin"

abbrev pub temp_path : FilePath
temp_path = codes "/USER/bookmarks.tmp"

unfoldable pub same_place : Bookmark → Bookmark → Bool
same_place x y =
    same x.content_id y.content_id && x.kind == y.kind && x.a == y.a && x.b == y.b && x.c == y.c

-- The 36 bytes that `save` writes for a bookmark.
unfoldable pub encode_record : Bookmark → Bytes
unfolding write32
encode_record item = store 32 (write32 item.created_unix) (
    store 28 (write32 item.c) (
      store 24 (write32 item.b) (
        store 20 (write32 item.a)
          (store 16 (item.kind ∷ []) (store 0 item.content_id (replicate 36 0))))))

-- What `load` reads from a record.
unfoldable pub decode_record : Bytes → Bookmark
decode_record r = record {
  content_id = take 16 r;
  kind = at r 16;
  a = read32 (drop 20 r);
  b = read32 (drop 24 r);
  c = read32 (drop 28 r);
  created_unix = read32 (drop 32 r);
}

unfoldable pub add : Bookmark → Slots Bookmark → Slots Bookmark
unfolding add_front
add bookmark s = add_front max_bookmarks blank (λ x. same_place x bookmark) bookmark s

unfoldable pub remove_index : ℕ → Slots Bookmark → Slots Bookmark × Bool
unfolding remove_at
remove_index index s = remove_at blank index s

unfoldable pub contains : Bookmark → Slots Bookmark → Bool
unfolding any_slot
contains bookmark s = any_slot (λ x. same_place x bookmark) s.count s.items

-- at(index); nullptr is `none`
unfoldable pub entry_at : ℕ → Slots Bookmark → Option Bookmark
entry_at index s = if ltb index s.count then get_elem? s.items index else none
