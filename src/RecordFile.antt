-- ===== src/RecordFile.antt =====
-- The small files of fixed-size records: a 12-byte header (magic, version u16, count u16, CRC-32
-- over the records) and the records. storage/bookmarks.cpp and storage/verified_packages.cpp share
-- this layout, its checks and its .tmp-then-rename save; they differ in `Format`.
pub mod RoundTrip
use diy_ebook.Prelude.{
  ℕ, zero, suc, ◌+◌, ◌*◌, ◌^◌, ◌<◌, ◌≡◌, ◌≢◌, Bool, Option, none, some, List, [], ◌∷◌, ◌++◌, take,
  drop, length, if◌then◌else◌, ltb, leb, ◌==◌, ◌&&◌, ◌||◌, not, All,
}
use diy_ebook.Qpk.ByteOrder.{Bytes, IsByte, at, read16, read32, write16, write32}
use diy_ebook.Qpk.Crc.{crc32}
use diy_ebook.Storage.{Storage, FilePath, read, size}
use diy_ebook.Storage.Commit.{rewrite_file}
use diy_ebook.Slots.{Slots, listed}

-- What is particular to one file.
pub record Format (A : Type 0) : Type 1 where
  pub magic0 : ℕ
  pub magic1 : ℕ
  pub magic2 : ℕ
  pub magic3 : ℕ
  pub record_bytes : ℕ
  pub capacity : ℕ
  pub path : FilePath
  pub temp_path : FilePath
  pub encode : A → Bytes
  pub decode : Bytes → A
  -- The values that the fields of a record can hold.
  pub Fits : A → Type 0

-- kHeaderBytes, kVersion
abbrev pub header_bytes : ℕ
header_bytes = 12

abbrev pub version : ℕ
version = 1

module _ {A : Type 0} (f : Format A) where
  unfoldable pub encode_all : List A → Bytes
  encode_all [] = []
  encode_all (x ∷ xs) = f.encode x ++ encode_all xs

  -- for (i = 0; i < count; ++i), the pointer moved on by a record each time
  unfoldable pub decode_all : ℕ → Bytes → List A
  decode_all zero r = []
  decode_all (suc n) r = f.decode r ∷ decode_all n (drop f.record_bytes r)

  unfoldable pub header : ℕ → Bytes → Bytes
  header count records =
      f.magic0 ∷ f.magic1 ∷ f.magic2 ∷ f.magic3 ∷ write16 version
      ++ write16 count
      ++ write32 (crc32 records)

  unfoldable pub file_bytes : List A → Bytes
  unfolding encode_all header
  file_bytes xs = header (length xs) (encode_all xs) ++ encode_all xs

  unfoldable pub has_magic : Bytes → Bool
  has_magic b = at b 0 == f.magic0 && at b 1 == f.magic1 && at b 2 == f.magic2 && at b 3 == f.magic3

  -- The checks of `load` on a file of acceptable size; `none` is an early return.
  unfoldable pub parse : Bytes → Option (List A)
  unfolding has_magic decode_all
  parse b =
      let count = read16 (drop 6 b) in
      let records = drop header_bytes b in
      if not (has_magic b)
      then none
      else if not (read16 (drop 4 b) == version)
      then none
      else if ltb f.capacity count || not (length b == header_bytes + count * f.record_bytes)
      then none
      else if not (crc32 (take (count * f.record_bytes) records) == read32 (drop 8 b))
      then none
      else some (decode_all count records)

  -- size < kHeaderBytes || size > sizeof(g_file), negated
  unfoldable pub acceptable : ℕ → Bool
  acceptable n = leb header_bytes n && leb n (header_bytes + f.capacity * f.record_bytes)

  unfoldable pub parse_read : ℕ → Option Bytes → Option (List A)
  unfolding parse
  parse_read n none = none
  parse_read n (some b) = if length b == n then parse b else none

  unfoldable pub load_sized : (s : Storage) → s.Card → Option ℕ → Option (List A)
  unfolding acceptable parse_read read
  load_sized s c none = none
  load_sized s c (some n) = if acceptable n then parse_read n (read s f.path 0 n c) else none

  -- The records in the file of the card; `none` if it is absent or damaged.
  unfoldable pub load_records : (s : Storage) → s.Card → Option (List A)
  unfolding load_sized size
  load_records s c = load_sized s c (size s f.path c)

  unfoldable pub fill : Option (List A) → Slots A → Slots A
  fill none slots = record slots { count = 0 }
  fill (some xs) slots = record { items = xs ++ drop (length xs) slots.items; count = length xs }

  unfoldable pub load : (s : Storage) → Slots A → s.Card → Slots A
  unfolding load_records fill
  load s slots c = fill (load_records s c) slots

  unfoldable pub save : (s : Storage) → Slots A → s.Card → Bool × s.Card
  unfolding file_bytes rewrite_file
  save s slots c = rewrite_file s f.temp_path f.path (file_bytes (listed slots)) c

-- What makes the file of a format readable.
pub record IsLawful {A : Type 0} (f : Format A) : Type 0 where
  pub length_encode : (x : A) → f.Fits x → length (f.encode x) ≡ f.record_bytes
  pub encode_bytes : (x : A) → f.Fits x → All IsByte (f.encode x)
  pub decode_encode : (x : A) (rest : Bytes) → f.Fits x → f.decode (f.encode x ++ rest) ≡ x
  pub capacity_fits : f.capacity < 2 ^ 16
  pub apart : f.temp_path ≢ f.path
