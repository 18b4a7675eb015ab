-- ===== src/Storage.antt =====
-- firmware/include/hal/storage.h: the card, behind the contract of hal::IStorage. A write may fail;
-- what a failed call may leave behind is part of the contract. Reads are taken to be reliable.
pub mod Memory
pub mod Commit
use diy_ebook.Prelude.{
  ℕ, ◌≡◌, ◌≢◌, Bool, true, false, Option, none, some, List, [], ◌++◌, take, drop, length,
}
use diy_ebook.Qpk.ByteOrder.{Bytes}

abbrev pub FilePath : Type 0
FilePath = List ℕ

-- The bytes of a file that may be absent.
abbrev pub contents : Option Bytes → Bytes
contents none = []
contents (some b) = b

abbrev pub is_present : Option Bytes → Bool
is_present none = false
is_present (some b) = true

pub record Storage : Type 1 where
  pub Card : Type 0
  -- What a read of the whole file returns; `none` if there is no such file.
  pub file : Card → FilePath → Option Bytes
  pub remove : FilePath → Card → Bool × Card
  pub rename : FilePath → FilePath → Card → Bool × Card
  pub write_all : FilePath → Bytes → Card → Bool × Card
  pub append : FilePath → Bytes → Card → Bool × Card
  pub mkdirs : FilePath → Card → Bool × Card
  pub free_bytes : Card → ℕ
  -- An operation touches no file but those that it names.
  pub remove_other : (p q : FilePath) (c : Card) → q ≢ p → file (remove p c).1 q ≡ file c q
  pub rename_other :
      (p r q : FilePath) (c : Card) → q ≢ p → q ≢ r → file (rename p r c).1 q ≡ file c q
  pub write_all_other :
      (p q : FilePath) (b : Bytes) (c : Card) → q ≢ p → file (write_all p b c).1 q ≡ file c q
  pub append_other :
      (p q : FilePath) (b : Bytes) (c : Card) → q ≢ p → file (append p b c).1 q ≡ file c q
  pub mkdirs_other : (p q : FilePath) (c : Card) → file (mkdirs p c).1 q ≡ file c q
  -- What a call that returns true has done.
  pub remove_done : (p : FilePath) (c : Card) → (remove p c).0 ≡ true → file (remove p c).1 p ≡ none
  pub rename_done :
      (p r : FilePath) (c : Card)
      → p ≢ r
      → (rename p r c).0 ≡ true
      → (file (rename p r c).1 r ≡ file c p) × (file (rename p r c).1 p ≡ none)
  pub write_all_done :
      (p : FilePath) (b : Bytes) (c : Card)
      → (write_all p b c).0 ≡ true
      → file (write_all p b c).1 p ≡ some b
  pub append_done :
      (p : FilePath) (b : Bytes) (c : Card)
      → (append p b c).0 ≡ true
      → file (append p b c).1 p ≡ some (contents (file c p) ++ b)
  -- A removal or a renaming that returns false has done nothing; an append may have written a
  -- first part of its bytes.
  pub remove_failed :
      (p : FilePath) (c : Card) → (remove p c).0 ≡ false → file (remove p c).1 p ≡ file c p
  pub rename_failed :
      (p r q : FilePath) (c : Card) → (rename p r c).0 ≡ false → file (rename p r c).1 q ≡ file c q
  pub append_failed :
      (p : FilePath) (b : Bytes) (c : Card)
      → (append p b c).0 ≡ false
      → (n : ℕ) × (contents (file (append p b c).1 p) ≡ contents (file c p) ++ take n b)

unfoldable pub size_of : Option Bytes → Option ℕ
size_of none = none
size_of (some b) = some (length b)

unfoldable pub slice_of : ℕ → ℕ → Option Bytes → Option Bytes
slice_of offset n none = none
slice_of offset n (some b) = some (take n (drop offset b))

module _ (s : Storage) where
  open s use {Card, file}

  -- exists(path)
  unfoldable pub exists : FilePath → Card → Bool
  exists p c = is_present (file c p)

  -- size(path); -1 is `none`
  unfoldable pub size : FilePath → Card → Option ℕ
  unfolding size_of
  size p c = size_of (file c p)

  -- read(path, offset, length); -1 is `none`
  unfoldable pub read : FilePath → ℕ → ℕ → Card → Option Bytes
  unfolding slice_of
  read p offset n c = slice_of offset n (file c p)
