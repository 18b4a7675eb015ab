-- ===== src/Qpk/File.antt =====
-- hal::IFile of firmware/include/hal/storage.h, its readExact, and the file in memory of
-- firmware/include/qpk/memory_file.h.
pub mod Exact
use diy_ebook.Prelude.{
  ℕ, zero, suc, ◌+◌, ◌-◌, Bool, true, Option, none, some, [], ◌∷◌, ◌++◌, length, take, drop, leb,
  if◌then◌else◌,
}
use diy_ebook.Qpk.ByteOrder.{Bytes}

-- `read` is up to `length` bytes from `offset`; -1 is `none`. A read may be short.
pub record File : Type 0 where
  pub valid : Bool
  pub size : ℕ
  pub read : ℕ → ℕ → Option Bytes

abbrev pub put_in_front : Bytes → Option Bytes → Option Bytes
put_in_front b none = none
put_in_front b (some rest) = some (b ++ rest)

-- while (done < length): `rounds` bounds the loop, since a read of nothing ends it
unfoldable pub read_rounds : File → ℕ → ℕ → ℕ → Option Bytes
read_rounds f rounds offset zero = some []
read_rounds f zero offset (suc n) = none
read_rounds f (suc rounds) offset (suc n) = elim (f.read offset (suc n)) [
  | none ↦ none
  | some [] ↦ none
  | some (b ∷ more) ↦
      put_in_front (b ∷ more) (read_rounds f rounds (offset + suc (length more)) (n - length more))
]

-- IFile::readExact; false is `none`
unfoldable pub read_exact : File → ℕ → ℕ → Option Bytes
unfolding read_rounds
read_exact f offset n = read_rounds f n offset n

-- MemoryFile
unfoldable pub memory_file : Bytes → File
memory_file bytes = record {
  valid = true;
  size = length bytes;
  read =
      λ offset n. if leb (length bytes) offset then some [] else some (take n (drop offset bytes));
}
