-- ===== src/Library/Paths.antt =====
-- JoinPath, BuildLocation, BuildPackagePath and CopyUtf8Truncated of
-- firmware/storage/library_index.cpp.
use diy_ebook.Prelude.{
  ℕ, zero, suc, ◌-◌, ◌/◌, ◌≤◌, ◌<◌, ◌≡◌, sym, arith, Bool, false, Option, none, some, List, [],
  ◌++◌, length, take, get_or, ltb, ◌==◌, codes, if◌then◌else◌, length-take, take-all, subst,
}
use diy_ebook.Qpk.ByteOrder.{Bytes}
use diy_ebook.Storage.{FilePath}
use diy_ebook.Protocol.{library_dir_for}
use diy_ebook.Library.ContentId.{content_id_to_hex}

-- What is written for the part `p` when `room` characters fit before the NUL; the loops stop for
-- good when there is no room.
unfoldable pub join_path : ℕ → List ℕ → List ℕ → List ℕ → List ℕ
join_path capacity a b c = take (capacity - 1) (a ++ b ++ c)

-- BuildLocation into a buffer of 56: false is `none`
unfoldable pub build_location : ℕ → Bytes → Option FilePath
unfolding join_path content_id_to_hex
build_location type content_id = elim (library_dir_for type) [
  | none ↦ none
  | some dir ↦
      some (
        join_path 56 dir (codes "/")
          (join_path 40 (content_id_to_hex content_id) (codes ".qpk") []))
]

-- BuildPackagePath into a buffer of 96
unfoldable pub build_package_path : ℕ → Bytes → Option FilePath
unfolding build_location
build_package_path type content_id = elim (build_location type content_id) [
  | none ↦ none
  | some location ↦ some (join_path 96 (codes "/LIBRARY/") location [])
]

-- (src[limit] & 0xC0) == 0x80
abbrev pub is_continuation : ℕ → Bool
is_continuation b = b / 64 == 2

-- while (limit > 0 && is_continuation(src[limit])) --limit;
unfoldable pub back_off : List ℕ → ℕ → ℕ
back_off src zero = zero
back_off src (suc n) =
    let rest = back_off src n in if is_continuation (get_or src (suc n) 0) then rest else suc n

-- CopyUtf8Truncated: the bytes before the NUL
unfoldable pub copy_utf8_truncated : List ℕ → ℕ → List ℕ
unfolding back_off
copy_utf8_truncated src capacity =
    if ltb (capacity - 1) (length src) then take (back_off src (capacity - 1)) src else src

back_off-le : (src : List ℕ) (n : ℕ) → back_off src n ≤ n
unfolding back_off
back_off-le src zero = omega arith
back_off-le src (suc n) = ground (arith, back_off-le src n)

back_off-boundary :
    (src : List ℕ) (n : ℕ)
    → 0 < back_off src n
    → is_continuation (get_or src (back_off src n) 0) ≡ false
unfolding back_off
back_off-boundary src zero h = absurd (omega arith)
back_off-boundary src (suc n) h = ground (arith, back_off-boundary src n)

-- The copy of a text into a buffer that is not empty leaves room for the NUL and is a first part of
-- the source.
pub copy_utf8_truncated-prefix :
    (src : List ℕ) (capacity : ℕ)
    → 0 < capacity
    → (length (copy_utf8_truncated src capacity) < capacity)
      × (copy_utf8_truncated src capacity ≡ take (length (copy_utf8_truncated src capacity)) src)
unfolding copy_utf8_truncated
copy_utf8_truncated-prefix src capacity h = ground (
  arith,
  back_off-le src (capacity - 1),
  length-take (back_off src (capacity - 1)) src,
  take-all src,
)

copy_utf8_truncated-length :
    (src : List ℕ) (capacity : ℕ)
    → length (copy_utf8_truncated src capacity) < length src
    → length (copy_utf8_truncated src capacity) ≡ back_off src (capacity - 1)
unfolding copy_utf8_truncated
copy_utf8_truncated-length src capacity short =
    ground (arith, back_off-le src (capacity - 1), length-take (back_off src (capacity - 1)) src)

-- Where the copy of a text is not empty and stops short of its source, the first byte left out does
-- not continue a character.
pub copy_utf8_truncated-boundary :
    (src : List ℕ) (capacity : ℕ)
    → 0 < length (copy_utf8_truncated src capacity)
    → length (copy_utf8_truncated src capacity) < length src
    → is_continuation (get_or src (length (copy_utf8_truncated src capacity)) 0) ≡ false
copy_utf8_truncated-boundary src capacity some_copied short =
    let e = copy_utf8_truncated-length src capacity short in
    subst (λ n. is_continuation (get_or src n 0) ≡ false) (sym e)
      (back_off-boundary src (capacity - 1) (subst (λ n. 0 < n) e some_copied))
