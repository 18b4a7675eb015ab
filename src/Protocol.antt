-- ===== src/Protocol.antt =====
-- firmware/include/net/protocol.h and firmware/wifi/protocol.cpp: error codes, limits, package types.
use diy_ebook.Prelude.{
  ℕ, ◌≡◌, ◌⊎◌, inl, inr, refl, arith, Option, none, some, List, same, codes, if◌then◌else◌, ◌==◌,
}

pub data Error : Type 0 where
  ok bad_request unauthorized not_found offset_mismatch chunk_too_large size_mismatch : Error
  verify_failed package_rejected no_space no_session storage_error not_in_transfer_mode : Error

abbrev pub max_chunk_bytes : ℕ
max_chunk_bytes = 16384

abbrev pub session_expiry_seconds : ℕ
session_expiry_seconds = 900

abbrev pub content_id_hex_chars : ℕ
content_id_hex_chars = 32

abbrev pub title_max_bytes : ℕ
title_max_bytes = 96

-- ErrorCodeName
unfoldable pub error_code_name : Error → List ℕ
error_code_name ok = codes "OK"
error_code_name bad_request = codes "BAD_REQUEST"
error_code_name unauthorized = codes "UNAUTHORIZED"
error_code_name not_found = codes "NOT_FOUND"
error_code_name offset_mismatch = codes "OFFSET_MISMATCH"
error_code_name chunk_too_large = codes "CHUNK_TOO_LARGE"
error_code_name size_mismatch = codes "SIZE_MISMATCH"
error_code_name verify_failed = codes "VERIFY_FAILED"
error_code_name package_rejected = codes "PACKAGE_REJECTED"
error_code_name no_space = codes "NO_SPACE"
error_code_name no_session = codes "NO_SESSION"
error_code_name storage_error = codes "STORAGE_ERROR"
error_code_name not_in_transfer_mode = codes "NOT_IN_TRANSFER_MODE"

-- ErrorStatus
unfoldable pub error_status : Error → ℕ
error_status ok = 200
error_status unauthorized = 401
error_status not_found = 404
error_status no_session = 404
error_status offset_mismatch = 409
error_status chunk_too_large = 413
error_status size_mismatch = 422
error_status verify_failed = 422
error_status package_rejected = 422
error_status no_space = 507
error_status not_in_transfer_mode = 409
error_status storage_error = 507
error_status bad_request = 400

-- qpk::PackageType
abbrev pub type_quran : ℕ
type_quran = 1

abbrev pub type_book : ℕ
type_book = 2

abbrev pub type_translation : ℕ
type_translation = 3

abbrev pub type_tafsir : ℕ
type_tafsir = 4

-- PackageTypeFromName; 0 for a name that is none of them
unfoldable pub package_type_from_name : List ℕ → ℕ
unfolding same
package_type_from_name name =
    if same name (codes "QURAN")
    then type_quran
    else if same name (codes "BOOK")
    then type_book
    else if same name (codes "TRANSLATION")
    then type_translation
    else if same name (codes "TAFSIR")
    then type_tafsir
    else 0

-- PackageTypeName
unfoldable pub package_type_name : ℕ → List ℕ
package_type_name type =
    if type == type_quran
    then codes "QURAN"
    else if type == type_book
    then codes "BOOK"
    else if type == type_translation
    then codes "TRANSLATION"
    else if type == type_tafsir
    then codes "TAFSIR"
    else codes "UNKNOWN"

-- LibraryDirFor; nullptr is `none`
unfoldable pub library_dir_for : ℕ → Option (List ℕ)
library_dir_for type =
    if type == type_quran
    then some (codes "QURAN")
    else if type == type_book
    then some (codes "BOOKS")
    else if type == type_translation
    then some (codes "TRANSLATIONS")
    else if type == type_tafsir
    then some (codes "TAFSIR")
    else none

known_types :
    (type : ℕ) (dir : List ℕ)
    → library_dir_for type ≡ some dir
    → (type ≡ 1) ⊎ (type ≡ 2) ⊎ (type ≡ 3) ⊎ (type ≡ 4)
unfolding library_dir_for
known_types type dir h = ground arith

-- A package type that has a folder is read back from its name.
pub package_type_from_name-package_type_name :
    (type : ℕ) (dir : List ℕ)
    → library_dir_for type ≡ some dir
    → package_type_from_name (package_type_name type) ≡ type
unfolding package_type_from_name package_type_name same
package_type_from_name-package_type_name type dir h = elim (known_types type dir h) [
  | inl e ↦ rw e refl
  | inr (inl e) ↦ rw e refl
  | inr (inr (inl e)) ↦ rw e refl
  | inr (inr (inr e)) ↦ rw e refl
]
