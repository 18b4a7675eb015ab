-- ===== src/Qpk/Result.antt =====
-- qpk::Error of firmware/include/qpk/qpk_reader.h, and a value or an error. kOk is `ok`.
pub mod Success
use diy_ebook.Prelude.{ℕ, Bool, Option, none, some, List, codes, if◌then◌else◌}

pub data Error : Type 0 where
  not_open io_error too_small bad_magic unsupported_version bad_header_size header_checksum : Error
  size_mismatch bad_section_table section_misaligned section_out_of_range section_overlap : Error
  section_order section_size_mismatch missing_section section_checksum index_inconsistent : Error
  font_sections_required layout_section_required no_such_section out_of_range : Error

-- ErrorText
unfoldable pub error_text : Error → List ℕ
error_text not_open = codes "no package open"
error_text io_error = codes "read failed or short read"
error_text too_small = codes "file smaller than a header"
error_text bad_magic = codes "bad magic (not a QPK1 file)"
error_text unsupported_version = codes "unsupported format version"
error_text bad_header_size = codes "bad header_size"
error_text header_checksum = codes "header checksum mismatch"
error_text size_mismatch = codes "package_size != file size"
error_text bad_section_table = codes "bad section table"
error_text section_misaligned = codes "section offset not 4-byte aligned"
error_text section_out_of_range = codes "section runs past end of file"
error_text section_overlap = codes "sections overlap"
error_text section_order = codes "section ids not unique/ascending"
error_text section_size_mismatch = codes "section length != count * record_size"
error_text missing_section = codes "required section missing"
error_text section_checksum = codes "section checksum mismatch"
error_text index_inconsistent = codes "index records inconsistent"
error_text font_sections_required = codes "kFlagShapedTextData set without FONT_METADATA + ASSETS"
error_text layout_section_required = codes "kFlagHasWordLayout set without LAYOUT_DATA"
error_text no_such_section = codes "package has no such section"
error_text out_of_range = codes "record index out of range"

pub data Result {ℓ} (A : Type ℓ) : Type ℓ where
  ok : A → Result A
  err : Error → Result A

infixl 5 ◌>>=◌
abbrev pub ◌>>=◌ {ℓ κ} : {A : Type ℓ} {B : Type κ} → Result A → (A → Result B) → Result B
ok a >>= f = f a
err e >>= f = err e

-- A read, a look-up or a test that must succeed.
abbrev pub or_error : {A : Type 0} → Error → Option A → Result A
or_error e none = err e
or_error e (some a) = ok a

abbrev pub done : Result (Unit {0})
done = ok tt

-- if (failed) return e;
abbrev pub refuse_if : Bool → Error → Result (Unit {0})
refuse_if failed e = if failed then err e else done

infixl 5 ◌>>◌
abbrev pub ◌>>◌ {ℓ κ} : {A : Type ℓ} {B : Type κ} → Result A → Result B → Result B
ok a >> r = r
err e >> r = err e
