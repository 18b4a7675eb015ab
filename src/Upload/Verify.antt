-- ===== src/Upload/Verify.antt =====
-- The checksum that UploadManager::finish of firmware/wifi/upload_manager.cpp verifies.
use diy_ebook.Prelude.{
  ℕ, ◌-◌, ◌≤◌, ◌≡◌, inl, inr, refl, sym, ap, subst, ◌∙◌, arith, Bool, true, false, not, Option,
  none, some, length, take, drop, ltb, leb, ◌==◌, ◌&&◌, Bool-cases, ==_iff,
}
use diy_ebook.Qpk.ByteOrder.{Bytes, read16, read32, read64}
use diy_ebook.Qpk.Crc.{crc32, crc32_init}
use diy_ebook.Qpk.File.{memory_file, read_exact}
use diy_ebook.Qpk.File.Exact.{slice, range, read_exact_lem, memory_file-IsFaithful}
use diy_ebook.Qpk.Result.{Result}
use diy_ebook.Qpk.Reader.{is_package}
use diy_ebook.Qpk.Reader.Checks.{crc_chunks}
use diy_ebook.Qpk.Reader.Checksums.{chunks_lem}
use mathlib.Core.Bool.{false≢true}
use diy_ebook.Upload.InLibrary.{some-inj, none≢some}
use diy_ebook.Upload.Meta.{UploadBegin}
use diy_ebook.Upload.Finish.{is_declared, is_crc, verify_header, verify_part, part_chunk_bytes}

and-true : (a b : Bool) → (a && b) ≡ true → (a ≡ true) × (b ≡ true)
and-true a b h = ground arith

-- Where the bytes behind the header start, and their checksum.
abbrev pub payload_start : Bytes → ℕ
payload_start bytes = read16 (drop 6 (slice bytes 0 64))

abbrev pub payload_crc : Bytes → ℕ
payload_crc bytes = crc32 (slice bytes (payload_start bytes) (length bytes - payload_start bytes))

not_less_true : (a b : ℕ) → not (ltb a b) ≡ true → b ≤ a
not_less_true a b h = ground arith

fourth_and_last :
    (a b c d e f g : Bool) → (a && b && c && d && e && f && g) ≡ true → (d ≡ true) × (g ≡ true)
fourth_and_last a b c d e f g h = ground arith

is_declared-sizes :
    (meta : UploadBegin) (b : Bytes)
    → is_declared meta b ≡ true
    → (read16 (drop 6 b) ≤ meta.size) × (read32 (drop 52 b) ≡ meta.payload_crc32)
unfolding is_declared
is_declared-sizes meta b h =
    let parts =
      fourth_and_last (is_package b) (read16 (drop 4 b) == 1) (not (ltb (read16 (drop 6 b)) 64))
        (not (ltb meta.size (read16 (drop 6 b)))) (crc32 (take 60 b) == read32 (drop 60 b))
        (read64 (drop 16 b) == meta.size) (read32 (drop 52 b) == meta.payload_crc32) h in
    (
      not_less_true meta.size (read16 (drop 6 b)) parts.0,
      (==_iff (read32 (drop 52 b)) meta.payload_crc32).0 parts.1,
    )

-- The loop over the payload, on a file of exactly the declared size.
payload_read :
    (bytes : Bytes) (size : ℕ)
    → length bytes ≡ size
    → payload_start bytes ≤ size
    → crc_chunks
        (memory_file bytes)
        part_chunk_bytes
        (size - payload_start bytes)
        (payload_start bytes)
        (size - payload_start bytes)
        crc32_init
      ≡ Result.ok (payload_crc bytes)
unfolding crc32
payload_read bytes size full fits =
    chunks_lem (memory_file bytes) bytes (memory_file-IsFaithful bytes) part_chunk_bytes
      (omega arith) (size - payload_start bytes) (payload_start bytes) (size - payload_start bytes)
      crc32_init (omega arith) (omega (arith, full, fits))
    ∙ ap
        (λ (n : ℕ). Result.ok (crc32 (slice bytes (payload_start bytes) (n - payload_start bytes))))
        (sym full)

header_crc :
    (bytes : Bytes) (meta : UploadBegin)
    → length bytes ≡ meta.size
    → verify_header (memory_file bytes) meta (slice bytes 0 64) ≡ true
    → payload_crc bytes ≡ meta.payload_crc32
unfolding verify_header
header_crc bytes meta full h =
    let start = payload_start bytes in
    let parts = and-true (is_declared meta (slice bytes 0 64)) _ h in
    let sizes = is_declared-sizes meta (slice bytes 0 64) parts.0 in
    let read_ = payload_read bytes meta.size full sizes.0 in
    let equal =
      subst (λ (t : Result ℕ). is_crc (read32 (drop 52 (slice bytes 0 64))) t ≡ true) read_
        parts.1 in
    (==_iff (payload_crc bytes) (read32 (drop 52 (slice bytes 0 64)))).0 equal ∙ sizes.1

after_header :
    (bytes : Bytes) (meta : UploadBegin)
    → length bytes ≡ meta.size
    → (head : Option Bytes) → head ≡ range bytes 0 64
    → (elim head [ none ↦ false | some b ↦ verify_header (memory_file bytes) meta b ]) ≡ true
    → payload_crc bytes ≡ meta.payload_crc32
after_header bytes meta full none e h = absurd (false≢true h)
after_header bytes meta full (some b) e h = elim (Bool-cases (leb 64 (length bytes - 0))) [
  | inl t ↦ header_crc bytes meta full (
      subst (λ (x : Bytes). verify_header (memory_file bytes) meta x ≡ true)
        (some-inj b _ (e ∙ rw t refl)) h)
  | inr t ↦ absurd (none≢some b (sym (e ∙ rw t refl)))
]

pub verify_part-crc :
    (bytes : Bytes) (meta : UploadBegin)
    → length bytes ≡ meta.size
    → verify_part (memory_file bytes) meta ≡ true
    → payload_crc bytes ≡ meta.payload_crc32
unfolding verify_part
verify_part-crc bytes meta full h =
    after_header bytes meta full (read_exact (memory_file bytes) 0 64)
      (read_exact_lem (memory_file bytes) bytes (memory_file-IsFaithful bytes) 0 64) h
