-- ===== src/Qpk/Reader/Checksums.antt =====
-- The checksums of firmware/qpk/qpk_reader.cpp: reading in chunks and the checksum of the bytes.
use diy_ebook.Prelude.{
  ℕ, zero, suc, ◌+◌, ◌-◌, ◌≤◌, ◌<◌, ◌≡◌, ◌↔◌, arith, refl, sym, ap, subst, ◌∙◌, Bool, not, length,
  ltb, ◌==◌, if◌then◌else◌,
}
use diy_ebook.Qpk.ByteOrder.{Bytes}
use diy_ebook.Qpk.Crc.{crc32, crc32_init, crc32_update, crc32_finish, crc32_update-append}
use diy_ebook.Qpk.File.{File}
use diy_ebook.Qpk.File.Exact.{IsFaithful, slice, slice-split, read_exact-inside}
use diy_ebook.Qpk.Result.{Result, ok, ◌>>=◌, ◌>>◌, done, refuse_if}
use diy_ebook.Qpk.Result
use diy_ebook.Qpk.Reader.{Reader}
use diy_ebook.Qpk.Reader.WellFormed.{open_package-IsWellFormed}
use diy_ebook.Qpk.Reader.Checks.{
  open_package, crc_chunks, crc_range, verify_range, verify_payload, crc_chunk_bytes,
}

-- The length of the next chunk.
abbrev chunk_length : ℕ → ℕ → ℕ
chunk_length chunk_bytes remaining = if ltb remaining chunk_bytes then remaining else chunk_bytes

module _ (f : File) (bytes : Bytes) (faithful : IsFaithful f bytes) where
  joined :
      (crc offset c n : ℕ)
      → c ≤ n
      → crc32_update (crc32_update crc (slice bytes offset c)) (slice bytes (offset + c) (n - c))
        ≡ crc32_update crc (slice bytes offset n)
  joined crc offset c n h =
      sym (crc32_update-append crc (slice bytes offset c) (slice bytes (offset + c) (n - c)))
      ∙ ap (crc32_update crc)
          (sym (slice-split bytes offset c (n - c)) ∙ ap (slice bytes offset) (omega arith))

module _ (f : File) (bytes : Bytes) (faithful : IsFaithful f bytes) (chunk_bytes : ℕ)
    (positive : 0 < chunk_bytes) where
  pub chunks_lem :
      (rounds offset remaining crc : ℕ)
      → remaining ≤ rounds
      → offset + remaining ≤ length bytes
      → crc_chunks f chunk_bytes rounds offset remaining crc
        ≡ ok (crc32_finish (crc32_update crc (slice bytes offset remaining)))
  unfolding crc_chunks
  chunks_lem rounds offset zero crc h inside = unfold crc32_update in refl
  chunks_lem zero offset (suc n) crc h inside = absurd (omega arith)
  chunks_lem (suc rounds) offset (suc n) crc h inside =
      let c = chunk_length chunk_bytes (suc n) in
      let small : c ≤ suc n = ground arith in
      let some_ : 0 < c = ground arith in
      let rest =
        chunks_lem rounds (offset + c) (suc n - c) (crc32_update crc (slice bytes offset c))
          (omega (arith, small, some_)) (omega (arith, small)) in
      rw (read_exact-inside f bytes faithful offset c (omega (arith, small)), rest)
        (ap (λ (t : ℕ). ok (crc32_finish t)) (joined f bytes faithful crc offset c (suc n) small))

pub crc_range_lem :
    (f : File) (bytes : Bytes)
    → IsFaithful f bytes
    → (offset n : ℕ) → offset + n ≤ length bytes
    → crc_range f offset n ≡ ok (crc32 (slice bytes offset n))
unfolding crc_range crc32
crc_range_lem f bytes faithful offset n inside =
    chunks_lem f bytes faithful crc_chunk_bytes (omega arith) n offset n crc32_init (omega arith)
      inside

compared :
    (actual declared : ℕ)
    → (refuse_if (not (actual == declared)) Result.section_checksum ≡ done) ↔ (actual ≡ declared)
compared actual declared = ground arith

verify_range-done :
    (f : File) (bytes : Bytes)
    → IsFaithful f bytes
    → (offset n declared : ℕ) → offset + n ≤ length bytes
    → (verify_range f offset n declared ≡ done) ↔ (crc32 (slice bytes offset n) ≡ declared)
unfolding verify_range
verify_range-done f bytes faithful offset n declared inside =
    subst
      (λ (t : Result ℕ).
        ((t >>= λ actual. refuse_if (not (actual == declared)) Result.section_checksum) ≡ done)
        ↔ (crc32 (slice bytes offset n) ≡ declared))
      (sym (crc_range_lem f bytes faithful offset n inside))
      (compared (crc32 (slice bytes offset n)) declared)

-- The bytes behind the header.
abbrev pub payload : Reader → Bytes → Bytes
payload r bytes = slice bytes r.header.size (length bytes - r.header.size)

-- For an opened package whose file gives its bytes, with short reads or without, verify_payload
-- accepts if and only if the checksum of the bytes behind the header is the declared one.
pub verify_payload-opened :
    (f : File) (bytes : Bytes) (verify : Bool) (r : Reader)
    → IsFaithful f bytes
    → open_package f verify ≡ ok r
    → (verify_payload r ≡ done) ↔ (crc32 (payload r bytes) ≡ r.header.payload_crc32)
unfolding verify_payload
verify_payload-opened f bytes verify r faithful opened_ =
    let sound = open_package-IsWellFormed f verify r opened_ in
    let head = sound.1.0 in
    let total : r.header.package_size ≡ length bytes =
      head.0 ∙ ap (λ (t : File). t.size) sound.0 ∙ faithful.0 in
    subst
      (λ (n : ℕ).
        (verify_range r.file r.header.size (n - r.header.size) r.header.payload_crc32 ≡ done)
        ↔ (crc32 (payload r bytes) ≡ r.header.payload_crc32))
      (sym total)
      (verify_range-done r.file bytes
        (subst (λ (t : File). IsFaithful t bytes) (sym sound.0) faithful) r.header.size
        (length bytes - r.header.size) r.header.payload_crc32
        (omega (arith, total, head.2, head.3)))
