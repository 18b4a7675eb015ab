-- ===== src/Upload/Meta.antt =====
-- The .meta file of a session: writeMeta and readMeta of firmware/wifi/upload_manager.cpp.
use diy_ebook.Prelude.{
  ℕ, zero, suc, ◌-◌, ◌^◌, ◌<◌, ◌≡◌, refl, ap, ◌∙◌, arith, Bool, true, false, Option, none, some,
  List, [], ◌∷◌, ◌++◌, length, replicate, take, drop, ltb, ◌==◌, ◌&&◌, not, if◌then◌else◌, codes,
  take-append, drop-append, subst, length-append, ==_refl, All,
}
use diy_ebook.Qpk.ByteOrder.{
  Bytes, IsByte, at, read16, read32, read64, write16, write32, write64, store, overwrite,
  read32-bytes, read64-bytes, read16-bytes,
}
use diy_ebook.Qpk.Crc.{crc32, crc32-lt}
use diy_ebook.Slots.Keep.{All-take}
use diy_ebook.Library.Paths.{copy_utf8_truncated, back_off}
use diy_ebook.Protocol.{title_max_bytes, content_id_hex_chars}

-- Texts are their characters before the NUL.
pub record UploadBegin : Type 0 where
  pub content_id_hex : List ℕ
  pub content_version : ℕ
  pub type : ℕ
  pub size : ℕ
  pub payload_crc32 : ℕ
  pub title : List ℕ
  pub expires_at : ℕ

abbrev pub meta_version : ℕ
meta_version = 1

-- kUploadMetaSize
abbrev pub meta_bytes : ℕ
meta_bytes = 160

-- The numbers of the record, written into zeros.
unfoldable pub meta_numbers : UploadBegin → Bytes
unfolding write16 write32 write64
meta_numbers r = store 24 (write32 r.expires_at) (
    store 20 (write32 r.payload_crc32) (
      store 12 (write64 r.size) (
        store 8 (write32 r.content_version) (
          store 6 (write16 r.type)
            (store 4 (write16 meta_version) (store 0 (codes "UPL1") (replicate 156 0)))))))

-- The bytes that the checksum is taken over.
unfoldable pub meta_fields : UploadBegin → Bytes
unfolding meta_numbers
meta_fields r =
    store 124 (take content_id_hex_chars r.content_id_hex)
      (store 28 (copy_utf8_truncated r.title title_max_bytes) (meta_numbers r))

-- The 160 bytes of `writeMeta`.
unfoldable pub encode_meta : UploadBegin → Bytes
encode_meta r = meta_fields r ++ write32 (crc32 (meta_fields r))

-- A C string in a buffer.
unfoldable pub until_nul : Bytes → List ℕ
until_nul [] = []
until_nul (b ∷ bs) = let rest = until_nul bs in if b == 0 then [] else b ∷ rest

unfoldable pub meta_values : Bytes → UploadBegin
unfolding until_nul
meta_values m = record {
  content_id_hex = until_nul (take content_id_hex_chars (drop 124 m));
  content_version = read32 (drop 8 m);
  type = read16 (drop 6 m);
  size = read64 (drop 12 m);
  payload_crc32 = read32 (drop 20 m);
  title = until_nul (take (title_max_bytes - 1) (drop 28 m));
  expires_at = read32 (drop 24 m);
}

-- The test of the first four bytes.
unfoldable pub has_magic : Bytes → Bool
has_magic m = at m 0 == b'U' && at m 1 == b'P' && at m 2 == b'L' && at m 3 == b'1'

-- What `readMeta` makes of the bytes that it read; false is `none`.
unfoldable pub decode_meta : Bytes → Option UploadBegin
unfolding meta_values has_magic
decode_meta m =
    if not (length m == meta_bytes)
    then none
    else if not (has_magic m)
    then none
    else if not (read16 (drop 4 m) == meta_version)
    then none
    else if not (crc32 (take 156 m) == read32 (drop 156 m))
    then none
    else some (meta_values m)

-- UploadManager::expired
unfoldable pub expired : UploadBegin → ℕ → Bool
expired meta now_unix =
    if meta.expires_at == 0
    then false
    else if now_unix == 0
    then false
    else ltb meta.expires_at now_unix

length-overwrite : (buf bytes : Bytes) → length (overwrite buf bytes) ≡ length buf
length-overwrite [] bytes = refl
length-overwrite (x ∷ buf) [] = refl
length-overwrite (x ∷ buf) (b ∷ bytes) = ap suc (length-overwrite buf bytes)

length-store : (n : ℕ) (bytes buf : Bytes) → length (store n bytes buf) ≡ length buf
length-store zero bytes [] = refl
length-store zero bytes (x ∷ buf) = length-overwrite (x ∷ buf) bytes
length-store (suc n) bytes [] = refl
length-store (suc n) bytes (x ∷ buf) = ap suc (length-store n bytes buf)

length-meta_numbers : (r : UploadBegin) → length (meta_numbers r) ≡ 156
unfolding meta_numbers
length-meta_numbers r = refl

length-meta_fields : (r : UploadBegin) → length (meta_fields r) ≡ 156
unfolding meta_fields
length-meta_fields r =
    length-store 124 (take content_id_hex_chars r.content_id_hex)
      (store 28 (copy_utf8_truncated r.title title_max_bytes) (meta_numbers r))
    ∙ length-store 28 (copy_utf8_truncated r.title title_max_bytes) (meta_numbers r)
    ∙ length-meta_numbers r

-- The numbers of a request hold values of their C++ types.
pub record Fits (r : UploadBegin) : Type 0 where
  pub version_word : r.content_version < 2 ^ 32
  pub type_half : r.type < 2 ^ 16
  pub size_words : r.size < 2 ^ 64
  pub crc_word : r.payload_crc32 < 2 ^ 32
  pub deadline_word : r.expires_at < 2 ^ 32
  pub title_bytes : All IsByte r.title
  pub hex_bytes : All IsByte r.content_id_hex

split-front : (r : UploadBegin) → take 156 (encode_meta r) ≡ meta_fields r
unfolding encode_meta
split-front r =
    subst (λ n. take n (meta_fields r ++ write32 (crc32 (meta_fields r))) ≡ meta_fields r)
      (length-meta_fields r) (take-append (meta_fields r) (write32 (crc32 (meta_fields r))))

split-back : (r : UploadBegin) → drop 156 (encode_meta r) ≡ write32 (crc32 (meta_fields r))
unfolding encode_meta
split-back r =
    subst
      (λ n.
        drop n (meta_fields r ++ write32 (crc32 (meta_fields r))) ≡ write32 (crc32 (meta_fields r)))
      (length-meta_fields r) (drop-append (meta_fields r) (write32 (crc32 (meta_fields r))))

length-encode_meta : (r : UploadBegin) → length (encode_meta r) ≡ 160
unfolding encode_meta write32
length-encode_meta r =
    omega
      (arith, length-append (meta_fields r) (write32 (crc32 (meta_fields r))), length-meta_fields r)

All-overwrite :
    (buf bytes : Bytes) → All IsByte buf → All IsByte bytes → All IsByte (overwrite buf bytes)
All-overwrite [] bytes h k = omega arith
All-overwrite (x ∷ buf) [] h k = h
All-overwrite (x ∷ buf) (b ∷ bytes) h k = (k.0, All-overwrite buf bytes h.1 k.1)

All-store :
    (n : ℕ) (bytes buf : Bytes) → All IsByte bytes → All IsByte buf → All IsByte (store n bytes buf)
All-store zero bytes [] h k = omega arith
All-store zero bytes (x ∷ buf) h k = All-overwrite (x ∷ buf) bytes k h
All-store (suc n) bytes [] h k = omega arith
All-store (suc n) bytes (x ∷ buf) h k = (k.0, All-store n bytes buf h k.1)

All-copy :
    (title : List ℕ) (capacity : ℕ)
    → All IsByte title
    → All IsByte (copy_utf8_truncated title capacity)
unfolding copy_utf8_truncated
All-copy title capacity h = ground (arith, All-take IsByte (back_off title (capacity - 1)) title h)

All-meta_numbers : (r : UploadBegin) → All IsByte (meta_numbers r)
unfolding meta_numbers
All-meta_numbers r = omega arith

All-meta_fields : (r : UploadBegin) → Fits r → All IsByte (meta_fields r)
unfolding meta_fields
All-meta_fields r h =
    All-store 124 (take content_id_hex_chars r.content_id_hex)
      (store 28 (copy_utf8_truncated r.title title_max_bytes) (meta_numbers r))
      (All-take IsByte content_id_hex_chars r.content_id_hex h.hex_bytes)
      (All-store 28 (copy_utf8_truncated r.title title_max_bytes) (meta_numbers r)
        (All-copy r.title title_max_bytes h.title_bytes) (All-meta_numbers r))

read32-write32-end : (v : ℕ) → v < 2 ^ 32 → read32 (write32 v) ≡ v
unfolding write32
read32-write32-end v h = read32-bytes v h []

checksum-encode_meta :
    (r : UploadBegin)
    → Fits r
    → crc32 (take 156 (encode_meta r)) ≡ read32 (drop 156 (encode_meta r))
checksum-encode_meta r h = rw (
  split-front r,
  split-back r,
  read32-write32-end (crc32 (meta_fields r)) (crc32-lt (meta_fields r) (All-meta_fields r h)),
)

magic-encode_meta : (r : UploadBegin) → has_magic (encode_meta r) ≡ true
unfolding has_magic encode_meta meta_fields meta_numbers
magic-encode_meta r = refl

version-encode_meta : (r : UploadBegin) → read16 (drop 4 (encode_meta r)) ≡ meta_version
unfolding encode_meta meta_fields meta_numbers read16
version-encode_meta r = refl

decode_meta-good :
    (m : Bytes)
    → length m ≡ meta_bytes
    → has_magic m ≡ true
    → read16 (drop 4 m) ≡ meta_version
    → crc32 (take 156 m) ≡ read32 (drop 156 m)
    → decode_meta m ≡ some (meta_values m)
unfolding decode_meta
decode_meta-good m h g v c = rw (h, g, v, c, ==_refl (read32 (drop 156 m))) refl

decode_meta-encode_meta :
    (r : UploadBegin) → Fits r → decode_meta (encode_meta r) ≡ some (meta_values (encode_meta r))
decode_meta-encode_meta r h =
    decode_meta-good (encode_meta r) (length-encode_meta r) (magic-encode_meta r)
      (version-encode_meta r) (checksum-encode_meta r h)

-- What a request declares, and its deadline.
abbrev pub numbers : UploadBegin → ℕ × ℕ × ℕ × ℕ × ℕ
numbers r = (r.content_version, r.type, r.size, r.payload_crc32, r.expires_at)

values-encode_meta : (r : UploadBegin) → Fits r → numbers (meta_values (encode_meta r)) ≡ numbers r
unfolding meta_values encode_meta meta_fields meta_numbers
values-encode_meta r h = rw (
  read32-bytes r.content_version h.version_word,
  read16-bytes r.type h.type_half,
  read32-bytes r.payload_crc32 h.crc_word,
  read32-bytes r.expires_at h.deadline_word,
  read64-bytes r.size h.size_words,
)

-- For a session whose fields fit their types, what is read back from the bytes of its record
-- declares the same version, type, size, checksum and deadline.
pub decode_meta-numbers :
    (r : UploadBegin)
    → Fits r
    → (q : UploadBegin) × (decode_meta (encode_meta r) ≡ some q) × (numbers q ≡ numbers r)
decode_meta-numbers r h =
    (meta_values (encode_meta r), decode_meta-encode_meta r h, values-encode_meta r h)
