-- ===== src/Verified/File.antt =====
-- verified.bin as a file of records, and what a record survives.
use diy_ebook.Prelude.{
  ℕ, ◌*◌, ◌/◌, ◌%◌, ◌^◌, ◌<◌, ◌≡◌, ◌≢◌, refl, ◌∙◌, arith, Bool, ◌++◌, All, length, same, same→ne,
  bit_or,
}
use diy_ebook.Prelude.Bits.{bit_or-high}
use diy_ebook.Qpk.ByteOrder.{Bytes, IsByte, read32-bytes, Sixteen, sixteen, Sixteen-length}
use diy_ebook.Storage.{Storage}
use diy_ebook.Slots.{Slots}
use diy_ebook.RecordFile
use diy_ebook.RecordFile.{Format, IsLawful}
use diy_ebook.Verified.{
  PackageFingerprint, max_verified_packages, path, temp_path, encode_record, decode_record,
}

-- The fields hold values of their C++ types.
pub record Fits (x : PackageFingerprint) : Type 0 where
  pub id_length : length x.content_id ≡ 16
  pub id_bytes : All IsByte x.content_id
  pub header_word : x.header_crc32 < 2 ^ 32
  pub payload_word : x.payload_crc32 < 2 ^ 32
  pub size_word : x.package_size < 2 ^ 64

abbrev pub verified_file : Format PackageFingerprint
verified_file = record {
  magic0 = b'V';
  magic1 = b'P';
  magic2 = b'K';
  magic3 = b'1';
  record_bytes = 32;
  capacity = max_verified_packages;
  path = path;
  temp_path = temp_path;
  encode = encode_record;
  decode = decode_record;
  Fits = Fits;
}

unfoldable pub load : (s : Storage) → Slots PackageFingerprint → s.Card → Slots PackageFingerprint
unfolding RecordFile.load
load s slots c = RecordFile.load verified_file s slots c

unfoldable pub save : (s : Storage) → Slots PackageFingerprint → s.Card → Bool × s.Card
unfolding RecordFile.save
save s slots c = RecordFile.save verified_file s slots c

abbrev of_fields : Bytes → ℕ → ℕ → ℕ → PackageFingerprint
of_fields id header payload size = record {
  content_id = id;
  header_crc32 = header;
  payload_crc32 = payload;
  package_size = size;
}

length-encode_fields :
    (id : Bytes) (header payload size : ℕ)
    → Sixteen id
    → length (encode_record (of_fields id header payload size)) ≡ 32
unfolding encode_record
length-encode_fields id header payload size (sixteen _ _ _ _ _ _ _ _ _ _ _ _ _ _ _ _) = refl

bytes-encode_fields :
    (id : Bytes) (header payload size : ℕ)
    → Sixteen id
    → All IsByte id
    → All IsByte (encode_record (of_fields id header payload size))
unfolding encode_record
bytes-encode_fields id header payload size (sixteen _ _ _ _ _ _ _ _ _ _ _ _ _ _ _ _) h = omega arith

size_of_halves : (v : ℕ) → v < 2 ^ 64 → bit_or (v % 2 ^ 32) (v / 2 ^ 32 % 2 ^ 32 * 2 ^ 32) ≡ v
size_of_halves v h = bit_or-high 32 (v % 2 ^ 32) (v / 2 ^ 32 % 2 ^ 32) (omega arith) ∙ omega arith

low_half : (v : ℕ) → v % 2 ^ 32 < 2 ^ 32
low_half v = omega arith

high_half : (v : ℕ) → v / 2 ^ 32 % 2 ^ 32 < 2 ^ 32
high_half v = omega arith

decode-encode_fields :
    (id : Bytes) (header payload size : ℕ) (rest : Bytes)
    → Sixteen id
    → header < 2 ^ 32
    → payload < 2 ^ 32
    → size < 2 ^ 64
    → decode_record (encode_record (of_fields id header payload size) ++ rest)
      ≡ of_fields id header payload size
unfolding encode_record decode_record
decode-encode_fields id header payload size rest (sixteen _ _ _ _ _ _ _ _ _ _ _ _ _ _ _ _) hh hp
      hs =
    rw (
      read32-bytes header hh,
      read32-bytes payload hp,
      read32-bytes (size % 2 ^ 32) (low_half size),
      read32-bytes (size / 2 ^ 32 % 2 ^ 32) (high_half size),
      size_of_halves size hs,
    )

paths_apart : temp_path ≢ path
paths_apart = same→ne temp_path path (unfold same in refl)

pub verified_file-IsLawful : IsLawful verified_file
verified_file-IsLawful = record {
  length_encode = λ x h.
      length-encode_fields x.content_id x.header_crc32 x.payload_crc32 x.package_size
        (Sixteen-length x.content_id h.id_length);
  encode_bytes = λ x h.
      bytes-encode_fields x.content_id x.header_crc32 x.payload_crc32 x.package_size
        (Sixteen-length x.content_id h.id_length) h.id_bytes;
  decode_encode = λ x rest h.
      decode-encode_fields x.content_id x.header_crc32 x.payload_crc32 x.package_size rest
        (Sixteen-length x.content_id h.id_length) h.header_word h.payload_word h.size_word;
  capacity_fits = omega arith;
  apart = paths_apart;
}
