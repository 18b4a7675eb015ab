-- ===== src/Verified.antt =====
-- firmware/include/net/verified_packages.h and firmware/storage/verified_packages.cpp:
-- /DEVICE/verified.bin, the packages whose index checksums already passed.
pub mod File
pub mod Laws
use diy_ebook.Prelude.{
  ℕ, ◌*◌, ◌/◌, ◌%◌, ◌^◌, Bool, replicate, take, drop, same, ◌==◌, ◌&&◌, codes, bit_or,
}
use diy_ebook.Qpk.ByteOrder.{Bytes, read32, write32, store}
use diy_ebook.Storage.{FilePath}
use diy_ebook.Slots.{Slots, add_front, any_slot}

abbrev pub max_verified_packages : ℕ
max_verified_packages = 64

pub record PackageFingerprint : Type 0 where
  pub content_id : Bytes
  pub header_crc32 : ℕ
  pub payload_crc32 : ℕ
  pub package_size : ℕ

abbrev pub blank : PackageFingerprint
blank = record {
  content_id = replicate 16 0;
  header_crc32 = 0;
  payload_crc32 = 0;
  package_size = 0;
}

abbrev pub path : FilePath
path = codes "/DEVICE/verified.bin"

abbrev pub temp_path : FilePath
temp_path = codes "/DEVICE/verified.tmp"

-- `Same`
unfoldable pub same_package : PackageFingerprint → PackageFingerprint → Bool
same_package x y =
    same x.content_id y.content_id
    && x.header_crc32 == y.header_crc32
    && x.payload_crc32 == y.payload_crc32
    && x.package_size == y.package_size

-- The 32 bytes that `save` writes for a package: the size is two words, low and high.
unfoldable pub encode_record : PackageFingerprint → Bytes
unfolding write32
encode_record item = store 28 (write32 (item.package_size / 2 ^ 32 % 2 ^ 32)) (
    store 24 (write32 (item.package_size % 2 ^ 32)) (
      store 20 (write32 item.payload_crc32)
        (store 16 (write32 item.header_crc32) (store 0 item.content_id (replicate 32 0)))))

unfoldable pub decode_record : Bytes → PackageFingerprint
decode_record r = record {
  content_id = take 16 r;
  header_crc32 = read32 (drop 16 r);
  payload_crc32 = read32 (drop 20 r);
  package_size = bit_or (read32 (drop 24 r)) (read32 (drop 28 r) * 2 ^ 32);
}

unfoldable pub contains : PackageFingerprint → Slots PackageFingerprint → Bool
unfolding any_slot
contains fingerprint s = any_slot (λ x. same_package x fingerprint) s.count s.items

unfoldable pub add : PackageFingerprint → Slots PackageFingerprint → Slots PackageFingerprint
unfolding add_front
add fingerprint s =
    add_front max_verified_packages blank (λ x. same_package x fingerprint) fingerprint s
