-- ===== src/Witnesses/Uploads.antt =====
-- Upload sessions at concrete inputs, on a card in memory.
use diy_ebook.Prelude.{
  ℕ, ◌≤◌, ◌≡◌, ◌⊎◌, ◌↔◌, refl, arith, true, false, some, List, [], ◌∷◌, ◌++◌, length, codes, same,
}
use diy_ebook.Qpk.ByteOrder.{write16, write32, write64, read16, read32, read64}
use diy_ebook.Qpk.Crc.{crc32, crc32_update, crc32_finish}
use diy_ebook.Storage.{size, size_of, read, slice_of}
use diy_ebook.Storage.Memory.{MemoryCard, memory}
use diy_ebook.Storage.Memory
use diy_ebook.Protocol.{ok, library_dir_for, max_chunk_bytes}
use diy_ebook.Library.ContentId.{hex_to_content_id, hex_bytes, at_end, hex_value, join_digits}
use diy_ebook.Library.Paths.{copy_utf8_truncated, back_off, join_path}
use diy_ebook.Upload.Meta.{
  UploadBegin, encode_meta, decode_meta, expired, meta_fields, meta_numbers, until_nul, meta_values,
  has_magic,
}
use diy_ebook.Upload.Session.{
  accept, valid_hex_id, read_meta, write_chunk, begin_upload, upload_dir, build_upload_path,
  place_chunk, append_chunk, chunk_in_session, decode_read, part_size,
}
use diy_ebook.Upload.Chunks.{received_bytes, write_chunk-ok, write_chunk-retry, write_chunk-le}
use diy_ebook.Upload.Requests.{IsRequest}
use diy_ebook.Upload.Resume.{IsOpen, continued, begin_upload-resume}
use diy_ebook.Upload.Paths.{meta_file, part_file}

abbrev hex : List ℕ
hex = codes "00112233445566778899aabbccddeeff"

abbrev request : UploadBegin
request = record {
  content_id_hex = hex;
  content_version = 2;
  type = 1;
  size = 6;
  payload_crc32 = 0xDEADBEEF;
  title = codes "Quran";
  expires_at = 0;
}

abbrev card : MemoryCard
card = record {
  files = (meta_file hex, encode_meta request) ∷ (part_file hex, 1 ∷ 2 ∷ 3 ∷ []) ∷ [];
  budget = 100;
  free = 1000000;
  renames = true;
}

hex-valid : valid_hex_id hex ≡ true
unfolding valid_hex_id hex_to_content_id hex_bytes at_end hex_value join_digits
hex-valid = refl

-- The session of the card.
session_found : read_meta memory hex card ≡ some request
unfolding read_meta build_upload_path decode_read decode_meta encode_meta meta_fields meta_numbers
    meta_values has_magic until_nul copy_utf8_truncated back_off join_path valid_hex_id
    hex_to_content_id hex_bytes at_end hex_value join_digits same Memory.file Memory.find_file
    write16 write32 write64 read16 read32 read64 crc32 crc32_update crc32_finish read slice_of
session_found = refl

three_received : length (received_bytes memory hex hex-valid refl card) ≤ 6
unfolding join_path Memory.file Memory.find_file same
three_received = omega arith

not_expired : expired request 0 ≡ false
unfolding expired
not_expired = refl

request-IsRequest : IsRequest request
unfolding library_dir_for
request-IsRequest = record {
  id = hex-valid;
  filled = omega arith;
  small = omega arith;
  folder = (codes "QURAN", refl);
}

session-IsOpen : IsOpen memory request request 0 3 card
unfolding join_path Memory.file Memory.find_file same
session-IsOpen = record {
  found = session_found;
  live = not_expired;
  same = record { version = refl; size = refl; checksum = refl; type = refl };
  received = refl;
  fits = omega arith;
}

resume_example :
    (begin_upload memory request 0 card ≡ (continued 3 (some 0), (Memory.mkdirs upload_dir card).1))
    ↔ (IsRequest request
        × (existing : UploadBegin) × IsOpen memory request existing 0 3 card
        × (some 0 ≡ some existing.expires_at)
        × ((Memory.mkdirs upload_dir card).1 ≡ (Memory.mkdirs upload_dir card).1))
resume_example =
    begin_upload-resume memory request 0 3 (some 0) card (Memory.mkdirs upload_dir card).1 refl
      (omega arith)

-- Both sides hold of this session.
resumed :
    begin_upload memory request 0 card ≡ (continued 3 (some 0), (Memory.mkdirs upload_dir card).1)
resumed =
    (begin_upload-resume memory request 0 3 (some 0) card (Memory.mkdirs upload_dir card).1 refl
        (omega arith)).1
      (request-IsRequest, request, session-IsOpen, refl, refl)

bounded_example :
    length (
      received_bytes memory hex hex-valid refl
        (write_chunk memory hex 3 (4 ∷ 5 ∷ 6 ∷ 7 ∷ []) 0 card).1)
    ≤ 6
bounded_example =
    write_chunk-le memory hex hex-valid refl request 3 (4 ∷ 5 ∷ 6 ∷ 7 ∷ []) 0 card session_found
      three_received

chunk_taken : (write_chunk memory hex 3 (4 ∷ 5 ∷ []) 0 card).0.error ≡ ok
unfolding write_chunk chunk_in_session expired place_chunk append_chunk part_size build_upload_path
    join_path valid_hex_id hex_to_content_id hex_bytes at_end hex_value join_digits same
    Memory.append Memory.spend Memory.powered Memory.put_file Memory.without Memory.file
    Memory.find_file size size_of
chunk_taken = rw session_found refl

write_chunk_example :
    (q : UploadBegin) × (read_meta memory hex card ≡ some q)
    × (expired q 0 ≡ false)
    × (2 ≤ max_chunk_bytes)
    × (5 ≤ q.size)
    × ((write_chunk memory hex 3 (4 ∷ 5 ∷ []) 0 card).0
        ≡ accept (
            length (
              received_bytes memory hex hex-valid refl
                (write_chunk memory hex 3 (4 ∷ 5 ∷ []) 0 card).1)))
    × ((((write_chunk memory hex 3 (4 ∷ 5 ∷ []) 0 card).1 ≡ card)
          × (5 ≤ length (received_bytes memory hex hex-valid refl card)))
        ⊎ ((3 ≡ length (received_bytes memory hex hex-valid refl card))
            × (received_bytes memory hex hex-valid refl
                  (write_chunk memory hex 3 (4 ∷ 5 ∷ []) 0 card).1
                ≡ received_bytes memory hex hex-valid refl card ++ (4 ∷ 5 ∷ []))))
write_chunk_example = write_chunk-ok memory hex hex-valid refl 3 (4 ∷ 5 ∷ []) 0 card chunk_taken

retry_example :
    write_chunk memory hex 3 (4 ∷ 5 ∷ []) 0 (write_chunk memory hex 3 (4 ∷ 5 ∷ []) 0 card).1 ≡ (
      accept (
          length (
            received_bytes memory hex hex-valid refl
              (write_chunk memory hex 3 (4 ∷ 5 ∷ []) 0 card).1)),
      (write_chunk memory hex 3 (4 ∷ 5 ∷ []) 0 card).1,
    )
retry_example = write_chunk-retry memory hex hex-valid refl 3 (4 ∷ 5 ∷ []) 0 card chunk_taken
