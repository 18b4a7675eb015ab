-- ===== src/Witnesses/Installs.antt =====
-- A finished upload at a concrete package, on a card in memory.
use diy_ebook.Prelude.{ℕ, ◌≡◌, refl, arith, true, List, [], ◌∷◌, codes, same, replicate}
use diy_ebook.Qpk.ByteOrder.{Bytes, write16, write32, write64, read16, read32, read64}
use diy_ebook.Qpk.Crc.{crc32, crc32_update, crc32_finish}
use diy_ebook.Qpk.File.{memory_file, read_exact}
use diy_ebook.Qpk.Reader.Checks.{open_package, crc_chunks}
use diy_ebook.Storage.{size, size_of, read, slice_of, exists}
use diy_ebook.Storage.Memory.{MemoryCard, memory}
use diy_ebook.Storage.Memory
use diy_ebook.Slots.{Slots, IsValid, find_slot}
use diy_ebook.Protocol.{ok, library_dir_for}
use diy_ebook.Library.ContentId.{
  hex_to_content_id, hex_bytes, at_end, hex_value, join_digits, content_id_to_hex,
}
use diy_ebook.Library.Paths.{
  copy_utf8_truncated, back_off, join_path, build_package_path, build_location,
}
use diy_ebook.Library.Index.{LibraryEntry, blank, max_library_entries, upsert, has_id}
use diy_ebook.Library.Describe.{open_file, describe_package, describe_file}
use diy_ebook.Library.IndexFile.{
  save, append_entries, commit_index, index_header, header_fields, entries_crc, encode_entry,
}
use diy_ebook.Upload.Meta.{
  UploadBegin, encode_meta, decode_meta, expired, meta_fields, meta_numbers, until_nul, meta_values,
  has_magic,
}
use diy_ebook.Upload.Session.{
  valid_hex_id, read_meta, build_upload_path, decode_read, part_size, remove_at, discard,
}
use diy_ebook.Upload.Paths.{meta_file, part_file}
use diy_ebook.Upload.Finish.{
  finish, finish_session, finish_part, finish_open, check_part, install_described, install,
  install_at, register, make_room, verify_part, verify_header, is_declared,
}
use diy_ebook.Upload.Finished.{Finishes, finish-installs}

abbrev id_text : List ℕ
id_text = codes "00112233445566778899aabbccddeeff"

-- A translation of one verse.
abbrev translation : Bytes
translation =
    81 ∷ 80 ∷ 75 ∷ 49 ∷ 1 ∷ 0 ∷ 64 ∷ 0 ∷ 3 ∷ 0 ∷ 3 ∷ 0 ∷ 0 ∷ 0 ∷ 0 ∷ 0 ∷ 188 ∷ 0 ∷ 0 ∷ 0 ∷ 0 ∷ 0 ∷ 0
    ∷ 0 ∷ 0 ∷ 17 ∷ 34 ∷ 51 ∷ 68 ∷ 85 ∷ 102 ∷ 119 ∷ 136 ∷ 153 ∷ 170 ∷ 187 ∷ 204 ∷ 221 ∷ 238 ∷ 255 ∷ 1
    ∷ 0 ∷ 0 ∷ 0 ∷ 64 ∷ 0 ∷ 0 ∷ 0 ∷ 96 ∷ 0 ∷ 0 ∷ 0 ∷ 200 ∷ 233 ∷ 194 ∷ 30 ∷ 0 ∷ 0 ∷ 0 ∷ 0 ∷ 251 ∷ 52
    ∷ 170 ∷ 136 ∷ 1 ∷ 0 ∷ 1 ∷ 0 ∷ 160 ∷ 0 ∷ 0 ∷ 0 ∷ 0 ∷ 0 ∷ 0 ∷ 0 ∷ 8 ∷ 0 ∷ 0 ∷ 0 ∷ 0 ∷ 0 ∷ 0 ∷ 0
    ∷ 1 ∷ 0 ∷ 0 ∷ 0 ∷ 207 ∷ 147 ∷ 16 ∷ 107 ∷ 0 ∷ 0 ∷ 0 ∷ 0 ∷ 12 ∷ 0 ∷ 1 ∷ 0 ∷ 168 ∷ 0 ∷ 0 ∷ 0 ∷ 0
    ∷ 0 ∷ 0 ∷ 0 ∷ 8 ∷ 0 ∷ 0 ∷ 0 ∷ 0 ∷ 0 ∷ 0 ∷ 0 ∷ 1 ∷ 0 ∷ 0 ∷ 0 ∷ 209 ∷ 96 ∷ 244 ∷ 47 ∷ 8 ∷ 0 ∷ 0
    ∷ 0 ∷ 13 ∷ 0 ∷ 1 ∷ 0 ∷ 176 ∷ 0 ∷ 0 ∷ 0 ∷ 0 ∷ 0 ∷ 0 ∷ 0 ∷ 12 ∷ 0 ∷ 0 ∷ 0 ∷ 0 ∷ 0 ∷ 0 ∷ 0 ∷ 1 ∷ 0
    ∷ 0 ∷ 0 ∷ 231 ∷ 166 ∷ 225 ∷ 4 ∷ 0 ∷ 0 ∷ 0 ∷ 0 ∷ 1 ∷ 0 ∷ 4 ∷ 0 ∷ 84 ∷ 101 ∷ 115 ∷ 116 ∷ 0 ∷ 0 ∷ 0
    ∷ 0 ∷ 12 ∷ 0 ∷ 0 ∷ 0 ∷ 116 ∷ 114 ∷ 97 ∷ 110 ∷ 115 ∷ 108 ∷ 97 ∷ 116 ∷ 101 ∷ 33 ∷ 33 ∷ 33 ∷ []

abbrev declared : UploadBegin
declared = record {
  content_id_hex = id_text;
  content_version = 1;
  type = 3;
  size = 188;
  payload_crc32 = 516090312;
  title = codes "Test";
  expires_at = 0;
}

abbrev received_card : MemoryCard
received_card = record {
  files = (meta_file id_text, encode_meta declared) ∷ (part_file id_text, translation) ∷ [];
  budget = 100;
  free = 1000000;
  renames = true;
}

abbrev empty_index : Slots LibraryEntry
empty_index = record { items = replicate 96 blank; count = 0 }

empty_index-IsValid : IsValid max_library_entries empty_index
empty_index-IsValid = record { size = refl; within = omega arith }

id_text-valid : valid_hex_id id_text ≡ true
unfolding valid_hex_id hex_to_content_id hex_bytes at_end hex_value join_digits
id_text-valid = refl

finishes_ok : (finish memory id_text 1000 empty_index received_card).error ≡ ok
unfolding finish finish_session finish_part finish_open check_part install_described install
    install_at register make_room verify_part verify_header is_declared part_size remove_at discard
    read_meta decode_read build_upload_path open_file describe_package describe_file save
    append_entries commit_index index_header header_fields entries_crc encode_entry valid_hex_id
    hex_to_content_id hex_bytes at_end hex_value join_digits content_id_to_hex copy_utf8_truncated
    back_off join_path build_package_path build_location upsert has_id find_slot library_dir_for
    expired encode_meta decode_meta meta_fields meta_numbers until_nul meta_values has_magic size
    size_of read slice_of exists open_package memory_file read_exact crc_chunks write16 write32
    write64 read16 read32 read64 crc32 crc32_update crc32_finish same Memory.file Memory.find_file
    Memory.rename Memory.try_rename Memory.remove Memory.write_all Memory.append Memory.mkdirs
    Memory.spend Memory.powered Memory.put_file Memory.move_file Memory.without
finishes_ok = refl

finish-installs_example :
    Finishes memory id_text 1000
      (read_meta memory id_text received_card)
      received_card
      (finish memory id_text 1000 empty_index received_card)
finish-installs_example =
    finish-installs memory id_text 1000 empty_index received_card id_text-valid empty_index-IsValid
      finishes_ok
