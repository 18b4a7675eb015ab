-- ===== src/Witnesses/Net.antt =====
-- Base64, the pairing token and the photo store at concrete inputs.
use diy_ebook.Prelude.{
  ℕ, ◌≡◌, ◌<◌, ◌↔◌, refl, arith, true, some, List, [], ◌∷◌, ◌++◌, length, take, drop, replicate,
  same, codes,
}
use diy_ebook.Qpk.ByteOrder.{read16}
use diy_ebook.Storage.{exists, size, read}
use diy_ebook.Storage.Memory
use diy_ebook.Storage.Memory.{MemoryCard, memory}
use diy_ebook.Protocol.{ok}
use diy_ebook.Net.Allowed.{valid_photo_name, count_allowed}
use diy_ebook.Net.PhotoStore.{
  photo_extension, part_extension, write_photo_header, photo_header_bytes, build_path, write_chunk,
  write_part, part_size, at_offset, append_part, finish, finish_part, parse_photo_header,
  install_photo, move_photo, load,
}
use diy_ebook.Net.PhotoStore.Kept.{is_whole}
use diy_ebook.Net.PhotoStore.Paths.{path_for}
use diy_ebook.Net.PhotoStore.Requests.{Request, serve_all, serve_all-whole}
use diy_ebook.Net.PhotoStore.Grown.{Grown, write_chunk-Grown}
use diy_ebook.Net.PhotoStore.Finished.{load-finish}
use diy_ebook.Net.PhotoStore.Listed.{ends_with, name_gt, list_photos, sorted_photos, IsSorted}
use diy_ebook.Net.PhotoStore.Sorted.{list_photos_lem}
use diy_ebook.Net.Base64.{decode_base64, encode_base64}
use diy_ebook.Net.Base64.RoundTrip.{decode_base64-encode_base64}
use diy_ebook.Net.Auth.{check_bearer, bearer, check_bearer_lem}

decode_base64_example :
    decode_base64 4 (encode_base64 (255 ∷ 0 ∷ 7 ∷ 128 ∷ [])) ≡ some (255 ∷ 0 ∷ 7 ∷ 128 ∷ [])
decode_base64_example =
    decode_base64-encode_base64 (255 ∷ 0 ∷ 7 ∷ 128 ∷ []) 4 (omega arith) (omega arith)

check_bearer_example :
    (check_bearer (codes "Bearer k7") (codes "k7") ≡ true)
    ↔ ((0 < length (codes "k7")) × (codes "Bearer k7" ≡ bearer ++ codes "k7"))
check_bearer_example = check_bearer_lem (codes "Bearer k7") (codes "k7")

abbrev entries : List (List ℕ × ℕ)
entries =
    (codes "sea.g4", 48016)
    ∷ (codes "sea.part", 48016)
    ∷ (codes "bay.g4", 48016)
    ∷ (codes "cut.g4", 20)
    ∷ (codes "air.g4", 48016)
    ∷ []

list_photos_example :
    (list_photos 2 entries ≡ take 2 (sorted_photos [] entries)) × IsSorted (list_photos 2 entries)
list_photos_example = list_photos_lem 2 entries

listed : list_photos 2 entries ≡ codes "air" ∷ codes "bay" ∷ []
unfolding list_photos ends_with valid_photo_name count_allowed name_gt
listed = refl

abbrev empty_card : MemoryCard
empty_card = record { files = []; budget = 10; free = 1000000; renames = true }

abbrev requests : List Request
requests = Request.chunk (codes "sea") 0 (1 ∷ 2 ∷ []) ∷ Request.finishing (codes "sea") ∷ []

no_photo : is_whole (memory.file empty_card (path_for photo_extension (codes "sea"))) ≡ true
unfolding is_whole Memory.file Memory.find_file
no_photo = refl

serve_all_example :
    is_whole
      (memory.file (serve_all memory requests empty_card) (path_for photo_extension (codes "sea")))
    ≡ true
serve_all_example = serve_all-whole memory (codes "sea") requests empty_card no_photo

accepted : (write_chunk memory (codes "sea") 0 (1 ∷ 2 ∷ []) empty_card).0.error ≡ ok
unfolding write_chunk build_path write_part part_size at_offset append_part valid_photo_name
    count_allowed exists size Memory.mkdirs Memory.spend Memory.file Memory.find_file Memory.append
accepted = refl

write_chunk-Grown_example :
    Grown memory
      (path_for part_extension (codes "sea"))
      []
      0
      (1 ∷ 2 ∷ [])
      (write_chunk memory (codes "sea") 0 (1 ∷ 2 ∷ []) empty_card)
unfolding Memory.file Memory.find_file
write_chunk-Grown_example =
    write_chunk-Grown memory (codes "sea") 0 (1 ∷ 2 ∷ []) empty_card accepted

sea : List ℕ
sea = write_photo_header ++ replicate 48000 5

sea_card : MemoryCard
sea_card = record {
  files = (path_for part_extension (codes "sea"), sea) ∷ [];
  budget = 10;
  free = 1000000;
  renames = true;
}

sea_part : memory.file sea_card (path_for part_extension (codes "sea")) ≡ some sea
unfolding sea_card Memory.file Memory.find_file same
sea_part = refl

finished : (finish memory (codes "sea") sea_card).0 ≡ ok
unfolding sea sea_card finish finish_part build_path install_photo move_photo valid_photo_name
    count_allowed exists size read parse_photo_header write_photo_header read16 same Memory.file
    Memory.find_file Memory.rename Memory.try_rename Memory.spend Memory.powered Memory.move_file
    Memory.remove
finished = refl

load-finish_example :
    load memory (codes "sea") 48000 (finish memory (codes "sea") sea_card).1
    ≡ some (drop photo_header_bytes sea)
load-finish_example =
    load-finish memory (codes "sea") 48000 sea_card (omega arith) sea_part finished
