-- ===== src/Net/PhotoStore/Requests.antt =====
-- Sequences of calls of firmware/wifi/photo_store.cpp.
use diy_ebook.Prelude.{
  ℕ, ◌≡◌, refl, sym, inl, inr, true, not, Option, List, [], ◌∷◌, if◌then◌else◌, arith, Bool-cases,
}
use diy_ebook.Qpk.ByteOrder.{Bytes}
use diy_ebook.Storage.{Storage, FilePath}
use diy_ebook.Protocol.{Error}
use diy_ebook.Net.Allowed.{valid_photo_name}
use diy_ebook.Net.PhotoStore.{
  photo_extension, part_extension, build_path, write_chunk, finish_part, with_paths, finish,
  remove_both, remove_photo,
}
use diy_ebook.Net.PhotoStore.Kept.{is_whole, finish_part-whole, remove_both-whole, write_at-other}
use diy_ebook.Net.PhotoStore.Paths.{path_for, paths_apart, build_path-valid}

-- A request for the store.
pub data Request : Type 0 where
  chunk : List ℕ → ℕ → Bytes → Request
  finishing removal : List ℕ → Request

unfoldable pub serve : (s : Storage) → Request → s.Card → s.Card
unfolding write_chunk finish remove_photo
serve s (Request.chunk name offset bytes) c = (write_chunk s name offset bytes c).1
serve s (Request.finishing name) c = (finish s name c).1
serve s (Request.removal name) c = (remove_photo s name c).1

unfoldable pub serve_all : (s : Storage) → List Request → s.Card → s.Card
serve_all s [] c = c
serve_all s (r ∷ rs) c = serve_all s rs (serve s r c)

module _ (s : Storage) (m : List ℕ) where
  open s use {Card, file}

  abbrev photo_of : Card → Option Bytes
  photo_of c = file c (path_for photo_extension m)

  write_chunk-photo :
      (name : List ℕ) (offset : ℕ) (bytes : Bytes) (c : Card)
      → photo_of (write_chunk s name offset bytes c).1 ≡ photo_of c
  unfolding write_chunk
  write_chunk-photo name offset bytes c = elim (Bool-cases (valid_photo_name name)) [
    | inl valid ↦
        rw (valid, build_path-valid name part_extension valid (omega arith))
          (write_at-other s (path_for part_extension name) (path_for photo_extension m)
            (paths_apart m name) offset bytes c)
    | inr bad ↦ rw bad refl
  ]

  with_paths-whole :
      (act : FilePath → FilePath → Card → Error × Card) (name : List ℕ) (c : Card)
      → is_whole (photo_of c) ≡ true
      → is_whole (photo_of (act (path_for part_extension name) (path_for photo_extension name) c).1)
        ≡ true
      → is_whole (
          photo_of
            (if not (valid_photo_name name)
              then (Error.bad_request, c)
              else with_paths s act
                  (build_path name part_extension)
                  (build_path name photo_extension)
                  c).1)
        ≡ true
  with_paths-whole act name c h acted = elim (Bool-cases (valid_photo_name name)) [
    | inl valid ↦
        rw
          (
            valid,
            build_path-valid name part_extension valid (omega arith),
            build_path-valid name photo_extension valid (omega arith),
          )
          acted
    | inr bad ↦ rw bad h
  ]

  serve-whole :
      (r : Request) (c : Card)
      → is_whole (photo_of c) ≡ true
      → is_whole (photo_of (serve s r c)) ≡ true
  unfolding serve finish remove_photo
  serve-whole (Request.chunk name offset bytes) c h = rw (write_chunk-photo name offset bytes c) h
  serve-whole (Request.finishing name) c h = with_paths-whole (finish_part s) name c h (
      finish_part-whole s (path_for part_extension name) (path_for photo_extension m)
        (paths_apart m name) (path_for photo_extension name) c (λ e. paths_apart name name (sym e))
        h)
  serve-whole (Request.removal name) c h = with_paths-whole (remove_both s) name c h (
      remove_both-whole s (path_for part_extension name) (path_for photo_extension m)
        (paths_apart m name) (path_for photo_extension name) c h)

-- After any sequence of chunks, finishings and removals of photos, a file under the path of a photo
-- that was absent or whole, the size of a photo behind a good header, is so again, whatever failed
-- on the way.
pub serve_all-whole :
    (s : Storage) (m : List ℕ) (requests : List Request) (c : s.Card)
    → is_whole (s.file c (path_for photo_extension m)) ≡ true
    → is_whole (s.file (serve_all s requests c) (path_for photo_extension m)) ≡ true
unfolding serve_all
serve_all-whole s m [] c h = h
serve_all-whole s m (r ∷ rs) c h = serve_all-whole s m rs (serve s r c) (serve-whole s m r c h)
