-- ===== src/Progress/Laws.antt =====
-- What is saved of the reading position is what the next load finds: firmware/storage/reading_progress.cpp.
use diy_ebook.Prelude.{
  ℕ, ◌^◌, ◌<◌, ◌≡◌, ◌≢◌, refl, ap, ◌∙◌, arith, true, Option, some, [], All, length, ==_refl, same,
  same→ne,
}
use diy_ebook.Qpk.ByteOrder.{
  Bytes, IsByte, read16, write32, read16-bytes, read32-bytes, Sixteen, sixteen, Sixteen-length,
}
use diy_ebook.Qpk.Crc.{crc32, crc32-lt}
use diy_ebook.Storage.{Storage, slice_of, read}
use diy_ebook.Storage.Commit.{rewrite_file-done, rewrite_file-other}
use diy_ebook.Progress.{
  ReadingProgress, PageProgress, progress_path, progress_temp_path, page_path, page_temp_path,
  progress_fields, page_fields, sealed, decode_progress, load_reading_progress,
  save_reading_progress, save_page_progress,
}

-- The fields fit their types.
pub record Fits (p : ReadingProgress) : Type 0 where
  pub id_length : length p.content_id ≡ 16
  pub id_bytes : All IsByte p.content_id
  pub surah_half : p.surah_id < 2 ^ 16
  pub ayah_word : p.first_ayah_index < 2 ^ 32
  pub screen_half : p.screen_number < 2 ^ 16

abbrev of_fields : Bytes → ℕ → ℕ → ℕ → ReadingProgress
of_fields id surah ayah screen = record {
  content_id = id;
  surah_id = surah;
  first_ayah_index = ayah;
  screen_number = screen;
}

bytes-fields :
    (id : Bytes) (surah ayah screen : ℕ)
    → Sixteen id
    → All IsByte id
    → All IsByte (progress_fields (of_fields id surah ayah screen))
unfolding progress_fields
bytes-fields id surah ayah screen (sixteen _ _ _ _ _ _ _ _ _ _ _ _ _ _ _ _) h = omega arith

crc-fits :
    (id : Bytes) (surah ayah screen : ℕ)
    → Sixteen id
    → All IsByte id
    → crc32 (progress_fields (of_fields id surah ayah screen)) < 2 ^ 32
crc-fits id surah ayah screen s h = crc32-lt _ (bytes-fields id surah ayah screen s h)

decode-sealed :
    (id : Bytes) (surah ayah screen : ℕ)
    → Sixteen id
    → All IsByte id
    → surah < 2 ^ 16
    → ayah < 2 ^ 32
    → screen < 2 ^ 16
    → decode_progress
        (slice_of 0 36 (some (sealed (progress_fields (of_fields id surah ayah screen)))))
      ≡ some (of_fields id surah ayah screen)
unfolding decode_progress progress_fields sealed slice_of write32 read16
decode-sealed id surah ayah screen (sixteen x0 x1 x2 x3 x4 x5 x6 x7 x8 x9 xa xb xc xd xe xf) h hs ha
      hn =
    let fits =
      crc-fits id surah ayah screen (sixteen x0 x1 x2 x3 x4 x5 x6 x7 x8 x9 xa xb xc xd xe xf) h in
    rw
      (
        read32-bytes _ fits [],
        ==_refl,
        read16-bytes surah hs,
        read32-bytes ayah ha,
        read16-bytes screen hn,
      )
      refl

progress_apart : progress_temp_path ≢ progress_path
progress_apart = same→ne progress_temp_path progress_path (unfold same in refl)

-- A reading position whose fields fit their types, saved with success, is the one that the next
-- load finds.
pub load_reading_progress-save :
    (s : Storage) (p : ReadingProgress) (c : s.Card)
    → Fits p
    → (save_reading_progress s p c).0 ≡ true
    → load_reading_progress s (save_reading_progress s p c).1 ≡ some p
unfolding load_reading_progress save_reading_progress read
load_reading_progress-save s p c h saved =
    ap (λ (f : Option Bytes). decode_progress (slice_of 0 36 f))
      (rewrite_file-done s progress_temp_path progress_path (sealed (progress_fields p)) c
        progress_apart saved)
    ∙ decode-sealed p.content_id p.surah_id p.first_ayah_index p.screen_number
        (Sixteen-length p.content_id h.id_length) h.id_bytes h.surah_half h.ayah_word h.screen_half

page_files_apart : (progress_path ≢ page_temp_path) × (progress_path ≢ page_path)
page_files_apart = (
  same→ne progress_path page_temp_path (unfold same in refl),
  same→ne progress_path page_path (unfold same in refl),
)

page_apart : page_temp_path ≢ page_path
page_apart = same→ne page_temp_path page_path (unfold same in refl)

-- Saving the page of a picture book, with success or without, does not change the reading position
-- that is loaded.
pub load_reading_progress-save_page :
    (s : Storage) (p : PageProgress) (c : s.Card)
    → load_reading_progress s (save_page_progress s p c).1 ≡ load_reading_progress s c
unfolding load_reading_progress save_page_progress read
load_reading_progress-save_page s p c =
    ap (λ (f : Option Bytes). decode_progress (slice_of 0 36 f))
      (rewrite_file-other s page_temp_path page_path (sealed (page_fields p)) c page_apart
        progress_path page_files_apart.0 page_files_apart.1)
