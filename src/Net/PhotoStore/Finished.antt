-- ===== src/Net/PhotoStore/Finished.antt =====
-- firmware/wifi/photo_store.cpp: what finish does when it succeeds, and load after it.
use diy_ebook.Prelude.{
  take_long, ℕ, ◌≤◌, ◌≡◌, ◌≢◌, refl, ap, sym, ◌∙◌, ◌⊎◌, inl, inr, Bool, true, false, ◌&&◌, not,
  none, some, List, length, take, drop, ltb, if◌then◌else◌, arith, Bool-cases, length-drop,
  length-take, ==_iff,
}
use diy_ebook.Qpk.ByteOrder.{Bytes}
use diy_ebook.Storage.{Storage, FilePath, exists, size, read, size_of, slice_of, is_present}
use diy_ebook.Protocol.{Error, ok}
use diy_ebook.Net.Allowed.{valid_photo_name}
use diy_ebook.Net.PhotoStore.{
  photo_extension, part_extension, photo_header_bytes, photo_pixel_bytes, photo_file_bytes,
  move_photo, install_photo, is_header, has_size, finish_part, finish, pixels_of, load,
}
use diy_ebook.Net.PhotoStore.Kept.{is_whole, verified}
use diy_ebook.Net.PhotoStore.Paths.{path_for, paths_apart, build_path-valid}

first_of : (a d : Bool) → (a && d) ≡ true → a ≡ true
first_of a d h = ground arith

second_of : (a d : Bool) → (a && d) ≡ true → d ≡ true
second_of a d h = ground arith

ge→ltb : {a b : ℕ} → b ≤ a → ltb a b ≡ false
ge→ltb h = ground arith

module _ (s : Storage) (part photo : FilePath) (names : part ≢ photo) where
  open s use {Card, file, remove, rename}

  move_photo-ok :
      (c : Card)
      → (move_photo s part photo c).0 ≡ ok
      → (file (move_photo s part photo c).1 photo ≡ file c part)
        × (file (move_photo s part photo c).1 part ≡ none)
  unfolding move_photo
  move_photo-ok c h = ground (arith, s.rename_done part photo c names)

  install_photo-ok :
      (c : Card)
      → (install_photo s part photo c).0 ≡ ok
      → (file (install_photo s part photo c).1 photo ≡ file c part)
        × (file (install_photo s part photo c).1 part ≡ none)
  unfolding install_photo
  install_photo-ok c h =
      ground (
        arith,
        move_photo-ok c,
        move_photo-ok (remove photo c).1,
        s.remove_other photo part c names,
      )

  -- What a finished upload has done.
  abbrev pub Moved : Card → Error × Card → Type 0
  Moved c result =
      (is_whole (file c part) ≡ true)
      × (is_present (file c part) ≡ true)
      × (file result.1 photo ≡ file c part)
      × (file result.1 part ≡ none)

  finish_part-Moved :
      (c : Card) → (finish_part s part photo c).0 ≡ ok → Moved c (finish_part s part photo c)
  unfolding finish_part exists size read
  finish_part-Moved c = choose (Bool-cases present) (Bool-cases sized) (Bool-cases headed)
    where
      present : Bool
      present = is_present (file c part)

      sized : Bool
      sized = has_size (size_of (file c part)) photo_file_bytes

      headed : Bool
      headed = is_header (slice_of 0 photo_header_bytes (file c part))

      result : Error × Card
      result =
          if not present
          then (Error.no_session, c)
          else if not sized
          then (Error.size_mismatch, c)
          else if not headed
          then (Error.verify_failed, (remove part c).1)
          else install_photo s part photo c

      choose :
          (present ≡ true) ⊎ (present ≡ false)
          → (sized ≡ true) ⊎ (sized ≡ false)
          → (headed ≡ true) ⊎ (headed ≡ false)
          → result.0 ≡ ok
          → Moved c result
      choose (inr absent) b d h = absurd (ground arith)
      choose (inl there) (inr short) d h = absurd (ground arith)
      choose (inl there) (inl long) (inr bad) h = absurd (ground arith)
      choose (inl there) (inl long) (inl good) h =
          let installed = install_photo-ok c (rw (there, long, good) at h) in
          rw (there, long, good) (verified (file c part) long good, refl, installed.0, installed.1)

pub finish-Moved :
    (s : Storage) (name : List ℕ) (c : s.Card)
    → (finish s name c).0 ≡ ok
    → Moved s
        (path_for part_extension name)
        (path_for photo_extension name)
        (λ e. paths_apart name name (sym e))
        c
        (finish s name c)
unfolding finish
finish-Moved s name c h = elim (Bool-cases (valid_photo_name name)) [
  | inl valid ↦
      let part_path = build_path-valid name part_extension valid (omega arith) in
      let photo_path = build_path-valid name photo_extension valid (omega arith) in
      let h' : (finish_part s (path_for part_extension name) (path_for photo_extension name) c).0
          ≡ ok =
        rw (valid, part_path, photo_path) at h in
      rw (valid, part_path, photo_path)
        (finish_part-Moved s (path_for part_extension name) (path_for photo_extension name)
          (λ e. paths_apart name name (sym e)) c h')
  | inr bad ↦ absurd (ground arith)
]

finish-valid :
    (s : Storage) (name : List ℕ) (c : s.Card)
    → (finish s name c).0 ≡ ok
    → valid_photo_name name ≡ true
unfolding finish
finish-valid s name c h = elim (Bool-cases (valid_photo_name name)) [
  | inl valid ↦ valid
  | inr bad ↦ absurd (ground arith)
]

-- The two reads of load, on a whole photo.
header_read :
    (b : Bytes)
    → is_whole (some b) ≡ true
    → is_header (slice_of 0 photo_header_bytes (some b)) ≡ true
unfolding is_whole slice_of
header_read b h =
    let size : length b ≡ photo_file_bytes = (==_iff _ _).0 (first_of _ _ h) in
    let full : length (take photo_header_bytes b) ≡ photo_header_bytes =
      omega (arith, length-take photo_header_bytes b) in
    rw full (second_of _ _ h)

pixels_read :
    (b : Bytes)
    → is_whole (some b) ≡ true
    → pixels_of (slice_of photo_header_bytes photo_pixel_bytes (some b))
      ≡ some (drop photo_header_bytes b)
unfolding is_whole slice_of
pixels_read b h =
    let size : length b ≡ photo_file_bytes = (==_iff _ _).0 (first_of _ _ h) in
    let full : length (drop photo_header_bytes b) ≡ photo_pixel_bytes =
      omega (arith, length-drop photo_header_bytes b) in
    rw (take_long photo_pixel_bytes (drop photo_header_bytes b) (omega arith), full) refl

-- Where finish answers that all is well and the buffer has room for the pixels, load then gives
-- what followed the header in the part that was on the card.
pub load-finish :
    (s : Storage) (name : List ℕ) (capacity : ℕ) (c : s.Card) {b : Bytes}
    → photo_pixel_bytes ≤ capacity
    → s.file c (path_for part_extension name) ≡ some b
    → (finish s name c).0 ≡ ok
    → load s name capacity (finish s name c).1 ≡ some (drop photo_header_bytes b)
unfolding load read
load-finish s name capacity c {b} room part h =
    let moved = finish-Moved s name c h in
    let valid = finish-valid s name c h in
    let path = build_path-valid name photo_extension valid (omega arith) in
    let found : s.file (finish s name c).1 (path_for photo_extension name) ≡ some b =
      moved.2 ∙ part in
    let good : is_whole (some b) ≡ true = ap is_whole (sym part) ∙ moved.0 in
    let fits : ltb capacity photo_pixel_bytes ≡ false = ge→ltb room in
    rw (fits, valid, path, found, header_read b good) (pixels_read b good)
