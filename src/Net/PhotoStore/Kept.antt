-- ===== src/Net/PhotoStore/Kept.antt =====
-- firmware/wifi/photo_store.cpp: no operation leaves an incomplete file under a photo's name.
use diy_ebook.Prelude.{
  ℕ, ◌≡◌, ◌≢◌, refl, ap, sym, ◌∙◌, ◌⊎◌, inl, inr, Bool, true, false, ◌&&◌, not, Option, none, some,
  length, take, ◌==◌, if◌then◌else◌, arith, Bool-cases, same, same→eq, same→ne, either,
}
use diy_ebook.Qpk.ByteOrder.{Bytes}
use diy_ebook.Storage.{Storage, FilePath, exists, size, read, size_of, slice_of}
use diy_ebook.Protocol.{Error, ok}
use diy_ebook.Net.PhotoStore.{
  photo_dir, photo_header_bytes, photo_file_bytes, parse_photo_header, append_part, at_offset,
  write_part, part_size, write_sized, write_at, move_photo, install_photo, is_header, has_size,
  finish_part, remove_part, remove_both,
}

-- A photo that is whole: the size of a photo behind a good header. No file is as good.
unfoldable pub is_whole : Option Bytes → Bool
is_whole none = true
is_whole (some b) = length b == photo_file_bytes && parse_photo_header (take photo_header_bytes b)

module _ (s : Storage) where
  open s use {Card, file, append, remove, rename, mkdirs}

  module _ (part q : FilePath) (apart : q ≢ part) where
    append_part-other :
        (offset : ℕ) (chunk : Bytes) (c : Card)
        → file (append_part s part offset chunk c).1 q ≡ file c q
    unfolding append_part
    append_part-other offset chunk c = ground (arith, s.append_other part q chunk c apart)

    at_offset-other :
        (have offset : ℕ) (chunk : Bytes) (c : Card)
        → file (at_offset s part have offset chunk c).1 q ≡ file c q
    unfolding at_offset
    at_offset-other have offset chunk c = ground (arith, append_part-other offset chunk c)

    write_part-other :
        (have offset : ℕ) (chunk : Bytes) (c : Card)
        → file (write_part s part have offset chunk c).1 q ≡ file c q
    unfolding write_part
    write_part-other have offset chunk c = ground (
      arith,
      at_offset-other have offset chunk c,
      at_offset-other 0 offset chunk (remove part c).1,
      s.remove_other part q c apart,
    )

    write_sized-other :
        (have : Option ℕ) (offset : ℕ) (chunk : Bytes) (c : Card)
        → file (write_sized s part have offset chunk c).1 q ≡ file c q
    write_sized-other none offset chunk c = refl
    write_sized-other (some have) offset chunk c = write_part-other have offset chunk c

    pub write_at-other :
        (offset : ℕ) (chunk : Bytes) (c : Card)
        → file (write_at s (some part) offset chunk c).1 q ≡ file c q
    write_at-other offset chunk c = ground (
      arith,
      s.mkdirs_other photo_dir q c,
      write_sized-other (part_size s part (mkdirs photo_dir c).1) offset chunk
          (mkdirs photo_dir c).1,
    )

    -- What a removal leaves is the file, or nothing.
    remove-whole :
        (p : FilePath) (c : Card)
        → is_whole (file c q) ≡ true
        → is_whole (file (remove p c).1 q) ≡ true
    remove-whole p c h = elim (Bool-cases (same q p)) [
      | inl e ↦
          let here = same→eq q p e in
          elim (Bool-cases (remove p c).0) [
            | inl done ↦
                let gone : file (remove p c).1 q ≡ none =
                  ap (file (remove p c).1) here ∙ s.remove_done p c done in
                rw gone (unfold is_whole in refl)
            | inr stuck ↦
                let kept : file (remove p c).1 q ≡ file c q =
                  ap (file (remove p c).1) here
                  ∙ s.remove_failed p c stuck
                  ∙ ap (file c) (sym here) in
                rw kept h
          ]
      | inr e ↦ rw (s.remove_other p q c (same→ne q p e)) h
    ]

    move_photo-whole :
        (photo : FilePath) (c : Card)
        → part ≢ photo
        → is_whole (file c q) ≡ true
        → is_whole (file c part) ≡ true
        → is_whole (file (move_photo s part photo c).1 q) ≡ true
    unfolding move_photo
    move_photo-whole photo c names h good = elim (Bool-cases (rename part photo c).0) [
      | inl done ↦ elim (Bool-cases (same q photo)) [
        | inl e ↦
            let here = same→eq q photo e in
            let moved : file (rename part photo c).1 q ≡ file c part =
              ap (file (rename part photo c).1) here ∙ (s.rename_done part photo c names done).0 in
            rw (done, moved) good
        | inr e ↦ rw (done, s.rename_other part photo q c apart (same→ne q photo e)) h
      ]
      | inr stuck ↦ rw (stuck, s.rename_failed part photo q c stuck) h
    ]

    install_photo-whole :
        (photo : FilePath) (c : Card)
        → part ≢ photo
        → is_whole (file c q) ≡ true
        → is_whole (file c part) ≡ true
        → is_whole (file (install_photo s part photo c).1 q) ≡ true
    unfolding install_photo
    install_photo-whole photo c names h good =
        let after = remove-whole photo c h in
        let same_part : is_whole (file (remove photo c).1 part) ≡ true =
          ap is_whole (s.remove_other photo part c names) ∙ good in
        choose (exists s photo c) (Bool-cases (remove photo c).0) after same_part
      where
        choose :
            (present : Bool)
            → ((remove photo c).0 ≡ true) ⊎ ((remove photo c).0 ≡ false)
            → is_whole (file (remove photo c).1 q) ≡ true
            → is_whole (file (remove photo c).1 part) ≡ true
            → is_whole (
                file
                  (if present
                    then (if (remove photo c).0
                        then move_photo s part photo (remove photo c).1
                        else (Error.storage_error, (remove photo c).1))
                    else move_photo s part photo c).1
                  q)
              ≡ true
        choose false either_way after same_part = move_photo-whole photo c names h good
        choose true (inl done) after same_part =
            rw done (move_photo-whole photo (remove photo c).1 names after same_part)
        choose true (inr stuck) after same_part = rw stuck after

-- What finish has checked of the part.
pub verified :
    (o : Option Bytes)
    → has_size (size_of o) photo_file_bytes ≡ true
    → is_header (slice_of 0 photo_header_bytes o) ≡ true
    → is_whole o ≡ true
unfolding is_whole size_of slice_of
verified none h k = cc
verified (some b) h k = rw h (second (length (take photo_header_bytes b) == photo_header_bytes) k)
  where
    second : (a : Bool) {d : Bool} → (a && d) ≡ true → d ≡ true
    second true e = e
    second false e = cc

module _ (s : Storage) (part q : FilePath) (apart : q ≢ part) where
  open s use {Card, file, remove}

  pub finish_part-whole :
      (photo : FilePath) (c : Card)
      → part ≢ photo
      → is_whole (file c q) ≡ true
      → is_whole (file (finish_part s part photo c).1 q) ≡ true
  unfolding finish_part size read
  finish_part-whole photo c names h =
      choose (exists s part c) (Bool-cases (has_size (size_of (file c part)) photo_file_bytes))
        (Bool-cases (is_header (slice_of 0 photo_header_bytes (file c part))))
    where
      sized : Bool
      sized = has_size (size_of (file c part)) photo_file_bytes

      headed : Bool
      headed = is_header (slice_of 0 photo_header_bytes (file c part))

      choose :
          (present : Bool)
          → (sized ≡ true) ⊎ (sized ≡ false)
          → (headed ≡ true) ⊎ (headed ≡ false)
          → is_whole (
              file
                (if not present
                  then (Error.no_session, c)
                  else if not sized
                  then (Error.size_mismatch, c)
                  else if not headed
                  then (Error.verify_failed, (remove part c).1)
                  else install_photo s part photo c).1
                q)
            ≡ true
      choose false size_test header_test = h
      choose true (inr short) header_test = rw short h
      choose true (inl long) (inr bad) = rw (long, bad) (remove-whole s part q apart part c h)
      choose true (inl long) (inl good) =
          rw (long, good)
            (install_photo-whole s part q apart photo c names h (verified (file c part) long good))

  remove_part-whole :
      (had_part : Bool) (c : Card)
      → is_whole (file c q) ≡ true
      → is_whole (file (remove_part s had_part part c).1 q) ≡ true
  unfolding remove_part
  remove_part-whole false c h = h
  remove_part-whole true c h =
      let after = remove-whole s part q apart part c h in
      either (λ (r : Error × Card). is_whole (file r.1 q) ≡ true) (remove part c).0
        (ok, (remove part c).1) (Error.storage_error, (remove part c).1) after after

  pub remove_both-whole :
      (photo : FilePath) (c : Card)
      → is_whole (file c q) ≡ true
      → is_whole (file (remove_both s part photo c).1 q) ≡ true
  unfolding remove_both
  remove_both-whole photo c h =
      let after = remove-whole s part q apart photo c h in
      either (λ (r : Error × Card). is_whole (file r.1 q) ≡ true)
        (not (exists s photo c) && not (exists s part c)) _ _ h
        (either (λ (r : Error × Card). is_whole (file r.1 q) ≡ true) (exists s photo c) _ _
          (either (λ (r : Error × Card). is_whole (file r.1 q) ≡ true) (remove photo c).0 _
            (Error.storage_error, (remove photo c).1)
            (remove_part-whole (exists s part c) (remove photo c).1 after) after)
          (remove_part-whole (exists s part c) c h))
