-- ===== src/Net/PhotoStore/Grown.antt =====
-- firmware/wifi/photo_store.cpp: what writeChunk does to the part when it succeeds.
use diy_ebook.Prelude.{
  ℕ, ◌+◌, ◌≤◌, ◌≡◌, refl, ap, sym, subst, ◌∙◌, ◌⊎◌, inl, inr, Bool, true, false, ◌&&◌, Option, none,
  some, List, [], ◌∷◌, ◌++◌, length, ltb, ◌==◌, if◌then◌else◌, arith, Bool-cases, length-append,
}
use diy_ebook.Qpk.ByteOrder.{Bytes}
use diy_ebook.Storage.{Storage, FilePath, size_of, is_present, contents}
use diy_ebook.Protocol.{Error, ok}
use diy_ebook.Net.Allowed.{valid_photo_name}
use diy_ebook.Net.PhotoStore.{
  photo_dir, part_extension, photo_file_bytes, fails, ChunkReply, append_part, at_offset,
  write_part, part_size, write_at, write_chunk,
}
use diy_ebook.Net.PhotoStore.Paths.{path_for, build_path-valid}

module _ (s : Storage) (part : FilePath) where
  open s use {Card, file, append, remove, rename}

  abbrev pub bytes_at : Card → Bytes
  bytes_at c = contents (file c part)

  append_part-ok :
      (offset : ℕ) (chunk : Bytes) (c : Card)
      → (append_part s part offset chunk c).0.error ≡ ok
      → (bytes_at (append_part s part offset chunk c).1 ≡ bytes_at c ++ chunk)
        × ((append_part s part offset chunk c).0.received ≡ some (offset + length chunk))
        × (offset + length chunk ≤ photo_file_bytes)
  unfolding append_part
  append_part-ok offset chunk c h =
      let done =
        λ (e : (append part chunk c).0 ≡ true). ap contents (s.append_done part chunk c e) in
      ground (arith, done)

  at_offset-ok :
      (have offset : ℕ) (chunk : Bytes) (c : Card)
      → (at_offset s part have offset chunk c).0.error ≡ ok
      → (offset ≡ have)
        × (bytes_at (at_offset s part have offset chunk c).1 ≡ bytes_at c ++ chunk)
        × ((at_offset s part have offset chunk c).0.received ≡ some (offset + length chunk))
        × (offset + length chunk ≤ photo_file_bytes)
  unfolding at_offset
  at_offset-ok have offset chunk c h = ground (arith, append_part-ok offset chunk c)

  -- What stays of the part when a chunk comes in.
  abbrev pub kept : ℕ → Bytes → Bytes
  kept offset old = if offset == 0 then [] else old

  -- The part grew by the chunk, and the reply tells its size.
  abbrev pub Grown : Bytes → ℕ → Bytes → ChunkReply × Card → Type 0
  Grown old offset chunk result =
      (bytes_at result.1 ≡ kept offset old ++ chunk)
      × (length (kept offset old) ≡ offset)
      × (result.0.received ≡ some (length (bytes_at result.1)))
      × (length (bytes_at result.1) ≤ photo_file_bytes)

  grown :
      (old base : Bytes) (offset : ℕ) (chunk : Bytes) (c d : Card) (r : ChunkReply)
      → bytes_at d ≡ base ++ chunk
      → base ≡ kept offset old
      → length base ≡ offset
      → r.received ≡ some (offset + length chunk)
      → offset + length chunk ≤ photo_file_bytes
      → Grown old offset chunk (r, d)
  grown old base offset chunk c d r bytes same_base long told small =
      let total : length (bytes_at d) ≡ offset + length chunk =
        ap (λ (l : Bytes). length l) bytes
        ∙ length-append base chunk
        ∙ ap (λ (n : ℕ). n + length chunk) long in
      (
        rw (← same_base) bytes,
        rw (← same_base) long,
        told ∙ ap some (sym total),
        omega (arith, total),
      )

  empty_of_length : (b : Bytes) → length b ≡ 0 → b ≡ []
  empty_of_length [] h = refl
  empty_of_length (x ∷ b) h = absurd (omega arith)

  kept_base : (offset : ℕ) (old : Bytes) → offset ≡ length old → old ≡ kept offset old
  kept_base offset old h = elim (Bool-cases (offset == 0)) [
    | inl e ↦ rw e (empty_of_length old (ground arith))
    | inr e ↦ rw e refl
  ]

  at_offset-Grown :
      (old : Bytes) (have offset : ℕ) (chunk : Bytes) (c : Card)
      → length (bytes_at c) ≡ have
      → (offset ≡ have → bytes_at c ≡ kept offset old)
      → (at_offset s part have offset chunk c).0.error ≡ ok
      → Grown old offset chunk (at_offset s part have offset chunk c)
  at_offset-Grown old have offset chunk c long base h =
      let r = at_offset-ok have offset chunk c h in
      grown old (bytes_at c) offset chunk c (at_offset s part have offset chunk c).1
        (at_offset s part have offset chunk c).0 r.1 (base r.0) (long ∙ sym r.0) r.2 r.3

  write_part-ok :
      (offset : ℕ) (chunk : Bytes) (c : Card)
      → (write_part s part (length (bytes_at c)) offset chunk c).0.error ≡ ok
      → Grown (bytes_at c) offset chunk (write_part s part (length (bytes_at c)) offset chunk c)
  unfolding write_part
  write_part-ok offset chunk c =
      choose (Bool-cases (offset == 0 && ltb 0 have)) (Bool-cases (remove part c).0)
    where
      old : Bytes
      old = bytes_at c

      have : ℕ
      have = length old

      result : ChunkReply × Card
      result =
          if offset == 0 && ltb 0 have
          then (if (remove part c).0
              then at_offset s part 0 offset chunk (remove part c).1
              else (fails Error.storage_error, (remove part c).1))
          else at_offset s part have offset chunk c

      choose :
          ((offset == 0 && ltb 0 have) ≡ true) ⊎ ((offset == 0 && ltb 0 have) ≡ false)
          → ((remove part c).0 ≡ true) ⊎ ((remove part c).0 ≡ false)
          → result.0.error ≡ ok
          → Grown old offset chunk result
      choose (inl restart) (inl done) h =
          let gone : bytes_at (remove part c).1 ≡ [] = ap contents (s.remove_done part c done) in
          let zero_offset : (offset == 0) ≡ true = ground arith in
          let h' : (at_offset s part 0 offset chunk (remove part c).1).0.error ≡ ok =
            rw (restart, done) at h in
          rw (restart, done)
            (at_offset-Grown old 0 offset chunk (remove part c).1 (rw gone refl)
              (λ e. rw zero_offset gone) h')
      choose (inl restart) (inr stuck) h = absurd (ground arith)
      choose (inr go) removal h =
          let h' : (at_offset s part have offset chunk c).0.error ≡ ok = rw go at h in
          rw go (at_offset-Grown old have offset chunk c refl (kept_base offset old) h')

  part_size-length : (c : Card) → part_size s part c ≡ some (length (bytes_at c))
  unfolding part_size
  part_size-length c = by_file (file c part)
    where
      by_file :
          (o : Option Bytes)
          → (if is_present o then size_of o else some 0) ≡ some (length (contents o))
      by_file none = refl
      by_file (some b) = refl

  write_at-ok :
      (offset : ℕ) (chunk : Bytes) (c : Card)
      → (write_at s (some part) offset chunk c).0.error ≡ ok
      → Grown (bytes_at c) offset chunk (write_at s (some part) offset chunk c)
  write_at-ok offset chunk c h = elim (Bool-cases made.0) [
    | inl done ↦
        let sized = part_size-length made.1 in
        let written : write_at s (some part) offset chunk c
            ≡ write_part s part (length (bytes_at made.1)) offset chunk made.1 =
          rw (done, sized) refl in
        let old : bytes_at made.1 ≡ bytes_at c = ap contents (s.mkdirs_other photo_dir part c) in
        subst (λ (b : Bytes). Grown b offset chunk (write_at s (some part) offset chunk c)) old
          (subst (Grown (bytes_at made.1) offset chunk) (sym written) (
            write_part-ok offset chunk made.1
              (ap (λ (r : ChunkReply × Card). r.0.error) (sym written) ∙ h)))
    | inr stuck ↦ absurd (ground arith)
  ]
    where
      made : Bool × Card
      made = s.mkdirs photo_dir c

-- Where write_chunk answers that all is well, the part is what it was, or nothing for offset 0,
-- followed by the chunk, the offset is the length of what was kept, and the reply tells the length
-- of the part, which is at most the size of a photo.
pub write_chunk-Grown :
    (s : Storage) (name : List ℕ) (offset : ℕ) (chunk : Bytes) (c : s.Card)
    → (write_chunk s name offset chunk c).0.error ≡ ok
    → Grown s
        (path_for part_extension name)
        (contents (s.file c (path_for part_extension name)))
        offset
        chunk
        (write_chunk s name offset chunk c)
unfolding write_chunk
write_chunk-Grown s name offset chunk c h = elim (Bool-cases (valid_photo_name name)) [
  | inl valid ↦
      let path = build_path-valid name part_extension valid (omega arith) in
      let h' : (write_at s (some (path_for part_extension name)) offset chunk c).0.error ≡ ok =
        rw (valid, path) at h in
      rw (valid, path) (write_at-ok s (path_for part_extension name) offset chunk c h')
  | inr bad ↦ absurd (ground arith)
]
