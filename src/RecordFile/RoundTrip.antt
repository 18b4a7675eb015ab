-- ===== src/RecordFile/RoundTrip.antt =====
-- A saved list loads as the same list.
use diy_ebook.Prelude.{
  ℕ, ◌+◌, ◌*◌, ◌≤◌, ◌≡◌, ◌⊎◌, inl, inr, refl, ap, ap₂, ◌∙◌, arith, true, false, Option, none, some,
  List, [], ◌∷◌, ◌++◌, take, drop, length, All, length-append, length-take, take-append,
  drop-append, take-all,
}
use diy_ebook.Qpk.ByteOrder.{
  Bytes, IsByte, at, read16, read32, write16, write32, read16-bytes, read32-bytes,
}
use diy_ebook.Qpk.Crc.{crc32, crc32-lt}
use diy_ebook.Storage.{Storage, read, size}
use diy_ebook.Storage.Commit.{rewrite_file-done, rewrite_file-failed}
use diy_ebook.Slots.{Slots, IsValid, listed}
use diy_ebook.RecordFile.{
  Format, IsLawful, header_bytes, version, encode_all, decode_all, header, file_bytes, parse,
  acceptable, parse_read, load_sized, load_records, fill, load, save,
}

module _ {A : Type 0} (f : Format A) (laws : IsLawful f) where
  length-encode_all :
      (xs : List A) → All f.Fits xs → length (encode_all f xs) ≡ length xs * f.record_bytes
  unfolding encode_all
  length-encode_all [] h = omega arith
  length-encode_all (x ∷ xs) h =
      length-append (f.encode x) (encode_all f xs)
      ∙ omega (arith, laws.length_encode x h.0, length-encode_all xs h.1)

  All-append : (xs ys : Bytes) → All IsByte xs → All IsByte ys → All IsByte (xs ++ ys)
  All-append [] ys h k = k
  All-append (x ∷ xs) ys h k = (h.0, All-append xs ys h.1 k)

  encode_all-bytes : (xs : List A) → All f.Fits xs → All IsByte (encode_all f xs)
  unfolding encode_all
  encode_all-bytes [] h = tt
  encode_all-bytes (x ∷ xs) h =
      All-append (f.encode x) (encode_all f xs) (laws.encode_bytes x h.0) (encode_all-bytes xs h.1)

  drop-encode : (x : A) (rest : Bytes) → f.Fits x → drop f.record_bytes (f.encode x ++ rest) ≡ rest
  drop-encode x rest h = rw (← laws.length_encode x h) (drop-append (f.encode x) rest)

  decode_all-encode_all :
      (xs : List A) → All f.Fits xs → decode_all f (length xs) (encode_all f xs) ≡ xs
  unfolding encode_all decode_all
  decode_all-encode_all [] h = refl
  decode_all-encode_all (x ∷ xs) h =
      ap₂ (λ (y : A) (t : Bytes). y ∷ decode_all f (length xs) t)
        (laws.decode_encode x (encode_all f xs) h.0) (drop-encode x (encode_all f xs) h.0)
      ∙ ap (λ (t : List A). x ∷ t) (decode_all-encode_all xs h.1)

  length-file_bytes :
      (xs : List A)
      → All f.Fits xs
      → length (file_bytes f xs) ≡ header_bytes + length xs * f.record_bytes
  unfolding file_bytes header write16 write32
  length-file_bytes xs h = omega (arith, length-encode_all xs h)

  parse-accepts :
      (b records : Bytes) (n : ℕ)
      → at b 0 ≡ f.magic0
      → at b 1 ≡ f.magic1
      → at b 2 ≡ f.magic2
      → at b 3 ≡ f.magic3
      → read16 (drop 4 b) ≡ version
      → read16 (drop 6 b) ≡ n
      → drop 12 b ≡ records
      → n ≤ f.capacity
      → length b ≡ header_bytes + n * f.record_bytes
      → take (n * f.record_bytes) records ≡ records
      → read32 (drop 8 b) ≡ crc32 records
      → parse f b ≡ some (decode_all f n records)
  unfolding parse
  parse-accepts b records n m0 m1 m2 m3 v c r fits len whole sum =
      rw (m0, m1, m2, m3, v, c, r, whole, sum) (ground arith)

  -- What was written for a list within the capacity parses as that list.
  pub parse-file_bytes :
      (xs : List A) → All f.Fits xs → length xs ≤ f.capacity → parse f (file_bytes f xs) ≡ some xs
  parse-file_bytes xs h fits =
      let records = encode_all f xs in
      let len = length-encode_all xs h in
      parse-accepts (file_bytes f xs) records (length xs) (unfold file_bytes in refl)
        (unfold file_bytes in refl) (unfold file_bytes in refl) (unfold file_bytes in refl)
        (unfold file_bytes write16 in read16-bytes 1 (omega arith) _)
        (unfold file_bytes write16 in
          read16-bytes (length xs) (omega (arith, laws.capacity_fits)) _)
        (unfold file_bytes write16 write32 in refl) fits (length-file_bytes xs h)
        (rw (← len) (take-all records))
        (unfold file_bytes write16 write32 in
          read32-bytes (crc32 records) (crc32-lt records (encode_all-bytes xs h)) _)
      ∙ ap some (decode_all-encode_all xs h)

module _ {A : Type 0} (f : Format A) (s : Storage) where
  load_records-present :
      (c : s.Card) (b : Bytes)
      → s.file c f.path ≡ some b
      → header_bytes ≤ length b
      → length b ≤ header_bytes + f.capacity * f.record_bytes
      → load_records f s c ≡ parse f b
  unfolding load_records acceptable parse_read load_sized read size
  load_records-present c b e lo hi = rw e (ground (arith, e, take-all b))

  load_records-absent : (c : s.Card) → s.file c f.path ≡ none → load_records f s c ≡ none
  unfolding load_records load_sized size
  load_records-absent c e = rw e

  -- What `load` finds depends only on the file.
  load_records-same :
      (c c' : s.Card)
      → s.file c' f.path ≡ s.file c f.path
      → load_records f s c' ≡ load_records f s c
  unfolding load_records load_sized size read
  load_records-same c c' e = ground (arith, e)

  listed-fill : (xs : List A) (slots : Slots A) → listed (fill f (some xs) slots) ≡ xs
  unfolding fill
  listed-fill xs slots = take-append xs (drop (length xs) slots.items)

module _ {A : Type 0} (f : Format A) (laws : IsLawful f) (s : Storage) where
  length-listed : (slots : Slots A) → IsValid f.capacity slots → length (listed slots) ≤ f.capacity
  length-listed slots v = omega (arith, length-take slots.count slots.items, v.within)

  size_bound : (n m r : ℕ) → n ≤ m → 12 + n * r ≤ 12 + m * r
  size_bound n m r h = grind arith

  -- After a save that reports success, a load on any later start of the device has the same list.
  pub load-save :
      (slots fresh : Slots A) (c : s.Card)
      → IsValid f.capacity slots
      → All f.Fits (listed slots)
      → (save f s slots c).0 ≡ true
      → listed (load f s fresh (save f s slots c).1) ≡ listed slots
  unfolding load
  load-save slots fresh c v fits saved =
      let xs = listed slots in
      let len = length-file_bytes f laws xs fits in
      ap (λ (o : Option (List A)). listed (fill f o fresh))
        (load_records-present f s (save f s slots c).1 (file_bytes f xs)
            (unfold save in
              rewrite_file-done s f.temp_path f.path (file_bytes f xs) c laws.apart saved)
            (omega (arith, len))
            (omega (
              arith,
              len,
              size_bound (length xs) f.capacity f.record_bytes (length-listed slots v),
            ))
          ∙ parse-file_bytes f laws xs fits (length-listed slots v))
      ∙ listed-fill f s xs fresh

  -- After a failed save of a record file, a load finds what it would have found before, or nothing.
  pub load-save_failed :
      (slots : Slots A) (c : s.Card)
      → (save f s slots c).0 ≡ false
      → (load_records f s (save f s slots c).1 ≡ load_records f s c)
        ⊎ (load_records f s (save f s slots c).1 ≡ none)
  unfolding save
  load-save_failed slots c failed =
      elim (rewrite_file-failed s f.temp_path f.path (file_bytes f (listed slots)) c laws.apart
        failed) [
          | inl e ↦ inl (load_records-same f s c _ e)
          | inr e ↦ inr (load_records-absent f s _ e)
        ]
