-- ===== src/Upload/Chunks.antt =====
-- What writeChunk does to the bytes of the .part file.
use diy_ebook.Prelude.{
  ℕ, ◌+◌, ◌≤◌, ◌≡◌, ◌⊎◌, inl, inr, refl, ap, sym, ◌∙◌, subst, arith, true, false, Option, none,
  some, List, ◌++◌, length, ltb, Bool-cases,
}
use diy_ebook.Qpk.ByteOrder.{Bytes}
use diy_ebook.Storage.{Storage, FilePath, contents, size, size_of, read}
use diy_ebook.Protocol.{ok, no_session, max_chunk_bytes}
use diy_ebook.Upload.Meta.{UploadBegin, expired}
use diy_ebook.Upload.Session.{
  Reply, accept, refuse, valid_hex_id, part_size, read_meta, append_chunk, place_chunk,
  chunk_in_session, write_chunk, or_zero, discard, remove_at,
}
use diy_ebook.Upload.Placed.{
  place_chunk-ok, place_chunk-le, place_chunk-received, place_chunk-reply, place_chunk-again,
}
use diy_ebook.Upload.Paths.{meta_file, part_file, files_apart, meta_path-valid, part_path-valid}

module _ (s : Storage) (hex : List ℕ) (valid : valid_hex_id hex ≡ true)
    (long : length hex ≡ 32) where
  open s use {Card, file, append, remove}

  -- The bytes received so far.
  abbrev pub received_bytes : Card → Bytes
  received_bytes c = contents (file c (part_file hex))

  size_of-contents : (f : Option Bytes) → or_zero (size_of f) ≡ length (contents f)
  unfolding size_of
  size_of-contents none = refl
  size_of-contents (some b) = refl

  pub part_size-received : (c : Card) → part_size s hex c ≡ length (received_bytes c)
  unfolding part_size size
  part_size-received c =
      rw (part_path-valid hex valid, part_size) (size_of-contents (file c (part_file hex)))

  in_session :
      (m : UploadBegin) (offset : ℕ) (chunk : Bytes) (now_unix : ℕ) (c : Card)
      → expired m now_unix ≡ false
      → chunk_in_session s hex (some m) offset chunk now_unix c
        ≡ place_chunk s (some (part_file hex)) (length (received_bytes c)) m.size offset chunk c
  unfolding chunk_in_session
  in_session m offset chunk now_unix c live =
      rw (live, part_size-received c, part_path-valid hex valid) refl

  -- A call that succeeds found an open session.
  chunk_in_session-ok :
      (m : Option UploadBegin) (offset : ℕ) (chunk : Bytes) (now_unix : ℕ) (c : Card)
      → (chunk_in_session s hex m offset chunk now_unix c).0.error ≡ ok
      → (q : UploadBegin) × (m ≡ some q) × (expired q now_unix ≡ false)
  unfolding chunk_in_session
  chunk_in_session-ok none offset chunk now_unix c h = absurd (ground arith)
  chunk_in_session-ok (some q) offset chunk now_unix c h = elim (Bool-cases (expired q now_unix)) [
    | inl e ↦ absurd (ground arith)
    | inr e ↦ (q, refl, e)
  ]

  short_enough :
      (offset : ℕ) (chunk : Bytes) (now_unix : ℕ) (c : Card)
      → (write_chunk s hex offset chunk now_unix c).0.error ≡ ok
      → ltb max_chunk_bytes (length chunk) ≡ false
  unfolding write_chunk
  short_enough offset chunk now_unix c h = ground arith

  opened :
      (offset : ℕ) (chunk : Bytes) (now_unix : ℕ) (c : Card)
      → ltb max_chunk_bytes (length chunk) ≡ false
      → write_chunk s hex offset chunk now_unix c
        ≡ chunk_in_session s hex (read_meta s hex c) offset chunk now_unix c
  unfolding write_chunk
  opened offset chunk now_unix c h = rw h refl

  -- What a call that succeeds has run.
  write_chunk-place :
      (offset : ℕ) (chunk : Bytes) (now_unix : ℕ) (c : Card)
      → (write_chunk s hex offset chunk now_unix c).0.error ≡ ok
      → (q : UploadBegin) × (read_meta s hex c ≡ some q)
        × (expired q now_unix ≡ false)
        × (write_chunk s hex offset chunk now_unix c
            ≡ place_chunk s
                (some (part_file hex))
                (length (received_bytes c))
                q.size
                offset
                chunk
                c)
  write_chunk-place offset chunk now_unix c h =
      let e = opened offset chunk now_unix c (short_enough offset chunk now_unix c h) in
      let (q, found, live) =
        chunk_in_session-ok (read_meta s hex c) offset chunk now_unix c
          (subst (λ (r : Reply × Card). r.0.error ≡ ok) e h) in
      (
        q,
        found,
        live,
        e
            ∙ ap (λ (m : Option UploadBegin). chunk_in_session s hex m offset chunk now_unix c)
                found
            ∙ in_session q offset chunk now_unix c live,
      )

  -- For a valid content id of 32 characters, where write_chunk accepts a chunk, the card holds a
  -- session that is not expired, the chunk is within the largest length and ends within the
  -- declared size, the reply says how many bytes are received after the call, and either the card
  -- does not change and the chunk ends within the bytes received before (the bytes are not
  -- compared), or its offset is the number of bytes received before and it is added to them.
  pub write_chunk-ok :
      (offset : ℕ) (chunk : Bytes) (now_unix : ℕ) (c : Card)
      → (write_chunk s hex offset chunk now_unix c).0.error ≡ ok
      → (q : UploadBegin) × (read_meta s hex c ≡ some q)
        × (expired q now_unix ≡ false)
        × (length chunk ≤ max_chunk_bytes)
        × (offset + length chunk ≤ q.size)
        × ((write_chunk s hex offset chunk now_unix c).0
            ≡ accept (length (received_bytes (write_chunk s hex offset chunk now_unix c).1)))
        × ((((write_chunk s hex offset chunk now_unix c).1 ≡ c)
              × (offset + length chunk ≤ length (received_bytes c)))
            ⊎ ((offset ≡ length (received_bytes c))
                × (received_bytes (write_chunk s hex offset chunk now_unix c).1
                    ≡ received_bytes c ++ chunk)))
  write_chunk-ok offset chunk now_unix c h =
      let (q, found, live, e) = write_chunk-place offset chunk now_unix c h in
      let n = length (received_bytes c) in
      let short : length chunk ≤ max_chunk_bytes =
        ground (arith, short_enough offset chunk now_unix c h) in
      let accepted = subst (λ (r : Reply × Card). r.0.error ≡ ok) e h in
      let (total, reached, fits) =
        place_chunk-received s (part_file hex) n q.size offset chunk c refl accepted in
      rw e (
        q,
        found,
        live,
        short,
        fits,
        place_chunk-reply s (part_file hex) n q.size offset chunk c refl accepted,
        place_chunk-ok s (part_file hex) n q.size offset chunk c accepted,
      )

  meta_kept :
      (part : Option FilePath) (current total offset : ℕ) (chunk : Bytes) (c : Card)
      → part ≡ some (part_file hex)
      → file (place_chunk s part current total offset chunk c).1 (meta_file hex)
        ≡ file c (meta_file hex)
  unfolding place_chunk append_chunk
  meta_kept none current total offset chunk c h = cc
  meta_kept (some p) current total offset chunk c h = ground (
    arith,
    s.append_other p (meta_file hex) chunk c (λ e. files_apart hex long (e ∙ ground arith)),
  )

  pub read_meta-file :
      (c d : Card)
      → file d (meta_file hex) ≡ file c (meta_file hex)
      → read_meta s hex d ≡ read_meta s hex c
  unfolding read_meta read
  read_meta-file c d h = rw (meta_path-valid hex valid, read_meta, h) refl

  -- For a valid content id of 32 characters, sending an accepted chunk again at the same time is
  -- accepted, reports the bytes received and changes nothing.
  pub write_chunk-retry :
      (offset : ℕ) (chunk : Bytes) (now_unix : ℕ) (c : Card)
      → (write_chunk s hex offset chunk now_unix c).0.error ≡ ok
      → write_chunk s hex offset chunk now_unix (write_chunk s hex offset chunk now_unix c).1 ≡ (
        accept (length (received_bytes (write_chunk s hex offset chunk now_unix c).1)),
        (write_chunk s hex offset chunk now_unix c).1,
      )
  write_chunk-retry offset chunk now_unix c h =
      let (q, found, live, e) = write_chunk-place offset chunk now_unix c h in
      let n = length (received_bytes c) in
      let d = (place_chunk s (some (part_file hex)) n q.size offset chunk c).1 in
      let (total, reached, fits) =
        place_chunk-received s (part_file hex) n q.size offset chunk c refl
          (subst (λ (r : Reply × Card). r.0.error ≡ ok) e h) in
      let again : write_chunk s hex offset chunk now_unix d
          ≡ (accept (length (received_bytes d)), d) =
        opened offset chunk now_unix d (short_enough offset chunk now_unix c h)
        ∙ ap (λ (m : Option UploadBegin). chunk_in_session s hex m offset chunk now_unix d)
            (read_meta-file c d (meta_kept (some (part_file hex)) n q.size offset chunk c refl)
              ∙ found)
        ∙ in_session q offset chunk now_unix d live
        ∙ place_chunk-again s (part_file hex) (length (received_bytes d)) q.size offset chunk d
            (omega arith) fits in
      subst
        (λ (r : Reply × Card).
          write_chunk s hex offset chunk now_unix r.1 ≡ (accept (length (received_bytes r.1)), r.1))
        (sym e) again

  removed-le :
      (p : FilePath) (c : Card)
      → length (contents (file (remove p c).1 p)) ≤ length (contents (file c p))
  removed-le p c = elim (Bool-cases (remove p c).0) [
    | inl e ↦ rw (s.remove_done p c e) (omega arith)
    | inr e ↦ rw (s.remove_failed p c e) (omega arith)
  ]

  discarded-le : (c : Card) → length (received_bytes (discard s hex c)) ≤ length (received_bytes c)
  unfolding discard remove_at
  discarded-le c =
      rw
        (
          part_path-valid hex valid,
          meta_path-valid hex valid,
          discard,
          s.remove_other (meta_file hex) (part_file hex) (remove (part_file hex) c).1
              (λ e. files_apart hex long (sym e)),
        )
        (removed-le (part_file hex) c)

  too_long :
      (offset : ℕ) (chunk : Bytes) (now_unix : ℕ) (c : Card)
      → ltb max_chunk_bytes (length chunk) ≡ true
      → (write_chunk s hex offset chunk now_unix c).1 ≡ c
  unfolding write_chunk
  too_long offset chunk now_unix c h = rw h refl

  expired_session :
      (q : UploadBegin) (offset : ℕ) (chunk : Bytes) (now_unix : ℕ) (c : Card)
      → expired q now_unix ≡ true
      → chunk_in_session s hex (some q) offset chunk now_unix c
        ≡ (refuse no_session, discard s hex c)
  unfolding chunk_in_session
  expired_session q offset chunk now_unix c h = rw h refl

  session-le :
      (q : UploadBegin) (offset : ℕ) (chunk : Bytes) (now_unix : ℕ) (c : Card)
      → length (received_bytes c) ≤ q.size
      → length (received_bytes (chunk_in_session s hex (some q) offset chunk now_unix c).1) ≤ q.size
  session-le q offset chunk now_unix c h = elim (Bool-cases (expired q now_unix)) [
    | inl e ↦ rw (expired_session q offset chunk now_unix c e) (omega (arith, discarded-le c, h))
    | inr e ↦
        rw (in_session q offset chunk now_unix c e) (
          place_chunk-le s (part_file hex) (length (received_bytes c)) q.size offset chunk c refl h)
  ]

  -- For a valid content id of 32 characters and an open session that has received no more than the
  -- declared size, it has received no more than that after write_chunk, whatever the call returns.
  pub write_chunk-le :
      (q : UploadBegin) (offset : ℕ) (chunk : Bytes) (now_unix : ℕ) (c : Card)
      → read_meta s hex c ≡ some q
      → length (received_bytes c) ≤ q.size
      → length (received_bytes (write_chunk s hex offset chunk now_unix c).1) ≤ q.size
  write_chunk-le q offset chunk now_unix c found h =
      elim (Bool-cases (ltb max_chunk_bytes (length chunk))) [
        | inl e ↦ rw (too_long offset chunk now_unix c e) h
        | inr e ↦
            rw (opened offset chunk now_unix c e, found) (session-le q offset chunk now_unix c h)
      ]
