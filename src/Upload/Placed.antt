-- ===== src/Upload/Placed.antt =====
-- What the last tests of writeChunk let through, and what is appended to the .part file.
use diy_ebook.Prelude.{
  ℕ, ◌+◌, ◌≤◌, ◌≡◌, ◌⊎◌, ap, ◌∙◌, arith, true, false, some, ◌++◌, length, take, length-append,
  length-take,
}
use diy_ebook.Qpk.ByteOrder.{Bytes}
use diy_ebook.Storage.{Storage, FilePath, contents}
use diy_ebook.Protocol.{ok}
use diy_ebook.Upload.Session.{accept, append_chunk, place_chunk, or_zero}

module _ (s : Storage) (p : FilePath) where
  open s use {Card, file, append}

  -- The bytes of the .part file.
  abbrev bytes_of : Card → Bytes
  bytes_of c = contents (file c p)

  appended :
      (chunk : Bytes) (c : Card)
      → (append p chunk c).0 ≡ true
      → bytes_of (append p chunk c).1 ≡ bytes_of c ++ chunk
  appended chunk c h = ap contents (s.append_done p chunk c h)

  appended-length :
      (chunk : Bytes) (c : Card)
      → (append p chunk c).0 ≡ true
      → length (bytes_of (append p chunk c).1) ≡ length (bytes_of c) + length chunk
  appended-length chunk c h =
      ap (λ (l : Bytes). length l) (appended chunk c h) ∙ length-append (bytes_of c) chunk

  torn-length :
      (chunk : Bytes) (c : Card)
      → (append p chunk c).0 ≡ false
      → length (bytes_of (append p chunk c).1) ≤ length (bytes_of c) + length chunk
  torn-length chunk c h =
      let (n, e) = s.append_failed p chunk c h in
      omega (
        arith,
        ap (λ (l : Bytes). length l) e,
        length-append (bytes_of c) (take n chunk),
        length-take n chunk,
      )

  pub place_chunk-ok :
      (current total offset : ℕ) (chunk : Bytes) (c : Card)
      → (place_chunk s (some p) current total offset chunk c).0.error ≡ ok
      → (((place_chunk s (some p) current total offset chunk c).1 ≡ c)
          × (offset + length chunk ≤ current))
        ⊎ ((offset ≡ current)
            × (bytes_of (place_chunk s (some p) current total offset chunk c).1
                ≡ bytes_of c ++ chunk))
  unfolding place_chunk append_chunk
  place_chunk-ok current total offset chunk c h = ground (arith, appended chunk c)

  pub place_chunk-le :
      (current total offset : ℕ) (chunk : Bytes) (c : Card)
      → current ≡ length (bytes_of c)
      → length (bytes_of c) ≤ total
      → length (bytes_of (place_chunk s (some p) current total offset chunk c).1) ≤ total
  unfolding place_chunk append_chunk
  place_chunk-le current total offset chunk c e h =
      ground (arith, appended-length chunk c, torn-length chunk c)

  pub place_chunk-received :
      (current total offset : ℕ) (chunk : Bytes) (c : Card)
      → current ≡ length (bytes_of c)
      → (place_chunk s (some p) current total offset chunk c).0.error ≡ ok
      → (length (bytes_of (place_chunk s (some p) current total offset chunk c).1)
          ≡ or_zero (place_chunk s (some p) current total offset chunk c).0.received)
        × (offset + length chunk
            ≤ or_zero (place_chunk s (some p) current total offset chunk c).0.received)
        × (offset + length chunk ≤ total)
  unfolding place_chunk append_chunk
  place_chunk-received current total offset chunk c e h = ground (arith, appended-length chunk c)

  pub place_chunk-reply :
      (current total offset : ℕ) (chunk : Bytes) (c : Card)
      → current ≡ length (bytes_of c)
      → (place_chunk s (some p) current total offset chunk c).0.error ≡ ok
      → (place_chunk s (some p) current total offset chunk c).0
        ≡ accept (length (bytes_of (place_chunk s (some p) current total offset chunk c).1))
  unfolding place_chunk append_chunk
  place_chunk-reply current total offset chunk c e h = ground (arith, appended-length chunk c)

  pub place_chunk-again :
      (current total offset : ℕ) (chunk : Bytes) (c : Card)
      → offset + length chunk ≤ current
      → offset + length chunk ≤ total
      → place_chunk s (some p) current total offset chunk c ≡ (accept current, c)
  unfolding place_chunk
  place_chunk-again current total offset chunk c h k = ground arith
