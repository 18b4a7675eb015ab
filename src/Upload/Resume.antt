-- ===== src/Upload/Resume.antt =====
-- What it takes for beginUpload to go on with a session that exists already.
use diy_ebook.Prelude.{
  ℕ, ◌≤◌, ◌<◌, ◌≡◌, refl, ap, sym, ◌∙◌, arith, inl, inr, Bool-cases, ◌≢◌, ◌↔◌, true, false, Option,
  none, some, length, ltb,
}
use diy_ebook.Qpk.ByteOrder.{Bytes}
use diy_ebook.Storage.{Storage, contents}
use diy_ebook.Protocol.{ok}
use diy_ebook.Upload.Meta.{UploadBegin, expired}
use diy_ebook.Upload.Session.{
  Reply, valid_hex_id, upload_dir, part_size, read_meta, discard, agrees, open_fresh, resume,
  begin_session, begin_upload,
}
use diy_ebook.Upload.Chunks.{part_size-received, read_meta-file}
use diy_ebook.Upload.Requests.{IsRequest, begin_upload-IsRequest, begin_upload-accepted}
use diy_ebook.Upload.Paths.{meta_file, part_file}

-- The declarations that a session and a request have in common.
pub record SameDeclaration (existing request : UploadBegin) : Type 0 where
  pub version : existing.content_version ≡ request.content_version
  pub size : existing.size ≡ request.size
  pub checksum : existing.payload_crc32 ≡ request.payload_crc32
  pub type : existing.type ≡ request.type

-- A reply that goes on behind n bytes.
abbrev pub continued : ℕ → Option ℕ → Reply
continued n deadline = record { error = ok; received = some n; expected = deadline }

-- The card holds a session that the request can go on with, behind n bytes.
pub record IsOpen (s : Storage) (request existing : UploadBegin) (now_unix n : ℕ) (c : s.Card)
    : Type 0 where
  pub found : read_meta s request.content_id_hex c ≡ some existing
  pub live : expired existing now_unix ≡ false
  pub same : SameDeclaration existing request
  pub received : n ≡ length (contents (s.file c (part_file request.content_id_hex)))
  pub fits : n ≤ request.size

module _ (s : Storage) (request : UploadBegin) (now_unix n : ℕ) where
  agrees-SameDeclaration :
      (existing : UploadBegin) → agrees s existing request ≡ true → SameDeclaration existing request
  unfolding agrees
  agrees-SameDeclaration existing h = record {
    version = ground arith;
    size = ground arith;
    checksum = ground arith;
    type = ground arith;
  }

  SameDeclaration-agrees :
      (existing : UploadBegin) → SameDeclaration existing request → agrees s existing request ≡ true
  unfolding agrees
  SameDeclaration-agrees existing h = ground (arith, h.version, h.size, h.checksum, h.type)

  -- A fresh session starts with no bytes.
  open_fresh-zero :
      (received deadline expected : Option ℕ) (before after : s.Card)
      → 0 < n
      → open_fresh s request received deadline now_unix before ≢ (continued n expected, after)
  unfolding open_fresh
  open_fresh-zero received deadline expected before after positive e =
      let accepted = ap (λ (r : Reply × s.Card). r.0.error) e in
      let from = ap (λ (r : Reply × s.Card). r.0.received) e in ground (arith, accepted, from)

  resume-continued :
      (existing : UploadBegin) (d : s.Card)
      → SameDeclaration existing request
      → part_size s request.content_id_hex d ≡ n
      → n ≤ request.size
      → resume s existing request now_unix d ≡ (continued n (some existing.expires_at), d)
  unfolding resume
  resume-continued existing d same e h =
      let short : ltb request.size n ≡ false = ground arith in
      rw (SameDeclaration-agrees existing same, e, short) refl

  resume-inverted :
      (existing : UploadBegin) (expected : Option ℕ) (d after : s.Card)
      → 0 < n
      → resume s existing request now_unix d ≡ (continued n expected, after)
      → SameDeclaration existing request
        × (part_size s request.content_id_hex d ≡ n)
        × (n ≤ request.size)
        × (expected ≡ some existing.expires_at)
        × (after ≡ d)
  unfolding resume
  resume-inverted existing expected d after positive e =
      elim (Bool-cases (agrees s existing request)) [
        | inr differ ↦ absurd (
            open_fresh-zero none (some 0) expected (discard s request.content_id_hex d) after
              positive (rw (differ, resume) at e))
        | inl same ↦ elim (Bool-cases (ltb request.size (part_size s request.content_id_hex d))) [
          | inl long ↦ absurd (
              open_fresh-zero (some 0) (some existing.expires_at) expected
                (discard s request.content_id_hex d) after positive (rw (same, long, resume) at e))
          | inr fits ↦
              let reached = rw (same, fits, resume) at e in
              let received : part_size s request.content_id_hex d ≡ n =
                ground (arith, ap (λ (r : Reply × s.Card). r.0.received) reached) in
              (
                agrees-SameDeclaration existing same,
                received,
                ground (arith, fits, received),
                sym (ap (λ (r : Reply × s.Card). r.0.expected) reached),
                sym (ap (λ (r : Reply × s.Card). r.1) reached),
              )
        ]
      ]

  begin_session-live :
      (m : Option UploadBegin) (existing : UploadBegin) (d : s.Card)
      → m ≡ some existing
      → expired existing now_unix ≡ false
      → begin_session s request m now_unix d ≡ resume s existing request now_unix d
  unfolding begin_session
  begin_session-live m existing d found live = rw (found, live) refl

  begin_session-inverted :
      (m : Option UploadBegin) (expected : Option ℕ) (d after : s.Card)
      → 0 < n
      → begin_session s request m now_unix d ≡ (continued n expected, after)
      → (existing : UploadBegin) × (m ≡ some existing) × (expired existing now_unix ≡ false)
  unfolding begin_session
  begin_session-inverted none expected d after positive e =
      absurd (
        open_fresh-zero none (some 0) expected (discard s request.content_id_hex d) after positive
          e)
  begin_session-inverted (some existing) expected d after positive e =
      elim (Bool-cases (expired existing now_unix)) [
        | inl over ↦ absurd (
            open_fresh-zero none (some 0) expected (discard s request.content_id_hex d) after
              positive (rw (over, begin_session) at e))
        | inr live ↦ (existing, refl, live)
      ]

  -- Making the directory changes neither the record of a session nor its bytes.
  module _ (c : s.Card) (valid : valid_hex_id request.content_id_hex ≡ true)
      (long : length request.content_id_hex ≡ 32) where
    abbrev with_dir : s.Card
    with_dir = (s.mkdirs upload_dir c).1

    read_meta-with_dir :
        read_meta s request.content_id_hex with_dir ≡ read_meta s request.content_id_hex c
    read_meta-with_dir =
        read_meta-file s request.content_id_hex valid long c with_dir
          (s.mkdirs_other upload_dir (meta_file request.content_id_hex) c)

    part_size-with_dir :
        part_size s request.content_id_hex with_dir
        ≡ length (contents (s.file c (part_file request.content_id_hex)))
    part_size-with_dir =
        part_size-received s request.content_id_hex valid long with_dir
        ∙ ap (λ (b : Option Bytes). length (contents b))
            (s.mkdirs_other upload_dir (part_file request.content_id_hex) c)

-- For a content id of 32 characters and n above 0, begin_upload answers ok with n bytes received
-- and a deadline if and only if the request has a valid content id, a size from 1 to 0xFFFFFFFF and
-- a type that has a folder, and the card holds a session that is not expired, declares the version,
-- the size, the checksum and the type of the request, has n bytes in its .part file, no more than
-- the size, and has that deadline; and the call then only makes the directory.
pub begin_upload-resume :
    (s : Storage) (request : UploadBegin) (now_unix n : ℕ) (deadline : Option ℕ) (c after : s.Card)
    → length request.content_id_hex ≡ 32
    → 0 < n
    → (begin_upload s request now_unix c ≡ (continued n deadline, after)) ↔ (
        IsRequest request
        × (existing : UploadBegin) × IsOpen s request existing now_unix n c
        × (deadline ≡ some existing.expires_at)
        × (after ≡ (s.mkdirs upload_dir c).1))
begin_upload-resume s request now_unix n deadline c after long positive = (
  λ e.
      (let r =
          begin_upload-accepted s request now_unix c (ap (λ (r : Reply × s.Card). r.0.error) e) in
        let d = (s.mkdirs upload_dir c).1 in
        let in_session = sym (begin_upload-IsRequest s request now_unix c r) ∙ e in
        let (existing, found, live) =
          begin_session-inverted s request now_unix n _ deadline d after positive in_session in
        let resumed =
          sym (begin_session-live s request now_unix n _ existing d found live) ∙ in_session in
        let (same, received, fits, from, kept) =
          resume-inverted s request now_unix n existing deadline d after positive resumed in
        (
          r,
          existing,
          record {
            found = sym (read_meta-with_dir s request now_unix n c r.id long) ∙ found;
            live = live;
            same = same;
            received = sym received ∙ part_size-with_dir s request now_unix n c r.id long;
            fits = fits;
          },
          from,
          kept,
        )),
  λ (r, existing, o, from, kept).
      (let d = (s.mkdirs upload_dir c).1 in
        begin_upload-IsRequest s request now_unix c r
        ∙ begin_session-live s request now_unix n _ existing d
            (read_meta-with_dir s request now_unix n c r.id long ∙ o.found) o.live
        ∙ resume-continued s request now_unix n existing d o.same
            (part_size-with_dir s request now_unix n c r.id long ∙ sym o.received) o.fits
        ∙ rw (from, kept) refl),
)
