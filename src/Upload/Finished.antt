-- ===== src/Upload/Finished.antt =====
-- The guards of UploadManager::finish of firmware/wifi/upload_manager.cpp, in their order.
use diy_ebook.Prelude.{
  ℕ, ◌≡◌, ◌≢◌, inl, inr, refl, sym, ap, subst, ◌∙◌, Bool, true, false, not, Option, none, some,
  List, length, ◌==◌, if◌then◌else◌, Option-cases, codes, ==_iff,
}
use diy_ebook.Qpk.ByteOrder.{Bytes}
use diy_ebook.Qpk.File.{File, memory_file}
use diy_ebook.Qpk.Reader.Checks.{open_package}
use diy_ebook.Storage.{Storage, FilePath, size, size_of}
use diy_ebook.Slots.{Slots, IsValid}
use diy_ebook.Protocol.{
  Error, ok, size_mismatch, verify_failed, package_rejected, no_session, storage_error,
}
use diy_ebook.Library.Paths.{build_package_path}
use diy_ebook.Library.Index.{LibraryEntry, max_library_entries, find}
use diy_ebook.Library.Describe.{open_file, describe_file, describe_package}
use diy_ebook.Upload.Meta.{UploadBegin, expired}
use diy_ebook.Upload.Session.{valid_hex_id, part_path, part_size, read_meta, discard}
use diy_ebook.Upload.Paths.{part_file, part_path-valid}
use diy_ebook.Upload.Finish.{
  Finished, fail, opens, verify_part, install, install_at, installed_now, install_described,
  check_part, finish_open, finish_part, finish_session, finish,
}
use diy_ebook.Upload.InLibrary.{placed, session_apart}
use diy_ebook.Upload.Install.{install_at-IsInstalled}
use diy_ebook.Upload.Verify.{payload_crc, verify_part-crc}

-- A guard that was passed.
module _ {A : Type 0} (answer : A → Error) where
  guard :
      (b : Bool) (refused next : A)
      → answer refused ≢ ok
      → answer (if not b then refused else next) ≡ ok
      → (b ≡ true) × ((if not b then refused else next) ≡ next)
  guard true refused next bad h = (refl, refl)
  guard false refused next bad h = absurd (bad h)

  guard_not :
      (b : Bool) (refused next : A)
      → answer refused ≢ ok
      → answer (if b then refused else next) ≡ ok
      → (b ≡ false) × ((if b then refused else next) ≡ next)
  guard_not false refused next bad h = (refl, refl)
  guard_not true refused next bad h = absurd (bad h)

rejected≢ok : package_rejected ≢ ok
rejected≢ok h = cc

mismatch≢ok : size_mismatch ≢ ok
mismatch≢ok h = cc

storage_error≢ok : storage_error ≢ ok
storage_error≢ok h = cc

no_session≢ok : no_session ≢ ok
no_session≢ok h = cc

failed≢ok : verify_failed ≢ ok
failed≢ok h = cc

module _ (s : Storage) (hex : List ℕ) (now_unix : ℕ) where
  open s use {Card, file}

  -- The entry and the path of an installed package, whose bytes are those of the .part file.
  abbrev pub Installation : Bytes → LibraryEntry → Finished Card → Type 0
  Installation bytes e done =
      (final : FilePath) × ((build_package_path e.type e.content_id ≡ some final)
        × (done.installed ≡ some e)
        × (file done.card final ≡ some bytes)
        × (find e.content_id done.index ≡ some e))

  -- What a session and its .part file have been checked for.
  abbrev pub Checked : Bytes → UploadBegin → LibraryEntry → Finished Card → Type 0
  Checked bytes meta e done =
      (length bytes ≡ meta.size)
      × (payload_crc bytes ≡ meta.payload_crc32)
      × (describe_file (memory_file bytes) ≡ some e)
      × (e.type ≡ meta.type)
      × Installation bytes (installed_now s now_unix e) done

  -- What a successful answer of finish has found on the card, and what it has installed.
  abbrev pub Finishes : Option UploadBegin → Card → Finished Card → Type 0
  Finishes session c done =
      (meta : UploadBegin) × (bytes : Bytes) × (e : LibraryEntry) × ((session ≡ some meta)
        × (expired meta now_unix ≡ false)
        × (file c (part_file hex) ≡ some bytes)
        × Checked bytes meta e done)

  module _ (index : Slots LibraryEntry) (valid : valid_hex_id hex ≡ true)
      (whole : IsValid max_library_entries index) where
    abbrev error_of : Finished Card → Error
    error_of d = d.error

    abbrev install_to : Option FilePath → LibraryEntry → Card → Finished Card
    install_to none e c = fail s storage_error index c
    install_to (some final) e c = install_at s hex (part_file hex) final e index c

    installs :
        (e : LibraryEntry) (bytes : Bytes) (c : Card)
        → file c (part_file hex) ≡ some bytes
        → (path : Option FilePath) → build_package_path e.type e.content_id ≡ path
        → (install_to path e c).error ≡ ok
        → Installation bytes e (install_to path e c)
    installs e bytes c there none built accepted = cc
    installs e bytes c there (some final) built accepted =
        let inside = placed e.type e.content_id final built in
        let apart : part_file hex ≢ final =
          λ same_. session_apart final hex (codes ".part") inside (sym same_) in
        let done =
          install_at-IsInstalled s hex valid final inside (part_file hex) e bytes index c apart
            whole there accepted in
        (final, (built, done.0, done.1, done.2))

    install_lem :
        (e : LibraryEntry) (c : Card)
        → install s hex (part_file hex) e index c
          ≡ install_to (build_package_path e.type e.content_id) e c
    unfolding install
    install_lem e c = at_path (build_package_path e.type e.content_id)
      where
        at_path :
            (path : Option FilePath)
            → (elim path as (λ x. Finished Card) [
              | none ↦ fail s storage_error index c
              | some final ↦ install_at s hex (part_file hex) final e index c
            ])
              ≡ install_to path e c
        at_path none = refl
        at_path (some final) = refl

    describes :
        (meta : UploadBegin) (bytes : Bytes) (c : Card)
        → file c (part_file hex) ≡ some bytes
        → (answer : Option LibraryEntry)
        → (install_described s hex meta now_unix (part_file hex) answer index c).error ≡ ok
        → (e : LibraryEntry) × ((answer ≡ some e)
            × (e.type ≡ meta.type)
            × Installation bytes
                (installed_now s now_unix e)
                (install_described s hex meta now_unix (part_file hex) answer index c))
    unfolding install_described
    describes meta bytes c there none accepted = cc
    describes meta bytes c there (some e) accepted =
        let rejected = fail s package_rejected index (discard s hex c) in
        let next = install s hex (part_file hex) (installed_now s now_unix e) index c in
        let passed = guard error_of (e.type == meta.type) rejected next rejected≢ok accepted in
        let same_ = passed.1 ∙ install_lem (installed_now s now_unix e) c in
        (
          e,
          (
            refl,
            (==_iff e.type meta.type).0 passed.0,
            subst (Installation bytes (installed_now s now_unix e)) (sym same_) (
                installs (installed_now s now_unix e) bytes c there
                  (build_package_path e.type e.content_id) refl
                  (sym (ap error_of same_) ∙ accepted)),
          ),
        )

    described_there :
        (bytes : Bytes) (c : Card)
        → file c (part_file hex) ≡ some bytes
        → describe_package s (part_file hex) c ≡ describe_file (memory_file bytes)
    unfolding describe_package open_file
    described_there bytes c there = rw (there, describe_package, open_file) refl

    checks :
        (meta : UploadBegin) (bytes : Bytes) (c : Card)
        → file c (part_file hex) ≡ some bytes
        → length bytes ≡ meta.size
        → (check_part s hex meta now_unix (part_file hex) (memory_file bytes) index c).error ≡ ok
        → (e : LibraryEntry) × Checked bytes meta e
            (check_part s hex meta now_unix (part_file hex) (memory_file bytes) index c)
    unfolding check_part
    checks meta bytes c there full accepted =
        let next =
          install_described s hex meta now_unix (part_file hex)
            (describe_package s (part_file hex) c) index c in
        let opened =
          if not (opens (open_package (memory_file bytes) true))
          then fail s package_rejected index (discard s hex c)
          else next in
        let s1 =
          guard error_of (verify_part (memory_file bytes) meta)
            (fail s verify_failed index (discard s hex c)) opened failed≢ok accepted in
        let s2 =
          guard error_of (opens (open_package (memory_file bytes) true))
            (fail s package_rejected index (discard s hex c)) next rejected≢ok
            (sym (ap error_of s1.1) ∙ accepted) in
        let same_ = s1.1 ∙ s2.1 in
        let s3 =
          describes meta bytes c there (describe_package s (part_file hex) c)
            (sym (ap error_of same_) ∙ accepted) in
        (
          s3.0,
          (
            full,
            verify_part-crc bytes meta full s1.0,
            sym (described_there bytes c there) ∙ s3.1.0,
            s3.1.1,
            subst (Installation bytes (installed_now s now_unix s3.0)) (sym same_) s3.1.2,
          ),
        )

    sized :
        (bytes : Bytes) (c : Card)
        → file c (part_file hex) ≡ some bytes
        → part_size s hex c ≡ length bytes
    unfolding part_size
    sized bytes c there = rw (part_path-valid hex valid, there, part_size, size, size_of) refl

    opened_as :
        (bytes : Bytes) (c : Card)
        → file c (part_file hex) ≡ some bytes
        → open_file s (part_file hex) c ≡ some (memory_file bytes)
    unfolding open_file
    opened_as bytes c there = rw (there, open_file) refl

    unopened : (c : Card) → file c (part_file hex) ≡ none → open_file s (part_file hex) c ≡ none
    unfolding open_file
    unopened c missing = rw (missing, open_file) refl

    finish_part-Finishes :
        (meta : UploadBegin) (c : Card)
        → expired meta now_unix ≡ false
        → (finish_part s hex meta now_unix (some (part_file hex)) index c).error ≡ ok
        → Finishes (some meta) c (finish_part s hex meta now_unix (some (part_file hex)) index c)
    unfolding finish_part finish_open
    finish_part-Finishes meta c alive accepted =
        let next =
          finish_open s hex meta now_unix (part_file hex) (open_file s (part_file hex) c) index c in
        let s1 =
          guard error_of (part_size s hex c == meta.size) (fail s size_mismatch index c) next
            mismatch≢ok accepted in
        let later = sym (ap error_of s1.1) ∙ accepted in
        elim (Option-cases (file c (part_file hex))) [
          | inl missing ↦ absurd (
              storage_error≢ok (
                sym (
                  ap
                    (λ (f : Option File).
                      (finish_open s hex meta now_unix (part_file hex) f index c).error)
                    (unopened c missing))
                ∙ later))
          | inr (bytes, there) ↦
              (let same_ =
                  ap
                    (λ (f : Option File). finish_open s hex meta now_unix (part_file hex) f index c)
                    (opened_as bytes c there) in
                let full =
                  sym (sized bytes c there) ∙ (==_iff (part_size s hex c) meta.size).0 s1.0 in
                let checked = checks meta bytes c there full (sym (ap error_of same_) ∙ later) in
                (
                  meta,
                  bytes,
                  checked.0,
                  (
                    refl,
                    alive,
                    there,
                    subst (Checked bytes meta checked.0) (sym (s1.1 ∙ same_)) checked.1,
                  ),
                ))
        ]

    finish_session-Finishes :
        (session : Option UploadBegin) (c : Card)
        → (finish_session s hex now_unix session index c).error ≡ ok
        → Finishes session c (finish_session s hex now_unix session index c)
    unfolding finish_session
    finish_session-Finishes none c accepted = absurd (no_session≢ok accepted)
    finish_session-Finishes (some meta) c accepted =
        let next = finish_part s hex meta now_unix (part_path hex) index c in
        let s1 =
          guard_not error_of (expired meta now_unix) (fail s no_session index (discard s hex c))
            next no_session≢ok accepted in
        let same_ =
          s1.1
          ∙ ap (λ (p : Option FilePath). finish_part s hex meta now_unix p index c)
              (part_path-valid hex valid) in
        subst (Finishes (some meta) c) (sym same_)
          (finish_part-Finishes meta c s1.0 (sym (ap error_of same_) ∙ accepted))

-- For a valid content id and a valid index, where finish answers that all is well, the session was
-- on the card and not expired, the file of received bytes had the declared size, the checksum of
-- what follows its header is the declared one, it describes as a package of the declared type, and
-- afterwards that package's entry with the time of the installation is the one reported and the one
-- found in the index under its id, and the package's path has exactly the received bytes.
pub finish-installs :
    (s : Storage) (hex : List ℕ) (now_unix : ℕ) (index : Slots LibraryEntry) (c : s.Card)
    → valid_hex_id hex ≡ true
    → IsValid max_library_entries index
    → (finish s hex now_unix index c).error ≡ ok
    → Finishes s hex now_unix (read_meta s hex c) c (finish s hex now_unix index c)
unfolding finish
finish-installs s hex now_unix index c valid whole accepted =
    finish_session-Finishes s hex now_unix index valid whole (read_meta s hex c) c accepted
