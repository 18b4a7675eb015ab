-- ===== src/Upload/Install.antt =====
-- What a finished upload has installed: UploadManager::finish of firmware/wifi/upload_manager.cpp.
use diy_ebook.Prelude.{
  ℕ, ◌≡◌, ◌≢◌, inl, inr, refl, sym, ap, subst, ◌∙◌, arith, true, false, Option, none, some, List,
  [], codes, Bool-cases,
}
use diy_ebook.Qpk.ByteOrder.{Bytes}
use diy_ebook.Storage.{Storage, FilePath}
use diy_ebook.Slots.{Slots, IsValid}
use diy_ebook.Protocol.{ok, storage_error, library_dir_for}
use diy_ebook.Library.Paths.{join_path}
use diy_ebook.Library.Index.{LibraryEntry, max_library_entries, find, upsert}
use diy_ebook.Library.Index.Laws.{find-upsert}
use diy_ebook.Library.IndexFile.{save}
use diy_ebook.Library.IndexFile.Other.{save-other}
use diy_ebook.Upload.Session.{valid_hex_id, meta_path, remove_at}
use diy_ebook.Upload.Paths.{meta_file, meta_path-valid}
use diy_ebook.Upload.Finish.{Finished, fail, register, make_room, make_directory, install_at}
use diy_ebook.Upload.InLibrary.{IsInLibrary, index_apart, index_temp_apart, session_apart}

storage_error≢ok : storage_error ≢ ok
storage_error≢ok h = cc

module _ (s : Storage) (hex : List ℕ) (valid : valid_hex_id hex ≡ true) (final : FilePath)
    (inside : IsInLibrary final) where
  open s use {Card, file, remove, rename, mkdirs}

  meta_removed : (c : Card) → file (remove_at s (meta_path hex) c) final ≡ file c final
  unfolding remove_at
  meta_removed c =
      rw (meta_path-valid hex valid)
        (s.remove_other (meta_file hex) final c (session_apart final hex (codes ".meta") inside))

  -- What a successful finish says of the entry.
  abbrev pub IsInstalled : LibraryEntry → Bytes → Finished Card → Type 0
  IsInstalled e bytes done =
      (done.installed ≡ some e)
      × (file done.card final ≡ some bytes)
      × (find e.content_id done.index ≡ some e)

  -- The card when the index has been saved, and what it has then.
  abbrev saved_card : LibraryEntry → Slots LibraryEntry → Card → Card
  saved_card e index c = (save s (upsert e index).0 c).1

  abbrev registered : LibraryEntry → Slots LibraryEntry → Card → Finished Card
  registered e index c = record {
    error = ok;
    installed = some e;
    index = (upsert e index).0;
    card = remove_at s (meta_path hex) (saved_card e index c);
  }

  register-full :
      (e : LibraryEntry) (index : Slots LibraryEntry) (c : Card)
      → (upsert e index).1 ≡ false
      → register s hex e index c ≡ fail s storage_error (upsert e index).0 c
  unfolding register
  register-full e index c t = rw (t, register) refl

  register-unsaved :
      (e : LibraryEntry) (index : Slots LibraryEntry) (c : Card)
      → (upsert e index).1 ≡ true
      → (save s (upsert e index).0 c).0 ≡ false
      → register s hex e index c ≡ fail s storage_error (upsert e index).0 (saved_card e index c)
  unfolding register
  register-unsaved e index c t u = rw (t, u, register) refl

  register-done :
      (e : LibraryEntry) (index : Slots LibraryEntry) (c : Card)
      → (upsert e index).1 ≡ true
      → (save s (upsert e index).0 c).0 ≡ true
      → register s hex e index c ≡ registered e index c
  unfolding register
  register-done e index c t u = rw (t, u, register) refl

  register-IsInstalled :
      (e : LibraryEntry) (bytes : Bytes) (index : Slots LibraryEntry) (c : Card)
      → IsValid max_library_entries index
      → file c final ≡ some bytes
      → (register s hex e index c).error ≡ ok
      → IsInstalled e bytes (register s hex e index c)
  register-IsInstalled e bytes index c v there accepted = elim (Bool-cases (upsert e index).1) [
    | inr t ↦ absurd (
        storage_error≢ok
          (sym (ap (λ (d : Finished Card). d.error) (register-full e index c t)) ∙ accepted))
    | inl t ↦ elim (Bool-cases (save s (upsert e index).0 c).0) [
      | inr u ↦ absurd (
          storage_error≢ok
            (sym (ap (λ (d : Finished Card). d.error) (register-unsaved e index c t u)) ∙ accepted))
      | inl u ↦ subst (IsInstalled e bytes) (sym (register-done e index c t u)) (
        refl,
        meta_removed (saved_card e index c)
            ∙ save-other s final (index_temp_apart final inside) (index_apart final inside)
                (upsert e index).0 c
            ∙ there,
        find-upsert e index v t,
      )
    ]
  ]

  -- The rename needs a free name and gives the file its bytes.
  room-keeps :
      (part : FilePath) (c : Card) → part ≢ final → file (make_room s final c) part ≡ file c part
  unfolding make_room
  room-keeps part c apart = ground (arith, s.remove_other final part c apart)

  directory-keeps :
      (type : ℕ) (part : FilePath) (c : Card) → file (make_directory s type c) part ≡ file c part
  directory-keeps type part c = directory_of (library_dir_for type)
    where
      directory_of :
          (dir : Option (List ℕ))
          → file
              (elim dir [
                | none ↦ c
                | some d ↦ (mkdirs (join_path 64 (codes "/LIBRARY/") d []) c).1
              ])
              part
            ≡ file c part
      directory_of none = refl
      directory_of (some d) = s.mkdirs_other (join_path 64 (codes "/LIBRARY/") d []) part c

  abbrev roomy : LibraryEntry → Card → Card
  roomy e c = make_room s final (make_directory s e.type c)

  install_at-failed :
      (part : FilePath) (e : LibraryEntry) (index : Slots LibraryEntry) (c : Card)
      → (rename part final (roomy e c)).0 ≡ false
      → install_at s hex part final e index c
        ≡ fail s storage_error index (rename part final (roomy e c)).1
  unfolding install_at
  install_at-failed part e index c t = rw (t, install_at) refl

  install_at-moved :
      (part : FilePath) (e : LibraryEntry) (index : Slots LibraryEntry) (c : Card)
      → (rename part final (roomy e c)).0 ≡ true
      → install_at s hex part final e index c
        ≡ register s hex e index (rename part final (roomy e c)).1
  unfolding install_at
  install_at-moved part e index c t = rw (t, install_at) refl

  pub install_at-IsInstalled :
      (part : FilePath) (e : LibraryEntry) (bytes : Bytes) (index : Slots LibraryEntry) (c : Card)
      → part ≢ final
      → IsValid max_library_entries index
      → file c part ≡ some bytes
      → (install_at s hex part final e index c).error ≡ ok
      → IsInstalled e bytes (install_at s hex part final e index c)
  install_at-IsInstalled part e bytes index c apart v there accepted =
      elim (Bool-cases (rename part final (roomy e c)).0) [
        | inr t ↦ absurd (
            storage_error≢ok (
              sym (ap (λ (d : Finished Card). d.error) (install_at-failed part e index c t))
              ∙ accepted))
        | inl t ↦
            (let same_ = install_at-moved part e index c t in
              subst (IsInstalled e bytes) (sym same_) (
                register-IsInstalled e bytes index _ v
                  ((s.rename_done part final (roomy e c) apart t).0
                    ∙ room-keeps part (make_directory s e.type c) apart
                    ∙ directory-keeps e.type part c
                    ∙ there)
                  (sym (ap (λ (d : Finished Card). d.error) same_) ∙ accepted)))
      ]
