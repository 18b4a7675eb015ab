-- ===== src/Upload/InLibrary.antt =====
-- The path of an installed package is none of the other files that UploadManager::finish touches:
-- firmware/wifi/upload_manager.cpp.
use diy_ebook.Prelude.{
  ℕ, ◌<◌, ◌≡◌, ◌≢◌, ◌⊎◌, inl, inr, refl, sym, ap, subst, ◌∙◌, arith, Bool, true, false, Option,
  none, some, List, [], get_or, ◌==◌, codes, if◌then◌else◌, Option-cases,
}
use diy_ebook.Qpk.ByteOrder.{Bytes}
use diy_ebook.Storage.{FilePath}
use diy_ebook.Protocol.{library_dir_for}
use diy_ebook.Library.Paths.{join_path, build_location, build_package_path}
use diy_ebook.Library.ContentId.{content_id_to_hex}
use diy_ebook.Library.IndexFile.{index_path, index_temp_path}

-- Where an installed package lies: below /LIBRARY/, in a directory that does not start like the
-- name of the index.
abbrev pub IsInLibrary : FilePath → Type 0
IsInLibrary p = (get_or p 1 0 ≡ b'L') × (get_or p 9 0 < b'l')

in_directory :
    (dir name : List ℕ)
    → (dir ≡ codes "QURAN")
      ⊎ (dir ≡ codes "BOOKS")
      ⊎ (dir ≡ codes "TRANSLATIONS")
      ⊎ (dir ≡ codes "TAFSIR")
    → IsInLibrary (join_path 96 (codes "/LIBRARY/") (join_path 56 dir (codes "/") name) [])
unfolding join_path
in_directory dir name (inl e) = rw e (refl, omega arith)
in_directory dir name (inr (inl e)) = rw e (refl, omega arith)
in_directory dir name (inr (inr (inl e))) = rw e (refl, omega arith)
in_directory dir name (inr (inr (inr e))) = rw e (refl, omega arith)

pub some-inj : {A : Type 0} (x y : A) → some x ≡ some y → x ≡ y
some-inj x y h = cc

pub none≢some : {A : Type 0} (x : A) → none ≢ some x
none≢some x h = cc

pick :
    (b : Bool) (x dir : List ℕ) (rest : Option (List ℕ))
    → (if b then some x else rest) ≡ some dir
    → (dir ≡ x) ⊎ (rest ≡ some dir)
pick true x dir rest h = inl (sym (some-inj x dir h))
pick false x dir rest h = inr h

directories :
    (type : ℕ) (dir : List ℕ)
    → library_dir_for type ≡ some dir
    → (dir ≡ codes "QURAN")
      ⊎ (dir ≡ codes "BOOKS")
      ⊎ (dir ≡ codes "TRANSLATIONS")
      ⊎ (dir ≡ codes "TAFSIR")
unfolding library_dir_for
directories type dir h = elim (pick (type == 1) _ dir _ h) [
  | inl e ↦ inl e
  | inr h2 ↦ elim (pick (type == 2) _ dir _ h2) [
    | inl e ↦ inr (inl e)
    | inr h3 ↦ elim (pick (type == 3) _ dir _ h3) [
      | inl e ↦ inr (inr (inl e))
      | inr h4 ↦ elim (pick (type == 4) _ dir _ h4) [
        | inl e ↦ inr (inr (inr e))
        | inr h5 ↦ absurd (none≢some dir h5)
      ]
    ]
  ]
]

-- The file name of a content id.
abbrev qpk_name : Bytes → List ℕ
qpk_name id = join_path 40 (content_id_to_hex id) (codes ".qpk") []

unbuilt : (type : ℕ) (id : Bytes) → library_dir_for type ≡ none → build_package_path type id ≡ none
unfolding build_package_path build_location
unbuilt type id e = rw (e, build_package_path, build_location) refl

built :
    (type : ℕ) (id : Bytes) (dir : List ℕ)
    → library_dir_for type ≡ some dir
    → build_package_path type id
      ≡ some (join_path 96 (codes "/LIBRARY/") (join_path 56 dir (codes "/") (qpk_name id)) [])
unfolding build_package_path build_location
built type id dir e = rw (e, build_package_path, build_location) refl

pub placed :
    (type : ℕ) (id : Bytes) (final : FilePath)
    → build_package_path type id ≡ some final
    → IsInLibrary final
placed type id final h = elim (Option-cases (library_dir_for type)) [
  | inl e ↦ absurd (none≢some final (sym (unbuilt type id e) ∙ h))
  | inr (dir, e) ↦
      subst IsInLibrary (some-inj _ final (sym (built type id dir e) ∙ h))
        (in_directory dir (qpk_name id) (directories type dir e))
]

-- Such a path is none of the other files that finish touches.
pub index_apart : (p : FilePath) → IsInLibrary p → p ≢ index_path
index_apart p inside e = absurd (omega (arith, inside.1, ap (λ (t : FilePath). get_or t 9 0) e))

pub index_temp_apart : (p : FilePath) → IsInLibrary p → p ≢ index_temp_path
index_temp_apart p inside e =
    absurd (omega (arith, inside.1, ap (λ (t : FilePath). get_or t 9 0) e))

pub session_apart :
    (p : FilePath) (hex suffix : List ℕ)
    → IsInLibrary p
    → p ≢ join_path 96 (codes "/DEVICE/uploads") (codes "/") (join_path 40 hex suffix [])
unfolding join_path
session_apart p hex suffix inside e =
    absurd (omega (arith, inside.0, ap (λ (t : FilePath). get_or t 1 0) e))
