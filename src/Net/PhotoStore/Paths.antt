-- ===== src/Net/PhotoStore/Paths.antt =====
-- The paths that firmware/wifi/photo_store.cpp builds for a valid name.
use diy_ebook.Prelude.{
  ℕ, ◌≤◌, ◌≡◌, ◌≢◌, refl, ap, true, some, List, [], ◌∷◌, ◌++◌, length, ltb, codes, arith,
  length-append, lt→ltb,
}
use diy_ebook.Storage.{FilePath}
use diy_ebook.Net.Allowed.{valid_photo_name, valid_photo_name_lem, photo_name_max_chars}
use diy_ebook.Net.PhotoStore.{photo_dir, photo_extension, part_extension, build_path}

-- The paths of a valid name.
abbrev pub path_for : List ℕ → List ℕ → FilePath
path_for extension name = photo_dir ++ codes "/" ++ name ++ extension

abbrev last : List ℕ → ℕ
last [] = 0
last (x ∷ []) = x
last (x ∷ y ∷ ys) = last (y ∷ ys)

last-append : (xs : List ℕ) (y : ℕ) (ys : List ℕ) → last (xs ++ y ∷ ys) ≡ last (y ∷ ys)
last-append [] y ys = refl
last-append (x ∷ []) y ys = refl
last-append (x ∷ z ∷ xs) y ys = last-append (z ∷ xs) y ys

-- A photo's path is no part's path.
pub paths_apart : (m n : List ℕ) → path_for photo_extension m ≢ path_for part_extension n
paths_apart m n e = absurd (
    omega (
      arith,
      ap last e,
      last-append (photo_dir ++ codes "/" ++ m) b'.' (codes "g4"),
      last-append (photo_dir ++ codes "/" ++ n) b'.' (codes "part"),
    ))

pub build_path-valid :
    (name extension : List ℕ)
    → valid_photo_name name ≡ true
    → length extension ≤ 5
    → build_path name extension ≡ some (path_for extension name)
unfolding build_path
build_path-valid name extension valid short =
    let ok_name = (valid_photo_name_lem name).0 valid in
    let bound : length name ≤ photo_name_max_chars = ok_name.2 in
    let fits : ltb (length (path_for extension name)) 64 ≡ true =
      lt→ltb _ _ (omega (arith, length-append {0} name extension)) in
    rw fits refl
