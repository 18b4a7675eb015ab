-- ===== src/Upload/Paths.antt =====
-- The two files of a session have different names.
use diy_ebook.Prelude.{
  ℕ, zero, suc, ◌+◌, ◌<◌, ◌≡◌, ◌≢◌, refl, ap, ◌∙◌, arith, true, some, List, [], ◌∷◌, ◌++◌, length,
  take, get_or, codes,
}
use diy_ebook.Storage.{FilePath}
use diy_ebook.Library.Paths.{join_path}
use diy_ebook.Upload.Session.{build_upload_path, valid_hex_id, meta_path, part_path, upload_dir}

get_or-take : (n i : ℕ) (xs : List ℕ) → i < n → get_or (take n xs) i 0 ≡ get_or xs i 0
get_or-take zero i xs h = absurd (omega arith)
get_or-take (suc n) i [] h = refl
get_or-take (suc n) zero (x ∷ xs) h = refl
get_or-take (suc n) (suc i) (x ∷ xs) h = get_or-take n i xs (omega arith)

get_or-append :
    (xs ys : List ℕ) (i j : ℕ) → j ≡ length xs + i → get_or (xs ++ ys) j 0 ≡ get_or ys i 0
get_or-append [] ys i j h = ap (λ (k : ℕ). get_or ys k 0) (omega (arith, h))
get_or-append (x ∷ xs) ys i zero h = absurd (omega arith)
get_or-append (x ∷ xs) ys i (suc j) h = get_or-append xs ys i j (omega arith)

get_or-append_nil : (xs : List ℕ) (i : ℕ) → get_or (xs ++ []) i 0 ≡ get_or xs i 0
get_or-append_nil [] i = refl
get_or-append_nil (x ∷ xs) zero = refl
get_or-append_nil (x ∷ xs) (suc i) = get_or-append_nil xs i

abbrev file_name : List ℕ → List ℕ → FilePath
file_name hex suffix = join_path 96 upload_dir (codes "/") (join_path 40 hex suffix [])

abbrev pub meta_file : List ℕ → FilePath
meta_file hex = file_name hex (codes ".meta")

abbrev pub part_file : List ℕ → FilePath
part_file hex = file_name hex (codes ".part")

-- The character after the dot.
mark :
    (hex suffix : List ℕ) → length hex ≡ 32 → get_or (file_name hex suffix) 49 0 ≡ get_or suffix 1 0
unfolding join_path
mark hex suffix h =
    get_or-take 79 33 (take 39 ((hex ++ suffix) ++ [])) (omega arith)
    ∙ get_or-take 39 33 ((hex ++ suffix) ++ []) (omega arith)
    ∙ get_or-append_nil (hex ++ suffix) 33
    ∙ get_or-append hex suffix 1 33 (omega arith)

meta_mark : (hex : List ℕ) → length hex ≡ 32 → get_or (meta_file hex) 49 0 ≡ b'm'
meta_mark hex h = mark hex (codes ".meta") h

part_mark : (hex : List ℕ) → length hex ≡ 32 → get_or (part_file hex) 49 0 ≡ b'p'
part_mark hex h = mark hex (codes ".part") h

pub files_apart : (hex : List ℕ) → length hex ≡ 32 → meta_file hex ≢ part_file hex
files_apart hex h e =
    absurd (omega (arith, meta_mark hex h, part_mark hex h, ap (λ (p : FilePath). get_or p 49 0) e))

pub meta_path-valid :
    (hex : List ℕ) → valid_hex_id hex ≡ true → meta_path hex ≡ some (meta_file hex)
unfolding build_upload_path
meta_path-valid hex h = rw h refl

pub part_path-valid :
    (hex : List ℕ) → valid_hex_id hex ≡ true → part_path hex ≡ some (part_file hex)
unfolding build_upload_path
part_path-valid hex h = rw h refl
