-- ===== src/Storage/Memory.antt =====
-- A card in memory, with a budget of writes after which the power is gone and every write fails.
-- It shows that the contract of `Storage` can be met.
use diy_ebook.Prelude.{
  ℕ, zero, suc, sym, ◌∙◌, ◌⊎◌, inl, inr, Bool-cases, ◌≡◌, ◌≢◌, refl, Bool, true, false, Option,
  none, some, List, [], ◌∷◌, ◌++◌, arith, if◌then◌else◌, same, same_refl, same→eq, same_sym, take,
}
use mathlib.Core.List.{append-nil}
use diy_ebook.Qpk.ByteOrder.{Bytes}
use diy_ebook.Storage.{FilePath, Storage, contents, is_present}

abbrev pub Files : Type 0
Files = List (FilePath × Bytes)

unfoldable pub find_file : FilePath → Files → Option Bytes
find_file p [] = none
find_file p ((q, b) ∷ rest) = if same q p then some b else find_file p rest

unfoldable pub without : FilePath → Files → Files
without p [] = []
without p ((q, b) ∷ rest) =
    let others = without p rest in if same q p then others else (q, b) ∷ others

find_file-without :
    (p r : FilePath) (fs : Files)
    → find_file r (without p fs) ≡ (if same p r then none else find_file r fs)
unfolding find_file without
find_file-without p r [] = ground arith
find_file-without p r ((q, b) ∷ rest) = ground (
  arith,
  find_file-without p r rest,
  same→eq q p,
  same→eq q r,
  same→eq p r,
  same_sym p q,
  same_sym p r,
)

pub record MemoryCard : Type 0 where
  pub files : Files
  -- Writes left before the power is gone.
  pub budget : ℕ
  pub free : ℕ
  -- Whether the directory lets a file be renamed.
  pub renames : Bool

unfoldable pub powered : ℕ → (Files → Bool × Files) → MemoryCard → Bool × MemoryCard
powered zero act c = (false, c)
powered (suc n) act c = let (done, fs) = act c.files in (done, record c { files = fs; budget = n })

-- One write: with the power gone it fails and changes nothing.
unfoldable pub spend : (Files → Bool × Files) → MemoryCard → Bool × MemoryCard
unfolding powered
spend act c = powered c.budget act c

unfoldable pub put_file : FilePath → Bytes → Files → Files
unfolding without
put_file p b fs = (p, b) ∷ without p fs

unfoldable pub move_file : FilePath → FilePath → Option Bytes → Files → Bool × Files
move_file p r none fs = (false, fs)
move_file p r (some b) fs = (true, put_file r b (without p fs))

unfoldable pub remove : FilePath → MemoryCard → Bool × MemoryCard
remove p = spend (λ fs. (is_present (find_file p fs), without p fs))

unfoldable pub try_rename : FilePath → FilePath → MemoryCard → Bool × MemoryCard
try_rename p r = spend (λ fs. move_file p r (find_file p fs) fs)

unfoldable pub rename : FilePath → FilePath → MemoryCard → Bool × MemoryCard
unfolding try_rename
rename p r c = if c.renames then try_rename p r c else (false, c)

unfoldable pub write_all : FilePath → Bytes → MemoryCard → Bool × MemoryCard
write_all p b = spend (λ fs. (true, put_file p b fs))

unfoldable pub append : FilePath → Bytes → MemoryCard → Bool × MemoryCard
append p b = spend (λ fs. (true, put_file p (contents (find_file p fs) ++ b) fs))

unfoldable pub mkdirs : FilePath → MemoryCard → Bool × MemoryCard
mkdirs p = spend (λ fs. (true, fs))

unfoldable pub file : MemoryCard → FilePath → Option Bytes
file c p = find_file p c.files

find_file-put_file :
    (p r : FilePath) (b : Bytes) (fs : Files)
    → find_file r (put_file p b fs) ≡ (if same p r then some b else find_file r fs)
unfolding put_file find_file
find_file-put_file p r b fs = ground (arith, find_file-without p r fs)

same-ne : (p q : FilePath) → q ≢ p → same p q ≡ false
same-ne p q h = elim (Bool-cases (same p q)) [
  | inl e ↦ absurd (h (sym (same→eq p q e)))
  | inr e ↦ e
]

powered_file :
    (n : ℕ) (act : Files → Bool × Files) (c : MemoryCard) (q : FilePath)
    → (((powered n act c).0 ≡ false) × (file (powered n act c).1 q ≡ file c q))
      ⊎ (((powered n act c).0 ≡ (act c.files).0)
          × (file (powered n act c).1 q ≡ find_file q (act c.files).1))
unfolding powered file
powered_file zero act c q = inl (refl, refl)
powered_file (suc n) act c q = inr (refl, refl)

-- A write fails and changes nothing, or does what it is for.
spend_file :
    (act : Files → Bool × Files) (c : MemoryCard) (q : FilePath)
    → (((spend act c).0 ≡ false) × (file (spend act c).1 q ≡ file c q))
      ⊎ (((spend act c).0 ≡ (act c.files).0)
          × (file (spend act c).1 q ≡ find_file q (act c.files).1))
unfolding spend
spend_file act c q = powered_file c.budget act c q

-- What each write does to the files when there is power.
abbrev remove_act : FilePath → Files → Bool × Files
remove_act p fs = (is_present (find_file p fs), without p fs)

abbrev rename_act : FilePath → FilePath → Files → Bool × Files
rename_act p r fs = move_file p r (find_file p fs) fs

abbrev write_all_act : FilePath → Bytes → Files → Bool × Files
write_all_act p b fs = (true, put_file p b fs)

abbrev append_act : FilePath → Bytes → Files → Bool × Files
append_act p b fs = (true, put_file p (contents (find_file p fs) ++ b) fs)

file_lem : (c : MemoryCard) (q : FilePath) → file c q ≡ find_file q c.files
unfolding file
file_lem c q = refl

moved_file :
    (p r q : FilePath) (fs : Files) (b : Bytes)
    → find_file q (put_file r b (without p fs))
      ≡ (if same r q then some b else if same p q then none else find_file q fs)
moved_file p r q fs b =
    ground (arith, find_file-put_file r q b (without p fs), find_file-without p q fs)

pub remove_other : (p q : FilePath) (c : MemoryCard) → q ≢ p → file (remove p c).1 q ≡ file c q
unfolding remove
remove_other p q c h = ground (
  arith,
  spend_file (remove_act p) c q,
  find_file-without p q c.files,
  same-ne p q h,
  file_lem c q,
)

pub remove_done :
    (p : FilePath) (c : MemoryCard) → (remove p c).0 ≡ true → file (remove p c).1 p ≡ none
unfolding remove
remove_done p c h =
    ground (arith, spend_file (remove_act p) c p, find_file-without p p c.files, same_refl p)

pub remove_failed :
    (p : FilePath) (c : MemoryCard) → (remove p c).0 ≡ false → file (remove p c).1 p ≡ file c p
unfolding remove
remove_failed p c h =
    ground (
      arith,
      spend_file (remove_act p) c p,
      find_file-without p p c.files,
      same_refl p,
      file_lem c p,
    )

try_rename_other :
    (p r q : FilePath) (c : MemoryCard) → q ≢ p → q ≢ r → file (try_rename p r c).1 q ≡ file c q
unfolding try_rename move_file
try_rename_other p r q c h k = ground (
  arith,
  spend_file (rename_act p r) c q,
  find_file-without p q c.files,
  moved_file p r q c.files (contents (find_file p c.files)),
  same-ne p q h,
  same-ne r q k,
  file_lem c q,
)

try_rename_done :
    (p r : FilePath) (c : MemoryCard)
    → p ≢ r
    → (try_rename p r c).0 ≡ true
    → (file (try_rename p r c).1 r ≡ file c p) × (file (try_rename p r c).1 p ≡ none)
unfolding try_rename move_file
try_rename_done p r c h e = ground (
  arith,
  spend_file (rename_act p r) c p,
  spend_file (rename_act p r) c r,
  find_file-without p p c.files,
  moved_file p r p c.files (contents (find_file p c.files)),
  moved_file p r r c.files (contents (find_file p c.files)),
  same_refl p,
  same_refl r,
  same-ne r p h,
  file_lem c p,
)

try_rename_failed :
    (p r q : FilePath) (c : MemoryCard)
    → (try_rename p r c).0 ≡ false
    → file (try_rename p r c).1 q ≡ file c q
unfolding try_rename move_file
try_rename_failed p r q c e = ground (arith, spend_file (rename_act p r) c q, file_lem c q)

pub rename_other :
    (p r q : FilePath) (c : MemoryCard) → q ≢ p → q ≢ r → file (rename p r c).1 q ≡ file c q
unfolding rename
rename_other p r q c h k = ground (arith, try_rename_other p r q c h k)

pub rename_done :
    (p r : FilePath) (c : MemoryCard)
    → p ≢ r
    → (rename p r c).0 ≡ true
    → (file (rename p r c).1 r ≡ file c p) × (file (rename p r c).1 p ≡ none)
unfolding rename
rename_done p r c h e = ground (arith, try_rename_done p r c h)

pub rename_failed :
    (p r q : FilePath) (c : MemoryCard)
    → (rename p r c).0 ≡ false
    → file (rename p r c).1 q ≡ file c q
unfolding rename
rename_failed p r q c e = ground (arith, try_rename_failed p r q c)

pub write_all_other :
    (p q : FilePath) (b : Bytes) (c : MemoryCard) → q ≢ p → file (write_all p b c).1 q ≡ file c q
unfolding write_all
write_all_other p q b c h = ground (
  arith,
  spend_file (write_all_act p b) c q,
  find_file-put_file p q b c.files,
  same-ne p q h,
  file_lem c q,
)

pub write_all_done :
    (p : FilePath) (b : Bytes) (c : MemoryCard)
    → (write_all p b c).0 ≡ true
    → file (write_all p b c).1 p ≡ some b
unfolding write_all
write_all_done p b c e =
    ground
      (arith, spend_file (write_all_act p b) c p, find_file-put_file p p b c.files, same_refl p)

pub append_other :
    (p q : FilePath) (b : Bytes) (c : MemoryCard) → q ≢ p → file (append p b c).1 q ≡ file c q
unfolding append
append_other p q b c h = ground (
  arith,
  spend_file (append_act p b) c q,
  find_file-put_file p q (contents (find_file p c.files) ++ b) c.files,
  same-ne p q h,
  file_lem c q,
)

pub append_done :
    (p : FilePath) (b : Bytes) (c : MemoryCard)
    → (append p b c).0 ≡ true
    → file (append p b c).1 p ≡ some (contents (file c p) ++ b)
unfolding append
append_done p b c e = ground (
  arith,
  spend_file (append_act p b) c p,
  find_file-put_file p p (contents (find_file p c.files) ++ b) c.files,
  same_refl p,
  file_lem c p,
)

append_failed_nothing :
    (p : FilePath) (b : Bytes) (c : MemoryCard)
    → (append p b c).0 ≡ false
    → contents (file (append p b c).1 p) ≡ contents (file c p)
unfolding append
append_failed_nothing p b c e = ground (arith, spend_file (append_act p b) c p)

pub append_failed :
    (p : FilePath) (b : Bytes) (c : MemoryCard)
    → (append p b c).0 ≡ false
    → (n : ℕ) × (contents (file (append p b c).1 p) ≡ contents (file c p) ++ take n b)
append_failed p b c e = (0, append_failed_nothing p b c e ∙ sym (append-nil _))

pub mkdirs_other : (p q : FilePath) (c : MemoryCard) → file (mkdirs p c).1 q ≡ file c q
unfolding mkdirs
mkdirs_other p q c = ground (arith, spend_file (λ fs. (true, fs)) c q, file_lem c q)

abbrev pub memory : Storage
memory = record {
  Card = MemoryCard;
  file = file;
  remove = remove;
  rename = rename;
  write_all = write_all;
  append = append;
  mkdirs = mkdirs;
  free_bytes = λ c. c.free;
  remove_other = remove_other;
  rename_other = rename_other;
  write_all_other = write_all_other;
  append_other = append_other;
  mkdirs_other = mkdirs_other;
  remove_done = remove_done;
  rename_done = rename_done;
  write_all_done = write_all_done;
  append_done = append_done;
  remove_failed = remove_failed;
  rename_failed = rename_failed;
  append_failed = append_failed;
}
