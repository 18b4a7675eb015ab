-- ===== src/Net/PhotoStore/Listed.antt =====
-- PhotoStore::list of firmware/wifi/photo_store.cpp: the completed photos in the order of their
-- names. The entries of the directory, with their sizes, are what the card's openDir and next give.
use diy_ebook.Prelude.{
  ℕ, zero, suc, ◌-◌, ◌≡◌, Bool, true, false, ◌&&◌, ◌||◌, not, Option, none, some, List, [], ◌∷◌,
  length, take, drop, All, ltb, leb, ◌==◌, if◌then◌else◌, same,
}
use diy_ebook.Net.Allowed.{valid_photo_name}
use diy_ebook.Net.PhotoStore.{photo_file_bytes, photo_extension}

-- strcmp(x, y) > 0
unfoldable pub name_gt : List ℕ → List ℕ → Bool
name_gt [] ys = false
name_gt (x ∷ xs) [] = true
name_gt (x ∷ xs) (y ∷ ys) = if x == y then name_gt xs ys else ltb y x

unfoldable pub ends_with : List ℕ → List ℕ → Bool
unfolding same
ends_with text suffix =
    leb (length suffix) (length text) && same (drop (length text - length suffix) text) suffix

-- The name of an entry that is a completed photo.
unfoldable pub photo_entry : List ℕ × ℕ → Option (List ℕ)
photo_entry (entry, size) =
    if not (size == photo_file_bytes) || not (ends_with entry photo_extension)
    then none
    else let name = take (length entry - length photo_extension) entry in
      if not (valid_photo_name name) then none else some name

-- while (position > 0 && strcmp(out[position - 1], entry) > 0) --position
unfoldable pub position_of : List ℕ → List (List ℕ) → ℕ
position_of entry [] = 0
position_of entry (x ∷ xs) = elim (position_of entry xs) [
  | zero ↦ if name_gt x entry then 0 else 1
  | suc p ↦ suc (suc p)
]

abbrev pub insert_at : ℕ → List ℕ → List (List ℕ) → List (List ℕ)
insert_at zero entry xs = entry ∷ xs
insert_at (suc p) entry [] = entry ∷ []
insert_at (suc p) entry (x ∷ xs) = x ∷ insert_at p entry xs

-- Past the capacity the largest name drops off.
unfoldable pub insert_name : ℕ → List (List ℕ) → List ℕ → List (List ℕ)
unfolding position_of
insert_name capacity out entry =
    let position = position_of entry out in
    if leb capacity position then out else take capacity (insert_at position entry out)

abbrev pub insert_entry : ℕ → List (List ℕ) → Option (List ℕ) → List (List ℕ)
insert_entry capacity out none = out
insert_entry capacity out (some name) = insert_name capacity out name

unfoldable pub list_loop : ℕ → List (List ℕ) → List (List ℕ × ℕ) → List (List ℕ)
unfolding insert_name photo_entry
list_loop capacity out [] = out
list_loop capacity out (e ∷ es) = list_loop capacity (insert_entry capacity out (photo_entry e)) es

unfoldable pub list_photos : ℕ → List (List ℕ × ℕ) → List (List ℕ)
unfolding list_loop
list_photos capacity entries = if capacity == 0 then [] else list_loop capacity [] entries

-- What the list is to be: the photos sorted by insertion, and the first of them.
unfoldable pub insert_sorted : List ℕ → List (List ℕ) → List (List ℕ)
insert_sorted entry [] = entry ∷ []
insert_sorted entry (x ∷ xs) =
    let rest = x ∷ insert_sorted entry xs in if name_gt x entry then entry ∷ x ∷ xs else rest

abbrev pub sort_entry : Option (List ℕ) → List (List ℕ) → List (List ℕ)
sort_entry none sorted = sorted
sort_entry (some name) sorted = insert_sorted name sorted

unfoldable pub sorted_photos : List (List ℕ) → List (List ℕ × ℕ) → List (List ℕ)
unfolding insert_sorted photo_entry
sorted_photos sorted [] = sorted
sorted_photos sorted (e ∷ es) = sorted_photos (sort_entry (photo_entry e) sorted) es

abbrev pub NotGt : List ℕ → List ℕ → Type 0
NotGt x y = name_gt x y ≡ false

abbrev pub IsSorted : List (List ℕ) → Type 0
IsSorted [] = Unit {0}
IsSorted (x ∷ xs) = All (NotGt x) xs × IsSorted xs
