-- ===== src/Bookmarks/Laws.antt =====
-- What `add`, `removeAt` and `contains` do to the list of bookmarks.
use diy_ebook.Prelude.{
  ℕ, zero, suc, ◌<◌, ◌≡◌, inl, inr, arith, Bool, true, false, List, [], ◌∷◌, ◌++◌, take, drop, All,
  same_refl, same→eq, Bool-cases,
}
use diy_ebook.Slots.{Slots, IsValid, listed, erase_first}
use diy_ebook.Slots.Front.{listed-add_front, listed-remove_at, add_front-IsValid}
use diy_ebook.Slots.Keep.{All-erase_first, All-take}
use diy_ebook.Bookmarks.{Bookmark, max_bookmarks, blank, same_place, add, remove_index}

-- No two entries are the same place.
abbrev pub IsDistinct : List Bookmark → Type 0
IsDistinct [] = Unit
IsDistinct (x ∷ xs) = All (λ y. same_place y x ≡ false) xs × IsDistinct xs

same_place_refl : (x : Bookmark) → same_place x x ≡ true
unfolding same_place
same_place_refl x = ground (arith, same_refl x.content_id)

same_place_trans :
    (x y z : Bookmark) → same_place x y ≡ true → same_place z y ≡ true → same_place z x ≡ true
unfolding same_place
same_place_trans x y z h k = ground (
  arith,
  same→eq x.content_id y.content_id,
  same→eq z.content_id y.content_id,
  same_refl x.content_id,
)

-- On a valid list, add puts the bookmark first, takes out the first entry of the same place and
-- keeps 64 entries at most.
pub add_lem :
    (x : Bookmark) (s : Slots Bookmark)
    → IsValid max_bookmarks s
    → listed (add x s) ≡ take max_bookmarks (x ∷ erase_first (λ y. same_place y x) (listed s))
unfolding add
add_lem x s v = listed-add_front (λ y. same_place y x) max_bookmarks blank x s (omega arith) v

IsDistinct-take : (n : ℕ) (xs : List Bookmark) → IsDistinct xs → IsDistinct (take n xs)
IsDistinct-take zero xs h = tt
IsDistinct-take (suc n) [] h = h
IsDistinct-take (suc n) (x ∷ xs) h = (All-take _ n xs h.0, IsDistinct-take n xs h.1)

IsDistinct-erase_first :
    (p : Bookmark → Bool) (xs : List Bookmark) → IsDistinct xs → IsDistinct (erase_first p xs)
unfolding erase_first
IsDistinct-erase_first p [] h = h
IsDistinct-erase_first p (x ∷ xs) h = elim (Bool-cases (p x)) [
  | inl e ↦ rw e h.1
  | inr e ↦ rw e (All-erase_first _ p xs h.0, IsDistinct-erase_first p xs h.1)
]

-- In a list of distinct places nothing equal to the one at the head follows.
others_differ :
    (b x : Bookmark) (xs : List Bookmark)
    → same_place x b ≡ true
    → All (λ y. same_place y x ≡ false) xs
    → All (λ y. same_place y b ≡ false) xs
others_differ b x [] e h = h
others_differ b x (y ∷ ys) e h =
    (ground (arith, same_place_trans x b y), others_differ b x ys e h.1)

erased_differ :
    (b : Bookmark) (xs : List Bookmark)
    → IsDistinct xs
    → All (λ y. same_place y b ≡ false) (erase_first (λ y. same_place y b) xs)
unfolding erase_first
erased_differ b [] h = h
erased_differ b (x ∷ xs) h = elim (Bool-cases (same_place x b)) [
  | inl e ↦ rw e (others_differ b x xs e h.0)
  | inr e ↦ rw e (e, erased_differ b xs h.1)
]

-- On a valid list of distinct places, add gives a valid list of distinct places.
pub add-IsDistinct :
    (x : Bookmark) (s : Slots Bookmark)
    → IsValid max_bookmarks s
    → IsDistinct (listed s)
    → IsValid max_bookmarks (add x s) × IsDistinct (listed (add x s))
add-IsDistinct x s v h = (
  unfold add in add_front-IsValid (λ y. same_place y x) max_bookmarks blank x s v,
  rw (add_lem x s v) (
      IsDistinct-take max_bookmarks (x ∷ erase_first (λ y. same_place y x) (listed s))
        (erased_differ x (listed s) h, IsDistinct-erase_first (λ y. same_place y x) (listed s) h)),
)

-- On a valid list, removing an index in use takes that entry out and keeps the others in order.
pub remove_index_lem :
    (i : ℕ) (s : Slots Bookmark)
    → i < s.count
    → IsValid max_bookmarks s
    → listed (remove_index i s).0 ≡ take i (listed s) ++ drop (suc i) (listed s)
unfolding remove_index
remove_index_lem i s h v = listed-remove_at max_bookmarks blank i s h v
