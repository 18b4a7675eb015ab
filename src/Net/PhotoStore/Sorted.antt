-- ===== src/Net/PhotoStore/Sorted.antt =====
-- PhotoStore::list of firmware/wifi/photo_store.cpp against sorting.
use diy_ebook.Prelude.{
  take-take, ℕ, zero, suc, ◌≤◌, ◌≡◌, refl, ap, sym, subst, either, leb→le, ◌∙◌, inl, inr, true,
  false, Option, none, some, List, [], ◌∷◌, length, take, All, leb, ◌==◌, if◌then◌else◌, arith,
  Bool-cases, length-take,
}
use diy_ebook.Net.PhotoStore.Listed.{
  name_gt, photo_entry, position_of, insert_at, insert_name, insert_entry, list_loop, list_photos,
  insert_sorted, sort_entry, sorted_photos, NotGt, IsSorted,
}

gt-NotGt : (x y : List ℕ) → name_gt x y ≡ true → NotGt y x
unfolding name_gt
gt-NotGt [] ys h = cc
gt-NotGt (x ∷ xs) [] h = refl
gt-NotGt (x ∷ xs) (y ∷ ys) h = ground (arith, gt-NotGt xs ys)

-- x ≤ y and e < x
gt_trans : (x y e : List ℕ) → NotGt x y → name_gt x e ≡ true → name_gt y e ≡ true
unfolding name_gt
gt_trans [] y e h k = cc
gt_trans (x ∷ xs) [] e h k = cc
gt_trans (x ∷ xs) (y ∷ ys) [] h k = refl
gt_trans (x ∷ xs) (y ∷ ys) (e ∷ es) h k = ground (arith, gt_trans xs ys es)

NotGt-trans : (x y z : List ℕ) → NotGt x y → NotGt y z → NotGt x z
unfolding name_gt
NotGt-trans [] y z h k = refl
NotGt-trans (x ∷ xs) [] z h k = cc
NotGt-trans (x ∷ xs) (y ∷ ys) [] h k = cc
NotGt-trans (x ∷ xs) (y ∷ ys) (z ∷ zs) h k = ground (arith, NotGt-trans xs ys zs)

All-imp :
    (P Q : List ℕ → Type 0) (xs : List (List ℕ)) → ((x : List ℕ) → P x → Q x) → All P xs → All Q xs
All-imp P Q [] f h = tt
All-imp P Q (x ∷ xs) f (p, h) = (f x p, All-imp P Q xs f h)

-- Before a name that is larger than all.
position_of-all_gt :
    (e : List ℕ) (xs : List (List ℕ)) → All (λ y. name_gt y e ≡ true) xs → position_of e xs ≡ 0
unfolding position_of
position_of-all_gt e [] h = refl
position_of-all_gt e (x ∷ xs) (gt, h) = rw (position_of-all_gt e xs h, gt, position_of) refl

position_of_cons :
    (e x : List ℕ) (xs : List (List ℕ))
    → name_gt x e ≡ false
    → position_of e (x ∷ xs) ≡ suc (position_of e xs)
unfolding position_of
position_of_cons e x xs h = by_position (position_of e xs)
  where
    by_position :
        (p : ℕ) → elim p [ zero ↦ if name_gt x e then 0 else 1 | suc p ↦ suc (suc p) ] ≡ suc p
    by_position zero = rw h refl
    by_position (suc p) = refl

insert_sorted_cons :
    (e x : List ℕ) (xs : List (List ℕ))
    → insert_sorted e (x ∷ xs) ≡ (if name_gt x e then e ∷ x ∷ xs else x ∷ insert_sorted e xs)
unfolding insert_sorted
insert_sorted_cons e x xs = refl

insert_at-sorted :
    (e : List ℕ) (xs : List (List ℕ))
    → IsSorted xs
    → insert_at (position_of e xs) e xs ≡ insert_sorted e xs
insert_at-sorted e [] h = unfold position_of in unfold insert_sorted in refl
insert_at-sorted e (x ∷ xs) (least, h) = elim (Bool-cases (name_gt x e)) [
  | inl gt ↦
      let all_gt =
        All-imp (NotGt x) (λ y. name_gt y e ≡ true) xs (λ y le. gt_trans x y e le gt) least in
      rw (insert_sorted_cons e x xs, gt, position_of-all_gt e (x ∷ xs) (gt, all_gt)) refl
  | inr le ↦
      rw (insert_sorted_cons e x xs, le, position_of_cons e x xs le)
        (ap (λ (t : List (List ℕ)). x ∷ t) (insert_at-sorted e xs h))
]

All-insert_sorted :
    (P : List ℕ → Type 0) (e : List ℕ) (xs : List (List ℕ))
    → P e
    → All P xs
    → All P (insert_sorted e xs)
unfolding insert_sorted
All-insert_sorted P e [] p h = (p, tt)
All-insert_sorted P e (x ∷ xs) p (q, h) =
    either (All P) (name_gt x e) (e ∷ x ∷ xs) (x ∷ insert_sorted e xs) (p, (q, h))
      (q, All-insert_sorted P e xs p h)

insert_sorted-IsSorted :
    (e : List ℕ) (xs : List (List ℕ)) → IsSorted xs → IsSorted (insert_sorted e xs)
insert_sorted-IsSorted e [] h = unfold insert_sorted in (tt, tt)
insert_sorted-IsSorted e (x ∷ xs) (least, h) = elim (Bool-cases (name_gt x e)) [
  | inl gt ↦
      let e_le = gt-NotGt x e gt in
      let all_le = All-imp (NotGt x) (NotGt e) xs (λ y le. NotGt-trans e x y e_le le) least in
      rw (insert_sorted_cons e x xs, gt) ((e_le, all_le), (least, h))
  | inr le ↦
      rw (insert_sorted_cons e x xs, le)
        (All-insert_sorted (NotGt x) e xs le least, insert_sorted-IsSorted e xs h)
]

All-take : (P : List ℕ → Type 0) (n : ℕ) (xs : List (List ℕ)) → All P xs → All P (take n xs)
All-take P zero xs h = tt
All-take P (suc n) [] h = tt
All-take P (suc n) (x ∷ xs) (p, h) = (p, All-take P n xs h)

take-IsSorted : (n : ℕ) (xs : List (List ℕ)) → IsSorted xs → IsSorted (take n xs)
take-IsSorted zero xs h = tt
take-IsSorted (suc n) [] h = tt
take-IsSorted (suc n) (x ∷ xs) (least, h) = (All-take (NotGt x) n xs least, take-IsSorted n xs h)

take-take_cons :
    (n : ℕ) (x : List ℕ) (xs : List (List ℕ)) → take n (x ∷ take n xs) ≡ take n (x ∷ xs)
take-take_cons zero x xs = refl
take-take_cons (suc n) x xs =
    ap (λ (t : List (List ℕ)). x ∷ t) (take-take n (suc n) xs (omega arith))

-- What drops off does not come back.
take-insert_sorted :
    (n : ℕ) (e : List ℕ) (xs : List (List ℕ))
    → take n (insert_sorted e (take n xs)) ≡ take n (insert_sorted e xs)
take-insert_sorted zero e xs = refl
take-insert_sorted (suc n) e [] = refl
take-insert_sorted (suc n) e (x ∷ xs) = elim (Bool-cases (name_gt x e)) [
  | inl gt ↦
      rw (insert_sorted_cons e x (take n xs), insert_sorted_cons e x xs, gt)
        (ap (λ (t : List (List ℕ)). e ∷ t) (take-take_cons n x xs))
  | inr le ↦
      rw (insert_sorted_cons e x (take n xs), insert_sorted_cons e x xs, le)
        (ap (λ (t : List (List ℕ)). x ∷ t) (take-insert_sorted n e xs))
]

-- Behind the last place nothing changes.
take-insert_at_end :
    (n p : ℕ) (e : List ℕ) (xs : List (List ℕ))
    → n ≤ p
    → length xs ≤ n
    → p ≤ length xs
    → take n (insert_at p e xs) ≡ xs
take-insert_at_end zero p e [] h k l = refl
take-insert_at_end zero p e (x ∷ xs) h k l = absurd (omega arith)
take-insert_at_end (suc n) zero e xs h k l = absurd (omega arith)
take-insert_at_end (suc n) (suc p) e [] h k l = absurd (omega arith)
take-insert_at_end (suc n) (suc p) e (x ∷ xs) h k l =
    ap (λ (t : List (List ℕ)). x ∷ t)
      (take-insert_at_end n p e xs (omega arith) (omega arith) (omega arith))

position_of-le : (e : List ℕ) (xs : List (List ℕ)) → position_of e xs ≤ length xs
unfolding position_of
position_of-le e [] = omega arith
position_of-le e (x ∷ xs) = ground (arith, position_of-le e xs)

insert_name-take :
    (n : ℕ) (e : List ℕ) (xs : List (List ℕ))
    → IsSorted xs
    → insert_name n (take n xs) e ≡ take n (insert_sorted e xs)
unfolding insert_name
insert_name-take n e xs h =
    let out = take n xs in
    let short : length out ≤ n = omega (arith, length-take n xs) in
    let inserted = insert_at-sorted e out (take-IsSorted n xs h) in
    elim (Bool-cases (leb n (position_of e out))) [
      | inl behind ↦
          let kept =
            take-insert_at_end n (position_of e out) e out (leb→le _ _ behind) short
              (position_of-le e out) in
          rw behind (sym kept ∙ ap (take n) inserted ∙ take-insert_sorted n e xs)
      | inr inside ↦ rw inside (ap (take n) inserted ∙ take-insert_sorted n e xs)
    ]

list_loop-IsSorted :
    (n : ℕ) (xs : List (List ℕ)) (entries : List (List ℕ × ℕ))
    → IsSorted xs
    → (list_loop n (take n xs) entries ≡ take n (sorted_photos xs entries))
      × IsSorted (sorted_photos xs entries)
unfolding list_loop sorted_photos
list_loop-IsSorted n xs [] h = (refl, h)
list_loop-IsSorted n xs (e ∷ es) h = by_entry (λ ys k. list_loop-IsSorted n ys es k) (photo_entry e)
  where
    by_entry :
        ((ys : List (List ℕ))
          → IsSorted ys
          → (list_loop n (take n ys) es ≡ take n (sorted_photos ys es))
            × IsSorted (sorted_photos ys es))
        → (o : Option (List ℕ))
        → (list_loop n (insert_entry n (take n xs) o) es
            ≡ take n (sorted_photos (sort_entry o xs) es))
          × IsSorted (sorted_photos (sort_entry o xs) es)
    by_entry rest none = rest xs h
    by_entry rest (some name) =
        let found = rest (insert_sorted name xs) (insert_sorted-IsSorted name xs h) in
        (
          ap (λ (t : List (List ℕ)). list_loop n t es) (insert_name-take n name xs h) ∙ found.0,
          found.1,
        )

not_empty : (n : ℕ) → (suc n == 0) ≡ false
not_empty n = ground arith

-- list gives the first names, as many as the capacity, of the completed photos sorted by insertion,
-- and they are in order.
pub list_photos_lem :
    (capacity : ℕ) (entries : List (List ℕ × ℕ))
    → (list_photos capacity entries ≡ take capacity (sorted_photos [] entries))
      × IsSorted (list_photos capacity entries)
unfolding list_photos
list_photos_lem zero entries = (refl, tt)
list_photos_lem (suc n) entries =
    let loop = list_loop-IsSorted (suc n) [] entries tt in
    rw (not_empty n) (
      loop.0,
      subst IsSorted (sym loop.0) (take-IsSorted (suc n) (sorted_photos [] entries) loop.1),
    )
