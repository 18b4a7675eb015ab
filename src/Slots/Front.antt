-- ===== src/Slots/Front.antt =====
-- `add` and `removeAt` over the array do what they say of the list of entries in use.
use diy_ebook.Prelude.{
  take_long, take-take, ℕ, zero, suc, ◌+◌, ◌-◌, ◌≤◌, ◌<◌, ◌≡◌, refl, ap, ap₂, sym, ◌∙◌, inl, inr,
  arith, Bool, List, [], ◌∷◌, ◌++◌, set, take, drop, length, Bool-cases, length-take,
}
use native.Mathlib.Numerals.{add-one, sub-one}
use diy_ebook.Slots.{
  Slots, IsValid, listed, find_slot, shift_right, shift_left, erase_first, last_slot, add_front,
  remove_at,
}
use diy_ebook.Slots.Shift.{
  set-shift_right, take-shift_left, length-set, length-shift_right, length-shift_left,
}

module _ {ℓ} {A : Type ℓ} (p : A → Bool) where
  find_slot-le : (n : ℕ) (xs : List A) → find_slot p n xs ≤ n
  unfolding find_slot
  find_slot-le zero xs = omega arith
  find_slot-le (suc n) [] = omega arith
  find_slot-le (suc n) (x ∷ xs) = ground (arith, find_slot-le n xs)

  erase_first-found :
      (m : ℕ) (xs : List A)
      → suc m ≤ length xs
      → find_slot p (suc m) xs ≤ m
      → take m (take (find_slot p (suc m) xs) xs ++ drop (suc (find_slot p (suc m) xs)) xs)
        ≡ erase_first p (take (suc m) xs)
  unfolding find_slot erase_first
  erase_first-found m [] h k = absurd (omega arith)
  erase_first-found zero (x ∷ xs) h k = elim (Bool-cases (p x)) [
    | inl e ↦ rw e
    | inr e ↦ absurd (omega (arith, rw e at k))
  ]
  erase_first-found (suc m) (x ∷ xs) h k = elim (Bool-cases (p x)) [
    | inl e ↦ rw e
    | inr e ↦ rw e (
        ap (λ (t : List A). x ∷ t)
          (erase_first-found m xs (omega arith) (omega (arith, rw e at k))))
  ]

  erase_first-absent :
      (n : ℕ) (xs : List A)
      → n ≤ length xs
      → find_slot p n xs ≡ n
      → erase_first p (take n xs) ≡ take n xs
  unfolding find_slot erase_first
  erase_first-absent zero xs h k = refl
  erase_first-absent (suc n) [] h k = absurd (omega arith)
  erase_first-absent (suc n) (x ∷ xs) h k = ground (arith, erase_first-absent n xs)

  length-erase_first : (xs : List A) → length (erase_first p xs) ≤ length xs
  unfolding erase_first
  length-erase_first [] = omega arith
  length-erase_first (x ∷ xs) = ground (arith, length-erase_first xs)

  take-prefix : (n : ℕ) (xs ys : List A) → n ≤ length xs → take n (take n xs ++ ys) ≡ take n xs
  take-prefix zero xs ys h = refl
  take-prefix (suc n) [] ys h = absurd (omega arith)
  take-prefix (suc n) (x ∷ xs) ys h = ap (λ (t : List A). x ∷ t) (take-prefix n xs ys (omega arith))

  module _ (d b : A) (capacity : ℕ) where
    abbrev placed : ℕ → List A → List A
    placed last xs = set (shift_right d last xs) 0 b

    front_found :
        (n : ℕ) (xs : List A)
        → n ≤ length xs
        → n ≤ capacity
        → find_slot p n xs < n
        → take n (placed (find_slot p n xs) xs) ≡ take capacity (b ∷ erase_first p (take n xs))
    front_found zero xs h g k = absurd (omega arith)
    front_found (suc m) xs h g k =
        let slot = find_slot p (suc m) xs in
        let same_rest = erase_first-found m xs h (omega arith) in
        ap (λ (t : List A). take (suc m) t) (set-shift_right d b slot xs (omega arith))
        ∙ ap (λ (t : List A). b ∷ t) same_rest
        ∙ sym (
            take_long capacity _ (
              omega (
                arith,
                ap (λ (t : List A). length t) same_rest,
                length-take m (take slot xs ++ drop (suc slot) xs),
              )))

    front_new :
        (n : ℕ) (xs : List A)
        → n < length xs
        → n < capacity
        → find_slot p n xs ≡ n
        → take (suc n) (placed n xs) ≡ take capacity (b ∷ erase_first p (take n xs))
    front_new n xs h g k =
        ap (λ (t : List A). take (suc n) t) (set-shift_right d b n xs h)
        ∙ ap (λ (t : List A). b ∷ t)
            (take-prefix n xs (drop (suc n) xs) (omega arith)
              ∙ sym (erase_first-absent n xs (omega arith) k))
        ∙ sym
            (take_long capacity _ (omega (arith, length-erase_first (take n xs), length-take n xs)))

    front_full :
        (n : ℕ) (xs : List A)
        → n ≡ length xs
        → n ≡ capacity
        → 0 < n
        → find_slot p n xs ≡ n
        → take n (placed (n - 1) xs) ≡ take n (b ∷ erase_first p (take n xs))
    front_full zero xs h g pos k = absurd (omega arith)
    front_full (suc m) xs h g pos k = rw sub-one (
        ap (λ (t : List A). take (suc m) t) (set-shift_right d b m xs (omega arith))
        ∙ ap (λ (t : List A). b ∷ t)
            (take-prefix m xs (drop (suc m) xs) (omega arith)
              ∙ sym (take-take m (suc m) xs (omega arith))
              ∙ ap (λ (t : List A). take m t)
                  (sym (erase_first-absent (suc m) xs (omega arith) k))))

module _ {A : Type 0} (p : A → Bool) where
  -- `add` puts the entry first, takes an equal one out, and keeps at most `capacity`.
  pub listed-add_front :
      (capacity : ℕ) (d b : A) (s : Slots A)
      → 0 < capacity
      → IsValid capacity s
      → listed (add_front capacity d p b s) ≡ take capacity (b ∷ erase_first p (listed s))
  unfolding add_front
  listed-add_front capacity d b s pos v = ground (
    arith,
    find_slot-le p s.count s.items,
    front_found p d b capacity s.count s.items,
    front_new p d b capacity s.count s.items,
    front_full p d b capacity s.count s.items,
    add-one s.count,
  )

  pub add_front-IsValid :
      (capacity : ℕ) (d b : A) (s : Slots A)
      → IsValid capacity s
      → IsValid capacity (add_front capacity d p b s)
  unfolding add_front
  add_front-IsValid capacity d b s v =
      let last = last_slot (find_slot p s.count s.items) s.count capacity in
      record {
        size =
            length-set (shift_right d last s.items) 0 b
            ∙ length-shift_right d last s.items
            ∙ v.size;
        within = ground (arith, v.within);
      }

module _ {A : Type 0} where
  drop-take : (k n m : ℕ) (xs : List A) → m ≡ k + n → drop k (take m xs) ≡ take n (drop k xs)
  drop-take zero n m xs e = ap (λ (t : ℕ). take t xs) (omega arith)
  drop-take (suc k) n zero xs e = absurd (omega arith)
  drop-take (suc k) zero (suc m) [] e = refl
  drop-take (suc k) (suc n) (suc m) [] e = refl
  drop-take (suc k) n (suc m) (x ∷ xs) e = drop-take k n m xs (omega arith)

  closed_gap :
      (d : A) (i count : ℕ) (xs : List A)
      → i < count
      → count ≤ length xs
      → take (count - 1) (shift_left d (count - 1 - i) i xs)
        ≡ take i (take count xs) ++ drop (suc i) (take count xs)
  closed_gap d i count xs h g =
      let n = count - 1 - i in
      ap (λ (t : ℕ). take t (shift_left d n i xs)) (omega arith)
      ∙ take-shift_left d n i xs (omega arith)
      ∙ ap₂ (λ (s t : List A). s ++ t) (sym (take-take i count xs (omega arith)))
          (sym (drop-take (suc i) n count xs (omega arith)))

  -- Removing by index takes that entry out and keeps the order of the others.
  pub listed-remove_at :
      (capacity : ℕ) (d : A) (i : ℕ) (s : Slots A)
      → i < s.count
      → IsValid capacity s
      → listed (remove_at d i s).0 ≡ take i (listed s) ++ drop (suc i) (listed s)
  unfolding remove_at
  listed-remove_at capacity d i s h v =
      ground (arith, v.size, v.within, closed_gap d i s.count s.items)

  pub remove_at-IsValid :
      (capacity : ℕ) (d : A) (i : ℕ) (s : Slots A)
      → IsValid capacity s
      → IsValid capacity (remove_at d i s).0
  unfolding remove_at
  remove_at-IsValid capacity d i s v = record {
    size = ground (arith, v.size, length-shift_left d (s.count - 1 - i) i s.items);
    within = ground (arith, v.within);
  }
