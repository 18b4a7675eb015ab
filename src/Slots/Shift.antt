-- ===== src/Slots/Shift.antt =====
-- What the shifting loops leave in the array.
use diy_ebook.Prelude.{
  ℕ, zero, suc, ◌+◌, ◌≤◌, ◌<◌, ◌≡◌, refl, ap, ap₂, sym, ◌∙◌, arith, List, [], ◌∷◌, ◌++◌, set,
  get_or, take, drop, length,
}
use mathlib.Core.List.{append-nil, append_assoc}
use native.Mathlib.Nat.{add-zero}
use diy_ebook.Slots.{shift_right, shift_left}

add-suc_left : (i n : ℕ) → i + suc n ≡ suc i + n
add-suc_left i n = omega arith

module _ {ℓ} {A : Type ℓ} where
  pub length-set : (xs : List A) (i : ℕ) (v : A) → length (set xs i v) ≡ length xs
  length-set [] i v = refl
  length-set (x ∷ xs) zero v = refl
  length-set (x ∷ xs) (suc i) v = ap suc (length-set xs i v)

  take-set : (i j : ℕ) (xs : List A) (v : A) → i ≤ j → take i (set xs j v) ≡ take i xs
  take-set zero j xs v h = refl
  take-set (suc i) zero xs v h = absurd (omega arith)
  take-set (suc i) (suc j) [] v h = refl
  take-set (suc i) (suc j) (x ∷ xs) v h =
      ap (λ (t : List A). x ∷ t) (take-set i j xs v (omega arith))

  drop-set :
      (i : ℕ) (xs : List A) (v : A) → i < length xs → drop i (set xs i v) ≡ v ∷ drop (suc i) xs
  drop-set i [] v h = absurd (omega arith)
  drop-set zero (x ∷ xs) v h = refl
  drop-set (suc i) (x ∷ xs) v h = drop-set i xs v (omega arith)

  take-suc :
      (i : ℕ) (xs ys : List A) (d : A)
      → i < length xs
      → take i xs ++ (get_or xs i d ∷ ys) ≡ take (suc i) xs ++ ys
  take-suc i [] ys d h = absurd (omega arith)
  take-suc zero (x ∷ xs) ys d h = refl
  take-suc (suc i) (x ∷ xs) ys d h = ap (λ (t : List A). x ∷ t) (take-suc i xs ys d (omega arith))

  shift_right_body :
      (d : A) (last : ℕ) (x : A) (xs : List A)
      → last ≤ length xs
      → shift_right d last (x ∷ xs) ≡ x ∷ take last (x ∷ xs) ++ drop last xs
  unfolding shift_right
  shift_right_body d zero x xs h = refl
  shift_right_body d (suc i) x xs h =
      let v = get_or (x ∷ xs) i d in
      shift_right_body d i x (set xs i v) (omega (arith, length-set xs i v))
      ∙ ap₂ (λ (s t : List A). x ∷ s ++ t) (take-set i (suc i) (x ∷ xs) v (omega arith))
          (drop-set i xs v (omega arith))
      ∙ ap (λ (t : List A). x ∷ t) (take-suc i (x ∷ xs) (drop (suc i) xs) d (omega arith))

  -- The loop that frees slot 0, followed by the store to it.
  pub set-shift_right :
      (d b : A) (last : ℕ) (xs : List A)
      → last < length xs
      → set (shift_right d last xs) 0 b ≡ b ∷ take last xs ++ drop (suc last) xs
  set-shift_right d b last [] h = absurd (omega arith)
  set-shift_right d b last (x ∷ xs) h = rw (shift_right_body d last x xs (omega arith)) refl

  drop-set_below : (i j : ℕ) (xs : List A) (v : A) → j < i → drop i (set xs j v) ≡ drop i xs
  drop-set_below zero j xs v h = absurd (omega arith)
  drop-set_below (suc i) j [] v h = refl
  drop-set_below (suc i) zero (x ∷ xs) v h = refl
  drop-set_below (suc i) (suc j) (x ∷ xs) v h = drop-set_below i j xs v (omega arith)

  take-set_last :
      (i : ℕ) (xs : List A) (v : A)
      → i < length xs
      → take (suc i) (set xs i v) ≡ take i xs ++ (v ∷ [])
  take-set_last i [] v h = absurd (omega arith)
  take-set_last zero (x ∷ xs) v h = refl
  take-set_last (suc i) (x ∷ xs) v h =
      ap (λ (t : List A). x ∷ t) (take-set_last i xs v (omega arith))

  get_or-drop :
      (i : ℕ) (xs : List A) (d : A) → i < length xs → drop i xs ≡ get_or xs i d ∷ drop (suc i) xs
  get_or-drop i [] d h = absurd (omega arith)
  get_or-drop zero (x ∷ xs) d h = refl
  get_or-drop (suc i) (x ∷ xs) d h = get_or-drop i xs d (omega arith)

  -- The loop that closes the gap at slot `i`.
  pub take-shift_left :
      (d : A) (n i : ℕ) (xs : List A)
      → i + n < length xs
      → take (i + n) (shift_left d n i xs) ≡ take i xs ++ take n (drop (suc i) xs)
  unfolding shift_left
  take-shift_left d zero i xs h = rw (append-nil, add-zero i)
  take-shift_left d (suc n) i xs h =
      let v = get_or xs (suc i) d in
      rw (add-suc_left i n) (
        take-shift_left d n (suc i) (set xs i v) (omega (arith, length-set xs i v))
        ∙ ap₂ (λ (s t : List A). s ++ take n t) (take-set_last i xs v (omega arith))
            (drop-set_below (suc (suc i)) i xs v (omega arith))
        ∙ append_assoc (take i xs) (v ∷ []) (take n (drop (suc (suc i)) xs))
        ∙ ap (λ (t : List A). take i xs ++ take (suc n) t)
            (sym (get_or-drop (suc i) xs d (omega arith))))

  pub length-shift_right : (d : A) (n : ℕ) (xs : List A) → length (shift_right d n xs) ≡ length xs
  unfolding shift_right
  length-shift_right d zero xs = refl
  length-shift_right d (suc i) xs =
      length-shift_right d i (set xs (suc i) (get_or xs i d))
      ∙ length-set xs (suc i) (get_or xs i d)

  pub length-shift_left : (d : A) (n i : ℕ) (xs : List A) → length (shift_left d n i xs) ≡ length xs
  unfolding shift_left
  length-shift_left d zero i xs = refl
  length-shift_left d (suc n) i xs =
      length-shift_left d n (suc i) (set xs i (get_or xs (suc i) d))
      ∙ length-set xs i (get_or xs (suc i) d)
