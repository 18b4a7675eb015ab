-- ===== src/Slots/Keep.antt =====
-- A predicate of all entries survives taking entries out.
use diy_ebook.Prelude.{ℕ, zero, suc, Bool, List, [], ◌∷◌, All, take, inl, inr, Bool-cases}
use diy_ebook.Slots.{erase_first}

module _ {A : Type 0} (P : A → Type 0) where
  pub All-erase_first : (p : A → Bool) (xs : List A) → All P xs → All P (erase_first p xs)
  unfolding erase_first
  All-erase_first p [] h = h
  All-erase_first p (x ∷ xs) h = elim (Bool-cases (p x)) [
    | inl e ↦ rw e h.1
    | inr e ↦ rw e (h.0, All-erase_first p xs h.1)
  ]

  pub All-take : (n : ℕ) (xs : List A) → All P xs → All P (take n xs)
  All-take zero xs h = tt
  All-take (suc n) [] h = h
  All-take (suc n) (x ∷ xs) h = (h.0, All-take n xs h.1)
