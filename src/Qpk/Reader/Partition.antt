-- ===== src/Qpk/Reader/Partition.antt =====
-- The binary search of firmware/qpk/qpk_reader.cpp: it ends, and where it ends the test changes.
use diy_ebook.Prelude.{
  ℕ, zero, suc, ◌+◌, ◌-◌, ◌/◌, ◌≤◌, ◌<◌, ◌≡◌, ◌≢◌, inl, inr, arith, refl, sym, ap, subst, ◌∙◌, Bool,
  true, false, ltb, Bool-cases,
}
use diy_ebook.Qpk.Result.{Result, ok}
use diy_ebook.Qpk.Reader.Search.{partition_point}

true_and_false : (b : Bool) → b ≡ true → b ≢ false
true_and_false b t f = cc

-- A test that holds below some index and fails from there on.
module _ (goes_right : ℕ → Result Bool) (test : ℕ → Bool) (total : ℕ)
    (answers : (i : ℕ) → i < total → goes_right i ≡ ok (test i))
    (downward : (i j : ℕ) → i ≤ j → j < total → test j ≡ true → test i ≡ true) where
  abbrev pub IsPartition : ℕ → Type 0
  IsPartition p =
      (p ≤ total)
      × ((i : ℕ) → i < p → test i ≡ true)
      × ((i : ℕ) → p ≤ i → i < total → test i ≡ false)

  abbrev pub Found : Result ℕ → Type 0
  Found answer = (p : ℕ) × ((answer ≡ ok p) × IsPartition p)

  above_fails : (mid i : ℕ) → mid ≤ i → i < total → test mid ≡ false → test i ≡ false
  above_fails mid i h inside fails = elim (Bool-cases (test i)) [
    | inr t ↦ t
    | inl t ↦ absurd (true_and_false (test mid) (downward mid i h inside t) fails)
  ]

  at_end :
      (rounds low high : ℕ)
      → ltb low high ≡ false
      → partition_point goes_right (suc rounds) low high ≡ ok low
  unfolding partition_point
  at_end rounds low high t = rw (t, partition_point) refl

  abbrev middle : ℕ → ℕ → ℕ
  middle low high = low + (high - low) / 2

  to_right :
      (rounds low high : ℕ)
      → ltb low high ≡ true
      → goes_right (middle low high) ≡ ok true
      → partition_point goes_right (suc rounds) low high
        ≡ partition_point goes_right rounds (middle low high + 1) high
  unfolding partition_point
  to_right rounds low high t g = rw (t, g, partition_point) refl

  to_left :
      (rounds low high : ℕ)
      → ltb low high ≡ true
      → goes_right (middle low high) ≡ ok false
      → partition_point goes_right (suc rounds) low high
        ≡ partition_point goes_right rounds low (middle low high)
  unfolding partition_point
  to_left rounds low high t g = rw (t, g, partition_point) refl

  search :
      (rounds low high : ℕ)
      → high - low ≤ rounds
      → low ≤ high
      → high ≤ total
      → ((i : ℕ) → i < low → test i ≡ true)
      → ((i : ℕ) → high ≤ i → i < total → test i ≡ false)
      → Found (partition_point goes_right rounds low high)
  search zero low high enough order bound below over =
      (low, (unfold partition_point in refl, (omega arith, below, λ i h. over i (omega arith))))
  search (suc rounds) low high enough order bound below over = elim (Bool-cases (ltb low high)) [
    | inr t ↦
        (low, (at_end rounds low high t, (omega arith, below, λ i h. over i (ground (arith, t)))))
    | inl t ↦
        (let mid = middle low high in
          let inside : mid < high = ground (arith, t) in
          let answer = answers mid (omega (arith, inside)) in
          elim (Bool-cases (test mid)) [
            | inl right ↦ subst Found (sym (to_right rounds low high t (answer ∙ ap ok right))) (
                search rounds (mid + 1) high (omega (arith, inside)) (omega (arith, inside)) bound
                  (λ i h. downward i mid (omega (arith, h)) (omega (arith, inside)) right) over)
            | inr left ↦ subst Found (sym (to_left rounds low high t (answer ∙ ap ok left))) (
                search rounds low mid (omega (arith, inside)) (omega arith) (omega (arith, inside))
                  below (λ i h k. above_fails mid i h k left))
          ])
  ]

  pub partition_point_lem : Found (partition_point goes_right total 0 total)
  partition_point_lem =
      search total 0 total (omega arith) (omega arith) (omega arith)
        (λ i h. absurd (omega (arith, h))) (λ i h k. absurd (omega (arith, h, k)))
