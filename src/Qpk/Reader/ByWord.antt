-- ===== src/Qpk/Reader/ByWord.antt =====
-- Reader::findAyahByWordIndex and findLineByWordIndex of firmware/qpk/qpk_reader.cpp.
use diy_ebook.Prelude.{
  ℕ, suc, ◌-◌, ◌≤◌, ◌<◌, ◌≡◌, ◌⊎◌, inl, inr, arith, refl, ap, ◌∙◌, Bool, true, false, leb,
  Bool-cases, ◌==◌,
}
use diy_ebook.Qpk.Result.{Result, ok}
use diy_ebook.Qpk.Format
use diy_ebook.Qpk.Records.{LineRecord, LayoutHeader}
use diy_ebook.Qpk.Reader.{Reader}
use diy_ebook.Qpk.Reader.Search.{
  partition_point, line_starts_by, find_line_by_word_index, get_line, get_layout_header,
}
use diy_ebook.Qpk.Reader.Partition.{partition_point_lem}

-- Records from 0 on whose first words ascend, and the last of them that starts by `word`.
module _ (start : ℕ → ℕ) (total word i : ℕ)
    (ascending : (j k : ℕ) → j ≤ k → k < total → start j ≤ start k) (inside : i < total)
    (starts : start i ≤ word) (last : (suc i ≡ total) ⊎ (word < start (suc i))) where
  last_by :
      (p : ℕ)
      → p ≤ total
      → ((j : ℕ) → j < p → leb (start j) word ≡ true)
      → ((j : ℕ) → p ≤ j → j < total → leb (start j) word ≡ false)
      → p ≡ suc i
  last_by p bound below over = elim (Bool-cases (leb (suc i) p)) [
    | inr t ↦ absurd (ground (arith, t, over i))
    | inl t ↦ elim last [ inl e ↦ ground (arith, t) | inr later ↦ ground (arith, t, below (suc i)) ]
  ]

  -- The search stops right behind it.
  pub search-last :
      (goes_right : ℕ → Result Bool)
      → ((j : ℕ) → j < total → goes_right j ≡ ok (leb (start j) word))
      → partition_point goes_right total 0 total ≡ ok (suc i)
  search-last goes_right answers =
      let found =
        partition_point_lem goes_right (λ j. leb (start j) word) total answers
          (λ j k h b t. ground (arith, t, ascending j k)) in
      found.1.0 ∙ ap ok (last_by found.0 found.1.1.0 found.1.1.1 found.1.1.2)

positive : (i : ℕ) → (suc i == 0) ≡ false
positive i = ground arith

before : (i : ℕ) → suc i - 1 ≡ i
before i = omega arith

-- Where the layout and every line record read and the first words of the lines ascend, a line that
-- starts by a word and is the last one or followed by one that starts behind the word is what
-- find_line_by_word_index finds.
pub find_line_by_word_index_lem :
    (r : Reader) (layout : LayoutHeader) (line : ℕ → LineRecord) (word i : ℕ)
    → get_layout_header r ≡ ok layout
    → ((j : ℕ) → j < layout.line_count_total → get_line r j ≡ ok (line j))
    → ((j k : ℕ)
        → j ≤ k
        → k < layout.line_count_total
        → (line j).first_word_index ≤ (line k).first_word_index)
    → i < layout.line_count_total
    → (line i).first_word_index ≤ word
    → (suc i ≡ layout.line_count_total) ⊎ (word < (line (suc i)).first_word_index)
    → find_line_by_word_index r word ≡ ok (i, line i)
unfolding find_line_by_word_index
find_line_by_word_index_lem r layout line word i there reads ascending inside starts last =
    let some_ : (layout.line_count_total == 0) ≡ false = ground (arith, inside) in
    let stops =
      search-last (λ j. (line j).first_word_index) layout.line_count_total word i ascending inside
        starts last (line_starts_by r word) (λ j h. unfold line_starts_by in rw (reads j h) refl) in
    rw (there, some_, stops, positive i, before i, reads i inside) refl
