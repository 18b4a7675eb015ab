-- ===== src/Library/Index/Laws.antt =====
-- The index as a finite map from content ids to entries: find after upsert.
use diy_ebook.Prelude.{
  ℕ, zero, suc, ◌≤◌, ◌<◌, ◌≡◌, ◌≢◌, refl, ap, sym, ◌∙◌, arith, Bool, true, false, Option, some,
  List, [], ◌∷◌, length, set, ltb, leb, same, same_refl, same→eq, if◌then◌else◌, Bool-cases, inl,
  inr,
}
use diy_ebook.Qpk.ByteOrder.{Bytes}
use diy_ebook.Slots.{Slots, IsValid, find_slot}
use diy_ebook.Library.Index.{LibraryEntry, max_library_entries, has_id, first_entry, find, upsert}

module _ (p : LibraryEntry → Bool) (e : LibraryEntry) (h : p e ≡ true) where
  first_entry-replaced :
      (n : ℕ) (xs : List LibraryEntry)
      → find_slot p n xs < n
      → first_entry p n (set xs (find_slot p n xs) e) ≡ some e
  unfolding first_entry find_slot
  first_entry-replaced zero xs k = absurd (omega arith)
  first_entry-replaced (suc n) [] k = absurd (omega arith)
  first_entry-replaced (suc n) (x ∷ xs) k = elim (Bool-cases (p x)) [
    | inl t ↦ rw t (rw h refl)
    | inr t ↦ rw t (rw t (first_entry-replaced n xs (ground (arith, t))))
  ]

  first_entry-added :
      (n : ℕ) (xs : List LibraryEntry)
      → n ≤ find_slot p n xs
      → n < length xs
      → first_entry p (suc n) (set xs n e) ≡ some e
  unfolding first_entry find_slot
  first_entry-added n [] k l = absurd (omega arith)
  first_entry-added zero (x ∷ xs) k l = rw h refl
  first_entry-added (suc n) (x ∷ xs) k l = elim (Bool-cases (p x)) [
    | inl t ↦ absurd (ground (arith, t))
    | inr t ↦ rw (t, first_entry) (first_entry-added n xs (ground (arith, t)) (omega arith))
  ]

module _ (p q : LibraryEntry → Bool) (e : LibraryEntry)
    (apart : (x : LibraryEntry) → p x ≡ true → q x ≡ false) (other : q e ≡ false) where
  first_entry-replaced_other :
      (n : ℕ) (xs : List LibraryEntry)
      → find_slot p n xs < n
      → first_entry q n (set xs (find_slot p n xs) e) ≡ first_entry q n xs
  unfolding first_entry find_slot
  first_entry-replaced_other zero xs k = absurd (omega arith)
  first_entry-replaced_other (suc n) [] k = absurd (omega arith)
  first_entry-replaced_other (suc n) (x ∷ xs) k = elim (Bool-cases (p x)) [
    | inl t ↦ rw t (rw (other, apart x t) refl)
    | inr t ↦ rw t (
        ap (λ (r : Option LibraryEntry). if q x then some x else r)
          (first_entry-replaced_other n xs (ground (arith, t))))
  ]

  first_entry-added_other :
      (n : ℕ) (xs : List LibraryEntry)
      → n < length xs
      → first_entry q (suc n) (set xs n e) ≡ first_entry q n xs
  unfolding first_entry
  first_entry-added_other n [] k = absurd (omega arith)
  first_entry-added_other zero (x ∷ xs) k = rw other refl
  first_entry-added_other (suc n) (x ∷ xs) k =
      ap (λ (r : Option LibraryEntry). if q x then some x else r)
        (first_entry-added_other n xs (omega arith))

has_id_refl : (e : LibraryEntry) → has_id e.content_id e ≡ true
unfolding has_id
has_id_refl e = same_refl e.content_id

has_id_other :
    (id : Bytes) (e x : LibraryEntry)
    → id ≢ e.content_id
    → has_id e.content_id x ≡ true
    → has_id id x ≡ false
unfolding has_id
has_id_other id e x h k = elim (Bool-cases (same x.content_id id)) [
  | inl t ↦ absurd (h (sym (same→eq x.content_id id t) ∙ same→eq x.content_id e.content_id k))
  | inr t ↦ t
]

-- What the array and the count are after an upsert.
upsert-found :
    (e : LibraryEntry) (s : Slots LibraryEntry)
    → ltb (find_slot (has_id e.content_id) s.count s.items) s.count ≡ true
    → upsert e s ≡ (
      record {
        items = set s.items (find_slot (has_id e.content_id) s.count s.items) e;
        count = s.count;
      },
      true,
    )
unfolding upsert
upsert-found e s t = rw t refl

abbrev with_entries : List LibraryEntry → ℕ → Slots LibraryEntry × Bool
with_entries items n = (record { items = items; count = n }, true)

upsert-new :
    (e : LibraryEntry) (s : Slots LibraryEntry)
    → ltb (find_slot (has_id e.content_id) s.count s.items) s.count ≡ false
    → leb max_library_entries s.count ≡ false
    → upsert e s ≡ (record { items = set s.items s.count e; count = suc s.count }, true)
unfolding upsert
upsert-new e s t u =
    rw (t, u) (ap (λ (n : ℕ). with_entries (set s.items s.count e) n) (omega arith))

upsert-full :
    (e : LibraryEntry) (s : Slots LibraryEntry)
    → ltb (find_slot (has_id e.content_id) s.count s.items) s.count ≡ false
    → leb max_library_entries s.count ≡ true
    → upsert e s ≡ (s, false)
unfolding upsert
upsert-full e s t u = rw (t, u) refl

-- In a valid index, an entry that upsert took is found under its content id.
pub find-upsert :
    (e : LibraryEntry) (s : Slots LibraryEntry)
    → IsValid max_library_entries s
    → (upsert e s).1 ≡ true
    → find e.content_id (upsert e s).0 ≡ some e
unfolding find
find-upsert e s v done =
    let p = has_id e.content_id in
    elim (Bool-cases (ltb (find_slot p s.count s.items) s.count)) [
      | inl t ↦
          rw (upsert-found e s t)
            (first_entry-replaced p e (has_id_refl e) s.count s.items (ground (arith, t)))
      | inr t ↦ elim (Bool-cases (leb max_library_entries s.count)) [
        | inl u ↦
            absurd
              (ground (arith, ap (λ (r : Slots LibraryEntry × Bool). r.1) (upsert-full e s t u)))
        | inr u ↦ rw (upsert-new e s t u) (
            first_entry-added p e (has_id_refl e) s.count s.items (ground (arith, t))
              (ground (arith, u, v.size)))
      ]
    ]

-- In a valid index, upsert changes nothing of what is found under another content id, also where
-- the index is full.
pub find-upsert_other :
    (id : Bytes) (e : LibraryEntry) (s : Slots LibraryEntry)
    → IsValid max_library_entries s
    → id ≢ e.content_id
    → find id (upsert e s).0 ≡ find id s
unfolding find
find-upsert_other id e s v h =
    let p = has_id e.content_id in
    let q = has_id id in
    let other : q e ≡ false = has_id_other id e e h (has_id_refl e) in
    let apart = λ (x : LibraryEntry). has_id_other id e x h in
    elim (Bool-cases (ltb (find_slot p s.count s.items) s.count)) [
      | inl t ↦
          rw (upsert-found e s t)
            (first_entry-replaced_other p q e apart other s.count s.items (ground (arith, t)))
      | inr t ↦ elim (Bool-cases (leb max_library_entries s.count)) [
        | inl u ↦ rw (upsert-full e s t u) refl
        | inr u ↦
            rw (upsert-new e s t u) (
              first_entry-added_other p q e apart other s.count s.items (ground (arith, u, v.size)))
      ]
    ]
