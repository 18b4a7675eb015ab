-- ===== src/Qpk/File/Exact.antt =====
-- IFile::readExact of firmware/include/hal/storage.h over files that may read short.
use diy_ebook.Prelude.{
  ℕ, zero, suc, ◌+◌, ◌-◌, ◌≤◌, ◌<◌, ◌≡◌, inl, inr, arith, refl, sym, ap, subst, ◌∙◌, Bool, Option,
  none, some, [], ◌∷◌, ◌++◌, length, take, drop, leb, if◌then◌else◌, Bool-cases, length-take,
  length-drop,
}
use diy_ebook.Qpk.ByteOrder.{Bytes}
use diy_ebook.Qpk.File.{File, read_rounds, read_exact, put_in_front, memory_file}

-- The bytes of a range.
abbrev pub slice : Bytes → ℕ → ℕ → Bytes
slice bytes offset n = take n (drop offset bytes)

-- What `read` may answer to a request for `n` bytes: a first part of them that is not empty, and at
-- the end of the file nothing or an error.
abbrev pub IsRead : Bytes → ℕ → ℕ → Option Bytes → Type 0
IsRead bytes offset n none = length bytes ≤ offset
IsRead bytes offset n (some []) = length bytes ≤ offset
IsRead bytes offset n (some (b ∷ more)) =
    (suc (length more) ≤ n) × (slice bytes offset (suc (length more)) ≡ b ∷ more)

-- A file whose reads give its bytes, however short they are.
abbrev pub IsFaithful : File → Bytes → Type 0
IsFaithful f bytes =
    (f.size ≡ length bytes) × ((offset n : ℕ) → 0 < n → IsRead bytes offset n (f.read offset n))

take_nil : (n : ℕ) → take {A = ℕ} n [] ≡ []
take_nil zero = refl
take_nil (suc n) = refl

plus_suc : (m n : ℕ) → suc m + n ≡ suc (m + n)
plus_suc m n = omega arith

take-split : (xs : Bytes) (m n : ℕ) → take (m + n) xs ≡ take m xs ++ take n (drop m xs)
take-split xs zero n = ap (λ (k : ℕ). take k xs) (omega arith)
take-split [] (suc m) zero = take_nil (suc m + 0)
take-split [] (suc m) (suc n) = take_nil (suc m + suc n)
take-split (x ∷ xs) (suc m) n =
    ap (λ (k : ℕ). take k (x ∷ xs)) (plus_suc m n) ∙ ap (λ (t : Bytes). x ∷ t) (take-split xs m n)

drop_nil : (n : ℕ) → drop {A = ℕ} n [] ≡ []
drop_nil zero = refl
drop_nil (suc n) = refl

drop-drop : (xs : Bytes) (m n : ℕ) → drop m (drop n xs) ≡ drop (n + m) xs
drop-drop xs m zero = ap (λ (k : ℕ). drop k xs) (omega arith)
drop-drop [] zero (suc n) = sym (drop_nil (suc n + 0))
drop-drop [] (suc m) (suc n) = sym (drop_nil (suc n + suc m))
drop-drop (x ∷ xs) m (suc n) =
    drop-drop xs m n ∙ ap (λ (k : ℕ). drop k (x ∷ xs)) (sym (plus_suc n m))

pub slice-split :
    (bytes : Bytes) (offset m n : ℕ)
    → slice bytes offset (m + n) ≡ slice bytes offset m ++ slice bytes (offset + m) n
slice-split bytes offset m n =
    take-split (drop offset bytes) m n
    ∙ ap (λ (t : Bytes). take m (drop offset bytes) ++ take n t) (drop-drop bytes m offset)

pub length-slice :
    (bytes : Bytes) (offset n : ℕ) → offset + n ≤ length bytes → length (slice bytes offset n) ≡ n
length-slice bytes offset n h =
    omega (arith, length-take n (drop offset bytes), length-drop offset bytes)

-- What readExact gives: the whole range or nothing.
abbrev pub range : Bytes → ℕ → ℕ → Option Bytes
range bytes offset n = if leb n (length bytes - offset) then some (slice bytes offset n) else none

range-beyond :
    (bytes : Bytes) (offset n : ℕ) → length bytes ≤ offset → range bytes offset (suc n) ≡ none
range-beyond bytes offset n h = ground arith

range-nothing : (bytes : Bytes) (offset : ℕ) → range bytes offset 0 ≡ some []
range-nothing bytes offset = ground arith

pub range-inside :
    (bytes : Bytes) (offset n : ℕ)
    → offset + n ≤ length bytes
    → range bytes offset n ≡ some (slice bytes offset n)
range-inside bytes offset n h = ground arith

range-short :
    (bytes : Bytes) (offset n : ℕ) → 0 < n → length bytes < offset + n → range bytes offset n ≡ none
range-short bytes offset n h k = ground arith

-- A range is its first part and the range behind it.
range-split :
    (bytes front : Bytes) (offset rest : ℕ)
    → 0 < length front
    → slice bytes offset (length front) ≡ front
    → put_in_front front (range bytes (offset + length front) rest)
      ≡ range bytes offset (length front + rest)
range-split bytes front offset rest some_ same_ =
    let inside : offset + length front ≤ length bytes = omega (
      arith,
      ap length same_,
      length-take (length front) (drop offset bytes),
      length-drop offset bytes,
    ) in
    elim (Bool-cases (leb (offset + length front + rest) (length bytes))) [
      | inl t ↦
          ap (put_in_front front)
            (range-inside bytes (offset + length front) rest (ground (arith, t)))
          ∙ ap some (
              ap (λ (b : Bytes). b ++ slice bytes (offset + length front) rest) (sym same_)
              ∙ sym (slice-split bytes offset (length front) rest))
          ∙ sym (range-inside bytes offset (length front + rest) (ground (arith, t)))
      | inr t ↦
          ap (put_in_front front)
            (range-short bytes (offset + length front) rest (ground (arith, t)) (ground (arith, t)))
          ∙ sym (range-short bytes offset (length front + rest) (omega arith) (ground (arith, t)))
    ]

module _ (f : File) (bytes : Bytes) (faithful : IsFaithful f bytes) where
  -- The rest of a round, on the answer of `read`.
  abbrev continue_read : ℕ → ℕ → ℕ → Option Bytes → Option Bytes
  continue_read rounds offset n none = none
  continue_read rounds offset n (some []) = none
  continue_read rounds offset n (some (b ∷ more)) =
      put_in_front (b ∷ more) (read_rounds f rounds (offset + suc (length more)) (n - length more))

  after_read :
      (rounds offset n : ℕ)
      → ((at m : ℕ) → m ≤ rounds → read_rounds f rounds at m ≡ range bytes at m)
      → n ≤ rounds
      → (answer : Option Bytes) → IsRead bytes offset (suc n) answer
      → continue_read rounds offset n answer ≡ range bytes offset (suc n)
  after_read rounds offset n rest h none r = sym (range-beyond bytes offset n r)
  after_read rounds offset n rest h (some []) r = sym (range-beyond bytes offset n r)
  after_read rounds offset n rest h (some (b ∷ more)) r =
      ap (put_in_front (b ∷ more))
        (rest (offset + suc (length more)) (n - length more) (omega arith))
      ∙ range-split bytes (b ∷ more) offset (n - length more) (omega arith) r.1
      ∙ ap (range bytes offset) (omega (arith, r.0))

  rounds_lem :
      (rounds offset n : ℕ) → n ≤ rounds → read_rounds f rounds offset n ≡ range bytes offset n
  unfolding read_rounds
  rounds_lem rounds offset zero h = sym (range-nothing bytes offset)
  rounds_lem zero offset (suc n) h = absurd (omega arith)
  rounds_lem (suc rounds) offset (suc n) h =
      after_read rounds offset n (rounds_lem rounds) (omega arith) (f.read offset (suc n))
        (faithful.1 offset (suc n) (omega arith))

pub read_exact_lem :
    (f : File) (bytes : Bytes)
    → IsFaithful f bytes
    → (offset n : ℕ) → read_exact f offset n ≡ range bytes offset n
unfolding read_exact
read_exact_lem f bytes faithful offset n = rounds_lem f bytes faithful n offset n (omega arith)

pub read_exact-inside :
    (f : File) (bytes : Bytes)
    → IsFaithful f bytes
    → (offset n : ℕ) → offset + n ≤ length bytes
    → read_exact f offset n ≡ some (slice bytes offset n)
read_exact-inside f bytes faithful offset n h =
    read_exact_lem f bytes faithful offset n ∙ range-inside bytes offset n h

take-length-take : (n : ℕ) (xs : Bytes) → take (length (take n xs)) xs ≡ take n xs
take-length-take zero xs = refl
take-length-take (suc n) [] = refl
take-length-take (suc n) (x ∷ xs) = ap (λ (t : Bytes). x ∷ t) (take-length-take n xs)

a_slice :
    (bytes : Bytes) (offset n : ℕ) (answer : Bytes)
    → offset < length bytes
    → 0 < n
    → slice bytes offset n ≡ answer
    → IsRead bytes offset n (some answer)
a_slice bytes offset n [] inside h same_ =
    absurd
      (omega (arith, ap length same_, length-take n (drop offset bytes), length-drop offset bytes))
a_slice bytes offset n (b ∷ more) inside h same_ = (
  omega (arith, ap length same_, length-take n (drop offset bytes)),
  ap (slice bytes offset) (ap length (sym same_)) ∙ take-length-take n (drop offset bytes) ∙ same_,
)

memory-IsRead :
    (bytes : Bytes) (offset n : ℕ)
    → 0 < n
    → IsRead bytes offset n
        (if leb (length bytes) offset then some [] else some (slice bytes offset n))
memory-IsRead bytes offset n h =
    let goal : Bool → Type 0 =
      λ (b : Bool). IsRead bytes offset n (if b then some [] else some (slice bytes offset n)) in
    elim (Bool-cases (leb (length bytes) offset)) [
      | inl t ↦ subst goal (sym t) (ground (arith, t))
      | inr t ↦
          subst goal (sym t)
            (a_slice bytes offset n (slice bytes offset n) (ground (arith, t)) h refl)
    ]

-- A file in memory gives its bytes.
pub memory_file-IsFaithful : (bytes : Bytes) → IsFaithful (memory_file bytes) bytes
unfolding memory_file
memory_file-IsFaithful bytes = (refl, λ offset n h. memory-IsRead bytes offset n h)
