-- ===== src/Slots.antt =====
-- The fixed-size arrays with a count that the firmware keeps its short lists in, and the loops
-- over them that net/bookmarks, net/verified_packages and net/library_index share.
pub mod Shift
pub mod Front
pub mod Keep
use diy_ebook.Prelude.{
  ℕ, zero, suc, ◌+◌, ◌-◌, Bool, true, false, List, [], ◌∷◌, if◌then◌else◌, set, get_or, ltb, ◌==◌,
  ◌&&◌, take, leb, ◌≤◌, ◌≡◌, length,
}

-- `T items_[capacity]; uint16_t count_;`
pub record Slots {ℓ} (A : Type ℓ) : Type ℓ where
  pub items : List A
  pub count : ℕ

-- The array has its full size and the count is within it.
pub record IsValid {ℓ} {A : Type ℓ} (capacity : ℕ) (s : Slots A) : Type ℓ where
  pub size : length s.items ≡ capacity
  pub within : s.count ≤ capacity

-- The entries in use, in order.
abbrev pub listed {ℓ} : {A : Type ℓ} → Slots A → List A
listed s = take s.count s.items

-- The slot that `add` frees: the one found, the next free one, or the last when full.
abbrev pub last_slot : ℕ → ℕ → ℕ → ℕ
last_slot existing count capacity =
    if ltb existing count then existing else if ltb count capacity then count else count - 1

module _ {ℓ} {A : Type ℓ} where
  -- for (i = 0; i < count; ++i) if (p(items[i])) break;  the index where it stops
  unfoldable pub find_slot : (A → Bool) → ℕ → List A → ℕ
  find_slot p zero items = 0
  find_slot p (suc n) [] = suc n
  find_slot p (suc n) (x ∷ items) = if p x then 0 else suc (find_slot p n items)

  -- for (i = last; i > 0; --i) items[i] = items[i - 1];
  unfoldable pub shift_right : A → ℕ → List A → List A
  shift_right d zero items = items
  shift_right d (suc i) items = shift_right d i (set items (suc i) (get_or items i d))

  -- for (i = index; i + 1 < count; ++i) items[i] = items[i + 1];  with `n` rounds
  unfoldable pub shift_left : A → ℕ → ℕ → List A → List A
  shift_left d zero i items = items
  shift_left d (suc n) i items = shift_left d n (suc i) (set items i (get_or items (suc i) d))

  -- The first element that passes is taken out.
  unfoldable pub erase_first : (A → Bool) → List A → List A
  erase_first p [] = []
  erase_first p (x ∷ xs) = if p x then xs else x ∷ erase_first p xs

  -- Moves an equal entry, or puts a new one, to the front; drops the oldest when full.
  unfoldable pub add_front : ℕ → A → (A → Bool) → A → Slots A → Slots A
  add_front capacity d p b s =
      let existing = find_slot p s.count s.items in
      record {
        items = set (shift_right d (last_slot existing s.count capacity) s.items) 0 b;
        count = if existing == s.count && ltb s.count capacity then s.count + 1 else s.count;
      }

  unfoldable pub remove_at : A → ℕ → Slots A → Slots A × Bool
  remove_at d index s = if leb s.count index then (s, false) else (
    record { items = shift_left d (s.count - 1 - index) index s.items; count = s.count - 1 },
    true,
  )

  -- for (i = 0; i < count; ++i) if (p(items[i])) return true;  return false;
  unfoldable pub any_slot : (A → Bool) → ℕ → List A → Bool
  any_slot p zero items = false
  any_slot p (suc n) [] = false
  any_slot p (suc n) (x ∷ items) = if p x then true else any_slot p n items
