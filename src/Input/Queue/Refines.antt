-- ===== src/Input/Queue/Refines.antt =====
-- The queue of firmware/drivers/input/input_manager.cpp is a list of at most 16 events that forgets
-- the oldest.
use native.Mathlib.Numerals.{add-one}
use diy_ebook.Prelude.{
  ℕ, zero, suc, ◌+◌, ◌-◌, ◌%◌, ◌≤◌, ◌<◌, ◌≡◌, ◌≢◌, refl, ap, ap₂, sym, ◌∙◌, inl, inr, true, false,
  Option, none, some, List, [], ◌∷◌, ◌++◌, length, length-append, get_or, set, leb, ◌==◌, arith,
  Bool-cases, ==_iff,
}
use diy_ebook.Input.Queue.{
  queue_size, Queue, next_slot, drop_oldest, store, push, next_event, window, contents, IsValid,
  Request, serve, newest, serve_list,
}

module _ {ℓ} {E : Type ℓ} (blank : E) where
  length-set : (xs : List E) (i : ℕ) (e : E) → length (set xs i e) ≡ length xs
  length-set [] i e = refl
  length-set (x ∷ xs) zero e = refl
  length-set (x ∷ xs) (suc i) e = ap suc (length-set xs i e)

  get_or-set_self : (xs : List E) (i : ℕ) (e : E) → i < length xs → get_or (set xs i e) i blank ≡ e
  get_or-set_self [] i e h = absurd (omega arith)
  get_or-set_self (x ∷ xs) zero e h = refl
  get_or-set_self (x ∷ xs) (suc i) e h = get_or-set_self xs i e (omega arith)

  get_or-set_other :
      (xs : List E) (i j : ℕ) (e : E) → j ≢ i → get_or (set xs i e) j blank ≡ get_or xs j blank
  get_or-set_other [] i j e h = refl
  get_or-set_other (x ∷ xs) zero zero e h = absurd (h refl)
  get_or-set_other (x ∷ xs) zero (suc j) e h = refl
  get_or-set_other (x ∷ xs) (suc i) zero e h = refl
  get_or-set_other (x ∷ xs) (suc i) (suc j) e h = get_or-set_other xs i j e (λ k. h (ap suc k))

  -- A store behind the last event adds it to the window.
  window-store :
      (slots : List E) (head n : ℕ) (e : E)
      → length slots ≡ queue_size
      → head < queue_size
      → n < queue_size
      → window blank (set slots ((head + n) % queue_size) e) head (suc n)
        ≡ window blank slots head n ++ e ∷ []
  window-store slots head zero e long inside room =
      let here : (head + 0) % queue_size ≡ head = omega arith in
      rw here (ap (λ (x : E). x ∷ []) (get_or-set_self slots head e (omega (arith, long))))
  window-store slots head (suc n) e long inside room =
      let at = (next_slot head + n) % queue_size in
      let tail : (head + suc n) % queue_size ≡ at = omega arith in
      let apart : head ≢ at = λ (k : head ≡ at). absurd (omega arith) in
      ap (λ (t : ℕ). window blank (set slots t e) head (suc (suc n))) tail
      ∙ ap₂ ◌∷◌ (get_or-set_other slots at head e apart)
          (window-store slots (next_slot head) n e long (omega arith) (omega arith))

  length-window : (slots : List E) (head n : ℕ) → length (window blank slots head n) ≡ n
  length-window slots head zero = refl
  length-window slots head (suc n) = ap suc (length-window slots (next_slot head) n)

  store-contents :
      (e : E) (q : Queue E)
      → IsValid q
      → q.count < queue_size
      → contents blank (store e q) ≡ contents blank q ++ e ∷ []
  unfolding store
  store-contents e q valid room =
      rw add-one (window-store q.slots q.head q.count e valid.full_slots valid.head_inside room)

  store-IsValid : (e : E) (q : Queue E) → IsValid q → q.count < queue_size → IsValid (store e q)
  unfolding store
  store-IsValid e q valid room = record {
    full_slots = length-set q.slots ((q.head + q.count) % queue_size) e ∙ valid.full_slots;
    head_inside = valid.head_inside;
    count_fits = omega arith;
  }

  newest_short : (es : List E) → length es ≤ queue_size → newest es ≡ es
  newest_short es h = let none_left : length es - queue_size ≡ 0 = omega arith in rw none_left refl

  newest_full : (e : E) (es : List E) → length es ≡ queue_size → newest (e ∷ es) ≡ es
  newest_full e es h =
      let one_left : suc (length es) - queue_size ≡ 1 = omega (arith, h) in rw one_left refl

  -- The oldest event and the others.
  taken : Queue E → Queue E
  taken q = record q { head = next_slot q.head; count = q.count - 1 }

  contents-taken :
      (q : Queue E)
      → 0 < q.count
      → contents blank q ≡ get_or q.slots q.head blank ∷ contents blank (taken q)
  unfolding taken
  contents-taken q h =
      let some_left : q.count ≡ suc (q.count - 1) = omega arith in
      ap (window blank q.slots q.head) some_left

  taken-IsValid : (q : Queue E) → IsValid q → IsValid (taken q)
  unfolding taken
  taken-IsValid q valid = record {
    full_slots = valid.full_slots;
    head_inside = omega arith;
    count_fits = omega (arith, valid.count_fits);
  }

  -- What push drops is the oldest event.
  Pushed : E → Queue E → Queue E → Type ℓ
  Pushed e q r = IsValid r × (contents blank r ≡ newest (contents blank q ++ e ∷ []))

  push_lem : (e : E) (q : Queue E) → IsValid q → Pushed e q (push e q)
  unfolding push drop_oldest Pushed taken
  push_lem e q valid = elim (Bool-cases (leb queue_size q.count)) [
    | inl full ↦
        let all : q.count ≡ queue_size = ground arith in
        let room : (taken q).count < queue_size = omega (arith, all) in
        let kept = contents blank (taken q) in
        let sixteen : length (kept ++ e ∷ []) ≡ queue_size = omega (
          arith,
          all,
          length-append {ℓ} kept (e ∷ []),
          length-window q.slots (next_slot q.head) (q.count - 1),
        ) in
        let oldest = get_or q.slots q.head blank in
        rw full (
          store-IsValid e (taken q) (taken-IsValid q valid) room,
          store-contents e (taken q) (taken-IsValid q valid) room
              ∙ sym (newest_full oldest (kept ++ e ∷ []) sixteen)
              ∙ ap (λ (es : List E). newest (es ++ e ∷ []))
                  (sym (contents-taken q (omega (arith, all)))),
        )
    | inr free ↦
        let room : q.count < queue_size = ground arith in
        let short : length (contents blank q ++ e ∷ []) ≤ queue_size = omega (
          arith,
          length-append {ℓ} (contents blank q) (e ∷ []),
          length-window q.slots q.head q.count,
        ) in
        rw free (
          store-IsValid e q valid room,
          store-contents e q valid room ∙ sym (newest_short (contents blank q ++ e ∷ []) short),
        )
  ]

  next_event-empty : (q : Queue E) → (q.count == 0) ≡ true → next_event blank q ≡ (none, q)
  unfolding next_event
  next_event-empty q h = rw h refl

  next_event-taken :
      (q : Queue E)
      → (q.count == 0) ≡ false
      → next_event blank q ≡ (some (get_or q.slots q.head blank), taken q)
  unfolding next_event taken
  next_event-taken q h = rw h refl

  serve-eq_valid :
      (requests : List (Request E)) (q : Queue E)
      → IsValid q
      → serve blank requests q ≡ serve_list requests (contents blank q)
  unfolding serve serve_list
  serve-eq_valid [] q valid = refl
  serve-eq_valid (Request.pushing e ∷ rs) q valid =
      let after = push_lem e q valid in
      serve-eq_valid rs (push e q) (unfold Pushed in after.0)
      ∙ ap (serve_list rs) (unfold Pushed in after.1)
  serve-eq_valid (Request.popping ∷ rs) q valid = elim (Bool-cases (q.count == 0)) [
    | inl none_left ↦
        let empty : contents blank q ≡ [] =
          ap (window blank q.slots q.head) ((==_iff q.count 0).0 none_left) in
        let rest = serve-eq_valid rs q valid in
        ap (λ (r : Option E × Queue E). r.0 ∷ serve blank rs r.1) (next_event-empty q none_left)
        ∙ ap (λ (os : List (Option E)). none ∷ os) (rest ∙ ap (serve_list rs) empty)
        ∙ ap (serve_list (Request.popping ∷ rs)) (sym empty)
    | inr some_left ↦
        let split = contents-taken q (ground arith) in
        let rest = serve-eq_valid rs (taken q) (taken-IsValid q valid) in
        ap (λ (r : Option E × Queue E). r.0 ∷ serve blank rs r.1) (next_event-taken q some_left)
        ∙ ap (λ (os : List (Option E)). some (get_or q.slots q.head blank) ∷ os) rest
        ∙ ap (serve_list (Request.popping ∷ rs)) (sym split)
  ]

-- For every sequence of pushes and pops from a valid queue, the events that come out are those of a
-- list of at most 16 events that forgets its oldest event when it is full.
pub serve-eq-serve_list {ℓ} :
    {E : Type ℓ} (blank : E) (requests : List (Request E)) (q : Queue E)
    → IsValid q
    → serve blank requests q ≡ serve_list requests (contents blank q)
serve-eq-serve_list blank requests q valid = serve-eq_valid blank requests q valid
