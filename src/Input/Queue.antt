-- ===== src/Input/Queue.antt =====
-- The queue of events of firmware/drivers/input/input_manager.cpp (push and nextEvent): a ring that
-- drops its oldest event when it is full. The event is any type with a blank value.
pub mod Refines
use native.Mathlib.Numerals.{add-one}
use diy_ebook.Prelude.{
  ℕ, zero, suc, ◌+◌, ◌-◌, ◌%◌, ◌≤◌, ◌<◌, ◌≡◌, Option, none, some, List, [], ◌∷◌, ◌++◌, length,
  get_or, set, drop, leb, ◌==◌, if◌then◌else◌,
}

-- kQueueSize
abbrev pub queue_size : ℕ
queue_size = 16

pub record Queue {ℓ} (E : Type ℓ) : Type ℓ where
  pub slots : List E
  pub head : ℕ
  pub count : ℕ

abbrev pub next_slot : ℕ → ℕ
next_slot i = (i + 1) % queue_size

module _ {ℓ} {E : Type ℓ} where
  -- The place that push makes where the queue is full.
  unfoldable pub drop_oldest : Queue E → Queue E
  drop_oldest q =
      if leb queue_size q.count
      then record q { head = next_slot q.head; count = q.count - 1 }
      else q

  unfoldable pub store : E → Queue E → Queue E
  store e q = record q {
    slots = set q.slots ((q.head + q.count) % queue_size) e;
    count = q.count + 1;
  }

  unfoldable pub push : E → Queue E → Queue E
  push e q = store e (drop_oldest q)

  unfoldable pub next_event : E → Queue E → Option E × Queue E
  next_event blank q = if q.count == 0 then (none, q) else (
    some (get_or q.slots q.head blank),
    record q { head = next_slot q.head; count = q.count - 1 },
  )

  -- The events in the queue, from the oldest on.
  abbrev pub window : E → List E → ℕ → ℕ → List E
  window blank slots head zero = []
  window blank slots head (suc n) = get_or slots head blank ∷ window blank slots (next_slot head) n

  abbrev pub contents : E → Queue E → List E
  contents blank q = window blank q.slots q.head q.count

  pub record IsValid (q : Queue E) : Type 0 where
    pub full_slots : length q.slots ≡ queue_size
    pub head_inside : q.head < queue_size
    pub count_fits : q.count ≤ queue_size

-- What is asked of the queue.
pub data Request {ℓ} (E : Type ℓ) : Type ℓ where
  pushing : E → Request E
  popping : Request E

module _ {ℓ} {E : Type ℓ} (blank : E) where
  -- The events that come out.
  unfoldable pub serve : List (Request E) → Queue E → List (Option E)
  unfolding push next_event
  serve [] q = []
  serve (Request.pushing e ∷ rs) q = serve rs (push e q)
  serve (Request.popping ∷ rs) q = let (out, q1) = next_event blank q in out ∷ serve rs q1

-- A list of at most 16 events that forgets the oldest.
module _ {ℓ} {E : Type ℓ} where
  abbrev pub newest : List E → List E
  newest es = drop (length es - queue_size) es

  unfoldable pub serve_list : List (Request E) → List E → List (Option E)
  serve_list [] es = []
  serve_list (Request.pushing e ∷ rs) es = serve_list rs (newest (es ++ e ∷ []))
  serve_list (Request.popping ∷ rs) [] = none ∷ serve_list rs []
  serve_list (Request.popping ∷ rs) (e ∷ es) = some e ∷ serve_list rs es
