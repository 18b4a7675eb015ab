-- ===== src/Input/Debouncer.antt =====
-- firmware/include/util/debouncer.h, class Debouncer. Levels are Booleans, times are uint32_t.
use diy_ebook.Prelude.{
  ℕ, ◌+◌, ◌-◌, ◌%◌, ◌^◌, ◌≤◌, ◌<◌, ◌≡◌, refl, ap, sym, subst, ◌∙◌, arith, Bool, true, false, not,
  List, [], ◌∷◌, ◌++◌, All, if◌then◌else◌, leb, ◌&&◌, differs,
}

-- static_cast<uint32_t>(now - since)
unfoldable pub elapsed : ℕ → ℕ → ℕ
elapsed now since = (now + 2 ^ 32 - since) % 2 ^ 32

pub record Debouncer : Type 0 where
  pub stable : Bool
  pub candidate : Bool
  pub candidate_since : ℕ
  pub debounce_ms : ℕ
  pub changed : Bool

unfoldable pub begin : Bool → ℕ → Debouncer
begin initial_level debounce_ms = record {
  stable = initial_level;
  candidate = initial_level;
  candidate_since = 0;
  debounce_ms = debounce_ms;
  changed = false;
}

-- The new state; `changed` of it is the result.
unfoldable pub update : Bool → ℕ → Debouncer → Debouncer
update raw_level now_ms d =
    if differs raw_level d.candidate
    then record d { changed = false; candidate = raw_level; candidate_since = now_ms }
    else if differs d.candidate d.stable && leb d.debounce_ms (elapsed now_ms d.candidate_since)
    then record d { changed = true; stable = d.candidate }
    else record d { changed = false }

-- A sample of a pin: its level and the time.
abbrev pub Sample : Type 0
Sample = Bool × ℕ

unfoldable pub run : List Sample → Debouncer → Debouncer
run [] d = d
run ((raw, now) ∷ rest) d = run rest (update raw now d)

-- The level is settled: no change is being timed.
abbrev pub IsSettled : Debouncer → Type 0
IsSettled d = d.candidate ≡ d.stable

-- Waiting for `level` to have held since `since`.
abbrev waiting : Debouncer → ℕ → Debouncer
waiting d since = record d { candidate = not d.stable; candidate_since = since; changed = false }

-- The other level, sampled at each of the given times.
abbrev pub flipped_at : Debouncer → List ℕ → List Sample
flipped_at d [] = []
flipped_at d (t ∷ ts) = (not d.stable, t) ∷ flipped_at d ts

early_sample :
    (d : Debouncer) (since t : ℕ)
    → elapsed t since < d.debounce_ms
    → update (not d.stable) t (waiting d since) ≡ waiting d since
unfolding update
early_sample d since t h = ground arith

late_sample :
    (d : Debouncer) (since t : ℕ)
    → d.debounce_ms ≤ elapsed t since
    → ((update (not d.stable) t (waiting d since)).stable ≡ not d.stable)
      × ((update (not d.stable) t (waiting d since)).changed ≡ true)
unfolding update
late_sample d since t h = ground arith

returned_sample :
    (d : Debouncer) (since t : ℕ)
    → ((update d.stable t (waiting d since)).stable ≡ d.stable)
      × ((update d.stable t (waiting d since)).changed ≡ false)
      × IsSettled (update d.stable t (waiting d since))
unfolding update
returned_sample d since t = ground arith

run-waiting :
    (d : Debouncer) (since : ℕ) (ts : List ℕ) (rest : List Sample)
    → All (λ t. elapsed t since < d.debounce_ms) ts
    → run (flipped_at d ts ++ rest) (waiting d since) ≡ run rest (waiting d since)
unfolding run
run-waiting d since [] rest h = refl
run-waiting d since (t ∷ ts) rest h =
    ap (λ (s : Debouncer). run (flipped_at d ts ++ rest) s) still ∙ run-waiting d since ts rest h.1
  where
    still : update (not d.stable) t (waiting d since) ≡ waiting d since
    still = early_sample d since t h.0

first_flip : (d : Debouncer) (t : ℕ) → IsSettled d → update (not d.stable) t d ≡ waiting d t
unfolding update
first_flip d t h = ground arith

-- After a flip that has not lasted `debounce_ms` the debouncer waits.
run-flipped :
    (d : Debouncer) (t0 : ℕ) (ts : List ℕ) (rest : List Sample)
    → IsSettled d
    → All (λ t. elapsed t t0 < d.debounce_ms) ts
    → run (flipped_at d (t0 ∷ ts) ++ rest) d ≡ run rest (waiting d t0)
unfolding run
run-flipped d t0 ts rest h quick =
    ap (λ (s : Debouncer). run (flipped_at d ts ++ rest) s) (first_flip d t0 h)
    ∙ run-waiting d t0 ts rest quick

run-none : (d : Debouncer) → run [] d ≡ d
unfolding run
run-none d = refl

run-one : (raw : Bool) (t : ℕ) (d : Debouncer) → run ((raw, t) ∷ []) d ≡ update raw t d
unfolding run
run-one raw t d = refl

-- From a settled state, a level that flips and returns before the debounce time has passed changes
-- neither the stable level nor the settled state, however often it is sampled.
pub glitch_ignored :
    (d : Debouncer) (t0 : ℕ) (ts : List ℕ) (back : ℕ)
    → IsSettled d
    → All (λ t. elapsed t t0 < d.debounce_ms) ts
    → ((run (flipped_at d (t0 ∷ ts) ++ ((d.stable, back) ∷ [])) d).stable ≡ d.stable)
      × ((run (flipped_at d (t0 ∷ ts) ++ ((d.stable, back) ∷ [])) d).changed ≡ false)
      × IsSettled (run (flipped_at d (t0 ∷ ts) ++ ((d.stable, back) ∷ [])) d)
glitch_ignored d t0 ts back h quick =
    let e =
      run-flipped d t0 ts ((d.stable, back) ∷ []) h quick ∙ run-one d.stable back (waiting d t0) in
    subst (λ (s : Debouncer). (s.stable ≡ d.stable) × (s.changed ≡ false) × IsSettled s) (sym e)
      (returned_sample d t0 back)

-- From a settled state, a level that holds is taken and reported at the first sample at or after
-- the debounce time, and not before.
pub held_level_taken :
    (d : Debouncer) (t0 : ℕ) (ts : List ℕ) (late : ℕ)
    → IsSettled d
    → All (λ t. elapsed t t0 < d.debounce_ms) ts
    → d.debounce_ms ≤ elapsed late t0
    → ((run (flipped_at d (t0 ∷ ts) ++ []) d).stable ≡ d.stable)
      × ((run (flipped_at d (t0 ∷ ts) ++ ((not d.stable, late) ∷ [])) d).stable ≡ not d.stable)
      × ((run (flipped_at d (t0 ∷ ts) ++ ((not d.stable, late) ∷ [])) d).changed ≡ true)
held_level_taken d t0 ts late h quick reached =
    let e =
      run-flipped d t0 ts ((not d.stable, late) ∷ []) h quick
      ∙ run-one (not d.stable) late (waiting d t0) in
    let (taken, told) = late_sample d t0 late reached in
    (
      ap (λ (s : Debouncer). s.stable) (run-flipped d t0 ts [] h quick ∙ run-none (waiting d t0)),
      ap (λ (s : Debouncer). s.stable) e ∙ taken,
      ap (λ (s : Debouncer). s.changed) e ∙ told,
    )
