-- ===== src/Input/IdlePolicy.antt =====
-- firmware/include/util/idle_policy.h: when the device may go back to sleep. Times are uint32_t.
use diy_ebook.Prelude.{ℕ, ◌-◌, ◌≡◌, arith, Bool, true, false, if◌then◌else◌, leb, ◌||◌, ◌↔◌}
use diy_ebook.Input.Debouncer.{elapsed}

pub record IdlePolicy : Type 0 where
  pub idle_timeout_ms : ℕ
  pub last_activity_ms : ℕ
  pub busy : Bool

unfoldable pub begin : ℕ → ℕ → IdlePolicy
begin idle_timeout_ms now_ms = record {
  idle_timeout_ms = idle_timeout_ms;
  last_activity_ms = now_ms;
  busy = false;
}

unfoldable pub note_activity : ℕ → IdlePolicy → IdlePolicy
note_activity now_ms p = record p { last_activity_ms = now_ms }

unfoldable pub set_busy : Bool → IdlePolicy → IdlePolicy
set_busy busy p = record p { busy = busy }

unfoldable pub idle_ms : ℕ → IdlePolicy → ℕ
unfolding elapsed
idle_ms now_ms p = elapsed now_ms p.last_activity_ms

unfoldable pub remaining_ms : ℕ → IdlePolicy → ℕ
unfolding idle_ms
remaining_ms now_ms p =
    let idle = idle_ms now_ms p in
    if leb p.idle_timeout_ms idle then 0 else p.idle_timeout_ms - idle

unfoldable pub should_sleep : ℕ → Bool → IdlePolicy → Bool
unfolding idle_ms
should_sleep now_ms input_held p =
    if p.busy || input_held then false else leb p.idle_timeout_ms (idle_ms now_ms p)

-- The device sleeps if and only if nothing is in flight, no input is held and no time remains.
pub should_sleep_lem :
    (now_ms : ℕ) (input_held : Bool) (p : IdlePolicy)
    → (should_sleep now_ms input_held p ≡ true)
      ↔ ((p.busy ≡ false) × (input_held ≡ false) × (remaining_ms now_ms p ≡ 0))
unfolding should_sleep remaining_ms
should_sleep_lem now_ms input_held p = ground arith
