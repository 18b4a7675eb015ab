-- ===== src/Input/Button.antt =====
-- firmware/include/util/debouncer.h, class Button: press, click and long press.
use diy_ebook.Prelude.{
  ℕ, ◌≡◌, refl, arith, Bool, true, false, not, List, [], ◌∷◌, Option, none, some, if◌then◌else◌,
  leb, ◌==◌, ◌&&◌,
}
use diy_ebook.Input.Debouncer
use diy_ebook.Input.Debouncer.{Debouncer, Sample, elapsed}

pub data ButtonEvent : Type 0 where
  nothing down up click long_press : ButtonEvent

pub record Button : Type 0 where
  pub debouncer : Debouncer
  pub active_low : Bool
  pub pressed : Bool
  pub long_reported : Bool
  pub pressed_since : ℕ
  pub long_press_ms : ℕ

-- isActive
unfoldable pub is_active : Bool → Bool → Bool
is_active active_low raw_level = if active_low then not raw_level else raw_level

unfoldable pub begin : Bool → Bool → ℕ → ℕ → Button
unfolding is_active
begin active_low initial_raw_level debounce_ms long_press_ms =
    let pressed = is_active active_low initial_raw_level in
    record {
      debouncer = Debouncer.begin initial_raw_level debounce_ms;
      active_low = active_low;
      pressed = pressed;
      long_reported = pressed;
      pressed_since = 0;
      long_press_ms = long_press_ms;
    }

-- The test for a long press, which follows when no press or release was reported.
unfoldable pub check_long : ℕ → Button → Button × ButtonEvent
check_long now_ms b =
    if b.pressed
      && not b.long_reported
      && not (b.long_press_ms == 0)
      && leb b.long_press_ms (elapsed now_ms b.pressed_since)
    then (record b { long_reported = true }, long_press)
    else (b, nothing)

unfoldable pub update : Bool → ℕ → Button → Button × ButtonEvent
unfolding is_active check_long
update raw_level now_ms b =
    let d = Debouncer.update raw_level now_ms b.debouncer in
    let b1 = record b { debouncer = d } in
    let now_pressed = is_active b.active_low d.stable in
    if d.changed && now_pressed && not b.pressed
    then (record b1 { pressed = true; pressed_since = now_ms; long_reported = false }, down)
    else if d.changed && not now_pressed && b.pressed
    then (record b1 { pressed = false }, if b.long_reported then up else click)
    else check_long now_ms b1

-- The events of a sequence of samples, with the last state.
unfoldable pub events : List Sample → Button → List ButtonEvent
unfolding update
events [] b = []
events ((raw, now) ∷ rest) b = let (b1, e) = update raw now b in e ∷ events rest b1

-- What the user may be doing, as far as the events told.
pub data Phase : Type 0 where
  released held held_long : Phase

abbrev pub phase : Button → Phase
phase b = if b.pressed then (if b.long_reported then held_long else held) else released

-- The events that may come next: a press is a `down`, then a `click`, or a `long_press` and an `up`.
abbrev pub next : Phase → ButtonEvent → Option Phase
next p nothing = some p
next released down = some held
next held click = some released
next held long_press = some held_long
next held_long up = some released
next _ _ = none

abbrev pub accepts : Phase → List ButtonEvent → Bool
accepts p [] = true
accepts p (e ∷ es) = elim (next p e) [ none ↦ false | some q ↦ accepts q es ]

update-next :
    (raw : Bool) (now : ℕ) (b : Button)
    → next (phase b) (update raw now b).1 ≡ some (phase (update raw now b).0)
unfolding update
update-next raw now b = ground arith

-- For every sequence of samples from every state, the events follow the protocol of presses: down,
-- then click, or long press and up.
pub events_protocol :
    (samples : List Sample) (b : Button) → accepts (phase b) (events samples b) ≡ true
unfolding events
events_protocol [] b = refl
events_protocol ((raw, now) ∷ rest) b =
    rw (accepts, update-next raw now b) (events_protocol rest (update raw now b).0)
