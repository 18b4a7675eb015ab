-- ===== src/Witnesses/Texts.antt =====
-- Checksums, names, pages and the buttons at concrete inputs.
use diy_ebook.Prelude.{
  ℕ, ◌≤◌, ◌<◌, ◌≡◌, ◌⊎◌, refl, arith, true, false, List, [], ◌∷◌, ◌++◌, All, length, take, drop,
  codes,
}
use diy_ebook.Qpk.Crc.{crc32}
use diy_ebook.Qpk.Crc.Reference.{reference_crc32, crc32-reference}
use diy_ebook.TextPager.{TextPager, reset, lines_for_page, next_line, count_lines}
use diy_ebook.TextPager.Line.{IsBlank}
use diy_ebook.TextPager.Lines.{Shown, InOrder}
use diy_ebook.TextPager.Pages.{all_lines, shown_lines, lines_for_page_lem, reset_shows_all}
use diy_ebook.Input.Debouncer.{Debouncer, elapsed, run, flipped_at, held_level_taken}
use diy_ebook.Input.Button.{Button, events, accepts, phase, events_protocol}
use diy_ebook.Input.Button

crc32-reference_example : crc32 (codes "QPK1") ≡ reference_crc32 (codes "QPK1")
crc32-reference_example = crc32-reference (codes "QPK1")

abbrev verse : List ℕ
verse = codes "read in the\nname of thy lord"

abbrev pager : TextPager
pager = record { text = verse; chars_per_line = 8; lines_per_page = 2 }

lines_for_page_example : lines_for_page pager 2 12 ≡ take 2 (drop 2 (all_lines pager))
lines_for_page_example =
    lines_for_page_lem pager (omega arith) (omega arith) 2 12 (omega arith) (omega arith)
      (omega arith)

verse_lines : (reset verse 8 2).line_count ≡ 4
unfolding reset count_lines next_line
verse_lines = refl

reset_shows_all_example :
    (length (shown_lines verse 8 2) ≡ (reset verse 8 2).line_count)
    × InOrder (reset verse 8 2).pager 0 (shown_lines verse 8 2)
    × (Shown 9 (shown_lines verse 8 2) ⊎ IsBlank (reset verse 8 2).pager 9)
reset_shows_all_example =
    reset_shows_all verse 8 2 9 (omega arith) (rw verse_lines (omega arith)) (omega arith)

abbrev pin : Debouncer
pin = record {
  stable = true;
  candidate = true;
  candidate_since = 0;
  debounce_ms = 30;
  changed = false;
}

quick_flips : All (λ t. elapsed t 100 < 30) (105 ∷ 120 ∷ [])
unfolding elapsed
quick_flips = omega arith

late_enough : 30 ≤ elapsed 131 100
unfolding elapsed
late_enough = omega arith

held_level_taken_example :
    ((run (flipped_at pin (100 ∷ 105 ∷ 120 ∷ []) ++ []) pin).stable ≡ true)
    × ((run (flipped_at pin (100 ∷ 105 ∷ 120 ∷ []) ++ ((false, 131) ∷ [])) pin).stable ≡ false)
    × ((run (flipped_at pin (100 ∷ 105 ∷ 120 ∷ []) ++ ((false, 131) ∷ [])) pin).changed ≡ true)
held_level_taken_example =
    held_level_taken pin 100 (105 ∷ 120 ∷ []) 131 refl quick_flips late_enough

abbrev button : Button
button = Button.begin true true 30 1000

events_protocol_example :
    accepts
      (phase button)
      (events ((false, 10) ∷ (false, 50) ∷ (true, 90) ∷ (true, 130) ∷ []) button)
    ≡ true
events_protocol_example =
    events_protocol ((false, 10) ∷ (false, 50) ∷ (true, 90) ∷ (true, 130) ∷ []) button
