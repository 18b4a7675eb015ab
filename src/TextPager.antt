-- ===== src/TextPager.antt =====
-- firmware/include/util/text_pager.h: word wrapping and pagination. The text is a list of bytes,
-- and an index past its end is never read.
pub mod Line
pub mod Lines
pub mod Pages
use diy_ebook.Prelude.{
  ℕ, zero, suc, ◌+◌, ◌-◌, ◌*◌, ◌/◌, ◌%◌, ◌^◌, Bool, true, false, Option, none, some, List, [], ◌∷◌,
  length, get_or, ltb, leb, ◌==◌, ◌&&◌, ◌||◌, if◌then◌else◌,
}

pub record LineSlice : Type 0 where
  pub offset : ℕ
  pub size : ℕ

-- The text and the line and page sizes that `reset` stores.
pub record TextPager : Type 0 where
  pub text : List ℕ
  pub chars_per_line : ℕ
  pub lines_per_page : ℕ

abbrev pub newline : ℕ
newline = 10

abbrev pub space : ℕ
space = 32

-- text_[i]
abbrev pub char_at : TextPager → ℕ → ℕ
char_at p i = get_or p.text i 0

-- `at`, `last_space` and `have_space` of nextLine.
pub record Scan : Type 0 where
  pub at : ℕ
  pub last_space : ℕ
  pub have_space : Bool

-- The state after a character that stays on the line.
abbrev pub passed_char : TextPager → Scan → Scan
passed_char p s = record {
  at = s.at + 1;
  last_space = if char_at p s.at == space then s.at else s.last_space;
  have_space = if char_at p s.at == space then true else s.have_space;
}

-- while (at < length_ && taken < chars_per_line_): `rounds` is what `taken` has left.
unfoldable pub scan : TextPager → ℕ → Scan → Scan
scan p zero s = s
scan p (suc rounds) s =
    let rest = scan p rounds (passed_char p s) in
    if ltb s.at (length p.text) then (if char_at p s.at == newline then s else rest) else s

-- Where the line ends: a natural boundary, the last space that fits, or a hard split.
unfoldable pub line_end : TextPager → ℕ → Scan → ℕ
line_end p start s =
    if leb (length p.text) s.at || char_at p s.at == newline || char_at p s.at == space
    then s.at
    else if s.have_space && ltb start s.last_space
    then s.last_space
    else s.at

-- while (trimmed > start && text_[trimmed - 1] == ' ') --trimmed;
unfoldable pub trim : TextPager → ℕ → ℕ → ℕ
trim p start zero = zero
trim p start (suc n) =
    let rest = trim p start n in if ltb start (suc n) && char_at p n == space then rest else suc n

-- while (*cursor < length_ && text_[*cursor] == ' ') ++(*cursor);  `fuel` bounds the rounds
unfoldable pub skip_spaces : TextPager → ℕ → ℕ → ℕ
skip_spaces p zero cursor = cursor
skip_spaces p (suc fuel) cursor =
    let rest = skip_spaces p fuel (cursor + 1) in
    if ltb cursor (length p.text) && char_at p cursor == space then rest else cursor

-- if (*cursor < length_ && text_[*cursor] == '\n') ++(*cursor);
unfoldable pub skip_newline : TextPager → ℕ → ℕ
skip_newline p cursor =
    if ltb cursor (length p.text) && char_at p cursor == newline then cursor + 1 else cursor

-- The part of nextLine after the test for an empty line.
unfoldable pub wrap_line : TextPager → ℕ → LineSlice × ℕ
unfolding scan line_end trim skip_spaces skip_newline
wrap_line p start =
    let s = scan p p.chars_per_line (record { at = start; last_space = 0; have_space = false }) in
    let stop = line_end p start s in
    let trimmed = trim p start stop in
    (
      record { offset = start; size = (trimmed - start) % 2 ^ 16 },
      skip_newline p (skip_spaces p (length p.text - stop) stop),
    )

-- nextLine: the slice and the cursor after it, or `none` at the end of the text.
unfoldable pub next_line : TextPager → ℕ → Option (LineSlice × ℕ)
unfolding wrap_line
next_line p cursor =
    if leb (length p.text) cursor
    then none
    else if char_at p cursor == newline
    then some (record { offset = cursor; size = 0 }, cursor + 1)
    else some (wrap_line p cursor)

-- The slices that the loops of `reset` and `linesForPage` come past, from a cursor on.
unfoldable pub lines_from : TextPager → ℕ → ℕ → List LineSlice
lines_from p zero cursor = []
lines_from p (suc fuel) cursor = elim (next_line p cursor) [
  | none ↦ []
  | some (slice, after) ↦ slice ∷ lines_from p fuel after
]

-- while (nextLine(&cursor, &slice)) ++lines;
unfoldable pub count_lines : TextPager → ℕ → ℕ → ℕ → ℕ
count_lines p zero cursor lines = lines
count_lines p (suc fuel) cursor lines = elim (next_line p cursor) [
  | none ↦ lines
  | some (slice, after) ↦ count_lines p fuel after (lines + 1)
]

-- What `reset` stores.
pub record Paged : Type 0 where
  pub pager : TextPager
  pub line_count : ℕ
  pub page_count : ℕ

-- The loop ends within as many rounds as the text has characters.
unfoldable pub reset : List ℕ → ℕ → ℕ → Paged
unfolding count_lines
reset text chars_per_line lines_per_page =
    let p : TextPager = record {
      text = text;
      chars_per_line = if chars_per_line == 0 then 1 else chars_per_line;
      lines_per_page = if lines_per_page == 0 then 1 else lines_per_page;
    } in
    let lines = count_lines p (length text) 0 0 in
    let pages = (lines + p.lines_per_page - 1) / p.lines_per_page % 2 ^ 16 in
    record { pager = p; line_count = lines; page_count = if pages == 0 then 1 else pages }

-- for (i = 0; i < skip; ++i) if (!nextLine(&cursor, &slice)) return 0;
unfoldable pub skip_lines : TextPager → ℕ → ℕ → Option ℕ
skip_lines p zero cursor = some cursor
skip_lines p (suc n) cursor = elim (next_line p cursor) [
  | none ↦ none
  | some (slice, after) ↦ skip_lines p n after
]

-- while (filled < lines_per_page_ && filled < capacity): `rounds` is what is left of the smaller.
unfoldable pub fill_page : TextPager → ℕ → ℕ → List LineSlice
fill_page p zero cursor = []
fill_page p (suc rounds) cursor = elim (next_line p cursor) [
  | none ↦ []
  | some (slice, after) ↦ slice ∷ fill_page p rounds after
]

unfoldable pub fill_from : TextPager → ℕ → Option ℕ → List LineSlice
fill_from p rounds none = []
fill_from p rounds (some cursor) = fill_page p rounds cursor

-- linesForPage: the slices that are written to `out`.
unfoldable pub lines_for_page : TextPager → ℕ → ℕ → List LineSlice
unfolding fill_from skip_lines fill_page
lines_for_page p page capacity =
    if capacity == 0 || page == 0
    then []
    else fill_from p (if ltb p.lines_per_page capacity then p.lines_per_page else capacity)
        (skip_lines p ((page - 1) * p.lines_per_page) 0)
