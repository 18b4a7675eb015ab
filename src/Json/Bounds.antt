-- ===== src/Json/Bounds.antt =====
-- firmware/wifi/json.cpp: getString never writes behind the end of the caller's buffer, whatever
-- the text is.
use diy_ebook.Prelude.{
  ℕ, zero, suc, ◌+◌, ◌<◌, ◌≡◌, inl, inr, Option, none, some, List, [], ◌∷◌, length, length-append,
  ltb, leb, ◌==◌, arith, Bool-cases, Option-cases, subst, ◌&&◌, ◌||◌, not, get_or, either,
}
use diy_ebook.Json.Reader.{
  inside_quotes, append_bytes, append_utf8, utf8_bytes, hex_code, simple_escape, find_value,
}
use diy_ebook.Json.Values.{
  put, after_code, simple_char, after_backslash, next_char, unescape, read_string, get_string,
}

-- A buffer that was filled keeps room for the NUL.
abbrev KeepsRoom : ℕ → Option (List ℕ) → Type 0
KeepsRoom capacity none = Unit {0}
KeepsRoom capacity (some out) = length out < capacity

abbrev KeepsRoomIn : ℕ → Option (List ℕ × List ℕ) → Type 0
KeepsRoomIn capacity none = Unit {0}
KeepsRoomIn capacity (some (out, rest)) = length out < capacity

module _ (capacity : ℕ) (out : List ℕ) where
  append_bytes-room : (bytes : List ℕ) → KeepsRoom capacity (append_bytes capacity out bytes)
  unfolding append_bytes
  append_bytes-room bytes = elim (Bool-cases (leb capacity (length out + length bytes))) [
    | inl full ↦ rw (full, append_bytes) tt
    | inr room ↦ rw (room, append_bytes) (ground (arith, length-append {0} out bytes))
  ]

  append_utf8-room : (code : ℕ) → KeepsRoom capacity (append_utf8 capacity out code)
  unfolding append_utf8
  append_utf8-room code = append_bytes-room (utf8_bytes code)

  put-room :
      (o : Option (List ℕ)) (rest : List ℕ)
      → KeepsRoom capacity o
      → KeepsRoomIn capacity (put o rest)
  put-room none rest h = tt
  put-room (some t) rest h = h

  after_code-room : (o : Option (ℕ × List ℕ)) → KeepsRoomIn capacity (after_code capacity out o)
  unfolding after_code
  after_code-room none = tt
  after_code-room (some (code, rest)) =
      either (KeepsRoomIn capacity) (leb 0xD800 code && leb code 0xDFFF) none _ tt
        (put-room (append_utf8 capacity out code) rest (append_utf8-room code))

  simple_char-room :
      (o : Option ℕ) (rest : List ℕ) → KeepsRoomIn capacity (simple_char capacity out o rest)
  unfolding simple_char
  simple_char-room none rest = tt
  simple_char-room (some c) rest =
      put-room (append_bytes capacity out (c ∷ [])) rest (append_bytes-room (c ∷ []))

  after_backslash-room : (text : List ℕ) → KeepsRoomIn capacity (after_backslash capacity out text)
  unfolding after_backslash
  after_backslash-room [] = tt
  after_backslash-room (c ∷ rest) =
      either (KeepsRoomIn capacity) (c == b'u') _ _ (after_code-room (hex_code 4 0 rest))
        (simple_char-room (simple_escape c) rest)

  next_char-room : (c : ℕ) (rest : List ℕ) → KeepsRoomIn capacity (next_char capacity out c rest)
  unfolding next_char
  next_char-room c rest =
      either (KeepsRoomIn capacity) (not (c == b'\\')) _ _
        (put-room (append_bytes capacity out (c ∷ [])) rest (append_bytes-room (c ∷ [])))
        (after_backslash-room rest)

unescape-room :
    (fuel capacity : ℕ) (out text : List ℕ)
    → length out < capacity
    → KeepsRoom capacity (unescape fuel capacity out text)
unfolding unescape
unescape-room zero capacity out text h = tt
unescape-room (suc fuel) capacity out [] h = h
unescape-room (suc fuel) capacity out (c ∷ cs) h =
    elim (Option-cases (next_char capacity out c cs)) [
      | inl refused ↦ rw (refused, unescape) tt
      | inr (step, e) ↦
          let room : length step.0 < capacity =
            subst (KeepsRoomIn capacity) e (next_char-room capacity out c cs) in
          rw (e, unescape) (unescape-room fuel capacity step.0 step.1 room)
    ]

read_string-room :
    (capacity : ℕ) (span : Option (List ℕ))
    → 0 < capacity
    → KeepsRoom capacity (read_string capacity span)
unfolding read_string
read_string-room capacity none h = tt
read_string-room capacity (some span) h =
    either (KeepsRoom capacity) (not (get_or span 0 0 == b'"') || ltb (length span) 2) none _ tt
      (unescape-room (length span) capacity [] (inside_quotes span) h)

-- Whatever the text, what getString gives is shorter than the buffer's capacity, so that its NUL
-- fits.
pub get_string-length :
    (key : List ℕ) (capacity : ℕ) (text : List ℕ) {out : List ℕ}
    → get_string key capacity text ≡ some out
    → length out < capacity
unfolding get_string
get_string-length key capacity text h = elim (Bool-cases (capacity == 0)) [
  | inl empty ↦ ground arith
  | inr room ↦
      let read : read_string capacity (find_value key text) ≡ some _ = ground arith in
      subst (KeepsRoom capacity) read
        (read_string-room capacity (find_value key text) (ground arith))
]
