-- ===== src/Json/Refines.antt =====
-- JsonWriter of firmware/wifi/json.cpp against the text that its calls stand for.
use diy_ebook.Prelude.{
  take_long, ℕ, zero, suc, ◌-◌, ◌≤◌, ◌≡◌, refl, ap, ◌∙◌, inl, inr, Bool, true, false, List, [], ◌∷◌,
  ◌++◌, length, length-append, take, ltb, arith, Bool-cases,
}
use mathlib.Core.List.{append_assoc, append-nil}
use diy_ebook.Json.Writer.{
  JsonWriter, new_writer, raw_char, raw, escape_char, escape_all, escaped, comma, separator,
  key_colon,
}
use diy_ebook.Json.Written.{
  escape, escapes, quoted, comma_text, key_text, Call, run, run_all, call_text, comma_after,
  text_of, comma_at_end, holding,
}

take-append_short : (n : ℕ) (xs ys : List ℕ) → n ≤ length xs → take n (xs ++ ys) ≡ take n xs
take-append_short zero xs ys h = refl
take-append_short (suc n) [] ys h = absurd (omega arith)
take-append_short (suc n) (x ∷ xs) ys h =
    ap (λ (t : List ℕ). x ∷ t) (take-append_short n xs ys (omega arith))

pub new_writer-holding : (capacity : ℕ) → new_writer true capacity ≡ holding capacity [] false
unfolding new_writer holding
new_writer-holding zero = refl
new_writer-holding (suc n) = ground (arith, take_long {A = ℕ} n [])

raw_char-holding :
    (c capacity : ℕ) (text : List ℕ) (due : Bool)
    → raw_char c (holding capacity text due) ≡ holding capacity (text ++ c ∷ []) due
unfolding raw_char holding
raw_char-holding c capacity text due = elim (Bool-cases (ltb (length text) capacity)) [
  | inl fits ↦ ground (
    arith,
    take_long (capacity - 1) text,
    take_long (capacity - 1) (text ++ c ∷ []),
    take-append_short (capacity - 1) text (c ∷ []),
    length-append {0} text (c ∷ []),
  )
  | inr full ↦
      ground
        (arith, take-append_short (capacity - 1) text (c ∷ []), length-append {0} text (c ∷ []))
]

raw-holding :
    (cs : List ℕ) (capacity : ℕ) (text : List ℕ) (due : Bool)
    → raw cs (holding capacity text due) ≡ holding capacity (text ++ cs) due
unfolding raw
raw-holding [] capacity text due = rw (append-nil text)
raw-holding (c ∷ cs) capacity text due = rw (raw_char-holding c capacity text due) (
    raw-holding cs capacity (text ++ c ∷ []) due
    ∙ ap (λ (t : List ℕ). holding capacity t due) (append_assoc text (c ∷ []) cs))

escape_char-eq-raw : (c : ℕ) (w : JsonWriter) → escape_char c w ≡ raw (escape c) w
unfolding escape_char escape raw
escape_char-eq-raw c w = ground arith

escape_all-holding :
    (cs : List ℕ) (capacity : ℕ) (text : List ℕ) (due : Bool)
    → escape_all cs (holding capacity text due) ≡ holding capacity (text ++ escapes cs) due
unfolding escape_all escapes
escape_all-holding [] capacity text due = rw (append-nil text)
escape_all-holding (c ∷ cs) capacity text due =
    rw (escape_char-eq-raw c (holding capacity text due), raw-holding (escape c) capacity text due)
      (escape_all-holding cs capacity (text ++ escape c) due
        ∙ ap (λ (t : List ℕ). holding capacity t due) (append_assoc text (escape c) (escapes cs)))

ruleset appends = (raw_char-holding, raw-holding, escape_all-holding, append_assoc)

escaped-holding :
    (cs : List ℕ) (capacity : ℕ) (text : List ℕ) (due : Bool)
    → escaped cs (holding capacity text due) ≡ holding capacity (text ++ quoted cs) due
unfolding escaped
escaped-holding cs capacity text due = simp appends

comma-holding :
    (capacity : ℕ) (text : List ℕ) (due : Bool)
    → comma (holding capacity text due) ≡ holding capacity (text ++ comma_text due) due
unfolding comma holding
comma-holding capacity text true = raw_char-holding b',' capacity text true
comma-holding capacity text false = rw (append-nil text)

separator-holding :
    (capacity : ℕ) (text : List ℕ) (due : Bool)
    → separator (holding capacity text due) ≡ holding capacity (text ++ comma_text due) true
unfolding separator holding
separator-holding capacity text due =
    ap (λ (w : JsonWriter). record w { need_comma = true }) (comma-holding capacity text due)

key_colon-holding :
    (key : List ℕ) (capacity : ℕ) (text : List ℕ) (due : Bool)
    → key_colon key (holding capacity text due) ≡ holding capacity (text ++ key_text key due) true
unfolding key_colon
key_colon-holding key capacity text due =
    simp (separator-holding, escaped-holding, raw_char-holding, append_assoc)

set_comma :
    (capacity : ℕ) (text : List ℕ) (due b : Bool)
    → record (holding capacity text due) { need_comma = b } ≡ holding capacity text b
unfolding holding
set_comma capacity text due b = refl

ruleset calls = (
  set_comma, comma-holding, key_colon-holding, escaped-holding, raw_char-holding, raw-holding,
  append_assoc,
)

run-holding :
    (call : Call) (capacity : ℕ) (text : List ℕ) (due : Bool)
    → run call (holding capacity text due)
      ≡ holding capacity (text ++ call_text call due) (comma_after call)
unfolding run call_text comma_after
run-holding Call.object capacity text due = simp calls
run-holding _ capacity text due = simp calls

run_all-holding :
    (cs : List Call) (capacity : ℕ) (text : List ℕ) (due : Bool)
    → run_all cs (holding capacity text due)
      ≡ holding capacity (text ++ text_of cs due) (comma_at_end cs due)
unfolding run_all text_of comma_at_end
run_all-holding [] capacity text due = rw (append-nil text)
run_all-holding (c ∷ cs) capacity text due = rw (run-holding c capacity text due) (
    run_all-holding cs capacity (text ++ call_text c due) (comma_after c)
    ∙ ap (λ (t : List ℕ). holding capacity t (comma_at_end cs (comma_after c)))
        (append_assoc text (call_text c due) (text_of cs (comma_after c))))

-- After any calls of a new writer with a buffer, the writer is ok if and only if the text that the
-- calls stand for is shorter than the capacity, and it holds the first capacity - 1 bytes of that
-- text.
pub run_all-new_writer :
    (calls : List Call) (capacity : ℕ)
    → ((run_all calls (new_writer true capacity)).ok ≡ ltb (length (text_of calls false)) capacity)
      × ((run_all calls (new_writer true capacity)).text
          ≡ take (capacity - 1) (text_of calls false))
unfolding holding
run_all-new_writer calls capacity =
    let e =
      ap (run_all calls) (new_writer-holding capacity) ∙ run_all-holding calls capacity [] false in
    (ap (λ (w : JsonWriter). w.ok) e, ap (λ (w : JsonWriter). w.text) e)
