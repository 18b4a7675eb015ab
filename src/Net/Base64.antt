-- ===== src/Net/Base64.antt =====
-- firmware/wifi/base64.cpp: DecodeBase64, against the encoding that the desktop uses (RFC 4648).
pub mod RoundTrip
pub mod Bounds
use diy_ebook.Prelude.{
  ℕ, ◌+◌, ◌-◌, ◌*◌, ◌/◌, ◌%◌, ◌^◌, ◌&&◌, ◌||◌, Option, none, some, List, [], ◌∷◌, ◌++◌, length, ltb,
  leb, ◌==◌, if◌then◌else◌, codes, get_or,
}
use mathlib.Core.List.{append_assoc, append-nil}

-- The locals of the loop; the bytes stand for `out` and `written`.
pub record Decoder : Type 0 where
  pub accumulator : ℕ
  pub bits : ℕ
  pub out : List ℕ
  pub padding : ℕ

-- The value of a character, in the code's order; the others are none.
unfoldable pub digit_value : ℕ → Option ℕ
digit_value c =
    if leb b'A' c && leb c b'Z'
    then some (c - b'A')
    else if leb b'a' c && leb c b'z'
    then some (c - b'a' + 26)
    else if leb b'0' c && leb c b'9'
    then some (c - b'0' + 52)
    else if c == b'+'
    then some 62
    else if c == b'/'
    then some 63
    else none

-- ((accumulator << 6) | value) & 0xFFFFFF; the value has six bits.
abbrev pub shift_in : ℕ → ℕ → ℕ
shift_in accumulator value = (accumulator * 64 + value) % 2 ^ 24

-- The end of the loop's body, once there are `bits` new bits.
unfoldable pub put_bits : ℕ → ℕ → Decoder → Option Decoder
put_bits capacity bits d =
    if leb 8 bits
    then (if leb capacity (length d.out)
        then none
        else some record d {
          bits = bits - 8;
          out = d.out ++ (d.accumulator / 2 ^ (bits - 8) % 256) ∷ [];
        })
    else some record d { bits = bits }

unfoldable pub data_char : ℕ → ℕ → Decoder → Option Decoder
data_char capacity value d =
    if ltb 0 d.padding
    then none
    else put_bits capacity (d.bits + 6) record d { accumulator = shift_in d.accumulator value }

unfoldable pub other_char : ℕ → Decoder → Option Decoder
other_char c d =
    if c == b'='
    then some record d { padding = d.padding + 1 }
    else if c == 13 || c == 10
    then some d
    else none

unfoldable pub decode_char : ℕ → ℕ → Decoder → Option Decoder
decode_char capacity c d = elim (digit_value c) [
  | some value ↦ data_char capacity value d
  | none ↦ other_char c d
]

unfoldable pub decode_loop : ℕ → List ℕ → Decoder → Option Decoder
decode_loop capacity [] d = some d
decode_loop capacity (c ∷ cs) d = elim (decode_char capacity c d) [
  | none ↦ none
  | some d' ↦ decode_loop capacity cs d'
]

abbrev pub start : Decoder
start = record { accumulator = 0; bits = 0; out = []; padding = 0 }

abbrev pub finish : Option Decoder → Option (List ℕ)
finish none = none
finish (some d) = if ltb 2 d.padding then none else some d.out

unfoldable pub decode_base64 : ℕ → List ℕ → Option (List ℕ)
decode_base64 capacity text = finish (decode_loop capacity text start)

-- RFC 4648: the character of a value, and the text of some bytes.
abbrev pub digit_char : ℕ → ℕ
digit_char value =
    get_or (codes "ABCDEFGHIJKLMNOPQRSTUVWXYZabcdefghijklmnopqrstuvwxyz0123456789+/") value 0

unfoldable pub encode_base64 : List ℕ → List ℕ
encode_base64 [] = []
encode_base64 (a ∷ []) = digit_char (a / 4) ∷ digit_char (a % 4 * 16) ∷ b'=' ∷ b'=' ∷ []
encode_base64 (a ∷ b ∷ []) =
    digit_char (a / 4) ∷ digit_char (a % 4 * 16 + b / 16) ∷ digit_char (b % 16 * 4) ∷ b'=' ∷ []
encode_base64 (a ∷ b ∷ c ∷ rest) =
    digit_char (a / 4)
    ∷ digit_char (a % 4 * 16 + b / 16)
    ∷ digit_char (b % 16 * 4 + c / 64)
    ∷ digit_char (c % 64)
    ∷ encode_base64 rest
