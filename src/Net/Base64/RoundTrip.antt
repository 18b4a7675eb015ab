-- ===== src/Net/Base64/RoundTrip.antt =====
-- firmware/wifi/base64.cpp: DecodeBase64 on an encoded text.
use diy_ebook.Prelude.{
  ℕ, ◌+◌, ◌*◌, ◌/◌, ◌%◌, ◌≤◌, ◌<◌, ◌≡◌, refl, ap, sym, ◌∙◌, Bool, true, false, Option, none, some,
  List, [], ◌∷◌, ◌++◌, length, length-append, All, ◌==◌, arith, all_below, all_below_sound, ==_iff,
}
use mathlib.Core.List.{append_assoc, append-nil}
use diy_ebook.Qpk.ByteOrder.{IsByte}
use diy_ebook.Net.Base64.{
  Decoder, digit_value, shift_in, put_bits, data_char, other_char, decode_char, decode_loop, finish,
  decode_base64, digit_char, encode_base64,
}

is_value : ℕ → Option ℕ → Bool
is_value v none = false
is_value v (some w) = w == v

is_value_lem : (v : ℕ) (o : Option ℕ) → is_value v o ≡ true → o ≡ some v
unfolding is_value
is_value_lem v none h = cc
is_value_lem v (some w) h = ap some ((==_iff w v).0 h)

alphabet : all_below 64 (λ v. is_value v (digit_value (digit_char v))) ≡ true
unfolding all_below is_value digit_value
alphabet = refl

digit_value-digit_char : (v : ℕ) → v < 64 → digit_value (digit_char v) ≡ some v
digit_value-digit_char v h = is_value_lem v _ (all_below_sound 64 _ v alphabet h)

abbrev decoder : ℕ → ℕ → List ℕ → Decoder
decoder accumulator bits out = record {
  accumulator = accumulator;
  bits = bits;
  out = out;
  padding = 0;
}

decode_char-digit :
    (capacity v : ℕ) (d : Decoder)
    → v < 64
    → decode_char capacity (digit_char v) d ≡ data_char capacity v d
unfolding decode_char
decode_char-digit capacity v d small = rw (digit_value-digit_char v small, decode_char) refl

decode_loop-digit :
    (capacity v : ℕ) (cs : List ℕ) (d d' : Decoder)
    → v < 64
    → data_char capacity v d ≡ some d'
    → decode_loop capacity (digit_char v ∷ cs) d ≡ decode_loop capacity cs d'
unfolding decode_loop
decode_loop-digit capacity v cs d d' small e =
    rw (decode_char-digit capacity v d small, e, decode_loop) refl

module _ (capacity acc v : ℕ) (out : List ℕ) where
  -- Six bits with none kept write nothing; with 2, 4 or 6 kept they complete a byte.
  data_char-0 : data_char capacity v (decoder acc 0 out) ≡ some (decoder (shift_in acc v) 6 out)
  unfolding data_char put_bits
  data_char-0 = refl

  module _ (room : length out < capacity) where
    data_char-6 :
        data_char capacity v (decoder acc 6 out)
        ≡ some (decoder (shift_in acc v) 4 (out ++ (shift_in acc v / 16 % 256) ∷ []))
    unfolding data_char put_bits
    data_char-6 = ground arith

    data_char-4 :
        data_char capacity v (decoder acc 4 out)
        ≡ some (decoder (shift_in acc v) 2 (out ++ (shift_in acc v / 4 % 256) ∷ []))
    unfolding data_char put_bits
    data_char-4 = ground arith

    data_char-2 :
        data_char capacity v (decoder acc 2 out)
        ≡ some (decoder (shift_in acc v) 0 (out ++ (shift_in acc v / 1 % 256) ∷ []))
    unfolding data_char put_bits
    data_char-2 = ground arith

-- The bytes that come out of the values, whatever was in the accumulator.
first_byte :
    (acc a h : ℕ)
    → a < 256
    → h < 16
    → shift_in (shift_in acc (a / 4)) (a % 4 * 16 + h) / 16 % 256 ≡ a
first_byte acc a h p q = omega arith

second_byte :
    (acc u b k : ℕ)
    → b < 256
    → k < 4
    → shift_in (shift_in acc (u * 16 + b / 16)) (b % 16 * 4 + k) / 4 % 256 ≡ b
second_byte acc u b k p q = omega arith

third_byte :
    (acc u c : ℕ) → c < 256 → shift_in (shift_in acc (u * 4 + c / 64)) (c % 64) / 1 % 256 ≡ c
third_byte acc u c p = omega arith

module _ (capacity acc : ℕ) (out cs : List ℕ) (room : length out < capacity) where
  -- Two characters give the first byte of a group,
  one_byte :
      (a h : ℕ)
      → a < 256
      → h < 16
      → decode_loop capacity
          (digit_char (a / 4) ∷ digit_char (a % 4 * 16 + h) ∷ cs)
          (decoder acc 0 out)
        ≡ decode_loop capacity cs
            (decoder (shift_in (shift_in acc (a / 4)) (a % 4 * 16 + h)) 4 (out ++ a ∷ []))
  one_byte a h p q =
      decode_loop-digit capacity (a / 4) (digit_char (a % 4 * 16 + h) ∷ cs) (decoder acc 0 out)
        (decoder (shift_in acc (a / 4)) 6 out) (omega arith) (data_char-0 capacity acc (a / 4) out)
      ∙ decode_loop-digit capacity (a % 4 * 16 + h) cs (decoder (shift_in acc (a / 4)) 6 out)
          (decoder (shift_in (shift_in acc (a / 4)) (a % 4 * 16 + h)) 4 (out ++ a ∷ []))
          (omega arith)
          (data_char-6 capacity (shift_in acc (a / 4)) (a % 4 * 16 + h) out room
            ∙ ap
                (λ (t : ℕ).
                  some
                    (decoder (shift_in (shift_in acc (a / 4)) (a % 4 * 16 + h)) 4 (out ++ t ∷ [])))
                (first_byte acc a h p q))

  -- the next gives the second,
  two_bytes :
      (u b k : ℕ)
      → b < 256
      → k < 4
      → decode_loop capacity
          (digit_char (b % 16 * 4 + k) ∷ cs)
          (decoder (shift_in acc (u * 16 + b / 16)) 4 out)
        ≡ decode_loop capacity cs
            (decoder (shift_in (shift_in acc (u * 16 + b / 16)) (b % 16 * 4 + k)) 2 (out ++ b ∷ []))
  two_bytes u b k p q =
      let old = shift_in acc (u * 16 + b / 16) in
      let new = b % 16 * 4 + k in
      decode_loop-digit capacity new cs (decoder old 4 out)
        (decoder (shift_in old new) 2 (out ++ b ∷ [])) (omega arith)
        (data_char-4 capacity old new out room
          ∙ ap (λ (t : ℕ). some (decoder (shift_in old new) 2 (out ++ t ∷ [])))
              (second_byte acc u b k p q))

  -- and the last gives the third.
  three_bytes :
      (u c : ℕ)
      → c < 256
      → decode_loop capacity
          (digit_char (c % 64) ∷ cs)
          (decoder (shift_in acc (u * 4 + c / 64)) 2 out)
        ≡ decode_loop capacity cs
            (decoder (shift_in (shift_in acc (u * 4 + c / 64)) (c % 64)) 0 (out ++ c ∷ []))
  three_bytes u c p =
      let old = shift_in acc (u * 4 + c / 64) in
      let new = c % 64 in
      decode_loop-digit capacity new cs (decoder old 2 out)
        (decoder (shift_in old new) 0 (out ++ c ∷ [])) (omega arith)
        (data_char-2 capacity old new out room
          ∙ ap (λ (t : ℕ). some (decoder (shift_in old new) 0 (out ++ t ∷ [])))
              (third_byte acc u c p))

padded_twice :
    (capacity acc bits : ℕ) (out : List ℕ)
    → finish (decode_loop capacity (b'=' ∷ b'=' ∷ []) (decoder acc bits out)) ≡ some out
unfolding decode_loop decode_char digit_value other_char
padded_twice capacity acc bits out = refl

padded_once :
    (capacity acc bits : ℕ) (out : List ℕ)
    → finish (decode_loop capacity (b'=' ∷ []) (decoder acc bits out)) ≡ some out
unfolding decode_loop decode_char digit_value other_char
padded_once capacity acc bits out = refl

length-more : (out : List ℕ) (b : ℕ) → length (out ++ b ∷ []) ≡ length out + 1
length-more out b = omega (arith, length-append {0} out (b ∷ []))

decode_loop-encode :
    (bytes : List ℕ) (capacity acc : ℕ) (out : List ℕ)
    → All IsByte bytes
    → length out + length bytes ≤ capacity
    → finish (decode_loop capacity (encode_base64 bytes) (decoder acc 0 out)) ≡ some (out ++ bytes)
unfolding encode_base64
decode_loop-encode [] capacity acc out h room = unfold decode_loop in ap some (sym (append-nil out))
decode_loop-encode (a ∷ []) capacity acc out (p, _) room =
    let value : a % 4 * 16 ≡ a % 4 * 16 + 0 = omega arith in
    rw (value, one_byte capacity acc out (b'=' ∷ b'=' ∷ []) (omega arith) a 0 p (omega arith))
      (padded_twice capacity _ 4 (out ++ a ∷ []))
decode_loop-encode (a ∷ b ∷ []) capacity acc out (p, (q, _)) room =
    let value : b % 16 * 4 ≡ b % 16 * 4 + 0 = omega arith in
    let acc1 = shift_in acc (a / 4) in
    let last = digit_char (b % 16 * 4 + 0) ∷ b'=' ∷ [] in
    let one = one_byte capacity acc out last (omega arith) a (b / 16) p (omega arith) in
    let room1 : length (out ++ a ∷ []) < capacity = omega (arith, length-more out a) in
    let two =
      two_bytes capacity acc1 (out ++ a ∷ []) (b'=' ∷ []) room1 (a % 4) b 0 q (omega arith) in
    rw value (
      ap finish (one ∙ two)
      ∙ padded_once capacity (shift_in (shift_in acc1 (a % 4 * 16 + b / 16)) (b % 16 * 4 + 0)) 2
          ((out ++ a ∷ []) ++ b ∷ [])
      ∙ ap some (append_assoc out (a ∷ []) (b ∷ [])))
decode_loop-encode (a ∷ b ∷ c ∷ rest) capacity acc out (p, (q, (r, more))) room =
    let acc1 = shift_in acc (a / 4) in
    let acc2 = shift_in acc1 (a % 4 * 16 + b / 16) in
    let acc3 = shift_in acc2 (b % 16 * 4 + c / 64) in
    let out1 = out ++ a ∷ [] in
    let out2 = out1 ++ b ∷ [] in
    let tail = encode_base64 rest in
    let last = digit_char (c % 64) ∷ tail in
    let third = digit_char (b % 16 * 4 + c / 64) ∷ last in
    let room1 : length out1 < capacity = omega (arith, length-more out a) in
    let room2 : length out2 < capacity = omega (arith, length-more out a, length-more out1 b) in
    let room3 : length (out2 ++ c ∷ []) + length rest ≤ capacity =
      omega (arith, length-more out a, length-more out1 b, length-more out2 c) in
    let one = one_byte capacity acc out third (omega arith) a (b / 16) p (omega arith) in
    let two = two_bytes capacity acc1 out1 last room1 (a % 4) b (c / 64) q (omega arith) in
    let three = three_bytes capacity acc2 out2 tail room2 (b % 16) c r in
    ap finish (one ∙ two ∙ three)
    ∙ decode_loop-encode rest capacity (shift_in acc3 (c % 64)) (out2 ++ c ∷ []) more room3
    ∙ ap some (
        append_assoc out2 (c ∷ []) rest
        ∙ append_assoc out1 (b ∷ []) (c ∷ rest)
        ∙ append_assoc out (a ∷ []) (b ∷ c ∷ rest))

-- Bytes that fit the buffer are decoded from their encoding by RFC 4648.
pub decode_base64-encode_base64 :
    (bytes : List ℕ) (capacity : ℕ)
    → All IsByte bytes
    → length bytes ≤ capacity
    → decode_base64 capacity (encode_base64 bytes) ≡ some bytes
unfolding decode_base64
decode_base64-encode_base64 bytes capacity h room =
    decode_loop-encode bytes capacity 0 [] h (omega arith)
