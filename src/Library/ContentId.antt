-- ===== src/Library/ContentId.antt =====
-- HexToContentId and ContentIdToHex of firmware/storage/library_index.cpp. A C string is the list of
-- its characters; reading at its end gives the NUL.
use diy_ebook.Prelude.{
  ℕ, zero, suc, ◌+◌, ◌-◌, ◌*◌, ◌/◌, ◌%◌, ◌^◌, ◌<◌, ◌≡◌, refl, ap, subst, arith, Bool, true, false,
  Option, none, some, List, [], ◌∷◌, All, length, get_or, leb, ◌==◌, ◌&&◌, if◌then◌else◌, bit_or,
  all_below, all_below_sound, ==_iff, codes,
}
use diy_ebook.Qpk.ByteOrder.{Bytes, IsByte}

unfoldable pub hex_value : ℕ → Option ℕ
hex_value c =
    if leb b'0' c && leb c b'9'
    then some (c - b'0')
    else if leb b'a' c && leb c b'f'
    then some (c - b'a' + 10)
    else if leb b'A' c && leb c b'F'
    then some (c - b'A' + 10)
    else none

abbrev pub head_or_nul : List ℕ → ℕ
head_or_nul [] = 0
head_or_nul (c ∷ cs) = c

abbrev pub tail : List ℕ → List ℕ
tail [] = []
tail (c ∷ cs) = cs

-- out[i / 2] = value << 4, then out[i / 2] | value
abbrev pub hex_byte : ℕ → ℕ → ℕ
hex_byte high low = bit_or (high * 2 ^ 4 % 256) low

-- The byte of two characters in front of the bytes of the others; false is `none`.
unfoldable pub join_digits : Option ℕ → Option ℕ → Option (Bytes × List ℕ) → Option (Bytes × List ℕ)
join_digits (some high) (some low) (some (bytes, left)) = some (hex_byte high low ∷ bytes, left)
join_digits _ _ _ = none

-- The loop over the 32 characters, two at a time; the bytes and what is left of the text.
unfoldable pub hex_bytes : ℕ → List ℕ → Option (Bytes × List ℕ)
unfolding join_digits
hex_bytes zero hex = some ([], hex)
hex_bytes (suc n) hex =
    join_digits (hex_value (head_or_nul hex)) (hex_value (head_or_nul (tail hex)))
      (hex_bytes n (tail (tail hex)))

-- hex[32] == 0
unfoldable pub at_end : Option (Bytes × List ℕ) → Option Bytes
at_end none = none
at_end (some (bytes, [])) = some bytes
at_end (some (bytes, c ∷ left)) = if c == 0 then some bytes else none

-- HexToContentId; false is `none`
unfoldable pub hex_to_content_id : List ℕ → Option Bytes
unfolding hex_bytes at_end hex_value
hex_to_content_id hex = at_end (hex_bytes 16 hex)

abbrev pub digits : List ℕ
digits = codes "0123456789abcdef"

-- The two characters of a byte.
unfoldable pub content_id_to_hex : Bytes → List ℕ
content_id_to_hex [] = []
content_id_to_hex (b ∷ id) =
    get_or digits (b / 2 ^ 4 % 16) 0 ∷ get_or digits (b % 16) 0 ∷ content_id_to_hex id

digit_check : Option ℕ → ℕ → Bool
digit_check none n = false
digit_check (some v) n = v == n

digit_table : all_below 16 (λ n. digit_check (hex_value (get_or digits n 0)) n) ≡ true
unfolding all_below hex_value digit_check
digit_table = refl

check→some : (o : Option ℕ) (n : ℕ) → digit_check o n ≡ true → o ≡ some n
unfolding digit_check
check→some none n h = cc
check→some (some v) n h = ground arith

hex_value-digits : (n : ℕ) → n < 16 → hex_value (get_or digits n 0) ≡ some n
hex_value-digits n h = check→some _ n (all_below_sound 16 _ n digit_table h)

byte_table : all_below 256 (λ b. hex_byte (b / 2 ^ 4 % 16) (b % 16) == b) ≡ true
unfolding all_below
byte_table = refl

byte_of_digits : (b : ℕ) → b < 256 → hex_byte (b / 2 ^ 4 % 16) (b % 16) ≡ b
byte_of_digits b h = (==_iff _ b).0 (all_below_sound 256 _ b byte_table h)

hex_bytes-to_hex :
    (id : Bytes) → All IsByte id → hex_bytes (length id) (content_id_to_hex id) ≡ some (id, [])
unfolding hex_bytes content_id_to_hex
hex_bytes-to_hex [] h = refl
hex_bytes-to_hex (b ∷ id) h = rw (
  hex_value-digits (b / 2 ^ 4 % 16) (omega arith),
  hex_value-digits (b % 16) (omega arith),
  hex_bytes-to_hex id h.1,
  byte_of_digits b h.0,
)

-- The text of a content id of 16 bytes reads back as the id.
pub hex_to_content_id-content_id_to_hex :
    (id : Bytes)
    → length id ≡ 16
    → All IsByte id
    → hex_to_content_id (content_id_to_hex id) ≡ some id
unfolding hex_to_content_id
hex_to_content_id-content_id_to_hex id h bytes =
    ap at_end (
      subst (λ n. hex_bytes n (content_id_to_hex id) ≡ some (id, [])) h (hex_bytes-to_hex id bytes))
