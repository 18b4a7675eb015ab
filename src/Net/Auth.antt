-- ===== src/Net/Auth.antt =====
-- firmware/include/net/auth.h: the check of the pairing token.
use diy_ebook.Prelude.{
  ℕ, zero, suc, ◌+◌, ◌/◌, ◌≤◌, ◌<◌, ◌≡◌, ◌↔◌, refl, ap, ap₂, sym, ◌∙◌, Bool, true, false, ◌&&◌,
  List, [], ◌∷◌, ◌++◌, length, ◌==◌, not, if◌then◌else◌, codes, arith, bit_or, bit_xor, drop,
  drop-append, ==_iff, ==_refl,
}
use diy_ebook.Prelude.Bits.{bit_or_step, bit_xor_assoc, bit_xor_self, bit_xor-zero, zero-bit_xor}

-- The loop of ConstantTimeEquals; both texts have `length` bytes there.
unfoldable pub differences : ℕ → List ℕ → List ℕ → ℕ
differences difference [] ys = difference
differences difference (x ∷ xs) [] = difference
differences difference (x ∷ xs) (y ∷ ys) = differences (bit_or difference (bit_xor x y)) xs ys

unfoldable pub constant_time_equals : List ℕ → List ℕ → Bool
constant_time_equals a b = differences 0 a b == 0

-- The first loop of CheckBearer. A header that ends early has its NUL where the prefix goes on.
unfoldable pub has_prefix : List ℕ → List ℕ → Bool
has_prefix [] header = true
has_prefix (p ∷ ps) [] = false
has_prefix (p ∷ ps) (c ∷ header) = c == p && has_prefix ps header

abbrev pub bearer : List ℕ
bearer = codes "Bearer "

unfoldable pub check_bearer : List ℕ → List ℕ → Bool
check_bearer header expected_token =
    if length expected_token == 0
    then false
    else if not (has_prefix bearer header)
    then false
    else let presented = drop (length bearer) header in
      if not (length presented == length expected_token)
      then false
      else constant_time_equals presented expected_token

bit_or-zero : (fuel a b : ℕ) → a ≤ fuel → b ≤ fuel → bit_or a b ≡ 0 → (a ≡ 0) × (b ≡ 0)
bit_or-zero zero a b h k e = (omega arith, omega arith)
bit_or-zero (suc fuel) a b h k e =
    let halves : bit_or (a / 2) (b / 2) ≡ 0 = omega (arith, bit_or_step a b) in
    let both = bit_or-zero fuel (a / 2) (b / 2) (omega arith) (omega arith) halves in
    (omega (arith, bit_or_step a b, both.0), omega (arith, bit_or_step a b, both.1))

bit_xor-zero_eq : (a b : ℕ) → bit_xor a b ≡ 0 → a ≡ b
bit_xor-zero_eq a b e =
    sym (bit_xor-zero a)
    ∙ ap (bit_xor a) (sym (bit_xor_self b))
    ∙ sym (bit_xor_assoc a b b)
    ∙ ap (λ (t : ℕ). bit_xor t b) e
    ∙ zero-bit_xor b

bit_or_zero : bit_or 0 0 ≡ 0
bit_or_zero = refl

differences-zero :
    (difference : ℕ) (xs ys : List ℕ)
    → length xs ≡ length ys
    → differences difference xs ys ≡ 0
    → (difference ≡ 0) × (xs ≡ ys)
unfolding differences
differences-zero difference [] [] h e = (e, refl)
differences-zero difference [] (y ∷ ys) h e = absurd (omega arith)
differences-zero difference (x ∷ xs) [] h e = absurd (omega arith)
differences-zero difference (x ∷ xs) (y ∷ ys) h e =
    let rest = differences-zero (bit_or difference (bit_xor x y)) xs ys (omega arith) e in
    let here =
      bit_or-zero (difference + bit_xor x y) difference (bit_xor x y) (omega arith) (omega arith)
        rest.0 in
    (here.0, ap₂ ◌∷◌ (bit_xor-zero_eq x y here.1) rest.1)

differences_refl : (xs : List ℕ) → differences 0 xs xs ≡ 0
unfolding differences
differences_refl [] = refl
differences_refl (x ∷ xs) = rw (bit_xor_self x, bit_or_zero) (differences_refl xs)

has_prefix-append : (ps rest : List ℕ) → has_prefix ps (ps ++ rest) ≡ true
unfolding has_prefix
has_prefix-append [] rest = refl
has_prefix-append (p ∷ ps) rest = ground (arith, has_prefix-append ps rest)

has_prefix-split :
    (ps header : List ℕ) → has_prefix ps header ≡ true → header ≡ ps ++ drop (length ps) header
unfolding has_prefix
has_prefix-split [] header h = refl
has_prefix-split (p ∷ ps) [] h = cc
has_prefix-split (p ∷ ps) (c ∷ header) h = ground (arith, has_prefix-split ps header)

all_passed :
    (a b c d : Bool)
    → (if a then false else if not b then false else if not c then false else d) ≡ true
    → (a ≡ false) × (b ≡ true) × (c ≡ true) × (d ≡ true)
all_passed a b c d h = ground arith

accepts :
    (header token : List ℕ)
    → check_bearer header token ≡ true
    → (0 < length token) × (header ≡ bearer ++ token)
unfolding check_bearer constant_time_equals
accepts header token h =
    let presented = drop (length bearer) header in
    let (filled, prefixed, long, equal) =
      all_passed (length token == 0) (has_prefix bearer header) (length presented == length token)
        (differences 0 presented token == 0) h in
    let e = (==_iff (length presented) (length token)).0 long in
    let z = (==_iff (differences 0 presented token) 0).0 equal in
    let same_bytes = (differences-zero 0 presented token e z).1 in
    (
      non_zero (length token) filled,
      has_prefix-split bearer header prefixed ∙ ap (λ (t : List ℕ). bearer ++ t) same_bytes,
    )
  where
    non_zero : (n : ℕ) → (n == 0) ≡ false → 0 < n
    non_zero n h = ground arith

bearer_token : (token : List ℕ) → 0 < length token → check_bearer (bearer ++ token) token ≡ true
unfolding check_bearer constant_time_equals
bearer_token token h =
    let presented : drop (length bearer) (bearer ++ token) ≡ token = drop-append bearer token in
    rw (has_prefix-append bearer token, presented, ==_refl (length token), differences_refl token)
      (not_empty (length token) h)
  where
    not_empty : (n : ℕ) → 0 < n → (if n == 0 then false else true) ≡ true
    not_empty n k = ground arith

-- A header is accepted if and only if the token is not empty and the header is the prefix Bearer
-- with its space and the token.
pub check_bearer_lem :
    (header token : List ℕ)
    → (check_bearer header token ≡ true) ↔ ((0 < length token) × (header ≡ bearer ++ token))
check_bearer_lem header token = (
  accepts header token,
  λ (both : (0 < length token) × (header ≡ bearer ++ token)).
      ap (λ (t : List ℕ). check_bearer t token) both.1 ∙ bearer_token token both.0,
)
