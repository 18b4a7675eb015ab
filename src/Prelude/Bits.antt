-- ===== src/Prelude/Bits.antt =====
-- Laws of `|` and `^` at every width, from the digit recursion of the native operations.
use Prim.Native.Nat.{
  ℕ, zero, suc, ◌+◌, ◌-◌, ◌*◌, ◌/◌, ◌%◌, ◌^◌, ◌≤◌, ◌<◌, max, bit_or, bit_xor, digits,
  bit_or-bitwise, bit_xor-bitwise, differ,
}
use mathlib.Core.Path.{◌≡◌, refl, ap}
use native.Mathlib.Omega.{arith}
use native.Mathlib.Nat.{pow-suc}

-- The digit recursion does not depend on its fuel once that bounds the first number.
module _ (op : ℕ → ℕ → ℕ) where
  enough_digits :
      (a b fuel more : ℕ)
      → a ≤ fuel
      → a ≤ more
      → digits (λ t. t) op fuel a b ≡ digits (λ t. t) op more a b
  enough_digits zero b zero zero h k = refl
  enough_digits zero b zero (suc more) h k = refl
  enough_digits zero b (suc fuel) zero h k = refl
  enough_digits zero b (suc fuel) (suc more) h k = refl
  enough_digits (suc a) b zero more h k = absurd (omega arith)
  enough_digits (suc a) b (suc fuel) zero h k = absurd (omega arith)
  enough_digits (suc a) b (suc fuel) (suc more) h k =
      omega (arith, enough_digits (suc a / 2) (b / 2) fuel more (omega arith) (omega arith))

  -- One digit is taken off both numbers.
  lowest_digit :
      (a b : ℕ)
      → digits (λ t. t) op a (suc a / 2) (b / 2)
        ≡ digits (λ t. t) op (suc a / 2) (suc a / 2) (b / 2)
  lowest_digit a b = enough_digits (suc a / 2) (b / 2) a (suc a / 2) (omega arith) (omega arith)

zero-bit_or : (y : ℕ) → bit_or 0 y ≡ y
zero-bit_or y = bit_or-bitwise 0 y

pub bit_or_step : (x y : ℕ) → bit_or x y ≡ max (x % 2) (y % 2) + 2 * bit_or (x / 2) (y / 2)
bit_or_step zero y = omega (arith, zero-bit_or y, zero-bit_or (y / 2))
bit_or_step (suc x) y =
    let halves = bit_or-bitwise (suc x / 2) (y / 2) in
    omega (arith, bit_or-bitwise (suc x) y, halves, lowest_digit max x y)

-- A field above `k` low bits is added by `|`.
pub bit_or-high : (k a h : ℕ) → a < 2 ^ k → bit_or a (h * 2 ^ k) ≡ a + h * 2 ^ k
bit_or-high zero zero h fits = omega (arith, zero-bit_or (h * 1))
bit_or-high zero (suc a) h fits = absurd (omega arith)
bit_or-high (suc k) a h fits = ground (
  arith,
  bit_or_step a (h * 2 ^ suc k),
  pow-suc 2 k,
  ap (λ (t : ℕ). h * t) (pow-suc 2 k),
  bit_or-high k (a / 2) h,
)

pub zero-bit_xor : (b : ℕ) → bit_xor 0 b ≡ b
zero-bit_xor b = bit_xor-bitwise 0 b

differ_lem : (a b : ℕ) → differ a b ≡ (a - b) + (b - a)
differ_lem zero b = omega arith
differ_lem (suc a) zero = omega arith
differ_lem (suc a) (suc b) = omega (arith, differ_lem a b)

-- The lowest bit of `a ^ b`.
abbrev pub odd_sum : ℕ → ℕ → ℕ
odd_sum a b = (a % 2 + b % 2) % 2

pub bit_xor_step : (a b : ℕ) → bit_xor a b ≡ bit_xor (a / 2) (b / 2) * 2 + odd_sum a b
bit_xor_step zero b = omega (arith, zero-bit_xor b, zero-bit_xor (b / 2))
bit_xor_step (suc a) b = omega (
  arith,
  bit_xor-bitwise (suc a) b,
  bit_xor-bitwise (suc a / 2) (b / 2),
  lowest_digit differ a b,
  differ_lem (suc a % 2) (b % 2),
)

pub half-bit_xor : (a b : ℕ) → bit_xor a b / 2 ≡ bit_xor (a / 2) (b / 2)
half-bit_xor a b = omega (arith, bit_xor_step a b)

pub parity-bit_xor : (a b : ℕ) → bit_xor a b % 2 ≡ odd_sum a b
parity-bit_xor a b = omega (arith, bit_xor_step a b)

bit_xor-zero_fuel : (n a : ℕ) → a ≤ n → bit_xor a 0 ≡ a
bit_xor-zero_fuel n zero h = refl
bit_xor-zero_fuel zero (suc a) h = absurd (omega arith)
bit_xor-zero_fuel (suc n) (suc a) h =
    omega (arith, bit_xor_step (suc a) 0, bit_xor-zero_fuel n (suc a / 2) (omega arith))

pub bit_xor-zero : (a : ℕ) → bit_xor a 0 ≡ a
bit_xor-zero a = bit_xor-zero_fuel a a (omega arith)

pub bit_xor-lt : (k a b : ℕ) → a < 2 ^ k → b < 2 ^ k → bit_xor a b < 2 ^ k
bit_xor-lt zero zero zero p q = omega arith
bit_xor-lt zero zero (suc b) p q = absurd (omega arith)
bit_xor-lt zero (suc a) b p q = absurd (omega arith)
bit_xor-lt (suc k) a b p q =
    ground (arith, bit_xor_step a b, pow-suc 2 k, bit_xor-lt k (a / 2) (b / 2))

bit_xor_comm_fuel : (n a b : ℕ) → a ≤ n → bit_xor a b ≡ bit_xor b a
bit_xor_comm_fuel n zero b h = omega (arith, zero-bit_xor b, bit_xor-zero b)
bit_xor_comm_fuel zero (suc a) b h = absurd (omega arith)
bit_xor_comm_fuel (suc n) (suc a) b h = omega (
  arith,
  bit_xor_step (suc a) b,
  bit_xor_step b (suc a),
  bit_xor_comm_fuel n (suc a / 2) (b / 2) (omega arith),
)

pub bit_xor_comm : (a b : ℕ) → bit_xor a b ≡ bit_xor b a
bit_xor_comm a b = bit_xor_comm_fuel a a b (omega arith)

bit_xor_assoc_step :
    (a b c : ℕ)
    → bit_xor (bit_xor (a / 2) (b / 2)) (c / 2) ≡ bit_xor (a / 2) (bit_xor (b / 2) (c / 2))
    → bit_xor (bit_xor a b) c ≡ bit_xor a (bit_xor b c)
bit_xor_assoc_step a b c h =
    rw
      (
        bit_xor_step (bit_xor a b) c,
        bit_xor_step a (bit_xor b c),
        half-bit_xor a b,
        half-bit_xor b c,
        h,
      )
      (omega (arith, parity-bit_xor a b, parity-bit_xor b c))

bit_xor_assoc_fuel : (n a b c : ℕ) → a ≤ n → bit_xor (bit_xor a b) c ≡ bit_xor a (bit_xor b c)
bit_xor_assoc_fuel n zero b c h = rw (zero-bit_xor b, zero-bit_xor (bit_xor b c))
bit_xor_assoc_fuel zero (suc a) b c h = absurd (omega arith)
bit_xor_assoc_fuel (suc n) (suc a) b c h =
    bit_xor_assoc_step (suc a) b c (bit_xor_assoc_fuel n (suc a / 2) (b / 2) (c / 2) (omega arith))

pub bit_xor_assoc : (a b c : ℕ) → bit_xor (bit_xor a b) c ≡ bit_xor a (bit_xor b c)
bit_xor_assoc a b c = bit_xor_assoc_fuel a a b c (omega arith)

bit_xor_self_fuel : (n a : ℕ) → a ≤ n → bit_xor a a ≡ 0
bit_xor_self_fuel n zero h = refl
bit_xor_self_fuel zero (suc a) h = absurd (omega arith)
bit_xor_self_fuel (suc n) (suc a) h =
    omega (arith, bit_xor_step (suc a) (suc a), bit_xor_self_fuel n (suc a / 2) (omega arith))

pub bit_xor_self : (a : ℕ) → bit_xor a a ≡ 0
bit_xor_self a = bit_xor_self_fuel a a (omega arith)

-- A field above `k` low bits is added by `^`.
pub bit_xor-high : (k a h : ℕ) → a < 2 ^ k → bit_xor (h * 2 ^ k) a ≡ h * 2 ^ k + a
bit_xor-high zero zero h fits = omega (arith, bit_xor-zero (h * 1))
bit_xor-high zero (suc a) h fits = absurd (omega arith)
bit_xor-high (suc k) a h fits = ground (
  arith,
  bit_xor_step (h * 2 ^ suc k) a,
  pow-suc 2 k,
  ap (λ (t : ℕ). h * t) (pow-suc 2 k),
  bit_xor-high k (a / 2) h,
)

pub bit_xor_swap :
    (a b c d : ℕ) → bit_xor (bit_xor a b) (bit_xor c d) ≡ bit_xor (bit_xor a c) (bit_xor b d)
bit_xor_swap a b c d = cc (
  bit_xor_assoc a b (bit_xor c d),
  bit_xor_assoc b c d,
  bit_xor_comm b c,
  bit_xor_assoc c b d,
  bit_xor_assoc a c (bit_xor b d),
)
