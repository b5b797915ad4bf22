-- ===== src/Common/Bits.antt =====
-- Laws of `|` on machine words: the lowest digit, words that are cut in two at a bit, and zero.
use Prim.Native.Nat.{
  ℕ, zero, suc, ◌+◌, ◌*◌, ◌/◌, ◌%◌, ◌^◌, ◌≤◌, ◌<◌, max, bit_or, digits, bit_or-bitwise,
}
use mathlib.Core.Path.{◌≡◌, refl}
use native.Mathlib.Omega.{arith}

abbrev or_digits : ℕ → ℕ → ℕ → ℕ
or_digits n a b = digits (λ b. b) max n a b

or_digits_fuel : (n m a b : ℕ) → a ≤ n → a ≤ m → or_digits n a b ≡ or_digits m a b
or_digits_fuel zero zero a b p q = refl
or_digits_fuel zero (suc m) zero b p q = refl
or_digits_fuel zero (suc m) (suc a) b p q = absurd (omega arith)
or_digits_fuel (suc n) zero zero b p q = refl
or_digits_fuel (suc n) zero (suc a) b p q = absurd (omega arith)
or_digits_fuel (suc n) (suc m) zero b p q = refl
or_digits_fuel (suc n) (suc m) (suc a) b p q =
    omega (arith, or_digits_fuel n m (suc a / 2) (b / 2) (omega arith) (omega arith))

pub zero-bit_or : (b : ℕ) → bit_or 0 b ≡ b
zero-bit_or b = bit_or-bitwise 0 b

pub bit_or_step : (a b : ℕ) → bit_or a b ≡ bit_or (a / 2) (b / 2) * 2 + max (a % 2) (b % 2)
bit_or_step zero b = omega (arith, zero-bit_or b, zero-bit_or (b / 2))
bit_or_step (suc a) b = omega (
  arith,
  bit_or-bitwise (suc a) b,
  bit_or-bitwise (suc a / 2) (b / 2),
  or_digits_fuel a (suc a / 2) (suc a / 2) (b / 2) (omega arith) (omega arith),
)

bit_or-zero_fuel : (n a : ℕ) → a ≤ n → bit_or a 0 ≡ a
bit_or-zero_fuel n zero h = refl
bit_or-zero_fuel zero (suc a) h = absurd (omega arith)
bit_or-zero_fuel (suc n) (suc a) h =
    omega (arith, bit_or_step (suc a) 0, bit_or-zero_fuel n (suc a / 2) (omega arith))

pub bit_or-zero : (a : ℕ) → bit_or a 0 ≡ a
bit_or-zero a = bit_or-zero_fuel a a (omega arith)

pub bit_or-one : (a : ℕ) → bit_or a 1 ≡ a / 2 * 2 + 1
bit_or-one a = omega (arith, bit_or_step a 1, bit_or-zero (a / 2))

double_pow : (k a : ℕ) → a * 2 ^ suc k ≡ (a * 2 ^ k) * 2
double_pow k a = grind arith

half_lt : (k c : ℕ) → c < 2 ^ suc k → c / 2 < 2 ^ k
half_lt k c h = omega (arith, double_pow k 1)

-- One digit of two words that are cut at a bit, over their high parts.
split_step :
    (x y c d z : ℕ)
    → bit_or (x + c / 2) (y + d / 2) ≡ z + bit_or (c / 2) (d / 2)
    → bit_or (x * 2 + c) (y * 2 + d) ≡ z * 2 + bit_or c d
split_step x y c d z h =
    let left : (x * 2 + c) / 2 ≡ x + c / 2 = omega arith in
    let right : (y * 2 + d) / 2 ≡ y + d / 2 = omega arith in
    let low : bit_or ((x * 2 + c) / 2) ((y * 2 + d) / 2) ≡ bit_or (x + c / 2) (y + d / 2) =
      rw (left, right) in
    omega (arith, bit_or_step (x * 2 + c) (y * 2 + d), bit_or_step c d, low)

-- Two words that are cut at the same bit.
pub bit_or_split :
    (k a b c d : ℕ)
    → c < 2 ^ k
    → d < 2 ^ k
    → bit_or (a * 2 ^ k + c) (b * 2 ^ k + d) ≡ bit_or a b * 2 ^ k + bit_or c d
bit_or_split zero a b c d p q =
    let c0 : c ≡ 0 = omega arith in
    let d0 : d ≡ 0 = omega arith in
    let a1 : a * 2 ^ 0 + 0 ≡ a = omega arith in
    let b1 : b * 2 ^ 0 + 0 ≡ b = omega arith in rw (c0, d0, a1, b1) (omega (arith, zero-bit_or 0))
bit_or_split (suc k) a b c d p q =
    rw (double_pow k a, double_pow k b, double_pow k (bit_or a b))
      (split_step (a * 2 ^ k) (b * 2 ^ k) c d (bit_or a b * 2 ^ k)
        (bit_or_split k a b (c / 2) (d / 2) (half_lt k c p) (half_lt k d q)))
