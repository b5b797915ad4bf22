-- ===== src/Common/Masks.antt =====
-- Powers of two, and `&` with a mask of the lowest bits, which is a remainder.
use Prim.Native.Nat.{
  ℕ, zero, suc, ◌+◌, ◌-◌, ◌*◌, ◌/◌, ◌%◌, ◌^◌, ◌≤◌, ◌<◌, min, bit_and, digits, bit_and-bitwise,
}
use mathlib.Core.Path.{◌≡◌, sym, ap, ◌∙◌}
use native.Mathlib.Omega.{arith}
use native.Mathlib.Nat.{div-add-mod', mod-lt, mod-eq_of_lt, mul-add-mod_self_right, zero-mod}

mod_double : (m a : ℕ) → 0 < m → a % (m * 2) ≡ (a / 2) % m * 2 + a % 2
mod_double m a p =
    let c = (a / 2) % m * 2 + a % 2 in
    let spread : (a / 2) / m * (m * 2) ≡ (a / 2) / m * m * 2 = grind arith in
    let whole : (a / 2) / m * (m * 2) + c ≡ a = omega (arith, spread, div-add-mod' (a / 2) m) in
    ap (λ n. n % (m * 2)) (sym whole)
    ∙ mul-add-mod_self_right ((a / 2) / m) (m * 2) c
    ∙ mod-eq_of_lt (omega (arith, mod-lt (a / 2) p))

double_pow : (k : ℕ) → 2 ^ suc k ≡ 2 ^ k * 2
double_pow k = grind arith

pub pow_pos : (k : ℕ) → 0 < 2 ^ k
pow_pos zero = omega arith
pow_pos (suc k) = omega (arith, pow_pos k, double_pow k)

pub pow-le-pow : (k n : ℕ) → k ≤ n → 2 ^ k ≤ 2 ^ n
pow-le-pow zero n h = pow_pos n
pow-le-pow (suc k) zero h = absurd (omega arith)
pow-le-pow (suc k) (suc n) h =
    omega (arith, pow-le-pow k n (omega arith), double_pow k, double_pow n)

-- The digits of a number under a mask, whatever the fuel, if it is enough.
masked : ℕ → ℕ → ℕ → ℕ
masked fuel a mask = digits (λ b. 0) min fuel a mask

masked-mask : (fuel k a : ℕ) → a ≤ fuel → masked fuel a (2 ^ k - 1) ≡ a % 2 ^ k
unfolding masked
masked-mask zero k zero h = sym (zero-mod (2 ^ k))
masked-mask zero k (suc a) h = absurd (omega arith)
masked-mask (suc fuel) k zero h = sym (zero-mod (2 ^ k))
masked-mask (suc fuel) zero (suc a) h =
    omega (arith, masked-mask fuel zero (suc a / 2) (omega arith))
masked-mask (suc fuel) (suc k) (suc a) h =
    let high : (2 ^ suc k - 1) / 2 ≡ 2 ^ k - 1 = omega (arith, pow_pos k, double_pow k) in
    let low : (2 ^ suc k - 1) % 2 ≡ 1 = omega (arith, pow_pos k, double_pow k) in
    let halves = ap (masked fuel (suc a / 2)) high ∙ masked-mask fuel k (suc a / 2) (omega arith) in
    let whole = ap (λ n. suc a % n) (double_pow k) ∙ mod_double (2 ^ k) (suc a) (pow_pos k) in
    omega (arith, halves, low, whole)

pub bit_and-mask : (k a : ℕ) → bit_and a (2 ^ k - 1) ≡ a % 2 ^ k
unfolding masked
bit_and-mask k a = bit_and-bitwise a (2 ^ k - 1) ∙ masked-mask a k a (omega arith)
