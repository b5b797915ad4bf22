-- ===== src/Common/Usize.antt =====
-- `usize` arithmetic of the 64-bit targets: sums and products wrap at 2 ^ 64, as in a release build.
use Prim.Native.Nat.{ℕ, ◌+◌, ◌-◌, ◌*◌, ◌%◌, ◌^◌}

abbrev pub usize_mod : ℕ
usize_mod = 2 ^ 64

abbrev pub add_usize : ℕ → ℕ → ℕ
add_usize a b = (a + b) % 2 ^ 64

abbrev pub mul_usize : ℕ → ℕ → ℕ
mul_usize a b = (a * b) % 2 ^ 64

-- Both arguments are values of the type, so the sum with the modulus does not stop at 0.
abbrev pub sub_usize : ℕ → ℕ → ℕ
sub_usize a b = (a + 2 ^ 64 - b) % 2 ^ 64
