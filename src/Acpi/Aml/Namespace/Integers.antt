-- ===== src/Acpi/Aml/Namespace/Integers.antt =====
-- An integer survives the trip through a buffer.
use faastr.Common.{
  ℕ, zero, suc, ◌+◌, ◌*◌, ◌/◌, ◌%◌, ◌^◌, ◌<◌, ◌≤◌, ◌≡◌, ◌≢◌, refl, sym, ◌∙◌, [], ◌∷◌, ◌++◌, length,
  arith, some, replicate, ◌-◌, length-append, length-replicate, ℕ_discrete,
}
use faastr.Acpi.Aml.{ok, Bytes, reverse}
use faastr.Acpi.Aml.Namespace.{push_bytes, integer_as_buffer, pop_bytes, buffer_as_integer}

-- the number that bytes stand for, the first one the least
abbrev number : Bytes → ℕ
number [] = 0
number (b ∷ bs) = b + 256 * number bs

below : (turns i : ℕ) → i < 256 ^ suc turns → i / 256 < 256 ^ turns
below turns i p = omega arith

pushes :
    (turns i : ℕ) (v : Bytes)
    → i ≢ 0
    → push_bytes turns (i / 256) ≡ some v
    → push_bytes (suc turns) i ≡ some (i % 256 ∷ v)
unfolding push_bytes
pushes turns i v n e = ground arith

-- Dividing by 256 so often leaves nothing of a number below that power.
push_bytes_lem :
    (turns i : ℕ)
    → i < 256 ^ turns
    → (v : Bytes) × (push_bytes turns i ≡ some v) × (number v ≡ i) × (length v ≤ turns)
unfolding push_bytes
push_bytes_lem zero i p = ([], ground arith, ground arith, ground arith)
push_bytes_lem (suc turns) i p = elim (ℕ_discrete i 0) [
  | yes e ↦ ([], ground arith, sym e, omega arith)
  | no n ↦
      (let (v, pushed, same, short) = push_bytes_lem turns (i / 256) (below turns i p) in
        (i % 256 ∷ v, pushes turns i v n pushed, omega arith, omega arith))
]

-- Zeros behind the bytes do not change the number.
number-append : (v w : Bytes) → number w ≡ 0 → number (v ++ w) ≡ number v
number-append [] w e = e
number-append (b ∷ bs) w e = ground (arith, number-append bs w e)

number-zeros : (n : ℕ) → number (replicate n 0) ≡ 0
number-zeros zero = refl
number-zeros (suc n) = omega (arith, number-zeros n)

pop_bytes-append : (xs ys : Bytes) (i : ℕ) → pop_bytes (xs ++ ys) i ≡ pop_bytes ys (pop_bytes xs i)
unfolding pop_bytes
pop_bytes-append [] ys i = refl
pop_bytes-append (b ∷ bs) ys i = pop_bytes-append bs ys (i * 256 % 2 ^ 64 + b)

pop_bytes_lem : (v : Bytes) → number v < 2 ^ 64 → pop_bytes (reverse v) 0 ≡ number v
unfolding pop_bytes
pop_bytes_lem [] h = refl
pop_bytes_lem (b ∷ bs) h =
    rw (pop_bytes-append (reverse bs) (b ∷ []) 0, pop_bytes_lem bs (omega arith)) (omega arith)

from_buffer :
    (v : Bytes) (i : ℕ) → length v ≡ 8 → number v ≡ i → i < 2 ^ 64 → buffer_as_integer v ≡ ok i
unfolding buffer_as_integer
from_buffer v i long same h = rw (pop_bytes_lem v (omega arith)) (ground arith)

-- Below 2 ^ 64, an integer becomes a buffer of eight bytes, which becomes that integer.
buffer_as_integer-integer_as_buffer :
    (i : ℕ)
    → i < 2 ^ 64
    → (v : Bytes) × (integer_as_buffer i ≡ some v) × (length v ≡ 8) × (buffer_as_integer v ≡ ok i)
unfolding integer_as_buffer buffer_as_integer
buffer_as_integer-integer_as_buffer i h =
    let (v, pushed, same, short) = push_bytes_lem 8 i (omega arith) in
    let zeros : Bytes = replicate (8 - length v) 0 in
    let long : length (v ++ zeros) ≡ 8 =
      omega (arith, length-append v zeros, length-replicate {A = ℕ} (8 - length v) 0) in
    let whole : number (v ++ zeros) ≡ i =
      number-append v zeros (number-zeros (8 - length v)) ∙ same in
    (v ++ zeros, rw pushed, long, from_buffer (v ++ zeros) i long whole h)
