-- ===== src/Acpi/Aml/PkgLength.antt =====
-- kernel/src/acpi/aml/pkglength.rs
use faastr.Common.{
  ℕ, zero, suc, ◌+◌, ◌*◌, ◌/◌, ◌%◌, ◌^◌, ◌<◌, ◌≡◌, [], ◌∷◌, ◌++◌, arith, ◌==◌, ltb, if◌then◌else◌,
  length,
}
use faastr.Acpi.Aml.{Bytes, AmlError, Outcome, ok, err, byte, ◌>>=◌}

-- The loop over the bytes behind the first, of which `left` are left, at the byte `current`. A byte
-- is less than 256 and there are three at most, so that `u32` does not overflow.
add_bytes : ℕ → ℕ → ℕ → Bytes → Outcome ℕ
add_bytes zero current pkg_len text = ok pkg_len
add_bytes (suc left) current pkg_len text = do
  b ← byte text (1 + current)
  add_bytes left (current + 1) (pkg_len + b * 16 * 256 ^ current) text

long_length : ℕ → Bytes → Outcome (ℕ × ℕ)
long_length lead_byte text = do
  pkg_len ← add_bytes (lead_byte / 64) 0 (lead_byte % 16) text
  ok (pkg_len, lead_byte / 64 + 1)

-- The length, and the number of bytes that it is written in.
pub parse_pkg_length : Bytes → Outcome (ℕ × ℕ)
parse_pkg_length text = byte text 0 >>= (λ lead_byte.
    if lead_byte / 64 == 0
    then ok (lead_byte % 64, 1)
    else if lead_byte / 16 % 4 == 0
    then long_length lead_byte text
    else err AmlError.parse_error)

-- A length as the ACPI specification writes it: in one byte below 64, otherwise the low four bits in
-- the first byte and the rest in one, two or three bytes, whose number is in the first byte's high
-- bits.
pub write_pkg_length : ℕ → Bytes
write_pkg_length n =
    if ltb n 64
    then n ∷ []
    else if ltb n (2 ^ 12)
    then (64 + n % 16) ∷ (n / 16) ∷ []
    else if ltb n (2 ^ 20)
    then (128 + n % 16) ∷ (n / 16 % 256) ∷ (n / 4096) ∷ []
    else (192 + n % 16) ∷ (n / 16 % 256) ∷ (n / 4096 % 256) ∷ (n / 2 ^ 20) ∷ []

-- A length below 2 ^ 28 that is written is parsed again, whatever follows it.
pub parse_pkg_length-write_pkg_length :
    (n : ℕ) (rest : Bytes)
    → n < 2 ^ 28
    → parse_pkg_length (write_pkg_length n ++ rest) ≡ ok (n, length (write_pkg_length n))
unfolding parse_pkg_length long_length add_bytes write_pkg_length
parse_pkg_length-write_pkg_length n rest bound = ground arith
