-- ===== src/Acpi/Aml/Namespace.antt =====
-- The names of kernel/src/acpi/aml/namespace.rs: a name in a scope, and integers as buffers.
pub mod Scopes
pub mod Integers
use faastr.Common.{
  ℕ, zero, suc, Bool, true, false, not, ◌+◌, ◌*◌, ◌/◌, ◌%◌, ◌^◌, ◌&&◌, ◌≡◌, refl, List, [], ◌∷◌,
  ◌++◌, ◌==◌, ltb, leb, length, if◌then◌else◌, Option, none, some, replicate, ◌-◌,
}
use mathlib.Core.Option.{map}
use faastr.Acpi.Aml.{AmlError, Outcome, ok, err, Bytes, reverse, ◌>>=◌}

-- `starts_with` and `ends_with` for a text of one character; the latter on a text with its last
-- character first.
unfoldable pub starts_with : ℕ → Bytes → Bool
starts_with c [] = false
starts_with c (d ∷ ds) = d == c

-- The loop that takes characters from the end, up to a dot; the namespace stands here and below with
-- its last character first.
leave_scope : Bytes → Outcome Bytes
leave_scope [] = err AmlError.value_error
leave_scope (c ∷ cs) = elim (c == 0x2e) [ true ↦ ok cs | false ↦ leave_scope cs ]

abbrev leave : Bytes → Outcome Bytes
leave namespace =
    if starts_with 0x5c namespace then err AmlError.value_error else leave_scope namespace

-- The loop over the carets of the modifier: the namespace and the modifier that are left.
climb : Bytes → Bytes → Outcome (Bytes × Bytes)
climb [] namespace = ok (namespace, [])
climb (m ∷ ms) namespace = elim (m == 0x5e) [
  | true ↦ leave namespace >>= climb ms
  | false ↦ ok (namespace, m ∷ ms)
]

abbrev joined : Bytes → Bytes → Bytes
joined namespace modifier =
    if starts_with 0x5c namespace
    then reverse namespace ++ modifier
    else reverse namespace ++ (0x2e ∷ modifier)

resolve : Bytes → Bytes → Outcome Bytes
resolve namespace modifier = do (left, rest) ← climb modifier namespace; ok (joined left rest)

-- The modifier is the text of its value.
pub get_namespace_string : Bytes → Bytes → Outcome Bytes
get_namespace_string current modifier =
    if length current == 0
    then ok modifier
    else if length modifier == 0
    then ok current
    else if starts_with 0x5c modifier
    then ok modifier
    else resolve (reverse current) modifier

-- The bytes that the loop of `get_as_buffer` pushes for an integer, within so many turns.
push_bytes : ℕ → ℕ → Option Bytes
push_bytes zero i = if i == 0 then some [] else none
push_bytes (suc turns) i = elim (i == 0) [
  | true ↦ some []
  | false ↦ map (◌∷◌ (i % 256)) (push_bytes turns (i / 256))
]

-- `get_as_buffer` of an integer, which has eight bytes
pub integer_as_buffer : ℕ → Option Bytes
integer_as_buffer i = map (λ v. v ++ replicate (8 - length v) 0) (push_bytes 8 i)

-- The loop of `get_as_integer` over the bytes of a buffer, the last one first.
pop_bytes : Bytes → ℕ → ℕ
pop_bytes [] i = i
pop_bytes (b ∷ bs) i = pop_bytes bs (i * 256 % 2 ^ 64 + b)

-- `get_as_integer` of a buffer
pub buffer_as_integer : Bytes → Outcome ℕ
buffer_as_integer b =
    if ltb 8 (length b) then err AmlError.value_error else ok (pop_bytes (reverse b) 0)
