-- ===== src/Acpi/Aml.antt =====
-- kernel/src/acpi/aml: results that are a value, an error or a panic, and the macros of
-- parsermacros.rs.
pub mod PkgLength
pub mod NameString
mod Tests
pub mod Namespace
pub mod Execution
use faastr.Common.{
  ℕ, Bool, true, false, ◌-◌, ◌≤◌, List, [], ◌∷◌, ◌++◌, Option, none, some, leb, ◌==◌, ◌&&◌, length,
  take, drop, get_elem?, if◌then◌else◌,
}
pub use faastr.Acpi.AmlValue.{
  Bytes, AmlValue, ObjectReference, AmlError, ExecutionState, AmlExecutionContext,
}

pub data Outcome (A : Type 0) : Type 0 where
  ok : A → Outcome A
  err : AmlError → Outcome A
  panics : Outcome A

infixl 5 ◌>>=◌
abbrev pub ◌>>=◌ : {A B : Type 0} → Outcome A → (A → Outcome B) → Outcome B
ok a >>= f = f a
err e >>= f = err e
panics >>= f = panics

abbrev pub reverse : Bytes → Bytes
reverse [] = []
reverse (c ∷ cs) = reverse cs ++ (c ∷ [])

pub record AmlParseType : Type 0 where
  val : AmlValue
  len : ℕ

-- the match on the state at the start of each parser
abbrev pub if_executing : ExecutionState → Outcome AmlParseType → Outcome AmlParseType
if_executing ExecutionState.executing result = result
if_executing ExecutionState.continues result = ok (record { val = AmlValue.nothing; len = 0 })
if_executing ExecutionState.breaks result = ok (record { val = AmlValue.nothing; len = 0 })
if_executing (ExecutionState.returns v) result = ok (record { val = AmlValue.nothing; len = 0 })

abbrev pub as_byte : Option ℕ → Outcome ℕ
as_byte none = panics
as_byte (some b) = ok b

-- `data[i]`
abbrev pub byte : Bytes → ℕ → Outcome ℕ
byte text i = as_byte (get_elem? text i)

-- `&data[from..to]`
abbrev pub slice : Bytes → ℕ → ℕ → Outcome Bytes
slice text from to = if leb to (length text) then ok (take (to - from) (drop from text)) else panics

-- `&data[from..]`
abbrev pub slice_from : Bytes → ℕ → Outcome Bytes
slice_from text from = if leb from (length text) then ok (drop from text) else panics

-- an opcode or character other than this parser's
abbrev pub expect : Bool → Outcome Bool
expect true = ok true
expect false = err AmlError.invalid_op_code

-- `parser_opcode!`
abbrev pub parser_opcode : Bytes → ℕ → Outcome Bool
parser_opcode text opcode = byte text 0 >>= (λ c. expect (c == opcode))

-- `parser_opcode_extended!`
abbrev pub parser_opcode_extended : Bytes → ℕ → Outcome Bool
parser_opcode_extended text opcode = byte text 0 >>= (λ c.
    if c == 0x5b then byte text 1 >>= (λ d. expect (d == opcode)) else err AmlError.invalid_op_code)

-- `parser_selector!`: the next parser, where this one does not know the opcode
abbrev pub or_next : {A : Type 0} → Outcome A → Outcome A → Outcome A
or_next (ok a) next = ok a
or_next (err AmlError.invalid_op_code) next = next
or_next (err AmlError.parse_error) next = err AmlError.parse_error
or_next (err AmlError.value_error) next = err AmlError.value_error
or_next (err AmlError.deferred_load) next = err AmlError.deferred_load
or_next (err AmlError.hard_fatal) next = err AmlError.hard_fatal
or_next (err (AmlError.fatal_error a b v)) next = err (AmlError.fatal_error a b v)
or_next panics next = panics
