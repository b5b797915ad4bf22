-- ===== src/Acpi/Aml/NameString/Objects.antt =====
-- The simple names of kernel/src/acpi/aml/namestring.rs, and the objects of dataobj.rs that they may
-- be.
use faastr.Common.{ℕ, ◌-◌, ◌≤◌, ◌≡◌, ◌↔◌, ◌∷◌, leb, ltb, ◌&&◌, if◌then◌else◌, arith}
use faastr.Acpi.Aml.{
  AmlError, AmlValue, ObjectReference, AmlParseType, ExecutionState, Outcome, ok, err, panics,
  Bytes, byte, or_next, if_executing, ◌>>=◌,
}
use faastr.Acpi.Aml.NameString.{
  is_lead_char, is_name_char, pop_underscores, parse_name_seg, parse_dual_name_path,
  parse_multi_name_path, parse_null_name, parse_path, prefix, parse_name_string,
}

abbrev arg_obj_at : ℕ → Outcome AmlParseType
arg_obj_at c =
    if leb 0x68 c && leb c 0x6e
    then ok
        (record { val = AmlValue.object_reference (ObjectReference.arg_obj (c - 0x68)); len = 1 })
    else err AmlError.invalid_op_code

parse_arg_obj : Bytes → ExecutionState → Outcome AmlParseType
parse_arg_obj text state = if_executing state (byte text 0 >>= arg_obj_at)

abbrev local_obj_at : ℕ → Outcome AmlParseType
local_obj_at c =
    if leb 0x68 c && leb c 0x6e
    then ok
        (record { val = AmlValue.object_reference (ObjectReference.local_obj (c - 0x60)); len = 1 })
    else err AmlError.invalid_op_code

parse_local_obj : Bytes → ExecutionState → Outcome AmlParseType
parse_local_obj text state = if_executing state (byte text 0 >>= local_obj_at)

pub parse_simple_name : Bytes → ExecutionState → Outcome AmlParseType
parse_simple_name text state = if_executing state (
    or_next (parse_name_string text state) (
      or_next (parse_arg_obj text state)
        (or_next (parse_local_obj text state) (err AmlError.invalid_op_code))))

-- Four bytes that may be a segment are refused by a panic only where all are underscores.
parse_name_seg-panics :
    (a b c d : ℕ) (rest : Bytes)
    → parse_name_seg (a ∷ b ∷ c ∷ d ∷ rest) ≡ panics
      ↔ (a ≡ 0x5f) × (b ≡ 0x5f) × (c ≡ 0x5f) × (d ≡ 0x5f)
unfolding parse_name_seg pop_underscores is_lead_char is_name_char
parse_name_seg-panics a b c d rest = (ground arith, ground arith)

no_name :
    (c : ℕ) (rest : Bytes)
    → 0x60 ≤ c
    → parse_name_string (c ∷ rest) ExecutionState.executing ≡ err AmlError.invalid_op_code
unfolding parse_name_string prefix parse_path parse_name_seg parse_dual_name_path
    parse_multi_name_path parse_null_name is_lead_char
no_name c rest h = ground arith

-- Of the bytes that the ACPI specification has for local objects and arguments, the first eight are
-- refused, and the others are arguments.
pub parse_simple_name-objects :
    (c : ℕ) (rest : Bytes)
    → 0x60 ≤ c
    → c ≤ 0x6e
    → parse_simple_name (c ∷ rest) ExecutionState.executing ≡ (
        if ltb c 0x68
        then err AmlError.invalid_op_code
        else ok (record {
          val = AmlValue.object_reference (ObjectReference.arg_obj (c - 0x68));
          len = 1;
        }))
unfolding parse_simple_name parse_arg_obj parse_local_obj
parse_simple_name-objects c rest h k = rw (no_name c rest h) (ground arith)
