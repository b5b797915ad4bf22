-- ===== src/Acpi/Aml/Tests.antt =====
-- Runs of the parsers, and the theorems at concrete inputs.
use faastr.Common.{true, ◌+◌, ◌≡◌, refl, [], ◌∷◌, ◌++◌, length, replicate, arith}
use faastr.Acpi.Aml.{AmlError, AmlValue, ExecutionState, ok, err, panics}
use faastr.Acpi.Aml.PkgLength.{
  parse_pkg_length, write_pkg_length, parse_pkg_length-write_pkg_length,
}
use faastr.Acpi.Aml.NameString.{
  is_lead_char, is_name_char, pop_underscores, parse_name_seg, parse_name_string,
}
use faastr.Acpi.Aml.NameString.Written.{NameSeg, is_seg}
use faastr.Acpi.Aml.NameString.Paths.{NamePath, write_path, path_chars, is_path}
use faastr.Acpi.Aml.NameString.Names.{NamePrefix, write_prefix, parse_name_string-write}
use faastr.Acpi.Aml.NameString.Objects.{parse_simple_name, parse_simple_name-objects}
use faastr.Acpi.Aml.Namespace.{starts_with, get_namespace_string}
use faastr.Acpi.Aml.Namespace.Scopes.{is_plain, get_namespace_string-caret}

-- "____" makes the parser panic
underscores : parse_name_seg (replicate 4 0x5f) ≡ panics
unfolding parse_name_seg pop_underscores is_lead_char is_name_char
underscores = refl

parse_pkg_length-write_pkg_length_example :
    parse_pkg_length (write_pkg_length 100000 ++ (7 ∷ []))
    ≡ ok (100000, length (write_pkg_length 100000))
parse_pkg_length-write_pkg_length_example =
    parse_pkg_length-write_pkg_length 100000 (7 ∷ []) (omega arith)

-- "^^_SB.PCI0"
abbrev device : NamePath
device = NamePath.dual (NameSeg.three 0x5f 0x53 0x42) (NameSeg.four 0x50 0x43 0x49 0x30)

device-is_path : is_path device ≡ true
unfolding is_path is_seg is_lead_char is_name_char
device-is_path = refl

parse_name_string-write_example :
    parse_name_string
      (write_prefix (NamePrefix.parents 1) ++ (write_path device ++ (1 ∷ [])))
      ExecutionState.executing
    ≡ ok (record {
      val = AmlValue.string (write_prefix (NamePrefix.parents 1) ++ path_chars device);
      len = length (write_path device) + length (write_prefix (NamePrefix.parents 1));
    })
parse_name_string-write_example =
    parse_name_string-write (NamePrefix.parents 1) device (1 ∷ []) device-is_path

parse_simple_name-objects_example :
    parse_simple_name (0x61 ∷ 0x70 ∷ []) ExecutionState.executing ≡ err AmlError.invalid_op_code
parse_simple_name-objects_example =
    parse_simple_name-objects 0x61 (0x70 ∷ []) (omega arith) (omega arith)

-- in "\A.B", the name "^C" is that in "\A"
get_namespace_string-caret_example :
    get_namespace_string (0x5c ∷ 0x41 ∷ 0x2e ∷ 0x42 ∷ []) (0x5e ∷ 0x43 ∷ [])
    ≡ get_namespace_string (0x5c ∷ 0x41 ∷ []) (0x43 ∷ [])
unfolding is_plain starts_with
get_namespace_string-caret_example =
    get_namespace_string-caret (0x5c ∷ 0x41 ∷ []) (0x42 ∷ []) (0x43 ∷ []) refl (λ e. cc) (λ e. cc)
      refl
