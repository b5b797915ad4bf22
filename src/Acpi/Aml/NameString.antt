-- ===== src/Acpi/Aml/NameString.antt =====
-- kernel/src/acpi/aml/namestring.rs, without the names that opcodes compute.
pub mod Written
pub mod Paths
pub mod Names
pub mod Objects
use faastr.Common.{
  ℕ, Bool, true, false, zero, suc, ◌+◌, ◌*◌, ◌&&◌, ◌||◌, ◌≡◌, List, [], ◌∷◌, ◌++◌, Option, none,
  some, leb, ◌==◌, if◌then◌else◌, length, replicate, take, ◌-◌,
}
use faastr.Acpi.Aml.{
  AmlError, Outcome, ok, err, panics, Bytes, byte, slice, slice_from, or_next, ◌>>=◌,
  ExecutionState, expect, parser_opcode, parser_opcode_extended, if_executing, reverse, AmlValue,
  AmlParseType,
}
use faastr.Sos.Utf8.{from_utf8}

abbrev between : ℕ → ℕ → ℕ → Bool
between lo hi c = leb lo c && leb c hi

-- a letter, or the underscore
unfoldable pub is_lead_char : ℕ → Bool
is_lead_char c = between 0x41 0x5a c || c == 0x5f

unfoldable pub is_name_char : ℕ → Bool
is_name_char c = between 0x30 0x39 c || between 0x41 0x5a c || c == 0x5f

-- The loop that pops the underscores at the end; the vector stands here with its last element first.
unfoldable pub pop_underscores : Bytes → Outcome Bytes
pop_underscores [] = panics
pop_underscores (c ∷ cs) = elim (c == 0x5f) [ true ↦ pop_underscores cs | false ↦ ok (c ∷ cs) ]

unfoldable pub parse_name_seg : Bytes → Outcome (Bytes × ℕ)
parse_name_seg text = do
  a ← byte text 0
  _ ← expect (is_lead_char a)
  b ← byte text 1
  _ ← expect (is_name_char b)
  c ← byte text 2
  _ ← expect (is_name_char c)
  d ← byte text 3
  _ ← expect (is_name_char d)
  popped ← pop_underscores (d ∷ c ∷ b ∷ a ∷ [])
  ok (reverse popped, 4)

parse_null_name : Bytes → Outcome (Bytes × ℕ)
parse_null_name text = do _ ← parser_opcode text 0x00; ok ([], 1)

pub parse_dual_name_path : Bytes → Outcome (Bytes × ℕ)
parse_dual_name_path text = do
  _ ← parser_opcode text 0x2e
  one ← slice text 1 5
  (v, len) ← parse_name_seg one
  two ← slice text 5 9
  (w, more) ← parse_name_seg two
  ok (v ++ (0x2e ∷ w), 1 + len + more)

-- The loop over the segments, of which `left` are left, and the characters and the length that it
-- adds to those before it. The `pop` behind the loop leaves out the dot behind the last segment.
parse_segs : ℕ → ℕ → Bytes → Outcome (Bytes × ℕ)
parse_segs zero current text = ok ([], 0)
parse_segs (suc left) current text = do
  here ← slice_from text (current * 4 + 2)
  (v, len) ← parse_name_seg here
  (w, more) ← parse_segs left (current + 1) text
  ok (v ++ (0x2e ∷ w), len + more)

multi_name : ℕ → Bytes → Outcome (Bytes × ℕ)
multi_name seg_count text = do
  (characters, len) ← parse_segs seg_count 0 text
  ok (take (length characters - 1) characters, 2 + len)

pub parse_multi_name_path : Bytes → Outcome (Bytes × ℕ)
parse_multi_name_path text = do
  _ ← parser_opcode text 0x2f
  seg_count ← byte text 1
  if seg_count == 0x00 then err AmlError.parse_error else multi_name seg_count text

-- The loop over the carets: how many there are.
pub carets : Bytes → Outcome ℕ
carets [] = panics
carets (c ∷ cs) = elim (c == 0x5e) [ true ↦ carets cs >>= (λ n. ok (suc n)) | false ↦ ok 0 ]

abbrev caret_prefix : ℕ → Bytes → Outcome Bytes
caret_prefix c text = if c == 0x5e then (do n ← carets text; ok (replicate n 0x5e)) else ok []

prefix : Bytes → Outcome Bytes
prefix text = do c ← byte text 0; if c == 0x5c then ok (0x5c ∷ []) else caret_prefix c text

-- `sel`
parse_path : Bytes → Outcome (Bytes × ℕ)
parse_path text = or_next (parse_dual_name_path text) (
    or_next (parse_multi_name_path text) (
      or_next (parse_null_name text)
        (or_next (parse_name_seg text) (err AmlError.invalid_op_code))))

name_of : Bytes → ℕ → Outcome AmlParseType
name_of characters len = elim (from_utf8 characters) [
  | none ↦ err AmlError.parse_error
  | some s ↦ ok (record { val = AmlValue.string s; len = len })
]

pub parse_name_string : Bytes → ExecutionState → Outcome AmlParseType
parse_name_string text state = if_executing state (do
  characters ← prefix text
  behind ← slice_from text (length characters)
  (chr, len) ← parse_path behind
  name_of (characters ++ chr) (len + length characters))

parse_debug_obj : Bytes → ExecutionState → Outcome AmlParseType
parse_debug_obj text state =
    if_executing state (do
      _ ← parser_opcode_extended text 0x31
      ok (record { val = AmlValue.debug_object; len = 2 }))
