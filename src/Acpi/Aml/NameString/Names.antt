-- ===== src/Acpi/Aml/NameString/Names.antt =====
-- Whole names: a prefix and a path.
use faastr.Common.{
  ℕ, Bool, true, zero, suc, ◌+◌, ◌<◌, ◌&&◌, ◌≡◌, refl, ap, append-nil, List, [], ◌∷◌, ◌++◌, leb,
  length, replicate, length-append, arith,
}
use faastr.Acpi.Aml.{ok, err, AmlError, AmlValue, ExecutionState, Bytes, slice_from, parser_opcode}
use faastr.Acpi.Aml.NameString.{
  is_lead_char, is_name_char, parse_dual_name_path, parse_null_name, parse_name_string,
  parse_multi_name_path, parse_path, carets, prefix, name_of,
}
use faastr.Acpi.Aml.NameString.Written.{NameSeg, chars, write_seg, is_seg, parse_name_seg-write_seg}
use faastr.Acpi.Aml.NameString.Paths.{
  NamePath, write_path, path_chars, is_path, are_segs, write_segs, dotted, parse_dual_name_path_lem,
  length-write_seg, parse_multi_name_path_lem,
}
use faastr.Sos.Bytes.{drop-append}
use faastr.Sos.Utf8.{Expect, from_utf8, is_utf8, is_utf8_from, lead}

refuses :
    (s : NameSeg) (rest : Bytes) (o : ℕ)
    → is_seg s ≡ true
    → o < 0x30
    → parser_opcode (write_seg s ++ rest) o ≡ err AmlError.invalid_op_code
unfolding is_seg is_lead_char is_name_char
refuses (NameSeg.one a) rest o h p = ground arith
refuses (NameSeg.two a b) rest o h p = ground arith
refuses (NameSeg.three a b c) rest o h p = ground arith
refuses (NameSeg.four a b c d) rest o h p = ground arith

parse_path-null : (rest : Bytes) → parse_path (0 ∷ rest) ≡ ok ([], 1)
unfolding parse_path parse_dual_name_path parse_multi_name_path parse_null_name
parse_path-null rest = refl

parse_path-seg :
    (s : NameSeg) (rest : Bytes)
    → is_seg s ≡ true
    → parse_path (write_seg s ++ rest) ≡ ok (chars s, 4)
unfolding parse_path parse_dual_name_path parse_multi_name_path parse_null_name
parse_path-seg s rest h = rw (
  refuses s rest 0x2e h (omega arith),
  refuses s rest 0x2f h (omega arith),
  refuses s rest 0x00 h (omega arith),
  parse_name_seg-write_seg s rest h,
)

parse_path-dual :
    (s t : NameSeg) (rest : Bytes)
    → is_seg s ≡ true
    → is_seg t ≡ true
    → parse_path (write_path (NamePath.dual s t) ++ rest) ≡ ok (path_chars (NamePath.dual s t), 9)
unfolding parse_path
parse_path-dual s t rest hs ht = rw (parse_dual_name_path_lem s t rest hs ht)

dual_refuses : (rest : Bytes) → parse_dual_name_path (0x2f ∷ rest) ≡ err AmlError.invalid_op_code
unfolding parse_dual_name_path
dual_refuses rest = refl

parse_path-multi :
    (s : NameSeg) (more : List NameSeg) (rest : Bytes)
    → is_path (NamePath.multi s more) ≡ true
    → parse_path (write_path (NamePath.multi s more) ++ rest)
      ≡ ok (path_chars (NamePath.multi s more), length (write_path (NamePath.multi s more)))
unfolding parse_path
parse_path-multi s more rest h = rw (
  dual_refuses ((1 + length more) ∷ (write_seg s ++ write_segs more ++ rest)),
  parse_multi_name_path_lem s more rest h,
)

length-alone : (s : NameSeg) → length (write_seg s) ≡ 4
length-alone s = omega (arith, length-write_seg s [], ap length (append-nil (write_seg s)))

parse_path-write_path :
    (p : NamePath) (rest : Bytes)
    → is_path p ≡ true
    → parse_path (write_path p ++ rest) ≡ ok (path_chars p, length (write_path p))
unfolding is_path
parse_path-write_path NamePath.null rest h = parse_path-null rest
parse_path-write_path (NamePath.single s) rest h = rw (length-alone s) (parse_path-seg s rest h)
parse_path-write_path (NamePath.dual s t) rest h =
    let nine : length (write_path (NamePath.dual s t)) ≡ 9 =
      omega (arith, length-write_seg s (write_seg t), length-alone t) in
    rw nine (parse_path-dual s t rest (ground arith) (ground arith))
parse_path-write_path (NamePath.multi s more) rest h = parse_path-multi s more rest h

-- What may stand in front: nothing, the root, or carets, one more than the number says.
pub data NamePrefix : Type 0 where
  here root : NamePrefix
  parents : ℕ → NamePrefix

abbrev pub write_prefix : NamePrefix → Bytes
write_prefix NamePrefix.here = []
write_prefix NamePrefix.root = 0x5c ∷ []
write_prefix (NamePrefix.parents n) = 0x5e ∷ replicate n 0x5e

carets-path :
    (p : NamePath) (rest : Bytes) → is_path p ≡ true → carets (write_path p ++ rest) ≡ ok 0
unfolding carets is_path is_seg is_lead_char
carets-path NamePath.null rest h = refl
carets-path (NamePath.single (NameSeg.one a)) rest h = ground arith
carets-path (NamePath.single (NameSeg.two a b)) rest h = ground arith
carets-path (NamePath.single (NameSeg.three a b c)) rest h = ground arith
carets-path (NamePath.single (NameSeg.four a b c d)) rest h = ground arith
carets-path (NamePath.dual s t) rest h = refl
carets-path (NamePath.multi s more) rest h = refl

carets-replicate :
    (n : ℕ) (p : NamePath) (rest : Bytes)
    → is_path p ≡ true
    → carets (replicate n 0x5e ++ (write_path p ++ rest)) ≡ ok n
unfolding carets
carets-replicate zero p rest h = carets-path p rest h
carets-replicate (suc n) p rest h = rw (carets-replicate n p rest h)

no_prefix : (p : NamePath) (rest : Bytes) → is_path p ≡ true → prefix (write_path p ++ rest) ≡ ok []
unfolding prefix is_path is_seg is_lead_char
no_prefix NamePath.null rest h = refl
no_prefix (NamePath.single (NameSeg.one a)) rest h = ground arith
no_prefix (NamePath.single (NameSeg.two a b)) rest h = ground arith
no_prefix (NamePath.single (NameSeg.three a b c)) rest h = ground arith
no_prefix (NamePath.single (NameSeg.four a b c d)) rest h = ground arith
no_prefix (NamePath.dual s t) rest h = refl
no_prefix (NamePath.multi s more) rest h = refl

prefix_lem :
    (q : NamePrefix) (p : NamePath) (rest : Bytes)
    → is_path p ≡ true
    → prefix (write_prefix q ++ (write_path p ++ rest)) ≡ ok (write_prefix q)
unfolding prefix
prefix_lem NamePrefix.here p rest h = no_prefix p rest h
prefix_lem NamePrefix.root p rest h = refl
prefix_lem (NamePrefix.parents n) p rest h = rw (carets-replicate (suc n) p rest h)

slice_from-append : (xs ys : Bytes) → slice_from (xs ++ ys) (length xs) ≡ ok ys
slice_from-append xs ys = rw (drop-append xs ys) (ground (arith, length-append xs ys))

-- All bytes are below 128.
unfoldable are_ascii : Bytes → Bool
are_ascii [] = true
are_ascii (c ∷ cs) = leb c 0x7f && are_ascii cs

are_ascii-append :
    (xs ys : Bytes) → are_ascii xs ≡ true → are_ascii ys ≡ true → are_ascii (xs ++ ys) ≡ true
unfolding are_ascii
are_ascii-append [] ys p q = q
are_ascii-append (c ∷ cs) ys p q = ground (arith, are_ascii-append cs ys)

is_utf8-ascii : (text : Bytes) → are_ascii text ≡ true → is_utf8_from Expect.first text ≡ true
unfolding are_ascii is_utf8_from lead
is_utf8-ascii [] h = refl
is_utf8-ascii (c ∷ cs) h = ground (arith, is_utf8-ascii cs)

name_of-ascii :
    (text : Bytes) (len : ℕ)
    → are_ascii text ≡ true
    → name_of text len ≡ ok (record { val = AmlValue.string text; len = len })
unfolding name_of from_utf8 is_utf8
name_of-ascii text len h = rw (is_utf8-ascii text h, name_of)

chars-ascii : (s : NameSeg) → is_seg s ≡ true → are_ascii (chars s) ≡ true
unfolding are_ascii is_seg is_lead_char is_name_char
chars-ascii (NameSeg.one a) h = ground arith
chars-ascii (NameSeg.two a b) h = ground arith
chars-ascii (NameSeg.three a b c) h = ground arith
chars-ascii (NameSeg.four a b c d) h = ground arith

dotted-ascii : (segs : List NameSeg) → are_segs segs ≡ true → are_ascii (dotted segs) ≡ true
unfolding are_ascii are_segs
dotted-ascii [] h = refl
dotted-ascii (s ∷ more) h =
    are_ascii-append (chars s) (dotted more) (chars-ascii s (ground arith))
      (dotted-ascii more (ground arith))

path-ascii : (p : NamePath) → is_path p ≡ true → are_ascii (path_chars p) ≡ true
unfolding is_path are_segs are_ascii
path-ascii NamePath.null h = refl
path-ascii (NamePath.single s) h = chars-ascii s h
path-ascii (NamePath.dual s t) h =
    are_ascii-append (chars s) (dotted (t ∷ [])) (chars-ascii s (ground arith))
      (dotted-ascii (t ∷ []) (ground arith))
path-ascii (NamePath.multi s more) h =
    are_ascii-append (chars s) (dotted more) (chars-ascii s (ground arith))
      (dotted-ascii more (ground arith))

prefix-ascii : (q : NamePrefix) → are_ascii (write_prefix q) ≡ true
unfolding are_ascii
prefix-ascii NamePrefix.here = refl
prefix-ascii NamePrefix.root = refl
prefix-ascii (NamePrefix.parents n) = carets-ascii n
  where
    carets-ascii : (n : ℕ) → are_ascii (replicate n 0x5e) ≡ true
    carets-ascii zero = refl
    carets-ascii (suc n) = carets-ascii n

-- Parsing a written name gives its prefix and its segments with dots between them, and the number of
-- bytes that it was written in, whatever follows it.
pub parse_name_string-write :
    (q : NamePrefix) (p : NamePath) (rest : Bytes)
    → is_path p ≡ true
    → parse_name_string (write_prefix q ++ (write_path p ++ rest)) ExecutionState.executing
      ≡ ok (record {
        val = AmlValue.string (write_prefix q ++ path_chars p);
        len = length (write_path p) + length (write_prefix q);
      })
unfolding parse_name_string
parse_name_string-write q p rest h = rw (
  prefix_lem q p rest h,
  slice_from-append (write_prefix q) (write_path p ++ rest),
  parse_path-write_path p rest h,
  name_of-ascii (write_prefix q ++ path_chars p) (length (write_path p) + length (write_prefix q))
      (are_ascii-append (write_prefix q) (path_chars p) (prefix-ascii q) (path-ascii p h)),
)
