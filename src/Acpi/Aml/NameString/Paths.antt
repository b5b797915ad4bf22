-- ===== src/Acpi/Aml/NameString/Paths.antt =====
-- Paths of several segments, and whole names.
use faastr.Common.{
  ℕ, Bool, true, zero, suc, ◌+◌, ◌-◌, ◌*◌, ◌&&◌, ◌≡◌, refl, sym, ap, append-nil, append_assoc,
  subst, ◌∙◌, List, [], ◌∷◌, ◌++◌, leb, length, take, drop, length-append, arith,
}
use faastr.Sos.Bytes.{take-append}
use faastr.Acpi.Aml.{ok, Bytes, slice, slice_from}
use faastr.Acpi.Aml.NameString.{
  parse_name_seg, parse_dual_name_path, parse_multi_name_path, multi_name, parse_segs,
}
use faastr.Acpi.Aml.NameString.Written.{NameSeg, chars, write_seg, is_seg, parse_name_seg-write_seg}

-- What follows a prefix: nothing, or segments, of which there is a shorter form for two.
pub data NamePath : Type 0 where
  null : NamePath
  single : NameSeg → NamePath
  dual : NameSeg → NameSeg → NamePath
  multi : NameSeg → List NameSeg → NamePath

abbrev pub write_segs : List NameSeg → Bytes
write_segs [] = []
write_segs (s ∷ more) = write_seg s ++ write_segs more

abbrev pub write_path : NamePath → Bytes
write_path NamePath.null = 0 ∷ []
write_path (NamePath.single s) = write_seg s
write_path (NamePath.dual s t) = 0x2e ∷ (write_seg s ++ write_seg t)
write_path (NamePath.multi s more) = 0x2f ∷ (1 + length more) ∷ (write_seg s ++ write_segs more)

-- the segments behind the first, each behind a dot
abbrev pub dotted : List NameSeg → Bytes
dotted [] = []
dotted (s ∷ more) = 0x2e ∷ (chars s ++ dotted more)

abbrev pub path_chars : NamePath → Bytes
path_chars NamePath.null = []
path_chars (NamePath.single s) = chars s
path_chars (NamePath.dual s t) = chars s ++ dotted (t ∷ [])
path_chars (NamePath.multi s more) = chars s ++ dotted more

unfoldable pub are_segs : List NameSeg → Bool
are_segs [] = true
are_segs (s ∷ more) = is_seg s && are_segs more

-- The number of segments is written in one byte.
unfoldable pub is_path : NamePath → Bool
is_path NamePath.null = true
is_path (NamePath.single s) = is_seg s
is_path (NamePath.dual s t) = is_seg s && is_seg t
is_path (NamePath.multi s more) = is_seg s && are_segs more && leb (length more) 254

take-write_seg : (s : NameSeg) (rest : Bytes) → take 4 (write_seg s ++ rest) ≡ write_seg s
take-write_seg (NameSeg.one a) rest = refl
take-write_seg (NameSeg.two a b) rest = refl
take-write_seg (NameSeg.three a b c) rest = refl
take-write_seg (NameSeg.four a b c d) rest = refl

pub length-write_seg : (s : NameSeg) (rest : Bytes) → length (write_seg s ++ rest) ≡ 4 + length rest
length-write_seg (NameSeg.one a) rest = omega arith
length-write_seg (NameSeg.two a b) rest = omega arith
length-write_seg (NameSeg.three a b c) rest = omega arith
length-write_seg (NameSeg.four a b c d) rest = omega arith

drop-write_seg : (s : NameSeg) (rest : Bytes) → drop 4 (write_seg s ++ rest) ≡ rest
drop-write_seg (NameSeg.one a) rest = refl
drop-write_seg (NameSeg.two a b) rest = refl
drop-write_seg (NameSeg.three a b c) rest = refl
drop-write_seg (NameSeg.four a b c d) rest = refl

slice-write_seg :
    (s : NameSeg) (c : ℕ) (rest : Bytes) → slice (c ∷ (write_seg s ++ rest)) 1 5 ≡ ok (write_seg s)
slice-write_seg s c rest = ground (arith, length-write_seg s rest, take-write_seg s rest)

slice-write_two :
    (s t : NameSeg) (c : ℕ) (rest : Bytes)
    → slice (c ∷ (write_seg s ++ (write_seg t ++ rest))) 5 9 ≡ ok (write_seg t)
slice-write_two s t c rest =
    rw
      (
        drop-write_seg s (write_seg t ++ rest),
        take-write_seg t rest,
        length-write_seg s (write_seg t ++ rest),
        length-write_seg t rest,
      )
      (ground arith)

parse_name_seg-alone :
    (s : NameSeg) → is_seg s ≡ true → parse_name_seg (write_seg s) ≡ ok (chars s, 4)
parse_name_seg-alone s h =
    ap parse_name_seg (sym (append-nil (write_seg s))) ∙ parse_name_seg-write_seg s [] h

pub parse_dual_name_path_lem :
    (s t : NameSeg) (rest : Bytes)
    → is_seg s ≡ true
    → is_seg t ≡ true
    → parse_dual_name_path (write_path (NamePath.dual s t) ++ rest)
      ≡ ok (path_chars (NamePath.dual s t), 9)
unfolding parse_dual_name_path
parse_dual_name_path_lem s t rest hs ht = rw (
  append_assoc (write_seg s) (write_seg t) rest,
  slice-write_seg s 0x2e (write_seg t ++ rest),
  slice-write_two s t 0x2e rest,
  parse_name_seg-alone s hs,
  parse_name_seg-alone t ht,
  append-nil (chars t),
)

slice_from-cons : (c : ℕ) (cs : Bytes) (i : ℕ) → slice_from (c ∷ cs) (suc i) ≡ slice_from cs i
slice_from-cons c cs i = ground arith

slice_from-suc :
    (text : Bytes) (i x : ℕ) (behind : Bytes)
    → slice_from text i ≡ ok (x ∷ behind)
    → slice_from text (suc i) ≡ ok behind
slice_from-suc [] zero x behind h = ground arith
slice_from-suc [] (suc i) x behind h = ground arith
slice_from-suc (c ∷ cs) zero x behind h = ground arith
slice_from-suc (c ∷ cs) (suc i) x behind h =
    slice_from-cons c cs (suc i) ∙ slice_from-suc cs i x behind (sym (slice_from-cons c cs i) ∙ h)

slice_from-seg :
    (s : NameSeg) (text : Bytes) (i : ℕ) (behind : Bytes)
    → slice_from text i ≡ ok (write_seg s ++ behind)
    → slice_from text (4 + i) ≡ ok behind
slice_from-seg s text i behind h =
    let four : 4 + i ≡ suc (suc (suc (suc i))) = omega arith in rw four (behind_seg s h)
  where
    behind_four :
        (a b c d : ℕ)
        → slice_from text i ≡ ok (a ∷ b ∷ c ∷ d ∷ behind)
        → slice_from text (suc (suc (suc (suc i)))) ≡ ok behind
    behind_four a b c d e = slice_from-suc text (suc (suc (suc i))) d behind (
        slice_from-suc text (suc (suc i)) c (d ∷ behind) (
          slice_from-suc text (suc i) b (c ∷ d ∷ behind)
            (slice_from-suc text i a (b ∷ c ∷ d ∷ behind) e)))

    behind_seg :
        (s : NameSeg)
        → slice_from text i ≡ ok (write_seg s ++ behind)
        → slice_from text (suc (suc (suc (suc i)))) ≡ ok behind
    behind_seg (NameSeg.one a) e = behind_four a 0x5f 0x5f 0x5f e
    behind_seg (NameSeg.two a b) e = behind_four a b 0x5f 0x5f e
    behind_seg (NameSeg.three a b c) e = behind_four a b c 0x5f e
    behind_seg (NameSeg.four a b c d) e = behind_four a b c d e

-- what the loop over the segments collects: a dot behind each
abbrev trailing : List NameSeg → Bytes
trailing [] = []
trailing (s ∷ more) = chars s ++ (0x2e ∷ trailing more)

trailing_lem :
    (s : NameSeg) (more : List NameSeg)
    → trailing (s ∷ more) ≡ (chars s ++ dotted more) ++ (0x2e ∷ [])
trailing_lem s [] = rw (append-nil (chars s))
trailing_lem s (t ∷ more) =
    rw (trailing_lem t more, append_assoc (chars s) (0x2e ∷ (chars t ++ dotted more)) (0x2e ∷ []))

take-but_last : (xs : Bytes) (c : ℕ) → take (length (xs ++ (c ∷ [])) - 1) (xs ++ (c ∷ [])) ≡ xs
take-but_last xs c =
    let shorter : length (xs ++ (c ∷ [])) - 1 ≡ length xs =
      omega (arith, length-append xs (c ∷ [])) in
    rw shorter (take-append xs (c ∷ []))

parse_segs_lem :
    (segs : List NameSeg) (current : ℕ) (text rest : Bytes)
    → are_segs segs ≡ true
    → slice_from text (current * 4 + 2) ≡ ok (write_segs segs ++ rest)
    → parse_segs (length segs) current text ≡ ok (trailing segs, length segs * 4)
unfolding are_segs parse_segs
parse_segs_lem [] current text rest hs h = refl
parse_segs_lem (s ∷ more) current text rest hs h =
    let behind : slice_from text ((current + 1) * 4 + 2) ≡ ok (write_segs more ++ rest) =
      subst (λ i. slice_from text i ≡ ok (write_segs more ++ rest)) (omega arith)
        (slice_from-seg s text (current * 4 + 2) (write_segs more ++ rest) here) in
    rw
      (
        here,
        parse_name_seg-write_seg s (write_segs more ++ rest) (ground arith),
        parse_segs_lem more (current + 1) text rest (ground arith) behind,
      )
      (ground arith)
  where
    here : slice_from text (current * 4 + 2) ≡ ok (write_seg s ++ (write_segs more ++ rest))
    here = h ∙ ap ok (append_assoc (write_seg s) (write_segs more) rest)

length-write_segs : (segs : List NameSeg) → length (write_segs segs) ≡ length segs * 4
length-write_segs [] = refl
length-write_segs (s ∷ more) =
    omega (arith, length-write_seg s (write_segs more), length-write_segs more)

pub parse_multi_name_path_lem :
    (s : NameSeg) (more : List NameSeg) (rest : Bytes)
    → is_path (NamePath.multi s more) ≡ true
    → parse_multi_name_path (write_path (NamePath.multi s more) ++ rest)
      ≡ ok (path_chars (NamePath.multi s more), length (write_path (NamePath.multi s more)))
unfolding is_path are_segs parse_multi_name_path multi_name
parse_multi_name_path_lem s more rest h =
    let one_more : 1 + length more ≡ suc (length more) = omega arith in
    let text : Bytes = 0x2f ∷ suc (length more) ∷ (write_seg s ++ write_segs more ++ rest) in
    let segs : parse_segs (suc (length more)) 0 text
        ≡ ok (trailing (s ∷ more), suc (length more) * 4) =
      parse_segs_lem (s ∷ more) 0 text rest (ground arith) (ground arith) in
    rw (one_more, segs, trailing_lem s more, take-but_last (chars s ++ dotted more) 0x2e)
      (ground (arith, length-write_seg s (write_segs more), length-write_segs more))
