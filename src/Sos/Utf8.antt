-- ===== src/Sos/Utf8.antt =====
-- `core::str::from_utf8`: the bytes of a text, if they are well-formed UTF-8.
use faastr.Common.{ℕ, Bool, true, false, ◌&&◌, [], ◌∷◌, Option, none, some, leb, if◌then◌else◌}
use faastr.Sos.Bytes.{Bytes}

-- What the next byte may be: the first of a character, or one of its continuation bytes, of which
-- the one at hand lies in a range and so many more follow.
pub data Expect : Type 0 where
  first : Expect
  within : ℕ → ℕ → Expect → Expect

abbrev rest : Expect → Expect
rest = within 0x80 0xbf

abbrev between : ℕ → ℕ → ℕ → Bool
between lo hi c = leb lo c && leb c hi

-- the table of well-formed byte sequences; `none` at a byte that starts no character
unfoldable pub lead : ℕ → Option Expect
lead c =
    if leb c 0x7f
    then some first
    else if between 0xc2 0xdf c
    then some (rest first)
    else if between 0xe0 0xe0 c
    then some (within 0xa0 0xbf (rest first))
    else if between 0xed 0xed c
    then some (within 0x80 0x9f (rest first))
    else if between 0xe1 0xef c
    then some (rest (rest first))
    else if between 0xf0 0xf0 c
    then some (within 0x90 0xbf (rest (rest first)))
    else if between 0xf1 0xf3 c
    then some (rest (rest (rest first)))
    else if between 0xf4 0xf4 c
    then some (within 0x80 0x8f (rest (rest first)))
    else none

unfoldable pub is_utf8_from : Expect → Bytes → Bool
is_utf8_from first [] = true
is_utf8_from (within lo hi e) [] = false
is_utf8_from first (c ∷ cs) = elim (lead c) [ none ↦ false | some e ↦ is_utf8_from e cs ]
is_utf8_from (within lo hi e) (c ∷ cs) = between lo hi c && is_utf8_from e cs

unfoldable pub is_utf8 : Bytes → Bool
is_utf8 = is_utf8_from first

unfoldable pub from_utf8 : Bytes → Option Bytes
from_utf8 bytes = if is_utf8 bytes then some bytes else none
