-- ===== src/Acpi/Aml/NameString/Written.antt =====
-- Names as the ACPI specification writes them, and what the parser makes of them.
use faastr.Common.{ℕ, Bool, true, ◌&&◌, not, ◌≡◌, [], ◌∷◌, ◌++◌, ◌==◌, arith}
use faastr.Acpi.Aml.{ok, Bytes}
use faastr.Acpi.Aml.NameString.{is_lead_char, is_name_char, pop_underscores, parse_name_seg}

-- A segment: one to four characters.
pub data NameSeg : Type 0 where
  one : ℕ → NameSeg
  two : ℕ → ℕ → NameSeg
  three : ℕ → ℕ → ℕ → NameSeg
  four : ℕ → ℕ → ℕ → ℕ → NameSeg

abbrev pub chars : NameSeg → Bytes
chars (NameSeg.one a) = a ∷ []
chars (NameSeg.two a b) = a ∷ b ∷ []
chars (NameSeg.three a b c) = a ∷ b ∷ c ∷ []
chars (NameSeg.four a b c d) = a ∷ b ∷ c ∷ d ∷ []

-- The segment in its four bytes: filled with underscores.
abbrev pub write_seg : NameSeg → Bytes
write_seg (NameSeg.one a) = a ∷ 0x5f ∷ 0x5f ∷ 0x5f ∷ []
write_seg (NameSeg.two a b) = a ∷ b ∷ 0x5f ∷ 0x5f ∷ []
write_seg (NameSeg.three a b c) = a ∷ b ∷ c ∷ 0x5f ∷ []
write_seg (NameSeg.four a b c d) = a ∷ b ∷ c ∷ d ∷ []

-- The first character is a letter or an underscore, the others may be digits too, and the last is
-- not an underscore.
unfoldable pub is_seg : NameSeg → Bool
is_seg (NameSeg.one a) = is_lead_char a && not (a == 0x5f)
is_seg (NameSeg.two a b) = is_lead_char a && is_name_char b && not (b == 0x5f)
is_seg (NameSeg.three a b c) = is_lead_char a && is_name_char b && is_name_char c && not (c == 0x5f)
is_seg (NameSeg.four a b c d) =
    is_lead_char a && is_name_char b && is_name_char c && is_name_char d && not (d == 0x5f)

pub parse_name_seg-write_seg :
    (s : NameSeg) (rest : Bytes)
    → is_seg s ≡ true
    → parse_name_seg (write_seg s ++ rest) ≡ ok (chars s, 4)
unfolding is_seg is_lead_char is_name_char parse_name_seg pop_underscores
parse_name_seg-write_seg (NameSeg.one a) rest h = ground arith
parse_name_seg-write_seg (NameSeg.two a b) rest h = ground arith
parse_name_seg-write_seg (NameSeg.three a b c) rest h = ground arith
parse_name_seg-write_seg (NameSeg.four a b c d) rest h = ground arith
