-- ===== src/Syscall/Tests.antt =====
-- Runs of the check of addresses.
use faastr.Common.{
  ℕ, ◌+◌, ◌≡◌, ◌-◌, ◌%◌, arith, ◌↔◌, ◌≤◌, ◌<◌, ◌^◌, refl, Bool, true, false, Option, none, some,
  leb, if◌then◌else◌,
}
use faastr.Syscall.Error.{ok, mux, demux}
use faastr.Syscall.Error.Demux.{demux-mux_iff}
use faastr.Syscall.Validate.{walk, validate}
use faastr.Syscall.Validate.Mapped.{Allowed, validate_iff}

-- pages below 8 are mapped, with the flags 5, or 7 below 4
abbrev flags_of : ℕ → Option ℕ
flags_of page = if leb 8 page then none else if leb 4 page then some 5 else some 7

abbrev at_least : ℕ → ℕ → Bool
at_least page_flags flags = leb flags page_flags

validate_test : validate at_least flags_of 16380 8 7 ≡ false
unfolding validate walk
validate_test = refl

validate_iff_example :
    (validate at_least flags_of 12000 5000 5 ≡ true)
    ↔ ((0 < 5000) × (12000 + 5000 ≤ 2 ^ 64) × Allowed at_least flags_of 5 12000 5000)
validate_iff_example = validate_iff at_least flags_of 12000 5000 5

demux-mux_iff_example :
    (demux (mux (ok 5000000000)) ≡ ok 5000000000) ↔ (5000000000 % 2 ^ 32 ≤ 2 ^ 32 - 132)
demux-mux_iff_example = demux-mux_iff 5000000000 (omega arith)
