-- ===== src/Memory/Pages.antt =====
-- Pages and frames, their iterators and `VallocPages`, of kernel/src/memory/mod.rs and
-- kernel/src/arch/x86_64/paging/mod.rs. A page or a frame is its number.
pub mod Iterated
use faastr.Common.{
  ℕ, zero, suc, ◌+◌, ◌-◌, ◌*◌, ◌/◌, ◌%◌, ◌^◌, List, [], ◌∷◌, Option, none, some, leb, if◌then◌else◌,
}
use faastr.Common.Usize.{add_usize, sub_usize, mul_usize}
use faastr.Memory.Blocks.{containing_address, start_address}
use faastr.Memory.Valloc
use faastr.Memory.Valloc.{Valloc}

-- the nine bits of each level of the page tables
abbrev pub p4_index : ℕ → ℕ
p4_index number = number / 2 ^ 27 % 512

abbrev pub p3_index : ℕ → ℕ
p3_index number = number / 2 ^ 18 % 512

abbrev pub p2_index : ℕ → ℕ
p2_index number = number / 2 ^ 9 % 512

abbrev pub p1_index : ℕ → ℕ
p1_index number = number % 512

-- `PageIter` and `FrameIter`
pub record PageIter : Type 0 where
  pub start : ℕ
  pub end : ℕ

abbrev pub range_inclusive : ℕ → ℕ → PageIter
range_inclusive start end = record { start = start; end = end }

pub next : PageIter → Option (ℕ × PageIter)
next it =
    if leb it.start it.end
    then some (it.start, record it { start = add_usize it.start 1 })
    else none

abbrev pub prepend : ℕ → Option (List ℕ) → Option (List ℕ)
prepend page none = none
prepend page (some pages) = some (page ∷ pages)

abbrev pub gather : (PageIter → Option (List ℕ)) → Option (ℕ × PageIter) → Option (List ℕ)
gather more none = some []
gather more (some (page, it)) = prepend page (more it)

-- A loop over an iterator, on fuel: what it yields, or `none` where the fuel is not enough.
pub collect : ℕ → PageIter → Option (List ℕ)
collect zero it = none
collect (suc fuel) it = gather (collect fuel) (next it)

pub record VallocPages : Type 0 where
  pub start : ℕ
  pub count : ℕ

abbrev pub iter : VallocPages → PageIter
iter pages = range_inclusive pages.start (
    containing_address
      (sub_usize (add_usize (start_address pages.start) (mul_usize pages.count 4096)) 1))

-- The inner `none` is that there is no room; the outer one is a panic.
abbrev pub as_pages : ℕ → Option (Option ℕ × Valloc) → Option (Option VallocPages × Valloc)
as_pages count none = none
as_pages count (some (none, valloc)) = some (none, valloc)
as_pages count (some (some start, valloc)) =
    some (some (record { start = start; count = count }), valloc)

unfoldable pub allocate_unmapped_pages : ℕ → Valloc → Option (Option VallocPages × Valloc)
allocate_unmapped_pages count valloc = as_pages count (Valloc.allocate_pages count valloc)

-- `VallocPages::drop`
abbrev pub drop_pages : VallocPages → Valloc → Option Valloc
drop_pages pages valloc = Valloc.deallocate_pages pages.start pages.count valloc
