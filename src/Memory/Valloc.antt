-- ===== src/Memory/Valloc.antt =====
-- `Valloc` of kernel/src/memory/valloc.rs: virtual pages from a free list of blocks.
pub mod Fit
pub mod Allocate
pub mod Deallocate
use faastr.Common.{
  ℕ, zero, suc, ◌+◌, ◌-◌, ◌*◌, ◌/◌, List, [], ◌∷◌, ◌++◌, Option, none, some, Bool, true, false, ltb,
  ◌==◌, if◌then◌else◌, length, get_elem?, set,
}
use faastr.Common.Usize.{add_usize, mul_usize}
use faastr.Memory.Blocks.{Block, containing_address, start_address}
use faastr.Memory.Merge.{give_back}

-- The `free` field is the whole state.
abbrev pub Valloc : Type 0
Valloc = List Block

pub new : ℕ → ℕ → Valloc
new start size = record { address = start; count = size / 4096 } ∷ []

-- `free_count`; the sum wraps
pub free_count : Valloc → ℕ
free_count [] = 0
free_count (free ∷ rest) = add_usize free.count (free_count rest)

-- The loop of `allocate_pages` from index `i` on, with `best_fit` and `best_fit_index`. The first
-- block that is large enough counts as the best so far; a smaller one replaces it, and an exact
-- one ends the loop.
abbrev better : ℕ → Block → Option (ℕ × Block) → ℕ × Block
better i block none = (i, block)
better i block (some (j, best)) = if ltb block.count best.count then (i, block) else (j, best)

unfoldable pub scan : ℕ → ℕ → List Block → Option (ℕ × Block) → Option (ℕ × Block)
scan count i [] best = best
scan count i (block ∷ rest) best =
    let found = better i block best in
    let skip = scan count (suc i) rest best in
    let more = scan count (suc i) rest (some found) in
    if ltb block.count count then skip else if found.1.count == count then some found else more

-- `Vec::swap_remove`: the last element takes the place of the one at `i`; `none` is its panic.
abbrev pub init_last : Block → List Block → List Block × Block
init_last x [] = ([], x)
init_last x (y ∷ ys) = let (front, last) = init_last y ys in (x ∷ front, last)

unfoldable pub swap_remove : List Block → ℕ → Option (List Block)
swap_remove [] i = none
swap_remove (x ∷ xs) i =
    let (front, last) = init_last x xs in
    if ltb i (length (x ∷ xs)) then some (set front i last) else none

-- The page's number with the new state; the outer `none` is a panic.
unfoldable pub allocate_pages : ℕ → Valloc → Option (Option ℕ × Valloc)
allocate_pages count free = elim (scan count 0 free none) [
  | none ↦ some (none, free)
  | some (i, best) ↦
      let left = best.count - count in
      let pushed =
        if ltb count best.count
        then free ++ record { address = best.address; count = left } ∷ []
        else free in
      elim (swap_remove pushed i) [
        | none ↦ none
        | some free' ↦
            some (some (containing_address (add_usize best.address (mul_usize left 4096))), free')
      ]
]

pub deallocate_pages : ℕ → ℕ → Valloc → Option Valloc
deallocate_pages page count free = give_back free (start_address page) count
