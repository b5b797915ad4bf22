-- ===== src/Memory/Recycle/Fit.antt =====
-- The search of `RecycleAllocator::allocate_frames` finds a block of the least sufficient size.
use faastr.Common.{
  ℕ, suc, ◌+◌, ◌≤◌, ◌<◌, ◌≡◌, sym, ap, ◌∙◌, List, [], ◌∷◌, Option, none, some, arith, leb,
  if◌then◌else◌, get_elem?, All,
}
use faastr.Memory.Blocks.{Block}
use faastr.Memory.Takes.{Least}
use faastr.Memory.Recycle.{find_small, smaller}

-- what the variables hold between two rounds, over the whole list
abbrev pub Holds : ℕ → List Block → Option (ℕ × Block) → Type 0
Holds count free none = Unit
Holds count free (some (j, b)) = (get_elem? free j ≡ some b) × (count ≤ b.count)

abbrev pub AtMost : ℕ → Option (ℕ × Block) → Type 0
AtMost n none = Unit
AtMost n (some (j, b)) = n ≤ b.count

abbrev next : ℕ → ℕ → Block → Option (ℕ × Block) → Option (ℕ × Block)
next count i c small = if leb count c.count then smaller i c small else small

next-Holds :
    (count i : ℕ) (c : Block) (small : Option (ℕ × Block)) (free : List Block)
    → get_elem? free i ≡ some c
    → Holds count free small
    → Holds count free (next count i c small)
next-Holds count i c none free e h = ground arith
next-Holds count i c (some (j, b)) free e h = ground arith

next-AtMost :
    (count n i : ℕ) (c : Block) (small : Option (ℕ × Block))
    → AtMost n (next count i c small)
    → (count ≤ c.count → n ≤ c.count) × AtMost n small
next-AtMost count n i c none h = ground arith
next-AtMost count n i c (some (j, b)) h = ground arith

next-none :
    (count i : ℕ) (c : Block) (small : Option (ℕ × Block))
    → next count i c small ≡ none
    → (c.count < count) × (small ≡ none)
next-none count i c none e = ground arith
next-none count i c (some (j, b)) e = absurd (ground arith)

pub find_small-Holds :
    (count i : ℕ) (rest free : List Block) (small : Option (ℕ × Block))
    → ((k : ℕ) → get_elem? rest k ≡ get_elem? free (i + k))
    → Holds count free small
    → Holds count free (find_small count i rest small)
unfolding find_small
find_small-Holds count i [] free small at h = h
find_small-Holds count i (c ∷ rest) free small at h =
    find_small-Holds count (suc i) rest free (next count i c small)
      (λ k. at (suc k) ∙ ap (get_elem? free) (omega arith))
      (next-Holds count i c small free (sym (at 0 ∙ ap (get_elem? free) (omega arith))) h)

pub find_small-Least :
    (count n i : ℕ) (rest : List Block) (small : Option (ℕ × Block))
    → AtMost n (find_small count i rest small)
    → Least count n rest × AtMost n small
unfolding find_small
find_small-Least count n i [] small h = (tt, h)
find_small-Least count n i (c ∷ rest) small h =
    let (later, held) = find_small-Least count n (suc i) rest (next count i c small) h in
    let (now, before) = next-AtMost count n i c small held in ((now, later), before)

pub find_small-none :
    (count i : ℕ) (rest : List Block) (small : Option (ℕ × Block))
    → find_small count i rest small ≡ none
    → All (λ c. c.count < count) rest × (small ≡ none)
unfolding find_small
find_small-none count i [] small e = (tt, e)
find_small-none count i (c ∷ rest) small e =
    let (later, held) = find_small-none count (suc i) rest (next count i c small) e in
    let (now, before) = next-none count i c small held in ((now, later), before)
