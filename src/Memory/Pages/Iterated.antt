-- ===== src/Memory/Pages/Iterated.antt =====
-- Which pages the iterators yield.
use faastr.Common.{
  ℕ, zero, suc, ◌+◌, ◌*◌, ◌^◌, ◌≤◌, ◌<◌, ◌≡◌, refl, ap, subst, some_inj, ◌∙◌, List, [], ◌∷◌, Option,
  none, some, arith, All,
}
use faastr.Memory.Blocks.{IsSeparated, covers, held, held-le-touched}
use faastr.Memory.Takes.{span, Takes}
use faastr.Memory.Valloc.{Valloc, allocate_pages}
use faastr.Memory.Valloc.Deallocate.{Takes-of}
use faastr.Memory.Pages.{
  range_inclusive, next, prepend, gather, collect, VallocPages, iter, as_pages,
  allocate_unmapped_pages,
}

abbrev pub from : ℕ → ℕ → List ℕ
from start zero = []
from start (suc n) = start ∷ from (suc start) n

next_lem :
    (start end : ℕ)
    → start ≤ end
    → suc end < 2 ^ 64
    → next (range_inclusive start end) ≡ some (start, range_inclusive (suc start) end)
unfolding next
next_lem start end le small = ground arith

pub collect_lem :
    (n fuel start : ℕ) {end : ℕ}
    → start + n ≡ suc end
    → suc end < 2 ^ 64
    → n < fuel
    → collect fuel (range_inclusive start end) ≡ some (from start n)
unfolding collect next
collect_lem n zero start p q h = absurd (omega arith)
collect_lem zero (suc fuel) start p q h = ground arith
collect_lem (suc n) (suc fuel) start {end} p q h =
    ap (gather (collect fuel)) (next_lem start end (omega (arith, p)) (omega (arith, q)))
    ∙ ap (prepend start) (collect_lem n fuel (suc start) (omega (arith, p)) q (omega (arith, h)))

-- Iterating over allocated pages yields each of them once, in their order, and ends.
pub iter_lem :
    (pages : VallocPages)
    → 0 < pages.count
    → (pages.start + pages.count) * 4096 < 2 ^ 64
    → collect (suc pages.count) (iter pages) ≡ some (from pages.start pages.count)
iter_lem pages p q =
    collect_lem pages.count (suc pages.count) pages.start (omega arith) (omega arith) (omega arith)

none_ne : {A : Type 0} {a : A} → none ≡ some a → ⊥
none_ne e = cc

covers_inside :
    (page count s : ℕ)
    → page ≤ s
    → s < page + count
    → page * 4096 < 2 ^ 64
    → covers (s * 4096) (span page count) ≡ 1
unfolding covers
covers_inside page count s lo hi small = ground arith

all_taken :
    (count start : ℕ) (valloc v : Valloc)
    → IsSeparated valloc
    → Takes count valloc start v
    → (n s : ℕ) → start ≤ s
    → s + n ≤ start + count
    → All (λ page. (held valloc (page * 4096) ≡ 1) × (held v (page * 4096) ≡ 0)) (from s n)
all_taken count start valloc v sep t zero s lo hi = tt
all_taken count start valloc v sep t (suc n) s lo hi = (
  omega (
    arith,
    t.holds (s * 4096),
    held-le-touched valloc (s * 4096),
    sep.apart (s * 4096),
    covers_inside start count s lo (omega arith) (omega (arith, t.small)),
  ),
  all_taken count start valloc v sep t n (suc s) (omega arith) (omega arith),
)

-- Every page of an allocation was free before and is not free afterwards.
pub allocate_unmapped_pages_lem :
    (count : ℕ) (valloc valloc' : Valloc) (pages : VallocPages)
    → IsSeparated valloc
    → allocate_unmapped_pages count valloc ≡ some (some pages, valloc')
    → All
        (λ page. (held valloc (page * 4096) ≡ 1) × (held valloc' (page * 4096) ≡ 0))
        (from pages.start pages.count)
unfolding allocate_unmapped_pages
allocate_unmapped_pages_lem count valloc valloc' pages sep e =
    go (allocate_pages count valloc) refl e
  where
    go :
        (r : Option (Option ℕ × Valloc))
        → allocate_pages count valloc ≡ r
        → as_pages count r ≡ some (some pages, valloc')
        → All
            (λ page. (held valloc (page * 4096) ≡ 1) × (held valloc' (page * 4096) ≡ 0))
            (from pages.start pages.count)
    go none a f = absurd (none_ne f)
    go (some (none, v)) a f = absurd (none_ne (ap (λ r. r.0) (some_inj f)))
    go (some (some start, v)) a f =
        let same = some_inj (ap (λ r. r.0) (some_inj f)) in
        let left : v ≡ valloc' = ap (λ r. r.1) (some_inj f) in
        let t = Takes-of count start valloc v sep a in
        subst
          (λ p.
            All (λ page. (held valloc (page * 4096) ≡ 1) × (held valloc' (page * 4096) ≡ 0))
              (from p.start p.count))
          same
          (subst
            (λ z.
              All (λ page. (held valloc (page * 4096) ≡ 1) × (held z (page * 4096) ≡ 0))
                (from start count))
            left (all_taken count start valloc v sep t count start (omega arith) (omega arith)))
