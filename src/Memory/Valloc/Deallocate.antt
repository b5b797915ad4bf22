-- ===== src/Memory/Valloc/Deallocate.antt =====
-- What `Valloc::deallocate_pages` does to a well-formed free list, and that it undoes an allocation.
use faastr.Common.{ℕ, ◌+◌, ◌≤◌, ◌<◌, ◌≡◌, sym, subst, some, arith, ◌∙◌, All-get, some_inj}
use faastr.Memory.Blocks.{covers, held, Fits, pages, IsSeparated, held-le-touched}
use faastr.Memory.Merge.Laws.{Gained}
use faastr.Memory.Merge.GiveBack.{give_back_lem}
use faastr.Memory.Takes.{span, Takes}
use faastr.Memory.Valloc.{Valloc, allocate_pages, deallocate_pages}
use faastr.Memory.Valloc.Allocate.{Allocates, allocate_pages_lem}

-- Pages that are given back are in the free list again, and nothing else changes; the list stays
-- well formed, whichever entries the block borders on, and the code does not panic.
pub deallocate_pages_lem :
    (page count : ℕ) (free : Valloc)
    → IsSeparated free
    → Fits (span page count)
    → ((x : ℕ) → held free x + covers x (span page count) ≤ 1)
    → (free' : Valloc) × (deallocate_pages page count free ≡ some free')
      × Gained free (span page count) free'
unfolding deallocate_pages
deallocate_pages_lem page count free = give_back_lem free (span page count)

pub Takes-of :
    (count page : ℕ) (free free' : Valloc)
    → IsSeparated free
    → allocate_pages count free ≡ some (some page, free')
    → Takes count free page free'
Takes-of count page free free' sep e =
    let (r, f, t) = allocate_pages_lem count free sep in
    subst (Allocates count free) (some_inj (sym f ∙ e)) t

-- Giving back at once what an allocation of at least one page took: the free list holds the same
-- addresses and as many pages as before.
deallocate_pages-allocate_pages :
    (count page : ℕ) (free free' : Valloc)
    → IsSeparated free
    → 0 < count
    → allocate_pages count free ≡ some (some page, free')
    → (free2 : Valloc) × (deallocate_pages page count free' ≡ some free2)
      × IsSeparated free2
      × ((x : ℕ) → held free2 x ≡ held free x)
      × (pages free2 ≡ pages free)
deallocate_pages-allocate_pages count page free free' sep some_page e =
    let t = Takes-of count page free free' sep e in
    let fits : Fits (span page count) = record {
      some_page = some_page;
      aligned = omega arith;
      inside = omega (arith, t.at_end, (All-get Fits free t.index sep.fit t.listed).inside);
    } in
    let (free2, f, g) =
      deallocate_pages_lem page count free' t.well fits
        (λ x. omega (arith, t.holds x, held-le-touched free x, sep.apart x)) in
    (free2, f, g.well, λ x. omega (arith, g.holds x, t.holds x), omega (arith, g.counts, t.counts))
