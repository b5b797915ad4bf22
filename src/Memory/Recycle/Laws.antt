-- ===== src/Memory/Recycle/Laws.antt =====
-- What `RecycleAllocator` promises, over any allocator underneath.
use faastr.Common.{
  ℕ, ◌+◌, ◌-◌, ◌≤◌, ◌<◌, ◌≡◌, ◌⊎◌, inl, inr, refl, sym, ap, subst, ◌∙◌, List, Option, none, some,
  arith, ◌==◌, if◌then◌else◌, get_elem?, set, index-lt, get_elem?-set_self, All, All-get, All-set,
  All-remove, remove-total, remove-set, sum_by, sum_by-set, sum_by-remove, Bool-cases, Option-cases,
}
use faastr.Common.Usize.{add_usize, mul_usize, sub_usize}
use faastr.Memory.Blocks.{
  Block, end_of, covers, touches, Fits, IsSeparated, start_address, containing_address,
}
use faastr.Memory.Takes.{span, Least, Takes, covers_split, touches-low, covers_empty}
use faastr.Memory.FrameAllocator.{FrameAllocator}
use faastr.Memory.Recycle.{RecycleAllocator, find_small, shrink, allocate_frames}
use faastr.Memory.Recycle.Fit.{find_small-Holds, find_small-Least, find_small-none, Holds, AtMost}

module _ (count : ℕ) (free : List Block) (sep : IsSeparated free) (i : ℕ) (block : Block)
    (at : get_elem? free i ≡ some block) (fits : count ≤ block.count) where
  abbrev left : ℕ
  left = sub_usize block.count count

  abbrev low : Block
  low = record { address = block.address; count = left }

  abbrev page : ℕ
  page = containing_address (add_usize block.address (mul_usize left 4096))

  block-Fits : Fits block
  block-Fits = All-get Fits free i sep.fit at

  left_lem : left ≡ block.count - count
  left_lem = omega (arith, block-Fits)

  page_lem : start_address page ≡ end_of low
  page_lem = omega (arith, block-Fits)

  -- the list after the write and the removal
  record Shrunk (free' : List Block) : Type 1 where
    sums :
        (f : Block → ℕ)
        → sum_by f free' + f block ≡ sum_by f free + (if left == 0 then 0 else f low)
    fit : All Fits free'

  written-at : get_elem? (set free i low) i ≡ some low
  written-at = get_elem?-set_self free i low (index-lt free i at)

  shrink-total : (free' : List Block) × (shrink free i block left ≡ some free') × Shrunk free'
  unfolding shrink
  shrink-total = elim (Bool-cases (left == 0)) [
    | inl empty ↦
        let (free', gone) = remove-total free i at in
        (
          free',
          rw empty (remove-set free i low ∙ gone),
          record {
            sums = λ f. rw empty (sum_by-remove f free i at gone ∙ omega arith);
            fit = All-remove Fits free i sep.fit gone;
          },
        )
    | inr some_left ↦ (
      set free i low,
      rw some_left,
      record {
        sums = λ f. rw some_left (sum_by-set f free i low at);
        fit = All-set Fits free i low sep.fit (ground (arith, block-Fits));
      },
    )
  ]

  module _ (free' : List Block) (w : Shrunk free') (least : Least count block.count free) where
    shrunk-Takes : Takes count free page free'
    shrunk-Takes = record {
      well = record {
        fit = w.fit;
        apart = λ x. ground (
          arith,
          w.sums (touches x),
          sep.apart x,
          touches-low x block low refl (omega (arith, left_lem)),
        );
      };
      small = omega arith;
      holds = λ x. ground (
        arith,
        w.sums (covers x),
        covers_empty x low,
        covers_split x block low (span page count) refl page_lem (omega (arith, left_lem)),
      );
      counts = ground (arith, w.sums (λ b. b.count), left_lem);
      block = block;
      index = i;
      listed = at;
      at_end = omega (arith, page_lem, left_lem);
      least = least;
    }

module _ {S : Type 0} (under : FrameAllocator S) (count : ℕ) (a : RecycleAllocator S) where
  -- the free list serves the request
  pub record Reuses (page : ℕ) (a' : RecycleAllocator S) : Type 0 where
    pub takes : Takes count a.free page a'.free
    pub same_inner : a'.inner ≡ a.inner
    pub same_noncore : a'.noncore ≡ a.noncore

  -- the wrapped allocator serves the request, and the list stays
  abbrev pub Delegates : Option (Option ℕ × RecycleAllocator S) → Type 0
  Delegates r =
      All (λ c. c.count < count) a.free
      × (r ≡ elim (under.allocate_frames count a.inner) [
        | none ↦ none
        | some (frame, inner') ↦ some (frame, record a { inner = inner' })
      ])

  allocate_small :
      (i : ℕ) (block : Block) {free' : List Block}
      → find_small count 0 a.free none ≡ some (i, block)
      → shrink a.free i block (sub_usize block.count count) ≡ some free'
      → allocate_frames under count a
        ≡ some (
          some (
              containing_address
                (add_usize block.address (mul_usize (sub_usize block.count count) 4096))),
          record a { free = free' },
        )
  unfolding allocate_frames
  allocate_small i block e r = rw (e, allocate_frames) (rw (r, allocate_frames))

  -- With a well-formed free list, a request for which some block is large enough is served from a
  -- block of the least sufficient size, exactly its frames leave the list, and the wrapped
  -- allocator is not asked; any other request is the wrapped allocator's.
  pub allocate_frames_lem :
      IsSeparated a.free
      → ((page : ℕ) × (a' : RecycleAllocator S) × (allocate_frames under count a
            ≡ some (some page, a'))
          × Reuses page a')
        ⊎ Delegates (allocate_frames under count a)
  unfolding allocate_frames
  allocate_frames_lem sep = elim (Option-cases (find_small count 0 a.free none)) [
    | inl no_fit ↦
        inr ((find_small-none count 0 a.free none no_fit).0, rw (no_fit, allocate_frames))
    | inr ((i, block), found) ↦
        let (at, fits) = subst (Holds count a.free) found (
          find_small-Holds count 0 a.free a.free none (λ k. ap (get_elem? a.free) (omega arith))
            tt) in
        let (least, _) =
          find_small-Least count block.count 0 a.free none
            (subst (AtMost block.count) (sym found) (omega arith)) in
        let (free', e, w) = shrink-total count a.free sep i block at fits in
        inl (
          _,
          record a { free = free' },
          allocate_small i block found e,
          record {
            takes = shrunk-Takes count a.free sep i block at fits free' w least;
            same_inner = refl;
            same_noncore = refl;
          },
        )
  ]
