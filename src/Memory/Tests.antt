-- ===== src/Memory/Tests.antt =====
-- Runs of the allocators of kernel/src/memory on small free lists.
use faastr.Common.{
  ℕ, ◌+◌, ◌≤◌, ◌≡◌, ◌*◌, All, refl, Bool, true, List, [], ◌∷◌, Option, some, none, arith, ◌⊎◌,
  if◌then◌else◌, ltb,
}
use faastr.Memory.Blocks.{Block, Fits, IsSeparated, covers, touches, held}
use faastr.Memory.Merge.{merge}
use faastr.Memory.Merge.Laws.{Gained, Merges, merge_total}
use faastr.Memory.Takes.{span}
use faastr.Memory.Valloc.{scan, swap_remove, allocate_pages, deallocate_pages}
use faastr.Memory.Valloc.Allocate.{Allocates, allocate_pages_lem}
use faastr.Memory.Valloc.Deallocate.{deallocate_pages_lem}
use faastr.Memory.FrameAllocator.{FrameAllocator}
use faastr.Memory.Bump
use faastr.Memory.Pages
use faastr.Memory.Pages.{VallocPages}
use faastr.Memory.Pages.Iterated.{from, allocate_unmapped_pages_lem}
use faastr.Memory.Bump.{MemoryArea, BumpAllocator, new}
use faastr.Memory.Bump.Areas.{IsArea, IsBump}
use faastr.Memory.Bump.Single.{Result, allocate_frames-single}
use faastr.Memory.Bump.Counts.{new-IsBump, allocate_frames_endless}
use faastr.Memory.Recycle.{RecycleAllocator, allocate_frames, deallocate_frames}
use faastr.Memory.Recycle.Laws.{Reuses, Delegates, allocate_frames_lem}
use faastr.Memory.Recycle.Accounts.{deallocate_frames_lem}

-- pages 1 and 2, page 5, and pages 8 to 11
abbrev three_blocks : List Block
three_blocks =
    record { address = 4096; count = 2 }
    ∷ record { address = 20480; count = 1 }
    ∷ record { address = 32768; count = 4 }
    ∷ []

three_blocks-IsSeparated : IsSeparated three_blocks
unfolding touches
three_blocks-IsSeparated = record {
  fit = (
    record { some_page = omega arith; aligned = refl; inside = omega arith },
    (
      record { some_page = omega arith; aligned = refl; inside = omega arith },
      (record { some_page = omega arith; aligned = refl; inside = omega arith }, tt),
    ),
  );
  apart = λ x. ground arith;
}

-- pages 3 and 4 lie between the first two blocks
gap-Fits : Fits (span 3 2)
gap-Fits = record { some_page = omega arith; aligned = refl; inside = omega arith }

gap_new : (x : ℕ) → held three_blocks x + covers x (span 3 2) ≤ 1
unfolding covers
gap_new x = ground arith

merge_total_example :
    (r : List Block × Bool) × (merge 6 three_blocks 12288 2 ≡ some r)
    × Merges three_blocks (span 3 2) r
merge_total_example =
    merge_total 3 three_blocks three_blocks-IsSeparated (span 3 2) gap-Fits gap_new

allocate_pages_example :
    (r : Option ℕ × List Block) × (allocate_pages 3 three_blocks ≡ some r)
    × Allocates 3 three_blocks r
allocate_pages_example = allocate_pages_lem 3 three_blocks three_blocks-IsSeparated

deallocate_pages_example :
    (free' : List Block) × (deallocate_pages 3 2 three_blocks ≡ some free')
    × Gained three_blocks (span 3 2) free'
deallocate_pages_example =
    deallocate_pages_lem 3 2 three_blocks three_blocks-IsSeparated gap-Fits gap_new

abbrev two_blocks : List Block
two_blocks =
    record { address = 4096; count = 2 }
    ∷ record { address = 20480; count = 1 }
    ∷ record { address = 32768; count = 1 }
    ∷ []

allocate_run : allocate_pages 3 three_blocks ≡ some (some 9, two_blocks)
unfolding allocate_pages scan swap_remove
allocate_run = refl

-- an allocator that hands out 100 frames, one after the other
abbrev counter : FrameAllocator ℕ
counter = record {
  set_noncore = λ _ next. next;
  free_frames = λ next. if ltb next 100 then 1 else 0;
  used_frames = λ next. next;
  allocate_frames = λ count next.
      if ltb (next + count) 101 then some (some next, next + count) else some (none, next);
  deallocate_frames = λ _ _ next. some next;
}

abbrev recycler : RecycleAllocator ℕ
recycler = record { inner = 20; noncore = true; free = three_blocks }

allocate_frames_example :
    ((page : ℕ) × (a' : RecycleAllocator ℕ) × (allocate_frames counter 2 recycler
        ≡ some (some page, a'))
      × Reuses counter 2 recycler page a')
    ⊎ Delegates counter 2 recycler (allocate_frames counter 2 recycler)
allocate_frames_example = allocate_frames_lem counter 2 recycler three_blocks-IsSeparated

deallocate_frames_example :
    (free' : List Block) × (deallocate_frames counter 3 2 recycler
      ≡ some (record recycler { free = free' }))
    × Gained three_blocks (span 3 2) free'
deallocate_frames_example =
    deallocate_frames_lem counter 3 2 recycler refl three_blocks-IsSeparated gap-Fits gap_new

-- two areas, of pages 0 to 159 and of pages 256 to 1023, with the kernel in pages 256 to 300
abbrev low_area : MemoryArea
low_area = record { base_addr = 0; length = 655360; type = 1; acpi = 0 }

abbrev high_area : MemoryArea
high_area = record { base_addr = 1048576; length = 3145728; type = 1; acpi = 0 }

abbrev machine : BumpAllocator
machine = new 1048576 1232895 (high_area ∷ low_area ∷ [])

abbrev areas_ok : All IsArea (high_area ∷ low_area ∷ [])
areas_ok = (
  record { some_byte = omega arith; inside = omega arith },
  (record { some_byte = omega arith; inside = omega arith }, tt),
)

machine-IsBump : IsBump machine
machine-IsBump = new-IsBump 1048576 1232895 (high_area ∷ low_area ∷ []) (omega arith) areas_ok

-- the first area used up
abbrev between : BumpAllocator
between = record {
  next_free_frame = 160;
  current_area = some low_area;
  areas = high_area ∷ low_area ∷ [];
  kernel_start = 256;
  kernel_end = 300;
}

between-IsBump : IsBump between
between-IsBump = record {
  areas_ok = areas_ok;
  kernel_small = omega arith;
  next_small = omega arith;
  current = ((1, refl), omega arith);
}

allocate_frames-single_example :
    (r : Option ℕ × BumpAllocator) × (Bump.allocate_frames 4 1 between ≡ some r) × Result between r
allocate_frames-single_example = allocate_frames-single between between-IsBump

allocate_run_bump :
    (after : BumpAllocator) × (Bump.allocate_frames 4 1 between ≡ some (some 301, after))
unfolding Bump.allocate_frames Bump.choose_next_area Bump.lowest Bump.reaching
allocate_run_bump = (_, refl)

-- one frame left in the first area
abbrev almost : BumpAllocator
almost = record between { next_free_frame = 159 }

almost_same : Bump.choose_next_area almost ≡ almost
unfolding Bump.choose_next_area Bump.lowest Bump.reaching
almost_same = refl

allocate_frames_endless_example : Bump.allocate_frames 1000 2 almost ≡ none
allocate_frames_endless_example =
    allocate_frames_endless almost low_area 2 1000 (omega arith) refl almost_same (omega arith)

abbrev two_pages : VallocPages
two_pages = record { start = 9; count = 3 }

allocate_unmapped_run :
    Pages.allocate_unmapped_pages 3 three_blocks ≡ some (some two_pages, two_blocks)
unfolding Pages.allocate_unmapped_pages allocate_pages scan swap_remove
allocate_unmapped_run = refl

allocate_unmapped_pages_example :
    All
      (λ page. (held three_blocks (page * 4096) ≡ 1) × (held two_blocks (page * 4096) ≡ 0))
      (from 9 3)
allocate_unmapped_pages_example =
    allocate_unmapped_pages_lem 3 three_blocks two_blocks two_pages three_blocks-IsSeparated
      allocate_unmapped_run
