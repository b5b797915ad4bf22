-- ===== src/Paging/Ranges.antt =====
-- The loops over `map_to`, `unmap_return` and `remap` of kernel/src/context/memory.rs, over the pages
-- and the frames that the iterators yield.
pub mod Contiguous
use faastr.Common.{ℕ, false, List, [], ◌∷◌, Option, none, some}
use faastr.Memory.FrameAllocator.{FrameAllocator}
use faastr.Paging.Table.{PageTables, ◌>>=◌}
use faastr.Paging.Mapper.{map_to, unmap_return, remap}

module _ {S : Type 0} (allocator : FrameAllocator S) (p4 new_flags : ℕ) where
  -- `for (page, frame) in pages.zip(frames) { mapper.map_to(page, frame, flags) }`
  unfoldable pub map_each : List ℕ → List ℕ → PageTables S → Option (PageTables S)
  map_each [] frames s = some s
  map_each (page ∷ pages) [] s = some s
  map_each (page ∷ pages) (frame ∷ frames) s =
      map_to allocator p4 page frame new_flags s >>= map_each pages frames

  -- `for page in pages { mapper.remap(page, flags) }`
  pub remap_each : List ℕ → PageTables S → Option (PageTables S)
  remap_each [] s = some s
  remap_each (page ∷ pages) s = remap allocator p4 page new_flags s >>= remap_each pages

module _ {S : Type 0} (allocator : FrameAllocator S) (p4 : ℕ) where
  -- `for page in pages { mapper.unmap_return(page, false) }`
  pub unmap_each : List ℕ → PageTables S → Option (PageTables S)
  unmap_each [] s = some s
  unmap_each (page ∷ pages) s =
      unmap_return allocator p4 page false s >>= λ (frame, s'). unmap_each pages s'
