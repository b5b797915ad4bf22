-- ===== src/Memory/Recycle/Accounts.antt =====
-- Frames that are given back to `RecycleAllocator`, and its counts of free and used frames.
use faastr.Common.{ℕ, ◌+◌, ◌^◌, ◌≤◌, ◌<◌, ◌≡◌, refl, true, List, [], ◌∷◌, some, arith}
use faastr.Memory.Blocks.{Block, covers, held, pages, Fits, IsSeparated, start_address}
use faastr.Memory.Takes.{span}
use faastr.Memory.FrameAllocator.{FrameAllocator}
use faastr.Memory.Merge.{give_back}
use faastr.Memory.Merge.GiveBack.{give_back_lem}
use faastr.Memory.Merge.Laws.{Gained}
use faastr.Memory.Recycle.{
  RecycleAllocator, deallocate_frames, keep, free_count, free_frames, used_frames,
}

pub free_count_lem : (free : List Block) → pages free < 2 ^ 64 → free_count free ≡ pages free
unfolding free_count
free_count_lem [] h = refl
free_count_lem (b ∷ rest) h = omega (arith, free_count_lem rest (omega arith))

module _ {S : Type 0} (under : FrameAllocator S) (frame count : ℕ) (a : RecycleAllocator S) where
  kept :
      {free' : List Block}
      → a.noncore ≡ true
      → give_back a.free (start_address frame) count ≡ some free'
      → deallocate_frames under frame count a ≡ some (record a { free = free' })
  unfolding deallocate_frames keep
  kept n e = rw n (rw (e, keep))

  -- Once the heap is there, frames that are given back join the free list, nothing else in it
  -- changes, it stays well formed, and the wrapped allocator is not told.
  pub deallocate_frames_lem :
      a.noncore ≡ true
      → IsSeparated a.free
      → Fits (span frame count)
      → ((x : ℕ) → held a.free x + covers x (span frame count) ≤ 1)
      → (free' : List Block) × (deallocate_frames under frame count a
          ≡ some (record a { free = free' }))
        × Gained a.free (span frame count) free'
  deallocate_frames_lem n sep fits new =
      let (free', e, g) = give_back_lem a.free (span frame count) sep fits new in
      (free', kept n e, g)

-- The recycled frames are counted as free, not as used: the two counts add up to what they add up
-- to underneath, as long as the list holds no more frames than are in use there.
free_frames-add-used_frames :
    {S : Type 0} (under : FrameAllocator S) (a : RecycleAllocator S)
    → pages a.free ≤ under.used_frames a.inner
    → under.free_frames a.inner + under.used_frames a.inner < 2 ^ 64
    → (free_frames under a ≡ under.free_frames a.inner + pages a.free)
      × (free_frames under a + used_frames under a
          ≡ under.free_frames a.inner + under.used_frames a.inner)
unfolding free_frames used_frames
free_frames-add-used_frames under a h k = omega (arith, free_count_lem a.free (omega arith))
