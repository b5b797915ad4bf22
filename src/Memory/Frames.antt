-- ===== src/Memory/Frames.antt =====
-- `Frames` of kernel/src/context/memory.rs: frames that go back to the allocator when they are
-- dropped.
use faastr.Common.{ℕ, suc, ◌+◌, ◌*◌, ◌^◌, ◌<◌, ◌≡◌, Option, none, some}
use faastr.Common.Usize.{add_usize, sub_usize, mul_usize}
use faastr.Memory.Blocks.{containing_address, start_address}
use faastr.Memory.FrameAllocator.{FrameAllocator}
use faastr.Memory.Pages.{PageIter, range_inclusive, collect}
use faastr.Memory.Pages.Iterated.{from, iter_lem}

pub record Frames : Type 0 where
  pub start : ℕ
  pub count : ℕ

module _ {S : Type 0} (allocator : FrameAllocator S) where
  abbrev pub as_frames : ℕ → Option (Option ℕ × S) → Option (Option Frames × S)
  as_frames count none = none
  as_frames count (some (none, s)) = some (none, s)
  as_frames count (some (some start, s)) = some (some (record { start = start; count = count }), s)

  pub new : ℕ → S → Option (Option Frames × S)
  new count s = as_frames count (allocator.allocate_frames count s)

  pub drop_frames : Frames → S → Option S
  drop_frames frames s = allocator.deallocate_frames frames.start frames.count s

abbrev pub frames_iter : Frames → PageIter
frames_iter frames = range_inclusive frames.start (
    containing_address
      (sub_usize (add_usize (start_address frames.start) (mul_usize frames.count 4096)) 1))

-- The iterator yields each of the frames once, in their order, and ends.
pub frames_iter_lem :
    (frames : Frames)
    → 0 < frames.count
    → (frames.start + frames.count) * 4096 < 2 ^ 64
    → collect (suc frames.count) (frames_iter frames) ≡ some (from frames.start frames.count)
frames_iter_lem frames p q = iter_lem (record { start = frames.start; count = frames.count }) p q
