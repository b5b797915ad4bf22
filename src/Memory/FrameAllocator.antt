-- ===== src/Memory/FrameAllocator.antt =====
-- The trait `FrameAllocator` of kernel/src/memory/mod.rs over a state `S`. A frame is its number.
-- `none` stands for a panic, or for a recursion that does not end.
use faastr.Common.{ℕ, Bool, Option}

pub record FrameAllocator (S : Type 0) : Type 0 where
  pub set_noncore : Bool → S → S
  pub free_frames : S → ℕ
  pub used_frames : S → ℕ
  pub allocate_frames : ℕ → S → Option (Option ℕ × S)
  pub deallocate_frames : ℕ → ℕ → S → Option S
