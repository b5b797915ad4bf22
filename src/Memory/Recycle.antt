-- ===== src/Memory/Recycle.antt =====
-- `RecycleAllocator` of kernel/src/memory/recycle.rs: freed frames first, then the allocator that it
-- wraps, which is a parameter.
pub mod Fit
pub mod Laws
pub mod Accounts
use faastr.Common.{
  ℕ, zero, suc, Bool, true, false, List, [], ◌∷◌, ◌++◌, Option, none, some, leb, ◌==◌,
  if◌then◌else◌, length, set, remove,
}
use faastr.Common.Usize.{add_usize, sub_usize, mul_usize}
use faastr.Memory.Blocks.{Block, containing_address, start_address}
use faastr.Memory.Merge.{give_back}
use faastr.Memory.FrameAllocator.{FrameAllocator}

pub record RecycleAllocator (S : Type 0) : Type 0 where
  pub inner : S
  pub noncore : Bool
  pub free : List Block

pub new : {S : Type 0} → S → RecycleAllocator S
new inner = record { inner = inner; noncore = false; free = [] }

-- `free_count`; the sum wraps
pub free_count : List Block → ℕ
free_count [] = 0
free_count (free ∷ rest) = add_usize free.count (free_count rest)

-- `small_i` and `small` after one round: a later block of the same size is preferred.
abbrev pub smaller : ℕ → Block → Option (ℕ × Block) → Option (ℕ × Block)
smaller i free none = some (i, free)
smaller i free (some (j, small)) =
    if leb free.count small.count then some (i, free) else some (j, small)

pub find_small : ℕ → ℕ → List Block → Option (ℕ × Block) → Option (ℕ × Block)
find_small count i [] small = small
find_small count i (free ∷ rest) small =
    find_small count (suc i) rest (if leb count free.count then smaller i free small else small)

-- The high end of entry `i` goes; an entry with nothing left is removed.
pub shrink : List Block → ℕ → Block → ℕ → Option (List Block)
shrink free i block left =
    let written = set free i (record { address = block.address; count = left }) in
    if left == 0 then remove written i else some written

module _ {S : Type 0} (under : FrameAllocator S) where
  pub set_noncore : Bool → RecycleAllocator S → RecycleAllocator S
  set_noncore noncore a = record a { noncore = noncore }

  pub free_frames : RecycleAllocator S → ℕ
  free_frames a = add_usize (under.free_frames a.inner) (free_count a.free)

  pub used_frames : RecycleAllocator S → ℕ
  used_frames a = sub_usize (under.used_frames a.inner) (free_count a.free)

  pub allocate_frames : ℕ → RecycleAllocator S → Option (Option ℕ × RecycleAllocator S)
  allocate_frames count a = elim (find_small count 0 a.free none) [
    | none ↦ elim (under.allocate_frames count a.inner) [
      | none ↦ none
      | some (frame, inner') ↦ some (frame, record a { inner = inner' })
    ]
    | some (i, block) ↦
        let left = sub_usize block.count count in
        elim (shrink a.free i block left) [
          | none ↦ none
          | some free' ↦ some (
            some (containing_address (add_usize block.address (mul_usize left 4096))),
            record a { free = free' },
          )
        ]
  ]

  keep : ℕ → ℕ → RecycleAllocator S → Option (RecycleAllocator S)
  keep frame count a = elim (give_back a.free (start_address frame) count) [
    | none ↦ none
    | some free' ↦ some (record a { free = free' })
  ]

  pass_on : ℕ → ℕ → RecycleAllocator S → Option (RecycleAllocator S)
  pass_on frame count a = elim (under.deallocate_frames frame count a.inner) [
    | none ↦ none
    | some inner' ↦ some (record a { inner = inner' })
  ]

  -- Before `set_noncore(true)` there is no heap for the list, and the frames go to the inner one.
  pub deallocate_frames : ℕ → ℕ → RecycleAllocator S → Option (RecycleAllocator S)
  deallocate_frames frame count a = if a.noncore then keep frame count a else pass_on frame count a

  pub recycling : FrameAllocator (RecycleAllocator S)
  recycling = record {
    set_noncore = set_noncore;
    free_frames = free_frames;
    used_frames = used_frames;
    allocate_frames = allocate_frames;
    deallocate_frames = deallocate_frames;
  }
