-- ===== src/Paging/Mapper/Supply.antt =====
-- What the page tables rely on in the allocator of frames, and a tree of tables whose frames the
-- allocator does not give out.
use faastr.Common.{ℕ, zero, suc, ◌^◌, ◌<◌, ◌≡◌, ◌⊎◌, some, false}
use faastr.Memory.FrameAllocator.{FrameAllocator}
use faastr.Paging.Entry.{flags, is_huge}
use faastr.Paging.Table.{PageTables}
use faastr.Paging.Mapper.Forest.{IsForest}

-- A frame that it gives out was free and is not, and nothing but what is given back gets free.
pub record Supply {S : Type 0} (allocator : FrameAllocator S) (Free : S → ℕ → Type 0) : Type 0 where
  pub was_free : (s s' : S) (f : ℕ) → allocator.allocate_frames 1 s ≡ some (some f, s') → Free s f
  pub is_taken :
      (s s' : S) (f : ℕ) → allocator.allocate_frames 1 s ≡ some (some f, s') → Free s' f → ⊥
  pub takes :
      (s s' : S) (f g : ℕ)
      → allocator.allocate_frames 1 s ≡ some (some f, s')
      → Free s' g
      → Free s g
  pub fits : (s s' : S) (f : ℕ) → allocator.allocate_frames 1 s ≡ some (some f, s') → f < 2 ^ 40
  pub gives :
      (s s' : S) (f g : ℕ)
      → allocator.deallocate_frames f 1 s ≡ some s'
      → Free s' g
      → Free s g ⊎ (g ≡ f)

-- So many frames can be had, one after the other.
abbrev pub Supplies : {S : Type 0} → FrameAllocator S → ℕ → S → Type 0
Supplies allocator zero s = Unit
Supplies {S} allocator (suc n) s =
    (f : ℕ) × (s' : S) × (allocator.allocate_frames 1 s ≡ some (some f, s'))
    × Supplies allocator n s'

pub Supplies-less :
    {S : Type 0} (allocator : FrameAllocator S) (n : ℕ) (s : S)
    → Supplies allocator (suc n) s
    → Supplies allocator n s
Supplies-less allocator zero s h = tt
Supplies-less allocator (suc n) s (f, s', e, h) = (f, s', e, Supplies-less allocator n s' h)

-- A tree of tables without huge pages, whose frames are not free.
pub record IsTree {S : Type 0} (Free : S → ℕ → Type 0) (p4 : ℕ) (s : PageTables S)
    (parent slot level : ℕ → ℕ) : Type 0 where
  pub forest : IsForest p4 s.entries parent slot level
  pub unshared : (f : ℕ) → Free s.frames f → level f ≡ 0
  pub small : (t i : ℕ) → 1 < level t → is_huge (flags (s.entries t i)) ≡ false
