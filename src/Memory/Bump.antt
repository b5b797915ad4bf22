-- ===== src/Memory/Bump.antt =====
-- `BumpAllocator` of kernel/src/memory/bump.rs, with the memory areas of kernel/src/memory/mod.rs.
pub mod Areas
pub mod Single
pub mod Counts
use faastr.Common.{
  ℕ, zero, suc, ◌+◌, ◌-◌, Bool, true, false, not, ◌&&◌, ◌||◌, List, [], ◌∷◌, Option, none, some,
  ltb, leb, ◌==◌, if◌then◌else◌, drop,
}
use faastr.Common.Usize.{add_usize, sub_usize}
use faastr.Memory.Blocks.{containing_address}
use faastr.Memory.FrameAllocator.{FrameAllocator}

pub record MemoryArea : Type 0 where
  pub base_addr : ℕ
  pub length : ℕ
  pub type : ℕ
  pub acpi : ℕ

pub record MemoryAreaIter : Type 0 where
  pub type : ℕ
  pub i : ℕ

-- What the iterator still yields, of the memory map.
of_type : ℕ → List MemoryArea → List MemoryArea
of_type t [] = []
of_type t (entry ∷ rest) =
    let later = of_type t rest in if entry.type == t then entry ∷ later else later

pub yields : List MemoryArea → MemoryAreaIter → List MemoryArea
yields memory_map it = of_type it.type (drop it.i memory_map)

abbrev pub start_frame : MemoryArea → ℕ
start_frame area = containing_address area.base_addr

abbrev pub last_frame : MemoryArea → ℕ
last_frame area = containing_address (sub_usize (add_usize area.base_addr area.length) 1)

-- A frame is its number; `areas` is what a clone of the iterator yields.
pub record BumpAllocator : Type 0 where
  pub next_free_frame : ℕ
  pub current_area : Option MemoryArea
  pub areas : List MemoryArea
  pub kernel_start : ℕ
  pub kernel_end : ℕ

-- `filter`
unfoldable pub reaching : ℕ → List MemoryArea → List MemoryArea
reaching next [] = []
reaching next (area ∷ rest) =
    let later = reaching next rest in if leb next (last_frame area) then area ∷ later else later

-- `min_by_key`: of equal keys the first
unfoldable pub lowest : List MemoryArea → Option MemoryArea
lowest [] = none
lowest (area ∷ rest) = elim (lowest rest) [
  | none ↦ some area
  | some other ↦ if leb area.base_addr other.base_addr then some area else some other
]

abbrev pub enter : Option MemoryArea → BumpAllocator → BumpAllocator
enter none b = record b { current_area = none }
enter (some area) b =
    if ltb b.next_free_frame (start_frame area)
    then record b { current_area = some area; next_free_frame = start_frame area }
    else record b { current_area = some area }

unfoldable pub choose_next_area : BumpAllocator → BumpAllocator
choose_next_area b = enter (lowest (reaching b.next_free_frame b.areas)) b

pub new : ℕ → ℕ → List MemoryArea → BumpAllocator
new kernel_start kernel_end areas = choose_next_area (record {
  next_free_frame = 0;
  current_area = none;
  areas = areas;
  kernel_start = containing_address kernel_start;
  kernel_end = containing_address kernel_end;
})

abbrev pub in_kernel : BumpAllocator → ℕ → Bool
in_kernel b frame = leb b.kernel_start frame && leb frame b.kernel_end

-- The loops of `free_frames` and `used_frames` over `n` frames from `frame` on.
pub count_free : BumpAllocator → ℕ → ℕ → ℕ
count_free b frame zero = 0
count_free b frame (suc n) =
    let later = count_free b (suc frame) n in
    if in_kernel b frame
    then later
    else if leb b.next_free_frame frame
    then add_usize later 1
    else later

pub count_used : BumpAllocator → ℕ → ℕ → ℕ
count_used b frame zero = 0
count_used b frame (suc n) =
    let later = count_used b (suc frame) n in
    if in_kernel b frame
    then add_usize later 1
    else if leb b.next_free_frame frame
    then later
    else add_usize later 1

-- how many frames `range_inclusive` yields
abbrev pub frames_of : MemoryArea → ℕ
frames_of area = suc (last_frame area) - start_frame area

pub free_in : BumpAllocator → List MemoryArea → ℕ
free_in b [] = 0
free_in b (area ∷ rest) =
    add_usize (count_free b (start_frame area) (frames_of area)) (free_in b rest)

pub used_in : BumpAllocator → List MemoryArea → ℕ
used_in b [] = 0
used_in b (area ∷ rest) =
    add_usize (count_used b (start_frame area) (frames_of area)) (used_in b rest)

abbrev pub free_frames : BumpAllocator → ℕ
free_frames b = free_in b b.areas

abbrev pub used_frames : BumpAllocator → ℕ
used_frames b = used_in b b.areas

-- The branches of `allocate_frames` at a current area, with the results of its recursive calls.
abbrev pub take_from :
    ℕ
    → BumpAllocator
    → Option (Option ℕ × BumpAllocator)
    → Option (Option ℕ × BumpAllocator)
    → Option MemoryArea
    → Option (Option ℕ × BumpAllocator)
take_from count b next_area past_kernel none = some (none, b)
take_from count b next_area past_kernel (some area) =
    let end_frame = add_usize b.next_free_frame (sub_usize count 1) in
    if ltb (last_frame area) end_frame
    then next_area
    else if in_kernel b b.next_free_frame || in_kernel b end_frame
    then past_kernel
    else some
        (some b.next_free_frame, record b { next_free_frame = add_usize b.next_free_frame count })

-- The recursion is on fuel; `none` is a recursion that is too deep.
unfoldable pub allocate_frames : ℕ → ℕ → BumpAllocator → Option (Option ℕ × BumpAllocator)
allocate_frames zero count b = none
allocate_frames (suc fuel) count b =
    let next_area = allocate_frames fuel count (choose_next_area b) in
    let past_kernel =
      allocate_frames fuel count (record b { next_free_frame = add_usize b.kernel_end 1 }) in
    if count == 0 then some (none, b) else take_from count b next_area past_kernel b.current_area

abbrev pub set_noncore : Bool → BumpAllocator → BumpAllocator
set_noncore noncore b = b

abbrev pub deallocate_frames : ℕ → ℕ → BumpAllocator → Option BumpAllocator
deallocate_frames frame count b = some b

-- As the allocator under another one, with the fuel that a request for one frame needs.
abbrev pub bumping : FrameAllocator BumpAllocator
bumping = record {
  set_noncore = set_noncore;
  free_frames = free_frames;
  used_frames = used_frames;
  allocate_frames = allocate_frames 4;
  deallocate_frames = deallocate_frames;
}
