-- ===== src/Memory/Bump/Counts.antt =====
-- The counts of `BumpAllocator`, its first state, and requests that do not end.
use faastr.Common.{
  ℕ, zero, suc, ◌+◌, ◌^◌, ◌<◌, ◌≡◌, refl, ap, Bool, ◌∙◌, true, false, List, [], ◌∷◌, none, some,
  arith, ltb, ◌==◌, if◌then◌else◌, All, sum_by,
}
use faastr.Common.Usize.{add_usize, sub_usize}
use faastr.Memory.Blocks.{containing_address}
use faastr.Memory.Bump.{
  MemoryArea, BumpAllocator, start_frame, last_frame, new, choose_next_area, count_free, count_used,
  frames_of, free_in, used_in, free_frames, used_frames, take_from, allocate_frames,
}
use faastr.Memory.Bump.Areas.{IsArea, IsBump, choose_next_area_lem}

counts :
    (b : BumpAllocator) (frame n : ℕ) → n < 2 ^ 64 → count_free b frame n + count_used b frame n ≡ n
unfolding count_free count_used
counts b frame zero h = refl
counts b frame (suc n) h = ground (arith, counts b (suc frame) n (omega arith))

counts_in :
    (b : BumpAllocator) (areas : List MemoryArea)
    → sum_by frames_of areas < 2 ^ 64
    → free_in b areas + used_in b areas ≡ sum_by frames_of areas
unfolding free_in used_in
counts_in b [] h = refl
counts_in b (a ∷ rest) h =
    omega
      (arith, counts b (start_frame a) (frames_of a) (omega arith), counts_in b rest (omega arith))

-- Every frame of every area is free or used: the two counts add up to the number of frames, as
-- long as that is below 2 ^ 64.
free_frames-add-used_frames_bump :
    (b : BumpAllocator)
    → sum_by frames_of b.areas < 2 ^ 64
    → free_frames b + used_frames b ≡ sum_by frames_of b.areas
free_frames-add-used_frames_bump b h = counts_in b b.areas h

-- The first state is well formed, where the areas are inside the address space.
pub new-IsBump :
    (kernel_start kernel_end : ℕ) (areas : List MemoryArea)
    → kernel_end < 2 ^ 64
    → All IsArea areas
    → IsBump (new kernel_start kernel_end areas)
unfolding new
new-IsBump kernel_start kernel_end areas h ok =
    let c =
      choose_next_area_lem
        (record {
          next_free_frame = 0;
          current_area = none;
          areas = areas;
          kernel_start = containing_address kernel_start;
          kernel_end = containing_address kernel_end;
        })
        (record { areas_ok = ok; kernel_small = omega arith; next_small = omega arith }) in
    c.well

-- A request that does not fit into what is left of the current area, while the next frame is still
-- in it and no other area is chosen, never ends: no fuel is enough.
pub allocate_frames_endless :
    (b : BumpAllocator) (a : MemoryArea) (count fuel : ℕ)
    → 0 < count
    → b.current_area ≡ some a
    → choose_next_area b ≡ b
    → last_frame a < add_usize b.next_free_frame (sub_usize count 1)
    → allocate_frames fuel count b ≡ none
unfolding allocate_frames
allocate_frames_endless b a count zero p here same past = refl
allocate_frames_endless b a count (suc fuel) p here same past =
    if_false _ (count == 0) (ground (arith, p)) (
      ap (take_from count b _ _) here
      ∙ if_true _ (ltb (last_frame a) (add_usize b.next_free_frame (sub_usize count 1)))
          (ground (arith, past))
          (ap (allocate_frames fuel count) same
            ∙ allocate_frames_endless b a count fuel p here same past))
  where
    if_false :
        {A : Type 0} (x : A) {y z : A} (c : Bool) → c ≡ false → y ≡ z → (if c then x else y) ≡ z
    if_false x c e f = rw e f

    if_true :
        {A : Type 0} {x z : A} (y : A) (c : Bool) → c ≡ true → x ≡ z → (if c then x else y) ≡ z
    if_true y c e f = rw e f
