-- ===== src/Memory/Bump/Single.antt =====
-- Requests for one frame: `allocate_frames` of `BumpAllocator` ends.
use faastr.Common.{
  ℕ, zero, suc, ◌+◌, ◌≤◌, ◌<◌, ◌≡◌, ◌⊎◌, inl, inr, refl, sym, ap, subst, ◌∙◌, true, false, ◌||◌,
  Option, none, some, arith, ltb, leb, if◌then◌else◌, All, All-get, Option-cases, Bool-cases,
}
use faastr.Common.Usize.{add_usize, sub_usize}
use faastr.Memory.Bump.{
  MemoryArea, BumpAllocator, start_frame, last_frame, in_kernel, take_from, choose_next_area,
  allocate_frames,
}
use faastr.Memory.Bump.Areas.{
  IsArea, IsBump, IsBump-IsReady, Listed, Current, last_frame_lem, choose_next_area_lem,
}

-- What is promised of a result: a frame in one of the areas, outside of the kernel, not below the
-- next frame, which is the one behind it afterwards; or none, where no area reaches the next frame.
pub record Bumps (b : BumpAllocator) (frame : ℕ) (after : BumpAllocator) : Type 0 where
  pub area : MemoryArea
  pub listed : Listed b.areas area
  pub in_area : (start_frame area ≤ frame) × (frame ≤ last_frame area)
  pub outside_kernel : (frame < b.kernel_start) ⊎ (b.kernel_end < frame)
  pub fresh : b.next_free_frame ≤ frame
  pub next_frame : after.next_free_frame ≡ suc frame
  pub well : IsBump after

abbrev pub Result : BumpAllocator → Option ℕ × BumpAllocator → Type 0
Result b (some frame, after) = Bumps b frame after
Result b (none, after) =
    (b.next_free_frame ≤ after.next_free_frame)
    × All (λ a. last_frame a < after.next_free_frame) b.areas

-- The state in which the search may be: how many calls it still takes at most.
abbrev behind_area : BumpAllocator → Option MemoryArea → ℕ
behind_area b none = 0
behind_area b (some a) = if ltb (last_frame a) b.next_free_frame then 1 else 0

abbrev calls : BumpAllocator → ℕ
calls b = behind_area b b.current_area + (if leb b.next_free_frame b.kernel_end then 2 else 0)

-- A result from a later state is one from the state before.
Result-later :
    (b c : BumpAllocator) (r : Option ℕ × BumpAllocator)
    → c.areas ≡ b.areas
    → (c.kernel_start ≡ b.kernel_start) × (c.kernel_end ≡ b.kernel_end)
    → b.next_free_frame ≤ c.next_free_frame
    → Result c r
    → Result b r
Result-later b c (none, after) areas kernel le h =
    (omega (arith, h.0), subst (λ x. All (λ a. last_frame a < after.next_free_frame) x) areas h.1)
Result-later b c (some frame, after) areas kernel le h = record {
  area = h.area;
  listed = subst (λ x. Listed x h.area) areas h.listed;
  in_area = h.in_area;
  outside_kernel = omega (arith, h.outside_kernel, kernel);
  fresh = omega (arith, h.fresh);
  next_frame = h.next_frame;
  well = h.well;
}

module _ (fuel : ℕ) (b : BumpAllocator) (a : MemoryArea) (here : b.current_area ≡ some a) where
  end_frame : ℕ
  end_frame = add_usize b.next_free_frame (sub_usize 1 1)

  step_behind :
      ltb (last_frame a) end_frame ≡ true
      → allocate_frames (suc fuel) 1 b ≡ allocate_frames fuel 1 (choose_next_area b)
  unfolding allocate_frames end_frame
  step_behind h = ap (take_from 1 b _ _) here ∙ rw h refl

  step_kernel :
      ltb (last_frame a) end_frame ≡ false
      → (in_kernel b b.next_free_frame || in_kernel b end_frame) ≡ true
      → allocate_frames (suc fuel) 1 b
        ≡ allocate_frames fuel 1 (record b { next_free_frame = add_usize b.kernel_end 1 })
  unfolding allocate_frames end_frame
  step_kernel h k = ap (take_from 1 b _ _) here ∙ rw h (rw k refl)

  step_found :
      ltb (last_frame a) end_frame ≡ false
      → (in_kernel b b.next_free_frame || in_kernel b end_frame) ≡ false
      → allocate_frames (suc fuel) 1 b
        ≡ some
            (some b.next_free_frame, record b { next_free_frame = add_usize b.next_free_frame 1 })
  unfolding allocate_frames end_frame
  step_found h k = ap (take_from 1 b _ _) here ∙ rw h (rw k refl)

step_none :
    (fuel : ℕ) (b : BumpAllocator)
    → b.current_area ≡ none
    → allocate_frames (suc fuel) 1 b ≡ some (none, b)
unfolding allocate_frames
step_none fuel b here = ap (take_from 1 b _ _) here

behind_area-fits :
    (b : BumpAllocator)
    → ((a : MemoryArea) → b.current_area ≡ some a → b.next_free_frame ≤ last_frame a)
    → behind_area b b.current_area ≡ 0
behind_area-fits b fits = elim (Option-cases b.current_area) [
  | inl e ↦ ap (behind_area b) e
  | inr (a, e) ↦ ap (behind_area b) e ∙ ground (arith, fits a e)
]

behind_area-le : (b : BumpAllocator) (o : Option MemoryArea) → behind_area b o ≤ 1
behind_area-le b none = omega arith
behind_area-le b (some a) = ground arith

module _ (fuel : ℕ) (b : BumpAllocator) (a : MemoryArea) (here : b.current_area ≡ some a)
    (w : IsBump b) where
  at_area : Listed b.areas a × (start_frame a ≤ b.next_free_frame)
  at_area = subst (Current b) here w.current

  past : BumpAllocator
  past = record b { next_free_frame = add_usize b.kernel_end 1 }

  calls-choose :
      ltb (last_frame a) (end_frame fuel b a here) ≡ true → calls (choose_next_area b) < calls b
  unfolding end_frame
  calls-choose behind =
      let c = choose_next_area_lem b (IsBump-IsReady b w) in
      let before : behind_area b b.current_area ≡ 1 =
        ap (behind_area b) here ∙ ground (arith, behind, w.next_small) in
      ground
        (arith, behind_area-fits (choose_next_area b) c.fits, before, c.not_below, c.same_kernel)

  module _
      (kernel : (in_kernel b b.next_free_frame || in_kernel b (end_frame fuel b a here))
        ≡ true) where
    next-le : b.next_free_frame ≤ b.kernel_end
    unfolding end_frame
    next-le = ground (arith, kernel, w.next_small)

    calls-past : calls past < calls b
    unfolding past
    calls-past = ground (arith, next-le, w.kernel_small, behind_area-le past past.current_area)

    past-IsBump : IsBump past
    unfolding past
    past-IsBump = record {
      areas_ok = w.areas_ok;
      kernel_small = w.kernel_small;
      next_small = omega (arith, w.kernel_small);
      current =
          subst (Current past) (sym here)
            (at_area.0, omega (arith, at_area.1, next-le, w.kernel_small));
    }

  found :
      IsArea a
      → ltb (last_frame a) (end_frame fuel b a here) ≡ false
      → (in_kernel b b.next_free_frame || in_kernel b (end_frame fuel b a here)) ≡ false
      → Bumps b b.next_free_frame (record b { next_free_frame = add_usize b.next_free_frame 1 })
  unfolding end_frame
  found ok inside outside =
      let le : b.next_free_frame ≤ last_frame a = ground (arith, inside, w.next_small) in
      record {
        area = a;
        listed = at_area.0;
        in_area = (at_area.1, le);
        outside_kernel = ground (arith, outside);
        fresh = omega arith;
        next_frame = omega (arith, w.next_small);
        well = record {
          areas_ok = w.areas_ok;
          kernel_small = w.kernel_small;
          next_small = omega (arith, le, last_frame_lem a ok);
          current =
              subst (Current (record b { next_free_frame = add_usize b.next_free_frame 1 }))
                (sym here) (at_area.0, omega (arith, at_area.1, w.next_small));
        };
      }

single_total :
    (fuel : ℕ) (b : BumpAllocator)
    → IsBump b
    → calls b < fuel
    → (r : Option ℕ × BumpAllocator) × (allocate_frames fuel 1 b ≡ some r) × Result b r
unfolding past
single_total zero b w h = absurd (omega arith)
single_total (suc fuel) b w h = elim (Option-cases b.current_area) [
  | inl out ↦ ((none, b), step_none fuel b out, (omega arith, subst (Current b) out w.current))
  | inr (a, here) ↦
      let listed = (at_area fuel b a here w).0 in
      let ok = All-get IsArea b.areas listed.0 w.areas_ok listed.1 in
      elim (Bool-cases (ltb (last_frame a) (end_frame fuel b a here))) [
        | inl behind ↦
            let c = choose_next_area_lem b (IsBump-IsReady b w) in
            let (r, e, res) =
              single_total fuel (choose_next_area b) c.well
                (omega (arith, calls-choose fuel b a here w behind)) in
            (
              r,
              step_behind fuel b a here behind ∙ e,
              Result-later b (choose_next_area b) r c.same_areas c.same_kernel c.not_below res,
            )
        | inr inside ↦
            elim (Bool-cases
              (in_kernel b b.next_free_frame || in_kernel b (end_frame fuel b a here))) [
                | inl kernel ↦
                    let (r, e, res) =
                      single_total fuel (past fuel b a here w) (past-IsBump fuel b a here w kernel)
                        (omega (arith, calls-past fuel b a here w kernel)) in
                    (
                      r,
                      step_kernel fuel b a here inside kernel ∙ e,
                      Result-later b (past fuel b a here w) r refl (refl, refl)
                          (omega (arith, next-le fuel b a here w kernel, w.kernel_small)) res,
                    )
                | inr outside ↦ (
                  _,
                  step_found fuel b a here inside outside,
                  found fuel b a here w ok inside outside,
                )
              ]
      ]
]

-- A request for one frame ends within four calls, on every well-formed state, in a frame of one of
-- the areas that is outside of the kernel and above all frames allocated before, or with none,
-- where no area has a frame from the next one on.
pub allocate_frames-single :
    (b : BumpAllocator)
    → IsBump b
    → (r : Option ℕ × BumpAllocator) × (allocate_frames 4 1 b ≡ some r) × Result b r
allocate_frames-single b w = single_total 4 b w (ground (arith, behind_area-le b b.current_area))
