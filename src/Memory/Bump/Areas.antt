-- ===== src/Memory/Bump/Areas.antt =====
-- The area that `choose_next_area` chooses.
use faastr.Common.{
  ℕ, ◌+◌, ◌^◌, ◌≤◌, ◌<◌, ◌≡◌, inl, inr, refl, sym, subst, some_inj, ◌∙◌, get_elem?, All-get,
  All-of_get, List, [], ◌∷◌, Option, none, some, arith, ltb, leb, All, Option-cases, Bool-cases,
}
use faastr.Memory.Bump.{
  MemoryArea, BumpAllocator, start_frame, last_frame, reaching, lowest, enter, choose_next_area,
}

-- Not empty, and inside the address space.
pub record IsArea (area : MemoryArea) : Type 0 where
  pub some_byte : 0 < area.length
  pub inside : area.base_addr + area.length ≤ 2 ^ 64

lowest-All :
    (P : MemoryArea → Type 0) (areas : List MemoryArea) {area : MemoryArea}
    → All P areas
    → lowest areas ≡ some area
    → P area
unfolding lowest
lowest-All P [] h e = absurd (ground arith)
lowest-All P (a ∷ rest) {area} h e = elim (Option-cases (lowest rest)) [
  | inl stop ↦
      let same : lowest (a ∷ rest) ≡ some a = rw (stop, lowest) refl in
      subst P (some_inj (sym same ∙ e)) h.0
  | inr (other, found) ↦ elim (Bool-cases (leb a.base_addr other.base_addr)) [
    | inl low ↦
        let same : lowest (a ∷ rest) ≡ some a = rw (found, lowest) (rw low refl) in
        subst P (some_inj (sym same ∙ e)) h.0
    | inr high ↦
        let same : lowest (a ∷ rest) ≡ some other = rw (found, lowest) (rw high refl) in
        lowest-All P rest {area = area} h.1 (found ∙ sym same ∙ e)
  ]
]

reaching-All :
    (next : ℕ) (P : MemoryArea → Type 0) (areas : List MemoryArea)
    → All P areas
    → All (λ a. P a × (next ≤ last_frame a)) (reaching next areas)
unfolding reaching
reaching-All next P [] h = tt
reaching-All next P (a ∷ rest) h = elim (Bool-cases (leb next (last_frame a))) [
  | inl hit ↦ rw hit ((h.0, ground (arith, hit)), reaching-All next P rest h.1)
  | inr miss ↦ rw miss (reaching-All next P rest h.1)
]

lowest-none : (areas : List MemoryArea) → lowest areas ≡ none → areas ≡ []
unfolding lowest
lowest-none [] e = refl
lowest-none (a ∷ rest) e = elim (Option-cases (lowest rest)) [
  | inl stop ↦ absurd (ground (arith, stop))
  | inr (other, found) ↦ absurd (ground (arith, found))
]

reaching-nil :
    (next : ℕ) (areas : List MemoryArea)
    → reaching next areas ≡ []
    → All (λ a. last_frame a < next) areas
unfolding reaching
reaching-nil next [] e = tt
reaching-nil next (a ∷ rest) e = elim (Bool-cases (leb next (last_frame a))) [
  | inl hit ↦ absurd (ground (arith, hit))
  | inr miss ↦ (ground (arith, miss), reaching-nil next rest (ground (arith, miss)))
]

abbrev pub Listed : List MemoryArea → MemoryArea → Type 0
Listed areas a = (i : ℕ) × (get_elem? areas i ≡ some a)

-- The current area is one of the areas, and the next frame is not below it; without one, no area
-- reaches the next frame.
abbrev pub Current : BumpAllocator → Option MemoryArea → Type 0
Current b none = All (λ a. last_frame a < b.next_free_frame) b.areas
Current b (some a) = Listed b.areas a × (start_frame a ≤ b.next_free_frame)

pub record IsBump (b : BumpAllocator) : Type 0 where
  pub areas_ok : All IsArea b.areas
  pub kernel_small : b.kernel_end < 2 ^ 52
  pub next_small : b.next_free_frame ≤ 2 ^ 52
  pub current : Current b b.current_area

-- The same without the current area.
pub record IsReady (b : BumpAllocator) : Type 0 where
  pub areas_ok : All IsArea b.areas
  pub kernel_small : b.kernel_end < 2 ^ 52
  pub next_small : b.next_free_frame ≤ 2 ^ 52

pub IsBump-IsReady : (b : BumpAllocator) → IsBump b → IsReady b
IsBump-IsReady b w = record {
  areas_ok = w.areas_ok;
  kernel_small = w.kernel_small;
  next_small = w.next_small;
}

pub last_frame_lem :
    (a : MemoryArea) → IsArea a → (start_frame a ≤ last_frame a) × (last_frame a < 2 ^ 52)
last_frame_lem a h = omega arith

-- What `choose_next_area` does to the state: it may move the next frame up, to the start of an
-- area that reaches it.
pub record Chooses (b c : BumpAllocator) : Type 0 where
  pub well : IsBump c
  pub same_areas : c.areas ≡ b.areas
  pub same_kernel : (c.kernel_start ≡ b.kernel_start) × (c.kernel_end ≡ b.kernel_end)
  pub not_below : b.next_free_frame ≤ c.next_free_frame
  pub fits : (a : MemoryArea) → c.current_area ≡ some a → c.next_free_frame ≤ last_frame a

enter-Chooses :
    (b : BumpAllocator) (a : MemoryArea)
    → IsReady b
    → Listed b.areas a
    → b.next_free_frame ≤ last_frame a
    → IsArea a
    → Chooses b (enter (some a) b)
enter-Chooses b a w listed reach ok = elim (Bool-cases (ltb b.next_free_frame (start_frame a))) [
  | inl low ↦ rw low (record {
    well = record {
      areas_ok = w.areas_ok;
      kernel_small = w.kernel_small;
      next_small = omega (arith, last_frame_lem a ok);
      current = (listed, omega arith);
    };
    same_areas = refl;
    same_kernel = (refl, refl);
    not_below = ground (arith, low);
    fits = λ c e. subst (λ c. start_frame a ≤ last_frame c) (some_inj e) (last_frame_lem a ok).0;
  })
  | inr high ↦ rw high (record {
    well = record {
      areas_ok = w.areas_ok;
      kernel_small = w.kernel_small;
      next_small = w.next_small;
      current = (listed, ground (arith, high));
    };
    same_areas = refl;
    same_kernel = (refl, refl);
    not_below = omega arith;
    fits = λ c e. subst (λ c. b.next_free_frame ≤ last_frame c) (some_inj e) reach;
  })
]

pub choose_next_area_lem : (b : BumpAllocator) → IsReady b → Chooses b (choose_next_area b)
unfolding choose_next_area
choose_next_area_lem b w = elim (Option-cases (lowest (reaching b.next_free_frame b.areas))) [
  | inl stop ↦
      subst (λ o. Chooses b (enter o b)) (sym stop)
        (record {
          well = record {
            areas_ok = w.areas_ok;
            kernel_small = w.kernel_small;
            next_small = w.next_small;
            current = reaching-nil b.next_free_frame b.areas (lowest-none _ stop);
          };
          same_areas = refl;
          same_kernel = (refl, refl);
          not_below = omega arith;
          fits = λ a e. absurd (ground arith);
        })
  | inr (a, found) ↦
      let (listed, reach) =
        lowest-All (λ a. Listed b.areas a × (b.next_free_frame ≤ last_frame a))
          (reaching b.next_free_frame b.areas)
          (reaching-All b.next_free_frame (Listed b.areas) b.areas
            (All-of_get (Listed b.areas) b.areas (λ i a e. (i, e))))
          found in
      let ok = All-get IsArea b.areas listed.0 w.areas_ok listed.1 in
      subst (λ o. Chooses b (enter o b)) (sym found) (enter-Chooses b a w listed reach ok)
]
