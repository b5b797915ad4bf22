-- ===== src/Paging/Mapper/Link.antt =====
-- A new table is linked and zeroed: the tree has one more table, and nothing else changes.
use faastr.Common.{
  ℕ, suc, ◌-◌, ◌^◌, ◌≤◌, ◌<◌, ◌≡◌, ◌≢◌, ◌⊎◌, inl, inr, true, false, none, some, arith, refl, sym,
  ap, ap₂, ◌∙◌, subst, ℕ_discrete,
}
use faastr.Paging.Entry.{flags, address, is_huge, is_unused, pointed_frame, counter_bits}
use faastr.Paging.Entry.Fields.{
  Alike, flags-zero, pointed_frame-zero, is_unused-zero, counter_bits-zero, pointed_frame-Alike,
}
use faastr.Paging.Table.{next_table, zero_table, entry_count, link_table, create_with}
use faastr.Paging.Mapper.Used.{used, used_same, used_nothing}
use faastr.Paging.Mapper.Forest.{IsForest, Proper, next_table-Alike}
use faastr.Paging.Mapper.Occupy
use faastr.Paging.Mapper.Occupy.{occupied, index-cases}
use faastr.Paging.Mapper.Grow.{
  Grows, update, update_ne, update_self, zero_ne, zero_self, next_of_zero, next_of_entry, absent,
  zero_next_lem,
}

used_zeros : used (λ j. 0) 512 ≡ 0
used_zeros = used_nothing (λ j. 0) 512 (λ j. is_unused-zero)

module _ {p4 : ℕ} (entries : ℕ → ℕ → ℕ) {parent slot level : ℕ → ℕ} (t i frame : ℕ)
    (forest : IsForest p4 entries parent slot level) (table : 1 < level t)
    (proper : Proper level t i) (index : i < 512) (missing : next_table entries t i ≡ none)
    (small : is_huge (flags (entries t i)) ≡ false) (fits : frame < 2 ^ 40)
    (fresh : level frame ≡ 0) where
  free : is_unused (entries t i) ≡ true
  free = forest.clean t i (omega arith) (absent entries t i missing small)

  abbrev one : ℕ → ℕ → ℕ
  one = occupied t i frame 7 entries

  abbrev pub linked : ℕ → ℕ → ℕ
  linked = zero_table one frame

  table-ne : t ≢ frame
  table-ne e = omega (arith, ap level e)

  linked_row : (f j : ℕ) → f ≢ frame → linked f j ≡ one f j
  linked_row f j ne = zero_ne one frame f j ne

  new_row : (j : ℕ) → linked frame j ≡ 0
  new_row j = zero_self one frame j

  Alike-linked : (f j : ℕ) → f ≢ frame → (f ≢ t) ⊎ (j ≢ i) → Alike (entries f j) (linked f j)
  Alike-linked f j ne other = rw (linked_row f j ne) (
      Occupy.Alike-occupied entries t i frame 7 forest (omega arith) index free fits refl
        (omega arith) refl f j other)

  pub next_table-linked : next_table linked t i ≡ some frame
  next_table-linked =
      next_of_entry linked t i frame
        (ap flags (linked_row t i table-ne)
          ∙ Occupy.flags-occupied entries t i frame 7 forest (omega arith) index free fits refl
              (omega arith) refl)
        (ap address (linked_row t i table-ne)
          ∙ Occupy.address-occupied entries t i frame 7 forest (omega arith) index free fits refl
              (omega arith) refl)

  next_table-other :
      (f j : ℕ) → f ≢ frame → (f ≢ t) ⊎ (j ≢ i) → next_table linked f j ≡ next_table entries f j
  next_table-other f j ne other = next_table-Alike entries linked f j (Alike-linked f j ne other)

  pointed_frame-linked : pointed_frame (linked t i) ≡ some frame
  pointed_frame-linked =
      ap pointed_frame (linked_row t i table-ne)
      ∙ Occupy.pointed_frame-occupied entries t i frame 7 forest (omega arith) index free fits refl
          (omega arith) refl

  linked_words : (f j : ℕ) → linked f j < 2 ^ 64
  linked_words f j = elim (ℕ_discrete f frame) [
    | yes e ↦ rw e (omega (arith, new_row j))
    | no ne ↦ omega (
      arith,
      linked_row f j ne,
      Occupy.occupied_words entries t i frame 7 forest (omega arith) index free fits refl
          (omega arith) refl f j,
    )
  ]

  abbrev pub parent' : ℕ → ℕ
  parent' = update parent frame t

  abbrev pub slot' : ℕ → ℕ
  slot' = update slot frame i

  abbrev pub level' : ℕ → ℕ
  level' = update level frame (level t - 1)

  pub level'_old : (f : ℕ) → 0 < level f → level' f ≡ level f
  level'_old f p = update_ne level frame (level t - 1) f (λ e. omega (arith, ap level e))

  -- Where the next table is one of the old ones, or the new one.
  next_linked :
      (f j c : ℕ)
      → next_table linked f j ≡ some c
      → ((f ≡ t) × (j ≡ i) × (c ≡ frame)) ⊎ ((f ≢ frame) × (next_table entries f j ≡ some c))
  next_linked f j c h = elim (ℕ_discrete f frame) [
    | yes e ↦
        let n : next_table linked f j ≡ none =
          next_of_zero linked f j (ap (λ k. linked k j) e ∙ new_row j) in
        absurd (cc (n, h))
    | no ne ↦ elim (index-cases f j t i) [
      | inl (e, e') ↦
          let h' : next_table linked t i ≡ some c = rw (e, e') at h in
          inl (e, e', cc (h', next_table-linked))
      | inr other ↦ inr (ne, sym (next_table-other f j ne other) ∙ h)
    ]
  ]

  old_level : (f : ℕ) → f ≢ frame → level' f ≡ level f
  old_level f ne = update_ne level frame (level t - 1) f ne

  below' :
      (f j c : ℕ)
      → 1 < level' f
      → Proper level' f j
      → next_table linked f j ≡ some c
      → suc (level' c) ≡ level' f
  below' f j c p q h = elim (next_linked f j c h) [
    | inl (e, e', e'') ↦
        rw (e, e'')
          (omega (arith, table, old_level t table-ne, update_self level frame (level t - 1)))
    | inr (ne, h') ↦
        let l = old_level f ne in
        let q' : Proper level f j = subst (λ n. (n < 4) ⊎ (j ≢ 511)) l q in
        let s = forest.below f j c (omega arith) q' h' in
        omega (arith, s, l, level'_old c (omega arith))
  ]

  above' :
      (f j c : ℕ)
      → 1 < level' f
      → Proper level' f j
      → next_table linked f j ≡ some c
      → (parent' c ≡ f) × (slot' c ≡ j)
  above' f j c p q h = elim (next_linked f j c h) [
    | inl (e, e', e'') ↦ rw (e, e', e'') (update_self parent frame t, update_self slot frame i)
    | inr (ne, h') ↦
        let l = old_level f ne in
        let q' : Proper level f j = subst (λ n. (n < 4) ⊎ (j ≢ 511)) l q in
        let s = forest.below f j c (omega arith) q' h' in
        let c-ne : c ≢ frame = (λ e. omega (arith, s, ap level e)) in
        let (a, b) = forest.above f j c (omega arith) q' h' in
        (update_ne parent frame t c c-ne ∙ a, update_ne slot frame i c c-ne ∙ b)
  ]

  clean' :
      (f j : ℕ) → 0 < level' f → pointed_frame (linked f j) ≡ none → is_unused (linked f j) ≡ true
  clean' f j p h = elim (ℕ_discrete f frame) [
    | yes e ↦ ap is_unused (ap (λ k. linked k j) e ∙ new_row j) ∙ is_unused-zero
    | no ne ↦
        ap is_unused (linked_row f j ne)
        ∙ Occupy.clean-occupied entries t i frame 7 forest (omega arith) index free fits refl
            (omega arith) refl f j (omega (arith, old_level f ne))
            (ap pointed_frame (sym (linked_row f j ne)) ∙ h)
  ]

  used_new : used (linked frame) 512 ≡ used (λ j. 0) 512
  used_new = used_same (linked frame) (λ j. 0) 512 (λ j. ap is_unused (new_row j))

  count_new : entry_count linked frame ≡ 0
  unfolding entry_count
  count_new = ap counter_bits (new_row 0) ∙ counter_bits-zero

  used_old : (f : ℕ) → f ≢ frame → used (linked f) 512 ≡ used (one f) 512
  used_old f ne = used_same (linked f) (one f) 512 (λ j. ap is_unused (linked_row f j ne))

  count_old : (f : ℕ) → f ≢ frame → entry_count linked f ≡ entry_count one f
  unfolding entry_count
  count_old f ne = ap counter_bits (linked_row f 0 ne)

  bounded' : (f : ℕ) → 0 < level' f → entry_count linked f ≤ used (linked f) 512
  bounded' f p = elim (ℕ_discrete f frame) [
    | yes e ↦ rw e (omega (arith, count_new))
    | no ne ↦ omega (
      arith,
      count_old f ne,
      used_old f ne,
      Occupy.bounded-occupied entries t i frame 7 forest (omega arith) index free fits refl
          (omega arith) refl f (omega (arith, old_level f ne)),
    )
  ]

  counted' : (f : ℕ) → 0 < level' f → level' f < 4 → entry_count linked f ≡ used (linked f) 512
  counted' f p q = elim (ℕ_discrete f frame) [
    | yes e ↦ rw e (omega (arith, count_new, used_new, used_zeros))
    | no ne ↦ omega (
      arith,
      count_old f ne,
      used_old f ne,
      Occupy.counted-occupied entries t i frame 7 forest (omega arith) index free fits refl
          (omega arith) refl f (omega (arith, old_level f ne)) (omega (arith, old_level f ne)),
    )
  ]

  low' : (f : ℕ) → level' f ≤ 4
  low' f = elim (ℕ_discrete f frame) [
    | yes e ↦ rw e (omega (arith, update_self level frame (level t - 1), forest.low t))
    | no ne ↦ omega (arith, old_level f ne, forest.low f)
  ]

  pub linked-IsForest : IsForest p4 linked parent' slot' level'
  linked-IsForest = record {
    words = linked_words;
    root = level'_old p4 (omega (arith, forest.root)) ∙ forest.root;
    low = low';
    below = below';
    above = above';
    clean = clean';
    bounded = bounded';
    counted = counted';
  }

  pub linked-Grows : Grows level entries linked
  linked-Grows = record {
    keeps = λ f j c p h. elim (index-cases f j t i) [
      | inl (e, e') ↦
          let h' : next_table entries t i ≡ some c = rw (e, e') at h in absurd (cc (h', missing))
      | inr other ↦ next_table-other f j (λ e. omega (arith, p, ap level e)) other ∙ h
    ];
    adds = λ f j c p h k. elim (next_linked f j c k) [
      | inl (_, _, e) ↦
          (λ l q. ap pointed_frame (ap (λ x. linked x l) e ∙ new_row l) ∙ pointed_frame-zero)
      | inr (_, h') ↦ absurd (cc (h, h'))
    ];
    leaves = λ f j p. pointed_frame-Alike (entries f j) (linked f j) (
        Alike-linked f j (λ e. omega (arith, p, ap level e))
          (inl (λ e. omega (arith, p, ap level e))));
  }

  pub flags-linked :
      (f j : ℕ)
      → 1 < level' f
      → ((g k : ℕ) → 1 < level g → is_huge (flags (entries g k)) ≡ false)
      → is_huge (flags (linked f j)) ≡ false
  flags-linked f j p h = elim (ℕ_discrete f frame) [
    | yes e ↦
        let z : flags (linked f j) ≡ 0 =
          ap flags (ap (λ k. linked k j) e ∙ new_row j) ∙ flags-zero in
        rw z refl
    | no ne ↦ elim (index-cases f j t i) [
      | inl (e, e') ↦
          let z : flags (linked f j) ≡ 7 =
            ap₂ (λ x y. flags (linked x y)) e e'
            ∙ ap flags (linked_row t i table-ne)
            ∙ Occupy.flags-occupied entries t i frame 7 forest (omega arith) index free fits refl
                (omega arith) refl in
          rw z refl
      | inr other ↦
          let a = Alike-linked f j ne other in
          rw (a.same_flags) (h f j (omega (arith, old_level f ne)))
    ]
  ]

  next_table-one : next_table one t i ≡ some frame
  next_table-one =
      next_of_entry one t i frame
        (Occupy.flags-occupied entries t i frame 7 forest (omega arith) index free fits refl
          (omega arith) refl)
        (Occupy.address-occupied entries t i frame 7 forest (omega arith) index free fits refl
          (omega arith) refl)

  one-link_table : link_table frame t i entries ≡ one
  unfolding link_table occupied
  one-link_table = refl

  -- The steps of `next_table_create` end in these tables.
  pub create_with_lem :
      {S : Type 0} (frames : S)
      → create_with t i entries (some (some frame, frames))
        ≡ some (frame, record { entries = linked; frames = frames })
  create_with_lem frames = rw one-link_table (
      zero_next_lem t i (record { entries = one; frames = frames }) next_table-one
        next_table-linked)
