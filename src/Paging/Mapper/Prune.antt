-- ===== src/Paging/Mapper/Prune.antt =====
-- A table with nothing in use is cut off: the tree has one table less, and nothing else changes.
use faastr.Common.{
  ℕ, suc, ◌≤◌, ◌<◌, ◌≡◌, ◌≢◌, ◌⊎◌, inl, inr, false, none, some, arith, refl, sym, ap, ap₂, some_inj,
  ◌∙◌, subst, ℕ_discrete,
}
use faastr.Paging.Entry.{flags, is_huge, is_unused, pointed_frame}
use faastr.Paging.Entry.Fields.{Alike, pointed_frame-Alike}
use faastr.Paging.Table.{next_table, entry_count}
use faastr.Paging.Mapper.{clear}
use faastr.Paging.Mapper.Forest.{IsForest, Proper, next_table-Alike}
use faastr.Paging.Mapper.Occupy.{index-cases}
use faastr.Paging.Mapper.Grow.{Grows, update, update_ne, update_self, next_of_absent}
use faastr.Paging.Mapper.Vacate

module _ {p4 : ℕ} (entries : ℕ → ℕ → ℕ) {parent slot level : ℕ → ℕ} (t i c : ℕ)
    (forest : IsForest p4 entries parent slot level) (table : 1 < level t)
    (proper : Proper level t i) (index : i < 512) (child : next_table entries t i ≡ some c)
    (empty : (j : ℕ) → j < 512 → pointed_frame (entries c j) ≡ none)
    (taken : is_unused (entries t i) ≡ false) (some_entry : 0 < entry_count entries t) where
  abbrev after : ℕ → ℕ → ℕ
  after = clear entries t i

  abbrev Empty : ℕ → Type 0
  Empty d = (j : ℕ) → j < 512 → pointed_frame (entries d j) ≡ none

  abbrev pub level' : ℕ → ℕ
  level' = update level c 0

  child_level : suc (level c) ≡ level t
  child_level = forest.below t i c table proper child

  old_level : (f : ℕ) → f ≢ c → level' f ≡ level f
  old_level f ne = update_ne level c 0 f ne

  pub level'-cases : (f : ℕ) → 0 < level' f → (f ≢ c) × (level f ≡ level' f)
  level'-cases f p =
      let ne : f ≢ c = (λ e. omega (arith, p, ap level' e, update_self level c 0)) in
      (ne, sym (old_level f ne))

  Alike-after : (f j : ℕ) → (f ≢ t) ⊎ (j ≢ i) → Alike (entries f j) (after f j)
  Alike-after = Vacate.Alike-clear entries t i forest (omega (arith, table)) index taken some_entry

  cut : next_table after t i ≡ none
  cut =
      next_of_absent after t i (
        Vacate.pointed_frame-clear entries t i forest (omega (arith, table)) index taken some_entry)

  -- An entry that still leads to a table led there before, and not to the one that is cut off.
  next_after :
      (f j d : ℕ)
      → next_table after f j ≡ some d
      → ((f ≢ t) ⊎ (j ≢ i)) × (next_table entries f j ≡ some d)
  next_after f j d h = elim (index-cases f j t i) [
    | inl (e, e') ↦
        let h' : next_table after t i ≡ some d = rw (e, e') at h in absurd (cc (h', cut))
    | inr ne ↦ (ne, sym (next_table-Alike entries after f j (Alike-after f j ne)) ∙ h)
  ]

  not_cut :
      (f j d : ℕ)
      → 1 < level f
      → Proper level f j
      → next_table entries f j ≡ some d
      → (f ≢ t) ⊎ (j ≢ i)
      → d ≢ c
  not_cut f j d p q h ne e =
      let (a, b) = forest.above f j d p q h in
      let (a', b') = forest.above t i c table proper child in
      let same_t : f ≡ t = sym a ∙ ap parent e ∙ a' in
      let same_i : j ≡ i = sym b ∙ ap slot e ∙ b' in elim ne [ inl n ↦ n same_t | inr n ↦ n same_i ]

  below' :
      (f j d : ℕ)
      → 1 < level' f
      → Proper level' f j
      → next_table after f j ≡ some d
      → suc (level' d) ≡ level' f
  below' f j d p q h =
      let (f_ne, l) = level'-cases f (omega (arith, p)) in
      let (ne, h') = next_after f j d h in
      let q' : Proper level f j = subst (λ n. (n < 4) ⊎ (j ≢ 511)) (sym l) q in
      let d_ne = not_cut f j d (omega (arith, p, l)) q' h' ne in
      omega (arith, forest.below f j d (omega (arith, p, l)) q' h', l, old_level d d_ne)

  above' :
      (f j d : ℕ)
      → 1 < level' f
      → Proper level' f j
      → next_table after f j ≡ some d
      → (parent d ≡ f) × (slot d ≡ j)
  above' f j d p q h =
      let (f_ne, l) = level'-cases f (omega (arith, p)) in
      let (ne, h') = next_after f j d h in
      forest.above f j d (omega (arith, p, l)) (subst (λ n. (n < 4) ⊎ (j ≢ 511)) (sym l) q) h'

  low' : (f : ℕ) → level' f ≤ 4
  low' f = elim (ℕ_discrete f c) [
    | yes e ↦ rw e (omega (arith, update_self level c 0))
    | no ne ↦ omega (arith, old_level f ne, forest.low f)
  ]

  pub pruned-IsForest : IsForest p4 after parent slot level'
  pruned-IsForest = record {
    words = Vacate.clear_words entries t i forest (omega (arith, table)) index taken some_entry;
    root =
        old_level p4 (λ e. omega (arith, forest.root, ap level e, child_level, forest.low t))
        ∙ forest.root;
    low = low';
    below = below';
    above = above';
    clean = λ f j p.
        Vacate.clean-clear entries t i forest (omega (arith, table)) index taken some_entry f j
          (omega (arith, p, (level'-cases f p).1));
    bounded = λ f p.
        Vacate.bounded-clear entries t i forest (omega (arith, table)) index taken some_entry f
          (omega (arith, p, (level'-cases f p).1));
    counted = λ f p q.
        Vacate.counted-clear entries t i forest (omega (arith, table)) index taken some_entry f
          (omega (arith, p, (level'-cases f p).1)) (omega (arith, p, q, (level'-cases f p).1));
  }

  -- Seen the other way round, an empty table is added.
  pub pruned-Grows : Grows level' after entries
  pruned-Grows = record {
    keeps = λ f j d p h. (next_after f j d h).1;
    adds = λ f j d p h k. elim (index-cases f j t i) [
      | inl (e, e') ↦
          let k' : next_table entries t i ≡ some d = rw (e, e') at k in
          let same : c ≡ d = some_inj (sym child ∙ k') in subst Empty same empty
      | inr ne ↦ absurd (cc (next_table-Alike entries after f j (Alike-after f j ne), h, k))
    ];
    leaves = λ f j p.
        let (f_ne, l) = level'-cases f (omega (arith, p)) in
        sym (
          pointed_frame-Alike (entries f j) (after f j)
            (Alike-after f j (inl (λ e. omega (arith, p, l, table, ap level e)))));
  }

  pub pruned_small :
      ((g k : ℕ) → 1 < level g → is_huge (flags (entries g k)) ≡ false)
      → (f j : ℕ) → 1 < level' f
      → is_huge (flags (after f j)) ≡ false
  pruned_small h f j p = elim (index-cases f j t i) [
    | inl (e, e') ↦
        let z : flags (after f j) ≡ 0 =
          ap₂ (λ x y. flags (after x y)) e e'
          ∙ Vacate.flags-clear entries t i forest (omega (arith, table)) index taken some_entry in
        rw z refl
    | inr ne ↦
        ap is_huge (Alike-after f j ne).same_flags
        ∙ h f j (omega (arith, p, (level'-cases f (omega (arith, p))).1))
  ]

  pub next_table-kept : (f j : ℕ) → f ≢ t → next_table after f j ≡ next_table entries f j
  next_table-kept f j ne = next_table-Alike entries after f j (Alike-after f j (inl ne))

  pub entry_count-kept : (f : ℕ) → f ≢ t → entry_count after f ≡ entry_count entries f
  entry_count-kept =
      Vacate.entry_count-clear_other entries t i forest (omega (arith, table)) index taken
        some_entry
