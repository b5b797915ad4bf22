-- ===== src/Paging/Mapper/Create.antt =====
-- `next_table_create` keeps the tree, and fails only where there is no frame.
use faastr.Common.{
  ℕ, suc, ◌-◌, ◌<◌, ◌≡◌, inl, inr, none, some, false, refl, ◌∙◌, subst, Option-cases,
}
use faastr.Memory.FrameAllocator.{FrameAllocator}
use faastr.Paging.Entry.{flags, is_huge}
use faastr.Paging.Table.{PageTables, next_table, next_table_create, create_with}
use faastr.Paging.Mapper.Forest.{Proper}
use faastr.Paging.Mapper.Grow.{Grows, Grows-refl, update_ne}
use faastr.Paging.Mapper.Link
use faastr.Paging.Mapper.Supply.{Supply, Supplies, Supplies-less, IsTree}

-- The next table is there, in a tree that has grown at most.
pub record Created {S : Type 0} (allocator : FrameAllocator S) (Free : S → ℕ → Type 0)
    (p4 n t i : ℕ) (s : PageTables S) (level : ℕ → ℕ) : Type 0 where
  pub next : ℕ
  pub after : PageTables S
  pub parent' : ℕ → ℕ
  pub slot' : ℕ → ℕ
  pub level' : ℕ → ℕ
  pub returned : next_table_create allocator t i s ≡ some (next, after)
  pub tree : IsTree Free p4 after parent' slot' level'
  pub found : next_table after.entries t i ≡ some next
  pub grows : Grows level s.entries after.entries
  pub level'_old : (f : ℕ) → 0 < level f → level' f ≡ level f
  pub supplies : Supplies allocator n after.frames

create_missing :
    {S : Type 0} (allocator : FrameAllocator S) (t i : ℕ) (s : PageTables S) {f : ℕ} {frames : S}
    → next_table s.entries t i ≡ none
    → is_huge (flags (s.entries t i)) ≡ false
    → allocator.allocate_frames 1 s.frames ≡ some (some f, frames)
    → next_table_create allocator t i s ≡ create_with t i s.entries (some (some f, frames))
unfolding next_table_create next_table
create_missing allocator t i s h k e = rw (next_table_create, h, k, e) refl

create_there :
    {S : Type 0} (allocator : FrameAllocator S) (t i : ℕ) (s : PageTables S) {c : ℕ}
    → next_table s.entries t i ≡ some c
    → next_table_create allocator t i s ≡ some (c, s)
unfolding next_table_create
create_there allocator t i s h = rw (next_table_create, h)

module _ {S : Type 0} (allocator : FrameAllocator S) (Free : S → ℕ → Type 0)
    (supply : Supply allocator Free) {p4 : ℕ} (n t i : ℕ) (s : PageTables S)
    {parent slot level : ℕ → ℕ} (tree : IsTree Free p4 s parent slot level) (table : 1 < level t)
    (proper : Proper level t i) (index : i < 512)
    (supplies : Supplies allocator (suc n) s.frames) where
  create_new : next_table s.entries t i ≡ none → Created allocator Free p4 n t i s level
  create_new missing =
      let (f, frames, e, more) = supplies in
      let small = tree.small t i table in
      let fits = supply.fits s.frames frames f e in
      let fresh = tree.unshared f (supply.was_free s.frames frames f e) in
      record {
        next = f;
        after = record {
          entries =
              Link.linked s.entries t i f tree.forest table proper index missing small fits fresh;
          frames = frames;
        };
        parent' =
            Link.parent' s.entries t i f tree.forest table proper index missing small fits fresh;
        slot' = Link.slot' s.entries t i f tree.forest table proper index missing small fits fresh;
        level' =
            Link.level' s.entries t i f tree.forest table proper index missing small fits fresh;
        returned =
            create_missing allocator t i s missing small e
            ∙ Link.create_with_lem s.entries t i f tree.forest table proper index missing small fits
                fresh frames;
        tree = record {
          forest =
              Link.linked-IsForest s.entries t i f tree.forest table proper index missing small fits
                fresh;
          unshared = λ g free.
              update_ne level f (level t - 1) g
                (λ g_f. supply.is_taken s.frames frames f e (subst (Free frames) g_f free))
              ∙ tree.unshared g (supply.takes s.frames frames f g e free);
          small = λ g k p.
              Link.flags-linked s.entries t i f tree.forest table proper index missing small fits
                fresh g k p tree.small;
        };
        found =
            Link.next_table-linked s.entries t i f tree.forest table proper index missing small fits
              fresh;
        grows =
            Link.linked-Grows s.entries t i f tree.forest table proper index missing small fits
              fresh;
        level'_old =
            Link.level'_old s.entries t i f tree.forest table proper index missing small fits fresh;
        supplies = more;
      }

  pub create_lem : Created allocator Free p4 n t i s level
  create_lem = elim (Option-cases (next_table s.entries t i)) [
    | inl missing ↦ create_new missing
    | inr (c, e) ↦ record {
      next = c;
      after = s;
      parent' = parent;
      slot' = slot;
      level' = level;
      returned = create_there allocator t i s e;
      tree = tree;
      found = e;
      grows = Grows-refl level s.entries;
      level'_old = λ f p. refl;
      supplies = Supplies-less allocator n s.frames supplies;
    }
  ]
