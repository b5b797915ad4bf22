-- ===== src/Paging/Mapper/Map/Reach.antt =====
-- The tables above a page are made, where they are missing: there is a way to the page.
use faastr.Common.{ℕ, suc, ◌≡◌, ◌≢◌, inl, inr, some, arith, ◌∙◌}
use faastr.Memory.FrameAllocator.{FrameAllocator}
use faastr.Memory.Pages.{p4_index, p3_index, p2_index}
use faastr.Paging.Table.{PageTables}
use faastr.Paging.Mapper.{translate_page, create_p1}
use faastr.Paging.Mapper.Supply.{Supply, Supplies, IsTree}
use faastr.Paging.Mapper.Create.{Created, create_lem}
use faastr.Paging.Mapper.Walk.{Way}
use faastr.Paging.Mapper.Translate.{translate_page-Grows}

pub record Reached {S : Type 0} (allocator : FrameAllocator S) (Free : S → ℕ → Type 0)
    (p4 n page : ℕ) (s : PageTables S) : Type 0 where
  pub p1 : ℕ
  pub after : PageTables S
  pub parent' : ℕ → ℕ
  pub slot' : ℕ → ℕ
  pub level' : ℕ → ℕ
  pub returned : create_p1 allocator p4 page s ≡ some (p1, after)
  pub tree : IsTree Free p4 after parent' slot' level'
  pub way : Way p4 after.entries page p1
  pub supplies : Supplies allocator n after.frames
  pub same :
      (page' : ℕ)
      → p4_index page' ≢ 511
      → translate_page p4 after.entries page' ≡ translate_page p4 s.entries page'

module _ {S : Type 0} (allocator : FrameAllocator S) (Free : S → ℕ → Type 0)
    (supply : Supply allocator Free) (p4 n page : ℕ) (s : PageTables S) {parent slot level : ℕ → ℕ}
    (tree : IsTree Free p4 s parent slot level) (proper : p4_index page ≢ 511)
    (supplies : Supplies allocator (suc (suc (suc n))) s.frames) where
  c3 : Created allocator Free p4 (suc (suc n)) p4 (p4_index page) s level
  c3 =
      create_lem allocator Free supply (suc (suc n)) p4 (p4_index page) s tree
        (omega (arith, tree.forest.root)) (inr proper) (omega arith) supplies

  level3 : c3.level' c3.next ≡ 3
  level3 = omega (
    arith,
    c3.tree.forest.root,
    c3.tree.forest.below p4 (p4_index page) c3.next (omega (arith, c3.tree.forest.root))
        (inr proper) c3.found,
  )

  c2 : Created allocator Free p4 (suc n) c3.next (p3_index page) c3.after c3.level'
  c2 =
      create_lem allocator Free supply (suc n) c3.next (p3_index page) c3.after c3.tree
        (omega (arith, level3)) (inl (omega (arith, level3))) (omega arith) c3.supplies

  level2 : c2.level' c2.next ≡ 2
  level2 =
      let old = c2.level'_old c3.next (omega (arith, level3)) in
      omega (
        arith,
        level3,
        old,
        c2.tree.forest.below c3.next (p3_index page) c2.next (omega (arith, level3, old))
            (inl (omega (arith, level3, old))) c2.found,
      )

  c1 : Created allocator Free p4 n c2.next (p2_index page) c2.after c2.level'
  c1 =
      create_lem allocator Free supply n c2.next (p2_index page) c2.after c2.tree
        (omega (arith, level2)) (inl (omega (arith, level2))) (omega arith) c2.supplies

  create_p1-returns : create_p1 allocator p4 page s ≡ some (c1.next, c1.after)
  unfolding create_p1
  create_p1-returns = rw (c3.returned, c2.returned) c1.returned

  reached_way : Way p4 c1.after.entries page c1.next
  reached_way = record {
    p3 = c3.next;
    p2 = c2.next;
    to_p3 =
        c1.grows.keeps p4 (p4_index page) c3.next (omega (arith, c2.tree.forest.root))
          (c2.grows.keeps p4 (p4_index page) c3.next (omega (arith, c3.tree.forest.root)) c3.found);
    to_p2 =
        c1.grows.keeps c3.next (p3_index page) c2.next
          (omega (arith, level3, c2.level'_old c3.next (omega (arith, level3)))) c2.found;
    to_p1 = c1.found;
  }

  pub reach_lem : Reached allocator Free p4 n page s
  reach_lem = record {
    p1 = c1.next;
    after = c1.after;
    parent' = c1.parent';
    slot' = c1.slot';
    level' = c1.level';
    returned = create_p1-returns;
    tree = c1.tree;
    way = reached_way;
    supplies = c1.supplies;
    same = λ page' p.
        translate_page-Grows page' c2.tree.forest p c1.grows
        ∙ translate_page-Grows page' c3.tree.forest p c2.grows
        ∙ translate_page-Grows page' tree.forest p c3.grows;
  }
