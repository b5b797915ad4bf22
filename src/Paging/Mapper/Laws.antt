-- ===== src/Paging/Mapper/Laws.antt =====
-- What `map_to` and `unmap_inner` do to the translations, on trees of page tables.
use faastr.Common.{
  ℕ, ◌^◌, ◌<◌, ◌≡◌, ◌≢◌, Bool, true, false, Option, none, some, arith, refl, ap, ◌∙◌, ℕ_discrete,
  if◌then◌else◌, ◌==◌,
}
use faastr.Memory.FrameAllocator.{FrameAllocator}
use faastr.Memory.Pages.{p4_index, p3_index, p2_index, p1_index}
use faastr.Paging.Entry.{is_huge, pointed_frame}
use faastr.Paging.Entry.Fields.{IsFlags}
use faastr.Paging.Table.{PageTables, next_table, entry_count}
use faastr.Paging.Mapper.{translate_page, clear, map_to, unmap_inner, free_p1}
use faastr.Paging.Mapper.Supply.{Supply, Supplies, IsTree}
use faastr.Paging.Mapper.Walk.{Way, way_of_translation, level_p3, level_p2}
use faastr.Paging.Mapper.Unmap
use faastr.Paging.Mapper.Forest.{IsForest}
use faastr.Paging.Mapper.Free.{Trimmed, free_p1_lem}
use faastr.Paging.Mapper.Map.Laws.{Mapped, map_to_lem}

-- Some tree of tables.
abbrev pub Tree : {S : Type 0} → (S → ℕ → Type 0) → ℕ → PageTables S → Type 0
Tree Free p4 s =
    (parent : ℕ → ℕ) × (slot : ℕ → ℕ) × (level : ℕ → ℕ) × IsTree Free p4 s parent slot level

pub at_or_else :
    (page page' : ℕ) {a b c : Option ℕ}
    → (page' ≡ page → a ≡ b)
    → (page' ≢ page → a ≡ c)
    → a ≡ (if page' == page then b else c)
at_or_else page page' h k = elim (ℕ_discrete page' page) [
  | yes e ↦ ground (arith, e, h e)
  | no ne ↦ ground (arith, ne, k ne)
]

module _ {S : Type 0} (allocator : FrameAllocator S) (Free : S → ℕ → Type 0)
    (supply : Supply allocator Free) (p4 page frame new_flags : ℕ) (s : PageTables S)
    (tree : Tree Free p4 s) (proper : p4_index page ≢ 511) (inside : page < 2 ^ 36)
    (supplies : Supplies allocator 3 s.frames) (fits : frame < 2 ^ 40) (ten : IsFlags new_flags)
    (bits : new_flags < 2 ^ 64) (unmapped : translate_page p4 s.entries page ≡ none) where
  mapped : Mapped allocator Free p4 0 page frame new_flags s
  mapped =
      map_to_lem allocator Free supply p4 0 page frame new_flags s (tree.3) proper inside supplies
        fits ten bits unmapped

  -- Where a tree of tables without huge pages does not map a page, and three more frames can be had,
  -- map_to returns: the tables are a tree again, the page is translated to the frame, and every
  -- other page of the 48-bit address space as before (but for those of the recursive entry).
  pub translate_page-map_to :
      (page' : ℕ)
      → page' < 2 ^ 36
      → p4_index page' ≢ 511
      → (after : PageTables S) × (map_to allocator p4 page frame new_flags s ≡ some after)
        × Tree Free p4 after
        × (translate_page p4 after.entries page'
            ≡ (if page' == page then some frame else translate_page p4 s.entries page'))
  translate_page-map_to page' b q = (
    mapped.after,
    mapped.returned,
    (mapped.parent', mapped.slot', mapped.level', mapped.tree),
    at_or_else page page' (λ e. ap (translate_page p4 mapped.after.entries) e ∙ mapped.here)
        (mapped.others page' b q),
  )

module _ {S : Type 0} (allocator : FrameAllocator S) (Free : S → ℕ → Type 0)
    (supply : Supply allocator Free)
    (returns : (s : S) (f : ℕ) → (s' : S) × (allocator.deallocate_frames f 1 s ≡ some s'))
    (p4 page : ℕ) (s : PageTables S) where
  unmap_inner-returns :
      (keep_parents : Bool) {p1 frame : ℕ} {after : PageTables S}
      → (way : Way p4 s.entries page p1) → pointed_frame (s.entries p1 (p1_index page)) ≡ some frame
      → (let s1 = record s { entries = clear s.entries p1 (p1_index page) } in
          if keep_parents then some s1 else free_p1 allocator p4 page way.p3 way.p2 p1 s1)
        ≡ some after
      → unmap_inner allocator p4 page keep_parents s ≡ some (frame, after)
  unfolding unmap_inner
  unmap_inner-returns keep_parents way h k = rw (way.to_p3, way.to_p2, way.to_p1, h, k)

  module _ {frame : ℕ} (tree : Tree Free p4 s) (proper : p4_index page ≢ 511)
      (inside : page < 2 ^ 36) (count : 0 < entry_count s.entries p4)
      (mapped : translate_page p4 s.entries page ≡ some frame) where
    p1 : ℕ
    p1 = (way_of_translation p4 s.entries page mapped).0

    way : Way p4 s.entries page p1
    unfolding p1
    way = (way_of_translation p4 s.entries page mapped).1

    pointed : pointed_frame (s.entries p1 (p1_index page)) ≡ some frame
    unfolding p1
    pointed = (way_of_translation p4 s.entries page mapped).2

    abbrev s1 : PageTables S
    s1 = record s { entries = clear s.entries p1 (p1_index page) }

    abbrev forest : IsForest p4 s.entries (tree.0) (tree.1) (tree.2)
    forest = tree.3.forest

    same_next : (t i : ℕ) → 1 < (tree.2) t → next_table s1.entries t i ≡ next_table s.entries t i
    same_next = Unmap.next_table-cleared s.entries page forest proper way pointed

    tree1 : IsTree Free p4 s1 (tree.0) (tree.1) (tree.2)
    tree1 = record {
      forest = Unmap.cleared-IsForest s.entries page forest proper way pointed;
      unshared = tree.3.unshared;
      small = λ t i p.
          ap is_huge (Unmap.above_cleared s.entries page forest proper way pointed t i p).same_flags
          ∙ tree.3.small t i p;
    }

    trimmed :
        (keep_parents : Bool)
        → Trimmed Free p4 s1
            (tree.0)
            (tree.1)
            (if keep_parents then some s1 else free_p1 allocator p4 page way.p3 way.p2 p1 s1)
    trimmed true = record {
      after = s1;
      level' = tree.2;
      returned = refl;
      tree = tree1;
      same = λ page' r. refl;
    }
    trimmed false =
        free_p1_lem allocator Free supply returns p4 page way.p3 way.p2 p1 s1 tree1 proper
          (same_next p4 (p4_index page) (omega (arith, forest.root)) ∙ way.to_p3)
          (same_next way.p3 (p3_index page) (omega (arith, level_p3 page forest proper way.to_p3))
            ∙ way.to_p2)
          (same_next way.p2 (p2_index page) (omega (arith, level_p2 page forest proper way))
            ∙ way.to_p1)
          (omega (arith, count, Unmap.count-cleared s.entries page forest proper way pointed))

    -- Where a tree of tables maps a page, frames can be given back, and the counter that the table
    -- of the fourth level keeps of its entries is not 0, unmap_inner returns the frame of the
    -- page, keep_parents or not: the tables are a tree again, the page is not translated any more,
    -- and every other page of the 48-bit address space as before (but for those of the recursive
    -- entry), also where tables that are unused are cleared away.
    pub translate_page-unmap_inner :
        (keep_parents : Bool) (page' : ℕ)
        → page' < 2 ^ 36
        → p4_index page' ≢ 511
        → (after : PageTables S) × (unmap_inner allocator p4 page keep_parents s
            ≡ some (frame, after))
          × Tree Free p4 after
          × (translate_page p4 after.entries page'
              ≡ (if page' == page then none else translate_page p4 s.entries page'))
    translate_page-unmap_inner keep page' b q =
        let t = trimmed keep in
        (
          t.after,
          unmap_inner-returns keep way pointed t.returned,
          (tree.0, tree.1, t.level', t.tree),
          t.same page' q
              ∙ at_or_else page page'
                  (λ e.
                    ap (translate_page p4 s1.entries) e
                    ∙ Unmap.translate_page-cleared s.entries page forest proper way pointed)
                  (Unmap.translate_page-cleared_other s.entries page forest proper way pointed page'
                    inside b q),
        )
