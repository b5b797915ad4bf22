-- ===== src/Paging/Mapper/Map/Laws.antt =====
-- The theorems on `map_to`.
use faastr.Common.{
  ℕ, suc, ◌^◌, ◌<◌, ◌≡◌, ◌≢◌, true, false, none, some, inl, inr, Bool-cases, arith, sym, ap, ◌∙◌,
}
use faastr.Memory.FrameAllocator.{FrameAllocator}
use faastr.Memory.Pages.{p4_index, p1_index}
use faastr.Paging.Entry.{is_huge, is_unused, pointed_frame}
use faastr.Paging.Entry.Fields.{IsFlags, pointed_frame-unused}
use faastr.Paging.Table.{PageTables}
use faastr.Paging.Mapper.{translate_page, map_to, fill}
use faastr.Paging.Mapper.Occupy.{occupied}
use faastr.Paging.Mapper.Supply.{Supply, Supplies, IsTree}
use faastr.Paging.Mapper.Walk.{translate_page-Way, level_p1}
use faastr.Paging.Mapper.Map.Reach.{Reached, reach_lem}
use faastr.Paging.Mapper.Map.Fill
use faastr.Paging.Mapper.Map.Fill.{with_present}

-- The call returns; the tables are a tree again, in which the page leads to the frame and the
-- pages but those of the recursive entry are translated as before.
pub record Mapped {S : Type 0} (allocator : FrameAllocator S) (Free : S → ℕ → Type 0)
    (p4 n page frame new_flags : ℕ) (s : PageTables S) : Type 0 where
  pub after : PageTables S
  pub parent' : ℕ → ℕ
  pub slot' : ℕ → ℕ
  pub level' : ℕ → ℕ
  pub returned : map_to allocator p4 page frame new_flags s ≡ some after
  pub tree : IsTree Free p4 after parent' slot' level'
  pub supplies : Supplies allocator n after.frames
  pub here : translate_page p4 after.entries page ≡ some frame
  pub others :
      (page' : ℕ)
      → page' < 2 ^ 36
      → p4_index page' ≢ 511
      → page' ≢ page
      → translate_page p4 after.entries page' ≡ translate_page p4 s.entries page'

fill-unused :
    {S : Type 0} (allocator : FrameAllocator S) (p4 page frame new_flags p1 : ℕ) (s : PageTables S)
    → is_unused (s.entries p1 (p1_index page)) ≡ true
    → fill allocator p4 page frame new_flags p1 s
      ≡ some (record s {
        entries = occupied p1 (p1_index page) frame (with_present new_flags) s.entries;
      })
unfolding fill occupied
fill-unused allocator p4 page frame new_flags p1 s h = rw h

fill-taken :
    {S : Type 0} (allocator : FrameAllocator S) (p4 page frame new_flags p1 : ℕ) (s : PageTables S)
    → is_unused (s.entries p1 (p1_index page)) ≡ false
    → fill allocator p4 page frame new_flags p1 s ≡ none
unfolding fill
fill-taken allocator p4 page frame new_flags p1 s h = rw h

used_of_pointed : (e : ℕ) {frame : ℕ} → pointed_frame e ≡ some frame → is_unused e ≡ false
used_of_pointed e h = elim (Bool-cases (is_unused e)) [
  | inl u ↦ absurd (cc (pointed_frame-unused e u, h))
  | inr u ↦ u
]

module _ {S : Type 0} (allocator : FrameAllocator S) (Free : S → ℕ → Type 0)
    (supply : Supply allocator Free) (p4 n page frame new_flags : ℕ) (s : PageTables S)
    {parent slot level : ℕ → ℕ} (tree : IsTree Free p4 s parent slot level)
    (proper : p4_index page ≢ 511) (inside : page < 2 ^ 36)
    (supplies : Supplies allocator (suc (suc (suc n))) s.frames) where
  r : Reached allocator Free p4 n page s
  r = reach_lem allocator Free supply p4 n page s tree proper supplies

  leaf : pointed_frame (r.after.entries r.p1 (p1_index page)) ≡ translate_page p4 s.entries page
  leaf = sym (translate_page-Way p4 r.after.entries page r.way) ∙ r.same page proper

  module _ (fits : frame < 2 ^ 40) (ten : IsFlags new_flags) (bits : new_flags < 2 ^ 64)
      (unmapped : translate_page p4 s.entries page ≡ none) where
    free : is_unused (r.after.entries r.p1 (p1_index page)) ≡ true
    free =
        r.tree.forest.clean r.p1 (p1_index page)
          (omega (arith, level_p1 page r.tree.forest proper r.way)) (leaf ∙ unmapped)

    abbrev filled : ℕ → ℕ → ℕ
    filled =
        Fill.filled r.after.entries page frame new_flags r.tree.forest proper r.way free fits ten
          bits

    -- A page that is not mapped, and not reached through the recursive entry, can be mapped to any
    -- frame as long as three frames are left for tables.
    pub map_to_lem : Mapped allocator Free p4 n page frame new_flags s
    unfolding map_to
    map_to_lem = record {
      after = record r.after { entries = filled };
      parent' = r.parent';
      slot' = r.slot';
      level' = r.level';
      returned = rw (r.returned) (fill-unused allocator p4 page frame new_flags r.p1 r.after free);
      tree = record {
        forest =
            Fill.filled-IsForest r.after.entries page frame new_flags r.tree.forest proper r.way
              free fits ten bits;
        unshared = r.tree.unshared;
        small = λ t i p.
            ap is_huge
              (Fill.above_filled r.after.entries page frame new_flags r.tree.forest proper r.way
                free fits ten bits t i p).same_flags
            ∙ r.tree.small t i p;
      };
      supplies = r.supplies;
      here =
          Fill.translate_page-filled r.after.entries page frame new_flags r.tree.forest proper r.way
            free fits ten bits;
      others = λ page' b q ne.
          Fill.translate_page-filled_other r.after.entries page frame new_flags r.tree.forest proper
            r.way free fits ten bits page' inside b q ne
          ∙ r.same page' q;
    }

  -- In a tree of tables without huge pages, with three more frames to be had, a page that is mapped
  -- is not mapped again: map_to panics.
  map_to-mapped :
      {old : ℕ}
      → translate_page p4 s.entries page ≡ some old
      → map_to allocator p4 page frame new_flags s ≡ none
  unfolding map_to
  map_to-mapped h = rw (r.returned) (
      fill-taken allocator p4 page frame new_flags r.p1 r.after
        (used_of_pointed (r.after.entries r.p1 (p1_index page)) (leaf ∙ h)))
