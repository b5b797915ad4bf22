-- ===== src/Context/Tests.antt =====
-- Runs of the scheduler and of the list of contexts.
use faastr.Common.{
  ℕ, ◌*◌, ◌+◌, ◌≤◌, ◌<◌, subst, ◌≡◌, refl, true, false, List, [], ◌∷◌, Option, none, some, arith,
}
use faastr.Context.{Status, Context, new_context}
use faastr.Context.ContextList.{ContextList, insert}
use faastr.Context.ContextList.Insert.{Ascending, IsWellFormed, Inserts, insert_lem}
use faastr.Context.Scheduler.{Scheduler}
use faastr.Paging.Entry.{flags, address}
use faastr.Paging.Table.{PageTables, next_table}
use faastr.Paging.Mapper.{translate_page, translate, find_p1}
use faastr.Paging.Mapper.Laws.{Tree}
use faastr.Paging.Samples.{
  next_frame, IsFree, next_frame-Supply, empty_entries, empty_tables, empty-Tree,
}
use faastr.Context.ContextMemory.{ContextMemory, map_context}
use faastr.Context.ContextMemory.Mapped.{Fits, in_frames, translate-map_context}

-- the kernel, a new context and a sleeping one
abbrev kernel : Context
kernel = record new_context { id = 1; status = Status.running; cpu_id = some 0; wake = none }

abbrev three_contexts : List Context
three_contexts =
    kernel
    ∷ record new_context { id = 2; status = Status.new; cpu_id = none; wake = none }
    ∷ record new_context { id = 4; status = Status.blocked; cpu_id = some 0; wake = some (5, 0) }
    ∷ []

three_contexts-Ascending : Ascending three_contexts
three_contexts-Ascending = ((omega arith, (omega arith, tt)), ((omega arith, tt), (tt, tt)))

abbrev booted : ContextList
booted = record { map = three_contexts; next_id = 4 }

booted-IsWellFormed : IsWellFormed booted
booted-IsWellFormed = record {
  small = (omega arith, (omega arith, (omega arith, tt)));
  ascending = three_contexts-Ascending;
  next_small = omega arith;
}

insert_example :
    (r : Option ℕ × ContextList) × (insert kernel booted ≡ some r) × Inserts kernel booted r
insert_example = insert_lem kernel booted booted-IsWellFormed

abbrev on_kernel : Scheduler
on_kernel = record { contexts = three_contexts; current = 1 }

-- one page of a user's memory, in the frame 300
abbrev one_page : ContextMemory
one_page = record {
  valloc_mapping = none;
  context_address = 4096 * 7;
  context_mapped = false;
  frames = record { start = 300; count = 1 };
  flags = 7;
}

one_page-Fits : Fits one_page
one_page-Fits = record {
  some_frame = omega arith;
  aligned = refl;
  inside = omega arith;
  frames_inside = omega arith;
  ten = refl;
  bits = omega arith;
}

page_7 : translate_page 1 empty_entries 7 ≡ none
unfolding translate_page find_p1 next_table flags address
page_7 = refl

seven_unmapped : (page : ℕ) → 7 ≤ page → page < 7 + 1 → translate_page 1 empty_entries page ≡ none
seven_unmapped page l h =
    let e : 7 ≡ page = omega (arith, l, h) in
    subst (λ p. translate_page 1 empty_entries p ≡ none) e page_7

translate-map_context_example :
    (after : PageTables ℕ) × (map_context next_frame 1 one_page empty_tables
      ≡ some (record one_page { context_mapped = true }, after))
    × Tree IsFree 1 after
    × (translate 1 after.entries 28700 ≡ in_frames one_page 28700 (translate 1 empty_entries 28700))
translate-map_context_example =
    translate-map_context next_frame IsFree next_frame-Supply 1 one_page empty_tables 28700
      empty-Tree one_page-Fits refl seven_unmapped (2, 3, refl, (3, 4, refl, (4, 5, refl, tt)))
      (omega arith) (omega arith)

-- byte 28 of the frame 300
in_frames_test : in_frames one_page 28700 none ≡ some (300 * 4096 + 28)
in_frames_test = refl
