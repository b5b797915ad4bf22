-- ===== src/Paging/Tests.antt =====
-- Runs of the page tables, and the theorems at concrete inputs.
use faastr.Common.{
  ℕ, ◌≡◌, false, Option, none, some, arith, refl, sym, subst, some_inj, ◌∙◌, ◌==◌, if◌then◌else◌,
}
use faastr.Paging.Entry.{
  is_unused, address, flags, pointed_frame, set, counter_bits, set_counter_bits,
}
use faastr.Paging.Table.{
  PageTables, put, zero_table, entry_count, set_entry_count, increment_entry_count,
  next_table_address, next_table, table_at, link_table, next_table_create, ◌>>=◌,
}
use faastr.Paging.Table.Recursive.{table_at-next_table_address}
use faastr.Paging.Mapper.{translate_page, find_p1, create_p1, fill, map_to, unmap_inner}
use faastr.Paging.Mapper.Supply.{Supplies}
use faastr.Paging.Mapper.Laws.{Tree, translate_page-map_to, translate_page-unmap_inner}
use faastr.Paging.Samples.{
  next_frame, IsFree, next_frame-Supply, empty_entries, empty_tables, empty-Tree,
}

supplied : Supplies next_frame 3 2
supplied = (2, 3, refl, (3, 4, refl, (4, 5, refl, tt)))

not_mapped : translate_page 1 empty_entries 5 ≡ none
unfolding translate_page find_p1 next_table flags address
not_mapped = refl

translate_page-map_to_example :
    (after : PageTables ℕ) × (map_to next_frame 1 5 77 3 empty_tables ≡ some after)
    × Tree IsFree 1 after
    × (translate_page 1 after.entries 5
        ≡ (if 5 == 5 then some 77 else translate_page 1 empty_entries 5))
translate_page-map_to_example =
    translate_page-map_to next_frame IsFree next_frame-Supply 1 5 77 3 empty_tables empty-Tree
      (omega arith) (omega arith) supplied (omega arith) refl (omega arith) not_mapped 5
      (omega arith) (omega arith)

-- The tables with page 5 at the frame 77: tables of the lower levels are in the frames 2, 3 and 4.
abbrev result : Option (PageTables ℕ) → PageTables ℕ
result none = empty_tables
result (some s) = s

abbrev mapped_tables : PageTables ℕ
mapped_tables = result (map_to next_frame 1 5 77 3 empty_tables)

map_to_5 : map_to next_frame 1 5 77 3 empty_tables ≡ some mapped_tables
unfolding map_to create_p1 fill next_table_create link_table zero_table put increment_entry_count
    set_entry_count entry_count next_table flags address set counter_bits set_counter_bits is_unused
map_to_5 = refl

mapped_5 : translate_page 1 mapped_tables.entries 5 ≡ some 77
unfolding translate_page find_p1 pointed_frame map_to create_p1 fill next_table_create link_table
    zero_table put increment_entry_count set_entry_count entry_count next_table flags address set
    counter_bits set_counter_bits is_unused
mapped_5 = refl

count_5 : entry_count mapped_tables.entries 1 ≡ 1
unfolding map_to create_p1 fill next_table_create link_table zero_table put increment_entry_count
    set_entry_count entry_count next_table flags address set counter_bits set_counter_bits is_unused
count_5 = refl

mapped-Tree : Tree IsFree 1 mapped_tables
mapped-Tree =
    let (after, returned, tree, _) = translate_page-map_to_example in
    subst (Tree IsFree 1) (some_inj (sym returned ∙ map_to_5)) tree

translate_page-unmap_inner_example :
    (after : PageTables ℕ) × (unmap_inner next_frame 1 5 false mapped_tables ≡ some (77, after))
    × Tree IsFree 1 after
    × (translate_page 1 after.entries 6
        ≡ (if 6 == 5 then none else translate_page 1 mapped_tables.entries 6))
translate_page-unmap_inner_example =
    translate_page-unmap_inner next_frame IsFree next_frame-Supply (λ s f. (s, refl)) 1 5
      mapped_tables mapped-Tree (omega arith) (omega arith) (omega (arith, count_5)) mapped_5 false
      6 (omega arith) (omega arith)

supplied_5 : Supplies next_frame 3 mapped_tables.frames
unfolding map_to create_p1 fill next_table_create link_table zero_table put increment_entry_count
    set_entry_count entry_count next_table flags address set counter_bits set_counter_bits is_unused
supplied_5 = (5, 6, refl, (6, 7, refl, (7, 8, refl, tt)))

mapped_recursive :
    (next_table mapped_tables.entries 1 511 ≡ some 1)
    × (table_at mapped_tables.entries 1 0xfffffffffffff000 ≡ some 1)
unfolding map_to create_p1 fill next_table_create link_table zero_table put increment_entry_count
    set_entry_count entry_count next_table flags address set counter_bits set_counter_bits is_unused
    table_at
mapped_recursive = (refl, refl)

-- The address of the table of the third level for index 0, by way of the recursive entry.
table_at-next_table_address_example :
    (next_table_address (mapped_tables.entries 1 0) 0xfffffffffffff000 0
      >>= table_at mapped_tables.entries 1)
    ≡ next_table mapped_tables.entries 1 0
table_at-next_table_address_example =
    table_at-next_table_address mapped_tables.entries 1 0xfffffffffffff000 0 mapped_recursive.0
      (omega arith) (omega arith) (omega arith) (omega arith) mapped_recursive.1

-- That address is that of the table in the frame 2.
p3_address :
    next_table_address (mapped_tables.entries 1 0) 0xfffffffffffff000 0 ≡ some 0xffffffffffe00000
unfolding map_to create_p1 fill next_table_create link_table zero_table put increment_entry_count
    set_entry_count entry_count next_table flags address set counter_bits set_counter_bits is_unused
    next_table_address
p3_address = refl
