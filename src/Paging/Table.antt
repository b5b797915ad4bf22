-- ===== src/Paging/Table.antt =====
-- kernel/src/arch/x86_64/paging/table.rs, over the memory that holds the tables. A table is named
-- by the frame it is in: Table/Recursive shows that the addresses that the source computes lead
-- to that frame. `none` is a panic.
pub mod Recursive
use Prim.Native.Nat.{bit_or}
use faastr.Common.{
  ℕ, ◌+◌, ◌-◌, ◌*◌, ◌/◌, ◌%◌, ◌^◌, Bool, true, false, not, ◌&&◌, Option, none, some, ltb, ◌==◌,
  if◌then◌else◌,
}
use faastr.Memory.Blocks.{containing_address}
use faastr.Memory.FrameAllocator.{FrameAllocator}
use faastr.Memory.Pages.{p4_index, p3_index, p2_index, p1_index}
use faastr.Paging.Entry.{
  present, writable, user_accessible, is_present, is_huge, set_zero, address, flags, set,
  counter_bits, set_counter_bits,
}

module _ {A B : Type 0} where
  infixl 5 ◌>>=◌
  abbrev pub ◌>>=◌ : Option A → (A → Option B) → Option B
  none >>= f = none
  some a >>= f = f a

abbrev pub recursive_page_pml4 : ℕ
recursive_page_pml4 = 511

-- The entry at an index of the table in a frame, and the state of the allocator of frames.
pub record PageTables (S : Type 0) : Type 0 where
  pub entries : ℕ → ℕ → ℕ
  pub frames : S

-- the memory in which the entry at an index is replaced
unfoldable pub put : (ℕ → ℕ → ℕ) → ℕ → ℕ → ℕ → ℕ → ℕ → ℕ
put entries table index entry t i = if t == table && i == index then entry else entries t i

-- `table.zero()`, for the 512 indices that there are
unfoldable pub zero_table : (ℕ → ℕ → ℕ) → ℕ → ℕ → ℕ → ℕ
zero_table entries table t i = if t == table then set_zero else entries t i

unfoldable pub entry_count : (ℕ → ℕ → ℕ) → ℕ → ℕ
entry_count entries table = counter_bits (entries table 0)

unfoldable pub set_entry_count : ℕ → ℕ → (ℕ → ℕ → ℕ) → ℕ → ℕ → ℕ
set_entry_count count table entries = put entries table 0 (set_counter_bits count (entries table 0))

unfoldable pub table_is_unused : (ℕ → ℕ → ℕ) → ℕ → Bool
table_is_unused entries table = if ltb 0 (entry_count entries table) then false else true

unfoldable pub increment_entry_count : ℕ → (ℕ → ℕ → ℕ) → ℕ → ℕ → ℕ
increment_entry_count table entries =
    set_entry_count ((entry_count entries table + 1) % 2 ^ 64) table entries

unfoldable pub decrement_entry_count : ℕ → (ℕ → ℕ → ℕ) → ℕ → ℕ → ℕ
decrement_entry_count table entries =
    set_entry_count ((entry_count entries table + 2 ^ 64 - 1) % 2 ^ 64) table entries

-- the test of `next_table_address`
abbrev pub has_next : ℕ → Bool
has_next entry = is_present (flags entry) && not (is_huge (flags entry))

unfoldable pub next_table_address : ℕ → ℕ → ℕ → Option ℕ
next_table_address entry table_address index =
    if has_next entry
    then some (bit_or (table_address * 512 % 2 ^ 64) (index * 4096 % 2 ^ 64))
    else none

unfoldable pub next_table : (ℕ → ℕ → ℕ) → ℕ → ℕ → Option ℕ
next_table entries table index =
    if has_next (entries table index)
    then some (containing_address (address (entries table index)))
    else none

-- The steps of `next_table_create` once there is a frame: the tables are open to all levels, the
-- rights are those of the page's own entry.
unfoldable pub link_table : ℕ → ℕ → ℕ → (ℕ → ℕ → ℕ) → ℕ → ℕ → ℕ
link_table frame table index entries =
    let counted = increment_entry_count table entries in
    put counted table index
      (set frame (bit_or (bit_or present writable) user_accessible) (counted table index))

-- The table that the processor finds at a virtual address, through four tables from the one in
-- the frame `cr3` on.
unfoldable pub table_at : (ℕ → ℕ → ℕ) → ℕ → ℕ → Option ℕ
table_at entries cr3 table_address =
    let page = containing_address table_address in
    do
      p3 ← next_table entries cr3 (p4_index page)
      p2 ← next_table entries p3 (p3_index page)
      p1 ← next_table entries p2 (p2_index page)
      next_table entries p1 (p1_index page)

module _ {S : Type 0} where
  -- `self.next_table_mut(index).unwrap().zero(); self.next_table_mut(index).unwrap()`
  abbrev pub zero_next : ℕ → ℕ → PageTables S → Option (ℕ × PageTables S)
  zero_next table index s = elim (next_table s.entries table index) [
    | none ↦ none
    | some next ↦
        let zeroed = zero_table s.entries next in
        elim (next_table zeroed table index) [
          | none ↦ none
          | some next' ↦ some (next', record s { entries = zeroed })
        ]
  ]

  abbrev pub create_with : ℕ → ℕ → (ℕ → ℕ → ℕ) → Option (Option ℕ × S) → Option (ℕ × PageTables S)
  create_with table index entries none = none
  create_with table index entries (some (none, frames)) = none
  create_with table index entries (some (some frame, frames)) =
      zero_next table index
        (record { entries = link_table frame table index entries; frames = frames })

module _ {S : Type 0} (allocator : FrameAllocator S) where
  unfoldable pub next_table_create : ℕ → ℕ → PageTables S → Option (ℕ × PageTables S)
  next_table_create table index s = elim (next_table s.entries table index) [
    | some next ↦ some (next, s)
    | none ↦
        if is_huge (flags (s.entries table index))
        then none
        else create_with table index s.entries (allocator.allocate_frames 1 s.frames)
  ]
