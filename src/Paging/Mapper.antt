-- ===== src/Paging/Mapper.antt =====
-- kernel/src/arch/x86_64/paging/mapper.rs. `p4` is the frame of the table of the fourth level that
-- the mapper works on. A flush of the translation buffer changes no table; `MapperFlush` and
-- `MapperFlushAll` are the reminder to do it, and are left out. `none` is a panic.
pub mod Used
pub mod Forest
pub mod Write
pub mod Occupy
pub mod Grow
pub mod Link
pub mod Supply
pub mod Create
pub mod Walk
pub mod Translate
pub mod Same
pub mod Map
pub mod Vacate
pub mod Prune
pub mod Free
pub mod Unmap
pub mod Laws
use Prim.Native.Nat.{bit_or}
use faastr.Common.{
  ℕ, ◌+◌, ◌*◌, ◌%◌, ◌^◌, Bool, true, false, not, ◌||◌, Option, none, some, if◌then◌else◌,
}
use faastr.Common.Usize.{add_usize}
use faastr.Memory.Blocks.{containing_address, start_address}
use faastr.Memory.FrameAllocator.{FrameAllocator}
use faastr.Memory.Pages.{p4_index, p3_index, p2_index, p1_index}
use faastr.Paging.Entry.{present, flags, is_unused, set_unused, set, pointed_frame}
use faastr.Paging.Table.{
  PageTables, put, table_is_unused, increment_entry_count, decrement_entry_count, next_table,
  next_table_create, ◌>>=◌,
}

module _ (p4 : ℕ) (entries : ℕ → ℕ → ℕ) where
  unfoldable pub find_p1 : ℕ → Option ℕ
  find_p1 page = do
    p3 ← next_table entries p4 (p4_index page)
    p2 ← next_table entries p3 (p3_index page)
    next_table entries p2 (p2_index page)

  unfoldable pub translate_page : ℕ → Option ℕ
  translate_page page = do p1 ← find_p1 page; pointed_frame (entries p1 (p1_index page))

  pub translate_page_flags : ℕ → Option ℕ
  translate_page_flags page = do p1 ← find_p1 page; some (flags (entries p1 (p1_index page)))

  unfoldable pub translate : ℕ → Option ℕ
  translate virtual_address = do
    frame ← translate_page (containing_address virtual_address)
    some (add_usize (start_address frame) (virtual_address % 4096))

-- `decrement_entry_count`, then `set_unused`, of a table
unfoldable pub clear : (ℕ → ℕ → ℕ) → ℕ → ℕ → ℕ → ℕ → ℕ
clear entries table index =
    let counted = decrement_entry_count table entries in
    put counted table index (set_unused (counted table index))

module _ {S : Type 0} (allocator : FrameAllocator S) (p4 : ℕ) where
  -- the tables above the page, each made where it is missing
  unfoldable pub create_p1 : ℕ → PageTables S → Option (ℕ × PageTables S)
  create_p1 page s = do
    (p3, s3) ← next_table_create allocator p4 (p4_index page) s
    (p2, s2) ← next_table_create allocator p3 (p3_index page) s3
    next_table_create allocator p2 (p2_index page) s2

  -- the entry of the page, which must not be in use
  unfoldable pub fill : ℕ → ℕ → ℕ → ℕ → PageTables S → Option (PageTables S)
  fill page frame new_flags p1 s =
      let counted = increment_entry_count p1 s.entries in
      let entry = set frame (bit_or new_flags present) (counted p1 (p1_index page)) in
      if is_unused (s.entries p1 (p1_index page))
      then some (record s { entries = put counted p1 (p1_index page) entry })
      else none

  unfoldable pub map_to : ℕ → ℕ → ℕ → PageTables S → Option (PageTables S)
  map_to page frame new_flags s = do (p1, s1) ← create_p1 page s; fill page frame new_flags p1 s1

  -- `allocate_frames(1).expect("out of frames")`
  abbrev pub expect_frame : Option (Option ℕ × S) → Option (ℕ × S)
  expect_frame none = none
  expect_frame (some (none, frames)) = none
  expect_frame (some (some frame, frames)) = some (frame, frames)

  unfoldable pub map_page : ℕ → ℕ → PageTables S → Option (PageTables S)
  map_page page new_flags s = do
    (frame, frames) ← expect_frame (allocator.allocate_frames 1 s.frames)
    map_to page frame new_flags (record s { frames = frames })

  pub identity_map : ℕ → ℕ → PageTables S → Option (PageTables S)
  identity_map frame new_flags s =
      map_to (containing_address (start_address frame)) frame new_flags s

  unfoldable pub remap : ℕ → ℕ → PageTables S → Option (PageTables S)
  remap page new_flags s = do
    p1 ← find_p1 p4 s.entries page
    frame ← pointed_frame (s.entries p1 (p1_index page))
    some (record s {
      entries =
          put s.entries p1 (p1_index page)
            (set frame (bit_or new_flags present) (s.entries p1 (p1_index page)));
    })

  -- A table that the entry at an index leads to is cleared away, and its frame given back.
  unfoldable pub free_table : ℕ → ℕ → PageTables S → Option (PageTables S)
  free_table table index s = do
    frame ← pointed_frame (s.entries table index)
    frames ← allocator.deallocate_frames frame 1 s.frames
    some (record { entries = clear s.entries table index; frames = frames })

  -- Tables are cleared away from the first level up, as long as they are unused.
  unfoldable pub free_p3 : ℕ → ℕ → PageTables S → Option (PageTables S)
  free_p3 page p3 s =
      if table_is_unused s.entries p3 then free_table p4 (p4_index page) s else some s

  unfoldable pub free_p2 : ℕ → ℕ → ℕ → PageTables S → Option (PageTables S)
  free_p2 page p3 p2 s =
      if table_is_unused s.entries p2
      then (free_table p3 (p3_index page) s >>= free_p3 page p3)
      else some s

  unfoldable pub free_p1 : ℕ → ℕ → ℕ → ℕ → PageTables S → Option (PageTables S)
  free_p1 page p3 p2 p1 s =
      if table_is_unused s.entries p1
      then (free_table p2 (p2_index page) s >>= free_p2 page p3 p2)
      else some s

  -- the frame that the page was mapped to, and the tables without it
  unfoldable pub unmap_inner : ℕ → Bool → PageTables S → Option (ℕ × PageTables S)
  unmap_inner page keep_parents s = do
    p3 ← next_table s.entries p4 (p4_index page)
    p2 ← next_table s.entries p3 (p3_index page)
    p1 ← next_table s.entries p2 (p2_index page)
    frame ← pointed_frame (s.entries p1 (p1_index page))
    let s1 = record s { entries = clear s.entries p1 (p1_index page) }
    s' ← (if keep_parents then some s1 else free_p1 page p3 p2 p1 s1)
    some (frame, s')

  pub unmap : ℕ → PageTables S → Option (PageTables S)
  unmap page s = do
    (frame, s') ← unmap_inner page false s
    frames ← allocator.deallocate_frames frame 1 s'.frames
    some (record s' { frames = frames })

  pub unmap_return : ℕ → Bool → PageTables S → Option (ℕ × PageTables S)
  unmap_return page keep_parents s = unmap_inner page keep_parents s
