-- ===== src/Context/ContextMemory.antt =====
-- `VallocMapping` and `ContextMemory` of kernel/src/context/memory.rs, over the page tables and the
-- virtual addresses that are free. The mapper works on the tables from the frame `p4` on. An `Arc`
-- is its value: what is freed when the last clone goes is not modelled, and neither are the bytes.
-- The outer `none` is a panic, the inner one the `None` of the source.
pub mod Mapped
use Prim.Native.Nat.{bit_or}
use faastr.Common.{ℕ, suc, ◌*◌, Bool, true, false, Option, none, some, List, ◌==◌, if◌then◌else◌}
use faastr.Common.Usize.{add_usize, sub_usize, mul_usize}
use faastr.Memory.Blocks.{containing_address, start_address}
use faastr.Memory.FrameAllocator.{FrameAllocator}
use faastr.Memory.Frames
use faastr.Memory.Frames.{Frames, frames_iter}
use faastr.Memory.Pages.{
  PageIter, range_inclusive, collect, VallocPages, iter, allocate_unmapped_pages, drop_pages,
}
use faastr.Memory.Valloc.{Valloc}
use faastr.Paging.Table.{PageTables, ◌>>=◌}
use faastr.Paging.Ranges.{map_each, unmap_each, remap_each}

pub record VallocMapping : Type 0 where
  pub pages : VallocPages
  pub flags : ℕ
  pub frames : Frames

pub record ContextMemory : Type 0 where
  pub valloc_mapping : Option VallocMapping
  pub context_address : ℕ
  pub context_mapped : Bool
  pub frames : Frames
  pub flags : ℕ

-- the free virtual addresses, and the tables with the allocator of frames
pub record KernelMemory (S : Type 0) : Type 0 where
  pub valloc : Valloc
  pub tables : PageTables S

abbrev pub len_bytes : ContextMemory → ℕ
len_bytes memory = mul_usize memory.frames.count 4096

-- `self.valloc_mapping.as_ref()?.pages.start_address()`
abbrev pub address_of : Option VallocMapping → Option ℕ
address_of none = none
address_of (some mapping) = some (start_address mapping.pages.start)

pub kernel_address : ContextMemory → Option ℕ
kernel_address memory = address_of memory.valloc_mapping

-- the pages at the context's address
abbrev pub context_pages : ContextMemory → PageIter
context_pages memory = range_inclusive (containing_address memory.context_address) (
    containing_address
      (sub_usize (add_usize memory.context_address (mul_usize memory.frames.count 4096)) 1))

-- more than the pages that `context_pages` can yield
abbrev pub enough : ContextMemory → ℕ
enough memory = suc (suc memory.frames.count)

abbrev pub or_else : Option ℕ → ℕ → ℕ
or_else none a = a
or_else (some b) a = b

pub ref_clone : Option ℕ → ContextMemory → ContextMemory
ref_clone new_address memory = record memory {
  context_address = or_else new_address memory.context_address;
  context_mapped = false;
}

module _ {S : Type 0} (allocator : FrameAllocator S) (p4 : ℕ) where
  -- `ContextMemory::new`
  abbrev pub as_memory :
      ℕ
      → ℕ
      → Option (Option Frames × S)
      → PageTables S
      → Option (Option ContextMemory × PageTables S)
  as_memory address flags none s = none
  as_memory address flags (some (none, frames)) s = some (none, record s { frames = frames })
  as_memory address flags (some (some f, frames)) s = some (
    some (record {
      valloc_mapping = none;
      context_address = address;
      context_mapped = false;
      frames = f;
      flags = flags;
    }),
    record s { frames = frames },
  )

  pub new : ℕ → ℕ → ℕ → PageTables S → Option (Option ContextMemory × PageTables S)
  new count address flags s =
      if count == 0 then none else as_memory address flags (Frames.new allocator count s.frames) s

  -- `VallocMapping::new`, once there are pages
  abbrev pub map_pages :
      ℕ
      → Frames
      → Option (Option VallocPages × Valloc)
      → PageTables S
      → Option (Option VallocMapping × KernelMemory S)
  map_pages flags frames none s = none
  map_pages flags frames (some (none, valloc)) s =
      some (none, record { valloc = valloc; tables = s })
  map_pages flags frames (some (some pages, valloc)) s = do
    page_list ← collect (suc pages.count) (iter pages)
    frame_list ← collect (suc frames.count) (frames_iter frames)
    tables ← map_each allocator p4 flags page_list frame_list s
    some (
      some (record { pages = pages; flags = flags; frames = frames }),
      record { valloc = valloc; tables = tables },
    )

  unfoldable pub new_mapping :
      ℕ → Frames → KernelMemory S → Option (Option VallocMapping × KernelMemory S)
  new_mapping flags frames k =
      map_pages flags frames (allocate_unmapped_pages frames.count k.valloc) k.tables

  -- `VallocMapping::drop`, and the drop of its pages
  pub drop_mapping : VallocMapping → KernelMemory S → Option (KernelMemory S)
  drop_mapping mapping k = do
    page_list ← collect (suc mapping.pages.count) (iter mapping.pages)
    tables ← unmap_each allocator p4 page_list k.tables
    valloc ← drop_pages mapping.pages k.valloc
    some (record { valloc = valloc; tables = tables })

  abbrev pub with_mapping :
      ContextMemory
      → Option (Option VallocMapping × KernelMemory S)
      → Option (Option ℕ × ContextMemory × KernelMemory S)
  with_mapping memory none = none
  with_mapping memory (some (none, k)) = some (none, memory, k)
  with_mapping memory (some (some mapping, k)) =
      some (
        some (start_address mapping.pages.start),
        record memory { valloc_mapping = some mapping },
        k,
      )

  -- `map_to_kernel`, by whether there is a mapping
  abbrev pub map_unless :
      Option VallocMapping
      → ℕ
      → ContextMemory
      → KernelMemory S
      → Option (Option ℕ × ContextMemory × KernelMemory S)
  map_unless (some mapping) flags memory k =
      some (some (start_address mapping.pages.start), memory, k)
  map_unless none flags memory k = with_mapping memory (new_mapping flags memory.frames k)

  pub map_to_kernel :
      ℕ → ContextMemory → KernelMemory S → Option (Option ℕ × ContextMemory × KernelMemory S)
  map_to_kernel flags memory k = map_unless memory.valloc_mapping flags memory k

  unfoldable pub map_now : ContextMemory → PageTables S → Option (ContextMemory × PageTables S)
  map_now memory s = do
    page_list ← collect (enough memory) (context_pages memory)
    frame_list ← collect (suc memory.frames.count) (frames_iter memory.frames)
    s' ← map_each allocator p4 memory.flags page_list frame_list s
    some (record memory { context_mapped = true }, s')

  unfoldable pub map_context : ContextMemory → PageTables S → Option (ContextMemory × PageTables S)
  map_context memory s = if memory.context_mapped then some (memory, s) else map_now memory s

  pub unmap_now : ContextMemory → PageTables S → Option (ContextMemory × PageTables S)
  unmap_now memory s = do
    page_list ← collect (enough memory) (context_pages memory)
    s' ← unmap_each allocator p4 page_list s
    some (record memory { context_mapped = false }, s')

  pub unmap_context : ContextMemory → PageTables S → Option (ContextMemory × PageTables S)
  unmap_context memory s = if memory.context_mapped then unmap_now memory s else some (memory, s)

  pub remap_now : ContextMemory → PageTables S → Option (ContextMemory × PageTables S)
  remap_now memory s = do
    page_list ← collect (enough memory) (context_pages memory)
    s' ← remap_each allocator p4 memory.flags page_list s
    some (record memory { context_mapped = true }, s')

  pub remap_context : ContextMemory → PageTables S → Option (ContextMemory × PageTables S)
  remap_context memory s = if memory.context_mapped then some (memory, s) else remap_now memory s
