-- ===== src/Context/ContextMemory/Mapped.antt =====
-- `map_context`: the addresses of the context lead to the frames, byte by byte.
use faastr.Common.{
  ℕ, suc, ◌+◌, ◌-◌, ◌*◌, ◌/◌, ◌%◌, ◌^◌, ◌≤◌, ◌<◌, ◌≡◌, ◌≢◌, ◌⊎◌, inl, inr, Bool, Bool-cases, List,
  Option, none, some, true, false, arith, ap, ◌∙◌, leb, ltb, ◌&&◌, if◌then◌else◌,
}
use faastr.Memory.FrameAllocator.{FrameAllocator}
use faastr.Memory.Frames.{frames_iter, frames_iter_lem}
use faastr.Memory.Pages.{p4_index, collect}
use faastr.Memory.Pages.Iterated.{from, collect_lem}
use faastr.Paging.Entry.Fields.{IsFlags}
use faastr.Paging.Table.{PageTables}
use faastr.Paging.Mapper.{translate_page, translate}
use faastr.Paging.Mapper.Supply.{Supply, Supplies}
use faastr.Paging.Mapper.Laws.{Tree}
use faastr.Paging.Ranges.{map_each}
use faastr.Paging.Ranges.Contiguous.{triple, shifted, map_each_lem}
use faastr.Context.ContextMemory.{ContextMemory, context_pages, enough, map_now, map_context}

-- The frames and the pages are inside the address spaces, and the address is that of a page, below
-- the recursive entry.
pub record Fits (memory : ContextMemory) : Type 0 where
  pub some_frame : 0 < memory.frames.count
  pub aligned : memory.context_address % 4096 ≡ 0
  pub inside : memory.context_address + memory.frames.count * 4096 ≤ 511 * 2 ^ 39
  pub frames_inside : memory.frames.start + memory.frames.count ≤ 2 ^ 40
  pub ten : IsFlags memory.flags
  pub bits : memory.flags < 2 ^ 64

context_pages_lem :
    (memory : ContextMemory)
    → Fits memory
    → collect (enough memory) (context_pages memory)
      ≡ some (from (memory.context_address / 4096) memory.frames.count)
context_pages_lem memory fits =
    collect_lem memory.frames.count (enough memory) (memory.context_address / 4096)
      (omega (arith, fits.some_frame, fits.aligned, fits.inside))
      (omega (arith, fits.some_frame, fits.aligned, fits.inside)) (omega arith)

-- a byte address, as its page is translated
translate_lem :
    (p4 : ℕ) (entries : ℕ → ℕ → ℕ) (x : ℕ) {frame : ℕ}
    → translate_page p4 entries (x / 4096) ≡ some frame
    → frame < 2 ^ 40
    → translate p4 entries x ≡ some (frame * 4096 + x % 4096)
unfolding translate
translate_lem p4 entries x {frame} h b =
    let small : (frame * 4096 % 2 ^ 64 + x % 4096) % 2 ^ 64 ≡ frame * 4096 + x % 4096 =
      omega arith in
    rw (h, small)

-- the address in the frames, and what it was otherwise
abbrev pub in_frames : ContextMemory → ℕ → Option ℕ → Option ℕ
in_frames memory x before =
    if leb memory.context_address x && ltb x (memory.context_address + memory.frames.count * 4096)
    then some (memory.frames.start * 4096 + (x - memory.context_address))
    else before

translate_same :
    (p4 : ℕ) (entries entries' : ℕ → ℕ → ℕ) (x : ℕ)
    → translate_page p4 entries' (x / 4096) ≡ translate_page p4 entries (x / 4096)
    → translate p4 entries' x ≡ translate p4 entries x
unfolding translate
translate_same p4 entries entries' x h = rw h

module _ (memory : ContextMemory) (fits : Fits memory) (p4 : ℕ) (entries entries' : ℕ → ℕ → ℕ)
    (x : ℕ)
    (page : translate_page p4 entries' (x / 4096)
      ≡ shifted
          (memory.context_address / 4096)
          memory.frames.start
          memory.frames.count
          (x / 4096)
          (translate_page p4 entries (x / 4096))) where
  abbrev inside_range : Bool
  inside_range =
      leb memory.context_address x && ltb x (memory.context_address + memory.frames.count * 4096)

  within :
      inside_range ≡ true
      → translate p4 entries' x ≡ some (memory.frames.start * 4096 + (x - memory.context_address))
  within h =
      let start = memory.context_address / 4096 in
      let lo : memory.context_address ≤ x = ground (arith, h) in
      let hi : x < memory.context_address + memory.frames.count * 4096 = ground (arith, h) in
      let p : start ≤ x / 4096 = omega (arith, lo) in
      let q : x / 4096 < start + memory.frames.count = omega (arith, hi, fits.aligned) in
      let found : translate_page p4 entries' (x / 4096)
          ≡ some (memory.frames.start + (x / 4096 - start)) =
        page ∙ ground (arith, p, q) in
      let at_byte : (memory.frames.start + (x / 4096 - start)) * 4096 + x % 4096
          ≡ memory.frames.start * 4096 + (x - memory.context_address) =
        omega (arith, lo, fits.aligned) in
      translate_lem p4 entries' x found (omega (arith, p, q, fits.frames_inside)) ∙ ap some at_byte

  without : inside_range ≡ false → translate p4 entries' x ≡ translate p4 entries x
  without h =
      let start = memory.context_address / 4096 in
      let out : (x < memory.context_address)
          ⊎ (memory.context_address + memory.frames.count * 4096 ≤ x) =
        ground (arith, h) in
      let out' : (x / 4096 < start) ⊎ (start + memory.frames.count ≤ x / 4096) = elim out [
        | inl l ↦ inl (omega (arith, l, fits.aligned))
        | inr l ↦ inr (omega (arith, l, fits.aligned))
      ] in
      translate_same p4 entries entries' x (page ∙ ground (arith, out'))

  translate-in_frames : translate p4 entries' x ≡ in_frames memory x (translate p4 entries x)
  translate-in_frames = elim (Bool-cases inside_range) [
    | inl h ↦ rw h (within h)
    | inr h ↦ rw h (without h)
  ]

module _ {S : Type 0} (allocator : FrameAllocator S) (Free : S → ℕ → Type 0)
    (supply : Supply allocator Free) (p4 : ℕ) (memory : ContextMemory) (s : PageTables S) where
  map_context-returns :
      {page_list frame_list : List ℕ} {after : PageTables S}
      → memory.context_mapped ≡ false
      → collect (enough memory) (context_pages memory) ≡ some page_list
      → collect (suc memory.frames.count) (frames_iter memory.frames) ≡ some frame_list
      → map_each allocator p4 memory.flags page_list frame_list s ≡ some after
      → map_context allocator p4 memory s ≡ some (record memory { context_mapped = true }, after)
  unfolding map_context map_now
  map_context-returns h a b c = rw (h, a, b, c)

  -- Where a context's memory is not mapped to the context yet, its address is that of a page below
  -- the recursive entry, none of its pages is in use, the tables are a tree and there are frames
  -- enough for more tables, map_context returns: the memory is marked as mapped, the tables are a
  -- tree again, each address of the memory leads to the byte of its frames at the same offset, and
  -- every other address where it led before (but for those of the recursive entry).
  pub translate-map_context :
      (x : ℕ)
      → Tree Free p4 s
      → Fits memory
      → memory.context_mapped ≡ false
      → ((page : ℕ)
          → memory.context_address / 4096 ≤ page
          → page < memory.context_address / 4096 + memory.frames.count
          → translate_page p4 s.entries page ≡ none)
      → Supplies allocator (triple memory.frames.count) s.frames
      → x < 2 ^ 48
      → p4_index (x / 4096) ≢ 511
      → (after : PageTables S) × (map_context allocator p4 memory s
          ≡ some (record memory { context_mapped = true }, after))
        × Tree Free p4 after
        × (translate p4 after.entries x ≡ in_frames memory x (translate p4 s.entries x))
  translate-map_context x tree fits unmapped_yet unmapped supplies b q =
      let (after, returned, tree', pages) =
        map_each_lem allocator Free supply p4 memory.flags fits.ten fits.bits
          (memory.context_address / 4096) memory.frames.start memory.frames.count s tree
          (omega (arith, fits.inside)) fits.frames_inside
          (λ page l h. omega (arith, fits.inside, l, h)) unmapped supplies in
      (
        after,
        map_context-returns unmapped_yet (context_pages_lem memory fits)
            (frames_iter_lem memory.frames fits.some_frame (omega (arith, fits.frames_inside)))
            returned,
        tree',
        translate-in_frames memory fits p4 s.entries after.entries x
            (pages (x / 4096) (omega arith) q),
      )
