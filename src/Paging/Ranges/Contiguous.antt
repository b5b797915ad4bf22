-- ===== src/Paging/Ranges/Contiguous.antt =====
-- Pages that follow one another are mapped to frames that follow one another.
use faastr.Common.{
  ℕ, zero, suc, ◌+◌, ◌-◌, ◌^◌, ◌≤◌, ◌<◌, ◌≡◌, ◌≢◌, [], Option, none, some, arith, refl, ap, ◌∙◌,
  leb, ltb, ◌&&◌, ◌==◌, if◌then◌else◌,
}
use faastr.Memory.FrameAllocator.{FrameAllocator}
use faastr.Memory.Pages.{p4_index}
use faastr.Memory.Pages.Iterated.{from}
use faastr.Paging.Entry.Fields.{IsFlags}
use faastr.Paging.Table.{PageTables}
use faastr.Paging.Mapper.{translate_page, map_to}
use faastr.Paging.Mapper.Supply.{Supply, Supplies}
use faastr.Paging.Mapper.Laws.{Tree, at_or_else}
use faastr.Paging.Mapper.Map.Laws.{map_to_lem}
use faastr.Paging.Ranges.{map_each}

-- three frames for each page
abbrev pub triple : ℕ → ℕ
triple zero = 0
triple (suc n) = suc (suc (suc (triple n)))

-- the frame of a page of the range, and what it was otherwise
abbrev pub shifted : ℕ → ℕ → ℕ → ℕ → Option ℕ → Option ℕ
shifted start frame count page before =
    if leb start page && ltb page (start + count) then some (frame + (page - start)) else before

shifted-suc :
    (start frame n page : ℕ) (before : Option ℕ)
    → shifted (suc start) (suc frame) n page (if page == start then some frame else before)
      ≡ shifted start frame (suc n) page before
shifted-suc start frame n page before = ground arith

nothing_shifted :
    (start frame page : ℕ) (before : Option ℕ) → before ≡ shifted start frame 0 page before
nothing_shifted start frame page before = ground arith

module _ {S : Type 0} (allocator : FrameAllocator S) (Free : S → ℕ → Type 0)
    (supply : Supply allocator Free) (p4 new_flags : ℕ) (ten : IsFlags new_flags)
    (bits : new_flags < 2 ^ 64) where
  map_each-step :
      (start frame n : ℕ) (s s' : PageTables S)
      → map_to allocator p4 start frame new_flags s ≡ some s'
      → map_each allocator p4 new_flags (from start (suc n)) (from frame (suc n)) s
        ≡ map_each allocator p4 new_flags (from (suc start) n) (from (suc frame) n) s'
  unfolding map_each
  map_each-step start frame n s s' h = rw h

  map_each-nil : (s : PageTables S) → map_each allocator p4 new_flags [] [] s ≡ some s
  unfolding map_each
  map_each-nil s = refl

  pub map_each_lem :
      (start frame n : ℕ) (s : PageTables S)
      → Tree Free p4 s
      → start + n ≤ 2 ^ 36
      → frame + n ≤ 2 ^ 40
      → ((page : ℕ) → start ≤ page → page < start + n → p4_index page ≢ 511)
      → ((page : ℕ) → start ≤ page → page < start + n → translate_page p4 s.entries page ≡ none)
      → Supplies allocator (triple n) s.frames
      → (after : PageTables S) × (map_each allocator p4 new_flags (from start n) (from frame n) s
          ≡ some after)
        × Tree Free p4 after
        × ((page : ℕ)
            → page < 2 ^ 36
            → p4_index page ≢ 511
            → translate_page p4 after.entries page
              ≡ shifted start frame n page (translate_page p4 s.entries page))
  map_each_lem start frame zero s tree a b proper unmapped supplies = (
    s,
    map_each-nil s,
    tree,
    λ page p q. nothing_shifted start frame page (translate_page p4 s.entries page),
  )
  map_each_lem start frame (suc n) s tree a b proper unmapped supplies =
      let m =
        map_to_lem allocator Free supply p4 (triple n) start frame new_flags s (tree.3)
          (proper start (omega arith) (omega arith)) (omega arith) supplies (omega arith) ten bits
          (unmapped start (omega arith) (omega arith)) in
      let (after, returned, tree', others) =
        map_each_lem (suc start) (suc frame) n m.after (m.parent', m.slot', m.level', m.tree)
          (omega arith) (omega arith) (λ page l h. proper page (omega arith) (omega arith))
          (λ page l h.
            m.others page (omega arith) (proper page (omega arith) (omega arith)) (omega arith)
            ∙ unmapped page (omega arith) (omega arith))
          m.supplies in
      (
        after,
        map_each-step start frame n s m.after m.returned ∙ returned,
        tree',
        λ page p q.
            others page p q
            ∙ ap (shifted (suc start) (suc frame) n page) (
                at_or_else start page (λ e. ap (translate_page p4 m.after.entries) e ∙ m.here)
                  (m.others page p q))
            ∙ shifted-suc start frame n page (translate_page p4 s.entries page),
      )
