-- ===== src/Paging/Mapper/Free.antt =====
-- Tables with nothing in use are given back, from the first level up.
use faastr.Common.{
  ℕ, ◌<◌, ◌≡◌, ◌≢◌, inl, inr, true, false, Option, none, some, arith, refl, sym, ap, ◌∙◌,
  ℕ_discrete, Bool-cases,
}
use faastr.Memory.FrameAllocator.{FrameAllocator}
use faastr.Memory.Pages.{p4_index, p3_index, p2_index}
use faastr.Paging.Entry.{is_unused, pointed_frame}
use faastr.Paging.Entry.Fields.{pointed_frame-unused}
use faastr.Paging.Table.{PageTables, next_table, entry_count, table_is_unused}
use faastr.Paging.Mapper.{translate_page, clear, free_table, free_p3, free_p2, free_p1}
use faastr.Paging.Mapper.Used.{used_pos, unused_of_used}
use faastr.Paging.Mapper.Forest.{IsForest, Proper}
use faastr.Paging.Mapper.Grow.{update, update_ne, update_self, pointed_of_next}
use faastr.Paging.Mapper.Prune
use faastr.Paging.Mapper.Supply.{Supply, IsTree}
use faastr.Paging.Mapper.Translate.{translate_page-Grows}

-- A table whose counter is 0 points nowhere.
empty_of_unused :
    {p4 : ℕ} (entries : ℕ → ℕ → ℕ) {parent slot level : ℕ → ℕ} (c : ℕ)
    → IsForest p4 entries parent slot level
    → 0 < level c
    → level c < 4
    → table_is_unused entries c ≡ true
    → (j : ℕ) → j < 512
    → pointed_frame (entries c j) ≡ none
unfolding table_is_unused
empty_of_unused entries c forest p q u j b =
    let zero_count : entry_count entries c ≡ 0 = ground (arith, u) in
    pointed_frame-unused (entries c j)
      (unused_of_used (entries c) j 512 (sym (forest.counted c p q) ∙ zero_count) b)

taken_of_next :
    (entries : ℕ → ℕ → ℕ) (t i : ℕ) {c : ℕ}
    → next_table entries t i ≡ some c
    → is_unused (entries t i) ≡ false
taken_of_next entries t i h = elim (Bool-cases (is_unused (entries t i))) [
  | inl u ↦ absurd (cc (pointed_frame-unused (entries t i) u, pointed_of_next entries t i h))
  | inr u ↦ u
]

count_of_next :
    {p4 : ℕ} (entries : ℕ → ℕ → ℕ) {parent slot level : ℕ → ℕ} (t i : ℕ) {c : ℕ}
    → IsForest p4 entries parent slot level
    → 0 < level t
    → level t < 4
    → i < 512
    → next_table entries t i ≡ some c
    → 0 < entry_count entries t
count_of_next entries t i forest p q b h =
    omega (arith, forest.counted t p q, used_pos (entries t) i 512 (taken_of_next entries t i h) b)

-- One table is given back.
record Freed {S : Type 0} (allocator : FrameAllocator S) (Free : S → ℕ → Type 0) (p4 t i : ℕ)
    (s : PageTables S) (parent slot level : ℕ → ℕ) : Type 0 where
  after : PageTables S
  level' : ℕ → ℕ
  returned : free_table allocator p4 t i s ≡ some after
  tree : IsTree Free p4 after parent slot level'
  same :
      (page' : ℕ)
      → p4_index page' ≢ 511
      → translate_page p4 after.entries page' ≡ translate_page p4 s.entries page'
  kept : (f j : ℕ) → f ≢ t → next_table after.entries f j ≡ next_table s.entries f j
  counts : (f : ℕ) → f ≢ t → entry_count after.entries f ≡ entry_count s.entries f

-- Tables that are given back or not, with a result.
pub record Trimmed {S : Type 0} (Free : S → ℕ → Type 0) (p4 : ℕ) (s : PageTables S)
    (parent slot : ℕ → ℕ) (r : Option (PageTables S)) : Type 0 where
  pub after : PageTables S
  pub level' : ℕ → ℕ
  pub returned : r ≡ some after
  pub tree : IsTree Free p4 after parent slot level'
  pub same :
      (page' : ℕ)
      → p4_index page' ≢ 511
      → translate_page p4 after.entries page' ≡ translate_page p4 s.entries page'

module _ {S : Type 0} (allocator : FrameAllocator S) (Free : S → ℕ → Type 0)
    (supply : Supply allocator Free)
    (returns : (s : S) (f : ℕ) → (s' : S) × (allocator.deallocate_frames f 1 s ≡ some s'))
    (p4 : ℕ) where
  free_table-returns :
      (t i : ℕ) (s : PageTables S) {c : ℕ} {frames : S}
      → pointed_frame (s.entries t i) ≡ some c
      → allocator.deallocate_frames c 1 s.frames ≡ some frames
      → free_table allocator p4 t i s
        ≡ some (record { entries = clear s.entries t i; frames = frames })
  unfolding free_table
  free_table-returns t i s h k = rw (h, k)

  free_table_lem :
      (t i c : ℕ) (s : PageTables S) {parent slot level : ℕ → ℕ}
      → IsTree Free p4 s parent slot level
      → 1 < level t
      → Proper level t i
      → i < 512
      → next_table s.entries t i ≡ some c
      → table_is_unused s.entries c ≡ true
      → 0 < entry_count s.entries t
      → Freed allocator Free p4 t i s parent slot level
  free_table_lem t i c s {level = level} tree p q b h u k =
      let forest = tree.forest in
      let l = forest.below t i c p q h in
      let empty =
        empty_of_unused s.entries c forest (omega (arith, p, l)) (omega (arith, l, forest.low t))
          u in
      let taken = taken_of_next s.entries t i h in
      let (frames, e) = returns s.frames c in
      let grows = Prune.pruned-Grows s.entries t i c forest p q b h empty taken k in
      let pruned = Prune.pruned-IsForest s.entries t i c forest p q b h empty taken k in
      record {
        after = record { entries = clear s.entries t i; frames = frames };
        level' = update level c 0;
        returned = free_table-returns t i s (pointed_of_next s.entries t i h) e;
        tree = record {
          forest = pruned;
          unshared = λ g free. elim (ℕ_discrete g c) [
            | yes g_c ↦ ap (update level c 0) g_c ∙ update_self level c 0
            | no ne ↦ elim (supply.gives s.frames frames c g e free) [
              | inl old ↦ update_ne level c 0 g ne ∙ tree.unshared g old
              | inr g_c ↦ absurd (ne g_c)
            ]
          ];
          small = Prune.pruned_small s.entries t i c forest p q b h empty taken k tree.small;
        };
        same = λ page' r. sym (translate_page-Grows page' pruned r grows);
        kept = Prune.next_table-kept s.entries t i c forest p q b h empty taken k;
        counts = Prune.entry_count-kept s.entries t i c forest p q b h empty taken k;
      }

  -- Nothing is given back.
  untrimmed :
      (s : PageTables S) {parent slot level : ℕ → ℕ} {r : Option (PageTables S)}
      → IsTree Free p4 s parent slot level
      → r ≡ some s
      → Trimmed Free p4 s parent slot r
  untrimmed s {level = level} tree e = record {
    after = s;
    level' = level;
    returned = e;
    tree = tree;
    same = λ page' r. refl;
  }

  free_p3_lem :
      (page p3 : ℕ) (s : PageTables S) {parent slot level : ℕ → ℕ}
      → IsTree Free p4 s parent slot level
      → p4_index page ≢ 511
      → next_table s.entries p4 (p4_index page) ≡ some p3
      → 0 < entry_count s.entries p4
      → Trimmed Free p4 s parent slot (free_p3 allocator p4 page p3 s)
  unfolding free_p3
  free_p3_lem page p3 s tree proper h k = elim (Bool-cases (table_is_unused s.entries p3)) [
    | inr u ↦ untrimmed s tree (rw u refl)
    | inl u ↦
        let f =
          free_table_lem p4 (p4_index page) p3 s tree (omega (arith, tree.forest.root)) (inr proper)
            (omega arith) h u k in
        record {
          after = f.after;
          level' = f.level';
          returned = rw u (f.returned);
          tree = f.tree;
          same = f.same;
        }
  ]

  free_p2_lem :
      (page p3 p2 : ℕ) (s : PageTables S) {parent slot level : ℕ → ℕ}
      → IsTree Free p4 s parent slot level
      → p4_index page ≢ 511
      → next_table s.entries p4 (p4_index page) ≡ some p3
      → next_table s.entries p3 (p3_index page) ≡ some p2
      → 0 < entry_count s.entries p4
      → Trimmed Free p4 s parent slot (free_p2 allocator p4 page p3 p2 s)
  unfolding free_p2
  free_p2_lem page p3 p2 s {level = level} tree proper h h' k =
      elim (Bool-cases (table_is_unused s.entries p2)) [
        | inr u ↦ untrimmed s tree (rw u refl)
        | inl u ↦
            let root = tree.forest.root in
            let l = tree.forest.below p4 (p4_index page) p3 (omega (arith, root)) (inr proper) h in
            let p4_ne : p4 ≢ p3 = (λ e. omega (arith, root, l, ap level e)) in
            let f =
              free_table_lem p3 (p3_index page) p2 s tree (omega (arith, root, l))
                (inl (omega (arith, root, l))) (omega arith) h' u
                (count_of_next s.entries p3 (p3_index page) tree.forest (omega (arith, root, l))
                  (omega (arith, root, l)) (omega arith) h') in
            let up =
              free_p3_lem page p3 f.after f.tree proper (f.kept p4 (p4_index page) p4_ne ∙ h)
                (omega (arith, k, f.counts p4 p4_ne)) in
            record {
              after = up.after;
              level' = up.level';
              returned = rw (u, f.returned) (up.returned);
              tree = up.tree;
              same = λ page' r. up.same page' r ∙ f.same page' r;
            }
      ]

  pub free_p1_lem :
      (page p3 p2 p1 : ℕ) (s : PageTables S) {parent slot level : ℕ → ℕ}
      → IsTree Free p4 s parent slot level
      → p4_index page ≢ 511
      → next_table s.entries p4 (p4_index page) ≡ some p3
      → next_table s.entries p3 (p3_index page) ≡ some p2
      → next_table s.entries p2 (p2_index page) ≡ some p1
      → 0 < entry_count s.entries p4
      → Trimmed Free p4 s parent slot (free_p1 allocator p4 page p3 p2 p1 s)
  unfolding free_p1
  free_p1_lem page p3 p2 p1 s {level = level} tree proper h h' h'' k =
      elim (Bool-cases (table_is_unused s.entries p1)) [
        | inr u ↦ untrimmed s tree (rw u refl)
        | inl u ↦
            let root = tree.forest.root in
            let l = tree.forest.below p4 (p4_index page) p3 (omega (arith, root)) (inr proper) h in
            let l2 =
              tree.forest.below p3 (p3_index page) p2 (omega (arith, root, l))
                (inl (omega (arith, root, l))) h' in
            let p4_ne : p4 ≢ p2 = (λ e. omega (arith, root, l, l2, ap level e)) in
            let p3_ne : p3 ≢ p2 = (λ e. omega (arith, root, l, l2, ap level e)) in
            let f =
              free_table_lem p2 (p2_index page) p1 s tree (omega (arith, root, l, l2))
                (inl (omega (arith, root, l, l2))) (omega arith) h'' u
                (count_of_next s.entries p2 (p2_index page) tree.forest (omega (arith, root, l, l2))
                  (omega (arith, root, l, l2)) (omega arith) h'') in
            let up =
              free_p2_lem page p3 p2 f.after f.tree proper (f.kept p4 (p4_index page) p4_ne ∙ h)
                (f.kept p3 (p3_index page) p3_ne ∙ h') (omega (arith, k, f.counts p4 p4_ne)) in
            record {
              after = up.after;
              level' = up.level';
              returned = rw (u, f.returned) (up.returned);
              tree = up.tree;
              same = λ page' r. up.same page' r ∙ f.same page' r;
            }
      ]
