-- ===== src/Paging/Mapper/Unmap.antt =====
-- The entry of a page is cleared: the page is not translated any more, and no other page otherwise.
use faastr.Common.{
  ℕ, ◌^◌, ◌<◌, ◌≡◌, ◌≢◌, ◌⊎◌, inl, inr, false, none, some, arith, sym, ap, ◌∙◌, subst, Bool-cases,
}
use faastr.Memory.Pages.{p4_index, p1_index}
use faastr.Paging.Entry.{is_unused, pointed_frame}
use faastr.Paging.Entry.Fields.{Alike, pointed_frame-Alike, pointed_frame-unused}
use faastr.Paging.Table.{next_table, entry_count}
use faastr.Paging.Mapper.{translate_page, clear}
use faastr.Paging.Mapper.Used.{used_pos}
use faastr.Paging.Mapper.Forest.{IsForest, next_table-Alike}
use faastr.Paging.Mapper.Occupy.{index-cases}
use faastr.Paging.Mapper.Vacate
use faastr.Paging.Mapper.Walk.{Way, translate_page-Way, level_p1, page_of_slots}
use faastr.Paging.Mapper.Same.{Way-same, translate_page-same}

-- The entry of the page is cleared.
module _ {p4 : ℕ} (entries : ℕ → ℕ → ℕ) {parent slot level : ℕ → ℕ} (page : ℕ) {p1 frame : ℕ}
    (forest : IsForest p4 entries parent slot level) (proper : p4_index page ≢ 511)
    (way : Way p4 entries page p1)
    (pointed : pointed_frame (entries p1 (p1_index page)) ≡ some frame) where
  leaf_level : level p1 ≡ 1
  leaf_level = level_p1 page forest proper way

  taken : is_unused (entries p1 (p1_index page)) ≡ false
  taken = elim (Bool-cases (is_unused (entries p1 (p1_index page)))) [
    | inl u ↦ absurd (cc (pointed_frame-unused (entries p1 (p1_index page)) u, pointed))
    | inr u ↦ u
  ]

  some_entry : 0 < entry_count entries p1
  some_entry = omega (
    arith,
    leaf_level,
    forest.counted p1 (omega (arith, leaf_level)) (omega (arith, leaf_level)),
    used_pos (entries p1) (p1_index page) 512 taken (omega arith),
  )

  abbrev cleared : ℕ → ℕ → ℕ
  cleared = clear entries p1 (p1_index page)

  Alike-cleared : (t i : ℕ) → (t ≢ p1) ⊎ (i ≢ p1_index page) → Alike (entries t i) (cleared t i)
  Alike-cleared =
      Vacate.Alike-clear entries p1 (p1_index page) forest (omega (arith, leaf_level)) (omega arith)
        taken some_entry

  pub above_cleared : (t i : ℕ) → 1 < level t → Alike (entries t i) (cleared t i)
  above_cleared t i p = Alike-cleared t i (inl (λ e. omega (arith, p, leaf_level, ap level e)))

  pub next_table-cleared : (t i : ℕ) → 1 < level t → next_table cleared t i ≡ next_table entries t i
  next_table-cleared t i p = next_table-Alike entries cleared t i (above_cleared t i p)

  pub cleared-IsForest : IsForest p4 cleared parent slot level
  cleared-IsForest = record {
    words =
        Vacate.clear_words entries p1 (p1_index page) forest (omega (arith, leaf_level))
          (omega arith) taken some_entry;
    root = forest.root;
    low = forest.low;
    below = λ t i c p q h. forest.below t i c p q (sym (next_table-cleared t i p) ∙ h);
    above = λ t i c p q h. forest.above t i c p q (sym (next_table-cleared t i p) ∙ h);
    clean =
        Vacate.clean-clear entries p1 (p1_index page) forest (omega (arith, leaf_level))
          (omega arith) taken some_entry;
    bounded =
        Vacate.bounded-clear entries p1 (p1_index page) forest (omega (arith, leaf_level))
          (omega arith) taken some_entry;
    counted =
        Vacate.counted-clear entries p1 (p1_index page) forest (omega (arith, leaf_level))
          (omega arith) taken some_entry;
  }

  pub translate_page-cleared : translate_page p4 cleared page ≡ none
  translate_page-cleared =
      translate_page-Way p4 cleared page
        (Way-same cleared page forest proper next_table-cleared way)
      ∙ Vacate.pointed_frame-clear entries p1 (p1_index page) forest (omega (arith, leaf_level))
          (omega arith) taken some_entry

  pub translate_page-cleared_other :
      (page' : ℕ)
      → page < 2 ^ 36
      → page' < 2 ^ 36
      → p4_index page' ≢ 511
      → page' ≢ page
      → translate_page p4 cleared page' ≡ translate_page p4 entries page'
  translate_page-cleared_other page' b b' q ne =
      translate_page-same cleared page' forest q next_table-cleared λ p1' w.
        elim (index-cases p1' (p1_index page') p1 (p1_index page)) [
          | inl (e, e') ↦ absurd (
              ne (
                page_of_slots page' page forest q proper (subst (Way p4 entries page') e w) way e'
                  b' b))
          | inr other ↦
              pointed_frame-Alike (entries p1' (p1_index page')) (cleared p1' (p1_index page'))
                (Alike-cleared p1' (p1_index page') other)
        ]

  pub count-cleared : entry_count cleared p4 ≡ entry_count entries p4
  count-cleared =
      Vacate.entry_count-clear_other entries p1 (p1_index page) forest (omega (arith, leaf_level))
        (omega arith) taken some_entry p4 (λ e. omega (arith, leaf_level, forest.root, ap level e))
