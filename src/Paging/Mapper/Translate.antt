-- ===== src/Paging/Mapper/Translate.antt =====
-- Tables that are added change no translation, and keep the ways that there are.
use faastr.Common.{ℕ, ◌<◌, ◌≡◌, ◌≢◌, ◌⊎◌, inl, inr, none, some, arith, sym, ◌∙◌, Option-cases}
use faastr.Memory.Pages.{p4_index, p3_index, p2_index, p1_index}
use faastr.Paging.Entry.{pointed_frame}
use faastr.Paging.Table.{next_table}
use faastr.Paging.Mapper.{translate_page}
use faastr.Paging.Mapper.Forest.{IsForest}
use faastr.Paging.Mapper.Grow.{Grows, next_of_absent}
use faastr.Paging.Mapper.Walk.{
  Way, no_p3, no_p2, no_p1, translate_page-none, translate_page-Way, level_p3, level_p2, level_p1,
}

module _ {p4 : ℕ} {entries entries' : ℕ → ℕ → ℕ} {parent slot level : ℕ → ℕ} (page : ℕ)
    (forest : IsForest p4 entries parent slot level) (proper : p4_index page ≢ 511)
    (grows : Grows level entries entries') where
  pub Way-Grows : {p1 : ℕ} → Way p4 entries page p1 → Way p4 entries' page p1
  Way-Grows {p1} w = record {
    p3 = w.p3;
    p2 = w.p2;
    to_p3 = grows.keeps p4 (p4_index page) w.p3 (omega (arith, forest.root)) w.to_p3;
    to_p2 =
        grows.keeps w.p3 (p3_index page) w.p2 (omega (arith, level_p3 page forest proper w.to_p3))
          w.to_p2;
    to_p1 =
        grows.keeps w.p2 (p2_index page) p1 (omega (arith, level_p2 page forest proper w)) w.to_p1;
  }

  -- Behind an entry that led nowhere, nothing is found now.
  after_none :
      (t i : ℕ)
      → 0 < level t
      → next_table entries t i ≡ none
      → (next_table entries' t i ≡ none)
        ⊎ ((c : ℕ) × (next_table entries' t i ≡ some c)
            × ((j : ℕ) → j < 512 → pointed_frame (entries' c j) ≡ none))
  after_none t i p h = elim (Option-cases (next_table entries' t i)) [
    | inl k ↦ inl k
    | inr (c, k) ↦ inr (c, k, grows.adds t i c p h k)
  ]

  abbrev Missing : Type 0
  Missing = translate_page p4 entries' page ≡ none

  missing_p3 : next_table entries p4 (p4_index page) ≡ none → Missing
  missing_p3 h = elim (after_none p4 (p4_index page) (omega (arith, forest.root)) h) [
    | inl k ↦ translate_page-none p4 entries' page (no_p3 p4 entries' page k)
    | inr (c, k, z) ↦ translate_page-none p4 entries' page (
        no_p2 p4 entries' page k
          (next_of_absent entries' c (p3_index page) (z (p3_index page) (omega arith))))
  ]

  missing_p2 :
      {p3 : ℕ}
      → next_table entries p4 (p4_index page) ≡ some p3
      → next_table entries p3 (p3_index page) ≡ none
      → Missing
  missing_p2 {p3} h k =
      let l = level_p3 page forest proper h in
      let h' = grows.keeps p4 (p4_index page) p3 (omega (arith, forest.root)) h in
      elim (after_none p3 (p3_index page) (omega (arith, l)) k) [
        | inl m ↦ translate_page-none p4 entries' page (no_p2 p4 entries' page h' m)
        | inr (c, m, z) ↦ translate_page-none p4 entries' page (
            no_p1 p4 entries' page h' m
              (next_of_absent entries' c (p2_index page) (z (p2_index page) (omega arith))))
      ]

  missing_p1 :
      {p3 p2 : ℕ}
      → next_table entries p4 (p4_index page) ≡ some p3
      → next_table entries p3 (p3_index page) ≡ some p2
      → next_table entries p2 (p2_index page) ≡ none
      → Missing
  missing_p1 {p3} {p2} h k m =
      let l = level_p3 page forest proper h in
      let h' = grows.keeps p4 (p4_index page) p3 (omega (arith, forest.root)) h in
      let k' = grows.keeps p3 (p3_index page) p2 (omega (arith, l)) k in
      let l2 = forest.below p3 (p3_index page) p2 (omega (arith, l)) (inl (omega (arith, l))) k in
      elim (after_none p2 (p2_index page) (omega (arith, l, l2)) m) [
        | inl n ↦ translate_page-none p4 entries' page (no_p1 p4 entries' page h' k' n)
        | inr (c, n, z) ↦
            translate_page-Way p4 entries' page
              (record { p3 = p3; p2 = p2; to_p3 = h'; to_p2 = k'; to_p1 = n })
            ∙ z (p1_index page) (omega arith)
      ]

  pub translate_page-Grows : translate_page p4 entries' page ≡ translate_page p4 entries page
  translate_page-Grows = elim (Option-cases (next_table entries p4 (p4_index page))) [
    | inl h ↦ missing_p3 h ∙ sym (translate_page-none p4 entries page (no_p3 p4 entries page h))
    | inr (p3, h) ↦ elim (Option-cases (next_table entries p3 (p3_index page))) [
      | inl k ↦
          missing_p2 h k ∙ sym (translate_page-none p4 entries page (no_p2 p4 entries page h k))
      | inr (p2, k) ↦ elim (Option-cases (next_table entries p2 (p2_index page))) [
        | inl m ↦
            missing_p1 h k m
            ∙ sym (translate_page-none p4 entries page (no_p1 p4 entries page h k m))
        | inr (p1, m) ↦
            let w : Way p4 entries page p1 = record {
              p3 = p3;
              p2 = p2;
              to_p3 = h;
              to_p2 = k;
              to_p1 = m;
            } in
            translate_page-Way p4 entries' page (Way-Grows w)
            ∙ grows.leaves p1 (p1_index page) (level_p1 page forest proper w)
            ∙ sym (translate_page-Way p4 entries page w)
      ]
    ]
  ]
