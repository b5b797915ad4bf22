-- ===== src/Paging/Mapper/Walk.antt =====
-- The way through the tables to a page: where it ends, what it tells of the page, and that tables
-- that are added change no translation.
use faastr.Common.{
  ℕ, ◌^◌, ◌<◌, ◌≡◌, ◌≢◌, ◌⊎◌, inl, inr, none, some, arith, sym, ap, ◌∙◌, Option-cases,
}
use faastr.Memory.Pages.{p4_index, p3_index, p2_index, p1_index}
use faastr.Paging.Entry.{pointed_frame}
use faastr.Paging.Table.{next_table}
use faastr.Paging.Mapper.{find_p1, translate_page}
use faastr.Paging.Mapper.Forest.{IsForest, Proper}

-- The tables on the way to a page.
pub record Way (p4 : ℕ) (entries : ℕ → ℕ → ℕ) (page p1 : ℕ) : Type 0 where
  pub p3 : ℕ
  pub p2 : ℕ
  pub to_p3 : next_table entries p4 (p4_index page) ≡ some p3
  pub to_p2 : next_table entries p3 (p3_index page) ≡ some p2
  pub to_p1 : next_table entries p2 (p2_index page) ≡ some p1

module _ (p4 : ℕ) (entries : ℕ → ℕ → ℕ) (page : ℕ) where
  pub find_p1-Way : {p1 : ℕ} → Way p4 entries page p1 → find_p1 p4 entries page ≡ some p1
  unfolding find_p1
  find_p1-Way w = rw (w.to_p3, w.to_p2, w.to_p1)

  pub translate_page-Way :
      {p1 : ℕ}
      → Way p4 entries page p1
      → translate_page p4 entries page ≡ pointed_frame (entries p1 (p1_index page))
  unfolding translate_page
  translate_page-Way w = rw (find_p1-Way w)

  pub no_p3 : next_table entries p4 (p4_index page) ≡ none → find_p1 p4 entries page ≡ none
  unfolding find_p1
  no_p3 h = rw h

  pub no_p2 :
      {p3 : ℕ}
      → next_table entries p4 (p4_index page) ≡ some p3
      → next_table entries p3 (p3_index page) ≡ none
      → find_p1 p4 entries page ≡ none
  unfolding find_p1
  no_p2 h k = rw (h, k)

  pub no_p1 :
      {p3 p2 : ℕ}
      → next_table entries p4 (p4_index page) ≡ some p3
      → next_table entries p3 (p3_index page) ≡ some p2
      → next_table entries p2 (p2_index page) ≡ none
      → find_p1 p4 entries page ≡ none
  unfolding find_p1
  no_p1 h k l = rw (h, k, l)

  pub translate_page-none : find_p1 p4 entries page ≡ none → translate_page p4 entries page ≡ none
  unfolding translate_page
  translate_page-none h = rw h

  -- There is a way, or no table of the first level.
  pub way-cases : ((p1 : ℕ) × Way p4 entries page p1) ⊎ (find_p1 p4 entries page ≡ none)
  way-cases = elim (Option-cases (next_table entries p4 (p4_index page))) [
    | inl h ↦ inr (no_p3 h)
    | inr (p3, h) ↦ elim (Option-cases (next_table entries p3 (p3_index page))) [
      | inl k ↦ inr (no_p2 h k)
      | inr (p2, k) ↦ elim (Option-cases (next_table entries p2 (p2_index page))) [
        | inl l ↦ inr (no_p1 h k l)
        | inr (p1, l) ↦ inl (p1, record { p3 = p3; p2 = p2; to_p3 = h; to_p2 = k; to_p1 = l })
      ]
    ]
  ]

  -- A translation is one of a page with a way to it.
  pub way_of_translation :
      {frame : ℕ}
      → translate_page p4 entries page ≡ some frame
      → (p1 : ℕ) × Way p4 entries page p1
        × (pointed_frame (entries p1 (p1_index page)) ≡ some frame)
  way_of_translation h = elim way-cases [
    | inl (p1, w) ↦ (p1, w, sym (translate_page-Way w) ∙ h)
    | inr n ↦ absurd (cc (translate_page-none n, h))
  ]

module _ {p4 : ℕ} {entries : ℕ → ℕ → ℕ} {parent slot level : ℕ → ℕ} (page : ℕ)
    (forest : IsForest p4 entries parent slot level) (proper : p4_index page ≢ 511) where
  proper4 : Proper level p4 (p4_index page)
  proper4 = inr proper

  pub level_p3 : {p3 : ℕ} → next_table entries p4 (p4_index page) ≡ some p3 → level p3 ≡ 3
  level_p3 {p3} h = omega (
    arith,
    forest.root,
    forest.below p4 (p4_index page) p3 (omega (arith, forest.root)) proper4 h,
  )

  -- A way goes down a level at each table, and the slots on the way back tell the page.
  pub level_p2 : {p1 : ℕ} (w : Way p4 entries page p1) → level w.p2 ≡ 2
  level_p2 w =
      let l = level_p3 w.to_p3 in
      omega (
        arith,
        l,
        forest.below w.p3 (p3_index page) w.p2 (omega (arith, l)) (inl (omega (arith, l))) w.to_p2,
      )

  pub level_p1 : {p1 : ℕ} → Way p4 entries page p1 → level p1 ≡ 1
  level_p1 {p1} w =
      let l = level_p2 w in
      omega (
        arith,
        l,
        forest.below w.p2 (p2_index page) p1 (omega (arith, l)) (inl (omega (arith, l))) w.to_p1,
      )

  pub slots :
      {p1 : ℕ}
      → Way p4 entries page p1
      → (slot p1 ≡ p2_index page)
        × (slot (parent p1) ≡ p3_index page)
        × (slot (parent (parent p1)) ≡ p4_index page)
  slots {p1} w =
      let l3 = level_p3 w.to_p3 in
      let l2 = level_p2 w in
      let (a1, b1) =
        forest.above w.p2 (p2_index page) p1 (omega (arith, l2)) (inl (omega (arith, l2)))
          w.to_p1 in
      let (a2, b2) =
        forest.above w.p3 (p3_index page) w.p2 (omega (arith, l3)) (inl (omega (arith, l3)))
          w.to_p2 in
      let (a3, b3) =
        forest.above p4 (p4_index page) w.p3 (omega (arith, forest.root)) proper4 w.to_p3 in
      (b1, ap slot a1 ∙ b2, ap (λ x. slot (parent x)) a1 ∙ ap slot a2 ∙ b3)

-- Pages with one table of the first level, and one index in it, are one page.
pub page_of_slots :
    {p4 p1 : ℕ} {entries : ℕ → ℕ → ℕ} {parent slot level : ℕ → ℕ} (page page' : ℕ)
    → IsForest p4 entries parent slot level
    → p4_index page ≢ 511
    → p4_index page' ≢ 511
    → Way p4 entries page p1
    → Way p4 entries page' p1
    → p1_index page ≡ p1_index page'
    → page < 2 ^ 36
    → page' < 2 ^ 36
    → page ≡ page'
page_of_slots page page' forest p q w w' i h h' =
    let (a, b, c) = slots page forest p w in
    let (a', b', c') = slots page' forest q w' in
    omega (arith, i, sym a ∙ a', sym b ∙ b', sym c ∙ c')
