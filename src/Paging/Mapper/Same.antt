-- ===== src/Paging/Mapper/Same.antt =====
-- Where the tables above the first level lead where they led.
use faastr.Common.{ℕ, ◌<◌, ◌≡◌, ◌≢◌, inl, inr, arith, sym, ◌∙◌}
use faastr.Memory.Pages.{p4_index, p3_index, p2_index, p1_index}
use faastr.Paging.Entry.{pointed_frame}
use faastr.Paging.Table.{next_table}
use faastr.Paging.Mapper.{translate_page}
use faastr.Paging.Mapper.Forest.{IsForest}
use faastr.Paging.Mapper.Walk.{
  Way, way-cases, translate_page-none, translate_page-Way, find_p1-Way, level_p3, level_p2,
}

-- The ways are the same where the tables above the first level lead where they led.
module _ {p4 : ℕ} {entries : ℕ → ℕ → ℕ} (entries' : ℕ → ℕ → ℕ) {parent slot level : ℕ → ℕ}
    (page : ℕ) (forest : IsForest p4 entries parent slot level) (proper : p4_index page ≢ 511)
    (same : (t i : ℕ) → 1 < level t → next_table entries' t i ≡ next_table entries t i) where
  pub Way-same : {p1 : ℕ} → Way p4 entries page p1 → Way p4 entries' page p1
  Way-same {p1} w = record {
    p3 = w.p3;
    p2 = w.p2;
    to_p3 = same p4 (p4_index page) (omega (arith, forest.root)) ∙ w.to_p3;
    to_p2 =
        same w.p3 (p3_index page) (omega (arith, level_p3 page forest proper w.to_p3)) ∙ w.to_p2;
    to_p1 = same w.p2 (p2_index page) (omega (arith, level_p2 page forest proper w)) ∙ w.to_p1;
  }

  pub Way-back : {p1 : ℕ} → Way p4 entries' page p1 → Way p4 entries page p1
  Way-back {p1} w =
      let a = sym (same p4 (p4_index page) (omega (arith, forest.root))) ∙ w.to_p3 in
      let l = level_p3 page forest proper a in
      let b = sym (same w.p3 (p3_index page) (omega (arith, l))) ∙ w.to_p2 in
      let l2 =
        forest.below w.p3 (p3_index page) w.p2 (omega (arith, l)) (inl (omega (arith, l))) b in
      record {
        p3 = w.p3;
        p2 = w.p2;
        to_p3 = a;
        to_p2 = b;
        to_p1 = sym (same w.p2 (p2_index page) (omega (arith, l, l2))) ∙ w.to_p1;
      }

  -- A page is translated as before, where the entry at the end of its way is as it was.
  pub translate_page-same :
      ((p1 : ℕ)
        → Way p4 entries page p1
        → pointed_frame (entries' p1 (p1_index page)) ≡ pointed_frame (entries p1 (p1_index page)))
      → translate_page p4 entries' page ≡ translate_page p4 entries page
  translate_page-same leaf = elim (way-cases p4 entries page) [
    | inl (p1, w) ↦
        translate_page-Way p4 entries' page (Way-same w)
        ∙ leaf p1 w
        ∙ sym (translate_page-Way p4 entries page w)
    | inr n ↦ elim (way-cases p4 entries' page) [
      | inl (p1, w) ↦ absurd (cc (find_p1-Way p4 entries page (Way-back w), n))
      | inr n' ↦
          translate_page-none p4 entries' page n' ∙ sym (translate_page-none p4 entries page n)
    ]
  ]
