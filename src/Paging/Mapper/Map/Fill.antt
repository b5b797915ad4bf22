-- ===== src/Paging/Mapper/Map/Fill.antt =====
-- The entry of a page is set, in a table of the first level that the page's way ends in.
use Prim.Native.Nat.{bit_or}
use faastr.Common.{ℕ, ◌^◌, ◌<◌, ◌≡◌, ◌≢◌, ◌⊎◌, inl, inr, true, some, arith, sym, ap, subst, ◌∙◌}
use faastr.Common.Bits.{bit_or-one}
use faastr.Memory.Pages.{p4_index, p1_index}
use faastr.Paging.Entry.{is_unused, is_present, present}
use faastr.Paging.Entry.Fields.{IsFlags, Alike, pointed_frame-Alike}
use faastr.Paging.Table.{next_table}
use faastr.Paging.Mapper.{translate_page}
use faastr.Paging.Mapper.Forest.{IsForest, next_table-Alike}
use faastr.Paging.Mapper.Occupy
use faastr.Paging.Mapper.Occupy.{occupied, index-cases}
use faastr.Paging.Mapper.Walk.{Way, translate_page-Way, level_p1, page_of_slots}
use faastr.Paging.Mapper.Same.{Way-same, translate_page-same}

-- `flags | EntryFlags::PRESENT`
abbrev pub with_present : ℕ → ℕ
with_present new_flags = bit_or new_flags present

module _ (f : ℕ) (ten : IsFlags f) (bits : f < 2 ^ 64) where
  pub with_present-IsFlags : IsFlags (with_present f)
  with_present-IsFlags = omega (arith, bit_or-one f)

  pub with_present-lt : with_present f < 2 ^ 64
  with_present-lt = omega (arith, bit_or-one f)

  pub with_present_lem : is_present (with_present f) ≡ true
  with_present_lem = ground (arith, bit_or-one f)

module _ {p4 : ℕ} (entries : ℕ → ℕ → ℕ) {parent slot level : ℕ → ℕ} (page frame new_flags : ℕ)
    {p1 : ℕ} (forest : IsForest p4 entries parent slot level) (proper : p4_index page ≢ 511)
    (way : Way p4 entries page p1) (free : is_unused (entries p1 (p1_index page)) ≡ true)
    (fits : frame < 2 ^ 40) (ten : IsFlags new_flags) (bits : new_flags < 2 ^ 64) where
  abbrev pub filled : ℕ → ℕ → ℕ
  filled = occupied p1 (p1_index page) frame (with_present new_flags) entries

  leaf_level : level p1 ≡ 1
  leaf_level = level_p1 page forest proper way

  Alike-filled : (t i : ℕ) → (t ≢ p1) ⊎ (i ≢ p1_index page) → Alike (entries t i) (filled t i)
  Alike-filled =
      Occupy.Alike-occupied entries p1 (p1_index page) frame (with_present new_flags) forest
        (omega (arith, leaf_level)) (omega arith) free fits
        (with_present-IsFlags new_flags ten bits) (with_present-lt new_flags ten bits)
        (with_present_lem new_flags ten bits)

  pub above_filled : (t i : ℕ) → 1 < level t → Alike (entries t i) (filled t i)
  above_filled t i p = Alike-filled t i (inl (λ e. omega (arith, p, leaf_level, ap level e)))

  pub next_table-filled : (t i : ℕ) → 1 < level t → next_table filled t i ≡ next_table entries t i
  next_table-filled t i p = next_table-Alike entries filled t i (above_filled t i p)

  pub filled-IsForest : IsForest p4 filled parent slot level
  filled-IsForest = record {
    words =
        Occupy.occupied_words entries p1 (p1_index page) frame (with_present new_flags) forest
          (omega (arith, leaf_level)) (omega arith) free fits
          (with_present-IsFlags new_flags ten bits) (with_present-lt new_flags ten bits)
          (with_present_lem new_flags ten bits);
    root = forest.root;
    low = forest.low;
    below = λ t i c p q h. forest.below t i c p q (sym (next_table-filled t i p) ∙ h);
    above = λ t i c p q h. forest.above t i c p q (sym (next_table-filled t i p) ∙ h);
    clean =
        Occupy.clean-occupied entries p1 (p1_index page) frame (with_present new_flags) forest
          (omega (arith, leaf_level)) (omega arith) free fits
          (with_present-IsFlags new_flags ten bits) (with_present-lt new_flags ten bits)
          (with_present_lem new_flags ten bits);
    bounded =
        Occupy.bounded-occupied entries p1 (p1_index page) frame (with_present new_flags) forest
          (omega (arith, leaf_level)) (omega arith) free fits
          (with_present-IsFlags new_flags ten bits) (with_present-lt new_flags ten bits)
          (with_present_lem new_flags ten bits);
    counted =
        Occupy.counted-occupied entries p1 (p1_index page) frame (with_present new_flags) forest
          (omega (arith, leaf_level)) (omega arith) free fits
          (with_present-IsFlags new_flags ten bits) (with_present-lt new_flags ten bits)
          (with_present_lem new_flags ten bits);
  }

  pub translate_page-filled : translate_page p4 filled page ≡ some frame
  translate_page-filled =
      translate_page-Way p4 filled page (Way-same filled page forest proper next_table-filled way)
      ∙ Occupy.pointed_frame-occupied entries p1 (p1_index page) frame (with_present new_flags)
          forest (omega (arith, leaf_level)) (omega arith) free fits
          (with_present-IsFlags new_flags ten bits) (with_present-lt new_flags ten bits)
          (with_present_lem new_flags ten bits)

  pub translate_page-filled_other :
      (page' : ℕ)
      → page < 2 ^ 36
      → page' < 2 ^ 36
      → p4_index page' ≢ 511
      → page' ≢ page
      → translate_page p4 filled page' ≡ translate_page p4 entries page'
  translate_page-filled_other page' b b' q ne =
      translate_page-same filled page' forest q next_table-filled λ p1' w.
        elim (index-cases p1' (p1_index page') p1 (p1_index page)) [
          | inl (e, e') ↦ absurd (
              ne (
                page_of_slots page' page forest q proper (subst (Way p4 entries page') e w) way e'
                  b' b))
          | inr other ↦
              pointed_frame-Alike (entries p1' (p1_index page')) (filled p1' (p1_index page'))
                (Alike-filled p1' (p1_index page') other)
        ]
