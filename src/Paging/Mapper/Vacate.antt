-- ===== src/Paging/Mapper/Vacate.antt =====
-- An entry that is in use is cleared, and the counter of its table goes down.
use faastr.Common.{
  ℕ, suc, ◌+◌, ◌-◌, ◌%◌, ◌^◌, ◌≤◌, ◌<◌, ◌≡◌, ◌≢◌, ◌⊎◌, inl, inr, true, false, none, arith, sym, ap,
  ◌∙◌, ℕ_discrete,
}
use faastr.Paging.Entry.{flags, set_unused, is_unused, pointed_frame}
use faastr.Paging.Entry.Fields.{
  Alike, flags-set_unused, counter_bits-set_unused, set_unused-lt, is_unused-set_unused,
  pointed_frame-set_unused, pointed_frame-Alike,
}
use faastr.Paging.Table.{entry_count, set_entry_count, decrement_entry_count}
use faastr.Paging.Mapper.{clear}
use faastr.Paging.Mapper.Used.{used, used-le, used_same, used_fill}
use faastr.Paging.Mapper.Forest.{IsForest, put_self}
use faastr.Paging.Mapper.Write
use faastr.Paging.Mapper.Occupy.{index-cases}

module _ {p4 : ℕ} (entries : ℕ → ℕ → ℕ) {parent slot level : ℕ → ℕ} (t i : ℕ)
    (forest : IsForest p4 entries parent slot level) (table : 0 < level t) (index : i < 512)
    (taken : is_unused (entries t i) ≡ false) (some_entry : 0 < entry_count entries t) where
  abbrev new_count : ℕ
  new_count = (entry_count entries t + 2 ^ 64 - 1) % 2 ^ 64

  new_count_lem : suc new_count ≡ entry_count entries t
  new_count_lem = omega (arith, forest.bounded t table, used-le (entries t) 512, some_entry)

  new_count-lt : new_count < 1024
  new_count-lt = omega (arith, new_count_lem, forest.bounded t table, used-le (entries t) 512)

  abbrev old : ℕ
  old = set_entry_count new_count t entries t i

  abbrev after : ℕ → ℕ → ℕ
  after = clear entries t i

  pub clear_words : (f j : ℕ) → after f j < 2 ^ 64
  unfolding clear decrement_entry_count
  clear_words =
      Write.written_words entries t i new_count (set_unused old) new_count-lt forest.words
        (set_unused-lt old)

  pub Alike-clear : (f j : ℕ) → (f ≢ t) ⊎ (j ≢ i) → Alike (entries f j) (after f j)
  unfolding clear decrement_entry_count
  Alike-clear = Write.Alike-written entries t i new_count (set_unused old) new_count-lt forest.words

  clear_row : (f j : ℕ) → f ≢ t → after f j ≡ entries f j
  unfolding clear decrement_entry_count
  clear_row = Write.other_table entries t i new_count (set_unused old) new_count-lt forest.words

  clear_here : after t i ≡ set_unused old
  unfolding clear decrement_entry_count
  clear_here = put_self (set_entry_count new_count t entries) t i (set_unused old)

  pub pointed_frame-clear : pointed_frame (after t i) ≡ none
  pointed_frame-clear = ap pointed_frame clear_here ∙ pointed_frame-set_unused old

  unused_here : is_unused (after t i) ≡ true
  unused_here = ap is_unused clear_here ∙ is_unused-set_unused old

  entry_count-clear : entry_count after t ≡ new_count
  unfolding clear decrement_entry_count
  entry_count-clear =
      Write.entry_count-written entries t i new_count (set_unused old) new_count-lt forest.words
        (counter_bits-set_unused old)

  pub entry_count-clear_other : (f : ℕ) → f ≢ t → entry_count after f ≡ entry_count entries f
  unfolding clear decrement_entry_count
  entry_count-clear_other =
      Write.entry_count-other entries t i new_count (set_unused old) new_count-lt forest.words

  used-clear : used (entries t) 512 ≡ suc (used (after t) 512)
  used-clear =
      used_fill (after t) (entries t) i 512 (λ j ne. (Alike-clear t j (inr ne)).same_use)
        unused_here taken index

  used-clear_other : (f : ℕ) → f ≢ t → used (after f) 512 ≡ used (entries f) 512
  used-clear_other f ne = used_same (after f) (entries f) 512 (λ j. ap is_unused (clear_row f j ne))

  pub bounded-clear : (f : ℕ) → 0 < level f → entry_count after f ≤ used (after f) 512
  bounded-clear f p = elim (ℕ_discrete f t) [
    | yes e ↦
        rw e (omega (arith, entry_count-clear, new_count_lem, used-clear, forest.bounded t table))
    | no ne ↦ omega (arith, entry_count-clear_other f ne, used-clear_other f ne, forest.bounded f p)
  ]

  pub counted-clear : (f : ℕ) → 0 < level f → level f < 4 → entry_count after f ≡ used (after f) 512
  counted-clear f p q = elim (ℕ_discrete f t) [
    | yes e ↦
        let q' : level t < 4 = rw e at q in
        rw e
          (omega (arith, entry_count-clear, new_count_lem, used-clear, forest.counted t table q'))
    | no ne ↦
        omega (arith, entry_count-clear_other f ne, used-clear_other f ne, forest.counted f p q)
  ]

  pub clean-clear :
      (f j : ℕ) → 0 < level f → pointed_frame (after f j) ≡ none → is_unused (after f j) ≡ true
  clean-clear f j p n = elim (index-cases f j t i) [
    | inl (e, e') ↦ rw (e, e') unused_here
    | inr ne ↦
        let a = Alike-clear f j ne in
        a.same_use ∙ forest.clean f j p (sym (pointed_frame-Alike (entries f j) (after f j) a) ∙ n)
  ]

  pub flags-clear : flags (after t i) ≡ 0
  flags-clear = ap flags clear_here ∙ flags-set_unused old
