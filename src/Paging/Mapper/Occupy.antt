-- ===== src/Paging/Mapper/Occupy.antt =====
-- An entry that is not in use is set to a frame, and the counter of its table goes up.
use faastr.Common.{
  ℕ, suc, ◌+◌, ◌*◌, ◌%◌, ◌^◌, ◌≤◌, ◌<◌, ◌≡◌, ◌≢◌, ◌⊎◌, inl, inr, true, false, none, some, arith,
  sym, ap, ◌∙◌, ℕ_discrete, Bool-cases,
}
use faastr.Paging.Entry.{set, flags, address, is_present, is_unused, pointed_frame}
use faastr.Paging.Entry.Fields.{
  IsFlags, Alike, pointed_frame-set, flags-set, address-set, counter_bits-set, set-lt,
  pointed_frame-unused, pointed_frame-Alike,
}
use faastr.Paging.Table.{put, entry_count, increment_entry_count, set_entry_count}
use faastr.Paging.Mapper.Used.{used, used-le, used_same, used_fill, used-lt}
use faastr.Paging.Mapper.Forest.{IsForest, put_self}
use faastr.Paging.Mapper.Write

-- The entry, with the counter of the table one higher.
unfoldable pub occupied : ℕ → ℕ → ℕ → ℕ → (ℕ → ℕ → ℕ) → ℕ → ℕ → ℕ
occupied t i frame new_flags entries =
    let counted = increment_entry_count t entries in
    put counted t i (set frame new_flags (counted t i))

pub index-cases : (f j t i : ℕ) → ((f ≡ t) × (j ≡ i)) ⊎ ((f ≢ t) ⊎ (j ≢ i))
index-cases f j t i = elim (ℕ_discrete f t) [
  | no ne ↦ inr (inl ne)
  | yes p ↦ elim (ℕ_discrete j i) [ no ne ↦ inr (inr ne) | yes q ↦ inl (p, q) ]
]

module _ {p4 : ℕ} (entries : ℕ → ℕ → ℕ) {parent slot level : ℕ → ℕ} (t i frame new_flags : ℕ)
    (forest : IsForest p4 entries parent slot level) (table : 0 < level t) (index : i < 512)
    (free : is_unused (entries t i) ≡ true) (fits : frame < 2 ^ 40) (ten : IsFlags new_flags)
    (bits : new_flags < 2 ^ 64) (here : is_present new_flags ≡ true) where
  abbrev new_count : ℕ
  new_count = (entry_count entries t + 1) % 2 ^ 64

  new_count_lem : new_count ≡ suc (entry_count entries t)
  new_count_lem = omega (arith, forest.bounded t table, used-le (entries t) 512)

  new_count-lt : new_count < 1024
  new_count-lt = omega (arith, forest.bounded t table, used-lt (entries t) i 512 free index)

  abbrev old : ℕ
  old = set_entry_count new_count t entries t i

  abbrev entry : ℕ
  entry = set frame new_flags old

  abbrev after : ℕ → ℕ → ℕ
  after = occupied t i frame new_flags entries

  pub occupied_words : (f j : ℕ) → after f j < 2 ^ 64
  unfolding occupied increment_entry_count
  occupied_words =
      Write.written_words entries t i new_count entry new_count-lt forest.words
        (set-lt frame new_flags old fits ten bits)

  pub Alike-occupied : (f j : ℕ) → (f ≢ t) ⊎ (j ≢ i) → Alike (entries f j) (after f j)
  unfolding occupied increment_entry_count
  Alike-occupied = Write.Alike-written entries t i new_count entry new_count-lt forest.words

  pub occupied_row : (f j : ℕ) → f ≢ t → after f j ≡ entries f j
  unfolding occupied increment_entry_count
  occupied_row = Write.other_table entries t i new_count entry new_count-lt forest.words

  occupied_here : after t i ≡ entry
  unfolding occupied increment_entry_count
  occupied_here = put_self (set_entry_count new_count t entries) t i entry

  pub pointed_frame-occupied : pointed_frame (after t i) ≡ some frame
  pointed_frame-occupied =
      ap pointed_frame occupied_here ∙ pointed_frame-set frame new_flags old fits ten here

  pub flags-occupied : flags (after t i) ≡ new_flags
  flags-occupied = ap flags occupied_here ∙ flags-set frame new_flags old fits ten

  pub address-occupied : address (after t i) ≡ frame * 4096
  address-occupied = ap address occupied_here ∙ address-set frame new_flags old fits ten

  used_here : is_unused (after t i) ≡ false
  used_here = elim (Bool-cases (is_unused (after t i))) [
    | inl u ↦ absurd (cc (pointed_frame-unused (after t i) u, pointed_frame-occupied))
    | inr u ↦ u
  ]

  entry_count-occupied : entry_count after t ≡ suc (entry_count entries t)
  unfolding occupied increment_entry_count
  entry_count-occupied =
      Write.entry_count-written entries t i new_count entry new_count-lt forest.words
        (counter_bits-set frame new_flags old fits ten)
      ∙ new_count_lem

  entry_count-occupied_other : (f : ℕ) → f ≢ t → entry_count after f ≡ entry_count entries f
  unfolding occupied increment_entry_count
  entry_count-occupied_other =
      Write.entry_count-other entries t i new_count entry new_count-lt forest.words

  used-occupied : used (after t) 512 ≡ suc (used (entries t) 512)
  used-occupied =
      used_fill (entries t) (after t) i 512 (λ j ne. sym (Alike-occupied t j (inr ne)).same_use)
        free used_here index

  used-occupied_other : (f : ℕ) → f ≢ t → used (after f) 512 ≡ used (entries f) 512
  used-occupied_other f ne =
      used_same (after f) (entries f) 512 (λ j. ap is_unused (occupied_row f j ne))

  pub bounded-occupied : (f : ℕ) → 0 < level f → entry_count after f ≤ used (after f) 512
  bounded-occupied f p = elim (ℕ_discrete f t) [
    | yes e ↦ rw e (omega (arith, entry_count-occupied, used-occupied, forest.bounded t table))
    | no ne ↦
        omega (arith, entry_count-occupied_other f ne, used-occupied_other f ne, forest.bounded f p)
  ]

  pub counted-occupied :
      (f : ℕ) → 0 < level f → level f < 4 → entry_count after f ≡ used (after f) 512
  counted-occupied f p q = elim (ℕ_discrete f t) [
    | yes e ↦
        let q' : level t < 4 = rw e at q in
        rw e (omega (arith, entry_count-occupied, used-occupied, forest.counted t table q'))
    | no ne ↦
        omega
          (arith, entry_count-occupied_other f ne, used-occupied_other f ne, forest.counted f p q)
  ]

  pub clean-occupied :
      (f j : ℕ) → 0 < level f → pointed_frame (after f j) ≡ none → is_unused (after f j) ≡ true
  clean-occupied f j p none_here = elim (index-cases f j t i) [
    | inl (e, e') ↦
        let n : pointed_frame (after t i) ≡ none = rw (e, e') at none_here in
        absurd (cc (n, pointed_frame-occupied))
    | inr ne ↦
        let a = Alike-occupied f j ne in
        a.same_use
        ∙ forest.clean f j p (sym (pointed_frame-Alike (entries f j) (after f j) a) ∙ none_here)
  ]
