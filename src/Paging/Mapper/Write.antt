-- ===== src/Paging/Mapper/Write.antt =====
-- One entry of a table is replaced and the counter of the table is set: what the other entries, the
-- other tables and the counters are afterwards.
use faastr.Common.{ℕ, ◌^◌, ◌<◌, ◌≡◌, ◌≢◌, ◌⊎◌, inl, inr, arith, sym, ap, ◌∙◌, ℕ_discrete}
use faastr.Paging.Entry.{counter_bits, set_counter_bits}
use faastr.Paging.Entry.Fields.{Alike, counter_bits-set_counter_bits, set_counter_bits-lt}
use faastr.Paging.Table.{put, entry_count, set_entry_count}
use faastr.Paging.Mapper.Forest.{put-cases, put_self, put_ne, Alike-set_entry_count}

module _ (entries : ℕ → ℕ → ℕ) (t i count e : ℕ) (p : count < 1024)
    (words : (f j : ℕ) → entries f j < 2 ^ 64) where
  abbrev pub counted : ℕ → ℕ → ℕ
  counted = set_entry_count count t entries

  abbrev pub written : ℕ → ℕ → ℕ
  written = put counted t i e

  counted_words : (f j : ℕ) → counted f j < 2 ^ 64
  unfolding set_entry_count
  counted_words f j = elim (put-cases entries t 0 (set_counter_bits count (entries t 0)) f j) [
    | inl (_, _, r) ↦ omega (arith, r, set_counter_bits-lt count (entries t 0) p (words t 0))
    | inr (_, r) ↦ omega (arith, r, words f j)
  ]

  pub written_words : e < 2 ^ 64 → (f j : ℕ) → written f j < 2 ^ 64
  written_words q f j = elim (put-cases counted t i e f j) [
    | inl (_, _, r) ↦ omega (arith, r, q)
    | inr (_, r) ↦ omega (arith, r, counted_words f j)
  ]

  pub Alike-written : (f j : ℕ) → (f ≢ t) ⊎ (j ≢ i) → Alike (entries f j) (written f j)
  Alike-written f j ne =
      rw (put_ne counted t i e f j ne) (Alike-set_entry_count count t entries f j p (words t 0))

  pub other_table : (f j : ℕ) → f ≢ t → written f j ≡ entries f j
  unfolding set_entry_count
  other_table f j ne =
      put_ne counted t i e f j (inl ne)
      ∙ put_ne entries t 0 (set_counter_bits count (entries t 0)) f j (inl ne)

  counted_zero : counter_bits (counted t 0) ≡ count
  unfolding set_entry_count
  counted_zero =
      ap counter_bits (put_self entries t 0 (set_counter_bits count (entries t 0)))
      ∙ counter_bits-set_counter_bits count (entries t 0) p (words t 0)

  pub entry_count-written :
      counter_bits e ≡ counter_bits (counted t i) → entry_count written t ≡ count
  unfolding entry_count
  entry_count-written keep = elim (ℕ_discrete 0 i) [
    | yes z ↦
        let e0 : counter_bits (counted t i) ≡ counter_bits (counted t 0) =
          ap (λ k. counter_bits (counted t k)) (sym z) in
        let w0 : counter_bits (written t 0) ≡ counter_bits (written t i) =
          ap (λ k. counter_bits (written t k)) z in
        w0 ∙ ap counter_bits (put_self counted t i e) ∙ keep ∙ e0 ∙ counted_zero
    | no ne ↦ ap counter_bits (put_ne counted t i e t 0 (inr ne)) ∙ counted_zero
  ]

  pub entry_count-other : (f : ℕ) → f ≢ t → entry_count written f ≡ entry_count entries f
  unfolding entry_count
  entry_count-other f ne = ap counter_bits (other_table f 0 ne)
