-- ===== src/Paging/Mapper/Forest.antt =====
-- When the tables form a tree: every table is led to by one entry, of the table above it, and its
-- counter says how many of its own entries are in use.
use faastr.Common.{
  ℕ, suc, ◌^◌, ◌≤◌, ◌<◌, ◌≡◌, ◌≢◌, ◌⊎◌, inl, inr, true, none, some, arith, ℕ_discrete,
}
use faastr.Paging.Entry.{pointed_frame, is_unused, set_counter_bits}
use faastr.Paging.Entry.Fields.{Alike, Alike-refl, Alike-set_counter_bits}
use faastr.Paging.Table.{put, entry_count, set_entry_count, next_table}
use faastr.Paging.Mapper.Used.{used}

-- Not the recursive entry.
abbrev pub Proper : (ℕ → ℕ) → ℕ → ℕ → Type 0
Proper level t i = (level t < 4) ⊎ (i ≢ 511)

-- A frame that holds no table has the level 0.
pub record IsForest (p4 : ℕ) (entries : ℕ → ℕ → ℕ) (parent slot level : ℕ → ℕ) : Type 0 where
  pub words : (t i : ℕ) → entries t i < 2 ^ 64
  pub root : level p4 ≡ 4
  pub low : (t : ℕ) → level t ≤ 4
  pub below :
      (t i c : ℕ)
      → 1 < level t
      → Proper level t i
      → next_table entries t i ≡ some c
      → suc (level c) ≡ level t
  pub above :
      (t i c : ℕ)
      → 1 < level t
      → Proper level t i
      → next_table entries t i ≡ some c
      → (parent c ≡ t) × (slot c ≡ i)
  pub clean :
      (t i : ℕ) → 0 < level t → pointed_frame (entries t i) ≡ none → is_unused (entries t i) ≡ true
  pub bounded : (t : ℕ) → 0 < level t → entry_count entries t ≤ used (entries t) 512
  pub counted : (t : ℕ) → 0 < level t → level t < 4 → entry_count entries t ≡ used (entries t) 512

pub put-cases :
    (entries : ℕ → ℕ → ℕ) (t i e f j : ℕ)
    → ((f ≡ t) × (j ≡ i) × (put entries t i e f j ≡ e))
      ⊎ (((f ≢ t) ⊎ (j ≢ i)) × (put entries t i e f j ≡ entries f j))
unfolding put
put-cases entries t i e f j = elim (ℕ_discrete f t) [
  | no ne ↦ inr (inl ne, ground (arith, ne))
  | yes p ↦ elim (ℕ_discrete j i) [
    | no ne ↦ inr (inr ne, ground (arith, ne))
    | yes q ↦ inl (p, q, ground (arith, p, q))
  ]
]

pub put_self : (entries : ℕ → ℕ → ℕ) (t i e : ℕ) → put entries t i e t i ≡ e
unfolding put
put_self entries t i e = ground arith

pub put_ne :
    (entries : ℕ → ℕ → ℕ) (t i e f j : ℕ) → (f ≢ t) ⊎ (j ≢ i) → put entries t i e f j ≡ entries f j
unfolding put
put_ne entries t i e f j (inl ne) = ground (arith, ne)
put_ne entries t i e f j (inr ne) = ground (arith, ne)

pub next_table-Alike :
    (entries entries' : ℕ → ℕ → ℕ) (t i : ℕ)
    → Alike (entries t i) (entries' t i)
    → next_table entries' t i ≡ next_table entries t i
unfolding next_table
next_table-Alike entries entries' t i a = rw (a.same_flags, a.same_address)

pub Alike-set_entry_count :
    (count t : ℕ) (entries : ℕ → ℕ → ℕ) (f j : ℕ)
    → count < 1024
    → entries t 0 < 2 ^ 64
    → Alike (entries f j) (set_entry_count count t entries f j)
unfolding set_entry_count
Alike-set_entry_count count t entries f j p q =
    elim (put-cases entries t 0 (set_counter_bits count (entries t 0)) f j) [
      | inl (e, e', r) ↦ rw (r, e, e') (Alike-set_counter_bits count (entries t 0) p q)
      | inr (ne, r) ↦ rw r (Alike-refl (entries f j))
    ]
