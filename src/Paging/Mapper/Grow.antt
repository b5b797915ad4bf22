-- ===== src/Paging/Mapper/Grow.antt =====
-- Entries that lead nowhere, a table that is zeroed, and memories in which tables are added.
use faastr.Common.{
  ℕ, ◌*◌, ◌/◌, ◌<◌, ◌≡◌, ◌≢◌, inl, inr, false, none, some, ◌==◌, if◌then◌else◌, arith, refl, ◌∙◌,
  Bool-cases,
}
use faastr.Paging.Entry.{flags, address, is_huge, is_present, pointed_frame}
use faastr.Paging.Entry.Fields.{flags-zero, pointed_frame-absent, pointed_frame-present}
use faastr.Paging.Table.{PageTables, next_table, zero_next, zero_table}

abbrev pub update : (ℕ → ℕ) → ℕ → ℕ → ℕ → ℕ
update g k v x = if x == k then v else g x

pub update_ne : (g : ℕ → ℕ) (k v x : ℕ) → x ≢ k → update g k v x ≡ g x
update_ne g k v x ne = ground (arith, ne)

pub update_self : (g : ℕ → ℕ) (k v : ℕ) → update g k v k ≡ v
update_self g k v = ground arith

pub zero_ne : (entries : ℕ → ℕ → ℕ) (c f j : ℕ) → f ≢ c → zero_table entries c f j ≡ entries f j
unfolding zero_table
zero_ne entries c f j ne = ground (arith, ne)

pub zero_self : (entries : ℕ → ℕ → ℕ) (c j : ℕ) → zero_table entries c c j ≡ 0
unfolding zero_table
zero_self entries c j = ground arith

pub next_of_zero : (entries : ℕ → ℕ → ℕ) (t i : ℕ) → entries t i ≡ 0 → next_table entries t i ≡ none
unfolding next_table
next_of_zero entries t i h = rw (h, flags-zero)

pub next_of_entry :
    (entries : ℕ → ℕ → ℕ) (t i frame : ℕ)
    → flags (entries t i) ≡ 7
    → address (entries t i) ≡ frame * 4096
    → next_table entries t i ≡ some frame
unfolding next_table
next_of_entry entries t i frame h k =
    let back : frame * 4096 / 4096 ≡ frame = omega arith in rw (h, k, back)

-- Where there is no next table, and no huge page, the entry is not present.
pub absent :
    (entries : ℕ → ℕ → ℕ) (t i : ℕ)
    → next_table entries t i ≡ none
    → is_huge (flags (entries t i)) ≡ false
    → pointed_frame (entries t i) ≡ none
unfolding next_table
absent entries t i h k = elim (Bool-cases (is_present (flags (entries t i)))) [
  | inl p ↦ absurd (cc (rw (p, k) at h))
  | inr p ↦ pointed_frame-absent (entries t i) p
]

-- What is not present leads to no table.
pub next_of_absent :
    (entries : ℕ → ℕ → ℕ) (t i : ℕ)
    → pointed_frame (entries t i) ≡ none
    → next_table entries t i ≡ none
unfolding next_table
next_of_absent entries t i h = elim (Bool-cases (is_present (flags (entries t i)))) [
  | inl p ↦ absurd (cc (h, pointed_frame-present (entries t i) p))
  | inr p ↦ rw p
]

-- A table is in the frame that the entry points to.
pub pointed_of_next :
    (entries : ℕ → ℕ → ℕ) (t i : ℕ) {c : ℕ}
    → next_table entries t i ≡ some c
    → pointed_frame (entries t i) ≡ some c
unfolding next_table
pointed_of_next entries t i h = elim (Bool-cases (is_present (flags (entries t i)))) [
  | inl p ↦ elim (Bool-cases (is_huge (flags (entries t i)))) [
    | inl q ↦ absurd (cc (rw (p, q) at h))
    | inr q ↦ pointed_frame-present (entries t i) p ∙ rw (p, q) at h
  ]
  | inr p ↦ absurd (cc (rw p at h))
]

-- Empty tables are added, and nothing else: those there were lead where they led.
pub record Grows (level : ℕ → ℕ) (entries entries' : ℕ → ℕ → ℕ) : Type 0 where
  pub keeps :
      (t i c : ℕ) → 0 < level t → next_table entries t i ≡ some c → next_table entries' t i ≡ some c
  pub adds :
      (t i c : ℕ)
      → 0 < level t
      → next_table entries t i ≡ none
      → next_table entries' t i ≡ some c
      → (j : ℕ) → j < 512
      → pointed_frame (entries' c j) ≡ none
  pub leaves : (t i : ℕ) → level t ≡ 1 → pointed_frame (entries' t i) ≡ pointed_frame (entries t i)

pub Grows-refl : (level : ℕ → ℕ) (entries : ℕ → ℕ → ℕ) → Grows level entries entries
Grows-refl level entries = record {
  keeps = λ t i c p h. h;
  adds = λ t i c p h k. absurd (cc (h, k));
  leaves = λ t i p. refl;
}

pub zero_next_lem :
    {S : Type 0} (t i : ℕ) (s : PageTables S) {c d : ℕ}
    → next_table s.entries t i ≡ some c
    → next_table (zero_table s.entries c) t i ≡ some d
    → zero_next t i s ≡ some (d, record s { entries = zero_table s.entries c })
zero_next_lem t i s h k = rw (zero_next, h, zero_next, k)
