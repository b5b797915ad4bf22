-- ===== src/Paging/Mapper/Used.antt =====
-- How many of the entries of a table are in use, and what one entry makes of the number.
use faastr.Common.{
  ℕ, zero, suc, ◌+◌, ◌≤◌, ◌<◌, ◌≡◌, ◌≢◌, Bool, true, false, if◌then◌else◌, arith, refl, ℕ_discrete,
}
use faastr.Paging.Entry.{is_unused}

abbrev one_if_used : Bool → ℕ
one_if_used b = if b then 0 else 1

-- in use among the first `n`
pub used : (ℕ → ℕ) → ℕ → ℕ
used row zero = 0
used row (suc n) = one_if_used (is_unused (row n)) + used row n

pub used-le : (row : ℕ → ℕ) (n : ℕ) → used row n ≤ n
unfolding used
used-le row zero = omega arith
used-le row (suc n) = ground (arith, used-le row n)

pub used_same :
    (row row' : ℕ → ℕ) (n : ℕ)
    → ((j : ℕ) → is_unused (row j) ≡ is_unused (row' j))
    → used row n ≡ used row' n
unfolding used
used_same row row' zero h = refl
used_same row row' (suc n) h = rw (h n, used_same row row' n h)

used_same_below :
    (row row' : ℕ → ℕ) (i n : ℕ)
    → ((j : ℕ) → j ≢ i → is_unused (row j) ≡ is_unused (row' j))
    → n ≤ i
    → used row n ≡ used row' n
unfolding used
used_same_below row row' i zero h p = refl
used_same_below row row' i (suc n) h p =
    rw (h n (omega arith), used_same_below row row' i n h (omega arith))

-- One entry that was unused is used.
pub used_fill :
    (row row' : ℕ → ℕ) (i n : ℕ)
    → ((j : ℕ) → j ≢ i → is_unused (row j) ≡ is_unused (row' j))
    → is_unused (row i) ≡ true
    → is_unused (row' i) ≡ false
    → i < n
    → used row' n ≡ suc (used row n)
unfolding used
used_fill row row' i zero h u u' p = absurd (omega arith)
used_fill row row' i (suc n) h u u' p = elim (ℕ_discrete n i) [
  | yes e ↦ ground (arith, e, used_same_below row row' i n h)
  | no ne ↦ ground (arith, h n ne, used_fill row row' i n h u u')
]

pub used-lt : (row : ℕ → ℕ) (i n : ℕ) → is_unused (row i) ≡ true → i < n → used row n < n
unfolding used
used-lt row i zero u p = absurd (omega arith)
used-lt row i (suc n) u p = elim (ℕ_discrete n i) [
  | yes e ↦ ground (arith, e, used-le row n)
  | no ne ↦ ground (arith, used-lt row i n u)
]

pub used_pos : (row : ℕ → ℕ) (i n : ℕ) → is_unused (row i) ≡ false → i < n → 0 < used row n
unfolding used
used_pos row i zero u p = absurd (omega arith)
used_pos row i (suc n) u p = elim (ℕ_discrete n i) [
  | yes e ↦ ground (arith, e)
  | no ne ↦ ground (arith, used_pos row i n u)
]

-- A table of which nothing is in use.
pub unused_of_used : (row : ℕ → ℕ) (i n : ℕ) → used row n ≡ 0 → i < n → is_unused (row i) ≡ true
unfolding used
unused_of_used row i zero u p = absurd (omega arith)
unused_of_used row i (suc n) u p = elim (ℕ_discrete n i) [
  | yes e ↦ ground (arith, e)
  | no ne ↦ ground (arith, unused_of_used row i n)
]

pub used_nothing : (row : ℕ → ℕ) (n : ℕ) → ((j : ℕ) → is_unused (row j) ≡ true) → used row n ≡ 0
unfolding used
used_nothing row zero h = refl
used_nothing row (suc n) h = ground (arith, h n, used_nothing row n h)
