-- ===== src/Paging/Table/Recursive.antt =====
-- The recursive entry: the address that `next_table_address` computes is that of the next table.
use Prim.Native.Nat.{bit_or}
use faastr.Common.{
  ℕ, ◌+◌, ◌*◌, ◌/◌, ◌%◌, ◌^◌, ◌<◌, ◌≡◌, ap₂, Option, none, some, true, false, arith, Option-cases,
  Bool-cases, inl, inr,
}
use faastr.Common.Bits.{bit_or_split, bit_or-zero, zero-bit_or}
use faastr.Memory.Pages.{p4_index, p3_index, p2_index, p1_index}
use faastr.Paging.Table.{
  next_table, next_table_address, table_at, recursive_page_pml4, has_next, ◌>>=◌,
}

-- The shifts of the address and of the index do not overlap.
or_shifts :
    (table_address i : ℕ)
    → table_address % 4096 ≡ 0
    → i < 512
    → bit_or (table_address * 512 % 2 ^ 64) (i * 4096 % 2 ^ 64)
      ≡ table_address * 512 % 2 ^ 64 + i * 4096
or_shifts ta i h p =
    let high = ta * 512 % 2 ^ 64 / 2 ^ 21 in
    let words : bit_or (high * 2 ^ 21 + 0) (0 * 2 ^ 21 + i * 4096)
        ≡ bit_or (ta * 512 % 2 ^ 64) (i * 4096 % 2 ^ 64) =
      ap₂ bit_or (omega arith) (omega arith) in
    omega (
      arith,
      words,
      bit_or_split 21 high 0 0 (i * 4096) (omega arith) (omega arith),
      bit_or-zero high,
      zero-bit_or (i * 4096),
    )

-- The indices of the address move up by a level, and the index comes last.
indices :
    (ta i : ℕ)
    → ta % 4096 ≡ 0
    → ta < 2 ^ 64
    → i < 512
    → let page = (ta * 512 % 2 ^ 64 + i * 4096) / 4096 in
      (p4_index page ≡ p3_index (ta / 4096))
      × (p3_index page ≡ p2_index (ta / 4096))
      × (p2_index page ≡ p1_index (ta / 4096))
      × (p1_index page ≡ i)
indices ta i h b p = (omega arith, omega arith, omega arith, omega arith)

abbrev follow : (ℕ → ℕ → ℕ) → ℕ → ℕ → ℕ → ℕ → ℕ → Option ℕ
follow entries cr3 i j k l = do
  p3 ← next_table entries cr3 i
  p2 ← next_table entries p3 j
  p1 ← next_table entries p2 k
  next_table entries p1 l

follow_assoc :
    {t : ℕ} (entries : ℕ → ℕ → ℕ) (cr3 j k l i : ℕ)
    → next_table entries cr3 511 ≡ some cr3
    → follow entries cr3 511 j k l ≡ some t
    → follow entries cr3 j k l i ≡ next_table entries t i
follow_assoc {t} entries cr3 j k l i loop reached =
    let three : (next_table entries cr3 j >>= λ p3.
    next_table entries p3 k >>= λ p2. next_table entries p2 l)
        ≡ some t =
      rw loop at reached in
    elim (Option-cases (next_table entries cr3 j)) [
      | inl e ↦ absurd (ground (arith, three, e))
      | inr (x, e) ↦ elim (Option-cases (next_table entries x k)) [
        | inl f ↦ absurd (ground (arith, three, e, f))
        | inr (y, f) ↦
            let last : next_table entries y l ≡ some t = rw (e, f) at three in rw (e, f, last)
      ]
    ]

address_of_next :
    (entry ta i : ℕ)
    → ta % 4096 ≡ 0
    → i < 512
    → has_next entry ≡ true
    → next_table_address entry ta i ≡ some (ta * 512 % 2 ^ 64 + i * 4096)
unfolding next_table_address
address_of_next entry ta i h p e = rw (e, or_shifts ta i h p)

no_next :
    (entries : ℕ → ℕ → ℕ) (t i ta : ℕ)
    → has_next (entries t i) ≡ false
    → (next_table_address (entries t i) ta i ≡ none) × (next_table entries t i ≡ none)
unfolding next_table_address next_table
no_next entries t i ta e = (rw e, rw e)

-- Where the entry 511 of the table of the fourth level leads back to it: at the address that
-- `next_table_address` computes, the processor finds the next table, from every table that it
-- reaches through that entry.
pub table_at-next_table_address :
    (entries : ℕ → ℕ → ℕ) (cr3 table_address i : ℕ) {t : ℕ}
    → next_table entries cr3 recursive_page_pml4 ≡ some cr3
    → table_address % 4096 ≡ 0
    → table_address < 2 ^ 64
    → i < 512
    → p4_index (table_address / 4096) ≡ recursive_page_pml4
    → table_at entries cr3 table_address ≡ some t
    → (next_table_address (entries t i) table_address i >>= table_at entries cr3)
      ≡ next_table entries t i
unfolding table_at
table_at-next_table_address entries cr3 ta i {t} loop h b p top reached =
    elim (Bool-cases (has_next (entries t i))) [
      | inl e ↦
          let page = (ta * 512 % 2 ^ 64 + i * 4096) / 4096 in
          let (i4, i3, i2, i1) = indices ta i h b p in
          let up : follow entries cr3 511 (p3_index (ta / 4096)) (p2_index (ta / 4096))
                (p1_index (ta / 4096))
              ≡ some t =
            rw top at reached in
          let same : follow entries cr3 (p4_index page) (p3_index page) (p2_index page)
                (p1_index page)
              ≡ next_table entries t i =
            rw (i4, i3, i2, i1) (follow_assoc entries cr3 _ _ _ i loop up) in
          rw (address_of_next (entries t i) ta i h p e) same
      | inr e ↦ let (a, n) = no_next entries t i ta e in rw (a, n)
    ]
