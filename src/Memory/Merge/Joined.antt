-- ===== src/Memory/Merge/Joined.antt =====
-- What one pass of the loop of `merge` finds, for blocks that do not reach the end of the
-- address space.
use faastr.Common.{
  ℕ, ◌+◌, ◌<◌, ◌≡◌, ◌≢◌, ◌⊎◌, inl, inr, refl, List, [], ◌∷◌, none, some, arith, get_elem?, All,
  Option-cases,
}
use faastr.Memory.Blocks.{Block, end_of, covers, Fits, Apart, Disjoint}
use faastr.Memory.Merge.{join, find_join, wrapped_end}

-- `m` is `b` and `c` put together at the end where they meet.
abbrev pub Joined : Block → Block → Block → Type 0
Joined b c m =
    ((end_of b ≡ c.address) × (m.address ≡ b.address) × (m.count ≡ c.count + b.count))
    ⊎ ((end_of c ≡ b.address) × (m.address ≡ c.address) × (m.count ≡ c.count + b.count))

pub wrapped_end_lem : (b : Block) → Fits b → wrapped_end b.address b.count ≡ end_of b
wrapped_end_lem b f = omega arith

pub join-eq-some :
    (b c m : Block) → Fits b → Fits c → join b.address b.count c ≡ some m → Joined b c m
unfolding join
join-eq-some b c m fb fc e = ground (arith, wrapped_end_lem b fb, wrapped_end_lem c fc)

pub join-eq-none :
    (b c : Block) → Fits b → Fits c → join b.address b.count c ≡ none → Disjoint b c → Apart b c
unfolding join
join-eq-none b c fb fc e d = ground (arith, wrapped_end_lem b fb, wrapped_end_lem c fc)

pub join_apart :
    (b c : Block)
    → Fits b
    → Fits c
    → end_of b ≢ c.address
    → end_of c ≢ b.address
    → join b.address b.count c ≡ none
unfolding join
join_apart b c fb fc p q = ground (arith, wrapped_end_lem b fb, wrapped_end_lem c fc)

module _ (b c m : Block) (j : Joined b c m) where
  pub Joined-end : (end_of m ≡ end_of b) ⊎ (end_of m ≡ end_of c)
  Joined-end = omega arith

  pub Joined-Fits : Fits b → Fits c → Fits m
  Joined-Fits fb fc = omega arith

  pub covers-Joined : (x : ℕ) → 0 < b.count → 0 < c.count → covers x m ≡ covers x c + covers x b
  unfolding covers
  covers-Joined x pb pc = ground arith

pub find_join-eq-none :
    (a n : ℕ) (free : List Block) → find_join a n free ≡ none → All (λ c. join a n c ≡ none) free
unfolding find_join
find_join-eq-none a n [] e = tt
find_join-eq-none a n (c ∷ rest) e = elim (Option-cases (join a n c)) [
  | inl z ↦ (z, find_join-eq-none a n rest (ground (arith, z)))
  | inr (g, s) ↦ absurd (ground (arith, s))
]

pub find_join-none :
    (a n : ℕ) (free : List Block) → All (λ c. join a n c ≡ none) free → find_join a n free ≡ none
unfolding find_join
find_join-none a n [] h = refl
find_join-none a n (c ∷ rest) h = ground (arith, h.0, find_join-none a n rest h.1)

pub find_join-eq-some :
    (a n : ℕ) (free : List Block) {i : ℕ} {m : Block}
    → find_join a n free ≡ some (i, m)
    → (c : Block) × (get_elem? free i ≡ some c) × (join a n c ≡ some m)
unfolding find_join
find_join-eq-some a n [] e = absurd (ground arith)
find_join-eq-some a n (c ∷ rest) {i} {m} e = elim (Option-cases (join a n c)) [
  | inl z ↦ elim (Option-cases (find_join a n rest)) [
    | inl none_later ↦ absurd (ground arith)
    | inr ((k, g), later) ↦
        let (d, at, j) = find_join-eq-some a n rest later in (d, ground arith, ground arith)
  ]
  | inr (g, s) ↦ (c, ground arith, ground arith)
]
