-- ===== src/Memory/Valloc/Fit.antt =====
-- The search of `Valloc::allocate_pages` finds a block of the least sufficient size, if any.
use faastr.Common.{
  ℕ, suc, ◌+◌, ◌≤◌, ◌<◌, ◌≡◌, ◌≢◌, sym, ◌∙◌, Bool-cases, true, false, inl, inr, ap, List, [], ◌∷◌,
  Option, none, some, arith, ltb, ◌==◌, get_elem?, All,
}
use faastr.Memory.Blocks.{Block}
use faastr.Memory.Takes.{Least}
use faastr.Memory.Valloc.{scan, better}

abbrev pub LeBest : ℕ → ℕ → Option (ℕ × Block) → Type 0
LeBest count n none = Unit
LeBest count n (some (j, b)) = (count ≤ b.count) × (n ≤ b.count)

Least-exact : (count n : ℕ) (rest : List Block) → n ≤ count → Least count n rest
Least-exact count n [] h = tt
Least-exact count n (c ∷ rest) h = (λ p. omega arith, Least-exact count n rest h)

-- One round, split as the loop branches.
scan_skip :
    (count i : ℕ) (c : Block) (rest : List Block) (best : Option (ℕ × Block))
    → ltb c.count count ≡ true
    → scan count i (c ∷ rest) best ≡ scan count (suc i) rest best
unfolding scan
scan_skip count i c rest best e = rw e

scan_exact :
    (count i : ℕ) (c : Block) (rest : List Block) (best : Option (ℕ × Block))
    → ltb c.count count ≡ false
    → ((better i c best).1.count == count) ≡ true
    → scan count i (c ∷ rest) best ≡ some (better i c best)
unfolding scan
scan_exact count i c rest best e f = rw (e, f)

scan_more :
    (count i : ℕ) (c : Block) (rest : List Block) (best : Option (ℕ × Block))
    → ltb c.count count ≡ false
    → ((better i c best).1.count == count) ≡ false
    → scan count i (c ∷ rest) best ≡ scan count (suc i) rest (some (better i c best))
unfolding scan
scan_more count i c rest best e f = rw (e, f)

better_best :
    (count n i : ℕ) (c : Block) (best : Option (ℕ × Block))
    → count ≤ c.count
    → LeBest count 0 best
    → LeBest count 0 (some (better i c best))
better_best count n i c none h g = ground arith
better_best count n i c (some (k, d)) h g = ground arith

better_least :
    (count n i : ℕ) (c : Block) (best : Option (ℕ × Block))
    → LeBest count 0 best
    → n ≤ (better i c best).1.count
    → (n ≤ c.count) × LeBest count n best
better_least count n i c none g h = ground arith
better_least count n i c (some (k, d)) g h = ground arith

pub scan_best :
    (count i : ℕ) (rest : List Block) (best : Option (ℕ × Block)) {j : ℕ} {b : Block}
    → LeBest count 0 best
    → scan count i rest best ≡ some (j, b)
    → (count ≤ b.count) × Least count b.count rest × LeBest count b.count best
unfolding scan
scan_best count i [] none h e = absurd (ground arith)
scan_best count i [] (some (k, c)) h e = ground arith
scan_best count i (c ∷ rest) best {j} {b} h e = elim (Bool-cases (ltb c.count count)) [
  | inl small ↦
      let (p, q, r) =
        scan_best count (suc i) rest best h (sym (scan_skip count i c rest best small) ∙ e) in
      (p, (λ z. absurd (ground arith), q), r)
  | inr fits ↦
      let good = better_best count 0 i c best (ground arith) h in
      elim (Bool-cases ((better i c best).1.count == count)) [
        | inl exact ↦
            let found = sym (scan_exact count i c rest best fits exact) ∙ e in
            let same : (better i c best).1.count ≡ b.count = ground arith in
            let least = better_least count b.count i c best h (omega (arith, same)) in
            (
              omega (arith, good, same),
              (λ z. least.0, Least-exact count b.count rest (ground arith)),
              least.1,
            )
        | inr above ↦
            let (p, q, r) =
              scan_best count (suc i) rest (some (better i c best)) good
                (sym (scan_more count i c rest best fits above) ∙ e) in
            let least = better_least count b.count i c best h r.1 in (p, (λ z. least.0, q), least.1)
      ]
]

scan-some :
    (count i : ℕ) (rest : List Block) (best : ℕ × Block) → scan count i rest (some best) ≢ none
unfolding scan
scan-some count i [] best e = absurd (ground arith)
scan-some count i (c ∷ rest) best e =
    ground (arith, scan-some count (suc i) rest best, scan-some count (suc i) rest (i, c))

pub scan-none :
    (count i : ℕ) (rest : List Block)
    → scan count i rest none ≡ none
    → All (λ c. c.count < count) rest
scan-none count i [] e = tt
scan-none count i (c ∷ rest) e = elim (Bool-cases (ltb c.count count)) [
  | inl small ↦
      (ground arith, scan-none count (suc i) rest (sym (scan_skip count i c rest none small) ∙ e))
  | inr fits ↦ elim (Bool-cases (c.count == count)) [
    | inl exact ↦ absurd (ground (arith, scan_exact count i c rest none fits exact))
    | inr above ↦
        absurd
          (scan-some count (suc i) rest (i, c) (sym (scan_more count i c rest none fits above) ∙ e))
  ]
]

abbrev pub Held : List Block → Option (ℕ × Block) → Type 0
Held free none = Unit
Held free (some (j, b)) = get_elem? free j ≡ some b

better-Held :
    (i : ℕ) (c : Block) (best : Option (ℕ × Block)) (free : List Block)
    → get_elem? free i ≡ some c
    → Held free best
    → Held free (some (better i c best))
better-Held i c none free e g = e
better-Held i c (some (k, d)) free e g = ground arith

pub scan-Held :
    (count i : ℕ) (rest : List Block) (best : Option (ℕ × Block)) (free : List Block)
    → ((k : ℕ) → get_elem? rest k ≡ get_elem? free (i + k))
    → Held free best
    → Held free (scan count i rest best)
unfolding scan
scan-Held count i [] best free h g = g
scan-Held count i (c ∷ rest) best free h g = elim (Bool-cases (ltb c.count count)) [
  | inl small ↦
      rw (scan_skip count i c rest best small) (scan-Held count (suc i) rest best free later g)
  | inr fits ↦ elim (Bool-cases ((better i c best).1.count == count)) [
    | inl exact ↦ rw (scan_exact count i c rest best fits exact) now
    | inr above ↦
        rw (scan_more count i c rest best fits above)
          (scan-Held count (suc i) rest (some (better i c best)) free later now)
  ]
]
  where
    later : (k : ℕ) → get_elem? rest k ≡ get_elem? free (suc i + k)
    later k = h (suc k) ∙ ap (get_elem? free) (omega arith)

    now : Held free (some (better i c best))
    now = better-Held i c best free (sym (h 0 ∙ ap (get_elem? free) (omega arith))) g
