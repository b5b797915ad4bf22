-- ===== src/Context/Scheduler/Turns.antt =====
-- Whose turn it is after a call of `switch`.
use faastr.Common.{
  ℕ, ◌≤◌, ◌<◌, ◌≡◌, ◌≢◌, ◌⊎◌, inl, inr, refl, sym, subst, some_inj, ◌∙◌, true, ◌&&◌, List, [], ◌∷◌,
  Option, none, some, arith, ltb, All, All-map, Option-cases, Bool-cases,
}
use faastr.Context.{Context}
use faastr.Context.ContextList.{get}
use faastr.Context.ContextList.Insert.{Ascending, get-All}
use faastr.Context.Scheduler.{runnable, first_after, first_before, next_context}

-- After `from`, in the order of the identifiers and round from the last to the first, the turn of
-- `to` does not come later than that of `other`.
abbrev pub NotLater : ℕ → ℕ → ℕ → Type 0
NotLater from to other =
    ((from < to) × ((to ≤ other) ⊎ (other < from))) ⊎ ((to < from) × (to ≤ other) × (other < from))

-- Of the contexts that could run, other than `from`, `to` is the next.
abbrev pub IsNext : ℕ → ℕ → Context → List Context → Type 0
IsNext cpu from to contexts =
    (runnable cpu to ≡ true)
    × (get to.id contexts ≡ some to)
    × All (λ c. runnable cpu c ≡ true → c.id ≢ from → NotLater from to.id c.id) contexts

first_after-none :
    (cpu from : ℕ) (cs : List Context)
    → first_after cpu from cs ≡ none
    → All (λ c. runnable cpu c ≡ true → c.id ≤ from) cs
unfolding first_after
first_after-none cpu from [] e = tt
first_after-none cpu from (c ∷ cs) e = elim (Bool-cases (ltb from c.id && runnable cpu c)) [
  | inl hit ↦ absurd (ground (arith, hit))
  | inr miss ↦ (λ r. ground (arith, miss, r), first_after-none cpu from cs (ground (arith, miss)))
]

first_after-some :
    (cpu from : ℕ) (cs : List Context) {to : Context}
    → Ascending cs
    → first_after cpu from cs ≡ some to
    → (from < to.id)
      × (runnable cpu to ≡ true)
      × (get to.id cs ≡ some to)
      × All (λ c. runnable cpu c ≡ true → from < c.id → to.id ≤ c.id) cs
unfolding first_after
first_after-some cpu from [] a e = absurd (ground arith)
first_after-some cpu from (c ∷ cs) {to} a e = elim (Bool-cases (ltb from c.id && runnable cpu c)) [
  | inl hit ↦
      let same : c ≡ to = some_inj (sym (rw hit refl) ∙ e) in
      subst
        (λ t.
          (from < t.id)
          × (runnable cpu t ≡ true)
          × (get t.id (c ∷ cs) ≡ some t)
          × All (λ d. runnable cpu d ≡ true → from < d.id → t.id ≤ d.id) (c ∷ cs))
        same
        (
          ground (arith, hit),
          ground (arith, hit),
          ground arith,
          (
            λ r l. omega arith,
            All-map (λ d. c.id < d.id) (λ d. runnable cpu d ≡ true → from < d.id → c.id ≤ d.id)
                (λ d l r q. omega arith) cs a.0,
          ),
        )
  | inr miss ↦
      let (l, r, g, h) = first_after-some cpu from cs {to = to} a.1 (ground (arith, miss)) in
      (
        l,
        r,
        ground (arith, g, get-All (λ d. c.id < d.id) to.id cs g a.0),
        (λ rc lc. absurd (ground (arith, miss, rc, lc)), h),
      )
]

first_before-none :
    (cpu from : ℕ) (cs : List Context)
    → first_before cpu from cs ≡ none
    → All (λ c. runnable cpu c ≡ true → from ≤ c.id) cs
unfolding first_before
first_before-none cpu from [] e = tt
first_before-none cpu from (c ∷ cs) e = elim (Bool-cases (ltb c.id from && runnable cpu c)) [
  | inl hit ↦ absurd (ground (arith, hit))
  | inr miss ↦ (λ r. ground (arith, miss, r), first_before-none cpu from cs (ground (arith, miss)))
]

first_before-some :
    (cpu from : ℕ) (cs : List Context) {to : Context}
    → Ascending cs
    → first_before cpu from cs ≡ some to
    → (to.id < from)
      × (runnable cpu to ≡ true)
      × (get to.id cs ≡ some to)
      × All (λ c. runnable cpu c ≡ true → c.id < from → to.id ≤ c.id) cs
unfolding first_before
first_before-some cpu from [] a e = absurd (ground arith)
first_before-some cpu from (c ∷ cs) {to} a e = elim (Bool-cases (ltb c.id from && runnable cpu c)) [
  | inl hit ↦
      let same : c ≡ to = some_inj (sym (rw hit refl) ∙ e) in
      subst
        (λ t.
          (t.id < from)
          × (runnable cpu t ≡ true)
          × (get t.id (c ∷ cs) ≡ some t)
          × All (λ d. runnable cpu d ≡ true → d.id < from → t.id ≤ d.id) (c ∷ cs))
        same
        (
          ground (arith, hit),
          ground (arith, hit),
          ground arith,
          (
            λ r l. omega arith,
            All-map (λ d. c.id < d.id) (λ d. runnable cpu d ≡ true → d.id < from → c.id ≤ d.id)
                (λ d l r q. omega arith) cs a.0,
          ),
        )
  | inr miss ↦
      let (l, r, g, h) = first_before-some cpu from cs {to = to} a.1 (ground (arith, miss)) in
      (
        l,
        r,
        ground (arith, g, get-All (λ d. c.id < d.id) to.id cs g a.0),
        (λ rc lc. absurd (ground (arith, miss, rc, lc)), h),
      )
]

-- two facts of each element
All-both :
    (P Q R : Context → Type 0) (f : (c : Context) → P c → Q c → R c) (cs : List Context)
    → All P cs
    → All Q cs
    → All R cs
All-both P Q R f [] p q = tt
All-both P Q R f (c ∷ cs) p q = (f c p.0 q.0, All-both P Q R f cs p.1 q.1)

-- The choice: the next context in turn, or nothing where no other context can run.
abbrev pub Chosen : ℕ → ℕ → List Context → Option Context → Type 0
Chosen cpu from cs none = All (λ c. runnable cpu c ≡ true → c.id ≡ from) cs
Chosen cpu from cs (some to) = (to.id ≢ from) × IsNext cpu from to cs

pub next_context_lem :
    (cpu from : ℕ) (cs : List Context)
    → Ascending cs
    → Chosen cpu from cs (next_context cpu from cs)
unfolding next_context
next_context_lem cpu from cs a = elim (Option-cases (first_after cpu from cs)) [
  | inl none_after ↦
      let below = first_after-none cpu from cs none_after in
      elim (Option-cases (first_before cpu from cs)) [
        | inl none_before ↦
            rw (none_after, next_context)
              (rw none_before (
                All-both (λ c. runnable cpu c ≡ true → c.id ≤ from)
                  (λ c. runnable cpu c ≡ true → from ≤ c.id)
                  (λ c. runnable cpu c ≡ true → c.id ≡ from) (λ c p q r. omega (arith, p r, q r)) cs
                  below (first_before-none cpu from cs none_before)))
        | inr (to, found) ↦
            let (l, r, g, h) = first_before-some cpu from cs {to = to} a found in
            rw (none_after, next_context)
              (rw found (
                (λ e. absurd (omega arith)),
                (
                  r,
                  g,
                  All-both (λ c. runnable cpu c ≡ true → c.id ≤ from)
                      (λ c. runnable cpu c ≡ true → c.id < from → to.id ≤ c.id)
                      (λ c. runnable cpu c ≡ true → c.id ≢ from → NotLater from to.id c.id)
                      (λ c p q rc ne.
                        let lt : c.id < from = ground (arith, p rc, ne) in inr (l, q rc lt, lt))
                      cs below h,
                ),
              ))
      ]
  | inr (to, found) ↦
      let (l, r, g, h) = first_after-some cpu from cs {to = to} a found in
      rw (found, next_context)
        (
          (λ e. absurd (omega arith)),
          (
            r,
            g,
            All-map (λ c. runnable cpu c ≡ true → from < c.id → to.id ≤ c.id)
                (λ c. runnable cpu c ≡ true → c.id ≢ from → NotLater from to.id c.id)
                (λ c q rc ne. elim (Bool-cases (ltb from c.id)) [
                  | inl lt ↦ inl (l, inl (q rc (ground (arith, lt))))
                  | inr le ↦ inl (l, inr (ground (arith, le, ne)))
                ])
                cs h,
          ),
        )
]
