-- ===== src/Memory/Valloc/Allocate.antt =====
-- What `Valloc::allocate_pages` does to a well-formed free list.
use faastr.Common.{
  ℕ, zero, suc, ◌+◌, ◌-◌, ◌*◌, ◌≤◌, ◌<◌, ◌≡◌, refl, sym, ap, subst, ◌∙◌, inl, inr, List, [], ◌∷◌,
  ◌++◌, Option, none, some, arith, ltb, length, get_elem?, set, All, All-get, All-set, All-append,
  All-append_parts, index-lt, sum_by, sum_by-set, sum_by-append, Bool-cases, Option-cases,
  if◌then◌else◌,
}
use faastr.Common.Usize.{add_usize, mul_usize}
use faastr.Memory.Blocks.{
  Block, covers, touches, held, touched, Fits, IsSeparated, start_address, containing_address,
}
use faastr.Memory.Takes.{span, Least, Takes, covers_split, touches-low, covers_empty}
use faastr.Memory.Valloc.{Valloc, scan, init_last, swap_remove, allocate_pages}
use faastr.Memory.Valloc.Fit.{scan_best, scan-none, scan-Held, Held}

init_last-concat :
    (x : Block) (xs : List Block) → (init_last x xs).0 ++ (init_last x xs).1 ∷ [] ≡ x ∷ xs
init_last-concat x [] = refl
init_last-concat x (y ∷ ys) = ap (◌∷◌ x) (init_last-concat y ys)

get_elem?-append_left :
    (xs ys : List Block) (i : ℕ) → i < length xs → get_elem? (xs ++ ys) i ≡ get_elem? xs i
get_elem?-append_left [] ys i h = elim h [ ]
get_elem?-append_left (x ∷ xs) ys zero h = refl
get_elem?-append_left (x ∷ xs) ys (suc i) h = get_elem?-append_left xs ys i (omega arith)

get_elem?-concat_last :
    (xs : List Block) (y : Block) (i : ℕ) {a : Block}
    → length xs ≤ i
    → get_elem? (xs ++ y ∷ []) i ≡ some a
    → (a ≡ y) × (set xs i y ≡ xs)
get_elem?-concat_last [] y zero h e = ground arith
get_elem?-concat_last [] y (suc i) h e = absurd (ground arith)
get_elem?-concat_last (x ∷ xs) y zero h e = absurd (omega arith)
get_elem?-concat_last (x ∷ xs) y (suc i) h e =
    let (p, q) = get_elem?-concat_last xs y i (omega arith) e in (p, ap (◌∷◌ x) q)

-- `swap_remove` takes out the element at its index, and keeps the others.
module _ (front : List Block) (last : Block) (i : ℕ) {a : Block}
    (at : get_elem? (front ++ last ∷ []) i ≡ some a) where
  swapped-sum : (f : Block → ℕ) → sum_by f (set front i last) + f a ≡ sum_by f (front ++ last ∷ [])
  swapped-sum f = elim (Bool-cases (ltb i (length front))) [
    | inl inside ↦ omega (
      arith,
      sum_by-append f front (last ∷ []),
      sum_by-set f front i last
          (sym (get_elem?-append_left front (last ∷ []) i (ground arith)) ∙ at),
    )
    | inr outside ↦
        let (p, q) = get_elem?-concat_last front last i (ground arith) at in
        rw (p, q)
          (sym (sum_by-append f front (last ∷ []) ∙ ap (λ n. sum_by f front + n) (omega arith)))
  ]

  swapped-All : (P : Block → Type 0) → All P (front ++ last ∷ []) → All P (set front i last)
  swapped-All P h =
      let (p, q) = All-append_parts P front (last ∷ []) h in All-set P front i last p q.0

-- the list without the element at an index
record Without (xs : List Block) (a : Block) (ys : List Block) : Type 1 where
  sums : (f : Block → ℕ) → sum_by f ys + f a ≡ sum_by f xs
  all : (P : Block → Type 0) → All P xs → All P ys

swap_remove-total :
    (xs : List Block) (i : ℕ) {a : Block}
    → get_elem? xs i ≡ some a
    → (ys : List Block) × (swap_remove xs i ≡ some ys) × Without xs a ys
unfolding swap_remove
swap_remove-total [] i e = absurd (ground arith)
swap_remove-total (x ∷ xs) i {a} e =
    let front = (init_last x xs).0 in
    let last = (init_last x xs).1 in
    let whole = init_last-concat x xs in
    let at : get_elem? (front ++ last ∷ []) i ≡ some a = rw whole e in
    (
      set front i last,
      ground (arith, index-lt (x ∷ xs) i e),
      record {
        sums = λ f. swapped-sum front last i at f ∙ ap (sum_by f) whole;
        all = λ P h. swapped-All front last i at P (subst (All P) (sym whole) h);
      },
    )

abbrev pub Allocates : ℕ → Valloc → Option ℕ × Valloc → Type 0
Allocates count free (none, free') = (free' ≡ free) × All (λ c. c.count < count) free
Allocates count free (some page, free') = Takes count free page free'

abbrev low_part : ℕ → Block → Block
low_part count best = record { address = best.address; count = best.count - count }

-- the list between `push` and `swap_remove`
abbrev pushed : ℕ → List Block → Block → List Block
pushed count free best = if ltb count best.count then free ++ low_part count best ∷ [] else free

abbrev taken_page : ℕ → Block → ℕ
taken_page count best =
    containing_address (add_usize best.address (mul_usize (best.count - count) 4096))

allocate_none :
    (count : ℕ) (free : Valloc)
    → scan count 0 free none ≡ none
    → allocate_pages count free ≡ some (none, free)
unfolding allocate_pages
allocate_none count free e = ground (arith, e)

allocate_some :
    (count : ℕ) (free : Valloc) (i : ℕ) (best : Block) {ys : List Block}
    → scan count 0 free none ≡ some (i, best)
    → swap_remove (pushed count free best) i ≡ some ys
    → allocate_pages count free ≡ some (some (taken_page count best), ys)
unfolding allocate_pages
allocate_some count free i best e r = rw (e, allocate_pages) (rw (r, allocate_pages))

module _ (count : ℕ) (free : Valloc) (sep : IsSeparated free) (i : ℕ) (best : Block)
    (at : get_elem? free i ≡ some best) (fits : count ≤ best.count) where
  best-Fits : Fits best
  best-Fits = All-get Fits free i sep.fit at

  taken : start_address (taken_page count best) ≡ best.address + (best.count - count) * 4096
  taken = omega (arith, best-Fits)

  pushed-at : get_elem? (pushed count free best) i ≡ some best
  pushed-at = elim (Bool-cases (ltb count best.count)) [
    | inl more ↦
        rw more (get_elem?-append_left free (low_part count best ∷ []) i (index-lt free i at) ∙ at)
    | inr exact ↦ rw exact at
  ]

  pushed-sum :
      (f : Block → ℕ)
      → sum_by f (pushed count free best)
        ≡ sum_by f free + (if ltb count best.count then f (low_part count best) else 0)
  pushed-sum f = elim (Bool-cases (ltb count best.count)) [
    | inl more ↦ rw more (sum_by-append f free (low_part count best ∷ []) ∙ omega arith)
    | inr exact ↦ rw exact (omega arith)
  ]

  pushed-Fits : All Fits (pushed count free best)
  pushed-Fits = elim (Bool-cases (ltb count best.count)) [
    | inl more ↦
        rw more
          (All-append Fits free (low_part count best ∷ []) sep.fit (ground (arith, best-Fits), tt))
    | inr exact ↦ rw exact sep.fit
  ]

  module _ (ys : List Block) (w : Without (pushed count free best) best ys)
      (least : Least count best.count free) where
    ys-apart : (x : ℕ) → touched ys x ≤ 1
    ys-apart x = ground (
      arith,
      w.sums (touches x),
      pushed-sum (touches x),
      sep.apart x,
      touches-low x best (low_part count best) refl (omega arith),
    )

    ys-held : (x : ℕ) → held free x ≡ held ys x + covers x (span (taken_page count best) count)
    ys-held x = ground (
      arith,
      w.sums (covers x),
      pushed-sum (covers x),
      covers_empty x (low_part count best),
      covers_split x best (low_part count best) (span (taken_page count best) count) refl taken
          (omega arith),
    )

    ys-Takes : Takes count free (taken_page count best) ys
    ys-Takes = record {
      well = record { fit = w.all Fits pushed-Fits; apart = ys-apart };
      small = omega arith;
      holds = ys-held;
      counts = ground (arith, w.sums (λ c. c.count), pushed-sum (λ c. c.count));
      block = best;
      index = i;
      listed = at;
      at_end = omega (arith, taken);
      least = least;
    }

-- `allocate_pages` returns on every well-formed free list, without a panic. It fails, and changes
-- nothing, exactly when no block has `count` pages; otherwise it takes the high end of a block of
-- the least sufficient size, the list stays well formed, and it holds exactly the other addresses.
pub allocate_pages_lem :
    (count : ℕ) (free : Valloc)
    → IsSeparated free
    → (r : Option ℕ × Valloc) × (allocate_pages count free ≡ some r) × Allocates count free r
allocate_pages_lem count free sep = elim (Option-cases (scan count 0 free none)) [
  | inl no_fit ↦
      ((none, free), allocate_none count free no_fit, (refl, scan-none count 0 free no_fit))
  | inr ((i, best), found) ↦
      let at : get_elem? free i ≡ some best =
        subst (Held free) found
          (scan-Held count 0 free none free (λ k. ap (get_elem? free) (omega arith)) tt) in
      let (fits, least, _) = scan_best count 0 free none tt found in
      let (ys, gone, w) =
        swap_remove-total (pushed count free best) i (pushed-at count free sep i best at fits) in
      (
        (some (taken_page count best), ys),
        allocate_some count free i best found gone,
        ys-Takes count free sep i best at fits ys w least,
      )
]
