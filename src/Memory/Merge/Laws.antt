-- ===== src/Memory/Merge/Laws.antt =====
-- What `merge` does to a well-formed free list.
use faastr.Common.{
  ℕ, suc, ◌+◌, ◌≤◌, ◌<◌, ◌≡◌, ◌≢◌, ◌⊎◌, inl, inr, refl, sym, ap, ◌∙◌, subst, List, Option, none,
  some, Bool, true, false, arith, get_elem?, set, remove, remove-total, sum_by, sum_by-set,
  sum_by-remove, index-lt, get_elem?-set_self, get_elem?-set_ne, All, All-get, All-set, All-remove,
  All-of_get, Option-cases, ℕ_discrete, le-sum_by,
}
use faastr.Memory.Blocks.{
  Block, end_of, covers, touches, held, touched, pages, Fits, IsSeparated, Apart, touched_inside,
  touches-le-one, Disjoint-of_covers,
}
use faastr.Memory.Merge.{find_join, join, merge, settle}
use faastr.Memory.Merge.Joined.{
  Joined, join-eq-some, join-eq-none, Joined-Fits, covers-Joined, find_join-eq-some,
  find_join-eq-none,
}
use faastr.Memory.Merge.Depth.{
  grown-IsSeparated, third_call, get-set_other, get-set_same, apart_of_separated,
}

-- What reaches from `o` to `p` over `b` touches nothing new but the inside of `b`.
touches_hull :
    (x : ℕ) (b o p m m2 : Block)
    → Apart o p
    → Joined b o m
    → Joined m p m2
    → (touches x m2 ≤ touches x o + touches x p) ⊎ ((b.address < x) × (x < end_of b))
unfolding touches
touches_hull x b o p m m2 h f s = ground arith

-- `free'` holds what `free` does, and the block `b`.
pub record Gained (free : List Block) (b : Block) (free' : List Block) : Type 0 where
  pub well : IsSeparated free'
  pub holds : (x : ℕ) → held free' x ≡ held free x + covers x b
  pub counts : pages free' ≡ pages free + b.count

module _ (free : List Block) (sep : IsSeparated free) (b : Block) (fb : Fits b)
    (new : (x : ℕ) → held free x + covers x b ≤ 1) (i : ℕ) (o m : Block)
    (at : get_elem? free i ≡ some o) (first : Joined b o m) where
  fo : Fits o
  fo = All-get Fits free i sep.fit at

  fm : Fits m
  fm = Joined-Fits b o m first fb fo

  held_grown : (x : ℕ) → held (set free i m) x ≡ held free x + covers x b
  held_grown x = omega (
    arith,
    sum_by-set (covers x) free i m at,
    covers-Joined b o m first x fb.some_page fo.some_page,
  )

  -- The second call finds nothing.
  grown-Gained : find_join m.address m.count (set free i m) ≡ none → Gained free b (set free i m)
  grown-Gained stop = record {
    well = grown-IsSeparated free sep i o m at fm (λ x. omega (arith, held_grown x, new x)) stop;
    holds = held_grown;
    counts = omega (arith, sum_by-set (λ c. c.count) free i m at);
  }

  module _ (j : ℕ) (p m2 : Block) (ne : i ≢ j) (at_j : get_elem? free j ≡ some p)
      (second : Joined m p m2) where
    fp : Fits p
    fp = All-get Fits free j sep.fit at_j

    at_i' : get_elem? (set (set free i m) j m2) i ≡ some m
    at_i' =
        get_elem?-set_ne (set free i m) m2 (λ e. ne (sym e))
        ∙ get_elem?-set_self free i m (index-lt free i at)

    module _ (left : List Block) (gone : remove (set (set free i m) j m2) i ≡ some left) where
      -- the sum of any weight over what is left
      weight : (f : Block → ℕ) → sum_by f left + f o + f p ≡ sum_by f free + f m2
      weight f = omega (
        arith,
        sum_by-set f free i m at,
        sum_by-set f (set free i m) j m2 (get_elem?-set_ne free m ne ∙ at_j),
        sum_by-remove f (set (set free i m) j m2) i at_i' gone,
      )

      left-apart : (x : ℕ) → touched left x ≤ 1
      left-apart x =
          elim (touches_hull x b o p m m2 (apart_of_separated free sep i o m at fm ne at_j) first
            second) [
              | inl known ↦ omega (arith, weight (touches x), sep.apart x, known)
              | inr (lo, hi) ↦ omega (
                arith,
                weight (touches x),
                touches-le-one x m2,
                touched_inside x b free sep.fit new lo hi,
              )
            ]

      left-Gained : Gained free b left
      left-Gained = record {
        well = record {
          fit =
              All-remove Fits (set (set free i m) j m2) i
                (All-set Fits (set free i m) j m2 (All-set Fits free i m sep.fit fm)
                  (Joined-Fits m p m2 second fm fp))
                gone;
          apart = left-apart;
        };
        holds = λ x. omega (
          arith,
          weight (covers x),
          covers-Joined b o m first x fb.some_page fo.some_page,
          covers-Joined m p m2 second x fm.some_page fp.some_page,
        );
        counts = omega (arith, weight (λ c. c.count));
      }

-- What `merge` promises of a block that is not empty and has no address in common with the list:
-- either the list is unchanged and nothing borders on the block, or the block is in it.
abbrev pub Merges : List Block → Block → List Block × Bool → Type 0
Merges free b (free', false) = (free' ≡ free) × All (Apart b) free
Merges free b (free', true) = Gained free b free'

join_self_absurd : (m m2 : Block) → Fits m → join m.address m.count m ≡ some m2 → ⊥
join_self_absurd m m2 f e = omega (arith, join-eq-some m m m2 f f e)

merge_stop :
    (fuel : ℕ) (free : List Block) (a n : ℕ)
    → find_join a n free ≡ none
    → merge (suc fuel) free a n ≡ some (free, false)
unfolding merge
merge_stop fuel free a n e = ground (arith, e)

merge_more :
    (fuel : ℕ) (free : List Block) (a n : ℕ) {i : ℕ} {m : Block}
    → find_join a n free ≡ some (i, m)
    → merge (suc fuel) free a n ≡ settle i (merge fuel (set free i m) m.address m.count)
unfolding merge
merge_more fuel free a n e = ground (arith, e)

settle_removed :
    (i : ℕ) {r : Option (List Block × Bool)} {ys left : List Block}
    → remove ys i ≡ some left
    → r ≡ some (ys, true)
    → settle i r ≡ some (left, true)
settle_removed i gone e = rw e (rw (gone, settle))

module _ (fuel : ℕ) (free : List Block) (sep : IsSeparated free) (b : Block) (fb : Fits b)
    (new : (x : ℕ) → held free x + covers x b ≤ 1) where
  third_merge :
      (i j : ℕ) (o p m m2 : Block)
      → get_elem? free i ≡ some o
      → Joined b o m
      → i ≢ j
      → get_elem? free j ≡ some p
      → Joined m p m2
      → (r : List Block × Bool) × (settle i
            (settle j (merge (suc fuel) (set (set free i m) j m2) m2.address m2.count))
          ≡ some r)
        × Merges free b r
  third_merge i j o p m m2 at first ne at_j second =
      let (left, gone) =
        remove-total (set (set free i m) j m2) i
          (at_i' free sep b fb new i o m at first j p m2 ne at_j second) in
      (
        (left, true),
        settle_removed i gone (
            ap (settle j) (
              merge_stop fuel (set (set free i m) j m2) m2.address m2.count
                (third_call free sep i j b o p m m2 at at_j ne fb first second))),
        left-Gained free sep b fb new i o m at first j p m2 ne at_j second left gone,
      )

  second_merge :
      (i : ℕ) (o m : Block)
      → get_elem? free i ≡ some o
      → Joined b o m
      → (r : List Block × Bool) × (settle i
            (merge (suc (suc fuel)) (set free i m) m.address m.count)
          ≡ some r)
        × Merges free b r
  second_merge i o m at first = elim (Option-cases (find_join m.address m.count (set free i m))) [
    | inl stop ↦ (
      (set free i m, true),
      rw (merge_stop (suc fuel) (set free i m) m.address m.count stop),
      grown-Gained free sep b fb new i o m at first stop,
    )
    | inr ((j, m2), more) ↦
        let (p, at_p, e) = find_join-eq-some m.address m.count (set free i m) more in
        elim (ℕ_discrete i j) [
          | yes same ↦ absurd (
              join_self_absurd m m2 f_m (
                subst (λ c. join m.address m.count c ≡ some m2)
                  (sym (
                    get-set_same free i m at
                      (subst (λ k. get_elem? (set free i m) k ≡ some p) (sym same) at_p)))
                  e))
          | no ne ↦
              let at_j = get-set_other free i m ne at_p in
              rw (merge_more (suc fuel) (set free i m) m.address m.count more) (
                third_merge i j o p m m2 at first ne at_j
                  (join-eq-some m p m2 f_m (All-get Fits free j sep.fit at_j) e))
        ]
  ]
    where
      f_m : Fits m
      f_m = Joined-Fits b o m first fb (All-get Fits free i sep.fit at)

  beside : find_join b.address b.count free ≡ none → All (Apart b) free
  beside stop = All-of_get (Apart b) free λ k c e.
      let fc = All-get Fits free k sep.fit e in
      join-eq-none b c fb fc
        (All-get (λ d. join b.address b.count d ≡ none) free k
          (find_join-eq-none b.address b.count free stop) e)
        (Disjoint-of_covers b c fb.some_page fc.some_page
          (λ x. omega (arith, new x, le-sum_by (covers x) free k e)))

  -- Three calls are enough, no index is out of range, and the result is as promised.
  pub merge_total :
      (r : List Block × Bool) × (merge (suc (suc (suc fuel))) free b.address b.count ≡ some r)
      × Merges free b r
  merge_total = elim (Option-cases (find_join b.address b.count free)) [
    | inl stop ↦ (
      (free, false),
      merge_stop (suc (suc fuel)) free b.address b.count stop,
      (refl, beside stop),
    )
    | inr ((i, m), more) ↦
        let (o, at, e) = find_join-eq-some b.address b.count free more in
        rw (merge_more (suc (suc fuel)) free b.address b.count more)
          (second_merge i o m at (join-eq-some b o m fb (All-get Fits free i sep.fit at) e))
  ]
