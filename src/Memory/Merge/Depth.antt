-- ===== src/Memory/Merge/Depth.antt =====
-- The second and the third call of `merge`. A block that is given back borders on at most two
-- entries, so the third call finds nothing, and each index still points at the entry it was for.
use faastr.Common.{
  ℕ, zero, suc, ◌+◌, ◌≤◌, ◌≡◌, ◌≢◌, refl, subst, sym, ◌∙◌, List, [], ◌∷◌, none, some, arith,
  get_elem?, set, get_elem?-set_self, get_elem?-set_ne, index-lt, All-get, All-of_get, All-set,
  sum_by_extra, sum_by-set, add-le-sum_by, ℕ_discrete,
}
use faastr.Memory.Blocks.{
  Block, covers, touches, held, touched, Fits, IsSeparated, Apart, Disjoint, apart_of_touches,
  Disjoint-of_covers, touches-le-one, touches-Apart,
}
use faastr.Memory.Merge.{join, find_join}
use faastr.Memory.Merge.Joined.{
  Joined, join-eq-none, join_apart, Joined-Fits, find_join-eq-none, find_join-none,
}

-- a write at one index, read at another
pub get-set_other :
    (xs : List Block) (i : ℕ) (v : Block) {k : ℕ} {c : Block}
    → i ≢ k
    → get_elem? (set xs i v) k ≡ some c
    → get_elem? xs k ≡ some c
get-set_other xs i v ne e = rw (get_elem?-set_ne xs v ne) at e

pub get-set_same :
    (xs : List Block) (i : ℕ) (v : Block) {o c : Block}
    → get_elem? xs i ≡ some o
    → get_elem? (set xs i v) i ≡ some c
    → v ≡ c
get-set_same xs i v {o} {c} at e = ground (arith, get_elem?-set_self xs i v (index-lt xs i at))

touched_replace :
    (x : ℕ) (free : List Block) (i : ℕ) (m : Block) {o : Block}
    → get_elem? free i ≡ some o
    → touched free x ≤ 1
    → ((k : ℕ) (c : Block) → i ≢ k → get_elem? free k ≡ some c → touches x m + touches x c ≤ 1)
    → touched (set free i m) x ≤ 1
touched_replace x [] i m at t h = omega arith
touched_replace x (c ∷ rest) zero m at t h =
    sum_by_extra (touches x) m rest (touches-le-one x m) (omega arith) (
      All-of_get (λ d. touches x m + touches x d ≤ 1) rest
        λ k d e. h (suc k) d (λ z. absurd (omega arith)) e)
touched_replace x (c ∷ rest) (suc i) m {o} at t h = omega (
  arith,
  sum_by-set (touches x) rest i m at,
  h 0 c (λ z. absurd (omega arith)) refl,
  touched_replace x rest i m at (omega arith) (λ k d ne e. h (suc k) d (λ z. ne (omega arith)) e),
)

module _ (free : List Block) (sep : IsSeparated free) (i : ℕ) (o m : Block)
    (at : get_elem? free i ≡ some o) (fm : Fits m) where
  pub apart_of_separated : {k : ℕ} {c : Block} → i ≢ k → get_elem? free k ≡ some c → Apart o c
  apart_of_separated {k} {c} ne e =
      apart_of_touches o c
        (λ x. omega (arith, sep.apart x, add-le-sum_by (touches x) free i k ne at e))

  -- no entry of the grown list has an address in common with the grown entry
  grown-Disjoint :
      ((x : ℕ) → held (set free i m) x ≤ 1)
      → {k : ℕ} {c : Block} → i ≢ k
      → get_elem? free k ≡ some c
      → Disjoint m c
  grown-Disjoint h {k} {c} ne e =
      Disjoint-of_covers m c fm.some_page (All-get Fits free k sep.fit e).some_page λ x. omega (
        arith,
        h x,
        add-le-sum_by (covers x) (set free i m) i k ne
            (get_elem?-set_self free i m (index-lt free i at)) (get_elem?-set_ne free m ne ∙ e),
      )

  -- Where the second call finds nothing, the grown list is well formed.
  pub grown-IsSeparated :
      ((x : ℕ) → held (set free i m) x ≤ 1)
      → find_join m.address m.count (set free i m) ≡ none
      → IsSeparated (set free i m)
  grown-IsSeparated h stop = record {
    fit = All-set Fits free i m sep.fit fm;
    apart = λ x. touched_replace x free i m at (sep.apart x) λ k c ne e. touches-Apart x m c (
        join-eq-none m c fm (All-get Fits free k sep.fit e)
          (All-get (λ d. join m.address m.count d ≡ none) (set free i m) k
            (find_join-eq-none m.address m.count (set free i m) stop)
            (get_elem?-set_ne free m ne ∙ e))
          (grown-Disjoint h ne e));
  }

module _ (free : List Block) (sep : IsSeparated free) (i j : ℕ) (b o p m m2 : Block)
    (at_i : get_elem? free i ≡ some o) (at_j : get_elem? free j ≡ some p) (ne : i ≢ j) (fb : Fits b)
    (first : Joined b o m) (second : Joined m p m2) where
  abbrev fo : Fits o
  fo = All-get Fits free i sep.fit at_i

  abbrev fp : Fits p
  fp = All-get Fits free j sep.fit at_j

  abbrev fm : Fits m
  fm = Joined-Fits b o m first fb fo

  abbrev fm2 : Fits m2
  fm2 = Joined-Fits m p m2 second fm fp

  abbrev o_p : Apart o p
  o_p = apart_of_separated free sep i o m at_i fm ne at_j

  -- The grown entry reaches from one end of `o` to one end of `p`.
  third_other :
      {k : ℕ} {c : Block}
      → i ≢ k
      → j ≢ k
      → get_elem? free k ≡ some c
      → join m2.address m2.count c ≡ none
  third_other {k} {c} ik jk e =
      join_apart m2 c fm2 (All-get Fits free k sep.fit e)
        (omega (
          arith,
          fo,
          fp,
          o_p,
          apart_of_separated free sep i o m at_i fm ik e,
          apart_of_separated free sep j p m at_j fm jk e,
        ))
        (omega (
          arith,
          fo,
          fp,
          o_p,
          apart_of_separated free sep i o m at_i fm ik e,
          apart_of_separated free sep j p m at_j fm jk e,
        ))

  third_self : join m2.address m2.count m2 ≡ none
  third_self = join_apart m2 m2 fm2 fm2 (omega (arith, fm2)) (omega (arith, fm2))

  third_first : join m2.address m2.count m ≡ none
  third_first = join_apart m2 m fm2 fm (omega (arith, fo, fp, o_p)) (omega (arith, fo, fp, o_p))

  pub third_call : find_join m2.address m2.count (set (set free i m) j m2) ≡ none
  third_call =
      find_join-none m2.address m2.count _
        (All-of_get (λ c. join m2.address m2.count c ≡ none) _ each)
    where
      each :
          (k : ℕ) (c : Block)
          → get_elem? (set (set free i m) j m2) k ≡ some c
          → join m2.address m2.count c ≡ none
      each k c e = elim (ℕ_discrete j k) [
        | yes jk ↦
            subst (λ d. join m2.address m2.count d ≡ none)
              (get-set_same (set free i m) j m2 (get_elem?-set_ne free m ne ∙ at_j)
                (subst (λ n. get_elem? (set (set free i m) j m2) n ≡ some c) (sym jk) e))
              third_self
        | no jk ↦ elim (ℕ_discrete i k) [
          | yes ik ↦
              subst (λ d. join m2.address m2.count d ≡ none)
                (get-set_same free i m at_i (
                  subst (λ n. get_elem? (set free i m) n ≡ some c) (sym ik)
                    (get-set_other (set free i m) j m2 jk e)))
                third_first
          | no ik ↦
              third_other ik jk (get-set_other free i m ik (get-set_other (set free i m) j m2 jk e))
        ]
      ]
