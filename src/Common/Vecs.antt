-- ===== src/Common/Vecs.antt =====
-- `Vec` operations that can panic, sums over the elements, and a predicate on all of them.
use Prim.Native.Nat.{ℕ, zero, suc, ◌+◌, ◌≤◌, ◌<◌}
use mathlib.Core.Path.{◌≡◌, refl, subst, ap}
use mathlib.Core.Logic.{◌≢◌}
use mathlib.Core.List.{List, [], ◌∷◌, ◌++◌}
use mathlib.Core.Option.{Option, none, some}
use native.Mathlib.Omega.{arith}
use faastr.Common.Lists.{length, get_elem?, set}

module _ {ℓ} {A : Type ℓ} where
  -- `Vec::remove`, with `none` for its panic
  abbrev pub remove : List A → ℕ → Option (List A)
  remove [] i = none
  remove (x ∷ xs) zero = some xs
  remove (x ∷ xs) (suc i) = elim (remove xs i) [ none ↦ none | some ys ↦ some (x ∷ ys) ]

  abbrev pub sum_by : (A → ℕ) → List A → ℕ
  sum_by f [] = 0
  sum_by f (x ∷ xs) = f x + sum_by f xs

  abbrev pub All {κ} : (A → Type κ) → List A → Type κ
  All P [] = Unit
  All P (x ∷ xs) = P x × All P xs

  pub index-lt : (xs : List A) (i : ℕ) {a : A} → get_elem? xs i ≡ some a → i < length xs
  index-lt [] i e = ground arith
  index-lt (x ∷ xs) zero e = omega arith
  index-lt (x ∷ xs) (suc i) e = omega (arith, index-lt xs i e)

  pub get_elem?-total : (xs : List A) (i : ℕ) → i < length xs → (a : A) × (get_elem? xs i ≡ some a)
  get_elem?-total [] i h = elim h [ ]
  get_elem?-total (x ∷ xs) zero h = (x, refl)
  get_elem?-total (x ∷ xs) (suc i) h = get_elem?-total xs i (omega arith)

  pub remove-total :
      (xs : List A) (i : ℕ) {a : A}
      → get_elem? xs i ≡ some a
      → (ys : List A) × (remove xs i ≡ some ys)
  remove-total [] i e = absurd (ground arith)
  remove-total (x ∷ xs) zero e = (xs, refl)
  remove-total (x ∷ xs) (suc i) e = let r = remove-total xs i e in (x ∷ r.0, ground (arith, r.1))

  pub remove-suc :
      (x : A) (xs : List A) (i : ℕ) {ys : List A}
      → remove (x ∷ xs) (suc i) ≡ some ys
      → (zs : List A) × (remove xs i ≡ some zs) × (x ∷ zs ≡ ys)
  remove-suc x xs i r = ground arith

  pub sum_by-set :
      (f : A → ℕ) (xs : List A) (i : ℕ) (v : A) {a : A}
      → get_elem? xs i ≡ some a
      → sum_by f (set xs i v) + f a ≡ sum_by f xs + f v
  sum_by-set f [] i v e = absurd (ground arith)
  sum_by-set f (x ∷ xs) zero v e = ground arith
  sum_by-set f (x ∷ xs) (suc i) v e = omega (arith, sum_by-set f xs i v e)

  pub sum_by-remove :
      (f : A → ℕ) (xs : List A) (i : ℕ) {ys : List A} {a : A}
      → get_elem? xs i ≡ some a
      → remove xs i ≡ some ys
      → sum_by f ys + f a ≡ sum_by f xs
  sum_by-remove f [] i e r = absurd (ground arith)
  sum_by-remove f (x ∷ xs) zero e r = ground arith
  sum_by-remove f (x ∷ xs) (suc i) {ys} {a} e r =
      let (zs, rz) = remove-total xs i e in
      ground (arith, rz, sum_by-remove f xs i {ys = zs} {a = a} e rz)

  pub le-sum_by :
      (f : A → ℕ) (xs : List A) (i : ℕ) {a : A} → get_elem? xs i ≡ some a → f a ≤ sum_by f xs
  le-sum_by f [] i e = absurd (ground arith)
  le-sum_by f (x ∷ xs) zero e = ground arith
  le-sum_by f (x ∷ xs) (suc i) e = omega (arith, le-sum_by f xs i e)

  pub add-le-sum_by :
      (f : A → ℕ) (xs : List A) (i j : ℕ) {a b : A}
      → i ≢ j
      → get_elem? xs i ≡ some a
      → get_elem? xs j ≡ some b
      → f a + f b ≤ sum_by f xs
  add-le-sum_by f [] i j ne d e = absurd (ground arith)
  add-le-sum_by f (x ∷ xs) zero zero ne d e = absurd (ne refl)
  add-le-sum_by f (x ∷ xs) zero (suc j) ne d e = ground (arith, le-sum_by f xs j e)
  add-le-sum_by f (x ∷ xs) (suc i) zero ne d e = ground (arith, le-sum_by f xs i d)
  add-le-sum_by f (x ∷ xs) (suc i) (suc j) ne d e =
      omega (arith, add-le-sum_by f xs i j (λ h. ne (ap suc h)) d e)

  -- A write at the index that goes makes no difference.
  pub remove-set : (xs : List A) (i : ℕ) (v : A) → remove (set xs i v) i ≡ remove xs i
  remove-set [] i v = refl
  remove-set (x ∷ xs) zero v = refl
  remove-set (x ∷ xs) (suc i) v = ground (arith, remove-set xs i v)

  pub sum_by-append : (f : A → ℕ) (xs ys : List A) → sum_by f (xs ++ ys) ≡ sum_by f xs + sum_by f ys
  sum_by-append f [] ys = omega arith
  sum_by-append f (x ∷ xs) ys = omega (arith, sum_by-append f xs ys)

  pub sum_by_extra :
      (f : A → ℕ) (v : A) (xs : List A)
      → f v ≤ 1
      → sum_by f xs ≤ 1
      → All (λ x. f v + f x ≤ 1) xs
      → f v + sum_by f xs ≤ 1
  sum_by_extra f v [] b t h = omega arith
  sum_by_extra f v (x ∷ xs) b t h = omega (arith, h.0, sum_by_extra f v xs b (omega arith) h.1)

module _ {ℓ κ} {A : Type ℓ} (P : A → Type κ) where
  pub All-map {μ} : (Q : A → Type μ) → ((a : A) → P a → Q a) → (xs : List A) → All P xs → All Q xs
  All-map Q f [] h = tt
  All-map Q f (x ∷ xs) h = (f x h.0, All-map Q f xs h.1)

  pub All-append : (xs ys : List A) → All P xs → All P ys → All P (xs ++ ys)
  All-append [] ys h k = k
  All-append (x ∷ xs) ys h k = (h.0, All-append xs ys h.1 k)

  pub All-append_parts : (xs ys : List A) → All P (xs ++ ys) → All P xs × All P ys
  All-append_parts [] ys h = (tt, h)
  All-append_parts (x ∷ xs) ys h = let (p, q) = All-append_parts xs ys h.1 in ((h.0, p), q)

  pub All-of_get : (xs : List A) → ((i : ℕ) (a : A) → get_elem? xs i ≡ some a → P a) → All P xs
  All-of_get [] h = tt
  All-of_get (x ∷ xs) h = (h 0 x refl, All-of_get xs (λ i a e. h (suc i) a e))

  pub All-get : (xs : List A) (i : ℕ) {a : A} → All P xs → get_elem? xs i ≡ some a → P a
  All-get [] i h e = absurd (ground arith)
  All-get (x ∷ xs) zero h e = subst P (ground arith) h.0
  All-get (x ∷ xs) (suc i) h e = All-get xs i h.1 e

  pub All-set : (xs : List A) (i : ℕ) (v : A) → All P xs → P v → All P (set xs i v)
  All-set [] i v h p = tt
  All-set (x ∷ xs) zero v h p = (p, h.1)
  All-set (x ∷ xs) (suc i) v h p = (h.0, All-set xs i v h.1 p)

  pub All-remove : (xs : List A) (i : ℕ) {ys : List A} → All P xs → remove xs i ≡ some ys → All P ys
  All-remove [] i h r = absurd (ground arith)
  All-remove (x ∷ xs) zero h r = subst (All P) (ground arith) h.1
  All-remove (x ∷ xs) (suc i) h r =
      let (zs, rz, e) = remove-suc x xs i r in subst (All P) e (h.0, All-remove xs i h.1 rz)
