-- ===== src/Ringbuf/Apart.antt =====
-- The producer's and the consumer's handle cover different bytes.
use faastr.Common.{
  ℕ, suc, ◌+◌, ◌*◌, ◌/◌, ◌%◌, ◌≤◌, ◌<◌, ◌≡◌, ◌≢◌, ◌⊎◌, inl, inr, sym, refl, subst, ap, ◌∙◌,
  some_inj, Bool-cases, ◌^◌, ◌-◌, Option, none, some, arith, ltb, if◌then◌else◌,
}
use Prim.Native.Nat.{bit_and}
use native.Mathlib.Nat.{div-add-mod', mod-lt, mul-le-mul_right, mod-add-mod, mod-eq_of_lt}
use faastr.Common.Usize.{sub_usize}
use faastr.Common.Masks.{bit_and-mask, pow_pos, pow-le-pow}
use faastr.Ringbuf.{Header, Handle, offset, deref}
use faastr.Ringbuf.Handles.{World, IsWell, Writing, Reading}

le_or_lt : (m n : ℕ) → (m ≤ n) ⊎ (suc n ≤ m)
le_or_lt m n = ground arith

-- Less than a period apart, two numbers have different remainders.
mod_apart : (a b c : ℕ) → a < b → b < a + c → a % c ≢ b % c
mod_apart a b c l u e = elim (le_or_lt (b / c) (a / c)) [
  | inl down ↦ omega (arith, div-add-mod' a c, div-add-mod' b c, mul-le-mul_right c down, e)
  | inr up ↦ omega (arith, div-add-mod' a c, div-add-mod' b c, mul-le-mul_right c up, e)
]

aligned-le : (k m n : ℕ) → 0 < m * n → k * n % (m * n) + n ≤ m * n
aligned-le k m n p = elim (le_or_lt (q * m + m) k) [
  | inl down ↦ absurd (omega (arith, parts, mod-lt (k * n) p, mul-le-mul_right n down, spread))
  | inr up ↦ omega (arith, parts, mul-le-mul_right n up, spread)
]
  where
    q : ℕ
    q = k * n / (m * n)

    parts : q * (m * n) + k * n % (m * n) ≡ k * n
    parts = div-add-mod' (k * n) (m * n)

    spread : (q * m + m) * n ≡ q * (m * n) + m * n
    spread = grind arith

-- The mask of the offset, where the size is a power of two, is a remainder.
offset_lem :
    (b : Header) (k p : ℕ) → k < 64 → b.allocated_size ≡ 2 ^ k → offset b p ≡ p % b.allocated_size
unfolding offset
offset_lem b k p small power =
    ap (bit_and p)
      (ap (λ n. sub_usize n 1) power ∙ less_one (2 ^ k) (pow_pos k) (pow-le-pow k 64 (omega arith)))
    ∙ bit_and-mask k p
    ∙ ap (λ n. p % n) (sym power)
  where
    less_one : (n : ℕ) → 0 < n → n ≤ 2 ^ 64 → sub_usize n 1 ≡ n - 1
    less_one n h l = omega arith

mod_shift : (p a m : ℕ) → p % m + a < m → (p + a) % m ≡ p % m + a
mod_shift p a m h = sym (mod-add-mod p m a) ∙ mod-eq_of_lt h

-- What `deref` returns, and what it has checked.
deref_parts :
    (b : Header) (h : Handle) {from to : ℕ}
    → deref b h ≡ some (from, to)
    → (offset b h.current ≡ from) × (from + h.n ≡ to) × (to ≤ b.capacity)
unfolding deref
deref_parts b h {from} {to} e = elim (Bool-cases (ltb b.capacity (offset b h.current + h.n))) [
  | inl wraps ↦ absurd (none_ne_some (sym (rw wraps refl) ∙ e))
  | inr fits ↦
      let same = some_inj (sym (rw fits refl) ∙ e) in
      let start : offset b h.current ≡ from = ap (λ r. r.0) same in
      let end : offset b h.current + h.n ≡ to = ap (λ r. r.1) same in
      (start, omega (arith, start, end), ground (arith, fits, end))
]
  where
    none_ne_some : {A : Type 0} {a : A} → none ≡ some a → ⊥
    none_ne_some e = cc

module _ (w : World) (x y : Handle) (k : ℕ) where
  deref_meet :
      IsWell w
      → k < 64
      → w.header.allocated_size ≡ 2 ^ k
      → w.writing ≡ some x
      → w.reading ≡ some y
      → {from to from' to' : ℕ} → deref w.header x ≡ some (from, to)
      → deref w.header y ≡ some (from', to')
      → (i : ℕ) → from ≤ i
      → i < to
      → from' ≤ i
      → i < to'
      → ⊥
  deref_meet well small power ex ey {from} {to} {from'} {to'} ox oy i l u l' u' =
      let wx = subst (Writing w.header) ex well.writing in
      let ry = subst (Reading w.header) ey well.reading in
      let (sx, nx, cx) = deref_parts w.header x ox in
      let (sy, ny, cy) = deref_parts w.header y oy in
      let m = w.header.allocated_size in
      let fx : x.current % m ≡ from = sym (offset_lem w.header k x.current small power) ∙ sx in
      let fy : y.current % m ≡ from' = sym (offset_lem w.header k y.current small power) ∙ sy in
      let bx : (x.current + (i - from)) % m ≡ i =
        mod_shift x.current (i - from) m (omega (arith, fx, well.ring.same_size))
        ∙ omega (arith, fx) in
      let by : (y.current + (i - from')) % m ≡ i =
        mod_shift y.current (i - from') m (omega (arith, fy, well.ring.same_size))
        ∙ omega (arith, fy) in
      mod_apart (y.current + (i - from')) (x.current + (i - from)) m
        (omega (arith, wx, ry, well.ring.shadow)) (omega (arith, wx, ry, well.ring.same_size))
        (by ∙ sym bx)

  -- While the producer and the consumer both hold a handle, in a buffer whose size is a power of
  -- two, and the slices of both can be taken, no byte of the producer's is in the consumer's.
  pub deref_apart :
      IsWell w
      → k < 64
      → w.header.allocated_size ≡ 2 ^ k
      → w.writing ≡ some x
      → w.reading ≡ some y
      → (from to from' to' : ℕ) → deref w.header x ≡ some (from, to)
      → deref w.header y ≡ some (from', to')
      → (i : ℕ) → from ≤ i
      → i < to
      → (i < from') ⊎ (to' ≤ i)
  deref_apart well small power ex ey from to from' to' ox oy i l u = elim (le_or_lt from' i) [
    | inl above ↦ elim (le_or_lt to' i) [
      | inl behind ↦ inr behind
      | inr inside ↦ absurd (deref_meet well small power ex ey ox oy i l u above (omega arith))
    ]
    | inr below ↦ inl (omega arith)
  ]

-- A handle at a multiple of its length, in a buffer whose size is a power of two and a multiple of
-- that length too, does not wrap round: deref does not panic, and gives the slice that starts at
-- the remainder of its position by the size.
pub deref_aligned :
    (b : Header) (h : Handle) (k m e : ℕ)
    → e < 64
    → b.allocated_size ≡ 2 ^ e
    → b.allocated_size ≡ b.capacity
    → b.capacity ≡ m * h.n
    → h.current ≡ k * h.n
    → deref b h ≡ some (h.current % b.capacity, h.current % b.capacity + h.n)
unfolding deref
deref_aligned b h k m e small power same size at = rw (offset_lem b e h.current small power) (
    rw same (
      fits (h.current % b.capacity + h.n) (
        subst (λ c. h.current % c + h.n ≤ c) (sym size)
          (subst (λ p. p % (m * h.n) + h.n ≤ m * h.n) (sym at)
            (aligned-le k m h.n (omega (arith, pow_pos e, power, same, size)))))))
  where
    fits :
        (to : ℕ)
        → to ≤ b.capacity
        → ◌≡◌ {A = Option (ℕ × ℕ)}
            (if ltb b.capacity to then none else some (h.current % b.capacity, to))
            (some (h.current % b.capacity, to))
    fits to le = ground (arith, le)
