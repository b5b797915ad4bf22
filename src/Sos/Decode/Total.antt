-- ===== src/Sos/Decode/Total.antt =====
-- Decoding ends on every input, and no slice expression in it is out of range.
use faastr.Common.{
  ℕ, zero, suc, ◌+◌, ◌-◌, ◌≤◌, ◌<◌, ◌≡◌, ◌⊎◌, refl, ◌||◌, inl, inr, Bool, true, false, [], ◌∷◌,
  Option, none, some, arith, ltb, leb, ◌==◌, if◌then◌else◌, length, take, drop, length-take,
  length-drop, Option-cases,
}
use faastr.Sos.Bytes.{Bytes, NativeEndian, slice}
use faastr.Sos.Utf8.{from_utf8}
use faastr.Sos.Value.{
  DecodeIter, Value, Values, CType, fixed_size, cons, nil, embedded_out, embedded_vec, from_u8,
}
use faastr.Sos.Decode.{
  Outcome, value, nothing, failed, ◌>>=◌, part, or_return, position, without_last, decode_sos,
  decode_value, extent, take_value, next, collect, byte, accumulate,
}

-- No panic, and enough fuel; a value that is returned has the property.
pub data Safe {ℓ} {A : Type ℓ} (P : A → Type 0) : Outcome A → Type ℓ where
  returns : {a : A} → P a → Safe P (value a)
  stops : Safe P nothing

Safe-bind :
    {A B : Type 0} {P : A → Type 0} {Q : B → Type 0} {m : Outcome A} (f : A → Outcome B)
    → Safe P m
    → ((a : A) → P a → Safe Q (f a))
    → Safe Q (m >>= f)
Safe-bind f (returns {a = a} h) k = k a h
Safe-bind f stops k = stops

Safe-if :
    {A : Type 0} {P : A → Type 0} (b : Bool) {m : Outcome A}
    → (b ≡ false → Safe P m)
    → Safe P (if b then nothing else m)
Safe-if true h = stops
Safe-if false h = h refl

Safe-of_value : {A : Type 0} {o : Outcome A} → (a : A) × (o ≡ value a) → Safe (λ _. Unit {0}) o
Safe-of_value (a, e) = rw e (returns tt)

part-Safe :
    (buf : Bytes) (from to : ℕ)
    → from ≤ to
    → to ≤ length buf
    → Safe (λ b. length b ≡ to - from) (part buf from to)
unfolding slice
part-Safe buf from to p q =
    rw (slice_total buf from to p q, part)
      (returns (omega (arith, length-take (to - from) (drop from buf), length-drop from buf)))
  where
    slice_total :
        (buf : Bytes) (from to : ℕ)
        → from ≤ to
        → to ≤ length buf
        → slice buf from to ≡ some (take (to - from) (drop from buf))
    slice_total buf from to p q = ground arith

or_return-Safe : {A : Type 0} (o : Option A) → Safe (λ a. o ≡ some a) (or_return o)
or_return-Safe none = stops
or_return-Safe (some a) = returns refl

position-lt : (cs : Bytes) {i : ℕ} → position cs ≡ some i → i < length cs
unfolding position
position-lt [] e = absurd (ground arith)
position-lt (c ∷ cs) e = elim (Option-cases (position cs)) [
  | inl z ↦ ground (arith, z)
  | inr (k, s) ↦ ground (arith, s, position-lt cs s)
]

module _ (ne : NativeEndian) where
  -- an iterator whose buffer is shorter than the input by its header
  abbrev pub Inside : ℕ → DecodeIter → Type 0
  Inside n it = length it.buff + 8 ≤ n

  pub decode_sos-Safe :
      (buff : Bytes) (lazy : Bool) → Safe (Inside (length buff)) (decode_sos ne buff lazy)
  unfolding decode_sos
  decode_sos-Safe buff lazy = Safe-if (leb (length buff) 8) λ long.
      Safe-bind _ (part-Safe buff 0 4 (omega arith) (ground arith)) λ count _.
        Safe-bind _ (part-Safe buff 4 8 (omega arith) (ground arith)) λ size _.
          Safe-if (ltb (length buff) (ne.read_u32 size) || ltb (ne.read_u32 size) 8) λ fits.
            Safe-bind _ (part-Safe buff 8 (ne.read_u32 size) (ground arith) (ground arith))
              λ bytes l. returns (ground arith)

  without_last-Safe :
      (val_data : Bytes) (n : ℕ)
      → length val_data ≡ n
      → Safe (λ b. Unit {0}) (without_last val_data n)
  without_last-Safe val_data n l =
      weaken (part-Safe val_data 0 (if n == 0 then 0 else n - 1) (omega arith) (ground arith))
    where
      weaken : {P : Bytes → Type 0} {o : Outcome Bytes} → Safe P o → Safe (λ b. Unit {0}) o
      weaken (returns h) = returns tt
      weaken stops = stops

  extent-Safe :
      (t : CType) (buff : Bytes) → 5 ≤ length buff → Safe (λ x. 0 < x.1) (extent ne t buff)
  extent-Safe t buff long = go (fixed_size t)
    where
      go :
          (o : Option ℕ)
          → Safe
              (λ (x : ℕ × ℕ). 0 < x.1)
              (elim o [
                | some n ↦ value (n, 1)
                | none ↦ part buff 1 5 >>= λ size. value (ne.read_u32 size, 5)
              ])
      go (some n) = returns (omega arith)
      go none = Safe-bind _ (part-Safe buff 1 5 (omega arith) long) λ size _. returns (omega arith)

  module _ (n : ℕ) (sub : DecodeIter → Outcome Values)
      (ends : (it : DecodeIter) → length it.buff < n → Safe (λ _. Unit {0}) (sub it)) where
    decode_value-Safe :
        (lazy : Bool) (t : CType) (val_data : Bytes) (val_length : ℕ)
        → length val_data ≡ val_length
        → val_length < n
        → Safe (λ _. Unit {0}) (decode_value ne sub lazy t val_data val_length)
    unfolding decode_value
    decode_value-Safe lazy CType.invalid d l e h = stops
    decode_value-Safe lazy CType.int32 d l e h = returns tt
    decode_value-Safe lazy CType.uint32 d l e h = returns tt
    decode_value-Safe lazy CType.int64 d l e h = returns tt
    decode_value-Safe lazy CType.uint64 d l e h = returns tt
    decode_value-Safe lazy CType.float d l e h = returns tt
    decode_value-Safe lazy CType.double d l e h = returns tt
    decode_value-Safe lazy CType.string d l e h =
        Safe-bind _ (without_last-Safe d l e)
          λ b _. Safe-bind _ (or_return-Safe (from_utf8 b)) λ t _. returns tt
    decode_value-Safe lazy CType.error d l e h =
        Safe-bind _ (without_last-Safe d l e)
          λ b _. Safe-bind _ (or_return-Safe (from_utf8 b)) λ t _. returns tt
    decode_value-Safe lazy CType.opaque d l e h =
        Safe-bind _ (part-Safe d 0 l (omega arith) (omega arith)) λ b _. returns tt
    decode_value-Safe lazy CType.function d l e h = Safe-bind _ (without_last-Safe d l e) λ vec _.
        Safe-bind _ (or_return-Safe (position vec)) λ pos at.
          Safe-bind _ (part-Safe vec 0 pos (omega arith) (omega (arith, position-lt vec at))) λ m _.
            Safe-bind _ (or_return-Safe (from_utf8 m)) λ m' _.
              Safe-bind _
                (part-Safe vec (pos + 1) (length vec) (omega (arith, position-lt vec at))
                  (omega arith))
                λ b _. Safe-bind _ (or_return-Safe (from_utf8 b)) λ b' _. returns tt
    decode_value-Safe lazy CType.embedded d l e h =
        Safe-bind _ (decode_sos-Safe d lazy)
          λ it inside. embedded_end lazy it (omega (arith, inside))
      where
        embedded_end :
            (lazy : Bool) (it : DecodeIter)
            → length it.buff < n
            → Safe
                (λ _. Unit {0})
                (if lazy
                  then value (embedded_out it)
                  else (sub it >>= λ values. value (embedded_vec values)))
        embedded_end true it h = returns tt
        embedded_end false it h = Safe-bind _ (ends it h) λ values _. returns tt

    take_value-Safe :
        (lazy : Bool) (t : CType) (buff : Bytes)
        → length buff ≡ n
        → 5 ≤ n
        → Safe (λ p. length p.1 < n) (take_value ne sub lazy t buff)
    unfolding take_value
    take_value-Safe lazy t buff e long = Safe-bind _ (extent-Safe t buff (omega arith)) λ x h.
        Safe-if (ltb (length buff) (x.0 + x.1)) λ fits.
          Safe-bind _ (part-Safe buff x.1 (x.1 + x.0) (omega arith) (ground arith)) λ d l.
            Safe-bind _ (decode_value-Safe lazy t d x.0 (omega arith) (ground arith)) λ v _.
              Safe-bind _ (part-Safe buff (x.0 + x.1) (length buff) (ground arith) (omega arith))
                λ rest r. returns (omega arith)

  next-Safe :
      (sub : DecodeIter → Outcome Values) (it : DecodeIter)
      → ((it' : DecodeIter) → length it'.buff < length it.buff → Safe (λ _. Unit {0}) (sub it'))
      → Safe (λ p. length p.1.buff < length it.buff) (next ne sub it)
  unfolding next
  next-Safe sub it ends = Safe-if (ltb (length it.buff) 5 || it.count == 0) λ ready.
      Safe-bind _ (part-Safe it.buff 0 1 (omega arith) (ground arith)) λ first _.
        Safe-bind _ (or_return-Safe (from_u8 (byte first))) λ t _.
          Safe-bind _
            (take_value-Safe (length it.buff) sub ends it.lazy t it.buff refl (ground arith))
            λ p h. returns h

  accumulate-value :
      (n : ℕ) (more : DecodeIter → Outcome Values) (o : Outcome (Value × DecodeIter))
      → Safe (λ p. length p.1.buff < n) o
      → ((it : DecodeIter) → length it.buff < n → (vs : Values) × (more it ≡ value vs))
      → (vs : Values) × (accumulate more o ≡ value vs)
  accumulate-value n more nothing h k = (nil, refl)
  accumulate-value n more failed h k = elim h [ ]
  accumulate-value n more (value (v, it)) (returns h) k = let (vs, e) = k it h in (cons v vs, rw e)

  -- Collecting an iterator returns a vector, whatever bytes it decodes: with more fuel than bytes
  -- the recursion ends, and no slice is taken out of range.
  pub collect_total :
      (fuel : ℕ) (it : DecodeIter)
      → length it.buff < fuel
      → (vs : Values) × (collect ne fuel it ≡ value vs)
  unfolding collect
  collect_total zero it h = absurd (omega arith)
  collect_total (suc fuel) it h =
      accumulate-value (length it.buff) (collect ne fuel) (next ne (collect ne fuel) it)
        (next-Safe (collect ne fuel) it
          λ it' l. Safe-of_value (collect_total fuel it' (omega arith)))
        (λ it' l. collect_total fuel it' (omega arith))

  -- On every byte string, decoding either is refused or yields an iterator that can be collected;
  -- neither step panics or runs on without end.
  pub decode_total :
      (buff : Bytes) (lazy : Bool)
      → (decode_sos ne buff lazy ≡ nothing)
        ⊎ ((it : DecodeIter) × (vs : Values) × (decode_sos ne buff lazy ≡ value it)
            × (collect ne (suc (length it.buff)) it ≡ value vs))
  decode_total buff lazy = go (decode_sos ne buff lazy) (decode_sos-Safe buff lazy)
    where
      go :
          (o : Outcome DecodeIter)
          → Safe (Inside (length buff)) o
          → (o ≡ nothing)
            ⊎ ((it : DecodeIter) × (vs : Values) × (o ≡ value it)
                × (collect ne (suc (length it.buff)) it ≡ value vs))
      go nothing h = inl refl
      go failed h = elim h [ ]
      go (value it) h =
          let (vs, e) = collect_total (suc (length it.buff)) it (omega arith) in
          inr (it, vs, refl, e)
