-- ===== src/Acpi/Aml/Execution/Exclusive.antt =====
-- Who has a mutex.
use faastr.Common.{
  ℕ, Bool, true, false, ◌≡◌, ◌≢◌, refl, sym, ap, subst, ◌∙◌, [], ◌∷◌, Option, none, some, arith,
}
use faastr.Acpi.Aml.{
  AmlError, AmlValue, AmlExecutionContext, Outcome, ok, err, panics, Bytes, ◌>>=◌,
}
use faastr.Acpi.AmlValue.{RegionSpace, Accessor}
use faastr.Acpi.Aml.Execution.{
  same_name, Namespace, State, insert, or_value_error, object_name, acquire, acquire_mutex, release,
  release_mutex,
}

same_name_refl : (n : Bytes) → same_name n n ≡ true
unfolding same_name
same_name_refl [] = refl
same_name_refl (c ∷ cs) = ground (arith, same_name_refl cs)

same_name→≡ : (m n : Bytes) → same_name m n ≡ true → m ≡ n
unfolding same_name
same_name→≡ [] [] h = refl
same_name→≡ [] (d ∷ ds) h = ground arith
same_name→≡ (c ∷ cs) [] h = ground arith
same_name→≡ (c ∷ cs) (d ∷ ds) h = ground (arith, same_name→≡ cs ds)

insert_same : (name : Bytes) (v : AmlValue) (ns : Namespace) → insert name v ns name ≡ some v
insert_same name v ns = rw (same_name_refl name)

-- Putting back what was there undoes another insertion.
insert_back :
    (name : Bytes) (v w : AmlValue) (ns : Namespace) (n : Bytes)
    → ns name ≡ some v
    → insert name v (insert name w ns) n ≡ ns n
insert_back name v w ns n h = back (same_name name n) refl
  where
    back : (b : Bool) → same_name name n ≡ b → insert name v (insert name w ns) n ≡ ns n
    back true e = rw e (sym h ∙ ap ns (same_name→≡ name n e))
    back false e = rw e

record Found (ptr : AmlValue) (ns : Namespace) : Type 0 where
  name : Bytes
  value : AmlValue
  named : object_name ptr ≡ ok name
  here : ns name ≡ some value

found :
    {A : Type 0} (ptr : AmlValue) (ns : Namespace) (f : Bytes → AmlValue → Outcome A) (a : A)
    → (object_name ptr >>= (λ name. or_value_error (ns name) >>= f name)) ≡ ok a
    → (fd : Found ptr ns) × (f fd.name fd.value ≡ ok a)
found {A} ptr ns f a h = named (object_name ptr) refl h
  where
    valued :
        (name : Bytes)
        → object_name ptr ≡ ok name
        → (v : Option AmlValue) → ns name ≡ v
        → (or_value_error v >>= f name) ≡ ok a
        → (fd : Found ptr ns) × (f fd.name fd.value ≡ ok a)
    valued name e none q k = absurd (ground arith)
    valued name e (some v) q k = (record { name = name; value = v; named = e; here = q }, k)

    named :
        (o : Outcome Bytes)
        → object_name ptr ≡ o
        → (o >>= (λ name. or_value_error (ns name) >>= f name)) ≡ ok a
        → (fd : Found ptr ns) × (f fd.name fd.value ≡ ok a)
    named (ok name) e k = valued name e (ns name) refl k
    named (err x) e k = absurd (ground arith)
    named panics e k = absurd (ground arith)

-- What a context does to the others when it has acquired a mutex.
abbrev pub Excludes : AmlValue → AmlExecutionContext → Namespace → State → Type 0
Excludes ptr other before s =
    (acquire_mutex ptr (other, s.1) ≡ ok (false, (other, s.1)))
    × (release_mutex ptr (other, s.1) ≡ err AmlError.hard_fatal)
    × (left : Namespace) × (release_mutex ptr s ≡ ok (s.0, some left))
    × ((n : Bytes) → left n ≡ before n)

module _ (ptr : AmlValue) (ctx other : AmlExecutionContext) (before : Namespace)
    (ne : other.ctx_id ≢ ctx.ctx_id) (name : Bytes) (named : object_name ptr ≡ ok name) where
  Excludes-mutex :
      (lvl : ℕ)
      → before name ≡ some (AmlValue.mutex lvl none)
      → Excludes ptr other before (
        record ctx { sync_level = lvl },
        some (insert name (AmlValue.mutex lvl (some ctx.ctx_id)) before),
      )
  unfolding acquire_mutex acquire release_mutex release
  Excludes-mutex lvl h = (
    rw (named, same_name_refl name),
    rw (named, same_name_refl name) (ground arith),
    insert name (AmlValue.mutex lvl none)
        (insert name (AmlValue.mutex lvl (some ctx.ctx_id)) before),
    rw (named, same_name_refl name) (ground arith),
    λ n.
        insert_back name (AmlValue.mutex lvl none) (AmlValue.mutex lvl (some ctx.ctx_id)) before n
          h,
  )

  Excludes-region :
      (r : RegionSpace) (offset len : AmlValue) (accessor : Accessor)
      → before name ≡ some (AmlValue.operation_region r offset len accessor none)
      → Excludes ptr other before (
        ctx,
        some (
            insert name (AmlValue.operation_region r offset len accessor (some ctx.ctx_id)) before),
      )
  unfolding acquire_mutex acquire release_mutex release
  Excludes-region r offset len accessor h = (
    rw (named, same_name_refl name),
    rw (named, same_name_refl name) (ground arith),
    insert name (AmlValue.operation_region r offset len accessor none)
        (insert name (AmlValue.operation_region r offset len accessor (some ctx.ctx_id)) before),
    rw (named, same_name_refl name) (ground arith),
    λ n.
        insert_back name (AmlValue.operation_region r offset len accessor none)
          (AmlValue.operation_region r offset len accessor (some ctx.ctx_id)) before n h,
  )

  Excludes-value :
      (v : AmlValue) (s : State)
      → before name ≡ some v
      → acquire ctx before name v ≡ ok (true, s)
      → Excludes ptr other before s
  unfolding acquire
  Excludes-value (AmlValue.mutex lvl none) s h e =
      subst (Excludes ptr other before) (ground arith) (Excludes-mutex lvl h)
  Excludes-value (AmlValue.operation_region r offset len accessor none) s h e =
      subst (Excludes ptr other before) (ground arith) (Excludes-region r offset len accessor h)
  Excludes-value _ s h e = absurd (ground arith)

-- A mutex (or the region of an operation) that a context has acquired is not given to another context
-- until it is released, which no other context can do; its owner can, and leaves the namespace as it
-- was.
pub acquire_mutex-Excludes :
    (ptr : AmlValue) (ctx other : AmlExecutionContext) (before : Namespace) (s : State)
    → acquire_mutex ptr (ctx, some before) ≡ ok (true, s)
    → other.ctx_id ≢ ctx.ctx_id
    → Excludes ptr other before s
unfolding acquire_mutex
acquire_mutex-Excludes ptr ctx other before s h ne =
    let (fd, e) = found ptr before (acquire ctx before) (true, s) h in
    Excludes-value ptr ctx other before ne fd.name fd.named fd.value s fd.here e
