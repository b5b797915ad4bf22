-- ===== src/Acpi/Aml/Execution/Clean.antt =====
-- What is left of the namespace when a method's additions are taken out again.
use faastr.Common.{
  Bool, true, false, ◌||◌, ◌≡◌, refl, ◌∙◌, List, [], ◌∷◌, ◌++◌, if◌then◌else◌, none, some, arith,
}
use faastr.Acpi.Aml.{AmlValue, AmlExecutionContext, Outcome, ok, Bytes, ◌>>=◌}
use faastr.Acpi.Aml.Execution.{
  same_name, Namespace, State, insert, remove, add_to_namespace, remove_all, clean_namespace,
}

-- additions one after another
abbrev pub add_all : List (Bytes × AmlValue) → State → Outcome State
add_all [] s = ok s
add_all ((name, value) ∷ more) s = add_to_namespace name value s >>= add_all more

abbrev pub is_among : Bytes → List Bytes → Bool
is_among n [] = false
is_among n (k ∷ ks) = same_name k n || is_among n ks

remove_all_lem :
    (ks : List Bytes) (namespace : Namespace) (n : Bytes)
    → remove_all ks namespace n ≡ (if is_among n ks then none else namespace n)
unfolding remove_all
remove_all_lem [] namespace n = refl
remove_all_lem (k ∷ ks) namespace n = rw (remove_all_lem ks (remove k namespace) n) (ground arith)

is_among-append :
    (n : Bytes) (ks ls : List Bytes) → is_among n (ks ++ ls) ≡ (is_among n ks || is_among n ls)
is_among-append n [] ls = refl
is_among-append n (k ∷ ks) ls = ground (arith, is_among-append n ks ls)

-- One addition, where it succeeds.
added :
    (name : Bytes) (value : AmlValue) (ctx : AmlExecutionContext) (before : Namespace)
    (more : List (Bytes × AmlValue)) (s : State)
    → (add_to_namespace name value (ctx, some before) >>= add_all more) ≡ ok s
    → add_all more (
      record ctx { namespace_delta = ctx.namespace_delta ++ (name ∷ []) },
      some (insert name value before),
    )
      ≡ ok s
unfolding add_to_namespace
added name value ctx before more s h = ground arith

-- What is in the delta stays there.
delta_grows :
    (entries : List (Bytes × AmlValue)) (ctx after : AmlExecutionContext) (before left : Namespace)
    → add_all entries (ctx, some before) ≡ ok (after, some left)
    → (k : Bytes) → is_among k ctx.namespace_delta ≡ true
    → is_among k after.namespace_delta ≡ true
delta_grows [] ctx after before left h k here = ground arith
delta_grows ((name, value) ∷ more) ctx after before left h k here =
    delta_grows more (record ctx { namespace_delta = ctx.namespace_delta ++ (name ∷ []) }) after
      (insert name value before) left (added name value ctx before more (after, some left) h) k
      (is_among-append k ctx.namespace_delta (name ∷ []) ∙ ground arith)

-- Names outside the delta are as they were.
add_all_lem :
    (entries : List (Bytes × AmlValue)) (ctx after : AmlExecutionContext) (before left : Namespace)
    → add_all entries (ctx, some before) ≡ ok (after, some left)
    → (n : Bytes) → is_among n after.namespace_delta ≡ false
    → left n ≡ before n
add_all_lem [] ctx after before left h n out = cc
add_all_lem ((name, value) ∷ more) ctx after before left h n out =
    add_all_lem more (record ctx { namespace_delta = ctx.namespace_delta ++ (name ∷ []) }) after
      (insert name value before) left rest n out
    ∙ other (same_name name n) refl
  where
    rest :
        add_all more (
          record ctx { namespace_delta = ctx.namespace_delta ++ (name ∷ []) },
          some (insert name value before),
        )
        ≡ ok (after, some left)
    rest = added name value ctx before more (after, some left) h

    among : same_name name n ≡ true → is_among n (ctx.namespace_delta ++ (name ∷ [])) ≡ true
    among e = is_among-append n ctx.namespace_delta (name ∷ []) ∙ ground arith

    other : (b : Bool) → same_name name n ≡ b → insert name value before n ≡ before n
    other true e = absurd (
        ground (
          arith,
          delta_grows more (record ctx { namespace_delta = ctx.namespace_delta ++ (name ∷ []) })
              after (insert name value before) left rest n (among e),
        ))
    other false e = rw e

-- Cleaning takes out every name that was added, and nothing else: the other names are as they were
-- before the additions.
pub clean_namespace-add_all :
    (entries : List (Bytes × AmlValue)) (ctx after : AmlExecutionContext) (before left : Namespace)
    → add_all entries (ctx, some before) ≡ ok (after, some left)
    → (rest : Namespace) × (clean_namespace (after, some left) ≡ (after, some rest))
      × ((n : Bytes) → rest n ≡ (if is_among n after.namespace_delta then none else before n))
unfolding clean_namespace
clean_namespace-add_all entries ctx after before left h = (
  remove_all after.namespace_delta left,
  refl,
  λ n. remove_all_lem after.namespace_delta left n ∙ same n (is_among n after.namespace_delta) refl,
)
  where
    same :
        (n : Bytes) (b : Bool)
        → is_among n after.namespace_delta ≡ b
        → (if b then none else left n) ≡ (if b then none else before n)
    same n true e = refl
    same n false e = add_all_lem entries ctx after before left h n e
