-- ===== src/Acpi/Aml/Namespace/Scopes.antt =====
-- What a caret before a name does.
use faastr.Common.{
  Bool, true, false, not, ◌&&◌, ◌≡◌, ◌≢◌, refl, sym, ◌∙◌, append_assoc, append-nil, [], ◌∷◌, ◌++◌,
  ◌==◌, arith,
}
use faastr.Acpi.Aml.{AmlError, ok, err, Bytes, reverse}
use faastr.Acpi.Aml.Namespace.{
  starts_with, leave_scope, leave, climb, resolve, get_namespace_string,
}

-- The characters of a segment, of which none is a dot or a backslash.
unfoldable pub is_plain : Bytes → Bool
is_plain [] = true
is_plain (c ∷ cs) = not (c == 0x2e) && not (c == 0x5c) && is_plain cs

is_plain-append :
    (xs ys : Bytes) → is_plain xs ≡ true → is_plain ys ≡ true → is_plain (xs ++ ys) ≡ true
unfolding is_plain
is_plain-append [] ys p q = q
is_plain-append (c ∷ cs) ys p q = ground (arith, is_plain-append cs ys)

is_plain-reverse : (xs : Bytes) → is_plain xs ≡ true → is_plain (reverse xs) ≡ true
unfolding is_plain
is_plain-reverse [] h = refl
is_plain-reverse (c ∷ cs) h =
    is_plain-append (reverse cs) (c ∷ []) (is_plain-reverse cs (ground arith)) (ground arith)

reverse-append : (xs ys : Bytes) → reverse (xs ++ ys) ≡ reverse ys ++ reverse xs
reverse-append [] ys = sym (append-nil (reverse ys))
reverse-append (c ∷ cs) ys =
    rw (reverse-append cs ys, append_assoc (reverse ys) (reverse cs) (c ∷ []))

leave_scope-plain :
    (seg behind : Bytes) → is_plain seg ≡ true → leave_scope (seg ++ (0x2e ∷ behind)) ≡ ok behind
unfolding is_plain leave_scope
leave_scope-plain [] behind h = refl
leave_scope-plain (c ∷ cs) behind h = ground (arith, leave_scope-plain cs behind)

leave-plain :
    (seg behind : Bytes) → is_plain seg ≡ true → leave (seg ++ (0x2e ∷ behind)) ≡ ok behind
unfolding is_plain starts_with
leave-plain [] behind h = rw (leave_scope-plain [] behind refl)
leave-plain (c ∷ cs) behind h = ground (arith, leave_scope-plain (c ∷ cs) behind h)

leave-first :
    (seg : Bytes) → is_plain seg ≡ true → leave (seg ++ (0x5c ∷ [])) ≡ err AmlError.value_error
unfolding is_plain starts_with leave_scope
leave-first [] h = refl
leave-first (c ∷ cs) h = ground (arith, first cs)
  where
    first :
        (seg : Bytes)
        → is_plain seg ≡ true
        → leave_scope (seg ++ (0x5c ∷ [])) ≡ err AmlError.value_error
    first [] h = refl
    first (d ∷ ds) h = ground (arith, first ds)

resolves :
    (current modifier : Bytes)
    → current ≢ []
    → modifier ≢ []
    → starts_with 0x5c modifier ≡ false
    → get_namespace_string current modifier ≡ resolve (reverse current) modifier
unfolding get_namespace_string starts_with
resolves [] modifier p q r = absurd (p refl)
resolves (c ∷ cs) [] p q r = absurd (q refl)
resolves (c ∷ cs) (m ∷ ms) p q r = ground arith

resolve-caret :
    (seg behind modifier : Bytes)
    → is_plain seg ≡ true
    → resolve (seg ++ (0x2e ∷ behind)) (0x5e ∷ modifier) ≡ resolve behind modifier
unfolding resolve climb
resolve-caret seg behind modifier h = rw (leave-plain seg behind h)

is_longer : (scope seg : Bytes) → (scope ++ (0x2e ∷ seg)) ≢ []
is_longer [] seg e = cc
is_longer (c ∷ cs) seg e = cc

-- A caret before a name leads to the scope around: the name in a scope's segment is the name without
-- its caret in that scope.
pub get_namespace_string-caret :
    (scope seg modifier : Bytes)
    → is_plain seg ≡ true
    → scope ≢ []
    → modifier ≢ []
    → starts_with 0x5c modifier ≡ false
    → get_namespace_string (scope ++ (0x2e ∷ seg)) (0x5e ∷ modifier)
      ≡ get_namespace_string scope modifier
unfolding starts_with
get_namespace_string-caret scope seg modifier h p q r =
    resolves (scope ++ (0x2e ∷ seg)) (0x5e ∷ modifier) (is_longer scope seg) (λ e. cc) caret
    ∙ around
    ∙ sym (resolves scope modifier p q r)
  where
    caret : starts_with 0x5c (0x5e ∷ modifier) ≡ false
    caret = refl

    around :
        resolve (reverse (scope ++ (0x2e ∷ seg))) (0x5e ∷ modifier)
        ≡ resolve (reverse scope) modifier
    around =
        rw
          (
            reverse-append scope (0x2e ∷ seg),
            append_assoc (reverse seg) (0x2e ∷ []) (reverse scope),
          )
          (resolve-caret (reverse seg) (reverse scope) modifier (is_plain-reverse seg h))

-- From a scope of one segment, a caret leads nowhere.
get_namespace_string-first :
    (seg modifier : Bytes)
    → is_plain seg ≡ true
    → get_namespace_string (0x5c ∷ seg) (0x5e ∷ modifier) ≡ err AmlError.value_error
unfolding get_namespace_string climb resolve starts_with
get_namespace_string-first seg modifier h =
    rw (leave-first (reverse seg) (is_plain-reverse seg h)) (ground arith)
