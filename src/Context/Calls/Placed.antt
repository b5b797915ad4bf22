-- ===== src/Context/Calls/Placed.antt =====
-- The switch to a callee that was just inserted.
use faastr.Common.{
  ℕ, ◌≡◌, ◌≢◌, refl, sym, ap, subst, ◌∙◌, inl, inr, true, false, Option, none, some, some_inj,
  arith, ◌==◌, Bool-cases, Option-cases, Bool,
}
use faastr.Paging.Table.{◌>>=◌}
use faastr.Context.{Status, Context, block}
use faastr.Context.ContextList.{ContextList, insert}
use faastr.Context.ContextList.Insert.{Inserts, insert_lem, IsWellFormed}
use faastr.Context.Values.{ContextValues, SosValue, append_encode}
use faastr.Context.Calls.{System, look, at_id, start_running, fuse_switch, called}
use faastr.Context.Calls.Linked.{Linked, added, mapped}
use faastr.Context.Calls.Looks.{remade, remade-remade}

pub bind_some :
    {A B : Type 0} (o : Option A) (f : A → Option B) (b : B)
    → (o >>= f) ≡ some b
    → (a : A) × (o ≡ some a) × (f a ≡ some b)
bind_some none f b e = absurd (ground arith)
bind_some (some a) f b e = (a, refl, e)

-- The callee of a call: the context with the function, the link, the CPU and the arguments.
pub called_parts :
    (resizes : ℕ → Bool) (args : SosValue) (func : ℕ) (caller context callee : Context)
    → called resizes args func caller context ≡ some callee
    → (appended : ℕ × ContextValues) × (append_encode resizes args context.args ≡ some appended)
      × (callee ≡ record context {
        function = func;
        ret_link = some caller.id;
        cpu_id = caller.cpu_id;
        args = appended.1;
      })
unfolding called
called_parts resizes args func caller context callee e =
    let (appended, f, same) =
      bind_some (append_encode resizes args context.args)
        (λ appended. some (record context {
          function = func;
          ret_link = some caller.id;
          cpu_id = caller.cpu_id;
          args = appended.1;
        }))
        callee e in
    (appended, f, sym (some_inj same))

-- What a call knows of its callee.
pub called_lem :
    (resizes : ℕ → Bool) (args : SosValue) (func : ℕ) (caller context callee : Context)
    → called resizes args func caller context ≡ some callee
    → callee.ret_link ≡ some caller.id
called_lem resizes args func caller context callee e =
    ap (λ c. c.ret_link) (called_parts resizes args func caller context callee e).2

block-running : (c : Context) → c.status ≡ Status.running → (block c).1 ≡ c
unfolding block
block-running c e = ground (arith, e)

-- The switch to a callee that was just inserted: it runs, and its running caller is as it was.
abbrev pub switched : ℕ → ℕ → Context → Context
switched id current c = at_id current (λ d. (block d).1) (at_id id start_running c)

switched_other :
    (id current : ℕ) (c : Context)
    → c.id == id ≡ false
    → (c.id ≡ current → c.status ≡ Status.running)
    → switched id current c ≡ c
switched_other id current c other running = elim (Bool-cases (c.id == current)) [
  | inl here ↦ rw (other, here) (block-running c (running (ground (arith, here))))
  | inr away ↦ rw (other, away) refl
]

switched_new :
    (id current : ℕ) (c : Context)
    → c.id == id ≡ true
    → c.id == current ≡ false
    → switched id current c ≡ start_running c
switched_new id current c here away = rw (here, away) refl

module _ (before : ℕ → Option Context) (current : ℕ) (l : Linked before current) where
  current_taken : (id : ℕ) → before id ≡ none → id ≢ current
  current_taken id new same = let (c, e, _) = l.runs in none_ne_some (sym new ∙ ap before same ∙ e)
    where
      none_ne_some : {A : Type 0} {a : A} → none ≡ some a → ⊥
      none_ne_some e = cc

  current_runs : (k : ℕ) (c : Context) → before k ≡ some c → k ≡ current → c.status ≡ Status.running
  current_runs k c e same =
      let (d, f, running) = l.runs in
      subst (λ x. x.status ≡ Status.running) (some_inj (sym f ∙ ap before (sym same) ∙ e)) running

  pub switch_look :
      (id : ℕ) (callee : Context)
      → before id ≡ none
      → callee.id ≡ id
      → (k : ℕ)
      → mapped (switched id current) (added id callee before k)
        ≡ added id (start_running callee) before k
  switch_look id callee new named k = elim (Bool-cases (k == id)) [
    | inl here ↦ rw here (
        ap some (
          switched_new id current callee (ground (arith, named))
            (ground (arith, named, current_taken id new))))
    | inr other ↦ rw other (elim (Option-cases (before k)) [
      | inl e ↦ rw e refl
      | inr (c, e) ↦
          let named = l.keyed k c e in
          rw e (
            ap some (
              switched_other id current c (ground (arith, named))
                (λ same. current_runs k c e (sym named ∙ same))))
    ])
  ]

-- What an insertion, whatever it returns, comes to.
pub inserted_lem :
    (context : Context) (contexts : ContextList) (r : Option ℕ × ContextList)
    → IsWellFormed contexts
    → insert context contexts ≡ some r
    → Inserts context contexts r
inserted_lem context contexts r w e =
    let (found, f, inserts) = insert_lem context contexts w in
    subst (Inserts context contexts) (some_inj (sym f ∙ e)) inserts

-- The switch of a call whose callee is in the list.
pub fuse_switch_lem :
    (id from : ℕ) (s : System) (to : Context)
    → look s id ≡ some to
    → to.ret_link ≡ some from
    → fuse_switch id s ≡ some (remade (switched id from) id s)
unfolding fuse_switch
fuse_switch_lem id from s to e link =
    rw (e, link)
      (ap some (remade-remade (at_id from (λ c. (block c).1)) (at_id id start_running) id id s))

pub switched-id : (id current : ℕ) (c : Context) → (switched id current c).id ≡ c.id
unfolding block
switched-id id current c = ground arith
