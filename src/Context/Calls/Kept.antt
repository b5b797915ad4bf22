-- ===== src/Context/Calls/Kept.antt =====
-- What the start, exits and switches keep of the links of a system.
use mathlib.Core.Path.{fun_ext}
use faastr.Common.{
  ℕ, ◌≡◌, refl, sym, ap, subst, ◌∙◌, inl, inr, Bool, true, false, List, [], ◌∷◌, Option, none, some,
  some_inj, map, arith, ◌==◌, Bool-cases, Option-cases, if◌then◌else◌,
}
use faastr.Sos.Bytes.{Bytes}
use faastr.Context.{Status, Context, new_context}
use faastr.Context.ContextList.{ContextList, new, insert}
use faastr.Context.ContextList.Insert.{IsWellFormed, Inserts}
use faastr.Context.Scheduler.{Scheduler, update}
use faastr.Context.Scheduler.Running.{update-id}
use faastr.Context.Scheduler.Changes.{update-link, update-running}
use faastr.Context.Calls.{
  System, Left, look, at_id, change, scheduled, started, init, left_by, switch_from, leave, exited,
  exit,
}
use faastr.Context.Calls.Linked.{Linked, Linked-mapped}
use faastr.Context.Calls.Looks.{at_id-id, remade, remade-IsLinked, IsLinked, goes_to_inj}
use faastr.Context.Calls.Placed.{bind_some, inserted_lem}
use faastr.Context.Calls.Returned.{returned, returned-id, returned-Linked, returned_lem}
use faastr.Context.Calls.Switched.{IsLast, switch_from-IsLinked}

-- A change that leaves the identifier, the link and the status of each context.
quiet-IsLinked :
    (f : Context → Context) (s : System)
    → ((c : Context) → (f c).id ≡ c.id)
    → ((c : Context) → (f c).ret_link ≡ c.ret_link)
    → ((c : Context) → c.status ≡ Status.running → (f c).status ≡ Status.running)
    → IsLinked s
    → IsLinked (remade f s.current s)
quiet-IsLinked f s same_id same_link same_status i =
    let (c, e, running) = i.linked.runs in
    remade-IsLinked f s.current s same_id i.formed (
      Linked-mapped (look s) s.current s.current f i.linked same_id (λ c p e. sym (same_link c) ∙ e)
        (c, e, same_status c running) (λ k p c d e r g run ne. (same_status d run, ne)))

first-Linked :
    (id : ℕ) (c : Context)
    → c.id ≡ id
    → c.ret_link ≡ none
    → c.status ≡ Status.running
    → Linked (λ k. if k == id then some c else none) id
first-Linked id c named free running = record {
  keyed = λ k d e. (let (same, here) = only k d e in sym (ap (λ x. x.id) here) ∙ named ∙ sym same);
  runs = (c, ground arith, running);
  waits = λ k p d e r. absurd (no_link p d (only k d e).1 r);
  once = λ k j p d b e f r q. absurd (no_link p d (only k d e).1 r);
}
  where
    only : (k : ℕ) (d : Context) → (if k == id then some c else none) ≡ some d → (k ≡ id) × (c ≡ d)
    only k d e = elim (Bool-cases (k == id)) [
      | inl here ↦ (ground (arith, here), some_inj (sym (rw here refl) ∙ e))
      | inr away ↦ absurd (none_ne_some (sym (rw away refl) ∙ e))
    ]
      where
        none_ne_some : {A : Type 0} {a : A} → none ≡ some a → ⊥
        none_ne_some e = cc

    no_link : (p : ℕ) (d : Context) → c ≡ d → d.ret_link ≡ some p → ⊥
    no_link p d same r = (let e : none ≡ some p = sym free ∙ ap (λ x. x.ret_link) same ∙ r in cc)

pub init-IsLinked : (cpu : ℕ) (s : System) → init cpu ≡ some s → IsLinked s
unfolding init
init-IsLinked cpu s e =
    let first : Context = record new_context { status = Status.running; cpu_id = some cpu } in
    let (r, put, e1) = bind_some (insert first new) started s e in
    started-IsLinked first r s refl refl (inserted_lem first new r empty put) e1
  where
    empty : IsWellFormed new
    empty = record { small = tt; ascending = tt; next_small = omega arith }

    started-IsLinked :
        (first : Context) (r : Option ℕ × ContextList) (s : System)
        → first.ret_link ≡ none
        → first.status ≡ Status.running
        → Inserts first new r
        → started r ≡ some s
        → IsLinked s
    started-IsLinked first (none, contexts) s free running inserts e = absurd (ground arith)
    started-IsLinked first (some id, contexts) s free running (small, free_id, looks, formed) e =
        subst IsLinked (some_inj e) (record {
          formed = formed;
          linked =
              subst (λ f. Linked f id) (sym (fun_ext looks))
                (first-Linked id (record first { id = id }) refl free running);
        })

-- The last switch of a context that returns to none.
leave-IsLinked :
    (cpu : ℕ) (now : ℕ × ℕ) (s after : System) (pid : ℕ)
    → IsLinked s
    → leave cpu now pid none (change s.current exited s) ≡ some (Left.goes_to after)
    → IsLinked after
unfolding leave
leave-IsLinked cpu now s after pid i e = elim (Bool-cases (pid == 1)) [
  | inl first ↦ absurd (not_left (sym (rw first refl) ∙ e))
  | inr other ↦
      let (r, switched, e1) =
        bind_some (switch_from cpu now (change s.current exited s))
          (left_by (change s.current exited s)) (Left.goes_to after) (sym (rw other refl) ∙ e) in
      left_by-IsLinked r switched e1
]
  where
    last : IsLast s (at_id s.current exited)
    last = record {
      same_id = at_id-id s.current exited (λ c. refl);
      same_link = λ c p e. ground arith;
      others = λ c ne. ground arith;
    }

    not_left : some Left.stopped ≡ some (Left.goes_to after) → ⊥
    not_left e = cc

    left_by-IsLinked :
        (r : Bool × Scheduler)
        → switch_from cpu now (change s.current exited s) ≡ some r
        → left_by (change s.current exited s) r ≡ some (Left.goes_to after)
        → IsLinked after
    left_by-IsLinked (false, a) f e = absurd (ground arith)
    left_by-IsLinked (true, a) f e = subst IsLinked (goes_to_inj (some_inj e)) (
        switch_from-IsLinked cpu now s i (at_id s.current exited) last true a f
          (λ q. absurd (ground arith)))

pub exit-IsLinked :
    (cpu : ℕ) (now : ℕ × ℕ) (s after : System)
    → IsLinked s
    → exit cpu now s ≡ some (Left.goes_to after)
    → IsLinked after
unfolding exit
exit-IsLinked cpu now s after i e =
    let (c, found, e1) =
      bind_some (look s s.current) (λ c. leave cpu now c.id c.ret_link (change s.current exited s))
        (Left.goes_to after) e in
    elim (Option-cases c.ret_link) [
      | inl free ↦
          leave-IsLinked cpu now s after c.id i
            (ap (λ l. leave cpu now c.id l (change s.current exited s)) (sym free) ∙ e1)
      | inr (p, link) ↦
          let f = returned_lem none cpu now s c p found (i.linked.keyed s.current c found) link in
          subst IsLinked (goes_to_inj (some_inj (sym f ∙ e))) (
            remade-IsLinked (returned none s.current p) p s (returned-id none s.current p) i.formed
              (returned-Linked s i s.current p refl c found link none))
    ]

pub keep_result-IsLinked :
    (id : ℕ) (result : Option Bytes) (s : System)
    → IsLinked s
    → IsLinked (change id (λ c. record c { result = result }) s)
keep_result-IsLinked id result s i =
    quiet-IsLinked (at_id id (λ c. record c { result = result })) s
      (at_id-id id (λ c. record c { result = result }) (λ c. refl)) (λ c. ground arith)
      (λ c e. ground arith) i

pub switches-IsLinked :
    (cpu : ℕ) (now : ℕ × ℕ) (s : System) (switched : Bool) (after : Scheduler)
    → IsLinked s
    → switch_from cpu now s ≡ some (switched, after)
    → IsLinked (scheduled s after)
switches-IsLinked cpu now s switched after i e =
    switch_from-IsLinked cpu now s i (λ c. c)
      (record { same_id = λ c. refl; same_link = λ c p e. e; others = λ c ne. refl }) switched after
      (subst (λ t. switch_from cpu now t ≡ some (switched, after)) (sym same) e)
      (λ q.
        subst (λ t. IsLinked (remade (update cpu now) s.current t)) (sym same)
          (quiet-IsLinked (update cpu now) s (update-id cpu now) (update-link cpu now)
            (update-running cpu now) i))
  where
    map_same : (cs : List Context) → map (λ c. c) cs ≡ cs
    map_same [] = refl
    map_same (c ∷ cs) = ap (λ ds. c ∷ ds) (map_same cs)

    same : remade (λ c. c) s.current s ≡ s
    same =
        ap (λ cs. record s { contexts = record s.contexts { map = cs } }) (map_same s.contexts.map)
