-- ===== src/Context/Calls/Return.antt =====
-- What a return comes to for the caller.
use faastr.Common.{
  ℕ, ◌≡◌, ◌≢◌, refl, sym, ap, subst, ◌∙◌, inl, inr, none, some, some_inj, arith, ◌==◌, Bool-cases,
  Option-cases, if◌then◌else◌, Bool,
}
use faastr.Sos.Bytes.{Bytes}
use faastr.Context.{Status, Context, unblock}
use faastr.Context.Values.{SosValue, ContextValues, append_encode}
use faastr.Context.Calls.{
  System, Left, look, at_id, change, start_running, fuse_inner, fuse_end, sys_return,
}
use faastr.Context.Calls.Linked.{mapped}
use faastr.Context.Calls.Looks.{get-map_all, at_id-id, remade, IsLinked}
use faastr.Context.Calls.Placed.{called_parts, called_lem}
use faastr.Context.Calls.Fused.{fuse_inner_lem, fuse_inner-IsLinked}
use faastr.Context.Calls.Steps.{Step, Step-IsLinked}
use faastr.Context.Calls.Returned.{returned, returned-id, returned_lem}

-- A callee that has returned.
abbrev pub finished : Bytes → Context → Context
finished values c = record c { status = Status.exited; ret_link = none; result = some values }

returned_callee :
    (values : Bytes) (current parent : ℕ) (c : Context)
    → c.id ≡ current
    → parent ≢ current
    → returned (some values) current parent c ≡ finished values c
unfolding unblock
returned_callee values current parent c e ne = ground arith

returned_other :
    (values : Bytes) (current parent : ℕ) (c : Context)
    → c.id ≢ current
    → (c.id ≡ parent → c.status ≡ Status.running)
    → returned (some values) current parent c ≡ c
unfolding unblock
returned_other values current parent c ne e = elim (Bool-cases (c.id == parent)) [
  | inl here ↦ (let runs = e (ground (arith, here)) in ground (arith, runs))
  | inr away ↦ ground (arith, away)
]

-- Everything but the callee is as it was before the return.
abbrev pub Gives : ℕ × ℕ → Bytes → ℕ → System → ℕ → Context → Type 0
Gives now values cpu s parent c =
    (after : System) × (sys_return cpu now values s ≡ some (Left.goes_to after))
    × (after.current ≡ parent)
    × ((k : ℕ) → look after k ≡ (if k == s.current then some (finished values c) else look s k))

-- In a system whose links hold, a return of a context that has a link does not panic: the CPU goes
-- to the context that it returns to, the one that returns is exited, with the values as its result
-- and no link, and every other context is as it was.
pub sys_return_lem :
    (cpu : ℕ) (now : ℕ × ℕ) (values : Bytes) (s : System) (c : Context) (parent : ℕ)
    → IsLinked s
    → look s s.current ≡ some c
    → c.ret_link ≡ some parent
    → Gives now values cpu s parent c
unfolding sys_return
sys_return_lem cpu now values s c parent i found link =
    let l = i.linked in
    let f = returned (some values) s.current parent in
    let named = l.keyed s.current c found in
    let (d, there, running, away) = l.waits s.current parent c found link in
    (
      remade f parent s,
      rw found (returned_lem (some values) cpu now s c parent found named link),
      refl,
      λ k.
          get-map_all f (returned-id (some values) s.current parent) k s.contexts.map
          ∙ elim (Bool-cases (k == s.current)) [
            | inl here ↦
                let same : k ≡ s.current = ground (arith, here) in
                ap (mapped f) (ap (look s) same ∙ found)
                ∙ rw here (ap some (returned_callee values s.current parent c named away))
            | inr other ↦ rw other (elim (Option-cases (look s k)) [
              | inl e ↦ rw e refl
              | inr (b, e) ↦
                  let named = l.keyed k b e in
                  rw e (
                    ap some (
                      returned_other values s.current parent b (ground (arith, named, other)) (λ q.
                        subst (λ x. x.status ≡ Status.running)
                          (some_inj (sym there ∙ ap (look s) (sym q ∙ named) ∙ e)) running)))
            ])
          ],
    )

-- A callee once its result has been taken.
abbrev pub spent : Context → Context
spent c = record c { status = Status.exited; ret_link = none; result = none }

fuse_end-finished :
    (id : ℕ) (values : Bytes) (c : Context) (s : System)
    → look s id ≡ some (finished values c)
    → c.id ≡ id
    → ((k : ℕ) (d : Context) → look s k ≡ some d → d.id ≡ k)
    → (after : System) × (fuse_end id s ≡ some (values, after))
      × (after.current ≡ s.current)
      × ((k : ℕ) → look after k ≡ (if k == id then some (spent c) else look s k))
unfolding fuse_end
fuse_end-finished id values c s e named keyed =
    let f : Context → Context = λ d. record d { result = none } in
    (
      change id f s,
      rw e refl,
      refl,
      λ k.
          get-map_all (at_id id f) (at_id-id id f (λ d. refl)) k s.contexts.map
          ∙ elim (Bool-cases (k == id)) [
            | inl here ↦
                let same : k ≡ id = ground (arith, here) in
                ap (mapped (at_id id f)) (ap (look s) same ∙ e)
                ∙ rw here (ap some (ground (arith, named)))
            | inr other ↦ rw other (elim (Option-cases (look s k)) [
              | inl g ↦ rw g refl
              | inr (b, g) ↦
                  (let named = keyed k b g in rw g (ap some (ground (arith, named, other))))
            ])
          ],
    )

-- The callee of a call, as it runs and as it ends.
abbrev pub RoundTrip : ℕ → ℕ × ℕ → Bytes → System → ℕ → System → Context → Type 0
RoundTrip cpu now values s id called_system callee =
    (look called_system id ≡ some (start_running callee))
    × ((back : System) × (end : System) × (sys_return cpu now values called_system
          ≡ some (Left.goes_to back))
        × (back.current ≡ s.current)
        × (fuse_end id back ≡ some (values, end))
        × (end.current ≡ s.current)
        × ((k : ℕ) → look end k ≡ (if k == id then some (spent callee) else look s k)))

-- A call that finds room in a system whose links hold: the callee is the context of the call
-- with the function, the arguments appended to its own, the CPU of the caller and the link to
-- it, and it runs. When it returns values, whatever they are, the system goes back to the
-- caller, the call gives these values, and in the end every context is as it was before the
-- call, but for the callee, which is exited, with no link and no result.
pub sys_return-fuse_inner :
    (cpu : ℕ) (now : ℕ × ℕ) (resizes : ℕ → Bool) (args : SosValue) (func : ℕ) (context : Context)
    (values : Bytes) (s after : System) (id : ℕ)
    → IsLinked s
    → fuse_inner resizes args func context s ≡ some (some id, after)
    → (caller : Context) × (callee : Context) × (appended : ℕ × ContextValues) × (look s s.current
        ≡ some caller)
      × (append_encode resizes args context.args ≡ some appended)
      × (callee ≡ record context {
        id = id;
        function = func;
        ret_link = some s.current;
        cpu_id = caller.cpu_id;
        args = appended.1;
      })
      × RoundTrip cpu now values s id after callee
sys_return-fuse_inner cpu now resizes args func context values s after id i e =
    let r = fuse_inner_lem resizes args func context s after id i e in
    let placed : Context = record r.callee { id = id } in
    let linked = fuse_inner-IsLinked resizes args func context s after (some id) i e in
    let found : look after id ≡ some (start_running placed) = r.looks id ∙ ground arith in
    let (appended, encoded, is_made) =
      called_parts resizes args func r.caller context r.callee r.is_callee in
    let place : Context → Context = λ c. record c { id = id } in
    let linked_to : ℕ → Context = λ n. record context {
      id = id;
      function = func;
      ret_link = some n;
      cpu_id = r.caller.cpu_id;
      args = appended.1;
    } in
    let made : placed ≡ linked_to s.current =
      ap place is_made ∙ ap linked_to (i.linked.keyed s.current r.caller r.is_caller) in
    let link =
      called_lem resizes args func r.caller context r.callee r.is_callee
      ∙ ap some (i.linked.keyed s.current r.caller r.is_caller) in
    let (back, returns, to_caller, looks) =
      sys_return_lem cpu now values after (start_running placed) s.current linked
        (ap (look after) r.is_current ∙ found) link in
    let looks' : (k : ℕ)
        → look back k ≡ (if k == id then some (finished values placed) else look after k) =
      subst
        (λ n.
          (k : ℕ) → look back k ≡ (if k == n then some (finished values placed) else look after k))
        r.is_current looks in
    let (end, takes, still, looks_end) =
      fuse_end-finished id values placed back (looks' id ∙ ground arith) refl
        (Step-IsLinked cpu after back linked (Step.returns now values back returns)).linked.keyed in
    (
      r.caller,
      placed,
      appended,
      r.is_caller,
      encoded,
      made,
      (
        found,
        (
          back,
          end,
          returns,
          to_caller,
          takes,
          still ∙ to_caller,
          λ k. looks_end k ∙ elim (Bool-cases (k == id)) [
            | inl here ↦ rw here refl
            | inr other ↦ rw other (looks' k ∙ rw other (r.looks k ∙ rw other refl))
          ],
        ),
      ),
    )
