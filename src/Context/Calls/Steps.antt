-- ===== src/Context/Calls/Steps.antt =====
-- Calls, casts, returns, exits and switches in any order, and the links that they keep.
use faastr.Common.{ℕ, ◌≡◌, ap, subst, Bool, Option, none, some, some_inj}
use faastr.Paging.Table.{◌>>=◌}
use faastr.Sos.Bytes.{Bytes}
use faastr.Context.{Context}
use faastr.Context.Values.{SosValue}
use faastr.Context.Scheduler.{Scheduler}
use faastr.Context.Calls.{
  System, Left, look, change, scheduled, init, fuse_inner, cast_inner, fuse_end, switch_from, exit,
  sys_return,
}
use faastr.Context.Calls.Looks.{IsLinked}
use faastr.Context.Calls.Placed.{bind_some}
use faastr.Context.Calls.Fused.{fuse_inner-IsLinked, cast_inner-IsLinked}
use faastr.Context.Calls.Kept.{
  init-IsLinked, exit-IsLinked, keep_result-IsLinked, switches-IsLinked,
}

-- What the kernel does for the context that runs on one CPU.
pub data Step (cpu : ℕ) (s : System) : System → Type 0 where
  fuses :
      (resizes : ℕ → Bool) (args : SosValue) (func : ℕ) (context : Context) (id : Option ℕ)
      (after : System)
      → fuse_inner resizes args func context s ≡ some (id, after)
      → Step cpu s after
  casts :
      (resizes : ℕ → Bool) (args : SosValue) (func : ℕ) (context : Context) (id : Option ℕ)
      (after : System)
      → context.ret_link ≡ none
      → cast_inner resizes args func context s ≡ some (id, after)
      → Step cpu s after
  takes :
      (id : ℕ) (values : Bytes) (after : System)
      → fuse_end id s ≡ some (values, after)
      → Step cpu s after
  switches :
      (now : ℕ × ℕ) (switched : Bool) (after : Scheduler)
      → switch_from cpu now s ≡ some (switched, after)
      → Step cpu s (scheduled s after)
  exits :
      (now : ℕ × ℕ) (after : System) → exit cpu now s ≡ some (Left.goes_to after) → Step cpu s after
  returns :
      (now : ℕ × ℕ) (values : Bytes) (after : System)
      → sys_return cpu now values s ≡ some (Left.goes_to after)
      → Step cpu s after

pub data Reach (cpu : ℕ) : System → Type 0 where
  starts : {s : System} → init cpu ≡ some s → Reach cpu s
  later : {s t : System} → Reach cpu s → Step cpu s t → Reach cpu t

-- Every step keeps the links.
pub Step-IsLinked : (cpu : ℕ) (s after : System) → IsLinked s → Step cpu s after → IsLinked after
unfolding fuse_end sys_return
Step-IsLinked cpu s after i (Step.fuses resizes args func context id _ e) =
    fuse_inner-IsLinked resizes args func context s after id i e
Step-IsLinked cpu s after i (Step.casts resizes args func context id _ free e) =
    cast_inner-IsLinked resizes args func context s after id free i e
Step-IsLinked cpu s after i (Step.takes id values _ e) =
    let (c, found, e1) =
      bind_some (look s id)
        (λ c. c.result >>= (λ values. some (values, change id (λ c. record c { result = none }) s)))
        (values, after) e in
    let (bytes, result, e2) =
      bind_some c.result (λ values. some (values, change id (λ c. record c { result = none }) s))
        (values, after) e1 in
    subst IsLinked (ap (λ r. r.1) (some_inj e2)) (keep_result-IsLinked id none s i)
Step-IsLinked cpu s after i (Step.switches now switched scheduler e) =
    switches-IsLinked cpu now s switched scheduler i e
Step-IsLinked cpu s after i (Step.exits now _ e) = exit-IsLinked cpu now s after i e
Step-IsLinked cpu s after i (Step.returns now values _ e) =
    let (c, found, e1) =
      bind_some (look s s.current)
        (λ c. exit cpu now (change s.current (λ c. record c { result = some values }) s))
        (Left.goes_to after) e in
    exit-IsLinked cpu now (change s.current (λ c. record c { result = some values }) s) after
      (keep_result-IsLinked s.current (some values) s i) e1

-- In every system that the kernel reaches from its first context, by calls, casts, returns, exits,
-- switches and the taking of results, in any order: the list of contexts is well formed, the
-- current context is in it and runs, a context that another one returns to is in it, runs and is
-- not the current one, and no two contexts return to the same one. Contexts that are cast have no
-- link.
pub Reach-IsLinked : (cpu : ℕ) (s : System) → Reach cpu s → IsLinked s
Reach-IsLinked cpu s (Reach.starts e) = init-IsLinked cpu s e
Reach-IsLinked cpu s (Reach.later before step) =
    Step-IsLinked cpu _ s (Reach-IsLinked cpu _ before) step
