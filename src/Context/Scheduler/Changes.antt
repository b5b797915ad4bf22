-- ===== src/Context/Scheduler/Changes.antt =====
-- What `switch` does to each context.
use faastr.Common.{ℕ, ◌≡◌, ◌≢◌, ◌⊎◌, subst, inl, inr, true, false, some, arith, Option-cases}
use faastr.Context.{Status, Context, unblock}
use faastr.Context.ContextList.{get}
use faastr.Context.ContextList.Insert.{Ascending}
use faastr.Context.Scheduler.{
  Scheduler, switch, update, wake_up, swap_status, is_ready, runnable, next_context,
}
use faastr.Context.Scheduler.Turns.{IsNext, Chosen, next_context_lem}
use faastr.Context.Scheduler.Running.{updated, after_switch, switch-some, switch-none}

pub switch_cases :
    (cpu : ℕ) (now : ℕ × ℕ) (s : Scheduler) (c : Context)
    → get s.current s.contexts ≡ some c
    → Ascending (updated cpu now s)
    → (switch cpu now s ≡ some (false, record s { contexts = updated cpu now s }))
      ⊎ ((to : Context) × IsNext cpu s.current to (updated cpu now s)
          × (switch cpu now s ≡ some (true, after_switch cpu now s to)))
switch_cases cpu now s c e a =
    let turn = next_context_lem cpu s.current (updated cpu now s) a in
    elim (Option-cases (next_context cpu s.current (updated cpu now s))) [
      | inl stay ↦ inl (switch-none cpu now s e stay)
      | inr (to, found) ↦ inr (
        to,
        (subst (Chosen cpu s.current (updated cpu now s)) found turn).1,
        switch-some cpu now s e found,
      )
    ]

pub update-link : (cpu : ℕ) (now : ℕ × ℕ) (c : Context) → (update cpu now c).ret_link ≡ c.ret_link
unfolding update wake_up unblock
update-link cpu now c = ground arith

pub update-running :
    (cpu : ℕ) (now : ℕ × ℕ) (c : Context)
    → c.status ≡ Status.running
    → (update cpu now c).status ≡ Status.running
unfolding update wake_up unblock
update-running cpu now c e = ground arith

pub swap_status-link : (from to : ℕ) (c : Context) → (swap_status from to c).ret_link ≡ c.ret_link
unfolding swap_status
swap_status-link from to c = ground arith

pub swap_status-to :
    (from to : ℕ) (c : Context) → c.id ≡ to → (swap_status from to c).status ≡ Status.running
unfolding swap_status
swap_status-to from to c e = ground arith

pub swap_status-other :
    (from to : ℕ) (c : Context) → c.id ≢ from → c.id ≢ to → swap_status from to c ≡ c
unfolding swap_status
swap_status-other from to c e f = ground arith

pub running-runnable :
    (cpu : ℕ) (c : Context) → c.status ≡ Status.running → runnable cpu c ≡ true → ⊥
unfolding is_ready
running-runnable cpu c e f = ground arith
