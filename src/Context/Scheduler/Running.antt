-- ===== src/Context/Scheduler/Running.antt =====
-- What `switch` does to the contexts of one CPU, and which of them run.
use faastr.Common.{
  ℕ, ◌<◌, ◌≡◌, ◌≢◌, inl, inr, refl, sym, ap, ◌∙◌, Bool, true, false, List, [], ◌∷◌, Option, none,
  some, map, arith, ◌==◌, All, Bool-cases, some_inj,
}
use faastr.Context.{Status, Context, unblock}
use faastr.Context.ContextList.{get}
use faastr.Context.ContextList.Insert.{Ascending}
use faastr.Context.Scheduler.{
  Scheduler, wake_up, update, runnable, next_context, suspend, swap_status, switch,
}
use faastr.Context.Scheduler.Turns.{IsNext}

abbrev pub is_running : Status → Bool
is_running Status.running = true
is_running _ = false

-- owned by this CPU, or by none yet
abbrev pub may_own : ℕ → Option ℕ → Bool
may_own cpu none = true
may_own cpu (some id) = id == cpu

-- The current context is in the list, and of this CPU's contexts no other one runs.
pub record IsWellRun (cpu : ℕ) (s : Scheduler) : Type 0 where
  pub ascending : Ascending s.contexts
  pub current_listed : (c : Context) × (get s.current s.contexts ≡ some c)
  pub one_running :
      All
        (λ c. is_running c.status ≡ true → may_own cpu c.cpu_id ≡ true → c.id ≡ s.current)
        s.contexts

module _ (f : Context → Context) (keeps : (c : Context) → (f c).id ≡ c.id) where
  pub map-All :
      (P Q : Context → Type 0) (cs : List Context)
      → ((c : Context) → P c → Q (f c))
      → All P cs
      → All Q (map f cs)
  map-All P Q [] g h = tt
  map-All P Q (c ∷ cs) g h = (g c h.0, map-All P Q cs g h.1)

  pub map-Ascending : (cs : List Context) → Ascending cs → Ascending (map f cs)
  map-Ascending [] a = tt
  map-Ascending (c ∷ cs) a = (
    map-All (λ d. c.id < d.id) (λ d. (f c).id < d.id) cs (λ d l. omega (arith, keeps c, keeps d))
        a.0,
    map-Ascending cs a.1,
  )

  pub get-map :
      (k : ℕ) (cs : List Context) {c : Context} → get k cs ≡ some c → get k (map f cs) ≡ some (f c)
  get-map k [] e = absurd (ground arith)
  get-map k (d ∷ cs) {c} e = elim (Bool-cases (k == d.id)) [
    | inl here ↦
        rw (ap (λ n. k == n) (keeps d) ∙ here)
          (ap (λ x. some (f x)) (some_inj (sym (rw here refl) ∙ e)))
    | inr on ↦ rw (ap (λ n. k == n) (keeps d) ∙ on) (get-map k cs {c = c} (ground (arith, on)))
  ]

pub update-id : (cpu : ℕ) (now : ℕ × ℕ) (c : Context) → (update cpu now c).id ≡ c.id
unfolding update wake_up unblock
update-id cpu now c = ground arith

pub swap_status-id : (from to : ℕ) (c : Context) → (swap_status from to c).id ≡ c.id
unfolding swap_status
swap_status-id from to c = ground arith

module _ (cpu : ℕ) (now : ℕ × ℕ) (s : Scheduler) where
  abbrev pub updated : List Context
  updated = map (update cpu now) s.contexts

  -- After a switch the next context in turn runs, the old one can run again if it ran, and is
  -- otherwise as it was; without one, no other context can run.
  abbrev pub Switches : Bool × Scheduler → Type 0
  Switches (true, after) =
      ((to : Context) × (to.id ≢ s.current)
        × IsNext cpu s.current to updated
        × (after.current ≡ to.id)
        × (get to.id after.contexts ≡ some (record to { status = Status.running })))
      × ((c : Context)
          → get s.current updated ≡ some c
          → get s.current after.contexts ≡ some (record c { status = suspend c.status }))
      × IsWellRun cpu after
  Switches (false, after) =
      All (λ c. runnable cpu c ≡ true → c.id ≡ s.current) updated
      × (after ≡ record s { contexts = updated })
      × IsWellRun cpu after

  unfoldable pub after_switch : Context → Scheduler
  after_switch to = record { contexts = map (swap_status s.current to.id) updated; current = to.id }

  pub switch-some :
      {c to : Context}
      → get s.current s.contexts ≡ some c
      → next_context cpu s.current updated ≡ some to
      → switch cpu now s ≡ some (true, after_switch to)
  unfolding switch after_switch
  switch-some e f = rw (e, switch) (rw f refl)

  pub switch-none :
      {c : Context}
      → get s.current s.contexts ≡ some c
      → next_context cpu s.current updated ≡ none
      → switch cpu now s ≡ some (false, record s { contexts = updated })
  unfolding switch
  switch-none e f = rw (e, switch) (rw f refl)
