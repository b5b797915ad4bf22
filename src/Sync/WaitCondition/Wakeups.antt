-- ===== src/Sync/WaitCondition/Wakeups.antt =====
-- Whom `notify` wakes up, and what `wait` returns.
use faastr.Common.{
  ℕ, ◌≡◌, ◌⊎◌, inl, inr, refl, sym, ap, ◌∙◌, Bool, true, false, ◌&&◌, List, [], ◌∷◌, ◌++◌, some,
  map, arith, ◌==◌, if◌then◌else◌, length, some_inj, Bool-cases,
}
use faastr.Context.{Status, Context, block, unblock}
use faastr.Context.ContextList.{get}
use faastr.Context.Scheduler.Running.{get-map}
use faastr.Sync.WaitCondition.{WaitCondition, change, unblock_all, notify, start_wait, end_wait}

abbrev pub holds : ℕ → List ℕ → Bool
holds id [] = false
holds id (x ∷ xs) = let later = holds id xs in if x == id then true else later

abbrev pub is_blocked : Status → Bool
is_blocked Status.blocked = true
is_blocked _ = false

change-unblock-id : (id : ℕ) (c : Context) → (change unblock id c).id ≡ c.id
unfolding change unblock
change-unblock-id id c = ground arith

change-block-id : (id : ℕ) (c : Context) → (change block id c).id ≡ c.id
unfolding change block
change-block-id id c = ground arith

block_running : (id : ℕ) (c : Context) → c.status ≡ Status.running → change block id c ≡ c
unfolding change block
block_running id c h = ground arith

get-id : (k : ℕ) (cs : List Context) {c : Context} → get k cs ≡ some c → c.id ≡ k
get-id k [] e = absurd (ground arith)
get-id k (d ∷ cs) {c} e = elim (Bool-cases (k == d.id)) [
  | inl here ↦
      let same : d ≡ c = some_inj (sym (rw here refl) ∙ e) in
      sym (ap (λ x. x.id) same) ∙ ground (arith, here)
  | inr on ↦ get-id k cs {c = c} (ground (arith, on))
]

-- notify makes every context that waits and is blocked runnable, and changes no other, nor
-- anything else of these; nobody waits any more, and the answer is how many did.
pub notify_lem :
    (condition : WaitCondition) (contexts : List Context) (id : ℕ) {c : Context}
    → get id contexts ≡ some c
    → (contexts' : List Context) × (notify condition contexts ≡ (length condition, [], contexts'))
      × (get id contexts'
          ≡ some (
              if holds id condition && is_blocked c.status
              then record c { status = Status.runnable }
              else c))
unfolding notify unblock_all change unblock
notify_lem condition contexts id {c} e = (unblock_all condition contexts, refl, all condition)
  where
    after : Bool → Context
    after b = if b && is_blocked c.status then record c { status = Status.runnable } else c

    step : (x : ℕ) (b : Bool) → change unblock x (after b) ≡ after (if x == id then true else b)
    step x b = ground (arith, get-id id contexts e)

    all : (xs : List ℕ) → get id (unblock_all xs contexts) ≡ some (after (holds id xs))
    all [] = e
    all (x ∷ xs) =
        get-map (change unblock x) (change-unblock-id x) id (unblock_all xs contexts) (all xs)
        ∙ ap some (step x (holds id xs))

-- Where a context still waits, its first entry goes and the answer is false; where it was notified,
-- the condition stays as it is and the answer is true.
end_wait_lem :
    (current : ℕ) (condition : WaitCondition)
    → ((holds current condition ≡ false) × (end_wait current condition ≡ (true, condition)))
      ⊎ ((front back : List ℕ) × (condition ≡ front ++ current ∷ back)
          × (holds current front ≡ false)
          × (end_wait current condition ≡ (false, front ++ back)))
unfolding end_wait
end_wait_lem current [] = inl (refl, refl)
end_wait_lem current (x ∷ xs) = elim (Bool-cases (x == current)) [
  | inl here ↦ inr ([], xs, ap (λ n. n ∷ xs) (ground (arith, here)), refl, rw here refl)
  | inr on ↦ elim (end_wait_lem current xs) [
    | inl (h, e) ↦ inl (rw on h, rw (on, e) refl)
    | inr (front, back, same, h, e) ↦
        inr (x ∷ front, back, ap (λ z. x ∷ z) same, rw on h, rw (on, e) refl)
  ]
]

-- A context that runs when it starts to wait is not blocked by that: `block` does nothing to it.
start_wait-running :
    (current : ℕ) (condition : WaitCondition) (contexts : List Context) {c : Context}
    → get current contexts ≡ some c
    → c.status ≡ Status.running
    → (contexts' : List Context) × (start_wait current condition contexts
        ≡ some (condition ++ current ∷ [], contexts'))
      × (get current contexts' ≡ some c)
unfolding start_wait
start_wait-running current condition contexts {c} e running = (
  map (change block current) contexts,
  rw (e, start_wait) refl,
  get-map (change block current) (change-block-id current) current contexts e
      ∙ ap some (block_running current c running),
)
