-- ===== src/Context/Scheduler.antt =====
-- `switch` of kernel/src/context/switch.rs on one CPU, without the switch of registers and stacks, nor
-- the panic where the kernel stack of the next context is not mapped, and `nanosleep` of
-- kernel/src/syscall/time.rs.
pub mod Turns
pub mod Running
pub mod Changes
pub mod Sleep
use faastr.Common.{
  ℕ, ◌+◌, ◌/◌, ◌%◌, Bool, true, false, ◌&&◌, ◌||◌, List, [], ◌∷◌, Option, none, some, map, ltb, leb,
  ◌==◌, if◌then◌else◌,
}
use faastr.Common.Usize.{add_usize}
use faastr.Context.{Status, Context, block, unblock}
use faastr.Context.ContextList.{get}

-- The contexts, and `CONTEXT_ID` of the CPU.
pub record Scheduler : Type 0 where
  pub contexts : List Context
  pub current : ℕ

-- `current.0 > wake.0 || (current.0 == wake.0 && current.1 >= wake.1)`
abbrev pub is_due : ℕ × ℕ → ℕ × ℕ → Bool
is_due current wake = ltb wake.0 current.0 || (current.0 == wake.0 && leb wake.1 current.1)

abbrev pub take_ownership : ℕ → Context → Context
take_ownership cpu c = elim c.cpu_id [ none ↦ record c { cpu_id = some cpu } | some _ ↦ c ]

pub wake_up : ℕ × ℕ → Context → Context
wake_up now c = elim c.status [
  | Status.blocked ↦ elim c.wake [
    | none ↦ c
    | some wake ↦ if is_due now wake then (unblock (record c { wake = none })).1 else c
  ]
  | _ ↦ c
]

pub update : ℕ → ℕ × ℕ → Context → Context
update cpu now c = wake_up now (take_ownership cpu c)

pub is_ready : Status → Bool
is_ready Status.runnable = true
is_ready Status.new = true
is_ready _ = false

pub owned_by : ℕ → Option ℕ → Bool
owned_by cpu none = false
owned_by cpu (some id) = id == cpu

abbrev pub runnable : ℕ → Context → Bool
runnable cpu c = is_ready c.status && owned_by cpu c.cpu_id

-- The two loops that look for the next context, in the order of the identifiers.
pub first_after : ℕ → ℕ → List Context → Option Context
first_after cpu from [] = none
first_after cpu from (c ∷ cs) =
    let later = first_after cpu from cs in if ltb from c.id && runnable cpu c then some c else later

pub first_before : ℕ → ℕ → List Context → Option Context
first_before cpu from [] = none
first_before cpu from (c ∷ cs) =
    let later = first_before cpu from cs in
    if ltb c.id from && runnable cpu c then some c else later

pub next_context : ℕ → ℕ → List Context → Option Context
next_context cpu from contexts = elim (first_after cpu from contexts) [
  | some to ↦ some to
  | none ↦ first_before cpu from contexts
]

abbrev pub suspend : Status → Status
suspend Status.running = Status.runnable
suspend status = status

-- The statuses after the switch: `from` is the old context and `to` the new one.
pub swap_status : ℕ → ℕ → Context → Context
swap_status from to c =
    if c.id == to
    then record c { status = Status.running }
    else if c.id == from
    then record c { status = suspend c.status }
    else c

-- Whether another context runs, and the state; `none` is the panic outside of a context.
pub switch : ℕ → ℕ × ℕ → Scheduler → Option (Bool × Scheduler)
switch cpu now s = elim (get s.current s.contexts) [
  | none ↦ none
  | some _ ↦
      let contexts = map (update cpu now) s.contexts in
      elim (next_context cpu s.current contexts) [
        | none ↦ some (false, record s { contexts = contexts })
        | some to ↦ some (
          true,
          record { contexts = map (swap_status s.current to.id) contexts; current = to.id },
        )
      ]
]

-- `nanosleep` up to its switch: the time to wake at, and the current context with it.
pub wake_time : ℕ × ℕ → ℕ × ℕ → ℕ × ℕ
wake_time start req =
    let sum = add_usize start.1 req.1 in
    (add_usize (add_usize start.0 req.0) (sum / 1000000000), sum % 1000000000)

pub go_to_sleep : ℕ → ℕ × ℕ → Context → Context
go_to_sleep current end c = if c.id == current then (block (record c { wake = some end })).1 else c

-- `none` where `switch` panics; the inner `none` is the error ESRCH.
pub nanosleep : ℕ → ℕ × ℕ → ℕ × ℕ → ℕ × ℕ → Scheduler → Option (Option (Bool × Scheduler))
nanosleep cpu start later req s = elim (get s.current s.contexts) [
  | none ↦ some none
  | some _ ↦
      elim (switch cpu later
        (record s { contexts = map (go_to_sleep s.current (wake_time start req)) s.contexts })) [
          | none ↦ none
          | some r ↦ some (some r)
        ]
]
