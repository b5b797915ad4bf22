-- ===== src/Context.antt =====
-- kernel/src/context: contexts and the keys of waiting for a process (context.rs), the list of
-- contexts (list.rs), their memory (memory.rs), the scheduler (switch.rs), calls (call.rs) and
-- sleeping (syscall/time.rs).
pub mod ContextList
pub mod ContextMemory
pub mod Values
pub mod Calls
pub mod Scheduler
pub mod WaitpidKey
mod Tests
use faastr.Common.{ℕ, Bool, true, false, List, Option, none}
use faastr.Context.Values.{ContextValues}

pub data Status : Type 0 where
  running runnable blocked new exited : Status

-- The fields of `Context` that scheduling and calls read. The context to return to is its
-- identifier, a time is in seconds and nanoseconds, and a result is its bytes.
pub record Context : Type 0 where
  pub id : ℕ
  pub status : Status
  pub ret_link : Option ℕ
  pub cpu_id : Option ℕ
  pub wake : Option (ℕ × ℕ)
  pub args : ContextValues
  pub result : Option (List ℕ)
  pub function : ℕ
  pub name : Option (List ℕ)

-- `Context::new`, without the module
abbrev pub new_context : Context
new_context = record {
  id = 0;
  status = Status.blocked;
  ret_link = none;
  cpu_id = none;
  wake = none;
  args = record { memory = none; offset = 0 };
  result = none;
  function = 0;
  name = none;
}

-- Whether the context was runnable, and the context afterwards.
unfoldable pub block : Context → Bool × Context
block c = elim c.status [
  | Status.runnable ↦ (true, record c { status = Status.blocked })
  | _ ↦ (false, c)
]

-- Whether the context was blocked, and the context afterwards; the interrupt to another CPU is
-- output.
unfoldable pub unblock : Context → Bool × Context
unblock c = elim c.status [
  | Status.blocked ↦ (true, record c { status = Status.runnable })
  | _ ↦ (false, c)
]
