-- ===== src/Context/Calls.antt =====
-- Calls of kernel/src/context/call.rs, with `fuse_switch` and `fuse_return` of switch.rs, `sys_return`
-- of syscall/call.rs and `exit` of syscall/process.rs, on one CPU. The context that `spawn` makes for
-- a module is an argument. Registers, stacks and locks are left out, and a call of the kernel's own
-- functions has no stack to prepare. A shared context is its identifier. The outer `none` is a panic.
pub mod Looks
pub mod Linked
pub mod Placed
pub mod Fused
pub mod Returned
pub mod Switched
pub mod Kept
pub mod Steps
pub mod Return
mod Tests
use faastr.Common.{ℕ, Bool, true, false, List, Option, none, some, map, ◌==◌, if◌then◌else◌}
use faastr.Paging.Table.{◌>>=◌}
use faastr.Sos.Bytes.{Bytes}
use faastr.Context.{Status, Context, new_context, block, unblock}
use faastr.Context.ContextList.{ContextList, new, get, insert}
use faastr.Context.Values.{SosValue, append_encode}
use faastr.Context.Scheduler.{Scheduler, switch}

-- The contexts, and `CONTEXT_ID` of the CPU.
pub record System : Type 0 where
  pub contexts : ContextList
  pub current : ℕ

abbrev pub look : System → ℕ → Option Context
look s k = get k s.contexts.map

-- `f` applied to the context `id`, in its place
abbrev pub at_id : ℕ → (Context → Context) → Context → Context
at_id id f c = if c.id == id then f c else c

abbrev pub change : ℕ → (Context → Context) → System → System
change id f s = record s { contexts = record s.contexts { map = map (at_id id f) s.contexts.map } }

abbrev pub started : Option ℕ × ContextList → Option System
started (none, contexts) = none
started (some id, contexts) = some (record { contexts = contexts; current = id })

-- `init`: the kernel's own context, in an empty list.
unfoldable pub init : ℕ → Option System
init cpu = do
  inserted ← insert (record new_context { status = Status.running; cpu_id = some cpu }) new
  started inserted

abbrev pub start_running : Context → Context
start_running c = record c { status = Status.running }

-- `fuse_switch`: the context runs, and the one that it returns to is blocked.
unfoldable pub fuse_switch : ℕ → System → Option System
fuse_switch id s = do
  to ← look s id
  from ← to.ret_link
  some (record (change from (λ c. (block c).1) (change id start_running s)) { current = id })

-- The context of the call: where it returns to, its CPU and its arguments.
unfoldable pub called : (ℕ → Bool) → SosValue → ℕ → Context → Context → Option Context
called resizes args func caller context = do
  appended ← append_encode resizes args context.args
  some (record context {
    function = func;
    ret_link = some caller.id;
    cpu_id = caller.cpu_id;
    args = appended.1;
  })

abbrev pub fuse_inserted : Option ℕ × ContextList → System → Option (Option ℕ × System)
fuse_inserted (none, contexts) s = some (none, record s { contexts = contexts })
fuse_inserted (some id, contexts) s = do
  switched ← fuse_switch id (record s { contexts = contexts })
  some (some id, switched)

-- `fuse_inner` up to its switch: the identifier of the callee, which then runs. The inner `none` is
-- the error of a full list.
unfoldable pub fuse_inner :
    (ℕ → Bool) → SosValue → ℕ → Context → System → Option (Option ℕ × System)
fuse_inner resizes args func context s = do
  caller ← look s s.current
  callee ← called resizes args func caller context
  inserted ← insert callee s.contexts
  fuse_inserted inserted s

-- `fuse_inner` behind its switch: the result, which is taken out of the callee.
unfoldable pub fuse_end : ℕ → System → Option (Bytes × System)
fuse_end id s = do
  callee ← look s id
  values ← callee.result
  some (values, change id (λ c. record c { result = none }) s)

abbrev cast_inserted : Option ℕ × ContextList → System → Option ℕ × System
cast_inserted (id, contexts) s = (id, record s { contexts = contexts })

-- `cast_inner`
unfoldable pub cast_inner :
    (ℕ → Bool) → SosValue → ℕ → Context → System → Option (Option ℕ × System)
cast_inner resizes args func context s = do
  appended ← append_encode resizes args context.args
  inserted ←
      insert (record context { function = func; args = appended.1; status = Status.new }) s.contexts
  some (cast_inserted inserted s)

-- `fuse_return`: the context that is left is unblocked, and the other one runs.
unfoldable pub fuse_return : ℕ → ℕ → System → System
fuse_return from to s = record (change to start_running (change from (λ c. (unblock c).1) s)) {
  current = to;
}

-- `exit` and `sys_return` do not return to the context that calls them: they go to another one, or
-- the CPU is stopped.
pub data Left : Type 0 where
  goes_to : System → Left
  stopped : Left

-- the system after a switch
abbrev pub scheduled : System → Scheduler → System
scheduled s after = record {
  contexts = record s.contexts { map = after.contexts };
  current = after.current;
}

abbrev pub left_by : System → Bool × Scheduler → Option Left
left_by s (false, after) = none
left_by s (true, after) = some (Left.goes_to (scheduled s after))

-- `switch` on the list of contexts
unfoldable pub switch_from : ℕ → ℕ × ℕ → System → Option (Bool × Scheduler)
switch_from cpu now s = switch cpu now (record { contexts = s.contexts.map; current = s.current })

-- The end of `exit`, for the context that had this link to return to.
unfoldable pub leave : ℕ → ℕ × ℕ → ℕ → Option ℕ → System → Option Left
leave cpu now pid (some parent) s = some (Left.goes_to (fuse_return s.current parent s))
leave cpu now pid none s =
    if pid == 1
    then some Left.stopped
    else (do switched ← switch_from cpu now s; left_by s switched)

abbrev pub exited : Context → Context
exited c = record c { status = Status.exited; ret_link = none }

unfoldable pub exit : ℕ → ℕ × ℕ → System → Option Left
exit cpu now s = do
  current ← look s s.current
  leave cpu now current.id current.ret_link (change s.current exited s)

unfoldable pub sys_return : ℕ → ℕ × ℕ → Bytes → System → Option Left
sys_return cpu now values s = do
  current ← look s s.current
  exit cpu now (change s.current (λ c. record c { result = some values }) s)
