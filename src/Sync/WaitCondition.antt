-- ===== src/Sync/WaitCondition.antt =====
-- `WaitCondition` of kernel/src/sync/wait_condition.rs. Its contexts are shared with the list of
-- contexts, so it holds their identifiers, and its operations change the contexts in that list.
pub mod Wakeups
use faastr.Common.{
  ℕ, suc, Bool, true, false, List, [], ◌∷◌, ◌++◌, Option, none, some, map, ◌==◌, if◌then◌else◌,
  length,
}
use faastr.Context.{Context, block, unblock}
use faastr.Context.ContextList.{get}

abbrev pub WaitCondition : Type 0
WaitCondition = List ℕ

abbrev pub new : WaitCondition
new = []

-- a method of the context with this identifier
pub change : (Context → Bool × Context) → ℕ → Context → Context
change method id c = if c.id == id then (method c).1 else c

-- the loop of `notify`, from the last context to the first
pub unblock_all : WaitCondition → List Context → List Context
unblock_all [] contexts = contexts
unblock_all (id ∷ ids) contexts = map (change unblock id) (unblock_all ids contexts)

-- `notify`: how many contexts waited, with the condition and the contexts afterwards
pub notify : WaitCondition → List Context → ℕ × WaitCondition × List Context
notify condition contexts = (length condition, [], unblock_all condition contexts)

-- `wait` up to its switch, in the context `current`; `none` is the panic outside of a context
pub start_wait : ℕ → WaitCondition → List Context → Option (WaitCondition × List Context)
start_wait current condition contexts = elim (get current contexts) [
  | none ↦ none
  | some _ ↦ some (condition ++ current ∷ [], map (change block current) contexts)
]

-- `wait` behind its switch: whether it was notified, with the condition afterwards
pub end_wait : ℕ → WaitCondition → Bool × WaitCondition
end_wait current [] = (true, [])
end_wait current (id ∷ ids) =
    let later = end_wait current ids in
    if id == current then (false, ids) else (later.0, id ∷ later.1)
