-- ===== src/Sync/Tests.antt =====
-- Runs of the wait conditions and the wait queues.
use faastr.Common.{ℕ, ◌≡◌, refl, true, List, [], ◌∷◌, ◌++◌, none, some}
use faastr.Context.{Status, Context, new_context}
use faastr.Context.ContextList.{get}
use faastr.Sync.WaitCondition.{notify}
use faastr.Sync.WaitCondition.Wakeups.{notify_lem}
use faastr.Sync.WaitQueue.{WaitQueue, receive_into}
use faastr.Sync.WaitQueue.Fifo.{World, Op, sent, run, all_values, receive_into_lem, run_lem}

abbrev waiter : Context
waiter = record new_context { id = 2; status = Status.blocked; cpu_id = some 0; wake = none }

abbrev runner : Context
runner = record new_context { id = 3; status = Status.running; cpu_id = some 0; wake = none }

abbrev two_contexts : List Context
two_contexts = waiter ∷ runner ∷ []

notify_example :
    (contexts' : List Context) × (notify (3 ∷ 2 ∷ []) two_contexts ≡ (2, [], contexts'))
    × (get 2 contexts' ≡ some (record waiter { status = Status.runnable }))
notify_example = notify_lem (3 ∷ 2 ∷ []) two_contexts 2 refl

abbrev two_zeroes : List ℕ
two_zeroes = 0 ∷ 0 ∷ []

abbrev queue : WaitQueue ℕ
queue = record { inner = 4 ∷ 5 ∷ 6 ∷ []; condition = 2 ∷ [] }

receive_into_example :
    receive_into two_zeroes true queue ≡ some (2, 4 ∷ 5 ∷ [], record queue { inner = 6 ∷ [] })
receive_into_example = receive_into_lem two_zeroes true queue

abbrev world : World ℕ
world = record { queue = queue; contexts = two_contexts; got = 3 ∷ [] }

abbrev ops : List (Op ℕ)
ops = Op.send 7 ∷ Op.receive ∷ Op.receive_into two_zeroes true ∷ Op.send_from (8 ∷ 9 ∷ []) ∷ []

run_example : all_values (run ops world) ≡ all_values world ++ sent ops
run_example = run_lem ops world
