-- ===== src/Sync/WaitQueue.antt =====
-- `WaitQueue` of kernel/src/sync/wait_queue.rs.
pub mod Fifo
use faastr.Common.{ℕ, suc, Bool, true, false, List, [], ◌∷◌, ◌++◌, Option, none, some, length}
use faastr.Context.{Context}
use faastr.Sync.WaitCondition.{WaitCondition, notify}

pub record WaitQueue (T : Type 0) : Type 0 where
  pub inner : List T
  pub condition : WaitCondition

module _ {T : Type 0} where
  abbrev pub new : WaitQueue T
  new = record { inner = []; condition = [] }

  abbrev pub is_empty : WaitQueue T → Bool
  is_empty q = elim q.inner [ [] ↦ true | _ ∷ _ ↦ false ]

  -- the length behind the value that is sent, with the queue and the contexts
  pub send : T → WaitQueue T → List Context → ℕ × WaitQueue T × List Context
  send value q contexts =
      let inner = q.inner ++ value ∷ [] in
      let (_, condition, contexts') = notify q.condition contexts in
      (length inner, record { inner = inner; condition = condition }, contexts')

  pub send_from : List T → WaitQueue T → List Context → ℕ × WaitQueue T × List Context
  send_from buf q contexts =
      let inner = q.inner ++ buf in
      let (_, condition, contexts') = notify q.condition contexts in
      (length inner, record { inner = inner; condition = condition }, contexts')

  -- One round of the loop of `receive`: `none` where the caller goes on to wait.
  pub receive : WaitQueue T → Option (T × WaitQueue T)
  receive q = elim q.inner [ [] ↦ none | value ∷ rest ↦ some (value, record q { inner = rest }) ]

  -- The loop of `receive_into` on what is left of the buffer: how many values it writes, the
  -- buffer, and what stays in the queue.
  pub fill : List T → List T → ℕ × List T × List T
  fill [] inner = (0, [], inner)
  fill (b ∷ bs) [] = (0, b ∷ bs, [])
  fill (b ∷ bs) (value ∷ inner) = let (n, buf, left) = fill bs inner in (suc n, value ∷ buf, left)

  abbrev pub filled : WaitQueue T → ℕ × List T × List T → ℕ × List T × WaitQueue T
  filled q (n, buf, left) = (n, buf, record q { inner = left })

  -- `none` where the caller goes on to wait
  pub receive_into : List T → Bool → WaitQueue T → Option (ℕ × List T × WaitQueue T)
  receive_into [] block q = some (0, [], q)
  receive_into (b ∷ bs) false q = some (filled q (fill (b ∷ bs) q.inner))
  receive_into (b ∷ bs) true q = elim (receive q) [
    | none ↦ none
    | some (value, q') ↦
        let (n, buf, q'') = filled q' (fill bs q'.inner) in some (suc n, value ∷ buf, q'')
  ]
