-- ===== src/Sync/WaitQueue/Fifo.antt =====
-- `WaitQueue` hands out the values in the order in which they are sent.
use faastr.Common.{
  ℕ, zero, suc, ◌≡◌, inl, inr, refl, sym, ap, ◌∙◌, Bool, true, false, List, [], ◌∷◌, ◌++◌, Option,
  none, some, arith, length, take, drop, min, append_assoc, append-nil, length-take,
  take-append-drop, if◌then◌else◌, Bool-cases,
}
use faastr.Context.{Context}
use faastr.Sync.WaitCondition.{WaitCondition}
use faastr.Sync.WaitQueue.{WaitQueue, fill, filled}
use faastr.Sync.WaitQueue

-- The queue, the contexts, and all values received so far.
pub record World (T : Type 0) : Type 0 where
  pub queue : WaitQueue T
  pub contexts : List Context
  pub got : List T

-- An operation of a sender or of a receiver.
pub data Op (T : Type 0) : Type 0 where
  send : T → Op T
  send_from : List T → Op T
  receive : Op T
  receive_into : List T → Bool → Op T

module _ {T : Type 0} where
  drop-nil : (n : ℕ) → drop {A = T} n [] ≡ []
  drop-nil zero = refl
  drop-nil (suc n) = refl

  take-append : (xs ys : List T) → take (length xs) (xs ++ ys) ≡ xs
  take-append [] ys = refl
  take-append (x ∷ xs) ys = ap (◌∷◌ x) (take-append xs ys)

  triple :
      {A : Type 0} {m n : ℕ} {xs ys : List T} {a b : A}
      → m ≡ n
      → xs ≡ ys
      → a ≡ b
      → ◌≡◌ {A = ℕ × List T × A} (m, xs, a) (n, ys, b)
  triple p q r = λ i. (p i, q i, r i)

  fill_lem :
      (buf inner : List T)
      → fill buf inner ≡ (
        min (length buf) (length inner),
        take (length buf) inner ++ drop (length inner) buf,
        drop (length buf) inner,
      )
  unfolding fill
  fill_lem [] inner = triple (omega arith) (sym (drop-nil (length inner))) refl
  fill_lem (b ∷ bs) [] = triple (omega arith) refl refl
  fill_lem (b ∷ bs) (v ∷ vs) =
      ap (λ r. (suc r.0, v ∷ r.1, r.2)) (fill_lem bs vs) ∙ triple (omega arith) refl refl

  -- what a call of `receive_into` returns when it does not wait
  abbrev received : List T → WaitQueue T → ℕ × List T × WaitQueue T
  received buf q = (
    min (length buf) (length q.inner),
    take (length buf) q.inner ++ drop (length q.inner) buf,
    record q { inner = drop (length buf) q.inner },
  )

  -- a blocking call on an empty queue, with room in the buffer
  abbrev pub waits : List T → Bool → List T → Bool
  waits (b ∷ bs) true [] = true
  waits _ _ _ = false

  blocking :
      (b : T) (bs inner : List T) (condition : WaitCondition)
      → let q : WaitQueue T = record { inner = inner; condition = condition } in
        WaitQueue.receive_into (b ∷ bs) true q
        ≡ (if waits (b ∷ bs) true inner then none else some (received (b ∷ bs) q))
  unfolding WaitQueue.receive_into WaitQueue.receive
  blocking b bs [] condition = refl
  blocking b bs (v ∷ vs) condition =
      ap (λ r. some (suc r.0, v ∷ r.1, record { inner = r.2; condition = condition }))
        (fill_lem bs vs)
      ∙ ap some (triple (omega arith) refl refl)

  -- A blocking call on an empty queue, with room in the buffer, waits, and no other call does. Any
  -- other call writes as many values as there are, up to the length of the buffer, in their order,
  -- to the front of the buffer, leaves the rest of the buffer alone, and keeps the other values.
  pub receive_into_lem :
      (buf : List T) (block : Bool) (q : WaitQueue T)
      → WaitQueue.receive_into buf block q ≡ (
          if waits buf block q.inner
          then none
          else some (
            min (length buf) (length q.inner),
            take (length buf) q.inner ++ drop (length q.inner) buf,
            record q { inner = drop (length buf) q.inner },
          ))
  unfolding WaitQueue.receive_into
  receive_into_lem [] true q = ap some (triple (omega arith) (sym (drop-nil (length q.inner))) refl)
  receive_into_lem [] false q =
      ap some (triple (omega arith) (sym (drop-nil (length q.inner))) refl)
  receive_into_lem (b ∷ bs) false q = ap (λ r. some (filled q r)) (fill_lem (b ∷ bs) q.inner)
  receive_into_lem (b ∷ bs) true q = blocking b bs q.inner q.condition

  -- The values that a sequence of operations sends.
  abbrev pub sent : List (Op T) → List T
  sent [] = []
  sent (Op.send v ∷ ops) = v ∷ sent ops
  sent (Op.send_from vs ∷ ops) = vs ++ sent ops
  sent (Op.receive ∷ ops) = sent ops
  sent (Op.receive_into _ _ ∷ ops) = sent ops

  -- An operation that waits changes nothing here: it is tried again later.
  abbrev pub took : World T → Option (T × WaitQueue T) → World T
  took w none = w
  took w (some (v, q)) = record w { queue = q; got = w.got ++ v ∷ [] }

  abbrev pub took_into : World T → Option (ℕ × List T × WaitQueue T) → World T
  took_into w none = w
  took_into w (some (n, buf, q)) = record w { queue = q; got = w.got ++ take n buf }

  unfoldable pub step : Op T → World T → World T
  step (Op.send v) w =
      let (_, q, cs) = WaitQueue.send v w.queue w.contexts in record w { queue = q; contexts = cs }
  step (Op.send_from vs) w =
      let (_, q, cs) = WaitQueue.send_from vs w.queue w.contexts in
      record w { queue = q; contexts = cs }
  step Op.receive w = took w (WaitQueue.receive w.queue)
  step (Op.receive_into buf block) w = took_into w (WaitQueue.receive_into buf block w.queue)

  unfoldable pub run : List (Op T) → World T → World T
  run [] w = w
  run (op ∷ ops) w = run ops (step op w)

  -- received and still queued, in this order.
  abbrev pub all_values : World T → List T
  all_values w = w.got ++ w.queue.inner

  receive_keeps :
      (w : World T) (inner : List T) (condition : WaitCondition)
      → let q : WaitQueue T = record { inner = inner; condition = condition } in
        all_values (took (record w { queue = q }) (WaitQueue.receive q)) ≡ w.got ++ inner
  unfolding WaitQueue.receive
  receive_keeps w [] condition = refl
  receive_keeps w (v ∷ vs) condition = append_assoc w.got (v ∷ []) vs

  front :
      (buf inner : List T)
      → take (min (length buf) (length inner)) (take (length buf) inner ++ drop (length inner) buf)
        ≡ take (length buf) inner
  front buf inner =
      ap (λ n. take n (take (length buf) inner ++ drop (length inner) buf))
        (sym (length-take (length buf) inner))
      ∙ take-append (take (length buf) inner) (drop (length inner) buf)

  step_lem : (op : Op T) (w : World T) → all_values (step op w) ≡ all_values w ++ sent (op ∷ [])
  unfolding step WaitQueue.send WaitQueue.send_from
  step_lem (Op.send v) w = sym (append_assoc w.got w.queue.inner (v ∷ []))
  step_lem (Op.send_from vs) w =
      sym (append_assoc w.got w.queue.inner vs) ∙ ap (λ z. all_values w ++ z) (sym (append-nil vs))
  step_lem Op.receive w =
      receive_keeps w w.queue.inner w.queue.condition ∙ sym (append-nil (all_values w))
  step_lem (Op.receive_into buf block) w =
      ap (λ r. all_values (took_into w r)) (receive_into_lem buf block w.queue)
      ∙ elim (Bool-cases (waits buf block w.queue.inner)) [
        | inl waits ↦ rw waits (sym (append-nil (all_values w)))
        | inr goes ↦ rw goes (
            ap (λ z. (w.got ++ z) ++ drop (length buf) w.queue.inner) (front buf w.queue.inner)
            ∙ append_assoc w.got (take (length buf) w.queue.inner) (drop (length buf) w.queue.inner)
            ∙ ap (λ z. w.got ++ z) (take-append-drop (length buf) w.queue.inner)
            ∙ sym (append-nil (all_values w)))
      ]

  sent-cons : (op : Op T) (ops : List (Op T)) → sent (op ∷ []) ++ sent ops ≡ sent (op ∷ ops)
  sent-cons (Op.send v) ops = refl
  sent-cons (Op.send_from vs) ops = ap (λ z. z ++ sent ops) (append-nil vs)
  sent-cons Op.receive ops = refl
  sent-cons (Op.receive_into _ _) ops = refl

  -- Whatever senders and receivers do, in any order: what is received, followed by what is still
  -- queued, is what was there before followed by what is sent; no value is lost, doubled or
  -- overtaken.
  pub run_lem :
      (ops : List (Op T)) (w : World T) → all_values (run ops w) ≡ all_values w ++ sent ops
  unfolding run
  run_lem [] w = sym (append-nil (all_values w))
  run_lem (op ∷ ops) w =
      run_lem ops (step op w)
      ∙ ap (λ z. z ++ sent ops) (step_lem op w)
      ∙ append_assoc (all_values w) (sent (op ∷ [])) (sent ops)
      ∙ ap (λ z. all_values w ++ z) (sent-cons op ops)
