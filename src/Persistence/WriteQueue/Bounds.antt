-- ===== src/Persistence/WriteQueue/Bounds.antt =====
-- The size of a write queue: src/infrastructure/persistence/write-queue.ts.
use pi_smart_router.Prelude.{
  ℕ, ◌+◌, ◌≡◌, ◌≤◌, ◌<◌, refl, subst, ap, ◌∙◌, Bool, true, false, not, Option, none, some, List, [],
  ◌∷◌, ◌++◌, length, length-append, get_or, without_first, length-without_first, leb, arith,
  if-elim,
}
use pi_smart_router.Persistence.WriteQueue.{
  WriteOp, is_durable, BoundedWriteQueue, WriteQueueOptions, Call, enqueue_call, flush_call,
  close_call, tick, create_write_queue, Run, counted, flush_batch, flush, drop_oldest, make_room,
  push, then_push, accepted, returned, enqueue_closed, enqueue, close, step, run,
}

bound_moved : {a b c : ℕ} → a ≤ b → b ≡ c → a ≤ c
bound_moved {a = a} h e = subst (λ n. a ≤ n) e h

module _ {T D O S : Type 0} (sink : S → List (WriteOp T D O) → Bool × S) where
  -- Fewer operations wait than a batch has, and no more than the capacity.
  Small : BoundedWriteQueue T D O → Type 0
  Small q = (length q.pending < q.max_batch_size) × (length q.pending ≤ q.capacity)

  -- A step keeps the limits, and the queue small if a batch and the capacity are positive.
  Sized : Run sink → Run sink → Type 0
  Sized r after =
      (after.0.max_batch_size ≡ r.0.max_batch_size)
      × (after.0.capacity ≡ r.0.capacity)
      × (0 < r.0.max_batch_size → 0 < r.0.capacity → Small r.0 → Small after.0)

  -- What a flush leaves, whether or not it throws.
  Emptied : Run sink → Run sink → Type 0
  Emptied r after =
      (after.0.max_batch_size ≡ r.0.max_batch_size)
      × (after.0.capacity ≡ r.0.capacity)
      × (length after.0.pending ≡ 0)

  counted-Emptied :
      (ok : Bool) (n : ℕ) (q : BoundedWriteQueue T D O) (s t : S)
      → Emptied (q, s) (counted sink ok n (record q { pending = [] }), t)
  unfolding Emptied
  counted-Emptied true n q s t = (refl, refl, refl)
  counted-Emptied false n q s t = (refl, refl, refl)

  flush_batch-Emptied :
      (ops : List (WriteOp T D O)) (r : Run sink)
      → r.0.pending ≡ ops
      → Emptied r (flush_batch sink ops r).1
  unfolding flush_batch Emptied
  flush_batch-Emptied [] (q, s) e = (refl, refl, ap length e)
  flush_batch-Emptied (op ∷ rest) (q, s) e =
      counted-Emptied (sink s (op ∷ rest)).0 (length (op ∷ rest)) q s (sink s (op ∷ rest)).1

  flush-Emptied : (r : Run sink) → Emptied r (flush sink r).1
  unfolding flush
  flush-Emptied (q, s) = flush_batch-Emptied q.pending (q, s) refl

  flush-Sized : (r : Run sink) → Sized r (flush sink r).1
  unfolding Emptied Sized Small
  flush-Sized r = let (m, c, e) = flush-Emptied r in (m, c, λ h k s. ground arith)

  -- Room for one more operation.
  Roomy : Run sink → Run sink → Type 0
  Roomy r after =
      (after.0.max_batch_size ≡ r.0.max_batch_size)
      × (after.0.capacity ≡ r.0.capacity)
      × (0 < r.0.max_batch_size
          → 0 < r.0.capacity
          → Small r.0
          → Small after.0 × (length after.0.pending < after.0.capacity))

  flush-Roomy : (r : Run sink) → Roomy r (flush sink r).1
  unfolding Emptied Roomy Small
  flush-Roomy r = let (m, c, e) = flush-Emptied r in (m, c, λ h k s. ground arith)

  drop_oldest-Roomy :
      (kept : Option (List (WriteOp T D O))) (r : Run sink)
      → without_first (λ queued. not (is_durable queued)) r.0.pending ≡ kept
      → Roomy r (drop_oldest sink kept r).1
  unfolding drop_oldest Roomy Small
  drop_oldest-Roomy none r e = flush-Roomy r
  drop_oldest-Roomy (some kept) (q, s) e =
      let shorter = length-without_first _ q.pending kept e in
      (refl, refl, λ h k small. ground arith)

  make_room-Roomy : (op : WriteOp T D O) (r : Run sink) → Roomy r (make_room sink op r).1
  unfolding make_room Roomy Small
  make_room-Roomy op (q, s) =
      if-elim (λ (x : Bool × Run sink). Roomy (q, s) x.1) (not (leb q.capacity (length q.pending)))
        _ _ (λ room. (refl, refl, λ h k small. (small, ground arith)))
        (λ full.
          if-elim (λ (x : Bool × Run sink). Roomy (q, s) x.1) (is_durable op) _ _
            (λ durable. flush-Roomy (q, s)) (λ lossy. drop_oldest-Roomy _ (q, s) refl))

  -- A step after room was made.
  Pushed : Run sink → Run sink → Type 0
  Pushed r after =
      (after.0.max_batch_size ≡ r.0.max_batch_size)
      × (after.0.capacity ≡ r.0.capacity)
      × (0 < r.0.max_batch_size → length r.0.pending < r.0.capacity → Small after.0)

  push-Pushed : (op : WriteOp T D O) (r : Run sink) → Pushed r (push sink op r).1
  unfolding push Pushed Emptied Small
  push-Pushed op (q, s) =
      let pushed : BoundedWriteQueue T D O = record q {
        pending = q.pending ++ (op ∷ []);
        enqueued_count = q.enqueued_count + 1;
      } in
      let longer = length-append q.pending (op ∷ []) in
      if-elim (λ (x : Bool × Run sink). Pushed (q, s) x.1)
        (leb q.max_batch_size (length (q.pending ++ (op ∷ [])))) _ _
        (λ burst. let (m, c, e) = flush-Emptied (pushed, s) in (m, c, λ h room. ground arith))
        (λ small. (refl, refl, λ h room. ground (arith, longer)))

  then_push-Sized :
      (op : WriteOp T D O) (r : Run sink) (x : Bool × Run sink)
      → Roomy r x.1
      → Sized r (then_push sink op x).1
  unfolding Roomy Sized Pushed
  then_push-Sized op r (false, after) (m, c, fits) = (m, c, λ h k small. (fits h k small).0)
  then_push-Sized op r (true, after) (m, c, fits) =
      let (n, d, small_after) = push-Pushed op after in
      (n ∙ m, d ∙ c, λ h k small. small_after (rw m h) (fits h k small).1)

  returned-Sized : (r : Run sink) (x : Bool × Run sink) → Sized r x.1 → Sized r (returned sink x).1
  returned-Sized r (true, after) h = h
  returned-Sized r (false, after) h = h

  closed_counted :
      (ok : Bool) (q : BoundedWriteQueue T D O) (s t : S) → Sized (q, s) (counted sink ok 1 q, t)
  unfolding Sized Small
  closed_counted true q s t = (refl, refl, λ h k small. small)
  closed_counted false q s t = (refl, refl, λ h k small. small)

  enqueue-Sized : (op : WriteOp T D O) (r : Run sink) → Sized r (enqueue sink op r).1
  unfolding enqueue enqueue_closed Sized Small
  enqueue-Sized op (q, s) =
      if-elim (λ (x : Option Bool × Run sink). Sized (q, s) x.1) q.closed _ _
        (λ closed.
          if-elim (λ (x : Bool × Run sink). Sized (q, s) (accepted sink x).1) (not (is_durable op))
            _ _ (λ lossy. (refl, refl, λ h k small. small))
            (λ durable. closed_counted (sink s (op ∷ [])).0 q s (sink s (op ∷ [])).1))
        (λ open_.
          returned-Sized (q, s) _
            (then_push-Sized op (q, s) (make_room sink op (q, s)) (make_room-Roomy op (q, s))))

  close-Sized : (r : Run sink) → Sized r (close sink r).1
  unfolding close Sized Small Emptied
  close-Sized (q, s) =
      if-elim (λ (x : Bool × Run sink). Sized (q, s) x.1) q.closed _ _
        (λ closed. (refl, refl, λ h k small. small))
        (λ open_. flush-Sized (record q { closed = true }, s))

  step-Sized : (c : Call T D O) (r : Run sink) → Sized r (step sink c r)
  unfolding step
  step-Sized (enqueue_call op) r = enqueue-Sized op r
  step-Sized flush_call r = flush-Sized r
  step-Sized close_call r = close-Sized r
  step-Sized tick r = flush-Sized r

  run-Sized : (cs : List (Call T D O)) (r : Run sink) → Sized r (run sink cs r)
  unfolding run Sized
  run-Sized [] r = (refl, refl, λ h k small. small)
  run-Sized (c ∷ cs) r =
      let (m, c_same, one) = step-Sized c r in
      let (n, d, all) = run-Sized cs (step sink c r) in
      (n ∙ m, d ∙ c_same, λ h k small. all (rw m h) (rw c_same k) (one h k small))

  -- Where the batch size and the capacity are positive, fewer operations than the batch size and no
  -- more than the capacity are pending after any calls on a new queue, with any sink, one that throws
  -- included.
  pub pending_bounded :
      (options : WriteQueueOptions) (s : S) (cs : List (Call T D O))
      → 0 < get_or options.max_batch_size 64
      → 0 < get_or options.capacity 1024
      → let q = (run sink cs (create_write_queue options, s)).0 in
        (length q.pending < get_or options.max_batch_size 64)
        × (length q.pending ≤ get_or options.capacity 1024)
  unfolding create_write_queue Sized Small
  pending_bounded options s cs h k =
      let (m, c, all) = run-Sized cs (create_write_queue options, s) in
      let (few, fit) = all h k (ground arith) in (bound_moved few m, bound_moved fit c)
