-- ===== src/Persistence/WriteQueue/Totals.antt =====
-- The counters of a write queue whose sink does not throw:
-- src/infrastructure/persistence/write-queue.ts.
use pi_smart_router.Prelude.{
  ℕ, ◌+◌, ◌≡◌, suc, refl, ap, ◌∙◌, Bool, true, false, not, Option, none, some, List, [], ◌∷◌, ◌++◌,
  length, length-append, without_first, length-without_first, leb, arith, if-elim,
}
use pi_smart_router.Persistence.WriteQueue.{
  WriteOp, is_durable, BoundedWriteQueue, WriteQueueOptions, Call, enqueue_call, flush_call,
  close_call, tick, create_write_queue, Run, counted, flush_batch, flush, drop_oldest, make_room,
  push, then_push, accepted, returned, enqueue_closed, enqueue, close, step, run, stats,
}
use pi_smart_router.Persistence.WriteQueue.Contents.{requested}

module _ {T D O S : Type 0} (sink : S → List (WriteOp T D O) → Bool × S)
    (returns : (s : S) (batch : List (WriteOp T D O)) → (sink s batch).0 ≡ true) where
  -- Every operation is flushed, dropped or pending.
  total : Run sink → ℕ
  total r = r.0.flushed_count + r.0.dropped_count + length r.0.pending

  Same : ℕ → Bool × Run sink → Type 0
  Same n x = (x.0 ≡ true) × (total x.1 ≡ n)

  total-counted :
      (ok : Bool) (n : ℕ) (q : BoundedWriteQueue T D O) (s : S)
      → ok ≡ true
      → total (counted sink ok n q, s) ≡ total (q, s) + n
  unfolding total
  total-counted true n q s e = omega arith
  total-counted false n q s e = cc

  flush_batch-Same :
      (ops : List (WriteOp T D O)) (r : Run sink)
      → r.0.pending ≡ ops
      → Same (total r) (flush_batch sink ops r)
  unfolding flush_batch Same total
  flush_batch-Same [] (q, s) e = (refl, refl)
  flush_batch-Same (op ∷ rest) (q, s) e =
      let ok = returns s (op ∷ rest) in
      let emptied : BoundedWriteQueue T D O = record q { pending = [] } in
      let sum = total-counted _ (length (op ∷ rest)) emptied (sink s (op ∷ rest)).1 ok in
      let size = ap length e in (ok, omega (arith, sum, size))

  flush-Same : (r : Run sink) → Same (total r) (flush sink r)
  unfolding flush
  flush-Same (q, s) = flush_batch-Same q.pending (q, s) refl

  drop_oldest-Same :
      (kept : Option (List (WriteOp T D O))) (r : Run sink)
      → without_first (λ queued. not (is_durable queued)) r.0.pending ≡ kept
      → Same (total r) (drop_oldest sink kept r)
  unfolding drop_oldest Same total
  drop_oldest-Same none r e = flush-Same r
  drop_oldest-Same (some kept) (q, s) e =
      let shorter = length-without_first _ q.pending kept e in (refl, omega (arith, shorter))

  make_room-Same : (op : WriteOp T D O) (r : Run sink) → Same (total r) (make_room sink op r)
  unfolding make_room Same
  make_room-Same op (q, s) =
      if-elim (Same (total (q, s))) (not (leb q.capacity (length q.pending))) _ _
        (λ room. (refl, refl))
        (λ full.
          if-elim (Same (total (q, s))) (is_durable op) _ _ (λ durable. flush-Same (q, s))
            (λ lossy. drop_oldest-Same _ (q, s) refl))

  push-Same : (op : WriteOp T D O) (r : Run sink) → Same (suc (total r)) (push sink op r)
  unfolding push Same total
  push-Same op (q, s) =
      let pushed : BoundedWriteQueue T D O = record q {
        pending = q.pending ++ (op ∷ []);
        enqueued_count = q.enqueued_count + 1;
      } in
      let longer = length-append q.pending (op ∷ []) in
      let (ok, same) = flush-Same (pushed, s) in
      if-elim (Same (suc (total (q, s)))) (leb q.max_batch_size (length (q.pending ++ (op ∷ [])))) _
        _ (λ burst. (ok, omega (arith, same, longer))) (λ small. (refl, omega (arith, longer)))

  returned-Same :
      (op : WriteOp T D O) (n : ℕ) (x : Bool × Run sink)
      → Same n x
      → total (returned sink (then_push sink op x)).1 ≡ suc n
  unfolding Same
  returned-Same op n (false, r) (ok, same) = cc
  returned-Same op n (true, r) (ok, same) =
      let (pushed, next) = push-Same op r in returned_total (push sink op r) (next ∙ ap suc same)
    where
      returned_total : (y : Bool × Run sink) → total y.1 ≡ suc n → total (returned sink y).1 ≡ suc n
      returned_total (true, r) h = h
      returned_total (false, r) h = h

  enqueue-total : (op : WriteOp T D O) (r : Run sink) → total (enqueue sink op r).1 ≡ suc (total r)
  unfolding enqueue enqueue_closed total
  enqueue-total op (q, s) =
      if-elim (λ (x : Option Bool × Run sink). total x.1 ≡ suc (total (q, s))) q.closed _ _
        (λ closed.
          if-elim (λ (x : Bool × Run sink). total (accepted sink x).1 ≡ suc (total (q, s)))
            (not (is_durable op)) _ _ (λ lossy. omega arith)
            (λ durable.
              let sum = total-counted _ 1 q (sink s (op ∷ [])).1 (returns s (op ∷ [])) in
              omega (arith, sum)))
        (λ open_. returned-Same op _ (make_room sink op (q, s)) (make_room-Same op (q, s)))

  close-total : (r : Run sink) → total (close sink r).1 ≡ total r
  unfolding close total Same
  close-total (q, s) =
      if-elim (λ (x : Bool × Run sink). total x.1 ≡ total (q, s)) q.closed _ _ (λ closed. refl)
        (λ open_. let (ok, same) = flush-Same (record q { closed = true }, s) in same)

  step-total :
      (c : Call T D O) (r : Run sink)
      → total (step sink c r) ≡ total r + length (requested (c ∷ []))
  unfolding step Same
  step-total (enqueue_call op) r = let h = enqueue-total op r in omega (arith, h)
  step-total flush_call r = let (ok, h) = flush-Same r in omega (arith, h)
  step-total close_call r = let h = close-total r in omega (arith, h)
  step-total tick r = let (ok, h) = flush-Same r in omega (arith, h)

  length-requested :
      (c : Call T D O) (cs : List (Call T D O))
      → length (requested (c ∷ cs)) ≡ length (requested (c ∷ [])) + length (requested cs)
  length-requested (enqueue_call op) cs = omega arith
  length-requested flush_call cs = omega arith
  length-requested close_call cs = omega arith
  length-requested tick cs = omega arith

  run-total :
      (cs : List (Call T D O)) (r : Run sink)
      → total (run sink cs r) ≡ total r + length (requested cs)
  unfolding run
  run-total [] r = omega arith
  run-total (c ∷ cs) r =
      let here = step-total c r in
      let later = run-total cs (step sink c r) in
      let split = length-requested c cs in omega (arith, here, later, split)

  -- With a sink that does not throw, whatever is called on a new queue, the numbers of flushed,
  -- dropped and pending operations add up to the number of operations enqueued.
  pub run-accounted :
      (options : WriteQueueOptions) (s : S) (cs : List (Call T D O))
      → let q = (run sink cs (create_write_queue options, s)).0 in
        (stats q).flushed + (stats q).dropped + length q.pending ≡ length (requested cs)
  unfolding create_write_queue total stats
  run-accounted options s cs =
      let h = run-total cs (create_write_queue options, s) in omega (arith, h)
