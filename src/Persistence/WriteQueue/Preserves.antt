-- ===== src/Persistence/WriteQueue/Preserves.antt =====
-- A property of the sink's state that each batch keeps is kept by every operation of the queue:
-- src/infrastructure/persistence/write-queue.ts.
use pi_smart_router.Prelude.{
  Bool, true, false, not, Option, none, some, List, [], ◌∷◌, ◌++◌, length, leb, without_first,
  if-elim,
}
use pi_smart_router.Persistence.WriteQueue.{
  WriteOp, is_durable, Run, flush_batch, flush, drop_oldest, make_room, push, then_push, returned,
  enqueue_closed, enqueue,
}

module _ {T D O S : Type 0} (sink : S → List (WriteOp T D O) → Bool × S) (P : S → Type 0)
    (kept : (s : S) (batch : List (WriteOp T D O)) → P s → P (sink s batch).1) where
  -- The property after an operation of the queue.
  After : Bool × Run sink → Type 0
  After x = P x.1.1

  flush_batch-After :
      (ops : List (WriteOp T D O)) (r : Run sink) → P r.1 → After (flush_batch sink ops r)
  unfolding flush_batch After
  flush_batch-After [] r h = h
  flush_batch-After (op ∷ rest) (q, s) h = kept s (op ∷ rest) h

  pub flush_kept : (r : Run sink) → P r.1 → P (flush sink r).1.1
  unfolding flush After
  flush_kept (q, s) h = flush_batch-After q.pending (q, s) h

  drop_oldest-After :
      (left : Option (List (WriteOp T D O))) (r : Run sink)
      → P r.1
      → After (drop_oldest sink left r)
  unfolding drop_oldest After
  drop_oldest-After none r h = flush_kept r h
  drop_oldest-After (some left) (q, s) h = h

  make_room-After : (op : WriteOp T D O) (r : Run sink) → P r.1 → After (make_room sink op r)
  unfolding make_room After
  make_room-After op (q, s) h =
      if-elim After (not (leb q.capacity (length q.pending))) _ _ (λ room. h)
        (λ full.
          if-elim After (is_durable op) _ _ (λ durable. flush_kept (q, s) h)
            (λ lossy.
              drop_oldest-After (without_first (λ queued. not (is_durable queued)) q.pending) (q, s)
                h))

  push-After : (op : WriteOp T D O) (r : Run sink) → P r.1 → After (push sink op r)
  unfolding push After
  push-After op (q, s) h =
      if-elim After (leb q.max_batch_size (length (q.pending ++ (op ∷ [])))) _ _
        (λ burst. flush_kept _ h) (λ small. h)

  returned_kept : (x : Bool × Run sink) → After x → P (returned sink x).1.1
  unfolding After
  returned_kept (true, r) h = h
  returned_kept (false, r) h = h

  then_push-After :
      (op : WriteOp T D O) (x : Bool × Run sink) → After x → After (then_push sink op x)
  unfolding After
  then_push-After op (true, r) h = push-After op r h
  then_push-After op (false, r) h = h

  enqueue_closed-After :
      (op : WriteOp T D O) (r : Run sink) → P r.1 → After (enqueue_closed sink op r)
  unfolding enqueue_closed After
  enqueue_closed-After op (q, s) h =
      if-elim After (not (is_durable op)) _ _ (λ lossy. h) (λ durable. kept s (op ∷ []) h)

  pub enqueue_kept : (op : WriteOp T D O) (r : Run sink) → P r.1 → P (enqueue sink op r).1.1
  unfolding enqueue After
  enqueue_kept op (q, s) h =
      if-elim (λ (x : Option Bool × Run sink). P x.1.1) q.closed _ _
        (λ closed. enqueue_closed-After op (q, s) h)
        (λ open_.
          returned_kept _
            (then_push-After op (make_room sink op (q, s)) (make_room-After op (q, s) h)))
