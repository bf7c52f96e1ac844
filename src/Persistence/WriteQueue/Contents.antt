-- ===== src/Persistence/WriteQueue/Contents.antt =====
-- What a write queue with a sink that does not throw has written and still holds:
-- src/infrastructure/persistence/write-queue.ts.
use pi_smart_router.Prelude.{
  ℕ, ◌+◌, ◌≡◌, refl, sym, ap, ◌∙◌, Bool, true, false, not, Option, none, some, List, [], ◌∷◌, ◌++◌,
  length, filter, filter-append, without_first, filter-without_first, leb, arith, if-elim,
  append_assoc, append-nil,
}
use pi_smart_router.Persistence.WriteQueue.{
  WriteOp, is_durable, BoundedWriteQueue, WriteQueueOptions, Call, enqueue_call, flush_call,
  close_call, tick, create_write_queue, Run, counted, flush, make_room, push, then_push, accepted,
  returned, drop_oldest, flush_batch, enqueue_closed, enqueue, close, step, run,
}

module _ {T D O : Type 0} where
  abbrev pub durable_ops : List (WriteOp T D O) → List (WriteOp T D O)
  durable_ops ops = filter is_durable ops

  -- The operations that a list of calls enqueues.
  abbrev pub requested : List (Call T D O) → List (WriteOp T D O)
  requested [] = []
  requested (enqueue_call op ∷ cs) = op ∷ requested cs
  requested (flush_call ∷ cs) = requested cs
  requested (close_call ∷ cs) = requested cs
  requested (tick ∷ cs) = requested cs

  -- A closed queue holds nothing.
  abbrev pub Drained : BoundedWriteQueue T D O → Type 0
  Drained q = q.closed ≡ true → q.pending ≡ []

module _ {T D O S : Type 0} (sink : S → List (WriteOp T D O) → Bool × S)
    (written : S → List (WriteOp T D O))
    (returns : (s : S) (batch : List (WriteOp T D O)) → (sink s batch).0 ≡ true)
    (writes : (s : S) (batch : List (WriteOp T D O))
      → written (sink s batch).1 ≡ written s ++ batch) where
  abbrev contents : Run sink → List (WriteOp T D O)
  contents r = written r.1 ++ r.0.pending

  -- A flush writes what is pending.
  Flushed : Run sink → Bool × Run sink → Type 0
  Flushed r x =
      (x.0 ≡ true)
      × (written x.1.1 ≡ contents r)
      × (x.1.0.pending ≡ [])
      × (x.1.0.closed ≡ r.0.closed)

  counted_fields :
      (ok : Bool) (n : ℕ) (q : BoundedWriteQueue T D O)
      → ((counted sink ok n q).pending ≡ q.pending) × ((counted sink ok n q).closed ≡ q.closed)
  counted_fields true n q = (refl, refl)
  counted_fields false n q = (refl, refl)

  flush_batch-Flushed :
      (ops : List (WriteOp T D O)) (r : Run sink)
      → r.0.pending ≡ ops
      → Flushed r (flush_batch sink ops r)
  unfolding flush_batch Flushed
  flush_batch-Flushed [] (q, s) e =
      (refl, sym (append-nil (written s)) ∙ ap (λ l. written s ++ l) (sym e), e, refl)
  flush_batch-Flushed (op ∷ rest) (q, s) e =
      let fields =
        counted_fields (sink s (op ∷ rest)).0 (length (op ∷ rest)) (record q { pending = [] }) in
      (returns s _, writes s _ ∙ ap (λ l. written s ++ l) (sym e), fields.0, fields.1)

  flush-Flushed : (r : Run sink) → Flushed r (flush sink r)
  unfolding flush
  flush-Flushed (q, s) = flush_batch-Flushed q.pending (q, s) refl

  -- What a step of an open queue keeps: it returns, the queue stays open, and the durable contents are
  -- `ops`.
  Holds : List (WriteOp T D O) → Bool × Run sink → Type 0
  Holds ops x = (x.0 ≡ true) × (durable_ops (contents x.1) ≡ ops) × (x.1.0.closed ≡ false)

  flush-Holds :
      (r : Run sink) → r.0.closed ≡ false → Holds (durable_ops (contents r)) (flush sink r)
  unfolding Holds Flushed
  flush-Holds r open_ =
      let (ok, wrote, empty, same) = flush-Flushed r in
      (
        ok,
        ap durable_ops (ap (λ l. written (flush sink r).1.1 ++ l) empty ∙ append-nil _ ∙ wrote),
        same ∙ open_,
      )

  drop_oldest-Holds :
      (kept : Option (List (WriteOp T D O))) (r : Run sink)
      → r.0.closed ≡ false
      → without_first (λ queued. not (is_durable queued)) r.0.pending ≡ kept
      → Holds (durable_ops (contents r)) (drop_oldest sink kept r)
  unfolding drop_oldest Holds
  drop_oldest-Holds none r open_ e = flush-Holds r open_
  drop_oldest-Holds (some kept) (q, s) open_ e = (
    refl,
    filter-append is_durable (written s) kept
        ∙ ap (λ l. durable_ops (written s) ++ l) (filter-without_first is_durable q.pending kept e)
        ∙ sym (filter-append is_durable (written s) q.pending),
    open_,
  )

  make_room-Holds :
      (op : WriteOp T D O) (r : Run sink)
      → r.0.closed ≡ false
      → Holds (durable_ops (contents r)) (make_room sink op r)
  unfolding make_room Holds
  make_room-Holds op (q, s) open_ =
      if-elim (Holds (durable_ops (contents (q, s)))) (not (leb q.capacity (length q.pending))) _ _
        (λ room. (refl, refl, open_))
        (λ full.
          if-elim (Holds (durable_ops (contents (q, s)))) (is_durable op) _ _
            (λ durable. flush-Holds (q, s) open_) (λ lossy. drop_oldest-Holds _ (q, s) open_ refl))

  push-Holds :
      (op : WriteOp T D O) (r : Run sink)
      → r.0.closed ≡ false
      → Holds (durable_ops (contents r) ++ durable_ops (op ∷ [])) (push sink op r)
  unfolding push Holds
  push-Holds op (q, s) open_ =
      let pushed : BoundedWriteQueue T D O = record q {
        pending = q.pending ++ (op ∷ []);
        enqueued_count = q.enqueued_count + 1;
      } in
      let grown : durable_ops (written s ++ (q.pending ++ (op ∷ [])))
          ≡ durable_ops (contents (q, s)) ++ durable_ops (op ∷ []) =
        ap durable_ops (sym (append_assoc (written s) q.pending (op ∷ [])))
        ∙ filter-append is_durable (contents (q, s)) (op ∷ []) in
      let (ok, same, still) = flush-Holds (pushed, s) open_ in
      if-elim (Holds (durable_ops (contents (q, s)) ++ durable_ops (op ∷ [])))
        (leb q.max_batch_size (length (q.pending ++ (op ∷ [])))) _ _
        (λ burst. (ok, same ∙ grown, still)) (λ small. (refl, grown, open_))

  then_push-Holds :
      (op : WriteOp T D O) (ops : List (WriteOp T D O)) (x : Bool × Run sink)
      → Holds ops x
      → Holds (ops ++ durable_ops (op ∷ [])) (then_push sink op x)
  unfolding Holds
  then_push-Holds op ops (true, r) (ok, same, open_) = rw (← same) (push-Holds op r open_)
  then_push-Holds op ops (false, r) (ok, same, open_) = cc

  -- The state that every call keeps.
  Kept : List (WriteOp T D O) → Run sink → Type 0
  Kept ops r = (durable_ops (contents r) ≡ ops) × Drained r.0

  returned-Kept :
      (ops : List (WriteOp T D O)) (x : Bool × Run sink)
      → Holds ops x
      → Kept ops (returned sink x).1
  unfolding Holds Kept
  returned-Kept ops (true, r) (ok, same, open_) = (same, λ closed. cc (closed, open_))
  returned-Kept ops (false, r) (ok, same, open_) = cc

  none_durable : (op : WriteOp T D O) → not (is_durable op) ≡ true → durable_ops (op ∷ []) ≡ []
  none_durable op lossy = ground arith

  -- A write after `close` goes straight to the sink.
  enqueue_closed-Kept :
      (op : WriteOp T D O) (r : Run sink)
      → r.0.pending ≡ []
      → Kept
          (durable_ops (contents r) ++ durable_ops (op ∷ []))
          (accepted sink (enqueue_closed sink op r)).1
  unfolding enqueue_closed Kept
  enqueue_closed-Kept op (q, s) empty =
      if-elim
        (λ (x : Bool × Run sink).
          Kept (durable_ops (contents (q, s)) ++ durable_ops (op ∷ [])) (accepted sink x).1)
        (not (is_durable op)) _ _
        (λ lossy. (
          sym (ap (λ l. durable_ops (contents (q, s)) ++ l) (none_durable op lossy) ∙ append-nil _),
          λ closed. empty,
        ))
        (λ durable.
          let (same, still) = counted_fields (sink s (op ∷ [])).0 1 q in
          (
            ap (λ l. durable_ops (written (sink s (op ∷ [])).1 ++ l)) (same ∙ empty)
                ∙ ap durable_ops (append-nil _ ∙ writes s (op ∷ []))
                ∙ filter-append is_durable (written s) (op ∷ [])
                ∙ ap (λ l. durable_ops l ++ durable_ops (op ∷ []))
                    (sym (ap (λ l. written s ++ l) empty ∙ append-nil (written s))),
            λ closed. same ∙ empty,
          ))

  enqueue-Kept :
      (op : WriteOp T D O) (r : Run sink)
      → Drained r.0
      → Kept (durable_ops (contents r) ++ durable_ops (op ∷ [])) (enqueue sink op r).1
  unfolding enqueue
  enqueue-Kept op (q, s) drained =
      if-elim
        (λ (x : Option Bool × Run sink).
          Kept (durable_ops (contents (q, s)) ++ durable_ops (op ∷ [])) x.1)
        q.closed _ _ (λ closed. enqueue_closed-Kept op (q, s) (drained closed))
        (λ open_.
          returned-Kept _ _
            (then_push-Holds op _ (make_room sink op (q, s)) (make_room-Holds op (q, s) open_)))

  flush-Kept : (r : Run sink) → Kept (durable_ops (contents r)) (flush sink r).1
  unfolding Flushed Kept
  flush-Kept r =
      let (ok, wrote, empty, same) = flush-Flushed r in
      (
        ap durable_ops (ap (λ l. written (flush sink r).1.1 ++ l) empty ∙ append-nil _ ∙ wrote),
        λ closed. empty,
      )

  close-Kept : (r : Run sink) → Drained r.0 → Kept (durable_ops (contents r)) (close sink r).1
  unfolding close Kept
  close-Kept (q, s) drained =
      if-elim (λ (x : Bool × Run sink). Kept (durable_ops (contents (q, s))) x.1) q.closed _ _
        (λ closed. (refl, drained)) (λ open_. flush-Kept (record q { closed = true }, s))

  step-Kept :
      (c : Call T D O) (r : Run sink)
      → Drained r.0
      → Kept (durable_ops (contents r) ++ durable_ops (requested (c ∷ []))) (step sink c r)
  unfolding step Kept
  step-Kept (enqueue_call op) r drained = enqueue-Kept op r drained
  step-Kept flush_call r drained = rw append-nil (flush-Kept r)
  step-Kept close_call r drained = rw append-nil (close-Kept r drained)
  step-Kept tick r drained = rw append-nil (flush-Kept r)

  requested_split :
      (c : Call T D O) (cs : List (Call T D O))
      → requested (c ∷ cs) ≡ requested (c ∷ []) ++ requested cs
  requested_split (enqueue_call op) cs = refl
  requested_split flush_call cs = refl
  requested_split close_call cs = refl
  requested_split tick cs = refl

  run-Kept :
      (cs : List (Call T D O)) (r : Run sink)
      → Drained r.0
      → Kept (durable_ops (contents r) ++ durable_ops (requested cs)) (run sink cs r)
  unfolding run Kept
  run-Kept [] r drained = (sym (append-nil _), drained)
  run-Kept (c ∷ cs) r drained =
      let (same, later) = step-Kept c r drained in
      let (all, last) = run-Kept cs (step sink c r) later in
      (
        all
            ∙ ap (λ l. l ++ durable_ops (requested cs)) same
            ∙ append_assoc (durable_ops (contents r)) (durable_ops (requested (c ∷ [])))
                (durable_ops (requested cs))
            ∙ ap (λ l. durable_ops (contents r) ++ l)
                (sym (filter-append is_durable (requested (c ∷ [])) (requested cs))
                  ∙ ap durable_ops (sym (requested_split c cs))),
        last,
      )

  close_drains : (r : Run sink) → Drained r.0 → (close sink r).1.0.pending ≡ []
  unfolding close Flushed
  close_drains (q, s) drained =
      if-elim (λ (x : Bool × Run sink). x.1.0.pending ≡ []) q.closed _ _ drained
        (λ open_.
          let (ok, wrote, empty, same) = flush-Flushed (record q { closed = true }, s) in empty)

  -- With a sink that returns and adds each batch to what it has written, whatever is called on a new
  -- queue, a final `close` leaves nothing pending, and the durable operations written are those that
  -- were enqueued, each once and in their order, after what had been written before.
  pub close-durable_order :
      (options : WriteQueueOptions) (s : S) (cs : List (Call T D O))
      → let r = (close sink (run sink cs (create_write_queue options, s))).1 in
        (r.0.pending ≡ [])
        × (durable_ops (written r.1) ≡ durable_ops (written s) ++ durable_ops (requested cs))
  unfolding create_write_queue Kept
  close-durable_order options s cs =
      let start : Run sink = (create_write_queue options, s) in
      let (same, drained) = run-Kept cs start (λ closed. cc) in
      let (kept, _) = close-Kept (run sink cs start) drained in
      let empty = close_drains (run sink cs start) drained in
      (
        empty,
        ap durable_ops (
              sym (append-nil _)
              ∙ ap (λ l. written (close sink (run sink cs start)).1.1 ++ l) (sym empty))
            ∙ kept
            ∙ same
            ∙ ap (λ l. durable_ops l ++ durable_ops (requested cs)) (append-nil (written s)),
      )
