-- ===== src/Persistence/SqliteStore/Queued.antt =====
-- The queue in front of the database keeps the pins that its writes promise:
-- src/infrastructure/persistence/sqlite-store.ts.
use pi_smart_router.Prelude.{
  ℕ, ◌+◌, ◌≡◌, refl, sym, ap, ◌∙◌, Bool, true, false, not, Option, none, some, List, [], ◌∷◌, ◌++◌,
  length, without_first, leb, if-elim,
}
use pi_smart_router.Prelude.Table.{Table}
use pi_smart_router.Persistence.WriteQueue.{
  WriteOp, is_durable, BoundedWriteQueue, counted, flush, make_room, push, then_push, returned,
  drop_oldest, flush_batch, enqueue,
}
use pi_smart_router.Persistence.SqliteStore.{PinRow, Database, SqliteStore, apply_write_batch}
use pi_smart_router.Persistence.SqliteStore.Rows.{
  replay, replay-append, replay-without_first, apply_ops-replay, promised,
}

module _ {T D O : Type 0} (telemetry_at : T → ℕ) (dataset_at : D → ℕ) (outcome_at : O → ℕ)
    (commits : Database T D O → List (WriteOp T D O) → Bool)
    (committed : (db : Database T D O) (batch : List (WriteOp T D O))
      → commits db batch ≡ true) where
  abbrev pub sink : ℕ → Database T D O → List (WriteOp T D O) → Bool × Database T D O
  sink now = apply_write_batch telemetry_at dataset_at outcome_at commits now

  sink-replay :
      (now : ℕ) (db : Database T D O) (batch : List (WriteOp T D O))
      → ((sink now db batch).0 ≡ true) × ((sink now db batch).1.pins ≡ replay batch db.pins)
  unfolding apply_write_batch
  sink-replay now db batch = rw (committed db batch) (refl, apply_ops-replay batch _ db)

  -- The method returned, the queue is open, and the promised pins are `rows`.
  unfoldable pub Promises : Table PinRow → Bool × SqliteStore T D O → Type 0
  Promises rows x = (x.0 ≡ true) × (promised x.1 ≡ rows) × (x.1.0.closed ≡ false)

  counted_fields :
      (ok : Bool) (now n : ℕ) (q : BoundedWriteQueue T D O)
      → ((counted (sink now) ok n q).pending ≡ q.pending)
        × ((counted (sink now) ok n q).closed ≡ q.closed)
  counted_fields true now n q = (refl, refl)
  counted_fields false now n q = (refl, refl)

  -- A flush stores the promised pins and empties the queue.
  flush_batch-Promises :
      (now : ℕ) (ops : List (WriteOp T D O)) (r : SqliteStore T D O)
      → r.0.pending ≡ ops
      → r.0.closed ≡ false
      → let x = flush_batch (sink now) ops r in Promises (promised r) x × (x.1.0.pending ≡ [])
  unfolding flush_batch Promises
  flush_batch-Promises now [] r e open_ = ((refl, refl, open_), e)
  flush_batch-Promises now (op ∷ rest) (q, db) e open_ =
      let (ok, pins) = sink-replay now db (op ∷ rest) in
      let (empty, same) =
        counted_fields (sink now db (op ∷ rest)).0 now (length (op ∷ rest))
          (record q { pending = [] }) in
      (
        (
          ok,
          ap (λ l. replay l (sink now db (op ∷ rest)).1.pins) empty
              ∙ pins
              ∙ ap (λ l. replay l db.pins) (sym e),
          same ∙ open_,
        ),
        empty,
      )

  pub flush-Promises :
      (now : ℕ) (r : SqliteStore T D O)
      → r.0.closed ≡ false
      → let x = flush (sink now) r in Promises (promised r) x × (x.1.0.pending ≡ [])
  unfolding flush
  flush-Promises now (q, db) open_ = flush_batch-Promises now q.pending (q, db) refl open_

  drop_oldest-Promises :
      (now : ℕ) (kept : Option (List (WriteOp T D O))) (r : SqliteStore T D O)
      → r.0.closed ≡ false
      → without_first (λ queued. not (is_durable queued)) r.0.pending ≡ kept
      → Promises (promised r) (drop_oldest (sink now) kept r)
  unfolding drop_oldest Promises
  drop_oldest-Promises now none r open_ e = (flush-Promises now r open_).0
  drop_oldest-Promises now (some kept) (q, db) open_ e =
      (refl, replay-without_first q.pending kept db.pins e, open_)

  make_room-Promises :
      (now : ℕ) (op : WriteOp T D O) (r : SqliteStore T D O)
      → r.0.closed ≡ false
      → Promises (promised r) (make_room (sink now) op r)
  unfolding make_room Promises
  make_room-Promises now op (q, db) open_ =
      if-elim (Promises (promised (q, db))) (not (leb q.capacity (length q.pending))) _ _
        (λ room. (refl, refl, open_))
        (λ full.
          if-elim (Promises (promised (q, db))) (is_durable op) _ _
            (λ durable. (flush-Promises now (q, db) open_).0)
            (λ lossy. drop_oldest-Promises now _ (q, db) open_ refl))

  push-Promises :
      (now : ℕ) (op : WriteOp T D O) (r : SqliteStore T D O)
      → r.0.closed ≡ false
      → Promises (replay (op ∷ []) (promised r)) (push (sink now) op r)
  unfolding push Promises
  push-Promises now op (q, db) open_ =
      let pushed : BoundedWriteQueue T D O = record q {
        pending = q.pending ++ (op ∷ []);
        enqueued_count = q.enqueued_count + 1;
      } in
      let grown = replay-append q.pending (op ∷ []) db.pins in
      let (ok, same, still) = (flush-Promises now (pushed, db) open_).0 in
      if-elim (Promises (replay (op ∷ []) (promised (q, db))))
        (leb q.max_batch_size (length (q.pending ++ (op ∷ [])))) _ _
        (λ burst. (ok, same ∙ grown, still)) (λ small. (refl, grown, open_))

  then_push-Promises :
      (now : ℕ) (op : WriteOp T D O) (rows : Table PinRow) (x : Bool × SqliteStore T D O)
      → Promises rows x
      → Promises (replay (op ∷ []) rows) (then_push (sink now) op x)
  unfolding Promises
  then_push-Promises now op rows (true, r) (ok, same, open_) =
      rw (← same) (push-Promises now op r open_)
  then_push-Promises now op rows (false, r) (ok, same, open_) = cc

  -- An open queue whose promised pins are `rows`.
  unfoldable pub Keeps : Table PinRow → SqliteStore T D O → Type 0
  Keeps rows r = (promised r ≡ rows) × (r.0.closed ≡ false)

  returned-Keeps :
      (now : ℕ) (rows : Table PinRow) (x : Bool × SqliteStore T D O)
      → Promises rows x
      → Keeps rows (returned (sink now) x).1
  unfolding Promises Keeps
  returned-Keeps now rows (true, r) (ok, same, open_) = (same, open_)
  returned-Keeps now rows (false, r) (ok, same, open_) = (same, open_)

  pub enqueue-Keeps :
      (now : ℕ) (op : WriteOp T D O) (r : SqliteStore T D O)
      → r.0.closed ≡ false
      → Keeps (replay (op ∷ []) (promised r)) (enqueue (sink now) op r).1
  unfolding enqueue
  enqueue-Keeps now op (q, db) open_ =
      if-elim
        (λ (x : Option Bool × SqliteStore T D O). Keeps (replay (op ∷ []) (promised (q, db))) x.1)
        q.closed _ _ (λ closed. cc (closed, open_))
        (λ _. returned-Keeps now _ _ (
          then_push-Promises now op _ (make_room (sink now) op (q, db))
            (make_room-Promises now op (q, db) open_)))
