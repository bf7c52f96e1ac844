-- ===== src/Persistence/SqliteStore/Retention.antt =====
-- The caps on the appended tables of src/infrastructure/persistence/sqlite-store.ts.
use pi_smart_router.Prelude.{
  ℕ, ◌-◌, ◌≡◌, ◌≤◌, ◌∷◌, Bool, true, false, List, [], length, length-drop, filter, ltb, not, ◌+◌,
  refl, arith, if-elim, subst, sym, if◌then◌else◌,
}
use pi_smart_router.Persistence.WriteQueue.{
  WriteOp, put_pin, delete_pin, append_telemetry, append_dataset, append_outcome, enqueue,
  WriteQueueOptions,
}
use pi_smart_router.Persistence.WriteQueue.Preserves.{flush_kept, enqueue_kept}
use pi_smart_router.Persistence.SqliteStore.{
  Touched, Database, StoreCall, put_call, delete_call, get_call, telemetry_call, dataset_call,
  outcome_call, tick, apply_ops, evict_rows, untouched, apply_write_batch, SqliteStore, open_store,
  step, run,
}
use pi_smart_router.Persistence.SqliteStore.Rows.{pin_query-state}

evict_rows_bound :
    {E : Type 0} (timestamp : E → ℕ) (window most now : ℕ) (touched : Bool) (rows : List E)
    → (touched ≡ false → length rows ≤ most)
    → length (if touched then evict_rows timestamp window most now rows else rows) ≤ most
evict_rows_bound timestamp window most now true rows h =
    let young = filter (λ e. not (ltb (timestamp e + window) now)) rows in
    omega (arith, length-drop (length young - most) young)
evict_rows_bound timestamp window most now false rows h = h refl

module _ {T D O : Type 0} where
  -- The appended tables are within their caps.
  abbrev pub Retained : Database T D O → Type 0
  Retained db =
      (length db.telemetry ≤ 1111) × (length db.dataset ≤ 10000) × (length db.outcomes ≤ 10000)

  -- A table that is not touched is within its cap.
  Pending : Touched × Database T D O → Type 0
  Pending (t, db) =
      (t.telemetry ≡ false → length db.telemetry ≤ 1111)
      × (t.dataset ≡ false → length db.dataset ≤ 10000)
      × (t.outcome ≡ false → length db.outcomes ≤ 10000)

  apply_ops-Pending :
      (ops : List (WriteOp T D O)) (t : Touched) (db : Database T D O)
      → Pending (t, db)
      → Pending (apply_ops ops (t, db))
  unfolding apply_ops Pending
  apply_ops-Pending [] t db h = h
  apply_ops-Pending (put_pin pin ∷ ops) t db h = apply_ops-Pending ops _ _ h
  apply_ops-Pending (delete_pin id ∷ ops) t db h = apply_ops-Pending ops _ _ h
  apply_ops-Pending (append_telemetry entry ∷ ops) t db h =
      apply_ops-Pending ops _ _ ((λ e. cc e), h.1, h.2)
  apply_ops-Pending (append_dataset entry ∷ ops) t db h =
      apply_ops-Pending ops _ _ (h.0, (λ e. cc e), h.2)
  apply_ops-Pending (append_outcome entry ∷ ops) t db h =
      apply_ops-Pending ops _ _ (h.0, h.1, (λ e. cc e))

module _ {T D O : Type 0} (telemetry_at : T → ℕ) (dataset_at : D → ℕ) (outcome_at : O → ℕ)
    (commits : Database T D O → List (WriteOp T D O) → Bool) where
  apply_write_batch-Retained :
      (now : ℕ) (db : Database T D O) (batch : List (WriteOp T D O))
      → Retained db
      → Retained (apply_write_batch telemetry_at dataset_at outcome_at commits now db batch).1
  unfolding apply_write_batch Pending
  apply_write_batch-Retained now db batch h =
      let (telemetry, dataset, outcomes) =
        apply_ops-Pending batch untouched db ((λ _. h.0), (λ _. h.1), (λ _. h.2)) in
      if-elim (λ (x : Bool × Database T D O). Retained x.1) (commits db batch) _ _
        (λ committed. (
          evict_rows_bound telemetry_at _ 1111 now _ _ telemetry,
          evict_rows_bound dataset_at _ 10000 now _ _ dataset,
          evict_rows_bound outcome_at _ 10000 now _ _ outcomes,
        ))
        (λ rejected. h)

  enqueue-Retained :
      (now : ℕ) (op : WriteOp T D O) (r : SqliteStore T D O)
      → Retained r.1
      → Retained
          (enqueue (apply_write_batch telemetry_at dataset_at outcome_at commits now) op r).1.1
  enqueue-Retained now op r h =
      enqueue_kept (apply_write_batch telemetry_at dataset_at outcome_at commits now) Retained
        (apply_write_batch-Retained now) op r h

  step-Retained :
      (now : ℕ) (c : StoreCall T D O) (r : SqliteStore T D O)
      → Retained r.1
      → Retained (step telemetry_at dataset_at outcome_at commits (now, c) r).1
  unfolding step
  step-Retained now (put_call pin) r h = enqueue-Retained now (put_pin pin) r h
  step-Retained now (delete_call id) r h = enqueue-Retained now (delete_pin id) r h
  step-Retained now (telemetry_call entry) r h = enqueue-Retained now (append_telemetry entry) r h
  step-Retained now (dataset_call entry) r h = enqueue-Retained now (append_dataset entry) r h
  step-Retained now (outcome_call entry) r h = enqueue-Retained now (append_outcome entry) r h
  step-Retained now (get_call id) r h =
      subst (λ (x : SqliteStore T D O). Retained x.1) (sym (pin_query-state id _))
        (flush_kept _ Retained (apply_write_batch-Retained now) r h)
  step-Retained now tick r h = flush_kept _ Retained (apply_write_batch-Retained now) r h

  run-Retained_after :
      (cs : List (ℕ × StoreCall T D O)) (r : SqliteStore T D O)
      → Retained r.1
      → Retained (run telemetry_at dataset_at outcome_at commits cs r).1
  unfolding run
  run-Retained_after [] r h = h
  run-Retained_after ((now, c) ∷ cs) r h = run-Retained_after cs _ (step-Retained now c r h)

  -- Opened on a database with at most 1111 telemetry rows, 10000 dataset rows and 10000 outcome rows,
  -- the store holds no more of them after any puts, deletes, reads, appended records and timer flushes,
  -- whichever of its transactions the database commits.
  pub run-Retained :
      (options : WriteQueueOptions) (db : Database T D O) (cs : List (ℕ × StoreCall T D O))
      → Retained db
      → Retained (run telemetry_at dataset_at outcome_at commits cs (open_store options db)).1
  unfolding open_store
  run-Retained options db cs h = run-Retained_after cs _ h
