-- ===== src/Persistence/SqliteStore.antt =====
-- The write path of src/infrastructure/persistence/sqlite-store.ts: the sink of the write queue and the
-- pins. A table is the rows that its SQL statements leave. Whether SQLite commits a transaction is a
-- parameter; a transaction that it rejects throws and leaves the database as it was. The rows of the
-- three appended tables are the entries, of which the store reads the timestamp.
pub mod Rows
pub mod Queued
pub mod Reads
pub mod Retention
use pi_smart_router.Prelude.{
  ℕ, ◌+◌, ◌-◌, ◌*◌, String, Bool, true, false, not, ◌||◌, Option, none, some, List, [], ◌∷◌, ◌++◌,
  length, filter, drop, ltb, ◌==◌, if◌then◌else◌,
}
use pi_smart_router.Prelude.Table.{Table, get, set, delete}
use pi_smart_router.Types.{SessionPin, PinReason, FailureSignature}
use pi_smart_router.Persistence.History.{
  telemetry_window, telemetry_max_entries, dataset_window, dataset_max_entries, outcome_max_entries,
}
use pi_smart_router.Persistence.WriteQueue.{
  WriteOp, put_pin, delete_pin, append_telemetry, append_dataset, append_outcome, BoundedWriteQueue,
  WriteQueueOptions, create_write_queue, flush, enqueue,
}

-- A row of the table `pins`.
pub record PinRow : Type 0 where
  pub session_id : String
  pub pinned_model_id : String
  pub pin_reason : PinReason
  pub has_ever_switched : ℕ
  pub consecutive_upstream_errors : ℕ
  pub consecutive_tool_failures : ℕ
  pub last_tool_failure_signature : Option FailureSignature
  pub created_at : ℕ
  pub updated_at : ℕ

abbrev pub pin_row_to_entity : PinRow → SessionPin
pin_row_to_entity row = record {
  session_id = row.session_id;
  pinned_model_id = row.pinned_model_id;
  pin_reason = row.pin_reason;
  has_ever_switched = row.has_ever_switched == 1;
  consecutive_upstream_errors = row.consecutive_upstream_errors;
  consecutive_tool_failures = row.consecutive_tool_failures;
  last_tool_failure_signature = row.last_tool_failure_signature;
  created_at = row.created_at;
  updated_at = row.updated_at;
}

-- The values that the statement is run with.
abbrev pub row_of : SessionPin → PinRow
row_of pin = record {
  session_id = pin.session_id;
  pinned_model_id = pin.pinned_model_id;
  pin_reason = pin.pin_reason;
  has_ever_switched = if pin.has_ever_switched then 1 else 0;
  consecutive_upstream_errors = pin.consecutive_upstream_errors;
  consecutive_tool_failures = pin.consecutive_tool_failures;
  last_tool_failure_signature = pin.last_tool_failure_signature;
  created_at = pin.created_at;
  updated_at = pin.updated_at;
}

-- `ON CONFLICT(session_id) DO UPDATE SET …` sets every column but `created_at`.
abbrev pub on_conflict : Option PinRow → PinRow → PinRow
on_conflict none excluded = excluded
on_conflict (some row) excluded = record excluded { created_at = row.created_at }

unfoldable pub insert_pin_row : SessionPin → Table PinRow → Table PinRow
insert_pin_row pin rows =
    set pin.session_id (on_conflict (get pin.session_id rows) (row_of pin)) rows

unfoldable pub delete_pin_row : String → Table PinRow → Table PinRow
delete_pin_row session_id rows = delete session_id rows

-- The rows younger than the window, and of these the newest `most`.
abbrev pub evict_rows : {E : Type 0} → (E → ℕ) → ℕ → ℕ → ℕ → List E → List E
evict_rows timestamp window most now rows =
    let young = filter (λ e. not (ltb (timestamp e + window) now)) rows in
    drop (length young - most) young

abbrev pub pin_answer : Option PinRow → Option SessionPin
pin_answer none = none
pin_answer (some row) = some (pin_row_to_entity row)

-- Which appended tables a batch has touched.
pub record Touched : Type 0 where
  pub telemetry : Bool
  pub dataset : Bool
  pub outcome : Bool

abbrev pub untouched : Touched
untouched = record { telemetry = false; dataset = false; outcome = false }

pub record Database (T D O : Type 0) : Type 0 where
  pub pins : Table PinRow
  pub telemetry : List T
  pub dataset : List D
  pub outcomes : List O

-- What a caller calls; `tick` is the queue's timer.
pub data StoreCall (T D O : Type 0) : Type 0 where
  put_call : SessionPin → StoreCall T D O
  delete_call get_call : String → StoreCall T D O
  telemetry_call : T → StoreCall T D O
  dataset_call : D → StoreCall T D O
  outcome_call : O → StoreCall T D O
  tick : StoreCall T D O

-- The pending queue beside the database.
abbrev pub SqliteStore : Type 0 → Type 0 → Type 0 → Type 0
SqliteStore T D O = BoundedWriteQueue T D O × Database T D O

module _ {T D O : Type 0} where
  unfoldable pub apply_op : WriteOp T D O → Touched × Database T D O → Touched × Database T D O
  unfolding insert_pin_row delete_pin_row
  apply_op (put_pin pin) (t, db) = (t, record db { pins = insert_pin_row pin db.pins })
  apply_op (delete_pin id) (t, db) = (t, record db { pins = delete_pin_row id db.pins })
  apply_op (append_telemetry entry) (t, db) =
      (record t { telemetry = true }, record db { telemetry = db.telemetry ++ (entry ∷ []) })
  apply_op (append_dataset entry) (t, db) =
      (record t { dataset = true }, record db { dataset = db.dataset ++ (entry ∷ []) })
  apply_op (append_outcome entry) (t, db) =
      (record t { outcome = true }, record db { outcomes = db.outcomes ++ (entry ∷ []) })

  unfoldable pub apply_ops :
      List (WriteOp T D O) → Touched × Database T D O → Touched × Database T D O
  unfolding apply_op
  apply_ops [] x = x
  apply_ops (op ∷ ops) x = apply_ops ops (apply_op op x)

  unfoldable pub open_store : WriteQueueOptions → Database T D O → SqliteStore T D O
  open_store options db = (create_write_queue options, db)

module _ {T D O : Type 0} where
  abbrev pub pin_query :
      String → Bool × SqliteStore T D O → Option (Option SessionPin) × SqliteStore T D O
  pin_query id (false, r) = (none, r)
  pin_query id (true, r) = (some (pin_answer (get id r.1.pins)), r)

module _ {T D O : Type 0} (telemetry_at : T → ℕ) (dataset_at : D → ℕ) (outcome_at : O → ℕ)
    (commits : Database T D O → List (WriteOp T D O) → Bool) where
  abbrev Store : Type 0
  Store = SqliteStore T D O

  -- The limits that the in-memory store has too.
  abbrev pub evict_touched : ℕ → Touched × Database T D O → Database T D O
  evict_touched now (t, db) = record db {
    telemetry =
        if t.telemetry
        then evict_rows telemetry_at telemetry_window telemetry_max_entries now db.telemetry
        else db.telemetry;
    dataset =
        if t.dataset
        then evict_rows dataset_at dataset_window dataset_max_entries now db.dataset
        else db.dataset;
    outcomes =
        if t.outcome
        then evict_rows outcome_at dataset_window outcome_max_entries now db.outcomes
        else db.outcomes;
  }

  -- The sink of the queue: whether the transaction went through, and the database after it.
  unfoldable pub apply_write_batch :
      ℕ → Database T D O → List (WriteOp T D O) → Bool × Database T D O
  unfolding apply_ops
  apply_write_batch now db batch =
      if commits db batch
      then (true, evict_touched now (apply_ops batch (untouched, db)))
      else (false, db)

  -- None where the flush throws.
  unfoldable pub get_session_pin : ℕ → String → Store → Option (Option SessionPin) × Store
  unfolding apply_write_batch
  get_session_pin now id r = pin_query id (flush (apply_write_batch now) r)

  -- None where a flush throws.
  unfoldable pub put_session_pin : ℕ → SessionPin → Store → Option Bool × Store
  unfolding apply_write_batch
  put_session_pin now pin r = enqueue (apply_write_batch now) (put_pin pin) r

  unfoldable pub delete_session_pin : ℕ → String → Store → Option Bool × Store
  unfolding apply_write_batch
  delete_session_pin now id r = enqueue (apply_write_batch now) (delete_pin id) r

  unfoldable pub append_telemetry_entry : ℕ → T → Store → Option Bool × Store
  unfolding apply_write_batch
  append_telemetry_entry now entry r = enqueue (apply_write_batch now) (append_telemetry entry) r

  unfoldable pub append_dataset_record : ℕ → D → Store → Option Bool × Store
  unfolding apply_write_batch
  append_dataset_record now entry r = enqueue (apply_write_batch now) (append_dataset entry) r

  unfoldable pub append_outcome_record : ℕ → O → Store → Option Bool × Store
  unfolding apply_write_batch
  append_outcome_record now entry r = enqueue (apply_write_batch now) (append_outcome entry) r

  -- Each call has its clock reading.
  unfoldable pub step : ℕ × StoreCall T D O → Store → Store
  unfolding get_session_pin put_session_pin delete_session_pin append_telemetry_entry
      append_dataset_record append_outcome_record
  step (now, put_call pin) r = (put_session_pin now pin r).1
  step (now, delete_call id) r = (delete_session_pin now id r).1
  step (now, get_call id) r = (get_session_pin now id r).1
  step (now, telemetry_call entry) r = (append_telemetry_entry now entry r).1
  step (now, dataset_call entry) r = (append_dataset_record now entry r).1
  step (now, outcome_call entry) r = (append_outcome_record now entry r).1
  step (now, tick) r = (flush (apply_write_batch now) r).1

  unfoldable pub run : List (ℕ × StoreCall T D O) → Store → Store
  unfolding step
  run [] r = r
  run (c ∷ cs) r = run cs (step c r)
