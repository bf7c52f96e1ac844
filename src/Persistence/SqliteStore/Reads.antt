-- ===== src/Persistence/SqliteStore/Reads.antt =====
-- What a read of a pin sees of the calls before it: src/infrastructure/persistence/sqlite-store.ts.
use pi_smart_router.Prelude.{
  ℕ, ◌≡◌, refl, sym, ap, subst, ◌∙◌, String, Bool, true, false, Option, none, some, List, [], ◌∷◌,
  str_eq, if◌then◌else◌,
}
use pi_smart_router.Prelude.Table.{Table}
use pi_smart_router.Types.{SessionPin}
use pi_smart_router.Persistence.WriteQueue.{
  WriteOp, put_pin, delete_pin, append_telemetry, append_dataset, append_outcome, WriteQueueOptions,
  create_write_queue, flush, enqueue,
}
use pi_smart_router.Persistence.SqliteStore.{
  PinRow, Database, StoreCall, put_call, delete_call, get_call, telemetry_call, dataset_call,
  outcome_call, tick, SqliteStore, open_store, pin_query, get_session_pin, step, run,
}
use pi_smart_router.Persistence.SqliteStore.Rows.{
  pin_query-state, replacing, stored, stored-insert, stored-delete, replay, promised,
}
use pi_smart_router.Persistence.SqliteStore.Queued.{
  sink, Promises, Keeps, flush-Promises, enqueue-Keeps,
}

module _ {T D O : Type 0} where
  -- The pins that sessions have after one call, given those before it.
  abbrev pub after_call :
      StoreCall T D O → (String → Option SessionPin) → String → Option SessionPin
  after_call (put_call pin) pins id =
      if str_eq pin.session_id id then some (replacing (pins pin.session_id) pin) else pins id
  after_call (delete_call gone) pins id = if str_eq gone id then none else pins id
  after_call (get_call read) pins id = pins id
  after_call (telemetry_call entry) pins id = pins id
  after_call (dataset_call entry) pins id = pins id
  after_call (outcome_call entry) pins id = pins id
  after_call tick pins id = pins id

  -- The pins after a list of calls, one after the other.
  abbrev pub after_calls :
      List (ℕ × StoreCall T D O) → (String → Option SessionPin) → String → Option SessionPin
  after_calls [] pins id = pins id
  after_calls ((now, c) ∷ cs) pins id = after_calls cs (after_call c pins) id

module _ {T D O : Type 0} (telemetry_at : T → ℕ) (dataset_at : D → ℕ) (outcome_at : O → ℕ)
    (commits : Database T D O → List (WriteOp T D O) → Bool)
    (committed : (db : Database T D O) (batch : List (WriteOp T D O))
      → commits db batch ≡ true) where
  -- An open store whose promised pins are `pins`.
  Shows : (String → Option SessionPin) → SqliteStore T D O → Type 0
  Shows pins r = ((id : String) → stored (promised r) id ≡ pins id) × (r.0.closed ≡ false)

  Keeps-Shows :
      (rows : Table PinRow) (pins : String → Option SessionPin) (r : SqliteStore T D O)
      → Keeps telemetry_at dataset_at outcome_at commits committed rows r
      → ((id : String) → stored rows id ≡ pins id)
      → Shows pins r
  unfolding Keeps Shows
  Keeps-Shows rows pins r (same, open_) shows = (λ id. ap (λ l. stored l id) same ∙ shows id, open_)

  flush-Shows :
      (now : ℕ) (pins : String → Option SessionPin) (r : SqliteStore T D O)
      → Shows pins r
      → Shows pins (flush (sink telemetry_at dataset_at outcome_at commits committed now) r).1
  unfolding Promises Shows
  flush-Shows now pins r (shows, open_) =
      let ((ok, same, still), empty) =
        flush-Promises telemetry_at dataset_at outcome_at commits committed now r open_ in
      (λ id. ap (λ l. stored l id) same ∙ shows id, still)

  enqueue-Shows :
      (now : ℕ) (op : WriteOp T D O) (pins : String → Option SessionPin) (r : SqliteStore T D O)
      → r.0.closed ≡ false
      → ((id : String) → stored (replay (op ∷ []) (promised r)) id ≡ pins id)
      → Shows pins (enqueue (sink telemetry_at dataset_at outcome_at commits committed now) op r).1
  enqueue-Shows now op pins r open_ shows =
      Keeps-Shows _ pins _
        (enqueue-Keeps telemetry_at dataset_at outcome_at commits committed now op r open_) shows

  step-Shows :
      (now : ℕ) (c : StoreCall T D O) (pins : String → Option SessionPin) (r : SqliteStore T D O)
      → Shows pins r
      → Shows (after_call c pins) (step telemetry_at dataset_at outcome_at commits (now, c) r)
  unfolding step Shows
  step-Shows now (put_call pin) pins r (shows, open_) =
      enqueue-Shows now (put_pin pin) _ r open_
        (λ id. stored-insert pin (promised r) id ∙ rw (shows id, shows pin.session_id) refl)
  step-Shows now (delete_call gone) pins r (shows, open_) =
      enqueue-Shows now (delete_pin gone) _ r open_
        (λ id. stored-delete gone (promised r) id ∙ rw (shows id) refl)
  step-Shows now (get_call read) pins r shows =
      subst (Shows pins) (sym (pin_query-state read _)) (flush-Shows now pins r shows)
  step-Shows now (telemetry_call entry) pins r (shows, open_) =
      enqueue-Shows now (append_telemetry entry) pins r open_ shows
  step-Shows now (dataset_call entry) pins r (shows, open_) =
      enqueue-Shows now (append_dataset entry) pins r open_ shows
  step-Shows now (outcome_call entry) pins r (shows, open_) =
      enqueue-Shows now (append_outcome entry) pins r open_ shows
  step-Shows now tick pins r shows = flush-Shows now pins r shows

  run-Shows :
      (cs : List (ℕ × StoreCall T D O)) (pins : String → Option SessionPin) (r : SqliteStore T D O)
      → Shows pins r
      → Shows (after_calls cs pins) (run telemetry_at dataset_at outcome_at commits cs r)
  unfolding run
  run-Shows [] pins r shows = shows
  run-Shows ((now, c) ∷ cs) pins r shows = run-Shows cs _ _ (step-Shows now c pins r shows)

  query-Shows :
      (id : String) (pins : String → Option SessionPin) (x : Bool × SqliteStore T D O)
      → x.0 ≡ true
      → x.1.0.pending ≡ []
      → Shows pins x.1
      → (pin_query id x).0 ≡ some (pins id)
  unfolding Shows
  query-Shows id pins (true, r) ok empty (shows, open_) =
      ap some (ap (λ l. stored (replay l r.1.pins) id) (sym empty) ∙ shows id)
  query-Shows id pins (false, r) ok empty shows = cc

  -- Where every transaction commits, a read of a session's pin after any puts, deletes, reads, appended
  -- records and timer flushes on a newly opened store returns, at whatever times and however the queue
  -- batches and drops: it returns the pin that was put last, unless a later delete removed it, with the
  -- `created_at` of the pin that it replaced, if there was one, and else what the database held.
  pub get_session_pin-after_calls :
      (options : WriteQueueOptions) (db : Database T D O) (cs : List (ℕ × StoreCall T D O))
      (now : ℕ) (id : String)
      → (get_session_pin telemetry_at dataset_at outcome_at commits now id
          (run telemetry_at dataset_at outcome_at commits cs (open_store options db))).0
        ≡ some (after_calls cs (stored db.pins) id)
  unfolding get_session_pin open_store create_write_queue Shows Promises
  get_session_pin-after_calls options db cs now id =
      let start : SqliteStore T D O = open_store options db in
      let last = run telemetry_at dataset_at outcome_at commits cs start in
      let shows = run-Shows cs (stored db.pins) start (λ i. refl, refl) in
      let ((ok, same, still), empty) =
        flush-Promises telemetry_at dataset_at outcome_at commits committed now last shows.1 in
      query-Shows id _ _ ok empty (flush-Shows now _ last shows)
