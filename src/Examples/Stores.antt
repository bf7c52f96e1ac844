-- ===== src/Examples/Stores.antt =====
-- The SQLite store at a concrete sequence of calls, with a database that commits every transaction.
use pi_smart_router.Prelude.{
  ℕ, ◌+◌, ◌-◌, ◌*◌, ◌≤◌, ◌≡◌, refl, Bool, true, some, List, [], ◌∷◌, arith,
}
use pi_smart_router.Types.{SessionPin}
use pi_smart_router.Persistence.WriteQueue.{WriteOp, WriteQueueOptions}
use pi_smart_router.Persistence.SqliteStore.{
  Database, StoreCall, put_call, delete_call, get_call, telemetry_call, dataset_call, outcome_call,
  tick, open_store, get_session_pin, run,
}
use pi_smart_router.Persistence.SqliteStore.Rows.{stored}
use pi_smart_router.Persistence.SqliteStore.Reads.{after_calls, get_session_pin-after_calls}
use pi_smart_router.Persistence.SqliteStore.Retention.{Retained, run-Retained}
use pi_smart_router.Prelude.Table.{get}
use pi_smart_router.Prelude.Int.{pos}
use pi_smart_router.Persistence.MemoryStore.{
  RoutingTelemetry, RoutingDatasetRecord, RoutingOutcomeRecord, new_store, append_telemetry,
  list_telemetry, append_dataset_record, list_dataset_records, append_outcome_record,
  list_outcome_records,
}
use pi_smart_router.Persistence.MemoryStore.Agrees.{
  Call, remember_all, commit_all, no_rows, SameHistories, histories_agree,
}
use pi_smart_router.Persistence.MemoryStore.Listed.{Leads, appended-Leads}
use pi_smart_router.Persistence.TokenBucket.{RateLimitRow}
use pi_smart_router.Persistence.TokenBucket.Pace.{total_granted, total_granted_paced}
use pi_smart_router.Examples.Fixtures.{pin}

abbrev Log : Type 0
Log = Database ℕ ℕ ℕ

abbrev empty_database : Log
empty_database = record { pins = []; telemetry = []; dataset = []; outcomes = [] }

abbrev timestamp : ℕ → ℕ
timestamp entry = entry

abbrev always_commits : Log → List (WriteOp ℕ ℕ ℕ) → Bool
always_commits db batch = true

committed : (db : Log) (batch : List (WriteOp ℕ ℕ ℕ)) → always_commits db batch ≡ true
committed db batch = refl

abbrev queue_of_two : WriteQueueOptions
queue_of_two = record { max_batch_size = some 3; capacity = some 2 }

abbrev later_pin : SessionPin
later_pin = record pin { pinned_model_id = "grand"; created_at = 900 }

abbrev store_calls : List (ℕ × StoreCall ℕ ℕ ℕ)
store_calls =
    (1, telemetry_call 1)
    ∷ (2, put_call pin)
    ∷ (3, telemetry_call 3)
    ∷ (4, delete_call "elsewhere")
    ∷ (5, tick)
    ∷ (6, put_call later_pin)
    ∷ (7, get_call "elsewhere")
    ∷ []

get_session_pin-after_calls_example :
    (get_session_pin timestamp timestamp timestamp always_commits 8 pin.session_id (
      run timestamp timestamp timestamp always_commits store_calls
        (open_store queue_of_two empty_database))).0
    ≡ some (after_calls store_calls (stored []) pin.session_id)
get_session_pin-after_calls_example =
    get_session_pin-after_calls timestamp timestamp timestamp always_commits committed queue_of_two
      empty_database store_calls 8 pin.session_id

within_caps : Retained empty_database
within_caps = (omega arith, omega arith, omega arith)

run-Retained_example :
    Retained
      (run timestamp timestamp timestamp always_commits store_calls
        (open_store queue_of_two empty_database)).1
run-Retained_example =
    run-Retained timestamp timestamp timestamp always_commits queue_of_two empty_database
      store_calls within_caps

abbrev bucket : RateLimitRow
bucket = record { tokens = 2000000; max_tokens = 2000000; refill_rate = 1000; last_refill_at = 0 }

total_granted_paced_example :
    total_granted
      (("api", bucket) ∷ [])
      "api"
      ((1000000, 10) ∷ (1000000, 20) ∷ (1000000, 30) ∷ (1000000, 2000) ∷ [])
    ≤ 2000000 + (2000 - 0) * 1000
unfolding get
total_granted_paced_example =
    total_granted_paced "api" ((1000000, 10) ∷ (1000000, 20) ∷ (1000000, 30) ∷ (1000000, 2000) ∷ [])
      (("api", bucket) ∷ []) bucket refl
      (omega arith, (omega arith, (omega arith, (omega arith, tt))))

abbrev measured : ℕ → RoutingTelemetry
measured at = record { session_id = "s1"; timestamp = at }

abbrev recorded : ℕ → RoutingDatasetRecord
recorded at = record { request_id = "r1"; timestamp = at }

abbrev outcome : RoutingOutcomeRecord
outcome = record { request_id = "r1"; session_id = "s1"; timestamp = 604900200 }

-- The first telemetry entry is older than the window when the second one is appended.
abbrev history_calls : List (ℕ × Call)
history_calls =
    (1000, telemetry_call (measured 1000))
    ∷ (2000, dataset_call (recorded 2000))
    ∷ (604900000, telemetry_call (measured 604900000))
    ∷ (604900200, outcome_call outcome)
    ∷ (604900300, put_call pin)
    ∷ []

histories_agree_example :
    SameHistories (remember_all history_calls (new_store [])) (commit_all history_calls no_rows)
histories_agree_example = histories_agree [] history_calls (
  (omega arith, omega arith),
  (
    (omega arith, omega arith),
    ((omega arith, omega arith), ((omega arith, omega arith), (tt, tt))),
  ),
)

appended-Leads_example :
    let store = new_store [] in
    Leads
      (measured 7)
      100
      (list_telemetry (append_telemetry 9 store (measured 7)) (some (pos 500)) (some "s1"))
    × Leads
        (recorded 8)
        10000
        (list_dataset_records (append_dataset_record 9 store (recorded 8)) (some (pos 500)))
    × Leads outcome 10000 (
        list_outcome_records
          (append_outcome_record 9 store outcome)
          (some (pos 500))
          (some "r1")
          (some "s1"))
appended-Leads_example =
    appended-Leads (new_store []) 9 (some (pos 500)) (measured 7) (recorded 8) outcome
