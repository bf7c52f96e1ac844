-- ===== src/Persistence/MemoryStore/Agrees.antt =====
-- The histories of src/infrastructure/persistence/memory-store.ts beside the tables of
-- sqlite-store.ts, when each call is a transaction of its own.
use pi_smart_router.Prelude.{
  ℕ, suc, ◌+◌, ◌≤◌, ◌≡◌, refl, ap, ◌∙◌, true, List, [], ◌∷◌, ◌++◌, All, arith,
}
use pi_smart_router.Types.{ModelProfile}
use pi_smart_router.Persistence.WriteQueue.{
  WriteOp, put_pin, delete_pin, append_telemetry, append_dataset, append_outcome,
}
use pi_smart_router.Persistence.History.{leave_room, telemetry_window, dataset_window}
use pi_smart_router.Persistence.History.Room.{InOrder, leave_room-evict_rows, leave_room-InOrder}
use pi_smart_router.Persistence.SqliteStore.{
  StoreCall, put_call, delete_call, get_call, telemetry_call, dataset_call, outcome_call, tick,
  apply_op, apply_ops, apply_write_batch, evict_rows, Database,
}
use pi_smart_router.Persistence.MemoryStore.{
  MemoryStore, new_store, RoutingTelemetry, RoutingDatasetRecord, RoutingOutcomeRecord,
  append_telemetry as append_telemetry_entry, append_dataset_record, append_outcome_record,
  put_session_pin, delete_session_pin,
}

abbrev pub Call : Type 0
Call = StoreCall RoutingTelemetry RoutingDatasetRecord RoutingOutcomeRecord

abbrev pub Tables : Type 0
Tables = Database RoutingTelemetry RoutingDatasetRecord RoutingOutcomeRecord

-- The writes of a call.
abbrev batch_of : Call → List (WriteOp RoutingTelemetry RoutingDatasetRecord RoutingOutcomeRecord)
batch_of (put_call pin) = put_pin pin ∷ []
batch_of (delete_call id) = delete_pin id ∷ []
batch_of (get_call id) = []
batch_of (telemetry_call entry) = append_telemetry entry ∷ []
batch_of (dataset_call entry) = append_dataset entry ∷ []
batch_of (outcome_call entry) = append_outcome entry ∷ []
batch_of tick = []

unfoldable pub commit : ℕ × Call → Tables → Tables
unfolding apply_write_batch apply_ops apply_op
commit (now, c) db =
    (apply_write_batch (λ e. e.timestamp) (λ e. e.timestamp) (λ e. e.timestamp) (λ _ _. true) now db
      (batch_of c)).1

unfoldable pub remember : ℕ × Call → MemoryStore → MemoryStore
unfolding append_telemetry_entry append_dataset_record append_outcome_record put_session_pin
    delete_session_pin
remember (now, put_call pin) store = put_session_pin store pin
remember (now, delete_call id) store = delete_session_pin store id
remember (now, get_call id) store = store
remember (now, telemetry_call entry) store = append_telemetry_entry now store entry
remember (now, dataset_call entry) store = append_dataset_record now store entry
remember (now, outcome_call entry) store = append_outcome_record now store entry
remember (now, tick) store = store

abbrev pub commit_all : List (ℕ × Call) → Tables → Tables
commit_all [] db = db
commit_all (c ∷ cs) db = commit_all cs (commit c db)

abbrev pub remember_all : List (ℕ × Call) → MemoryStore → MemoryStore
remember_all [] store = store
remember_all (c ∷ cs) store = remember_all cs (remember c store)

-- The latest timestamp after a call.
abbrev stamped : ℕ → Call → ℕ
stamped last (telemetry_call entry) = entry.timestamp
stamped last (dataset_call entry) = entry.timestamp
stamped last (outcome_call entry) = entry.timestamp
stamped last _ = last

-- An appended entry is not older than the entries before it, nor than its window at the append.
abbrev Timed : (last now : ℕ) → Call → Type 0
Timed last now (telemetry_call entry) =
    (last ≤ entry.timestamp) × (now ≤ entry.timestamp + telemetry_window)
Timed last now (dataset_call entry) =
    (last ≤ entry.timestamp) × (now ≤ entry.timestamp + dataset_window)
Timed last now (outcome_call entry) =
    (last ≤ entry.timestamp) × (now ≤ entry.timestamp + dataset_window)
Timed last now _ = Unit

abbrev pub InTime : ℕ → List (ℕ × Call) → Type 0
InTime last [] = Unit
InTime last ((now, c) ∷ cs) = Timed last now c × InTime (stamped last c) cs

module _ {E : Type 0} (timestamp : E → ℕ) where
  -- One history and one table, in order and up to a time.
  abbrev Same : ℕ → (xs ys : List E) → Type 0
  Same last xs ys = (xs ≡ ys) × InOrder timestamp xs × All (λ x. timestamp x ≤ last) xs

  up_to :
      (s t : ℕ) (xs : List E)
      → s ≤ t
      → All (λ x. timestamp x ≤ s) xs
      → All (λ x. timestamp x ≤ t) xs
  up_to s t [] h le = tt
  up_to s t (x ∷ xs) h (p, le) = (omega arith, up_to s t xs h le)

  later : (s t : ℕ) (xs ys : List E) → s ≤ t → Same s xs ys → Same t xs ys
  later s t xs ys h (e, ordered, le) = (e, ordered, up_to s t xs h le)

  append-Same :
      (window m now last : ℕ) (xs ys : List E) (e : E)
      → last ≤ timestamp e
      → now ≤ timestamp e + window
      → Same last xs ys
      → Same
          (timestamp e)
          (leave_room timestamp window (suc m) now xs ++ e ∷ [])
          (evict_rows timestamp window (suc m) now (ys ++ e ∷ []))
  append-Same window m now last xs ys e h young (same, ordered, le) =
      let (ordered_after, le_after) =
        leave_room-InOrder timestamp window now m xs e ordered (up_to last (timestamp e) xs h le) in
      (
        leave_room-evict_rows timestamp window now m xs e ordered young
            ∙ ap (λ zs. evict_rows timestamp window (suc m) now (zs ++ e ∷ [])) same,
        ordered_after,
        le_after,
      )

abbrev Agree : ℕ → MemoryStore → Tables → Type 0
Agree last store db =
    Same (λ e. e.timestamp) last store.telemetry db.telemetry
    × Same (λ e. e.timestamp) last store.dataset db.dataset
    × Same (λ e. e.timestamp) last store.outcomes db.outcomes

step-Agree :
    (last now : ℕ) (c : Call) (store : MemoryStore) (db : Tables)
    → Timed last now c
    → Agree last store db
    → Agree (stamped last c) (remember (now, c) store) (commit (now, c) db)
unfolding remember commit
step-Agree last now (put_call pin) store db h agree = agree
step-Agree last now (delete_call id) store db h agree = agree
step-Agree last now (get_call id) store db h agree = agree
step-Agree last now tick store db h agree = agree
step-Agree last now (telemetry_call e) store db (h, young) (t, d, o) = (
  append-Same (λ e. e.timestamp) telemetry_window 1110 now last store.telemetry db.telemetry e h
      young t,
  later (λ e. e.timestamp) last e.timestamp store.dataset db.dataset h d,
  later (λ e. e.timestamp) last e.timestamp store.outcomes db.outcomes h o,
)
step-Agree last now (dataset_call e) store db (h, young) (t, d, o) = (
  later (λ e. e.timestamp) last e.timestamp store.telemetry db.telemetry h t,
  append-Same (λ e. e.timestamp) dataset_window 9999 now last store.dataset db.dataset e h young d,
  later (λ e. e.timestamp) last e.timestamp store.outcomes db.outcomes h o,
)
step-Agree last now (outcome_call e) store db (h, young) (t, d, o) = (
  later (λ e. e.timestamp) last e.timestamp store.telemetry db.telemetry h t,
  later (λ e. e.timestamp) last e.timestamp store.dataset db.dataset h d,
  append-Same (λ e. e.timestamp) dataset_window 9999 now last store.outcomes db.outcomes e h young
      o,
)

all-Agree :
    (cs : List (ℕ × Call)) (last : ℕ) (store : MemoryStore) (db : Tables)
    → InTime last cs
    → Agree last store db
    → let store' = remember_all cs store in
      let db' = commit_all cs db in
      (store'.telemetry ≡ db'.telemetry)
      × (store'.dataset ≡ db'.dataset)
      × (store'.outcomes ≡ db'.outcomes)
all-Agree [] last store db h ((t, _, _), (d, _, _), (o, _, _)) = (t, d, o)
all-Agree ((now, c) ∷ cs) last store db (first, rest) agree =
    all-Agree cs (stamped last c) (remember (now, c) store) (commit (now, c) db) rest
      (step-Agree last now c store db first agree)

abbrev pub no_rows : Tables
no_rows = record { pins = []; telemetry = []; dataset = []; outcomes = [] }

abbrev pub SameHistories : MemoryStore → Tables → Type 0
SameHistories store db =
    (store.telemetry ≡ db.telemetry) × (store.dataset ≡ db.dataset) × (store.outcomes ≡ db.outcomes)

-- Where timestamps do not fall and an entry is appended within its window, a new in-memory store holds
-- after any calls the telemetry, dataset and outcome entries that the SQLite tables hold, when each call
-- is committed as a transaction of its own to empty tables.
pub histories_agree :
    (models : List ModelProfile) (cs : List (ℕ × Call))
    → InTime 0 cs
    → SameHistories (remember_all cs (new_store models)) (commit_all cs no_rows)
histories_agree models cs h =
    all-Agree cs 0 (new_store models) no_rows h ((refl, tt, tt), (refl, tt, tt), (refl, tt, tt))
