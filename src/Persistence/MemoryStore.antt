-- ===== src/Persistence/MemoryStore.antt =====
-- src/infrastructure/persistence/memory-store.ts: the pins, which implement `StorePort`, and the
-- histories. An append has its clock reading `now`; a promise is settled at once. The snapshot of the
-- context limits of a catalog is left out.
pub mod Agrees
pub mod Listed
use pi_smart_router.Prelude.{
  ℕ, ◌≡◌, String, Option, none, some, List, [], ◌∷◌, ◌++◌, min, max, filter, take, str_eq,
  if◌then◌else◌,
}
use mathlib.Core.List.{reverse}
use pi_smart_router.Prelude.Int.{ℤ, pos_part}
use pi_smart_router.Prelude.Table.{Table, get, set, delete, get-set, get-delete}
use pi_smart_router.Types.{SessionPin, ModelProfile, given}
use pi_smart_router.Persistence.StorePort.{StorePort}
use pi_smart_router.Persistence.History.{
  make_telemetry_room, make_dataset_room, make_outcome_room, dataset_max_entries,
  default_history_limit, max_history_limit,
}

-- The fields of an entry that a store reads.
pub record RoutingTelemetry : Type 0 where
  pub session_id : String
  pub timestamp : ℕ

pub record RoutingDatasetRecord : Type 0 where
  pub request_id : String
  pub timestamp : ℕ

pub record RoutingOutcomeRecord : Type 0 where
  pub request_id : String
  pub session_id : String
  pub timestamp : ℕ

pub data PriceSource : Type 0 where
  override registry yaml_fallback : PriceSource

pub record PriceCatalog : Type 0 where
  pub registry_snapshot : Table ℕ
  pub user_overrides : Table ℕ
  pub last_updated : ℕ
  pub source : PriceSource

pub record MemoryStore : Type 0 where
  pub pins : Table SessionPin
  pub models : List ModelProfile
  pub price_catalog : Option PriceCatalog
  pub telemetry : List RoutingTelemetry
  pub dataset : List RoutingDatasetRecord
  pub outcomes : List RoutingOutcomeRecord

abbrev pub new_store : List ModelProfile → MemoryStore
new_store models = record {
  pins = [];
  models = models;
  price_catalog = none;
  telemetry = [];
  dataset = [];
  outcomes = [];
}

unfoldable pub get_session_pin : MemoryStore → String → Option SessionPin
get_session_pin store id = get id store.pins

unfoldable pub put_session_pin : MemoryStore → SessionPin → MemoryStore
put_session_pin store pin = record store { pins = set pin.session_id pin store.pins }

unfoldable pub delete_session_pin : MemoryStore → String → MemoryStore
delete_session_pin store id = record store { pins = delete id store.pins }

abbrev pub get_model_profiles : MemoryStore → List ModelProfile
get_model_profiles store = store.models

abbrev pub get_price_catalog : MemoryStore → Option PriceCatalog
get_price_catalog store = store.price_catalog

abbrev pub put_price_catalog : MemoryStore → PriceCatalog → MemoryStore
put_price_catalog store catalog = record store { price_catalog = some catalog }

-- `clampHistoryLimit`; a limit is a whole number.
abbrev pub clamp_history_limit : Option ℤ → ℕ
clamp_history_limit none = default_history_limit
clamp_history_limit (some limit) = min (max 1 (pos_part limit)) max_history_limit

abbrev pub clamp_dataset_limit : Option ℤ → ℕ
clamp_dataset_limit none = min default_history_limit dataset_max_entries
clamp_dataset_limit (some limit) = min (max 1 (pos_part limit)) dataset_max_entries

-- `[...entries].reverse().slice(0, limit)`
abbrev pub recent : {E : Type 0} → ℕ → List E → List E
recent limit entries = take limit (reverse entries)

abbrev pub of_session : Option String → List RoutingTelemetry → List RoutingTelemetry
of_session none entries = entries
of_session (some id) entries = filter (λ e. str_eq e.session_id id) entries

-- The request id goes before the session id.
abbrev pub of_ids :
    (request session : Option String) → List RoutingOutcomeRecord → List RoutingOutcomeRecord
of_ids (some id) session entries = filter (λ e. str_eq e.request_id id) entries
of_ids none (some id) entries = filter (λ e. str_eq e.session_id id) entries
of_ids none none entries = entries

unfoldable pub append_telemetry : ℕ → MemoryStore → RoutingTelemetry → MemoryStore
append_telemetry now store entry = record store {
  telemetry = make_telemetry_room (λ e. e.timestamp) now store.telemetry ++ entry ∷ [];
}

unfoldable pub list_telemetry :
    MemoryStore → (limit : Option ℤ) → (session_id : Option String) → List RoutingTelemetry
list_telemetry store limit session_id =
    recent (clamp_history_limit limit) (of_session (given session_id) store.telemetry)

unfoldable pub append_dataset_record : ℕ → MemoryStore → RoutingDatasetRecord → MemoryStore
append_dataset_record now store entry = record store {
  dataset = make_dataset_room (λ e. e.timestamp) now store.dataset ++ entry ∷ [];
}

unfoldable pub list_dataset_records : MemoryStore → (limit : Option ℤ) → List RoutingDatasetRecord
list_dataset_records store limit = recent (clamp_dataset_limit limit) store.dataset

unfoldable pub append_outcome_record : ℕ → MemoryStore → RoutingOutcomeRecord → MemoryStore
append_outcome_record now store entry = record store {
  outcomes = make_outcome_room (λ e. e.timestamp) now store.outcomes ++ entry ∷ [];
}

unfoldable pub list_outcome_records :
    MemoryStore
    → (limit : Option ℤ) → (request_id session_id : Option String) → List RoutingOutcomeRecord
list_outcome_records store limit request_id session_id =
    recent (clamp_dataset_limit limit) (of_ids (given request_id) (given session_id) store.outcomes)

pub get-put :
    (s : MemoryStore) (pin : SessionPin) (id : String)
    → get_session_pin (put_session_pin s pin) id
      ≡ (if str_eq pin.session_id id then some pin else get_session_pin s id)
unfolding get_session_pin put_session_pin
get-put s pin id = get-set pin.session_id id pin s.pins

pub get-delete_pin :
    (s : MemoryStore) (gone id : String)
    → get_session_pin (delete_session_pin s gone) id
      ≡ (if str_eq gone id then none else get_session_pin s id)
unfolding get_session_pin delete_session_pin
get-delete_pin s gone id = get-delete gone id s.pins

-- The in-memory store keeps the contract of the port.
abbrev pub memory_port : StorePort
memory_port = record {
  Store = MemoryStore;
  get_session_pin = get_session_pin;
  put_session_pin = put_session_pin;
  delete_session_pin = delete_session_pin;
  get-put = get-put;
  get-delete = get-delete_pin;
}
