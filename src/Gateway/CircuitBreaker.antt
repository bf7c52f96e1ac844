-- ===== src/Gateway/CircuitBreaker.antt =====
-- src/infrastructure/gateway/circuit-breaker.ts. `Date.now()` is the argument `now` of each call;
-- a method of the class returns the new breaker beside its result.
pub mod Transitions
pub mod Invariant
pub mod Recovery
pub mod Asked
use pi_smart_router.Prelude.{
  ℕ, ◌+◌, ◌≤◌, ◌≡◌, String, Bool, true, false, ◌||◌, Option, none, some, List, [], ◌∷◌, leb, ◌==◌,
  str_eq, if◌then◌else◌,
}
use pi_smart_router.Prelude.Table.{Table, get, set, delete}

pub data CircuitState : Type 0 where
  closed open_ half_open : CircuitState

pub record CircuitBreakerConfig : Type 0 where
  pub failure_threshold : ℕ
  pub reset_timeout_ms : ℕ
  pub half_open_successes : ℕ

abbrev pub default_circuit_config : CircuitBreakerConfig
default_circuit_config = record {
  failure_threshold = 3;
  reset_timeout_ms = 30000;
  half_open_successes = 2;
}

pub record CircuitEntry : Type 0 where
  pub state : CircuitState
  pub consecutive_failures : ℕ
  pub consecutive_successes : ℕ
  pub last_failure_at : Option ℕ
  pub last_state_change_at : ℕ

pub record ProviderError : Type 0 where
  pub status_code : Option ℕ
  pub code : Option String
  pub message : Option String

-- The connection-level error codes of `isInfraError`.
is_connection_code : Option String → Bool
is_connection_code none = false
is_connection_code (some c) =
    str_eq c "ECONNREFUSED"
    || str_eq c "ECONNRESET"
    || str_eq c "ETIMEDOUT"
    || str_eq c "ENOTFOUND"
    || str_eq c "UND_ERR_CONNECT_TIMEOUT"
    || str_eq c "UND_ERR_SOCKET"

is_infra_status : Option ℕ → Bool
is_infra_status none = false
is_infra_status (some s) = leb 500 s || s == 429

unfoldable pub is_infra_error : ProviderError → Bool
unfolding is_connection_code is_infra_status
is_infra_error error =
    if is_connection_code error.code then true else is_infra_status error.status_code

pub record CircuitBreaker : Type 0 where
  pub circuits : Table CircuitEntry
  pub config : CircuitBreakerConfig

abbrev pub new_breaker : CircuitBreakerConfig → CircuitBreaker
new_breaker config = record { circuits = []; config = config }

put_entry : CircuitBreaker → String → CircuitEntry → CircuitBreaker
put_entry cb id entry = record cb { circuits = set id entry cb.circuits }

-- `canDispatch` on an existing entry, by its state.
entry_can_dispatch : CircuitState → CircuitEntry → ℕ → ℕ → Option CircuitEntry
entry_can_dispatch closed entry reset now = some entry
entry_can_dispatch half_open entry reset now = some entry
entry_can_dispatch open_ entry reset now =
    if leb (entry.last_state_change_at + reset) now
    then some
        (record entry { state = half_open; consecutive_successes = 0; last_state_change_at = now })
    else none

unfoldable pub can_dispatch : CircuitBreaker → String → ℕ → Bool × CircuitBreaker
unfolding put_entry entry_can_dispatch
can_dispatch cb id now = elim (get id cb.circuits) [
  | none ↦ (true, cb)
  | some entry ↦ elim (entry_can_dispatch entry.state entry cb.config.reset_timeout_ms now) [
    | none ↦ (false, cb)
    | some entry' ↦ (true, put_entry cb id entry')
  ]
]

-- `recordSuccess` on an existing entry, whose failures are already reset, by its state.
entry_success : CircuitState → CircuitEntry → ℕ → ℕ → CircuitEntry
entry_success half_open entry needed now =
    let counted : CircuitEntry = record entry {
      consecutive_successes = entry.consecutive_successes + 1;
    } in
    if leb needed (entry.consecutive_successes + 1)
    then record counted { state = closed; last_state_change_at = now }
    else counted
entry_success closed entry needed now = record entry { consecutive_successes = 0 }
entry_success open_ entry needed now = entry

unfoldable pub record_success : CircuitBreaker → String → ℕ → CircuitBreaker
unfolding put_entry entry_success
record_success cb id now = elim (get id cb.circuits) [
  | none ↦ cb
  | some entry ↦ put_entry cb id (
      entry_success entry.state (record entry { consecutive_failures = 0 })
        cb.config.half_open_successes now)
]

fresh_entry : ℕ → CircuitEntry
fresh_entry now = record {
  state = closed;
  consecutive_failures = 0;
  consecutive_successes = 0;
  last_failure_at = none;
  last_state_change_at = now;
}

-- `recordFailure` on an entry that has counted the failure, by its state before.
trip_if : Bool → CircuitEntry → ℕ → CircuitEntry
trip_if b entry now =
    if b then record entry { state = open_; last_state_change_at = now } else entry

entry_failure : CircuitState → CircuitEntry → ℕ → ℕ → CircuitEntry
unfolding trip_if
entry_failure half_open entry threshold now = record entry {
  state = open_;
  last_state_change_at = now;
}
entry_failure closed entry threshold now =
    trip_if (leb threshold entry.consecutive_failures) entry now
entry_failure open_ entry threshold now =
    trip_if (leb threshold entry.consecutive_failures) entry now

count_failure : CircuitEntry → ℕ → CircuitEntry
count_failure entry now = record entry {
  consecutive_failures = entry.consecutive_failures + 1;
  consecutive_successes = 0;
  last_failure_at = some now;
}

-- `this.circuits.get(modelId)`, or the entry that `recordFailure` creates.
entry_or_fresh : Option CircuitEntry → ℕ → CircuitEntry
unfolding fresh_entry
entry_or_fresh none now = fresh_entry now
entry_or_fresh (some entry) now = entry

unfoldable pub record_failure : CircuitBreaker → String → ℕ → CircuitBreaker
unfolding put_entry entry_failure count_failure entry_or_fresh
record_failure cb id now =
    let entry : CircuitEntry = entry_or_fresh (get id cb.circuits) now in
    put_entry cb id
      (entry_failure entry.state (count_failure entry now) cb.config.failure_threshold now)

pub record CircuitSnapshot : Type 0 where
  pub model_id : String
  pub state : CircuitState
  pub consecutive_failures : ℕ
  pub consecutive_successes : ℕ
  pub last_failure_at : Option ℕ
  pub last_state_change_at : ℕ

unfoldable pub get_snapshot : CircuitBreaker → String → CircuitSnapshot
get_snapshot cb id = elim (get id cb.circuits) [
  | none ↦ record {
    model_id = id;
    state = closed;
    consecutive_failures = 0;
    consecutive_successes = 0;
    last_failure_at = none;
    last_state_change_at = 0;
  }
  | some entry ↦ record {
    model_id = id;
    state = entry.state;
    consecutive_failures = entry.consecutive_failures;
    consecutive_successes = entry.consecutive_successes;
    last_failure_at = entry.last_failure_at;
    last_state_change_at = entry.last_state_change_at;
  }
]

unfoldable pub reset : CircuitBreaker → String → CircuitBreaker
reset cb id = record cb { circuits = delete id cb.circuits }

abbrev is_open : CircuitState → Bool
is_open open_ = true
is_open closed = false
is_open half_open = false

open_ids : Table CircuitEntry → List String
open_ids [] = []
open_ids ((id, entry) ∷ rest) =
    let later = open_ids rest in if is_open entry.state then id ∷ later else later

unfoldable pub get_open_circuits : CircuitBreaker → List String
unfolding open_ids
get_open_circuits cb = open_ids cb.circuits
