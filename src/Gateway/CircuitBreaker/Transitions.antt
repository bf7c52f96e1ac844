-- ===== src/Gateway/CircuitBreaker/Transitions.antt =====
-- The documented state machine of src/infrastructure/gateway/circuit-breaker.ts as a relation, and
-- what every call keeps.
use pi_smart_router.Prelude.{
  ℕ, ◌+◌, ◌≡◌, refl, ◌≢◌, inl, inr, String, Option, none, some, arith, str_eq, eq_iff, leb, eq_refl,
  get_or, if◌then◌else◌, Bool-cases, Option-cases,
}
use pi_smart_router.Prelude.Table.{get, get-set, get-delete}
use pi_smart_router.Gateway.CircuitBreaker.{
  CircuitState, closed, open_, half_open, CircuitBreakerConfig, CircuitEntry, CircuitBreaker,
  can_dispatch, record_success, record_failure, reset, entry_can_dispatch, entry_success,
  entry_failure, count_failure, entry_or_fresh,
}

-- A call of the breaker on one model.
pub data Call : Type 0 where
  dispatches succeeds fails resets : Call

unfoldable pub run_call : Call → CircuitBreaker → String → ℕ → CircuitBreaker
run_call dispatches cb id now = (can_dispatch cb id now).1
run_call succeeds cb id now = record_success cb id now
run_call fails cb id now = record_failure cb id now
run_call resets cb id now = reset cb id

-- CLOSED → OPEN → HALF_OPEN → CLOSED or OPEN; only `reset` closes an open circuit directly.
pub data Allowed : Call → CircuitState → CircuitState → Type 0 where
  stay : {c : Call} {s : CircuitState} → Allowed c s s
  trip : Allowed fails closed open_
  reopen : Allowed fails half_open open_
  probe : Allowed dispatches open_ half_open
  close : Allowed succeeds half_open closed
  clear : {s : CircuitState} → Allowed resets s closed

abbrev pub state_at : Option CircuitEntry → CircuitState
state_at none = closed
state_at (some entry) = entry.state

abbrev pub state_of : CircuitBreaker → String → CircuitState
state_of cb id = state_at (get id cb.circuits)

-- What a call does to the entry of its own model.
unfoldable pub entry_call :
    Call → CircuitBreakerConfig → ℕ → Option CircuitEntry → Option CircuitEntry
unfolding entry_can_dispatch entry_success entry_failure count_failure entry_or_fresh
entry_call dispatches config now none = none
entry_call dispatches config now (some entry) =
    some (get_or (entry_can_dispatch entry.state entry config.reset_timeout_ms now) entry)
entry_call succeeds config now none = none
entry_call succeeds config now (some entry) = some (
    entry_success entry.state (record entry { consecutive_failures = 0 }) config.half_open_successes
      now)
entry_call fails config now found =
    let entry : CircuitEntry = entry_or_fresh found now in
    some (entry_failure entry.state (count_failure entry now) config.failure_threshold now)
entry_call resets config now found = none

-- A call changes its own model's entry, and no other.
pub get-run_call :
    (c : Call) (cb : CircuitBreaker) (id other : String) (now : ℕ)
    → get other (run_call c cb id now).circuits ≡ (
        if str_eq id other
        then entry_call c cb.config now (get id cb.circuits)
        else get other cb.circuits)
unfolding run_call can_dispatch record_success record_failure reset entry_call
get-run_call dispatches cb id other now = elim (Option-cases (get id cb.circuits)) [
  | inl e ↦ ground (arith, eq_iff id other)
  | inr (entry, e) ↦
      let reset_ms : ℕ = cb.config.reset_timeout_ms in
      elim (Option-cases (entry_can_dispatch entry.state entry reset_ms now)) [
        | inl refused ↦ ground (arith, eq_iff id other)
        | inr (entry', granted) ↦ ground (arith, get-set id other entry' cb.circuits)
      ]
]
get-run_call succeeds cb id other now = elim (Option-cases (get id cb.circuits)) [
  | inl e ↦ ground (arith, eq_iff id other)
  | inr (entry, e) ↦ rw (e, record_success) (get-set id other _ cb.circuits)
]
get-run_call fails cb id other now = get-set id other _ cb.circuits
get-run_call resets cb id other now = get-delete id other cb.circuits

can_dispatch-Allowed :
    (s : CircuitState) (entry : CircuitEntry) (reset_ms now : ℕ)
    → entry.state ≡ s
    → Allowed dispatches s (get_or (entry_can_dispatch s entry reset_ms now) entry).state
unfolding entry_can_dispatch
can_dispatch-Allowed closed entry reset_ms now e = rw e stay
can_dispatch-Allowed half_open entry reset_ms now e = rw e stay
can_dispatch-Allowed open_ entry reset_ms now e =
    elim (Bool-cases (leb (entry.last_state_change_at + reset_ms) now)) [
      | inl elapsed ↦ rw elapsed probe
      | inr waiting ↦ rw (waiting, e) stay
    ]

success-Allowed :
    (s : CircuitState) (entry : CircuitEntry) (needed now : ℕ)
    → entry.state ≡ s
    → Allowed succeeds s (entry_success s entry needed now).state
unfolding entry_success
success-Allowed closed entry needed now e = rw e stay
success-Allowed open_ entry needed now e = rw e stay
success-Allowed half_open entry needed now e =
    elim (Bool-cases (leb needed (entry.consecutive_successes + 1))) [
      | inl enough ↦ rw enough close
      | inr more ↦ rw (more, e) stay
    ]

failure-Allowed :
    (s : CircuitState) (entry : CircuitEntry) (threshold now : ℕ)
    → entry.state ≡ s
    → Allowed fails s (entry_failure s entry threshold now).state
unfolding entry_failure
failure-Allowed half_open entry threshold now e = reopen
failure-Allowed closed entry threshold now e =
    elim (Bool-cases (leb threshold entry.consecutive_failures)) [
      | inl over ↦ rw over trip
      | inr under ↦ rw (under, e) stay
    ]
failure-Allowed open_ entry threshold now e =
    elim (Bool-cases (leb threshold entry.consecutive_failures)) [
      | inl over ↦ rw over stay
      | inr under ↦ rw (under, e) stay
    ]

entry_call-Allowed :
    (c : Call) (config : CircuitBreakerConfig) (now : ℕ) (found : Option CircuitEntry)
    → Allowed c (state_at found) (state_at (entry_call c config now found))
unfolding entry_call
entry_call-Allowed dispatches config now none = stay
entry_call-Allowed dispatches config now (some entry) =
    can_dispatch-Allowed entry.state entry config.reset_timeout_ms now refl
entry_call-Allowed succeeds config now none = stay
entry_call-Allowed succeeds config now (some entry) =
    success-Allowed entry.state (record entry { consecutive_failures = 0 })
      config.half_open_successes now refl
entry_call-Allowed fails config now none =
    failure-Allowed closed (count_failure (entry_or_fresh none now) now) config.failure_threshold
      now refl
entry_call-Allowed fails config now (some entry) =
    failure-Allowed entry.state (count_failure entry now) config.failure_threshold now refl
entry_call-Allowed resets config now found = clear

-- A call on one model moves that model's circuit along an allowed transition of the state machine
-- CLOSED → OPEN → HALF_OPEN → CLOSED or OPEN (a reset, which closes from any state, apart).
pub run_call-Allowed :
    (c : Call) (cb : CircuitBreaker) (id : String) (now : ℕ)
    → Allowed c (state_of cb id) (state_of (run_call c cb id now) id)
run_call-Allowed c cb id now =
    rw (get-run_call c cb id id now, eq_refl id)
      (entry_call-Allowed c cb.config now (get id cb.circuits))

-- A call on one model leaves the entry of every other model as it was.
run_call_other :
    (c : Call) (cb : CircuitBreaker) (id other : String) (now : ℕ)
    → id ≢ other
    → get other (run_call c cb id now).circuits ≡ get other cb.circuits
run_call_other c cb id other now h = ground (arith, get-run_call c cb id other now, eq_iff id other)
