-- ===== src/Gateway/CircuitBreaker/Invariant.antt =====
-- What every call of src/infrastructure/gateway/circuit-breaker.ts keeps of each circuit.
use pi_smart_router.Prelude.{
  ℕ, ◌<◌, ◌≡◌, refl, inl, inr, String, Option, none, some, arith, str_eq, Bool-cases, get_or,
}
use pi_smart_router.Prelude.Table.{get}
use pi_smart_router.Gateway.CircuitBreaker.{
  CircuitState, closed, open_, half_open, CircuitBreakerConfig, CircuitEntry, CircuitBreaker,
  can_dispatch, entry_can_dispatch, entry_success, entry_failure, count_failure, fresh_entry,
  record_success, record_failure, reset,
}
use pi_smart_router.Gateway.CircuitBreaker.Transitions.{
  Call, dispatches, succeeds, fails, resets, run_call, entry_call, get-run_call,
}

-- A closed circuit has not used up its failures, a probing one not yet its successes, and an open
-- one has none.
pub record IsCoherent (config : CircuitBreakerConfig) (entry : CircuitEntry) : Type 0 where
  pub closed_below : entry.state ≡ closed → entry.consecutive_failures < config.failure_threshold
  pub probing_below :
      entry.state ≡ half_open → entry.consecutive_successes < config.half_open_successes
  pub open_cleared : entry.state ≡ open_ → entry.consecutive_successes ≡ 0

abbrev Coherent : CircuitBreakerConfig → Option CircuitEntry → Type 0
Coherent config none = Unit
Coherent config (some entry) = IsCoherent config entry

abbrev pub AllCoherent : CircuitBreaker → Type 0
AllCoherent cb = (id : String) → Coherent cb.config (get id cb.circuits)

module _ (config : CircuitBreakerConfig) (entry : CircuitEntry) (now : ℕ) where
  can_dispatch-Coherent :
      (s : CircuitState)
      → entry.state ≡ s
      → 0 < config.half_open_successes
      → IsCoherent config entry
      → IsCoherent config (get_or (entry_can_dispatch s entry config.reset_timeout_ms now) entry)
  unfolding entry_can_dispatch
  can_dispatch-Coherent closed e h v = v
  can_dispatch-Coherent half_open e h v = v
  can_dispatch-Coherent open_ e h v = ground arith

  success-Coherent :
      (s : CircuitState)
      → entry.state ≡ s
      → 0 < config.failure_threshold
      → 0 < config.half_open_successes
      → IsCoherent config entry
      → IsCoherent config (
          entry_success s
            (record entry { consecutive_failures = 0 })
            config.half_open_successes
            now)
  unfolding entry_success
  success-Coherent closed e h k v = ground arith
  success-Coherent half_open e h k v = ground arith
  success-Coherent open_ e h k v = ground arith

  failure-Coherent :
      (s : CircuitState)
      → entry.state ≡ s
      → IsCoherent config (entry_failure s (count_failure entry now) config.failure_threshold now)
  unfolding entry_failure count_failure
  failure-Coherent closed e = ground arith
  failure-Coherent half_open e = ground arith
  failure-Coherent open_ e = ground arith

entry_call-Coherent :
    (c : Call) (config : CircuitBreakerConfig) (now : ℕ) (found : Option CircuitEntry)
    → 0 < config.failure_threshold
    → 0 < config.half_open_successes
    → Coherent config found
    → Coherent config (entry_call c config now found)
unfolding entry_call
entry_call-Coherent dispatches config now none h k v = tt
entry_call-Coherent dispatches config now (some entry) h k v =
    can_dispatch-Coherent config entry now entry.state refl k v
entry_call-Coherent succeeds config now none h k v = tt
entry_call-Coherent succeeds config now (some entry) h k v =
    success-Coherent config entry now entry.state refl h k v
entry_call-Coherent fails config now none h k v =
    failure-Coherent config (fresh_entry now) now closed refl
entry_call-Coherent fails config now (some entry) h k v =
    failure-Coherent config entry now entry.state refl
entry_call-Coherent resets config now found h k v = tt

pub config-run_call :
    (c : Call) (cb : CircuitBreaker) (id : String) (now : ℕ)
    → (run_call c cb id now).config ≡ cb.config
unfolding run_call can_dispatch record_success record_failure reset
config-run_call dispatches cb id now = ground arith
config-run_call succeeds cb id now = ground arith
config-run_call fails cb id now = refl
config-run_call resets cb id now = refl

-- Every call keeps all circuits coherent (with thresholds above zero): a closed one has counted fewer
-- failures than the threshold, a probing one fewer successes than needed, an open one none.
run_call-AllCoherent :
    (c : Call) (cb : CircuitBreaker) (id : String) (now : ℕ)
    → 0 < cb.config.failure_threshold
    → 0 < cb.config.half_open_successes
    → AllCoherent cb
    → AllCoherent (run_call c cb id now)
run_call-AllCoherent c cb id now h k v other =
    rw (config-run_call c cb id now, get-run_call c cb id other now)
      (elim (Bool-cases (str_eq id other)) [
        | inl same ↦ rw same (entry_call-Coherent c cb.config now _ h k (v id))
        | inr differ ↦ rw differ (v other)
      ])
