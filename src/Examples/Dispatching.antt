-- ===== src/Examples/Dispatching.antt =====
-- The gateway dispatch and the prewarm guard at concrete inputs.
use pi_smart_router.Prelude.{ℕ, ◌≡◌, ◌↔◌, refl, true, false, none, some, List, [], ◌∷◌, arith}
use pi_smart_router.Prelude.Table.{get, set}
use pi_smart_router.Types.{RoutingDecision}
use pi_smart_router.Gateway.CircuitBreaker.{
  CircuitBreaker, ProviderError, new_breaker, default_circuit_config, record_failure,
}
use pi_smart_router.Prelude.Texts.{text_eq, units, starts_with}
use pi_smart_router.Gateway.Dispatch.{
  is_cursor_subscription_model, FailoverDraws, GatewayDispatch, select_failover,
  apply_circuit_breaker,
}
use pi_smart_router.Gateway.Dispatch.Outcome.{has_quota_exhaustion, is_cursor_quota_exhausted_error}
use pi_smart_router.Gateway.Dispatch.Outcome.Recorded.{
  Reported, record_outcomes, record_outcomes_separate,
}
use pi_smart_router.Gateway.Dispatch.Failover.{
  Guarded, select_failover-Takes, apply_circuit_breaker-Guarded,
}
use pi_smart_router.Gateway.Dispatch.Alternative.{TakesOr, NoAlternative}
use pi_smart_router.Routing.Prewarm.{
  SpeculativePrewarmConfig, local_runtime, timeout, new_guard, disabled_reason,
  prewarm_disabled_low_acceptance,
}
use pi_smart_router.Routing.Prewarm.Guard.{Call, run_call, fresh, then_}
use pi_smart_router.Routing.Prewarm.Trips.{LowAfter, guard_trips_iff, never_disabled}
use pi_smart_router.Pipeline.{decision_for}
use pi_smart_router.Examples.Fixtures.{fleet, mini, request}

abbrev half : ℕ × ℕ
half = (1, 2)

abbrev draws : FailoverDraws
draws = record { economical = half; same_tier = half; any_healthy = half }

-- A breaker whose circuit for `mini` is open.
abbrev failing : CircuitBreaker
failing =
    record_failure
      (record_failure (record_failure (new_breaker default_circuit_config) "mini" 1) "mini" 2)
      "mini" 3

abbrev decision : RoutingDecision
decision = decision_for request mini "triage" "trivial_prompt"

select_failover-Takes_example :
    TakesOr decision [] fleet failing 4
      (NoAlternative decision [] fleet failing 4)
      (select_failover (λ s. []) draws ("mini" ∷ []) decision [] fleet failing 4)
select_failover-Takes_example =
    select_failover-Takes (λ s. []) draws (omega arith, omega arith, omega arith) decision [] fleet
      failing 4 ("mini" ∷ []) failing (λ id. refl)

apply_circuit_breaker-Guarded_example :
    Guarded decision fleet failing 4
      (apply_circuit_breaker (λ s. []) draws [] decision fleet failing 4).0
apply_circuit_breaker-Guarded_example =
    apply_circuit_breaker-Guarded (λ s. []) draws (omega arith, omega arith, omega arith) decision
      fleet failing 4 []

abbrev gateway : GatewayDispatch
gateway = record {
  fleet = fleet;
  cache_markers = [];
  circuit_breaker = failing;
  quota_exhausted_models = [];
}

abbrev overloaded : ProviderError
overloaded = record { status_code = some 503; code = none; message = none }

abbrev used_up : ProviderError
used_up = record { status_code = some 429; code = none; message = some "usage limit" }

-- An infrastructure error, a quota error and a success.
abbrev outcomes : List Reported
outcomes =
    (record { model_id = "grand"; error = some overloaded; at = 9 })
    ∷ (record { model_id = "mini"; error = some used_up; at = 10 })
    ∷ (record { model_id = "grand"; error = none; at = 11 })
    ∷ []

record_outcomes_separate_example :
    (has_quota_exhaustion
        (λ s. [])
        (λ m. false)
        (λ m. true)
        (record_outcomes (λ s. []) (λ m. false) (λ m. true) gateway outcomes)
        "mini"
      ≡ true)
    × (get "mini"
          (record_outcomes
            (λ s. [])
            (λ m. false)
            (λ m. true)
            gateway
            outcomes).circuit_breaker.circuits
        ≡ get "mini" failing.circuits)
unfolding is_cursor_quota_exhausted_error get set is_cursor_subscription_model record_failure
    text_eq units starts_with
record_outcomes_separate_example =
    record_outcomes_separate (λ s. []) (λ m. false) (λ m. true) gateway outcomes "mini"

-- A guard that wants one attempt, or more attempts than a session's window holds.
abbrev config : ℕ → SpeculativePrewarmConfig
config attempts = record {
  enabled = true;
  deadline_ms = 50;
  min_acceptance_rate = 500;
  min_attempts_before_guard = attempts;
}

abbrev missed : Call
missed = record { session = "s1"; target = local_runtime; raced = timeout; start = 0; end = 50 }

guard_trips_iff_example :
    (disabled_reason (run_call (new_guard (some (config 1))) missed) "s1"
      ≡ some prewarm_disabled_low_acceptance)
    ↔ LowAfter (config 1) refl [] missed
unfolding disabled_reason get
guard_trips_iff_example =
    guard_trips_iff (config 1) refl [] (new_guard (some (config 1))) missed fresh refl

never_disabled_example :
    disabled_reason (run_call (new_guard (some (config 20))) missed) "s1" ≡ none
never_disabled_example =
    never_disabled (config 20) refl (missed ∷ []) (run_call (new_guard (some (config 20))) missed)
      "s1" (then_ [] (new_guard (some (config 20))) missed fresh) (omega arith)
