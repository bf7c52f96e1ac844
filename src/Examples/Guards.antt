-- ===== src/Examples/Guards.antt =====
-- The circuit breaker and the flip-flop guard at concrete inputs.
use pi_smart_router.Prelude.{
  ◌+◌, ◌≡◌, ◌<◌, ◌≤◌, refl, true, false, none, some, List, [], ◌∷◌, ◌++◌, arith,
}
use pi_smart_router.Prelude.Table.{get}
use pi_smart_router.Types.{Tier, economical_cloud, frontier_cloud}
use pi_smart_router.Gateway.CircuitBreaker.{
  CircuitBreaker, CircuitEntry, default_circuit_config, new_breaker, can_dispatch, closed,
  half_open,
}
use pi_smart_router.Gateway.CircuitBreaker.Transitions.{
  succeeds, fails, run_call, Allowed, state_of, run_call-Allowed,
}
use pi_smart_router.Gateway.CircuitBreaker.Recovery.{
  run_all, Failed, Probing, failures_trip, successes_close,
}
use pi_smart_router.Pinning.FlipFlop.{FlipFlopGuard, new_guard, is_tier_pinned}
use pi_smart_router.Pinning.FlipFlop.Steps.{observe_all}
use pi_smart_router.Pinning.FlipFlop.Laws.{alternation_pins}

abbrev breaker : CircuitBreaker
breaker = new_breaker default_circuit_config

abbrev probing_entry : CircuitEntry
probing_entry = record {
  state = half_open;
  consecutive_failures = 3;
  consecutive_successes = 0;
  last_failure_at = some 10;
  last_state_change_at = 30010;
}

abbrev probing : CircuitBreaker
probing = record { circuits = ("m", probing_entry) ∷ []; config = default_circuit_config }

run_call-Allowed_example :
    Allowed fails (state_of probing "m") (state_of (run_call fails probing "m" 40000) "m")
run_call-Allowed_example = run_call-Allowed fails probing "m" 40000

failures_trip_example :
    let after = run_all fails breaker "m" (1 ∷ 2 ∷ 3 ∷ []) in
    (state_of (run_all fails breaker "m" (1 ∷ 2 ∷ [])) "m" ≡ closed)
    × (20 < 3 + 30000 → can_dispatch after "m" 20 ≡ (false, after))
    × (3 + 30000 ≤ 20
        → ((can_dispatch after "m" 20).0 ≡ true) × Probing (can_dispatch after "m" 20).1 "m" 0)
unfolding get
failures_trip_example = failures_trip breaker "m" (1 ∷ 2 ∷ []) 3 20 (refl, refl) (omega arith)

successes_close_example :
    (state_of (run_all succeeds probing "m" (40000 ∷ [])) "m" ≡ half_open)
    × Failed (run_all succeeds probing "m" (40000 ∷ 50000 ∷ [])) "m" 0
unfolding get
successes_close_example = successes_close probing "m" (40000 ∷ []) 50000 (refl, refl) (omega arith)

abbrev guard : FlipFlopGuard
guard = new_guard none

abbrev before_pin : List Tier
before_pin = frontier_cloud ∷ economical_cloud ∷ []

alternation_pins_example :
    (is_tier_pinned (observe_all guard "s1" (economical_cloud ∷ before_pin)) "s1" ≡ none)
    × (is_tier_pinned
          (observe_all guard "s1" (economical_cloud ∷ before_pin ++ frontier_cloud ∷ []))
          "s1"
        ≡ some frontier_cloud)
unfolding get
alternation_pins_example =
    alternation_pins guard "s1" economical_cloud before_pin frontier_cloud refl
      (refl, (refl, (refl, tt))) (omega arith)
