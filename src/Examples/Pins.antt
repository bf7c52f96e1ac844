-- ===== src/Examples/Pins.antt =====
-- The session pinner, its trackers, the loop escalation and the sub-routes at concrete inputs.
use pi_smart_router.Prelude.{ℕ, ◌≡◌, refl, subst, true, none, some, List, [], ◌∷◌, arith}
use pi_smart_router.Prelude.Table.{get}
use pi_smart_router.Types.{
  user_forced, loop_escalation, RoutingRequest, SessionPin, FailureSignature,
}
use pi_smart_router.Persistence.MemoryStore.{MemoryStore, get_session_pin, memory_port}
use pi_smart_router.Pinning.Saar.Laws.{Call, turn, touch}
use pi_smart_router.Pinning.Pinner.{record_pin, break_pin, load_pin}
use pi_smart_router.Pinning.Pinner.Rules.{
  PinLookupResult, evaluate_sub_routing, bare, sub_route, is_flip_flop_tier_change_blocked,
  observe_shadow_tier,
}
use pi_smart_router.Pinning.Pinner.RuleHonoured.{Honoured, was_compacted}
use pi_smart_router.Pinning.Pinner.Honoured.{lookup_pin-Honoured}
use pi_smart_router.Pinning.Economics.{evaluate_model_switch_breakeven}
use pi_smart_router.Pinning.FlipFlop.{is_tier_pinned}
use pi_smart_router.Pinning.ToolFailure.{is_tool_failure}
use pi_smart_router.Pinning.Pinner.Lookup.{lookup_pin}
use pi_smart_router.Pinning.Pinner.Settled.{Settled}
use pi_smart_router.Pinning.Pinner.Outcome.{lookup_pin-Settled}
use pi_smart_router.Pinning.Pinner.State.{Mirrors, pin_writes-Mirrors}
use pi_smart_router.Pinning.SubRoute.{evaluate_sub_route_policy}
use pi_smart_router.Pinning.SubRoute.Policy.{pinner_sub_route_eligible}
use pi_smart_router.Pinning.LoopEscalation.{
  LoopEscalationConfig, run_loop_escalation, select_escalation_target,
  extract_tool_failure_signature, is_pinned_tier, compute_signature, last_tool_message,
}
use pi_smart_router.Pinning.LoopEscalation.Rules.{StageOutcome, run_loop_escalation-StageOutcome}
use pi_smart_router.Pinning.LoopEscalation.Streak.{
  Turn, Failing, Economical, run_turns, streak_escalates,
}
use pi_smart_router.Examples.Fixtures.{fleet, mini, nano, grand, request, pin, pinner, same_text}

lookup_pin-Settled_example :
    let r = lookup_pin memory_port pinner request fleet 5 in
    Settled r.0 (get "s1" pinner.pins) (get "s1" r.1.pins)
lookup_pin-Settled_example = lookup_pin-Settled memory_port pinner request fleet 5

pinned_here : get "s1" pinner.pins ≡ some pin
unfolding get
pinned_here = refl

some_store : (a b : MemoryStore) → some a ≡ some b → a ≡ b
some_store a b e = cc

own_store : Mirrors memory_port pinner "s1"
unfolding get_session_pin
own_store s e = subst (λ t. get_session_pin t "s1" ≡ get "s1" pinner.pins) (some_store _ s e) refl

pin_writes-Mirrors_example :
    Mirrors memory_port (record_pin memory_port pinner "s1" "grand" user_forced 5) "s1"
    × Mirrors memory_port (break_pin memory_port pinner "s1") "s1"
    × Mirrors memory_port (load_pin memory_port pinner pin) "s1"
pin_writes-Mirrors_example =
    pin_writes-Mirrors memory_port pinner "s1" "grand" user_forced 5 pin "s1" own_store

abbrev saar_calls : List (Call × ℕ)
saar_calls = (turn, 1000) ∷ (touch, 2000) ∷ []

abbrev loop_config : LoopEscalationConfig
loop_config = record { threshold = 3; zero_tier_tool_call_threshold = none }

run_loop_escalation-StageOutcome_example : StageOutcome fleet pin (
    get "s1"
      (run_loop_escalation same_text same_text memory_port pinner request fleet loop_config 5).pins)
run_loop_escalation-StageOutcome_example =
    run_loop_escalation-StageOutcome memory_port same_text same_text pinner request fleet
      loop_config 5 pin pinned_here refl

abbrev sub_routed : PinLookupResult
sub_routed = record (bare sub_route) { pinned_model = some mini; sub_route_model = some nano }

pinner_sub_routes : evaluate_sub_routing pinner request pin fleet ≡ some sub_routed
unfolding evaluate_sub_routing evaluate_model_switch_breakeven is_tier_pinned get
    is_flip_flop_tier_change_blocked
pinner_sub_routes = refl

pinner_sub_route_eligible_example :
    (evaluate_sub_route_policy request pin fleet (some 2048)).is_eligible ≡ true
pinner_sub_route_eligible_example =
    pinner_sub_route_eligible pinner request pin fleet sub_routed pinner_sub_routes

abbrev failing : Turn
failing = (request, 5)

signature : FailureSignature
unfolding compute_signature
signature = compute_signature same_text same_text []

has_failed : extract_tool_failure_signature same_text same_text request ≡ some signature
unfolding extract_tool_failure_signature last_tool_message signature is_tool_failure
has_failed = refl

failing_here : Failing same_text same_text memory_port fleet loop_config "s1" failing
failing_here = (refl, refl, (signature, has_failed))

pinned-Economical :
    Economical same_text same_text memory_port fleet loop_config "s1" 0 pinner "mini"
unfolding is_pinned_tier
pinned-Economical = (pin, pinned_here, refl, refl, refl, refl, refl)

targeted : select_escalation_target fleet "mini" ≡ some grand
unfolding select_escalation_target
targeted = refl

streak_escalates_example :
    let ts = failing ∷ failing ∷ [] in
    let before = run_turns same_text same_text memory_port fleet loop_config pinner ts in
    let after =
      run_loop_escalation same_text same_text memory_port before request fleet loop_config 5 in
    Economical same_text same_text memory_port fleet loop_config "s1" 2 before "mini"
    × ((q : SessionPin) × (get "s1" after.pins ≡ some q)
        × (q.pinned_model_id ≡ "grand")
        × (q.pin_reason ≡ loop_escalation))
streak_escalates_example =
    streak_escalates same_text same_text memory_port fleet loop_config (failing ∷ failing ∷ [])
      failing pinner "s1" "mini" 0 grand pinned-Economical (failing_here, (failing_here, tt))
      failing_here (omega arith) targeted

abbrev forced_request : RoutingRequest
forced_request = record request { force_model_id = some "grand" }

-- A pinned session, whose request forces a frontier model.
lookup_pin-Honoured_example :
    Honoured fleet "grand"
      (is_tier_pinned
        (observe_shadow_tier
          (record pinner { last_fleet = some fleet })
          forced_request
          fleet).flip_flop_guard
        "s1")
      (was_compacted forced_request (get "s1" pinner.pins))
      (lookup_pin memory_port pinner forced_request fleet 5).0
lookup_pin-Honoured_example =
    lookup_pin-Honoured memory_port forced_request fleet "grand" refl pinner 5
