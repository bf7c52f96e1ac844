-- ===== src/Examples/Routes.antt =====
-- The pipeline at concrete inputs.
use pi_smart_router.Prelude.{◌≡◌, refl, true, false, none, some, List, [], ◌∷◌}
use pi_smart_router.Types.{RoutingRequest, planning, Tier, economical_cloud, frontier_cloud}
use pi_smart_router.Persistence.MemoryStore.{MemoryStore, memory_port}
use pi_smart_router.Pinning.Pinner.Lookup.{lookup_pin}
use pi_smart_router.Pinning.Pinner.Rules.{token_estimate}
use pi_smart_router.Pinning.Pinner.RuleRouted.{Routed}
use pi_smart_router.Pinning.Pinner.Routed.{lookup_pin-Routed}
use pi_smart_router.Routing.ContextFit.{unset, resolve_safety_margin}
use pi_smart_router.Pipeline.{PipelineOptions, create_routing_context, Route, undecided, ambiguous}
use pi_smart_router.Pipeline.Classify.{turn_type_of}
use pi_smart_router.Pipeline.Overflow.{
  build_fallback_decision, should_attempt_context_overflow_fallback,
}
use pi_smart_router.Pipeline.Overflow.Fallback.{Grounded, fallback_decision-Grounded}
use pi_smart_router.Pipeline.TurnEnvelope.{run_turn_envelope}
use pi_smart_router.Pipeline.TurnEnvelope.Biased.{TurnRun, Biased, run_turn_envelope-Biased}
use pi_smart_router.Pipeline.Router.{Telemetry, route_exclusive}
use pi_smart_router.Pipeline.Router.Answer.{Answered}
use pi_smart_router.Pipeline.Router.Stages.{Environment, stages}
use pi_smart_router.Pipeline.Router.Whole.{pipeline-Answered}
use pi_smart_router.Routing.Prewarm.{SpeculativePrewarmGuard, new_guard}
use pi_smart_router.Routing.Degraded.{
  DegradedRouteConfig, InMemoryLearnedRouteStore, DegradedRouteInput, LearnedRouteKey, neural_error,
  resolve_degraded_route, new_learned_store, record_route, lookup,
}
use pi_smart_router.Routing.Degraded.Resolved.{RestsOn, resolve_degraded_route-RestsOn}
use pi_smart_router.Routing.Degraded.Learned.{Bounded, tier_of, record_all, record_all-learns}
use pi_smart_router.Pipeline.LocalZero.{LocalZeroOptions, run_local_zero}
use pi_smart_router.Pipeline.LocalZero.Outcome.{ZeroRun, Dispatched}
use pi_smart_router.Pipeline.LocalZero.Gated.{run_local_zero-Dispatched}
use pi_smart_router.Pipeline.Sound.{EstimatorReturns}
use pi_smart_router.Types.{ModelProfile, RoutingRequest}
use pi_smart_router.Prelude.{ℕ, is_some, subst, Option}
use pi_smart_router.Pipeline.HydraMatch.{HydraOptions, match_failed}
use pi_smart_router.Examples.Fixtures.{fleet, mini, request, large_request, pinner, same_text}

abbrev options : PipelineOptions
options = record {
  loop_escalation_config = none;
  cost_estimator = some (λ m r. some 5);
  context_fit_config = none;
  saar_config = none;
  planning_delegate_config = none;
  pin_only_fallback = false;
}

-- An emitter whose ordinary events always throw, and whose error events return.
abbrev telemetry : Telemetry
telemetry = record { emit_throws = λ r d. true; emit_pipeline_error_throws = λ r stage d. false }

-- A ready local runtime behind a fast meter.
abbrev local_options : LocalZeroOptions
local_options = record {
  high_threshold = 700;
  enabled = true;
  max_tool_use_requirement = 250;
  above_threshold = some true;
  prewarm_ping = none;
  prewarm_timed_out = false;
  prewarm_start = 0;
  prewarm_end = 40;
  ping = some (record { any_model_ready = true; combined_latency_ms = 12 });
  trim = same_text;
  tool_use_cues = [];
}

abbrev degraded_config : DegradedRouteConfig
degraded_config = record {
  enabled = true;
  learned_min_confidence = 600;
  learned_max_entries = 512;
  pattern_tool_use_ceiling = 300;
  fail_closed_on_missing_weights = false;
}

-- A matcher that always throws.
abbrev hydra_options : HydraOptions
hydra_options = record {
  hydra_matcher = some (λ r models. match_failed);
  degraded_route_config = degraded_config;
  pattern_pack = none;
  trim = same_text;
  tool_use_cues = [];
  is_valid_fingerprint = λ s. true;
  is_valid_cluster_id = λ s. true;
}

abbrev guard : SpeculativePrewarmGuard
guard = new_guard none

abbrev env : Environment MemoryStore
env = record {
  lower = same_text;
  trim = same_text;
  planning_signal = λ t. false;
  subagent_signal = λ t. false;
  hardware = some none;
  triage = record { verdict = ambiguous; reason_code = "ambiguous" };
  typed_judgment = λ now route. undecided route;
  low_intensity = λ now route. undecided route;
  local_zero = local_options;
  hydra = hydra_options;
}

lookup_pin-Routed_example : Routed fleet (lookup_pin memory_port pinner request fleet 5).0
lookup_pin-Routed_example = lookup_pin-Routed memory_port fleet pinner request 5

abbrev Returning : Option (ModelProfile → RoutingRequest → Option ℕ) → Type 0
Returning none = Unit
Returning (some f) = (m : ModelProfile) → is_some (f m request) ≡ true

estimator_returns : EstimatorReturns options request
estimator_returns f e = subst Returning e (λ m. refl)

-- The hardware probe throws and the route still answers.
pipeline-Answered_example : Answered memory_port fleet request.session_id (
    route_exclusive memory_port telemetry unset options request
      (λ s. [])
      (λ s. [])
      (stages memory_port env unset options request)
      fleet
      (λ i. i)
      (some pinner)
      none
      guard)
pipeline-Answered_example =
    pipeline-Answered memory_port telemetry unset options request fleet env (λ s. []) (λ s. [])
      (λ i. i) (some pinner) none guard (λ failed d. refl) estimator_returns
      (λ now route h. h, λ now route h. h, λ r models. tt)

fallback_decision-Grounded_example :
    Grounded options large_request
      (should_attempt_context_overflow_fallback large_request (create_routing_context fleet))
      (create_routing_context fleet)
      (token_estimate large_request)
      (resolve_safety_margin unset none)
      (build_fallback_decision unset options large_request (create_routing_context fleet) 3)
fallback_decision-Grounded_example =
    fallback_decision-Grounded unset options large_request (create_routing_context fleet) 3

abbrev planning_request : RoutingRequest
planning_request = record request { turn_type = some planning }

abbrev route : Route MemoryStore
route = record {
  context = create_routing_context fleet;
  pinner = some pinner;
  learned_routes = none;
  prewarm_guard = guard;
}

run_turn_envelope-Biased_example :
    TurnRun options planning_request
      (turn_type_of (λ t. false) (λ t. false) planning_request)
      (Biased options planning_request
        (turn_type_of (λ t. false) (λ t. false) planning_request)
        (some pinner)
        fleet)
      route
      (run_turn_envelope (λ t. false) (λ t. false) options planning_request route)
run_turn_envelope-Biased_example =
    run_turn_envelope-Biased (λ t. false) (λ t. false) options planning_request route

run_local_zero-Dispatched_example :
    ZeroRun local_options route.context
      (Dispatched local_options request route.context)
      (run_local_zero local_options request route)
run_local_zero-Dispatched_example = run_local_zero-Dispatched local_options request route

-- A failure on a turn of a cluster that has no learned entry.
abbrev failure : DegradedRouteInput
failure = record {
  failure = neural_error;
  fleet = fleet;
  tool_use_estimate = 550;
  cluster_id = some "docs";
  learned_store = none;
  pattern_pack = none;
  safe_default_model = some mini;
  config = degraded_config;
  prompt_text = [];
}

resolve_degraded_route-RestsOn_example :
    let r = resolve_degraded_route failure in RestsOn failure r.route_path r.model
resolve_degraded_route-RestsOn_example = resolve_degraded_route-RestsOn failure

abbrev docs_key : LearnedRouteKey
docs_key = record { requirement_fingerprint = none; cluster_id = some "docs" }

abbrev seen_before : List (LearnedRouteKey × Tier)
seen_before =
    (record { requirement_fingerprint = none; cluster_id = some "code" }, frontier_cloud) ∷ []

abbrev tiny_map : InMemoryLearnedRouteStore
tiny_map = record { max_entries = 1; by_fingerprint = []; by_cluster_id = [] }

record_all-learns_example :
    let after =
      record_route
        (λ s. true)
        (λ s. true)
        (record_all (λ s. true) (λ s. true) seen_before tiny_map)
        docs_key
        economical_cloud in
    Bounded after × (tier_of (lookup after docs_key) ≡ some economical_cloud)
unfolding new_learned_store
record_all-learns_example =
    record_all-learns (λ s. true) (λ s. true) 1 tiny_map seen_before "docs" economical_cloud refl
      refl
