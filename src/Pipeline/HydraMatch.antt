-- ===== src/Pipeline/HydraMatch.antt =====
-- src/domain/pipeline/hydra-match-stage.ts. The matcher of the options is a parameter: what it answers to
-- a request and a fleet, or that it throws.

pub mod Sound
use pi_smart_router.Prelude.{
  ℕ, min, String, Bool, true, false, not, ◌&&◌, Option, none, some, List, [], ◌∷◌, find, is_some,
  str_eq, if◌then◌else◌,
}
use Prim.Native.String.{◌++◌}
use pi_smart_router.Types.{
  Text, ModelProfile, RoutingRequest, RoutingDecision, CandidateScore, Tier,
}
use pi_smart_router.Routing.ContextFit.{MarginSetting}
use pi_smart_router.Routing.Degraded.{
  NeuralFailureKind, neural_error, neural_budget_exceeded, neural_misconfigured, RoutePath, neural,
  learned, heuristic, safe_default, DegradedRouteConfig, DegradedRouteInput,
  DegradedRouteResolution, CompiledPatternRule, InMemoryLearnedRouteStore, LearnedRouteKey,
  record_route, resolve_degraded_route,
}
use pi_smart_router.Pipeline.{
  PipelineOptions, RoutingContext, Route, StageRun, undecided, decided, decision_for,
  with_estimated_cost, decide_or_throw, MatchResult, ClusterMatchResult,
}
use pi_smart_router.Pipeline.SafeDefault.{safe_cloud_default}
use pi_smart_router.Pipeline.ToolUse.{
  estimate_cheap_tool_use_requirement, constrain_fleet_to_tier_hint,
}

-- How `matcher.match` ends: with a result, or by throwing for missing weights or for another reason.
pub data MatchOutcome : Type 0 where
  matched : MatchResult → MatchOutcome
  missing_weights : List String → MatchOutcome
  match_failed : MatchOutcome

-- What the stage reads of the options, and the platform's expressions.
pub record HydraOptions : Type 0 where
  pub hydra_matcher : Option (RoutingRequest → List ModelProfile → MatchOutcome)
  pub degraded_route_config : DegradedRouteConfig
  pub pattern_pack : Option (List CompiledPatternRule)
  pub trim : Text → Text
  pub tool_use_cues : List (Text → Bool)
  pub is_valid_fingerprint : String → Bool
  pub is_valid_cluster_id : String → Bool

abbrev cluster_id_of : Option ClusterMatchResult → Option String
cluster_id_of none = none
cluster_id_of (some m) = some m.cluster_id

-- `failureReasonCodes.join(',')`
abbrev join_codes : String → List String → String
join_codes first [] = first
join_codes first (code ∷ codes) = first ++ ("," ++ join_codes code codes)

abbrev pub reason_of : List String → String → String
reason_of [] reason = reason
reason_of (code ∷ codes) reason = join_codes code codes

abbrev stage_of : RoutePath → String
stage_of safe_default = "fallback"
stage_of neural = "hydra_match"
stage_of learned = "hydra_match"
stage_of heuristic = "hydra_match"

abbrev pub fleet_for_match : RoutingContext → Option Tier → List ModelProfile
fleet_for_match context none = context.fleet
fleet_for_match context (some tier) = constrain_fleet_to_tier_hint context.fleet tier

abbrev learn :
    HydraOptions
    → Option InMemoryLearnedRouteStore
    → LearnedRouteKey
    → Tier
    → Option InMemoryLearnedRouteStore
learn hydra none key tier = none
learn hydra (some store) key tier =
    some (record_route hydra.is_valid_fingerprint hydra.is_valid_cluster_id store key tier)

abbrev some_codes : List String → Bool
some_codes [] = false
some_codes (code ∷ codes) = true

-- The input of the resolver.
unfoldable pub degraded_input :
    HydraOptions
    → MarginSetting
    → PipelineOptions
    → RoutingRequest
    → NeuralFailureKind
    → Option InMemoryLearnedRouteStore
    → RoutingContext
    → DegradedRouteInput
unfolding estimate_cheap_tool_use_requirement safe_cloud_default
degraded_input hydra setting options request failure learned_routes context = record {
  failure = failure;
  fleet = context.fleet;
  tool_use_estimate =
      estimate_cheap_tool_use_requirement hydra.trim hydra.tool_use_cues request.prompt_text;
  cluster_id = cluster_id_of context.cluster_match;
  learned_store = learned_routes;
  pattern_pack = hydra.pattern_pack;
  safe_default_model =
      safe_cloud_default setting context.fleet (some request) options.context_fit_config;
  config = hydra.degraded_route_config;
  prompt_text = request.prompt_text;
}

module _ {Store : Type 0} where
  abbrev pub with_path : Route Store → RoutePath → ℕ → Route Store
  with_path route path confidence = record route {
    context = record route.context {
      route_path = some path;
      route_path_confidence = some confidence;
    };
  }

  abbrev pub degraded_decision :
      PipelineOptions
      → RoutingRequest
      → List String
      → DegradedRouteResolution
      → Option ModelProfile
      → Route Store
      → StageRun Store
  degraded_decision options request codes resolution none route = undecided route
  degraded_decision options request codes resolution (some model) route =
      decide_or_throw
        (with_estimated_cost options request model (
          decision_for request model (stage_of resolution.route_path)
            (reason_of codes resolution.reason_code)))
        route

  -- `degradedRouteStage`
  unfoldable pub degraded_route_stage :
      HydraOptions
      → MarginSetting
      → PipelineOptions
      → RoutingRequest
      → NeuralFailureKind
      → List String
      → Route Store
      → StageRun Store
  unfolding degraded_input resolve_degraded_route
  degraded_route_stage hydra setting options request failure codes route =
      if not hydra.degraded_route_config.enabled
      then undecided route
      else let resolution = resolve_degraded_route (
          degraded_input hydra setting options request failure route.learned_routes
            route.context) in
        degraded_decision options request codes resolution resolution.model
          (with_path route resolution.route_path resolution.confidence)

  -- `recordLearnedRoute`; a result has a fingerprint.
  unfoldable pub record_learned_route :
      HydraOptions → MatchResult → Tier → Route Store → Route Store
  unfolding record_route
  record_learned_route hydra result tier route = record route {
    learned_routes =
        learn hydra route.learned_routes
          (record {
            requirement_fingerprint = some result.requirement_fingerprint;
            cluster_id = cluster_id_of route.context.cluster_match;
          })
          tier;
  }

  abbrev pub neural_decision :
      HydraOptions
      → PipelineOptions
      → RoutingRequest
      → MatchResult
      → CandidateScore
      → Option ModelProfile
      → Route Store
      → StageRun Store
  neural_decision hydra options request result chosen none route = undecided route
  neural_decision hydra options request result chosen (some model) route =
      decide_or_throw
        (with_estimated_cost options request model
          (record (decision_for request model "hydra_match" "hydra_embedding_match") {
            candidates = some result.candidates;
            routing_latency_ms = result.elapsed_ms;
          }))
        (record_learned_route hydra result model.tier
          (with_path route neural (min 1000 chosen.score)))

  abbrev pub on_selected :
      HydraOptions
      → MarginSetting
      → PipelineOptions
      → RoutingRequest
      → MatchResult
      → Option CandidateScore
      → Route Store
      → StageRun Store
  on_selected hydra setting options request result none route =
      if result.budget_exceeded
      then degraded_route_stage hydra setting options request neural_budget_exceeded [] route
      else undecided route
  on_selected hydra setting options request result (some chosen) route =
      neural_decision hydra options request result chosen
        (find (λ m. str_eq m.id chosen.model_id) route.context.fleet) route

  abbrev pub on_outcome :
      HydraOptions
      → MarginSetting
      → PipelineOptions
      → RoutingRequest
      → Route Store
      → MatchOutcome
      → StageRun Store
  on_outcome hydra setting options request route (missing_weights codes) =
      degraded_route_stage hydra setting options request neural_misconfigured codes route
  on_outcome hydra setting options request route match_failed =
      degraded_route_stage hydra setting options request neural_error [] route
  on_outcome hydra setting options request route (matched result) =
      if hydra.degraded_route_config.fail_closed_on_missing_weights
        && some_codes result.requirement_reason_codes
      then degraded_route_stage hydra setting options request neural_misconfigured
          result.requirement_reason_codes route
      else on_selected hydra setting options request result result.selected
          (record route { context = record route.context { hydra_result = some result } })

  abbrev pub match_with :
      HydraOptions
      → MarginSetting
      → PipelineOptions
      → RoutingRequest
      → Route Store
      → Option (RoutingRequest → List ModelProfile → MatchOutcome)
      → StageRun Store
  match_with hydra setting options request route none = undecided route
  match_with hydra setting options request route (some match) =
      on_outcome hydra setting options request route
        (match request (fleet_for_match route.context route.context.tier_hint))

  -- `createHydraMatchStage().run`
  unfoldable pub run_hydra_match :
      HydraOptions → MarginSetting → PipelineOptions → RoutingRequest → Route Store → StageRun Store
  unfolding degraded_route_stage record_learned_route constrain_fleet_to_tier_hint
  run_hydra_match hydra setting options request route =
      match_with hydra setting options request route hydra.hydra_matcher
