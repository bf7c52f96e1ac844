-- ===== src/Pipeline.antt =====
-- src/domain/pipeline: the per-route context of pipeline-stage.ts, the helpers of stage-helpers.ts
-- and, in the children, the stages and the orchestrator. `context.request` and `context.options` do
-- not change, so they are arguments; the session pinner, which the options carry, is state beside the
-- context. The context holds the fields that the modelled stages read or write.
pub mod Sound
pub mod Classify
pub mod SafeDefault
pub mod Overflow
pub mod TurnEnvelope
pub mod SessionPinStage
pub mod Triage
pub mod ToolUse
pub mod HydraMatch
pub mod LocalZero
pub mod Router
use pi_smart_router.Prelude.{ℕ, String, Bool, true, false, Option, none, some, List, []}
use pi_smart_router.Types.{
  ModelProfile, RoutingRequest, RoutingDecision, SaarConfig, CandidateScore, TurnType, planning,
  tool_result, subagent, main_loop, unknown, Tier, economical_cloud, frontier_cloud,
  PlanningDelegateConfig, CompressedContextSpec,
}
use pi_smart_router.Pinning.LoopEscalation.{LoopEscalationConfig}
use pi_smart_router.Pinning.Pinner.{SessionPinner, get_pin}
use pi_smart_router.Routing.Prewarm.{SpeculativePrewarmGuard, PrewarmOutcome}
use pi_smart_router.Routing.Degraded.{RoutePath, InMemoryLearnedRouteStore}
use pi_smart_router.Prelude.{is_some}

-- `PipelineOptions`: the estimator has its price catalog and is none where it throws; the margin is in
-- thousandths.
pub record PipelineOptions : Type 0 where
  pub loop_escalation_config : Option LoopEscalationConfig
  pub cost_estimator : Option (ModelProfile → RoutingRequest → Option ℕ)
  pub context_fit_config : Option ℕ
  pub saar_config : Option SaarConfig
  pub planning_delegate_config : Option PlanningDelegateConfig
  pub pin_only_fallback : Bool

pub data HardwareProbeResult : Type 0 where
  full_local classification_only disabled : HardwareProbeResult

pub data TriageVerdict : Type 0 where
  trivial complex ambiguous : TriageVerdict

-- The fields of the triage result that stages read.
pub record TriageResult : Type 0 where
  pub verdict : TriageVerdict
  pub reason_code : String

pub data DelegatePath : Type 0 where
  delegate direct : DelegatePath

-- The worker counts stay null while routing.
pub record PlanningDelegateObservability : Type 0 where
  pub path : DelegatePath
  pub primary_model_id : Option String
  pub delegate_model_id : Option String
  pub compressed_context : Option CompressedContextSpec
  pub planning_delegate_reason_code : String
  pub fallback_reason : Option String

pub data BreakevenReason : Type 0 where
  breakeven_blocked breakeven_pass : BreakevenReason

-- The last is `'none'`.
pub data ClusterMatchConfidence : Type 0 where
  high low no_confidence : ClusterMatchConfidence

-- The fields that routing reads.
pub record ClusterMatchResult : Type 0 where
  pub cluster_id : String
  pub tier_bias : Tier
  pub confidence : ClusterMatchConfidence

-- The result of the matcher, with the fingerprint of its requirement vector, which is a digest.
pub record MatchResult : Type 0 where
  pub selected : Option CandidateScore
  pub candidates : List CandidateScore
  pub requirement_fingerprint : String
  pub requirement_reason_codes : List String
  pub elapsed_ms : ℕ
  pub budget_exceeded : Bool

pub record RoutingContext : Type 0 where
  pub fleet : List ModelProfile
  pub full_fleet : List ModelProfile
  pub hardware_result : HardwareProbeResult
  pub triage_result : Option TriageResult
  pub context_fit_rejected : List CandidateScore
  pub context_fit_viable_count : ℕ
  pub context_overflow_triggered : Bool
  pub context_overflow_preferred_provider : Option String
  pub breakeven_reason : Option BreakevenReason
  pub planning_delegate : Option PlanningDelegateObservability
  pub hydra_result : Option MatchResult
  pub cluster_match : Option ClusterMatchResult
  pub tier_hint : Option Tier
  pub low_intensity_score : Option ℕ
  pub local_eligible_reason : Option String
  pub local_zero_gate_skip_reasons : List String
  pub route_path : Option RoutePath
  pub route_path_confidence : Option ℕ
  pub prewarm_outcome : Option PrewarmOutcome

abbrev pub create_routing_context : List ModelProfile → RoutingContext
create_routing_context fleet = record {
  fleet = fleet;
  full_fleet = fleet;
  hardware_result = disabled;
  triage_result = none;
  context_fit_rejected = [];
  context_fit_viable_count = 0;
  context_overflow_triggered = false;
  context_overflow_preferred_provider = none;
  breakeven_reason = none;
  planning_delegate = none;
  hydra_result = none;
  cluster_match = none;
  tier_hint = none;
  low_intensity_score = none;
  local_eligible_reason = none;
  local_zero_gate_skip_reasons = [];
  route_path = none;
  route_path_confidence = none;
  prewarm_outcome = none;
}

-- The state of a route: its context, the injected session pinner and learned map if there are any, and
-- the prewarm guard, which is injected or of the pipeline.
pub record Route (Store : Type 0) : Type 0 where
  pub context : RoutingContext
  pub pinner : Option (SessionPinner Store)
  pub learned_routes : Option InMemoryLearnedRouteStore
  pub prewarm_guard : SpeculativePrewarmGuard

-- How the run of a stage ends. A stage that throws keeps what it wrote before.
pub data StageRun (Store : Type 0) : Type 0 where
  undecided : Route Store → StageRun Store
  decided : RoutingDecision → Route Store → StageRun Store
  threw : Route Store → StageRun Store

abbrev with_cost : RoutingDecision → Option ℕ → Option RoutingDecision
with_cost decision none = none
with_cost decision (some cost) = some (record decision { estimated_cost_usd = some cost })

abbrev estimate :
    Option (ModelProfile → RoutingRequest → Option ℕ)
    → RoutingRequest
    → ModelProfile
    → RoutingDecision
    → Option RoutingDecision
estimate none request model decision = some decision
estimate (some estimator) request model decision = with_cost decision (estimator model request)

-- `withEstimatedCost`: none where the estimator throws.
abbrev pub with_estimated_cost :
    PipelineOptions → RoutingRequest → ModelProfile → RoutingDecision → Option RoutingDecision
with_estimated_cost options request model decision =
    estimate options.cost_estimator request model decision

-- A stage that returns a decision with its estimate, or throws as the estimator does.
abbrev pub decide_or_throw :
    {Store : Type 0} → Option RoutingDecision → Route Store → StageRun Store
decide_or_throw none route = threw route
decide_or_throw (some decision) route = decided decision route

-- The decision literal that the stages write, for a model.
abbrev pub decision_for : RoutingRequest → ModelProfile → String → String → RoutingDecision
decision_for request model stage reason = record {
  request_id = request.request_id;
  selected_model_id = model.id;
  tier = model.tier;
  stage = stage;
  reason_code = reason;
  candidates = none;
  estimated_cost_usd = none;
  routing_latency_ms = 0;
  pin_reason = none;
}

-- `TURN_TIER_MAP[turnType] ?? null`
abbrev pub turn_tier : TurnType → Option Tier
turn_tier planning = some frontier_cloud
turn_tier tool_result = some economical_cloud
turn_tier subagent = some economical_cloud
turn_tier main_loop = none
turn_tier unknown = none

module _ {Store : Type 0} where
  abbrev has_pin : Option (SessionPinner Store) → String → Bool
  has_pin none id = false
  has_pin (some p) id = is_some (get_pin p id)

  -- `isPinOnlyFallbackActive`
  unfoldable pub is_pin_only_fallback_active :
      PipelineOptions → Option (SessionPinner Store) → RoutingRequest → Bool
  unfolding get_pin
  is_pin_only_fallback_active options p request = elim options.pin_only_fallback [
    | false ↦ false
    | true ↦ has_pin p request.session_id
  ]
