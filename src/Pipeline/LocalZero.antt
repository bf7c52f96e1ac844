-- ===== src/Pipeline/LocalZero.antt =====
-- src/domain/pipeline/local-zero-stage.ts. The pings of the local runtime, the deadline of the prewarm and
-- the answer of the throughput meter are parameters of a run.
pub mod Outcome
pub mod Gated
use pi_smart_router.Prelude.{
  ℕ, String, Bool, true, false, not, ◌&&◌, Option, none, some, List, [], ◌∷◌, find, get_or, is_some,
  leb, if◌then◌else◌,
}
use pi_smart_router.Types.{
  Text, ModelProfile, RoutingRequest, RoutingDecision, Tier, zero_tier, economical_cloud, tier_eq,
  is_healthy,
}
use pi_smart_router.Routing.Prewarm.{
  SpeculativePrewarmGuard, PrewarmOutcome, Raced, timeout, failed, answered, local_runtime,
  prewarm_disabled_low_acceptance, disabled_reason, should_attempt, attempt,
}
use pi_smart_router.Pipeline.{
  RoutingContext, HardwareProbeResult, full_local, classification_only, disabled, TriageResult,
  TriageVerdict, Route, StageRun, undecided, decided, threw, decision_for,
}
use pi_smart_router.Pipeline.ToolUse.{
  resolve_local_eligible, estimate_cheap_tool_use_requirement, resolve_local_zero_tool_use_ceiling,
}

-- The fields of `LocalReadinessResult` that routing reads.
pub record LocalReadinessResult : Type 0 where
  pub any_model_ready : Bool
  pub combined_latency_ms : ℕ

-- What the stage reads of the options and of the world. A ping is none where it throws.
pub record LocalZeroOptions : Type 0 where
  pub high_threshold : ℕ
  pub enabled : Bool
  pub max_tool_use_requirement : ℕ
  pub above_threshold : Option Bool
  pub prewarm_ping : Option LocalReadinessResult
  pub prewarm_timed_out : Bool
  pub prewarm_start : ℕ
  pub prewarm_end : ℕ
  pub ping : Option LocalReadinessResult
  pub trim : Text → Text
  pub tool_use_cues : List (Text → Bool)

abbrev verdict_of : Option TriageResult → Option TriageVerdict
verdict_of none = none
verdict_of (some result) = some result.verdict

abbrev pub eligible_reason : LocalZeroOptions → RoutingContext → Option String
eligible_reason local context =
    resolve_local_eligible (verdict_of context.triage_result) context.low_intensity_score
      local.high_threshold context.cluster_match

abbrev pub is_full_local : HardwareProbeResult → Bool
is_full_local full_local = true
is_full_local classification_only = false
is_full_local disabled = false

abbrev answer_of : Option LocalReadinessResult → Raced
answer_of none = failed
answer_of (some readiness) = answered readiness.any_model_ready

abbrev pub raced_of : LocalZeroOptions → Raced
raced_of local = if local.prewarm_timed_out then timeout else answer_of local.prewarm_ping

-- `outcome.accepted === true`
abbrev pub accepted_of : Option Bool → Bool
accepted_of none = false
accepted_of (some accepted) = accepted

abbrev first_of : List ModelProfile → Tier → Option ModelProfile
first_of fleet tier = find (λ m. tier_eq m.tier tier && is_healthy m) fleet

abbrev refused_outcome : SpeculativePrewarmGuard → String → PrewarmOutcome
refused_outcome guard id = record {
  attempted = false;
  accepted = none;
  target = some local_runtime;
  elapsed_ms = none;
  reason = some (get_or (disabled_reason guard id) prewarm_disabled_low_acceptance);
}

module _ {Store : Type 0} where
  abbrev pub with_prewarm : Route Store → PrewarmOutcome → SpeculativePrewarmGuard → Route Store
  with_prewarm route outcome guard = record route {
    context = record route.context { prewarm_outcome = some outcome };
    prewarm_guard = guard;
  }

  -- `attemptSpeculativePrewarm`
  unfoldable pub attempt_speculative_prewarm :
      LocalZeroOptions → RoutingRequest → Route Store → Option LocalReadinessResult × Route Store
  unfolding should_attempt attempt disabled_reason
  attempt_speculative_prewarm local request route =
      let guard = route.prewarm_guard in
      if not guard.config.enabled
      then (none, route)
      else if not (should_attempt guard request.session_id)
      then (none, with_prewarm route (refused_outcome guard request.session_id) guard)
      else let (outcome, after) =
          attempt guard request.session_id local_runtime (raced_of local) local.prewarm_start
            local.prewarm_end in
        (
          if accepted_of outcome.accepted then local.prewarm_ping else none,
          with_prewarm route outcome after,
        )

  abbrev pub noting : Route Store → Option String → List String → Route Store
  noting route reason skipped = record route {
    context = record route.context {
      local_eligible_reason = reason;
      local_zero_gate_skip_reasons = skipped;
    };
  }

  abbrev pub on_readiness :
      RoutingRequest
      → ModelProfile
      → String
      → Route Store
      → Option LocalReadinessResult
      → StageRun Store
  on_readiness request model reason route none = threw route
  on_readiness request model reason route (some readiness) =
      if not readiness.any_model_ready
      then undecided route
      else decided
          (record (decision_for request model "local_zero" "local_model_ready") {
            tier = zero_tier;
            routing_latency_ms = readiness.combined_latency_ms;
          })
          (record route { context = record route.context { local_eligible_reason = some reason } })

  -- The prewarm, and the ping where it gives no readiness.
  abbrev pub dispatch_local :
      LocalZeroOptions → RoutingRequest → ModelProfile → String → Route Store → StageRun Store
  dispatch_local local request model reason route =
      let (readiness, route') = attempt_speculative_prewarm local request route in
      on_readiness request model reason route' (if is_some readiness then readiness else local.ping)

  abbrev pub too_slow : RoutingRequest → String → Option ModelProfile → Route Store → StageRun Store
  too_slow request reason none route = undecided route
  too_slow request reason (some model) route =
      decided
        (record (decision_for request model "local_zero" "throughput_below_threshold") {
          tier = economical_cloud;
        })
        (noting route (some reason) ("throughput_below_threshold" ∷ []))

  abbrev pub on_local_model :
      LocalZeroOptions
      → RoutingRequest
      → String
      → Route Store
      → Option ModelProfile
      → StageRun Store
  on_local_model local request reason route none = undecided route
  on_local_model local request reason route (some model) =
      if not (
        leb (estimate_cheap_tool_use_requirement local.trim local.tool_use_cues request.prompt_text)
          (resolve_local_zero_tool_use_ceiling model.capabilities.tool_use
            local.max_tool_use_requirement))
      then undecided (noting route (some reason) ("tool_use_capability_shortfall" ∷ []))
      else if not (get_or local.above_threshold true)
      then too_slow request reason (first_of route.context.fleet economical_cloud) route
      else dispatch_local local request model reason route

  abbrev pub on_eligible :
      LocalZeroOptions → RoutingRequest → Route Store → Option String → StageRun Store
  on_eligible local request route none = undecided route
  on_eligible local request route (some reason) =
      if not local.enabled
      then undecided (noting route (some reason) ("local_zero_disabled" ∷ []))
      else if not (is_full_local route.context.hardware_result)
      then undecided route
      else on_local_model local request reason route (first_of route.context.fleet zero_tier)

  -- `createLocalZeroStage().run`
  unfoldable pub run_local_zero : LocalZeroOptions → RoutingRequest → Route Store → StageRun Store
  unfolding attempt_speculative_prewarm resolve_local_eligible estimate_cheap_tool_use_requirement
      resolve_local_zero_tool_use_ceiling
  run_local_zero local request route =
      on_eligible local request route (eligible_reason local route.context)
