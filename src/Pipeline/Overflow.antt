-- ===== src/Pipeline/Overflow.antt =====
-- src/domain/pipeline/context-overflow-fallback-stage.ts, context-fit-stage.ts,
-- hardware-probe-stage.ts and the stage of safe-default-stage.ts.
pub mod Fallback
use pi_smart_router.Prelude.{
  ℕ, String, Bool, true, false, ◌||◌, Option, none, some, List, [], length, is_some, if◌then◌else◌,
}
use pi_smart_router.Types.{ModelProfile, RoutingRequest, RoutingDecision, given}
use pi_smart_router.Routing.ContextFit.{
  MarginSetting, filter_fleet_by_context_fit, OverflowReason, same_provider_fallback,
  frontier_fallback, no_fit, ContextOverflowFallbackResult, resolve_context_overflow_fallback,
  needs_context_overflow_fallback, ContextFitFilterResult,
}
use pi_smart_router.Pipeline.{
  RoutingContext, PipelineOptions, Route, StageRun, undecided, decided, threw, decision_for,
  with_estimated_cost, decide_or_throw, HardwareProbeResult,
}
use pi_smart_router.Pipeline.SafeDefault.{
  unknown_decision, safe_decision, safe_cloud_default, build_safe_default_fallback_decision,
}

abbrev pub overflow_reason_code : OverflowReason → String
overflow_reason_code same_provider_fallback = "context_overflow_same_provider_fallback"
overflow_reason_code frontier_fallback = "context_overflow_frontier_fallback"
overflow_reason_code no_fit = "context_overflow_no_fit"

unfoldable pub should_attempt_context_overflow_fallback : RoutingRequest → RoutingContext → Bool
should_attempt_context_overflow_fallback request context =
    if is_some (given request.force_model_id)
    then false
    else context.context_overflow_triggered
      || needs_context_overflow_fallback context.fleet context.context_fit_rejected
          context.full_fleet

-- The decision on the result of the overflow selection, none where the estimator throws.
abbrev pub overflow_decision :
    PipelineOptions
    → RoutingRequest
    → RoutingContext
    → ℕ
    → OverflowReason
    → Option ModelProfile
    → Option RoutingDecision
overflow_decision options request context elapsed reason none =
    some (record (unknown_decision request "fallback" (overflow_reason_code reason)) {
      candidates = some context.context_fit_rejected;
      routing_latency_ms = elapsed;
    })
overflow_decision options request context elapsed reason (some model) =
    with_estimated_cost options request model
      (record (decision_for request model "fallback" (overflow_reason_code reason)) {
        candidates = some context.context_fit_rejected;
        routing_latency_ms = elapsed;
      })

unfoldable pub build_context_overflow_fallback_decision :
    MarginSetting → PipelineOptions → RoutingRequest → RoutingContext → ℕ → Option RoutingDecision
build_context_overflow_fallback_decision setting options request context elapsed =
    let overflow =
      resolve_context_overflow_fallback setting context.full_fleet request
        context.context_overflow_preferred_provider options.context_fit_config in
    overflow_decision options request context elapsed overflow.reason_code overflow.model

-- `RouterPipeline.buildFallbackDecision`
unfoldable pub build_fallback_decision :
    MarginSetting → PipelineOptions → RoutingRequest → RoutingContext → ℕ → Option RoutingDecision
build_fallback_decision setting options request context elapsed =
    if should_attempt_context_overflow_fallback request context
    then build_context_overflow_fallback_decision setting options request context elapsed
    else some (build_safe_default_fallback_decision setting options request context elapsed)

module _ {Store : Type 0} where
  -- `createContextOverflowFallbackStage().run`
  unfoldable pub run_context_overflow_fallback :
      MarginSetting → PipelineOptions → RoutingRequest → Route Store → StageRun Store
  run_context_overflow_fallback setting options request route =
      if should_attempt_context_overflow_fallback request route.context
      then decide_or_throw
          (build_context_overflow_fallback_decision setting options request route.context 0) route
      else undecided route

  abbrev pub decide_safe : RoutingRequest → Route Store → Option ModelProfile → StageRun Store
  decide_safe request route none = undecided route
  decide_safe request route (some model) = decided (safe_decision request (some model)) route

  -- `createSafeDefaultStage().run`
  unfoldable pub run_safe_default :
      MarginSetting → PipelineOptions → RoutingRequest → Route Store → StageRun Store
  run_safe_default setting options request route =
      if should_attempt_context_overflow_fallback request route.context
      then undecided route
      else decide_safe request route
          (safe_cloud_default setting route.context.fleet (some request) options.context_fit_config)

  -- `createContextFitStage().run`
  unfoldable pub run_context_fit :
      MarginSetting → PipelineOptions → RoutingRequest → Route Store → StageRun Store
  run_context_fit setting options request route =
      let result : ContextFitFilterResult =
        filter_fleet_by_context_fit setting route.context.fleet request
          options.context_fit_config in
      undecided (record route {
        context = record route.context {
          fleet = result.effective_fleet;
          context_fit_rejected = result.rejected;
          context_fit_viable_count = length result.effective_fleet;
        };
      })

  -- `createHardwareProbeStage().run`. The probe, with its configuration and the system's answer, is a
  -- parameter: none where it is not configured, and some none where it throws.
  unfoldable pub run_hardware_probe :
      Option (Option HardwareProbeResult) → Route Store → StageRun Store
  run_hardware_probe none route = undecided route
  run_hardware_probe (some none) route = threw route
  run_hardware_probe (some (some result)) route =
      undecided (record route { context = record route.context { hardware_result = result } })
