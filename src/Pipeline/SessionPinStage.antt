-- ===== src/Pipeline/SessionPinStage.antt =====
-- src/domain/pipeline/session-pin-stage.ts: the `loop_escalation` and `session_pin` stages.
pub mod Sound
use pi_smart_router.Prelude.{
  ℕ, String, Bool, true, false, ◌&&◌, Option, none, some, List, find, any, get_or, str_eq,
  if◌then◌else◌,
}
use pi_smart_router.Types.{
  Text, ModelProfile, RoutingRequest, RoutingDecision, SessionPin, PinReason, user_forced,
  context_overflow,
}
use pi_smart_router.Persistence.StorePort.{StorePort}
use pi_smart_router.Pinning.Pinner.{SessionPinner, get_pin}
use pi_smart_router.Pinning.Pinner.Rules.{
  PinAction, use_pin, sub_route, saar_route, break_, no_pin, force_rejected, PinSaarReason,
  saar_buffer_active, saar_hard_lock, saar_idle_reopen, saar_tier_upgrade, ForceRejection,
  not_in_fleet, unhealthy, PinLookupResult,
}
use pi_smart_router.Pinning.Pinner.Lookup.{lookup_pin}
use pi_smart_router.Pinning.LoopEscalation.{LoopEscalationConfig, run_loop_escalation}
use pi_smart_router.Routing.ContextFit.{MarginSetting}
use pi_smart_router.Pipeline.{
  RoutingContext, PipelineOptions, Route, StageRun, undecided, decided, threw, decision_for,
  with_estimated_cost, decide_or_throw, is_pin_only_fallback_active,
}
use pi_smart_router.Pipeline.Classify.{enrich_request_with_saar_candidate}
use pi_smart_router.Pipeline.SafeDefault.{safe_cloud_default, unknown_decision}

abbrev provider_of : Option ModelProfile → Option String
provider_of none = none
provider_of (some model) = some model.provider

-- `markContextOverflowFromPin`
abbrev pub mark_context_overflow_from_pin : RoutingContext → String → RoutingContext
mark_context_overflow_from_pin context pinned_id = record context {
  context_overflow_triggered = true;
  context_overflow_preferred_provider =
      provider_of (find (λ m. str_eq m.id pinned_id) context.full_fleet);
}

abbrev pub saar_reason_code : PinSaarReason → String
saar_reason_code saar_buffer_active = "saar_buffer_active"
saar_reason_code saar_hard_lock = "saar_hard_lock"
saar_reason_code saar_idle_reopen = "saar_idle_reopen"
saar_reason_code saar_tier_upgrade = "saar_tier_upgrade"

-- `result.saarReason ?? 'saar_buffer_active'`
abbrev pub saar_route_code : Option PinSaarReason → String
saar_route_code none = "saar_buffer_active"
saar_route_code (some reason) = saar_reason_code reason

-- The reason code of a used pin; `pin_only` says whether the pin-only fallback is active.
abbrev pub use_pin_code : Option PinSaarReason → Bool → String
use_pin_code (some saar_hard_lock) pin_only = "saar_hard_lock"
use_pin_code (some saar_tier_upgrade) pin_only = "saar_tier_upgrade"
use_pin_code _ pin_only = if pin_only then "pin_only_fallback" else "session_pinned"

-- `result.forceRejectionReason ?? FORCE_REJECTED_NOT_IN_FLEET`
abbrev pub force_code : Option ForceRejection → String
force_code none = "force_rejected_not_in_fleet"
force_code (some not_in_fleet) = "force_rejected_not_in_fleet"
force_code (some unhealthy) = "force_rejected_unhealthy"

abbrev reason_of_pin : Option SessionPin → Option PinReason
reason_of_pin none = none
reason_of_pin (some pin) = some pin.pin_reason

abbrev pub is_context_overflow : Option PinReason → Bool
is_context_overflow (some context_overflow) = true
is_context_overflow _ = false

-- The context after a broken or missing pin.
abbrev pub context_after_break :
    RoutingContext → Option SessionPin → Option PinReason → RoutingContext
context_after_break context none reason = context
context_after_break context (some pin) reason =
    if is_context_overflow reason
    then mark_context_overflow_from_pin context pin.pinned_model_id
    else context

abbrev pub context_without_pin : RoutingContext → Option SessionPin → RoutingContext
context_without_pin context none = context
context_without_pin context (some pin) =
    if any (λ r. str_eq r.model_id pin.pinned_model_id) context.context_fit_rejected
    then mark_context_overflow_from_pin context pin.pinned_model_id
    else context

-- `forceRejectedDecision`
abbrev pub force_rejected_decision :
    PipelineOptions → RoutingRequest → String → Option ModelProfile → Option RoutingDecision
force_rejected_decision options request code none =
    some (record (unknown_decision request "session_pin" code) { pin_reason = some user_forced })
force_rejected_decision options request code (some model) =
    with_estimated_cost options request model
      (record (decision_for request model "session_pin" code) { pin_reason = some user_forced })

module _ {Store : Type 0} where
  -- The decision on the model of a result; `!` of a missing model throws on its first use.
  abbrev pub decide_on :
      PipelineOptions
      → RoutingRequest
      → Option SessionPin
      → String
      → Option ModelProfile
      → Route Store
      → StageRun Store
  decide_on options request pin code none route = threw route
  decide_on options request pin code (some model) route =
      decide_or_throw
        (with_estimated_cost options request model
          (record (decision_for request model "session_pin" code) {
            pin_reason = reason_of_pin pin;
          }))
        route

  -- The switch on the action of the lookup; `existing` is the pin before it, `pin` the pin after it.
  unfoldable pub on_action :
      MarginSetting
      → PipelineOptions
      → RoutingRequest
      → Option SessionPin
      → Option SessionPin
      → Bool
      → PinAction
      → PinLookupResult
      → Route Store
      → StageRun Store
  on_action setting options request existing pin pin_only use_pin result route =
      decide_on options request pin (use_pin_code result.saar_reason pin_only) result.pinned_model
        route
  on_action setting options request existing pin pin_only saar_route result route =
      decide_on options request pin (saar_route_code result.saar_reason) result.saar_route_model
        route
  on_action setting options request existing pin pin_only sub_route result route =
      decide_on options request pin "tool_result_sub_route" result.sub_route_model route
  on_action setting options request existing pin pin_only force_rejected result route =
      decide_or_throw
        (force_rejected_decision options request (force_code result.force_rejection_reason) (
          safe_cloud_default setting route.context.fleet (some request) options.context_fit_config))
        route
  on_action setting options request existing pin pin_only break_ result route =
      undecided
        (record route { context = context_after_break route.context existing result.break_reason })
  on_action setting options request existing pin pin_only no_pin result route =
      undecided (record route { context = context_without_pin route.context existing })

module _ (port : StorePort) where
  open port use {Store}

  abbrev escalate_loop :
      (Text → Text)
      → (Text → Text)
      → Option LoopEscalationConfig
      → RoutingRequest
      → ℕ
      → RoutingContext
      → Option (SessionPinner Store)
      → Option (SessionPinner Store)
  escalate_loop lower trim none request now context p = p
  escalate_loop lower trim (some config) request now context none = none
  escalate_loop lower trim (some config) request now context (some p) =
      some (run_loop_escalation lower trim port p request context.fleet config now)

  -- `createLoopEscalationStage().run`
  unfoldable pub run_loop_escalation_stage :
      (Text → Text)
      → (Text → Text)
      → PipelineOptions
      → RoutingRequest
      → ℕ
      → Route Store
      → StageRun Store
  run_loop_escalation_stage lower trim options request now route = undecided (record route {
    pinner =
        escalate_loop lower trim options.loop_escalation_config request now route.context
          route.pinner;
  })

  -- The stage with a pinner.
  unfoldable pub run_with_pinner :
      (Text → Bool)
      → (Text → Bool)
      → MarginSetting
      → PipelineOptions
      → RoutingRequest
      → ℕ
      → Route Store
      → SessionPinner Store
      → StageRun Store
  unfolding on_action get_pin
  run_with_pinner planning_signal subagent_signal setting options request now route p =
      let id = request.session_id in
      let context = route.context in
      let (result, q) =
        lookup_pin port p
          (enrich_request_with_saar_candidate planning_signal subagent_signal request context.fleet)
          context.fleet now in
      on_action setting options request (get_pin p id) (get_pin q id)
        (is_pin_only_fallback_active options (some q) request) result.action result
        (record route { pinner = some q })

  -- `createSessionPinStage().run`
  unfoldable pub run_session_pin :
      (Text → Bool)
      → (Text → Bool)
      → MarginSetting
      → PipelineOptions
      → RoutingRequest
      → ℕ
      → Route Store
      → StageRun Store
  unfolding run_with_pinner
  run_session_pin planning_signal subagent_signal setting options request now route =
      elim route.pinner [
        | none ↦ undecided route
        | some p ↦
            run_with_pinner planning_signal subagent_signal setting options request now route p
      ]
