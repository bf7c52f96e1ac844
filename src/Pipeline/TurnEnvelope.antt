-- ===== src/Pipeline/TurnEnvelope.antt =====
-- src/domain/pipeline/turn-envelope-stage.ts. The breakeven gate runs without the virtual-cost
-- context, that is where neither a quota window position nor a virtual-cost configuration is given.
pub mod Biased
use pi_smart_router.Prelude.{
  ℕ, String, Bool, true, false, not, ◌&&◌, Option, none, some, List, find, get_or, is_some, ltb,
  leb, str_eq, if◌then◌else◌,
}
use pi_smart_router.Types.{
  Text, ModelProfile, RoutingRequest, RoutingDecision, SaarConfig, SaarSessionState, SessionPin,
  TurnType, planning, tool_result, subagent, main_loop, unknown, Tier, economical_cloud, tier_eq,
  is_healthy, given, PlanningDelegateConfig,
}
use pi_smart_router.Pinning.Economics.{evaluate_model_switch_breakeven}
use pi_smart_router.Pinning.Pinner.{SessionPinner, get_pin, get_saar_state}
use pi_smart_router.Pinning.Pinner.Rules.{token_estimate}
use pi_smart_router.Pinning.SubRoute.{select_lowest_cost_model}
use pi_smart_router.Pipeline.{
  RoutingContext, PipelineOptions, Route, StageRun, undecided, decided, decision_for,
  with_estimated_cost, decide_or_throw, turn_tier, is_pin_only_fallback_active, BreakevenReason,
  breakeven_blocked, breakeven_pass, PlanningDelegateObservability, delegate, direct,
}
use pi_smart_router.Pipeline.Classify.{turn_type_of, tier_candidates}

abbrev pub is_planning : TurnType → Bool
is_planning planning = true
is_planning _ = false

-- `turn_${turnType}`
abbrev pub turn_reason : TurnType → String
turn_reason planning = "turn_planning"
turn_reason tool_result = "turn_tool_result"
turn_reason subagent = "turn_subagent"
turn_reason main_loop = "turn_main_loop"
turn_reason unknown = "turn_unknown"

-- The defaults of `DEFAULT_OPERATOR_CONFIG.planning_delegate`.
abbrev pub default_planning_delegate_config : PlanningDelegateConfig
default_planning_delegate_config = record {
  enabled = true;
  compressed_context = record {
    max_messages = 12;
    max_tokens = 16384;
    exclude_execution_history = true;
  };
}

-- `resolvePlanningDelegateConfig`
abbrev pub resolve_planning_delegate_config : PipelineOptions → PlanningDelegateConfig
resolve_planning_delegate_config options =
    get_or options.planning_delegate_config default_planning_delegate_config

abbrev turn_index_of : Option SaarSessionState → ℕ
turn_index_of none = 0
turn_index_of (some state) = state.turn_index

-- `pinner?.getPin(id) ?? null`
abbrev pub pin_of : {Store : Type 0} → Option (SessionPinner Store) → String → Option SessionPin
pin_of none id = none
pin_of (some p) id = get_pin p id

abbrev saar_state_of :
    {Store : Type 0} → Option (SessionPinner Store) → String → Option SaarSessionState
saar_state_of none id = none
saar_state_of (some p) id = get_saar_state p id

abbrev reached : Option SaarConfig → ℕ → Bool
reached none turn_index = false
reached (some config) turn_index = leb config.planning_turn_buffer turn_index

abbrev below : Option SaarConfig → Option SaarSessionState → Bool
below none state = false
below (some config) none = false
below (some config) (some state) = ltb state.turn_index config.planning_turn_buffer

-- The healthy model of the fleet that the pin names.
abbrev pub pinned_in : Option SessionPin → List ModelProfile → Option ModelProfile
pinned_in none fleet = none
pinned_in (some pin) fleet = find (λ m. str_eq m.id pin.pinned_model_id && is_healthy m) fleet

-- `pinnedModel && pinnedModel.id !== targetModel.id`
abbrev pub differs : Option ModelProfile → ModelProfile → Bool
differs none target = false
differs (some pinned) target = not (str_eq pinned.id target.id)

-- A warm economical pin that the target would leave.
abbrev pub leaves_economical : TurnType → ModelProfile → ModelProfile → Bool
leaves_economical turn pinned target =
    is_planning turn && tier_eq pinned.tier economical_cloud && not (str_eq pinned.id target.id)

-- `evaluateModelSwitchBreakeven(…).shouldSwitch` on the request's estimate
abbrev pub switch_pays : PipelineOptions → RoutingRequest → ModelProfile → ModelProfile → Bool
switch_pays options request pinned target =
    (evaluate_model_switch_breakeven pinned target (token_estimate request) (token_estimate request)
      options.saar_config).should_switch

module _ {Store : Type 0} where
  unfoldable pub should_defer_planning_for_saar :
      PipelineOptions → Option (SessionPinner Store) → RoutingRequest → Bool
  unfolding get_pin get_saar_state
  should_defer_planning_for_saar options p request =
      is_some (pin_of p request.session_id)
      && reached options.saar_config (turn_index_of (saar_state_of p request.session_id))

  unfoldable pub is_saar_planning_buffer_active :
      PipelineOptions → Option (SessionPinner Store) → RoutingRequest → Bool
  unfolding get_pin get_saar_state
  is_saar_planning_buffer_active options p request =
      is_some (pin_of p request.session_id)
      && below options.saar_config (saar_state_of p request.session_id)

  abbrev pub with_context : Route Store → RoutingContext → Route Store
  with_context route context = record route { context = context }

  -- `tryPlanningDelegateDecision`, where it is enabled.
  unfoldable pub delegate_decision :
      PipelineOptions → RoutingRequest → ModelProfile → ModelProfile → Route Store → StageRun Store
  delegate_decision options request pinned target route =
      decide_or_throw
        (with_estimated_cost options request pinned
          (decision_for request pinned "turn_envelope" "planning_delegate"))
        (with_context route (record route.context {
          planning_delegate = some (record {
            path = delegate;
            primary_model_id = some pinned.id;
            delegate_model_id = some target.id;
            compressed_context = some (resolve_planning_delegate_config options).compressed_context;
            planning_delegate_reason_code = "planning_delegate";
            fallback_reason = none;
          });
        }))

  -- The decision on the target model. It is a direct fallback where a planning turn leaves a warm
  -- economical pin, which it only does with the delegate disabled.
  unfoldable pub target_decision :
      PipelineOptions
      → RoutingRequest
      → TurnType
      → Bool
      → ModelProfile
      → Route Store
      → StageRun Store
  target_decision options request turn leaves target route =
      if leaves && not (resolve_planning_delegate_config options).enabled
      then decide_or_throw
          (with_estimated_cost options request target
            (decision_for request target "turn_envelope" "planning_direct_frontier"))
          (with_context route (record route.context {
            planning_delegate = some (record {
              path = direct;
              primary_model_id = none;
              delegate_model_id = some target.id;
              compressed_context = none;
              planning_delegate_reason_code = "planning_direct_frontier";
              fallback_reason = some "planning_delegate_disabled";
            });
          }))
      else decide_or_throw
          (with_estimated_cost options request target
            (decision_for request target "turn_envelope" (turn_reason turn)))
          route

  abbrev pub note_breakeven : Route Store → BreakevenReason → Route Store
  note_breakeven route reason =
      with_context route (record route.context { breakeven_reason = some reason })

  -- The stage from a pinned model that is not the target.
  unfoldable pub leave_pinned :
      PipelineOptions
      → RoutingRequest
      → TurnType
      → ModelProfile
      → ModelProfile
      → Route Store
      → StageRun Store
  unfolding delegate_decision target_decision is_saar_planning_buffer_active
  leave_pinned options request turn pinned target route =
      let leaves = leaves_economical turn pinned target in
      if leaves && (resolve_planning_delegate_config options).enabled
      then delegate_decision options request pinned target route
      else if is_planning turn && is_saar_planning_buffer_active options route.pinner request
      then target_decision options request turn leaves target route
      else if switch_pays options request pinned target
      then target_decision options request turn leaves target (note_breakeven route breakeven_pass)
      else undecided (note_breakeven route breakeven_blocked)

  unfoldable pub from_pin :
      PipelineOptions
      → RoutingRequest
      → TurnType
      → Option ModelProfile
      → ModelProfile
      → Route Store
      → StageRun Store
  from_pin options request turn none target route =
      target_decision options request turn false target route
  from_pin options request turn (some pinned) target route =
      if str_eq pinned.id target.id
      then target_decision options request turn false target route
      else leave_pinned options request turn pinned target route

  unfoldable pub to_target :
      PipelineOptions
      → RoutingRequest
      → TurnType
      → Option ModelProfile
      → Route Store
      → StageRun Store
  unfolding from_pin
  to_target options request turn none route = undecided route
  to_target options request turn (some target) route =
      from_pin options request turn
        (pinned_in (pin_of route.pinner request.session_id) route.context.fleet) target route

  unfoldable pub to_tier :
      PipelineOptions → RoutingRequest → TurnType → Option Tier → Route Store → StageRun Store
  unfolding to_target should_defer_planning_for_saar
  to_tier options request turn none route = undecided route
  to_tier options request turn (some tier) route =
      if is_planning turn && should_defer_planning_for_saar options route.pinner request
      then undecided route
      else to_target options request turn
          (select_lowest_cost_model (tier_candidates tier route.context.fleet)) route

  -- `createTurnEnvelopeStage().run`
  unfoldable pub run_turn_envelope :
      (Text → Bool)
      → (Text → Bool)
      → PipelineOptions
      → RoutingRequest
      → Route Store
      → StageRun Store
  unfolding to_tier
  run_turn_envelope planning_signal subagent_signal options request route =
      let turn = turn_type_of planning_signal subagent_signal request in
      if is_pin_only_fallback_active options route.pinner request
      then undecided route
      else if is_some (given request.force_model_id)
      then undecided route
      else to_tier options request turn (turn_tier turn) route
