-- ===== src/Pipeline/Router.antt =====
-- src/domain/pipeline/router-pipeline.ts: the orchestrator, and the fleet order for tool history with
-- the predicates of src/domain/routing/tool-history-guard.ts. `route()` serializes its calls, so one
-- exclusive route is the unit. The returned decision is without the feature sidecar.
pub mod Pins
pub mod Answer
pub mod Stages
pub mod StageSound
pub mod Whole
use pi_smart_router.Prelude.{
  ℕ, ◌+◌, ◌-◌, suc, String, Bool, true, false, not, ◌&&◌, ◌||◌, Option, none, some, List, [], ◌∷◌,
  ◌++◌, filter, any, get_or, is_some, str_eq, if◌then◌else◌,
}
use pi_smart_router.Prelude.Texts.{includes, units, text_eq}
use pi_smart_router.Types.{
  Text, Message, ModelProfile, RoutingRequest, RoutingDecision, initial, given,
}
use pi_smart_router.Persistence.StorePort.{StorePort}
use pi_smart_router.Pinning.Pinner.{SessionPinner, get_pin, record_pin, record_saar_turn}
use pi_smart_router.Routing.ContextFit.{MarginSetting}
use pi_smart_router.Routing.Prewarm.{SpeculativePrewarmGuard}
use pi_smart_router.Routing.Degraded.{InMemoryLearnedRouteStore}
use pi_smart_router.Pipeline.{
  RoutingContext, create_routing_context, PipelineOptions, Route, StageRun, undecided, decided,
  threw,
}
use pi_smart_router.Pipeline.Overflow.{build_fallback_decision}

-- `hasGoogleReplayRisk`: routing messages carry no provider.
abbrev pub has_google_replay_risk : List Message → Bool
has_google_replay_risk messages = false

-- `sessionHasGoogleReplayRiskForDeprioritize(request)`, called without context messages.
abbrev pub session_has_google_replay_risk : RoutingRequest → Bool
session_has_google_replay_risk request = has_google_replay_risk (get_or request.messages [])

abbrev google_aliases : List String
google_aliases = "google" ∷ "google-gemini" ∷ "google-generative-ai" ∷ "gemini" ∷ []

abbrev has_messages : Option (List Message) → Bool
has_messages none = false
has_messages (some []) = false
has_messages (some (m ∷ ms)) = true

-- `[...preferred, ...deprioritized]`, or the fleet itself where none is deprioritized.
abbrev move_last : (ModelProfile → Bool) → List ModelProfile → List ModelProfile
move_last late fleet =
    if any late fleet then filter (λ m. not (late m)) fleet ++ filter late fleet else fleet

-- `normal` trims and lower-cases a provider, `folded` lower-cases an id.
module _ (normal folded : String → Text) where
  unfoldable pub is_google_gemini_profile : ModelProfile → Bool
  is_google_gemini_profile profile =
      let provider = normal profile.provider in
      any (λ alias. text_eq (units alias) provider) google_aliases
      || includes provider (units "google")
      || includes provider (units "gemini")
      || (text_eq provider (units "cursor") && includes (folded profile.id) (units "gemini"))
      || (includes (folded profile.id) (units "gemini") && includes provider (units "google"))

  -- `prioritizeFleetForToolHistory`
  unfoldable pub prioritize_fleet_for_tool_history :
      List ModelProfile → RoutingRequest → List ModelProfile
  prioritize_fleet_for_tool_history fleet request =
      if is_some (given request.force_model_id)
      then fleet
      else if not (has_messages request.messages) || not (session_has_google_replay_risk request)
      then fleet
      else move_last is_google_gemini_profile fleet

-- The telemetry emitter: whether a call of it throws.
pub record Telemetry : Type 0 where
  pub emit_throws : RoutingRequest → RoutingDecision → Bool
  pub emit_pipeline_error_throws : RoutingRequest → String → RoutingDecision → Bool

-- The reason codes of `persistPinIfNeeded` that leave the pin.
abbrev pub keeps_pin : String → Bool
keeps_pin code =
    str_eq code "tool_result_sub_route"
    || str_eq code "session_pinned"
    || str_eq code "pin_only_fallback"
    || str_eq code "saar_buffer_active"
    || str_eq code "saar_hard_lock"
    || str_eq code "force_rejected_not_in_fleet"
    || str_eq code "force_rejected_unhealthy"

module _ (port : StorePort) where
  open port use {Store}

  -- `persistPinIfNeeded`
  unfoldable pub persist_pin :
      SessionPinner Store → RoutingRequest → RoutingDecision → ℕ → SessionPinner Store
  unfolding get_pin
  persist_pin p request decision now =
      if keeps_pin decision.reason_code
      then p
      else if str_eq decision.stage "turn_envelope" && is_some (get_pin p request.session_id)
      then p
      else record_pin port p request.session_id decision.selected_model_id initial now

  -- `finalizeRoute`: the pin, then `recordSaarTurnIfNeeded`.
  unfoldable pub finalize_pinner :
      SessionPinner Store → RoutingRequest → RoutingDecision → ℕ → SessionPinner Store
  unfolding persist_pin
  finalize_pinner p request decision now =
      record_saar_turn (persist_pin p request decision now) request.session_id now

  abbrev pub finalize_if_given :
      Option (SessionPinner Store)
      → RoutingRequest
      → RoutingDecision
      → ℕ
      → Option (SessionPinner Store)
  finalize_if_given none request decision now = none
  finalize_if_given (some p) request decision now = some (finalize_pinner p request decision now)

  unfoldable pub finalize_route : Route Store → RoutingRequest → RoutingDecision → ℕ → Route Store
  finalize_route route request decision now = record route {
    pinner = finalize_if_given route.pinner request decision now;
  }

  -- `NamedPipelineStage`: its run has the clock reading and the state of the route.
  abbrev pub NamedStage : Type 0
  NamedStage = String × (ℕ → Route Store → StageRun Store)

  -- How a route ends: with a decision, or with an error for the host. The pinner stays.
  pub data RouteResult : Type 0 where
    returned : RoutingDecision → Route Store → RouteResult
    rejected : Route Store → RouteResult

  module _ (telemetry : Telemetry) (setting : MarginSetting) (options : PipelineOptions)
      (request : RoutingRequest) where
    -- The catch clause with its fallback decision, none where the cost estimator throws.
    unfoldable pub degrade_to : String → ℕ → Route Store → Option RoutingDecision → RouteResult
    degrade_to failed_stage now route none = rejected route
    degrade_to failed_stage now route (some fallback) =
        if telemetry.emit_pipeline_error_throws request failed_stage fallback
        then rejected route
        else returned fallback (finalize_route route request fallback now)

    -- The catch clause, for the stage that was current.
    unfoldable pub degrade : String → ℕ → ℕ → Route Store → RouteResult
    unfolding degrade_to
    degrade failed_stage start now route =
        degrade_to failed_stage now route
          (build_fallback_decision setting options request route.context (now - start))

    -- The end of the try block: the pin, the telemetry, and the decision.
    unfoldable pub conclude : RoutingDecision → String → ℕ → ℕ → Route Store → RouteResult
    unfolding degrade
    conclude decision stage start now route =
        let final : Route Store = finalize_route route request decision now in
        if telemetry.emit_throws request decision
        then degrade stage start now final
        else returned decision final

    -- After the loop: an estimator that throws leads to the catch clause, too.
    unfoldable pub conclude_undecided :
        Option RoutingDecision → String → ℕ → ℕ → Route Store → RouteResult
    unfolding conclude degrade
    conclude_undecided none stage start now route = degrade stage start now route
    conclude_undecided (some fallback) stage start now route =
        conclude fallback stage start now route

    -- The loop over the stages; `clock` are the readings from here on, and `current` is the last
    -- stage that ran.
    unfoldable pub run_stages : List NamedStage → String → (ℕ → ℕ) → ℕ → Route Store → RouteResult
    unfolding conclude degrade conclude_undecided
    run_stages [] current clock start route =
        conclude_undecided
          (build_fallback_decision setting options request route.context (clock 0 - start)) current
          start (clock 0) route
    run_stages ((name, run) ∷ stages) current clock start route = elim (run (clock 0) route) [
      | undecided route' ↦ run_stages stages name (λ i. clock (suc i)) start route'
      | decided decision route' ↦ conclude decision name start (clock 0) route'
      | threw route' ↦ degrade name start (clock 0) route'
    ]

    -- `routeExclusive` on the fleet, which is the override where one is given.
    unfoldable pub route_exclusive :
        (String → Text)
        → (String → Text)
        → List NamedStage
        → List ModelProfile
        → (ℕ → ℕ)
        → Option (SessionPinner Store)
        → Option InMemoryLearnedRouteStore
        → SpeculativePrewarmGuard
        → RouteResult
    unfolding run_stages
    route_exclusive normal folded stages fleet clock p learned_routes prewarm_guard =
        run_stages stages "unknown" (λ i. clock (suc i)) (clock 0)
          (record {
            context =
                create_routing_context
                  (prioritize_fleet_for_tool_history normal folded fleet request);
            pinner = p;
            learned_routes = learned_routes;
            prewarm_guard = prewarm_guard;
          })
