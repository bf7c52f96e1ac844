-- ===== src/Pipeline/Router/Answer.antt =====
-- The orchestrator of src/domain/pipeline/router-pipeline.ts answers whatever its stages do.
use pi_smart_router.Prelude.{
  ℕ, ◌≡◌, refl, inl, inr, ◌⊎◌, suc, String, false, ◌-◌, Option, none, some, List, [], ◌∷◌, All,
  str_eq, arith, if-elim,
}
use pi_smart_router.Prelude.Table.{get}
use pi_smart_router.Types.{Text, ModelProfile, RoutingRequest, RoutingDecision}
use pi_smart_router.Persistence.StorePort.{StorePort}
use pi_smart_router.Pinning.Pinner.{SessionPinner}
use pi_smart_router.Pinning.Pinner.Settled.{pinned_id}
use pi_smart_router.Routing.ContextFit.{MarginSetting}
use pi_smart_router.Routing.Prewarm.{SpeculativePrewarmGuard}
use pi_smart_router.Routing.Degraded.{InMemoryLearnedRouteStore}
use pi_smart_router.Pipeline.{PipelineOptions, Route, StageRun, undecided, decided, threw}
use pi_smart_router.Pipeline.Overflow.Fallback.{
  fallback_decision-PlacedAny, fallback_decision_returns,
}
use pi_smart_router.Pipeline.Sound.{Scoped, Placed, PlacedAny, SoundRun, EstimatorReturns}
use pi_smart_router.Pipeline.Router.{
  Telemetry, NamedStage, RouteResult, returned, rejected, keeps_pin, finalize_if_given,
  finalize_route, degrade_to, degrade, conclude, conclude_undecided, run_stages, route_exclusive,
  prioritize_fleet_for_tool_history,
}
use pi_smart_router.Pipeline.Router.Pins.{finalize_pinner-PinAfter}

run-cases :
    {Store : Type 0} (run : StageRun Store)
    → ((r : Route Store) × (run ≡ undecided r))
      ⊎ (((r : Route Store) × (run ≡ threw r))
          ⊎ ((d : RoutingDecision) × (r : Route Store) × (run ≡ decided d r)))
run-cases (undecided r) = inl (r, refl)
run-cases (threw r) = inr (inl (r, refl))
run-cases (decided d r) = inr (inr (d, r, refl))

-- The reasons of a decision that does not pin the session to its model.
abbrev pub exempt_reasons : List String
exempt_reasons =
    "session_pinned" ∷ "tool_result_sub_route" ∷ "pin_only_fallback" ∷ "saar_buffer_active"
    ∷ "saar_hard_lock" ∷ "force_rejected_unhealthy" ∷ "force_rejected_not_in_fleet" ∷ []

-- No other reason keeps the pin.
pins_unless_exempt :
    (code : String)
    → All (λ reason. str_eq code reason ≡ false) exempt_reasons
    → keeps_pin code ≡ false
pins_unless_exempt code (pinned, (routed, (only, (buffer, (lock, (unhealthy, (unknown, _))))))) =
    rw (pinned, routed, only, buffer, lock, unhealthy, unknown) refl

module _ (port : StorePort) where
  open port use {Store}

  -- A stage that throws is sound, as long as it keeps to the fleet.
  abbrev pub SoundStage : List ModelProfile → NamedStage port → Type 0
  SoundStage fleet (name, run) =
      (now : ℕ) (route : Route Store) → Scoped fleet route.context → SoundRun fleet (run now route)

  -- The pin of the session is of the decided model, unless the reason is exempt or the turn envelope
  -- decided.
  abbrev pub Named : String → RoutingDecision → Option (SessionPinner Store) → Type 0
  Named id decision none = Unit
  Named id decision (some q) =
      All (λ reason. str_eq decision.reason_code reason ≡ false) exempt_reasons
      → str_eq decision.stage "turn_envelope" ≡ false
      → pinned_id (get id q.pins) ≡ some decision.selected_model_id

  -- A route that ends with a placed decision that the pin agrees with.
  abbrev pub Answered : List ModelProfile → String → RouteResult port → Type 0
  Answered fleet id (returned decision route) =
      Placed fleet decision × Named id decision route.pinner
  Answered fleet id (rejected route) = ⊥

  finalized-Named :
      (o : Option (SessionPinner Store)) (request : RoutingRequest) (decision : RoutingDecision)
      (now : ℕ)
      → Named request.session_id decision (finalize_if_given port o request decision now)
  finalized-Named none request decision now = tt
  finalized-Named (some p) request decision now = λ code stage.
      (finalize_pinner-PinAfter port p request decision now).0.1
        (ground (arith, pins_unless_exempt decision.reason_code code, stage))

  module _ (telemetry : Telemetry) (setting : MarginSetting) (options : PipelineOptions)
      (request : RoutingRequest) (fleet : List ModelProfile)
      (quiet : (failed : String) (decision : RoutingDecision)
        → telemetry.emit_pipeline_error_throws request failed decision ≡ false)
      (returns : EstimatorReturns options request) where
    degrade-Answered :
        (failed : String) (start now : ℕ) (route : Route Store)
        → Scoped fleet route.context
        → Answered fleet request.session_id
            (degrade port telemetry setting options request failed start now route)
    unfolding degrade degrade_to finalize_route
    degrade-Answered failed start now route h =
        let elapsed = now - start in
        let (fallback, e) =
          fallback_decision_returns setting options request route.context elapsed returns in
        let placed : PlacedAny fleet (some fallback) =
          rw e at
            (fallback_decision-PlacedAny setting options request route.context elapsed fleet h) in
        rw (e, quiet failed fallback) (placed, finalized-Named route.pinner request fallback now)

    conclude-Answered :
        (decision : RoutingDecision) (stage : String) (start now : ℕ) (route : Route Store)
        → Placed fleet decision
        → Scoped fleet route.context
        → Answered fleet request.session_id
            (conclude port telemetry setting options request decision stage start now route)
    unfolding conclude finalize_route
    conclude-Answered decision stage start now route placed h =
        if-elim (Answered fleet request.session_id) (telemetry.emit_throws request decision) _ _
          (λ _. degrade-Answered stage start now (finalize_route port route request decision now) h)
          (λ _. (placed, finalized-Named route.pinner request decision now))

    run_stages-Answered :
        (stages : List (NamedStage port)) (current : String) (clock : ℕ → ℕ) (start : ℕ)
        (route : Route Store)
        → All (SoundStage fleet) stages
        → Scoped fleet route.context
        → Answered fleet request.session_id
            (run_stages port telemetry setting options request stages current clock start route)
    unfolding run_stages conclude_undecided
    run_stages-Answered [] current clock start route sound h =
        let elapsed = clock 0 - start in
        let (fallback, e) =
          fallback_decision_returns setting options request route.context elapsed returns in
        let placed : PlacedAny fleet (some fallback) =
          rw e at
            (fallback_decision-PlacedAny setting options request route.context elapsed fleet h) in
        rw e (conclude-Answered fallback current start (clock 0) route placed h)
    run_stages-Answered ((name, run) ∷ stages) current clock start route (here, later) h =
        let ran = here (clock 0) route h in
        elim (run-cases (run (clock 0) route)) [
          | inl (r, e) ↦
              rw (e, run_stages)
                (run_stages-Answered stages name (λ i. clock (suc i)) start r later (rw e at ran))
          | inr (inl (r, e)) ↦
              rw (e, run_stages) (degrade-Answered name start (clock 0) r (rw e at ran))
          | inr (inr (d, r, e)) ↦
              let (placed, scoped) : SoundRun fleet (decided d r) = rw e at ran in
              rw (e, run_stages) (conclude-Answered d name start (clock 0) r placed scoped)
        ]

    -- Where each stage, throwing or not, keeps the context within the fleet and decides only on
    -- healthy members of the fleet or the placeholder, and the error telemetry and the cost estimator
    -- return, a route ends
    -- with such a decision and never with an error, and the session is pinned to the decided model
    -- unless the decision is one that leaves pins.
    pub route_exclusive-Answered :
        (normal folded : String → Text) (stages : List (NamedStage port)) (clock : ℕ → ℕ)
        (p : Option (SessionPinner Store)) (learned : Option InMemoryLearnedRouteStore)
        (guard : SpeculativePrewarmGuard)
        → All (SoundStage fleet) stages
        → Answered fleet request.session_id (
            route_exclusive port telemetry setting options request normal folded stages fleet clock
              p learned guard)
    unfolding route_exclusive prioritize_fleet_for_tool_history
    route_exclusive-Answered normal folded stages clock p learned guard sound =
        let same : prioritize_fleet_for_tool_history normal folded fleet request ≡ fleet =
          ground arith in
        run_stages-Answered stages "unknown" (λ i. clock (suc i)) (clock 0) _ sound
          (rw same (λ m mem. mem, λ m mem. mem))
