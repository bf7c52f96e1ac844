-- ===== src/Pipeline/SessionPinStage/Sound.antt =====
-- The `session_pin` stage of src/domain/pipeline/session-pin-stage.ts never throws, and decides on a
-- healthy member of the fleet.
use pi_smart_router.Prelude.{
  ℕ, ◌≡◌, refl, inl, inr, String, Bool, Option, none, some, List, any, str_eq, if-elim,
  Option-cases,
}
use pi_smart_router.Types.{Text, ModelProfile, RoutingRequest, SessionPin, PinReason}
use pi_smart_router.Persistence.StorePort.{StorePort}
use pi_smart_router.Pinning.Pinner.{get_pin}
use pi_smart_router.Pinning.Pinner.Rules.{
  PinAction, use_pin, sub_route, saar_route, break_, no_pin, force_rejected, PinLookupResult,
  token_estimate,
}
use pi_smart_router.Pinning.Pinner.Lookup.{lookup_pin}
use pi_smart_router.Pinning.Pinner.RuleRouted.{HealthyId, Healthy, RoutedBy}
use pi_smart_router.Pinning.Pinner.Routed.{lookup_pin-Routed}
use pi_smart_router.Routing.ContextFit.{MarginSetting, resolve_safety_margin}
use pi_smart_router.Pipeline.{RoutingContext, PipelineOptions, Route, is_pin_only_fallback_active}
use pi_smart_router.Pipeline.Sound.{
  Scoped, SoundRun, estimated-PlacedAny, PlacedAny, decide_or_throw-SoundRun, widened,
}
use pi_smart_router.Pipeline.Classify.{enrich_request_with_saar_candidate}
use pi_smart_router.Pipeline.SafeDefault.{safe_cloud_default}
use pi_smart_router.Pipeline.SafeDefault.Choice.{Chosen, safe_cloud_default-Chosen}
use pi_smart_router.Pipeline.SessionPinStage.{
  mark_context_overflow_from_pin, is_context_overflow, context_after_break, context_without_pin,
  force_rejected_decision, decide_on, on_action, run_with_pinner, run_session_pin,
}

after_break-Scoped :
    (fleet : List ModelProfile) (context : RoutingContext) (existing : Option SessionPin)
    (reason : Option PinReason)
    → Scoped fleet context
    → Scoped fleet (context_after_break context existing reason)
after_break-Scoped fleet context none reason h = h
after_break-Scoped fleet context (some pin) reason h =
    if-elim (Scoped fleet) (is_context_overflow reason)
      (mark_context_overflow_from_pin context pin.pinned_model_id) context (λ _. h) (λ _. h)

without_pin-Scoped :
    (fleet : List ModelProfile) (context : RoutingContext) (existing : Option SessionPin)
    → Scoped fleet context
    → Scoped fleet (context_without_pin context existing)
without_pin-Scoped fleet context none h = h
without_pin-Scoped fleet context (some pin) h =
    if-elim (Scoped fleet)
      (any (λ r. str_eq r.model_id pin.pinned_model_id) context.context_fit_rejected)
      (mark_context_overflow_from_pin context pin.pinned_model_id) context (λ _. h) (λ _. h)

forced-PlacedAny :
    (fleet : List ModelProfile) (options : PipelineOptions) (request : RoutingRequest)
    (code : String) (model : Option ModelProfile)
    → ((m : ModelProfile) → model ≡ some m → HealthyId fleet m.id)
    → PlacedAny fleet (force_rejected_decision options request code model)
forced-PlacedAny fleet options request code none h = inl refl
forced-PlacedAny fleet options request code (some m) h =
    estimated-PlacedAny fleet options request m _ (inr (h m refl))

force_rejected-PlacedAny :
    (setting : MarginSetting) (fleet : List ModelProfile) (context : RoutingContext)
    (options : PipelineOptions) (request : RoutingRequest) (code : String)
    → Scoped fleet context
    → PlacedAny fleet (
        force_rejected_decision options request code
          (safe_cloud_default setting context.fleet (some request) options.context_fit_config))
force_rejected-PlacedAny setting fleet context options request code (within, within_full) =
    forced-PlacedAny fleet options request code _ (λ m e.
      let tokens = token_estimate request in
      let margin = resolve_safety_margin setting options.context_fit_config in
      let ((mem, healthy, fits), tier) : Chosen context.fleet tokens margin (some m) =
        rw e at
          (safe_cloud_default-Chosen setting context.fleet request options.context_fit_config) in
      (m, within m mem, healthy, refl))

module _ {Store : Type 0} where
  decide_on-SoundRun :
      (fleet : List ModelProfile) (options : PipelineOptions) (request : RoutingRequest)
      (pin : Option SessionPin) (code : String) (model : Option ModelProfile) (route : Route Store)
      → Scoped fleet route.context
      → Healthy route.context.fleet model
      → SoundRun fleet (decide_on options request pin code model route)
  decide_on-SoundRun fleet options request pin code none route h healthy = elim healthy [ ]
  decide_on-SoundRun fleet options request pin code (some model) route h healthy =
      decide_or_throw-SoundRun fleet _ route
        (estimated-PlacedAny fleet options request model _
          (inr (widened route.context.fleet fleet model.id h.0 healthy)))
        h

  on_action-SoundRun :
      (fleet : List ModelProfile) (setting : MarginSetting) (options : PipelineOptions)
      (request : RoutingRequest) (existing pin : Option SessionPin) (pin_only : Bool)
      (action : PinAction) (result : PinLookupResult) (route : Route Store)
      → Scoped fleet route.context
      → RoutedBy route.context.fleet action result
      → SoundRun fleet (on_action setting options request existing pin pin_only action result route)
  unfolding on_action
  on_action-SoundRun fleet setting options request existing pin pin_only use_pin result route h r =
      decide_on-SoundRun fleet options request pin _ result.pinned_model route h r
  on_action-SoundRun fleet setting options request existing pin pin_only saar_route result route h
        r =
      decide_on-SoundRun fleet options request pin _ result.saar_route_model route h r
  on_action-SoundRun fleet setting options request existing pin pin_only sub_route result route h
        r =
      decide_on-SoundRun fleet options request pin _ result.sub_route_model route h r
  on_action-SoundRun fleet setting options request existing pin pin_only force_rejected result route
        h r =
      decide_or_throw-SoundRun fleet _ route
        (force_rejected-PlacedAny setting fleet route.context options request _ h) h
  on_action-SoundRun fleet setting options request existing pin pin_only break_ result route h r =
      after_break-Scoped fleet route.context existing result.break_reason h
  on_action-SoundRun fleet setting options request existing pin pin_only no_pin result route h r =
      without_pin-Scoped fleet route.context existing h

module _ (port : StorePort) where
  -- Within the fleet the session_pin stage keeps to it, and where it decides, it names a healthy
  -- member of the fleet, or the placeholder.
  pub session_pin-SoundRun :
      (planning_signal subagent_signal : Text → Bool) (fleet : List ModelProfile)
      (setting : MarginSetting) (options : PipelineOptions) (request : RoutingRequest) (now : ℕ)
      (route : Route port.Store)
      → Scoped fleet route.context
      → SoundRun fleet
          (run_session_pin port planning_signal subagent_signal setting options request now route)
  unfolding run_session_pin run_with_pinner
  session_pin-SoundRun planning_signal subagent_signal fleet setting options request now route h =
      elim (Option-cases route.pinner) [
        | inl e ↦ rw (e, run_session_pin) h
        | inr (p, e) ↦
            let id = request.session_id in
            let context = route.context in
            let looked =
              lookup_pin port p
                (enrich_request_with_saar_candidate planning_signal subagent_signal request
                  context.fleet)
                context.fleet now in
            rw (e, run_session_pin)
              (on_action-SoundRun {Store = port.Store} fleet setting options request (get_pin p id)
                (get_pin looked.1 id) (is_pin_only_fallback_active options (some looked.1) request)
                looked.0.action looked.0 (record route { pinner = some looked.1 }) h
                (lookup_pin-Routed port context.fleet p
                  (enrich_request_with_saar_candidate planning_signal subagent_signal request
                    context.fleet)
                  now))
      ]
