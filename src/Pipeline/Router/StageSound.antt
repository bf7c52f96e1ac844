-- ===== src/Pipeline/Router/StageSound.antt =====
-- The stages of src/domain/pipeline keep the context within the fleet and decide on healthy members of it.
use pi_smart_router.Prelude.{
  ◌≡◌, refl, sym, subst, inl, inr, String, true, ◌&&◌, Option, none, some, List, Memᴰ, arith, find,
  find_sound, Option-cases, Bool-cases, str_eq, mem-filter,
}
use pi_smart_router.Types.{
  ModelProfile, RoutingRequest, RoutingDecision, SessionPin, TurnType, Tier, tier_eq, is_healthy,
  given,
}
use pi_smart_router.Pinning.Pinner.Rules.{token_estimate}
use pi_smart_router.Routing.ContextFit.{
  MarginSetting, resolve_safety_margin, model_fits_context, filter_fleet_by_context_fit,
}
use pi_smart_router.Routing.ContextFit.Laws.{filter_fleet-Partition}
use pi_smart_router.Pipeline.{
  PipelineOptions, HardwareProbeResult, TriageResult, TriageVerdict, trivial, complex, ambiguous,
  Route, StageRun, undecided, decided, threw,
}
use pi_smart_router.Pipeline.Sound.{Scoped, Placed, SoundRun, SafeRun, decide_or_throw-SoundRun}
use pi_smart_router.Pipeline.SafeDefault.{safe_cloud_default}
use pi_smart_router.Pipeline.SafeDefault.Choice.{Chosen, safe_cloud_default-Chosen}
use pi_smart_router.Pipeline.Overflow.{
  should_attempt_context_overflow_fallback, run_context_overflow_fallback, run_safe_default,
  run_context_fit, run_hardware_probe,
}
use pi_smart_router.Pipeline.Overflow.Fallback.{overflow_fallback-PlacedAny}
use pi_smart_router.Pipeline.TurnEnvelope.Biased.{TurnRun, Biased}
use pi_smart_router.Pipeline.TurnEnvelope.{pinned_in, pin_of}
use pi_smart_router.Pipeline.Triage.{
  decide_tier, on_verdict, on_trivial, run_triage, run_triage_cloud_fallback,
}

pinned_in_healthy :
    (pin : Option SessionPin) (fleet : List ModelProfile) (m : ModelProfile)
    → pinned_in pin fleet ≡ some m
    → Memᴰ m fleet × (is_healthy m ≡ true)
pinned_in_healthy none fleet m e = cc
pinned_in_healthy (some pin) fleet m e =
    let (mem, passes) =
      find_sound (λ x. str_eq x.id pin.pinned_model_id && is_healthy x) fleet m e in
    (mem, ground (arith, passes))

module _ {Store : Type 0} (fleet : List ModelProfile) where
  pub hardware-SoundRun :
      (hardware : Option (Option HardwareProbeResult)) (route : Route Store)
      → Scoped fleet route.context
      → SoundRun fleet (run_hardware_probe hardware route)
  unfolding run_hardware_probe
  hardware-SoundRun none route h = h
  hardware-SoundRun (some none) route h = h
  hardware-SoundRun (some (some result)) route h = h

  decide_tier-SafeRun :
      (request : RoutingRequest) (tier : Tier) (reason : String) (route : Route Store)
      → Scoped fleet route.context
      → SafeRun fleet (decide_tier request tier reason route)
  unfolding decide_tier
  decide_tier-SafeRun request tier reason route h =
      elim (Option-cases (find (λ m. tier_eq m.tier tier && is_healthy m) route.context.fleet)) [
        | inl e ↦ rw (e, decide_tier) h
        | inr (m, e) ↦
            let (mem, passes) = find_sound _ route.context.fleet m e in
            rw (e, decide_tier) (inr (m, h.0 m mem, ground (arith, passes), refl), h)
      ]

  verdict-SafeRun :
      (request : RoutingRequest) (verdict : TriageVerdict) (reason : String) (route : Route Store)
      → Scoped fleet route.context
      → SafeRun fleet (on_verdict request verdict reason route)
  verdict-SafeRun request complex reason route h = decide_tier-SafeRun request _ reason route h
  verdict-SafeRun request trivial reason route h = h
  verdict-SafeRun request ambiguous reason route h = h

  pub triage-SafeRun :
      (result : TriageResult) (request : RoutingRequest) (route : Route Store)
      → Scoped fleet route.context
      → SafeRun fleet (run_triage result request route)
  unfolding run_triage
  triage-SafeRun result request route h =
      verdict-SafeRun request result.verdict result.reason_code
        (record route { context = record route.context { triage_result = some result } }) h

  trivial-SafeRun :
      (request : RoutingRequest) (verdict : TriageVerdict) (reason : String) (route : Route Store)
      → Scoped fleet route.context
      → SafeRun fleet (on_trivial request verdict reason route)
  trivial-SafeRun request trivial reason route h = decide_tier-SafeRun request _ reason route h
  trivial-SafeRun request complex reason route h = h
  trivial-SafeRun request ambiguous reason route h = h

  pub cloud_fallback-SafeRun :
      (request : RoutingRequest) (route : Route Store)
      → Scoped fleet route.context
      → SafeRun fleet (run_triage_cloud_fallback request route)
  unfolding run_triage_cloud_fallback
  cloud_fallback-SafeRun request route h = elim (Option-cases route.context.triage_result) [
    | inl e ↦ rw (e, run_triage_cloud_fallback) h
    | inr (result, e) ↦
        rw (e, run_triage_cloud_fallback)
          (trivial-SafeRun request result.verdict result.reason_code route h)
  ]

  pub context_fit-SafeRun :
      (setting : MarginSetting) (options : PipelineOptions) (request : RoutingRequest)
      (route : Route Store)
      → Scoped fleet route.context
      → SafeRun fleet (run_context_fit setting options request route)
  unfolding run_context_fit filter_fleet_by_context_fit
  context_fit-SafeRun setting options request route (within, within_full) =
      let active = route.context.fleet in
      let config = options.context_fit_config in
      elim (Option-cases (given request.force_model_id)) [
        | inr (id, forced) ↦ rw forced (within, within_full)
        | inl free ↦
            let kept = (filter_fleet-Partition setting active request config free).0 in
            (
              λ m mem.
                  within m
                    (mem-filter
                      (λ x.
                        model_fits_context x (token_estimate request)
                          (resolve_safety_margin setting config))
                      active m (subst (Memᴰ m) kept mem)).0,
              within_full,
            )
      ]

  pub safe_default-SafeRun :
      (setting : MarginSetting) (options : PipelineOptions) (request : RoutingRequest)
      (route : Route Store)
      → Scoped fleet route.context
      → SafeRun fleet (run_safe_default setting options request route)
  unfolding run_safe_default
  safe_default-SafeRun setting options request route h =
      elim (Bool-cases (should_attempt_context_overflow_fallback request route.context)) [
        | inl attempted ↦ rw attempted h
        | inr calm ↦
            elim (Option-cases (
              safe_cloud_default setting route.context.fleet (some request)
                options.context_fit_config)) [
                  | inl e ↦ rw (calm, e) h
                  | inr (m, e) ↦
                      let ((mem, healthy, fits), tier) : Chosen route.context.fleet
                          (token_estimate request)
                          (resolve_safety_margin setting options.context_fit_config) (some m) =
                        rw e at (
                          safe_cloud_default-Chosen setting route.context.fleet request
                            options.context_fit_config) in
                      rw (calm, e) (inr (m, h.0 m mem, healthy, refl), h)
                ]
      ]

  pub overflow-SoundRun :
      (setting : MarginSetting) (options : PipelineOptions) (request : RoutingRequest)
      (route : Route Store)
      → Scoped fleet route.context
      → SoundRun fleet (run_context_overflow_fallback setting options request route)
  unfolding run_context_overflow_fallback
  overflow-SoundRun setting options request route h =
      elim (Bool-cases (should_attempt_context_overflow_fallback request route.context)) [
        | inl attempted ↦ rw attempted (
            decide_or_throw-SoundRun fleet _ route
              (overflow_fallback-PlacedAny setting options request route.context 0 fleet h) h)
        | inr calm ↦ rw calm h
      ]

  Biased-Placed :
      (options : PipelineOptions) (request : RoutingRequest) (turn : TurnType) (route : Route Store)
      (decision : RoutingDecision)
      → Scoped fleet route.context
      → Biased options request turn route.pinner route.context.fleet decision
      → Placed fleet decision
  Biased-Placed options request turn route decision h
        (tier, target, named, cheapest, inl (selected, allowed)) =
      let (mem, same, healthy, least) = cheapest in
      inr (target, h.0 target mem, healthy, sym selected)
  Biased-Placed options request turn route decision h
        (tier, target, named, cheapest, inr delegated) =
      let (pinned, found, plans, economical, selected, reason) = delegated in
      let (mem, healthy) =
        pinned_in_healthy (pin_of route.pinner request.session_id) route.context.fleet pinned
          found in
      inr (pinned, h.0 pinned mem, healthy, sym selected)

  pub turn_envelope-SoundRun :
      (options : PipelineOptions) (request : RoutingRequest) (turn : TurnType) (route : Route Store)
      (run : StageRun Store)
      → Scoped fleet route.context
      → TurnRun options request turn
          (Biased options request turn route.pinner route.context.fleet)
          route
          run
      → SoundRun fleet run
  turn_envelope-SoundRun options request turn route (undecided after) (w, v) (p, f, g) =
      (λ m mem. w m (subst (Memᴰ m) f mem), λ m mem. v m (subst (Memᴰ m) g mem))
  turn_envelope-SoundRun options request turn route (decided d after) (w, v) (biased, (p, f, g)) = (
    Biased-Placed options request turn route d (w, v) biased,
    (λ m mem. w m (subst (Memᴰ m) f mem), λ m mem. v m (subst (Memᴰ m) g mem)),
  )
  turn_envelope-SoundRun options request turn route (threw after) (w, v) ((p, f, g), throws) =
      (λ m mem. w m (subst (Memᴰ m) f mem), λ m mem. v m (subst (Memᴰ m) g mem))
