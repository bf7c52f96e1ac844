-- ===== src/Pipeline/HydraMatch/Sound.antt =====
-- The matching stage of src/domain/pipeline/hydra-match-stage.ts keeps to the fleet and does not throw.
use pi_smart_router.Prelude.{
  ◌≡◌, refl, sym, inr, String, true, not, Option, none, some, List, [], ◌∷◌, Memᴰ, find_sound,
  mem-filter, if-elim, eq_iff, subst,
}
use pi_smart_router.Types.{ModelProfile, RoutingRequest, CandidateScore, Tier, is_healthy}
use pi_smart_router.Pinning.Pinner.Rules.{token_estimate}
use pi_smart_router.Pinning.Pinner.RuleRouted.{HealthyId}
use pi_smart_router.Routing.ContextFit.{MarginSetting, resolve_safety_margin}
use pi_smart_router.Routing.Degraded.{
  NeuralFailureKind, neural_budget_exceeded, neural_misconfigured, neural_error, RoutePath, neural,
  learned, heuristic, safe_default, DegradedRouteInput, DegradedRouteResolution,
  resolve_degraded_route,
}
use pi_smart_router.Routing.Degraded.Resolved.{RestsOn, resolve_degraded_route-RestsOn}
use pi_smart_router.Pipeline.{PipelineOptions, RoutingContext, Route, MatchResult}
use pi_smart_router.Pipeline.Sound.{Scoped, SoundRun, estimated-PlacedAny, decide_or_throw-SoundRun}
use pi_smart_router.Pipeline.SafeDefault.{safe_cloud_default}
use pi_smart_router.Pipeline.SafeDefault.Choice.{Chosen, safe_cloud_default-Chosen}
use pi_smart_router.Pipeline.ToolUse.{constrain_fleet_to_tier_hint, or_whole}
use pi_smart_router.Pipeline.HydraMatch.{
  MatchOutcome, matched, missing_weights, match_failed, HydraOptions, fleet_for_match,
  degraded_decision, degraded_input, degraded_route_stage, neural_decision, record_learned_route,
  on_selected, on_outcome, match_with, run_hydra_match,
}

-- A result selects, by its id, a healthy model of the fleet that the matcher was given, if any.
abbrev pub SelectsFrom : List ModelProfile → MatchOutcome → Type 0
SelectsFrom fleet (matched result) =
    (chosen : CandidateScore) → result.selected ≡ some chosen → HealthyId fleet chosen.model_id
SelectsFrom fleet (missing_weights codes) = Unit
SelectsFrom fleet match_failed = Unit

-- A matcher, if there is one, selects from the fleet that it is given.
abbrev pub MatcherSound : Option (RoutingRequest → List ModelProfile → MatchOutcome) → Type 0
MatcherSound none = Unit
MatcherSound (some match) =
    (request : RoutingRequest) (fleet : List ModelProfile) → SelectsFrom fleet (match request fleet)

or_whole-mem :
    (some_left fleet : List ModelProfile)
    → ((m : ModelProfile) → Memᴰ m some_left → Memᴰ m fleet)
    → (m : ModelProfile) → Memᴰ m (or_whole some_left fleet)
    → Memᴰ m fleet
or_whole-mem [] fleet within m mem = mem
or_whole-mem (x ∷ xs) fleet within m mem = within m mem

fleet_for_match-mem :
    (context : RoutingContext) (hint : Option Tier) (m : ModelProfile)
    → Memᴰ m (fleet_for_match context hint)
    → Memᴰ m context.fleet
unfolding constrain_fleet_to_tier_hint
fleet_for_match-mem context none m mem = mem
fleet_for_match-mem context (some tier) m mem =
    or_whole-mem _ context.fleet (λ x h. (mem-filter _ context.fleet x h).0) m mem

-- A model that a degraded route rests on is a healthy one of the context's fleet.
degraded-healthy :
    (input : DegradedRouteInput) (path : RoutePath) (m : ModelProfile)
    → ((x : ModelProfile)
        → input.safe_default_model ≡ some x
        → Memᴰ x input.fleet × (is_healthy x ≡ true))
    → RestsOn input path (some m)
    → Memᴰ m input.fleet × (is_healthy m ≡ true)
degraded-healthy input neural m default h = elim h [ ]
degraded-healthy input learned m default (entry, x, known, confident, same, suggested) =
    let here : x ≡ m = cc same in
    let (mem, tier, healthy, allowed) = suggested in
    subst (λ (y : ModelProfile). Memᴰ y input.fleet × (is_healthy y ≡ true)) here (mem, healthy)
degraded-healthy input heuristic m default (unlearned, rule, x, known, same, suggested) =
    let here : x ≡ m = cc same in
    let (mem, tier, healthy, allowed) = suggested in
    subst (λ (y : ModelProfile). Memᴰ y input.fleet × (is_healthy y ≡ true)) here (mem, healthy)
degraded-healthy input safe_default m default (unlearned, unmatched, same) = default m (sym same)

default-healthy :
    (setting : MarginSetting) (options : PipelineOptions) (request : RoutingRequest)
    (context : RoutingContext) (m : ModelProfile)
    → safe_cloud_default setting context.fleet (some request) options.context_fit_config ≡ some m
    → Memᴰ m context.fleet × (is_healthy m ≡ true)
default-healthy setting options request context m e =
    let ((mem, healthy, fits), tier) : Chosen context.fleet (token_estimate request)
        (resolve_safety_margin setting options.context_fit_config) (some m) =
      rw e at
        (safe_cloud_default-Chosen setting context.fleet request options.context_fit_config) in
    (mem, healthy)

widened_outcome :
    (context : RoutingContext) (outcome : MatchOutcome)
    → SelectsFrom (fleet_for_match context context.tier_hint) outcome
    → SelectsFrom context.fleet outcome
widened_outcome context (matched result) sound = λ chosen e.
    let (m, mem, healthy, named) = sound chosen e in
    (m, fleet_for_match-mem context context.tier_hint m mem, healthy, named)
widened_outcome context (missing_weights codes) sound = tt
widened_outcome context match_failed sound = tt

module _ {Store : Type 0} (fleet : List ModelProfile) (hydra : HydraOptions)
    (setting : MarginSetting) (options : PipelineOptions) (request : RoutingRequest) where
  degraded_decision-SoundRun :
      (codes : List String) (resolution : DegradedRouteResolution) (model : Option ModelProfile)
      (route : Route Store)
      → ((m : ModelProfile) → model ≡ some m → Memᴰ m route.context.fleet × (is_healthy m ≡ true))
      → Scoped fleet route.context
      → SoundRun fleet (degraded_decision options request codes resolution model route)
  degraded_decision-SoundRun codes resolution none route sound h = h
  degraded_decision-SoundRun codes resolution (some m) route sound h =
      let (mem, healthy) = sound m refl in
      decide_or_throw-SoundRun fleet _ route
        (estimated-PlacedAny fleet options request m _ (inr (m, h.0 m mem, healthy, refl))) h

  degraded-SoundRun :
      (failure : NeuralFailureKind) (codes : List String) (route : Route Store)
      → Scoped fleet route.context
      → SoundRun fleet (degraded_route_stage hydra setting options request failure codes route)
  unfolding degraded_route_stage degraded_input
  degraded-SoundRun failure codes route h =
      let input =
        degraded_input hydra setting options request failure route.learned_routes route.context in
      let resolution = resolve_degraded_route input in
      if-elim (SoundRun fleet) (not hydra.degraded_route_config.enabled) _ _ (λ off. h)
        (λ on.
          degraded_decision-SoundRun codes resolution resolution.model _
            (λ m e.
              degraded-healthy input resolution.route_path m
                (default-healthy setting options request route.context)
                (subst (RestsOn input resolution.route_path) e
                  (resolve_degraded_route-RestsOn input)))
            h)

  neural-SoundRun :
      (result : MatchResult) (chosen : CandidateScore) (model : Option ModelProfile)
      (route : Route Store)
      → ((m : ModelProfile) → model ≡ some m → HealthyId route.context.fleet m.id)
      → Scoped fleet route.context
      → SoundRun fleet (neural_decision hydra options request result chosen model route)
  unfolding record_learned_route
  neural-SoundRun result chosen none route sound h = h
  neural-SoundRun result chosen (some m) route sound h =
      let (x, mem, healthy, named) = sound m refl in
      decide_or_throw-SoundRun fleet _ _
        (estimated-PlacedAny fleet options request m _ (inr (x, h.0 x mem, healthy, named))) h

  on_selected-SoundRun :
      (result : MatchResult) (selected : Option CandidateScore) (route : Route Store)
      → ((chosen : CandidateScore)
          → selected ≡ some chosen
          → HealthyId route.context.fleet chosen.model_id)
      → Scoped fleet route.context
      → SoundRun fleet (on_selected hydra setting options request result selected route)
  on_selected-SoundRun result none route sound h =
      if-elim (SoundRun fleet) result.budget_exceeded _ _
        (λ late. degraded-SoundRun neural_budget_exceeded [] route h) (λ none_fits. h)
  on_selected-SoundRun result (some chosen) route sound h =
      neural-SoundRun result chosen _ route
        (λ m e.
          let (mem, named) = find_sound _ route.context.fleet m e in
          let same : m.id ≡ chosen.model_id = (eq_iff m.id chosen.model_id).0 named in
          subst (HealthyId route.context.fleet) (sym same) (sound chosen refl))
        h

  on_outcome-SoundRun :
      (route : Route Store) (outcome : MatchOutcome)
      → SelectsFrom route.context.fleet outcome
      → Scoped fleet route.context
      → SoundRun fleet (on_outcome hydra setting options request route outcome)
  on_outcome-SoundRun route (missing_weights codes) sound h =
      degraded-SoundRun neural_misconfigured codes route h
  on_outcome-SoundRun route match_failed sound h = degraded-SoundRun neural_error [] route h
  on_outcome-SoundRun route (matched result) sound h =
      if-elim (SoundRun fleet) _ _ _
        (λ closed. degraded-SoundRun neural_misconfigured result.requirement_reason_codes route h)
        (λ open_.
          on_selected-SoundRun result result.selected
            (record route { context = record route.context { hydra_result = some result } }) sound
            h)

  match_with-SoundRun :
      (route : Route Store) (matcher : Option (RoutingRequest → List ModelProfile → MatchOutcome))
      → MatcherSound matcher
      → Scoped fleet route.context
      → SoundRun fleet (match_with hydra setting options request route matcher)
  match_with-SoundRun route none sound h = h
  match_with-SoundRun route (some match) sound h =
      let searched = fleet_for_match route.context route.context.tier_hint in
      on_outcome-SoundRun route (match request searched)
        (widened_outcome route.context _ (sound request searched)) h

  pub hydra_match-SoundRun :
      (route : Route Store)
      → MatcherSound hydra.hydra_matcher
      → Scoped fleet route.context
      → SoundRun fleet (run_hydra_match hydra setting options request route)
  unfolding run_hydra_match
  hydra_match-SoundRun route sound h = match_with-SoundRun route hydra.hydra_matcher sound h
