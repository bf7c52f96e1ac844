-- ===== src/Pipeline/Overflow/Fallback.antt =====
-- The fallback decisions of src/domain/pipeline: which model they name.
use pi_smart_router.Prelude.{
  ℕ, ◌≡◌, refl, inl, inr, String, Bool, true, false, Option, none, some, List, Memᴰ, sym,
  Bool-cases,
}
use pi_smart_router.Types.{ModelProfile, RoutingRequest, RoutingDecision, is_healthy}
use pi_smart_router.Pinning.Pinner.Rules.{token_estimate}
use pi_smart_router.Routing.ContextFit.{
  MarginSetting, resolve_safety_margin, OverflowReason, same_provider_fallback, frontier_fallback,
  no_fit, resolve_context_overflow_fallback,
}
use pi_smart_router.Routing.ContextFit.Fallback.{Usable, Supported, overflow_fallback-Supported}
use pi_smart_router.Pipeline.{RoutingContext, PipelineOptions, decision_for}
use pi_smart_router.Pipeline.Sound.{
  Scoped, Placed, PlacedAny, EstimatorThrows, EstimatorReturns, returns_not_throws, estimated-cases,
}
use pi_smart_router.Pipeline.SafeDefault.{
  safe_cloud_default, safe_decision, build_safe_default_fallback_decision,
}
use pi_smart_router.Pipeline.SafeDefault.Choice.{Chosen, safe_cloud_default-Chosen}
use pi_smart_router.Pipeline.Overflow.{
  overflow_reason_code, should_attempt_context_overflow_fallback, overflow_decision,
  build_context_overflow_fallback_decision, build_fallback_decision,
}

-- The id of a selected model, or the placeholder.
abbrev pub id_or_unknown : Option ModelProfile → String
id_or_unknown none = "unknown"
id_or_unknown (some m) = m.id

-- The decision names the selected model, under the reason code.
abbrev pub Names : Option ModelProfile → String → RoutingDecision → Type 0
Names model code decision =
    (decision.selected_model_id ≡ id_or_unknown model)
    × (decision.reason_code ≡ code)
    × (decision.stage ≡ "fallback")

-- The fallback decision on a selected model, if the estimator returns.
abbrev pub NamesOrThrows :
    PipelineOptions
    → RoutingRequest
    → Option ModelProfile
    → String
    → Option RoutingDecision
    → Type 0
NamesOrThrows options request model code (some decision) = Names model code decision
NamesOrThrows options request none code none = ⊥
NamesOrThrows options request (some m) code none = EstimatorThrows options request m

-- What a fallback decision rests on, by whether the route escalates the context overflow.
abbrev pub Grounded :
    PipelineOptions
    → RoutingRequest
    → Bool
    → RoutingContext
    → ℕ
    → ℕ
    → Option RoutingDecision
    → Type 0
Grounded options request true context tokens margin decision =
    (reason : OverflowReason) × (model : Option ModelProfile) × Supported context.full_fleet tokens
      margin context.context_overflow_preferred_provider reason model
    × NamesOrThrows options request model (overflow_reason_code reason) decision
Grounded options request false context tokens margin decision =
    (model : Option ModelProfile) × Chosen context.fleet tokens margin model
    × ((d : RoutingDecision) × (decision ≡ some d) × Names model "safe_cloud_default" d)

overflow_decision-NamesOrThrows :
    (options : PipelineOptions) (request : RoutingRequest) (context : RoutingContext) (elapsed : ℕ)
    (reason : OverflowReason) (model : Option ModelProfile)
    → NamesOrThrows options request model
        (overflow_reason_code reason)
        (overflow_decision options request context elapsed reason model)
overflow_decision-NamesOrThrows options request context elapsed reason none = (refl, refl, refl)
overflow_decision-NamesOrThrows options request context elapsed reason (some m) =
    let d : RoutingDecision =
      record (decision_for request m "fallback" (overflow_reason_code reason)) {
        candidates = some context.context_fit_rejected;
        routing_latency_ms = elapsed;
      } in
    elim (estimated-cases options request m d) [
      | inl (cost, e) ↦ rw e (refl, refl, refl)
      | inr (e, throws) ↦ rw e throws
    ]

safe_decision-Names :
    (request : RoutingRequest) (elapsed : ℕ) (model : Option ModelProfile)
    → Names model "safe_cloud_default"
        (record (safe_decision request model) { routing_latency_ms = elapsed })
safe_decision-Names request elapsed none = (refl, refl, refl)
safe_decision-Names request elapsed (some m) = (refl, refl, refl)

module _ (setting : MarginSetting) (options : PipelineOptions) (request : RoutingRequest)
    (context : RoutingContext) (elapsed : ℕ) where
  -- The fallback decision of a failed or undecided route names the model of the overflow escalation
  -- where the route escalates, and the safe cloud default otherwise: a healthy model that fits, and
  -- the placeholder `unknown` only where the escalation or the default finds none. There is no decision
  -- only where the route escalates and the cost estimator throws on the selected model.
  pub fallback_decision-Grounded :
      Grounded options request
        (should_attempt_context_overflow_fallback request context)
        context
        (token_estimate request)
        (resolve_safety_margin setting options.context_fit_config)
        (build_fallback_decision setting options request context elapsed)
  unfolding build_fallback_decision build_context_overflow_fallback_decision
      build_safe_default_fallback_decision
  fallback_decision-Grounded =
      elim (Bool-cases (should_attempt_context_overflow_fallback request context)) [
        | inl attempted ↦
            let preferred = context.context_overflow_preferred_provider in
            let overflow =
              resolve_context_overflow_fallback setting context.full_fleet request preferred
                options.context_fit_config in
            rw attempted (
              overflow.reason_code,
              overflow.model,
              overflow_fallback-Supported setting context.full_fleet request preferred
                  options.context_fit_config,
              overflow_decision-NamesOrThrows options request context elapsed overflow.reason_code
                  overflow.model,
            )
        | inr calm ↦
            let model =
              safe_cloud_default setting context.fleet (some request) options.context_fit_config in
            rw calm (
              model,
              safe_cloud_default-Chosen setting context.fleet request options.context_fit_config,
              (_, refl, safe_decision-Names request elapsed model),
            )
      ]

Usable-Supported :
    (fleet : List ModelProfile) (tokens margin : ℕ) (preferred : Option String)
    (reason : OverflowReason) (m : ModelProfile)
    → Supported fleet tokens margin preferred reason (some m)
    → Usable fleet tokens margin m
Usable-Supported fleet tokens margin preferred same_provider_fallback m h = h.2
Usable-Supported fleet tokens margin preferred frontier_fallback m h = h.1
Usable-Supported fleet tokens margin preferred no_fit m h = elim h [ ]

named_Placed :
    (fleet : List ModelProfile) (model : Option ModelProfile) (code : String)
    (decision : RoutingDecision)
    → Names model code decision
    → ((m : ModelProfile) → model ≡ some m → Memᴰ m fleet × (is_healthy m ≡ true))
    → Placed fleet decision
named_Placed fleet none code decision (named, _, _) h = inl named
named_Placed fleet (some m) code decision (named, _, _) h =
    let (mem, healthy) = h m refl in inr (m, mem, healthy, sym named)

named_PlacedAny :
    (fleet : List ModelProfile) (options : PipelineOptions) (request : RoutingRequest)
    (model : Option ModelProfile) (code : String) (decision : Option RoutingDecision)
    → NamesOrThrows options request model code decision
    → ((m : ModelProfile) → model ≡ some m → Memᴰ m fleet × (is_healthy m ≡ true))
    → PlacedAny fleet decision
named_PlacedAny fleet options request model code none names h = tt
named_PlacedAny fleet options request model code (some d) names h =
    named_Placed fleet model code d names h

Grounded-PlacedAny :
    (fleet : List ModelProfile) (options : PipelineOptions) (request : RoutingRequest)
    (attempted : Bool) (context : RoutingContext) (tokens margin : ℕ)
    (decision : Option RoutingDecision)
    → Scoped fleet context
    → Grounded options request attempted context tokens margin decision
    → PlacedAny fleet decision
Grounded-PlacedAny fleet options request true context tokens margin decision (within, within_full)
      (reason, model, supported, names) =
    named_PlacedAny fleet options request model _ decision names (λ m e.
      let (mem, healthy, fits) =
        Usable-Supported context.full_fleet tokens margin
          context.context_overflow_preferred_provider reason m (rw e at supported) in
      (within_full m mem, healthy))
Grounded-PlacedAny fleet options request false context tokens margin decision (within, within_full)
      (model, chosen, (d, same, names)) =
    rw same (
      named_Placed fleet model _ d names (λ m e.
        let ((mem, healthy, fits), tier) : Chosen context.fleet tokens margin (some m) =
          rw e at chosen in
        (within m mem, healthy)))

-- Where the estimator returns, there is a decision.
pub Grounded-returns :
    (options : PipelineOptions) (request : RoutingRequest) (attempted : Bool)
    (context : RoutingContext) (tokens margin : ℕ) (decision : Option RoutingDecision)
    → EstimatorReturns options request
    → Grounded options request attempted context tokens margin decision
    → (d : RoutingDecision) × (decision ≡ some d)
Grounded-returns options request attempted context tokens margin (some d) returns h = (d, refl)
Grounded-returns options request true context tokens margin none returns
      (reason, none, supported, impossible) =
    elim impossible [ ]
Grounded-returns options request true context tokens margin none returns
      (reason, some m, supported, throws) =
    absurd (returns_not_throws options request m returns throws)
Grounded-returns options request false context tokens margin none returns
      (model, chosen, (d, same, names)) =
    (d, same)

module _ (setting : MarginSetting) (options : PipelineOptions) (request : RoutingRequest)
    (context : RoutingContext) (elapsed : ℕ) where
  pub fallback_decision-PlacedAny :
      (fleet : List ModelProfile)
      → Scoped fleet context
      → PlacedAny fleet (build_fallback_decision setting options request context elapsed)
  fallback_decision-PlacedAny fleet h =
      Grounded-PlacedAny fleet options request _ context _ _ _ h
        (fallback_decision-Grounded setting options request context elapsed)

  pub fallback_decision_returns :
      EstimatorReturns options request
      → (d : RoutingDecision) × (build_fallback_decision setting options request context elapsed
          ≡ some d)
  fallback_decision_returns returns =
      Grounded-returns options request _ context _ _ _ returns
        (fallback_decision-Grounded setting options request context elapsed)

  pub overflow_fallback-PlacedAny :
      (fleet : List ModelProfile)
      → Scoped fleet context
      → PlacedAny fleet
          (build_context_overflow_fallback_decision setting options request context elapsed)
  unfolding build_context_overflow_fallback_decision
  overflow_fallback-PlacedAny fleet h =
      let preferred = context.context_overflow_preferred_provider in
      let overflow =
        resolve_context_overflow_fallback setting context.full_fleet request preferred
          options.context_fit_config in
      Grounded-PlacedAny fleet options request true context (token_estimate request)
        (resolve_safety_margin setting options.context_fit_config)
        (build_context_overflow_fallback_decision setting options request context elapsed) h
        (
          overflow.reason_code,
          overflow.model,
          overflow_fallback-Supported setting context.full_fleet request preferred
              options.context_fit_config,
          overflow_decision-NamesOrThrows options request context elapsed overflow.reason_code
              overflow.model,
        )
