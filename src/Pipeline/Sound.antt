-- ===== src/Pipeline/Sound.antt =====
-- What a stage of src/domain/pipeline keeps and decides: the context stays within the route's fleet,
-- and a decision names a healthy member of it.
use pi_smart_router.Prelude.{
  ℕ, ◌≡◌, refl, true, inl, inr, ◌⊎◌, Option, none, some, is_some, String, List, Memᴰ, Option-cases,
}
use pi_smart_router.Types.{ModelProfile, RoutingRequest, RoutingDecision}
use pi_smart_router.Pinning.Pinner.RuleRouted.{HealthyId}
use pi_smart_router.Pipeline.{
  RoutingContext, PipelineOptions, Route, StageRun, undecided, decided, threw, with_estimated_cost,
  decide_or_throw,
}

-- The context's fleets hold members of the route's fleet only.
abbrev pub Scoped : List ModelProfile → RoutingContext → Type 0
Scoped fleet context =
    ((m : ModelProfile) → Memᴰ m context.fleet → Memᴰ m fleet)
    × ((m : ModelProfile) → Memᴰ m context.full_fleet → Memᴰ m fleet)

-- The decision names a healthy member of the fleet, or is the placeholder.
abbrev pub Placed : List ModelProfile → RoutingDecision → Type 0
Placed fleet decision =
    (decision.selected_model_id ≡ "unknown") ⊎ HealthyId fleet decision.selected_model_id

-- A run keeps the context within the fleet, and a decision of it is placed.
abbrev pub SoundRun : {Store : Type 0} → List ModelProfile → StageRun Store → Type 0
SoundRun fleet (undecided route) = Scoped fleet route.context
SoundRun fleet (decided decision route) = Placed fleet decision × Scoped fleet route.context
SoundRun fleet (threw route) = Scoped fleet route.context

-- A sound run that does not throw.
abbrev pub SafeRun : {Store : Type 0} → List ModelProfile → StageRun Store → Type 0
SafeRun fleet (undecided route) = Scoped fleet route.context
SafeRun fleet (decided decision route) = Placed fleet decision × Scoped fleet route.context
SafeRun fleet (threw route) = ⊥

pub safe-SoundRun :
    {Store : Type 0} (fleet : List ModelProfile) (run : StageRun Store)
    → SafeRun fleet run
    → SoundRun fleet run
safe-SoundRun fleet (undecided route) h = h
safe-SoundRun fleet (decided decision route) h = h
safe-SoundRun fleet (threw route) h = elim h [ ]

-- The injected estimator throws on a model.
abbrev pub EstimatorThrows : PipelineOptions → RoutingRequest → ModelProfile → Type 0
EstimatorThrows options request model =
    (estimator : ModelProfile → RoutingRequest → Option ℕ) × (options.cost_estimator
      ≡ some estimator)
    × (estimator model request ≡ none)

-- The injected estimator, if there is one, returns for the request.
abbrev pub EstimatorReturns : PipelineOptions → RoutingRequest → Type 0
EstimatorReturns options request =
    (estimator : ModelProfile → RoutingRequest → Option ℕ)
    → options.cost_estimator ≡ some estimator
    → (model : ModelProfile) → is_some (estimator model request) ≡ true

pub returns_not_throws :
    (options : PipelineOptions) (request : RoutingRequest) (model : ModelProfile)
    → EstimatorReturns options request
    → ¬ EstimatorThrows options request model
returns_not_throws options request model returns (f, given_, failed) =
    cc (rw failed at (returns f given_ model))

-- A cost estimate changes nothing but the cost, or the estimator throws.
pub estimated-cases :
    (options : PipelineOptions) (request : RoutingRequest) (model : ModelProfile)
    (decision : RoutingDecision)
    → ((cost : Option ℕ) × (with_estimated_cost options request model decision
          ≡ some (record decision { estimated_cost_usd = cost })))
      ⊎ ((with_estimated_cost options request model decision ≡ none)
          × EstimatorThrows options request model)
estimated-cases options request model decision = elim (Option-cases options.cost_estimator) [
  | inl e ↦ inl (decision.estimated_cost_usd, rw e refl)
  | inr (f, e) ↦ elim (Option-cases (f model request)) [
    | inl failed ↦ inr (rw (e, failed) refl, (f, e, failed))
    | inr (cost, done) ↦ inl (some cost, rw (e, done) refl)
  ]
]

-- A decision, if there is one, is placed.
abbrev pub PlacedAny : List ModelProfile → Option RoutingDecision → Type 0
PlacedAny fleet none = Unit
PlacedAny fleet (some decision) = Placed fleet decision

pub estimated-PlacedAny :
    (fleet : List ModelProfile) (options : PipelineOptions) (request : RoutingRequest)
    (model : ModelProfile) (decision : RoutingDecision)
    → Placed fleet decision
    → PlacedAny fleet (with_estimated_cost options request model decision)
estimated-PlacedAny fleet options request model decision h =
    elim (estimated-cases options request model decision) [
      | inl (cost, e) ↦ rw e h
      | inr (e, throws) ↦ rw e tt
    ]

pub decide_or_throw-SoundRun :
    {Store : Type 0} (fleet : List ModelProfile) (o : Option RoutingDecision) (route : Route Store)
    → PlacedAny fleet o
    → Scoped fleet route.context
    → SoundRun fleet (decide_or_throw o route)
decide_or_throw-SoundRun fleet none route h scoped = scoped
decide_or_throw-SoundRun fleet (some decision) route h scoped = (h, scoped)

pub widened :
    (small large : List ModelProfile) (id : String)
    → ((m : ModelProfile) → Memᴰ m small → Memᴰ m large)
    → HealthyId small id
    → HealthyId large id
widened small large id within (m, mem, healthy, named) = (m, within m mem, healthy, named)
