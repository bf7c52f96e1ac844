-- ===== src/Pipeline/Triage.antt =====
-- src/domain/pipeline/triage-stage.ts. The verdict of the triage engine on the prompt is a parameter
-- `result`.
use pi_smart_router.Prelude.{String, ◌&&◌, none, some, find}
use pi_smart_router.Types.{
  RoutingRequest, Tier, economical_cloud, frontier_cloud, tier_eq, is_healthy,
}
use pi_smart_router.Pipeline.{
  Route, StageRun, undecided, decided, decision_for, TriageVerdict, trivial, complex, ambiguous,
  TriageResult,
}

module _ {Store : Type 0} where
  -- The first healthy model of a tier decides.
  unfoldable pub decide_tier : RoutingRequest → Tier → String → Route Store → StageRun Store
  decide_tier request tier reason route =
      elim (find (λ m. tier_eq m.tier tier && is_healthy m) route.context.fleet) [
        | none ↦ undecided route
        | some model ↦ decided (decision_for request model "triage" reason) route
      ]

  abbrev pub on_verdict : RoutingRequest → TriageVerdict → String → Route Store → StageRun Store
  on_verdict request ambiguous reason route = undecided route
  on_verdict request trivial reason route = undecided route
  on_verdict request complex reason route = decide_tier request frontier_cloud reason route

  -- `createTriageStage().run`
  unfoldable pub run_triage : TriageResult → RoutingRequest → Route Store → StageRun Store
  unfolding decide_tier
  run_triage result request route =
      on_verdict request result.verdict result.reason_code
        (record route { context = record route.context { triage_result = some result } })

  abbrev pub on_trivial : RoutingRequest → TriageVerdict → String → Route Store → StageRun Store
  on_trivial request trivial reason route = decide_tier request economical_cloud reason route
  on_trivial request complex reason route = undecided route
  on_trivial request ambiguous reason route = undecided route

  -- `createTriageCloudFallbackStage().run`
  unfoldable pub run_triage_cloud_fallback : RoutingRequest → Route Store → StageRun Store
  unfolding decide_tier
  run_triage_cloud_fallback request route = elim route.context.triage_result [
    | none ↦ undecided route
    | some result ↦ on_trivial request result.verdict result.reason_code route
  ]
