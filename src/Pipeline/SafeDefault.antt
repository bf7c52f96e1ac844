-- ===== src/Pipeline/SafeDefault.antt =====
-- src/domain/pipeline/safe-default.ts and the fallback builder of
-- src/domain/pipeline/safe-default-stage.ts.
pub mod Choice
use pi_smart_router.Prelude.{ℕ, String, Bool, true, ◌&&◌, Option, none, some, List, find, or_else}
use pi_smart_router.Types.{
  ModelProfile, RoutingRequest, RoutingDecision, Tier, economical_cloud, frontier_cloud, tier_eq,
  is_healthy,
}
use pi_smart_router.Pinning.Pinner.Rules.{token_estimate}
use pi_smart_router.Routing.ContextFit.{MarginSetting, resolve_safety_margin, model_fits_context}
use pi_smart_router.Pipeline.{RoutingContext, PipelineOptions, decision_for}

-- `fitsWhenRequired`
unfoldable pub fits_when_required :
    MarginSetting → ModelProfile → Option RoutingRequest → Option ℕ → Bool
fits_when_required setting model none config = true
fits_when_required setting model (some request) config =
    model_fits_context model (token_estimate request) (resolve_safety_margin setting config)

-- The first healthy model of a tier that fits.
abbrev pub first_of_tier :
    MarginSetting
    → Tier
    → List ModelProfile
    → Option RoutingRequest
    → Option ℕ
    → Option ModelProfile
first_of_tier setting tier models request config =
    find (λ m. tier_eq m.tier tier && is_healthy m && fits_when_required setting m request config)
      models

unfoldable pub safe_cloud_default :
    MarginSetting → List ModelProfile → Option RoutingRequest → Option ℕ → Option ModelProfile
unfolding fits_when_required
safe_cloud_default setting models request config =
    or_else (first_of_tier setting economical_cloud models request config)
      (first_of_tier setting frontier_cloud models request config)

-- The decision on a model, or on the placeholder.
abbrev pub unknown_decision : RoutingRequest → String → String → RoutingDecision
unknown_decision request stage reason = record {
  request_id = request.request_id;
  selected_model_id = "unknown";
  tier = economical_cloud;
  stage = stage;
  reason_code = reason;
  candidates = none;
  estimated_cost_usd = none;
  routing_latency_ms = 0;
  pin_reason = none;
}

abbrev pub safe_decision : RoutingRequest → Option ModelProfile → RoutingDecision
safe_decision request none = unknown_decision request "fallback" "safe_cloud_default"
safe_decision request (some model) = decision_for request model "fallback" "safe_cloud_default"

unfoldable pub build_safe_default_fallback_decision :
    MarginSetting → PipelineOptions → RoutingRequest → RoutingContext → ℕ → RoutingDecision
unfolding safe_cloud_default
build_safe_default_fallback_decision setting options request context elapsed =
    record (safe_decision request
      (safe_cloud_default setting context.fleet (some request) options.context_fit_config)) {
        routing_latency_ms = elapsed;
      }
