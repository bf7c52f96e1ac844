-- ===== src/Pinning/SubRoute.antt =====
-- src/domain/pinning/sub-route-policy.ts: the cheapest healthy model and the sub-route policy.
pub mod Select
pub mod Policy
use pi_smart_router.Prelude.{
  ℕ, Bool, true, false, not, ◌&&◌, Option, none, some, List, [], ◌∷◌, find, filter, get_or, ltb,
  str_eq, if◌then◌else◌,
}
use pi_smart_router.Types.{
  TurnType, tool_result, Tier, economical_cloud, tier_eq, ModelProfile, RoutingRequest, SessionPin,
  is_healthy,
}
use pi_smart_router.Pinning.Pinner.Rules.{token_estimate, is_tool_result_turn}

-- The two variables of a selection loop: `best` and its key. No key stands for the initial value,
-- which every key beats.
abbrev pub Best : Type 0
Best = Option ModelProfile × Option ℕ

abbrev beats_best : (ℕ → ℕ → Bool) → ℕ → Option ℕ → Bool
beats_best beats key none = true
beats_best beats key (some best) = beats key best

-- One round: an unhealthy model is skipped, and a tie keeps the earlier one.
abbrev pub consider : (ModelProfile → ℕ) → (ℕ → ℕ → Bool) → ModelProfile → Best → Best
consider key beats model (best, best_key) =
    if is_healthy model && beats_best beats (key model) best_key
    then (some model, some (key model))
    else (best, best_key)

unfoldable pub select_loop : (ModelProfile → ℕ) → (ℕ → ℕ → Bool) → List ModelProfile → Best → Best
select_loop key beats [] best = best
select_loop key beats (m ∷ ms) best = select_loop key beats ms (consider key beats m best)

abbrev pub fallback_cost : ModelProfile → ℕ
fallback_cost model = model.pricing.fallback_cost_per_1m

unfoldable pub select_lowest_cost_model : List ModelProfile → Option ModelProfile
unfolding select_loop
select_lowest_cost_model candidates = (select_loop fallback_cost ltb candidates (none, none)).0

pub data SubRouteReason : Type 0 where
  eligible not_tool_result payload_exceeds_threshold pinned_model_not_in_fleet : SubRouteReason
  no_same_provider_economical : SubRouteReason

pub record SubRouteEvaluation : Type 0 where
  pub is_eligible : Bool
  pub sub_route_model : Option ModelProfile
  pub pinned_model : Option ModelProfile
  pub reason : SubRouteReason

abbrev pub ineligible : SubRouteReason → SubRouteEvaluation
ineligible reason = record {
  is_eligible = false;
  sub_route_model = none;
  pinned_model = none;
  reason = reason;
}

abbrev pub is_sub_route_candidate : SessionPin → ModelProfile → ModelProfile → Bool
is_sub_route_candidate pin pinned m =
    tier_eq m.tier economical_cloud
    && str_eq m.provider pinned.provider
    && not (str_eq m.id pin.pinned_model_id)
    && is_healthy m

abbrev eligible_for : ModelProfile → Option ModelProfile → SubRouteEvaluation
eligible_for pinned none = ineligible no_same_provider_economical
eligible_for pinned (some econ) = record {
  is_eligible = true;
  sub_route_model = some econ;
  pinned_model = some pinned;
  reason = eligible;
}

abbrev for_pinned : SessionPin → List ModelProfile → Option ModelProfile → SubRouteEvaluation
for_pinned pin fleet none = ineligible pinned_model_not_in_fleet
for_pinned pin fleet (some pinned) =
    eligible_for pinned
      (select_lowest_cost_model (filter (is_sub_route_candidate pin pinned) fleet))

-- The configured threshold is none where it is missing.
unfoldable pub evaluate_sub_route_policy :
    RoutingRequest → SessionPin → List ModelProfile → Option ℕ → SubRouteEvaluation
evaluate_sub_route_policy request pin fleet size_threshold =
    if not (is_tool_result_turn request.turn_type)
    then ineligible not_tool_result
    else if ltb (get_or size_threshold 2048) (token_estimate request)
    then ineligible payload_exceeds_threshold
    else for_pinned pin fleet (find (λ m. str_eq m.id pin.pinned_model_id) fleet)
