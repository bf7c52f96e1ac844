-- ===== src/Gateway/Dispatch.antt =====
-- src/infrastructure/gateway/gateway-dispatch.ts. `Math.random()` is a fraction that each selection
-- takes as an argument, and `trim` with `toLowerCase` is the parameter `normal`. The route of the
-- pipeline is an argument of a dispatch. A method returns its result beside what it writes.
pub mod Outcome
pub mod Select
pub mod Alternative
pub mod Failover
use pi_smart_router.Prelude.{
  ℕ, ◌+◌, ◌*◌, ◌/◌, zero, suc, max, String, Bool, true, false, not, ◌&&◌, ◌||◌, Option, none, some,
  List, [], ◌∷◌, length, find, filter, map, any, get_or, or_else, ltb, leb, ◌==◌, str_eq,
  if◌then◌else◌,
}
use pi_smart_router.Prelude.Table.{Table, get, set}
use pi_smart_router.Prelude.Texts.{starts_with, text_eq, units}
use pi_smart_router.Types.{
  Text, ModelProfile, ModelPerformance, RoutingDecision, Tier, economical_cloud, tier_eq,
  is_healthy,
}
use pi_smart_router.Gateway.CircuitBreaker.{CircuitBreaker, can_dispatch}
use pi_smart_router.Gateway.Selection.{
  Draw, element, weighted_select, filter_dispatchable, find_dispatchable,
}

pub record CacheMarker : Type 0 where
  pub session_id : String
  pub provider : String
  pub model_id : String
  pub cache_friendly : Bool

-- The state of `GatewayDispatch`; its pipeline has its own.
pub record GatewayDispatch : Type 0 where
  pub fleet : List ModelProfile
  pub cache_markers : Table CacheMarker
  pub circuit_breaker : CircuitBreaker
  pub quota_exhausted_models : List String

abbrev pub has_id : List String → String → Bool
has_id ids id = any (λ i. str_eq i id) ids

-- The draws of one failover, in the order of its selections.
pub record FailoverDraws : Type 0 where
  pub economical : Draw
  pub same_tier : Draw
  pub any_healthy : Draw

abbrev failover_to : RoutingDecision → String → Tier → ModelProfile → RoutingDecision
failover_to decision code tier model = record decision {
  selected_model_id = model.id;
  tier = tier;
  reason_code = code;
}

-- The model may stand in for the failed one, as far as the fleet says.
abbrev pub stands_in : RoutingDecision → List String → ModelProfile → Bool
stands_in decision excluded m =
    not (str_eq m.id decision.selected_model_id) && not (has_id excluded m.id) && is_healthy m

-- A failover to the chosen model, at its tier.
abbrev pub by_choice :
    RoutingDecision
    → String
    → Option ModelProfile
    → CircuitBreaker
    → Option RoutingDecision × CircuitBreaker
by_choice decision code none cb = (none, cb)
by_choice decision code (some m) cb = (some (failover_to decision code m.tier m), cb)

-- The choice of the decision's tier, or else one of any tier.
abbrev pub tier_choice :
    FailoverDraws
    → RoutingDecision
    → List String
    → List ModelProfile
    → ℕ
    → Option ModelProfile
    → CircuitBreaker
    → Option RoutingDecision × CircuitBreaker
tier_choice draws decision excluded fleet now (some m) cb =
    (some (failover_to decision "circuit_breaker_failover" decision.tier m), cb)
tier_choice draws decision excluded fleet now none cb =
    let (candidates, cb') = filter_dispatchable (λ m. stands_in decision excluded m) fleet cb now in
    by_choice decision "circuit_breaker_failover" (weighted_select draws.any_healthy candidates) cb'

-- `this.selectFailover(…) ?? decision`
abbrev failover_or_same :
    RoutingDecision → Option RoutingDecision × CircuitBreaker → RoutingDecision × CircuitBreaker
failover_or_same decision (failover, cb) = (get_or failover decision, cb)

module _ (normal : String → Text) where
  unfoldable pub is_cursor_subscription_model : ModelProfile → Bool
  is_cursor_subscription_model model =
      text_eq (normal model.provider) (units "cursor")
      || starts_with (normal model.id) (units "composer-")
      || starts_with (normal model.id) (units "cursor/")

  unfoldable pub is_cursor_auto_model : ModelProfile → Bool
  is_cursor_auto_model model =
      text_eq (normal model.id) (units "cursor/auto")
      || text_eq (normal model.id) (units "auto")
      || starts_with (normal model.id) (units "cursor/")

  -- `failedModel && !isCursorSubscriptionModel(failedModel)`
  abbrev other_provider : Option ModelProfile → Bool
  other_provider none = false
  other_provider (some model) = not (is_cursor_subscription_model model)

  abbrev quota_alternative :
      FailoverDraws
      → RoutingDecision
      → List String
      → List ModelProfile
      → ℕ
      → Option ModelProfile × CircuitBreaker
      → Option RoutingDecision × CircuitBreaker
  quota_alternative draws decision excluded fleet now (some m, cb) =
      (some (failover_to decision "cursor_quota_exhausted" m.tier m), cb)
  quota_alternative draws decision excluded fleet now (none, cb) =
      let (candidates, cb') =
        filter_dispatchable
          (λ m.
            tier_eq m.tier economical_cloud
            && stands_in decision excluded m
            && not (is_cursor_subscription_model m))
          fleet cb now in
      by_choice decision "cursor_quota_exhausted" (weighted_select draws.economical candidates) cb'

  -- `selectCursorQuotaFailover`
  unfoldable pub select_cursor_quota_failover :
      FailoverDraws
      → List String
      → RoutingDecision
      → List String
      → List ModelProfile
      → CircuitBreaker
      → ℕ
      → Option RoutingDecision × CircuitBreaker
  select_cursor_quota_failover draws exhausted decision excluded fleet cb now =
      if not (any (λ id. has_id exhausted id) (decision.selected_model_id ∷ excluded))
      then (none, cb)
      else if other_provider (find (λ m. str_eq m.id decision.selected_model_id) fleet)
      then (none, cb)
      else quota_alternative draws decision excluded fleet now (
          find_dispatchable (λ m. is_cursor_auto_model m && stands_in decision excluded m) fleet cb
            now)

  abbrev or_tier_alternative :
      FailoverDraws
      → RoutingDecision
      → List String
      → List ModelProfile
      → ℕ
      → Option RoutingDecision × CircuitBreaker
      → Option RoutingDecision × CircuitBreaker
  or_tier_alternative draws decision excluded fleet now (some failover, cb) = (some failover, cb)
  or_tier_alternative draws decision excluded fleet now (none, cb) =
      let (candidates, cb') =
        filter_dispatchable (λ m. tier_eq m.tier decision.tier && stands_in decision excluded m)
          fleet cb now in
      tier_choice draws decision excluded fleet now (weighted_select draws.same_tier candidates) cb'

  -- `selectFailover`
  unfoldable pub select_failover :
      FailoverDraws
      → List String
      → RoutingDecision
      → List String
      → List ModelProfile
      → CircuitBreaker
      → ℕ
      → Option RoutingDecision × CircuitBreaker
  unfolding select_cursor_quota_failover
  select_failover draws exhausted decision excluded fleet cb now =
      or_tier_alternative draws decision excluded fleet now
        (select_cursor_quota_failover draws exhausted decision excluded fleet cb now)

  -- `applyCircuitBreaker`
  unfoldable pub apply_circuit_breaker :
      FailoverDraws
      → List String
      → RoutingDecision
      → List ModelProfile
      → CircuitBreaker
      → ℕ
      → RoutingDecision × CircuitBreaker
  apply_circuit_breaker draws exhausted decision fleet cb now =
      let asked = can_dispatch cb decision.selected_model_id now in
      if asked.0
      then (decision, asked.1)
      else failover_or_same decision (select_failover draws exhausted decision [] fleet asked.1 now)

-- `updateCacheMarker`
abbrev cache_friendly_of : Option ModelPerformance → Bool
cache_friendly_of none = false
cache_friendly_of (some p) = get_or p.cache_friendly false

abbrev same_provider : Option CacheMarker → String → Bool
same_provider none provider = false
same_provider (some marker) provider = str_eq marker.provider provider

abbrev marked : GatewayDispatch → String → RoutingDecision → Option ModelProfile → GatewayDispatch
marked g id decision none = g
marked g id decision (some model) =
    if same_provider (get id g.cache_markers) model.provider
      && str_eq decision.reason_code "tool_result_sub_route"
    then g
    else record g {
      cache_markers =
          set id
            (record {
              session_id = id;
              provider = model.provider;
              model_id = model.id;
              cache_friendly = cache_friendly_of model.performance;
            })
            g.cache_markers;
    }

unfoldable pub update_cache_marker : GatewayDispatch → String → RoutingDecision → GatewayDispatch
update_cache_marker g id decision =
    marked g id decision (find (λ m. str_eq m.id decision.selected_model_id) g.fleet)

-- `dispatch`, after the pipeline has routed the request to a decision on the effective fleet.
unfoldable pub dispatch :
    (String → Text)
    → FailoverDraws
    → GatewayDispatch
    → String
    → RoutingDecision
    → List ModelProfile
    → ℕ
    → RoutingDecision × GatewayDispatch
unfolding apply_circuit_breaker
dispatch normal draws g session_id decision effective_fleet now =
    let (final, cb) =
      apply_circuit_breaker normal draws g.quota_exhausted_models decision effective_fleet
        g.circuit_breaker now in
    (final, update_cache_marker (record g { circuit_breaker = cb }) session_id final)
