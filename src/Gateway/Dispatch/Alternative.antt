-- ===== src/Gateway/Dispatch/Alternative.antt =====
-- What a failover of src/infrastructure/gateway/gateway-dispatch.ts may take.
use pi_smart_router.Prelude.{
  ℕ, ◌≡◌, refl, String, true, false, Option, none, some, List, Memᴰ, str_eq, arith,
}
use pi_smart_router.Types.{ModelProfile, RoutingDecision, is_healthy}
use pi_smart_router.Gateway.CircuitBreaker.{CircuitBreaker, can_dispatch}
use pi_smart_router.Gateway.Dispatch.{FailoverDraws, has_id, stands_in, by_choice}
use pi_smart_router.Gateway.Dispatch.Select.{Proper, Alike}

-- Every draw is below one.
abbrev pub AllProper : FailoverDraws → Type 0
AllProper draws = Proper draws.economical × Proper draws.same_tier × Proper draws.any_healthy

module _ (decision : RoutingDecision) (excluded : List String) (fleet : List ModelProfile)
    (first : CircuitBreaker) (now : ℕ) where
  -- A healthy model, neither excluded nor the failed one.
  abbrev pub StandIn : ModelProfile → Type 0
  StandIn m =
      (is_healthy m ≡ true)
      × (str_eq m.id decision.selected_model_id ≡ false)
      × (has_id excluded m.id ≡ false)

  pub stands_in-StandIn : (m : ModelProfile) → stands_in decision excluded m ≡ true → StandIn m
  stands_in-StandIn m h = (ground (arith, h), ground (arith, h), ground (arith, h))

  pub StandIn-stands_in : (m : ModelProfile) → StandIn m → stands_in decision excluded m ≡ true
  StandIn-stands_in m (healthy, other, allowed) = rw (healthy, other, allowed) refl

  -- A healthy model of the fleet, neither excluded nor the failed one, whose circuit allows a dispatch.
  abbrev pub Alternative : ModelProfile → Type 0
  Alternative m = Memᴰ m fleet × StandIn m × ((can_dispatch first m.id now).0 ≡ true)

  -- A failover is to an alternative, with its tier.
  abbrev pub Takes : RoutingDecision → Type 0
  Takes failover =
      (m : ModelProfile) × Alternative m
      × (failover.selected_model_id ≡ m.id)
      × (failover.tier ≡ m.tier)

  abbrev pub TakesOr : Type 0 → Option RoutingDecision × CircuitBreaker → Type 0
  TakesOr None (none, cb) = None × Alike first cb now
  TakesOr None (some failover, cb) = Takes failover × Alike first cb now

  -- No healthy model of the fleet, neither excluded nor the failed one, may be dispatched to.
  abbrev pub NoAlternative : Type 0
  NoAlternative =
      (m : ModelProfile) → Memᴰ m fleet → StandIn m → (can_dispatch first m.id now).0 ≡ false

  pub by_choice-TakesOr :
      (None : Type 0) (code : String) (o : Option ModelProfile) (cb : CircuitBreaker)
      → ((m : ModelProfile) → o ≡ some m → Alternative m)
      → (o ≡ none → None)
      → Alike first cb now
      → TakesOr None (by_choice decision code o cb)
  by_choice-TakesOr None code none cb sound empty alike = (empty refl, alike)
  by_choice-TakesOr None code (some m) cb sound empty alike = ((m, sound m refl, refl, refl), alike)
