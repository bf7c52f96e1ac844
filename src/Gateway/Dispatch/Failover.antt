-- ===== src/Gateway/Dispatch/Failover.antt =====
-- What `selectFailover` and `applyCircuitBreaker` of src/infrastructure/gateway/gateway-dispatch.ts
-- dispatch to.
use pi_smart_router.Prelude.{
  ℕ, ◌≡◌, ◌⊎◌, refl, sym, ◌∙◌, inl, inr, String, Bool, true, false, not, ◌&&◌, Option, none, some,
  List, [], ◌∷◌, Memᴰ, find, any, mem-filter, filter-mem, str_eq, arith, Bool-cases, subst,
  if◌then◌else◌,
}
use pi_smart_router.Types.{
  Text, ModelProfile, RoutingDecision, economical_cloud, tier_eq, tier_eq_iff,
}
use pi_smart_router.Gateway.CircuitBreaker.{CircuitBreaker, can_dispatch}
use pi_smart_router.Gateway.CircuitBreaker.Asked.{can_dispatch_stable}
use pi_smart_router.Gateway.Dispatch.{
  failover_or_same, FailoverDraws, has_id, stands_in, is_cursor_auto_model,
  is_cursor_subscription_model, other_provider, tier_choice, quota_alternative,
  select_cursor_quota_failover, or_tier_alternative, select_failover, apply_circuit_breaker,
}
use pi_smart_router.Gateway.Selection.{
  Draw, weighted_select, filter_dispatchable, find_dispatchable,
}
use pi_smart_router.Gateway.Dispatch.Select.{
  Proper, Selects, weighted_select-Selects, Alike, dispatchable, filter_dispatchable-filter,
  find_dispatchable_sound,
}
use pi_smart_router.Gateway.Dispatch.Alternative.{
  AllProper, Alternative, NoAlternative, StandIn-stands_in, Takes, TakesOr, by_choice-TakesOr,
  stands_in-StandIn,
}

module _ (normal : String → Text) (draws : FailoverDraws) (proper : AllProper draws)
    (decision : RoutingDecision) (excluded : List String) (fleet : List ModelProfile)
    (first : CircuitBreaker) (now : ℕ) where
  -- A selected model of a filtered fleet, or none of the fleet passes.
  selected :
      (test : ModelProfile → Bool) (draw : Draw) (cb : CircuitBreaker) (m : ModelProfile)
      → Proper draw
      → Alike first cb now
      → weighted_select draw (filter_dispatchable test fleet cb now).0 ≡ some m
      → Memᴰ m fleet × (dispatchable first now test m ≡ true)
  selected test draw cb m below alike e =
      let (same, kept) = filter_dispatchable-filter first now test fleet cb alike in
      let chosen : Selects (filter_dispatchable test fleet cb now).0 (some m) =
        rw e at (weighted_select-Selects draw (filter_dispatchable test fleet cb now).0 below) in
      mem-filter (dispatchable first now test) fleet m (subst (Memᴰ m) same chosen)

  unselected :
      (test : ModelProfile → Bool) (draw : Draw) (cb : CircuitBreaker) (m : ModelProfile)
      → Proper draw
      → Alike first cb now
      → weighted_select draw (filter_dispatchable test fleet cb now).0 ≡ none
      → Memᴰ m fleet
      → dispatchable first now test m ≡ false
  unselected test draw cb m below alike e mem =
      let (same, kept) = filter_dispatchable-filter first now test fleet cb alike in
      let nothing : (filter_dispatchable test fleet cb now).0 ≡ [] =
        rw e at (weighted_select-Selects draw (filter_dispatchable test fleet cb now).0 below) in
      elim (Bool-cases (dispatchable first now test m)) [
        | inr fails ↦ fails
        | inl passes ↦
            let inside = filter-mem (dispatchable first now test) fleet m mem passes in
            elim (subst (Memᴰ m) (sym same ∙ nothing) inside) [ ]
      ]

  Alike-after :
      (test : ModelProfile → Bool) (cb : CircuitBreaker)
      → Alike first cb now
      → Alike first (filter_dispatchable test fleet cb now).1 now
  Alike-after test cb alike = (filter_dispatchable-filter first now test fleet cb alike).1

  -- A model that passes a test which asks for a stand-in.
  alternative :
      (test : ModelProfile → Bool) (m : ModelProfile)
      → ((x : ModelProfile) → test x ≡ true → stands_in decision excluded x ≡ true)
      → Memᴰ m fleet × (dispatchable first now test m ≡ true)
      → Alternative decision excluded fleet first now m
  alternative test m asks (mem, passes) =
      let tested : test m ≡ true = ground (arith, passes) in
      (
        mem,
        stands_in-StandIn decision excluded fleet first now m (asks m tested),
        ground (arith, passes),
      )

  abbrev is_auto : ModelProfile → Bool
  is_auto m = is_cursor_auto_model normal m && stands_in decision excluded m

  abbrev is_economical : ModelProfile → Bool
  is_economical m =
      tier_eq m.tier economical_cloud
      && stands_in decision excluded m
      && not (is_cursor_subscription_model normal m)

  quota_alternative-TakesOr :
      (found : Option ModelProfile × CircuitBreaker)
      → ((m : ModelProfile)
          → found.0 ≡ some m
          → Memᴰ m fleet × (dispatchable first now is_auto m ≡ true))
      → Alike first found.1 now
      → TakesOr decision excluded fleet first now Unit
          (quota_alternative normal draws decision excluded fleet now found)
  quota_alternative-TakesOr (some m, cb) sound alike =
      ((m, alternative is_auto m (λ x h. ground (arith, h)) (sound m refl), refl, refl), alike)
  quota_alternative-TakesOr (none, cb) sound alike =
      let filtered = filter_dispatchable is_economical fleet cb now in
      by_choice-TakesOr decision excluded fleet first now Unit "cursor_quota_exhausted"
        (weighted_select draws.economical filtered.0) filtered.1
        (λ m e.
          alternative is_economical m (λ x h. ground (arith, h))
            (selected is_economical draws.economical cb m proper.0 alike e))
        (λ _. tt) (Alike-after is_economical cb alike)

  quota_failover-TakesOr :
      (exhausted : List String) (cb : CircuitBreaker)
      → Alike first cb now
      → TakesOr decision excluded fleet first now Unit
          (select_cursor_quota_failover normal draws exhausted decision excluded fleet cb now)
  unfolding select_cursor_quota_failover
  quota_failover-TakesOr exhausted cb alike =
      let (sound, kept) = find_dispatchable_sound first now is_auto fleet cb alike in
      elim (Bool-cases (any (λ id. has_id exhausted id) (decision.selected_model_id ∷ excluded))) [
        | inr fresh ↦ rw fresh (tt, alike)
        | inl failed ↦
            elim (Bool-cases
              (other_provider normal (find (λ m. str_eq m.id decision.selected_model_id) fleet))) [
                | inl other ↦ rw (failed, other) (tt, alike)
                | inr cursor ↦
                    rw (failed, cursor)
                      (quota_alternative-TakesOr (find_dispatchable is_auto fleet cb now) sound
                        kept)
              ]
      ]

  abbrev is_same_tier : ModelProfile → Bool
  is_same_tier m = tier_eq m.tier decision.tier && stands_in decision excluded m

  tier_choice-TakesOr :
      (o : Option ModelProfile) (cb : CircuitBreaker)
      → ((m : ModelProfile)
          → o ≡ some m
          → Memᴰ m fleet × (dispatchable first now is_same_tier m ≡ true))
      → Alike first cb now
      → TakesOr decision excluded fleet first now
          (NoAlternative decision excluded fleet first now)
          (tier_choice draws decision excluded fleet now o cb)
  tier_choice-TakesOr (some m) cb sound alike =
      let (mem, passes) = sound m refl in
      let same : m.tier ≡ decision.tier =
        (tier_eq_iff m.tier decision.tier).0 (ground (arith, passes)) in
      (
        (m, alternative is_same_tier m (λ x h. ground (arith, h)) (mem, passes), refl, sym same),
        alike,
      )
  tier_choice-TakesOr none cb sound alike =
      let test : ModelProfile → Bool = λ m. stands_in decision excluded m in
      let filtered = filter_dispatchable test fleet cb now in
      by_choice-TakesOr decision excluded fleet first now
        (NoAlternative decision excluded fleet first now) "circuit_breaker_failover"
        (weighted_select draws.any_healthy filtered.0) filtered.1
        (λ m e.
          alternative test m (λ x h. h) (selected test draws.any_healthy cb m proper.2 alike e))
        (λ e m mem asked.
          let fails = unselected test draws.any_healthy cb m proper.2 alike e mem in
          let passes = StandIn-stands_in decision excluded fleet first now m asked in
          ground (arith, fails, passes))
        (Alike-after test cb alike)

  or_tier_alternative-TakesOr :
      (quota : Option RoutingDecision × CircuitBreaker)
      → TakesOr decision excluded fleet first now Unit quota
      → TakesOr decision excluded fleet first now
          (NoAlternative decision excluded fleet first now)
          (or_tier_alternative normal draws decision excluded fleet now quota)
  or_tier_alternative-TakesOr (some failover, cb) h = h
  or_tier_alternative-TakesOr (none, cb) (u, alike) =
      let filtered = filter_dispatchable is_same_tier fleet cb now in
      tier_choice-TakesOr (weighted_select draws.same_tier filtered.0) filtered.1
        (λ m e. selected is_same_tier draws.same_tier cb m proper.1 alike e)
        (Alike-after is_same_tier cb alike)

  -- A failover is to a healthy member of the fleet that is neither excluded nor the failed model and
  -- whose circuit allows a dispatch, at that model's tier, and there is none only where the fleet has no
  -- such member. The breaker's answers stay as they were.
  pub select_failover-Takes :
      (exhausted : List String) (cb : CircuitBreaker)
      → Alike first cb now
      → TakesOr decision excluded fleet first now
          (NoAlternative decision excluded fleet first now)
          (select_failover normal draws exhausted decision excluded fleet cb now)
  unfolding select_failover
  select_failover-Takes exhausted cb alike =
      or_tier_alternative-TakesOr
        (select_cursor_quota_failover normal draws exhausted decision excluded fleet cb now)
        (quota_failover-TakesOr exhausted cb alike)

-- What the breaker makes of a decision: the decision itself where its circuit allows a dispatch;
-- otherwise an alternative, or the decision where there is no alternative.
abbrev pub Guarded :
    RoutingDecision → List ModelProfile → CircuitBreaker → ℕ → RoutingDecision → Type 0
Guarded decision fleet cb now final =
    (((can_dispatch cb decision.selected_model_id now).0 ≡ true) × (final ≡ decision))
    ⊎ (((can_dispatch cb decision.selected_model_id now).0 ≡ false)
        × (Takes decision [] fleet cb now final
            ⊎ ((final ≡ decision) × NoAlternative decision [] fleet cb now)))

module _ (normal : String → Text) (draws : FailoverDraws) (proper : AllProper draws)
    (decision : RoutingDecision) (fleet : List ModelProfile) (first : CircuitBreaker)
    (now : ℕ) where
  failed_over :
      (r : Option RoutingDecision × CircuitBreaker)
      → (can_dispatch first decision.selected_model_id now).0 ≡ false
      → TakesOr decision [] fleet first now (NoAlternative decision [] fleet first now) r
      → Guarded decision fleet first now (failover_or_same decision r).0
  failed_over (some failover, cb) refused (takes, alike) = inr (refused, inl takes)
  failed_over (none, cb) refused (nobody, alike) = inr (refused, inr (refl, nobody))

  -- The decision that a dispatch returns: the routed one where its circuit allows a dispatch, and
  -- otherwise a failover to a healthy member of the fleet whose circuit does, if there is one.
  pub apply_circuit_breaker-Guarded :
      (exhausted : List String)
      → Guarded decision fleet first now
          (apply_circuit_breaker normal draws exhausted decision fleet first now).0
  unfolding apply_circuit_breaker
  apply_circuit_breaker-Guarded exhausted =
      by_answer (can_dispatch first decision.selected_model_id now).0 refl
    where
      asked : CircuitBreaker
      asked = (can_dispatch first decision.selected_model_id now).1

      by_answer :
          (b : Bool)
          → (can_dispatch first decision.selected_model_id now).0 ≡ b
          → Guarded decision fleet first now
              (if b
                then (decision, asked)
                else failover_or_same decision
                    (select_failover normal draws exhausted decision [] fleet asked now)).0
      by_answer true e = inl (e, refl)
      by_answer false e =
          failed_over (select_failover normal draws exhausted decision [] fleet asked now) e (
            select_failover-Takes normal draws proper decision [] fleet first now exhausted asked
              (λ id. can_dispatch_stable first decision.selected_model_id id now))
