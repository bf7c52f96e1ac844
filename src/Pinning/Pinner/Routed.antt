-- ===== src/Pinning/Pinner/Routed.antt =====
-- Which model `lookupPin` of src/domain/pinning/session-pinner.ts hands to the `session_pin` stage.
use pi_smart_router.Prelude.{
  ℕ, ◌≡◌, refl, sym, inl, inr, Bool, true, false, Option, none, some, List, Memᴰ, arith, str_eq,
  find, Option-cases, Bool-cases, if-elim, ltb, if◌then◌else◌,
}
use pi_smart_router.Prelude.Table.{get}
use pi_smart_router.Types.{Tier, ModelProfile, RoutingRequest, SessionPin, is_healthy, given}
use pi_smart_router.Persistence.StorePort.{StorePort}
use pi_smart_router.Pinning.Saar.{SaarSessionStateTracker, touch_activity}
use pi_smart_router.Pinning.Pinner.{put_tracker, tracker_of}
use pi_smart_router.Pinning.Pinner.Rules.{
  sub_route, find_healthy, find_candidate, Pinner, resolve_flip_flop_pin, evaluate_break_rules,
  evaluate_saar_policy, evaluate_sub_routing, saar_locked, saar_candidate, saar_models, bare,
  is_tool_result_turn, token_estimate,
}
use pi_smart_router.Pinning.Pinner.Lookup.{
  sub_route_or_pin, after_break_rules, forced_id, flip_flop_first, lookup_pinned, lookup_unblocked,
  lookup_pin,
}
use pi_smart_router.Pinning.Pinner.Settled.{find_same_id}
use pi_smart_router.Pinning.SubRoute.{is_sub_route_candidate}
use pi_smart_router.Pinning.Pinner.RuleRouted.{
  Healthy, HealthyId, Routed, RoutedLookup, RoutedRule, RoutedStep, candidate_found,
  evaluate_break_rules-Routed, found_healthy, or_next-Routed, resolve_flip_flop_pin-Routed,
  resolve_force_override-Routed, use_pinned_model-Routed,
}

module _ (port : StorePort) (fleet : List ModelProfile) where
  upgraded-Healthy :
      (candidate : ModelProfile)
      → Memᴰ candidate fleet
      → is_healthy candidate ≡ true
      → Healthy fleet (find (λ m. str_eq m.id candidate.id) fleet)
  upgraded-Healthy candidate mem healthy =
      let (again, found, named) = find_same_id port fleet candidate mem in
      rw found (candidate, mem, healthy, sym named)

  saar_locked-Routed :
      (p : Pinner port) (request : RoutingRequest) (pin : SessionPin)
      (pinned candidate : ModelProfile) (now : ℕ)
      → HealthyId fleet pinned.id
      → Memᴰ candidate fleet
      → is_healthy candidate ≡ true
      → RoutedStep port fleet (saar_locked port p request pin fleet pinned candidate now)
  unfolding RoutedStep saar_locked
  saar_locked-Routed p request pin pinned candidate now held mem healthy =
      let upgraded = upgraded-Healthy candidate mem healthy in ground (arith, upgraded, held)

  saar_models-Routed :
      (p : Pinner port) (tracker : SaarSessionStateTracker) (request : RoutingRequest)
      (pin : SessionPin) (pinned candidate : Option ModelProfile) (now : ℕ)
      → ((m : ModelProfile) → pinned ≡ some m → HealthyId fleet m.id)
      → ((m : ModelProfile) → candidate ≡ some m → Memᴰ m fleet × (is_healthy m ≡ true))
      → RoutedStep port fleet (saar_models port p tracker request pin fleet pinned candidate now)
  unfolding RoutedStep saar_models saar_candidate
  saar_models-Routed p tracker request pin (some m) (some c) now held found =
      let (mem, healthy) = found c refl in
      let buffered : HealthyId fleet c.id = (c, mem, healthy, refl) in
      let locked = saar_locked-Routed p request pin m c now (held m refl) mem healthy in
      ground (arith, buffered, locked)
  saar_models-Routed p tracker request pin (some m) none now held found = tt
  saar_models-Routed p tracker request pin none _ now held found = tt

  evaluate_saar_policy-Routed :
      (p : Pinner port) (request : RoutingRequest) (pin : SessionPin) (now : ℕ)
      → RoutedStep port fleet (evaluate_saar_policy port p request pin fleet now)
  unfolding RoutedStep evaluate_saar_policy
  evaluate_saar_policy-Routed p request pin now =
      let id = request.session_id in
      let touched = touch_activity (tracker_of p id now) now in
      let chosen =
        saar_models-Routed (put_tracker p id touched) touched request pin
          (find_healthy pin.pinned_model_id fleet) (find_candidate request fleet) now
          (λ m e. found_healthy _ fleet m (λ x h. ground (arith, h)) e)
          (candidate_found (given request.candidate_model_id) fleet) in
      ground (arith, chosen)

  economical_Routed :
      (blocked pays : Bool) (pinned econ : ModelProfile)
      → HealthyId fleet econ.id
      → RoutedRule fleet (
          if blocked
          then none
          else if pays
          then some
              (record (bare sub_route) { pinned_model = some pinned; sub_route_model = some econ })
          else none)
  economical_Routed true pays pinned econ h = tt
  economical_Routed false true pinned econ h = h
  economical_Routed false false pinned econ h = tt

  evaluate_sub_routing-Routed :
      (p : Pinner port) (request : RoutingRequest) (pin : SessionPin)
      → RoutedRule fleet (evaluate_sub_routing p request pin fleet)
  unfolding evaluate_sub_routing
  evaluate_sub_routing-Routed p request pin =
      elim (Bool-cases (is_tool_result_turn request.turn_type)) [
        | inr plain ↦ rw plain tt
        | inl tool ↦ elim (Bool-cases (ltb p.tool_result_size_threshold (token_estimate request))) [
          | inl large ↦ rw (tool, large) tt
          | inr small ↦
              rw (tool, small)
                (elim (Option-cases (find (λ m. str_eq m.id pin.pinned_model_id) fleet)) [
                  | inl e ↦ rw (e, evaluate_sub_routing) tt
                  | inr (pinned, e) ↦
                      elim (Option-cases (find (is_sub_route_candidate pin pinned) fleet)) [
                        | inl nobody ↦
                            rw (e, evaluate_sub_routing) (rw (nobody, evaluate_sub_routing) tt)
                        | inr (econ, found) ↦
                            rw (e, evaluate_sub_routing)
                              (rw (found, evaluate_sub_routing)
                                (economical_Routed _ _ pinned econ
                                  (found_healthy _ fleet econ (λ x h. ground (arith, h)) found)))
                      ]
                ])
        ]
      ]

  sub_route_or_pin-Routed :
      (request : RoutingRequest) (pin : SessionPin) (p : Pinner port)
      → RoutedLookup port fleet (sub_route_or_pin port request pin fleet p)
  unfolding RoutedStep sub_route_or_pin
  sub_route_or_pin-Routed request pin p =
      or_next-Routed port fleet (evaluate_sub_routing p request pin fleet, p) _
        (evaluate_sub_routing-Routed p request pin)
        (λ q. use_pinned_model-Routed port fleet q request.session_id pin)

  lookup_pinned-Routed :
      (request : RoutingRequest) (pin : SessionPin) (now : ℕ) (p : Pinner port)
      → RoutedLookup port fleet (lookup_pinned port request pin fleet now p)
  unfolding lookup_pinned after_break_rules
  lookup_pinned-Routed request pin now p =
      or_next-Routed port fleet (evaluate_break_rules port p request pin fleet) _
        (evaluate_break_rules-Routed port fleet p request pin)
        (λ q.
          if-elim (RoutedLookup port fleet) q.pin_only_fallback _ _
            (λ _. use_pinned_model-Routed port fleet q request.session_id pin)
            (λ _.
              or_next-Routed port fleet (evaluate_saar_policy port q request pin fleet now) _
                (evaluate_saar_policy-Routed q request pin now)
                (λ r. sub_route_or_pin-Routed request pin r)))

  lookup_unblocked-Routed :
      (request : RoutingRequest) (now : ℕ) (p : Pinner port)
      → RoutedLookup port fleet (lookup_unblocked port request fleet now p)
  unfolding RoutedStep RoutedLookup lookup_unblocked
  lookup_unblocked-Routed request now p =
      elim (Option-cases (forced_id port (get request.session_id p.pins) request)) [
        | inr (force_id, e) ↦
            rw (e, lookup_unblocked)
              (resolve_force_override-Routed port fleet p request force_id now)
        | inl free ↦ elim (Option-cases (get request.session_id p.pins)) [
          | inl e ↦ rw (free, lookup_unblocked) (rw (e, lookup_unblocked) tt)
          | inr (pin, e) ↦
              rw (free, lookup_unblocked)
                (rw (e, lookup_unblocked) (lookup_pinned-Routed request pin now p))
        ]
      ]

  flip_flop_first-Routed :
      (tier : Option Tier) (request : RoutingRequest) (now : ℕ) (p : Pinner port)
      → RoutedLookup port fleet (flip_flop_first port tier request fleet now p)
  unfolding flip_flop_first
  flip_flop_first-Routed none request now p = lookup_unblocked-Routed request now p
  flip_flop_first-Routed (some tier) request now p =
      or_next-Routed port fleet (resolve_flip_flop_pin port p request.session_id tier fleet now) _
        (resolve_flip_flop_pin-Routed port fleet p request.session_id tier now)
        (λ q. lookup_unblocked-Routed request now q)

  -- Whatever the pinner's state, a lookup that uses a pin, a sub-route or a SAAR route has the model to
  -- route to, and a healthy member of the fleet has its id.
  pub lookup_pin-Routed :
      (p : Pinner port) (request : RoutingRequest) (now : ℕ)
      → Routed fleet (lookup_pin port p request fleet now).0
  unfolding lookup_pin RoutedLookup
  lookup_pin-Routed p request now = flip_flop_first-Routed _ request now _
