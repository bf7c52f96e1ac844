-- ===== src/Pinning/Pinner/Outcome.antt =====
-- How the result of `lookupPin` of src/domain/pinning/session-pinner.ts and the session's pin agree.
use pi_smart_router.Prelude.{
  ℕ, ◌≡◌, ap, inl, inr, String, Bool, true, false, Option, none, some, List, arith, Option-cases,
  if◌then◌else◌,
}
use pi_smart_router.Prelude.Table.{get}
use pi_smart_router.Types.{Tier, ModelProfile, RoutingRequest, SessionPin}
use pi_smart_router.Persistence.StorePort.{StorePort}
use pi_smart_router.Pinning.FlipFlop.{is_tier_pinned}
use pi_smart_router.Pinning.Pinner.Rules.{
  PinLookupResult, Pinner, resolve_flip_flop_pin, evaluate_break_rules, evaluate_saar_policy,
  evaluate_sub_routing, observe_shadow_tier,
}
use pi_smart_router.Pinning.Pinner.Lookup.{
  or_next, use_pinned_model, sub_route_or_pin, after_break_rules, forced_id, flip_flop_first,
  lookup_pinned, lookup_unblocked, lookup_pin,
}
use pi_smart_router.Pinning.Pinner.Settled.{
  Settled, or_next-Settled, use_pinned_model-Settled, resolve_flip_flop_pin-Settled,
  evaluate_break_rules-Settled, resolve_force_override-Settled, evaluate_saar_policy-Settled,
  evaluate_sub_routing-Settled,
}

module _ (port : StorePort) where
  pub pins-observe_shadow_tier :
      (p : Pinner port) (request : RoutingRequest) (fleet : List ModelProfile)
      → (observe_shadow_tier p request fleet).pins ≡ p.pins
  unfolding observe_shadow_tier
  pins-observe_shadow_tier p request fleet = ground arith

  sub_route_or_pin-Settled :
      (request : RoutingRequest) (pin : SessionPin) (fleet : List ModelProfile) (p : Pinner port)
      → get request.session_id p.pins ≡ some pin
      → let id = request.session_id in
        let r = sub_route_or_pin port request pin fleet p in
        Settled r.0 (some pin) (get id r.1.pins)
  unfolding sub_route_or_pin
  sub_route_or_pin-Settled request pin fleet p e =
      or_next-Settled port request.session_id (some pin)
        (evaluate_sub_routing p request pin fleet, p)
        (λ q. use_pinned_model port q request.session_id pin fleet)
        (evaluate_sub_routing-Settled port p request pin fleet e)
        (λ q h. use_pinned_model-Settled port q request.session_id pin fleet h)

  either-Settled :
      (id : String) (before : Option SessionPin) (b : Bool) (x y : PinLookupResult × Pinner port)
      → Settled x.0 before (get id x.1.pins)
      → Settled y.0 before (get id y.1.pins)
      → Settled (if b then x else y).0 before (get id (if b then x else y).1.pins)
  either-Settled id before true x y h k = h
  either-Settled id before false x y h k = k

  after_break_rules-Settled :
      (request : RoutingRequest) (pin : SessionPin) (fleet : List ModelProfile) (now : ℕ)
      (p : Pinner port)
      → get request.session_id p.pins ≡ some pin
      → let id = request.session_id in
        let r = after_break_rules port request pin fleet now p in
        Settled r.0 (some pin) (get id r.1.pins)
  unfolding after_break_rules
  after_break_rules-Settled request pin fleet now p e =
      either-Settled request.session_id (some pin) p.pin_only_fallback
        (use_pinned_model port p request.session_id pin fleet)
        (or_next (evaluate_saar_policy port p request pin fleet now)
          (λ q. sub_route_or_pin port request pin fleet q))
        (use_pinned_model-Settled port p request.session_id pin fleet e)
        (or_next-Settled port request.session_id (some pin)
          (evaluate_saar_policy port p request pin fleet now)
          (λ q. sub_route_or_pin port request pin fleet q)
          (evaluate_saar_policy-Settled port p request pin fleet now e)
          (λ q h. sub_route_or_pin-Settled request pin fleet q h))

  lookup_pinned-Settled :
      (request : RoutingRequest) (pin : SessionPin) (fleet : List ModelProfile) (now : ℕ)
      (p : Pinner port)
      → get request.session_id p.pins ≡ some pin
      → let id = request.session_id in
        let r = lookup_pinned port request pin fleet now p in
        Settled r.0 (some pin) (get id r.1.pins)
  unfolding lookup_pinned
  lookup_pinned-Settled request pin fleet now p e =
      or_next-Settled port request.session_id (some pin)
        (evaluate_break_rules port p request pin fleet)
        (λ q. after_break_rules port request pin fleet now q)
        (rw e at (evaluate_break_rules-Settled port p request pin fleet))
        (λ q h. after_break_rules-Settled request pin fleet now q h)

  lookup_unblocked-Settled :
      (request : RoutingRequest) (fleet : List ModelProfile) (now : ℕ) (p : Pinner port)
      → let id = request.session_id in
        let r = lookup_unblocked port request fleet now p in
        Settled r.0 (get id p.pins) (get id r.1.pins)
  unfolding lookup_unblocked
  lookup_unblocked-Settled request fleet now p =
      elim (Option-cases (forced_id port (get request.session_id p.pins) request)) [
        | inr (force_id, e) ↦
            rw (e, lookup_unblocked)
              (resolve_force_override-Settled port p request force_id fleet now)
        | inl free ↦ elim (Option-cases (get request.session_id p.pins)) [
          | inl e ↦ rw (free, lookup_unblocked) (rw (e, lookup_unblocked) e)
          | inr (pin, e) ↦
              rw (free, lookup_unblocked)
                (rw (e, lookup_unblocked) (lookup_pinned-Settled request pin fleet now p e))
        ]
      ]

  flip_flop_first-Settled :
      (tier : Option Tier) (request : RoutingRequest) (fleet : List ModelProfile) (now : ℕ)
      (p : Pinner port)
      → let id = request.session_id in
        let r = flip_flop_first port tier request fleet now p in
        Settled r.0 (get id p.pins) (get id r.1.pins)
  unfolding flip_flop_first
  flip_flop_first-Settled none request fleet now p = lookup_unblocked-Settled request fleet now p
  flip_flop_first-Settled (some tier) request fleet now p =
      or_next-Settled port request.session_id (get request.session_id p.pins)
        (resolve_flip_flop_pin port p request.session_id tier fleet now)
        (λ q. lookup_unblocked port request fleet now q)
        (resolve_flip_flop_pin-Settled port p request.session_id tier fleet now)
        (λ q h. rw h at (lookup_unblocked-Settled request fleet now q))

  -- After a lookup the session's pin agrees with the result: a used pin names the returned model, a
  -- broken or missing one is gone, and a sub-route, a SAAR route or a rejected force leaves the pin as
  -- it was.
  pub lookup_pin-Settled :
      (p : Pinner port) (request : RoutingRequest) (fleet : List ModelProfile) (now : ℕ)
      → let id = request.session_id in
        let r = lookup_pin port p request fleet now in Settled r.0 (get id p.pins) (get id r.1.pins)
  unfolding lookup_pin
  lookup_pin-Settled p request fleet now =
      let id = request.session_id in
      let observed : Pinner port =
        observe_shadow_tier (record p { last_fleet = some fleet }) request fleet in
      let same = pins-observe_shadow_tier (record p { last_fleet = some fleet }) request fleet in
      rw (← ap (λ pins. get id pins) same) (
        flip_flop_first-Settled (is_tier_pinned observed.flip_flop_guard id) request fleet now
          observed)
