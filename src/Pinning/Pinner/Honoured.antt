-- ===== src/Pinning/Pinner/Honoured.antt =====
-- The explicit override `force_model_id` in `lookupPin` of src/domain/pinning/session-pinner.ts, beside the
-- flip-flop pin that goes before it and the compaction of a pinned session.
use pi_smart_router.Prelude.{
  ℕ, ◌≡◌, refl, ap, inl, inr, String, false, Option, none, some, List, Option-cases, Bool-cases,
}
use pi_smart_router.Prelude.Table.{get}
use pi_smart_router.Types.{Tier, ModelProfile, RoutingRequest, is_set, given}
use pi_smart_router.Persistence.StorePort.{StorePort}
use pi_smart_router.Pinning.FlipFlop.{is_tier_pinned}
use pi_smart_router.Pinning.Pinner.Rules.{
  PinLookupResult, observe_shadow_tier, Pinner, resolve_flip_flop_pin, evaluate_break_rules,
}
use pi_smart_router.Pinning.Pinner.Lookup.{
  or_next, forced_id, lookup_pinned, lookup_unblocked, flip_flop_first, lookup_pin,
}
use pi_smart_router.Pinning.Pinner.Outcome.{pins-observe_shadow_tier}
use pi_smart_router.Pinning.Pinner.RuleHonoured.{
  Honoured, NoneOfHeldTier, was_compacted, HeldStep, resolve_flip_flop_pin-Held,
  resolve_force_override-Honoured,
}

module _ (port : StorePort) (request : RoutingRequest) (fleet : List ModelProfile) (id : String)
    (named : given request.force_model_id ≡ some id) where
  lookup_unblocked-Honoured :
      (held : Option Tier) (p : Pinner port) (now : ℕ)
      → NoneOfHeldTier fleet held
      → Honoured fleet id held
          (was_compacted request (get request.session_id p.pins))
          (lookup_unblocked port request fleet now p).0
  unfolding lookup_unblocked forced_id lookup_pinned evaluate_break_rules
  lookup_unblocked-Honoured held p now free = elim (Option-cases (get request.session_id p.pins)) [
    | inl e ↦
        rw (e, lookup_unblocked)
          (rw (named, lookup_unblocked)
            (resolve_force_override-Honoured port fleet id false held p request now free refl))
    | inr (pin, e) ↦ elim (Bool-cases (is_set request.compaction_flag)) [
      | inl flagged ↦
          rw (e, lookup_unblocked)
            (rw (flagged, lookup_unblocked)
              (rw (e, lookup_unblocked) (rw flagged (free, refl, refl))))
      | inr warm ↦
          rw (e, lookup_unblocked)
            (rw (warm, named, lookup_unblocked)
              (resolve_force_override-Honoured port fleet id false held p request now free refl))
    ]
  ]

  held_next :
      (tier : Tier) (p : Pinner port) (now : ℕ) (x : Option PinLookupResult × Pinner port)
      → HeldStep port fleet id (was_compacted request (get request.session_id p.pins)) tier p x
      → Honoured fleet id
          (some tier)
          (was_compacted request (get request.session_id p.pins))
          (or_next x (λ q. lookup_unblocked port request fleet now q)).0
  unfolding HeldStep
  held_next tier p now (some result, q) h = h
  held_next tier p now (none, q) (same, free) =
      rw same (lookup_unblocked-Honoured (some tier) p now free)

  flip_flop_first-Honoured :
      (held : Option Tier) (p : Pinner port) (now : ℕ)
      → Honoured fleet id held
          (was_compacted request (get request.session_id p.pins))
          (flip_flop_first port held request fleet now p).0
  unfolding flip_flop_first
  flip_flop_first-Honoured none p now = lookup_unblocked-Honoured none p now tt
  flip_flop_first-Honoured (some tier) p now =
      held_next tier p now (resolve_flip_flop_pin port p request.session_id tier fleet now)
        (resolve_flip_flop_pin-Held port fleet id _ p request.session_id tier now)

  -- A request that forces a model, in any state of the pinner: a healthy member of the tier that the
  -- flip-flop guard pins is used where the fleet has one; otherwise a pinned session that was compacted
  -- breaks its pin, and any other uses the healthy member with the forced id, or rejects the override where
  -- there is none, as unhealthy exactly where the fleet has the id. It is never sub-routed, routed by the
  -- SAAR policy or left without a pin.
  pub lookup_pin-Honoured :
      (p : Pinner port) (now : ℕ)
      → Honoured fleet id
          (is_tier_pinned
            (observe_shadow_tier
              (record p { last_fleet = some fleet })
              request
              fleet).flip_flop_guard
            request.session_id)
          (was_compacted request (get request.session_id p.pins))
          (lookup_pin port p request fleet now).0
  unfolding lookup_pin
  lookup_pin-Honoured p now =
      let observed : Pinner port =
        observe_shadow_tier (record p { last_fleet = some fleet }) request fleet in
      let same =
        pins-observe_shadow_tier port (record p { last_fleet = some fleet }) request fleet in
      rw (← ap (λ pins. get request.session_id pins) same) (
        flip_flop_first-Honoured (is_tier_pinned observed.flip_flop_guard request.session_id)
          observed now)
