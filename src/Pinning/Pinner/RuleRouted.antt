-- ===== src/Pinning/Pinner/RuleRouted.antt =====
-- The model that a rule of lookupPin leaves to route to (src/domain/pinning/session-pinner.ts), for the rules
-- that do not read the SAAR tracker.
use pi_smart_router.Prelude.{
  ℕ, ◌≡◌, refl, inl, inr, String, Bool, true, ◌&&◌, Option, none, some, List, Memᴰ, arith, str_eq,
  find, find_sound, Option-cases, Bool-cases,
}
use pi_smart_router.Prelude.Table.{get}
use pi_smart_router.Types.{Tier, tier_eq, ModelProfile, RoutingRequest, SessionPin, is_healthy}
use pi_smart_router.Persistence.StorePort.{StorePort}
use pi_smart_router.Pinning.Pinner.Rules.{
  PinAction, use_pin, sub_route, saar_route, break_, no_pin, force_rejected, PinLookupResult,
  find_healthy, find_given, pinned_model_of, Pinner, repin_tier, resolve_flip_flop_pin,
  evaluate_break_rules, resolve_force_override,
}
use pi_smart_router.Pinning.Pinner.Lookup.{or_next, use_pinned_model}

-- A healthy member of the fleet has the id.
abbrev pub HealthyId : List ModelProfile → String → Type 0
HealthyId fleet id = (m : ModelProfile) × Memᴰ m fleet × (is_healthy m ≡ true) × (m.id ≡ id)

abbrev pub Healthy : List ModelProfile → Option ModelProfile → Type 0
Healthy fleet none = ⊥
Healthy fleet (some model) = HealthyId fleet model.id

-- The model that an action routes to is there, and its id is of a healthy member of the fleet.
abbrev pub RoutedBy : List ModelProfile → PinAction → PinLookupResult → Type 0
RoutedBy fleet use_pin result = Healthy fleet result.pinned_model
RoutedBy fleet sub_route result = Healthy fleet result.sub_route_model
RoutedBy fleet saar_route result = Healthy fleet result.saar_route_model
RoutedBy fleet break_ result = Unit
RoutedBy fleet no_pin result = Unit
RoutedBy fleet force_rejected result = Unit

abbrev pub Routed : List ModelProfile → PinLookupResult → Type 0
Routed fleet result = RoutedBy fleet result.action result

abbrev pub RoutedRule : List ModelProfile → Option PinLookupResult → Type 0
RoutedRule fleet none = Unit
RoutedRule fleet (some result) = Routed fleet result

-- A member that passes a test which asks for health.
pub found_healthy :
    (test : ModelProfile → Bool) (fleet : List ModelProfile) (m : ModelProfile)
    → ((x : ModelProfile) → test x ≡ true → is_healthy x ≡ true)
    → find test fleet ≡ some m
    → HealthyId fleet m.id
found_healthy test fleet m sound e =
    let (mem, passes) = find_sound test fleet m e in (m, mem, sound m passes, refl)

pub candidate_found :
    (id : Option String) (fleet : List ModelProfile) (m : ModelProfile)
    → find_given id fleet ≡ some m
    → Memᴰ m fleet × (is_healthy m ≡ true)
candidate_found none fleet m e = cc
candidate_found (some id) fleet m e =
    let (mem, passes) = find_sound (λ x. str_eq x.id id && is_healthy x) fleet m e in
    (mem, ground (arith, passes))

module _ (port : StorePort) (fleet : List ModelProfile) where
  unfoldable pub RoutedStep : Option PinLookupResult × Pinner port → Type 0
  RoutedStep r = RoutedRule fleet r.0

  unfoldable pub RoutedLookup : PinLookupResult × Pinner port → Type 0
  RoutedLookup r = Routed fleet r.0

  pub or_next-Routed :
      (x : Option PinLookupResult × Pinner port)
      (next : Pinner port → PinLookupResult × Pinner port)
      → RoutedStep x
      → ((q : Pinner port) → RoutedLookup (next q))
      → RoutedLookup (or_next x next)
  unfolding RoutedStep RoutedLookup
  or_next-Routed (none, p) next h k = k p
  or_next-Routed (some result, p) next h k = h

  pub use_pinned_model-Routed :
      (p : Pinner port) (id : String) (pin : SessionPin)
      → RoutedLookup (use_pinned_model port p id pin fleet)
  unfolding RoutedStep RoutedLookup use_pinned_model
  use_pinned_model-Routed p id pin = elim (Option-cases (find_healthy pin.pinned_model_id fleet)) [
    | inl e ↦ rw (e, use_pinned_model) tt
    | inr (m, e) ↦ rw (e, use_pinned_model) (found_healthy _ fleet m (λ x h. ground (arith, h)) e)
  ]

  repin_tier-Routed :
      (p : Pinner port) (id : String) (tier : Tier) (now : ℕ)
      → RoutedStep (repin_tier port p id tier fleet now)
  unfolding RoutedStep RoutedLookup repin_tier
  repin_tier-Routed p id tier now =
      elim (Option-cases (find (λ m. tier_eq m.tier tier && is_healthy m) fleet)) [
        | inl e ↦ rw (e, repin_tier) tt
        | inr (m, e) ↦ rw (e, repin_tier) (found_healthy _ fleet m (λ x h. ground (arith, h)) e)
      ]

  pinned_healthy :
      (pin : Option SessionPin) (m : ModelProfile)
      → pinned_model_of port pin fleet ≡ some m
      → HealthyId fleet m.id
  pinned_healthy none m e = cc
  pinned_healthy (some pin) m e = found_healthy _ fleet m (λ x h. ground (arith, h)) e

  pub resolve_flip_flop_pin-Routed :
      (p : Pinner port) (id : String) (tier : Tier) (now : ℕ)
      → RoutedStep (resolve_flip_flop_pin port p id tier fleet now)
  unfolding RoutedStep RoutedLookup resolve_flip_flop_pin
  resolve_flip_flop_pin-Routed p id tier now =
      elim (Option-cases (pinned_model_of port (get id p.pins) fleet)) [
        | inl e ↦ rw (e, resolve_flip_flop_pin) (repin_tier-Routed p id tier now)
        | inr (m, e) ↦ elim (Bool-cases (tier_eq m.tier tier)) [
          | inl held ↦ rw (e, resolve_flip_flop_pin) (rw held (pinned_healthy (get id p.pins) m e))
          | inr moved ↦ rw (e, resolve_flip_flop_pin) (rw moved (repin_tier-Routed p id tier now))
        ]
      ]

  pub evaluate_break_rules-Routed :
      (p : Pinner port) (request : RoutingRequest) (pin : SessionPin)
      → RoutedStep (evaluate_break_rules port p request pin fleet)
  unfolding RoutedStep RoutedLookup evaluate_break_rules
  evaluate_break_rules-Routed p request pin = ground arith

  pub resolve_force_override-Routed :
      (p : Pinner port) (request : RoutingRequest) (force_id : String) (now : ℕ)
      → RoutedLookup (resolve_force_override port p request force_id fleet now)
  unfolding RoutedStep RoutedLookup resolve_force_override
  resolve_force_override-Routed p request force_id now =
      elim (Option-cases (find_healthy force_id fleet)) [
        | inl e ↦ rw (e, resolve_force_override) tt
        | inr (m, e) ↦
            rw (e, resolve_force_override) (found_healthy _ fleet m (λ x h. ground (arith, h)) e)
      ]
  -- The upgrade finds the candidate again by its id.
