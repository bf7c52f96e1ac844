-- ===== src/Pinning/Pinner/Lookup.antt =====
-- src/domain/pinning/session-pinner.ts: `lookupPin`, the rules in their order.
use pi_smart_router.Prelude.{ℕ, String, ◌&&◌, Option, none, some, List, is_some, if◌then◌else◌}
use pi_smart_router.Prelude.Table.{get}
use pi_smart_router.Types.{Tier, ModelProfile, RoutingRequest, SessionPin, is_set, given}
use pi_smart_router.Persistence.StorePort.{StorePort}
use pi_smart_router.Pinning.FlipFlop.{is_tier_pinned}
use pi_smart_router.Pinning.Pinner.{break_pin}
use pi_smart_router.Pinning.Pinner.Rules.{
  PinLookupResult, no_pin, bare, pinned_result, find_healthy, observe_shadow_tier,
  evaluate_sub_routing, Pinner, resolve_flip_flop_pin, evaluate_break_rules, resolve_force_override,
  evaluate_saar_policy,
}

-- A rule that returns a result ends the lookup; otherwise the next step runs on its state.
abbrev pub or_next :
    {P : Type 0} → Option PinLookupResult × P → (P → PinLookupResult × P) → PinLookupResult × P
or_next (some result, p) next = (result, p)
or_next (none, p) next = next p

module _ (port : StorePort) where
  -- The last step, and the whole of the pin-only fallback.
  unfoldable pub use_pinned_model :
      Pinner port → String → SessionPin → List ModelProfile → PinLookupResult × Pinner port
  use_pinned_model p id pin fleet = elim (find_healthy pin.pinned_model_id fleet) [
    | none ↦ (bare no_pin, break_pin port p id)
    | some model ↦ (pinned_result model, p)
  ]

  unfoldable pub sub_route_or_pin :
      RoutingRequest → SessionPin → List ModelProfile → Pinner port → PinLookupResult × Pinner port
  unfolding use_pinned_model
  sub_route_or_pin request pin fleet p =
      or_next (evaluate_sub_routing p request pin fleet, p)
        (λ q. use_pinned_model q request.session_id pin fleet)

  unfoldable pub after_break_rules :
      RoutingRequest
      → SessionPin
      → List ModelProfile
      → ℕ
      → Pinner port
      → PinLookupResult × Pinner port
  unfolding sub_route_or_pin
  after_break_rules request pin fleet now p =
      if p.pin_only_fallback
      then use_pinned_model p request.session_id pin fleet
      else or_next (evaluate_saar_policy port p request pin fleet now)
          (λ q. sub_route_or_pin request pin fleet q)

  -- The lookup of a session with a pin.
  unfoldable pub lookup_pinned :
      RoutingRequest
      → SessionPin
      → List ModelProfile
      → ℕ
      → Pinner port
      → PinLookupResult × Pinner port
  unfolding after_break_rules
  lookup_pinned request pin fleet now p =
      or_next (evaluate_break_rules port p request pin fleet)
        (λ q. after_break_rules request pin fleet now q)

  -- The force override applies unless a pinned session was compacted.
  unfoldable pub forced_id : Option SessionPin → RoutingRequest → Option String
  forced_id pin request =
      if is_some pin && is_set request.compaction_flag then none else given request.force_model_id

  unfoldable pub lookup_unblocked :
      RoutingRequest → List ModelProfile → ℕ → Pinner port → PinLookupResult × Pinner port
  unfolding forced_id
  lookup_unblocked request fleet now p = elim (forced_id (get request.session_id p.pins) request) [
    | some force_id ↦ resolve_force_override port p request force_id fleet now
    | none ↦ elim (get request.session_id p.pins) [
      | none ↦ (bare no_pin, p)
      | some pin ↦ lookup_pinned request pin fleet now p
    ]
  ]

  unfoldable pub flip_flop_first :
      Option Tier
      → RoutingRequest
      → List ModelProfile
      → ℕ
      → Pinner port
      → PinLookupResult × Pinner port
  flip_flop_first none request fleet now p = lookup_unblocked request fleet now p
  flip_flop_first (some tier) request fleet now p =
      or_next (resolve_flip_flop_pin port p request.session_id tier fleet now)
        (λ q. lookup_unblocked request fleet now q)

  unfoldable pub lookup_pin :
      Pinner port → RoutingRequest → List ModelProfile → ℕ → PinLookupResult × Pinner port
  unfolding flip_flop_first
  lookup_pin p request fleet now =
      let observed : Pinner port =
        observe_shadow_tier (record p { last_fleet = some fleet }) request fleet in
      flip_flop_first (is_tier_pinned observed.flip_flop_guard request.session_id) request fleet now
        observed
