-- ===== src/Pinning/Pinner/Rules.antt =====
-- src/domain/pinning/session-pinner.ts: the rules of `lookupPin`, a function for each private method.
-- A rule returns its result, or none where the method returns null, beside the new state.
mod Turns
unfoldable pub use Turns.*
use pi_smart_router.Prelude.{
  ℕ, ◌*◌, String, Bool, true, false, not, ◌&&◌, Option, none, some, List, length, find, any, get_or,
  ltb, str_eq, if◌then◌else◌, is_some,
}
use pi_smart_router.Prelude.Table.{get}
use pi_smart_router.Types.{
  TurnType, tool_result, main_loop, Tier, zero_tier, economical_cloud, frontier_cloud, tier_eq,
  PinReason, initial, user_forced, compaction, cache_economics, context_overflow, ModelProfile,
  RoutingRequest, SessionPin, is_healthy, is_set, given, max_input,
}
use pi_smart_router.Persistence.StorePort.{StorePort}
use pi_smart_router.Pinning.FlipFlop.{is_tier_pinned, observe_tier}
use pi_smart_router.Pinning.Saar.{
  SaarSessionStateTracker, is_idle_expired, is_in_buffer_window, should_hard_lock,
  reset_for_idle_reopen, touch_activity,
}
use pi_smart_router.Pinning.Economics.{
  default_cache_economics, evaluate_cache_economics, evaluate_model_switch_breakeven,
}
use pi_smart_router.Pinning.Pinner.{SessionPinner, record_pin, break_pin, tracker_of, put_tracker}

module _ (port : StorePort) where
  open port use {Store}

  abbrev pub Pinner : Type 0
  Pinner = SessionPinner Store

  abbrev pin_reason_of : Option SessionPin → PinReason
  pin_reason_of none = initial
  pin_reason_of (some pin) = pin.pin_reason

  -- `resolveFlipFlopPin`, after the pinned model of the session is known.
  unfoldable pub repin_tier :
      Pinner → String → Tier → List ModelProfile → ℕ → Option PinLookupResult × Pinner
  repin_tier p id tier fleet now = elim (find (λ m. tier_eq m.tier tier && is_healthy m) fleet) [
    | none ↦ (none, p)
    | some model ↦ (
      some (record (pinned_result model) { flip_flop_reason = true }),
      record_pin port p id model.id (pin_reason_of (get id p.pins)) now,
    )
  ]

  abbrev pub pinned_model_of : Option SessionPin → List ModelProfile → Option ModelProfile
  pinned_model_of none fleet = none
  pinned_model_of (some pin) fleet = find_healthy pin.pinned_model_id fleet

  unfoldable pub resolve_flip_flop_pin :
      Pinner → String → Tier → List ModelProfile → ℕ → Option PinLookupResult × Pinner
  unfolding repin_tier
  resolve_flip_flop_pin p id tier fleet now = elim (pinned_model_of (get id p.pins) fleet) [
    | none ↦ repin_tier p id tier fleet now
    | some pinned ↦
        if tier_eq pinned.tier tier
        then (some (record (pinned_result pinned) { flip_flop_reason = true }), p)
        else repin_tier p id tier fleet now
  ]

  -- `evaluateContextOverflowBreak`; a window of zero tokens counts as missing.
  unfoldable pub overflows : Option ModelProfile → ℕ → ℕ → Bool
  overflows none tokens margin = false
  overflows (some model) tokens margin = elim (max_input model) [
    | none ↦ false
    | some window ↦ ltb 0 window && ltb (window * margin) (tokens * 1000)
  ]

  unfoldable pub evaluate_context_overflow_break :
      Pinner → RoutingRequest → SessionPin → List ModelProfile → Bool
  unfolding overflows
  evaluate_context_overflow_break p request pin fleet =
      overflows (find_healthy pin.pinned_model_id fleet) (token_estimate request)
        p.context_overflow_safety_margin

  -- `evaluateCacheEconomicsBreak`, once both models are known.
  economics_break : Pinner → RoutingRequest → ModelProfile → ModelProfile → Bool
  unfolding is_flip_flop_tier_change_blocked
  economics_break p request pinned candidate =
      not (str_eq pinned.provider candidate.provider)
      && not (is_flip_flop_tier_change_blocked p request.session_id candidate.tier)
      && (evaluate_cache_economics pinned candidate (token_estimate request)
          (get_or p.cache_economics_config default_cache_economics)).should_switch
      && (evaluate_model_switch_breakeven pinned candidate (token_estimate request)
          (token_estimate request) p.saar_config).should_switch

  same_id : Option String → String → Bool
  same_id none id = false
  same_id (some other) id = str_eq other id

  both_found : Pinner → RoutingRequest → Option ModelProfile → Option ModelProfile → Bool
  unfolding economics_break
  both_found p request (some pinned) (some candidate) = economics_break p request pinned candidate
  both_found p request (some pinned) none = false
  both_found p request none _ = false

  unfoldable pub evaluate_cache_economics_break :
      Pinner → RoutingRequest → SessionPin → List ModelProfile → Bool
  unfolding both_found same_id
  evaluate_cache_economics_break p request pin fleet =
      not (same_id (given request.candidate_model_id) pin.pinned_model_id)
      && both_found p request (find_healthy pin.pinned_model_id fleet)
          (find_candidate request fleet)

  -- `evaluateBreakRules`
  unfoldable pub evaluate_break_rules :
      Pinner → RoutingRequest → SessionPin → List ModelProfile → Option PinLookupResult × Pinner
  evaluate_break_rules p request pin fleet =
      if is_set request.compaction_flag
      then (some (break_result compaction), break_pin port p request.session_id)
      else if evaluate_context_overflow_break p request pin fleet
      then (some (break_result context_overflow), break_pin port p request.session_id)
      else if evaluate_cache_economics_break p request pin fleet
      then (some (break_result cache_economics), break_pin port p request.session_id)
      else (none, p)

  -- `resolveForceOverride`
  unfoldable pub resolve_force_override :
      Pinner → RoutingRequest → String → List ModelProfile → ℕ → PinLookupResult × Pinner
  resolve_force_override p request force_id fleet now = elim (find_healthy force_id fleet) [
    | some forced ↦
        (pinned_result forced, record_pin port p request.session_id forced.id user_forced now)
    | none ↦ (
      record (break_result user_forced) {
        action = force_rejected;
        force_rejection_reason =
            some (if any (λ m. str_eq m.id force_id) fleet then unhealthy else not_in_fleet);
        force_model_id = some force_id;
      },
      p,
    )
  ]

  -- The part of `evaluateSaarPolicy` that follows the hard lock.
  unfoldable pub saar_locked :
      Pinner
      → RoutingRequest
      → SessionPin
      → List ModelProfile
      → ModelProfile
      → ModelProfile
      → ℕ
      → Option PinLookupResult × Pinner
  unfolding is_flip_flop_tier_change_blocked
  saar_locked p request pin fleet pinned candidate now =
      if is_tool_loop_turn request.turn_type
        && is_tier_upgrade pinned.tier candidate.tier
        && not (is_flip_flop_tier_change_blocked p request.session_id candidate.tier)
      then (
        some (record (bare use_pin) {
          pinned_model = find (λ m. str_eq m.id candidate.id) fleet;
          saar_reason = some saar_tier_upgrade;
        }),
        record_pin port p request.session_id candidate.id pin.pin_reason now,
      )
      else if not (str_eq candidate.id pin.pinned_model_id)
      then (some (record (pinned_result pinned) { saar_reason = some saar_hard_lock }), p)
      else (none, p)

  -- The part of `evaluateSaarPolicy` with a pinned model and a candidate. Without either the method
  -- returns null, since every result below it needs both.
  unfoldable pub saar_candidate :
      Pinner
      → SaarSessionStateTracker
      → RoutingRequest
      → SessionPin
      → List ModelProfile
      → ModelProfile
      → ModelProfile
      → ℕ
      → Option PinLookupResult × Pinner
  unfolding is_flip_flop_tier_change_blocked saar_locked
  saar_candidate p tracker request pin fleet pinned candidate now =
      if is_in_buffer_window tracker
        && is_tier_upgrade pinned.tier candidate.tier
        && not (is_flip_flop_tier_change_blocked p request.session_id candidate.tier)
      then (
        some (record (bare saar_route) {
          pinned_model = some pinned;
          saar_route_model = some candidate;
          saar_reason = some saar_buffer_active;
        }),
        p,
      )
      else if should_hard_lock tracker
      then saar_locked p request pin fleet pinned candidate now
      else (none, p)

  unfoldable pub saar_models :
      Pinner
      → SaarSessionStateTracker
      → RoutingRequest
      → SessionPin
      → List ModelProfile
      → Option ModelProfile
      → Option ModelProfile
      → ℕ
      → Option PinLookupResult × Pinner
  unfolding saar_candidate
  saar_models p tracker request pin fleet (some pinned) (some candidate) now =
      saar_candidate p tracker request pin fleet pinned candidate now
  saar_models p tracker request pin fleet (some pinned) none now = (none, p)
  saar_models p tracker request pin fleet none _ now = (none, p)

  -- `evaluateSaarPolicy`
  unfoldable pub evaluate_saar_policy :
      Pinner → RoutingRequest → SessionPin → List ModelProfile → ℕ → Option PinLookupResult × Pinner
  unfolding saar_models
  evaluate_saar_policy p request pin fleet now =
      if not (is_some p.saar_config)
      then (none, p)
      else let tracker = tracker_of p request.session_id now in
        if is_idle_expired tracker now
        then (
          some (record (bare no_pin) { saar_reason = some saar_idle_reopen }),
          break_pin port (put_tracker p request.session_id (reset_for_idle_reopen tracker now))
              request.session_id,
        )
        else let touched = touch_activity tracker now in
          saar_models (put_tracker p request.session_id touched) touched request pin fleet
            (find_healthy pin.pinned_model_id fleet) (find_candidate request fleet) now
