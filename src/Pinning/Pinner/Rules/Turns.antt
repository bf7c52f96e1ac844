-- ===== src/Pinning/Pinner/Rules/Turns.antt =====
-- The results of a lookup of src/domain/pinning/session-pinner.ts, its tests of a turn, and the rules that
-- read a tier: observeShadowTier and evaluateSubRouting.
use pi_smart_router.Prelude.{
  ℕ, String, Bool, true, false, not, ◌&&◌, Option, none, some, List, length, find, get_or, ltb,
  str_eq, if◌then◌else◌,
}
use pi_smart_router.Types.{
  TurnType, tool_result, main_loop, Tier, zero_tier, economical_cloud, frontier_cloud, tier_eq,
  PinReason, ModelProfile, RoutingRequest, SessionPin, is_healthy, given,
}
use pi_smart_router.Pinning.FlipFlop.{is_tier_pinned, observe_tier}
use pi_smart_router.Pinning.Economics.{evaluate_model_switch_breakeven}
use pi_smart_router.Pinning.Pinner.{SessionPinner}

pub data PinAction : Type 0 where
  use_pin sub_route saar_route break_ no_pin force_rejected : PinAction

pub data PinSaarReason : Type 0 where
  saar_buffer_active saar_hard_lock saar_idle_reopen saar_tier_upgrade : PinSaarReason

pub data ForceRejection : Type 0 where
  not_in_fleet unhealthy : ForceRejection

-- `flip_flop_reason` is `flip_flop_tier_pinned` or missing.
pub record PinLookupResult : Type 0 where
  pub action : PinAction
  pub pinned_model : Option ModelProfile
  pub sub_route_model : Option ModelProfile
  pub saar_route_model : Option ModelProfile
  pub saar_reason : Option PinSaarReason
  pub flip_flop_reason : Bool
  pub break_reason : Option PinReason
  pub force_rejection_reason : Option ForceRejection
  pub force_model_id : Option String

-- A result with no field but its action.
abbrev pub bare : PinAction → PinLookupResult
bare action = record {
  action = action;
  pinned_model = none;
  sub_route_model = none;
  saar_route_model = none;
  saar_reason = none;
  flip_flop_reason = false;
  break_reason = none;
  force_rejection_reason = none;
  force_model_id = none;
}

abbrev pub pinned_result : ModelProfile → PinLookupResult
pinned_result model = record (bare use_pin) { pinned_model = some model }

abbrev pub break_result : PinReason → PinLookupResult
break_result reason = record (bare break_) { break_reason = some reason }

abbrev pub tier_rank : Tier → ℕ
tier_rank zero_tier = 0
tier_rank economical_cloud = 1
tier_rank frontier_cloud = 2

abbrev pub is_tier_upgrade : Tier → Tier → Bool
is_tier_upgrade from to = ltb (tier_rank from) (tier_rank to)

abbrev pub is_tool_loop_turn : Option TurnType → Bool
is_tool_loop_turn (some main_loop) = true
is_tool_loop_turn (some tool_result) = true
is_tool_loop_turn (some _) = false
is_tool_loop_turn none = false

abbrev pub is_tool_result_turn : Option TurnType → Bool
is_tool_result_turn (some tool_result) = true
is_tool_result_turn (some _) = false
is_tool_result_turn none = false

-- `fleet.find((m) => m.id === id && m.healthy !== false)`
abbrev pub find_healthy : String → List ModelProfile → Option ModelProfile
find_healthy id fleet = find (λ m. str_eq m.id id && is_healthy m) fleet

-- `request.candidate_model_id ? fleet.find(…) : undefined`
abbrev pub find_given : Option String → List ModelProfile → Option ModelProfile
find_given none fleet = none
find_given (some id) fleet = find_healthy id fleet

abbrev pub find_candidate : RoutingRequest → List ModelProfile → Option ModelProfile
find_candidate request fleet = find_given (given request.candidate_model_id) fleet

-- `request.estimated_input_tokens ?? request.prompt_text.length`
abbrev pub token_estimate : RoutingRequest → ℕ
token_estimate request = get_or request.estimated_input_tokens (length request.prompt_text)

-- `pinnedTier !== null && pinnedTier !== targetTier`
abbrev pub blocks : Option Tier → Tier → Bool
blocks none target = false
blocks (some pinned) target = not (tier_eq pinned target)

module _ {Store : Type 0} where
  unfoldable pub is_flip_flop_tier_change_blocked : SessionPinner Store → String → Tier → Bool
  is_flip_flop_tier_change_blocked p id target = blocks (is_tier_pinned p.flip_flop_guard id) target

  -- `observeShadowTier`
  unfoldable pub observe_shadow_tier :
      SessionPinner Store → RoutingRequest → List ModelProfile → SessionPinner Store
  observe_shadow_tier p request fleet = elim (find_candidate request fleet) [
    | none ↦ p
    | some candidate ↦
        let (guard, observation) =
          observe_tier p.flip_flop_guard request.session_id candidate.tier in
        record p { flip_flop_guard = guard; last_flip_flop_observation = some observation }
  ]

  -- `evaluateSubRouting`: it writes nothing.
  unfoldable pub evaluate_sub_routing :
      SessionPinner Store → RoutingRequest → SessionPin → List ModelProfile → Option PinLookupResult
  unfolding is_flip_flop_tier_change_blocked
  evaluate_sub_routing p request pin fleet =
      if not (is_tool_result_turn request.turn_type)
      then none
      else if ltb p.tool_result_size_threshold (token_estimate request)
      then none
      else elim (find (λ m. str_eq m.id pin.pinned_model_id) fleet) [
        | none ↦ none
        | some pinned ↦
            elim (find
              (λ m.
                tier_eq m.tier economical_cloud
                && str_eq m.provider pinned.provider
                && not (str_eq m.id pin.pinned_model_id)
                && is_healthy m)
              fleet) [
                | none ↦ none
                | some econ ↦
                    if is_flip_flop_tier_change_blocked p request.session_id econ.tier
                    then none
                    else if (evaluate_model_switch_breakeven pinned econ (token_estimate request)
                        (token_estimate request) p.saar_config).should_switch
                    then some (record (bare sub_route) {
                      pinned_model = some pinned;
                      sub_route_model = some econ;
                    })
                    else none
              ]
      ]
