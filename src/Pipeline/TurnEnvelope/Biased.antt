-- ===== src/Pipeline/TurnEnvelope/Biased.antt =====
-- What the turn-envelope stage of src/domain/pipeline/turn-envelope-stage.ts decides.
use pi_smart_router.Prelude.{
  ℕ, ◌≡◌, refl, inl, inr, ◌⊎◌, Bool, true, false, not, ◌&&◌, Option, none, some, List, Memᴰ, arith,
  str_eq, ltb, mem-filter, filter-mem, Option-cases, Bool-cases, is_some,
}
use pi_smart_router.Types.{
  Text, ModelProfile, RoutingRequest, RoutingDecision, TurnType, Tier, economical_cloud, tier_eq,
  is_healthy, given,
}
use pi_smart_router.Pinning.Pinner.{SessionPinner}
use pi_smart_router.Pinning.SubRoute.{fallback_cost, select_lowest_cost_model}
use pi_smart_router.Pinning.SubRoute.Select.{BestOf, select_lowest_cost_model-BestOf}
use pi_smart_router.Pipeline.{
  PipelineOptions, Route, StageRun, undecided, decided, threw, turn_tier, with_estimated_cost,
  decide_or_throw, is_pin_only_fallback_active, breakeven_pass,
}
use pi_smart_router.Pipeline.Classify.{turn_type_of, tier_candidates}
use pi_smart_router.Pipeline.Sound.{EstimatorThrows, estimated-cases}
use pi_smart_router.Pipeline.TurnEnvelope.{
  is_planning, pin_of, pinned_in, switch_pays, is_saar_planning_buffer_active,
  should_defer_planning_for_saar, resolve_planning_delegate_config, leaves_economical,
  note_breakeven, delegate_decision, target_decision, leave_pinned, from_pin, to_target, to_tier,
  run_turn_envelope,
}

-- The cheapest healthy member of the fleet in the tier.
abbrev pub CheapestOf : List ModelProfile → Tier → ModelProfile → Type 0
CheapestOf fleet tier target =
    Memᴰ target fleet
    × (tier_eq target.tier tier ≡ true)
    × (is_healthy target ≡ true)
    × ((x : ModelProfile)
        → Memᴰ x fleet
        → tier_eq x.tier tier ≡ true
        → is_healthy x ≡ true
        → ltb (fallback_cost x) (fallback_cost target) ≡ false)

selected-CheapestOf :
    (fleet : List ModelProfile) (tier : Tier) (target : ModelProfile)
    → select_lowest_cost_model (tier_candidates tier fleet) ≡ some target
    → CheapestOf fleet tier target
selected-CheapestOf fleet tier target e =
    let (mem, healthy, least) : BestOf fallback_cost ltb (tier_candidates tier fleet)
        (some target) =
      rw e at (select_lowest_cost_model-BestOf (tier_candidates tier fleet)) in
    let (member, passes) = mem-filter (λ m. tier_eq m.tier tier && is_healthy m) fleet target mem in
    (
      member,
      ground (arith, passes),
      healthy,
      λ x there same sound.
          least x
            (filter-mem (λ m. tier_eq m.tier tier && is_healthy m) fleet x there
              (ground (arith, same, sound)))
            sound,
    )

module _ {Store : Type 0} (options : PipelineOptions) (request : RoutingRequest)
    (turn : TurnType) where
  -- A session whose pinned model is another one switches only where that pays, or in a planning turn
  -- within the planning buffer.
  abbrev pub SwitchAllowed :
      Option (SessionPinner Store) → List ModelProfile → ModelProfile → Type 0
  SwitchAllowed p fleet target =
      (pinned : ModelProfile)
      → pinned_in (pin_of p request.session_id) fleet ≡ some pinned
      → str_eq pinned.id target.id ≡ false
      → (switch_pays options request pinned target ≡ true)
        ⊎ ((is_planning turn ≡ true) × (is_saar_planning_buffer_active options p request ≡ true))

  -- A planning turn of a warm economical session stays on the pinned model and delegates.
  abbrev pub Delegated : Option (SessionPinner Store) → List ModelProfile → RoutingDecision → Type 0
  Delegated p fleet decision =
      (pinned : ModelProfile) × (pinned_in (pin_of p request.session_id) fleet ≡ some pinned)
      × (is_planning turn ≡ true)
      × (tier_eq pinned.tier economical_cloud ≡ true)
      × (decision.selected_model_id ≡ pinned.id)
      × (decision.reason_code ≡ "planning_delegate")

  -- What the stage does: the target is the cheapest healthy model of the turn's tier, and the decision
  -- is on it or delegates; the fleets and the pinner stay as they are, and only the estimator throws.
  abbrev pub Unmoved : Route Store → Route Store → Type 0
  Unmoved before after =
      (after.pinner ≡ before.pinner)
      × (after.context.fleet ≡ before.context.fleet)
      × (after.context.full_fleet ≡ before.context.full_fleet)

  abbrev pub TurnRun : (RoutingDecision → Type 0) → Route Store → StageRun Store → Type 0
  TurnRun Decided before (undecided after) = Unmoved before after
  TurnRun Decided before (decided decision after) = Decided decision × Unmoved before after
  TurnRun Decided before (threw after) =
      Unmoved before after × ((model : ModelProfile) × EstimatorThrows options request model)

  abbrev pub Biased : Option (SessionPinner Store) → List ModelProfile → RoutingDecision → Type 0
  Biased p fleet decision =
      (tier : Tier) × (target : ModelProfile) × (turn_tier turn ≡ some tier)
      × CheapestOf fleet tier target
      × (((decision.selected_model_id ≡ target.id) × SwitchAllowed p fleet target)
          ⊎ Delegated p fleet decision)

  mapped :
      (P Q : RoutingDecision → Type 0) (before : Route Store) (run : StageRun Store)
      → ((d : RoutingDecision) → P d → Q d)
      → TurnRun P before run
      → TurnRun Q before run
  mapped P Q before (undecided after) k h = h
  mapped P Q before (decided decision after) k (holds, same) = (k decision holds, same)
  mapped P Q before (threw after) k h = h

  estimated-TurnRun :
      (Decided : RoutingDecision → Type 0) (before after : Route Store) (model : ModelProfile)
      (d : RoutingDecision)
      → ((cost : Option ℕ) → Decided (record d { estimated_cost_usd = cost }))
      → Unmoved before after
      → TurnRun Decided before (decide_or_throw (with_estimated_cost options request model d) after)
  estimated-TurnRun Decided before after model d holds same =
      elim (estimated-cases options request model d) [
        | inl (cost, e) ↦ rw e (holds cost, same)
        | inr (e, throws) ↦ rw e (same, (model, throws))
      ]

  target_decision-TurnRun :
      (leaves : Bool) (target : ModelProfile) (before route : Route Store)
      → Unmoved before route
      → TurnRun
          (λ d. d.selected_model_id ≡ target.id)
          before
          (target_decision options request turn leaves target route)
  unfolding target_decision
  target_decision-TurnRun leaves target before route h =
      let on_it : RoutingDecision → Type 0 = λ d. d.selected_model_id ≡ target.id in
      elim (Bool-cases (leaves && not (resolve_planning_delegate_config options).enabled)) [
        | inl e ↦ rw e (estimated-TurnRun on_it before _ target _ (λ cost. refl) h)
        | inr e ↦ rw e (estimated-TurnRun on_it before _ target _ (λ cost. refl) h)
      ]

  module _ (tier : Tier) (target : ModelProfile) (route : Route Store)
      (named : turn_tier turn ≡ some tier)
      (cheapest : CheapestOf route.context.fleet tier target) where
    abbrev BiasedRun : StageRun Store → Type 0
    BiasedRun run = TurnRun (Biased route.pinner route.context.fleet) route run

    on_target :
        (leaves : Bool) (after : Route Store)
        → Unmoved route after
        → SwitchAllowed route.pinner route.context.fleet target
        → BiasedRun (target_decision options request turn leaves target after)
    on_target leaves after same allowed =
        mapped (λ d. d.selected_model_id ≡ target.id) (Biased route.pinner route.context.fleet)
          route _ (λ d selected. (tier, target, named, cheapest, inl (selected, allowed)))
          (target_decision-TurnRun leaves target route after same)

    leave_pinned-BiasedRun :
        (pinned : ModelProfile)
        → pinned_in (pin_of route.pinner request.session_id) route.context.fleet ≡ some pinned
        → BiasedRun (leave_pinned options request turn pinned target route)
    unfolding leave_pinned delegate_decision
    leave_pinned-BiasedRun pinned found =
        let leaves = leaves_economical turn pinned target in
        let only : (q : ModelProfile)
            → pinned_in (pin_of route.pinner request.session_id) route.context.fleet ≡ some q
            → q ≡ pinned =
          λ q e. cc (e, found) in
        elim (Bool-cases (leaves && (resolve_planning_delegate_config options).enabled)) [
          | inl delegates ↦ rw delegates (
              estimated-TurnRun (Biased route.pinner route.context.fleet) route _ pinned _
                (λ cost. (
                  tier,
                  target,
                  named,
                  cheapest,
                  inr (
                    pinned,
                    found,
                    ground (arith, delegates),
                    ground (arith, delegates),
                    refl,
                    refl,
                  ),
                ))
                (refl, refl, refl))
          | inr stays ↦
              elim (Bool-cases
                (is_planning turn && is_saar_planning_buffer_active options route.pinner request)) [
                  | inl early ↦
                      rw (stays, early)
                        (on_target leaves route (refl, refl, refl)
                          (λ q e apart. inr (ground (arith, early), ground (arith, early))))
                  | inr gated ↦ elim (Bool-cases (switch_pays options request pinned target)) [
                    | inl pays ↦
                        rw (stays, gated, pays)
                          (on_target leaves (note_breakeven route breakeven_pass) (refl, refl, refl)
                            (λ q e apart. rw (only q e) (inl pays)))
                    | inr blocked ↦ rw (stays, gated, blocked) (refl, refl, refl)
                  ]
                ]
        ]

    from_pin-BiasedRun :
        (pinned : Option ModelProfile)
        → pinned_in (pin_of route.pinner request.session_id) route.context.fleet ≡ pinned
        → BiasedRun (from_pin options request turn pinned target route)
    unfolding from_pin
    from_pin-BiasedRun none found =
        on_target false route (refl, refl, refl) (λ q e apart. cc (e, found))
    from_pin-BiasedRun (some pinned) found = elim (Bool-cases (str_eq pinned.id target.id)) [
      | inl same ↦
          rw same
            (on_target false route (refl, refl, refl) (λ q e apart. cc (e, found, apart, same)))
      | inr apart ↦ rw apart (leave_pinned-BiasedRun pinned found)
    ]

  to_tier-TurnRun :
      (o : Option Tier) (route : Route Store)
      → turn_tier turn ≡ o
      → TurnRun
          (Biased route.pinner route.context.fleet)
          route
          (to_tier options request turn o route)
  unfolding to_tier to_target
  to_tier-TurnRun none route e = (refl, refl, refl)
  to_tier-TurnRun (some tier) route e =
      elim (Bool-cases
        (is_planning turn && should_defer_planning_for_saar options route.pinner request)) [
          | inl deferred ↦ rw deferred (refl, refl, refl)
          | inr free ↦
              elim (Option-cases
                (select_lowest_cost_model (tier_candidates tier route.context.fleet))) [
                  | inl nobody ↦ rw (free, nobody) (refl, refl, refl)
                  | inr (target, found) ↦
                      rw (free, found)
                        (from_pin-BiasedRun tier target route e
                          (selected-CheapestOf route.context.fleet tier target found) _ refl)
                ]
        ]

module _ {Store : Type 0} (planning_signal subagent_signal : Text → Bool)
    (options : PipelineOptions) (request : RoutingRequest) where
  -- The stage leaves the pinner and the fleets, and throws only where the cost estimator throws. A
  -- decision of it is on the cheapest healthy model of the tier of the turn, and leaves a warm pin for
  -- it only where the breakeven gate lets it or a planning turn is within the buffer; or it stays on
  -- the warm economical model of a planning turn and delegates.
  pub run_turn_envelope-Biased :
      (route : Route Store)
      → TurnRun options request
          (turn_type_of planning_signal subagent_signal request)
          (Biased options request
            (turn_type_of planning_signal subagent_signal request)
            route.pinner
            route.context.fleet)
          route
          (run_turn_envelope planning_signal subagent_signal options request route)
  unfolding run_turn_envelope
  run_turn_envelope-Biased route =
      let turn = turn_type_of planning_signal subagent_signal request in
      elim (Bool-cases (is_pin_only_fallback_active options route.pinner request)) [
        | inl emergency ↦ rw emergency (refl, refl, refl)
        | inr normal ↦ elim (Bool-cases (is_some (given request.force_model_id))) [
          | inl forced ↦ rw (normal, forced) (refl, refl, refl)
          | inr free ↦
              rw (normal, free) (to_tier-TurnRun options request turn (turn_tier turn) route refl)
        ]
      ]
