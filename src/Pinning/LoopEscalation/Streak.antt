-- ===== src/Pinning/LoopEscalation/Streak.antt =====
-- A streak of failing tool results on a session pinned to an economical model:
-- src/domain/pinning/loop-escalation.ts, run by run of the stage.
use pi_smart_router.Prelude.{
  ℕ, ◌+◌, ◌≡◌, ◌≤◌, ◌<◌, refl, ap, ◌∙◌, subst, String, true, false, Option, some, List, [], ◌∷◌,
  All, length, arith, find, leb, str_eq, eq_refl, if◌then◌else◌,
}
use pi_smart_router.Prelude.Table.{get}
use pi_smart_router.Types.{
  Text, zero_tier, economical_cloud, loop_escalation, FailureSignature, ModelProfile,
  RoutingRequest, SessionPin,
}
use pi_smart_router.Persistence.StorePort.{StorePort}
use pi_smart_router.Pinning.Pinner.{SessionPinner, get_pin, load_pin, break_pin}
use pi_smart_router.Pinning.Pinner.Rules.{is_tool_result_turn}
use pi_smart_router.Pinning.LoopEscalation.{
  LoopEscalationConfig, LoopEscalationResult, select_escalation_target, is_pinned_tier, has_tier,
  try_escalate, is_loop_escalation, with_failures, keep_counting, threshold_exceeded,
  below_threshold, extract_tool_failure_signature, evaluate_failure, evaluate_pinned,
  evaluate_loop_escalation, run_loop_escalation, apply_result,
}
use pi_smart_router.Pinning.LoopEscalation.Rules.{get-load_pin, get-recorded}

-- A turn: its request and the clock reading.
abbrev pub Turn : Type 0
Turn = RoutingRequest × ℕ

module _ (lower trim : Text → Text) (port : StorePort) (fleet : List ModelProfile)
    (config : LoopEscalationConfig) where
  unfoldable pub run_turns : SessionPinner port.Store → List Turn → SessionPinner port.Store
  run_turns p [] = p
  run_turns p (t ∷ ts) = run_turns (run_loop_escalation lower trim port p t.0 fleet config t.1) ts

  -- A tool result of the session that has failed.
  abbrev pub Failing : String → Turn → Type 0
  Failing id t =
      (t.0.session_id ≡ id)
      × (is_tool_result_turn t.0.turn_type ≡ true)
      × ((s : FailureSignature) × (extract_tool_failure_signature lower trim t.0 ≡ some s))

  -- The session has an economical pin with a number of failures, not yet escalated.
  abbrev pub Economical : String → ℕ → SessionPinner port.Store → String → Type 0
  Economical id n p model =
      (pin : SessionPin) × (get id p.pins ≡ some pin)
      × (pin.session_id ≡ id)
      × (pin.pinned_model_id ≡ model)
      × (pin.consecutive_tool_failures ≡ n)
      × (is_loop_escalation pin.pin_reason ≡ false)
      × (is_pinned_tier economical_cloud pin fleet ≡ true)

  not_zero :
      (o : Option ModelProfile) → has_tier economical_cloud o ≡ true → has_tier zero_tier o ≡ false
  not_zero o e = ground arith

  -- One failure is evaluated as the next of its streak.
  evaluate_next :
      (pin : SessionPin) (t : Turn) (id : String) (s : FailureSignature)
      → is_tool_result_turn t.0.turn_type ≡ true
      → extract_tool_failure_signature lower trim t.0 ≡ some s
      → is_loop_escalation pin.pin_reason ≡ false
      → is_pinned_tier economical_cloud pin fleet ≡ true
      → evaluate_pinned lower trim pin t.0 fleet config t.1 ≡ (
          let n = pin.consecutive_tool_failures + 1 in
          let updated : SessionPin = with_failures pin n (some s) t.1 in
          if leb config.threshold n
          then try_escalate pin fleet updated threshold_exceeded
          else keep_counting updated below_threshold)
  unfolding evaluate_pinned is_pinned_tier evaluate_failure
  evaluate_next pin t id s tool failed fresh paid =
      let zero = not_zero (find (λ m. str_eq m.id pin.pinned_model_id) fleet) paid in
      rw (fresh, tool, zero, failed) (rw paid refl)

  run_evaluated :
      (p : SessionPinner port.Store) (pin : SessionPin) (t : Turn) (id : String)
      (result : LoopEscalationResult)
      → get id p.pins ≡ some pin
      → t.0.session_id ≡ id
      → evaluate_pinned lower trim pin t.0 fleet config t.1 ≡ result
      → run_loop_escalation lower trim port p t.0 fleet config t.1
        ≡ apply_result port p id result t.1
  unfolding run_loop_escalation get_pin evaluate_loop_escalation
  run_evaluated p pin t id result e own same =
      ap
        (λ i.
          apply_result port p i
            (evaluate_loop_escalation lower trim (get i p.pins) t.0 fleet config t.1) t.1)
        own
      ∙ ap
          (λ o.
            apply_result port p id (evaluate_loop_escalation lower trim o t.0 fleet config t.1) t.1)
          e
      ∙ ap (λ r. apply_result port p id r t.1) same

  step_below :
      (p : SessionPinner port.Store) (t : Turn) (id model : String) (n : ℕ)
      → Economical id n p model
      → Failing id t
      → n + 1 < config.threshold
      → Economical id (n + 1) (run_loop_escalation lower trim port p t.0 fleet config t.1) model
  unfolding is_pinned_tier
  step_below p t id model n (pin, e, own, on, count, fresh, paid) (same_id, tool, (s, failed))
        below =
      let m = pin.consecutive_tool_failures + 1 in
      let updated : SessionPin = with_failures pin m (some s) t.1 in
      let low : leb config.threshold m ≡ false = ground (arith, count) in
      let result = evaluate_next pin t id s tool failed fresh paid in
      let after = run_evaluated p pin t id _ e same_id result in
      rw after (
        rw low (
          updated,
          get-load_pin port p updated id ∙ rw (own, eq_refl id) refl,
          own,
          on,
          ap (λ k. k + 1) count,
          fresh,
          paid,
        ))

  step_reach :
      (p : SessionPinner port.Store) (t : Turn) (id model : String) (n : ℕ) (target : ModelProfile)
      → Economical id n p model
      → Failing id t
      → config.threshold ≤ n + 1
      → select_escalation_target fleet model ≡ some target
      → (q : SessionPin) × (get id (run_loop_escalation lower trim port p t.0 fleet config t.1).pins
          ≡ some q)
        × (q.pinned_model_id ≡ target.id)
        × (q.pin_reason ≡ loop_escalation)
  unfolding try_escalate
  step_reach p t id model n target (pin, e, own, on, count, fresh, paid)
        (same_id, tool, (s, failed)) reached chosen =
      let m = pin.consecutive_tool_failures + 1 in
      let updated : SessionPin = with_failures pin m (some s) t.1 in
      let high : leb config.threshold m ≡ true = ground (arith, count) in
      let chosen_here = ap (select_escalation_target fleet) on ∙ chosen in
      let result = evaluate_next pin t id s tool failed fresh paid in
      let after = run_evaluated p pin t id _ e same_id result in
      rw after (
        rw high (
          rw chosen_here (
            get-recorded port (break_pin port (load_pin port p updated) id) id target.id
              loop_escalation t.1)))

  streak_reaches :
      (ts : List Turn) (t : Turn) (p : SessionPinner port.Store) (id model : String) (n : ℕ)
      (target : ModelProfile)
      → Economical id n p model
      → All (Failing id) ts
      → Failing id t
      → n + length ts + 1 ≡ config.threshold
      → select_escalation_target fleet model ≡ some target
      → let after = run_loop_escalation lower trim port (run_turns p ts) t.0 fleet config t.1 in
        (q : SessionPin) × (get id after.pins ≡ some q)
        × (q.pinned_model_id ≡ target.id)
        × (q.pin_reason ≡ loop_escalation)
  unfolding run_turns
  streak_reaches [] t p id model n target pinned all last reach chosen =
      step_reach p t id model n target pinned last (omega arith) chosen
  streak_reaches (u ∷ us) t p id model n target pinned (first, rest) last reach chosen =
      streak_reaches us t (run_loop_escalation lower trim port p u.0 fleet config u.1) id model
        (n + 1) target (step_below p u id model n pinned first (omega arith)) rest last
        (omega arith) chosen

  -- A session pinned to an economical model and not escalated yet keeps its model through failing
  -- tool results that stay below the threshold, and each of them is counted.
  streak_below :
      (ts : List Turn) (p : SessionPinner port.Store) (id model : String) (n : ℕ)
      → Economical id n p model
      → All (Failing id) ts
      → n + length ts < config.threshold
      → Economical id (n + length ts) (run_turns p ts) model
  unfolding run_turns
  streak_below [] p id model n pinned all below =
      subst (λ k. Economical id k p model) (omega arith) pinned
  streak_below (t ∷ ts) p id model n pinned (first, rest) below =
      let after = run_loop_escalation lower trim port p t.0 fleet config t.1 in
      subst (λ k. Economical id k (run_turns after ts) model) (omega arith)
        (streak_below ts after id model (n + 1)
          (step_below p t id model n pinned first (omega arith)) rest (omega arith))

  -- A session pinned to an economical model and not escalated yet, whose consecutive failing tool
  -- results, whatever their signatures, reach the threshold with the last of these turns, keeps its
  -- model until then with each of them counted, and ends with that turn on the escalation target of the
  -- fleet, if there is one, with the reason `loop_escalation`.
  pub streak_escalates :
      (ts : List Turn) (t : Turn) (p : SessionPinner port.Store) (id model : String) (n : ℕ)
      (target : ModelProfile)
      → Economical id n p model
      → All (Failing id) ts
      → Failing id t
      → n + length ts + 1 ≡ config.threshold
      → select_escalation_target fleet model ≡ some target
      → let before = run_turns p ts in
        let after = run_loop_escalation lower trim port before t.0 fleet config t.1 in
        Economical id (n + length ts) before model
        × ((q : SessionPin) × (get id after.pins ≡ some q)
            × (q.pinned_model_id ≡ target.id)
            × (q.pin_reason ≡ loop_escalation))
  streak_escalates ts t p id model n target pinned all last reach chosen = (
    streak_below ts p id model n pinned all (omega arith),
    streak_reaches ts t p id model n target pinned all last reach chosen,
  )
