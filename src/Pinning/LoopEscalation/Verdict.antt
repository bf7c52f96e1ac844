-- ===== src/Pinning/LoopEscalation/Verdict.antt =====
-- What the evaluation of src/domain/pinning/loop-escalation.ts answers.
use pi_smart_router.Prelude.{
  ℕ, ◌≡◌, sym, ap, String, true, false, not, Option, none, some, List, Memᴰ, arith, find_sound,
  get_or, leb, ltb, str_eq, if-elim,
}
use pi_smart_router.Types.{
  Text, zero_tier, frontier_cloud, tier_eq, FailureSignature, ModelProfile, RoutingRequest,
  SessionPin, is_healthy,
}
use pi_smart_router.Pinning.Pinner.Rules.{is_tool_result_turn}
use pi_smart_router.Pinning.LoopEscalation.{
  LoopEscalationConfig, LoopEscalationResult, select_escalation_target, is_pinned_tier,
  try_escalate, is_loop_escalation, with_failures, keep_counting, no_escalation,
  is_unsupported_or_unknown_tool_result, no_failure, success_reset, already_escalated,
  not_tool_result, zero_tier_unsupported_tool, zero_tier_tool_churn, zero_tier_below_threshold,
  threshold_exceeded, below_threshold, extract_tool_failure_signature, evaluate_failure,
  evaluate_pinned, evaluate_success, evaluate_zero_tier_observational_break, escalation_to,
  EscalationReason,
}

-- A model that the session may escalate to from the pinned one.
abbrev pub Target : List ModelProfile → String → ModelProfile → Type 0
Target fleet current m =
    Memᴰ m fleet
    × (tier_eq m.tier frontier_cloud ≡ true)
    × (str_eq m.id current ≡ false)
    × (is_healthy m ≡ true)

pub select_escalation_target-Target :
    (fleet : List ModelProfile) (current : String) (m : ModelProfile)
    → select_escalation_target fleet current ≡ some m
    → Target fleet current m
unfolding select_escalation_target
select_escalation_target-Target fleet current m e =
    let (mem, fits) = find_sound _ fleet m e in (mem, ground arith, ground arith, ground arith)

-- What a result may do to a pin: it stores the pin with other failure counts, and it escalates only
-- to a target.
abbrev pub Sound : SessionPin → List ModelProfile → LoopEscalationResult → Type 0
Sound pin fleet result =
    ((updated : SessionPin)
      → result.updated_pin ≡ some updated
      → (updated.session_id ≡ pin.session_id)
        × (updated.pinned_model_id ≡ pin.pinned_model_id)
        × (updated.pin_reason ≡ pin.pin_reason))
    × ((target : ModelProfile)
        → result.should_escalate ≡ true
        → result.escalation_target ≡ some target
        → Target fleet pin.pinned_model_id target)

some_pin : (a b : SessionPin) → some a ≡ some b → a ≡ b
some_pin a b e = cc

kept :
    (pin : SessionPin) (n : ℕ) (s : Option FailureSignature) (now : ℕ) (updated : SessionPin)
    → some (with_failures pin n s now) ≡ some updated
    → (updated.session_id ≡ pin.session_id)
      × (updated.pinned_model_id ≡ pin.pinned_model_id)
      × (updated.pin_reason ≡ pin.pin_reason)
kept pin n s now updated e =
    let same = sym (some_pin (with_failures pin n s now) updated e) in
    (ap (λ x. x.session_id) same, ap (λ x. x.pinned_model_id) same, ap (λ x. x.pin_reason) same)

escalation_to-Sound :
    (pin : SessionPin) (fleet : List ModelProfile) (n : ℕ) (s : Option FailureSignature) (now : ℕ)
    (reason : EscalationReason) (o : Option ModelProfile)
    → ((m : ModelProfile) → o ≡ some m → Target fleet pin.pinned_model_id m)
    → Sound pin fleet (escalation_to (with_failures pin n s now) reason o)
escalation_to-Sound pin fleet n s now reason none h = (kept pin n s now, λ m e f. cc)
escalation_to-Sound pin fleet n s now reason (some target) h = (kept pin n s now, λ m e f. h m f)

keep_counting-Sound :
    (pin : SessionPin) (fleet : List ModelProfile) (n : ℕ) (s : Option FailureSignature) (now : ℕ)
    (reason : EscalationReason)
    → Sound pin fleet (keep_counting (with_failures pin n s now) reason)
keep_counting-Sound pin fleet n s now reason = (kept pin n s now, λ m e f. cc)

no_escalation-Sound :
    (pin : SessionPin) (fleet : List ModelProfile) (reason : EscalationReason)
    → Sound pin fleet (no_escalation reason)
no_escalation-Sound pin fleet reason = (λ updated e. cc, λ m e f. cc)

try_escalate-Sound :
    (pin : SessionPin) (fleet : List ModelProfile) (n : ℕ) (s : Option FailureSignature) (now : ℕ)
    (reason : EscalationReason)
    → Sound pin fleet (try_escalate pin fleet (with_failures pin n s now) reason)
unfolding try_escalate
try_escalate-Sound pin fleet n s now reason =
    escalation_to-Sound pin fleet n s now reason _
      (select_escalation_target-Target fleet pin.pinned_model_id)

evaluate_failure-Sound :
    (lower trim : Text → Text) (pin : SessionPin) (fleet : List ModelProfile)
    (config : LoopEscalationConfig) (signature : FailureSignature) (now : ℕ)
    → Sound pin fleet (evaluate_failure lower trim pin fleet config signature now)
unfolding evaluate_failure
evaluate_failure-Sound lower trim pin fleet config signature now =
    if-elim (Sound pin fleet) (leb config.threshold _) _ _
      (λ reached. try_escalate-Sound pin fleet _ (some signature) now threshold_exceeded)
      (λ below. keep_counting-Sound pin fleet _ (some signature) now below_threshold)

evaluate_zero_tier-Sound :
    (lower trim : Text → Text) (pin : SessionPin) (request : RoutingRequest)
    (fleet : List ModelProfile) (config : LoopEscalationConfig) (now : ℕ)
    → Sound pin fleet
        (evaluate_zero_tier_observational_break lower trim pin request fleet config now)
unfolding evaluate_zero_tier_observational_break
evaluate_zero_tier-Sound lower trim pin request fleet config now =
    if-elim (Sound pin fleet) (is_unsupported_or_unknown_tool_result lower trim request) _ _
      (λ unsupported. try_escalate-Sound pin fleet _ _ now zero_tier_unsupported_tool)
      (λ supported.
        if-elim (Sound pin fleet)
          (leb (get_or config.zero_tier_tool_call_threshold config.threshold) _) _ _
          (λ reached. try_escalate-Sound pin fleet _ _ now zero_tier_tool_churn)
          (λ below. keep_counting-Sound pin fleet _ _ now zero_tier_below_threshold))

evaluate_success-Sound :
    (lower trim : Text → Text) (pin : SessionPin) (fleet : List ModelProfile) (now : ℕ)
    → Sound pin fleet (evaluate_success lower trim pin now)
unfolding evaluate_success
evaluate_success-Sound lower trim pin fleet now =
    if-elim (Sound pin fleet) (ltb 0 pin.consecutive_tool_failures) _ _
      (λ streak. keep_counting-Sound pin fleet _ _ now success_reset)
      (λ clean. no_escalation-Sound pin fleet no_failure)

evaluate_tool_result-Sound :
    (lower trim : Text → Text) (pin : SessionPin) (fleet : List ModelProfile)
    (config : LoopEscalationConfig) (o : Option FailureSignature) (now : ℕ)
    → Sound pin fleet (elim o [
      | none ↦ evaluate_success lower trim pin now
      | some signature ↦ evaluate_failure lower trim pin fleet config signature now
    ])
evaluate_tool_result-Sound lower trim pin fleet config none now =
    evaluate_success-Sound lower trim pin fleet now
evaluate_tool_result-Sound lower trim pin fleet config (some signature) now =
    evaluate_failure-Sound lower trim pin fleet config signature now

pub evaluate_pinned-Sound :
    (lower trim : Text → Text) (pin : SessionPin) (request : RoutingRequest)
    (fleet : List ModelProfile) (config : LoopEscalationConfig) (now : ℕ)
    → Sound pin fleet (evaluate_pinned lower trim pin request fleet config now)
unfolding evaluate_pinned
evaluate_pinned-Sound lower trim pin request fleet config now =
    if-elim (Sound pin fleet) (is_loop_escalation pin.pin_reason) _ _
      (λ done. no_escalation-Sound pin fleet already_escalated)
      (λ fresh.
        if-elim (Sound pin fleet) (not (is_tool_result_turn request.turn_type)) _ _
          (λ other. no_escalation-Sound pin fleet not_tool_result)
          (λ tool.
            if-elim (Sound pin fleet) (is_pinned_tier zero_tier pin fleet) _ _
              (λ zero. evaluate_zero_tier-Sound lower trim pin request fleet config now)
              (λ paid.
                evaluate_tool_result-Sound lower trim pin fleet config
                  (extract_tool_failure_signature lower trim request) now)))
