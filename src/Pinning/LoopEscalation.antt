-- ===== src/Pinning/LoopEscalation.antt =====
-- src/domain/pinning/loop-escalation.ts and the `loop_escalation` stage of
-- src/domain/pipeline/session-pin-stage.ts. `toLowerCase` and `trim` of the platform are parameters.
pub mod Verdict
pub mod Rules
pub mod Streak
use pi_smart_router.Prelude.{
  ℕ, ◌+◌, ◌*◌, ◌%◌, ◌^◌, suc, max, String, Bool, true, false, not, ◌&&◌, ◌||◌, Option, none, some,
  List, [], ◌∷◌, find, take, get_or, ltb, leb, ◌==◌, str_eq, if◌then◌else◌,
}
use pi_smart_router.Types.{
  Text, Message, TurnType, tool_result, Tier, zero_tier, economical_cloud, frontier_cloud, tier_eq,
  PinReason, loop_escalation, FailureSignature, failure_hash, tool_churn, unsupported_tool,
  ModelProfile, RoutingRequest, SessionPin, is_healthy,
}
use pi_smart_router.Persistence.StorePort.{StorePort}
use pi_smart_router.Pinning.Pinner.{SessionPinner, get_pin, load_pin, break_pin, record_pin}
use pi_smart_router.Pinning.Pinner.Rules.{is_tool_result_turn}
use pi_smart_router.Pinning.ToolFailure.{includes_some, is_tool_failure}

pub record LoopEscalationConfig : Type 0 where
  pub threshold : ℕ
  pub zero_tier_tool_call_threshold : Option ℕ

pub data EscalationReason : Type 0 where
  no_pin already_escalated not_tool_result no_failure success_reset : EscalationReason
  no_frontier_available zero_tier_unsupported_tool zero_tier_tool_churn : EscalationReason
  zero_tier_below_threshold threshold_exceeded below_threshold : EscalationReason

pub record LoopEscalationResult : Type 0 where
  pub should_escalate : Bool
  pub updated_pin : Option SessionPin
  pub escalation_target : Option ModelProfile
  pub reason : EscalationReason

abbrev pub no_escalation : EscalationReason → LoopEscalationResult
no_escalation reason = record {
  should_escalate = false;
  updated_pin = none;
  escalation_target = none;
  reason = reason;
}

-- A result that only stores the pin.
abbrev pub keep_counting : SessionPin → EscalationReason → LoopEscalationResult
keep_counting updated reason = record (no_escalation reason) { updated_pin = some updated }

abbrev unsupported_tool_patterns : List String
unsupported_tool_patterns =
    "unknown tool" ∷ "unsupported tool" ∷ "tool not found" ∷ "no such tool" ∷ "unrecognized tool"
    ∷ "is not a valid tool" ∷ "tool does not exist" ∷ "not a known tool" ∷ []

-- The last message, if it is a tool's.
last_message : List Message → Option Message
last_message [] = none
last_message (m ∷ []) = if str_eq m.role "tool" then some m else none
last_message (m ∷ n ∷ ms) = last_message (n ∷ ms)

unfoldable pub last_tool_message : RoutingRequest → Option Message
unfolding last_message
last_tool_message request = last_message (get_or request.messages [])

-- One round of the hash, in the unsigned representation of its 32 bits, which is what `>>> 0` reads.
abbrev hash_round : ℕ → ℕ → ℕ
hash_round h unit = (h * 32 + h + unit) % 2 ^ 32

unfoldable pub hash_units : ℕ → Text → ℕ
hash_units h [] = h
hash_units h (c ∷ cs) = hash_units (hash_round h c) cs

unfoldable pub select_escalation_target : List ModelProfile → String → Option ModelProfile
select_escalation_target fleet current =
    find (λ m. tier_eq m.tier frontier_cloud && not (str_eq m.id current) && is_healthy m) fleet

-- `resolvePinnedTier(pin, fleet) === tier`
abbrev has_tier : Tier → Option ModelProfile → Bool
has_tier tier none = false
has_tier tier (some m) = tier_eq m.tier tier

unfoldable pub is_pinned_tier : Tier → SessionPin → List ModelProfile → Bool
is_pinned_tier tier pin fleet = has_tier tier (find (λ m. str_eq m.id pin.pinned_model_id) fleet)

abbrev escalation_to : SessionPin → EscalationReason → Option ModelProfile → LoopEscalationResult
escalation_to updated reason none = keep_counting updated no_frontier_available
escalation_to updated reason (some target) = record {
  should_escalate = true;
  updated_pin = some updated;
  escalation_target = some target;
  reason = reason;
}

unfoldable pub try_escalate :
    SessionPin → List ModelProfile → SessionPin → EscalationReason → LoopEscalationResult
unfolding select_escalation_target
try_escalate pin fleet updated reason =
    escalation_to updated reason (select_escalation_target fleet pin.pinned_model_id)

-- `===` on a stored signature, which may be null.
abbrev pub same_signature : Option FailureSignature → FailureSignature → Bool
same_signature (some (failure_hash a)) (failure_hash b) = a == b
same_signature (some tool_churn) tool_churn = true
same_signature (some unsupported_tool) unsupported_tool = true
same_signature _ _ = false

abbrev pub is_loop_escalation : PinReason → Bool
is_loop_escalation loop_escalation = true
is_loop_escalation _ = false

abbrev pub with_failures : SessionPin → ℕ → Option FailureSignature → ℕ → SessionPin
with_failures pin count signature now = record pin {
  consecutive_tool_failures = count;
  last_tool_failure_signature = signature;
  updated_at = now;
}

module _ (port : StorePort) where
  abbrev pub store_updated : SessionPinner port.Store → Option SessionPin → SessionPinner port.Store
  store_updated p none = p
  store_updated p (some pin) = load_pin port p pin

  abbrev pub escalate :
      SessionPinner port.Store → String → Bool → Option ModelProfile → ℕ → SessionPinner port.Store
  escalate p id true (some target) now =
      record_pin port (break_pin port p id) id target.id loop_escalation now
  escalate p id true none now = p
  escalate p id false _ now = p

  abbrev pub apply_result :
      SessionPinner port.Store → String → LoopEscalationResult → ℕ → SessionPinner port.Store
  apply_result p id result now =
      escalate (store_updated p result.updated_pin) id result.should_escalate
        result.escalation_target now

module _ (lower trim : Text → Text) where
  unfoldable pub compute_signature : Text → FailureSignature
  unfolding hash_units
  compute_signature content = failure_hash (hash_units 5381 (lower (take 256 (trim content))))

  unfoldable pub extract_tool_failure_signature : RoutingRequest → Option FailureSignature
  unfolding last_tool_message compute_signature
  extract_tool_failure_signature request = elim (last_tool_message request) [
    | none ↦ none
    | some message ↦
        if is_tool_failure lower message then some (compute_signature message.content) else none
  ]

  unfoldable pub is_unsupported_or_unknown_tool_result : RoutingRequest → Bool
  unfolding last_tool_message
  is_unsupported_or_unknown_tool_result request = elim (last_tool_message request) [
    | none ↦ false
    | some message ↦ includes_some unsupported_tool_patterns (lower message.content)
  ]

  unfoldable pub evaluate_zero_tier_observational_break :
      SessionPin
      → RoutingRequest
      → List ModelProfile
      → LoopEscalationConfig
      → ℕ
      → LoopEscalationResult
  unfolding is_unsupported_or_unknown_tool_result try_escalate
  evaluate_zero_tier_observational_break pin request fleet config now =
      if is_unsupported_or_unknown_tool_result request
      then try_escalate pin fleet
          (with_failures pin (max pin.consecutive_tool_failures 1) (some unsupported_tool) now)
          zero_tier_unsupported_tool
      else let new_count =
          if same_signature pin.last_tool_failure_signature tool_churn
          then pin.consecutive_tool_failures + 1
          else 1 in
        let updated : SessionPin = with_failures pin new_count (some tool_churn) now in
        if leb (get_or config.zero_tier_tool_call_threshold config.threshold) new_count
        then try_escalate pin fleet updated zero_tier_tool_churn
        else keep_counting updated zero_tier_below_threshold

  -- The evaluation once the turn is known to have failed with a signature.
  unfoldable pub evaluate_failure :
      SessionPin
      → List ModelProfile
      → LoopEscalationConfig
      → FailureSignature
      → ℕ
      → LoopEscalationResult
  unfolding try_escalate is_pinned_tier
  evaluate_failure pin fleet config signature now =
      let new_count =
        if is_pinned_tier economical_cloud pin fleet
          || same_signature pin.last_tool_failure_signature signature
        then pin.consecutive_tool_failures + 1
        else 1 in
      let updated : SessionPin = with_failures pin new_count (some signature) now in
      if leb config.threshold new_count
      then try_escalate pin fleet updated threshold_exceeded
      else keep_counting updated below_threshold

  -- A turn without a failure.
  unfoldable pub evaluate_success : SessionPin → ℕ → LoopEscalationResult
  evaluate_success pin now =
      if ltb 0 pin.consecutive_tool_failures
      then keep_counting (with_failures pin 0 none now) success_reset
      else no_escalation no_failure

  unfoldable pub evaluate_pinned :
      SessionPin
      → RoutingRequest
      → List ModelProfile
      → LoopEscalationConfig
      → ℕ
      → LoopEscalationResult
  unfolding evaluate_zero_tier_observational_break evaluate_failure evaluate_success is_pinned_tier
  evaluate_pinned pin request fleet config now =
      if is_loop_escalation pin.pin_reason
      then no_escalation already_escalated
      else if not (is_tool_result_turn request.turn_type)
      then no_escalation not_tool_result
      else if is_pinned_tier zero_tier pin fleet
      then evaluate_zero_tier_observational_break pin request fleet config now
      else elim (extract_tool_failure_signature request) [
        | none ↦ evaluate_success pin now
        | some signature ↦ evaluate_failure pin fleet config signature now
      ]

  unfoldable pub evaluate_loop_escalation :
      Option SessionPin
      → RoutingRequest
      → List ModelProfile
      → LoopEscalationConfig
      → ℕ
      → LoopEscalationResult
  unfolding evaluate_pinned
  evaluate_loop_escalation none request fleet config now = no_escalation no_pin
  evaluate_loop_escalation (some pin) request fleet config now =
      evaluate_pinned pin request fleet config now

  -- `createLoopEscalationStage().run` with a pinner and a configuration.
  unfoldable pub run_loop_escalation :
      (port : StorePort)
      → SessionPinner port.Store
      → RoutingRequest
      → List ModelProfile
      → LoopEscalationConfig
      → ℕ
      → SessionPinner port.Store
  unfolding get_pin evaluate_loop_escalation
  run_loop_escalation port p request fleet config now =
      apply_result port p request.session_id
        (evaluate_loop_escalation (get_pin p request.session_id) request fleet config now) now
