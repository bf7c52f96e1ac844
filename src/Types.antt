-- ===== src/Types.antt =====
-- src/domain/types/entities.ts: the records that routing passes around. Ids are texts that are only
-- compared. A text that the program measures or searches is a list of UTF-16 code units, and a clock
-- reading a number of milliseconds. A cost is a whole number of micro-USD, never negative.
use pi_smart_router.Prelude.{
  ℕ, ◌≡◌, ◌↔◌, String, Bool, true, false, Option, none, some, List, arith, str_eq, if◌then◌else◌,
}

-- `string` where it is measured or searched.
abbrev pub Text : Type 0
Text = List ℕ

pub data TurnType : Type 0 where
  planning tool_result subagent main_loop unknown : TurnType

pub data PinReason : Type 0 where
  initial user_forced loop_escalation compaction cache_economics context_overflow : PinReason

pub data Tier : Type 0 where
  zero_tier economical_cloud frontier_cloud : Tier

-- `===` on tiers.
abbrev pub tier_eq : Tier → Tier → Bool
tier_eq zero_tier zero_tier = true
tier_eq economical_cloud economical_cloud = true
tier_eq frontier_cloud frontier_cloud = true
tier_eq _ _ = false

pub tier_eq_iff : (s t : Tier) → (tier_eq s t ≡ true) ↔ (s ≡ t)
tier_eq_iff s t = ground arith

pub record Message : Type 0 where
  pub role : String
  pub content : Text
  pub is_error : Option Bool
  pub status : Option ℕ

pub record RoutingRequest : Type 0 where
  pub request_id : String
  pub session_id : String
  pub prompt_text : Text
  pub messages : Option (List Message)
  pub turn_type : Option TurnType
  pub compaction_flag : Option Bool
  pub force_model_id : Option String
  pub candidate_model_id : Option String
  pub estimated_input_tokens : Option ℕ

-- A weight is in thousandths.
pub record SaarConfig : Type 0 where
  pub planning_turn_buffer : ℕ
  pub prefix_cache_weight : ℕ
  pub idle_timeout_seconds : ℕ
  pub switch_threshold : ℕ

-- `last_activity_at` is an ISO text; `none` is one that `Date.parse` rejects.
pub record SaarSessionState : Type 0 where
  pub turn_index : ℕ
  pub hard_lock : Bool
  pub last_activity_at : Option ℕ

-- The signatures that loop escalation stores: `tf:<hash>`, `zt:tool_churn`, `zt:unsupported_tool`.
pub data FailureSignature : Type 0 where
  failure_hash : ℕ → FailureSignature
  tool_churn unsupported_tool : FailureSignature

pub record SessionPin : Type 0 where
  pub session_id : String
  pub pinned_model_id : String
  pub pin_reason : PinReason
  pub has_ever_switched : Bool
  pub consecutive_upstream_errors : ℕ
  pub consecutive_tool_failures : ℕ
  pub last_tool_failure_signature : Option FailureSignature
  pub created_at : ℕ
  pub updated_at : ℕ

pub record ModelPerformance : Type 0 where
  pub latency_p50_ms : Option ℕ
  pub cache_friendly : Option Bool

pub record ModelPricing : Type 0 where
  pub fallback_cost_per_1m : ℕ
  pub quota_cost_per_1m : Option ℕ

pub record ModelLimits : Type 0 where
  pub max_input_tokens : Option ℕ
  pub max_output_tokens : Option ℕ

-- Capabilities are in thousandths.
pub record ModelCapabilities : Type 0 where
  pub reasoning : ℕ
  pub code_gen : ℕ
  pub tool_use : ℕ

pub record ModelProfile : Type 0 where
  pub id : String
  pub tier : Tier
  pub provider : String
  pub performance : Option ModelPerformance
  pub pricing : ModelPricing
  pub limits : Option ModelLimits
  pub healthy : Option Bool
  pub capabilities : ModelCapabilities

pub record CandidateScore : Type 0 where
  pub model_id : String
  pub score : ℕ
  pub shortfall : ℕ
  pub rejected_reason : Option String

-- The decision, less the feature sidecar of telemetry. The stage and the reason code are the
-- program's strings.
pub record RoutingDecision : Type 0 where
  pub request_id : String
  pub selected_model_id : String
  pub tier : Tier
  pub stage : String
  pub reason_code : String
  pub candidates : Option (List CandidateScore)
  pub estimated_cost_usd : Option ℕ
  pub routing_latency_ms : ℕ
  pub pin_reason : Option PinReason

pub record CompressedContextSpec : Type 0 where
  pub max_messages : ℕ
  pub max_tokens : ℕ
  pub exclude_execution_history : Bool

-- The fields that routing reads.
pub record PlanningDelegateConfig : Type 0 where
  pub enabled : Bool
  pub compressed_context : CompressedContextSpec

-- `model.healthy !== false`
abbrev not_false : Option Bool → Bool
not_false none = true
not_false (some b) = b

abbrev pub is_healthy : ModelProfile → Bool
is_healthy model = not_false model.healthy

-- `if (flag)` on an optional Boolean.
abbrev pub is_set : Option Bool → Bool
is_set none = false
is_set (some b) = b

-- `if (id)` on an optional text: the empty text counts as missing.
abbrev pub given : Option String → Option String
given none = none
given (some s) = if str_eq s "" then none else some s

abbrev limits_input : Option ModelLimits → Option ℕ
limits_input none = none
limits_input (some l) = l.max_input_tokens

-- `model.limits?.max_input_tokens`
abbrev pub max_input : ModelProfile → Option ℕ
max_input model = limits_input model.limits
