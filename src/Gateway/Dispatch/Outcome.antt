-- ===== src/Gateway/Dispatch/Outcome.antt =====
-- The errors of src/infrastructure/gateway/gateway-dispatch.ts: which of them fail over, what
-- `recordOutcome` writes, and the rate limit. Whether a message matches the quota patterns, and whether
-- it speaks of usage, quota or limit, are parameters, since both are regular expressions.
pub mod Recorded
use pi_smart_router.Prelude.{
  ℕ, String, Bool, false, not, ◌&&◌, ◌||◌, Option, none, some, List, [], ◌∷◌, ◌++◌, find, any,
  get_or, ◌==◌, str_eq, if◌then◌else◌,
}
use pi_smart_router.Prelude.Texts.{text_eq, units}
use pi_smart_router.Types.{Text, ModelProfile, RoutingDecision}
use pi_smart_router.Gateway.CircuitBreaker.{
  ProviderError, is_infra_error, record_success, record_failure,
}
use pi_smart_router.Gateway.Dispatch.{
  GatewayDispatch, has_id, is_cursor_subscription_model, FailoverDraws, dispatch,
}

abbrev cursor_quota_error_codes : List String
cursor_quota_error_codes =
    "usage_limit_exceeded" ∷ "resource_exhausted" ∷ "quota_exceeded" ∷ "insufficient_quota" ∷ []

abbrev is_too_many : Option ℕ → Bool
is_too_many none = false
is_too_many (some status) = status == 429

-- `new Set(…).add(id)`
abbrev pub add_id : List String → String → List String
add_id ids id = if has_id ids id then ids else ids ++ (id ∷ [])

module _ (normal : String → Text) (quota_message limit_message : String → Bool) where
  abbrev is_quota_code : Option String → Bool
  is_quota_code none = false
  is_quota_code (some code) = any (λ c. text_eq (normal code) (units c)) cursor_quota_error_codes

  unfoldable pub is_cursor_quota_exhausted_error : ProviderError → Bool
  is_cursor_quota_exhausted_error error =
      is_quota_code error.code
      || (not (str_eq (get_or error.message "") "") && quota_message (get_or error.message ""))
      || (is_too_many error.status_code && limit_message (get_or error.message ""))

  -- `failedModel && isCursorSubscriptionModel(failedModel) && error.statusCode === 429`
  abbrev pub subscription_limit : Option ModelProfile → ProviderError → Bool
  subscription_limit none error = false
  subscription_limit (some model) error =
      is_cursor_subscription_model normal model && is_too_many error.status_code

  unfoldable pub should_failover_on_provider_error : ProviderError → Option ModelProfile → Bool
  should_failover_on_provider_error error failed_model =
      is_cursor_quota_exhausted_error error
      || subscription_limit failed_model error
      || is_infra_error error

  abbrev exhaust : GatewayDispatch → String → GatewayDispatch
  exhaust g id = record g { quota_exhausted_models = add_id g.quota_exhausted_models id }

  abbrev pub failed_model : GatewayDispatch → String → Option ModelProfile
  failed_model g id = find (λ m. str_eq m.id id) g.fleet

  -- `recordOutcome`
  unfoldable pub record_outcome :
      GatewayDispatch → String → Option ProviderError → ℕ → GatewayDispatch
  record_outcome g id none now = record g {
    circuit_breaker = record_success g.circuit_breaker id now;
  }
  record_outcome g id (some error) now =
      if is_cursor_quota_exhausted_error error
      then exhaust g id
      else if subscription_limit (failed_model g id) error
      then exhaust g id
      else if is_infra_error error
      then record g { circuit_breaker = record_failure g.circuit_breaker id now }
      else g

  -- `hasQuotaExhaustion`
  abbrev pub has_quota_exhaustion : GatewayDispatch → String → Bool
  has_quota_exhaustion g id = has_id g.quota_exhausted_models id

-- The answer of `consumeToken`.
pub record Bucket : Type 0 where
  pub allowed : Bool
  pub retry_after_seconds : Option ℕ

pub data RateLimited : Type 0 where
  limited : ℕ → RateLimited
  routed : RoutingDecision → RateLimited

abbrev pub is_refused : Option Bucket → Bool
is_refused none = false
is_refused (some bucket) = not bucket.allowed

abbrev retry_after : Option Bucket → ℕ
retry_after none = 0
retry_after (some bucket) = get_or bucket.retry_after_seconds 0

-- `dispatchWithRateLimit`: the bucket is none without a rate limiter, and a dispatch is run on the
-- gateway's own fleet.
unfoldable pub dispatch_with_rate_limit :
    (String → Text)
    → Option Bucket
    → FailoverDraws
    → GatewayDispatch
    → String
    → RoutingDecision
    → ℕ
    → RateLimited × GatewayDispatch
dispatch_with_rate_limit normal bucket draws g session_id decision now =
    if is_refused bucket
    then (limited (retry_after bucket), g)
    else let (final, g') = dispatch normal draws g session_id decision g.fleet now in
      (routed final, g')
