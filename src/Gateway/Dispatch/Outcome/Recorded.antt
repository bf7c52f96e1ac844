-- ===== src/Gateway/Dispatch/Outcome/Recorded.antt =====
-- What the outcomes that are recorded in src/infrastructure/gateway/gateway-dispatch.ts add up to.
use pi_smart_router.Prelude.{
  ℕ, ◌≡◌, refl, ◌∙◌, inl, inr, String, Bool, true, false, ◌&&◌, ◌||◌, Option, none, some, List, [],
  ◌∷◌, ◌++◌, any, arith, str_eq, eq_iff, if◌then◌else◌, Bool-cases, find,
}
use pi_smart_router.Prelude.Table.{get}
use pi_smart_router.Types.{Text, ModelProfile}
use pi_smart_router.Gateway.CircuitBreaker.{
  CircuitBreaker, ProviderError, is_infra_error, CircuitBreakerConfig, CircuitEntry,
}
use pi_smart_router.Gateway.CircuitBreaker.Transitions.{
  Call, succeeds, fails, run_call, entry_call, get-run_call,
}
use pi_smart_router.Gateway.CircuitBreaker.Invariant.{config-run_call}
use pi_smart_router.Gateway.Dispatch.{GatewayDispatch, has_id}
use pi_smart_router.Gateway.Dispatch.Outcome.{
  add_id, is_cursor_quota_exhausted_error, subscription_limit, record_outcome, has_quota_exhaustion,
}

-- A provider's answer that is recorded: none is a success.
pub record Reported : Type 0 where
  pub model_id : String
  pub error : Option ProviderError
  pub at : ℕ

or_assoc : (a b c : Bool) → ((a || b) || c) ≡ (a || (b || c))
or_assoc true b c = refl
or_assoc false b c = refl

any-snoc :
    (p : String → Bool) (ids : List String) (id : String)
    → any p (ids ++ (id ∷ [])) ≡ (any p ids || p id)
any-snoc p [] id = ground arith
any-snoc p (i ∷ ids) id = rw (any-snoc p ids id) (ground arith)

has_id-add_id :
    (ids : List String) (id other : String)
    → has_id (add_id ids id) other ≡ (has_id ids other || str_eq id other)
has_id-add_id ids id other = elim (Bool-cases (has_id ids id)) [
  | inr new ↦ rw new (any-snoc (λ i. str_eq i other) ids id)
  | inl known ↦ elim (Bool-cases (str_eq id other)) [
    | inl same ↦
        let there : has_id ids other ≡ true = rw ((eq_iff id other).0 same) at known in
        rw (known, same, there) refl
    | inr apart ↦ rw (known, apart) (ground arith)
  ]
]

get-run_call_other :
    (c : Call) (cb : CircuitBreaker) (id other : String) (now : ℕ)
    → get other (run_call c cb id now).circuits ≡ (
        if str_eq id other
        then entry_call c cb.config now (get other cb.circuits)
        else get other cb.circuits)
get-run_call_other c cb id other now = elim (Bool-cases (str_eq id other)) [
  | inr apart ↦ get-run_call c cb id other now ∙ rw apart refl
  | inl same ↦ get-run_call c cb id other now ∙ rw (same, (eq_iff id other).0 same) refl
]

module _ (normal : String → Text) (quota_message limit_message : String → Bool) where
  -- The outcomes are recorded one after the other.
  unfoldable pub record_outcomes : GatewayDispatch → List Reported → GatewayDispatch
  record_outcomes g [] = g
  record_outcomes g (r ∷ rs) =
      record_outcomes (record_outcome normal quota_message limit_message g r.model_id r.error r.at)
        rs

  -- The error says that a quota is used up.
  abbrev is_quota_error : Option ModelProfile → Option ProviderError → Bool
  is_quota_error model none = false
  is_quota_error model (some error) =
      is_cursor_quota_exhausted_error normal quota_message limit_message error
      || subscription_limit normal quota_message limit_message model error

  abbrev pub is_quota_report : List ModelProfile → Reported → Bool
  is_quota_report fleet r = is_quota_error (find (λ m. str_eq m.id r.model_id) fleet) r.error

  -- What a circuit sees of an outcome that is no quota error.
  abbrev circuit_sees :
      CircuitBreakerConfig → ℕ → Option ProviderError → Option CircuitEntry → Option CircuitEntry
  circuit_sees config now none found = entry_call succeeds config now found
  circuit_sees config now (some error) found =
      if is_infra_error error then entry_call fails config now found else found

  -- A model's circuit after outcomes of which it sees its own only, and no quota error.
  abbrev pub circuit_after :
      List ModelProfile
      → CircuitBreakerConfig
      → String
      → Option CircuitEntry
      → List Reported
      → Option CircuitEntry
  circuit_after fleet config id found [] = found
  circuit_after fleet config id found (r ∷ rs) =
      circuit_after fleet config id
        (if is_quota_report fleet r
          then found
          else if str_eq r.model_id id
          then circuit_sees config r.at r.error found
          else found)
        rs

  -- What one outcome leaves of the gateway.
  abbrev Step : GatewayDispatch → Reported → GatewayDispatch → Type 0
  Step g r g' =
      (g'.fleet ≡ g.fleet)
      × (g'.circuit_breaker.config ≡ g.circuit_breaker.config)
      × ((id : String)
          → has_id g'.quota_exhausted_models id ≡ (
              has_id g.quota_exhausted_models id
              || (is_quota_report g.fleet r && str_eq r.model_id id)))
      × ((id : String)
          → get id g'.circuit_breaker.circuits ≡ (
              if is_quota_report g.fleet r
              then get id g.circuit_breaker.circuits
              else if str_eq r.model_id id
              then circuit_sees g.circuit_breaker.config r.at r.error
                  (get id g.circuit_breaker.circuits)
              else get id g.circuit_breaker.circuits))

  ignored : (b : Bool) {A : Type 0} (x : A) → x ≡ (if b then x else x)
  ignored true x = refl
  ignored false x = refl

  record_outcome-Step :
      (g : GatewayDispatch) (id : String) (error : Option ProviderError) (now : ℕ)
      → Step g
          (record { model_id = id; error = error; at = now })
          (record_outcome normal quota_message limit_message g id error now)
  unfolding record_outcome run_call
  record_outcome-Step g id none now = (
    refl,
    config-run_call succeeds g.circuit_breaker id now,
    λ other. ground arith,
    λ other. get-run_call_other succeeds g.circuit_breaker id other now,
  )
  record_outcome-Step g id (some error) now =
      let limit =
        subscription_limit normal quota_message limit_message (find (λ m. str_eq m.id id) g.fleet)
          error in
      elim (Bool-cases (is_cursor_quota_exhausted_error normal quota_message limit_message error)) [
        | inl quota ↦ rw quota (refl, refl, λ other. has_id-add_id _ id other, λ other. refl)
        | inr fine ↦ elim (Bool-cases limit) [
          | inl limited ↦
              rw (fine, limited) (refl, refl, λ other. has_id-add_id _ id other, λ other. refl)
          | inr free ↦ elim (Bool-cases (is_infra_error error)) [
            | inl infra ↦
                rw (fine, free, infra)
                  (
                    refl,
                    config-run_call fails g.circuit_breaker id now,
                    λ other. ground arith,
                    λ other. get-run_call_other fails g.circuit_breaker id other now,
                  )
            | inr rest ↦
                rw (fine, free, rest)
                  (refl, refl, λ other. ground arith, λ other. ignored (str_eq id other) _)
          ]
        ]
      ]

  -- After any outcomes a model counts as without quota exactly where it did before or one of its own
  -- outcomes was a quota error: a Cursor quota error, or status 429 of a subscription model. Its circuit
  -- has seen exactly its own successes and its own infrastructure errors that are no quota errors, in
  -- order.
  pub record_outcomes_separate :
      (g : GatewayDispatch) (rs : List Reported) (id : String)
      → let g' = record_outcomes g rs in
        (has_quota_exhaustion normal quota_message limit_message g' id ≡ (
          has_quota_exhaustion normal quota_message limit_message g id
          || any (λ r. is_quota_report g.fleet r && str_eq r.model_id id) rs))
        × (get id g'.circuit_breaker.circuits
            ≡ circuit_after g.fleet g.circuit_breaker.config id
                (get id g.circuit_breaker.circuits)
                rs)
  unfolding record_outcomes
  record_outcomes_separate g [] id = (ground arith, refl)
  record_outcomes_separate g (r ∷ rs) id =
      let g' = record_outcome normal quota_message limit_message g r.model_id r.error r.at in
      let (same_fleet, same_config, quota, circuit) =
        record_outcome-Step g r.model_id r.error r.at in
      let (later_quota, later_circuit) = record_outcomes_separate g' rs id in
      (
        later_quota ∙ rw (same_fleet, quota id) (or_assoc (has_id g.quota_exhausted_models id) _ _),
        later_circuit ∙ rw (same_fleet, same_config, circuit id) refl,
      )
