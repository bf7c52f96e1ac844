-- ===== src/Gateway/CircuitBreaker/Asked.antt =====
-- Asking the breaker of src/infrastructure/gateway/circuit-breaker.ts changes none of its answers at
-- the same time.
use pi_smart_router.Prelude.{
  ℕ, ◌+◌, ◌≡◌, refl, sym, ap, ◌∙◌, inl, inr, String, Bool, true, false, Option, none, some, leb,
  is_some, get_or, str_eq, eq_iff, Option-cases, Bool-cases, if◌then◌else◌,
}
use pi_smart_router.Prelude.Table.{get}
use pi_smart_router.Gateway.CircuitBreaker.{
  CircuitBreaker, CircuitBreakerConfig, CircuitEntry, CircuitState, closed, open_, half_open,
  can_dispatch, entry_can_dispatch,
}
use pi_smart_router.Gateway.CircuitBreaker.Transitions.{
  dispatches, run_call, entry_call, get-run_call,
}
use pi_smart_router.Gateway.CircuitBreaker.Invariant.{config-run_call}

-- The answer for what the breaker has of a model.
answer : CircuitBreakerConfig → ℕ → Option CircuitEntry → Bool
answer config now none = true
answer config now (some entry) =
    is_some (entry_can_dispatch entry.state entry config.reset_timeout_ms now)

asked_twice :
    (state : CircuitState) (entry : CircuitEntry) (reset now : ℕ)
    → entry.state ≡ state
    → let changed = get_or (entry_can_dispatch state entry reset now) entry in
      is_some (entry_can_dispatch changed.state changed reset now)
      ≡ is_some (entry_can_dispatch state entry reset now)
unfolding entry_can_dispatch
asked_twice closed entry reset now e = rw e refl
asked_twice half_open entry reset now e = rw e refl
asked_twice open_ entry reset now e =
    elim (Bool-cases (leb (entry.last_state_change_at + reset) now)) [
      | inl due ↦ rw due refl
      | inr early ↦ rw (early, e) (rw early refl)
    ]

answer-entry_call :
    (config : CircuitBreakerConfig) (now : ℕ) (o : Option CircuitEntry)
    → answer config now (entry_call dispatches config now o) ≡ answer config now o
unfolding answer entry_call
answer-entry_call config now none = refl
answer-entry_call config now (some entry) =
    asked_twice entry.state entry config.reset_timeout_ms now refl

can_dispatch-answer :
    (cb : CircuitBreaker) (id : String) (now : ℕ)
    → (can_dispatch cb id now).0 ≡ answer cb.config now (get id cb.circuits)
unfolding can_dispatch answer
can_dispatch-answer cb id now = elim (Option-cases (get id cb.circuits)) [
  | inl e ↦ rw (e, can_dispatch) refl
  | inr (entry, e) ↦
      elim (Option-cases (entry_can_dispatch entry.state entry cb.config.reset_timeout_ms now)) [
        | inl refused ↦ rw (e, can_dispatch) (rw (refused, can_dispatch) refl)
        | inr (changed, allowed) ↦ rw (e, can_dispatch) (rw (allowed, can_dispatch) refl)
      ]
]

-- Asking for one model changes the answer for none.
pub can_dispatch_stable :
    (cb : CircuitBreaker) (id other : String) (now : ℕ)
    → (can_dispatch (can_dispatch cb id now).1 other now).0 ≡ (can_dispatch cb other now).0
unfolding run_call
can_dispatch_stable cb id other now =
    let found = get-run_call dispatches cb id other now in
    let config = config-run_call dispatches cb id now in
    can_dispatch-answer (can_dispatch cb id now).1 other now
    ∙ ap (λ k. answer k now (get other (can_dispatch cb id now).1.circuits)) config
    ∙ ap (answer cb.config now) found
    ∙ either (str_eq id other) refl
    ∙ sym (can_dispatch-answer cb other now)
  where
    either :
        (b : Bool)
        → str_eq id other ≡ b
        → answer cb.config now (
            if b
            then entry_call dispatches cb.config now (get id cb.circuits)
            else get other cb.circuits)
          ≡ answer cb.config now (get other cb.circuits)
    either true e =
        answer-entry_call cb.config now (get id cb.circuits)
        ∙ ap (λ i. answer cb.config now (get i cb.circuits)) ((eq_iff id other).0 e)
    either false e = refl
