-- ===== src/Routing/Prewarm/Trips.antt =====
-- Histories of attempts on the guard of src/domain/routing/speculative-prewarm.ts.
use pi_smart_router.Prelude.{
  ◌*◌, ◌<◌, ◌≤◌, length, ◌≡◌, ◌↔◌, refl, sym, ap, ◌∙◌, inl, inr, String, Bool, true, false, Option,
  none, some, List, [], ◌∷◌, ◌++◌, append-nil, arith, str_eq, eq_iff, eq_refl, Bool-cases,
  if◌then◌else◌,
}
use pi_smart_router.Prelude.Table.{get}
use pi_smart_router.Routing.Prewarm.{
  SpeculativePrewarmConfig, SpeculativePrewarmGuard, window_of, session_window_size, is_warm,
  is_low, accepted_count, push_outcome, disabled_reason, PrewarmReason,
  prewarm_disabled_low_acceptance,
}
use pi_smart_router.Routing.Prewarm.Window.{last_n, length-last_n, push-last_n}
use pi_smart_router.Routing.Prewarm.Guard.{
  Call, run_call, outcomes_of, outcomes_of-append, History, fresh, then_, config-History,
  run_disabled, run_open, window_recorded, disabled_recorded, call_apart,
}

module _ (config : SpeculativePrewarmConfig) (on : config.enabled ≡ true) where
  -- What a guard has of a session that is not disabled: the last outcomes of its history.
  Remembers : String → List Call → SpeculativePrewarmGuard → Type 0
  Remembers id calls guard =
      get id guard.session_disabled ≡ none
      → window_of guard id ≡ last_n session_window_size (outcomes_of id calls)

  -- A session of the history that is not disabled, and the one call more.
  own_call :
      (calls : List Call) (guard : SpeculativePrewarmGuard) (c : Call) (id : String)
      → str_eq c.session id ≡ true
      → outcomes_of id (calls ++ (c ∷ [])) ≡ outcomes_of id calls ++ (is_warm c.raced ∷ [])
  own_call calls guard c id own = outcomes_of-append id calls (c ∷ []) ∙ rw own refl

  foreign_call :
      (calls : List Call) (c : Call) (id : String)
      → str_eq c.session id ≡ false
      → outcomes_of id (calls ++ (c ∷ [])) ≡ outcomes_of id calls
  foreign_call calls c id foreign =
      outcomes_of-append id calls (c ∷ []) ∙ rw foreign (append-nil (outcomes_of id calls))

  enabled_after :
      (calls : List Call) (guard : SpeculativePrewarmGuard)
      → History config calls guard
      → guard.config.enabled ≡ true
  enabled_after calls guard h = ap (λ c. c.enabled) (config-History config calls guard h) ∙ on

  -- The window of a session after one call more of it, where neither disables it before.
  window_next :
      (calls : List Call) (guard : SpeculativePrewarmGuard) (c : Call)
      → History config calls guard
      → Remembers c.session calls guard
      → get c.session guard.session_disabled ≡ none
      → push_outcome (window_of guard c.session) (is_warm c.raced)
        ≡ last_n session_window_size (outcomes_of c.session (calls ++ (c ∷ [])))
  unfolding Remembers
  window_next calls guard c h remembers open_session =
      ap (λ w. push_outcome w (is_warm c.raced)) (remembers open_session)
      ∙ push-last_n (outcomes_of c.session calls) (is_warm c.raced)
      ∙ ap (last_n session_window_size) (sym (own_call calls guard c c.session (eq_refl c.session)))

  own-Remembers :
      (calls : List Call) (guard : SpeculativePrewarmGuard) (c : Call)
      → History config calls guard
      → Remembers c.session calls guard
      → (reason : Option PrewarmReason) → get c.session guard.session_disabled ≡ reason
      → Remembers c.session (calls ++ (c ∷ [])) (run_call guard c)
  unfolding Remembers
  own-Remembers calls guard c h before (some reason) e = λ still_open.
      let same = run_disabled guard c (enabled_after calls guard h) reason e in
      cc (e, ap (λ g. get c.session g.session_disabled) same, still_open)
  own-Remembers calls guard c h before none e = λ still_open.
      ap (λ g. window_of g c.session) (run_open guard c (enabled_after calls guard h) e)
      ∙ window_recorded guard c.session (is_warm c.raced) e
      ∙ window_next calls guard c h before e

  remembers :
      (calls : List Call) (guard : SpeculativePrewarmGuard) (id : String)
      → History config calls guard
      → Remembers id calls guard
  unfolding Remembers get
  remembers calls guard id fresh = λ _. refl
  remembers calls guard id (then_ cs g c h) = elim (Bool-cases (str_eq c.session id)) [
    | inr foreign ↦
        let (outcomes, disabled) = call_apart g c id foreign in
        rw (foreign_call cs c id foreign, outcomes, disabled) (remembers cs g id h)
    | inl own ↦
        let same : c.session ≡ id = (eq_iff c.session id).0 own in
        rw (← same) (
          own-Remembers cs g c h (remembers cs g c.session h) (get c.session g.session_disabled)
            refl)
  ]

  -- Whether the last outcomes of a session, one call more included, are low.
  abbrev low_after : List Call → Call → Bool
  low_after calls c =
      is_low config (last_n session_window_size (outcomes_of c.session (calls ++ (c ∷ []))))

  after_call :
      (calls : List Call) (guard : SpeculativePrewarmGuard) (c : Call)
      → History config calls guard
      → get c.session guard.session_disabled ≡ none
      → get c.session (run_call guard c).session_disabled
        ≡ (if low_after calls c then some prewarm_disabled_low_acceptance else none)
  after_call calls guard c h open_session =
      let id = c.session in
      ap (λ g. get id g.session_disabled)
        (run_open guard c (enabled_after calls guard h) open_session)
      ∙ disabled_recorded guard id (is_warm c.raced) open_session
      ∙ ap
          (λ k.
            if is_low k (push_outcome (window_of guard id) (is_warm c.raced))
            then some prewarm_disabled_low_acceptance
            else none)
          (config-History config calls guard h)
      ∙ ap (λ w. if is_low config w then some prewarm_disabled_low_acceptance else none)
          (window_next calls guard c h (remembers calls guard id h) open_session)

  -- The last 16 outcomes of the session, one call more included, are enough of them, and the share of
  -- the accepted ones is below the guard band.
  abbrev pub LowAfter : List Call → Call → Type 0
  LowAfter calls c =
      let last = last_n 16 (outcomes_of c.session (calls ++ (c ∷ []))) in
      (config.min_attempts_before_guard ≤ length last)
      × (accepted_count last * 1000 < config.min_acceptance_rate * length last)

  is_low_iff :
      (last : List Bool)
      → (is_low config last ≡ true) ↔ (
          (config.min_attempts_before_guard ≤ length last)
          × (accepted_count last * 1000 < config.min_acceptance_rate * length last))
  is_low_iff last = ground arith

  -- After any attempts on an enabled guard, one more attempt of a session that is not disabled
  -- disables it exactly where the last 16 outcomes of its history are at least the configured number
  -- and their acceptance rate is below the guard band.
  pub guard_trips_iff :
      (calls : List Call) (guard : SpeculativePrewarmGuard) (c : Call)
      → History config calls guard
      → disabled_reason guard c.session ≡ none
      → (disabled_reason (run_call guard c) c.session ≡ some prewarm_disabled_low_acceptance)
        ↔ LowAfter calls c
  unfolding disabled_reason
  guard_trips_iff calls guard c h open_session =
      let after = after_call calls guard c h open_session in
      let (to, from) = is_low_iff (last_n 16 (outcomes_of c.session (calls ++ (c ∷ [])))) in
      let (trips, low) = either (low_after calls c) in
      rw after (λ e. to (trips e), λ e. low (from e))
    where
      either :
          (low : Bool)
          → ((if low then some prewarm_disabled_low_acceptance else none)
              ≡ some prewarm_disabled_low_acceptance)
            ↔ (low ≡ true)
      either low = ground arith

  never_low :
      (calls : List Call) (c : Call)
      → session_window_size < config.min_attempts_before_guard
      → low_after calls c ≡ false
  never_low calls c large =
      let short = length-last_n session_window_size (outcomes_of c.session (calls ++ (c ∷ []))) in
      ground (arith, short, large)

  -- Where the configured number of attempts is more than the 16 outcomes that a session keeps, the
  -- guard never disables a session, however low its acceptance is.
  pub never_disabled :
      (calls : List Call) (guard : SpeculativePrewarmGuard) (id : String)
      → History config calls guard
      → session_window_size < config.min_attempts_before_guard
      → disabled_reason guard id ≡ none
  unfolding disabled_reason get
  never_disabled calls guard id fresh large = refl
  never_disabled calls guard id (then_ cs g c h) large = elim (Bool-cases (str_eq c.session id)) [
    | inr foreign ↦ (call_apart g c id foreign).1 ∙ never_disabled cs g id h large
    | inl own ↦
        let same : c.session ≡ id = (eq_iff c.session id).0 own in
        rw (← same) (
          after_call cs g c h (never_disabled cs g c.session h large)
          ∙ rw (never_low cs c large) refl)
  ]
