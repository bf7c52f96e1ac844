-- ===== src/Routing/Prewarm/Guard.antt =====
-- When the guard of src/domain/routing/speculative-prewarm.ts disables a session.
use pi_smart_router.Prelude.{
  ℕ, ◌≡◌, refl, ap, ◌∙◌, inl, inr, String, Bool, true, false, Option, none, some, List, [], ◌∷◌,
  ◌++◌, is_some, arith, str_eq, eq_refl, Bool-cases, if◌then◌else◌,
}
use pi_smart_router.Prelude.Table.{get, set, get-set}
use pi_smart_router.Routing.Prewarm.{
  SpeculativePrewarmConfig, SpeculativePrewarmGuard, PrewarmTarget, Raced, new_guard, window_of,
  is_warm, is_low, push_outcome, record_outcome, disabled_reason, attempt, attempt_on,
  PrewarmReason, prewarm_disabled_low_acceptance,
}

-- An attempt, by its arguments.
pub record Call : Type 0 where
  pub session : String
  pub target : PrewarmTarget
  pub raced : Raced
  pub start : ℕ
  pub end : ℕ

abbrev pub run_call : SpeculativePrewarmGuard → Call → SpeculativePrewarmGuard
run_call guard c = (attempt guard c.session c.target c.raced c.start c.end).1

-- The outcomes of a session in a history of attempts.
abbrev pub outcomes_of : String → List Call → List Bool
outcomes_of id [] = []
outcomes_of id (c ∷ cs) =
    let rest = outcomes_of id cs in if str_eq c.session id then is_warm c.raced ∷ rest else rest

pub outcomes_of-append :
    (id : String) (xs ys : List Call)
    → outcomes_of id (xs ++ ys) ≡ outcomes_of id xs ++ outcomes_of id ys
outcomes_of-append id [] ys = refl
outcomes_of-append id (c ∷ cs) ys = elim (Bool-cases (str_eq c.session id)) [
  | inl own ↦ rw (own, outcomes_of-append id cs ys)
  | inr foreign ↦ rw (foreign, outcomes_of-append id cs ys)
]

-- The guards that a history of attempts leads to.
pub data History (config : SpeculativePrewarmConfig)
    : List Call → SpeculativePrewarmGuard → Type 0 where
  fresh : History config [] (new_guard (some config))
  then_ :
      (calls : List Call) (guard : SpeculativePrewarmGuard) (c : Call)
      → History config calls guard
      → History config (calls ++ (c ∷ [])) (run_call guard c)

config-run_call :
    (guard : SpeculativePrewarmGuard) (c : Call) → (run_call guard c).config ≡ guard.config
unfolding attempt record_outcome
config-run_call guard c = ground arith

pub config-History :
    (config : SpeculativePrewarmConfig) (calls : List Call) (guard : SpeculativePrewarmGuard)
    → History config calls guard
    → guard.config ≡ config
config-History config calls guard fresh = refl
config-History config calls guard (then_ cs g c h) =
    config-run_call g c ∙ config-History config cs g h

module _ (guard : SpeculativePrewarmGuard) (c : Call) (on : guard.config.enabled ≡ true) where
  after_attempt : Bool → Option PrewarmReason → SpeculativePrewarmGuard
  after_attempt enabled reason =
      (attempt_on enabled reason guard c.session c.target c.raced c.start c.end).1

  as_attempted :
      (reason : Option PrewarmReason)
      → get c.session guard.session_disabled ≡ reason
      → run_call guard c ≡ after_attempt true reason
  unfolding attempt disabled_reason after_attempt
  as_attempted reason e =
      ap (λ b. after_attempt b (get c.session guard.session_disabled)) on
      ∙ ap (after_attempt true) e

  -- A disabled session stays as it is.
  pub run_disabled :
      (reason : PrewarmReason)
      → get c.session guard.session_disabled ≡ some reason
      → run_call guard c ≡ guard
  unfolding after_attempt
  run_disabled reason e = as_attempted (some reason) e

  pub run_open :
      get c.session guard.session_disabled ≡ none
      → run_call guard c ≡ record_outcome guard c.session (is_warm c.raced)
  unfolding after_attempt
  run_open e = as_attempted none e

module _ (guard : SpeculativePrewarmGuard) (id : String) (b : Bool)
    (open_session : get id guard.session_disabled ≡ none) where
  -- The recorded outcome of a session that is not disabled.
  recorded :
      let outcomes = push_outcome (window_of guard id) b in
      record_outcome guard id b ≡ record guard {
        session_outcomes = set id outcomes guard.session_outcomes;
        session_disabled =
            if is_low guard.config outcomes
            then set id prewarm_disabled_low_acceptance guard.session_disabled
            else guard.session_disabled;
      }
  unfolding record_outcome
  recorded = rw open_session refl

  pub window_recorded :
      window_of (record_outcome guard id b) id ≡ push_outcome (window_of guard id) b
  window_recorded =
      rw
        (
          recorded,
          get-set id id (push_outcome (window_of guard id) b) guard.session_outcomes,
          eq_refl id,
        )
        refl

  pub disabled_recorded : get id (record_outcome guard id b).session_disabled ≡ (
      if is_low guard.config (push_outcome (window_of guard id) b)
      then some prewarm_disabled_low_acceptance
      else none)
  disabled_recorded =
      let low = is_low guard.config (push_outcome (window_of guard id) b) in
      rw recorded (either low)
    where
      either :
          (low : Bool)
          → get id (
              if low
              then set id prewarm_disabled_low_acceptance guard.session_disabled
              else guard.session_disabled)
            ≡ (if low then some prewarm_disabled_low_acceptance else none)
      either true =
          get-set id id prewarm_disabled_low_acceptance guard.session_disabled
          ∙ rw (eq_refl id) refl
      either false = open_session

-- The guard has the same of a session as another guard.
abbrev pub SameFor : String → SpeculativePrewarmGuard → SpeculativePrewarmGuard → Type 0
SameFor id g h =
    (get id g.session_outcomes ≡ get id h.session_outcomes)
    × (get id g.session_disabled ≡ get id h.session_disabled)

module _ (guard : SpeculativePrewarmGuard) (id other : String)
    (apart : str_eq id other ≡ false) where
  set_apart : {V : Type 0} (v : V) (m : List (String × V)) → get other (set id v m) ≡ get other m
  set_apart v m = get-set id other v m ∙ rw apart refl

  record_apart : (b : Bool) → SameFor other (record_outcome guard id b) guard
  unfolding record_outcome
  record_apart b =
      let outcomes = push_outcome (window_of guard id) b in
      elim (Bool-cases (is_some (get id guard.session_disabled))) [
        | inl closed_session ↦ rw closed_session (refl, refl)
        | inr open_session ↦ elim (Bool-cases (is_low guard.config outcomes)) [
          | inl low ↦
              rw (open_session, low)
                (
                  set_apart outcomes guard.session_outcomes,
                  set_apart prewarm_disabled_low_acceptance guard.session_disabled,
                )
          | inr high ↦ rw (open_session, high) (set_apart outcomes guard.session_outcomes, refl)
        ]
      ]

pub call_apart :
    (guard : SpeculativePrewarmGuard) (c : Call) (id : String)
    → str_eq c.session id ≡ false
    → SameFor id (run_call guard c) guard
unfolding attempt disabled_reason
call_apart guard c id apart = on (guard.config.enabled) (get c.session guard.session_disabled)
  where
    on :
        (enabled : Bool) (reason : Option PrewarmReason)
        → SameFor id
            (attempt_on enabled reason guard c.session c.target c.raced c.start c.end).1
            guard
    on false reason = (refl, refl)
    on true (some reason) = (refl, refl)
    on true none = record_apart guard c.session id apart (is_warm c.raced)
