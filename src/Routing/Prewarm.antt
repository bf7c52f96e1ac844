-- ===== src/Routing/Prewarm.antt =====
-- src/domain/routing/speculative-prewarm.ts. The race of the warm call with the deadline is an
-- argument of an attempt, with the clock before and after it; a rate is a number of thousandths.
pub mod Window
pub mod Guard
pub mod Trips
use pi_smart_router.Prelude.{
  ℕ, ◌-◌, ◌*◌, String, Bool, true, false, not, ◌&&◌, Option, none, some, List, [], ◌∷◌, ◌++◌,
  length, filter, drop, get_or, is_some, ltb, if◌then◌else◌,
}
use pi_smart_router.Prelude.Table.{Table, get, set}

pub record SpeculativePrewarmConfig : Type 0 where
  pub enabled : Bool
  pub deadline_ms : ℕ
  pub min_acceptance_rate : ℕ
  pub min_attempts_before_guard : ℕ

abbrev pub default_speculative_prewarm_config : SpeculativePrewarmConfig
default_speculative_prewarm_config = record {
  enabled = false;
  deadline_ms = 50;
  min_acceptance_rate = 500;
  min_attempts_before_guard = 4;
}

pub data PrewarmTarget : Type 0 where
  local_runtime encoder : PrewarmTarget

pub data PrewarmReason : Type 0 where
  prewarm_warm prewarm_not_warm prewarm_deadline_exceeded prewarm_error : PrewarmReason
  prewarm_disabled_low_acceptance : PrewarmReason

pub record PrewarmOutcome : Type 0 where
  pub attempted : Bool
  pub accepted : Option Bool
  pub target : Option PrewarmTarget
  pub elapsed_ms : Option ℕ
  pub reason : Option PrewarmReason

abbrev pub prewarm_not_attempted : PrewarmOutcome
prewarm_not_attempted = record {
  attempted = false;
  accepted = none;
  target = none;
  elapsed_ms = none;
  reason = none;
}

-- What `Promise.race` settles with: the deadline, an error of the warm call, or its answer.
pub data Raced : Type 0 where
  timeout failed : Raced
  answered : Bool → Raced

abbrev pub session_window_size : ℕ
session_window_size = 16

pub record SpeculativePrewarmGuard : Type 0 where
  pub config : SpeculativePrewarmConfig
  pub session_outcomes : Table (List Bool)
  pub session_disabled : Table PrewarmReason

abbrev pub new_guard : Option SpeculativePrewarmConfig → SpeculativePrewarmGuard
new_guard config = record {
  config = get_or config default_speculative_prewarm_config;
  session_outcomes = [];
  session_disabled = [];
}

unfoldable pub disabled_reason : SpeculativePrewarmGuard → String → Option PrewarmReason
disabled_reason guard id = get id guard.session_disabled

unfoldable pub should_attempt : SpeculativePrewarmGuard → String → Bool
should_attempt guard id = guard.config.enabled && not (is_some (get id guard.session_disabled))

-- `this.sessionOutcomes.get(sessionId) ?? []`
abbrev pub window_of : SpeculativePrewarmGuard → String → List Bool
window_of guard id = get_or (get id guard.session_outcomes) []

pub record PrewarmSessionStats : Type 0 where
  pub attempts : ℕ
  pub accepted : ℕ
  pub disabled_reason : Option PrewarmReason

-- `outcomes.filter(Boolean).length`
abbrev pub accepted_count : List Bool → ℕ
accepted_count outcomes = length (filter (λ b. b) outcomes)

-- `sessionStats`, without the quotient of its two counts.
unfoldable pub session_stats : SpeculativePrewarmGuard → String → PrewarmSessionStats
session_stats guard id = record {
  attempts = length (window_of guard id);
  accepted = accepted_count (window_of guard id);
  disabled_reason = disabled_reason guard id;
}

abbrev pub is_warm : Raced → Bool
is_warm timeout = false
is_warm failed = false
is_warm (answered warm) = warm

abbrev raced_reason : Raced → PrewarmReason
raced_reason timeout = prewarm_deadline_exceeded
raced_reason failed = prewarm_error
raced_reason (answered true) = prewarm_warm
raced_reason (answered false) = prewarm_not_warm

unfoldable pub resolve_outcome : PrewarmTarget → ℕ → Raced → PrewarmOutcome
resolve_outcome target elapsed raced = record {
  attempted = true;
  accepted = some (is_warm raced);
  target = some target;
  elapsed_ms = some elapsed;
  reason = some (raced_reason raced);
}

-- The push, and the shift of a window that is too long.
unfoldable pub push_outcome : List Bool → Bool → List Bool
push_outcome outcomes accepted =
    let pushed : List Bool = outcomes ++ (accepted ∷ []) in
    if ltb session_window_size (length pushed) then drop 1 pushed else pushed

-- The window is long enough, and its acceptance rate is below the guard band.
abbrev pub is_low : SpeculativePrewarmConfig → List Bool → Bool
is_low config outcomes =
    not (ltb (length outcomes) config.min_attempts_before_guard)
    && ltb (accepted_count outcomes * 1000) (config.min_acceptance_rate * length outcomes)

unfoldable pub record_outcome : SpeculativePrewarmGuard → String → Bool → SpeculativePrewarmGuard
unfolding push_outcome
record_outcome guard id accepted =
    if is_some (get id guard.session_disabled)
    then guard
    else let outcomes = push_outcome (window_of guard id) accepted in
      record guard {
        session_outcomes = set id outcomes guard.session_outcomes;
        session_disabled =
            if is_low guard.config outcomes
            then set id prewarm_disabled_low_acceptance guard.session_disabled
            else guard.session_disabled;
      }

abbrev refused : PrewarmTarget → PrewarmReason → PrewarmOutcome
refused target reason = record {
  attempted = false;
  accepted = none;
  target = some target;
  elapsed_ms = none;
  reason = some reason;
}

-- `attempt`, by whether it is enabled and by the reason that disables the session; the clock does not
-- go back.
abbrev pub attempt_on :
    Bool
    → Option PrewarmReason
    → SpeculativePrewarmGuard
    → String
    → PrewarmTarget
    → Raced
    → ℕ
    → ℕ
    → PrewarmOutcome × SpeculativePrewarmGuard
attempt_on false _ guard id target raced start end = (prewarm_not_attempted, guard)
attempt_on true (some reason) guard id target raced start end = (refused target reason, guard)
attempt_on true none guard id target raced start end =
    (resolve_outcome target (end - start) raced, record_outcome guard id (is_warm raced))

unfoldable pub attempt :
    SpeculativePrewarmGuard
    → String
    → PrewarmTarget
    → Raced
    → ℕ
    → ℕ
    → PrewarmOutcome × SpeculativePrewarmGuard
unfolding disabled_reason resolve_outcome
attempt guard id target raced start end =
    attempt_on guard.config.enabled (disabled_reason guard id) guard id target raced start end
