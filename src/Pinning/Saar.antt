-- ===== src/Pinning/Saar.antt =====
-- src/domain/pinning/saar-session-state.ts. The clock reading of a call is its argument `now`.
pub mod Laws
use pi_smart_router.Prelude.{
  ℕ, ◌+◌, ◌*◌, Bool, true, false, Option, none, some, leb, ltb, get_or, if◌then◌else◌,
}
use pi_smart_router.Types.{SaarConfig, SaarSessionState}

pub record SaarSessionStateTracker : Type 0 where
  pub state : SaarSessionState
  pub config : SaarConfig

-- `options.initial`, a partial state; an absent activity time is the current one.
pub record InitialState : Type 0 where
  pub turn_index : Option ℕ
  pub hard_lock : Option Bool
  pub last_activity_at : Option (Option ℕ)

abbrev pub no_initial : InitialState
no_initial = record { turn_index = none; hard_lock = none; last_activity_at = none }

unfoldable pub new_tracker : SaarConfig → InitialState → ℕ → SaarSessionStateTracker
new_tracker config initial now = record {
  state = record {
    turn_index = get_or initial.turn_index 0;
    hard_lock = get_or initial.hard_lock false;
    last_activity_at = get_or initial.last_activity_at (some now);
  };
  config = config;
}

unfoldable pub record_turn : SaarSessionStateTracker → ℕ → SaarSessionStateTracker
record_turn tracker now =
    let next_index : ℕ = tracker.state.turn_index + 1 in
    record tracker {
      state = record {
        turn_index = next_index;
        hard_lock = leb tracker.config.planning_turn_buffer next_index;
        last_activity_at = some now;
      };
    }

unfoldable pub is_in_buffer_window : SaarSessionStateTracker → Bool
is_in_buffer_window tracker = ltb tracker.state.turn_index tracker.config.planning_turn_buffer

unfoldable pub should_hard_lock : SaarSessionStateTracker → Bool
should_hard_lock tracker = tracker.state.hard_lock

-- `now - last >= idle`, on numbers that do not go below zero.
idle_since : Option ℕ → ℕ → ℕ → Bool
idle_since none idle_ms now = false
idle_since (some last) idle_ms now = leb (last + idle_ms) now

unfoldable pub is_idle_expired : SaarSessionStateTracker → ℕ → Bool
unfolding idle_since
is_idle_expired tracker now =
    idle_since tracker.state.last_activity_at (tracker.config.idle_timeout_seconds * 1000) now

unfoldable pub reset_for_idle_reopen : SaarSessionStateTracker → ℕ → SaarSessionStateTracker
reset_for_idle_reopen tracker now = record tracker {
  state = record { turn_index = 0; hard_lock = false; last_activity_at = some now };
}

unfoldable pub touch_activity : SaarSessionStateTracker → ℕ → SaarSessionStateTracker
touch_activity tracker now =
    let state : SaarSessionState = tracker.state in
    record tracker { state = record state { last_activity_at = some now } }
