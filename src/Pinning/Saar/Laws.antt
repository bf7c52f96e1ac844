-- ===== src/Pinning/Saar/Laws.antt =====
-- What src/domain/pinning/saar-session-state.ts guarantees over a session's calls.
use pi_smart_router.Prelude.{ℕ, ◌+◌, ◌≡◌, some, List, [], ◌∷◌, leb}
use pi_smart_router.Types.{SaarConfig}
use pi_smart_router.Pinning.Saar.{
  SaarSessionStateTracker, record_turn, reset_for_idle_reopen, touch_activity,
}

pub data Call : Type 0 where
  turn reopen touch : Call

unfoldable pub step : SaarSessionStateTracker → Call × ℕ → SaarSessionStateTracker
unfolding record_turn reset_for_idle_reopen touch_activity
step tracker (turn, now) = record_turn tracker now
step tracker (reopen, now) = reset_for_idle_reopen tracker now
step tracker (touch, now) = touch_activity tracker now

unfoldable pub run : SaarSessionStateTracker → List (Call × ℕ) → SaarSessionStateTracker
unfolding step
run tracker [] = tracker
run tracker (c ∷ cs) = run (step tracker c) cs

-- Turns recorded since the last reopening.
abbrev count_turn : ℕ → Call → ℕ
count_turn n turn = n + 1
count_turn n reopen = 0
count_turn n touch = n

abbrev pub turns : ℕ → List (Call × ℕ) → ℕ
turns n [] = n
turns n ((c, now) ∷ cs) = turns (count_turn n c) cs

-- The time of the last call.
abbrev pub last_time : ℕ → List (Call × ℕ) → ℕ
last_time t [] = t
last_time t ((c, now) ∷ cs) = last_time now cs

-- The tracker has counted `n` turns, was last active at `t`, and is locked past the buffer.
pub record Tracks (config : SaarConfig) (n t : ℕ) (tracker : SaarSessionStateTracker) : Type 0 where
  pub same_config : tracker.config ≡ config
  pub counted : tracker.state.turn_index ≡ n
  pub locked : tracker.state.hard_lock ≡ leb config.planning_turn_buffer n
  pub active : tracker.state.last_activity_at ≡ some t
