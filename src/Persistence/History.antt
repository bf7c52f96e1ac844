-- ===== src/Persistence/History.antt =====
-- The retention of the in-memory histories: telemetry-limits.ts, dataset-limits.ts and outcome-limits.ts
-- of src/infrastructure/telemetry. An entry gives its timestamp by a function; `now` is the clock.
pub mod Room
use pi_smart_router.Prelude.{
  ℕ, ◌+◌, ◌*◌, Bool, List, [], ◌∷◌, ◌++◌, length, ltb, leb, if◌then◌else◌,
}

-- `TELEMETRY_WINDOW_MS`
abbrev pub telemetry_window : ℕ
telemetry_window = 168 * 60 * 60 * 1000

abbrev pub telemetry_max_entries : ℕ
telemetry_max_entries = 1111

-- `DATASET_WINDOW_MS`, which is also the window of the outcomes.
abbrev pub dataset_window : ℕ
dataset_window = 30 * 24 * 60 * 60 * 1000

abbrev pub dataset_max_entries : ℕ
dataset_max_entries = 10000

abbrev pub outcome_max_entries : ℕ
outcome_max_entries = dataset_max_entries

abbrev pub default_history_limit : ℕ
default_history_limit = 10

abbrev pub max_history_limit : ℕ
max_history_limit = 100

module _ {E : Type 0} (timestamp : E → ℕ) where
  -- The loop that shifts entries while the oldest is older than the window.
  unfoldable pub evict_expired_entries : (window now : ℕ) → List E → List E
  evict_expired_entries window now [] = []
  evict_expired_entries window now (oldest ∷ entries) =
      let rest = evict_expired_entries window now entries in
      if ltb (timestamp oldest + window) now then rest else oldest ∷ entries

module _ {E : Type 0} where
  -- The loop that shifts entries while there are at least `max_entries`, which is positive.
  unfoldable pub shift_to_room : ℕ → List E → List E
  shift_to_room max_entries [] = []
  shift_to_room max_entries (oldest ∷ entries) =
      let rest = shift_to_room max_entries entries in
      if leb max_entries (length (oldest ∷ entries)) then rest else oldest ∷ entries

module _ {E : Type 0} (timestamp : E → ℕ) where
  -- The room of each of the three histories.
  unfoldable pub leave_room : (window max_entries now : ℕ) → List E → List E
  unfolding evict_expired_entries shift_to_room
  leave_room window max_entries now entries =
      shift_to_room max_entries (evict_expired_entries timestamp window now entries)

  abbrev pub make_telemetry_room : (now : ℕ) → List E → List E
  make_telemetry_room now entries = leave_room telemetry_window telemetry_max_entries now entries

  abbrev pub make_dataset_room : (now : ℕ) → List E → List E
  make_dataset_room now entries = leave_room dataset_window dataset_max_entries now entries

  abbrev pub make_outcome_room : (now : ℕ) → List E → List E
  make_outcome_room now entries = leave_room dataset_window outcome_max_entries now entries
