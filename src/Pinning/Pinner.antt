-- ===== src/Pinning/Pinner.antt =====
-- src/domain/pinning/session-pinner.ts: the state of `SessionPinner` and the methods that write it.
-- The store is a parameter, and the clock reading of a call is its argument `now`.
pub mod Rules
pub mod Lookup
pub mod State
pub mod Settled
pub mod Outcome
pub mod RuleRouted
pub mod Routed
pub mod RuleHonoured
pub mod Honoured
use pi_smart_router.Prelude.{
  ℕ, ◌≡◌, String, Bool, true, false, not, ◌||◌, Option, none, some, List, [], get_or, str_eq,
  if◌then◌else◌,
}
use pi_smart_router.Prelude.Table.{Table, get, set, delete}
use pi_smart_router.Types.{
  ModelProfile, PinReason, SaarConfig, SaarSessionState, SessionPin, FailureSignature,
}
use pi_smart_router.Persistence.StorePort.{StorePort}
use pi_smart_router.Pinning.FlipFlop.{
  FlipFlopGuard, FlipFlopObservation, FlipFlopSessionState, new_guard, clear_session, get_state,
}
use pi_smart_router.Pinning.Saar.{SaarSessionStateTracker, no_initial, new_tracker, record_turn}
use pi_smart_router.Pinning.Economics.{CacheEconomicsConfig, default_cache_economics}

-- The safety margin is in thousandths.
pub record SessionPinner (Store : Type 0) : Type 0 where
  pub pins : Table SessionPin
  pub saar_trackers : Table SaarSessionStateTracker
  pub flip_flop_guard : FlipFlopGuard
  pub tool_result_size_threshold : ℕ
  pub store : Option Store
  pub cache_economics_config : Option CacheEconomicsConfig
  pub saar_config : Option SaarConfig
  pub pin_only_fallback : Bool
  pub context_overflow_safety_margin : ℕ
  pub last_fleet : Option (List ModelProfile)
  pub last_flip_flop_observation : Option FlipFlopObservation

-- `SessionPinnerConfig`
pub record SessionPinnerConfig (Store : Type 0) : Type 0 where
  pub tool_result_size_threshold : Option ℕ
  pub store : Option Store
  pub cache_economics_config : Option CacheEconomicsConfig
  pub saar_config : Option SaarConfig
  pub pin_only_fallback : Option Bool
  pub context_overflow_safety_margin : Option ℕ
  pub flip_flop_guard : Option FlipFlopGuard

abbrev pub default_saar_config : SaarConfig
default_saar_config = record {
  planning_turn_buffer = 2;
  prefix_cache_weight = 200;
  idle_timeout_seconds = 300;
  switch_threshold = 500;
}

unfoldable pub new_pinner : {Store : Type 0} → SessionPinnerConfig Store → SessionPinner Store
new_pinner config = record {
  pins = [];
  saar_trackers = [];
  flip_flop_guard = get_or config.flip_flop_guard (new_guard none);
  tool_result_size_threshold = get_or config.tool_result_size_threshold 2048;
  store = config.store;
  cache_economics_config = config.cache_economics_config;
  saar_config = config.saar_config;
  pin_only_fallback = get_or config.pin_only_fallback false;
  context_overflow_safety_margin = get_or config.context_overflow_safety_margin 900;
  last_fleet = none;
  last_flip_flop_observation = none;
}

-- `existing ? existing.pinned_model_id !== modelId || existing.has_ever_switched : false`
switched : Option SessionPin → String → Bool
switched none model_id = false
switched (some existing) model_id =
    not (str_eq existing.pinned_model_id model_id) || existing.has_ever_switched

abbrev tool_failures : Option SessionPin → ℕ
tool_failures none = 0
tool_failures (some existing) = existing.consecutive_tool_failures

abbrev failure_signature : Option SessionPin → Option FailureSignature
failure_signature none = none
failure_signature (some existing) = existing.last_tool_failure_signature

abbrev creation_time : Option SessionPin → ℕ → ℕ
creation_time none now = now
creation_time (some existing) now = existing.created_at

-- The pin that `recordPin` makes, from the one there is.
unfoldable pub next_pin : Option SessionPin → String → String → PinReason → ℕ → SessionPin
unfolding switched
next_pin existing session_id model_id reason now = record {
  session_id = session_id;
  pinned_model_id = model_id;
  pin_reason = reason;
  has_ever_switched = switched existing model_id;
  consecutive_upstream_errors = 0;
  consecutive_tool_failures = tool_failures existing;
  last_tool_failure_signature = failure_signature existing;
  created_at = creation_time existing now;
  updated_at = now;
}

module _ (port : StorePort) where
  open port use {Store, get_session_pin, put_session_pin, delete_session_pin}

  -- `persistPin`
  abbrev pub persist_pin : Option Store → SessionPin → Option Store
  persist_pin none pin = none
  persist_pin (some s) pin = some (put_session_pin s pin)

  -- `deletePersistedPin`
  abbrev pub delete_persisted_pin : Option Store → String → Option Store
  delete_persisted_pin none id = none
  delete_persisted_pin (some s) id = some (delete_session_pin s id)

  unfoldable pub record_pin :
      SessionPinner Store → String → String → PinReason → ℕ → SessionPinner Store
  record_pin p session_id model_id reason now =
      let pin : SessionPin = next_pin (get session_id p.pins) session_id model_id reason now in
      record p { pins = set session_id pin p.pins; store = persist_pin p.store pin }

  unfoldable pub break_pin : SessionPinner Store → String → SessionPinner Store
  break_pin p session_id = record p {
    pins = delete session_id p.pins;
    saar_trackers = delete session_id p.saar_trackers;
    flip_flop_guard = clear_session p.flip_flop_guard session_id;
    store = delete_persisted_pin p.store session_id;
  }

  unfoldable pub load_pin : SessionPinner Store → SessionPin → SessionPinner Store
  load_pin p pin = record p {
    pins = set pin.session_id pin p.pins;
    store = persist_pin p.store pin;
  }

  -- What the store has for a session, if there is a store.
  abbrev stored : Option Store → String → Option SessionPin
  stored none id = none
  stored (some s) id = get_session_pin s id

  unfoldable pub restore_session_pin : SessionPinner Store → String → SessionPinner Store
  restore_session_pin p session_id = elim (stored p.store session_id) [
    | none ↦ p
    | some pin ↦ record p { pins = set session_id pin p.pins }
  ]

abbrev tracker_state : Option SaarSessionStateTracker → Option SaarSessionState
tracker_state none = none
tracker_state (some tracker) = some tracker.state

module _ {Store : Type 0} where
  unfoldable pub get_pin : SessionPinner Store → String → Option SessionPin
  get_pin p session_id = get session_id p.pins

  -- The tracker of `getOrCreateSaarTracker`, which stores a new one.
  unfoldable pub tracker_of : SessionPinner Store → String → ℕ → SaarSessionStateTracker
  tracker_of p session_id now =
      get_or (get session_id p.saar_trackers)
        (new_tracker (get_or p.saar_config default_saar_config) no_initial now)

  abbrev pub put_tracker :
      SessionPinner Store → String → SaarSessionStateTracker → SessionPinner Store
  put_tracker p session_id tracker = record p {
    saar_trackers = set session_id tracker p.saar_trackers;
  }

  unfoldable pub record_saar_turn : SessionPinner Store → String → ℕ → SessionPinner Store
  record_saar_turn p session_id now = elim p.saar_config [
    | none ↦ p
    | some config ↦ put_tracker p session_id (record_turn (tracker_of p session_id now) now)
  ]

  unfoldable pub get_saar_state : SessionPinner Store → String → Option SaarSessionState
  get_saar_state p session_id = tracker_state (get session_id p.saar_trackers)

  unfoldable pub get_flip_flop_state : SessionPinner Store → String → Option FlipFlopSessionState
  get_flip_flop_state p session_id = get_state p.flip_flop_guard session_id
