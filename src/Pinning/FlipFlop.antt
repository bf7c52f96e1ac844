-- ===== src/Pinning/FlipFlop.antt =====
-- src/domain/pinning/flip-flop-guard.ts: consecutive tier changes of a session, and the tier pin.
pub mod Steps
pub mod Laws
use pi_smart_router.Prelude.{
  ℕ, ◌+◌, String, Bool, true, false, Option, none, some, [], leb, get_or, if◌then◌else◌,
}
use pi_smart_router.Prelude.Table.{Table, get, set, delete}
use pi_smart_router.Types.{Tier, tier_eq}

abbrev pub flip_flop_pin_threshold : ℕ
flip_flop_pin_threshold = 3

pub data FlipFlopShadowEvent : Type 0 where
  tier_flip tier_pinned_event : FlipFlopShadowEvent

pub record FlipFlopSessionState : Type 0 where
  pub last_observed_tier : Option Tier
  pub consecutive_tier_flips : ℕ
  pub tier_pinned : Option Tier

pub record FlipFlopObservation : Type 0 where
  pub tier_flip_detected : Bool
  pub consecutive_tier_flips : ℕ
  pub tier_pinned : Option Tier
  pub shadow_event : Option FlipFlopShadowEvent

abbrev pub empty_state : FlipFlopSessionState
empty_state = record { last_observed_tier = none; consecutive_tier_flips = 0; tier_pinned = none }

pub record FlipFlopGuard : Type 0 where
  pub sessions : Table FlipFlopSessionState
  pub threshold : ℕ

abbrev pub new_guard : Option ℕ → FlipFlopGuard
new_guard threshold = record { sessions = []; threshold = get_or threshold flip_flop_pin_threshold }

unfoldable pub get_state : FlipFlopGuard → String → Option FlipFlopSessionState
get_state guard id = get id guard.sessions

abbrev pinned_of : Option FlipFlopSessionState → Option Tier
pinned_of none = none
pinned_of (some state) = state.tier_pinned

unfoldable pub is_tier_pinned : FlipFlopGuard → String → Option Tier
is_tier_pinned guard id = pinned_of (get id guard.sessions)

-- The session starts a run of equal tiers.
settled : Tier → FlipFlopSessionState × FlipFlopObservation
settled observed = (
  record { last_observed_tier = some observed; consecutive_tier_flips = 0; tier_pinned = none },
  record {
    tier_flip_detected = false;
    consecutive_tier_flips = 0;
    tier_pinned = none;
    shadow_event = none;
  },
)

flipped : ℕ → ℕ → Tier → FlipFlopSessionState × FlipFlopObservation
flipped threshold consecutive observed =
    if leb threshold consecutive
    then (
      record {
        last_observed_tier = some observed;
        consecutive_tier_flips = consecutive;
        tier_pinned = some observed;
      },
      record {
        tier_flip_detected = true;
        consecutive_tier_flips = consecutive;
        tier_pinned = some observed;
        shadow_event = some tier_pinned_event;
      },
    )
    else (
      record {
        last_observed_tier = some observed;
        consecutive_tier_flips = consecutive;
        tier_pinned = none;
      },
      record {
        tier_flip_detected = true;
        consecutive_tier_flips = consecutive;
        tier_pinned = none;
        shadow_event = some tier_flip;
      },
    )

-- `observeTier` after the check for a pin, by the tier observed last.
pub compare_last : ℕ → ℕ → Option Tier → Tier → FlipFlopSessionState × FlipFlopObservation
unfolding settled flipped
compare_last threshold flips none observed = settled observed
compare_last threshold flips (some last) observed =
    if tier_eq last observed then settled observed else flipped threshold (flips + 1) observed

unfoldable pub observe_tier : FlipFlopGuard → String → Tier → FlipFlopGuard × FlipFlopObservation
unfolding compare_last
observe_tier guard id observed =
    let current : FlipFlopSessionState = get_or (get id guard.sessions) empty_state in
    elim current.tier_pinned [
      | some pinned ↦ (
        guard,
        record {
          tier_flip_detected = false;
          consecutive_tier_flips = current.consecutive_tier_flips;
          tier_pinned = some pinned;
          shadow_event = none;
        },
      )
      | none ↦
          let (next, observation) =
            compare_last guard.threshold current.consecutive_tier_flips current.last_observed_tier
              observed in
          (record guard { sessions = set id next guard.sessions }, observation)
    ]

unfoldable pub clear_session : FlipFlopGuard → String → FlipFlopGuard
clear_session guard id = record guard { sessions = delete id guard.sessions }
