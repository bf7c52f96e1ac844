-- ===== src/Pinning/FlipFlop/Steps.antt =====
-- One observation of src/domain/pinning/flip-flop-guard.ts, and a run of them.
use pi_smart_router.Prelude.{
  ℕ, ◌≤◌, ◌<◌, ◌≡◌, ◌≢◌, refl, ◌∙◌, String, none, some, List, [], ◌∷◌, inl, inr, arith, eq_iff,
  eq_refl, str_eq, get_or, if◌then◌else◌, Option-cases,
}
use pi_smart_router.Prelude.Table.{get, get-set}
use pi_smart_router.Types.{Tier}
use pi_smart_router.Pinning.FlipFlop.{
  FlipFlopSessionState, FlipFlopGuard, empty_state, observe_tier, is_tier_pinned, compare_last,
}

-- The state of a session; a session that was never observed has the empty one.
abbrev pub session : FlipFlopGuard → String → FlipFlopSessionState
session guard id = get_or (get id guard.sessions) empty_state

abbrev pub after_observation : ℕ → FlipFlopSessionState → Tier → FlipFlopSessionState
after_observation threshold state observed = elim state.tier_pinned [
  | some pinned ↦ state
  | none ↦ (compare_last threshold state.consecutive_tier_flips state.last_observed_tier observed).0
]

session-observe_tier :
    (guard : FlipFlopGuard) (id other : String) (observed : Tier)
    → session (observe_tier guard id observed).0 other ≡ (
        if str_eq id other
        then after_observation guard.threshold (session guard id) observed
        else session guard other)
unfolding observe_tier
session-observe_tier guard id other observed = elim (Option-cases (session guard id).tier_pinned) [
  | inl e ↦
      let state = session guard id in
      let next : FlipFlopSessionState =
        (compare_last guard.threshold state.consecutive_tier_flips state.last_observed_tier
          observed).0 in
      ground (arith, get-set id other next guard.sessions)
  | inr (t, e) ↦ ground (arith, eq_iff id other)
]

-- The flips stay below the threshold until the tier is pinned, and the pinned tier is the last seen.
pub record IsValid (threshold : ℕ) (state : FlipFlopSessionState) : Type 0 where
  pub unpinned_below : state.tier_pinned ≡ none → state.consecutive_tier_flips < threshold
  pub pinned_reached : state.tier_pinned ≢ none → threshold ≤ state.consecutive_tier_flips
  pub pinned_last : state.tier_pinned ≢ none → state.tier_pinned ≡ state.last_observed_tier
  pub unseen_none : state.last_observed_tier ≡ none → state.consecutive_tier_flips ≡ 0

pub after_observation-IsValid :
    (threshold : ℕ) (state : FlipFlopSessionState) (observed : Tier)
    → 0 < threshold
    → IsValid threshold state
    → IsValid threshold (after_observation threshold state observed)
unfolding compare_last
after_observation-IsValid threshold state observed h v = ground arith

threshold-observe_tier :
    (guard : FlipFlopGuard) (id : String) (observed : Tier)
    → (observe_tier guard id observed).0.threshold ≡ guard.threshold
unfolding observe_tier
threshold-observe_tier guard id observed = ground arith

unfoldable pub observe_all : FlipFlopGuard → String → List Tier → FlipFlopGuard
observe_all guard id [] = guard
observe_all guard id (t ∷ ts) = observe_all (observe_tier guard id t).0 id ts

unfoldable pub after_all : ℕ → FlipFlopSessionState → List Tier → FlipFlopSessionState
after_all threshold state [] = state
after_all threshold state (t ∷ ts) = after_all threshold (after_observation threshold state t) ts

pub session-observe_all :
    (guard : FlipFlopGuard) (id : String) (ts : List Tier)
    → session (observe_all guard id ts) id ≡ after_all guard.threshold (session guard id) ts
unfolding observe_all after_all
session-observe_all guard id [] = refl
session-observe_all guard id (t ∷ ts) =
    session-observe_all (observe_tier guard id t).0 id ts
    ∙ rw (threshold-observe_tier guard id t, session-observe_tier guard id id t, eq_refl id)

-- An observation of one session leaves every other session as it was.
observe_tier_other :
    (guard : FlipFlopGuard) (id other : String) (observed : Tier)
    → id ≢ other
    → session (observe_tier guard id observed).0 other ≡ session guard other
observe_tier_other guard id other observed h =
    ground (arith, session-observe_tier guard id other observed, eq_iff id other)

pub is_tier_pinned-session :
    (guard : FlipFlopGuard) (id : String) → is_tier_pinned guard id ≡ (session guard id).tier_pinned
unfolding is_tier_pinned
is_tier_pinned-session guard id = ground arith

pinned-observe_tier :
    (guard : FlipFlopGuard) (id : String) (t observed : Tier)
    → is_tier_pinned guard id ≡ some t
    → (observe_tier guard id observed).0 ≡ guard
unfolding observe_tier is_tier_pinned
pinned-observe_tier guard id t observed h = ground arith

-- Once a session's tier is pinned, no observation of it changes the guard.
observe_all_pinned :
    (guard : FlipFlopGuard) (id : String) (t : Tier) (ts : List Tier)
    → is_tier_pinned guard id ≡ some t
    → observe_all guard id ts ≡ guard
unfolding observe_all
observe_all_pinned guard id t [] h = refl
observe_all_pinned guard id t (u ∷ ts) h =
    rw (pinned-observe_tier guard id t u h) (observe_all_pinned guard id t ts h)
