-- ===== src/Pinning/FlipFlop/Laws.antt =====
-- What src/domain/pinning/flip-flop-guard.ts guarantees over a session's observations.
use pi_smart_router.Prelude.{
  ℕ, ◌+◌, ◌≤◌, ◌<◌, ◌≡◌, ◌≢◌, refl, String, false, none, some, List, [], ◌∷◌, ◌++◌, arith, length,
}
use native.Mathlib.Nat.{add-zero, zero-add}
use pi_smart_router.Types.{Tier, tier_eq}
use pi_smart_router.Pinning.FlipFlop.{
  FlipFlopSessionState, FlipFlopGuard, empty_state, is_tier_pinned, compare_last,
}
use pi_smart_router.Pinning.FlipFlop.Steps.{
  IsValid, after_all, after_observation, after_observation-IsValid, is_tier_pinned-session,
  observe_all, session, session-observe_all,
}

-- Each tier differs from the one before it.
abbrev pub Alternates : Tier → List Tier → Type 0
Alternates t [] = Unit
Alternates t (u ∷ us) = (tier_eq t u ≡ false) × Alternates u us

abbrev final : Tier → List Tier → Tier
final t [] = t
final t (u ∷ us) = final u us

-- The session has seen `t` last, after `n` flips, and is not pinned.
record Flips (t : Tier) (n : ℕ) (state : FlipFlopSessionState) : Type 0 where
  last : state.last_observed_tier ≡ some t
  flips : state.consecutive_tier_flips ≡ n
  free : state.tier_pinned ≡ none

flip_below :
    (threshold n : ℕ) (t u : Tier) (state : FlipFlopSessionState)
    → Flips t n state
    → tier_eq t u ≡ false
    → n + 1 < threshold
    → Flips u (n + 1) (after_observation threshold state u)
unfolding compare_last
flip_below threshold n t u state f d h = ground arith

flip_reaches :
    (threshold n : ℕ) (t u : Tier) (state : FlipFlopSessionState)
    → Flips t n state
    → tier_eq t u ≡ false
    → threshold ≤ n + 1
    → (after_observation threshold state u).tier_pinned ≡ some u
unfolding compare_last
flip_reaches threshold n t u state f d h = ground arith

alternation_below :
    (threshold n : ℕ) (t : Tier) (us : List Tier) (u : Tier) (state : FlipFlopSessionState)
    → Flips t n state
    → Alternates t (us ++ u ∷ [])
    → threshold ≡ n + length us + 1
    → ((after_all threshold state us).tier_pinned ≡ none)
      × ((after_all threshold state (us ++ u ∷ [])).tier_pinned ≡ some u)
unfolding after_all
alternation_below threshold n t [] u state f a h =
    (f.free, flip_reaches threshold n t u state f a.0 (omega arith))
alternation_below threshold n t (v ∷ us) u state f a h =
    alternation_below threshold (n + 1) v us u _
      (flip_below threshold n t v state f a.0 (omega arith)) a.1 (omega arith)

-- A session not seen before, whose tiers change at every turn: the change that reaches the threshold
-- pins the tier it changes to, and none before does.
pub alternation_pins :
    (guard : FlipFlopGuard) (id : String) (t : Tier) (us : List Tier) (u : Tier)
    → session guard id ≡ empty_state
    → Alternates t (us ++ u ∷ [])
    → guard.threshold ≡ length us + 1
    → (is_tier_pinned (observe_all guard id (t ∷ us)) id ≡ none)
      × (is_tier_pinned (observe_all guard id (t ∷ us ++ u ∷ [])) id ≡ some u)
unfolding after_all compare_last
alternation_pins guard id t us u fresh a h =
    let first : FlipFlopSessionState = after_observation guard.threshold empty_state t in
    let (before, after) =
      alternation_below guard.threshold 0 t us u first (opening guard.threshold t) a
        (omega arith) in
    (
      rw
          (
            is_tier_pinned-session (observe_all guard id (t ∷ us)) id,
            session-observe_all guard id (t ∷ us),
            fresh,
          )
          before,
      rw
          (
            is_tier_pinned-session (observe_all guard id (t ∷ us ++ u ∷ [])) id,
            session-observe_all guard id (t ∷ us ++ u ∷ []),
            fresh,
          )
          after,
    )
  where
    opening :
        (threshold : ℕ) (seen : Tier) → Flips seen 0 (after_observation threshold empty_state seen)
    opening threshold seen = record { last = refl; flips = refl; free = refl }

-- There is at least one more observation than there are flips.
abbrev Seen : ℕ → FlipFlopSessionState → Type 0
Seen n state =
    (state.last_observed_tier ≡ none → state.consecutive_tier_flips ≡ 0)
    × (state.last_observed_tier ≢ none → state.consecutive_tier_flips < n)

after_observation-Seen :
    (threshold n : ℕ) (state : FlipFlopSessionState) (observed : Tier)
    → IsValid threshold state
    → Seen n state
    → Seen (n + 1) (after_observation threshold state observed)
unfolding compare_last
after_observation-Seen threshold n state observed v h = ground arith

after_all-Seen :
    (threshold n : ℕ) (state : FlipFlopSessionState) (ts : List Tier)
    → 0 < threshold
    → IsValid threshold state
    → Seen n state
    → IsValid threshold (after_all threshold state ts)
      × Seen (n + length ts) (after_all threshold state ts)
unfolding after_all
after_all-Seen threshold n state [] h v s = (v, rw add-zero s)
after_all-Seen threshold n state (t ∷ ts) h v s =
    let (valid, seen) =
      after_all-Seen threshold (n + 1) (after_observation threshold state t) ts h
        (after_observation-IsValid threshold state t h v)
        (after_observation-Seen threshold n state t v s) in
    (valid, (seen.0, λ e. omega (arith, seen.1 e)))

empty_state-IsValid : (threshold : ℕ) → 0 < threshold → IsValid threshold empty_state
empty_state-IsValid threshold h = ground arith

pinned_beyond :
    (threshold n : ℕ) (state : FlipFlopSessionState) (u : Tier)
    → IsValid threshold state
    → Seen n state
    → state.tier_pinned ≡ some u
    → threshold < n
pinned_beyond threshold n state u v s e = ground arith

-- A session whose tier is pinned has seen more turns than the threshold, whatever its tiers were.
pin_needs_flips :
    (guard : FlipFlopGuard) (id : String) (ts : List Tier) (u : Tier)
    → 0 < guard.threshold
    → session guard id ≡ empty_state
    → is_tier_pinned (observe_all guard id ts) id ≡ some u
    → guard.threshold < length ts
pin_needs_flips guard id ts u h fresh pinned =
    let (valid, seen) =
      after_all-Seen guard.threshold 0 empty_state ts h (empty_state-IsValid guard.threshold h)
        (ground arith) in
    rw zero-add at (
      pinned_beyond guard.threshold (0 + length ts) (after_all guard.threshold empty_state ts) u
        valid seen
        (rw
          (
            is_tier_pinned-session (observe_all guard id ts) id,
            session-observe_all guard id ts,
            fresh,
          )
          at pinned))
