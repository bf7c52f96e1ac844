-- ===== src/Routing/Isotonic.antt =====
-- src/domain/routing/isotonic-calibrator.ts: the table of knots, its lookup and the calibrators that apply
-- it. A score and a knot are whole millionths; the loader's schema keeps the knots between 0 and 1, so
-- they are natural numbers, and a raw score can be negative. A read past a table is `none`, which is
-- `undefined`: a comparison with it is false. The reader of the artifact's file is input.
pub mod Search
pub mod Lookup
use mathlib.Core.Logic.{dite}
use mathlib.Core.WellFounded.{Acc, WellFounded}
use native.Mathlib.Decide.{dec_lt}
use pi_smart_router.Prelude.{
  ℕ, zero, suc, ◌+◌, ◌-◌, ◌/◌, ◌<◌, Bool, true, false, not, ◌&&◌, ◌||◌, ◌==◌, Option, none, some,
  List, length, is_some, leb, if◌then◌else◌, if-elim, arith, get_elem?,
}
use pi_smart_router.Prelude.Int.{ℤ, pos, negsuc}

-- The fields that the calibration reads.
pub record IsotonicCalibratorArtifact : Type 0 where
  pub min_training_samples : ℕ
  pub x_knots : List ℕ
  pub y_knots : List ℕ
  pub trained_sample_count : ℕ

-- The number 1, in millionths.
abbrev pub one : ℕ
one = 1000000

unfoldable pub clamp01 : ℤ → ℕ
clamp01 (negsuc n) = 0
clamp01 (pos n) = if leb n 0 then 0 else if leb one n then one else n

abbrev pub is_isotonic_calibrator_trained : IsotonicCalibratorArtifact → Bool
is_isotonic_calibrator_trained artifact =
    leb artifact.min_training_samples artifact.trained_sample_count

-- `xKnots[i]! <= score`
abbrev pub knot_le : Option ℕ → ℕ → Bool
knot_le none score = false
knot_le (some x) score = leb x score

-- `score <= xKnots[i]!`
abbrev pub le_knot : ℕ → Option ℕ → Bool
le_knot score none = false
le_knot score (some x) = leb score x

-- `clamp01(yKnots[i]!)`
abbrev pub clamp_knot : Option ℕ → Option ℕ
clamp_knot none = none
clamp_knot (some y) = some (clamp01 (pos y))

-- The variables of the search, ordered by the knots between them.
pub record Span : Type 0 where
  pub low : ℕ
  pub high : ℕ

infix 50 ◌⊏◌
abbrev pub ◌⊏◌ : Span → Span → Type 0
s ⊏ t = s.high - s.low < t.high - t.low

acc_under : (k : ℕ) (s : Span) → s.high - s.low < k → Acc ◌⊏◌ s
acc_under zero s h = absurd (omega arith)
acc_under (suc k) s h = Acc.intro s (λ t inside. acc_under k t (omega arith))

unfoldable pub ⊏_wf : WellFounded ◌⊏◌
unfolding acc_under
⊏_wf = record { apply = λ s. acc_under (suc (s.high - s.low)) s (omega arith) }

abbrev pub middle : Span → ℕ
middle s = (s.low + s.high + 1) / 2

module _ (x_knots : List ℕ) (score : ℕ) where
  -- The body of the loop.
  unfoldable pub narrow : Span → Span
  narrow s =
      if knot_le (get_elem? x_knots (middle s)) score
      then record s { low = middle s }
      else record s { high = middle s - 1 }

  pub narrow-⊏ : (s : Span) → s.low < s.high → narrow s ⊏ s
  unfolding narrow
  narrow-⊏ s h =
      if-elim (λ t. t ⊏ s) (knot_le (get_elem? x_knots (middle s)) score)
        (record s { low = middle s }) (record s { high = middle s - 1 }) (λ _. omega arith)
        (λ _. omega arith)

  -- The loop: the last `low`, and the rounds taken, which the program does not count.
  unfoldable pub search : (s : Span) → Acc ◌⊏◌ s → ℕ × ℕ
  search s (Acc.intro _ inner) =
      dite (dec_lt s.low s.high)
        (λ h. let rest = search (narrow s) (inner _ (narrow-⊏ s h)) in (rest.0, suc rest.1))
        (λ _. (s.low, 0))

abbrev pub last_index : List ℕ → ℕ
last_index x_knots = length x_knots - 1

abbrev pub knot_search : List ℕ → ℕ → ℕ × ℕ
knot_search x_knots score =
    search x_knots score (record { low = 0; high = last_index x_knots }) (⊏_wf.apply _)

abbrev pub unusable : List ℕ → List ℕ → Bool
unusable x_knots y_knots =
    (length x_knots == 0) || (length y_knots == 0) || not (length x_knots == length y_knots)

-- A lookup in a usable table, from the clamped score.
unfoldable pub look_up : ℕ → List ℕ → List ℕ → Option ℕ
look_up score x_knots y_knots =
    if le_knot score (get_elem? x_knots 0)
    then clamp_knot (get_elem? y_knots 0)
    else if knot_le (get_elem? x_knots (last_index x_knots)) score
    then clamp_knot (get_elem? y_knots (last_index x_knots))
    else clamp_knot (get_elem? y_knots (knot_search x_knots score).0)

unfoldable pub apply_isotonic_lookup : ℤ → List ℕ → List ℕ → Option ℕ
apply_isotonic_lookup raw_score x_knots y_knots =
    if unusable x_knots y_knots
    then some (clamp01 raw_score)
    else look_up (clamp01 raw_score) x_knots y_knots

unfoldable pub apply_isotonic_calibrator : ℤ → Option IsotonicCalibratorArtifact → Option ℕ
apply_isotonic_calibrator raw_score none = some (clamp01 raw_score)
apply_isotonic_calibrator raw_score (some artifact) =
    if not (is_isotonic_calibrator_trained artifact)
    then some (clamp01 raw_score)
    else apply_isotonic_lookup raw_score artifact.x_knots artifact.y_knots

pub record IsotonicCalibratorResult : Type 0 where
  pub calibrated : Option ℕ
  pub elapsed : ℕ
  pub within_budget : Bool
  pub calibration_applied : Bool

-- The two readings of the clock and the budget are whole microseconds.
unfoldable pub apply_isotonic_calibrator_timed :
    ℤ → Option IsotonicCalibratorArtifact → (budget start finish : ℕ) → IsotonicCalibratorResult
apply_isotonic_calibrator_timed raw_score artifact budget start finish = record {
  calibrated = apply_isotonic_calibrator raw_score artifact;
  elapsed = finish - start;
  within_budget = leb (finish - start) budget;
  calibration_applied = elim artifact [ none ↦ false | some a ↦ is_isotonic_calibrator_trained a ];
}
