-- ===== src/Examples/Fit.antt =====
-- The context-fit gate and its fallback at concrete inputs.
use native.Mathlib.Decide.{dec_lt}
use pi_smart_router.Prelude.{ℕ, ◌≡◌, ◌≤◌, ◌<◌, refl, none, some, List, [], ◌∷◌, arith}
use pi_smart_router.Prelude.Int.{pos}
use pi_smart_router.Routing.Isotonic.{
  IsotonicCalibratorArtifact, apply_isotonic_calibrator, apply_isotonic_lookup, look_up, clamp01,
  search, narrow, ⊏_wf, knot_search,
}
use pi_smart_router.Routing.Isotonic.Search.{
  IsSorted, IsSorted-one, IsSorted-cons, knot_search_ends,
}
use pi_smart_router.Routing.Isotonic.Lookup.{Ordered, apply_isotonic_calibrator-Ordered}
use pi_smart_router.Routing.ContextFit.{
  unset, resolve_safety_margin, filter_fleet_by_context_fit, resolve_context_overflow_fallback,
}
use pi_smart_router.Routing.ContextFit.Laws.{Partition, filter_fleet-Partition}
use pi_smart_router.Routing.ContextFit.Fallback.{Supported, overflow_fallback-Supported}
use pi_smart_router.Examples.Fixtures.{fleet, large_request}

filter_fleet-Partition_example :
    Partition fleet 5000
      (resolve_safety_margin unset none)
      (filter_fleet_by_context_fit unset fleet large_request none)
filter_fleet-Partition_example = filter_fleet-Partition unset fleet large_request none refl

overflow_fallback-Supported_example :
    let result = resolve_context_overflow_fallback unset fleet large_request (some "acme") none in
    Supported fleet 5000
      (resolve_safety_margin unset none)
      (some "acme")
      result.reason_code
      result.model
overflow_fallback-Supported_example =
    overflow_fallback-Supported unset fleet large_request (some "acme") none

abbrev x_knots : List ℕ
x_knots = 0 ∷ 200000 ∷ 500000 ∷ 800000 ∷ []

abbrev y_knots : List ℕ
y_knots = 100000 ∷ 300000 ∷ 450000 ∷ 900000 ∷ []

abbrev artifact : IsotonicCalibratorArtifact
artifact = record {
  min_training_samples = 30;
  x_knots = x_knots;
  y_knots = y_knots;
  trained_sample_count = 40;
}

four-IsSorted : (a b c d : ℕ) → a ≤ b → b ≤ c → c ≤ d → IsSorted (a ∷ b ∷ c ∷ d ∷ [])
four-IsSorted a b c d h k l =
    IsSorted-cons a b (c ∷ d ∷ []) h
      (IsSorted-cons b c (d ∷ []) k (IsSorted-cons c d [] l (IsSorted-one d)))

x_knots-IsSorted : IsSorted x_knots
x_knots-IsSorted = four-IsSorted 0 200000 500000 800000 (omega arith) (omega arith) (omega arith)

y_knots-IsSorted : IsSorted y_knots
y_knots-IsSorted =
    four-IsSorted 100000 300000 450000 900000 (omega arith) (omega arith) (omega arith)

calibrated_in_the_middle : apply_isotonic_calibrator (pos 499999) (some artifact) ≡ some 300000
unfolding apply_isotonic_calibrator apply_isotonic_lookup look_up clamp01 search narrow ⊏_wf dec_lt
calibrated_in_the_middle = refl

apply_isotonic_calibrator-Ordered_example :
    Ordered
      (apply_isotonic_calibrator (pos 499999) (some artifact))
      (apply_isotonic_calibrator (pos 500000) (some artifact))
apply_isotonic_calibrator-Ordered_example =
    apply_isotonic_calibrator-Ordered (some artifact) (pos 499999) (pos 500000)
      (x_knots-IsSorted, y_knots-IsSorted) refl

knot_search_ends_example :
    ((knot_search x_knots 600000).1 ≤ 2) × ((knot_search x_knots 600000).0 < 4)
knot_search_ends_example = knot_search_ends x_knots 600000 2 (omega arith) (omega arith)
