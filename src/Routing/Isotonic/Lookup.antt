-- ===== src/Routing/Isotonic/Lookup.antt =====
-- What applyIsotonicLookup and applyIsotonicCalibrator return
-- (src/domain/routing/isotonic-calibrator.ts).
use pi_smart_router.Prelude.{
  ℕ, zero, suc, ◌^◌, ◌≤◌, ◌<◌, ◌≡◌, ◌⊎◌, inl, inr, refl, true, Option, none, some, List, length,
  leb, get_elem?, if-elim, arith, leb→le, le→leb, Bool-cases,
}
use pi_smart_router.Prelude.Int.{ℤ, pos, negsuc, leb_ℤ}
use native.Mathlib.Decide.{dec_lt}
use pi_smart_router.Routing.Isotonic.{
  one, clamp01, clamp_knot, le_knot, knot_le, last_index, unusable, look_up, apply_isotonic_lookup,
  apply_isotonic_calibrator, IsotonicCalibratorArtifact, is_isotonic_calibrator_trained,
}
use pi_smart_router.Routing.Isotonic.Search.{
  knot, IsSorted, get_elem?-knot, knot_search-last, knot_search_ends,
}

clamp01_le_one : (a : ℤ) → clamp01 a ≤ one
unfolding clamp01
clamp01_le_one (pos n) = ground arith
clamp01_le_one (negsuc n) = omega arith

clamp01_mono : (a b : ℤ) → leb_ℤ a b ≡ true → clamp01 a ≤ clamp01 b
unfolding clamp01
clamp01_mono (pos m) (pos n) h = ground arith
clamp01_mono (pos m) (negsuc n) h = ground arith
clamp01_mono (negsuc m) b h = omega arith

-- The knot that a lookup takes: the first one up to its score, else the last one not above the score.
abbrev TakenAt : List ℕ → ℕ → ℕ → Type 0
TakenAt xs score k =
    ((k ≡ 0) × (score ≤ knot xs 0))
    ⊎ ((knot xs 0 < score)
        × (knot xs k ≤ score)
        × ((j : ℕ) → k < j → j < length xs → score < knot xs j))

abbrev pub Stepped : List ℕ → List ℕ → ℕ → Option ℕ → Type 0
Stepped xs ys score r =
    (k : ℕ) × (k < length xs) × (r ≡ some (clamp01 (pos (knot ys k)))) × TakenAt xs score k

module _ (xs ys : List ℕ) (same : length xs ≡ length ys) (some_knot : 0 < length xs) where
  clamp_knot-lem :
      (k : ℕ) → k < length xs → clamp_knot (get_elem? ys k) ≡ some (clamp01 (pos (knot ys k)))
  clamp_knot-lem k h = rw (get_elem?-knot ys k (omega arith)) refl

  look_up-Stepped : (score : ℕ) → IsSorted xs → Stepped xs ys score (look_up score xs ys)
  unfolding look_up
  look_up-Stepped score sorted =
      rw (get_elem?-knot xs 0 some_knot, get_elem?-knot xs (last_index xs) (omega arith))
        (if-elim (Stepped xs ys score) (leb score (knot xs 0)) _ _
          (λ e. (0, some_knot, clamp_knot-lem 0 some_knot, inl (refl, leb→le _ _ e)))
          (λ e.
            if-elim (Stepped xs ys score) (leb (knot xs (last_index xs)) score) _ _
              (λ l. (
                last_index xs,
                omega arith,
                clamp_knot-lem (last_index xs) (omega arith),
                inr (ground arith, leb→le _ _ l, λ j p q. absurd (omega arith)),
              ))
              (λ l.
                let (inside, below, above) =
                  knot_search-last xs score sorted some_knot (ground arith) in
                (_, inside, clamp_knot-lem _ inside, inr (ground arith, below, above)))))

-- Both are scores between 0 and 1, in this order.
abbrev pub Ordered : Option ℕ → Option ℕ → Type 0
Ordered (some x) (some y) = (x ≤ y) × (y ≤ one)
Ordered _ _ = ⊥

TakenAt-mono :
    (xs : List ℕ) (s t k l : ℕ) → s ≤ t → k < length xs → TakenAt xs s k → TakenAt xs t l → k ≤ l
TakenAt-mono xs s t k l h p (inl (e, low)) _ = omega arith
TakenAt-mono xs s t k l h p (inr (above, _, _)) (inl (_, low)) = absurd (omega arith)
TakenAt-mono xs s t k l h p (inr (_, below, _)) (inr (_, _, later)) = elim (dec_lt l k) [
  | no apart ↦ omega arith
  | yes before ↦ absurd (omega (arith, later k before p))
]

Stepped-Ordered :
    (xs ys : List ℕ) (s t : ℕ) (q r : Option ℕ)
    → length xs ≡ length ys
    → IsSorted ys
    → s ≤ t
    → Stepped xs ys s q
    → Stepped xs ys t r
    → Ordered q r
Stepped-Ordered xs ys s t q r same sorted h (k, p, e, at) (l, p', e', at') =
    rw (e, e')
      (
        clamp01_mono (pos (knot ys k)) (pos (knot ys l)) (
            le→leb _ _
              (omega (arith, sorted k l (TakenAt-mono xs s t k l h p at at') (omega arith)))),
        clamp01_le_one (pos (knot ys l)),
      )

clamped-Ordered : (a b : ℤ) → leb_ℤ a b ≡ true → Ordered (some (clamp01 a)) (some (clamp01 b))
clamped-Ordered a b h = (clamp01_mono a b h, clamp01_le_one b)

lookup-Ordered :
    (xs ys : List ℕ) (a b : ℤ)
    → IsSorted xs
    → IsSorted ys
    → leb_ℤ a b ≡ true
    → Ordered (apply_isotonic_lookup a xs ys) (apply_isotonic_lookup b xs ys)
unfolding apply_isotonic_lookup
lookup-Ordered xs ys a b sorted_x sorted_y h = elim (Bool-cases (unusable xs ys)) [
  | inl bad ↦ rw bad (clamped-Ordered a b h)
  | inr good ↦
      let same : length xs ≡ length ys = ground arith in
      let some_knot : 0 < length xs = ground arith in
      rw good (
        Stepped-Ordered xs ys (clamp01 a) (clamp01 b) _ _ same sorted_y (clamp01_mono a b h)
          (look_up-Stepped xs ys same some_knot (clamp01 a) sorted_x)
          (look_up-Stepped xs ys same some_knot (clamp01 b) sorted_x))
]

-- A table whose knots do not fall, or no table.
abbrev pub HasSortedKnots : Option IsotonicCalibratorArtifact → Type 0
HasSortedKnots none = Unit
HasSortedKnots (some artifact) = IsSorted artifact.x_knots × IsSorted artifact.y_knots

-- Where the knots do not fall, the calibrator keeps the order of raw scores: of two raw scores in order
-- it returns two scores in the same order, and at most 1; without a table, with too few samples and
-- with tables of different lengths too.
pub apply_isotonic_calibrator-Ordered :
    (artifact : Option IsotonicCalibratorArtifact) (a b : ℤ)
    → HasSortedKnots artifact
    → leb_ℤ a b ≡ true
    → Ordered (apply_isotonic_calibrator a artifact) (apply_isotonic_calibrator b artifact)
unfolding apply_isotonic_calibrator
apply_isotonic_calibrator-Ordered none a b sorted h = clamped-Ordered a b h
apply_isotonic_calibrator-Ordered (some artifact) a b (sorted_x, sorted_y) h =
    elim (Bool-cases (is_isotonic_calibrator_trained artifact)) [
      | inl trained ↦
          rw trained (lookup-Ordered artifact.x_knots artifact.y_knots a b sorted_x sorted_y h)
      | inr untrained ↦ rw untrained (clamped-Ordered a b h)
    ]

-- A score between 0 and 1.
abbrev pub IsScore : Option ℕ → Type 0
IsScore none = ⊥
IsScore (some x) = x ≤ one

clamp_knot-IsScore : (ys : List ℕ) (k : ℕ) → k < length ys → IsScore (clamp_knot (get_elem? ys k))
clamp_knot-IsScore ys k h = rw (get_elem?-knot ys k h) (clamp01_le_one (pos (knot ys k)))

-- enough rounds for every table
length-lt-power : (n : ℕ) → n < 2 ^ n
length-lt-power zero = omega arith
length-lt-power (suc n) = omega (arith, length-lt-power n)

-- With any two tables, sorted or not and of any lengths, a lookup reads inside them: it returns a score
-- between 0 and 1.
apply_isotonic_lookup-IsScore :
    (raw_score : ℤ) (xs ys : List ℕ) → IsScore (apply_isotonic_lookup raw_score xs ys)
unfolding apply_isotonic_lookup look_up
apply_isotonic_lookup-IsScore raw_score xs ys = elim (Bool-cases (unusable xs ys)) [
  | inl bad ↦ rw bad (clamp01_le_one raw_score)
  | inr good ↦
      let score = clamp01 raw_score in
      let same : length xs ≡ length ys = ground arith in
      let some_knot : 0 < length xs = ground arith in
      let (_, inside) =
        knot_search_ends xs score (length xs) some_knot
          (omega (arith, length-lt-power (length xs))) in
      rw good (
        if-elim IsScore (le_knot score (get_elem? xs 0)) _ _
          (λ _. clamp_knot-IsScore ys 0 (omega arith))
          (λ _.
            if-elim IsScore (knot_le (get_elem? xs (last_index xs)) score) _ _
              (λ _. clamp_knot-IsScore ys (last_index xs) (omega arith))
              (λ _. clamp_knot-IsScore ys _ (omega arith))))
]
