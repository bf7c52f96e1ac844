-- ===== src/Routing/Isotonic/Search.antt =====
-- The binary search of applyIsotonicLookup (src/domain/routing/isotonic-calibrator.ts): how many rounds
-- it takes, and the index it ends with.
use mathlib.Core.Logic.{dif_pos, dif_neg}
use mathlib.Core.WellFounded.{Acc}
use native.Mathlib.Bridge.{le_prop}
use native.Mathlib.Decide.{dec_lt}
use native.Mathlib.Nat.{le_refl}
use pi_smart_router.Prelude.{
  ℕ, zero, suc, ◌-◌, ◌^◌, ◌≤◌, ◌<◌, ◌≡◌, refl, some, List, [], ◌∷◌, length, leb, get_elem?, get_or,
  if-elim, arith, leb→le,
}
use pi_smart_router.Routing.Isotonic.{
  Span, ◌⊏◌, ⊏_wf, middle, narrow, narrow-⊏, search, knot_le, knot_search, last_index,
}

-- A total read for statements; every use stands under a bound on the index.
abbrev pub knot : List ℕ → ℕ → ℕ
knot xs i = get_or (get_elem? xs i) 0

abbrev pub IsSorted : List ℕ → Type 0
IsSorted xs = (i j : ℕ) → i ≤ j → j < length xs → knot xs i ≤ knot xs j

pub get_elem?-knot : (xs : List ℕ) (i : ℕ) → i < length xs → get_elem? xs i ≡ some (knot xs i)
get_elem?-knot [] i h = absurd (omega arith)
get_elem?-knot (x ∷ xs) zero h = refl
get_elem?-knot (x ∷ xs) (suc i) h = get_elem?-knot xs i (omega arith)

pub IsSorted-one : (x : ℕ) → IsSorted (x ∷ [])
IsSorted-one x zero zero h p = le_refl x
IsSorted-one x i (suc j) h p = absurd (omega arith)
IsSorted-one x (suc i) zero h p = absurd (omega arith)

-- A smaller knot in front.
pub IsSorted-cons : (x y : ℕ) (xs : List ℕ) → x ≤ y → IsSorted (y ∷ xs) → IsSorted (x ∷ y ∷ xs)
IsSorted-cons x y xs h sorted zero zero p q = le_refl x
IsSorted-cons x y xs h sorted zero (suc j) p q =
    omega (arith, sorted 0 j (omega arith) (omega arith))
IsSorted-cons x y xs h sorted (suc i) zero p q = absurd (omega arith)
IsSorted-cons x y xs h sorted (suc i) (suc j) p q = sorted i j (omega arith) (omega arith)

module _ (xs : List ℕ) (score : ℕ) where
  -- A property that each round keeps holds at the end, where the variables meet.
  search_while :
      (P : Span → Type 0)
      → ((s : Span) → s.low < s.high → P s → P (narrow xs score s))
      → (s : Span) (w : Acc ◌⊏◌ s) → P s
      → (t : Span) × P t × ¬ (t.low < t.high) × ((search xs score s w).0 ≡ t.low)
  unfolding search
  search_while P step s (Acc.intro _ inner) p = elim (dec_lt s.low s.high) [
    | no met ↦ (s, p, met, rw (dif_neg {C = ℕ × ℕ} (dec_lt s.low s.high) met) refl)
    | yes h ↦
        rw (dif_pos {C = ℕ × ℕ} (dec_lt s.low s.high) le_prop h)
          (search_while P step (narrow xs score s) (inner _ (narrow-⊏ xs score s h)) (step s h p))
  ]

  narrow_halves :
      (k : ℕ) (s : Span)
      → s.low < s.high
      → s.high - s.low < 2 ^ suc k
      → (narrow xs score s).high - (narrow xs score s).low < 2 ^ k
  unfolding narrow
  narrow_halves k s h small =
      if-elim (λ t. t.high - t.low < 2 ^ k) (knot_le (get_elem? xs (middle s)) score)
        (record s { low = middle s }) (record s { high = middle s - 1 }) (λ _. omega arith)
        (λ _. omega arith)

  search_rounds :
      (k : ℕ) (s : Span) (w : Acc ◌⊏◌ s) → s.high - s.low < 2 ^ k → (search xs score s w).1 ≤ k
  unfolding search
  search_rounds zero s (Acc.intro _ inner) small =
      rw (dif_neg {C = ℕ × ℕ} (dec_lt s.low s.high) (omega arith)) (omega arith)
  search_rounds (suc k) s (Acc.intro _ inner) small = elim (dec_lt s.low s.high) [
    | no met ↦ rw (dif_neg {C = ℕ × ℕ} (dec_lt s.low s.high) met) (omega arith)
    | yes h ↦ rw (dif_pos {C = ℕ × ℕ} (dec_lt s.low s.high) le_prop h) (
        omega (
          arith,
          search_rounds k (narrow xs score s) (inner _ (narrow-⊏ xs score s h))
              (narrow_halves k s h small),
        ))
  ]

  -- The span holds the last knot that is not above the score.
  pub record Holds (s : Span) : Type 0 where
    pub ordered : s.low ≤ s.high
    pub inside : s.high < length xs
    pub not_above : knot xs s.low ≤ score
    pub above : (j : ℕ) → s.high < j → j < length xs → score < knot xs j

  narrow-Holds : IsSorted xs → (s : Span) → s.low < s.high → Holds s → Holds (narrow xs score s)
  unfolding narrow
  narrow-Holds sorted s h held = rw (get_elem?-knot xs (middle s) (omega (arith, held.inside))) (
      if-elim Holds (leb (knot xs (middle s)) score) (record s { low = middle s })
        (record s { high = middle s - 1 })
        (λ e. record {
          ordered = omega arith;
          inside = held.inside;
          not_above = leb→le _ _ e;
          above = held.above;
        })
        (λ e. record {
          ordered = omega arith;
          inside = omega (arith, held.inside);
          not_above = held.not_above;
          above = λ j p q. grind (arith, sorted (middle s) j (omega arith) q);
        }))

  -- On sorted knots the search ends at the last knot that is not above the score.
  pub knot_search-last :
      IsSorted xs
      → 0 < length xs
      → knot xs 0 ≤ score
      → let k = (knot_search xs score).0 in
        (k < length xs)
        × (knot xs k ≤ score)
        × ((j : ℕ) → k < j → j < length xs → score < knot xs j)
  knot_search-last sorted some_knot first =
      let start : Holds (record { low = 0; high = last_index xs }) = record {
        ordered = omega arith;
        inside = omega arith;
        not_above = first;
        above = λ j p q. absurd (omega arith);
      } in
      let (t, held, met, e) =
        search_while Holds (narrow-Holds sorted) (record { low = 0; high = last_index xs })
          (⊏_wf.apply _) start in
      rw e (
        omega (arith, held.ordered, held.inside),
        held.not_above,
        λ j p q. held.above j (omega (arith, held.ordered)) q,
      )

  narrow_within :
      (n : ℕ) (s : Span)
      → s.low < s.high
      → (s.low ≤ s.high) × (s.high < n)
      → let t = narrow xs score s in (t.low ≤ t.high) × (t.high < n)
  unfolding narrow
  narrow_within n s h p =
      if-elim (λ t. (t.low ≤ t.high) × (t.high < n)) (knot_le (get_elem? xs (middle s)) score)
        (record s { low = middle s }) (record s { high = middle s - 1 }) (λ _. omega arith)
        (λ _. omega arith)

  -- The search of a table of at most 2^k knots, sorted or not, ends within k rounds and at an index
  -- of the table.
  pub knot_search_ends :
      (k : ℕ)
      → 0 < length xs
      → length xs ≤ 2 ^ k
      → ((knot_search xs score).1 ≤ k) × ((knot_search xs score).0 < length xs)
  knot_search_ends k some_knot small =
      let (t, (ordered, inside), met, e) =
        search_while (λ s. (s.low ≤ s.high) × (s.high < length xs)) (narrow_within (length xs))
          (record { low = 0; high = last_index xs }) (⊏_wf.apply _) (omega arith, omega arith) in
      (search_rounds k _ (⊏_wf.apply _) (omega arith), rw e (omega arith))
