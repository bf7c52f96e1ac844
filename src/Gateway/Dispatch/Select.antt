-- ===== src/Gateway/Dispatch/Select.antt =====
-- The selections of src/infrastructure/gateway/gateway-dispatch.ts: `weightedSelect`, and the filters
-- that ask the breaker.
use pi_smart_router.Prelude.{
  ℕ, ◌+◌, ◌*◌, ◌/◌, ◌<◌, ◌≡◌, refl, ap, ◌∙◌, inl, inr, zero, suc, String, Bool, true, ◌&&◌, Option,
  none, some, List, [], ◌∷◌, Memᴰ, length, filter, leb, ◌==◌, arith, if-elim, Bool-cases,
}
use native.Mathlib.Nat.{div-lt_iff_lt-mul, mul-lt-mul_of_pos_right, mul_comm}
use pi_smart_router.Types.{ModelProfile}
use pi_smart_router.Gateway.CircuitBreaker.{CircuitBreaker, can_dispatch}
use pi_smart_router.Gateway.CircuitBreaker.Asked.{can_dispatch_stable}
use pi_smart_router.Gateway.Selection.{
  Draw, element, max_cost, denominator, scaled_weight, pick, weighted_select, filter_dispatchable,
  find_dispatchable,
}

-- `Math.random()` is below one.
abbrev pub Proper : Draw → Type 0
Proper (n, d) = n < d

-- A selection is a candidate, and there is one unless there are no candidates.
abbrev pub Selects : List ModelProfile → Option ModelProfile → Type 0
Selects candidates none = candidates ≡ []
Selects candidates (some m) = Memᴰ m candidates

element-Selects : (xs : List ModelProfile) (n : ℕ) → n < length xs → Selects xs (element xs n)
element-Selects [] n h = let impossible : ⊥ = omega (arith, h) in elim impossible [ ]
element-Selects (x ∷ xs) zero h = Memᴰ.head refl
element-Selects (x ∷ xs) (suc n) h =
    later (element xs n) (element-Selects xs n (omega (arith, h))) (omega (arith, h))
  where
    later : (o : Option ModelProfile) → Selects xs o → 0 < length xs → Selects (x ∷ xs) o
    later (some m) mem some_left = Memᴰ.tail mem
    later none empty some_left =
        let no_length : length xs ≡ 0 = ap length empty in
        let impossible : ⊥ = omega (arith, no_length, some_left) in elim impossible [ ]

pick-Memᴰ :
    (most scale : ℕ) (draw : Draw) (total seen : ℕ) (m : ModelProfile) (ms : List ModelProfile)
    → Memᴰ (pick most scale draw total seen m ms) (m ∷ ms)
unfolding pick
pick-Memᴰ most scale (n, d) total seen m [] = Memᴰ.head refl
pick-Memᴰ most scale (n, d) total seen m (next ∷ ms) =
    let seen' = seen + scaled_weight most scale m in
    if-elim (λ x. Memᴰ x (m ∷ next ∷ ms)) (leb (n * total) (seen' * d)) m
      (pick most scale (n, d) total seen' next ms) (λ _. Memᴰ.head refl)
      (λ _. Memᴰ.tail (pick-Memᴰ most scale (n, d) total seen' next ms))

index_below : (n d k : ℕ) → n < d → 0 < k → n * k / d < k
index_below n d k h some_left =
    let product : n * k < k * d = rw (mul_comm k d) (mul-lt-mul_of_pos_right h some_left) in
    (div-lt_iff_lt-mul (omega (arith, h))).1 product

pub weighted_select-Selects :
    (draw : Draw) (candidates : List ModelProfile)
    → Proper draw
    → Selects candidates (weighted_select draw candidates)
unfolding weighted_select
weighted_select-Selects draw [] h = refl
weighted_select-Selects draw (m ∷ []) h = Memᴰ.head refl
weighted_select-Selects (n, d) (m ∷ next ∷ ms) h =
    let candidates = m ∷ next ∷ ms in
    if-elim (Selects candidates) (max_cost candidates == 0) _ _
      (λ _.
        element-Selects candidates (n * length candidates / d)
          (index_below n d (length candidates) h (omega arith)))
      (λ _. pick-Memᴰ (max_cost candidates) (denominator candidates) (n, d) _ 0 m (next ∷ ms))

-- The two breakers answer alike.
abbrev pub Alike : CircuitBreaker → CircuitBreaker → ℕ → Type 0
Alike first cb now = (id : String) → (can_dispatch cb id now).0 ≡ (can_dispatch first id now).0

module _ (first : CircuitBreaker) (now : ℕ) (test : ModelProfile → Bool) where
  abbrev pub dispatchable : ModelProfile → Bool
  dispatchable m = test m && (can_dispatch first m.id now).0

  Alike-asked :
      (cb : CircuitBreaker) (id : String)
      → Alike first cb now
      → Alike first (can_dispatch cb id now).1 now
  Alike-asked cb id h other = can_dispatch_stable cb id other now ∙ h other

  -- A filter that asks the breaker keeps what passes the test and may be dispatched to by the first
  -- breaker, and leaves one that answers alike.
  pub filter_dispatchable-filter :
      (fleet : List ModelProfile) (cb : CircuitBreaker)
      → Alike first cb now
      → let r = filter_dispatchable test fleet cb now in
        (r.0 ≡ filter dispatchable fleet) × Alike first r.1 now
  unfolding filter_dispatchable
  filter_dispatchable-filter [] cb h = (refl, h)
  filter_dispatchable-filter (m ∷ ms) cb h =
      let asked = can_dispatch cb m.id now in
      let (kept, alike) = filter_dispatchable-filter ms asked.1 (Alike-asked cb m.id h) in
      let (passed, same) = filter_dispatchable-filter ms cb h in
      elim (Bool-cases (test m)) [
        | inr fails ↦ rw fails (passed, same)
        | inl passes ↦ elim (Bool-cases asked.0) [
          | inl allowed ↦ rw (passes, allowed, ← h m.id) (rw allowed (ap (λ l. m ∷ l) kept, alike))
          | inr refused ↦ rw (passes, refused, ← h m.id) (rw refused (kept, alike))
        ]
      ]

  -- A search that asks the breaker finds what passes the test and may be dispatched to.
  pub find_dispatchable_sound :
      (fleet : List ModelProfile) (cb : CircuitBreaker)
      → Alike first cb now
      → let r = find_dispatchable test fleet cb now in
        ((m : ModelProfile) → r.0 ≡ some m → Memᴰ m fleet × (dispatchable m ≡ true))
        × Alike first r.1 now
  unfolding find_dispatchable
  find_dispatchable_sound [] cb h = (λ m e. cc e, h)
  find_dispatchable_sound (m ∷ ms) cb h =
      let asked = can_dispatch cb m.id now in
      let alike = Alike-asked cb m.id h in
      let (refused_found, refused_alike) = find_dispatchable_sound ms asked.1 alike in
      let (skipped_found, skipped_alike) = find_dispatchable_sound ms cb h in
      elim (Bool-cases (test m)) [
        | inr fails ↦
            rw fails (λ x e. let r = skipped_found x e in (Memᴰ.tail r.0, r.1), skipped_alike)
        | inl passes ↦ elim (Bool-cases asked.0) [
          | inl allowed ↦
              rw (passes, allowed)
                (
                  λ x e.
                      let same : m ≡ x = cc e in
                      rw (← same) (Memᴰ.head refl, rw (passes, ← h m.id) allowed),
                  alike,
                )
          | inr refused ↦
              rw (passes, refused)
                (λ x e. let r = refused_found x e in (Memᴰ.tail r.0, r.1), refused_alike)
        ]
      ]
