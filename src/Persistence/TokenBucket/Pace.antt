-- ===== src/Persistence/TokenBucket/Pace.antt =====
-- How much a token bucket grants over time: src/infrastructure/persistence/sqlite-store.ts.
use pi_smart_router.Prelude.{
  ℕ, ◌+◌, ◌-◌, ◌*◌, ◌≤◌, ◌≡◌, refl, sym, ap, ◌∙◌, subst, String, Option, none, some, List, [], ◌∷◌,
  leb, leb→le, arith, if-elim, eq_refl, if◌then◌else◌,
}
use native.Mathlib.Nat.{add-mul}
use pi_smart_router.Prelude.Table.{Table, get, set, get-set}
use pi_smart_router.Persistence.TokenBucket.{
  RateLimitRow, TokenBucketResult, refilled, consume_row, consume_found, consume_token,
}

-- The cost that a call is granted.
abbrev pub cost_granted : Option TokenBucketResult → ℕ → ℕ
cost_granted none cost = 0
cost_granted (some result) cost = if result.allowed then cost else 0

-- The costs that calls on one bucket, each a cost and a clock reading, are granted in total.
unfoldable pub total_granted : Table RateLimitRow → String → List (ℕ × ℕ) → ℕ
total_granted buckets key [] = 0
total_granted buckets key ((cost, now) ∷ calls) =
    let (result, after) = consume_token buckets key cost now in
    cost_granted result cost + total_granted after key calls

-- The clock does not run backwards.
abbrev pub InOrder : ℕ → List (ℕ × ℕ) → Type 0
InOrder last [] = Unit
InOrder last ((cost, now) ∷ calls) = (last ≤ now) × InOrder now calls

abbrev pub last_time : ℕ → List (ℕ × ℕ) → ℕ
last_time last [] = last
last_time last ((cost, now) ∷ calls) = last_time now calls

le-last_time : (last : ℕ) (calls : List (ℕ × ℕ)) → InOrder last calls → last ≤ last_time last calls
le-last_time last [] h = omega arith
le-last_time last ((cost, now) ∷ calls) (later, rest) =
    omega (arith, later, le-last_time now calls rest)

-- One call grants no more than the tokens it takes, and refills no more than the time allows.
row_pays :
    (row : RateLimitRow) (cost now : ℕ)
    → let (result, after) = consume_row row cost now in
      ((if result.allowed then cost else 0) + after.tokens
        ≤ row.tokens + (now - row.last_refill_at) * row.refill_rate)
      × (after.refill_rate ≡ row.refill_rate)
      × (after.last_refill_at ≡ now)
unfolding consume_row
row_pays row cost now =
    let ready = refilled row now in
    let refill = (now - row.last_refill_at) * row.refill_rate in
    let capped : ready ≤ row.tokens + refill = omega arith in
    if-elim
      (λ (x : TokenBucketResult × RateLimitRow).
        ((if x.0.allowed then cost else 0) + x.1.tokens ≤ row.tokens + refill)
        × (x.1.refill_rate ≡ row.refill_rate)
        × (x.1.last_refill_at ≡ now))
      (leb cost ready) _ _ (λ enough. (omega (arith, capped, leb→le cost ready enough), refl, refl))
      (λ short. (omega (arith, capped), refl, refl))

-- Refills over two stretches of time add up.
refill_split :
    (rate start now end : ℕ)
    → start ≤ now
    → now ≤ end
    → (now - start) * rate + (end - now) * rate ≡ (end - start) * rate
refill_split rate start now end h k =
    sym (add-mul (now - start) (end - now) rate) ∙ ap (λ n. n * rate) (omega (arith, h, k))

-- While the clock does not run backwards, calls on a bucket are granted no more in total than the tokens
-- that it held and those that its rate refills from its last refill to the last call.
pub total_granted_paced :
    (key : String) (calls : List (ℕ × ℕ)) (buckets : Table RateLimitRow) (row : RateLimitRow)
    → get key buckets ≡ some row
    → InOrder row.last_refill_at calls
    → total_granted buckets key calls
      ≤ row.tokens + (last_time row.last_refill_at calls - row.last_refill_at) * row.refill_rate
unfolding total_granted consume_token
total_granted_paced key [] buckets row e h = omega arith
total_granted_paced key ((cost, now) ∷ calls) buckets row e (later, rest) =
    let (result, after) = consume_row row cost now in
    let (pays, rate, time) = row_pays row cost now in
    let stored : get key (set key after buckets) ≡ some after =
      get-set key key after buckets ∙ rw (eq_refl key) refl in
    let others =
      total_granted_paced key calls (set key after buckets) after stored (rw time rest) in
    let paced = rw (time, rate) at others in
    let split =
      refill_split row.refill_rate row.last_refill_at now (last_time now calls) later
        (le-last_time now calls rest) in
    subst
      (λ (found : Option RateLimitRow).
        let (result, buckets') = consume_found buckets key cost now found in
        cost_granted result cost + total_granted buckets' key calls
        ≤ row.tokens + (last_time now calls - row.last_refill_at) * row.refill_rate)
      (sym e) (omega (arith, pays, paced, split))
