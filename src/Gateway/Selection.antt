-- ===== src/Gateway/Selection.antt =====
-- The selections of src/infrastructure/gateway/gateway-dispatch.ts: `weightedSelect`, and the filters
-- that ask the breaker. `Math.random()` is a fraction, and a cost is in micro-USD.
use pi_smart_router.Prelude.{
  ℕ, ◌+◌, ◌*◌, ◌/◌, zero, suc, max, Bool, true, false, Option, none, some, List, [], ◌∷◌, length,
  leb, ◌==◌, if◌then◌else◌,
}
use pi_smart_router.Types.{ModelProfile}
use pi_smart_router.Gateway.CircuitBreaker.{CircuitBreaker, can_dispatch}

-- A draw of `Math.random()`: numerator and denominator.
abbrev pub Draw : Type 0
Draw = ℕ × ℕ

-- `candidates[index]`
abbrev pub element : {A : Type 0} → List A → ℕ → Option A
element [] n = none
element (x ∷ xs) zero = some x
element (x ∷ xs) (suc n) = element xs n

abbrev pub cost_of : ModelProfile → ℕ
cost_of model = model.pricing.fallback_cost_per_1m

-- One USD in micro-USD.
abbrev pub one_usd : ℕ
one_usd = 1000000

pub max_cost : List ModelProfile → ℕ
max_cost [] = 0
max_cost (m ∷ ms) = max (cost_of m) (max_cost ms)

-- The product of the denominators `c + 1` of the weights.
pub denominator : List ModelProfile → ℕ
denominator [] = 1
denominator (m ∷ ms) = (cost_of m + one_usd) * denominator ms

-- The weight `(maxCost + 1) / (c + 1)`, scaled by that product, of which `c + 1` is a factor.
abbrev pub scaled_weight : ℕ → ℕ → ModelProfile → ℕ
scaled_weight most scale model = (most + one_usd) * (scale / (cost_of model + one_usd))

pub total_weight : ℕ → ℕ → List ModelProfile → ℕ
total_weight most scale [] = 0
total_weight most scale (m ∷ ms) = scaled_weight most scale m + total_weight most scale ms

-- The loop, with the weight that it has subtracted so far: `random <= 0` after the next subtraction.
unfoldable pub pick : ℕ → ℕ → Draw → ℕ → ℕ → ModelProfile → List ModelProfile → ModelProfile
pick most scale (n, d) total seen m [] = m
pick most scale (n, d) total seen m (next ∷ ms) =
    let rest = pick most scale (n, d) total (seen + scaled_weight most scale m) next ms in
    if leb (n * total) ((seen + scaled_weight most scale m) * d) then m else rest

unfoldable pub weighted_select : Draw → List ModelProfile → Option ModelProfile
unfolding pick max_cost denominator total_weight
weighted_select draw [] = none
weighted_select draw (m ∷ []) = some m
weighted_select (n, d) (m ∷ next ∷ ms) =
    let candidates = m ∷ next ∷ ms in
    let most = max_cost candidates in
    let scale = denominator candidates in
    if most == 0
    then element candidates (n * length candidates / d)
    else some (pick most scale (n, d) (total_weight most scale candidates) 0 m (next ∷ ms))

-- The part of `Array.filter` that asks the breaker last.
abbrev pub admit :
    ModelProfile → Bool → List ModelProfile × CircuitBreaker → List ModelProfile × CircuitBreaker
admit model true (rest, cb) = (model ∷ rest, cb)
admit model false (rest, cb) = (rest, cb)

-- `fleet.filter((m) => test(m) && this.circuitBreaker.canDispatch(m.id))`
unfoldable pub filter_dispatchable :
    (ModelProfile → Bool)
    → List ModelProfile
    → CircuitBreaker
    → ℕ
    → List ModelProfile × CircuitBreaker
filter_dispatchable test [] cb now = ([], cb)
filter_dispatchable test (m ∷ ms) cb now =
    let asked = can_dispatch cb m.id now in
    let skipped = filter_dispatchable test ms cb now in
    let kept = filter_dispatchable test ms asked.1 now in
    if test m then admit m asked.0 kept else skipped

-- `fleet.find((m) => test(m) && this.circuitBreaker.canDispatch(m.id))`
unfoldable pub find_dispatchable :
    (ModelProfile → Bool)
    → List ModelProfile
    → CircuitBreaker
    → ℕ
    → Option ModelProfile × CircuitBreaker
find_dispatchable test [] cb now = (none, cb)
find_dispatchable test (m ∷ ms) cb now =
    let asked = can_dispatch cb m.id now in
    let skipped = find_dispatchable test ms cb now in
    let refused = find_dispatchable test ms asked.1 now in
    if test m then if asked.0 then (some m, asked.1) else refused else skipped
