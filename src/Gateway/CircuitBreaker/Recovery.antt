-- ===== src/Gateway/CircuitBreaker/Recovery.antt =====
-- When the breaker of src/infrastructure/gateway/circuit-breaker.ts trips, refuses and recovers.
use pi_smart_router.Prelude.{
  ℕ, ◌+◌, ◌≤◌, ◌<◌, ◌≡◌, refl, ◌∙◌, String, true, false, Option, none, some, List, [], ◌∷◌, ◌++◌,
  arith, eq_refl, length,
}
use pi_smart_router.Prelude.Table.{get, get-set}
use pi_smart_router.Gateway.CircuitBreaker.{
  closed, open_, half_open, CircuitBreakerConfig, CircuitEntry, CircuitBreaker, can_dispatch,
  entry_success, entry_failure, count_failure, entry_or_fresh,
}
use pi_smart_router.Gateway.CircuitBreaker.Transitions.{
  Call, succeeds, fails, run_call, entry_call, get-run_call, state_of, state_at,
}
use pi_smart_router.Gateway.CircuitBreaker.Invariant.{config-run_call}

-- `recordFailure` and `recordSuccess` called at each of the times.
unfoldable pub run_all : Call → CircuitBreaker → String → List ℕ → CircuitBreaker
run_all c cb id [] = cb
run_all c cb id (t ∷ ts) = run_all c (run_call c cb id t) id ts

abbrev pub failures_at : Option CircuitEntry → ℕ
failures_at none = 0
failures_at (some entry) = entry.consecutive_failures

abbrev pub successes_at : Option CircuitEntry → ℕ
successes_at none = 0
successes_at (some entry) = entry.consecutive_successes

abbrev pub Failed : CircuitBreaker → String → ℕ → Type 0
Failed cb id n = (state_of cb id ≡ closed) × (failures_at (get id cb.circuits) ≡ n)

abbrev pub Probing : CircuitBreaker → String → ℕ → Type 0
Probing cb id n = (state_of cb id ≡ half_open) × (successes_at (get id cb.circuits) ≡ n)

-- One more failure under the threshold, for an entry.
entry_fails_below :
    (config : CircuitBreakerConfig) (now n : ℕ) (found : Option CircuitEntry)
    → state_at found ≡ closed
    → failures_at found ≡ n
    → n + 1 < config.failure_threshold
    → (state_at (entry_call fails config now found) ≡ closed)
      × (failures_at (entry_call fails config now found) ≡ n + 1)
unfolding entry_call entry_failure count_failure entry_or_fresh
entry_fails_below config now n none s f h = ground arith
entry_fails_below config now n (some entry) s f h = ground arith

-- The failure that reaches the threshold.
entry_fails_at :
    (config : CircuitBreakerConfig) (now n : ℕ) (found : Option CircuitEntry)
    → state_at found ≡ closed
    → failures_at found ≡ n
    → config.failure_threshold ≡ n + 1
    → (entry : CircuitEntry) × (entry_call fails config now found ≡ some entry)
      × (entry.state ≡ open_)
      × (entry.last_state_change_at ≡ now)
unfolding entry_call entry_failure count_failure entry_or_fresh
entry_fails_at config now n none s f h = (_, refl, ground arith, ground arith)
entry_fails_at config now n (some entry) s f h = (_, refl, ground arith, ground arith)

entry_succeeds_below :
    (config : CircuitBreakerConfig) (now n : ℕ) (found : Option CircuitEntry)
    → state_at found ≡ half_open
    → successes_at found ≡ n
    → n + 1 < config.half_open_successes
    → (state_at (entry_call succeeds config now found) ≡ half_open)
      × (successes_at (entry_call succeeds config now found) ≡ n + 1)
unfolding entry_call entry_success
entry_succeeds_below config now n none s f h = cc
entry_succeeds_below config now n (some entry) s f h = ground arith

entry_succeeds_at :
    (config : CircuitBreakerConfig) (now n : ℕ) (found : Option CircuitEntry)
    → state_at found ≡ half_open
    → successes_at found ≡ n
    → config.half_open_successes ≡ n + 1
    → (state_at (entry_call succeeds config now found) ≡ closed)
      × (failures_at (entry_call succeeds config now found) ≡ 0)
unfolding entry_call entry_success
entry_succeeds_at config now n none s f h = cc
entry_succeeds_at config now n (some entry) s f h = ground arith

-- The entry after a call on its own model.
get-run_call_self :
    (c : Call) (cb : CircuitBreaker) (id : String) (now : ℕ)
    → get id (run_call c cb id now).circuits ≡ entry_call c cb.config now (get id cb.circuits)
get-run_call_self c cb id now = rw (get-run_call c cb id id now, eq_refl id)

open_refuses :
    (cb : CircuitBreaker) (id : String) (now : ℕ) (entry : CircuitEntry)
    → get id cb.circuits ≡ some entry
    → entry.state ≡ open_
    → now < entry.last_state_change_at + cb.config.reset_timeout_ms
    → can_dispatch cb id now ≡ (false, cb)
unfolding can_dispatch
open_refuses cb id now entry e s h = ground arith

open_probes :
    (cb : CircuitBreaker) (id : String) (now : ℕ) (entry : CircuitEntry)
    → get id cb.circuits ≡ some entry
    → entry.state ≡ open_
    → entry.last_state_change_at + cb.config.reset_timeout_ms ≤ now
    → ((can_dispatch cb id now).0 ≡ true) × Probing (can_dispatch cb id now).1 id 0
unfolding can_dispatch
open_probes cb id now entry e s h =
    let probed : CircuitEntry = record entry {
      state = half_open;
      consecutive_successes = 0;
      last_state_change_at = now;
    } in
    ground (arith, get-set id id probed cb.circuits, eq_refl id)

-- `n` failures are on record, and the next one reaches the threshold at time `t`: the circuit opens,
-- refuses until the reset timeout has passed, and then lets a probe through.
trip :
    (cb : CircuitBreaker) (id : String) (n t now : ℕ)
    → Failed cb id n
    → cb.config.failure_threshold ≡ n + 1
    → let after = run_call fails cb id t in
      (now < t + cb.config.reset_timeout_ms → can_dispatch after id now ≡ (false, after))
      × (t + cb.config.reset_timeout_ms ≤ now
          → ((can_dispatch after id now).0 ≡ true) × Probing (can_dispatch after id now).1 id 0)
trip cb id n t now f h =
    let (entry, made, opened, since) =
      entry_fails_at cb.config t n (get id cb.circuits) f.0 f.1 h in
    let after : CircuitBreaker = run_call fails cb id t in
    let stored : get id after.circuits ≡ some entry = get-run_call_self fails cb id t ∙ made in
    let same = config-run_call fails cb id t in
    (
      λ early. open_refuses after id now entry stored opened (rw (since, same) early),
      λ late. open_probes after id now entry stored opened (rw (since, same) late),
    )

-- A circuit with fewer failures than the threshold only counts them.
failures_below :
    (cb : CircuitBreaker) (id : String) (n : ℕ) (ts : List ℕ)
    → Failed cb id n
    → n + length ts < cb.config.failure_threshold
    → Failed (run_all fails cb id ts) id (n + length ts)
      × ((run_all fails cb id ts).config ≡ cb.config)
unfolding run_all
failures_below cb id n [] f h = ((f.0, f.1 ∙ omega arith), refl)
failures_below cb id n (t ∷ ts) f h =
    let same = config-run_call fails cb id t in
    let (s, c) = entry_fails_below cb.config t n (get id cb.circuits) f.0 f.1 (omega arith) in
    let next : Failed (run_call fails cb id t) id (n + 1) =
      (rw (get-run_call_self fails cb id t) s, rw (get-run_call_self fails cb id t) c) in
    let (rest, config) =
      failures_below (run_call fails cb id t) id (n + 1) ts next (rw same (omega arith)) in
    ((rest.0, rest.1 ∙ omega arith), config ∙ same)

successes_below :
    (cb : CircuitBreaker) (id : String) (n : ℕ) (ts : List ℕ)
    → Probing cb id n
    → n + length ts < cb.config.half_open_successes
    → Probing (run_all succeeds cb id ts) id (n + length ts)
      × ((run_all succeeds cb id ts).config ≡ cb.config)
unfolding run_all
successes_below cb id n [] f h = ((f.0, f.1 ∙ omega arith), refl)
successes_below cb id n (t ∷ ts) f h =
    let same = config-run_call succeeds cb id t in
    let (s, c) = entry_succeeds_below cb.config t n (get id cb.circuits) f.0 f.1 (omega arith) in
    let next : Probing (run_call succeeds cb id t) id (n + 1) =
      (rw (get-run_call_self succeeds cb id t) s, rw (get-run_call_self succeeds cb id t) c) in
    let (rest, config) =
      successes_below (run_call succeeds cb id t) id (n + 1) ts next (rw same (omega arith)) in
    ((rest.0, rest.1 ∙ omega arith), config ∙ same)

run_all-append :
    (c : Call) (cb : CircuitBreaker) (id : String) (ts us : List ℕ)
    → run_all c cb id (ts ++ us) ≡ run_all c (run_all c cb id ts) id us
unfolding run_all
run_all-append c cb id [] us = refl
run_all-append c cb id (t ∷ ts) us = run_all-append c (run_call c cb id t) id ts us

-- For a closed circuit with no failure on record: failures that reach the threshold, the last at time
-- `t`, open it. It then refuses dispatch, changing nothing, while the clock is before `t` plus the
-- reset timeout, and from then on allows it and goes to half-open with no success counted. Fewer
-- failures leave it closed.
pub failures_trip :
    (cb : CircuitBreaker) (id : String) (ts : List ℕ) (t now : ℕ)
    → Failed cb id 0
    → length ts + 1 ≡ cb.config.failure_threshold
    → let after = run_all fails cb id (ts ++ t ∷ []) in
      (state_of (run_all fails cb id ts) id ≡ closed)
      × (now < t + cb.config.reset_timeout_ms → can_dispatch after id now ≡ (false, after))
      × (t + cb.config.reset_timeout_ms ≤ now
          → ((can_dispatch after id now).0 ≡ true) × Probing (can_dispatch after id now).1 id 0)
unfolding run_all
failures_trip cb id ts t now f h =
    let (counted, same) = failures_below cb id 0 ts f (omega arith) in
    let mid : CircuitBreaker = run_all fails cb id ts in
    let (refuse, probe) = trip mid id (0 + length ts) t now counted (rw same (omega arith)) in
    rw (run_all-append fails cb id ts (t ∷ []))
      (counted.0, λ early. refuse (rw same early), λ late. probe (rw same late))

-- For a half-open circuit with no success counted: as many successes as the configuration asks for
-- close it with no failure on record, and one fewer leaves it half-open.
pub successes_close :
    (cb : CircuitBreaker) (id : String) (ts : List ℕ) (t : ℕ)
    → Probing cb id 0
    → length ts + 1 ≡ cb.config.half_open_successes
    → (state_of (run_all succeeds cb id ts) id ≡ half_open)
      × Failed (run_all succeeds cb id (ts ++ t ∷ [])) id 0
unfolding run_all
successes_close cb id ts t f h =
    let (counted, same) = successes_below cb id 0 ts f (omega arith) in
    let mid : CircuitBreaker = run_all succeeds cb id ts in
    let closing =
      entry_succeeds_at mid.config t (0 + length ts) (get id mid.circuits) counted.0 counted.1
        (rw same (omega arith)) in
    (
      counted.0,
      rw (run_all-append succeeds cb id ts (t ∷ []), get-run_call_self succeeds mid id t) closing,
    )
