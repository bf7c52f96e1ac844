-- ===== src/Persistence/TokenBucket.antt =====
-- The rate limits of src/infrastructure/persistence/sqlite-store.ts. A number of tokens is in millionths
-- and a refill rate in thousandths of a token per second, so that a refill over milliseconds is exact.
pub mod Pace
use pi_smart_router.Prelude.{
  ℕ, ◌+◌, ◌-◌, ◌*◌, ◌/◌, min, String, Bool, true, false, Option, none, some, leb, is_some,
  if◌then◌else◌,
}
use pi_smart_router.Prelude.Table.{Table, get, set}

pub record RateLimitRow : Type 0 where
  pub tokens : ℕ
  pub max_tokens : ℕ
  pub refill_rate : ℕ
  pub last_refill_at : ℕ

pub record TokenBucketResult : Type 0 where
  pub allowed : Bool
  pub remaining : ℕ
  pub retry_after_seconds : Option ℕ

-- `INSERT OR IGNORE`
unfoldable pub init_bucket : Table RateLimitRow → String → ℕ → ℕ → ℕ → Table RateLimitRow
init_bucket buckets key max_tokens refill_rate now =
    if is_some (get key buckets)
    then buckets
    else set key
        (record {
          tokens = max_tokens;
          max_tokens = max_tokens;
          refill_rate = refill_rate;
          last_refill_at = now;
        })
        buckets

-- The tokens after the refill; time that ran backwards refills nothing.
abbrev pub refilled : RateLimitRow → ℕ → ℕ
refilled row now = min row.max_tokens (row.tokens + (now - row.last_refill_at) * row.refill_rate)

-- `Math.ceil(deficit / row.refill_rate)`, with a positive rate.
abbrev pub retry_after : RateLimitRow → ℕ → ℕ
retry_after row deficit = (deficit + (1000 * row.refill_rate - 1)) / (1000 * row.refill_rate)

-- The transaction on a row: its result, and the row that it leaves.
unfoldable pub consume_row : RateLimitRow → ℕ → ℕ → TokenBucketResult × RateLimitRow
consume_row row cost now =
    let ready = refilled row now in
    if leb cost ready
    then (
      record { allowed = true; remaining = ready - cost; retry_after_seconds = none },
      record row { tokens = ready - cost; last_refill_at = now },
    )
    else (
      record {
        allowed = false;
        remaining = ready;
        retry_after_seconds = some (retry_after row (cost - ready));
      },
      record row { tokens = ready; last_refill_at = now },
    )

abbrev pub consume_found :
    Table RateLimitRow
    → String
    → ℕ
    → ℕ
    → Option RateLimitRow
    → Option TokenBucketResult × Table RateLimitRow
consume_found buckets key cost now none = (none, buckets)
consume_found buckets key cost now (some row) =
    (some (consume_row row cost now).0, set key (consume_row row cost now).1 buckets)

-- `consumeToken`: none where the bucket is missing, which throws.
unfoldable pub consume_token :
    Table RateLimitRow → String → ℕ → ℕ → Option TokenBucketResult × Table RateLimitRow
consume_token buckets key cost now = consume_found buckets key cost now (get key buckets)
