-- ===== src/Pinning/Economics.antt =====
-- src/domain/pinning/cache-breakeven.ts, cache-economics.ts, and `evaluateModelSwitchBreakeven` of
-- session-pinner.ts without a virtual-cost context. Amounts are exact, in units of 10^-18 USD: a cost
-- of micro-USD per million tokens, times tokens, times a million; rates are in thousandths. The checks
-- for NaN and infinity have no counterpart.
use pi_smart_router.Prelude.{
  ℕ, suc, ◌*◌, Bool, true, false, ◌&&◌, not, Option, none, some, leb, get_or, str_eq, if◌then◌else◌,
}
use pi_smart_router.Prelude.Int.{ℤ, pos, negsuc, sub_ℕ, ◌+ℤ◌, leb_ℤ, ltb_ℤ}
use pi_smart_router.Types.{ModelProfile, SaarConfig}

pub data BreakevenReason : Type 0 where
  breakeven_pass breakeven_not_met invalid_input : BreakevenReason

pub record CacheBreakevenResult : Type 0 where
  pub should_switch : Bool
  pub marginal_savings : ℤ
  pub future_cache_value : ℤ
  pub cache_reprime_cost : ℤ
  pub total_benefit : ℤ
  pub reason : BreakevenReason

pub record SaarBreakevenConfig : Type 0 where
  pub prefix_cache_weight : Option ℕ
  pub prefix_cache_discount : Option ℕ

abbrev config_weight : Option SaarBreakevenConfig → Option ℕ
config_weight none = none
config_weight (some c) = c.prefix_cache_weight

abbrev config_discount : Option SaarBreakevenConfig → Option ℕ
config_discount none = none
config_discount (some c) = c.prefix_cache_discount

-- `resolveSaarConfig`
abbrev pub resolve_weight : Option SaarBreakevenConfig → ℕ
resolve_weight config = get_or (config_weight config) 200

abbrev pub resolve_discount : Option SaarBreakevenConfig → ℕ
resolve_discount config = get_or (config_discount config) 900

is_valid_usd_component : ℤ → Bool
is_valid_usd_component (pos n) = true
is_valid_usd_component (negsuc n) = false

is_valid_rate : ℕ → Bool
is_valid_rate rate = leb rate 1000

deny_switch : ℤ → ℤ → ℤ → BreakevenReason → CacheBreakevenResult
deny_switch marginal future reprime reason = record {
  should_switch = false;
  marginal_savings = marginal;
  future_cache_value = future;
  cache_reprime_cost = reprime;
  total_benefit = marginal +ℤ future;
  reason = reason;
}

unfoldable pub compute_future_cache_value : ℕ → ℕ → Option SaarBreakevenConfig → ℕ
unfolding is_valid_rate
compute_future_cache_value warm_tokens pinned_cost config =
    if is_valid_rate (resolve_weight config) && is_valid_rate (resolve_discount config)
    then warm_tokens * pinned_cost * resolve_discount config * resolve_weight config
    else 0

unfoldable pub compute_cache_reprime_cost : ℕ → ℕ → ℕ
compute_cache_reprime_cost warm_tokens candidate_cost = warm_tokens * candidate_cost * 1000000

unfoldable pub evaluate_cache_breakeven : ℤ → ℤ → ℤ → CacheBreakevenResult
unfolding is_valid_usd_component deny_switch
evaluate_cache_breakeven marginal future reprime =
    if not (
      is_valid_usd_component marginal
      && is_valid_usd_component future
      && is_valid_usd_component reprime)
    then deny_switch marginal future reprime invalid_input
    else if leb_ℤ (marginal +ℤ future) reprime
    then deny_switch marginal future reprime breakeven_not_met
    else record {
      should_switch = true;
      marginal_savings = marginal;
      future_cache_value = future;
      cache_reprime_cost = reprime;
      total_benefit = marginal +ℤ future;
      reason = breakeven_pass;
    }

unfoldable pub evaluate_cache_breakeven_for_prefix :
    ℤ → ℕ → ℕ → ℕ → Option SaarBreakevenConfig → CacheBreakevenResult
unfolding evaluate_cache_breakeven compute_future_cache_value compute_cache_reprime_cost
evaluate_cache_breakeven_for_prefix marginal warm_tokens pinned_cost candidate_cost config =
    if not (
      is_valid_usd_component marginal
      && is_valid_rate (resolve_weight config)
      && is_valid_rate (resolve_discount config))
    then deny_switch marginal (pos 0) (pos 0) invalid_input
    else evaluate_cache_breakeven marginal
        (pos (compute_future_cache_value warm_tokens pinned_cost config))
        (pos (compute_cache_reprime_cost warm_tokens candidate_cost))

-- A number times a signed one.
abbrev pub scale : ℕ → ℤ → ℤ
scale k (pos n) = pos (k * n)
scale k (negsuc n) = sub_ℕ 0 (k * suc n)

abbrev cost : ModelProfile → ℕ
cost model = model.pricing.fallback_cost_per_1m

unfoldable pub compute_marginal_switch_savings : ModelProfile → ModelProfile → ℕ → ℤ
compute_marginal_switch_savings pinned candidate tokens =
    scale (tokens * 1000000) (sub_ℕ (cost pinned) (cost candidate))

-- `saarConfig ? { prefix_cache_weight } : undefined`
abbrev breakeven_config : Option SaarConfig → Option SaarBreakevenConfig
breakeven_config none = none
breakeven_config (some c) =
    some (record { prefix_cache_weight = some c.prefix_cache_weight; prefix_cache_discount = none })

unfoldable pub evaluate_model_switch_breakeven :
    ModelProfile → ModelProfile → ℕ → ℕ → Option SaarConfig → CacheBreakevenResult
unfolding evaluate_cache_breakeven_for_prefix compute_marginal_switch_savings
evaluate_model_switch_breakeven pinned candidate tokens warm_tokens saar_config =
    if str_eq pinned.id candidate.id
    then record {
      should_switch = true;
      marginal_savings = pos 0;
      future_cache_value = pos 0;
      cache_reprime_cost = pos 0;
      total_benefit = pos 0;
      reason = breakeven_pass;
    }
    else evaluate_cache_breakeven_for_prefix
        (compute_marginal_switch_savings pinned candidate tokens) warm_tokens (cost pinned)
        (cost candidate) (breakeven_config saar_config)

pub data EconomicsReason : Type 0 where
  same_provider_no_cache_penalty savings_below_threshold : EconomicsReason
  warmup_exceeds_savings switch_justified : EconomicsReason

pub record CacheEconomicsResult : Type 0 where
  pub should_switch : Bool
  pub warmup_cost_usd : ℤ
  pub projected_savings_usd : ℤ
  pub reason : EconomicsReason

-- The multiplier is in thousandths, the threshold in units of 10^-18 USD.
pub record CacheEconomicsConfig : Type 0 where
  pub warmup_cost_multiplier : ℕ
  pub min_savings_threshold : ℤ
  pub projected_remaining_turns : ℕ

abbrev pub default_cache_economics : CacheEconomicsConfig
default_cache_economics = record {
  warmup_cost_multiplier = 1150;
  min_savings_threshold = pos 100000000000000000;
  projected_remaining_turns = 5;
}

abbrev pub warmup_cost : ModelProfile → ℕ → CacheEconomicsConfig → ℤ
warmup_cost candidate tokens config =
    scale (tokens * cost candidate * 1000) (sub_ℕ config.warmup_cost_multiplier 1000)

abbrev pub projected_savings : ModelProfile → ModelProfile → ℕ → CacheEconomicsConfig → ℤ
projected_savings pinned candidate tokens config =
    scale (tokens * 1000000 * config.projected_remaining_turns)
      (sub_ℕ (cost pinned) (cost candidate))

unfoldable pub evaluate_cache_economics :
    ModelProfile → ModelProfile → ℕ → CacheEconomicsConfig → CacheEconomicsResult
evaluate_cache_economics pinned candidate tokens config =
    let warmup = warmup_cost candidate tokens config in
    let savings = projected_savings pinned candidate tokens config in
    if str_eq pinned.provider candidate.provider
    then record {
      should_switch = false;
      warmup_cost_usd = pos 0;
      projected_savings_usd = pos 0;
      reason = same_provider_no_cache_penalty;
    }
    else if ltb_ℤ savings config.min_savings_threshold
    then record {
      should_switch = false;
      warmup_cost_usd = warmup;
      projected_savings_usd = savings;
      reason = savings_below_threshold;
    }
    else if leb_ℤ savings warmup
    then record {
      should_switch = false;
      warmup_cost_usd = warmup;
      projected_savings_usd = savings;
      reason = warmup_exceeds_savings;
    }
    else record {
      should_switch = true;
      warmup_cost_usd = warmup;
      projected_savings_usd = savings;
      reason = switch_justified;
    }
