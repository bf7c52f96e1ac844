-- ===== src/Routing/ContextFit.antt =====
-- src/domain/routing/context-fit.ts. The safety margin is a number of thousandths, so `Math.floor` of a
-- window times the margin is a division by 1000.
pub mod Laws
pub mod Fallback
use pi_smart_router.Prelude.{
  ℕ, ◌-◌, ◌*◌, ◌/◌, suc, String, Bool, true, false, not, ◌&&◌, ◌||◌, Option, none, some, List, [],
  ◌∷◌, find, filter, any, get_or, is_some, ltb, leb, str_eq, if◌then◌else◌,
}
use pi_smart_router.Prelude.Int.{ℤ, pos, negsuc}
use pi_smart_router.Types.{
  Tier, economical_cloud, frontier_cloud, tier_eq, ModelProfile, RoutingRequest, CandidateScore,
  is_healthy, given, max_input,
}
use pi_smart_router.Pinning.Pinner.Rules.{token_estimate}
use pi_smart_router.Pinning.SubRoute.{select_loop, select_lowest_cost_model}

-- The environment variable: unset or blank, not a finite number, or a number of thousandths.
pub data MarginSetting : Type 0 where
  unset not_finite : MarginSetting
  finite : ℤ → MarginSetting

abbrev pub default_context_fit_safety_margin : ℕ
default_context_fit_safety_margin = 900

abbrev margin_of_setting : MarginSetting → ℕ
margin_of_setting unset = default_context_fit_safety_margin
margin_of_setting not_finite = default_context_fit_safety_margin
margin_of_setting (finite (negsuc n)) = default_context_fit_safety_margin
margin_of_setting (finite (pos n)) =
    if leb n 0 || ltb 1000 n then default_context_fit_safety_margin else n

-- The margin that a configuration gives is not checked.
unfoldable pub resolve_safety_margin : MarginSetting → Option ℕ → ℕ
resolve_safety_margin setting none = margin_of_setting setting
resolve_safety_margin setting (some margin) = margin

abbrev pub effective_limit : ℕ → ℕ → ℕ
effective_limit window margin = window * margin / 1000

abbrev pub fits_window : Option ℕ → ℕ → ℕ → Bool
fits_window none tokens margin = true
fits_window (some window) tokens margin = leb tokens (effective_limit window margin)

unfoldable pub model_fits_context : ModelProfile → ℕ → ℕ → Bool
model_fits_context profile tokens margin = fits_window (max_input profile) tokens margin

abbrev pub max_safe_integer : ℕ
max_safe_integer = 9007199254740991

-- `model.limits?.max_input_tokens ?? Number.MAX_SAFE_INTEGER`
abbrev pub window_of : ModelProfile → ℕ
window_of model = get_or (max_input model) max_safe_integer

abbrev pub larger : ℕ → ℕ → Bool
larger a b = ltb b a

unfoldable pub select_largest_window_model : List ModelProfile → Option ModelProfile
unfolding select_loop
select_largest_window_model candidates = (select_loop window_of larger candidates (none, none)).0

pub data OverflowReason : Type 0 where
  same_provider_fallback frontier_fallback no_fit : OverflowReason

-- `kind` is `selected` where there is a model and `no_fit` where there is none.
pub record ContextOverflowFallbackResult : Type 0 where
  pub model : Option ModelProfile
  pub reason_code : OverflowReason

abbrev selected : OverflowReason → ModelProfile → ContextOverflowFallbackResult
selected reason m = record { model = some m; reason_code = reason }

abbrev no_fit_result : ContextOverflowFallbackResult
no_fit_result = record { model = none; reason_code = no_fit }

abbrev or_fallback :
    OverflowReason
    → Option ModelProfile
    → ContextOverflowFallbackResult
    → ContextOverflowFallbackResult
or_fallback reason (some m) otherwise = selected reason m
or_fallback reason none otherwise = otherwise

-- The largest model of the preferred provider that fits; the empty name is no provider.
unfoldable pub same_provider_model : List ModelProfile → ℕ → ℕ → Option String → Option ModelProfile
same_provider_model fleet tokens margin preferred = elim (given preferred) [
  | none ↦ none
  | some provider ↦
      select_largest_window_model
        (filter (λ m. str_eq m.provider provider && model_fits_context m tokens margin) fleet)
]

unfoldable pub frontier_model : List ModelProfile → ℕ → ℕ → Option ModelProfile
frontier_model fleet tokens margin =
    select_lowest_cost_model
      (filter (λ m. tier_eq m.tier frontier_cloud && model_fits_context m tokens margin) fleet)

unfoldable pub resolve_context_overflow_fallback :
    MarginSetting
    → List ModelProfile
    → RoutingRequest
    → Option String
    → Option ℕ
    → ContextOverflowFallbackResult
unfolding same_provider_model frontier_model
resolve_context_overflow_fallback setting fleet request preferred config =
    let tokens = token_estimate request in
    let margin = resolve_safety_margin setting config in
    or_fallback same_provider_fallback (same_provider_model fleet tokens margin preferred)
      (or_fallback frontier_fallback (frontier_model fleet tokens margin) no_fit_result)

abbrev is_economical : Option ModelProfile → Bool
is_economical none = false
is_economical (some m) = tier_eq m.tier economical_cloud

unfoldable pub needs_context_overflow_fallback :
    List ModelProfile → List CandidateScore → List ModelProfile → Bool
needs_context_overflow_fallback active [] full = false
needs_context_overflow_fallback active (c ∷ cs) full =
    not (any (λ m. tier_eq m.tier economical_cloud && is_healthy m) active)
    && any (λ r. is_economical (find (λ m. str_eq m.id r.model_id) full)) (c ∷ cs)

pub record ContextFitFilterResult : Type 0 where
  pub effective_fleet : List ModelProfile
  pub rejected : List CandidateScore

-- The entry of a model that does not fit.
abbrev rejection : ModelProfile → ℕ → ℕ → CandidateScore
rejection profile tokens margin = record {
  model_id = profile.id;
  score = 0;
  shortfall = tokens - effective_limit (get_or (max_input profile) 0) margin;
  rejected_reason = some "context_fit_exceeded";
}

-- The loop, from its last iteration to its first.
unfoldable pub filter_loop : List ModelProfile → ℕ → ℕ → ContextFitFilterResult
filter_loop [] tokens margin = record { effective_fleet = []; rejected = [] }
filter_loop (m ∷ ms) tokens margin =
    let rest = filter_loop ms tokens margin in
    if model_fits_context m tokens margin
    then record rest { effective_fleet = m ∷ rest.effective_fleet }
    else record rest { rejected = rejection m tokens margin ∷ rest.rejected }

unfoldable pub filter_fleet_by_context_fit :
    MarginSetting → List ModelProfile → RoutingRequest → Option ℕ → ContextFitFilterResult
unfolding filter_loop
filter_fleet_by_context_fit setting fleet request config =
    if is_some (given request.force_model_id)
    then record { effective_fleet = fleet; rejected = [] }
    else filter_loop fleet (token_estimate request) (resolve_safety_margin setting config)
