-- ===== src/Pipeline/SafeDefault/Choice.antt =====
-- What `safeCloudDefault` of src/domain/pipeline/safe-default.ts selects.
use pi_smart_router.Prelude.{
  ℕ, ◌≡◌, inl, inr, ◌⊎◌, true, false, Option, none, some, List, arith, find_sound, find-eq-none_iff,
  All-mem, Option-cases,
}
use pi_smart_router.Types.{
  ModelProfile, RoutingRequest, Tier, economical_cloud, frontier_cloud, tier_eq,
}
use pi_smart_router.Pinning.Pinner.Rules.{token_estimate}
use pi_smart_router.Routing.ContextFit.{MarginSetting, resolve_safety_margin}
use pi_smart_router.Routing.ContextFit.Fallback.{Usable}
use pi_smart_router.Pipeline.SafeDefault.{fits_when_required, first_of_tier, safe_cloud_default}

-- What a selection says: an economical model is usable; a frontier model is usable and no economical
-- model is; nothing is selected only where neither tier has a usable model.
abbrev pub Chosen : List ModelProfile → ℕ → ℕ → Option ModelProfile → Type 0
Chosen models tokens margin none =
    (x : ModelProfile)
    → Usable models tokens margin x
    → (tier_eq x.tier economical_cloud ≡ false) × (tier_eq x.tier frontier_cloud ≡ false)
Chosen models tokens margin (some m) =
    Usable models tokens margin m
    × ((tier_eq m.tier economical_cloud ≡ true)
        ⊎ ((tier_eq m.tier frontier_cloud ≡ true)
            × ((x : ModelProfile)
                → Usable models tokens margin x
                → tier_eq x.tier economical_cloud ≡ false)))

module _ (setting : MarginSetting) (models : List ModelProfile) (request : RoutingRequest)
    (config : Option ℕ) where
  first_found :
      (tier : Tier) (m : ModelProfile)
      → first_of_tier setting tier models (some request) config ≡ some m
      → Usable models (token_estimate request) (resolve_safety_margin setting config) m
        × (tier_eq m.tier tier ≡ true)
  unfolding fits_when_required
  first_found tier m e =
      let (mem, passes) = find_sound _ models m e in
      ((mem, ground (arith, passes), ground (arith, passes)), ground (arith, passes))

  first_missing :
      (tier : Tier)
      → first_of_tier setting tier models (some request) config ≡ none
      → (x : ModelProfile)
      → Usable models (token_estimate request) (resolve_safety_margin setting config) x
      → tier_eq x.tier tier ≡ false
  unfolding fits_when_required
  first_missing tier e x (mem, healthy, fits) =
      let fails = All-mem _ models x ((find-eq-none_iff _ models).0 e) mem in ground (arith, fails)

  -- The safe default is a healthy model that fits: an economical one, or a frontier one where no
  -- healthy economical model fits, and none only where no healthy model of either tier fits.
  pub safe_cloud_default-Chosen :
      Chosen models
        (token_estimate request)
        (resolve_safety_margin setting config)
        (safe_cloud_default setting models (some request) config)
  unfolding safe_cloud_default
  safe_cloud_default-Chosen =
      elim (Option-cases (first_of_tier setting economical_cloud models (some request) config)) [
        | inr (m, e) ↦
            let (usable, tier) = first_found economical_cloud m e in rw e (usable, inl tier)
        | inl e ↦
            let nobody = first_missing economical_cloud e in
            elim (Option-cases
              (first_of_tier setting frontier_cloud models (some request) config)) [
                | inr (m, f) ↦
                    let (usable, tier) = first_found frontier_cloud m f in
                    rw (e, f) (usable, inr (tier, nobody))
                | inl f ↦
                    rw (e, f)
                      (λ x usable. (nobody x usable, first_missing frontier_cloud f x usable))
              ]
      ]
