-- ===== src/Routing/ContextFit/Fallback.antt =====
-- The overflow fallback of src/domain/routing/context-fit.ts never selects a model that does not fit.
use pi_smart_router.Prelude.{
  ℕ, ◌≡◌, inl, inr, String, Bool, true, false, ◌&&◌, Option, none, some, List, Memᴰ, filter,
  mem-filter, filter-mem, ltb, str_eq, arith, Bool-cases, Option-cases,
}
use pi_smart_router.Types.{ModelProfile, RoutingRequest, frontier_cloud, tier_eq, given, is_healthy}
use pi_smart_router.Pinning.Pinner.Rules.{token_estimate}
use pi_smart_router.Pinning.SubRoute.{fallback_cost}
use pi_smart_router.Pinning.SubRoute.Select.{
  BestOf, select_loop-BestOf, select_lowest_cost_model-BestOf,
}
use pi_smart_router.Routing.ContextFit.{
  MarginSetting, resolve_safety_margin, model_fits_context, window_of, larger,
  select_largest_window_model, OverflowReason, same_provider_fallback, frontier_fallback, no_fit,
  same_provider_model, frontier_model, resolve_context_overflow_fallback,
}

select_largest_window_model-BestOf :
    (candidates : List ModelProfile)
    → BestOf window_of larger candidates (select_largest_window_model candidates)
unfolding select_largest_window_model
select_largest_window_model-BestOf candidates =
    select_loop-BestOf window_of larger (λ a. ground arith) (λ a b c h k. ground arith) candidates

-- A healthy member of the fleet whose window fits the estimate.
abbrev pub Usable : List ModelProfile → ℕ → ℕ → ModelProfile → Type 0
Usable fleet tokens margin m =
    Memᴰ m fleet × (is_healthy m ≡ true) × (model_fits_context m tokens margin ≡ true)

-- A best of the members that pass a test and fit.
module _ (key : ModelProfile → ℕ) (beats : ℕ → ℕ → Bool) (test : ModelProfile → Bool)
    (tokens margin : ℕ) where
  fitting : List ModelProfile → List ModelProfile
  fitting fleet = filter (λ m. test m && model_fits_context m tokens margin) fleet

  best-Usable :
      (fleet : List ModelProfile) (o : Option ModelProfile) (m : ModelProfile)
      → BestOf key beats (fitting fleet) o
      → o ≡ some m
      → Usable fleet tokens margin m
        × (test m ≡ true)
        × ((x : ModelProfile)
            → Usable fleet tokens margin x
            → test x ≡ true
            → beats (key x) (key m) ≡ false)
  unfolding fitting
  best-Usable fleet o m best e =
      let (mem, healthy, unbeaten) : BestOf key beats (fitting fleet) (some m) = rw e at best in
      let (in_fleet, ok) = mem-filter _ fleet m mem in
      (
        (in_fleet, healthy, ground arith),
        ground arith,
        λ x (there, sound, fits) passes.
            unbeaten x (filter-mem _ fleet x there (ground arith)) sound,
      )

  none-Usable :
      (fleet : List ModelProfile) (o : Option ModelProfile) (m : ModelProfile)
      → BestOf key beats (fitting fleet) o
      → o ≡ none
      → Usable fleet tokens margin m
      → test m ≡ false
  unfolding fitting
  none-Usable fleet o m best e (mem, healthy, fits) = elim (Bool-cases (test m)) [
    | inr fails ↦ fails
    | inl passes ↦
        let ill : BestOf key beats (fitting fleet) none = rw e at best in
        cc (ill m (filter-mem _ fleet m mem (ground arith)), healthy)
  ]

-- No usable member is of the preferred provider.
abbrev pub NoneOfProvider : List ModelProfile → ℕ → ℕ → Option String → Type 0
NoneOfProvider fleet tokens margin preferred =
    (provider : String) (x : ModelProfile)
    → given preferred ≡ some provider
    → Usable fleet tokens margin x
    → str_eq x.provider provider ≡ false

-- What a reason says of the selected model.
abbrev pub Supported :
    List ModelProfile → ℕ → ℕ → Option String → OverflowReason → Option ModelProfile → Type 0
Supported fleet tokens margin preferred same_provider_fallback (some m) =
    (provider : String) × (given preferred ≡ some provider)
    × Usable fleet tokens margin m
    × (str_eq m.provider provider ≡ true)
    × ((x : ModelProfile)
        → Usable fleet tokens margin x
        → str_eq x.provider provider ≡ true
        → larger (window_of x) (window_of m) ≡ false)
Supported fleet tokens margin preferred frontier_fallback (some m) =
    NoneOfProvider fleet tokens margin preferred
    × Usable fleet tokens margin m
    × (tier_eq m.tier frontier_cloud ≡ true)
    × ((x : ModelProfile)
        → Usable fleet tokens margin x
        → tier_eq x.tier frontier_cloud ≡ true
        → ltb (fallback_cost x) (fallback_cost m) ≡ false)
Supported fleet tokens margin preferred no_fit none =
    NoneOfProvider fleet tokens margin preferred
    × ((x : ModelProfile) → Usable fleet tokens margin x → tier_eq x.tier frontier_cloud ≡ false)
Supported fleet tokens margin preferred _ _ = ⊥

same_provider_found :
    (fleet : List ModelProfile) (tokens margin : ℕ) (preferred : Option String) (m : ModelProfile)
    → same_provider_model fleet tokens margin preferred ≡ some m
    → Supported fleet tokens margin preferred same_provider_fallback (some m)
unfolding same_provider_model fitting
same_provider_found fleet tokens margin preferred m e = elim (Option-cases (given preferred)) [
  | inl nowhere ↦ cc (rw (nowhere, same_provider_model) at e)
  | inr (provider, named) ↦
      let (usable, same, largest) =
        best-Usable window_of larger (λ x. str_eq x.provider provider) tokens margin fleet _ m
          (select_largest_window_model-BestOf _) (rw (same_provider_model, named) at e) in
      (provider, named, usable, same, largest)
]

same_provider_none :
    (fleet : List ModelProfile) (tokens margin : ℕ) (preferred : Option String)
    → same_provider_model fleet tokens margin preferred ≡ none
    → NoneOfProvider fleet tokens margin preferred
unfolding same_provider_model fitting
same_provider_none fleet tokens margin preferred e provider x named usable =
    none-Usable window_of larger (λ y. str_eq y.provider provider) tokens margin fleet _ x
      (select_largest_window_model-BestOf _) (rw (named, same_provider_model) at e) usable

-- The overflow fallback selects only a healthy fleet member that fits: of the preferred provider, the one
-- with the largest window, where a window that is not declared counts as the largest safe integer; or else,
-- where no healthy member of that provider fits, the cheapest frontier model. It answers no_fit only
-- where no healthy member that fits is of the preferred provider or of the frontier tier.
pub overflow_fallback-Supported :
    (setting : MarginSetting) (fleet : List ModelProfile) (request : RoutingRequest)
    (preferred : Option String) (config : Option ℕ)
    → let result = resolve_context_overflow_fallback setting fleet request preferred config in
      Supported fleet
        (token_estimate request)
        (resolve_safety_margin setting config)
        preferred
        result.reason_code
        result.model
unfolding resolve_context_overflow_fallback frontier_model fitting
overflow_fallback-Supported setting fleet request preferred config =
    let tokens = token_estimate request in
    let margin = resolve_safety_margin setting config in
    elim (Option-cases (same_provider_model fleet tokens margin preferred)) [
      | inr (m, e) ↦ rw e (same_provider_found fleet tokens margin preferred m e)
      | inl nobody ↦
          let nothing = same_provider_none fleet tokens margin preferred nobody in
          elim (Option-cases (frontier_model fleet tokens margin)) [
            | inr (m, e) ↦
                let (usable, tier, cheapest) =
                  best-Usable fallback_cost ltb (λ x. tier_eq x.tier frontier_cloud) tokens margin
                    fleet _ m (select_lowest_cost_model-BestOf _) e in
                rw (nobody, e) (nothing, usable, tier, cheapest)
            | inl e ↦
                rw (nobody, e)
                  (
                    nothing,
                    λ x usable.
                        none-Usable fallback_cost ltb (λ y. tier_eq y.tier frontier_cloud) tokens
                          margin fleet _ x (select_lowest_cost_model-BestOf _) e usable,
                  )
          ]
    ]
