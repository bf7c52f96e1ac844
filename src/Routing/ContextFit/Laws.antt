-- ===== src/Routing/ContextFit/Laws.antt =====
-- The gate of src/domain/routing/context-fit.ts: what it keeps and rejects, and its agreement with the
-- context-overflow rule of src/domain/pinning/session-pinner.ts.
use pi_smart_router.Prelude.{
  ℕ, ◌+◌, inl, inr, ◌≡◌, ◌<◌, refl, ap, ◌-◌, false, not, Option, none, some, List, [], ◌∷◌, filter,
  get_or, leb, arith, Bool-cases, Option-cases,
}
use pi_smart_router.Types.{ModelProfile, RoutingRequest, CandidateScore, given, max_input}
use pi_smart_router.Pinning.Pinner.Rules.{token_estimate}
use pi_smart_router.Persistence.StorePort.{StorePort}
use pi_smart_router.Routing.ContextFit.{
  MarginSetting, resolve_safety_margin, effective_limit, fits_window, model_fits_context,
  ContextFitFilterResult, rejection, filter_loop, filter_fleet_by_context_fit,
}

-- The rejection of a member that declares a window: its shortfall is what the estimate has above the
-- window's limit.
abbrev pub Shortfall : ℕ → ℕ → ModelProfile → CandidateScore → Type 0
Shortfall tokens margin m r =
    (window : ℕ) × (r.model_id ≡ m.id)
    × (max_input m ≡ some window)
    × (effective_limit window margin + r.shortfall ≡ tokens)
    × (0 < r.shortfall)

-- One rejection for each of the members, in their order.
abbrev pub Rejections : ℕ → ℕ → List ModelProfile → List CandidateScore → Type 0
Rejections tokens margin [] [] = Unit
Rejections tokens margin (m ∷ ms) (r ∷ rs) =
    Shortfall tokens margin m r × Rejections tokens margin ms rs
Rejections tokens margin _ _ = ⊥

abbrev pub Partition : List ModelProfile → ℕ → ℕ → ContextFitFilterResult → Type 0
Partition fleet tokens margin result =
    (result.effective_fleet ≡ filter (λ m. model_fits_context m tokens margin) fleet)
    × Rejections tokens margin (filter (λ m. not (model_fits_context m tokens margin)) fleet)
        result.rejected

-- The limit of a window that is too small, and its shortfall.
limit_short :
    (o : Option ℕ) (window tokens margin : ℕ)
    → o ≡ some window
    → fits_window o tokens margin ≡ false
    → let short = tokens - effective_limit (get_or o 0) margin in
      (effective_limit window margin + short ≡ tokens) × (0 < short)
limit_short o window tokens margin e large =
    let small : leb tokens (effective_limit window margin) ≡ false = rw e at large in
    rw e (ground arith, ground arith)

rejection-Shortfall :
    (m : ModelProfile) (tokens margin : ℕ)
    → model_fits_context m tokens margin ≡ false
    → Shortfall tokens margin m (rejection m tokens margin)
unfolding model_fits_context
rejection-Shortfall m tokens margin e = elim (Option-cases (max_input m)) [
  | inl nowhere ↦ cc (rw nowhere at e)
  | inr (window, declared) ↦
      let (sum, some_short) = limit_short (max_input m) window tokens margin declared e in
      (window, refl, declared, sum, some_short)
]

filter_loop-Partition :
    (fleet : List ModelProfile) (tokens margin : ℕ)
    → Partition fleet tokens margin (filter_loop fleet tokens margin)
unfolding filter_loop
filter_loop-Partition [] tokens margin = (refl, tt)
filter_loop-Partition (m ∷ ms) tokens margin =
    let (kept, short) = filter_loop-Partition ms tokens margin in
    elim (Bool-cases (model_fits_context m tokens margin)) [
      | inl fits ↦ rw fits (ap (λ l. m ∷ l) kept, short)
      | inr large ↦ rw large (kept, (rejection-Shortfall m tokens margin large, short))
    ]

-- Without a forced model the gate keeps exactly the models that fit, in their order, and rejects exactly
-- the other members, each of which declares a window, in their order and each with its own shortfall.
pub filter_fleet-Partition :
    (setting : MarginSetting) (fleet : List ModelProfile) (request : RoutingRequest)
    (config : Option ℕ)
    → given request.force_model_id ≡ none
    → Partition fleet
        (token_estimate request)
        (resolve_safety_margin setting config)
        (filter_fleet_by_context_fit setting fleet request config)
unfolding filter_fleet_by_context_fit
filter_fleet-Partition setting fleet request config free = rw free (filter_loop-Partition fleet _ _)
