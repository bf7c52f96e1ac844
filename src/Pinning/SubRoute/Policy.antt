-- ===== src/Pinning/SubRoute/Policy.antt =====
-- What src/domain/pinning/sub-route-policy.ts decides, and how it relates to the sub-routing of the
-- session pinner.
use pi_smart_router.Prelude.{
  ◌≡◌, refl, inl, inr, true, false, none, some, List, Memᴰ, find, find_sound, filter, filter-mem,
  ltb, str_eq, arith, Bool-cases, Option-cases,
}
use pi_smart_router.Types.{ModelProfile, RoutingRequest, SessionPin, is_healthy}
use pi_smart_router.Pinning.Pinner.Rules.{
  token_estimate, is_tool_result_turn, evaluate_sub_routing, PinLookupResult,
}
use pi_smart_router.Pinning.Pinner.{SessionPinner}
use pi_smart_router.Pinning.SubRoute.{
  evaluate_sub_route_policy, is_sub_route_candidate, select_lowest_cost_model, fallback_cost,
}
use pi_smart_router.Pinning.SubRoute.Select.{BestOf, select_lowest_cost_model-BestOf}

-- An eligible evaluation routes to a healthy fleet member that may take the sub-route, at the least
-- cost of those.
abbrev pub Cheapest : SessionPin → List ModelProfile → ModelProfile → ModelProfile → Type 0
Cheapest pin fleet pinned econ =
    Memᴰ econ fleet
    × (is_sub_route_candidate pin pinned econ ≡ true)
    × ((m : ModelProfile)
        → Memᴰ m fleet
        → is_sub_route_candidate pin pinned m ≡ true
        → ltb (fallback_cost m) (fallback_cost econ) ≡ false)

-- Some candidate makes the selection succeed.
selected_some :
    (pin : SessionPin) (fleet : List ModelProfile) (pinned m : ModelProfile)
    → Memᴰ m fleet
    → is_sub_route_candidate pin pinned m ≡ true
    → (econ : ModelProfile) × (select_lowest_cost_model
          (filter (is_sub_route_candidate pin pinned) fleet)
        ≡ some econ)
selected_some pin fleet pinned m mem ok =
    let candidates = filter (is_sub_route_candidate pin pinned) fleet in
    elim (Option-cases (select_lowest_cost_model candidates)) [
      | inr found ↦ found
      | inl nothing ↦
          let ill : BestOf fallback_cost ltb candidates none =
            rw nothing at (select_lowest_cost_model-BestOf candidates) in
          cc (ill m (filter-mem _ fleet m mem ok), healthy_candidate pin pinned m ok)
    ]
  where
    healthy_candidate :
        (pin : SessionPin) (pinned m : ModelProfile)
        → is_sub_route_candidate pin pinned m ≡ true
        → is_healthy m ≡ true
    healthy_candidate pin pinned m ok = ground arith

-- Where the session pinner sub-routes a tool result, the sub-route policy with the pinner's threshold
-- finds the turn eligible.
pub pinner_sub_route_eligible :
    {Store : Type 0} (p : SessionPinner Store) (request : RoutingRequest) (pin : SessionPin)
    (fleet : List ModelProfile) (result : PinLookupResult)
    → evaluate_sub_routing p request pin fleet ≡ some result
    → (evaluate_sub_route_policy request pin fleet (some p.tool_result_size_threshold)).is_eligible
      ≡ true
unfolding evaluate_sub_route_policy evaluate_sub_routing
pinner_sub_route_eligible p request pin fleet result e =
    elim (Bool-cases (is_tool_result_turn request.turn_type)) [
      | inr other ↦ cc (rw other at e)
      | inl tool ↦ elim (Bool-cases (ltb p.tool_result_size_threshold (token_estimate request))) [
        | inl large ↦ cc (rw (tool, large) at e)
        | inr small ↦ elim (Option-cases (find (λ m. str_eq m.id pin.pinned_model_id) fleet)) [
          | inl gone ↦ cc (rw (tool, small, gone) at e)
          | inr (pinned, here) ↦
              elim (Option-cases (find (is_sub_route_candidate pin pinned) fleet)) [
                | inl nobody ↦ cc (rw (tool, small, here, nobody) at e)
                | inr (econ, found) ↦
                    let (mem, ok) = find_sound _ fleet econ found in
                    let (best, chosen) = selected_some pin fleet pinned econ mem ok in
                    rw (tool, small, here, chosen) refl
              ]
        ]
      ]
    ]
