-- ===== src/Routing/Degraded/Resolved.antt =====
-- What src/domain/routing/degraded-route-sandwich.ts resolves a neural failure to.
use pi_smart_router.Prelude.{
  ◌≡◌, ◌≤◌, ◌⊎◌, ◌↔◌, subst, refl, sym, inl, inr, Bool, true, ◌&&◌, Option, none, some, Memᴰ, arith,
  find_sound, find-eq-none_iff, All-mem, Bool-cases, Option-cases, ltb,
}
use pi_smart_router.Types.{ModelProfile, Tier, frontier_cloud, tier_eq, tier_eq_iff, is_healthy}
use pi_smart_router.Routing.Degraded.{
  RoutePath, neural, learned, heuristic, safe_default, LearnedRouteEntry, CompiledPatternRule,
  DegradedRouteInput, learned_entry, pattern_match, suggested_model, first_healthy_model_of_tier,
  cheaper_tier_suggestion_allowed, from_pattern, from_learned, resolve_degraded_route,
}

-- A healthy model of the fleet in the suggested tier, which is frontier or not asked to use tools more
-- than the ceiling.
abbrev pub Suggested : DegradedRouteInput → Tier → ModelProfile → Type 0
Suggested input tier m =
    Memᴰ m input.fleet
    × (m.tier ≡ tier)
    × (is_healthy m ≡ true)
    × ((tier ≡ frontier_cloud) ⊎ (input.tool_use_estimate ≤ input.config.pattern_tool_use_ceiling))

-- No entry of the cluster that is confident enough suggests a model.
abbrev pub NoLearned : DegradedRouteInput → Type 0
NoLearned input =
    (entry : LearnedRouteEntry) (m : ModelProfile)
    → learned_entry input ≡ some entry
    → input.config.learned_min_confidence ≤ entry.confidence
    → ¬ Suggested input entry.tier m

-- The first pattern that matches suggests no model.
abbrev pub NoPattern : DegradedRouteInput → Type 0
NoPattern input =
    (rule : CompiledPatternRule) (m : ModelProfile)
    → pattern_match input ≡ some rule
    → ¬ Suggested input rule.tier m

-- What a resolution rests on, by its path: a learned entry of the cluster that is confident enough; where
-- there is none, the first pattern that matches; where it suggests nothing, the given default.
abbrev pub RestsOn : DegradedRouteInput → RoutePath → Option ModelProfile → Type 0
RestsOn input neural model = ⊥
RestsOn input learned model =
    (entry : LearnedRouteEntry) × (m : ModelProfile) × (learned_entry input ≡ some entry)
    × (input.config.learned_min_confidence ≤ entry.confidence)
    × (model ≡ some m)
    × Suggested input entry.tier m
RestsOn input heuristic model =
    NoLearned input
    × (rule : CompiledPatternRule) × (m : ModelProfile) × (pattern_match input ≡ some rule)
    × (model ≡ some m)
    × Suggested input rule.tier m
RestsOn input safe_default model =
    NoLearned input × NoPattern input × (model ≡ input.safe_default_model)

is_allowed : DegradedRouteInput → Tier → Bool
is_allowed input tier =
    cheaper_tier_suggestion_allowed tier input.tool_use_estimate
      input.config.pattern_tool_use_ceiling

allowed_iff :
    (input : DegradedRouteInput) (tier : Tier)
    → (is_allowed input tier ≡ true) ↔ (
        (tier ≡ frontier_cloud) ⊎ (input.tool_use_estimate ≤ input.config.pattern_tool_use_ceiling))
unfolding is_allowed cheaper_tier_suggestion_allowed
allowed_iff input tier = ground (arith, tier_eq_iff tier frontier_cloud)

suggested_model-Suggested :
    (input : DegradedRouteInput) (tier : Tier) (m : ModelProfile)
    → suggested_model input tier ≡ some m
    → Suggested input tier m
unfolding suggested_model first_healthy_model_of_tier is_allowed
suggested_model-Suggested input tier m e = elim (Bool-cases (is_allowed input tier)) [
  | inr refused ↦ cc (rw refused at e)
  | inl allowed ↦
      let (mem, passes) =
        find_sound (λ x. tier_eq x.tier tier && is_healthy x) input.fleet m (rw allowed at e) in
      (
        mem,
        (tier_eq_iff m.tier tier).0 (ground (arith, passes)),
        ground (arith, passes),
        (allowed_iff input tier).0 allowed,
      )
]

unsuggested :
    (input : DegradedRouteInput) (tier : Tier) (m : ModelProfile)
    → suggested_model input tier ≡ none
    → ¬ Suggested input tier m
unfolding suggested_model first_healthy_model_of_tier is_allowed
unsuggested input tier m e (mem, same, healthy, allowed) =
    let (to, from) = find-eq-none_iff (λ x. tier_eq x.tier tier && is_healthy x) input.fleet in
    let missing = All-mem _ input.fleet m (to (rw ((allowed_iff input tier).1 allowed) at e)) mem in
    ground (arith, missing, healthy, (tier_eq_iff m.tier tier).1 same)

from_pattern-RestsOn :
    (input : DegradedRouteInput) (found : Option CompiledPatternRule)
    → NoLearned input
    → pattern_match input ≡ found
    → let r = from_pattern input found in RestsOn input r.route_path r.model
from_pattern-RestsOn input none unlearned e = (unlearned, λ rule m matched. cc (e, matched), refl)
from_pattern-RestsOn input (some rule) unlearned e =
    elim (Option-cases (suggested_model input rule.tier)) [
      | inl missing ↦ rw missing (
        unlearned,
        λ other m matched.
            let same : rule ≡ other = cc (e, matched) in
            subst (λ (x : CompiledPatternRule). ¬ Suggested input x.tier m) same
              (unsuggested input rule.tier m missing),
        refl,
      )
      | inr (m, chosen) ↦
          rw chosen
            (unlearned, rule, m, e, refl, suggested_model-Suggested input rule.tier m chosen)
    ]

from_learned-RestsOn :
    (input : DegradedRouteInput) (found : Option LearnedRouteEntry)
    → learned_entry input ≡ found
    → let r = from_learned input found in RestsOn input r.route_path r.model
from_learned-RestsOn input none e =
    from_pattern-RestsOn input (pattern_match input) (λ entry m known. cc (e, known)) refl
from_learned-RestsOn input (some entry) e =
    elim (Bool-cases (ltb entry.confidence input.config.learned_min_confidence)) [
      | inl doubtful ↦ rw doubtful (
          from_pattern-RestsOn input (pattern_match input)
            (λ other m known confident.
              let same : entry ≡ other = cc (e, known) in
              let high =
                subst
                  (λ (x : LearnedRouteEntry). input.config.learned_min_confidence ≤ x.confidence)
                  (sym same) confident in
              let impossible : ⊥ = ground (arith, doubtful, high) in elim impossible [ ])
            refl)
      | inr confident ↦ elim (Option-cases (suggested_model input entry.tier)) [
        | inl missing ↦
            rw (confident, missing)
              (from_pattern-RestsOn input (pattern_match input)
                (λ other m known high.
                  let same : entry ≡ other = cc (e, known) in
                  subst (λ (x : LearnedRouteEntry). ¬ Suggested input x.tier m) same
                    (unsuggested input entry.tier m missing))
                refl)
        | inr (m, chosen) ↦
            rw (confident, chosen)
              (
                entry,
                m,
                e,
                ground (arith, confident),
                refl,
                suggested_model-Suggested input entry.tier m chosen,
              )
      ]
    ]

-- A degraded route is on a healthy model of the fleet in the tier of a confident learned entry of the
-- cluster, or else of the first pattern that matches, each only where the tier is frontier or the
-- tool-use estimate is within the ceiling; only where neither has such a model is it the given default.
pub resolve_degraded_route-RestsOn :
    (input : DegradedRouteInput)
    → let r = resolve_degraded_route input in RestsOn input r.route_path r.model
unfolding resolve_degraded_route
resolve_degraded_route-RestsOn input = from_learned-RestsOn input (learned_entry input) refl
