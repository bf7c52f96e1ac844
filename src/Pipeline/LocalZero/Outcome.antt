-- ===== src/Pipeline/LocalZero/Outcome.antt =====
-- What a run of the local stage may do (src/domain/pipeline/local-zero-stage.ts), and its gates.
use pi_smart_router.Prelude.{
  ℕ, min, ◌≡◌, ◌≤◌, ◌⊎◌, ◌≢◌, if◌then◌else◌, refl, ◌∙◌, inl, inr, Bool, true, false, not, ◌&&◌,
  Option, none, some, List, Memᴰ, find, find_sound, get_or, is_some, leb, arith,
}
use pi_smart_router.Types.{
  ModelProfile, RoutingRequest, RoutingDecision, Tier, zero_tier, economical_cloud, tier_eq,
  tier_eq_iff, is_healthy,
}
use pi_smart_router.Pipeline.{
  RoutingContext, full_local, classification_only, disabled, HardwareProbeResult, Route, StageRun,
  undecided, decided, threw,
}
use pi_smart_router.Pipeline.ToolUse.{
  estimate_cheap_tool_use_requirement, resolve_local_zero_tool_use_ceiling,
}
use pi_smart_router.Pipeline.LocalZero.{
  LocalReadinessResult, LocalZeroOptions, eligible_reason, is_full_local,
}

-- A ping, of the prewarm or of the stage, found a model ready.
abbrev pub Ready : LocalZeroOptions → Type 0
Ready local =
    (readiness : LocalReadinessResult) × (readiness.any_model_ready ≡ true)
    × ((local.ping ≡ some readiness) ⊎ (local.prewarm_ping ≡ some readiness))

-- A local model of the fleet that the gates before the throughput let through.
abbrev pub Capable : LocalZeroOptions → RoutingRequest → RoutingContext → ModelProfile → Type 0
Capable local request context m =
    Memᴰ m context.fleet
    × (m.tier ≡ zero_tier)
    × (is_healthy m ≡ true)
    × (estimate_cheap_tool_use_requirement local.trim local.tool_use_cues request.prompt_text
        ≤ min m.capabilities.tool_use local.max_tool_use_requirement)

-- What a decision of the stage rests on: the gates, and a ready local model or a throughput that is too
-- low with an economical model in its place.
abbrev pub Dispatched :
    LocalZeroOptions → RoutingRequest → RoutingContext → RoutingDecision → Type 0
Dispatched local request context decision =
    (eligible_reason local context ≢ none)
    × (local.enabled ≡ true)
    × (context.hardware_result ≡ full_local)
    × (m : ModelProfile) × Capable local request context m
    × (((local.above_threshold ≢ some false)
          × Ready local
          × (decision.selected_model_id ≡ m.id)
          × (decision.tier ≡ zero_tier))
        ⊎ ((local.above_threshold ≡ some false)
            × (n : ModelProfile) × Memᴰ n context.fleet
            × (n.tier ≡ economical_cloud)
            × (is_healthy n ≡ true)
            × (decision.selected_model_id ≡ n.id)
            × (decision.tier ≡ economical_cloud)))

-- How a run ends: it keeps the fleets, a decision of it has the property, and it throws only where the
-- ping does.
abbrev pub ZeroRun :
    {Store : Type 0}
    → LocalZeroOptions
    → RoutingContext
    → (RoutingDecision → Type 0)
    → StageRun Store
    → Type 0
ZeroRun local before P (undecided after) =
    (after.context.fleet ≡ before.fleet) × (after.context.full_fleet ≡ before.full_fleet)
ZeroRun local before P (decided decision after) =
    P decision
    × (after.context.fleet ≡ before.fleet)
    × (after.context.full_fleet ≡ before.full_fleet)
ZeroRun local before P (threw after) =
    (local.ping ≡ none)
    × (after.context.fleet ≡ before.fleet)
    × (after.context.full_fleet ≡ before.full_fleet)

pub of_tier :
    (fleet : List ModelProfile) (tier : Tier) (m : ModelProfile)
    → find (λ x. tier_eq x.tier tier && is_healthy x) fleet ≡ some m
    → Memᴰ m fleet × (m.tier ≡ tier) × (is_healthy m ≡ true)
of_tier fleet tier m e =
    let (mem, passes) = find_sound (λ x. tier_eq x.tier tier && is_healthy x) fleet m e in
    (mem, (tier_eq_iff m.tier tier).0 (ground (arith, passes)), ground (arith, passes))

pub hardware_ready : (h : HardwareProbeResult) → is_full_local h ≡ true → h ≡ full_local
hardware_ready full_local e = refl
hardware_ready classification_only e = cc
hardware_ready disabled e = cc

-- The decision on the local model, after a ping that found a model ready.
unfoldable pub Local : LocalZeroOptions → ModelProfile → RoutingDecision → Type 0
Local local m decision =
    Ready local × (decision.selected_model_id ≡ m.id) × (decision.tier ≡ zero_tier)

-- The readiness of the stage is that of a ping.
pub chosen-ping :
    (local : LocalZeroOptions) (warm : Option LocalReadinessResult)
    → ((r : LocalReadinessResult) → warm ≡ some r → local.prewarm_ping ≡ some r)
    → let chosen = if is_some warm then warm else local.ping in
      ((r : LocalReadinessResult)
        → chosen ≡ some r
        → (local.ping ≡ some r) ⊎ (local.prewarm_ping ≡ some r))
      × (chosen ≡ none → local.ping ≡ none)
chosen-ping local none h = (λ r e. inl e, λ e. e)
chosen-ping local (some w) h = (λ r e. inr (h r e), λ e. cc e)

pub warm-ping :
    (local : LocalZeroOptions) (accepted : Bool) (r : LocalReadinessResult)
    → (if accepted then local.prewarm_ping else none) ≡ some r
    → local.prewarm_ping ≡ some r
warm-ping local true r e = e
warm-ping local false r e = cc e

pub within_ceiling :
    (local : LocalZeroOptions) (estimate : ℕ) (m : ModelProfile)
    → not (
        leb estimate (
          resolve_local_zero_tool_use_ceiling m.capabilities.tool_use
            local.max_tool_use_requirement))
      ≡ false
    → estimate ≤ min m.capabilities.tool_use local.max_tool_use_requirement
unfolding resolve_local_zero_tool_use_ceiling
within_ceiling local estimate m h = ground (arith, h)

pub below_threshold : (above : Option Bool) → not (get_or above true) ≡ true → above ≡ some false
below_threshold above h = ground (arith, h)

pub not_below : (above : Option Bool) → not (get_or above true) ≡ false → above ≢ some false
not_below none h = λ e. cc e
not_below (some true) h = λ e. cc e
not_below (some false) h = cc h

-- A run after a route with the same fleets.
pub moved :
    {Store : Type 0} (local : LocalZeroOptions) (P : RoutingDecision → Type 0)
    (before : RoutingContext) (route : Route Store) (run : StageRun Store)
    → route.context.fleet ≡ before.fleet
    → route.context.full_fleet ≡ before.full_fleet
    → ZeroRun local route.context P run
    → ZeroRun local before P run
moved local P before route (undecided after) same full (a, b) = (a ∙ same, b ∙ full)
moved local P before route (decided decision after) same full (holds, a, b) =
    (holds, a ∙ same, b ∙ full)
moved local P before route (threw after) same full (pinged, a, b) = (pinged, a ∙ same, b ∙ full)
