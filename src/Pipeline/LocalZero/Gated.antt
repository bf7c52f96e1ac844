-- ===== src/Pipeline/LocalZero/Gated.antt =====
-- What src/domain/pipeline/local-zero-stage.ts dispatches to.
use pi_smart_router.Prelude.{
  ◌≡◌, ◌⊎◌, ◌≢◌, if◌then◌else◌, subst, refl, sym, inl, inr, String, true, not, ◌&&◌, Option, none,
  some, List, Memᴰ, find, get_or, is_some, leb, Bool-cases, if-elim, arith,
}
use pi_smart_router.Types.{
  ModelProfile, RoutingRequest, RoutingDecision, zero_tier, economical_cloud, tier_eq, is_healthy,
}
use pi_smart_router.Routing.Prewarm.{should_attempt}
use pi_smart_router.Pipeline.{
  RoutingContext, full_local, Route, StageRun, undecided, decided, threw,
}
use pi_smart_router.Pipeline.Sound.{Scoped, Placed, SoundRun}
use pi_smart_router.Pipeline.ToolUse.{
  estimate_cheap_tool_use_requirement, resolve_local_zero_tool_use_ceiling,
}
use pi_smart_router.Pipeline.LocalZero.{
  LocalReadinessResult, LocalZeroOptions, eligible_reason, is_full_local,
  attempt_speculative_prewarm, on_readiness, dispatch_local, too_slow, on_local_model, on_eligible,
  run_local_zero,
}
use pi_smart_router.Pipeline.LocalZero.Outcome.{
  Capable, Dispatched, Local, ZeroRun, below_threshold, chosen-ping, hardware_ready, moved,
  not_below, of_tier, warm-ping, within_ceiling,
}

module _ {Store : Type 0} (local : LocalZeroOptions) (request : RoutingRequest) where
  mapped :
      (P Q : RoutingDecision → Type 0) (before : RoutingContext) (run : StageRun Store)
      → ((d : RoutingDecision) → P d → Q d)
      → ZeroRun local before P run
      → ZeroRun local before Q run
  mapped P Q before (undecided after) k h = h
  mapped P Q before (decided decision after) k (holds, same, full) = (k decision holds, same, full)
  mapped P Q before (threw after) k h = h

  on_readiness-ZeroRun :
      (m : ModelProfile) (reason : String) (route : Route Store)
      (readiness : Option LocalReadinessResult)
      → ((r : LocalReadinessResult)
          → readiness ≡ some r
          → (local.ping ≡ some r) ⊎ (local.prewarm_ping ≡ some r))
      → (readiness ≡ none → local.ping ≡ none)
      → ZeroRun local route.context (Local local m) (on_readiness request m reason route readiness)
  unfolding Local
  on_readiness-ZeroRun m reason route none from empty = (empty refl, refl, refl)
  on_readiness-ZeroRun m reason route (some r) from empty = elim (Bool-cases r.any_model_ready) [
    | inr not_ready ↦ rw not_ready (refl, refl)
    | inl ready ↦ rw ready (((r, ready, from r refl), refl, refl), refl, refl)
  ]

  -- The prewarm keeps the fleets, and its readiness is that of its ping.
  prewarm_keeps :
      (route : Route Store)
      → let (warm, after) = attempt_speculative_prewarm local request route in
        ((r : LocalReadinessResult) → warm ≡ some r → local.prewarm_ping ≡ some r)
        × (after.context.fleet ≡ route.context.fleet)
        × (after.context.full_fleet ≡ route.context.full_fleet)
  unfolding attempt_speculative_prewarm
  prewarm_keeps route =
      let P : Option LocalReadinessResult × Route Store → Type 0 = λ x.
        ((r : LocalReadinessResult) → x.0 ≡ some r → local.prewarm_ping ≡ some r)
        × (x.1.context.fleet ≡ route.context.fleet)
        × (x.1.context.full_fleet ≡ route.context.full_fleet) in
      if-elim P (not route.prewarm_guard.config.enabled) _ _ (λ off. ((λ r e. cc e), refl, refl))
        (λ on.
          if-elim P (not (should_attempt route.prewarm_guard request.session_id)) _ _
            (λ held. ((λ r e. cc e), refl, refl))
            (λ free. ((λ r e. warm-ping local _ r e), refl, refl)))

  dispatch-ZeroRun :
      (m : ModelProfile) (reason : String) (route : Route Store)
      → ZeroRun local route.context (Local local m) (dispatch_local local request m reason route)
  dispatch-ZeroRun m reason route =
      let (warm, after) = attempt_speculative_prewarm local request route in
      let (from_ping, same, full) = prewarm_keeps route in
      let (pinged, missing) = chosen-ping local warm from_ping in
      moved local (Local local m) route.context after _ same full (
        on_readiness-ZeroRun m reason after (if is_some warm then warm else local.ping) pinged
          missing)

  too_slow-ZeroRun :
      (P : RoutingDecision → Type 0) (reason : String) (model : Option ModelProfile)
      (route : Route Store)
      → ((m : ModelProfile)
          → model ≡ some m
          → (d : RoutingDecision) → d.selected_model_id ≡ m.id
          → d.tier ≡ economical_cloud
          → P d)
      → ZeroRun local route.context P (too_slow request reason model route)
  too_slow-ZeroRun P reason none route h = (refl, refl)
  too_slow-ZeroRun P reason (some m) route h = (h m refl _ refl refl, refl, refl)

  on_local_model-ZeroRun :
      (reason : String) (route : Route Store) (model : Option ModelProfile)
      → model ≡ find (λ x. tier_eq x.tier zero_tier && is_healthy x) route.context.fleet
      → eligible_reason local route.context ≢ none
      → local.enabled ≡ true
      → route.context.hardware_result ≡ full_local
      → ZeroRun local route.context
          (Dispatched local request route.context)
          (on_local_model local request reason route model)
  unfolding Local
  on_local_model-ZeroRun reason route none e eligible enabled hardware = (refl, refl)
  on_local_model-ZeroRun reason route (some m) e eligible enabled hardware =
      let (mem, tier, healthy) = of_tier route.context.fleet zero_tier m (sym e) in
      let Z : StageRun Store → Type 0 =
        ZeroRun local route.context (Dispatched local request route.context) in
      let estimate =
        estimate_cheap_tool_use_requirement local.trim local.tool_use_cues request.prompt_text in
      let ceiling =
        resolve_local_zero_tool_use_ceiling m.capabilities.tool_use
          local.max_tool_use_requirement in
      if-elim Z (not (leb estimate ceiling)) _ _ (λ short. (refl, refl))
        (λ fits.
          let capable : Capable local request route.context m =
            (mem, tier, healthy, within_ceiling local estimate m fits) in
          if-elim Z (not (get_or local.above_threshold true)) _ _
            (λ slow. too_slow-ZeroRun _ reason _ route (λ n found d named placed.
              let (inside, cheap, alive) = of_tier route.context.fleet economical_cloud n found in
              (
                eligible,
                enabled,
                hardware,
                m,
                capable,
                inr (
                  below_threshold local.above_threshold slow,
                  n,
                  inside,
                  cheap,
                  alive,
                  named,
                  placed,
                ),
              )))
            (λ quick.
              mapped (Local local m) _ route.context _
                (λ d holds.
                  let (ready, named, placed) : Local local m d = holds in
                  (
                    eligible,
                    enabled,
                    hardware,
                    m,
                    capable,
                    inl (not_below local.above_threshold quick, ready, named, placed),
                  ))
                (dispatch-ZeroRun m reason route)))

  on_eligible-ZeroRun :
      (route : Route Store) (reason : Option String)
      → eligible_reason local route.context ≡ reason
      → ZeroRun local route.context
          (Dispatched local request route.context)
          (on_eligible local request route reason)
  on_eligible-ZeroRun route none e = (refl, refl)
  on_eligible-ZeroRun route (some reason) e =
      let Z : StageRun Store → Type 0 =
        ZeroRun local route.context (Dispatched local request route.context) in
      if-elim Z (not local.enabled) _ _ (λ off. (refl, refl))
        (λ on.
          if-elim Z (not (is_full_local route.context.hardware_result)) _ _ (λ weak. (refl, refl))
            (λ strong.
              on_local_model-ZeroRun reason route _ refl (λ missing. cc (e, missing))
                (ground (arith, on))
                (hardware_ready route.context.hardware_result (ground (arith, strong)))))

  -- The local stage decides only on an eligible turn, with the local tier enabled and the hardware
  -- ready, where the fleet has a healthy local model whose ceiling the estimate of tool use keeps to:
  -- on that model after a ping found a model ready, or, where the throughput is below its threshold, on
  -- a healthy economical model. It keeps the fleets, and throws only where the ping throws.
  pub run_local_zero-Dispatched :
      (route : Route Store)
      → ZeroRun local route.context
          (Dispatched local request route.context)
          (run_local_zero local request route)
  unfolding run_local_zero
  run_local_zero-Dispatched route =
      on_eligible-ZeroRun route (eligible_reason local route.context) refl

Dispatched-Placed :
    (fleet : List ModelProfile) (local : LocalZeroOptions) (request : RoutingRequest)
    (context : RoutingContext) (decision : RoutingDecision)
    → Scoped fleet context
    → Dispatched local request context decision
    → Placed fleet decision
Dispatched-Placed fleet local request context decision h
      (eligible, enabled, hardware, m, capable, inl (quick, ready, named, placed)) =
    let (mem, tier, healthy, fits) = capable in inr (m, h.0 m mem, healthy, sym named)
Dispatched-Placed fleet local request context decision h
      (eligible, enabled, hardware, m, capable, inr (slow, n, mem, cheap, healthy, named, placed)) =
    inr (n, h.0 n mem, healthy, sym named)

same_scope :
    (fleet : List ModelProfile) (before after : RoutingContext)
    → after.fleet ≡ before.fleet
    → after.full_fleet ≡ before.full_fleet
    → Scoped fleet before
    → Scoped fleet after
same_scope fleet before after same full (w, v) =
    (λ m mem. w m (subst (Memᴰ m) same mem), λ m mem. v m (subst (Memᴰ m) full mem))

module _ {Store : Type 0} (fleet : List ModelProfile) (local : LocalZeroOptions)
    (request : RoutingRequest) where
  zero-SoundRun :
      (before : RoutingContext) (run : StageRun Store)
      → Scoped fleet before
      → ZeroRun local before (Dispatched local request before) run
      → SoundRun fleet run
  zero-SoundRun before (undecided after) h (same, full) =
      same_scope fleet before after.context same full h
  zero-SoundRun before (decided d after) h (holds, same, full) = (
    Dispatched-Placed fleet local request before d h holds,
    same_scope fleet before after.context same full h,
  )
  zero-SoundRun before (threw after) h (pinged, same, full) =
      same_scope fleet before after.context same full h

  pub local_zero-SoundRun :
      (route : Route Store)
      → Scoped fleet route.context
      → SoundRun fleet (run_local_zero local request route)
  local_zero-SoundRun route h =
      zero-SoundRun route.context _ h (run_local_zero-Dispatched local request route)
