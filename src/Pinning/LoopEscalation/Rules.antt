-- ===== src/Pinning/LoopEscalation/Rules.antt =====
-- What one run of the `loop_escalation` stage does to the session's pin:
-- src/domain/pinning/loop-escalation.ts and src/domain/pipeline/session-pin-stage.ts.
use pi_smart_router.Prelude.{
  ℕ, ◌≡◌, refl, ap, ◌∙◌, subst, ◌⊎◌, inl, inr, String, Bool, true, false, Option, none, some, List,
  str_eq, eq_refl, if◌then◌else◌,
}
use pi_smart_router.Prelude.Table.{get, get-set}
use pi_smart_router.Types.{
  Text, PinReason, loop_escalation, ModelProfile, RoutingRequest, SessionPin,
}
use pi_smart_router.Persistence.StorePort.{StorePort}
use pi_smart_router.Pinning.Pinner.{
  SessionPinner, get_pin, load_pin, break_pin, record_pin, next_pin,
}
use pi_smart_router.Pinning.Pinner.State.{get-record_pin}
use pi_smart_router.Pinning.LoopEscalation.{
  LoopEscalationConfig, LoopEscalationResult, evaluate_pinned, evaluate_loop_escalation,
  run_loop_escalation, apply_result, store_updated, escalate,
}
use pi_smart_router.Pinning.LoopEscalation.Verdict.{Sound, Target, evaluate_pinned-Sound}

-- What one run of the stage does to a session's pin: it stays on its model with its reason, or it
-- moves to a target with the reason `loop_escalation`.
abbrev pub StageOutcome : List ModelProfile → SessionPin → Option SessionPin → Type 0
StageOutcome fleet pin after =
    (q : SessionPin) × (after ≡ some q)
    × (((q.pinned_model_id ≡ pin.pinned_model_id) × (q.pin_reason ≡ pin.pin_reason))
        ⊎ ((target : ModelProfile) × Target fleet pin.pinned_model_id target
            × (q.pinned_model_id ≡ target.id)
            × (q.pin_reason ≡ loop_escalation)))

module _ (port : StorePort) where
  pub get-load_pin :
      (p : SessionPinner port.Store) (pin : SessionPin) (id : String)
      → get id (load_pin port p pin).pins
        ≡ (if str_eq pin.session_id id then some pin else get id p.pins)
  unfolding load_pin
  get-load_pin p pin id = get-set pin.session_id id pin p.pins

  pub get-recorded :
      (p : SessionPinner port.Store) (id model_id : String) (reason : PinReason) (now : ℕ)
      → (q : SessionPin) × (get id (record_pin port p id model_id reason now).pins ≡ some q)
        × (q.pinned_model_id ≡ model_id)
        × (q.pin_reason ≡ reason)
  unfolding next_pin
  get-recorded p id model_id reason now = (
    next_pin (get id p.pins) id model_id reason now,
    rw (get-record_pin port p id model_id reason now id, eq_refl id) refl,
    refl,
    refl,
  )

  store_updated-kept :
      (p : SessionPinner port.Store) (pin : SessionPin) (o : Option SessionPin)
      → get pin.session_id p.pins ≡ some pin
      → ((updated : SessionPin)
          → o ≡ some updated
          → (updated.session_id ≡ pin.session_id)
            × (updated.pinned_model_id ≡ pin.pinned_model_id)
            × (updated.pin_reason ≡ pin.pin_reason))
      → (q : SessionPin) × (get pin.session_id (store_updated port p o).pins ≡ some q)
        × (q.pinned_model_id ≡ pin.pinned_model_id)
        × (q.pin_reason ≡ pin.pin_reason)
  store_updated-kept p pin none e h = (pin, e, refl, refl)
  store_updated-kept p pin (some u) e h =
      let (same, model, reason) = h u refl in
      (u, get-load_pin p u pin.session_id ∙ (rw (same, eq_refl pin.session_id) refl), model, reason)

  escalate-Outcome :
      (p : SessionPinner port.Store) (fleet : List ModelProfile) (pin : SessionPin) (b : Bool)
      (o : Option ModelProfile) (now : ℕ)
      → ((q : SessionPin) × (get pin.session_id p.pins ≡ some q)
          × (q.pinned_model_id ≡ pin.pinned_model_id)
          × (q.pin_reason ≡ pin.pin_reason))
      → ((target : ModelProfile)
          → b ≡ true
          → o ≡ some target
          → Target fleet pin.pinned_model_id target)
      → StageOutcome fleet pin (get pin.session_id (escalate port p pin.session_id b o now).pins)
  escalate-Outcome p fleet pin false o now (q, e, m, r) h = (q, e, inl (m, r))
  escalate-Outcome p fleet pin true none now (q, e, m, r) h = (q, e, inl (m, r))
  escalate-Outcome p fleet pin true (some target) now _ h =
      let (q, e, m, r) =
        get-recorded (break_pin port p pin.session_id) pin.session_id target.id loop_escalation
          now in
      (q, e, inr (target, h target refl refl, m, r))

  apply_result-Outcome :
      (p : SessionPinner port.Store) (fleet : List ModelProfile) (pin : SessionPin)
      (result : LoopEscalationResult) (now : ℕ)
      → get pin.session_id p.pins ≡ some pin
      → Sound pin fleet result
      → StageOutcome fleet pin
          (get pin.session_id (apply_result port p pin.session_id result now).pins)
  apply_result-Outcome p fleet pin result now e (stores, targets) =
      escalate-Outcome (store_updated port p result.updated_pin) fleet pin result.should_escalate
        result.escalation_target now (store_updated-kept p pin result.updated_pin e stores) targets

  evaluated-Outcome :
      (lower trim : Text → Text) (p : SessionPinner port.Store) (request : RoutingRequest)
      (fleet : List ModelProfile) (config : LoopEscalationConfig) (now : ℕ)
      (found : Option SessionPin) (pin : SessionPin)
      → found ≡ some pin
      → get pin.session_id p.pins ≡ some pin
      → let result = evaluate_loop_escalation lower trim found request fleet config now in
        StageOutcome fleet pin
          (get pin.session_id (apply_result port p pin.session_id result now).pins)
  unfolding evaluate_loop_escalation
  evaluated-Outcome lower trim p request fleet config now found pin same e = rw same (
      apply_result-Outcome p fleet pin (evaluate_pinned lower trim pin request fleet config now) now
        e (evaluate_pinned-Sound lower trim pin request fleet config now))

  -- One run of the stage leaves a pinned session pinned: on its model with its reason, or with the
  -- reason `loop_escalation` on a healthy frontier member of the fleet that is not its model. The pin
  -- is stored under its own session.
  pub run_loop_escalation-StageOutcome :
      (lower trim : Text → Text) (p : SessionPinner port.Store) (request : RoutingRequest)
      (fleet : List ModelProfile) (config : LoopEscalationConfig) (now : ℕ) (pin : SessionPin)
      → get request.session_id p.pins ≡ some pin
      → pin.session_id ≡ request.session_id
      → StageOutcome fleet pin (
          get request.session_id
            (run_loop_escalation lower trim port p request fleet config now).pins)
  unfolding run_loop_escalation get_pin
  run_loop_escalation-StageOutcome lower trim p request fleet config now pin e own =
      subst
        (λ id. StageOutcome fleet pin (
          get id
            (apply_result port p id
              (evaluate_loop_escalation lower trim (get request.session_id p.pins) request fleet
                config now)
              now).pins))
        own
        (evaluated-Outcome lower trim p request fleet config now (get request.session_id p.pins) pin
          e (ap (λ id. get id p.pins) own ∙ e))
