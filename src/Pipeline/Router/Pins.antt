-- ===== src/Pipeline/Router/Pins.antt =====
-- What `persistPinIfNeeded` and `finalizeRoute` of src/domain/pipeline/router-pipeline.ts leave of the
-- session's pin.
use pi_smart_router.Prelude.{
  ℕ, ◌≡◌, refl, String, Bool, true, false, ◌&&◌, ◌||◌, Option, some, arith, str_eq, eq_refl,
  is_some, if-elim,
}
use pi_smart_router.Prelude.Table.{get}
use pi_smart_router.Types.{RoutingRequest, RoutingDecision, SessionPin, initial}
use pi_smart_router.Persistence.StorePort.{StorePort}
use pi_smart_router.Pinning.Pinner.{SessionPinner, get_pin, record_pin, record_saar_turn, next_pin}
use pi_smart_router.Pinning.Pinner.State.{get-record_pin}
use pi_smart_router.Pinning.Pinner.Settled.{pinned_id}
use pi_smart_router.Pipeline.Router.{keeps_pin, persist_pin, finalize_pinner}

-- Recording a turn writes no pin.
pub pins-record_saar_turn :
    {Store : Type 0} (p : SessionPinner Store) (id : String) (now : ℕ)
    → (record_saar_turn p id now).pins ≡ p.pins
unfolding record_saar_turn
pins-record_saar_turn p id now = ground arith

-- A decision that leaves the pin as it is: by its reason, or one of the turn envelope in a session
-- that has a pin.
abbrev pub leaves_pin : RoutingDecision → Option SessionPin → Bool
leaves_pin decision before =
    keeps_pin decision.reason_code || (str_eq decision.stage "turn_envelope" && is_some before)

-- The pins after a finished route: what the session has, from what it had.
abbrev pub PinAfter : RoutingDecision → Option SessionPin → Option SessionPin → Type 0
PinAfter decision before after =
    (leaves_pin decision before ≡ true → after ≡ before)
    × (leaves_pin decision before ≡ false → pinned_id after ≡ some decision.selected_model_id)

module _ (port : StorePort) where
  -- What a call leaves of the pins of every session.
  abbrev pub Finished :
      SessionPinner port.Store → String → RoutingDecision → SessionPinner port.Store → Type 0
  Finished p id decision q =
      PinAfter decision (get id p.pins) (get id q.pins)
      × ((other : String) → str_eq id other ≡ false → get other q.pins ≡ get other p.pins)

  recorded-Finished :
      (p : SessionPinner port.Store) (id : String) (decision : RoutingDecision) (now : ℕ)
      → leaves_pin decision (get id p.pins) ≡ false
      → Finished p id decision (record_pin port p id decision.selected_model_id initial now)
  unfolding next_pin
  recorded-Finished p id decision now moved =
      let after = get-record_pin port p id decision.selected_model_id initial now in
      (
        (λ kept. cc (kept, moved), λ _. rw (after id, eq_refl id)),
        λ other apart. rw (after other, apart),
      )

  persist_pin-Finished :
      (p : SessionPinner port.Store) (request : RoutingRequest) (decision : RoutingDecision)
      (now : ℕ)
      → Finished p request.session_id decision (persist_pin port p request decision now)
  unfolding persist_pin get_pin
  persist_pin-Finished p request decision now =
      let id = request.session_id in
      let same : leaves_pin decision (get id p.pins) ≡ true → Finished p id decision p =
        λ kept. ((λ _. refl, λ moved. cc (kept, moved)), λ other apart. refl) in
      if-elim (Finished p id decision) (keeps_pin decision.reason_code) _ _
        (λ kept. same (ground (arith, kept)))
        (λ open_code.
          if-elim (Finished p id decision)
            (str_eq decision.stage "turn_envelope" && is_some (get id p.pins)) _ _
            (λ biased. same (ground (arith, biased)))
            (λ free. recorded-Finished p id decision now (ground (arith, open_code, free))))

  -- Finishing a route leaves the session's pin where the reason code is exempt or the turn envelope
  -- biased a session with a pin; otherwise the session is pinned to the decided model. The other
  -- sessions keep their pins.
  pub finalize_pinner-PinAfter :
      (p : SessionPinner port.Store) (request : RoutingRequest) (decision : RoutingDecision)
      (now : ℕ)
      → Finished p request.session_id decision (finalize_pinner port p request decision now)
  unfolding finalize_pinner
  finalize_pinner-PinAfter p request decision now =
      let q = persist_pin port p request decision now in
      let (own, others) = persist_pin-Finished p request decision now in
      let same = pins-record_saar_turn q request.session_id now in
      (rw same own, λ other apart. rw same (others other apart))
