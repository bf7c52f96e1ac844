-- ===== src/Pinning/Pinner/Settled.antt =====
-- How the result of a rule of src/domain/pinning/session-pinner.ts and the session's pin agree.
use pi_smart_router.Prelude.{
  ℕ, ◌≡◌, refl, ap, sym, inl, inr, String, ◌&&◌, Option, none, some, List, Memᴰ, arith, str_eq,
  eq_iff, eq_refl, find, find_sound, find-eq-none_iff, All-mem, Option-cases, Bool-cases, is_some,
}
use pi_smart_router.Prelude.Table.{get}
use pi_smart_router.Types.{
  Tier, tier_eq, ModelProfile, RoutingRequest, SessionPin, PinReason, is_healthy, given,
}
use pi_smart_router.Persistence.StorePort.{StorePort}
use pi_smart_router.Pinning.Saar.{
  SaarSessionStateTracker, is_idle_expired, reset_for_idle_reopen, touch_activity,
}
use pi_smart_router.Pinning.Pinner.{record_pin, break_pin, next_pin, put_tracker, tracker_of}
use pi_smart_router.Pinning.Pinner.State.{get-record_pin, get-break_pin}
use pi_smart_router.Pinning.Pinner.Rules.{
  PinAction, use_pin, sub_route, saar_route, break_, no_pin, force_rejected, PinLookupResult,
  find_healthy, find_candidate, find_given, pinned_model_of, Pinner, repin_tier,
  resolve_flip_flop_pin, evaluate_break_rules, resolve_force_override, evaluate_saar_policy,
  evaluate_sub_routing, saar_locked, saar_candidate, saar_models,
}
use pi_smart_router.Pinning.Pinner.Lookup.{or_next, use_pinned_model}

abbrev pub pinned_id : Option SessionPin → Option String
pinned_id none = none
pinned_id (some pin) = some pin.pinned_model_id

-- What an action says of the session's pin before and after: a used pin names the returned model, a
-- broken or missing one is gone, and every other action leaves it as it was.
abbrev pub SettledBy :
    PinAction → Option ModelProfile → Option SessionPin → Option SessionPin → Type 0
SettledBy use_pin none before after = ⊥
SettledBy use_pin (some model) before after = pinned_id after ≡ some model.id
SettledBy break_ model before after = after ≡ none
SettledBy no_pin model before after = after ≡ none
SettledBy sub_route model before after = after ≡ before
SettledBy saar_route model before after = after ≡ before
SettledBy force_rejected model before after = after ≡ before

abbrev pub Settled : PinLookupResult → Option SessionPin → Option SessionPin → Type 0
Settled result before after = SettledBy result.action result.pinned_model before after

abbrev pub SettledRule : Option PinLookupResult → Option SessionPin → Option SessionPin → Type 0
SettledRule none before after = after ≡ before
SettledRule (some result) before after = Settled result before after

pub found_id :
    (id : String) (fleet : List ModelProfile) (m : ModelProfile)
    → find_healthy id fleet ≡ some m
    → m.id ≡ id
found_id id fleet m e =
    let r = find_sound (λ x. str_eq x.id id && is_healthy x) fleet m e in
    (eq_iff m.id id).0 (ground (arith, r.1))

module _ (port : StorePort) where
  pin_after_record :
      (p : Pinner port) (id model_id : String) (reason : PinReason) (now : ℕ)
      → pinned_id (get id (record_pin port p id model_id reason now).pins) ≡ some model_id
  unfolding next_pin
  pin_after_record p id model_id reason now =
      rw (get-record_pin port p id model_id reason now id, eq_refl id)

  pin_after_break : (p : Pinner port) (id : String) → get id (break_pin port p id).pins ≡ none
  pin_after_break p id = rw (get-break_pin port p id id, eq_refl id)

  pub or_next-Settled :
      (id : String) (before : Option SessionPin) (x : Option PinLookupResult × Pinner port)
      (next : Pinner port → PinLookupResult × Pinner port)
      → SettledRule x.0 before (get id x.1.pins)
      → ((q : Pinner port)
          → get id q.pins ≡ before
          → Settled (next q).0 before (get id (next q).1.pins))
      → Settled (or_next x next).0 before (get id (or_next x next).1.pins)
  or_next-Settled id before (none, p) next h k = k p h
  or_next-Settled id before (some result, p) next h k = h

  pub use_pinned_model-Settled :
      (p : Pinner port) (id : String) (pin : SessionPin) (fleet : List ModelProfile)
      → get id p.pins ≡ some pin
      → let r = use_pinned_model port p id pin fleet in Settled r.0 (some pin) (get id r.1.pins)
  unfolding use_pinned_model
  use_pinned_model-Settled p id pin fleet h =
      elim (Option-cases (find_healthy pin.pinned_model_id fleet)) [
        | inl e ↦ rw (e, use_pinned_model) (pin_after_break p id)
        | inr (m, e) ↦ rw (e, use_pinned_model, h) (ap some (sym (found_id _ fleet m e)))
      ]

  repin_tier-Settled :
      (p : Pinner port) (id : String) (tier : Tier) (fleet : List ModelProfile) (now : ℕ)
      → let r = repin_tier port p id tier fleet now in
        SettledRule r.0 (get id p.pins) (get id r.1.pins)
  unfolding repin_tier
  repin_tier-Settled p id tier fleet now =
      elim (Option-cases (find (λ m. tier_eq m.tier tier && is_healthy m) fleet)) [
        | inl e ↦ rw (e, repin_tier)
        | inr (m, e) ↦ rw (e, repin_tier) (pin_after_record p id m.id _ now)
      ]

  pub pinned_model_named :
      (pin : Option SessionPin) (fleet : List ModelProfile) (m : ModelProfile)
      → pinned_model_of port pin fleet ≡ some m
      → pinned_id pin ≡ some m.id
  pinned_model_named none fleet m e = cc
  pinned_model_named (some pin) fleet m e = ap some (sym (found_id pin.pinned_model_id fleet m e))

  pub resolve_flip_flop_pin-Settled :
      (p : Pinner port) (id : String) (tier : Tier) (fleet : List ModelProfile) (now : ℕ)
      → let r = resolve_flip_flop_pin port p id tier fleet now in
        SettledRule r.0 (get id p.pins) (get id r.1.pins)
  unfolding resolve_flip_flop_pin
  resolve_flip_flop_pin-Settled p id tier fleet now =
      elim (Option-cases (pinned_model_of port (get id p.pins) fleet)) [
        | inl e ↦ rw (e, resolve_flip_flop_pin) (repin_tier-Settled p id tier fleet now)
        | inr (m, e) ↦ elim (Bool-cases (tier_eq m.tier tier)) [
          | inl held ↦
              rw (e, resolve_flip_flop_pin) (rw held (pinned_model_named (get id p.pins) fleet m e))
          | inr moved ↦
              rw (e, resolve_flip_flop_pin) (rw moved (repin_tier-Settled p id tier fleet now))
        ]
      ]

  pub evaluate_break_rules-Settled :
      (p : Pinner port) (request : RoutingRequest) (pin : SessionPin) (fleet : List ModelProfile)
      → let id = request.session_id in
        let r = evaluate_break_rules port p request pin fleet in
        SettledRule r.0 (get id p.pins) (get id r.1.pins)
  unfolding evaluate_break_rules
  evaluate_break_rules-Settled p request pin fleet =
      ground (arith, pin_after_break p request.session_id)

  pub resolve_force_override-Settled :
      (p : Pinner port) (request : RoutingRequest) (force_id : String) (fleet : List ModelProfile)
      (now : ℕ)
      → let id = request.session_id in
        let r = resolve_force_override port p request force_id fleet now in
        Settled r.0 (get id p.pins) (get id r.1.pins)
  unfolding resolve_force_override
  resolve_force_override-Settled p request force_id fleet now =
      elim (Option-cases (find_healthy force_id fleet)) [
        | inl e ↦ rw (e, resolve_force_override)
        | inr (m, e) ↦
            rw (e, resolve_force_override) (pin_after_record p request.session_id m.id _ now)
      ]

  -- Members of the fleet with one id.
  pub find_same_id :
      (fleet : List ModelProfile) (c : ModelProfile)
      → Memᴰ c fleet
      → (u : ModelProfile) × (find (λ m. str_eq m.id c.id) fleet ≡ some u) × (u.id ≡ c.id)
  find_same_id fleet c m = elim (Option-cases (find (λ x. str_eq x.id c.id) fleet)) [
    | inl e ↦
        let fails = All-mem _ fleet c ((find-eq-none_iff (λ x. str_eq x.id c.id) fleet).0 e) m in
        cc (fails, eq_refl c.id)
    | inr (u, e) ↦ (u, e, (eq_iff u.id c.id).0 (find_sound (λ x. str_eq x.id c.id) fleet u e).1)
  ]

  saar_locked-Settled :
      (p : Pinner port) (request : RoutingRequest) (pin : SessionPin) (fleet : List ModelProfile)
      (pinned candidate : ModelProfile) (now : ℕ)
      → get request.session_id p.pins ≡ some pin
      → pinned.id ≡ pin.pinned_model_id
      → Memᴰ candidate fleet
      → let id = request.session_id in
        let r = saar_locked port p request pin fleet pinned candidate now in
        SettledRule r.0 (some pin) (get id r.1.pins)
  unfolding saar_locked
  saar_locked-Settled p request pin fleet pinned candidate now e same member =
      let (upgraded, found, named) = find_same_id fleet candidate member in
      ground (arith, pin_after_record p request.session_id candidate.id pin.pin_reason now)

  saar_candidate-Settled :
      (p : Pinner port) (tracker : SaarSessionStateTracker) (request : RoutingRequest)
      (pin : SessionPin) (fleet : List ModelProfile) (pinned candidate : ModelProfile) (now : ℕ)
      → get request.session_id p.pins ≡ some pin
      → pinned.id ≡ pin.pinned_model_id
      → Memᴰ candidate fleet
      → let id = request.session_id in
        let r = saar_candidate port p tracker request pin fleet pinned candidate now in
        SettledRule r.0 (some pin) (get id r.1.pins)
  unfolding saar_candidate
  saar_candidate-Settled p tracker request pin fleet pinned candidate now e same member =
      ground (arith, saar_locked-Settled p request pin fleet pinned candidate now e same member)

  candidate_member :
      (id : Option String) (fleet : List ModelProfile) (m : ModelProfile)
      → find_given id fleet ≡ some m
      → Memᴰ m fleet
  candidate_member none fleet m e = cc
  candidate_member (some id) fleet m e =
      (find_sound (λ x. str_eq x.id id && is_healthy x) fleet m e).0

  saar_models-Settled :
      (p : Pinner port) (tracker : SaarSessionStateTracker) (request : RoutingRequest)
      (pin : SessionPin) (fleet : List ModelProfile) (pinned candidate : Option ModelProfile)
      (now : ℕ)
      → get request.session_id p.pins ≡ some pin
      → ((m : ModelProfile) → pinned ≡ some m → m.id ≡ pin.pinned_model_id)
      → ((m : ModelProfile) → candidate ≡ some m → Memᴰ m fleet)
      → let id = request.session_id in
        let r = saar_models port p tracker request pin fleet pinned candidate now in
        SettledRule r.0 (some pin) (get id r.1.pins)
  unfolding saar_models
  saar_models-Settled p tracker request pin fleet (some m) (some c) now e same member =
      saar_candidate-Settled p tracker request pin fleet m c now e (same m refl) (member c refl)
  saar_models-Settled p tracker request pin fleet (some m) none now e same member = e
  saar_models-Settled p tracker request pin fleet none _ now e same member = e

  pub evaluate_saar_policy-Settled :
      (p : Pinner port) (request : RoutingRequest) (pin : SessionPin) (fleet : List ModelProfile)
      (now : ℕ)
      → get request.session_id p.pins ≡ some pin
      → let id = request.session_id in
        let r = evaluate_saar_policy port p request pin fleet now in
        SettledRule r.0 (some pin) (get id r.1.pins)
  unfolding evaluate_saar_policy
  evaluate_saar_policy-Settled p request pin fleet now e =
      let id = request.session_id in
      let tracker = tracker_of p id now in
      let touched = touch_activity tracker now in
      elim (Bool-cases (is_some p.saar_config)) [
        | inr off ↦ rw (off, evaluate_saar_policy) e
        | inl on ↦ elim (Bool-cases (is_idle_expired tracker now)) [
          | inl idle ↦
              rw (on, idle, evaluate_saar_policy)
                (pin_after_break (put_tracker p id (reset_for_idle_reopen tracker now)) id)
          | inr busy ↦
              rw (on, busy, evaluate_saar_policy)
                (saar_models-Settled (put_tracker p id touched) touched request pin fleet
                  (find_healthy pin.pinned_model_id fleet) (find_candidate request fleet) now e
                  (found_id pin.pinned_model_id fleet)
                  (candidate_member (given request.candidate_model_id) fleet))
        ]
      ]

  pub evaluate_sub_routing-Settled :
      (p : Pinner port) (request : RoutingRequest) (pin : SessionPin) (fleet : List ModelProfile)
      → get request.session_id p.pins ≡ some pin
      → SettledRule
          (evaluate_sub_routing p request pin fleet)
          (some pin)
          (get request.session_id p.pins)
  unfolding evaluate_sub_routing
  evaluate_sub_routing-Settled p request pin fleet e = ground arith
