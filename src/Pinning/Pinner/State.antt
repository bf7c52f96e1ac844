-- ===== src/Pinning/Pinner/State.antt =====
-- What the pin writes of src/domain/pinning/session-pinner.ts do to the pins and to the store.
use pi_smart_router.Prelude.{
  ℕ, ◌≡◌, refl, ◌∙◌, sym, inl, inr, String, Option, none, some, arith, str_eq, eq_refl,
  Option-cases, if◌then◌else◌,
}
use pi_smart_router.Prelude.Table.{get, get-set, get-delete}
use pi_smart_router.Types.{PinReason, SessionPin}
use pi_smart_router.Persistence.StorePort.{StorePort}
use pi_smart_router.Pinning.Pinner.{
  SessionPinner, record_pin, break_pin, load_pin, next_pin, restore_session_pin, persist_pin,
  delete_persisted_pin,
}

module _ (port : StorePort) where
  open port use {Store, get_session_pin, get-put, get-delete as get-deleted}

  abbrev pub Pinner : Type 0
  Pinner = SessionPinner Store

  pub get-record_pin :
      (p : Pinner) (id : String) (model_id : String) (reason : PinReason) (now : ℕ) (other : String)
      → get other (record_pin port p id model_id reason now).pins ≡ (
          if str_eq id other
          then some (next_pin (get id p.pins) id model_id reason now)
          else get other p.pins)
  unfolding record_pin
  get-record_pin p id model_id reason now other = get-set id other _ p.pins

  pub get-break_pin :
      (p : Pinner) (id other : String)
      → get other (break_pin port p id).pins ≡ (if str_eq id other then none else get other p.pins)
  unfolding break_pin
  get-break_pin p id other = get-delete id other p.pins

  -- The store, where there is one, has the same pin for the session as the memory.
  abbrev pub Mirrors : Pinner → String → Type 0
  Mirrors p id = (s : Store) → p.store ≡ some s → get_session_pin s id ≡ get id p.pins

  put_mirrors :
      (store : Option Store) (pin : SessionPin) (id : String) (found : Option SessionPin)
      → ((s : Store) → store ≡ some s → get_session_pin s id ≡ found)
      → (s : Store) → persist_pin port store pin ≡ some s
      → get_session_pin s id ≡ (if str_eq pin.session_id id then some pin else found)
  put_mirrors none pin id found h s e = cc
  put_mirrors (some t) pin id found h s e = ground (arith, get-put t pin id, h t refl)

  delete_mirrors :
      (store : Option Store) (gone id : String) (found : Option SessionPin)
      → ((s : Store) → store ≡ some s → get_session_pin s id ≡ found)
      → (s : Store) → delete_persisted_pin port store gone ≡ some s
      → get_session_pin s id ≡ (if str_eq gone id then none else found)
  delete_mirrors none gone id found h s e = cc
  delete_mirrors (some t) gone id found h s e = ground (arith, get-deleted t gone id, h t refl)

  -- Recording a pin, breaking one and loading one keep the store equal to the memory, for every
  -- session for which it was.
  pub pin_writes-Mirrors :
      (p : Pinner) (id model_id : String) (reason : PinReason) (now : ℕ) (pin : SessionPin)
      (other : String)
      → Mirrors p other
      → Mirrors (record_pin port p id model_id reason now) other
        × Mirrors (break_pin port p id) other
        × Mirrors (load_pin port p pin) other
  unfolding record_pin break_pin load_pin next_pin
  pin_writes-Mirrors p id model_id reason now pin other h =
      let made : SessionPin = next_pin (get id p.pins) id model_id reason now in
      (
        λ s e.
            put_mirrors p.store made other (get other p.pins) h s e
            ∙ sym (get-set id other made p.pins),
        λ s e.
            delete_mirrors p.store id other (get other p.pins) h s e
            ∙ sym (get-delete id other p.pins),
        λ s e.
            put_mirrors p.store pin other (get other p.pins) h s e
            ∙ sym (get-set pin.session_id other pin p.pins),
      )

  -- Restoring a session that has no pin in memory makes the store and the memory agree on it.
  restore_session_pin-Mirrors :
      (p : Pinner) (id : String) → get id p.pins ≡ none → Mirrors (restore_session_pin port p id) id
  unfolding restore_session_pin
  restore_session_pin-Mirrors p id fresh s e = elim (Option-cases p.store) [
    | inl none_there ↦ ground arith
    | inr (t, there) ↦ elim (Option-cases (get_session_pin t id)) [
      | inl missing ↦ ground arith
      | inr (pin, found) ↦ ground (arith, get-set id id pin p.pins, eq_refl id)
    ]
  ]
