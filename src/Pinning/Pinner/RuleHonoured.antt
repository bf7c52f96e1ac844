-- ===== src/Pinning/Pinner/RuleHonoured.antt =====
-- The rules of `lookupPin` in src/domain/pinning/session-pinner.ts that a request with `force_model_id` meets:
-- the flip-flop pin and the override.
use pi_smart_router.Prelude.{
  ℕ, ◌≡◌, refl, inl, inr, ◌⊎◌, String, Bool, true, false, ◌&&◌, Option, none, some, List, [], ◌∷◌,
  Memᴰ, All-mem, any, find, find_sound, find-eq-none_iff, str_eq, is_some, arith, Option-cases,
  Bool-cases,
}
use pi_smart_router.Prelude.Table.{get}
use pi_smart_router.Types.{
  Tier, tier_eq, ModelProfile, RoutingRequest, SessionPin, compaction, is_set, is_healthy,
}
use pi_smart_router.Persistence.StorePort.{StorePort}
use pi_smart_router.Pinning.Pinner.Rules.{
  PinAction, use_pin, sub_route, saar_route, break_, no_pin, force_rejected, PinLookupResult,
  not_in_fleet, unhealthy, pinned_model_of, Pinner, repin_tier, resolve_flip_flop_pin,
  resolve_force_override,
}

-- The model is of the tier that the flip-flop guard pins.
abbrev pub OfHeldTier : Option Tier → ModelProfile → Type 0
OfHeldTier none m = ⊥
OfHeldTier (some tier) m = tier_eq m.tier tier ≡ true

-- No tier is pinned, or no healthy member is of it.
abbrev pub NoneOfHeldTier : List ModelProfile → Option Tier → Type 0
NoneOfHeldTier fleet none = Unit
NoneOfHeldTier fleet (some tier) =
    (m : ModelProfile) → Memᴰ m fleet → is_healthy m ≡ true → tier_eq m.tier tier ≡ false

-- What each action says, for a request that forces `id`: `held` is the tier that the guard pins, and
-- `compacted` says that a pinned session was compacted.
abbrev pub HonouredBy :
    List ModelProfile → String → Option Tier → Bool → PinAction → PinLookupResult → Type 0
HonouredBy fleet id held compacted use_pin result =
    (m : ModelProfile) × (result.pinned_model ≡ some m)
    × Memᴰ m fleet
    × (is_healthy m ≡ true)
    × (OfHeldTier held m
        ⊎ ((str_eq m.id id ≡ true) × NoneOfHeldTier fleet held × (compacted ≡ false)))
HonouredBy fleet id held compacted force_rejected result =
    NoneOfHeldTier fleet held
    × (compacted ≡ false)
    × ((m : ModelProfile) → Memᴰ m fleet → is_healthy m ≡ true → str_eq m.id id ≡ false)
    × (((result.force_rejection_reason ≡ some unhealthy)
          × ((m : ModelProfile) × Memᴰ m fleet × (str_eq m.id id ≡ true)))
        ⊎ ((result.force_rejection_reason ≡ some not_in_fleet)
            × ((m : ModelProfile) → Memᴰ m fleet → str_eq m.id id ≡ false)))
HonouredBy fleet id held compacted break_ result =
    NoneOfHeldTier fleet held × (compacted ≡ true) × (result.break_reason ≡ some compaction)
HonouredBy fleet id held compacted sub_route result = ⊥
HonouredBy fleet id held compacted saar_route result = ⊥
HonouredBy fleet id held compacted no_pin result = ⊥

-- The session is pinned, and the request says that it was compacted.
abbrev pub was_compacted : RoutingRequest → Option SessionPin → Bool
was_compacted request pin = is_some pin && is_set request.compaction_flag

abbrev pub Honoured : List ModelProfile → String → Option Tier → Bool → PinLookupResult → Type 0
Honoured fleet id held compacted result = HonouredBy fleet id held compacted result.action result

fails_all :
    {A : Type 0} (p : A → Bool) (x : A) (xs : List A)
    → p x ≡ false
    → ((y : A) → Memᴰ y xs → p y ≡ false)
    → (y : A) → Memᴰ y (x ∷ xs)
    → p y ≡ false
fails_all p x xs miss fails y (Memᴰ.head e) = rw e miss
fails_all p x xs miss fails y (Memᴰ.tail mem) = fails y mem

-- A test that a member passes, or that none does.
any-cases :
    {A : Type 0} (p : A → Bool) (xs : List A)
    → ((any p xs ≡ true) × ((x : A) × Memᴰ x xs × (p x ≡ true)))
      ⊎ ((any p xs ≡ false) × ((x : A) → Memᴰ x xs → p x ≡ false))
any-cases p [] = inr (refl, λ x m. elim m [ ])
any-cases p (x ∷ xs) = elim (Bool-cases (p x)) [
  | inl here ↦ inl (rw here refl, (x, Memᴰ.head refl, here))
  | inr miss ↦ elim (any-cases p xs) [
    | inl (one, (y, mem, passes)) ↦ inl (rw miss one, (y, Memᴰ.tail mem, passes))
    | inr (nobody, fails) ↦ inr (rw miss nobody, fails_all p x xs miss fails)
  ]
]

module _ (port : StorePort) (fleet : List ModelProfile) (id : String) (compacted : Bool) where
  -- A flip-flop pin that returns none has written nothing.
  unfoldable pub HeldStep : Tier → Pinner port → Option PinLookupResult × Pinner port → Type 0
  HeldStep tier p (some result, q) = Honoured fleet id (some tier) compacted result
  HeldStep tier p (none, q) = (q ≡ p) × NoneOfHeldTier fleet (some tier)

  pinned_sound :
      (pin : Option SessionPin) (m : ModelProfile)
      → pinned_model_of port pin fleet ≡ some m
      → Memᴰ m fleet × (is_healthy m ≡ true)
  pinned_sound none m e = cc
  pinned_sound (some pin) m e =
      let (mem, passes) =
        find_sound (λ x. str_eq x.id pin.pinned_model_id && is_healthy x) fleet m e in
      (mem, ground (arith, passes))

  repin_tier-Held :
      (p : Pinner port) (session : String) (tier : Tier) (now : ℕ)
      → HeldStep tier p (repin_tier port p session tier fleet now)
  unfolding HeldStep repin_tier
  repin_tier-Held p session tier now =
      let test : ModelProfile → Bool = λ m. tier_eq m.tier tier && is_healthy m in
      elim (Option-cases (find test fleet)) [
        | inl e ↦
            let fails = (find-eq-none_iff test fleet).0 e in
            rw (e, repin_tier)
              (
                refl,
                λ m mem healthy.
                    let miss : (tier_eq m.tier tier && is_healthy m) ≡ false =
                      All-mem (λ x. test x ≡ false) fleet m fails mem in
                    ground (arith, miss, healthy),
              )
        | inr (m, e) ↦
            let (mem, passes) = find_sound test fleet m e in
            rw (e, repin_tier) (m, refl, mem, ground (arith, passes), inl (ground (arith, passes)))
      ]

  pub resolve_flip_flop_pin-Held :
      (p : Pinner port) (session : String) (tier : Tier) (now : ℕ)
      → HeldStep tier p (resolve_flip_flop_pin port p session tier fleet now)
  unfolding HeldStep resolve_flip_flop_pin
  resolve_flip_flop_pin-Held p session tier now =
      elim (Option-cases (pinned_model_of port (get session p.pins) fleet)) [
        | inl e ↦ rw (e, resolve_flip_flop_pin) (repin_tier-Held p session tier now)
        | inr (m, e) ↦ elim (Bool-cases (tier_eq m.tier tier)) [
          | inr moved ↦
              rw (e, resolve_flip_flop_pin) (rw moved (repin_tier-Held p session tier now))
          | inl held ↦
              let (mem, healthy) = pinned_sound (get session p.pins) m e in
              rw (e, resolve_flip_flop_pin) (rw held (m, refl, mem, healthy, inl held))
        ]
      ]

  pub resolve_force_override-Honoured :
      (held : Option Tier) (p : Pinner port) (request : RoutingRequest) (now : ℕ)
      → NoneOfHeldTier fleet held
      → compacted ≡ false
      → Honoured fleet id held compacted (resolve_force_override port p request id fleet now).0
  unfolding resolve_force_override
  resolve_force_override-Honoured held p request now free warm =
      let test : ModelProfile → Bool = λ m. str_eq m.id id && is_healthy m in
      elim (Option-cases (find test fleet)) [
        | inr (m, e) ↦
            let (mem, passes) = find_sound test fleet m e in
            rw (e, resolve_force_override)
              (m, refl, mem, ground (arith, passes), inr (ground (arith, passes), free, warm))
        | inl e ↦
            let fails = (find-eq-none_iff test fleet).0 e in
            rw (e, resolve_force_override)
              (
                free,
                warm,
                λ m mem healthy.
                    let miss : (str_eq m.id id && is_healthy m) ≡ false =
                      All-mem (λ x. test x ≡ false) fleet m fails mem in
                    ground (arith, miss, healthy),
                elim (any-cases (λ m. str_eq m.id id) fleet) [
                  | inl (one, there) ↦ inl (rw one refl, there)
                  | inr (nobody, absent) ↦ inr (rw nobody refl, absent)
                ],
              )
      ]
