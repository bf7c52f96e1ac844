-- ===== src/Pinning/SubRoute/Select.antt =====
-- The selection loops of src/domain/pinning/sub-route-policy.ts and src/domain/routing/context-fit.ts
-- find a best healthy model.
use pi_smart_router.Prelude.{
  ℕ, ◌≡◌, refl, sym, ap, ◌∙◌, ◌⊎◌, inl, inr, Bool, true, false, ◌&&◌, Option, none, some, List, [],
  ◌∷◌, Memᴰ, ltb, arith, if-elim,
}
use pi_smart_router.Types.{ModelProfile, is_healthy}
use pi_smart_router.Pinning.SubRoute.{
  Best, consider, select_loop, beats_best, fallback_cost, select_lowest_cost_model,
}

-- A best model of those seen: none if no healthy one was, else a healthy one that none beats.
abbrev pub BestOf :
    (ModelProfile → ℕ) → (ℕ → ℕ → Bool) → List ModelProfile → Option ModelProfile → Type 0
BestOf key beats seen none = (m : ModelProfile) → Memᴰ m seen → is_healthy m ≡ false
BestOf key beats seen (some best) =
    Memᴰ best seen
    × (is_healthy best ≡ true)
    × ((m : ModelProfile) → Memᴰ m seen → is_healthy m ≡ true → beats (key m) (key best) ≡ false)

-- The key that goes with a best model.
abbrev key_of : (ModelProfile → ℕ) → Option ModelProfile → Option ℕ
key_of key none = none
key_of key (some m) = some (key m)

module _ (key : ModelProfile → ℕ) (beats : ℕ → ℕ → Bool) (irreflexive : (a : ℕ) → beats a a ≡ false)
    (monotone : (a b c : ℕ) → beats b c ≡ true → beats a c ≡ false → beats a b ≡ false) where
  -- What the loop keeps, for the models seen so far in any order.
  Keeps : List ModelProfile → Best → Type 0
  Keeps seen x = BestOf key beats seen x.0 × (x.1 ≡ key_of key x.0)

  Unbeaten : ModelProfile → List ModelProfile → Type 0
  Unbeaten b seen =
      (m : ModelProfile) → Memᴰ m seen → is_healthy m ≡ true → beats (key m) (key b) ≡ false

  add-Unbeaten :
      (b m : ModelProfile) (seen : List ModelProfile)
      → (is_healthy m ≡ true → beats (key m) (key b) ≡ false)
      → Unbeaten b seen
      → Unbeaten b (m ∷ seen)
  unfolding Unbeaten
  add-Unbeaten b m seen here before x (Memᴰ.head e) sound =
      ap (λ y. beats (key y) (key b)) e ∙ here (sym (ap is_healthy e) ∙ sound)
  add-Unbeaten b m seen here before x (Memᴰ.tail later) sound = before x later sound

  add_unhealthy :
      (m : ModelProfile) (seen : List ModelProfile)
      → is_healthy m ≡ false
      → BestOf key beats seen none
      → BestOf key beats (m ∷ seen) none
  add_unhealthy m seen ill kept x (Memᴰ.head e) = ap is_healthy e ∙ ill
  add_unhealthy m seen ill kept x (Memᴰ.tail later) = kept x later

  -- Another model that does not change the best one.
  add_loser :
      (m : ModelProfile) (seen : List ModelProfile) (best : Option ModelProfile)
      → (is_healthy m && beats_best beats (key m) (key_of key best)) ≡ false
      → BestOf key beats seen best
      → BestOf key beats (m ∷ seen) best
  unfolding Unbeaten
  add_loser m seen none loses kept = add_unhealthy m seen (ground arith) kept
  add_loser m seen (some b) loses (member, healthy, unbeaten) =
      (Memᴰ.tail member, healthy, add-Unbeaten b m seen (λ sound. ground arith) unbeaten)

  -- A model that takes the place of the best one.
  add_winner :
      (m : ModelProfile) (seen : List ModelProfile) (best : Option ModelProfile)
      → (is_healthy m && beats_best beats (key m) (key_of key best)) ≡ true
      → BestOf key beats seen best
      → BestOf key beats (m ∷ seen) (some m)
  unfolding Unbeaten
  add_winner m seen none wins kept = (
    Memᴰ.head refl,
    ground arith,
    add-Unbeaten m m seen (λ sound. irreflexive (key m)) (λ x mem sound. cc (kept x mem, sound)),
  )
  add_winner m seen (some b) wins (member, healthy, unbeaten) = (
    Memᴰ.head refl,
    ground arith,
    add-Unbeaten m m seen (λ sound. irreflexive (key m))
        (λ x mem sound. monotone (key x) (key m) (key b) (ground arith) (unbeaten x mem sound)),
  )

  consider-Keeps :
      (m : ModelProfile) (seen : List ModelProfile) (x : Best)
      → Keeps seen x
      → Keeps (m ∷ seen) (consider key beats m x)
  unfolding Keeps
  consider-Keeps m seen (best, k) (kept, e) =
      if-elim (Keeps (m ∷ seen)) (is_healthy m && beats_best beats (key m) k) _ _
        (λ wins. (add_winner m seen best (rw e at wins) kept, refl))
        (λ loses. (add_loser m seen best (rw e at loses) kept, e))

  -- The models in the order in which the loop leaves them.
  abbrev onto : List ModelProfile → List ModelProfile → List ModelProfile
  onto [] seen = seen
  onto (m ∷ ms) seen = onto ms (m ∷ seen)

  onto_sound :
      (ms seen : List ModelProfile) (x : ModelProfile)
      → Memᴰ x (onto ms seen)
      → Memᴰ x ms ⊎ Memᴰ x seen
  onto_sound [] seen x mem = inr mem
  onto_sound (m ∷ ms) seen x mem = elim (onto_sound ms (m ∷ seen) x mem) [
    | inl later ↦ inl (Memᴰ.tail later)
    | inr (Memᴰ.head e) ↦ inl (Memᴰ.head e)
    | inr (Memᴰ.tail before) ↦ inr before
  ]

  onto_complete :
      (ms seen : List ModelProfile) (x : ModelProfile)
      → Memᴰ x ms ⊎ Memᴰ x seen
      → Memᴰ x (onto ms seen)
  onto_complete [] seen x (inl mem) = elim mem [ ]
  onto_complete [] seen x (inr mem) = mem
  onto_complete (m ∷ ms) seen x (inl (Memᴰ.head e)) =
      onto_complete ms (m ∷ seen) x (inr (Memᴰ.head e))
  onto_complete (m ∷ ms) seen x (inl (Memᴰ.tail later)) = onto_complete ms (m ∷ seen) x (inl later)
  onto_complete (m ∷ ms) seen x (inr before) =
      onto_complete ms (m ∷ seen) x (inr (Memᴰ.tail before))

  select_loop-Keeps :
      (ms seen : List ModelProfile) (x : Best)
      → Keeps seen x
      → Keeps (onto ms seen) (select_loop key beats ms x)
  unfolding select_loop
  select_loop-Keeps [] seen x h = h
  select_loop-Keeps (m ∷ ms) seen x h =
      select_loop-Keeps ms (m ∷ seen) (consider key beats m x) (consider-Keeps m seen x h)

  only_members : (ms : List ModelProfile) (x : ModelProfile) → Memᴰ x (onto ms []) → Memᴰ x ms
  only_members ms x mem = elim (onto_sound ms [] x mem) [
    | inl here ↦ here
    | inr nowhere ↦ elim nowhere [ ]
  ]

  in_order :
      (ms : List ModelProfile) (best : Option ModelProfile)
      → BestOf key beats (onto ms []) best
      → BestOf key beats ms best
  in_order ms none h = λ m mem. h m (onto_complete ms [] m (inl mem))
  in_order ms (some b) (member, healthy, unbeaten) =
      (only_members ms b member, healthy, λ m mem. unbeaten m (onto_complete ms [] m (inl mem)))

  pub select_loop-BestOf :
      (ms : List ModelProfile) → BestOf key beats ms (select_loop key beats ms (none, none)).0
  unfolding Keeps
  select_loop-BestOf ms =
      let (best, _) = select_loop-Keeps ms [] (none, none) ((λ m mem. elim mem [ ]), refl) in
      in_order ms _ best

-- The selected model is a healthy candidate with the lowest cost, and none is selected only where no
-- candidate is healthy.
pub select_lowest_cost_model-BestOf :
    (candidates : List ModelProfile)
    → BestOf fallback_cost ltb candidates (select_lowest_cost_model candidates)
unfolding select_lowest_cost_model
select_lowest_cost_model-BestOf candidates =
    select_loop-BestOf fallback_cost ltb (λ a. ground arith) (λ a b c h k. ground arith) candidates
