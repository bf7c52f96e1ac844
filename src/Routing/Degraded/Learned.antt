-- ===== src/Routing/Degraded/Learned.antt =====
-- What the learned route map of src/domain/routing/degraded-route-sandwich.ts remembers, and its size.
use pi_smart_router.Prelude.{
  ℕ, ◌≡◌, ◌≤◌, ◌<◌, subst, refl, ap, suc, inl, inr, String, Bool, true, ◌||◌, Option, none, some,
  List, [], ◌∷◌, length, leb, arith, Bool-cases, Option-cases, str_eq, eq_refl, if-elim,
  if◌then◌else◌,
}
use pi_smart_router.Prelude.Table.{Table, get, set, get-set}
use pi_smart_router.Types.{Tier, tier_eq, tier_eq_iff}
use pi_smart_router.Routing.Degraded.{
  LearnedRouteKey, LearnedRouteEntry, InMemoryLearnedRouteStore, new_learned_store, lookup,
  confirmed, first_seen, without_oldest, upsert, upsert_given, record_route, invalid,
}

-- A table within the limit.
abbrev pub Bounded : InMemoryLearnedRouteStore → Type 0
Bounded store =
    (length store.by_fingerprint ≤ store.max_entries)
    × (length store.by_cluster_id ≤ store.max_entries)

-- A new key adds an entry at most.
length-set :
    {V : Type 0} (key : String) (v : V) (entries : Table V)
    → length (set key v entries) ≤ suc (length entries)
unfolding set
length-set key v [] = omega arith
length-set key v ((j, w) ∷ entries) = ground (arith, length-set key v entries)

-- A key that is there adds none.
length-set_there :
    {V : Type 0} (key : String) (v w : V) (entries : Table V)
    → get key entries ≡ some w
    → length (set key v entries) ≡ length entries
unfolding get set
length-set_there key v w [] e = cc
length-set_there key v w ((j, x) ∷ entries) e = elim (Bool-cases (str_eq j key)) [
  | inl here ↦ rw here refl
  | inr there ↦ rw there (ap suc (length-set_there key v w entries (rw there at e)))
]

-- A full table makes room first.
make_room-le :
    (limit : ℕ) (entries : Table LearnedRouteEntry)
    → 0 < limit
    → length entries ≤ limit
    → suc (length (if leb limit (length entries) then without_oldest entries else entries)) ≤ limit
make_room-le limit [] positive h = ground (arith, positive)
make_room-le limit (e ∷ entries) positive h = ground (arith, h)

upsert-le :
    (limit : ℕ) (entries : Table LearnedRouteEntry) (key : String) (tier : Tier)
    → 0 < limit
    → length entries ≤ limit
    → length (upsert limit entries key tier) ≤ limit
unfolding upsert
upsert-le limit entries key tier positive h = elim (Option-cases (get key entries)) [
  | inr (existing, e) ↦ rw e (rw (length-set_there key _ existing entries e) h)
  | inl fresh ↦
      rw fresh
        (omega (arith, length-set key (first_seen tier) _, make_room-le limit entries positive h))
]

upsert_given-le :
    (limit : ℕ) (entries : Table LearnedRouteEntry) (key : Option String) (tier : Tier)
    → 0 < limit
    → length entries ≤ limit
    → length (upsert_given limit entries key tier) ≤ limit
upsert_given-le limit entries none tier positive h = h
upsert_given-le limit entries (some key) tier positive h =
    upsert-le limit entries key tier positive h

-- The tier of an entry that a lookup finds.
abbrev pub tier_of : Option LearnedRouteEntry → Option Tier
tier_of none = none
tier_of (some entry) = some entry.tier

observed-tier :
    (existing : LearnedRouteEntry) (tier : Tier)
    → (if tier_eq existing.tier tier then confirmed existing else first_seen tier).tier ≡ tier
observed-tier existing tier = elim (Bool-cases (tier_eq existing.tier tier)) [
  | inl same ↦ rw same ((tier_eq_iff existing.tier tier).0 same)
  | inr other ↦ rw other refl
]

upsert-tier :
    (limit : ℕ) (entries : Table LearnedRouteEntry) (key : String) (tier : Tier)
    → tier_of (get key (upsert limit entries key tier)) ≡ some tier
unfolding upsert
upsert-tier limit entries key tier = elim (Option-cases (get key entries)) [
  | inl fresh ↦ rw (fresh, get-set, eq_refl key) refl
  | inr (existing, e) ↦ rw (e, get-set, eq_refl key) (ap some (observed-tier existing tier))
]

module _ (is_valid_fingerprint is_valid_cluster_id : String → Bool) where
  -- Observations, one after the other.
  unfoldable pub record_all :
      List (LearnedRouteKey × Tier) → InMemoryLearnedRouteStore → InMemoryLearnedRouteStore
  record_all [] store = store
  record_all ((key, tier) ∷ seen) store =
      record_all seen (record_route is_valid_fingerprint is_valid_cluster_id store key tier)

  -- A table limit that is not zero, and tables within it.
  Kept : InMemoryLearnedRouteStore → Type 0
  Kept store = (0 < store.max_entries) × Bounded store

  record_route-Kept :
      (store : InMemoryLearnedRouteStore) (key : LearnedRouteKey) (tier : Tier)
      → Kept store
      → Kept (record_route is_valid_fingerprint is_valid_cluster_id store key tier)
  unfolding record_route Kept
  record_route-Kept store key tier (positive, (prints, clusters)) =
      if-elim Kept
        (invalid is_valid_fingerprint key.requirement_fingerprint
          || invalid is_valid_cluster_id key.cluster_id)
        _ _ (λ bad. (positive, (prints, clusters)))
        (λ good. (
          positive,
          (
            upsert_given-le store.max_entries store.by_fingerprint key.requirement_fingerprint tier
                positive prints,
            upsert_given-le store.max_entries store.by_cluster_id key.cluster_id tier positive
                clusters,
          ),
        ))

  record_all-Kept :
      (seen : List (LearnedRouteKey × Tier)) (store : InMemoryLearnedRouteStore)
      → Kept store
      → Kept (record_all seen store)
  unfolding record_all
  record_all-Kept [] store h = h
  record_all-Kept ((key, tier) ∷ seen) store h =
      record_all-Kept seen _ (record_route-Kept store key tier h)

  new-Kept :
      (limit : ℕ) (store : InMemoryLearnedRouteStore)
      → new_learned_store limit ≡ some store
      → Kept store
  unfolding new_learned_store Kept
  new-Kept limit store e = elim (Bool-cases (leb limit 0)) [
    | inl empty ↦ cc (rw empty at e)
    | inr positive ↦
        let same : record { max_entries = limit; by_fingerprint = []; by_cluster_id = [] } ≡ store =
          cc (rw positive at e) in
        subst Kept same (ground (arith, positive), (omega arith, omega arith))
  ]

  -- After any observations into a new map, each of its tables is within its limit, and one more
  -- observation of a cluster, under a valid id, gives its tier to a lookup of the cluster.
  pub record_all-learns :
      (limit : ℕ) (store : InMemoryLearnedRouteStore) (seen : List (LearnedRouteKey × Tier))
      (id : String) (tier : Tier)
      → new_learned_store limit ≡ some store
      → is_valid_cluster_id id ≡ true
      → let key : LearnedRouteKey = record {
        requirement_fingerprint = none;
        cluster_id = some id;
      } in
        let after =
          record_route is_valid_fingerprint is_valid_cluster_id (record_all seen store) key tier in
        Bounded after × (tier_of (lookup after key) ≡ some tier)
  unfolding record_route lookup Kept
  record_all-learns limit store seen id tier made valid =
      let key : LearnedRouteKey = record { requirement_fingerprint = none; cluster_id = some id } in
      let kept =
        record_route-Kept _ key tier (record_all-Kept seen store (new-Kept limit store made)) in
      (kept.1, rw valid (upsert-tier _ _ id tier))
