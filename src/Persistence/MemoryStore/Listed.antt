-- ===== src/Persistence/MemoryStore/Listed.antt =====
-- The listings of src/infrastructure/persistence/memory-store.ts after an append.
use mathlib.Core.List.{reverse, reverse-append}
use pi_smart_router.Prelude.{
  ℕ, zero, suc, ◌≤◌, ◌<◌, ◌≡◌, refl, inl, inr, Bool, true, Option, none, some, List, [], ◌∷◌, ◌++◌,
  length, filter, filter-append, take, str_eq, eq_refl, arith, Bool-cases,
}
use pi_smart_router.Prelude.Int.{ℤ, pos, negsuc}
use pi_smart_router.Types.{given}
use pi_smart_router.Persistence.History.{leave_room, dataset_window, dataset_max_entries}
use pi_smart_router.Persistence.MemoryStore.{
  MemoryStore, RoutingTelemetry, RoutingDatasetRecord, RoutingOutcomeRecord, append_telemetry,
  append_dataset_record, append_outcome_record, list_telemetry, list_dataset_records,
  list_outcome_records, clamp_history_limit, clamp_dataset_limit, of_session, of_ids, recent,
}

module _ {E : Type 0} where
  -- A list of at most `most` entries with `e` in front.
  abbrev pub Leads : E → ℕ → List E → Type 0
  Leads e most listed = (rest : List E) × (listed ≡ e ∷ rest) × (length rest < most)

  length-take_le : (n : ℕ) (xs : List E) → length (take n xs) ≤ n
  length-take_le zero xs = omega arith
  length-take_le (suc n) [] = omega arith
  length-take_le (suc n) (x ∷ xs) = omega (arith, length-take_le n xs)

  recent-Leads :
      (limit most : ℕ) (xs : List E) (e : E)
      → 0 < limit
      → limit ≤ most
      → Leads e most (recent limit (xs ++ e ∷ []))
  recent-Leads zero most xs e h le = absurd (omega arith)
  recent-Leads (suc n) most xs e h le =
      rw (reverse-append xs (e ∷ []))
        (take n (reverse xs), refl, omega (arith, length-take_le n (reverse xs)))

  filter-last :
      (p : E → Bool) (xs : List E) (e : E)
      → p e ≡ true
      → filter p (xs ++ e ∷ []) ≡ filter p xs ++ e ∷ []
  filter-last p xs e h = rw (filter-append p xs (e ∷ []), h) refl

clamp_history_limit_bounds :
    (limit : Option ℤ) → (0 < clamp_history_limit limit) × (clamp_history_limit limit ≤ 100)
clamp_history_limit_bounds none = (omega arith, omega arith)
clamp_history_limit_bounds (some (pos n)) = (omega arith, omega arith)
clamp_history_limit_bounds (some (negsuc n)) = (omega arith, omega arith)

clamp_dataset_limit_bounds :
    (limit : Option ℤ) → (0 < clamp_dataset_limit limit) × (clamp_dataset_limit limit ≤ 10000)
clamp_dataset_limit_bounds none = (omega arith, omega arith)
clamp_dataset_limit_bounds (some (pos n)) = (omega arith, omega arith)
clamp_dataset_limit_bounds (some (negsuc n)) = (omega arith, omega arith)

of_session-last :
    (xs : List RoutingTelemetry) (e : RoutingTelemetry)
    → (kept : List RoutingTelemetry) × (of_session (given (some e.session_id)) (xs ++ e ∷ [])
        ≡ kept ++ e ∷ [])
of_session-last xs e = elim (Bool-cases (str_eq e.session_id "")) [
  | inl empty ↦ rw empty (xs, refl)
  | inr named ↦
      rw named (_, filter-last (λ x. str_eq x.session_id e.session_id) xs e (eq_refl e.session_id))
]

of_ids-last :
    (xs : List RoutingOutcomeRecord) (e : RoutingOutcomeRecord)
    → (kept : List RoutingOutcomeRecord) × (of_ids
          (given (some e.request_id))
          (given (some e.session_id))
          (xs ++ e ∷ [])
        ≡ kept ++ e ∷ [])
of_ids-last xs e = elim (Bool-cases (str_eq e.request_id "")) [
  | inr named ↦
      rw named (_, filter-last (λ x. str_eq x.request_id e.request_id) xs e (eq_refl e.request_id))
  | inl empty ↦ elim (Bool-cases (str_eq e.session_id "")) [
    | inl blank ↦ rw (empty, blank) (xs, refl)
    | inr named ↦
        rw (empty, named)
          (_, filter-last (λ x. str_eq x.session_id e.session_id) xs e (eq_refl e.session_id))
  ]
]

session-Leads :
    (limit : Option ℤ) (xs : List RoutingTelemetry) (e : RoutingTelemetry)
    → Leads e 100
        (recent (clamp_history_limit limit) (of_session (given (some e.session_id)) (xs ++ e ∷ [])))
session-Leads limit xs e =
    let (kept, last) = of_session-last xs e in
    let (some_listed, at_most) = clamp_history_limit_bounds limit in
    rw last (recent-Leads (clamp_history_limit limit) 100 kept e some_listed at_most)

ids-Leads :
    (limit : Option ℤ) (xs : List RoutingOutcomeRecord) (e : RoutingOutcomeRecord)
    → Leads e 10000 (
        recent
          (clamp_dataset_limit limit)
          (of_ids (given (some e.request_id)) (given (some e.session_id)) (xs ++ e ∷ [])))
ids-Leads limit xs e =
    let (kept, last) = of_ids-last xs e in
    let (some_listed, at_most) = clamp_dataset_limit_bounds limit in
    rw last (recent-Leads (clamp_dataset_limit limit) 10000 kept e some_listed at_most)

-- Whatever a store holds and whatever the limit, an entry that was appended is the first of the next
-- listing: of its session's telemetry, of at most 100, of the dataset, of at most 10000, and of its
-- request's outcomes, of at most 10000.
pub appended-Leads :
    (store : MemoryStore) (now : ℕ) (limit : Option ℤ) (t : RoutingTelemetry)
    (d : RoutingDatasetRecord) (o : RoutingOutcomeRecord)
    → Leads t 100 (list_telemetry (append_telemetry now store t) limit (some t.session_id))
      × Leads d 10000 (list_dataset_records (append_dataset_record now store d) limit)
      × Leads o 10000 (
          list_outcome_records
            (append_outcome_record now store o)
            limit
            (some o.request_id)
            (some o.session_id))
unfolding append_telemetry append_dataset_record append_outcome_record list_telemetry
    list_dataset_records list_outcome_records
appended-Leads store now limit t d o =
    let (some_rows, at_most) = clamp_dataset_limit_bounds limit in
    let room = leave_room (λ e. e.timestamp) dataset_window dataset_max_entries now store.dataset in
    (
      session-Leads limit _ t,
      recent-Leads (clamp_dataset_limit limit) 10000 room d some_rows at_most,
      ids-Leads limit _ o,
    )
