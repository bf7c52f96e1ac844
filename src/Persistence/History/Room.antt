-- ===== src/Persistence/History/Room.antt =====
-- makeTelemetryRoom, makeDatasetRoom and makeOutcomeRoom (src/infrastructure/telemetry) on entries in the
-- order of their timestamps, beside the eviction of src/infrastructure/persistence/sqlite-store.ts.
use pi_smart_router.Prelude.{
  ℕ, zero, suc, ◌+◌, ◌-◌, ◌≤◌, ◌≡◌, refl, sym, inl, inr, Bool, true, false, not, List, [], ◌∷◌,
  ◌++◌, length, length-append, filter, filter-append, drop, drop-append, All, ltb, leb, arith,
  Bool-cases,
}
use pi_smart_router.Persistence.History.{evict_expired_entries, shift_to_room, leave_room}
use pi_smart_router.Persistence.SqliteStore.{evict_rows}

module _ {E : Type 0} where
  All-append : (P : E → Type 0) (xs : List E) (e : E) → All P xs → P e → All P (xs ++ e ∷ [])
  All-append P [] e h p = (p, tt)
  All-append P (x ∷ xs) e (q, h) p = (q, All-append P xs e h p)

  All-drop : (P : E → Type 0) (n : ℕ) (xs : List E) → All P xs → All P (drop n xs)
  All-drop P zero xs h = h
  All-drop P (suc n) [] h = tt
  All-drop P (suc n) (x ∷ xs) (q, h) = All-drop P n xs h

  All-filter : (P : E → Type 0) (p : E → Bool) (xs : List E) → All P xs → All P (filter p xs)
  All-filter P p [] h = tt
  All-filter P p (x ∷ xs) (q, h) = elim (Bool-cases (p x)) [
    | inl keep ↦ rw keep (q, All-filter P p xs h)
    | inr lose ↦ rw lose (All-filter P p xs h)
  ]

  -- Nothing is lost where all pass.
  filter-All : (p : E → Bool) (xs : List E) → All (λ x. p x ≡ true) xs → filter p xs ≡ xs
  filter-All p [] h = refl
  filter-All p (x ∷ xs) (q, h) = rw (q, filter-All p xs h) refl

  drop-nil : (n : ℕ) → drop {A = E} n [] ≡ []
  drop-nil zero = refl
  drop-nil (suc n) = refl

  shift_to_room-drop : (m : ℕ) (xs : List E) → shift_to_room (suc m) xs ≡ drop (length xs - m) xs
  unfolding shift_to_room
  shift_to_room-drop m [] = sym (drop-nil (0 - m))
  shift_to_room-drop m (x ∷ xs) = elim (Bool-cases (leb (suc m) (suc (length xs)))) [
    | inl full ↦
        let further : suc (length xs) - m ≡ suc (length xs - m) = ground arith in
        rw (full, further) (shift_to_room-drop m xs)
    | inr room ↦ let enough : suc (length xs) - m ≡ 0 = ground arith in rw (room, enough) refl
  ]

module _ {E : Type 0} (timestamp : E → ℕ) where
  -- The entries are in the order of their timestamps.
  abbrev pub InOrder : List E → Type 0
  InOrder [] = Unit
  InOrder (x ∷ xs) = All (λ y. timestamp x ≤ timestamp y) xs × InOrder xs

  InOrder-append :
      (xs : List E) (e : E)
      → InOrder xs
      → All (λ x. timestamp x ≤ timestamp e) xs
      → InOrder (xs ++ e ∷ [])
  InOrder-append [] e h le = (tt, tt)
  InOrder-append (x ∷ xs) e (first, rest) (p, le) =
      (All-append (λ y. timestamp x ≤ timestamp y) xs e first p, InOrder-append xs e rest le)

  InOrder-drop : (n : ℕ) (xs : List E) → InOrder xs → InOrder (drop n xs)
  InOrder-drop zero xs h = h
  InOrder-drop (suc n) [] h = tt
  InOrder-drop (suc n) (x ∷ xs) (first, rest) = InOrder-drop n xs rest

  InOrder-filter : (p : E → Bool) (xs : List E) → InOrder xs → InOrder (filter p xs)
  InOrder-filter p [] h = tt
  InOrder-filter p (x ∷ xs) (first, rest) = elim (Bool-cases (p x)) [
    | inl keep ↦
        rw keep (All-filter (λ y. timestamp x ≤ timestamp y) p xs first, InOrder-filter p xs rest)
    | inr lose ↦ rw lose (InOrder-filter p xs rest)
  ]

  module _ (window now : ℕ) where
    abbrev is_young : E → Bool
    is_young e = not (ltb (timestamp e + window) now)

    All-young :
        (x : E) (xs : List E)
        → ltb (timestamp x + window) now ≡ false
        → All (λ y. timestamp x ≤ timestamp y) xs
        → All (λ y. is_young y ≡ true) xs
    All-young x [] h le = tt
    All-young x (y ∷ ys) h (p, le) = (ground arith, All-young x ys h le)

    -- In order, to stop at the first young entry is to keep the young ones.
    evict_expired_entries-filter :
        (xs : List E)
        → InOrder xs
        → evict_expired_entries timestamp window now xs ≡ filter is_young xs
    unfolding evict_expired_entries
    evict_expired_entries-filter [] h = refl
    evict_expired_entries-filter (x ∷ xs) (first, rest) =
        elim (Bool-cases (ltb (timestamp x + window) now)) [
          | inl old ↦ rw old (evict_expired_entries-filter xs rest)
          | inr fresh ↦ rw (fresh, filter-All is_young xs (All-young x xs fresh first)) refl
        ]

    -- A young entry that is appended behind a full history: the SQLite eviction after its insert leaves
    -- the same.
    pub leave_room-evict_rows :
        (m : ℕ) (xs : List E) (e : E)
        → InOrder xs
        → now ≤ timestamp e + window
        → leave_room timestamp window (suc m) now xs ++ e ∷ []
          ≡ evict_rows timestamp window (suc m) now (xs ++ e ∷ [])
    unfolding leave_room
    leave_room-evict_rows m xs e ordered young =
        let kept = filter is_young xs in
        let one_kept : filter is_young (e ∷ []) ≡ e ∷ [] = ground arith in
        let longer : length (kept ++ e ∷ []) - suc m ≡ length kept - m =
          omega (arith, length-append kept (e ∷ [])) in
        rw
          (
            evict_expired_entries-filter xs ordered,
            shift_to_room-drop m kept,
            filter-append is_young xs (e ∷ []),
            one_kept,
            longer,
          )
          (sym (drop-append (length kept - m) kept (e ∷ []) (omega arith)))

    pub leave_room-InOrder :
        (m : ℕ) (xs : List E) (e : E)
        → InOrder xs
        → All (λ x. timestamp x ≤ timestamp e) xs
        → InOrder (leave_room timestamp window (suc m) now xs ++ e ∷ [])
          × All
              (λ x. timestamp x ≤ timestamp e)
              (leave_room timestamp window (suc m) now xs ++ e ∷ [])
    unfolding leave_room
    leave_room-InOrder m xs e ordered le =
        let kept = filter is_young xs in
        let older =
          All-drop (λ x. timestamp x ≤ timestamp e) (length kept - m) kept
            (All-filter (λ x. timestamp x ≤ timestamp e) is_young xs le) in
        rw (evict_expired_entries-filter xs ordered, shift_to_room-drop m kept)
          (
            InOrder-append _ e
                (InOrder-drop (length kept - m) kept (InOrder-filter is_young xs ordered)) older,
            All-append (λ x. timestamp x ≤ timestamp e) _ e older (omega arith),
          )
