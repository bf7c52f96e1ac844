-- ===== src/Routing/Prewarm/Window.antt =====
-- What the guard of src/domain/routing/speculative-prewarm.ts remembers of a session.
use pi_smart_router.Prelude.{
  ℕ, ◌+◌, ◌-◌, ◌≤◌, ◌≡◌, refl, sym, ap, inl, inr, zero, suc, Bool, List, [], ◌∷◌, ◌++◌, length,
  length-append, drop, length-drop, drop-append, ltb, arith, Bool-cases,
}
use pi_smart_router.Routing.Prewarm.{session_window_size, push_outcome}

module _ {ℓ} {A : Type ℓ} where
  -- The last n of a list.
  abbrev pub last_n : ℕ → List A → List A
  last_n n xs = drop (length xs - n) xs

  drop-one-drop : (n : ℕ) (xs : List A) → drop 1 (drop n xs) ≡ drop (suc n) xs
  drop-one-drop zero xs = refl
  drop-one-drop (suc n) [] = refl
  drop-one-drop (suc n) (x ∷ xs) = drop-one-drop n xs

  pub length-last_n : (n : ℕ) (xs : List A) → length (last_n n xs) ≤ n
  length-last_n n xs = let shorter = length-drop (length xs - n) xs in omega (arith, shorter)

-- A push on the last outcomes of a history gives the last outcomes of the longer one.
pub push-last_n :
    (outcomes : List Bool) (b : Bool)
    → push_outcome (last_n session_window_size outcomes) b
      ≡ last_n session_window_size (outcomes ++ (b ∷ []))
unfolding push_outcome
push-last_n outcomes b =
    let n = length outcomes in
    let k = n - 16 in
    let longer = outcomes ++ (b ∷ []) in
    let pushed : drop k outcomes ++ (b ∷ []) ≡ drop k longer =
      sym (drop-append k outcomes (b ∷ []) (omega arith)) in
    let count : length longer ≡ n + 1 = length-append outcomes (b ∷ []) in
    let count_pushed : length (drop k longer) ≡ n + 1 - k = rw (length-drop k longer, count) refl in
    rw (pushed, count_pushed, count)
      (elim (Bool-cases (ltb 16 (n + 1 - k))) [
        | inl over ↦
            let later : suc k ≡ n + 1 - 16 = ground (arith, over) in
            rw (over, drop-one-drop k longer) (ap (λ m. drop m longer) later)
        | inr fits ↦
            let none_dropped : k ≡ n + 1 - 16 = ground (arith, fits) in
            rw fits (ap (λ m. drop m longer) none_dropped)
      ])
