-- ===== src/Prelude/Lists.antt =====
-- Lists by Boolean tests (`Array.prototype.find`, `filter`, `some`), with native lengths.
use Prim.Native.Nat.{ℕ, zero, suc, ◌+◌, ◌-◌, ◌≤◌}
use mathlib.Core.Path.{◌≡◌, refl, sym, subst, ap, ◌∙◌}
use mathlib.Core.Logic.{◌↔◌, ◌⊎◌, inl, inr}
use mathlib.Core.Bool.{Bool, true, false, not, ◌||◌}
use mathlib.Core.Option.{Option, none, some}
use mathlib.Core.List.{List, [], ◌∷◌, ◌++◌, Memᴰ}
use native.Mathlib.Omega.{arith}
use pi_smart_router.Prelude.Tests.{if◌then◌else◌, Bool-cases, Option-cases}

module _ {ℓ} {A : Type ℓ} where
  abbrev pub length : List A → ℕ
  length [] = 0
  length (x ∷ xs) = suc (length xs)

  pub length-append : (xs ys : List A) → length (xs ++ ys) ≡ length xs + length ys
  length-append [] ys = omega arith
  length-append (x ∷ xs) ys = omega (arith, length-append xs ys)

  abbrev pub find : (A → Bool) → List A → Option A
  find p [] = none
  find p (x ∷ xs) = if p x then some x else find p xs

  abbrev pub filter : (A → Bool) → List A → List A
  filter p [] = []
  filter p (x ∷ xs) = let rest = filter p xs in if p x then x ∷ rest else rest

  abbrev pub any : (A → Bool) → List A → Bool
  any p [] = false
  any p (x ∷ xs) = p x || any p xs

  abbrev pub drop : ℕ → List A → List A
  drop zero xs = xs
  drop (suc n) [] = []
  drop (suc n) (x ∷ xs) = drop n xs

  abbrev pub take : ℕ → List A → List A
  take zero xs = []
  take (suc n) [] = []
  take (suc n) (x ∷ xs) = x ∷ take n xs

  -- `xs[i]`
  abbrev pub get_elem? : List A → ℕ → Option A
  get_elem? [] i = none
  get_elem? (x ∷ xs) zero = some x
  get_elem? (x ∷ xs) (suc i) = get_elem? xs i

  -- `All P xs`: every member satisfies `P`.
  abbrev pub All {κ} : (A → Type κ) → List A → Type κ
  All P [] = Unit
  All P (x ∷ xs) = P x × All P xs

  -- A found element is a member that passes the test.
  pub find_sound :
      (p : A → Bool) (xs : List A) (x : A) → find p xs ≡ some x → Memᴰ x xs × (p x ≡ true)
  find_sound p [] x e = cc
  find_sound p (y ∷ xs) x e = elim (Bool-cases (p y)) [
    | inl here ↦ (Memᴰ.head (ground arith), ground arith)
    | inr miss ↦ let r = find_sound p xs x (ground arith) in (Memᴰ.tail r.0, r.1)
  ]

  -- Nothing is found exactly when every member fails the test.
  pub find-eq-none_iff :
      (p : A → Bool) (xs : List A) → (find p xs ≡ none) ↔ All (λ x. p x ≡ false) xs
  find-eq-none_iff p [] = (λ _. tt, λ _. refl)
  find-eq-none_iff p (x ∷ xs) =
      let (to, from) = find-eq-none_iff p xs in
      (λ e. (ground arith, to (ground arith)), λ h. ground (arith, from h.1))

  pub All-mem {κ} : (P : A → Type κ) (xs : List A) (x : A) → All P xs → Memᴰ x xs → P x
  All-mem P [] x h m = elim m [ ]
  All-mem P (y ∷ xs) x h (Memᴰ.head e) = subst P (sym e) h.0
  All-mem P (y ∷ xs) x h (Memᴰ.tail m) = All-mem P xs x h.1 m

  mem-if :
      (b : Bool) (y x : A) (xs : List A)
      → Memᴰ x (if b then y ∷ xs else xs)
      → ((x ≡ y) × (b ≡ true)) ⊎ Memᴰ x xs
  mem-if true y x xs (Memᴰ.head e) = inl (e, refl)
  mem-if true y x xs (Memᴰ.tail m) = inr m
  mem-if false y x xs m = inr m

  pub mem-filter :
      (p : A → Bool) (xs : List A) (x : A) → Memᴰ x (filter p xs) → Memᴰ x xs × (p x ≡ true)
  mem-filter p [] x m = elim m [ ]
  mem-filter p (y ∷ xs) x m = elim (mem-if (p y) y x (filter p xs) m) [
    | inl (e, h) ↦ (Memᴰ.head e, rw e h)
    | inr later ↦ let r = mem-filter p xs x later in (Memᴰ.tail r.0, r.1)
  ]

  pub length-filter-le : (p : A → Bool) (xs : List A) → length (filter p xs) ≤ length xs
  length-filter-le p [] = omega arith
  length-filter-le p (x ∷ xs) = ground (arith, length-filter-le p xs)

  pub filter-append :
      (p : A → Bool) (xs ys : List A) → filter p (xs ++ ys) ≡ filter p xs ++ filter p ys
  filter-append p [] ys = refl
  filter-append p (x ∷ xs) ys = elim (Bool-cases (p x)) [
    | inl e ↦ rw (e, filter-append p xs ys)
    | inr e ↦ rw (e, filter-append p xs ys)
  ]

  pub length-drop : (n : ℕ) (xs : List A) → length (drop n xs) ≡ length xs - n
  length-drop zero xs = omega arith
  length-drop (suc n) [] = omega arith
  length-drop (suc n) (x ∷ xs) = omega (arith, length-drop n xs)

  pub drop-append : (n : ℕ) (xs ys : List A) → n ≤ length xs → drop n (xs ++ ys) ≡ drop n xs ++ ys
  drop-append zero xs ys h = refl
  drop-append (suc n) [] ys h = absurd (omega arith)
  drop-append (suc n) (x ∷ xs) ys h = drop-append n xs ys (omega arith)

  -- `n = xs.findIndex(p)`, then `xs.splice(n, 1)`; none where the index is -1.
  abbrev pub without_first : (A → Bool) → List A → Option (List A)
  without_first p [] = none
  without_first p (x ∷ xs) =
      let rest = without_first p xs in
      if p x then some xs else elim rest [ none ↦ none | some ys ↦ some (x ∷ ys) ]

  pub some_injective : (xs ys : List A) → some xs ≡ some ys → xs ≡ ys
  some_injective xs ys e = cc

  pub length-without_first :
      (p : A → Bool) (xs ys : List A) → without_first p xs ≡ some ys → suc (length ys) ≡ length xs
  length-without_first p [] ys e = cc
  length-without_first p (x ∷ xs) ys e = elim (Bool-cases (p x)) [
    | inl here ↦ ap (λ l. suc (length l)) (sym (some_injective xs ys (rw here at e)))
    | inr miss ↦ elim (Option-cases (without_first p xs)) [
      | inl nowhere ↦ cc (rw (miss, nowhere) at e)
      | inr (zs, found) ↦
          ap (λ l. suc (length l)) (sym (some_injective (x ∷ zs) ys (rw (miss, found) at e)))
          ∙ ap suc (length-without_first p xs zs found)
    ]
  ]

  -- The elements that fail the test stay, in their order.
  pub filter-without_first :
      (p : A → Bool) (xs ys : List A)
      → without_first (λ x. not (p x)) xs ≡ some ys
      → filter p ys ≡ filter p xs
  filter-without_first p [] ys e = cc
  filter-without_first p (x ∷ xs) ys e = elim (Bool-cases (p x)) [
    | inr here ↦ rw here (ap (filter p) (sym (some_injective xs ys (rw here at e))))
    | inl miss ↦ elim (Option-cases (without_first (λ x. not (p x)) xs)) [
      | inl nowhere ↦ cc (rw (miss, nowhere) at e)
      | inr (zs, found) ↦
          rw (← some_injective (x ∷ zs) ys (rw (miss, found) at e))
            (rw (miss, filter-without_first p xs zs found))
    ]
  ]

  mem-if_in : (b : Bool) (y x : A) (xs : List A) → Memᴰ x xs → Memᴰ x (if b then y ∷ xs else xs)
  mem-if_in true y x xs m = Memᴰ.tail m
  mem-if_in false y x xs m = m

  pub filter-mem :
      (p : A → Bool) (xs : List A) (x : A) → Memᴰ x xs → p x ≡ true → Memᴰ x (filter p xs)
  filter-mem p [] x m h = elim m [ ]
  filter-mem p (y ∷ xs) x (Memᴰ.head e) h = rw (← e, h) (Memᴰ.head refl)
  filter-mem p (y ∷ xs) x (Memᴰ.tail m) h =
      mem-if_in (p y) y x (filter p xs) (filter-mem p xs x m h)
