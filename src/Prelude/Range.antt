-- ===== src/Prelude/Range.antt =====
-- Counted loops: `for (k = i; k < i + n; k++) s = body k s`, by recursion on the rounds left.
use ece391linux_os.Prelude.{
  length, get_or, replicate, modify, length-modify, get_or-modify_self, get_or-modify_ne, ℕ, zero,
  suc, ◌+◌, ◌≤◌, ◌<◌, ◌≡◌, refl, ap, subst, ◌∙◌, List, [], ◌∷◌, ◌++◌, arith,
}
use native.Mathlib.Decide.{ℕ_discrete}

pub count_up {ℓ} : {State : Type ℓ} (rounds from : ℕ) → (ℕ → State → State) → State → State
count_up zero from step s = s
count_up (suc left) from step s = count_up left (from + 1) step (step from s)

-- What each round keeps within its bounds, the loop keeps. The end `to` is a variable with an
-- equation, since `from + 0` is stuck.
pub count_up-keeps {ℓ κ} :
    {State : Type ℓ} (Holds : ℕ → State → Type κ) (step : ℕ → State → State)
    → (rounds from to : ℕ) (start : State)
    → ((at : ℕ) (now : State) → from ≤ at → at < to → Holds at now → Holds (at + 1) (step at now))
    → from + rounds ≡ to
    → Holds from start
    → Holds to (count_up rounds from step start)
unfolding count_up
count_up-keeps Holds step zero from to start keeps end begins =
    subst (λ at. Holds at start) (let same : from ≡ to = omega arith in same) begins
count_up-keeps Holds step (suc left) from to start keeps end begins =
    let first_kept = keeps from start (omega arith) (omega arith) begins in
    count_up-keeps Holds step left (from + 1) to (step from start)
      (λ at now above below held. keeps at now (omega arith) below held) (omega arith) first_kept

-- The loop that updates every array cell of a range: `for (k = i; k < i + n; k++) xs[k] = f xs[k]`.
pub update_range {ℓ} : {A : Type ℓ} → ℕ → ℕ → (A → A) → List A → List A
unfolding count_up
update_range n i f xs = count_up n i (λ k ys. modify ys k f) xs

module _ {ℓ} {A : Type ℓ} (f : A → A) (d : A) where
  pub length-update_range : (n i : ℕ) (xs : List A) → length (update_range n i f xs) ≡ length xs
  unfolding update_range
  length-update_range zero i xs = refl
  length-update_range (suc n) i xs =
      length-update_range n (i + 1) (modify xs i f) ∙ length-modify xs i f

  -- Cells below the range keep their contents.
  pub get_or-update_range_below :
      (n i j : ℕ) (xs : List A) → j < i → get_or (update_range n i f xs) j d ≡ get_or xs j d
  unfolding update_range
  get_or-update_range_below zero i j xs h = refl
  get_or-update_range_below (suc n) i j xs h =
      get_or-update_range_below n (i + 1) j (modify xs i f) (omega arith)
      ∙ get_or-modify_ne xs i j f d (omega arith)

  -- Cells within the range are updated once.
  pub get_or-update_range_in :
      (n i j : ℕ) (xs : List A)
      → i ≤ j
      → j < i + n
      → j < length xs
      → get_or (update_range n i f xs) j d ≡ f (get_or xs j d)
  unfolding update_range
  get_or-update_range_in zero i j xs h k l = absurd (omega arith)
  get_or-update_range_in (suc n) i j xs h k l = elim (ℕ_discrete i j) [
    | yes e ↦
        get_or-update_range_below n (i + 1) j (modify xs i f) (omega arith)
        ∙ subst (λ m. get_or (modify xs i f) m d ≡ f (get_or xs m d)) e
            (get_or-modify_self xs i f d (omega arith))
    | no ne ↦
        get_or-update_range_in n (i + 1) j (modify xs i f) (omega arith) (omega arith)
          (omega (arith, length-modify xs i f))
        ∙ ap f (get_or-modify_ne xs i j f d ne)
  ]

-- A range behind the first cell.
pub update_range-cons {ℓ} :
    {A : Type ℓ} (n i : ℕ) (f : A → A) (x : A) (xs : List A)
    → update_range n (suc i) f (x ∷ xs) ≡ x ∷ update_range n i f xs
unfolding update_range count_up
update_range-cons zero i f x xs = refl
update_range-cons (suc n) i f x xs =
    let next : suc i + 1 ≡ suc (i + 1) = omega arith in
    rw next (update_range-cons n (i + 1) f x (modify xs i f))

-- A range from the first cell on.
pub update_range-start {ℓ} :
    {A : Type ℓ} (n : ℕ) (v : A) (xs ys : List A)
    → length xs ≡ n
    → update_range n 0 (λ _. v) (xs ++ ys) ≡ replicate n v ++ ys
unfolding update_range count_up
update_range-start zero v [] ys h = refl
update_range-start zero v (x ∷ xs) ys h = absurd (omega arith)
update_range-start (suc n) v [] ys h = absurd (omega arith)
update_range-start (suc n) v (x ∷ xs) ys h =
    update_range-cons n 0 (λ _. v) v (xs ++ ys)
    ∙ ap (λ zs. v ∷ zs) (update_range-start n v xs ys (omega arith))
