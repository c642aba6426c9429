-- ===== src/Text/Writing.antt =====
-- Strings that a loop writes into a buffer byte by byte.
-- The bytes `w` stand in `xs` from `i` on, behind those of `ys`.
use ece391linux_os.Prelude.{
  length, get_or, set, get_or-set_self, get_or-set_ne, ◌==◌, ℕ, zero, suc, ◌+◌, ◌≤◌, ◌<◌, ◌≡◌, refl,
  sym, ap, ◌∙◌, ◌≢◌, false, List, [], ◌∷◌, arith,
}
use ece391linux_os.Text.{strlen, text}

abbrev pub Written : List ℕ → ℕ → List ℕ → List ℕ → Type 0
Written ys i w xs =
    ((j : ℕ) → j < i → get_or xs j 0 ≡ get_or ys j 0)
    × ((j : ℕ) → j < length w → get_or xs (i + j) 0 ≡ get_or w j 0)

-- One byte in front of those that follow.
pub Written-cons :
    (ys xs : List ℕ) (i c : ℕ) (w : List ℕ)
    → i < length ys
    → Written (set ys i c) (i + 1) w xs
    → Written ys i (c ∷ w) xs
Written-cons ys xs i c w room h =
    (λ j l. h.0 j (omega (arith, l)) ∙ get_or-set_ne ys i j c 0 (omega (arith, l)), entry)
  where
    at : get_or xs i 0 ≡ c
    at = h.0 i (omega arith) ∙ get_or-set_self ys i c 0 room

    entry : (j : ℕ) → j < length (c ∷ w) → get_or xs (i + j) 0 ≡ get_or (c ∷ w) j 0
    entry zero l = ap (λ n. get_or xs n 0) (omega arith) ∙ at
    entry (suc j) l = ap (λ n. get_or xs n 0) (omega arith) ∙ h.1 j (omega arith)

pub nonzero-cons :
    (c : ℕ) (w : List ℕ)
    → c ≢ 0
    → ((j : ℕ) → j < length w → get_or w j 0 ≢ 0)
    → (j : ℕ) → j < length (c ∷ w)
    → get_or (c ∷ w) j 0 ≢ 0
nonzero-cons c w h tail zero l = h
nonzero-cons c w h tail (suc j) l = tail j (omega arith)

-- A string is known by its bytes and its terminator.
pub text-from_entries :
    (n : ℕ) (w xs : List ℕ)
    → length w ≤ n
    → ((j : ℕ) → j < length w → (get_or xs j 0 ≡ get_or w j 0) × (get_or w j 0 ≢ 0))
    → get_or xs (length w) 0 ≡ 0
    → text n xs ≡ w
text-from_entries zero [] xs short same end = refl
text-from_entries zero (c ∷ w) xs short same end = absurd (omega arith)
text-from_entries (suc n) [] [] short same end = refl
text-from_entries (suc n) [] (x ∷ xs) short same end = rw end refl
text-from_entries (suc n) (c ∷ w) [] short same end =
    absurd ((same 0 (omega arith)).1 (sym (same 0 (omega arith)).0))
text-from_entries (suc n) (c ∷ w) (x ∷ xs) short same end =
    let head : x ≡ c = (same 0 (omega arith)).0 in
    let nonzero : (c == 0) ≡ false = ground (arith, (same 0 (omega arith)).1) in
    rw (head, nonzero)
      (ap (λ ys. c ∷ ys)
        (text-from_entries n w xs (omega arith) (λ j l. same (suc j) (omega arith)) end))

pub ended : (xs : List ℕ) (i : ℕ) → get_or (set xs i 0) i 0 ≡ 0
ended [] i = refl
ended (x ∷ xs) zero = refl
ended (x ∷ xs) (suc i) = ended xs i

pub strlen-from_entries :
    (n : ℕ) (xs : List ℕ)
    → n < length xs
    → ((j : ℕ) → j < n → get_or xs j 0 ≢ 0)
    → get_or xs n 0 ≡ 0
    → strlen xs ≡ n
unfolding strlen
strlen-from_entries n [] room nonzero end = absurd (omega arith)
strlen-from_entries zero (x ∷ xs) room nonzero end = rw end refl
strlen-from_entries (suc n) (x ∷ xs) room nonzero end =
    let first_live : (x == 0) ≡ false = ground (arith, nonzero 0 (omega arith)) in
    rw first_live
      (ap suc (strlen-from_entries n xs (omega arith) (λ j l. nonzero (suc j) (omega arith)) end))
