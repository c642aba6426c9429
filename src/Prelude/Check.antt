-- ===== src/Prelude/Check.antt =====
-- Tests that are evaluated at every number of a range.
use ece391linux_os.Prelude.{
  if◌then◌else◌, ℕ, zero, suc, ◌<◌, ◌≡◌, refl, sym, Bool, true, false, not, ◌&&◌, arith,
}
use native.Mathlib.Decide.{ℕ_discrete}

abbrev pub same_test : Bool → Bool → Bool
same_test a b = if a then b else not b

pub same_test→eq : (a b : Bool) → same_test a b ≡ true → a ≡ b
same_test→eq true b h = sym h
same_test→eq false true h = h
same_test→eq false false h = refl

pub and→both : (a b : Bool) → (a && b) ≡ true → (a ≡ true) × (b ≡ true)
and→both a b h = ground (arith, h)

-- A test that holds at every number below `n`.
unfoldable pub check_below : ℕ → (ℕ → Bool) → Bool
check_below zero p = true
check_below (suc n) p = let rest = check_below n p in if p n then rest else false

pub check_below-holds :
    (n : ℕ) (p : ℕ → Bool) → check_below n p ≡ true → (x : ℕ) → x < n → p x ≡ true
unfolding check_below
check_below-holds zero p h x l = absurd (omega arith)
check_below-holds (suc n) p h x l = elim (ℕ_discrete x n) [
  | yes e ↦ rw e (here (p n) (check_below n p) h)
  | no ne ↦ check_below-holds n p (below (p n) (check_below n p) h) x (omega arith)
]
  where
    here : (b c : Bool) → (if b then c else false) ≡ true → b ≡ true
    here true c h = refl
    here false c h = h

    below : (b c : Bool) → (if b then c else false) ≡ true → c ≡ true
    below true c h = h
    below false c h = absurd (ground (arith, h))
