-- ===== src/Schedule/Turns.antt =====
-- Whose turn it is: the search of `timer_handler` (student-distrib/interrupts.c) for a terminal
-- that has a process.
use ece391linux_os.Prelude.{
  if◌then◌else◌, ℕ, zero, suc, ◌+◌, ◌%◌, ◌<◌, ◌≡◌, refl, ap, ◌∙◌, ◌≢◌, ◌⊎◌, inl, inr, Bool, true,
  false, not, ◌||◌, Option, none, some, arith,
}
use ece391linux_os.Prelude.Int.{pos, eqb_ℤ}
use ece391linux_os.Schedule.{Scheduler, top_of, next_busy}

abbrev pub busy : Scheduler → ℕ → Bool
busy s t = not (eqb_ℤ (top_of s t) (pos 0))

-- The first busy terminal behind `c`, going round, where `b0`, `b1` and `b2` say which are busy.
abbrev pub turn : Bool → Bool → Bool → ℕ → Option ℕ
turn b0 b1 b2 zero = if b1 then some 1 else (if b2 then some 2 else (if b0 then some 0 else none))
turn b0 b1 b2 (suc zero) =
    if b2 then some 2 else (if b0 then some 0 else (if b1 then some 1 else none))
turn b0 b1 b2 (suc (suc c)) =
    if b0 then some 0 else (if b1 then some 1 else (if b2 then some 2 else none))

-- Where a terminal is busy, three rounds of the search decide.
pub next_busy-turn :
    (n : ℕ) (s : Scheduler) (c : ℕ)
    → c < 3
    → busy s 0 || busy s 1 || busy s 2 ≡ true
    → next_busy (suc (suc (suc n))) ((c + 1) % 3) s ≡ turn (busy s 0) (busy s 1) (busy s 2) c
unfolding next_busy
next_busy-turn n s zero h any = ground arith
next_busy-turn n s (suc zero) h any = ground arith
next_busy-turn n s (suc (suc zero)) h any = ground arith
next_busy-turn n s (suc (suc (suc c))) h any = absurd (omega arith)

-- Where none is, no number of rounds does.
pub next_busy-idle :
    (n : ℕ) (s : Scheduler) (t : ℕ)
    → t < 3
    → busy s 0 || busy s 1 || busy s 2 ≡ false
    → next_busy n t s ≡ none
unfolding next_busy
next_busy-idle zero s t h idle = refl
next_busy-idle (suc n) s t h idle =
    rw (at_top t h) (next_busy-idle n s ((t + 1) % 3) (omega arith) idle)
  where
    at_top : (t : ℕ) → t < 3 → eqb_ℤ (top_of s t) (pos 0) ≡ true
    at_top zero h = ground (arith, idle)
    at_top (suc zero) h = ground (arith, idle)
    at_top (suc (suc zero)) h = ground (arith, idle)
    at_top (suc (suc (suc t))) h = absurd (omega arith)

pub turn-lt : (b0 b1 b2 : Bool) (c u : ℕ) → turn b0 b1 b2 c ≡ some u → u < 3
turn-lt b0 b1 b2 zero u e = ground arith
turn-lt b0 b1 b2 (suc zero) u e = ground arith
turn-lt b0 b1 b2 (suc (suc c)) u e = ground arith

by_terminal :
    (s : Scheduler) (u : ℕ)
    → ((u ≡ 0) × (busy s 0 ≡ true))
      ⊎ (((u ≡ 1) × (busy s 1 ≡ true)) ⊎ ((u ≡ 2) × (busy s 2 ≡ true)))
    → eqb_ℤ (top_of s u) (pos 0) ≡ false
by_terminal s u (inl (at, b)) = ap (λ v. eqb_ℤ (top_of s v) (pos 0)) at ∙ ground (arith, b)
by_terminal s u (inr (inl (at, b))) = ap (λ v. eqb_ℤ (top_of s v) (pos 0)) at ∙ ground (arith, b)
by_terminal s u (inr (inr (at, b))) = ap (λ v. eqb_ℤ (top_of s v) (pos 0)) at ∙ ground (arith, b)

pub turn-busy :
    (s : Scheduler) (c u : ℕ)
    → turn (busy s 0) (busy s 1) (busy s 2) c ≡ some u
    → eqb_ℤ (top_of s u) (pos 0) ≡ false
turn-busy s zero u e = by_terminal s u (ground arith)
turn-busy s (suc zero) u e = by_terminal s u (ground arith)
turn-busy s (suc (suc c)) u e = by_terminal s u (ground arith)

pub turn-some : (b0 b1 b2 : Bool) (c : ℕ) → b0 || b1 || b2 ≡ true → turn b0 b1 b2 c ≢ none
turn-some b0 b1 b2 zero any = ground arith
turn-some b0 b1 b2 (suc zero) any = ground arith
turn-some b0 b1 b2 (suc (suc c)) any = ground arith
