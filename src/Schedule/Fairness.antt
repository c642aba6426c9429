-- ===== src/Schedule/Fairness.antt =====
-- What the timer's ticks do over time (`timer_handler` of student-distrib/interrupts.c).
use ece391linux_os.Prelude.{
  ℕ, zero, suc, ◌≤◌, ◌<◌, ◌≡◌, refl, sym, ap, ◌∙◌, ◌⊎◌, inl, inr, Bool, true, not, ◌||◌, Option,
  none, some, arith,
}
use ece391linux_os.Prelude.Int.{pos, eqb_ℤ, minus_one}
use ece391linux_os.Schedule.{Scheduler, timer_handler}
use ece391linux_os.Schedule.Turns.{busy, turn}
use ece391linux_os.Schedule.RoundRobin.{Ticked, timer_handler-Ticked}

-- `n` ticks with nothing between them.
pub ticks : ℕ → ℕ → ℕ → Scheduler → Option Scheduler
ticks rounds garbage zero s = some s
ticks rounds garbage (suc n) s = elim (timer_handler rounds garbage s) [
  | none ↦ none
  | some t ↦ ticks rounds garbage n t
]

ticks-suc :
    (rounds garbage n : ℕ) (s t : Scheduler)
    → timer_handler rounds garbage s ≡ some t
    → ticks rounds garbage (suc n) s ≡ ticks rounds garbage n t
unfolding ticks
ticks-suc rounds garbage n s t e =
    let continue : Option Scheduler → Option Scheduler = elim [
      | none ↦ none
      | some u ↦ ticks rounds garbage n u
    ] in
    ap continue e

abbrev then_turn : Bool → Bool → Bool → Option ℕ → Option ℕ
then_turn b0 b1 b2 none = none
then_turn b0 b1 b2 (some c) = turn b0 b1 b2 c

abbrev is_busy : Bool → Bool → Bool → ℕ → Bool
is_busy b0 b1 b2 zero = b0
is_busy b0 b1 b2 (suc zero) = b1
is_busy b0 b1 b2 (suc (suc t)) = b2

-- In three turns each busy terminal comes up.
turn_fair :
    (b0 b1 b2 : Bool) (c t : ℕ)
    → c < 3
    → t < 3
    → is_busy b0 b1 b2 t ≡ true
    → let o1 = turn b0 b1 b2 c in
      let o2 = then_turn b0 b1 b2 o1 in
      (o1 ≡ some t) ⊎ ((o2 ≡ some t) ⊎ (then_turn b0 b1 b2 o2 ≡ some t))
turn_fair b0 b1 b2 zero zero h k any = ground arith
turn_fair b0 b1 b2 zero (suc zero) h k any = ground arith
turn_fair b0 b1 b2 zero (suc (suc zero)) h k any = ground arith
turn_fair b0 b1 b2 zero (suc (suc (suc t))) h k any = absurd (omega arith)
turn_fair b0 b1 b2 (suc zero) zero h k any = ground arith
turn_fair b0 b1 b2 (suc zero) (suc zero) h k any = ground arith
turn_fair b0 b1 b2 (suc zero) (suc (suc zero)) h k any = ground arith
turn_fair b0 b1 b2 (suc zero) (suc (suc (suc t))) h k any = absurd (omega arith)
turn_fair b0 b1 b2 (suc (suc c)) zero h k any = ground arith
turn_fair b0 b1 b2 (suc (suc c)) (suc zero) h k any = ground arith
turn_fair b0 b1 b2 (suc (suc c)) (suc (suc zero)) h k any = ground arith
turn_fair b0 b1 b2 (suc (suc c)) (suc (suc (suc t))) h k any = absurd (omega arith)

-- Ticks follow one another with the same terminals busy.
Ticked-busy : {s t : Scheduler} → Ticked s t → (u : ℕ) → busy t u ≡ busy s u
Ticked-busy k u = ap (λ n. not (eqb_ℤ n (pos 0))) (k.tops u)

busy_any :
    (s : Scheduler) (t : ℕ)
    → t < 3
    → busy s t ≡ true
    → (busy s 0 || busy s 1 || busy s 2 ≡ true)
      × (is_busy (busy s 0) (busy s 1) (busy s 2) t ≡ true)
busy_any s zero h e = rw e (refl, refl)
busy_any s (suc zero) h e = (ground arith, e)
busy_any s (suc (suc zero)) h e = (ground arith, e)
busy_any s (suc (suc (suc t))) h e = absurd (omega arith)

moved-from :
    {s t : Scheduler} (b0 b1 b2 : Bool)
    → busy s 0 ≡ b0
    → busy s 1 ≡ b1
    → busy s 2 ≡ b2
    → Ticked s t
    → turn b0 b1 b2 s.current_process ≡ some t.current_process
moved-from {s} b0 b1 b2 e0 e1 e2 k =
    (λ i. turn (sym e0 i) (sym e1 i) (sym e2 i) s.current_process) ∙ k.moved

-- Round robin is fair: with no request pending and one of the three terminals running, a terminal
-- that has a process is the running one after one, two or three ticks, and each of these ticks
-- ends, its search within three rounds.
pub ticks_fair :
    (rounds garbage t : ℕ) (s : Scheduler)
    → 3 ≤ rounds
    → s.terminal_request ≡ minus_one
    → s.current_process < 3
    → t < 3
    → busy s t ≡ true
    → (s1 : Scheduler) × (s2 : Scheduler) × (s3 : Scheduler) × (ticks rounds garbage 1 s ≡ some s1)
      × (ticks rounds garbage 2 s ≡ some s2)
      × (ticks rounds garbage 3 s ≡ some s3)
      × ((s1.current_process ≡ t) ⊎ ((s2.current_process ≡ t) ⊎ (s3.current_process ≡ t)))
ticks_fair rounds garbage t s enough e h k b =
    let b0 = busy s 0 in
    let b1 = busy s 1 in
    let b2 = busy s 2 in
    let (any, is) = busy_any s t k b in
    let (s1, r1, k1, h1) = timer_handler-Ticked rounds garbage s enough e h any in
    let any1 = busy_any s1 t k (Ticked-busy k1 t ∙ b) in
    let (s2, r2, k2, h2) = timer_handler-Ticked rounds garbage s1 enough k1.request h1 any1.0 in
    let back2 : (u : ℕ) → busy s2 u ≡ busy s u = λ u. Ticked-busy k2 u ∙ Ticked-busy k1 u in
    let any2 = busy_any s2 t k (back2 t ∙ b) in
    let (s3, r3, k3, h3) = timer_handler-Ticked rounds garbage s2 enough k2.request h2 any2.0 in
    let m1 : turn b0 b1 b2 s.current_process ≡ some s1.current_process = k1.moved in
    let m2 : turn b0 b1 b2 s1.current_process ≡ some s2.current_process =
      moved-from b0 b1 b2 (Ticked-busy k1 0) (Ticked-busy k1 1) (Ticked-busy k1 2) k2 in
    let m3 : turn b0 b1 b2 s2.current_process ≡ some s3.current_process =
      moved-from b0 b1 b2 (back2 0) (back2 1) (back2 2) k3 in
    let fair = turn_fair b0 b1 b2 s.current_process t h k is in
    (
      s1,
      s2,
      s3,
      first_tick s s1 r1,
      ticks-suc rounds garbage 1 s s1 r1 ∙ first_tick s1 s2 r2,
      ticks-suc rounds garbage 2 s s1 r1
          ∙ ticks-suc rounds garbage 1 s1 s2 r2
          ∙ first_tick s2 s3 r3,
      elim (rw (m1, m2, m3) at fair) [
        | inl x ↦ inl (ground arith)
        | inr (inl x) ↦ inr (inl (ground arith))
        | inr (inr x) ↦ inr (inr (ground arith))
      ],
    )
  where
    first_tick :
        (a b : Scheduler)
        → timer_handler rounds garbage a ≡ some b
        → ticks rounds garbage 1 a ≡ some b
    first_tick a b r = ticks-suc rounds garbage 0 a b r ∙ (unfold ticks in refl)
