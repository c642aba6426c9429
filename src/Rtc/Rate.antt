-- ===== src/Rtc/Rate.antt =====
-- Which frequencies the clock takes (`rtc_write` of student-distrib/rtc_driver.c).
use ece391linux_os.Prelude.{
  set, ◌==◌, Bool-cases, Option-cases, ℕ, zero, suc, ◌+◌, ◌-◌, ◌*◌, ◌^◌, ◌≤◌, ◌<◌, ◌≡◌, refl, sym,
  ap, subst, ◌∙◌, ◌≢◌, ◌⊎◌, inl, inr, true, false, Option, none, some, arith,
}
use native.Mathlib.Decide.{ℕ_discrete}
use native.Mathlib.Nat.{pow-suc, pow-le-pow_right}
use ece391linux_os.Prelude.Int.{ℤ, pos, eqb_ℤ, minus_one, eqb_ℤ→eq, eqb_ℤ_self}
use ece391linux_os.Rtc.{Clock, send_rate, find_rate, rtc_write}

-- What the search from `2 ^ lo` gives: the rate of the frequency, or nothing.
abbrev pub RateResult : ℕ → ℤ → Option ℕ → Type 0
RateResult lo passed_rate none = (k : ℕ) → lo ≤ k → k ≤ 15 → passed_rate ≢ pos (2 ^ k)
RateResult lo passed_rate (some rate) =
    (k : ℕ) × (lo ≤ k) × (k ≤ 15) × (passed_rate ≡ pos (2 ^ k)) × (rate ≡ 16 - k)

widen :
    (lo : ℕ) (passed_rate : ℤ) (r : Option ℕ)
    → passed_rate ≢ pos (2 ^ lo)
    → RateResult (lo + 1) passed_rate r
    → RateResult lo passed_rate r
widen lo passed_rate none ne h = λ k p q. elim (ℕ_discrete lo k) [
  | yes e ↦ λ same. ne (same ∙ ap (λ m. pos (2 ^ m)) (sym e))
  | no later ↦ h k (omega arith) q
]
widen lo passed_rate (some rate) ne (k, p, q, same, e) = (k, omega arith, q, same, e)

not_last : (k : ℕ) → k < 15 → (2 ^ k == 32768) ≡ false
not_last k h =
    let below : 2 ^ k ≤ 2 ^ 14 = pow-le-pow_right (omega arith) {j = 14} (omega arith) in
    ground arith

find_rate-RateResult :
    (n k : ℕ) (passed_rate : ℤ)
    → k + n ≡ 16
    → k ≤ 15
    → RateResult k passed_rate (find_rate n (2 ^ k) (16 - k) passed_rate)
unfolding find_rate
find_rate-RateResult zero k passed_rate e h = absurd (omega arith)
find_rate-RateResult (suc n) k passed_rate e h =
    elim (Bool-cases (eqb_ℤ (pos (2 ^ k)) passed_rate)) [
      | inl hit ↦ rw hit (k, omega arith, h, sym (eqb_ℤ→eq (pos (2 ^ k)) passed_rate hit), refl)
      | inr miss ↦
          let ne : passed_rate ≢ pos (2 ^ k) = λ same.
            let hit : eqb_ℤ (pos (2 ^ k)) passed_rate ≡ true =
              ap (eqb_ℤ (pos (2 ^ k))) same ∙ eqb_ℤ_self (pos (2 ^ k)) in
            absurd (cc (hit, miss)) in
          elim (ℕ_discrete k 15) [
            | yes last ↦
                let end : (2 ^ k == 32768) ≡ true = rw last refl in
                rw (miss, end) (λ j p q same. ne (same ∙ ap (λ m. pos (2 ^ m)) (omega arith)))
            | no more ↦
                let twice : 2 ^ k * 2 ≡ 2 ^ (k + 1) =
                  sym (pow-suc 2 k)
                  ∙ ap (λ m. 2 ^ m) (let up : suc k ≡ k + 1 = omega arith in up) in
                let less : 16 - k - 1 ≡ 16 - (k + 1) = omega arith in
                let following : RateResult (k + 1) passed_rate
                    (find_rate n (2 ^ k * 2) (16 - k - 1) passed_rate) =
                  rw (twice, less)
                    (find_rate-RateResult n (k + 1) passed_rate (omega arith) (omega arith)) in
                rw (miss, not_last k (omega arith)) (widen k passed_rate _ ne following)
          ]
    ]

-- A write to the clock succeeds exactly for the frequencies 2, 4, ..., 32768. For `2 ^ k` it
-- returns 0, sets the running terminal's frequency, withdraws its tick, and sends the rate
-- `16 - k`; for any other number it returns -1 and changes nothing.
pub rtc_write_lem :
    (passed_rate : ℤ) (c : Clock)
    → ((k : ℕ) × (1 ≤ k)
        × (k ≤ 15)
        × (passed_rate ≡ pos (2 ^ k))
        × (rtc_write passed_rate c ≡ (
          send_rate (16 - k) (record c {
            rtc_running = set c.rtc_running c.current_process passed_rate;
            rtc_virtual_interupt = set c.rtc_virtual_interupt c.current_process 0;
          }),
          pos 0,
        )))
      ⊎ (((k : ℕ) → 1 ≤ k → k ≤ 15 → passed_rate ≢ pos (2 ^ k))
          × (rtc_write passed_rate c ≡ (c, minus_one)))
unfolding rtc_write
rtc_write_lem passed_rate c =
    let found_rate = find_rate-RateResult 15 1 passed_rate refl (omega arith) in
    elim (Option-cases (find_rate 15 2 15 passed_rate)) [
      | inl fails ↦
          inr (subst (RateResult 1 passed_rate) fails found_rate, rw (fails, rtc_write) refl)
      | inr (rate, takes) ↦
          let (k, p, q, same, e) = subst (RateResult 1 passed_rate) takes found_rate in
          inl (k, p, q, same, rw (takes, rtc_write) (rw e refl))
    ]
