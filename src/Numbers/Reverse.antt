-- ===== src/Numbers/Reverse.antt =====
-- `strrev` of student-distrib/lib.c turns a string round in place.
use ece391linux_os.Prelude.{
  length, get_or, set, length-set, get_or-set_self, get_or-set_ne, ltb, ltb→lt, Bool-cases, ℕ, zero,
  suc, ◌+◌, ◌-◌, ◌≤◌, ◌<◌, ◌≡◌, refl, sym, ap, ◌∙◌, ◌≢◌, ◌⊎◌, inl, inr, List, arith,
}
use native.Mathlib.Decide.{ℕ_discrete}
use ece391linux_os.Numbers.{strrev_loop, strrev}
use ece391linux_os.Text.{strlen}

swapped :
    (s : List ℕ) (beg end : ℕ)
    → beg < end
    → end < length s
    → let t = set (set s end (get_or s beg 0)) beg (get_or s end 0) in
      (get_or t beg 0 ≡ get_or s end 0)
      × (get_or t end 0 ≡ get_or s beg 0)
      × ((i : ℕ) → i ≢ beg → i ≢ end → get_or t i 0 ≡ get_or s i 0)
swapped s beg end l room =
    let b = get_or s beg 0 in
    let e = get_or s end 0 in
    (
      get_or-set_self (set s end b) beg e 0 (omega (arith, length-set s end b)),
      get_or-set_ne (set s end b) beg end e 0 (omega (arith, l)) ∙ get_or-set_self s end b 0 room,
      λ i nb ne.
          get_or-set_ne (set s end b) beg i e 0 (λ q. nb (sym q))
          ∙ get_or-set_ne s end i b 0 (λ q. ne (sym q)),
    )

-- The entries from `beg` to `end` of `t` are those of `s` in the opposite order, the others are
-- the same.
abbrev IsTurned : ℕ → ℕ → List ℕ → List ℕ → Type 0
IsTurned beg end s t =
    ((i : ℕ) → beg ≤ i → i ≤ end → get_or t i 0 ≡ get_or s (beg + end - i) 0)
    × ((i : ℕ) → (i < beg) ⊎ (end < i) → get_or t i 0 ≡ get_or s i 0)

strrev_loop-turns :
    (n beg end : ℕ) (s : List ℕ)
    → end < length s
    → end ≤ beg + n
    → IsTurned beg end s (strrev_loop n beg end s)
unfolding strrev_loop
strrev_loop-turns zero beg end s room fuel =
    (λ i lo hi. ap (λ j. get_or s j 0) (omega (arith, lo, hi, fuel)), λ i out. refl)
strrev_loop-turns (suc n) beg end s room fuel = elim (Bool-cases (ltb beg end)) [
  | inr e ↦ rw e (λ i lo hi. ap (λ j. get_or s j 0) (ground (arith, e, lo, hi)), λ i out. refl)
  | inl e ↦
      let l = ltb→lt beg end e in
      let b = get_or s beg 0 in
      let t = set (set s end b) beg (get_or s end 0) in
      let (first_one, last_one, others) = swapped s beg end l room in
      let rest =
        strrev_loop-turns n (beg + 1) (end - 1) t
          (omega (arith, length-set (set s end b) beg (get_or s end 0), length-set s end b, room))
          (omega (arith, fuel)) in
      rw e (
        λ i lo hi. elim (ℕ_discrete i beg) [
          | yes p ↦
              rest.1 i (inl (omega (arith, p)))
              ∙ ap (λ j. get_or t j 0) p
              ∙ first_one
              ∙ ap (λ j. get_or s j 0) (omega (arith, p))
          | no nb ↦ elim (ℕ_discrete i end) [
            | yes p ↦
                rest.1 i (inr (omega (arith, p, l)))
                ∙ ap (λ j. get_or t j 0) p
                ∙ last_one
                ∙ ap (λ j. get_or s j 0) (omega (arith, p))
            | no ne ↦
                rest.0 i (omega (arith, lo, nb)) (omega (arith, hi, ne))
                ∙ ap (λ j. get_or t j 0) (omega (arith, l))
                ∙ others (beg + end - i) (omega (arith, hi, ne)) (omega (arith, lo, nb, hi))
          ]
        ],
        λ i out. rest.1 i (wider i out l) ∙ others i (not_first i out l) (not_last i out l),
      )
]
  where
    wider : (i : ℕ) → (i < beg) ⊎ (end < i) → beg < end → (i < beg + 1) ⊎ (end - 1 < i)
    wider i (inl h) l = inl (omega (arith, h))
    wider i (inr h) l = inr (omega (arith, h))

    not_first : (i : ℕ) → (i < beg) ⊎ (end < i) → beg < end → i ≢ beg
    not_first i (inl h) l = omega (arith, h)
    not_first i (inr h) l = omega (arith, h)

    not_last : (i : ℕ) → (i < beg) ⊎ (end < i) → beg < end → i ≢ end
    not_last i (inl h) l = omega (arith, h)
    not_last i (inr h) l = omega (arith, h)

-- For a string that ends within its buffer: `strrev` puts its characters in the opposite order and
-- leaves what stands behind them, the terminator included, as it was.
pub strrev_lem :
    (s : List ℕ)
    → strlen s < length s
    → ((i : ℕ) → i < strlen s → get_or (strrev s) i 0 ≡ get_or s (strlen s - 1 - i) 0)
      × ((i : ℕ) → strlen s ≤ i → get_or (strrev s) i 0 ≡ get_or s i 0)
unfolding strrev strrev_loop
strrev_lem s room = (
  λ i l.
      (strrev_loop-turns (strlen s) 0 (strlen s - 1) s (omega (arith, room)) (omega arith)).0 i
        (omega arith) (omega (arith, l))
      ∙ ap (λ j. get_or s j 0) (omega arith),
  behind (strlen s) room,
)
  where
    behind :
        (n : ℕ)
        → n < length s
        → (i : ℕ) → n ≤ i
        → get_or (strrev_loop n 0 (n - 1) s) i 0 ≡ get_or s i 0
    behind zero h i l = refl
    behind (suc n) h i l =
        (strrev_loop-turns (suc n) 0 (suc n - 1) s (omega (arith, h)) (omega arith)).1 i
          (inr (omega (arith, l)))
