-- ===== src/Numbers/Digits.antt =====
-- The digits of a number in a base, and the number that a string of digits stands for.
-- The digits of a number, the lowest first, on fuel.
use ece391linux_os.Prelude.{
  length, get_or, length-append, ltb, ◌==◌, if◌then◌else◌, ==_iff, Bool-cases, ℕ, zero, suc, ◌+◌,
  ◌-◌, ◌*◌, ◌/◌, ◌%◌, ◌^◌, ◌≤◌, ◌<◌, ◌≡◌, refl, sym, ap, ◌∙◌, ◌≢◌, inl, inr, List, [], ◌∷◌, ◌++◌,
  arith,
}
use native.Mathlib.Decide.{ℕ_discrete}
use native.Mathlib.Nat.{pow-suc, mod-lt, pow-zero, mul-le-mul_left, div-lt_iff_lt-mul, mod-add-div'}
use ece391linux_os.Numbers.{lookup}
use ece391linux_os.Text.Writing.{nonzero-cons}

unfoldable pub digits_of : ℕ → ℕ → ℕ → List ℕ
digits_of zero radix v = []
digits_of (suc n) radix v =
    let rest = digits_of n radix (v / radix) in if v == 0 then [] else lookup (v % radix) ∷ rest

-- The value of a digit, and of a string of digits read from the left behind the value `acc`.
abbrev pub digit : ℕ → ℕ
digit c = if ltb c b'A' then c - b'0' else c - b'A' + 10

abbrev pub parse : ℕ → ℕ → List ℕ → ℕ
parse radix acc [] = acc
parse radix acc (c ∷ s) = parse radix (acc * radix + digit c) s

pub digit-lookup : (d : ℕ) → d < 36 → digit (lookup d) ≡ d
digit-lookup d h = ground arith

pub lookup-nonzero : (d : ℕ) → d < 36 → lookup d ≢ 0
lookup-nonzero d h = ground arith

abbrev pub turned : List ℕ → List ℕ
turned [] = []
turned (d ∷ ds) = turned ds ++ (d ∷ [])

pub parse-append :
    (radix acc : ℕ) (s t : List ℕ) → parse radix acc (s ++ t) ≡ parse radix (parse radix acc s) t
parse-append radix acc [] t = refl
parse-append radix acc (c ∷ s) t = parse-append radix (acc * radix + digit c) s t

pub parse-turned :
    (n radix v : ℕ)
    → 2 ≤ radix
    → radix ≤ 36
    → v < 2 ^ n
    → parse radix 0 (turned (digits_of n radix v)) ≡ v
unfolding digits_of
parse-turned zero radix v lo hi small = omega arith
parse-turned (suc n) radix v lo hi small = elim (Bool-cases (v == 0)) [
  | inl e ↦ rw e (sym ((==_iff v 0).0 e))
  | inr e ↦
      let positive : 0 < radix = omega (arith, lo) in
      let below : v / radix < 2 ^ n =
        (div-lt_iff_lt-mul {k = radix} {x = v} {y = 2 ^ n} positive).1 (wide n small) in
      let last : v % radix < radix = mod-lt v positive in
      rw e (
        parse-append radix 0 (turned (digits_of n radix (v / radix))) (lookup (v % radix) ∷ [])
        ∙ rw
            (
              parse-turned n radix (v / radix) lo hi below,
              digit-lookup (v % radix) (omega (arith, last, hi)),
            )
            (regroup (mod-add-div' v radix)))
]
  where
    wide : (k : ℕ) → v < 2 ^ suc k → v < 2 ^ k * radix
    wide k h = omega (arith, h, pow-suc 2 k, mul-le-mul_left (2 ^ k) lo)

    regroup : v % radix + v / radix * radix ≡ v → v / radix * radix + v % radix ≡ v
    regroup h = omega (arith, h)

pub length-digits : (n radix v : ℕ) → length (digits_of n radix v) ≤ n
unfolding digits_of
length-digits zero radix v = omega arith
length-digits (suc n) radix v = ground (arith, length-digits n radix (v / radix))

pub length-turned : (ds : List ℕ) → length (turned ds) ≡ length ds
length-turned [] = refl
length-turned (d ∷ ds) = length-append (turned ds) (d ∷ []) ∙ omega (arith, length-turned ds)

get_or-append_last : (xs : List ℕ) (d j : ℕ) → length xs ≡ j → get_or (xs ++ (d ∷ [])) j 0 ≡ d
get_or-append_last [] d zero e = refl
get_or-append_last [] d (suc j) e = absurd (omega arith)
get_or-append_last (x ∷ xs) d zero e = absurd (omega arith)
get_or-append_last (x ∷ xs) d (suc j) e = get_or-append_last xs d j (omega (arith, e))

get_or-append_left :
    (xs ys : List ℕ) (j : ℕ) → j < length xs → get_or (xs ++ ys) j 0 ≡ get_or xs j 0
get_or-append_left [] ys j l = absurd (omega arith)
get_or-append_left (x ∷ xs) ys zero l = refl
get_or-append_left (x ∷ xs) ys (suc j) l = get_or-append_left xs ys j (omega arith)

pub get_or-turned :
    (ds : List ℕ) (j : ℕ) → j < length ds → get_or (turned ds) j 0 ≡ get_or ds (length ds - 1 - j) 0
get_or-turned [] j l = absurd (omega arith)
get_or-turned (d ∷ ds) j l = elim (ℕ_discrete j (length ds)) [
  | yes p ↦
      get_or-append_last (turned ds) d j (length-turned ds ∙ sym p)
      ∙ ap (λ n. get_or (d ∷ ds) n 0) {x = 0} {y = suc (length ds) - 1 - j} (omega (arith, p))
  | no ne ↦
      get_or-append_left (turned ds) (d ∷ []) j (omega (arith, l, ne, length-turned ds))
      ∙ get_or-turned ds j (omega (arith, l, ne))
      ∙ ap (λ n. get_or (d ∷ ds) n 0) (behind (length ds) (omega (arith, l, ne)))
]
  where
    behind : (n : ℕ) → j < n → suc (n - 1 - j) ≡ suc n - 1 - j
    behind n h = omega arith

pub digits-nonzero :
    (n radix v : ℕ)
    → 2 ≤ radix
    → radix ≤ 36
    → (j : ℕ) → j < length (digits_of n radix v)
    → get_or (digits_of n radix v) j 0 ≢ 0
unfolding digits_of
digits-nonzero zero radix v lo hi j l = absurd (omega arith)
digits-nonzero (suc n) radix v lo hi j l = elim (Bool-cases (v == 0)) [
  | inl e ↦ absurd (ground (arith, l, e))
  | inr e ↦
      let last : v % radix < radix = mod-lt v (omega arith) in
      let long : j < length (lookup (v % radix) ∷ digits_of n radix (v / radix)) =
        ground (arith, l, e) in
      rw e (
        nonzero-cons (lookup (v % radix)) (digits_of n radix (v / radix))
          (lookup-nonzero (v % radix) (omega (arith, last, hi)))
          (digits-nonzero n radix (v / radix) lo hi) j long)
]

-- One digit more than the number without its last digit.
digits-le-step :
    (j radix v l : ℕ)
    → 2 ≤ radix
    → v < radix ^ j
    → v ≢ 0
    → ((i : ℕ) → v / radix < radix ^ i → l ≤ i)
    → suc l ≤ j
digits-le-step zero radix v l lo h nonzero rest = absurd (omega (arith, h, nonzero, pow-zero radix))
digits-le-step (suc j) radix v l lo h nonzero rest =
    let positive : 0 < radix = omega (arith, lo) in
    let below : v / radix < radix ^ j =
      (div-lt_iff_lt-mul {k = radix} {x = v} {y = radix ^ j} positive).1
        (omega (arith, h, pow-suc radix j)) in
    omega (arith, rest j below)

-- A number below `radix ^ k` has at most `k` digits.
pub length-digits-le :
    (n k radix v : ℕ) → 2 ≤ radix → v < radix ^ k → length (digits_of n radix v) ≤ k
unfolding digits_of
length-digits-le zero k radix v lo small = omega arith
length-digits-le (suc n) k radix v lo small = elim (Bool-cases (v == 0)) [
  | inl e ↦ rw e (omega arith)
  | inr e ↦
      let nonzero : v ≢ 0 = ground (arith, e) in
      rw e (
        digits-le-step k radix v (length (digits_of n radix (v / radix))) lo small nonzero
          (λ i h. length-digits-le n i radix (v / radix) lo h))
]

-- The numeral of a number.
abbrev pub numeral : ℕ → ℕ → List ℕ
numeral radix v = if v == 0 then b'0' ∷ [] else turned (digits_of 32 radix v)

pub parse-numeral :
    (radix v : ℕ) → 2 ≤ radix → radix ≤ 36 → v < 2 ^ 32 → parse radix 0 (numeral radix v) ≡ v
parse-numeral radix v lo hi small = elim (Bool-cases (v == 0)) [
  | inl e ↦ rw e (omega (arith, (==_iff v 0).0 e))
  | inr e ↦ rw e (parse-turned 32 radix v lo hi small)
]

pub length-numeral-le :
    (k radix v : ℕ) → 2 ≤ radix → v < radix ^ k → 1 ≤ k → length (numeral radix v) ≤ k
length-numeral-le k radix v lo small some_digit = elim (Bool-cases (v == 0)) [
  | inl e ↦ rw e some_digit
  | inr e ↦
      rw e (
        omega (arith, length-turned (digits_of 32 radix v), length-digits-le 32 k radix v lo small))
]

pub length-numeral-lt : (radix v : ℕ) → 2 ≤ radix → v < 2 ^ 32 → length (numeral radix v) < 33
length-numeral-lt radix v lo small = elim (Bool-cases (v == 0)) [
  | inl e ↦ rw e (omega arith)
  | inr e ↦ rw e (omega (arith, length-turned (digits_of 32 radix v), length-digits 32 radix v))
]
