-- ===== src/Text/Copy.antt =====
-- `strcpy` and `strncpy` of student-distrib/lib.c: what they leave in the destination.
use ece391linux_os.Prelude.{
  ℕ, zero, suc, ◌+◌, ◌-◌, ◌≡◌, ◌<◌, ◌≤◌, refl, ap, List, [], ◌∷◌, ◌++◌, ◌==◌, arith, length,
  Bool-cases, inl, inr, replicate, drop,
}
use ece391linux_os.Text.{strcpy, pad, strncpy, strlen, text}

pub pad_lem : (n : ℕ) (dest : List ℕ) → n ≤ length dest → pad dest n ≡ replicate n 0 ++ drop n dest
unfolding pad
pad_lem zero dest h = refl
pad_lem (suc n) [] h = absurd (omega arith)
pad_lem (suc n) (d ∷ dest) h = ap (λ t. 0 ∷ t) (pad_lem n dest (omega arith))

pub length-text-le : (n : ℕ) (s : List ℕ) → length (text n s) ≤ n
length-text-le zero s = omega arith
length-text-le (suc n) [] = omega arith
length-text-le (suc n) (c ∷ s) = ground (arith, length-text-le n s)

strncpy_with_rest :
    (n m : ℕ) (dest src : List ℕ)
    → n ≤ length dest
    → length (text n src) + m ≡ n
    → strncpy dest src n ≡ text n src ++ (replicate m 0 ++ drop n dest)
unfolding strncpy
strncpy_with_rest zero m dest src h e = let z : m ≡ 0 = omega arith in rw z
strncpy_with_rest (suc n) m [] src h e = absurd (omega arith)
strncpy_with_rest (suc n) m (d ∷ dest) [] h e =
    let all : m ≡ suc n = omega arith in rw all (pad_lem (suc n) (d ∷ dest) h)
strncpy_with_rest (suc n) m (d ∷ dest) (c ∷ src) h e = elim (Bool-cases (c == 0)) [
  | inl z ↦ let all : m ≡ suc n = ground arith in rw (z, all) (pad_lem (suc n) (d ∷ dest) h)
  | inr nz ↦ rw nz (ap (λ t. c ∷ t) (strncpy_with_rest n m dest src (omega arith) (ground arith)))
]

-- `strncpy` writes the text of the source within `n` bytes, fills the rest of the `n` bytes with
-- NUL, and leaves the destination behind them alone, where the destination has `n` bytes. So a
-- source of `n` bytes or more is not terminated.
pub strncpy_lem :
    (n : ℕ) (dest src : List ℕ)
    → n ≤ length dest
    → strncpy dest src n ≡ text n src ++ (replicate (n - length (text n src)) 0 ++ drop n dest)
strncpy_lem n dest src h =
    strncpy_with_rest n (n - length (text n src)) dest src h (omega (arith, length-text-le n src))

-- `strcpy` writes the source's text and its terminator, and nothing else, where the destination
-- has room for both.
pub strcpy_lem :
    (dest src : List ℕ) (n : ℕ)
    → length src ≤ n
    → strlen src < length dest
    → strcpy dest src ≡ text n src ++ (0 ∷ drop (suc (strlen src)) dest)
unfolding strcpy strlen
strcpy_lem [] src n h k = absurd (omega arith)
strcpy_lem (d ∷ dest) [] zero h k = refl
strcpy_lem (d ∷ dest) [] (suc n) h k = refl
strcpy_lem (d ∷ dest) (c ∷ src) zero h k = absurd (omega arith)
strcpy_lem (d ∷ dest) (c ∷ src) (suc n) h k = elim (Bool-cases (c == 0)) [
  | inl e ↦ rw e refl
  | inr e ↦ rw e (ap (λ t. c ∷ t) (strcpy_lem dest src n (omega arith) (ground arith)))
]
