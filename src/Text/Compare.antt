-- ===== src/Text/Compare.antt =====
-- `strlen` and `strncmp` of student-distrib/lib.c against the text that a string holds.
use ece391linux_os.Prelude.{
  length, ◌==◌, if◌then◌else◌, Bool-cases, ℕ, zero, suc, ◌≤◌, ◌<◌, ◌≡◌, refl, ◌↔◌, inl, inr, not,
  ◌||◌, List, [], ◌∷◌, arith,
}
use ece391linux_os.Prelude.Int.{ℤ, pos, ◌-ℤ◌}
use ece391linux_os.Text.{first, next, IsBytes, int8, strlen, strncmp, text}

-- With room for the whole string, `strlen` is the length of its text.
pub strlen-text : (s : List ℕ) (n : ℕ) → length s ≤ n → strlen s ≡ length (text n s)
unfolding strlen
strlen-text [] zero h = refl
strlen-text [] (suc n) h = refl
strlen-text (c ∷ s) zero h = absurd (omega arith)
strlen-text (c ∷ s) (suc n) h = ground (arith, strlen-text s n (omega arith))

pub strlen-le : (s : List ℕ) → strlen s ≤ length s
unfolding strlen
strlen-le [] = omega arith
strlen-le (c ∷ s) = ground (arith, strlen-le s)

int8_injective : (a b : ℕ) → a < 256 → b < 256 → int8 a -ℤ int8 b ≡ pos 0 → a ≡ b
int8_injective a b h k e = ground arith

IsBytes-next : (s : List ℕ) → IsBytes s → IsBytes (next s) × (first s < 256)
IsBytes-next [] h = (tt, omega arith)
IsBytes-next (c ∷ s) h = (h.1, h.0)

text-suc :
    (n : ℕ) (s : List ℕ) → text (suc n) s ≡ (if first s == 0 then [] else first s ∷ text n (next s))
text-suc n [] = refl
text-suc n (c ∷ s) = refl

-- One round of `strncmp`, against one byte of text on either side.
strncmp_round :
    (a b : ℕ) (rest : ℤ) (t1 t2 : List ℕ)
    → a < 256
    → b < 256
    → ((rest ≡ pos 0) ↔ (t1 ≡ t2))
    → ((if not (a == b) || a == 0 then int8 a -ℤ int8 b else rest) ≡ pos 0)
      ↔ ((if a == 0 then [] else a ∷ t1) ≡ (if b == 0 then [] else b ∷ t2))
strncmp_round a b rest t1 t2 h k ih = elim (Bool-cases (a == b)) [
  | inl e ↦ elim (Bool-cases (a == 0)) [
    | inl z ↦ (λ p. ground arith, λ p. ground arith)
    | inr z ↦ (λ p. ground (arith, ih.0), λ p. ground (arith, ih.1))
  ]
  | inr ne ↦ (λ p. absurd (ground (arith, int8_injective a b h k)), λ p. absurd (ground arith))
]

-- For strings of bytes, `strncmp` returns 0 exactly when the two strings hold the same text within
-- `n` bytes.
pub strncmp-eq-zero_iff :
    (n : ℕ) (s1 s2 : List ℕ)
    → IsBytes s1
    → IsBytes s2
    → (strncmp s1 s2 n ≡ pos 0) ↔ (text n s1 ≡ text n s2)
unfolding strncmp
strncmp-eq-zero_iff zero s1 s2 h k = (λ e. refl, λ e. refl)
strncmp-eq-zero_iff (suc n) s1 s2 h k =
    let (h', a) = IsBytes-next s1 h in
    let (k', b) = IsBytes-next s2 k in
    rw (text-suc n s1, text-suc n s2)
      (strncmp_round (first s1) (first s2) (strncmp (next s1) (next s2) n) (text n (next s1))
        (text n (next s2)) a b (strncmp-eq-zero_iff n (next s1) (next s2) h' k'))
