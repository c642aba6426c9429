-- ===== src/User/Support/Compare.antt =====
-- `ece391_strcmp` of syscalls/ece391support.c against the texts that two strings hold.
use ece391linux_os.Prelude.{
  length, ◌==◌, if◌then◌else◌, Bool-cases, ℕ, zero, suc, ◌≤◌, ◌≡◌, refl, sym, ◌∙◌, ◌↔◌, inl, inr,
  List, [], ◌∷◌, arith,
}
use ece391linux_os.Prelude.Int.{ℤ, pos, ◌-ℤ◌}
use ece391linux_os.Text.{first, text}
use ece391linux_os.User.Support.{ece391_strcmp}

pub differ-zero : (a b : ℕ) → pos a -ℤ pos b ≡ pos 0 → a ≡ b
differ-zero a b h = ground (arith, h)

-- The first bytes of two strings, in one round.
text-first : (n : ℕ) (s : List ℕ) → first s ≡ 0 → text n s ≡ []
text-first zero s h = refl
text-first (suc n) [] h = refl
text-first (suc n) (c ∷ s) h = rw h refl

empty-first : (n : ℕ) (s : List ℕ) → length s ≤ n → text n s ≡ [] → first s ≡ 0
empty-first zero [] h e = refl
empty-first zero (c ∷ s) h e = absurd (omega arith)
empty-first (suc n) [] h e = refl
empty-first (suc n) (c ∷ s) h e = elim (Bool-cases (c == 0)) [
  | inl z ↦ ground arith
  | inr z ↦ let same : c ∷ text n s ≡ [] = rw z at e in absurd (cc same)
]

-- One round on two bytes.
strcmp_round :
    (c d : ℕ) (rest : ℤ) (t1 t2 : List ℕ)
    → ((rest ≡ pos 0) ↔ (t1 ≡ t2))
    → ((if c == d then (if c == 0 then pos 0 else rest) else pos c -ℤ pos d) ≡ pos 0)
      ↔ ((if c == 0 then [] else c ∷ t1) ≡ (if d == 0 then [] else d ∷ t2))
strcmp_round c d rest t1 t2 ih = elim (Bool-cases (c == d)) [
  | inl e ↦ elim (Bool-cases (c == 0)) [
    | inl z ↦ (λ p. ground arith, λ p. ground arith)
    | inr z ↦ (λ p. ground (arith, ih.0), λ p. ground (arith, ih.1))
  ]
  | inr ne ↦ (λ p. absurd (ground (arith, differ-zero c d)), λ p. absurd (ground arith))
]

-- Two strings compare as equal exactly when they hold the same text.
pub ece391_strcmp-eq-zero_iff :
    (n : ℕ) (s1 s2 : List ℕ)
    → length s1 ≤ n
    → length s2 ≤ n
    → (ece391_strcmp s1 s2 ≡ pos 0) ↔ (text n s1 ≡ text n s2)
unfolding ece391_strcmp
ece391_strcmp-eq-zero_iff n [] s2 h k = (
  λ e.
      let f : 0 ≡ first s2 = differ-zero 0 (first s2) e in
      text-first n [] refl ∙ sym (text-first n s2 (sym f)),
  λ e. let f : first s2 ≡ 0 = empty-first n s2 k (sym e ∙ text-first n [] refl) in rw f refl,
)
ece391_strcmp-eq-zero_iff zero (c ∷ s1) s2 h k = absurd (omega arith)
ece391_strcmp-eq-zero_iff (suc n) (c ∷ s1) [] h k = elim (Bool-cases (c == 0)) [
  | inl e ↦ rw e (λ p. refl, λ p. refl)
  | inr e ↦ rw e (
    λ p. absurd (ground (arith, differ-zero c 0)),
    λ p. absurd (let q : c ∷ text n s1 ≡ [] = p in cc q),
  )
]
ece391_strcmp-eq-zero_iff (suc n) (c ∷ s1) (d ∷ s2) h k =
    strcmp_round c d (ece391_strcmp s1 s2) (text n s1) (text n s2)
      (ece391_strcmp-eq-zero_iff n s1 s2 (omega arith) (omega arith))
