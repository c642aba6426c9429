-- ===== src/Process/Count.antt =====
-- The live blocks of the process table: their number, and the search for a free one
-- (`create_new_pcb` of student-distrib/process_control.c).
use ece391linux_os.Prelude.{
  length, get_or, modify, if◌then◌else◌, Bool-cases, ℕ, zero, suc, ◌+◌, ◌≤◌, ◌<◌, ◌≡◌, refl, subst,
  inl, inr, Bool, true, false, none, some, List, [], ◌∷◌, arith,
}
use native.Mathlib.Decide.{ℕ_discrete}
use ece391linux_os.Prelude.Int.{eqb_ℤ, minus_one}
use ece391linux_os.Process.{Pcb, no_pcb, find_free}

abbrev pub is_free : Pcb → Bool
is_free b = eqb_ℤ b.pid minus_one

abbrev pub live : Pcb → ℕ
live b = if is_free b then 0 else 1

unfoldable pub count_live : List Pcb → ℕ
count_live [] = 0
count_live (b ∷ bs) = live b + count_live bs

pub count_live-modify :
    (bs : List Pcb) (i : ℕ) (f : Pcb → Pcb)
    → i < length bs
    → count_live (modify bs i f) + live (get_or bs i no_pcb)
      ≡ count_live bs + live (f (get_or bs i no_pcb))
unfolding count_live
count_live-modify [] i f h = absurd (omega arith)
count_live-modify (b ∷ bs) zero f h = omega arith
count_live-modify (b ∷ bs) (suc i) f h = omega (arith, count_live-modify bs i f)

pub count_live_all :
    (bs : List Pcb)
    → ((j : ℕ) → j < length bs → is_free (get_or bs j no_pcb) ≡ false)
    → count_live bs ≡ length bs
unfolding count_live
count_live_all [] all = refl
count_live_all (b ∷ bs) all =
    let rest = count_live_all bs (λ j h. all (suc j) (omega arith)) in
    rw (all 0 (omega arith)) (omega (arith, rest))

-- The search fails only if each block that it looks at is live.
pub find_free-none :
    (n i j : ℕ) (bs : List Pcb)
    → find_free n i bs ≡ none
    → i ≤ j
    → j < i + n
    → is_free (get_or bs j no_pcb) ≡ false
unfolding find_free
find_free-none zero i j bs e h k = absurd (omega arith)
find_free-none (suc n) i j bs e h k = elim (Bool-cases (is_free (get_or bs i no_pcb))) [
  | inl free ↦ ground arith
  | inr busy ↦ elim (ℕ_discrete i j) [
    | yes same ↦ subst (λ m. is_free (get_or bs m no_pcb) ≡ false) same busy
    | no ne ↦ find_free-none n (i + 1) j bs (ground arith) (omega arith) (omega arith)
  ]
]

-- The search finds the first free block of its range.
pub record Found (n i : ℕ) (bs : List Pcb) (k : ℕ) : Type 0 where
  pub lower : i ≤ k
  pub upper : k < i + n
  pub free : is_free (get_or bs k no_pcb) ≡ true
  pub first : (j : ℕ) → i ≤ j → j < k → is_free (get_or bs j no_pcb) ≡ false

pub find_free-Found : (n i k : ℕ) (bs : List Pcb) → find_free n i bs ≡ some k → Found n i bs k
unfolding find_free
find_free-Found zero i k bs e = cc
find_free-Found (suc n) i k bs e = elim (Bool-cases (is_free (get_or bs i no_pcb))) [
  | inl free ↦
      let same : i ≡ k = ground arith in
      record {
        lower = omega arith;
        upper = omega arith;
        free = subst (λ m. is_free (get_or bs m no_pcb) ≡ true) same free;
        first = λ j h l. absurd (omega arith);
      }
  | inr busy ↦
      let rest : Found n (i + 1) bs k = find_free-Found n (i + 1) k bs (ground arith) in
      record {
        lower = omega arith;
        upper = omega arith;
        free = rest.free;
        first = λ j h l. elim (ℕ_discrete i j) [
          | yes same ↦ subst (λ m. is_free (get_or bs m no_pcb) ≡ false) same busy
          | no ne ↦ rest.first j (omega arith) l
        ];
      }
]
