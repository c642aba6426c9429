-- ===== src/User/Grep/Search.antt =====
-- The search of a line in syscalls/ece391grep.c.
use ece391linux_os.Prelude.{
  get_or, drop, ◌==◌, if◌then◌else◌, Bool-cases, ℕ, zero, suc, ◌+◌, ◌≤◌, ◌<◌, ◌≡◌, refl, sym, subst,
  ◌∙◌, ◌≢◌, ◌↔◌, ◌⊎◌, inl, inr, Bool, true, false, ◌&&◌, ◌||◌, some, List, [], ◌∷◌, arith,
}
use native.Mathlib.Decide.{ℕ_discrete}
use ece391linux_os.Prelude.Int.{ℤ, pos, ◌-ℤ◌, eqb_ℤ, eqb_ℤ→eq}
use ece391linux_os.Text.{first, next, int8, strlen}
use ece391linux_os.User.{Calls}
use ece391linux_os.User.Grep.{show_line, search_line}
use ece391linux_os.User.Support.{ece391_strlen, ece391_strncmp}
use ece391linux_os.User.Support.Compare.{differ-zero}
use ece391linux_os.User.Support.Kernel.{ece391_strlen-strlen}

-- The bytes of the text `s`, `n` of them, stand at the start of `memory`.
abbrev pub StartsWith : ℕ → List ℕ → List ℕ → Type 0
StartsWith n s memory = (k : ℕ) → k < n → get_or memory k 0 ≡ get_or s k 0

first-at : (m : List ℕ) → first m ≡ get_or m 0 0
first-at [] = refl
first-at (c ∷ m) = refl

next-at : (m : List ℕ) (k : ℕ) → get_or (next m) k 0 ≡ get_or m (suc k) 0
next-at [] k = refl
next-at (c ∷ m) k = refl

starts-cons :
    (n c : ℕ) (s m : List ℕ)
    → StartsWith (suc n) (c ∷ s) m ↔ ((first m ≡ c) × StartsWith n s (next m))
starts-cons n c s m = (
  λ all. (first-at m ∙ all 0 (omega arith), λ k l. next-at m k ∙ all (suc k) (omega arith)),
  λ (here, rest) k l. cells here rest k l,
)
  where
    cells :
        first m ≡ c
        → StartsWith n s (next m)
        → (k : ℕ) → k < suc n
        → get_or m k 0 ≡ get_or (c ∷ s) k 0
    cells here rest zero l = sym (first-at m) ∙ here
    cells here rest (suc k) l = sym (next-at m k) ∙ rest k (omega arith)

-- One round of `ece391_strncmp` within the text.
strncmp_round :
    (a c n : ℕ) (rest : ℤ) (P : Type 0)
    → c ≢ 0
    → (n ≡ 0 → rest ≡ pos 0)
    → ((rest ≡ pos 0) ↔ P)
    → ((if a == c then (if a == 0 || n == 0 then pos 0 else rest) else pos a -ℤ pos c) ≡ pos 0)
      ↔ ((a ≡ c) × P)
strncmp_round a c n rest P live ends ih = elim (Bool-cases (a == c)) [
  | inr ne ↦ rw ne (
    λ p. absurd (ground (arith, differ-zero a c)),
    λ p. absurd (let q : a ≡ c = p.0 in ground (arith, q)),
  )
  | inl e ↦
      let same : a ≡ c = ground arith in
      let not_nul : (a == 0) ≡ false = ground (arith, live) in
      elim (Bool-cases (n == 0)) [
        | inl z ↦
            let at_end : n ≡ 0 = ground arith in
            rw (e, not_nul, z) (λ p. (same, ih.0 (ends at_end)), λ p. refl)
        | inr z ↦ rw (e, not_nul, z) (λ p. (same, ih.0 p), λ p. ih.1 p.1)
      ]
]

-- Within the text, `ece391_strncmp` tests whether its bytes stand there.
pub ece391_strncmp-StartsWith :
    (n : ℕ) (m s : List ℕ) → n ≤ strlen s → (ece391_strncmp m s n ≡ pos 0) ↔ StartsWith n s m
unfolding ece391_strncmp strlen
ece391_strncmp-StartsWith zero m s h = (λ e k l. absurd (omega (arith, l)), λ all. refl)
ece391_strncmp-StartsWith (suc n) m [] h = absurd (omega arith)
ece391_strncmp-StartsWith (suc n) m (c ∷ s) h =
    let live : c ≢ 0 = λ z. ground (arith, z) in
    let short : n ≤ strlen s = ground arith in
    let ih = ece391_strncmp-StartsWith n (next m) s short in
    let ends : n ≡ 0 → ece391_strncmp (next m) s n ≡ pos 0 =
      λ z. ih.1 (λ k l. absurd (omega (arith, l, z))) in
    let round =
      strncmp_round (first m) c n (ece391_strncmp (next m) s n) (StartsWith n s (next m)) live ends
        ih in
    let cells = starts-cons n c s m in (λ e. cells.1 (round.0 e), λ all. round.1 (cells.0 all))

-- The text stands in the buffer at `check`.
abbrev pub Occurs : List ℕ → List ℕ → ℕ → Type 0
Occurs s memory check = StartsWith (strlen s) s (drop check memory)

abbrev is_here : List ℕ → List ℕ → ℕ → Bool
is_here s memory check =
    eqb_ℤ (int8 (first s)) (pos (get_or memory check 0))
    && eqb_ℤ (pos 0) (ece391_strncmp (drop check memory) s (ece391_strlen s))

drop-at : (i : ℕ) (m : List ℕ) → get_or (drop i m) 0 0 ≡ get_or m i 0
drop-at zero m = refl
drop-at (suc i) [] = refl
drop-at (suc i) (c ∷ m) = drop-at i m

is_here-Occurs :
    (s memory : List ℕ) (check : ℕ)
    → 0 < strlen s
    → first s < 128
    → (is_here s memory check ≡ true) ↔ Occurs s memory check
is_here-Occurs s memory check h ascii =
    let place = drop check memory in
    let test = ece391_strncmp-StartsWith (strlen s) place s (omega arith) in
    let same : ece391_strlen s ≡ strlen s = ece391_strlen-strlen s in
    let here : Occurs s memory check → eqb_ℤ (int8 (first s)) (pos (get_or memory check 0)) ≡ true =
      λ all. let e = first-at s ∙ (sym (all 0 h) ∙ drop-at check memory) in ground (arith, e) in
    rw same (
      λ e. test.0 (ground (arith, eqb_ℤ→eq (pos 0) (ece391_strncmp place s (strlen s)))),
      λ all. rw (here all, test.1 all) refl,
    )

module _ {W : Type 0} (c : Calls W) (line_start : ℕ) (s fname memory : List ℕ) where
  -- The search of `n` places of a line from `check` on, for a text that is not empty and begins with a byte below 128: if the text stands at one of them the line is shown, once; if it stands at none, nothing is called.
  pub search_line_lem :
      (n check : ℕ) (w : W)
      → 0 < strlen s
      → first s < 128
      → ((k : ℕ) × (check ≤ k)
          × (k < check + n)
          × Occurs s memory k
          × (search_line c n check line_start s fname memory w
              ≡ show_line c fname (drop line_start memory) w))
        ⊎ (((k : ℕ) → check ≤ k → k < check + n → ¬ Occurs s memory k)
            × (search_line c n check line_start s fname memory w ≡ some (w, tt)))
  unfolding search_line
  search_line_lem zero check w h ascii = inr (λ k l u all. absurd (omega (arith, l, u)), refl)
  search_line_lem (suc n) check w h ascii = elim (Bool-cases (is_here s memory check)) [
    | inl e ↦
        inl
          (check, omega arith, omega arith, (is_here-Occurs s memory check h ascii).0 e, rw e refl)
    | inr e ↦ elim (search_line_lem n (check + 1) w h ascii) [
      | inl (k, l, u, found, shows) ↦ inl (k, omega arith, omega arith, found, rw e shows)
      | inr (nowhere, ends) ↦ inr (
        λ k l u all. elim (ℕ_discrete check k) [
          | yes same ↦
              let found : is_here s memory check ≡ true =
                (is_here-Occurs s memory check h ascii).1
                  (subst (Occurs s memory) (sym same) all) in
              cc (e, found)
          | no ne ↦ nowhere k (omega arith) (omega arith) all
        ],
        rw e ends,
      )
    ]
  ]
