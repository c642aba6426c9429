-- ===== src/Filesystem/Slots.antt =====
-- The descriptors that `file_open`, `directory_open`, `file_close` and `directory_close` of
-- student-distrib/filesystem_driver.c take and give back.
use ece391linux_os.Prelude.{
  get_or, ◌==◌, Bool-cases, ℕ, zero, suc, ◌+◌, ◌≤◌, ◌<◌, ◌≡◌, refl, subst, inl, inr, Bool, true,
  false, List, arith,
}
use native.Mathlib.Decide.{ℕ_discrete}
use ece391linux_os.Prelude.Int.{eqb_ℤ, minus_one}
use ece391linux_os.Filesystem.{Slot, found, refused, exhausted, find_slot}
use ece391linux_os.Process.{FdBlock, no_fd}

abbrev pub is_unused : FdBlock → Bool
is_unused b = eqb_ℤ b.flags minus_one

abbrev pub AllUsed : ℕ → ℕ → List FdBlock → Type 0
AllUsed n i t = (k : ℕ) → i ≤ k → k < i + n → is_unused (get_or t k no_fd) ≡ false

pub record IsLowest (n i : ℕ) (t : List FdBlock) (k : ℕ) : Type 0 where
  pub lower : i ≤ k
  pub upper : k < i + n
  pub unused : is_unused (get_or t k no_fd) ≡ true
  pub first : (j : ℕ) → i ≤ j → j < k → is_unused (get_or t j no_fd) ≡ false

abbrev pub SearchResult : ℕ → ℕ → ℕ → List FdBlock → Slot → Type 0
SearchResult limit n i t (found k) = IsLowest n i t k
SearchResult limit n i t refused =
    (k : ℕ) → i ≤ k → k ≤ limit → is_unused (get_or t k no_fd) ≡ false
SearchResult limit n i t exhausted = AllUsed n i t

used_at_and_above :
    (i k : ℕ) (t : List FdBlock)
    → is_unused (get_or t i no_fd) ≡ false
    → (i + 1 ≤ k → is_unused (get_or t k no_fd) ≡ false)
    → i ≤ k
    → is_unused (get_or t k no_fd) ≡ false
used_at_and_above i k t here above h = elim (ℕ_discrete i k) [
  | yes e ↦ subst (λ m. is_unused (get_or t m no_fd) ≡ false) e here
  | no ne ↦ above (omega arith)
]

extend_result :
    (limit n i : ℕ) (t : List FdBlock) (s : Slot)
    → is_unused (get_or t i no_fd) ≡ false
    → SearchResult limit n (i + 1) t s
    → SearchResult limit (suc n) i t s
extend_result limit n i t (found k) used r = record {
  lower = omega (arith, r.lower);
  upper = omega (arith, r.upper);
  unused = r.unused;
  first = λ j h l. used_at_and_above i j t used (λ a. r.first j a l) h;
}
extend_result limit n i t refused used r = λ k h l. used_at_and_above i k t used (λ a. r k a l) h
extend_result limit n i t exhausted used r =
    λ k h l. used_at_and_above i k t used (λ a. r k a (omega arith)) h

-- The search returns the lowest unused descriptor of its range; it is refused only if those up to
-- the limit are in use, and runs to its end only if all are.
pub find_slot-SearchResult :
    (limit n i : ℕ) (t : List FdBlock) → SearchResult limit n i t (find_slot limit n i t)
unfolding find_slot
find_slot-SearchResult limit zero i t = λ k h l. absurd (omega arith)
find_slot-SearchResult limit (suc n) i t = elim (Bool-cases (is_unused (get_or t i no_fd))) [
  | inl unused ↦ rw unused (record {
    lower = omega arith;
    upper = omega arith;
    unused = unused;
    first = λ j h l. absurd (omega arith);
  })
  | inr used ↦ elim (ℕ_discrete i limit) [
    | yes e ↦
        let hit : (i == limit) ≡ true = ground arith in
        rw (used, hit)
          (λ k h l. subst (λ m. is_unused (get_or t m no_fd) ≡ false) {x = i} (omega arith) used)
    | no ne ↦
        let miss : (i == limit) ≡ false = ground arith in
        rw (used, miss)
          (extend_result limit n i t (find_slot limit n (i + 1) t) used
            (find_slot-SearchResult limit n (i + 1) t))
  ]
]

-- With every descriptor of the range in use, the search is refused if it meets its limit.
pub find_slot-full :
    (limit n i : ℕ) (t : List FdBlock)
    → AllUsed n i t
    → (limit < i → find_slot limit n i t ≡ exhausted)
      × (i + n ≤ limit → find_slot limit n i t ≡ exhausted)
      × (i ≤ limit → limit < i + n → find_slot limit n i t ≡ refused)
unfolding find_slot
find_slot-full limit zero i t all = (λ h. refl, λ h. refl, λ h k. absurd (omega arith))
find_slot-full limit (suc n) i t all =
    let here : is_unused (get_or t i no_fd) ≡ false = all i (omega arith) (omega arith) in
    let ih = find_slot-full limit n (i + 1) t (λ k h l. all k (omega arith) (omega arith)) in
    rw here (
      λ h. let miss : (i == limit) ≡ false = ground arith in rw miss (ih.0 (omega arith)),
      λ h. let miss : (i == limit) ≡ false = ground arith in rw miss (ih.1 (omega arith)),
      λ h k. elim (ℕ_discrete i limit) [
        | yes e ↦ let hit : (i == limit) ≡ true = ground arith in rw hit refl
        | no ne ↦
            let miss : (i == limit) ≡ false = ground arith in
            rw miss (ih.2 (omega arith) (omega arith))
      ],
    )
