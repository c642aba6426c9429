-- ===== src/Filesystem/CopyName.antt =====
-- The loop of `directory_read` (student-distrib/filesystem_driver.c) that copies one name.
use ece391linux_os.Prelude.{
  length, get_or, set, drop, length-set, get_or-set_self, get_or-set_ne, ◌==◌, Bool-cases, ℕ, zero,
  suc, ◌+◌, ◌≤◌, ◌<◌, ◌≡◌, refl, subst, ◌∙◌, ◌⊎◌, inl, inr, Bool, true, false, List, [], ◌∷◌, arith,
}
use native.Mathlib.Decide.{ℕ_discrete}
use ece391linux_os.Filesystem.Listing.{copy_name}
use ece391linux_os.Text.{text}

-- The text of the name from byte `k` on, cut off at `n` bytes.
abbrev pub name_text : ℕ → ℕ → List ℕ → List ℕ
name_text n k name = text n (drop k name)

name_text_stop : (n k : ℕ) (name : List ℕ) → get_or name k 0 ≡ 0 → name_text (suc n) k name ≡ []
name_text_stop n zero [] e = refl
name_text_stop n (suc k) [] e = refl
name_text_stop n zero (c ∷ name) e = rw e
name_text_stop n (suc k) (c ∷ name) e = name_text_stop n k name e

name_text_step :
    (n k : ℕ) (name : List ℕ)
    → (get_or name k 0 == 0) ≡ false
    → name_text (suc n) k name ≡ get_or name k 0 ∷ name_text n (suc k) name
name_text_step n zero [] e = cc
name_text_step n (suc k) [] e = cc
name_text_step n zero (c ∷ name) e = rw e
name_text_step n (suc k) (c ∷ name) e = name_text_step n k name e

-- What the loop leaves when it starts at byte `k` with `n` rounds.
pub record Copied (n k : ℕ) (name buf : List ℕ) (r : List ℕ × ℕ × Bool) : Type 0 where
  pub count : r.1 ≡ k + length (name_text n k name)
  pub ends : (r.2 ≡ true) ⊎ (length (name_text n k name) ≡ n)
  pub bytes : (i : ℕ) → k ≤ i → i < r.1 → i < length buf → get_or r.0 i 0 ≡ get_or name i 0
  pub below : (i : ℕ) → i < k → get_or r.0 i 0 ≡ get_or buf i 0
  pub terminated : r.2 ≡ true → r.1 < length buf → get_or r.0 r.1 0 ≡ 0

pub copy_name-Copied : (n k : ℕ) (name buf : List ℕ) → Copied n k name buf (copy_name n k name buf)
unfolding copy_name
copy_name-Copied zero k name buf = record {
  count = omega arith;
  ends = inr refl;
  bytes = λ i h l s. absurd (omega arith);
  below = λ i h. refl;
  terminated = λ e. cc;
}
copy_name-Copied (suc n) k name buf = elim (Bool-cases (get_or name k 0 == 0)) [
  | inl stop ↦
      let nothing : name_text (suc n) k name ≡ [] = name_text_stop n k name (ground arith) in
      rw stop (record {
        count = rw nothing (omega arith);
        ends = inl refl;
        bytes = λ i h l s. absurd (omega arith);
        below = λ i h. get_or-set_ne buf k i 0 0 (omega arith);
        terminated = λ e s. get_or-set_self buf k 0 0 s;
      })
  | inr more ↦
      let ih = copy_name-Copied n (k + 1) name (set buf k (get_or name k 0)) in
      let next_index : k + 1 ≡ suc k = omega arith in
      let more_text : name_text (suc n) k name ≡ get_or name k 0 ∷ name_text n (k + 1) name =
        rw next_index (name_text_step n k name more) in
      let size = length-set buf k (get_or name k 0) in
      rw more (record {
        count = rw more_text (omega (arith, ih.count));
        ends = elim ih.ends [ inl t ↦ inl t | inr t ↦ inr (rw more_text (omega (arith, t))) ];
        bytes = λ i h l s. elim (ℕ_discrete k i) [
          | yes e ↦
              ih.below i (omega arith)
              ∙ subst (λ m. get_or (set buf k (get_or name k 0)) m 0 ≡ get_or name m 0) e
                  (get_or-set_self buf k (get_or name k 0) 0 (omega arith))
          | no ne ↦ ih.bytes i (omega arith) l (omega (arith, size))
        ];
        below = λ i h.
            ih.below i (omega arith) ∙ get_or-set_ne buf k i (get_or name k 0) 0 (omega arith);
        terminated = λ e s. ih.terminated e (omega (arith, size));
      })
]
