-- ===== src/User/Shell/Lines.antt =====
-- The lines that are typed to the shell of syscalls/ece391shell.c, and the buffer that holds one.
use ece391linux_os.Prelude.{
  length, get_or, set, get_or-set_ne, ◌==◌, Bool-cases, ℕ, suc, ◌+◌, ◌-◌, ◌<◌, ◌≡◌, refl, sym, ◌∙◌,
  ◌≢◌, ◌↔◌, inl, inr, true, false, List, [], ◌∷◌, arith,
}
use ece391linux_os.Prelude.Int.{pos, ltb_ℤ, eqb_ℤ, eqb_ℤ→eq}
use ece391linux_os.Text.{text}
use ece391linux_os.Text.Writing.{text-from_entries, ended}
use ece391linux_os.User.{bytes}
use ece391linux_os.User.Shell.{trimmed}
use ece391linux_os.User.Support.{ece391_strcmp}
use ece391linux_os.User.Support.Compare.{ece391_strcmp-eq-zero_iff}

-- A line that can be typed: no NUL, and room for the newline.
pub record IsLineTyped (line : List ℕ) : Type 0 where
  pub short : length line < 1023
  pub no_nul : (k : ℕ) → k < length line → get_or line k 0 ≢ 0

-- The buffer with the newline replaced by NUL holds the line.
pub line_read :
    (line out : List ℕ)
    → IsLineTyped line
    → length out ≡ 1024
    → ((k : ℕ) → k < length line → get_or out k 0 ≡ get_or line k 0)
    → get_or out (length line) 0 ≡ b'\n'
    → (trimmed out (pos (length line + 1)) ≡ length line)
      × (text 1024 (set out (length line) 0) ≡ line)
line_read line out t full same end =
    let at_end : trimmed out (pos (length line + 1)) ≡ length line =
      let one : length line + 1 - 1 ≡ length line = omega arith in
      let positive : ltb_ℤ (pos 0) (pos (length line + 1)) ≡ true = ground arith in
      rw (one, positive, end) refl in
    (
      at_end,
      text-from_entries 1024 line (set out (length line) 0) (omega (arith, t.short))
          (λ j l. (get_or-set_ne out (length line) j 0 0 (omega arith) ∙ same j l, t.no_nul j l))
          (ended out (length line)),
    )

exit_same :
    (l : List ℕ)
    → length l ≡ 1024
    → (ece391_strcmp l (bytes "exit") ≡ pos 0) ↔ (text 1024 l ≡ bytes "exit")
exit_same l full = ece391_strcmp-eq-zero_iff 1024 l (bytes "exit") (omega arith) (omega arith)

pub is_exit :
    (l : List ℕ)
    → length l ≡ 1024
    → text 1024 l ≡ bytes "exit"
    → eqb_ℤ (pos 0) (ece391_strcmp l (bytes "exit")) ≡ true
is_exit l full e = rw ((exit_same l full).1 e) refl

pub not_exit :
    (l : List ℕ)
    → length l ≡ 1024
    → text 1024 l ≢ bytes "exit"
    → eqb_ℤ (pos 0) (ece391_strcmp l (bytes "exit")) ≡ false
not_exit l full ne = elim (Bool-cases (eqb_ℤ (pos 0) (ece391_strcmp l (bytes "exit")))) [
  | inl e ↦ absurd (ne ((exit_same l full).0 (sym (eqb_ℤ→eq _ _ e))))
  | inr e ↦ e
]

pub first_live :
    (n b : ℕ) (l line : List ℕ) → text (suc n) l ≡ b ∷ line → (get_or l 0 0 == 0) ≡ false
first_live n b [] line e = absurd (cc e)
first_live n b (x ∷ l) line e = elim (Bool-cases (x == 0)) [
  | inl z ↦ let q : [] ≡ b ∷ line = rw z at e in absurd (cc q)
  | inr z ↦ z
]

pub first_blank : (n : ℕ) (l : List ℕ) → text (suc n) l ≡ [] → (get_or l 0 0 == 0) ≡ true
first_blank n [] e = refl
first_blank n (x ∷ l) e = elim (Bool-cases (x == 0)) [
  | inl z ↦ z
  | inr z ↦ let q : x ∷ text n l ≡ [] = rw z at e in absurd (cc q)
]
