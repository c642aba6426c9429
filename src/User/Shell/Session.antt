-- ===== src/User/Shell/Session.antt =====
-- A round of the loop of the shell of syscalls/ece391shell.c on a line that was typed.
use ece391linux_os.Prelude.{
  length, get_or, set, length-set, ◌==◌, ℕ, suc, ◌+◌, ◌<◌, ◌≡◌, refl, sym, ap, ◌∙◌, ◌≢◌, false,
  some, List, [], ◌∷◌,
}
use ece391linux_os.Prelude.Int.{ℤ, pos}
use ece391linux_os.Execute.{execute}
use ece391linux_os.Text.{text}
use ece391linux_os.User.{Run, ◌>>=◌, ◌>>◌, Calls, bytes, ece391_fdputs}
use ece391linux_os.User.Shell.{report, respond, shell_loop}
use ece391linux_os.User.Shell.Lines.{
  IsLineTyped, line_read, is_exit, not_exit, first_live, first_blank,
}

-- What a read of the keyboard has left: the line and its newline in a buffer of 1024 bytes.
pub record Holds (line out : List ℕ) : Type 0 where
  pub room : length out ≡ 1024
  pub bytes_of : (k : ℕ) → k < length line → get_or out k 0 ≡ get_or line k 0
  pub ending : get_or out (length line) 0 ≡ b'\n'

module _ {W : Type 0} (c : Calls W) (execute : List ℕ → Run W ℤ) where
  -- The three answers to the line in `l`.
  respond-answers :
      (again : List ℕ → Run W ℤ) (l line : List ℕ) (w : W)
      → length l ≡ 1024
      → text 1024 l ≡ line
      → (line ≡ bytes "exit" → respond c execute again l w ≡ some (w, pos 0))
        × (line ≡ [] → respond c execute again l w ≡ again l w)
        × (line ≢ bytes "exit"
            → line ≢ []
            → respond c execute again l w ≡ (do rval ← execute l; report c execute rval; again l) w)
  unfolding respond
  respond-answers again l line w full e = (
    λ q. rw (is_exit l full (e ∙ q)) refl,
    λ q.
        let other = not_exit l full (λ r. absurd (cc (sym q ∙ (sym e ∙ r)))) in
        rw (other, first_blank 1023 l (e ∙ q)) refl,
    λ ne some_bytes.
        let other = not_exit l full (λ r. ne (sym e ∙ r)) in
        rw (other, live line e some_bytes) refl,
  )
    where
      live : (line : List ℕ) → text 1024 l ≡ line → line ≢ [] → (get_or l 0 0 == 0) ≡ false
      live [] e ne = absurd (ne refl)
      live (b ∷ line) e ne = first_live 1023 b l line e

-- For any system calls and any `execute`: where the prompt comes back and the read of the keyboard gives a line (fewer than 1023 bytes, no NUL) with its newline in a buffer of 1024 bytes, a round of the shell makes a string of exactly this line. On `exit` it returns 0; on an empty line it goes on to its next round and starts nothing; on any other line it calls `execute` once with this string, reports the return value and goes on to its next round.
pub shell_loop-answers :
    {W : Type 0} (c : Calls W) (execute : List ℕ → Run W ℤ) (n : ℕ) (line buf out : List ℕ)
    (w w1 w2 : W)
    → IsLineTyped line
    → ece391_fdputs c (pos 1) (bytes "391OS> ") w ≡ some (w1, tt)
    → c.read (pos 0) buf (pos 1023) w1
      ≡ some (w2, record { buf = out; ret = pos (length line + 1) })
    → Holds line out
    → let command = set out (length line) 0 in
      (text 1024 command ≡ line)
      × (line ≡ bytes "exit" → shell_loop c execute (suc n) buf w ≡ some (w2, pos 0))
      × (line ≡ [] → shell_loop c execute (suc n) buf w ≡ shell_loop c execute n command w2)
      × (line ≢ bytes "exit"
          → line ≢ []
          → shell_loop c execute (suc n) buf w
            ≡ (do rval ← execute command; report c execute rval; shell_loop c execute n command) w2)
unfolding shell_loop
shell_loop-answers c execute n line buf out w w1 w2 t prompts reads h =
    let command = set out (length line) 0 in
    let (at_end, holds) = line_read line out t h.room h.bytes_of h.ending in
    let again = shell_loop c execute n in
    let round : shell_loop c execute (suc n) buf w ≡ respond c execute again command w2 =
      rw (prompts, ◌>>=◌)
        (rw (reads, ◌>>=◌) (ap (λ k. respond c execute again (set out k 0) w2) at_end)) in
    let (ends, skips, runs) =
      respond-answers c execute again command line w2 (length-set out (length line) 0 ∙ h.room)
        holds in
    (holds, λ q. round ∙ ends q, λ q. round ∙ skips q, λ a b. round ∙ runs a b)
