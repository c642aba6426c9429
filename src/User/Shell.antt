-- ===== src/User/Shell.antt =====
-- The shell, syscalls/ece391shell.c. `execute` is the call that starts a program; `buf` is what the
-- buffer of 1024 bytes holds; a loop takes its number of rounds as fuel.
pub mod Lines
pub mod Session
use ece391linux_os.Prelude.{
  get_or, set, ◌==◌, if◌then◌else◌, ℕ, zero, suc, ◌-◌, true, false, not, ◌&&◌, List,
}
use ece391linux_os.Prelude.Int.{ℤ, pos, pos_part, ltb_ℤ, eqb_ℤ, minus_one}
use ece391linux_os.Execute.{execute}
use ece391linux_os.Syscalls.{read}
use ece391linux_os.User.{Run, ◌>>=◌, ◌>>◌, pure, no_return, Calls, bytes, ece391_fdputs}
use ece391linux_os.User.Support.{ece391_strcmp}

-- `cnt` without the newline that the line ends in.
abbrev pub trimmed : List ℕ → ℤ → ℕ
trimmed buf cnt =
    if ltb_ℤ (pos 0) cnt && get_or buf (pos_part cnt - 1) 0 == b'\n'
    then pos_part cnt - 1
    else pos_part cnt

module _ {W : Type 0} (c : Calls W) (execute : List ℕ → Run W ℤ) where
  -- What the shell says of a program's return value.
  unfoldable pub report : ℤ → Run W (Unit {0})
  report rval =
      if eqb_ℤ minus_one rval
      then ece391_fdputs c (pos 1) (bytes "no such command\n")
      else (if eqb_ℤ (pos 256) rval
          then ece391_fdputs c (pos 1) (bytes "program terminated by exception\n")
          else (if not (eqb_ℤ (pos 0) rval)
              then ece391_fdputs c (pos 1) (bytes "program terminated abnormally\n")
              else pure tt))

  -- What the loop does with a line; `again` is its next round.
  unfoldable pub respond : (List ℕ → Run W ℤ) → List ℕ → Run W ℤ
  respond again line =
      if eqb_ℤ (pos 0) (ece391_strcmp line (bytes "exit"))
      then pure (pos 0)
      else (if get_or line 0 0 == 0
          then again line
          else (do rval ← execute line; report rval; again line))

  unfoldable pub shell_loop : ℕ → List ℕ → Run W ℤ
  shell_loop zero buf = no_return
  shell_loop (suc n) buf = do
    ece391_fdputs c (pos 1) (bytes "391OS> ")
    r ← c.read (pos 0) buf (pos 1023)
    elim (eqb_ℤ minus_one r.ret) [
      | true ↦ do ece391_fdputs c (pos 1) (bytes "read from keyboard failed\n"); pure (pos 3)
      | false ↦ respond (shell_loop n) (set r.buf (trimmed r.buf r.ret) 0)
    ]

  unfoldable pub shell : ℕ → List ℕ → Run W ℤ
  shell n buf = do ece391_fdputs c (pos 1) (bytes "Starting 391 Shell\n"); shell_loop n buf
