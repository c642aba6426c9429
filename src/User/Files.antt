-- ===== src/User/Files.antt =====
-- The programs syscalls/ece391cat.c, ece391ls.c, ece391hello.c and ece391testprint.c. `buf` is what
-- a program's buffer holds at its start; a loop takes its number of rounds as fuel.
pub mod Loops
use ece391linux_os.Prelude.{set, ℕ, zero, suc, true, false, not, List}
use ece391linux_os.Prelude.Int.{ℤ, pos, pos_part, ◌+ℤ◌, eqb_ℤ, minus_one}
use ece391linux_os.Process.{file}
use ece391linux_os.Syscalls.{read}
use ece391linux_os.User.{Run, ◌>>=◌, ◌>>◌, pure, no_return, Calls, bytes, ece391_fdputs}

module _ {W : Type 0} (c : Calls W) where
  -- The loop of `cat` on the open file.
  unfoldable pub cat_loop : ℕ → ℤ → List ℕ → Run W ℤ
  cat_loop zero fd buf = no_return
  cat_loop (suc n) fd buf = do
    r ← c.read fd buf (pos 1024)
    elim (eqb_ℤ r.ret (pos 0)) [
      | true ↦ pure (pos 0)
      | false ↦ elim (eqb_ℤ r.ret minus_one) [
        | true ↦ do ece391_fdputs c (pos 1) (bytes "file read failed\n"); pure (pos 3)
        | false ↦ do
          written ← c.write (pos 1) r.buf r.ret
          elim (eqb_ℤ written minus_one) [ true ↦ pure (pos 3) | false ↦ cat_loop n fd r.buf ]
      ]
    ]

  unfoldable pub cat : ℕ → List ℕ → Run W ℤ
  cat n buf = do
    args ← c.getargs buf (pos 1024)
    elim (eqb_ℤ args.ret (pos 0)) [
      | false ↦ do ece391_fdputs c (pos 1) (bytes "could not read arguments\n"); pure (pos 3)
      | true ↦ do
        fd ← c.open_file args.buf
        elim (eqb_ℤ fd minus_one) [
          | true ↦ do ece391_fdputs c (pos 1) (bytes "file not found\n"); pure (pos 2)
          | false ↦ cat_loop n fd args.buf
        ]
    ]

  -- The loop of `ls` on the open directory; a name is at most 32 bytes of the 33.
  unfoldable pub ls_loop : ℕ → ℤ → List ℕ → Run W ℤ
  ls_loop zero fd buf = no_return
  ls_loop (suc n) fd buf = do
    r ← c.read fd buf (pos 32)
    elim (eqb_ℤ r.ret (pos 0)) [
      | true ↦ pure (pos 0)
      | false ↦ elim (eqb_ℤ r.ret minus_one) [
        | true ↦ do ece391_fdputs c (pos 1) (bytes "directory entry read failed\n"); pure (pos 3)
        | false ↦ do
          let line = set r.buf (pos_part r.ret) b'\n'
          written ← c.write (pos 1) line (r.ret +ℤ pos 1)
          elim (eqb_ℤ written minus_one) [ true ↦ pure (pos 3) | false ↦ ls_loop n fd line ]
      ]
    ]

  unfoldable pub ls : ℕ → List ℕ → Run W ℤ
  ls n buf = do
    fd ← c.open_file (bytes ".")
    elim (eqb_ℤ fd minus_one) [
      | true ↦ do ece391_fdputs c (pos 1) (bytes "directory open failed\n"); pure (pos 2)
      | false ↦ ls_loop n fd buf
    ]

  unfoldable pub hello : List ℕ → Run W ℤ
  hello buf = do
    ece391_fdputs c (pos 1) (bytes "Hi, what's your name? ")
    r ← c.read (pos 0) buf (pos 1023)
    elim (eqb_ℤ r.ret minus_one) [
      | true ↦ do ece391_fdputs c (pos 1) (bytes "Can't read name from keyboard.\n"); pure (pos 3)
      | false ↦ do
        ece391_fdputs c (pos 1) (bytes "Hello, ")
        ece391_fdputs c (pos 1) (set r.buf (pos_part r.ret) 0)
        pure (pos 0)
    ]

  unfoldable pub testprint : Run W ℤ
  testprint = do
    ece391_fdputs c (pos 1) (bytes "Hello, if this ran, the program was correct. Yay!\n")
    pure (pos 0)
