-- ===== src/User/Files/Loops.antt =====
-- The loop of syscalls/ece391cat.c round by round, over any system calls.
use ece391linux_os.Prelude.{set, ℕ, suc, ◌≡◌, refl, true, false, some, List}
use ece391linux_os.Prelude.Int.{ℤ, pos, pos_part, ◌+ℤ◌, eqb_ℤ, minus_one}
use ece391linux_os.Filesystem.DirectoryLoop.{given}
use ece391linux_os.User.{◌>>=◌, Filled, Calls, bytes}
use ece391linux_os.User.Files.{cat_loop, cat, ls_loop, ls}

module _ {W : Type 0} (c : Calls W) (n : ℕ) (fd : ℤ) (buf : List ℕ) where
  pub cat_loop-round :
      (w w1 w2 : W) (r : Filled) (done : ℤ)
      → c.read fd buf (pos 1024) w ≡ some (w1, r)
      → eqb_ℤ r.ret (pos 0) ≡ false
      → eqb_ℤ r.ret minus_one ≡ false
      → c.write (pos 1) r.buf r.ret w1 ≡ some (w2, done)
      → eqb_ℤ done minus_one ≡ false
      → cat_loop c (suc n) fd buf w ≡ cat_loop c n fd r.buf w2
  unfolding cat_loop
  cat_loop-round w w1 w2 r done reads a b writes e =
      rw (reads, ◌>>=◌) (rw (a, b, writes, ◌>>=◌) (rw e refl))

  pub cat_loop-stop :
      (w w1 : W) (r : Filled)
      → c.read fd buf (pos 1024) w ≡ some (w1, r)
      → eqb_ℤ r.ret (pos 0) ≡ true
      → cat_loop c (suc n) fd buf w ≡ some (w1, pos 0)
  unfolding cat_loop
  cat_loop-stop w w1 r reads a = rw (reads, ◌>>=◌) (rw a refl)

pub cat-opens :
    {W : Type 0} (c : Calls W) (n : ℕ) (buf : List ℕ) (w w1 w2 : W) (args : Filled) (fd : ℤ)
    → c.getargs buf (pos 1024) w ≡ some (w1, args)
    → eqb_ℤ args.ret (pos 0) ≡ true
    → c.open_file args.buf w1 ≡ some (w2, fd)
    → eqb_ℤ fd minus_one ≡ false
    → cat c n buf w ≡ cat_loop c n fd args.buf w2
unfolding cat
cat-opens c n buf w w1 w2 args fd given a opens b =
    rw (given, ◌>>=◌) (rw (a, opens, ◌>>=◌) (rw b refl))

module _ {W : Type 0} (c : Calls W) (n : ℕ) (fd : ℤ) (buf : List ℕ) where
  pub ls_loop-round :
      (w w1 w2 : W) (r : Filled) (done : ℤ)
      → c.read fd buf (pos 32) w ≡ some (w1, r)
      → eqb_ℤ r.ret (pos 0) ≡ false
      → eqb_ℤ r.ret minus_one ≡ false
      → c.write (pos 1) (set r.buf (pos_part r.ret) b'\n') (r.ret +ℤ pos 1) w1 ≡ some (w2, done)
      → eqb_ℤ done minus_one ≡ false
      → ls_loop c (suc n) fd buf w ≡ ls_loop c n fd (set r.buf (pos_part r.ret) b'\n') w2
  unfolding ls_loop
  ls_loop-round w w1 w2 r done reads a b writes e =
      rw (reads, ◌>>=◌) (rw (a, b, writes, ◌>>=◌) (rw e refl))

  pub ls_loop-stop :
      (w w1 : W) (r : Filled)
      → c.read fd buf (pos 32) w ≡ some (w1, r)
      → eqb_ℤ r.ret (pos 0) ≡ true
      → ls_loop c (suc n) fd buf w ≡ some (w1, pos 0)
  unfolding ls_loop
  ls_loop-stop w w1 r reads a = rw (reads, ◌>>=◌) (rw a refl)

pub ls-opens :
    {W : Type 0} (c : Calls W) (n : ℕ) (buf : List ℕ) (w w1 : W) (fd : ℤ)
    → c.open_file (bytes ".") w ≡ some (w1, fd)
    → eqb_ℤ fd minus_one ≡ false
    → ls c n buf w ≡ ls_loop c n fd buf w1
unfolding ls
ls-opens c n buf w w1 fd opens b = rw (opens, ◌>>=◌) (rw b refl)
