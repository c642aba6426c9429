-- ===== src/User/Errors/Contract.antt =====
-- What the tests of syscalls/ece391syserr.c ask of the system calls, and that calls with these laws
-- pass them.
use ece391linux_os.Prelude.{
  ℕ, zero, suc, ◌+◌, ◌≤◌, ◌<◌, ◌≡◌, refl, Bool, true, not, ◌||◌, some, List, [], arith,
}
use native.Mathlib.Decide.{dec_lt}
use ece391linux_os.Prelude.Int.{ℤ, pos, ltb_ℤ, minus_one}
use ece391linux_os.Syscalls.{is_refused}
use ece391linux_os.User.{◌>>=◌, Calls, bytes, ece391_fdputs}
use ece391linux_os.User.Errors.{
  big_fd, neg_fd, verdict, all_fail, err_neg_fd, err_big_fd, err_open, close_unopened,
  read_unopened, write_unopened, err_unopened, err_vidmap, err_stdin_out, err_syscall_num,
}

-- The descriptors that no process has.
abbrev pub is_outside : ℤ → Bool
is_outside fd = ltb_ℤ fd (pos 0) || not (ltb_ℤ fd (pos 8))

-- In the state `w` every call that must fail returns -1 and changes nothing, and a text printed
-- gives the state `printed` tells.
pub record Rejects {W : Type 0} (c : Calls W) (printed : List ℕ → W → W) (w : W) : Type 0 where
  pub prints : (s : List ℕ) → ece391_fdputs c (pos 1) s w ≡ some (printed s w, tt)
  pub read_outside :
      (fd : ℤ) (buf : List ℕ) (n : ℤ)
      → is_outside fd ≡ true
      → c.read fd buf n w ≡ some (w, record { buf = buf; ret = minus_one })
  pub write_outside :
      (fd : ℤ) (buf : List ℕ) (n : ℤ)
      → is_outside fd ≡ true
      → c.write fd buf n w ≡ some (w, minus_one)
  pub close_outside : (fd : ℤ) → is_outside fd ≡ true → c.close fd w ≡ some (w, minus_one)
  pub close_standard : (k : ℕ) → k < 2 → c.close (pos k) w ≡ some (w, minus_one)
  pub read_unused :
      (k : ℕ) (buf : List ℕ) (n : ℤ)
      → 2 ≤ k
      → k < 8
      → c.read (pos k) buf n w ≡ some (w, record { buf = buf; ret = minus_one })
  pub write_unused :
      (k : ℕ) (buf : List ℕ) (n : ℤ) → 2 ≤ k → k < 8 → c.write (pos k) buf n w ≡ some (w, minus_one)
  pub close_unused : (k : ℕ) → 2 ≤ k → k < 8 → c.close (pos k) w ≡ some (w, minus_one)
  pub write_stdin : (buf : List ℕ) (n : ℤ) → c.write (pos 0) buf n w ≡ some (w, minus_one)
  pub read_stdout :
      (buf : List ℕ) (n : ℤ)
      → c.read (pos 1) buf n w ≡ some (w, record { buf = buf; ret = minus_one })
  pub vidmap_null : c.vidmap 0 w ≡ some (w, minus_one)
  pub vidmap_kernel : c.vidmap 0x400000 w ≡ some (w, minus_one)
  pub unknown_call : (num : ℤ) → is_refused num ≡ true → c.call_sys num w ≡ some (w, minus_one)

module _ {W : Type 0} (c : Calls W) (printed : List ℕ → W → W) (w : W)
    (law : Rejects c printed w) where
  all_fail-refused :
      (fd : ℤ) (buf : List ℕ) → is_outside fd ≡ true → all_fail c fd buf w ≡ some (w, 0)
  all_fail-refused fd buf h = cc (
    law.read_outside fd buf (pos 31) h,
    law.write_outside fd buf (pos 31) h,
    law.close_outside fd h,
  )

  close_unopened-refused :
      (n i : ℕ)
      → ((k : ℕ) → i ≤ k → k < i + n → c.close (pos k) w ≡ some (w, minus_one))
      → close_unopened c n i 0 w ≡ some (w, 0)
  unfolding close_unopened
  close_unopened-refused zero i h = refl
  close_unopened-refused (suc n) i h =
      rw (h i (omega arith) (omega arith), ◌>>=◌)
        (close_unopened-refused n (i + 1) (λ k l s. h k (omega arith) (omega arith)))

  read_unopened-refused :
      (n i : ℕ) (buf : List ℕ)
      → 2 ≤ i
      → i + n ≤ 8
      → read_unopened c n i buf 0 w ≡ some (w, record { buf = buf; ret = pos 0 })
  unfolding read_unopened
  read_unopened-refused zero i buf l h = refl
  read_unopened-refused (suc n) i buf l h =
      rw (law.read_unused i buf (pos 31) l (omega arith), ◌>>=◌)
        (read_unopened-refused n (i + 1) buf (omega arith) (omega arith))

  write_unopened-refused :
      (n i : ℕ) (buf : List ℕ) → 2 ≤ i → i + n ≤ 8 → write_unopened c n i buf 0 w ≡ some (w, 0)
  unfolding write_unopened
  write_unopened-refused zero i buf l h = refl
  write_unopened-refused (suc n) i buf l h =
      rw (law.write_unused i buf (pos 31) l (omega arith), ◌>>=◌)
        (write_unopened-refused n (i + 1) buf (omega arith) (omega arith))

  any_closing : (k : ℕ) → k < 8 → c.close (pos k) w ≡ some (w, minus_one)
  any_closing k h = elim (dec_lt k 2) [
    | yes l ↦ law.close_standard k l
    | no g ↦ law.close_unused k (omega arith) h
  ]

  passed : (s : List ℕ) → verdict c 0 [] s w ≡ some (printed s w, 0)
  passed s = cc (law.prints s)

  pub err_neg_fd-passes :
      (buf : List ℕ) → err_neg_fd c buf w ≡ some (printed (bytes "err_neg_fd: PASS\n") w, 0)
  unfolding err_neg_fd
  err_neg_fd-passes buf =
      cc (all_fail-refused neg_fd buf refl, law.prints (bytes "err_neg_fd: PASS\n"))

  pub err_big_fd-passes :
      (buf : List ℕ) → err_big_fd c buf w ≡ some (printed (bytes "err_big_fd: PASS\n") w, 0)
  unfolding err_big_fd
  err_big_fd-passes buf =
      cc (all_fail-refused big_fd buf refl, law.prints (bytes "err_big_fd: PASS\n"))

  pub err_unopened-passes :
      (buf : List ℕ) → err_unopened c buf w ≡ some (printed (bytes "err_unopened: PASS\n") w, 0)
  unfolding err_unopened
  err_unopened-passes buf =
      rw
        (
          close_unopened-refused 8 0 (λ k l h. any_closing k h),
          ◌>>=◌,
          read_unopened-refused 6 2 buf (omega arith) (omega arith),
          ◌>>=◌,
          write_unopened-refused 6 2 buf (omega arith) (omega arith),
          ◌>>=◌,
        )
        (passed (bytes "err_unopened: PASS\n"))

  pub err_vidmap-passes : err_vidmap c w ≡ some (printed (bytes "err_vidmap: PASS\n") w, 0)
  unfolding err_vidmap
  err_vidmap-passes =
      cc (law.vidmap_null, law.vidmap_kernel, law.prints (bytes "err_vidmap: PASS\n"))

  pub err_stdin_out-passes :
      (buf : List ℕ) → err_stdin_out c buf w ≡ some (printed (bytes "err_stdin_out: PASS\n") w, 0)
  unfolding err_stdin_out
  err_stdin_out-passes buf = cc (
    law.write_stdin buf (pos 31),
    law.read_stdout buf (pos 31),
    law.prints (bytes "err_stdin_out: PASS\n"),
  )

  pub err_syscall_num-passes :
      err_syscall_num c w ≡ some (printed (bytes "err_syscall_num: PASS\n") w, 0)
  unfolding err_syscall_num
  err_syscall_num-passes = cc (
    law.unknown_call big_fd refl,
    law.unknown_call neg_fd refl,
    law.unknown_call (pos 0) refl,
    law.prints (bytes "err_syscall_num: PASS\n"),
  )

  -- None of the three names is a file's.
  pub err_open-passes :
      c.open_file (bytes "helloo") w ≡ some (w, minus_one)
      → c.open_file (bytes "shel") w ≡ some (w, minus_one)
      → c.open_file [] w ≡ some (w, minus_one)
      → err_open c w ≡ some (printed (bytes "err_open: PASS\n") w, 0)
  unfolding err_open
  err_open-passes a b e = cc (a, b, e, law.prints (bytes "err_open: PASS\n"))
