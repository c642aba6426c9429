-- ===== src/User/Errors.antt =====
-- The tests of the system calls' errors, syscalls/ece391syserr.c. `buf` is what a test's buffer
-- holds at its start. A test returns its `fail`, 0 or 2.
pub mod Contract
use ece391linux_os.Prelude.{◌==◌, if◌then◌else◌, ℕ, zero, suc, ◌+◌, List, []}
use ece391linux_os.Prelude.Int.{ℤ, pos, negsuc, pos_part, eqb_ℤ, minus_one}
use ece391linux_os.Exceptions.{message}
use ece391linux_os.Filesystem.ReadLoop.{from}
use ece391linux_os.Process.{stdin, stdout}
use ece391linux_os.Syscalls.{read, write, close}
use ece391linux_os.Text.{first}
use ece391linux_os.User.{Run, ◌>>=◌, ◌>>◌, pure, Filled, Calls, bytes, ece391_fdputs}

abbrev pub big_fd : ℤ
big_fd = pos 1073741823

abbrev pub neg_fd : ℤ
neg_fd = negsuc 1073741822

module _ {W : Type 0} (c : Calls W) where
  abbrev pub say : List ℕ → Run W (Unit {0})
  say message = ece391_fdputs c (pos 1) message

  -- `if (-1 != ret) { fail = 2; ece391_fdputs (1, message); }`
  abbrev pub expect_failure : ℤ → List ℕ → ℕ → Run W ℕ
  expect_failure ret message fail =
      if eqb_ℤ minus_one ret then pure fail else (do say message; pure 2)

  -- The end of each test.
  abbrev pub verdict : ℕ → List ℕ → List ℕ → Run W ℕ
  verdict fail failed passed =
      if fail == 0 then (do say passed; pure fail) else (do say failed; pure fail)

  -- A read, a write and a close of one descriptor must fail.
  abbrev pub all_fail : ℤ → List ℕ → Run W ℕ
  all_fail fd buf = do
    r ← c.read fd buf (pos 31)
    f1 ← expect_failure r.ret (bytes "read fail\n") 0
    written ← c.write fd r.buf (pos 31)
    f2 ← expect_failure written (bytes "write fail\n") f1
    closed ← c.close fd
    expect_failure closed (bytes "close fail\n") f2

  unfoldable pub err_neg_fd : List ℕ → Run W ℕ
  err_neg_fd buf = do
    fail ← all_fail neg_fd buf
    verdict fail (bytes "err_neg_fd: FAIL\n") (bytes "err_neg_fd: PASS\n")

  unfoldable pub err_big_fd : List ℕ → Run W ℕ
  err_big_fd buf = do
    fail ← all_fail big_fd buf
    verdict fail (bytes "err_big_fd: FAIL\n") (bytes "err_big_fd: PASS\n")

  -- `n` calls of `open`; `cnt` counts those that fail.
  unfoldable pub open_lots : ℕ → ℕ → Run W ℕ
  open_lots zero cnt = pure cnt
  open_lots (suc n) cnt = do
    ret ← c.open_file (bytes ".")
    open_lots n (if eqb_ℤ minus_one ret then cnt + 1 else cnt)

  -- `n` calls of `close` from descriptor `i` on.
  unfoldable pub close_all : ℕ → ℕ → Run W (Unit {0})
  close_all zero i = pure tt
  close_all (suc n) i = do c.close (pos i); close_all n (i + 1)

  unfoldable pub err_open_lots : Run W ℕ
  err_open_lots = do
    cnt ← open_lots 7 0
    close_all 6 2
    if cnt == 1
        then (do say (bytes "err_open_lots: PASS\n"); pure 0)
        else (do say (bytes "err_open_lots: FAIL\n"); pure 2)

  unfoldable pub err_open : Run W ℕ
  err_open = do
    r1 ← c.open_file (bytes "helloo")
    f1 ← expect_failure r1 (bytes "'helloo' fail\n") 0
    r2 ← c.open_file (bytes "shel")
    f2 ← expect_failure r2 (bytes "'shel' fail\n") f1
    r3 ← c.open_file []
    f3 ← expect_failure r3 (bytes "empty string fail\n") f2
    verdict f3 (bytes "err_open: FAIL\n") (bytes "err_open: PASS\n")

  -- The three loops of `err_unopened`, `n` rounds from descriptor `i` on.
  unfoldable pub close_unopened : ℕ → ℕ → ℕ → Run W ℕ
  close_unopened zero i fail = pure fail
  close_unopened (suc n) i fail = do
    ret ← c.close (pos i)
    f ← expect_failure ret (bytes "close unopened or invalid fd fail\n") fail
    close_unopened n (i + 1) f

  unfoldable pub read_unopened : ℕ → ℕ → List ℕ → ℕ → Run W Filled
  read_unopened zero i buf fail = pure (record { buf = buf; ret = pos fail })
  read_unopened (suc n) i buf fail = do
    r ← c.read (pos i) buf (pos 31)
    f ← expect_failure r.ret (bytes "read from unopened fd fail\n") fail
    read_unopened n (i + 1) r.buf f

  unfoldable pub write_unopened : ℕ → ℕ → List ℕ → ℕ → Run W ℕ
  write_unopened zero i buf fail = pure fail
  write_unopened (suc n) i buf fail = do
    ret ← c.write (pos i) buf (pos 31)
    f ← expect_failure ret (bytes "write to unopened fd fail\n") fail
    write_unopened n (i + 1) buf f

  unfoldable pub err_unopened : List ℕ → Run W ℕ
  err_unopened buf = do
    f1 ← close_unopened 8 0 0
    r ← read_unopened 6 2 buf f1
    f3 ← write_unopened 6 2 r.buf (pos_part r.ret)
    verdict f3 (bytes "err_unopened: FAIL\n") (bytes "err_unopened: PASS\n")

  unfoldable pub err_vidmap : Run W ℕ
  err_vidmap = do
    r1 ← c.vidmap 0
    f1 ← expect_failure r1 (bytes "Null pointer fail\n") 0
    r2 ← c.vidmap 0x400000
    f2 ← expect_failure r2 (bytes "Kernel pointer fail fail\n") f1
    verdict f2 (bytes "err_vidmap: FAIL\n") (bytes "err_vidmap: PASS\n")

  unfoldable pub err_stdin_out : List ℕ → Run W ℕ
  err_stdin_out buf = do
    r1 ← c.write (pos 0) buf (pos 31)
    f1 ← expect_failure r1 (bytes "write to stdin fail\n") 0
    r2 ← c.read (pos 1) buf (pos 31)
    f2 ← expect_failure r2.ret (bytes "read from stdout fail\n") f1
    verdict f2 (bytes "err_stdin_out: FAIL\n") (bytes "err_stdin_out: PASS\n")

  unfoldable pub err_syscall_num : Run W ℕ
  err_syscall_num = do
    r1 ← c.call_sys big_fd
    f1 ← expect_failure r1 (bytes "syscall 0 fail\n") 0
    r2 ← c.call_sys neg_fd
    f2 ← expect_failure r2 (bytes "big num syscall fail\n") f1
    r3 ← c.call_sys (pos 0)
    f3 ← expect_failure r3 (bytes "neg num syscall fail\n") f2
    verdict f3 (bytes "err_syscall_num: FAIL\n") (bytes "err_syscall_num: PASS\n")

  -- The choice 0: all tests in turn. Each has a buffer of its own on the stack.
  unfoldable pub all_errors : List ℕ → Run W ℕ
  all_errors buf = do
    t1 ← err_neg_fd buf
    t2 ← err_big_fd buf
    t3 ← err_open_lots
    t4 ← err_open
    t5 ← err_unopened buf
    t6 ← err_vidmap
    t7 ← err_stdin_out buf
    t8 ← err_syscall_num
    verdict (t1 + t2 + t3 + t4 + t5 + t6 + t7 + t8) (bytes "\nOverall Tests: FAIL\n")
        (bytes "\nOverall Tests: PASS\n")

  -- `chosen` is the byte read; the texts of the tests have 32 bytes of room.
  unfoldable pub run_tests : ℕ → List ℕ → Run W ℕ
  run_tests chosen buf =
      if chosen == b'0'
      then all_errors buf
      else (if chosen == b'1'
          then err_neg_fd buf
          else (if chosen == b'2'
              then err_big_fd buf
              else (if chosen == b'3'
                  then err_open_lots
                  else (if chosen == b'4'
                      then err_open
                      else (if chosen == b'5'
                          then err_unopened buf
                          else (if chosen == b'6'
                              then err_vidmap
                              else (if chosen == b'7'
                                  then err_stdin_out buf
                                  else (if chosen == b'8' then err_syscall_num else (do
                                    say (bytes "Invalid test number. Choose from tests 1-8 or 0")
                                    pure 0)))))))))

  unfoldable pub syserr : List ℕ → List ℕ → Run W ℕ
  syserr typed buf = do
    say (bytes "Choose from tests 1-8. 0 to run all: ")
    r ← c.read (pos 0) typed (pos 127)
    if eqb_ℤ r.ret minus_one
        then (do say (bytes "Can't read test #\n"); pure 2)
        else run_tests (first r.buf) buf
