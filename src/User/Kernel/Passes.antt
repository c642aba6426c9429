-- ===== src/User/Kernel/Passes.antt =====
-- The kernel passes the tests of syscalls/ece391syserr.c.
use ece391linux_os.Syscalls
use ece391linux_os.Prelude.{
  ℕ, zero, suc, ◌+◌, ◌^◌, ◌≤◌, ◌<◌, ◌≡◌, refl, subst, inl, false, none, some, List, [], ◌∷◌, arith,
}
use ece391linux_os.Prelude.Int.{ℤ, pos, minus_one}
use ece391linux_os.Filesystem.{
  DirEntry, Image, read_dentry_by_name, directory_open, bad_fd, directory_close,
}
use ece391linux_os.Process.{Processes}
use ece391linux_os.Syscalls.{Machine}
use ece391linux_os.Text.{strlen}
use ece391linux_os.User.{◌>>=◌, Calls, bytes}
use ece391linux_os.User.Errors.{open_lots, close_all, err_open_lots, all_errors}
use ece391linux_os.User.Errors.Contract.{
  err_neg_fd-passes, err_big_fd-passes, err_unopened-passes, err_vidmap-passes,
  err_stdin_out-passes, err_syscall_num-passes, err_open-passes,
}
use ece391linux_os.User.Kernel.Laws.{kernel-Rejects}
use ece391linux_os.User.Kernel.Opening.{Between, open_next, open_full, close_next}
use ece391linux_os.User.Kernel.Output.{printed, IsFresh, on_kernel, ece391_fdputs-prints}

pub Between-IsFresh : (img : Image) (p : Processes) → IsFresh p → Between img 2 2 p
Between-IsFresh img p f = record {
  well_formed = f.well_formed;
  input = f.input;
  output = f.output;
  used = λ k l h. absurd (omega arith);
  flags = λ k l h side. f.unused k l h;
  ops = λ k l h side. f.without_ops k l h;
}

IsFresh-Between : (img : Image) (p : Processes) → Between img 8 8 p → IsFresh p
IsFresh-Between img p s = record {
  well_formed = s.well_formed;
  input = s.input;
  output = s.output;
  unused = λ k l h. s.flags k l h (inl h);
  without_ops = λ k l h. s.ops k l h (inl h);
}

abbrev pub with_processes : Machine → Processes → Machine
with_processes m p = record m { processes = p }

abbrev pub printed_all : List (List ℕ) → Machine → Machine
printed_all [] m = m
printed_all (s ∷ rest) m = printed_all rest (printed s m)

abbrev pub reports : List (List ℕ)
reports =
    bytes "err_neg_fd: PASS\n"
    ∷ bytes "err_big_fd: PASS\n"
    ∷ bytes "err_open_lots: PASS\n"
    ∷ bytes "err_open: PASS\n"
    ∷ bytes "err_unopened: PASS\n"
    ∷ bytes "err_vidmap: PASS\n"
    ∷ bytes "err_stdin_out: PASS\n"
    ∷ bytes "err_syscall_num: PASS\n"
    ∷ bytes "\nOverall Tests: PASS\n"
    ∷ []

module _ (dentry : DirEntry) (garbage : ℕ) (unset : ℤ) (m : Machine) where
  abbrev calls : Calls Machine
  calls = on_kernel dentry garbage unset

  module _ (d : DirEntry) (hit : read_dentry_by_name m.image (bytes ".") ≡ some d)
      (kind : d.file_type ≡ 1) (signed : m.image.boot.num_dir_entries < 2 ^ 31) where
    pub open_directory :
        (p q : Processes) (ret : ℤ)
        → directory_open m.image (bytes ".") p ≡ (q, ret)
        → Syscalls.open_file garbage unset (some (bytes ".")) (with_processes m p)
          ≡ (with_processes m q, ret)
    unfolding Syscalls.open_file
    open_directory p q ret e = rw (hit, Syscalls.open_file) (rw kind (rw e refl))

    open_lots-fails_once :
        (n b : ℕ) (p : Processes)
        → 2 ≤ b
        → b + n ≡ 8
        → Between m.image 2 b p
        → (q : Processes) × (open_lots calls (suc n) 0 (with_processes m p)
            ≡ some (with_processes m q, 1))
          × Between m.image 2 8 q
    unfolding open_lots
    open_lots-fails_once zero b p l e s =
        let last : b ≡ 8 = omega arith in
        let full = subst (λ k. Between m.image 2 k p) last s in
        (p, rw (open_directory p p minus_one (open_full m.image d hit signed p full)) refl, full)
    open_lots-fails_once (suc n) b p l e s =
        let (q, step, t) = open_next m.image d hit signed b p l (omega arith) s in
        let (r, rest, u) = open_lots-fails_once n (b + 1) q (omega arith) (omega arith) t in
        (r, rw (open_directory p q (pos b) step) rest, u)

  close_directory :
      (img : Image) (a : ℕ) (p q : Processes)
      → 2 ≤ a
      → a < 8
      → Between img a 8 p
      → directory_close (pos a) p ≡ (q, pos 0)
      → Syscalls.close (pos a) (with_processes m p) ≡ (with_processes m q, pos 0)
  unfolding Syscalls.close
  close_directory img a p q l h s e =
      let good : bad_fd (pos a) ≡ false = ground arith in
      rw (good, Syscalls.close) (rw (s.used a (omega arith) h) (rw e refl))

  close_all-closes :
      (img : Image) (n a : ℕ) (p : Processes)
      → 2 ≤ a
      → a + n ≡ 8
      → Between img a 8 p
      → img.boot.num_dir_entries < 2 ^ 31
      → (q : Processes) × (close_all calls n a (with_processes m p) ≡ some (with_processes m q, tt))
        × Between img 8 8 q
  unfolding close_all
  close_all-closes img zero a p l e s signed =
      let same : a ≡ 8 = omega arith in (p, refl, subst (λ k. Between img k 8 p) same s)
  close_all-closes img (suc n) a p l e s signed =
      let (q, step, t) = close_next img a p l (omega arith) s signed in
      let (r, rest, u) = close_all-closes img n (a + 1) q (omega arith) (omega arith) t signed in
      (r, rw (close_directory img a p q l (omega arith) s step) rest, u)

  -- `k` is the first descriptor that the directory gets.
  err_open_lots-passes :
      (d : DirEntry)
      → read_dentry_by_name m.image (bytes ".") ≡ some d
      → d.file_type ≡ 1
      → m.image.boot.num_dir_entries < 2 ^ 31
      → IsFresh m.processes
      → (q : Processes) × IsFresh q
        × (err_open_lots calls m
            ≡ some (printed (bytes "err_open_lots: PASS\n") (with_processes m q), 0))
  unfolding err_open_lots
  err_open_lots-passes d hit kind signed fresh =
      let start = Between-IsFresh m.image m.processes fresh in
      let (q, opens, full) =
        open_lots-fails_once d hit kind signed 6 2 m.processes (omega arith) refl start in
      let (r, shuts, closed) = close_all-closes m.image 6 2 q (omega arith) refl full signed in
      let done = IsFresh-Between m.image r closed in
      let says =
        ece391_fdputs-prints dentry garbage unset (bytes "err_open_lots: PASS\n")
          (with_processes m r) done.output in
      (r, done, rw (opens, ◌>>=◌, shuts, ◌>>=◌, says, ◌>>=◌) refl)

  -- A name without an entry.
  open_missing :
      (name : List ℕ)
      → read_dentry_by_name m.image name ≡ none
      → calls.open_file name m ≡ some (m, minus_one)
  unfolding Syscalls.open_file
  open_missing name h = rw (h, Syscalls.open_file) refl

-- The empty name has no entry.
no_empty_name : (img : Image) → read_dentry_by_name img [] ≡ none
unfolding read_dentry_by_name strlen
no_empty_name img = refl

-- On the kernel, in a process that has opened nothing, where `.` names a directory, `helloo` and `shel` name nothing, and the boot block counts fewer than 2 ^ 31 directory entries: the eight tests of syserr return 0, print their eight reports of success and the overall one, and leave a process that has opened nothing.
pub all_errors-passes :
    (dentry d : DirEntry) (garbage : ℕ) (unset : ℤ) (buf : List ℕ) (m : Machine)
    → IsFresh m.processes
    → read_dentry_by_name m.image (bytes ".") ≡ some d
    → d.file_type ≡ 1
    → m.image.boot.num_dir_entries < 2 ^ 31
    → read_dentry_by_name m.image (bytes "helloo") ≡ none
    → read_dentry_by_name m.image (bytes "shel") ≡ none
    → (q : Processes) × IsFresh q
      × (all_errors (on_kernel dentry garbage unset) buf m
          ≡ some (with_processes (printed_all reports m) q, 0))
unfolding all_errors
all_errors-passes dentry d garbage unset buf m fresh hit kind signed helloo shel =
    let c = on_kernel dentry garbage unset in
    let law = λ (s : Machine) (f : IsFresh s.processes). kernel-Rejects dentry garbage unset s f in
    let m1 = printed (bytes "err_neg_fd: PASS\n") m in
    let m2 = printed (bytes "err_big_fd: PASS\n") m1 in
    let (q, done, lots) = err_open_lots-passes dentry garbage unset m2 d hit kind signed fresh in
    let m3 = printed (bytes "err_open_lots: PASS\n") (with_processes m2 q) in
    let missing = open_missing dentry garbage unset m3 in
    let m4 = printed (bytes "err_open: PASS\n") m3 in
    let m5 = printed (bytes "err_unopened: PASS\n") m4 in
    let m6 = printed (bytes "err_vidmap: PASS\n") m5 in
    let m7 = printed (bytes "err_stdin_out: PASS\n") m6 in
    let m8 = printed (bytes "err_syscall_num: PASS\n") m7 in
    let says =
      ece391_fdputs-prints dentry garbage unset (bytes "\nOverall Tests: PASS\n") m8 done.output in
    (
      q,
      done,
      rw
          (
            err_neg_fd-passes c printed m (law m fresh) buf,
            ◌>>=◌,
            err_big_fd-passes c printed m1 (law m1 fresh) buf,
            ◌>>=◌,
            lots,
            ◌>>=◌,
            err_open-passes c printed m3 (law m3 done) (missing (bytes "helloo") helloo)
                (missing (bytes "shel") shel) (missing [] (no_empty_name m.image)),
            ◌>>=◌,
            err_unopened-passes c printed m4 (law m4 done) buf,
            ◌>>=◌,
            err_vidmap-passes c printed m5 (law m5 done),
            ◌>>=◌,
            err_stdin_out-passes c printed m6 (law m6 done) buf,
            ◌>>=◌,
            err_syscall_num-passes c printed m7 (law m7 done),
            ◌>>=◌,
            says,
            ◌>>=◌,
          )
          refl,
    )
