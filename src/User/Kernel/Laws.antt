-- ===== src/User/Kernel/Laws.antt =====
-- The system calls of a process that has opened nothing keep the laws that the tests of
-- syscalls/ece391syserr.c ask for.
use ece391linux_os.Syscalls
use ece391linux_os.Prelude.{ℕ, ◌≤◌, ◌<◌, ◌≡◌, refl, true, arith}
use ece391linux_os.Prelude.Int.{ℤ, pos}
use ece391linux_os.Filesystem.{DirEntry, bad_fd}
use ece391linux_os.Syscalls.{Machine, not_usable}
use ece391linux_os.User.Errors.Contract.{is_outside, Rejects}
use ece391linux_os.User.Kernel.Output.{
  printed, IsFresh, on_kernel, ece391_fdputs-prints, read-refused, write-refused, close-refused,
  close-unused, write-stdin, read-stdout,
}

module _ (dentry : DirEntry) (garbage : ℕ) (unset : ℤ) (m : Machine)
    (fresh : IsFresh m.processes) where
  unusable : (k : ℕ) → 2 ≤ k → k < 8 → not_usable (pos k) m.processes ≡ true
  unusable k l h = ground (arith, fresh.unused k l h)

  outside_unusable : (fd : ℤ) → is_outside fd ≡ true → not_usable fd m.processes ≡ true
  outside_unusable fd h = ground (arith, h)

  outside_bad : (fd : ℤ) → is_outside fd ≡ true → bad_fd fd ≡ true
  outside_bad fd h = ground (arith, h)

  pub kernel-Rejects : Rejects (on_kernel dentry garbage unset) printed m
  unfolding Syscalls.vidmap
  kernel-Rejects = record {
    prints = λ s. ece391_fdputs-prints dentry garbage unset s m fresh.output;
    read_outside =
        λ fd buf n h. read-refused dentry garbage unset fd buf n m (outside_unusable fd h);
    write_outside =
        λ fd buf n h. write-refused dentry garbage unset fd buf n m (outside_unusable fd h);
    close_outside = λ fd h. close-refused dentry garbage unset fd m (outside_bad fd h);
    close_standard = λ k l. close-refused dentry garbage unset (pos k) m (ground arith);
    read_unused = λ k buf n l h. read-refused dentry garbage unset (pos k) buf n m (unusable k l h);
    write_unused =
        λ k buf n l h. write-refused dentry garbage unset (pos k) buf n m (unusable k l h);
    close_unused = λ k l h. close-unused dentry garbage unset k m (fresh.without_ops k l h);
    write_stdin = λ buf n. write-stdin dentry garbage unset buf n m fresh.input;
    read_stdout = λ buf n. read-stdout dentry garbage unset buf n m fresh.output;
    vidmap_null = refl;
    vidmap_kernel = refl;
    unknown_call = λ num h. rw h refl;
  }
