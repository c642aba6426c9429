-- ===== src/User/Kernel/Output.antt =====
-- What a program prints on the kernel, and the calls that the kernel refuses.
use ece391linux_os.Syscalls
use ece391linux_os.Prelude.{Bool-cases, ℕ, ◌≤◌, ◌<◌, ◌≡◌, refl, inl, inr, true, some, List}
use ece391linux_os.Prelude.Int.{ℤ, pos, minus_one}
use ece391linux_os.Console.{terminal_write}
use ece391linux_os.Filesystem.{DirEntry, fd_block, bad_fd}
use ece391linux_os.Process.{null, Processes, stdin_block, stdout_block}
use ece391linux_os.Process.Invariant.{WellFormed}
use ece391linux_os.Syscalls.{Machine, not_usable}
use ece391linux_os.Text.{strlen}
use ece391linux_os.User.{Calls, ece391_fdputs}
use ece391linux_os.User.Kernel.{kernel}

abbrev pub printed : List ℕ → Machine → Machine
printed s m = record m { screen = (terminal_write s (pos (strlen s)) m.screen).0 }

-- The descriptors of a process that has opened nothing.
pub record IsFresh (p : Processes) : Type 0 where
  pub well_formed : WellFormed p
  pub input : fd_block p 0 ≡ stdin_block
  pub output : fd_block p 1 ≡ stdout_block
  pub unused : (k : ℕ) → 2 ≤ k → k < 8 → (fd_block p k).flags ≡ minus_one
  pub without_ops : (k : ℕ) → 2 ≤ k → k < 8 → (fd_block p k).file_operations_pointer ≡ null

module _ (dentry : DirEntry) (garbage : ℕ) (unset : ℤ) where
  abbrev pub on_kernel : Calls Machine
  on_kernel = kernel dentry garbage unset

  pub ece391_fdputs-prints :
      (s : List ℕ) (m : Machine)
      → fd_block m.processes 1 ≡ stdout_block
      → ece391_fdputs on_kernel (pos 1) s m ≡ some (printed s m, tt)
  unfolding ece391_fdputs Syscalls.write
  ece391_fdputs-prints s m h = rw h refl

  pub read-refused :
      (fd : ℤ) (buf : List ℕ) (n : ℤ) (m : Machine)
      → not_usable fd m.processes ≡ true
      → on_kernel.read fd buf n m ≡ some (m, record { buf = buf; ret = minus_one })
  unfolding Syscalls.read
  read-refused fd buf n m h = rw h refl

  pub write-refused :
      (fd : ℤ) (buf : List ℕ) (n : ℤ) (m : Machine)
      → not_usable fd m.processes ≡ true
      → on_kernel.write fd buf n m ≡ some (m, minus_one)
  unfolding Syscalls.write
  write-refused fd buf n m h = rw h refl

  pub close-refused :
      (fd : ℤ) (m : Machine) → bad_fd fd ≡ true → on_kernel.close fd m ≡ some (m, minus_one)
  unfolding Syscalls.close
  close-refused fd m h = rw h refl

  pub close-unused :
      (k : ℕ) (m : Machine)
      → (fd_block m.processes k).file_operations_pointer ≡ null
      → on_kernel.close (pos k) m ≡ some (m, minus_one)
  unfolding Syscalls.close
  close-unused k m h = elim (Bool-cases (bad_fd (pos k))) [
    | inl e ↦ rw e refl
    | inr e ↦ rw (e, h) refl
  ]

  pub write-stdin :
      (buf : List ℕ) (n : ℤ) (m : Machine)
      → fd_block m.processes 0 ≡ stdin_block
      → on_kernel.write (pos 0) buf n m ≡ some (m, minus_one)
  unfolding Syscalls.write
  write-stdin buf n m h = rw h refl

  pub read-stdout :
      (buf : List ℕ) (n : ℤ) (m : Machine)
      → fd_block m.processes 1 ≡ stdout_block
      → on_kernel.read (pos 1) buf n m ≡ some (m, record { buf = buf; ret = minus_one })
  unfolding Syscalls.read
  read-stdout buf n m h = rw h refl
