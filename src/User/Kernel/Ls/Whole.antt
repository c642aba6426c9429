-- ===== src/User/Kernel/Ls/Whole.antt =====
-- `ls` of syscalls/ece391ls.c as a whole, on the kernel.
use ece391linux_os.Prelude.{length, ℕ, ◌^◌, ◌≤◌, ◌<◌, ◌≡◌, refl, ap, ◌∙◌, some, List, arith}
use ece391linux_os.Prelude.Int.{ℤ, pos}
use ece391linux_os.Filesystem.{DirEntry, read_dentry_by_name}
use ece391linux_os.Filesystem.Open.{directory_block}
use ece391linux_os.Process.{Processes}
use ece391linux_os.Syscalls.{Machine}
use ece391linux_os.User.{bytes}
use ece391linux_os.User.Files.{ls}
use ece391linux_os.User.Files.Loops.{ls-opens}
use ece391linux_os.User.Kernel.Ls.{listed, show_lines, Lists}
use ece391linux_os.User.Kernel.Ls.Rounds.{ls_loop-shows}
use ece391linux_os.User.Kernel.Opening.{directory_block-flags, open_next}
use ece391linux_os.User.Kernel.Output.{IsFresh, on_kernel}
use ece391linux_os.User.Kernel.Passes.{Between-IsFresh, with_processes, open_directory}

-- On the kernel, with an image of at least 63 and fewer than 2 ^ 32 inodes and an entry "." of the directory's kind, whose boot block counts fewer than 2 ^ 31 directory entries, in a process that has opened nothing: `ls` with a buffer of 33 bytes returns 0 within 64 rounds, whatever the entries are. It prints, in order and each on a line of its own, the names of the used entries among the first 63, cut off at 32 bytes, but no more of them than the boot block counts.
pub ls-shows :
    (dentry d : DirEntry) (garbage : ℕ) (unset : ℤ) (rounds : ℕ) (buf : List ℕ) (m : Machine)
    → IsFresh m.processes
    → read_dentry_by_name m.image (bytes ".") ≡ some d
    → d.file_type ≡ 1
    → m.image.boot.num_dir_entries < 2 ^ 31
    → 63 ≤ m.image.boot.inodes
    → m.image.boot.inodes < 2 ^ 32
    → length buf ≡ 33
    → 64 ≤ rounds
    → let names = listed m.image 63 0 m.image.boot.num_dir_entries in
      (q : Processes) × (ls (on_kernel dentry garbage unset) rounds buf m
        ≡ some (record m { processes = q; screen = show_lines names m.screen }, pos 0))
ls-shows dentry d garbage unset rounds buf m f hit kind signed low high full enough =
    let calls = on_kernel dentry garbage unset in
    let (p, step, s) =
      open_next m.image d hit signed 2 m.processes (omega arith) (omega arith)
        (Between-IsFresh m.image m.processes f) in
    let opens : calls.open_file (bytes ".") m ≡ some (with_processes m p, pos 2) =
      ap some
        (open_directory dentry garbage unset m d hit kind signed m.processes p (pos 2) step) in
    let start = ls-opens calls rounds buf m (with_processes m p) (pos 2) opens refl in
    let r : Lists 2 0 m.image.boot.num_dir_entries p = record {
      well_formed = s.well_formed;
      output = s.output;
      here = s.used 2 (omega arith) (omega arith) ∙ λ i. record (directory_block m.image) {
        flags = directory_block-flags m.image signed i;
      };
    } in
    let (q, ends) =
      ls_loop-shows dentry garbage unset m 2 (omega arith) (omega arith) low high rounds 63 0
        m.image.boot.num_dir_entries buf p m.screen r (omega arith) (omega arith) full in
    (q, start ∙ ends)
