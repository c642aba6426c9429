-- ===== src/User/Kernel/Cat/Whole.antt =====
-- `cat` of syscalls/ece391cat.c as a whole, from its arguments on, on the kernel.
use ece391linux_os.Syscalls
use ece391linux_os.Prelude.{
  length, get_or, ◌==◌, ℕ, ◌+◌, ◌/◌, ◌^◌, ◌≤◌, ◌<◌, ◌≡◌, refl, ap, ◌∙◌, inl, inr, true, false, ◌||◌,
  some, List, arith,
}
use ece391linux_os.Prelude.Int.{ℤ, pos, ltb_ℤ}
use ece391linux_os.Filesystem.{DirEntry, no_node, read_dentry_by_name, fd_block, file_open}
use ece391linux_os.Filesystem.Open.{file_open_lem}
use ece391linux_os.Filesystem.Slots.{is_unused}
use ece391linux_os.Process.{FdBlock, Processes, no_fd, block, clear_args}
use ece391linux_os.Process.Create.{clear_args-keeps}
use ece391linux_os.Process.Invariant.{clear_args-WellFormed}
use ece391linux_os.Syscalls.{Machine}
use ece391linux_os.Syscalls.Arguments.{strncpy-strlen}
use ece391linux_os.Text.{strlen, strcpy}
use ece391linux_os.User.Files.{cat}
use ece391linux_os.User.Files.Loops.{cat-opens}
use ece391linux_os.User.Kernel.Cat.{Reads, shown_file}
use ece391linux_os.User.Kernel.Cat.Names.{read_dentry_by_name-strcpy, length-strcpy}
use ece391linux_os.User.Kernel.Cat.Rounds.{cat_loop-shown_file}
use ece391linux_os.User.Kernel.Output.{IsFresh, on_kernel}

-- Clearing the arguments leaves the descriptors alone.
clear_args-IsFresh : (p : Processes) → IsFresh p → IsFresh (clear_args p)
unfolding clear_args
clear_args-IsFresh p f = record {
  well_formed = clear_args-WellFormed p f.well_formed;
  input = kept 0 ∙ f.input;
  output = kept 1 ∙ f.output;
  unused = λ k l h. ap (λ (b : FdBlock). b.flags) (kept k) ∙ f.unused k l h;
  without_ops =
      λ k l h. ap (λ (b : FdBlock). b.file_operations_pointer) (kept k) ∙ f.without_ops k l h;
}
  where
    same : (block (clear_args p) p.current_pid).fd_table ≡ (block p p.current_pid).fd_table
    same =
        (clear_args-keeps p p.current_pid
          (omega (arith, f.well_formed.blocks, f.well_formed.current))).0

    kept : (k : ℕ) → fd_block (clear_args p) k ≡ fd_block p k
    kept k = ap (λ t. get_or t k no_fd) same

abbrev pub args_of : Machine → List ℕ
args_of m = (block m.processes m.processes.current_pid).args

module _ (dentry d : DirEntry) (garbage : ℕ) (unset : ℤ) (buf : List ℕ) (m : Machine)
    (fresh_fds : IsFresh m.processes) (full : length buf ≡ 1024) where
  takes_args :
      0 < strlen (args_of m)
      → strlen (args_of m) < 1024
      → Syscalls.getargs (some buf) (pos 1024) m.processes
        ≡ (clear_args m.processes, some (strcpy buf (args_of m)), pos 0)
  unfolding Syscalls.getargs
  takes_args z h =
      let fits : (ltb_ℤ (pos 1024) (pos (strlen (args_of m))) || (strlen (args_of m) == 0))
          ≡ false =
        ground arith in
      rw (fits, strncpy-strlen buf (args_of m) (omega arith)) refl

  open_regular :
      (name : List ℕ) (p : Processes)
      → IsFresh p
      → read_dentry_by_name m.image name ≡ some d
      → d.file_type ≡ 2
      → (k : ℕ) × (q : Processes) × (2 ≤ k)
        × (k < 8)
        × (Syscalls.open_file garbage unset (some name) (record m { processes = p })
            ≡ (record m { processes = q }, pos k))
        × Reads d.inode_num k 0 q
  unfolding Syscalls.open_file
  open_regular name p f hit kind = elim (file_open_lem m.image name d p f.well_formed hit) [
    | inl (k, ret, low, placed) ↦
        let q = (file_open m.image name p).0 in
        (
          k,
          q,
          low.lower,
          low.upper,
          rw (hit, Syscalls.open_file)
              (rw kind (ap (λ (r : ℤ). (record m { processes = q }, r)) ret)),
          record {
            well_formed = placed.well_formed;
            output = placed.others 1 (λ e. omega (arith, low.lower)) ∙ f.output;
            here = placed.here;
          },
        )
    | inr (all, ret, placed) ↦
        let two : is_unused (fd_block p 2) ≡ true =
          rw (f.unused 2 (omega arith) (omega arith)) refl in
        absurd (cc (two, all 2 (omega arith) (omega arith)))
  ]

-- On the kernel, in a process that has opened nothing, whose arguments of 1 to 1023 bytes name a regular file with an inode in range, not empty and at least 1024 bytes shorter than 2 ^ 32: `cat` with a buffer of 1024 bytes returns 0 within a fixed number of rounds. It prints all of a file shorter than 1024 bytes, and of any other only the whole chunks of 1024 bytes: the rest of the file is not shown.
pub cat-shows :
    (dentry d : DirEntry) (garbage : ℕ) (unset : ℤ) (rounds size : ℕ) (buf : List ℕ) (m : Machine)
    → IsFresh m.processes
    → length buf ≡ 1024
    → 0 < strlen (args_of m)
    → strlen (args_of m) < 1024
    → read_dentry_by_name m.image (args_of m) ≡ some d
    → d.file_type ≡ 2
    → d.inode_num ≤ m.image.boot.inodes
    → (get_or m.image.node_list d.inode_num no_node).b_length ≡ size
    → 0 < size
    → size + 1024 < 2 ^ 32
    → size / 1024 + 2 ≤ rounds
    → (q : Processes) × (cat (on_kernel dentry garbage unset) rounds buf m
        ≡ some (
          record m { processes = q; screen = shown_file m.image d.inode_num size m.screen },
          pos 0,
        ))
cat-shows dentry d garbage unset rounds size buf m f full z h hit kind known sized some_bytes small
      enough =
    let calls = on_kernel dentry garbage unset in
    let p = m.processes in
    let name = strcpy buf (args_of m) in
    let same = read_dentry_by_name-strcpy m.image buf (args_of m) (omega arith) in
    let (fd, q, above, below, opens, r) =
      open_regular dentry d garbage unset buf m f full name (clear_args p) (clear_args-IsFresh p f)
        (same ∙ hit) kind in
    let gives : calls.getargs buf (pos 1024) m
        ≡ some (record m { processes = clear_args p }, record { buf = name; ret = pos 0 }) =
      rw (takes_args dentry d garbage unset buf m f full z h) refl in
    let opened_as : calls.open_file name (record m { processes = clear_args p })
        ≡ some (record m { processes = q }, pos fd) =
      rw opens refl in
    let start = cat-opens calls rounds buf m _ _ _ _ gives refl opened_as refl in
    let room : length name ≡ 1024 = length-strcpy buf (args_of m) ∙ full in
    let (last, ends) =
      cat_loop-shown_file dentry garbage unset m d.inode_num fd size above below known sized
        some_bytes small rounds name q m.screen r room enough in
    (last, start ∙ ends)
