-- ===== src/User/Kernel/Ls/Rounds.antt =====
-- The rounds of the loop of `ls` (syscalls/ece391ls.c) on the kernel, and the whole program.
use ece391linux_os.Syscalls
use ece391linux_os.Prelude.{
  length, get_or, set, length-set, get_or-set_self, get_or-set_ne, ◌==◌, ℕ, zero, suc, ◌+◌, ◌-◌,
  ◌%◌, ◌^◌, ◌≤◌, ◌<◌, ◌≡◌, refl, sym, ap, subst, ◌∙◌, ◌≢◌, inl, inr, true, false, ◌||◌, some, List,
  [], ◌∷◌, ◌++◌, arith,
}
use native.Mathlib.Decide.{ℕ_discrete}
use ece391linux_os.Prelude.Int.{ℤ, pos, ◌+ℤ◌, eqb_ℤ, minus_one}
use ece391linux_os.Console.{Screen, terminal_write}
use ece391linux_os.Filesystem.{DirEntry, fd_block}
use ece391linux_os.Filesystem.CopyName.{copy_name-Copied}
use ece391linux_os.Filesystem.Directory.{directory_read-ends}
use ece391linux_os.Filesystem.DirectoryLoop.{given_for, directory_loop-gives}
use ece391linux_os.Filesystem.Listing.{
  entry_bytes, copy_name, consume, directory_loop, directory_read,
}
use ece391linux_os.Filesystem.Reading.{Outcome}
use ece391linux_os.Filesystem.Table.{
  fd_block-modify_fd_self, fd_block-modify_fd_ne, modify_fd-WellFormed,
}
use ece391linux_os.Process.{dir, FdBlock, Processes, stdout_block}
use ece391linux_os.Syscalls.{Machine, not_usable}
use ece391linux_os.Text.{first}
use ece391linux_os.User.{Calls}
use ece391linux_os.User.Files.{ls_loop}
use ece391linux_os.User.Files.Loops.{ls_loop-round, ls_loop-stop}
use ece391linux_os.User.Kernel.Cat.{terminal_write-same, terminal_write-ret}
use ece391linux_os.User.Kernel.Ls.{
  entry_at, name_at, listed, show_lines, Lists, get_or-line, get_or-line_end, name_at-bounds,
  length-copy_name, Next, Next-entry,
}
use ece391linux_os.User.Kernel.Output.{on_kernel}

module _ (dentry : DirEntry) (garbage : ℕ) (unset : ℤ) (m : Machine) (fd : ℕ) (above : 2 ≤ fd)
    (below : fd < 8) (low : 63 ≤ m.image.boot.inodes) (high : m.image.boot.inodes < 2 ^ 32) where
  abbrev pub calls : Calls Machine
  calls = on_kernel dentry garbage unset

  abbrev pub showing : Processes → Screen → Machine
  showing p s = record m { processes = p; screen = s }

  -- A read of the descriptor lists the directory.
  read_names :
      (k left : ℕ) (buf : List ℕ) (p : Processes) (s : Screen) (out : Outcome)
      → Lists fd k left p
      → directory_read m.image fd buf (pos 32) dentry p ≡ some out
      → calls.read (pos fd) buf (pos 32) (showing p s)
        ≡ some (showing out.state s, record { buf = out.buf; ret = out.ret })
  unfolding Syscalls.read
  read_names k left buf p s out r e =
      let usable : not_usable (pos fd) p ≡ false = rw r.here (ground arith) in
      rw (usable, Syscalls.read) (rw r.here (rw e refl))

  -- With the count used up, the directory is at its end.
  loop_none_left :
      (fuel : ℕ) (buf : List ℕ) (p : Processes)
      → (fd_block p fd).flags ≡ pos 0
      → directory_loop m.image fd (pos 32) (suc fuel) dentry p buf
        ≡ some (record { state = p; buf = buf; ret = pos 0 })
  unfolding directory_loop
  loop_none_left fuel buf p e =
      let done : eqb_ℤ (fd_block p fd).flags (pos 0) || (fd_block p fd).file_position == 63 ≡ true =
        ground arith in
      rw done

  read_none_left :
      (k : ℕ) (buf : List ℕ) (p : Processes)
      → Lists fd k 0 p
      → directory_read m.image fd buf (pos 32) dentry p
        ≡ some (record { state = p; buf = buf; ret = pos 0 })
  unfolding directory_read
  read_none_left k buf p r = loop_none_left 63 buf p (ap (λ (b : FdBlock). b.flags) r.here)

  -- What a read of the next name leaves.
  record Given (j left : ℕ) (buf : List ℕ) (p : Processes) : Type 0 where
    out : Outcome
    runs : directory_read m.image fd buf (pos 32) dentry p ≡ some out
    size : out.ret ≡ pos (length (name_at m.image j))
    room : length out.buf ≡ length buf
    bytes_of :
        (i : ℕ)
        → i < length (name_at m.image j)
        → i < length buf
        → get_or out.buf i 0 ≡ get_or (entry_bytes (entry_at m.image j)) i 0
    next : Lists fd (j + 1) left out.state

  read_next :
      (k n j left : ℕ) (buf : List ℕ) (p : Processes)
      → Lists fd k (suc left) p
      → k ≤ j
      → j < 63
      → first (entry_at m.image j).filename ≢ 0
      → ((i : ℕ) → k ≤ i → i < j → first (entry_at m.image i).filename ≡ 0)
      → Given j left buf p
  unfolding directory_read
  read_next k n j left buf p r kj small used blank =
      let at : (fd_block p fd).file_position ≡ k = ap (λ (b : FdBlock). b.file_position) r.here in
      let flags : (fd_block p fd).flags ≡ pos (suc left) = ap (λ (b : FdBlock). b.flags) r.here in
      let (q, run, w, b, others) =
        directory_loop-gives m.image fd 32 below 64 (j - k) j left dentry p buf r.well_formed low
          high (omega (arith, at)) flags small (omega arith)
          (λ i l u. blank i (omega (arith, at)) u) used in
      let name = entry_bytes (entry_at m.image j) in
      let c = copy_name-Copied 32 0 name buf in
      let size : (copy_name 32 0 name buf).1 ≡ length (name_at m.image j) =
        omega (arith, c.count) in
      let moved : (j + 1) % 2 ^ 32 ≡ j + 1 = omega arith in
      let count : pos (suc left) +ℤ minus_one ≡ pos left = ground arith in
      record {
        out = given_for fd 32 q (entry_at m.image j) buf;
        runs = run;
        size = ap pos size;
        room = length-copy_name 32 0 name buf;
        bytes_of = λ i l u. c.bytes i (omega arith) (omega (arith, size)) u;
        next = record {
          well_formed = modify_fd-WellFormed q w fd consume;
          output =
              fd_block-modify_fd_ne q w fd 1 consume (λ e. omega arith)
              ∙ others 1 (λ e. omega arith)
              ∙ r.output;
          here =
              fd_block-modify_fd_self q w fd consume below
              ∙ ap consume (b ∙ ap (λ (x : FdBlock). record x { file_position = j }) r.here)
              ∙ λ i. record {
                file_operations_pointer = dir;
                inode = pos 0;
                file_position = moved i;
                flags = count i;
              };
        };
      }

  write_line :
      (n : ℕ) (buf : List ℕ) (p : Processes) (s : Screen)
      → fd_block p 1 ≡ stdout_block
      → calls.write (pos 1) buf (pos n) (showing p s)
        ≡ some (showing p (terminal_write buf (pos n) s).0, (terminal_write buf (pos n) s).1)
  unfolding Syscalls.write
  write_line n buf p s h = rw h refl

  -- A round on the next name prints its line.
  ls_loop-line :
      (n j left : ℕ) (buf : List ℕ) (p : Processes) (s : Screen)
      → (k : ℕ) → Lists fd k (suc left) p
      → first (entry_at m.image j).filename ≢ 0
      → length buf ≡ 33
      → (g : Given j left buf p)
      → let name = name_at m.image j in
        ls_loop calls (suc n) (pos fd) buf (showing p s)
        ≡ ls_loop calls n (pos fd) (set g.out.buf (length name) b'\n') (
            showing g.out.state (terminal_write (name ++ (b'\n' ∷ [])) (pos (length name + 1)) s).0)
  ls_loop-line n j left buf p s k r used full g =
      let name = name_at m.image j in
      let line = set g.out.buf (length name) b'\n' in
      let (some_bytes, fits) = name_at-bounds m.image j used in
      let reads : calls.read (pos fd) buf (pos 32) (showing p s)
          ≡ some (showing g.out.state s, record { buf = g.out.buf; ret = pos (length name) }) =
        read_names k (suc left) buf p s g.out r g.runs ∙ rw g.size refl in
      let same = terminal_write-same (length name + 1) line (name ++ (b'\n' ∷ [])) s (λ i l.
        elim (ℕ_discrete (length name) i) [
          | yes e ↦
              subst (λ x. get_or line x 0 ≡ get_or (name ++ (b'\n' ∷ [])) x 0) e
                (get_or-set_self g.out.buf (length name) b'\n' 0 (omega (arith, g.room, full))
                  ∙ sym (get_or-line_end name))
          | no ne ↦
              get_or-set_ne g.out.buf (length name) i b'\n' 0 ne
              ∙ g.bytes_of i (omega arith) (omega arith)
              ∙ sym (get_or-line 32 (entry_bytes (entry_at m.image j)) i (omega arith))
        ]) in
      let add : pos (length name) +ℤ pos 1 ≡ pos (length name + 1) = ground arith in
      let writes : calls.write (pos 1) line (pos (length name) +ℤ pos 1) (showing g.out.state s)
          ≡ some (
            showing g.out.state (terminal_write (name ++ (b'\n' ∷ [])) (pos (length name + 1)) s).0,
            pos (length name + 1),
          ) =
        ap (λ count. calls.write (pos 1) line count (showing g.out.state s)) add
        ∙ write_line (length name + 1) line g.out.state s g.next.output
        ∙ rw same (
            rw (terminal_write-ret (length name + 1) (name ++ (b'\n' ∷ [])) s (omega arith))
              refl) in
      let positive : eqb_ℤ (pos (length name)) (pos 0) ≡ false = ground arith in
      ls_loop-round calls n (pos fd) buf (showing p s) (showing g.out.state s)
        (showing g.out.state (terminal_write (name ++ (b'\n' ∷ [])) (pos (length name + 1)) s).0)
        (record { buf = g.out.buf; ret = pos (length name) }) (pos (length name + 1)) reads positive
        refl writes refl

  ls_loop-ends :
      (n k left : ℕ) (buf : List ℕ) (p q : Processes) (s : Screen)
      → Lists fd k left p
      → directory_read m.image fd buf (pos 32) dentry p
        ≡ some (record { state = q; buf = buf; ret = pos 0 })
      → ls_loop calls (suc n) (pos fd) buf (showing p s) ≡ some (showing q s, pos 0)
  ls_loop-ends n k left buf p q s r e =
      ls_loop-stop calls n (pos fd) buf _ _ _ (read_names k left buf p s _ r e) refl

  pub ls_loop-shows :
      (n rest k left : ℕ) (buf : List ℕ) (p : Processes) (s : Screen)
      → Lists fd k left p
      → k + rest ≡ 63
      → rest < n
      → length buf ≡ 33
      → (q : Processes) × (ls_loop calls n (pos fd) buf (showing p s)
          ≡ some (showing q (show_lines (listed m.image rest k left) s), pos 0))
  unfolding Next
  ls_loop-shows zero rest k left buf p s r e h full = absurd (omega arith)
  ls_loop-shows (suc n) rest k zero buf p s r e h full =
      (p, ls_loop-ends n k 0 buf p p s r (read_none_left k buf p r) ∙ rw (listed-none rest) refl)
    where
      listed-none : (rest : ℕ) → listed m.image rest k 0 ≡ []
      listed-none zero = refl
      listed-none (suc rest) = refl
  ls_loop-shows (suc n) rest k (suc left) buf p s r e h full = elim (Next-entry m.image rest k) [
    | inl (j, kj, up, used, blank, heads) ↦
        let g = read_next k n j left buf p r kj (omega arith) used blank in
        let size = length (name_at m.image j) in
        let (q, ends) =
          ls_loop-shows n (k + rest - (j + 1)) (j + 1) left (set g.out.buf size b'\n') g.out.state
            (terminal_write (name_at m.image j ++ (b'\n' ∷ [])) (pos (size + 1)) s).0 g.next
            (omega arith) (omega arith) (length-set g.out.buf size b'\n' ∙ g.room ∙ full) in
        (q, ls_loop-line n j left buf p s k r used full g ∙ rw (heads left) ends)
    | inr (blank, none_left) ↦
        let at : (fd_block p fd).file_position ≡ k = ap (λ (b : FdBlock). b.file_position) r.here in
        let (q, ends) =
          directory_read-ends m.image fd 32 buf dentry p below r.well_formed low high
            (omega (arith, at)) (λ i l u. blank i (omega (arith, at)) (omega arith)) in
        (q, ls_loop-ends n k (suc left) buf p q s r ends ∙ rw (none_left (suc left)) refl)
  ]
