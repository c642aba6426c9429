-- ===== src/User/Kernel/Cat/Rounds.antt =====
-- The rounds of the loop of `cat` (syscalls/ece391cat.c) on the kernel.
use ece391linux_os.Syscalls
use ece391linux_os.Prelude.{
  length, get_or, set, get_or-set_ne, ltb, ltb→lt, Bool-cases, ℕ, zero, suc, ◌+◌, ◌-◌, ◌*◌, ◌/◌,
  ◌^◌, ◌≤◌, ◌<◌, ◌≡◌, refl, sym, ◌∙◌, inl, inr, false, some, List, arith,
}
use ece391linux_os.Prelude.Int.{ℤ, pos, eqb_ℤ}
use ece391linux_os.Console.{Screen, terminal_write}
use ece391linux_os.Execute.{le32_at}
use ece391linux_os.Filesystem.{DirEntry, no_node, fd_block, modify_fd, advance}
use ece391linux_os.Filesystem.Fill.{file_byte, fill, length-fill, get_or-fill_in}
use ece391linux_os.Filesystem.Reading.{file_read}
use ece391linux_os.Process.{Processes, stdout_block}
use ece391linux_os.Syscalls.{Machine, returned, not_usable}
use ece391linux_os.User.{Calls}
use ece391linux_os.User.Files.{cat_loop}
use ece391linux_os.User.Files.Loops.{cat_loop-round, cat_loop-stop}
use ece391linux_os.User.Kernel.Cat.{
  file_bytes, get_or-file_bytes, terminal_write-same, terminal_write-ret, show_chunks, Reads,
  Reads-advance, shown_file,
}
use ece391linux_os.User.Kernel.Cat.Chunks.{outcome, read_chunk, read_end, read_short}
use ece391linux_os.User.Kernel.Output.{on_kernel}

module _ (dentry : DirEntry) (garbage : ℕ) (unset : ℤ) (m : Machine) (inode fd size : ℕ)
    (above : 2 ≤ fd) (below : fd < 8) (known : inode ≤ m.image.boot.inodes)
    (sized : (get_or m.image.node_list inode no_node).b_length ≡ size) (not_empty : 0 < size)
    (small : size + 1024 < 2 ^ 32) where
  abbrev pub calls : Calls Machine
  calls = on_kernel dentry garbage unset

  abbrev pub with_screen : Processes → Screen → Machine
  with_screen p s = record m { processes = p; screen = s }

  -- A read of the descriptor is one of the file.
  read_file :
      (at : ℕ) (buf : List ℕ) (p : Processes) (s : Screen)
      → Reads inode fd at p
      → Syscalls.read (pos fd) (some buf) (pos 1024) dentry (with_screen p s)
        ≡ returned (file_read m.image fd buf (pos 1024) p)
  unfolding Syscalls.read
  read_file at buf p s r =
      let usable : not_usable (pos fd) p ≡ false = rw r.here (ground arith) in
      rw (usable, Syscalls.read) (rw r.here refl)

  -- What one round of `cat` prints.
  write_output :
      (n : ℕ) (buf : List ℕ) (p : Processes) (s : Screen)
      → fd_block p 1 ≡ stdout_block
      → Syscalls.write (pos 1) (some buf) (pos n) (pos (le32_at 0 buf)) (with_screen p s)
        ≡ (with_screen p (terminal_write buf (pos n) s).0, (terminal_write buf (pos n) s).1)
  unfolding Syscalls.write
  write_output n buf p s h = rw h refl

  -- A round on a read of `k` bytes of the file prints these.
  cat_loop-shows :
      (n k at : ℕ) (buf out : List ℕ) (p q : Processes) (s : Screen)
      → Reads inode fd at p
      → file_read m.image fd buf (pos 1024) p ≡ outcome q out (pos k)
      → 0 < k
      → fd_block q 1 ≡ stdout_block
      → ((j : ℕ) → j < k → get_or out j 0 ≡ file_byte m.image inode (at + j))
      → cat_loop calls (suc n) (pos fd) buf (with_screen p s)
        ≡ cat_loop calls n
            (pos fd)
            out
            (with_screen q (terminal_write (file_bytes m.image inode at k) (pos k) s).0)
  cat_loop-shows n k at buf out p q s r e some_bytes shown_on bytes_of =
      let text = file_bytes m.image inode at k in
      let same =
        terminal_write-same k out text s
          (λ j l. bytes_of j l ∙ sym (get_or-file_bytes m.image inode at k j l)) in
      let reads : calls.read (pos fd) buf (pos 1024) (with_screen p s)
          ≡ some (with_screen q s, record { buf = out; ret = pos k }) =
        rw (read_file at buf p s r, e) refl in
      let writes : calls.write (pos 1) out (pos k) (with_screen q s)
          ≡ some (with_screen q (terminal_write text (pos k) s).0, pos k) =
        rw (write_output k out q s shown_on, same)
          (rw (terminal_write-ret k text s some_bytes) refl) in
      let positive : eqb_ℤ (pos k) (pos 0) ≡ false = ground arith in
      cat_loop-round calls n (pos fd) buf _ _ _ _ _ reads positive refl writes refl

  cat_loop-ends :
      (n at : ℕ) (buf : List ℕ) (p : Processes) (s : Screen)
      → Reads inode fd at p
      → 0 < at
      → at ≤ size
      → size < at + 1024
      → cat_loop calls (suc n) (pos fd) buf (with_screen p s) ≡ some (with_screen p s, pos 0)
  cat_loop-ends n at buf p s r z h over =
      let (out, e) =
        read_end m.image inode fd size known sized not_empty small at buf p r z h over in
      let step : calls.read (pos fd) buf (pos 1024) (with_screen p s)
          ≡ some (with_screen p s, record { buf = out; ret = pos 0 }) =
        rw (read_file at buf p s r, e) refl in
      cat_loop-stop calls n (pos fd) buf _ _ _ step refl

  -- Whole chunks, from any position past the start.
  cat_loop-chunks :
      (k n at : ℕ) (buf : List ℕ) (p : Processes) (s : Screen)
      → Reads inode fd at p
      → length buf ≡ 1024
      → 0 < at + k
      → at + 1024 * k ≤ size
      → size < at + 1024 * k + 1024
      → (q : Processes) × (cat_loop calls (k + suc n) (pos fd) buf (with_screen p s)
          ≡ some (with_screen q (show_chunks m.image inode at k s), pos 0))
  cat_loop-chunks zero n at buf p s r full z h over =
      (p, rw zero_add (cat_loop-ends n at buf p s r (omega arith) (omega arith) (omega arith)))
    where
      zero_add : 0 + suc n ≡ suc n
      zero_add = omega arith
  cat_loop-chunks (suc k) n at buf p s r full z h over =
      let q = modify_fd p fd (advance 1024) in
      let next = Reads-advance inode fd at 1024 p above below (omega arith) r in
      let t = (terminal_write (file_bytes m.image inode at 1024) (pos 1024) s).0 in
      let out = fill m.image inode at 1024 0 buf in
      let (last, rest) =
        cat_loop-chunks k n (at + 1024) out q t next
          (length-fill m.image inode at 1024 0 buf ∙ full) (omega arith) (omega arith)
          (omega arith) in
      let rounds : suc k + suc n ≡ suc (k + suc n) = omega arith in
      (
        last,
        rw rounds (
            cat_loop-shows (k + suc n) 1024 at buf out p q s r
              (read_chunk m.image inode fd size known sized not_empty small at buf p r
                (omega arith))
              (omega arith) next.output
              (λ j l.
                get_or-fill_in m.image inode at 1024 0 j buf (omega arith) (omega arith)
                  (omega arith))
            ∙ rest),
      )

  -- A file shorter than a chunk is one read, which returns its size.
  cat_loop-short :
      (n : ℕ) (buf : List ℕ) (p : Processes) (s : Screen)
      → Reads inode fd 0 p
      → length buf ≡ 1024
      → size < 1024
      → (q : Processes) × (cat_loop calls (suc (suc n)) (pos fd) buf (with_screen p s)
          ≡ some (
            with_screen q (terminal_write (file_bytes m.image inode 0 size) (pos size) s).0,
            pos 0,
          ))
  cat_loop-short n buf p s r full short =
      let q = modify_fd p fd (advance size) in
      let next = Reads-advance inode fd 0 size p above below (omega arith) r in
      let filled = fill m.image inode 0 size 0 buf in
      let out = set filled size (file_byte m.image inode size) in
      let t = (terminal_write (file_bytes m.image inode 0 size) (pos size) s).0 in
      (
        q,
        cat_loop-shows (suc n) size 0 buf out p q s r
              (read_short m.image inode fd size known sized not_empty small buf p r short) not_empty
              next.output
              (λ j l.
                get_or-set_ne filled size j (file_byte m.image inode size) 0 (omega arith)
                ∙ get_or-fill_in m.image inode 0 size 0 j buf (omega arith) (omega arith)
                    (omega arith))
            ∙ cat_loop-ends n (0 + size) out q t next (omega arith) (omega arith) (omega arith),
      )

  pub cat_loop-shown_file :
      (rounds : ℕ) (buf : List ℕ) (p : Processes) (s : Screen)
      → Reads inode fd 0 p
      → length buf ≡ 1024
      → size / 1024 + 2 ≤ rounds
      → (q : Processes) × (cat_loop calls rounds (pos fd) buf (with_screen p s)
          ≡ some (with_screen q (shown_file m.image inode size s), pos 0))
  cat_loop-shown_file rounds buf p s r full enough = elim (Bool-cases (ltb size 1024)) [
    | inl short ↦
        let n : rounds ≡ suc (suc (rounds - 2)) = omega arith in
        rw (short, n) (cat_loop-short (rounds - 2) buf p s r full (ltb→lt _ _ short))
    | inr long ↦
        let k = size / 1024 in
        let n : rounds ≡ k + suc (rounds - k - 1) = omega arith in
        let large : 1024 ≤ size = ground arith in
        rw (long, n)
          (cat_loop-chunks k (rounds - k - 1) 0 buf p s r full (omega arith) (omega arith)
            (omega arith))
  ]
