-- ===== src/User/Grep.antt =====
-- The search for a text in all files, syscalls/ece391grep.c. A loop takes its number of rounds as
-- fuel; the buffer `memory` of a file has 1025 bytes, of which the first `last` are read, and `memory`
-- is also what the stack holds when a file is begun.
pub mod Search
use ece391linux_os.Prelude.{
  get_or, set, take, drop, ltb, ◌==◌, if◌then◌else◌, ℕ, zero, suc, ◌+◌, ◌-◌, true, false, not, ◌&&◌,
  List, ◌++◌,
}
use ece391linux_os.Prelude.Int.{ℤ, pos, pos_part, eqb_ℤ, minus_one}
use ece391linux_os.Memory.Fill.{filled}
use ece391linux_os.Process.{file}
use ece391linux_os.Syscalls.{read, close}
use ece391linux_os.Text.{first, int8}
use ece391linux_os.User.{Run, ◌>>=◌, ◌>>◌, pure, no_return, Calls, bytes, ece391_fdputs}
use ece391linux_os.User.Support.{ece391_strlen, ece391_strcpy, ece391_strncmp}

module _ {W : Type 0} (c : Calls W) where
  -- What is printed of a line that contains the text, up to the NUL at its end.
  unfoldable pub show_line : List ℕ → List ℕ → Run W (Unit {0})
  show_line fname line = do
    ece391_fdputs c (pos 1) fname
    ece391_fdputs c (pos 1) (bytes ":")
    ece391_fdputs c (pos 1) line
    ece391_fdputs c (pos 1) (bytes "\n")

  -- The loop over the places `check` of a line, `n` of them. The first byte of the text is a `char`,
  -- which has a sign, the bytes of the buffer have none.
  unfoldable pub search_line : ℕ → ℕ → ℕ → List ℕ → List ℕ → List ℕ → Run W (Unit {0})
  search_line zero check line_start s fname memory = pure tt
  search_line (suc n) check line_start s fname memory =
      if eqb_ℤ (int8 (first s)) (pos (get_or memory check 0))
        && eqb_ℤ (pos 0) (ece391_strncmp (drop check memory) s (ece391_strlen s))
      then show_line fname (drop line_start memory)
      else search_line n (check + 1) line_start s fname memory

-- The end of the line from `line_end` on: the next newline, or `last`.
unfoldable pub find_end : ℕ → ℕ → ℕ → List ℕ → ℕ
find_end zero line_end last memory = line_end
find_end (suc n) line_end last memory =
    let rest = find_end n (line_end + 1) last memory in
    if ltb line_end last && not (get_or memory line_end 0 == b'\n') then rest else line_end

-- What the loop over the lines leaves: the buffer and the bytes kept in it.
pub record Kept : Type 0 where
  pub memory : List ℕ
  pub last : ℕ

module _ {W : Type 0} (c : Calls W) (s fname : List ℕ) (cnt : ℕ) where
  unfoldable pub lines_loop : ℕ → ℕ → ℕ → List ℕ → Run W Kept
  lines_loop zero line_start last memory = no_return
  lines_loop (suc n) line_start last memory =
      let line_end = find_end 1025 line_start last memory in
      let ended = set memory line_end 0 in
      if not (get_or memory line_end 0 == b'\n') && not (cnt == 0) && not (line_start == 0)
      then pure
          (record { memory = ece391_strcpy 1025 0 line_start ended; last = last - line_start })
      else (do
        search_line c (line_end - line_start) line_start line_start s fname ended
        elim (ltb (line_end + 1) last) [
          | false ↦ pure (record { memory = ended; last = 0 })
          | true ↦ lines_loop n (line_end + 1) last ended
        ])

module _ {W : Type 0} (c : Calls W) where
  -- The loop over the reads of an open file; the lines of one read are at most 1025.
  unfoldable pub reads_loop : ℕ → ℤ → List ℕ → List ℕ → ℕ → List ℕ → Run W ℤ
  reads_loop zero fd s fname last memory = no_return
  reads_loop (suc n) fd s fname last memory = do
    r ← c.read fd (drop last memory) (pos (1024 - last))
    if eqb_ℤ minus_one r.ret
        then (do ece391_fdputs c (pos 1) (bytes "file read failed\n"); pure minus_one)
        else (do
          let filled = take last memory ++ r.buf
          k ← lines_loop c s fname (pos_part r.ret) 1025 0 (last + pos_part r.ret) filled
          elim (eqb_ℤ r.ret (pos 0)) [
            | false ↦ reads_loop n fd s fname k.last k.memory
            | true ↦ do
              closed ← c.close fd
              if eqb_ℤ minus_one closed
                  then (do ece391_fdputs c (pos 1) (bytes "file close failed\n"); pure minus_one)
                  else pure (pos 0)
          ])

  unfoldable pub do_one_file : ℕ → List ℕ → List ℕ → List ℕ → Run W ℤ
  do_one_file n s fname memory = do
    fd ← c.open_file fname
    if eqb_ℤ minus_one fd
        then (do ece391_fdputs c (pos 1) (bytes "file open failed\n"); pure minus_one)
        else reads_loop n fd s fname 0 memory

  -- The loop over the directory's entries; `n` bounds the reads of a file too.
  unfoldable pub entries_loop : ℕ → ℕ → ℤ → List ℕ → List ℕ → List ℕ → Run W ℤ
  entries_loop zero n fd search buf memory = no_return
  entries_loop (suc k) n fd search buf memory = do
    r ← c.read fd buf (pos 32)
    elim (eqb_ℤ r.ret (pos 0)) [
      | true ↦ pure (pos 0)
      | false ↦ elim (eqb_ℤ r.ret minus_one) [
        | true ↦ do ece391_fdputs c (pos 1) (bytes "directory entry read failed\n"); pure (pos 3)
        | false ↦ elim (get_or r.buf 0 0 == b'.') [
          | true ↦ entries_loop k n fd search r.buf memory
          | false ↦ do
            let name = set r.buf (pos_part r.ret) 0
            ret ← do_one_file n search name memory
            elim (eqb_ℤ (pos 0) ret) [
              | false ↦ pure (pos 3)
              | true ↦ entries_loop k n fd search name memory
            ]
        ]
      ]
    ]

  unfoldable pub grep : ℕ → List ℕ → List ℕ → List ℕ → Run W ℤ
  grep n search buf memory = do
    args ← c.getargs search (pos 1024)
    if not (eqb_ℤ args.ret (pos 0))
        then (do ece391_fdputs c (pos 1) (bytes "could not read argument\n"); pure (pos 3))
        else (do
          fd ← c.open_file (bytes ".")
          if eqb_ℤ fd minus_one
              then (do ece391_fdputs c (pos 1) (bytes "directory open failed\n"); pure (pos 2))
              else entries_loop n n fd args.buf buf memory)
