-- ===== src/Syscalls/Descriptors.antt =====
-- Descriptors through the system calls `open` and `close` (student-distrib/syscalls.c).
use ece391linux_os.Prelude.{
  ℕ, ◌≤◌, ◌<◌, ◌≡◌, refl, sym, ap, subst, ◌∙◌, ◌≢◌, inl, inr, false, some, List, arith,
}
use ece391linux_os.Prelude.Int.{ℤ, pos, pos_part}
use ece391linux_os.Filesystem.{
  DirEntry, Image, read_dentry_by_name, fd_block, file_open, bad_fd, file_close,
}
use ece391linux_os.Filesystem.Open.{file_block, file_open_lem, close-open}
use ece391linux_os.Process.{Processes}
use ece391linux_os.Process.Create.{IsClosed}
use ece391linux_os.Process.Invariant.{WellFormed}
use ece391linux_os.Syscalls.{Machine, open_file, close}

-- The descriptor that a file was opened on is a usable one with the file's operations.
opened :
    (img : Image) (fname : List ℕ) (d : DirEntry) (p : Processes) (k : ℕ)
    → WellFormed p
    → read_dentry_by_name img fname ≡ some d
    → (file_open img fname p).1 ≡ pos k
    → 2 ≤ k
    → (k < 8) × (fd_block (file_open img fname p).0 k ≡ file_block d)
opened img fname d p k w hit e lo = elim (file_open_lem img fname d p w hit) [
  | inl (j, ret, lowest, placed) ↦
      let same : j ≡ k = ap pos_part (sym ret ∙ e) in
      (
        omega (arith, lowest.upper, same),
        subst (λ m. fd_block (file_open img fname p).0 m ≡ file_block d) same placed.here,
      )
  | inr (full, ret, placed) ↦ let zero_k : 0 ≡ k = ap pos_part (sym ret ∙ e) in absurd (omega arith)
]

-- In a well-formed process table, a regular file that `open` puts on a descriptor from 2 to 7 is
-- closed by `close` on that number: it returns 0, the descriptor is unused again, each other one of
-- the process is as before the `open`, and screen and clock have not changed.
pub close-open_file :
    (garbage : ℕ) (unset : ℤ) (fname : List ℕ) (d : DirEntry) (m : Machine) (k : ℕ)
    → WellFormed m.processes
    → read_dentry_by_name m.image fname ≡ some d
    → d.file_type ≡ 2
    → (open_file garbage unset (some fname) m).1 ≡ pos k
    → 2 ≤ k
    → let (after, ret) = close (pos k) (open_file garbage unset (some fname) m).0 in
      (ret ≡ pos 0)
      × IsClosed (fd_block after.processes k)
      × ((j : ℕ) → j ≢ k → fd_block after.processes j ≡ fd_block m.processes j)
      × (after.screen ≡ m.screen)
      × (after.clock ≡ m.clock)
unfolding open_file close
close-open_file garbage unset fname d m k w hit kind e lo =
    let p = m.processes in
    let q = (file_open m.image fname p).0 in
    let result : open_file garbage unset (some fname) m
        ≡ (record m { processes = q }, (file_open m.image fname p).1) =
      rw (hit, open_file) (rw kind refl) in
    let ret : (file_open m.image fname p).1 ≡ pos k = ap (λ r. r.1) (sym result) ∙ e in
    let (hi, here) = opened m.image fname d p k w hit ret lo in
    let (closed, unused, others) = close-open m.image fname d p k w hit ret lo in
    let good : bad_fd (pos k) ≡ false = ground arith in
    let by_file : close (pos k) (record m { processes = q })
        ≡ (record m { processes = (file_close (pos k) q).0 }, (file_close (pos k) q).1) =
      rw (good, close) (rw here refl) in
    subst
      (λ (r : Machine × ℤ).
        let (after, ret) = close (pos k) r.0 in
        (ret ≡ pos 0)
        × IsClosed (fd_block after.processes k)
        × ((j : ℕ) → j ≢ k → fd_block after.processes j ≡ fd_block m.processes j)
        × (after.screen ≡ m.screen)
        × (after.clock ≡ m.clock))
      (sym result)
      (subst
        (λ (r : Machine × ℤ).
          (r.1 ≡ pos 0)
          × IsClosed (fd_block r.0.processes k)
          × ((j : ℕ) → j ≢ k → fd_block r.0.processes j ≡ fd_block m.processes j)
          × (r.0.screen ≡ m.screen)
          × (r.0.clock ≡ m.clock))
        (sym by_file) (closed, unused, others, refl, refl))
