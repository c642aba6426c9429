-- ===== src/Filesystem/Open.antt =====
-- What `file_open`, `directory_open`, `file_close` and `directory_close` of
-- student-distrib/filesystem_driver.c do to the descriptor table.
use ece391linux_os.Prelude.{
  Bool-cases, ℕ, ◌≤◌, ◌<◌, ◌≡◌, refl, sym, ap, subst, ◌∙◌, ◌≢◌, ◌⊎◌, inl, inr, true, false, some,
  List, arith,
}
use ece391linux_os.Prelude.Int.{pos, minus_one, to_i32}
use ece391linux_os.Filesystem.{
  DirEntry, Image, read_dentry_by_name, fd_block, modify_fd, Slot, found, refused, exhausted,
  find_slot, file_open, directory_open, bad_fd, file_close,
}
use ece391linux_os.Filesystem.Slots.{
  is_unused, AllUsed, IsLowest, SearchResult, find_slot-SearchResult, find_slot-full,
}
use ece391linux_os.Filesystem.Table.{
  current_table, fd_block-modify_fd_self, fd_block-modify_fd_ne, modify_fd-WellFormed,
}
use ece391linux_os.Process.{file, dir, FdBlock, Processes, clear_fd}
use ece391linux_os.Process.Create.{IsClosed}
use ece391linux_os.Process.Invariant.{WellFormed}

-- Descriptor `k` holds `b` and each other descriptor is as before.
pub record Placed (p : Processes) (k : ℕ) (b : FdBlock) (q : Processes) : Type 0 where
  pub well_formed : WellFormed q
  pub here : fd_block q k ≡ b
  pub others : (j : ℕ) → j ≢ k → fd_block q j ≡ fd_block p j

place-Placed :
    (p : Processes) (k : ℕ) (b : FdBlock)
    → WellFormed p
    → k < 8
    → Placed p k b (modify_fd p k (λ _. b))
place-Placed p k b w h = record {
  well_formed = modify_fd-WellFormed p w k (λ _. b);
  here = fd_block-modify_fd_self p w k (λ _. b) h;
  others = λ j ne. fd_block-modify_fd_ne p w k j (λ _. b) (λ e. ne (sym e));
}

abbrev pub file_block : DirEntry → FdBlock
file_block d = record {
  file_operations_pointer = file;
  inode = pos d.inode_num;
  file_position = 0;
  flags = pos 1;
}

abbrev pub directory_block : Image → FdBlock
directory_block img = record {
  file_operations_pointer = dir;
  inode = pos 0;
  file_position = 0;
  flags = to_i32 img.boot.num_dir_entries;
}

-- The cases of the search for a descriptor from 2 to 7.
search_cases :
    (limit : ℕ) (t : List FdBlock)
    → 7 ≤ limit
    → ((k : ℕ) × (find_slot limit 6 2 t ≡ found k) × IsLowest 6 2 t k) ⊎ AllUsed 6 2 t
search_cases limit t h = go (find_slot limit 6 2 t) refl (find_slot-SearchResult limit 6 2 t)
  where
    go :
        (s : Slot)
        → find_slot limit 6 2 t ≡ s
        → SearchResult limit 6 2 t s
        → ((k : ℕ) × (find_slot limit 6 2 t ≡ found k) × IsLowest 6 2 t k) ⊎ AllUsed 6 2 t
    go (found k) e r = inl (k, e, r)
    go refused e r = inr (λ j l u. r j l (omega arith))
    go exhausted e r = inr r

-- In a well-formed process table, a call of `file_open` on an existing name takes the lowest unused
-- descriptor from 2 to 7 and returns its number; if the six are all in use it returns 0 and puts
-- the file in the place of `stdin`. Each other descriptor stays as it was.
pub file_open_lem :
    (img : Image) (fname : List ℕ) (d : DirEntry) (p : Processes)
    → WellFormed p
    → read_dentry_by_name img fname ≡ some d
    → let (q, ret) = file_open img fname p in
      ((k : ℕ) × (ret ≡ pos k) × IsLowest 6 2 (current_table p) k × Placed p k (file_block d) q)
      ⊎ (AllUsed 6 2 (current_table p) × (ret ≡ pos 0) × Placed p 0 (file_block d) q)
unfolding file_open
file_open_lem img fname d p w e = elim (search_cases 8 (current_table p) (omega arith)) [
  | inl (k, s, low) ↦
      rw (e, file_open, s)
        (inl (k, refl, low, place-Placed p k (file_block d) w (omega (arith, low.upper))))
  | inr all ↦
      let s : find_slot 8 6 2 (current_table p) ≡ exhausted =
        (find_slot-full 8 6 2 (current_table p) all).1 (omega arith) in
      rw (e, file_open, s) (inr (all, refl, place-Placed p 0 (file_block d) w (omega arith)))
]

-- In a well-formed process table, `directory_open` on an existing name takes the lowest unused
-- descriptor from 2 to 7; if the six are all in use it returns -1 and changes nothing.
pub directory_open_lem :
    (img : Image) (fname : List ℕ) (d : DirEntry) (p : Processes)
    → WellFormed p
    → read_dentry_by_name img fname ≡ some d
    → let (q, ret) = directory_open img fname p in
      ((k : ℕ) × (ret ≡ pos k)
        × IsLowest 6 2 (current_table p) k
        × Placed p k (directory_block img) q)
      ⊎ (AllUsed 6 2 (current_table p) × (ret ≡ minus_one) × (q ≡ p))
unfolding directory_open
directory_open_lem img fname d p w e = elim (search_cases 7 (current_table p) (omega arith)) [
  | inl (k, s, low) ↦
      rw (e, directory_open, s)
        (inl (k, refl, low, place-Placed p k (directory_block img) w (omega (arith, low.upper))))
  | inr all ↦
      let s : find_slot 7 6 2 (current_table p) ≡ refused =
        (find_slot-full 7 6 2 (current_table p) all).2 (omega arith) (omega arith) in
      rw (e, directory_open, s) (inr (all, refl, refl))
]

-- In a well-formed process table, `file_close` of a used descriptor from 2 to 7 returns 0, marks it
-- unused and keeps the others; any other descriptor gives -1 and no change.
pub file_close_lem :
    (fd : ℕ) (p : Processes)
    → WellFormed p
    → ((2 ≤ fd)
        × (fd < 8)
        × (is_unused (fd_block p fd) ≡ false)
        × (file_close (pos fd) p ≡ (modify_fd p fd clear_fd, pos 0))
        × Placed p fd (clear_fd (fd_block p fd)) (modify_fd p fd clear_fd))
      ⊎ (((fd < 2) ⊎ ((8 ≤ fd) ⊎ (is_unused (fd_block p fd) ≡ true)))
          × (file_close (pos fd) p ≡ (p, minus_one)))
unfolding file_close
file_close_lem fd p w = elim (Bool-cases (bad_fd (pos fd))) [
  | inl bad ↦ inr (ground arith, ground arith)
  | inr good ↦ elim (Bool-cases (is_unused (fd_block p fd))) [
    | inl unused ↦ inr (inr (inr unused), rw (good, unused) refl)
    | inr used ↦ inl (
      ground arith,
      ground arith,
      used,
      rw (good, used) refl,
      record {
        well_formed = modify_fd-WellFormed p w fd clear_fd;
        here = fd_block-modify_fd_self p w fd clear_fd (ground arith);
        others = λ j ne. fd_block-modify_fd_ne p w fd j clear_fd (λ s. ne (sym s));
      },
    )
  ]
]

-- In a well-formed process table, a file opened on a descriptor from 2 to 7 can be closed: the
-- close returns 0, the descriptor is unused again, and each other one is as it was before the open.
pub close-open :
    (img : Image) (fname : List ℕ) (d : DirEntry) (p : Processes) (k : ℕ)
    → WellFormed p
    → read_dentry_by_name img fname ≡ some d
    → (file_open img fname p).1 ≡ pos k
    → 2 ≤ k
    → let (q, ret) = file_close (pos k) (file_open img fname p).0 in
      (ret ≡ pos 0) × IsClosed (fd_block q k) × ((j : ℕ) → j ≢ k → fd_block q j ≡ fd_block p j)
close-open img fname d p k w e r h = elim (file_open_lem img fname d p w e) [
  | inr (all, z, placed) ↦ absurd (ground arith)
  | inl (m, s, low, placed) ↦
      let same : m ≡ k = ground arith in
      let here : fd_block (file_open img fname p).0 k ≡ file_block d =
        subst (λ n. fd_block (file_open img fname p).0 n ≡ file_block d) same placed.here in
      elim (file_close_lem k (file_open img fname p).0 placed.well_formed) [
        | inl (_, _, _, closed, q) ↦ rw closed (
          refl,
          rw q.here (refl, refl, refl),
          λ j ne. q.others j ne ∙ placed.others j (λ t. ne (t ∙ same)),
        )
        | inr (why, _) ↦ absurd (ground (arith, low.upper, ap (λ (b : FdBlock). b.flags) here))
      ]
]
