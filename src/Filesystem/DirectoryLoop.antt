-- ===== src/Filesystem/DirectoryLoop.antt =====
-- The loop of `directory_read` (student-distrib/filesystem_driver.c): what it returns in each case.
use mathlib.Core.Option
use ece391linux_os.Prelude.{
  get_or, ◌==◌, Bool-cases, ℕ, zero, suc, ◌+◌, ◌-◌, ◌%◌, ◌^◌, ◌≤◌, ◌<◌, ◌≡◌, refl, sym, ap, ◌∙◌,
  ◌≢◌, inl, inr, true, false, ◌||◌, some, List, arith,
}
use ece391linux_os.Prelude.Int.{pos, eqb_ℤ}
use ece391linux_os.Filesystem.{
  DirEntry, Image, no_entry, read_dentry_by_index, fd_block, modify_fd, advance,
}
use ece391linux_os.Filesystem.CopyName.{copy_name-Copied}
use ece391linux_os.Filesystem.Listing.{entry_bytes, copy_name, consume, directory_loop}
use ece391linux_os.Filesystem.Lookup.{read_dentry_by_index_lem}
use ece391linux_os.Filesystem.Reading.{Outcome}
use ece391linux_os.Filesystem.Table.{
  fd_block-modify_fd_self, fd_block-modify_fd_ne, modify_fd-WellFormed,
}
use ece391linux_os.Process.{FdBlock, Processes}
use ece391linux_os.Process.Invariant.{WellFormed}
use ece391linux_os.Text.{first}

-- A finished copy ends the call: it met NUL, or it filled all `nbytes`.
copy_ends :
    (n : ℕ) (name buf : List ℕ)
    → (copy_name n 0 name buf).2 || eqb_ℤ (pos (copy_name n 0 name buf).1) (pos n) ≡ true
copy_ends n name buf = let c = copy_name-Copied n 0 name buf in ground (arith, c.ends, c.count)

-- The outcome of a call that returns the name of entry `d`.
abbrev pub given_for : ℕ → ℕ → Processes → DirEntry → List ℕ → Outcome
given_for fd nbytes p d buf =
    let copied = copy_name nbytes 0 (entry_bytes d) buf in
    record { state = modify_fd p fd consume; buf = copied.0; ret = pos copied.1 }

module _ (img : Image) (fd nbytes : ℕ) (small : fd < 8) where
  abbrev pub given : Processes → DirEntry → List ℕ → Outcome
  given = given_for fd nbytes

  -- 64 rounds are enough: each round ends the call or moves the position on.
  pub directory_loop-ends :
      (fuel m : ℕ) (dentry : DirEntry) (p : Processes) (buf : List ℕ)
      → WellFormed p
      → (fd_block p fd).file_position + m ≡ 63
      → m < fuel
      → (out : Outcome) × (directory_loop img fd (pos nbytes) fuel dentry p buf ≡ some out)
  unfolding directory_loop
  directory_loop-ends zero m dentry p buf w e h = absurd (omega arith)
  directory_loop-ends (suc fuel) m dentry p buf w e h =
      let b = fd_block p fd in
      let d = Option.get_or (read_dentry_by_index img b.file_position) dentry in
      elim (Bool-cases (eqb_ℤ b.flags (pos 0) || b.file_position == 63)) [
        | inl done ↦ rw done (record { state = p; buf = buf; ret = pos 0 }, refl)
        | inr more ↦ elim (Bool-cases (first d.filename == 0)) [
          | inl skip ↦
              let moved : (fd_block (modify_fd p fd (advance 1)) fd).file_position
                  ≡ (b.file_position + 1) % 2 ^ 32 =
                ap (λ (x : FdBlock). x.file_position)
                  (fd_block-modify_fd_self p w fd (advance 1) small) in
              rw (more, skip)
                (directory_loop-ends fuel (m - 1) d (modify_fd p fd (advance 1)) buf
                  (modify_fd-WellFormed p w fd (advance 1)) (ground arith) (ground arith))
          | inr use_it ↦
              rw (more, use_it, copy_ends nbytes (entry_bytes d) buf) (given p d buf, refl)
        ]
      ]

  -- The loop skips the unused entries before entry `k` and returns its name.
  pub directory_loop-gives :
      (fuel m k n : ℕ) (dentry : DirEntry) (p : Processes) (buf : List ℕ)
      → WellFormed p
      → 63 ≤ img.boot.inodes
      → img.boot.inodes < 2 ^ 32
      → (fd_block p fd).file_position + m ≡ k
      → (fd_block p fd).flags ≡ pos (suc n)
      → k < 63
      → m < fuel
      → ((j : ℕ)
          → (fd_block p fd).file_position ≤ j
          → j < k
          → first (get_or img.boot.dir_entries j no_entry).filename ≡ 0)
      → first (get_or img.boot.dir_entries k no_entry).filename ≢ 0
      → (q : Processes) × (directory_loop img fd (pos nbytes) fuel dentry p buf
          ≡ some (given q (get_or img.boot.dir_entries k no_entry) buf))
        × WellFormed q
        × (fd_block q fd ≡ record (fd_block p fd) { file_position = k })
        × ((j : ℕ) → j ≢ fd → fd_block q j ≡ fd_block p j)
  unfolding directory_loop
  directory_loop-gives zero m k n dentry p buf w lo hi e fl kk h empty used = absurd (omega arith)
  directory_loop-gives (suc fuel) zero k n dentry p buf w lo hi e fl kk h empty used =
      let at : (fd_block p fd).file_position ≡ k = omega arith in
      let here : read_dentry_by_index img k ≡ some (get_or img.boot.dir_entries k no_entry) =
        ground (arith, read_dentry_by_index_lem img k hi (omega arith)) in
      let some_left : eqb_ℤ (fd_block p fd).flags (pos 0) || (fd_block p fd).file_position == 63
          ≡ false =
        ground arith in
      let named : first (get_or img.boot.dir_entries k no_entry).filename == 0 ≡ false =
        ground arith in
      (
        p,
        rw (
          some_left,
          at,
          here,
          named,
          copy_ends nbytes (entry_bytes (get_or img.boot.dir_entries k no_entry)) buf,
        ),
        w,
        λ i. record (fd_block p fd) { file_position = at i },
        λ j ne. refl,
      )
  directory_loop-gives (suc fuel) (suc m) k n dentry p buf w lo hi e fl kk h empty used =
      let at = (fd_block p fd).file_position in
      let d = get_or img.boot.dir_entries at no_entry in
      let here : read_dentry_by_index img at ≡ some d =
        ground (arith, read_dentry_by_index_lem img at hi (omega arith)) in
      let some_left : eqb_ℤ (fd_block p fd).flags (pos 0) || at == 63 ≡ false = ground arith in
      let blank : first d.filename == 0 ≡ true =
        let z : first d.filename ≡ 0 = empty at (omega arith) (omega arith) in ground arith in
      let p' = modify_fd p fd (advance 1) in
      let moved : fd_block p' fd ≡ advance 1 (fd_block p fd) =
        fd_block-modify_fd_self p w fd (advance 1) small in
      let moved_at : (fd_block p' fd).file_position ≡ at + 1 =
        ap (λ (x : FdBlock). x.file_position) moved ∙ omega arith in
      let (q, run, w', b, others) =
        directory_loop-gives fuel m k n d p' buf (modify_fd-WellFormed p w fd (advance 1)) lo hi
          (omega (arith, moved_at)) (ap (λ (x : FdBlock). x.flags) moved ∙ fl) kk (omega arith)
          (λ j lower upper. empty j (omega (arith, moved_at)) upper) used in
      (
        q,
        rw (some_left, here, blank) run,
        w',
        b ∙ ap (λ (x : FdBlock). record x { file_position = k }) moved,
        λ j ne. others j ne ∙ fd_block-modify_fd_ne p w fd j (advance 1) (λ t. ne (sym t)),
      )

  -- With no used entry left the loop stops at position 63 and returns 0.
  pub directory_loop-finishes :
      (fuel m : ℕ) (dentry : DirEntry) (p : Processes) (buf : List ℕ)
      → WellFormed p
      → 63 ≤ img.boot.inodes
      → img.boot.inodes < 2 ^ 32
      → (fd_block p fd).file_position + m ≡ 63
      → m < fuel
      → ((j : ℕ)
          → (fd_block p fd).file_position ≤ j
          → j < 63
          → first (get_or img.boot.dir_entries j no_entry).filename ≡ 0)
      → (q : Processes) × (directory_loop img fd (pos nbytes) fuel dentry p buf
          ≡ some (record { state = q; buf = buf; ret = pos 0 }))
  unfolding directory_loop
  directory_loop-finishes zero m dentry p buf w lo hi e h empty = absurd (omega arith)
  directory_loop-finishes (suc fuel) zero dentry p buf w lo hi e h empty =
      let done : eqb_ℤ (fd_block p fd).flags (pos 0) || (fd_block p fd).file_position == 63 ≡ true =
        ground arith in
      (p, rw done)
  directory_loop-finishes (suc fuel) (suc m) dentry p buf w lo hi e h empty =
      let at = (fd_block p fd).file_position in
      let d = get_or img.boot.dir_entries at no_entry in
      elim (Bool-cases (eqb_ℤ (fd_block p fd).flags (pos 0) || at == 63)) [
        | inl done ↦ (p, rw done)
        | inr some_left ↦
            let here : read_dentry_by_index img at ≡ some d =
              ground (arith, read_dentry_by_index_lem img at hi (omega arith)) in
            let blank : first d.filename == 0 ≡ true =
              let z : first d.filename ≡ 0 = empty at (omega arith) (omega arith) in ground arith in
            let p' = modify_fd p fd (advance 1) in
            let moved_at : (fd_block p' fd).file_position ≡ at + 1 =
              ap (λ (x : FdBlock). x.file_position)
                (fd_block-modify_fd_self p w fd (advance 1) small)
              ∙ omega arith in
            rw (some_left, here, blank)
              (directory_loop-finishes fuel m d p' buf (modify_fd-WellFormed p w fd (advance 1)) lo
                hi (omega (arith, moved_at)) (omega arith)
                (λ j lower upper. empty j (omega (arith, moved_at)) upper))
      ]
