-- ===== src/Filesystem/Directory.antt =====
-- `directory_read` of student-distrib/filesystem_driver.c: each call gives the next used name.
use ece391linux_os.Prelude.{
  zero, refl, [], ◌∷◌, ◌++◌, ◌==◌, Bool-cases, inl, inr, length, get_or, ℕ, suc, ◌+◌, ◌-◌, ◌^◌, ◌≤◌,
  ◌<◌, ◌≡◌, sym, ap, ◌∙◌, ◌≢◌, some, List, arith,
}
use ece391linux_os.Prelude.Int.{pos}
use ece391linux_os.Filesystem.{DirEntry, Image, no_entry, fd_block}
use ece391linux_os.Filesystem.CopyName.{copy_name-Copied}
use ece391linux_os.Filesystem.DirectoryLoop.{
  given_for, directory_loop-ends, directory_loop-gives, directory_loop-finishes,
}
use ece391linux_os.Filesystem.Listing.{entry_bytes, copy_name, consume, directory_read}
use ece391linux_os.Filesystem.Reading.{Outcome}
use ece391linux_os.Filesystem.Table.{fd_block-modify_fd_self, fd_block-modify_fd_ne}
use ece391linux_os.Process.{Processes}
use ece391linux_os.Process.Invariant.{WellFormed}
use ece391linux_os.Text.{first, text}

-- In a well-formed process table, on a descriptor below 8: a call with a non-negative `nbytes`, at
-- a position up to 63, returns: its loop needs at most 64 rounds, whatever the image holds.
pub directory_read-returns :
    (img : Image) (fd nbytes : ℕ) (buf : List ℕ) (dentry : DirEntry) (p : Processes)
    → fd < 8
    → WellFormed p
    → (fd_block p fd).file_position ≤ 63
    → (out : Outcome) × (directory_read img fd buf (pos nbytes) dentry p ≡ some out)
unfolding directory_read
directory_read-returns img fd nbytes buf dentry p small w h =
    directory_loop-ends img fd nbytes small 64 (63 - (fd_block p fd).file_position) dentry p buf w
      (omega arith) (omega arith)

text-front : (n : ℕ) (xs ys : List ℕ) → n ≤ length xs → text n (xs ++ ys) ≡ text n xs
text-front zero xs ys h = refl
text-front (suc n) [] ys h = absurd (omega arith)
text-front (suc n) (x ∷ xs) ys h = elim (Bool-cases (x == 0)) [
  | inl e ↦ rw e refl
  | inr e ↦ rw e (ap (λ t. x ∷ t) (text-front n xs ys (omega arith)))
]

-- In a well-formed process table, on a descriptor below 8, with an image of at least 63 and fewer
-- than 2 ^ 32 inodes and entries left to list: if `k` is the first used entry at or behind the
-- position, and below 63, the call reads the 64 bytes of the entry (its name, type, inode number and
-- reserved bytes) as one string, cut off at `nbytes`: it returns the length of this string and puts its bytes into the buffer as far as it reaches. For an `nbytes` of at most the length of the name field, which is 32,
-- the string is the name; for a larger one a name that fills its field is followed by the type.
-- The position is then `k + 1`, one entry less is left, and the other descriptors are as before.
pub directory_read-gives_next :
    (img : Image) (fd nbytes k n : ℕ) (buf : List ℕ) (dentry : DirEntry) (p : Processes)
    → fd < 8
    → WellFormed p
    → 63 ≤ img.boot.inodes
    → img.boot.inodes < 2 ^ 32
    → (fd_block p fd).flags ≡ pos (suc n)
    → (fd_block p fd).file_position ≤ k
    → k < 63
    → ((j : ℕ)
        → (fd_block p fd).file_position ≤ j
        → j < k
        → first (get_or img.boot.dir_entries j no_entry).filename ≡ 0)
    → first (get_or img.boot.dir_entries k no_entry).filename ≢ 0
    → let name = entry_bytes (get_or img.boot.dir_entries k no_entry) in
      let size = length (text nbytes name) in
      (out : Outcome) × (directory_read img fd buf (pos nbytes) dentry p ≡ some out)
      × (out.ret ≡ pos size)
      × ((i : ℕ) → i < size → i < length buf → get_or out.buf i 0 ≡ get_or name i 0)
      × ((fd_block out.state fd).file_position ≡ k + 1)
      × ((fd_block out.state fd).flags ≡ pos n)
      × ((j : ℕ) → j ≢ fd → fd_block out.state j ≡ fd_block p j)
      × (nbytes ≤ length (get_or img.boot.dir_entries k no_entry).filename
          → text nbytes name ≡ text nbytes (get_or img.boot.dir_entries k no_entry).filename)
unfolding directory_read
directory_read-gives_next img fd nbytes k n buf dentry p small w lo hi fl pk kk empty used =
    let (q, run, w', b, others) =
      directory_loop-gives img fd nbytes small 64 (k - (fd_block p fd).file_position) k n dentry p
        buf w lo hi (omega arith) fl kk (omega arith) empty used in
    let name = entry_bytes (get_or img.boot.dir_entries k no_entry) in
    let c = copy_name-Copied nbytes 0 name buf in
    let size : (copy_name nbytes 0 name buf).1 ≡ length (text nbytes name) =
      omega (arith, c.count) in
    let after = fd_block-modify_fd_self q w' fd consume small in
    (
      given_for fd nbytes q (get_or img.boot.dir_entries k no_entry) buf,
      run,
      ap pos size,
      λ i lower s. c.bytes i (omega arith) (omega (arith, size)) s,
      rw (after, b) (omega arith),
      rw (after, b, fl) (ground arith),
      λ j ne. fd_block-modify_fd_ne q w' fd j consume (λ t. ne (sym t)) ∙ others j ne,
      λ within. text-front nbytes (get_or img.boot.dir_entries k no_entry).filename _ within,
    )

-- In a well-formed process table, on a descriptor below 8, with an image of at least 63 and fewer
-- than 2 ^ 32 inodes and no used entry at or behind the position, which is at most 63, the call
-- returns 0 and leaves the buffer alone.
pub directory_read-ends :
    (img : Image) (fd nbytes : ℕ) (buf : List ℕ) (dentry : DirEntry) (p : Processes)
    → fd < 8
    → WellFormed p
    → 63 ≤ img.boot.inodes
    → img.boot.inodes < 2 ^ 32
    → (fd_block p fd).file_position ≤ 63
    → ((j : ℕ)
        → (fd_block p fd).file_position ≤ j
        → j < 63
        → first (get_or img.boot.dir_entries j no_entry).filename ≡ 0)
    → (q : Processes) × (directory_read img fd buf (pos nbytes) dentry p
        ≡ some (record { state = q; buf = buf; ret = pos 0 }))
unfolding directory_read
directory_read-ends img fd nbytes buf dentry p small w lo hi h empty =
    directory_loop-finishes img fd nbytes small 64 (63 - (fd_block p fd).file_position) dentry p buf
      w lo hi (omega arith) (omega arith) empty
