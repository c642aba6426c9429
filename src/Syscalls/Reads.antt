-- ===== src/Syscalls/Reads.antt =====
-- A read changes no process but the descriptor it reads from (student-distrib/syscalls.c and the
-- drivers).
use mathlib.Core.Option
use ece391linux_os.Prelude.{
  get_or, set, ltb, ◌==◌, Bool-cases, ℕ, zero, suc, ◌+◌, ◌/◌, ◌%◌, ◌^◌, inl, inr, ◌||◌, Option,
  none, some, List,
}
use ece391linux_os.Prelude.Int.{ℤ, pos, pos_part, eqb_ℤ, minus_one, to_u32}
use ece391linux_os.Filesystem.{
  max_dir_entries, file_size, DirEntry, Image, no_node, read_dentry_by_index, fd_block, modify_fd,
  advance, data_byte, data_block_of,
}
use ece391linux_os.Filesystem.Listing.{
  entry_bytes, copy_name, consume, directory_loop, directory_read,
}
use ece391linux_os.Filesystem.Reading.{Outcome, read_loop, read_data, file_read}
use ece391linux_os.Line.{left}
use ece391linux_os.Process.{FileOps, null, file, dir, stdin, stdout, rtc, FdBlock, Processes}
use ece391linux_os.Process.Invariant.{WellFormed}
use ece391linux_os.Syscalls.{Machine, Reading, returned, waits, endless, not_usable, read}
use ece391linux_os.Syscalls.Keeps.{Keeps, Keeps-refl, Keeps-trans, modify_fd-Keeps}
use ece391linux_os.Text.{first}

read_loop-Keeps :
    (img : Image) (fd inode num left i j loop curr : ℕ) (p : Processes) (buf : List ℕ)
    → WellFormed p
    → Keeps p (read_loop img fd inode num left i j loop curr p buf).state
unfolding read_loop
read_loop-Keeps img fd inode num zero i j loop curr p buf w = modify_fd-Keeps p fd (advance i) w
read_loop-Keeps img fd inode num (suc left) i j loop curr p buf w =
    let out = set buf i (data_byte img curr j) in
    let same = read_loop-Keeps img fd inode num left (i + 1) (j + 1) loop curr p out w in
    let following =
      read_loop-Keeps img fd inode num left (i + 1) 0 (loop + 1)
        (data_block_of img inode (loop + 1)) p out w in
    elim (Bool-cases (i == num)) [
      | inl e ↦ rw e (modify_fd-Keeps p fd (advance i) w)
      | inr e ↦ elim (Bool-cases (ltb (((fd_block p fd).file_position + i) % 2 ^ 32) num)) [
        | inr ends ↦ rw (e, ends) (Keeps-refl p w)
        | inl inside ↦ elim (Bool-cases ((j + 1) % file_size == 0)) [
          | inl over ↦ rw (e, inside, over) following
          | inr within ↦ rw (e, inside, within) same
        ]
      ]
    ]

file_read-Keeps :
    (img : Image) (fd : ℕ) (buf : List ℕ) (nbytes : ℤ) (p : Processes)
    → WellFormed p
    → Keeps p (file_read img fd buf nbytes p).state
unfolding file_read read_data
file_read-Keeps img fd buf nbytes p w =
    let inode = to_u32 (fd_block p fd).inode in
    let num = (get_or img.node_list inode no_node).b_length in
    let at = (fd_block p fd).file_position in
    elim (Bool-cases (ltb img.boot.inodes inode)) [
      | inl e ↦ rw e (Keeps-refl p w)
      | inr e ↦ elim (Bool-cases (num == 0)) [
        | inl e1 ↦ rw (e, e1) (Keeps-refl p w)
        | inr e1 ↦ elim (Bool-cases (ltb num at)) [
          | inl e2 ↦ rw (e, e1, e2) (Keeps-refl p w)
          | inr e2 ↦
              rw (e, e1, e2)
                (read_loop-Keeps img fd inode num (to_u32 nbytes) 0 (at % file_size)
                  (at / file_size) (data_block_of img inode (at / file_size)) p buf w)
        ]
      ]
    ]

-- A listing that comes back has changed descriptors only.
abbrev IsKept : Processes → Option Outcome → Type 0
IsKept p none = Unit
IsKept p (some out) = Keeps p out.state

directory_loop-Keeps :
    (img : Image) (fd : ℕ) (nbytes : ℤ) (fuel : ℕ) (dentry : DirEntry) (p q : Processes)
    (buf : List ℕ)
    → Keeps p q
    → IsKept p (directory_loop img fd nbytes fuel dentry q buf)
unfolding directory_loop
directory_loop-Keeps img fd nbytes zero dentry p q buf k = record {}
directory_loop-Keeps img fd nbytes (suc fuel) dentry p q buf k =
    let b = fd_block q fd in
    let d = Option.get_or (read_dentry_by_index img b.file_position) dentry in
    let copied = copy_name (pos_part nbytes) 0 (entry_bytes d) buf in
    let step = λ (f : FdBlock → FdBlock). Keeps-trans k (modify_fd-Keeps q fd f k.well_formed) in
    let skip =
      directory_loop-Keeps img fd nbytes fuel d p (modify_fd q fd (advance 1)) buf
        (step (advance 1)) in
    let again = directory_loop-Keeps img fd nbytes fuel d p q buf k in
    elim (Bool-cases (eqb_ℤ b.flags (pos 0) || b.file_position == max_dir_entries)) [
      | inl e ↦ rw e k
      | inr e ↦ elim (Bool-cases (first d.filename == 0)) [
        | inl e1 ↦ rw (e, e1) skip
        | inr e1 ↦ elim (Bool-cases (copied.2 || eqb_ℤ (pos copied.1) nbytes)) [
          | inl e2 ↦ rw (e, e1, e2) (step consume)
          | inr e2 ↦ rw (e, e1, e2) again
        ]
      ]
    ]

abbrev pub IsReadKept : Processes → Reading → Type 0
IsReadKept p (returned out) = Keeps p out.state
IsReadKept p waits = Unit
IsReadKept p endless = Unit

-- A read that returns has changed no process.
pub read-Keeps :
    (fd : ℤ) (buf : Option (List ℕ)) (nbytes : ℤ) (dentry : DirEntry) (m : Machine)
    → WellFormed m.processes
    → IsReadKept m.processes (read fd buf nbytes dentry m)
unfolding read directory_read
read-Keeps fd none nbytes dentry m w = Keeps-refl m.processes w
read-Keeps fd (some buf) nbytes dentry m w =
    let p = m.processes in
    let i = pos_part fd in
    elim (Bool-cases (not_usable fd p)) [
      | inl e ↦ rw e (Keeps-refl p w)
      | inr e ↦ rw e (by_kind (fd_block p i).file_operations_pointer)
    ]
  where
    listing :
        (r : Option Outcome)
        → IsKept m.processes r
        → IsReadKept m.processes (elim r [ none ↦ endless | some out ↦ returned out ])
    listing none k = record {}
    listing (some out) k = k

    by_kind :
        (o : FileOps)
        → IsReadKept m.processes (elim o [
          | null ↦ returned (record { state = m.processes; buf = buf; ret = minus_one })
          | file ↦ returned (file_read m.image (pos_part fd) buf nbytes m.processes)
          | dir ↦ elim (directory_read m.image (pos_part fd) buf nbytes dentry m.processes) [
            | none ↦ endless
            | some out ↦ returned out
          ]
          | stdin ↦ waits
          | stdout ↦ returned (record { state = m.processes; buf = buf; ret = minus_one })
          | rtc ↦ waits
        ])
    by_kind null = Keeps-refl m.processes w
    by_kind file = file_read-Keeps m.image (pos_part fd) buf nbytes m.processes w
    by_kind dir = listing (directory_read m.image (pos_part fd) buf nbytes dentry m.processes) (
        directory_loop-Keeps m.image (pos_part fd) nbytes 64 dentry m.processes m.processes buf
          (Keeps-refl m.processes w))
    by_kind stdin = record {}
    by_kind stdout = Keeps-refl m.processes w
    by_kind rtc = record {}
