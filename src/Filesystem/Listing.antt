-- ===== src/Filesystem/Listing.antt =====
-- Listing the directory: `directory_read` of student-distrib/filesystem_driver.c.
-- The 64 bytes of an entry: a read of `filename[k]` with `k` past 31 reads the fields behind it.
use mathlib.Core.Option
use ece391linux_os.Prelude.{
  get_or, set, ◌==◌, if◌then◌else◌, ℕ, zero, suc, ◌+◌, ◌/◌, ◌%◌, ◌^◌, Bool, true, false, ◌||◌,
  Option, none, some, List, [], ◌∷◌, ◌++◌,
}
use ece391linux_os.Prelude.Int.{ℤ, pos, pos_part, ◌+ℤ◌, eqb_ℤ, minus_one}
use ece391linux_os.Filesystem.{
  max_dir_entries, DirEntry, Image, read_dentry_by_index, fd_block, modify_fd, advance,
}
use ece391linux_os.Filesystem.Reading.{Outcome}
use ece391linux_os.Process.{FdBlock, Processes}
use ece391linux_os.Text.{first}

abbrev pub le32 : ℕ → List ℕ
le32 v = v % 256 ∷ v / 256 % 256 ∷ v / 65536 % 256 ∷ v / 16777216 % 256 ∷ []

abbrev pub entry_bytes : DirEntry → List ℕ
entry_bytes d = d.filename ++ (le32 d.file_type ++ (le32 d.inode_num ++ d.reserved))

-- The copying loop of `directory_read`: the rounds left, and `fnIdx`, which `bufferIdx` follows.
-- The flag says that the loop met NUL and returned.
unfoldable pub copy_name : ℕ → ℕ → List ℕ → List ℕ → List ℕ × ℕ × Bool
copy_name zero k name buf = (buf, k, false)
copy_name (suc n) k name buf =
    let rest = copy_name n (k + 1) name (set buf k (get_or name k 0)) in
    if get_or name k 0 == 0 then (set buf k 0, k, true) else rest

abbrev pub consume : FdBlock → FdBlock
consume b = record b {
  file_position = (b.file_position + 1) % 2 ^ 32;
  flags = b.flags +ℤ minus_one;
}

-- The loop of `directory_read` with fuel; `none` means that the fuel ran out. `dentry` is the
-- local variable, which a failing `read_dentry_by_index` leaves as it was.
module _ (img : Image) (fd : ℕ) (nbytes : ℤ) where
  unfoldable pub directory_loop : ℕ → DirEntry → Processes → List ℕ → Option Outcome
  directory_loop zero dentry p buf = none
  directory_loop (suc fuel) dentry p buf =
      let b = fd_block p fd in
      let d = Option.get_or (read_dentry_by_index img b.file_position) dentry in
      let copied = copy_name (pos_part nbytes) 0 (entry_bytes d) buf in
      let skip = directory_loop fuel d (modify_fd p fd (advance 1)) buf in
      let again = directory_loop fuel d p buf in
      if eqb_ℤ b.flags (pos 0) || b.file_position == max_dir_entries
      then some (record { state = p; buf = buf; ret = pos 0 })
      else (if first d.filename == 0
          then skip
          else (if copied.2 || eqb_ℤ (pos copied.1) nbytes
              then some
                  (record { state = modify_fd p fd consume; buf = copied.0; ret = pos copied.1 })
              else again))

-- 64 rounds: the positions 0 to 62 and the round that stops at 63.
unfoldable pub directory_read : Image → ℕ → List ℕ → ℤ → DirEntry → Processes → Option Outcome
directory_read img fd buf nbytes dentry p = directory_loop img fd nbytes 64 dentry p buf
