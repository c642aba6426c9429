-- ===== src/Examples/Files.antt =====
-- The file system's theorems on a small image (student-distrib/filesystem_driver.c).
use ece391linux_os.Prelude.{
  length, get_or, replicate, ℕ, zero, suc, ◌+◌, ◌≤◌, ◌<◌, ◌≡◌, refl, ◌≢◌, ◌⊎◌, none, some, List,
  arith,
}
use ece391linux_os.Prelude.Int.{pos}
use ece391linux_os.Examples.Data.{
  table, table-WellFormed, idle, file_ab, image, opened_file, opened_directory, idle-WellFormed,
  name_ab, lookup_ab,
}
use ece391linux_os.Filesystem.{
  no_entry, find_entry, read_dentry_by_name, fd_block, find_slot, file_open,
}
use ece391linux_os.Filesystem.Directory.{directory_read-returns, directory_read-gives_next}
use ece391linux_os.Filesystem.FileRead.{file_read-copies, file_read-loses_tail}
use ece391linux_os.Filesystem.Fill.{file_byte}
use ece391linux_os.Filesystem.Listing.{entry_bytes, directory_read}
use ece391linux_os.Filesystem.Lookup.{LookupResult, NamesAreBytes, read_dentry_by_name_lem}
use ece391linux_os.Filesystem.Open.{Placed, file_block, file_open_lem}
use ece391linux_os.Filesystem.Reading.{Outcome, file_read}
use ece391linux_os.Filesystem.Slots.{AllUsed, IsLowest}
use ece391linux_os.Filesystem.Table.{current_table}
use ece391linux_os.Process.{Processes}
use ece391linux_os.Text.{first, IsBytes, strlen, strncmp, text}

name_ab-IsBytes : IsBytes name_ab
name_ab-IsBytes = (omega arith, (omega arith, (omega arith, record {})))

zeros-IsBytes : (n : ℕ) → IsBytes (replicate n 0)
zeros-IsBytes zero = record {}
zeros-IsBytes (suc n) = (omega arith, zeros-IsBytes n)

image-NamesAreBytes : NamesAreBytes image.boot.dir_entries
image-NamesAreBytes zero = (omega arith, zeros-IsBytes 31)
image-NamesAreBytes (suc zero) = zeros-IsBytes 32
image-NamesAreBytes (suc (suc zero)) = (omega arith, (omega arith, zeros-IsBytes 30))
image-NamesAreBytes (suc (suc (suc j))) = record {}

abbrev buffer : List ℕ
buffer = replicate 6 0

abbrev reading : ℕ → Processes
reading position = table (opened_file position)

abbrev listing : ℕ → ℕ → Processes
listing position n = table (opened_directory position n)

file_read-copies_example :
    let out = file_read image 2 buffer (pos 2) (reading 1) in
    (out.ret ≡ pos 2)
    × (length out.buf ≡ 6)
    × ((k : ℕ) → k < 2 → get_or out.buf k 0 ≡ file_byte image 5 (1 + k))
    × ((k : ℕ) → 2 ≤ k → get_or out.buf k 0 ≡ get_or buffer k 0)
    × ((fd_block out.state 2).file_position ≡ 3)
    × ((j : ℕ) → j ≢ 2 → fd_block out.state j ≡ fd_block (reading 1) j)
file_read-copies_example =
    file_read-copies image 2 2 buffer (reading 1) (table-WellFormed (opened_file 1)) (omega arith)
      (omega arith) (omega arith) (omega arith) (omega arith) (omega arith)

file_read-loses_tail_example :
    ((file_read image 2 buffer (pos 6) (reading 1)).ret ≡ pos 0)
    × ((file_read image 2 buffer (pos 6) (reading 1)).state ≡ reading 1)
file_read-loses_tail_example =
    file_read-loses_tail image 2 6 buffer (reading 1) (omega arith) (omega arith) (omega arith)
      (omega arith) (omega arith)

read_dentry_by_name_example :
    ((1 ≤ strlen name_ab)
      × (strlen name_ab ≤ 32)
      × LookupResult 63 0 image.boot.dir_entries name_ab (read_dentry_by_name image name_ab))
    ⊎ (((strlen name_ab ≡ 0) ⊎ (32 < strlen name_ab)) × (read_dentry_by_name image name_ab ≡ none))
read_dentry_by_name_example =
    read_dentry_by_name_lem image name_ab image-NamesAreBytes name_ab-IsBytes

file_open_example :
    let (q, ret) = file_open image name_ab idle in
    ((k : ℕ) × (ret ≡ pos k)
      × IsLowest 6 2 (current_table idle) k
      × Placed idle k (file_block file_ab) q)
    ⊎ (AllUsed 6 2 (current_table idle) × (ret ≡ pos 0) × Placed idle 0 (file_block file_ab) q)
file_open_example = file_open_lem image name_ab file_ab idle idle-WellFormed lookup_ab

opened_ab : (file_open image name_ab idle).1 ≡ pos 2
unfolding file_open read_dentry_by_name find_entry strlen strncmp find_slot
opened_ab = refl

directory_read-returns_example :
    (out : Outcome) × (directory_read image 2 buffer (pos 6) no_entry (listing 1 2) ≡ some out)
directory_read-returns_example =
    directory_read-returns image 2 6 buffer no_entry (listing 1 2) (omega arith)
      (table-WellFormed (opened_directory 1 2)) (omega arith)

skipped : (j : ℕ) → 1 ≤ j → j < 2 → first (get_or image.boot.dir_entries j no_entry).filename ≡ 0
skipped zero lo hi = absurd (omega arith)
skipped (suc zero) lo hi = refl
skipped (suc (suc j)) lo hi = absurd (omega arith)

directory_read-gives_next_example :
    let size = length (text 6 (entry_bytes file_ab)) in
    (out : Outcome) × (directory_read image 2 buffer (pos 6) no_entry (listing 1 2) ≡ some out)
    × (out.ret ≡ pos size)
    × ((i : ℕ)
        → i < size
        → i < length buffer
        → get_or out.buf i 0 ≡ get_or (entry_bytes file_ab) i 0)
    × ((fd_block out.state 2).file_position ≡ 3)
    × ((fd_block out.state 2).flags ≡ pos 1)
    × ((j : ℕ) → j ≢ 2 → fd_block out.state j ≡ fd_block (listing 1 2) j)
    × (6 ≤ length file_ab.filename → text 6 (entry_bytes file_ab) ≡ text 6 file_ab.filename)
directory_read-gives_next_example =
    directory_read-gives_next image 2 6 2 1 buffer no_entry (listing 1 2) (omega arith)
      (table-WellFormed (opened_directory 1 2)) (omega arith) (omega arith) refl (omega arith)
      (omega arith) skipped (omega arith)

none_left : (j : ℕ) → 3 ≤ j → j < 63 → first (get_or image.boot.dir_entries j no_entry).filename ≡ 0
none_left zero lo hi = absurd (omega arith)
none_left (suc zero) lo hi = absurd (omega arith)
none_left (suc (suc zero)) lo hi = absurd (omega arith)
none_left (suc (suc (suc j))) lo hi = refl
