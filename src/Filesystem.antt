-- ===== src/Filesystem.antt =====
-- student-distrib/filesystem_driver.c and filesystem_driver.h: the read-only file system image
-- that the boot loader leaves in memory, and the open, close and read routines over it.
-- The image is a value of `Image`; descriptors and positions live in `Processes`.
-- An `int32_t` file descriptor is an integer, used as an index only behind its range check.
pub mod Reading
pub mod Listing
pub mod Slots
pub mod Table
pub mod Open
pub mod Lookup
pub mod Fill
pub mod ReadLoop
pub mod FileRead
pub mod CopyName
pub mod DirectoryLoop
pub mod Directory
use ece391linux_os.Prelude.{
  get_or, modify, ltb, ◌==◌, if◌then◌else◌, ℕ, zero, suc, ◌+◌, ◌-◌, ◌*◌, ◌%◌, ◌^◌, Bool, not, ◌||◌,
  Option, none, some, List, [],
}
use ece391linux_os.Prelude.Int.{ℤ, pos, pos_part, ltb_ℤ, eqb_ℤ, minus_one, to_i32}
use ece391linux_os.Process.{file, dir, FdBlock, Processes, no_fd, block, modify_block, clear_fd}
use ece391linux_os.Text.{first, strlen, strncmp}

abbrev pub max_dir_entries : ℕ
max_dir_entries = 63

abbrev pub file_size : ℕ
file_size = 4096

abbrev pub filename_size : ℕ
filename_size = 32

-- `dir_entry_t`; the name is its 32 bytes.
pub record DirEntry : Type 0 where
  pub filename : List ℕ
  pub file_type : ℕ
  pub inode_num : ℕ
  pub reserved : List ℕ

pub record BootBlock : Type 0 where
  pub num_dir_entries : ℕ
  pub inodes : ℕ
  pub data_blocks : ℕ
  pub dir_entries : List DirEntry

pub record NodeBlock : Type 0 where
  pub b_length : ℕ
  pub data_blocks : List ℕ

-- `node_list` and `data_list` as arrays; a data block is its 4096 bytes.
pub record Image : Type 0 where
  pub boot : BootBlock
  pub node_list : List NodeBlock
  pub data_list : List (List ℕ)

-- Reads outside the arrays.
abbrev pub no_entry : DirEntry
no_entry = record { filename = []; file_type = 0; inode_num = 0; reserved = [] }

abbrev pub no_node : NodeBlock
no_node = record { b_length = 0; data_blocks = [] }

-- Where the three parts of an image lie that starts at `addr`, as 32-bit addresses.
pub record Layout : Type 0 where
  pub casted_block : ℕ
  pub node_list : ℕ
  pub data_list : ℕ

unfoldable pub boot_block_init : ℕ → ℕ → Layout
boot_block_init addr inodes = record {
  casted_block = addr;
  node_list = (addr + file_size) % 2 ^ 32;
  data_list = (addr + file_size + inodes * file_size) % 2 ^ 32;
}

-- The loop of `read_dentry_by_name`, `n` rounds from entry `i`.
unfoldable pub find_entry : ℕ → ℕ → List DirEntry → List ℕ → Option DirEntry
find_entry zero i entries fname = none
find_entry (suc n) i entries fname =
    let rest = find_entry n (i + 1) entries fname in
    let d = get_or entries i no_entry in
    if first d.filename == 0
    then rest
    else (if eqb_ℤ (pos 0) (strncmp d.filename fname filename_size) then some d else rest)

-- The entry that is copied out, or `none` for FAILURE.
unfoldable pub read_dentry_by_name : Image → List ℕ → Option DirEntry
read_dentry_by_name img fname =
    if strlen fname == 0
    then none
    else (if ltb 32 (strlen fname)
        then none
        else (find_entry max_dir_entries 0 img.boot.dir_entries fname))

-- `max_inodes - 1` is computed in `uint32_t`.
unfoldable pub read_dentry_by_index : Image → ℕ → Option DirEntry
read_dentry_by_index img index =
    if ltb ((img.boot.inodes + (2 ^ 32 - 1)) % 2 ^ 32) index
    then none
    else some (get_or img.boot.dir_entries index no_entry)

-- `control_blocks[current_pid].fd_table[fd]`, and a write to it.
abbrev pub fd_block : Processes → ℕ → FdBlock
fd_block p fd = get_or (block p p.current_pid).fd_table fd no_fd

abbrev pub modify_fd : Processes → ℕ → (FdBlock → FdBlock) → Processes
modify_fd p fd f =
    modify_block p p.current_pid (λ b. record b { fd_table = modify b.fd_table fd f })

abbrev pub advance : ℕ → FdBlock → FdBlock
advance i b = record b { file_position = (b.file_position + i) % 2 ^ 32 }

-- `((uint8_t *) &data_list[curr])[j]`
abbrev pub data_byte : Image → ℕ → ℕ → ℕ
data_byte img curr j = get_or (get_or img.data_list curr []) j 0

abbrev pub data_block_of : Image → ℕ → ℕ → ℕ
data_block_of img inode k = get_or (get_or img.node_list inode no_node).data_blocks k 0

-- The search for an unused descriptor. The test on `limit` is the one that stands in the loop
-- behind the test for an unused descriptor: FDT_SIZE for files and the RTC, which `i` never
-- reaches, and FDT_SIZE - 1 for directories.
pub data Slot : Type 0 where
  found : ℕ → Slot
  refused : Slot
  exhausted : Slot

unfoldable pub find_slot : ℕ → ℕ → ℕ → List FdBlock → Slot
find_slot limit zero i t = exhausted
find_slot limit (suc n) i t =
    let rest = find_slot limit n (i + 1) t in
    if eqb_ℤ (get_or t i no_fd).flags minus_one
    then found i
    else (if i == limit then refused else rest)

abbrev pub place : Processes → ℕ → FdBlock → Processes × ℤ
place p open_fd b = (modify_fd p open_fd (λ _. b), pos open_fd)

-- `open` keeps its initial 0 where the search runs to its end.
abbrev pub place_in : Processes → FdBlock → Slot → Processes × ℤ
place_in p b (found i) = place p i b
place_in p b refused = (p, minus_one)
place_in p b exhausted = place p 0 b

unfoldable pub file_open : Image → List ℕ → Processes → Processes × ℤ
file_open img fname p = elim (read_dentry_by_name img fname) [
  | none ↦ (p, minus_one)
  | some dentry ↦
      place_in p
        (record {
          file_operations_pointer = file;
          inode = pos dentry.inode_num;
          file_position = 0;
          flags = pos 1;
        })
        (find_slot 8 6 2 (block p p.current_pid).fd_table)
]

unfoldable pub directory_open : Image → List ℕ → Processes → Processes × ℤ
directory_open img fname p = elim (read_dentry_by_name img fname) [
  | none ↦ (p, minus_one)
  | some dentry ↦
      place_in p
        (record {
          file_operations_pointer = dir;
          inode = pos 0;
          file_position = 0;
          flags = to_i32 img.boot.num_dir_entries;
        })
        (find_slot 7 6 2 (block p p.current_pid).fd_table)
]

-- `fd < 2 || fd >= FDT_SIZE`
abbrev pub bad_fd : ℤ → Bool
bad_fd fd = ltb_ℤ fd (pos 2) || not (ltb_ℤ fd (pos 8))

unfoldable pub file_close : ℤ → Processes → Processes × ℤ
file_close fd p =
    if bad_fd fd
    then (p, minus_one)
    else (if eqb_ℤ (fd_block p (pos_part fd)).flags minus_one
        then (p, minus_one)
        else ((modify_fd p (pos_part fd) clear_fd, pos 0)))

-- The same text as `file_close`.
unfoldable pub directory_close : ℤ → Processes → Processes × ℤ
directory_close fd p =
    if bad_fd fd
    then (p, minus_one)
    else (if eqb_ℤ (fd_block p (pos_part fd)).flags minus_one
        then (p, minus_one)
        else ((modify_fd p (pos_part fd) clear_fd, pos 0)))

unfoldable pub file_write : ℤ → List ℕ → ℤ → ℤ
file_write fd buf nbytes = minus_one

unfoldable pub directory_write : ℤ → List ℕ → ℤ → ℤ
directory_write fd buf nbytes = minus_one
