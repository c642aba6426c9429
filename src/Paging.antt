-- ===== src/Paging.antt =====
-- The page directory and the page table: `paging_init` of student-distrib/interrupts.c and the part
-- of `execute` in student-distrib/syscalls.c that maps a process.
pub mod Bits
pub mod Isolation
use ece391linux_os.Prelude.{set, ℕ, ◌+◌, ◌*◌, ◌/◌, ◌^◌, bit_or, List}
use ece391linux_os.Prelude.Range.{update_range}
use ece391linux_os.Console.{shown}

-- `process_pages`, `process_tables`, and the address that `process_tables` lies at.
pub record Paging : Type 0 where
  pub pages : List ℕ
  pub tables : List ℕ
  pub tables_at : ℕ

abbrev pub page_size : ℕ
page_size = 1024

-- `VIDEO` and `VIDEO_1`
abbrev pub video : ℕ
video = 0xB8000

abbrev pub video_1 : ℕ
video_1 = 0xB9000

-- `USER_MASK | READWRITE_MASK | PRESENT_MASK`
abbrev pub user_present : ℕ
user_present = 7

-- `(M_4 * (pid + 1)) | PAGE_ARGS`, the 4 MB page of a process.
abbrev pub program_entry : ℕ → ℕ
program_entry pid = bit_or (0x400000 * (pid + 1)) 0x87

unfoldable pub paging_init : Paging → Paging
paging_init g =
    let cleared = update_range page_size 0 (λ _. 2) (update_range page_size 0 (λ _. 2) g.pages) in
    record g {
      pages = set (set cleared 1 0x400083) 0 (bit_or g.tables_at 3);
      tables = set g.tables 184 (bit_or video 1);
    }

-- What `execute` maps for process `pid`. The table of the last entry starts at the page of
-- `process_tables[VID_IDX]`, `VID_IDX` being 33.
unfoldable pub map_process : ℕ → Paging → Paging
map_process pid g =
    let cleared = update_range page_size 0 (λ _. 2) g.pages in
    let empty = update_range page_size 0 (λ _. 2) g.tables in
    let shown =
      set
        (set (set (set empty 184 (bit_or video 3)) 0xB9 (bit_or video_1 user_present)) 0xBA
          (bit_or (video_1 + 0x1000) user_present))
        0xBB (bit_or (video_1 + 0x1000 * 2) user_present) in
    record g {
      pages =
          set
            (set (set (set cleared 1 0x400087) 0 (bit_or g.tables_at user_present)) 32
              (program_entry pid))
            33 (bit_or ((g.tables_at + 4 * 33) / 2 ^ 12 * 2 ^ 12) user_present);
      tables = set shown 33 (bit_or video user_present);
    }
