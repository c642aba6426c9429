-- ===== src/Examples/Calls.antt =====
-- The theorems about system calls and the clock on one process (student-distrib/syscalls.c,
-- student-distrib/rtc_driver.c).
use ece391linux_os.Prelude.{set, ℕ, ◌-◌, ◌^◌, ◌≤◌, ◌≡◌, refl, ◌≢◌, ◌⊎◌, some, [], ◌∷◌, arith}
use ece391linux_os.Prelude.Int.{pos, minus_one}
use ece391linux_os.Examples.Data.{idle, file_ab, image, idle-WellFormed, page, name_ab, lookup_ab}
use ece391linux_os.Filesystem.{find_entry, read_dentry_by_name, fd_block, find_slot, file_open}
use ece391linux_os.Process.Create.{IsClosed}
use ece391linux_os.Rtc.{Clock, send_rate, rtc_write}
use ece391linux_os.Rtc.Rate.{rtc_write_lem}
use ece391linux_os.Syscalls.{Machine, open_file, close}
use ece391linux_os.Syscalls.Descriptors.{close-open_file}
use ece391linux_os.Text.{strlen, strncmp}

abbrev pub clock : Clock
clock = record {
  ports = [];
  existing = 0x20;
  rtc_running = pos 2 ∷ pos 2 ∷ pos 2 ∷ [];
  rtc_virtual_interupt = 0 ∷ 1 ∷ 0 ∷ [];
  current_process = 1;
}

rtc_write_example :
    ((k : ℕ) × (1 ≤ k)
      × (k ≤ 15)
      × (pos 1024 ≡ pos (2 ^ k))
      × (rtc_write (pos 1024) clock ≡ (
        send_rate (16 - k) (record clock {
          rtc_running = set clock.rtc_running 1 (pos 1024);
          rtc_virtual_interupt = set clock.rtc_virtual_interupt 1 0;
        }),
        pos 0,
      )))
    ⊎ (((k : ℕ) → 1 ≤ k → k ≤ 15 → pos 1024 ≢ pos (2 ^ k))
        × (rtc_write (pos 1024) clock ≡ (clock, minus_one)))
rtc_write_example = rtc_write_lem (pos 1024) clock

abbrev pub machine : Machine
machine = record {
  image = image;
  processes = idle;
  screen = page;
  clock = clock;
  current_terminal = 0;
}

opened_ab_call : (open_file 0 (pos 0) (some name_ab) machine).1 ≡ pos 2
unfolding open_file file_open read_dentry_by_name find_entry strlen strncmp find_slot
opened_ab_call = refl

close-open_file_example :
    let (after, ret) = close (pos 2) (open_file 0 (pos 0) (some name_ab) machine).0 in
    (ret ≡ pos 0)
    × IsClosed (fd_block after.processes 2)
    × ((j : ℕ) → j ≢ 2 → fd_block after.processes j ≡ fd_block idle j)
    × (after.screen ≡ page)
    × (after.clock ≡ clock)
close-open_file_example =
    close-open_file 0 (pos 0) name_ab file_ab machine 2 idle-WellFormed lookup_ab refl
      opened_ab_call (omega arith)
