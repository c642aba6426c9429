-- ===== src/Examples/Processes.antt =====
-- The process table's theorems on a table with one process (student-distrib/process_control.c).
use ece391linux_os.Prelude.{ℕ, ◌≤◌, ◌<◌, ◌≡◌, ◌⊎◌, false}
use ece391linux_os.Prelude.Int.{pos, minus_one}
use ece391linux_os.Examples.Data.{idle, idle-WellFormed}
use ece391linux_os.Process.{block, create_new_pcb}
use ece391linux_os.Process.Count.{is_free}
use ece391linux_os.Process.Create.{Created, create_new_pcb_lem}
use ece391linux_os.Process.Invariant.{WellFormed, create_new_pcb-WellFormed}

create_new_pcb_example :
    ((create_new_pcb 1 idle ≡ (idle, minus_one))
      × ((j : ℕ) → 1 ≤ j → j < 7 → is_free (block idle j) ≡ false))
    ⊎ ((k : ℕ) × ((create_new_pcb 1 idle).1 ≡ pos k) × Created 1 idle k (create_new_pcb 1 idle).0)
create_new_pcb_example = create_new_pcb_lem 1 idle idle-WellFormed

create_new_pcb-WellFormed_example : WellFormed (create_new_pcb 1 idle).0
create_new_pcb-WellFormed_example = create_new_pcb-WellFormed 1 idle idle-WellFormed
