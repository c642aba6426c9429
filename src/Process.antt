-- ===== src/Process.antt =====
-- student-distrib/process_control.c and process_control.h: the table of process control blocks.
-- Globals that the file keeps (`control_blocks`, `num_active_processes`, `current_pid`,
-- `past_pid`) are the fields of `Processes`, which each function takes and returns.
pub mod Count
pub mod Invariant
pub mod Create
use ece391linux_os.Prelude.{
  ℕ, zero, suc, ◌+◌, ◌≡◌, Bool, Option, none, some, List, [], ◌∷◌, if◌then◌else◌, ◌==◌, get_or,
  modify, replicate,
}
use ece391linux_os.Prelude.Int.{ℤ, pos, negsuc, minus_one, eqb_ℤ, ◌+ℤ◌}
use ece391linux_os.Prelude.Range.{update_range}

abbrev pub sentinel_process : ℕ
sentinel_process = 0

abbrev pub total_processes : ℕ
total_processes = 7

abbrev pub max_processes : ℕ
max_processes = 6

abbrev pub fdt_size : ℕ
fdt_size = 8

abbrev pub args_buffer_size : ℕ
args_buffer_size = 1024

-- `optable_t *`: the tables that the kernel defines, and NULL. The calls through a table are
-- made by the name of the table.
pub data FileOps : Type 0 where
  null file dir stdin stdout rtc : FileOps

pub record FdBlock : Type 0 where
  pub file_operations_pointer : FileOps
  pub inode : ℤ
  pub file_position : ℕ
  pub flags : ℤ

pub record Pcb : Type 0 where
  pub fd_table : List FdBlock
  pub pid : ℤ
  pub parent : ℕ
  pub stack_pos : ℕ
  pub ss : ℕ
  pub esp : ℕ
  pub args : List ℕ

pub record Processes : Type 0 where
  pub control_blocks : List Pcb
  pub num_active_processes : ℤ
  pub current_pid : ℕ
  pub past_pid : ℕ

-- What a read outside an array gives; the invariant keeps every read inside.
abbrev pub no_fd : FdBlock
no_fd = record { file_operations_pointer = null; inode = pos 0; file_position = 0; flags = pos 0 }

abbrev pub no_pcb : Pcb
no_pcb = record {
  fd_table = [];
  pid = pos 0;
  parent = 0;
  stack_pos = 0;
  ss = 0;
  esp = 0;
  args = [];
}

abbrev pub block : Processes → ℕ → Pcb
block p i = get_or p.control_blocks i no_pcb

abbrev pub modify_block : Processes → ℕ → (Pcb → Pcb) → Processes
modify_block p i f = record p { control_blocks = modify p.control_blocks i f }

-- The descriptor marked unused; `file_position` stays as it was.
abbrev pub clear_fd : FdBlock → FdBlock
clear_fd b = record b { file_operations_pointer = null; inode = minus_one; flags = minus_one }

abbrev pub stdin_block : FdBlock
stdin_block = record {
  file_operations_pointer = stdin;
  inode = pos 0;
  file_position = 0;
  flags = pos 1;
}

abbrev pub stdout_block : FdBlock
stdout_block = record {
  file_operations_pointer = stdout;
  inode = pos 0;
  file_position = 0;
  flags = pos 1;
}

-- The loop `for (i = 2; i < FDT_SIZE; i++)` that marks the descriptors of a block unused.
pub close_table : List FdBlock → List FdBlock
close_table t = update_range 6 2 clear_fd t

-- The two passes over one block in `process_control_block_init`.
pub init_block : Pcb → Pcb
init_block b = record b {
  fd_table = close_table (modify (modify b.fd_table 0 (λ _. stdin_block)) 1 (λ _. stdout_block));
  args = update_range args_buffer_size 0 (λ _. 0) b.args;
}

unfoldable pub process_control_block_init : Processes → Processes
process_control_block_init p = record p {
  control_blocks = update_range total_processes 0 init_block p.control_blocks;
  num_active_processes = pos 0;
}

-- `ss` and `esp` are the registers that the inline assembly reads.
unfoldable pub first_process_init : ℕ → ℕ → Processes → Processes × ℕ
first_process_init ss esp p =
    let sentinel = λ (b : Pcb). record b {
      pid = pos sentinel_process;
      parent = sentinel_process;
      ss = ss;
      esp = esp;
    } in
    let bs = modify p.control_blocks sentinel_process sentinel in
    (
      record p {
        current_pid = sentinel_process;
        control_blocks = update_range 6 1 (λ b. record b { pid = minus_one }) bs;
      },
      sentinel_process,
    )

-- The loop of `clear_args` over one buffer: it stops at the first NUL.
unfoldable pub clear_loop : ℕ → List ℕ → List ℕ
clear_loop zero cs = cs
clear_loop (suc n) [] = []
clear_loop (suc n) (c ∷ cs) = if c == 0 then c ∷ cs else 0 ∷ clear_loop n cs

abbrev pub clear_block_args : Pcb → Pcb
clear_block_args b = record b { args = clear_loop args_buffer_size b.args }

unfoldable pub clear_args : Processes → Processes
clear_args p = modify_block p p.current_pid clear_block_args

-- The search loop of `create_new_pcb`, `n` rounds from `i`.
unfoldable pub find_free : ℕ → ℕ → List Pcb → Option ℕ
find_free zero i bs = none
find_free (suc n) i bs =
    let rest = find_free n (i + 1) bs in
    if eqb_ℤ (get_or bs i no_pcb).pid minus_one then some i else rest

-- What `create_new_pcb` writes to the block that it takes.
pub fresh_block : ℕ → ℕ → Pcb → Pcb
fresh_block new_pid parent b = record b {
  pid = pos new_pid;
  parent = parent;
  fd_table = close_table b.fd_table;
}

unfoldable pub create_new_pcb : ℕ → Processes → Processes × ℤ
create_new_pcb parent p = elim (find_free 6 1 p.control_blocks) [
  | none ↦ (p, minus_one)
  | some new_pid ↦
      let q = modify_block p new_pid (fresh_block new_pid parent) in
      (
        clear_args (record q { num_active_processes = q.num_active_processes +ℤ pos 1 }),
        pos new_pid,
      )
]

unfoldable pub load_pcb : ℕ → ℕ → ℕ → Processes → Processes
load_pcb pid ss esp p = modify_block p pid (λ b. record b { ss = ss; esp = esp })

unfoldable pub destroy_pcb : ℕ → Processes → Processes × ℤ
destroy_pcb pid p =
    let q = modify_block p pid (λ b. record b { pid = minus_one }) in
    (record q { num_active_processes = q.num_active_processes +ℤ minus_one }, pos 0)
