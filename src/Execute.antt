-- ===== src/Execute.antt =====
-- Starting and ending processes: `execute` and `halt` of student-distrib/syscalls.c. The moves of
-- the stack pointer and the jump to the user's program are assembly; the model gives the state in
-- which they happen and the entry point that is jumped to.
pub mod Command
pub mod Frames
pub mod Follows
pub mod Blocks
pub mod Started
pub mod Return
pub mod Slots
pub mod Steps
use ece391linux_os.Prelude.{
  get_or, set, take, drop, replicate, modify, ltb, ◌==◌, if◌then◌else◌, ℕ, zero, suc, ◌+◌, ◌*◌, ◌^◌,
  Bool, not, ◌&&◌, ◌||◌, Option, none, some, List, [], ◌∷◌,
}
use ece391linux_os.Prelude.Int.{ℤ, pos, negsuc, ltb_ℤ, eqb_ℤ, minus_one}
use ece391linux_os.Filesystem.{DirEntry}
use ece391linux_os.Filesystem.Reading.{Outcome}
use ece391linux_os.History.{History, clear_history_buffer}
use ece391linux_os.Line.{Line, clear_line}
use ece391linux_os.Paging.{Paging, program_entry, map_process}
use ece391linux_os.Process.{
  Processes, block, modify_block, clear_args, create_new_pcb, load_pcb, destroy_pcb,
}
use ece391linux_os.Schedule.{Scheduler, schedule, deschedule, kernel_stack, vidmap_page}
use ece391linux_os.Syscalls.{Machine, returned, waits, endless, read, open_file, close}
use ece391linux_os.Text.{first, strlen, strncmp, strncpy}

-- The machine with the scheduler, the paging structures, the displayed terminal's line, the
-- histories of the processes, `terminal_running`, `shell_pid`, and the program's memory from
-- VIRTUAL_START. The scheduler's copies of `current_pid`, of `current_terminal` and of the two
-- page entries are those of the other fields; `with_scheduler` keeps them so.
pub record System : Type 0 where
  pub machine : Machine
  pub scheduler : Scheduler
  pub paging : Paging
  pub line : Line
  pub histories : List History
  pub terminal_running : List ℕ
  pub shell_pid : List ℤ
  pub memory : List ℕ

-- What registers and locals hold that the code reads before it sets them: the stack pointer, the
-- directory entry and the position in the drivers, `ret` of `open`, and the file buffer.
pub record Locals : Type 0 where
  pub esp : ℕ
  pub dentry : DirEntry
  pub position : ℕ
  pub unset : ℤ
  pub buf : List ℕ

-- A call of the scheduler on the shared variables.
abbrev pub with_scheduler : (Scheduler → Scheduler) → System → System
with_scheduler f s =
    let p = s.machine.processes in
    let t = f (record s.scheduler {
      current_pid = p.current_pid;
      current_terminal = s.machine.current_terminal;
      program_page = get_or s.paging.pages 32 0;
      video_page = get_or s.paging.tables 33 0;
    }) in
    record s {
      scheduler = t;
      machine = record s.machine { processes = record p { current_pid = t.current_pid } };
      paging = record s.paging {
        pages = set s.paging.pages 32 t.program_page;
        tables = set s.paging.tables 33 t.video_page;
      };
    }

abbrev pub exec_buffer_size : ℕ
exec_buffer_size = 128

-- The loop that copies the command up to a space or NUL, at most `n` rounds from `i`.
unfoldable pub copy_command : ℕ → ℕ → List ℕ → List ℕ → List ℕ × ℕ
copy_command zero i command cmd = (cmd, i)
copy_command (suc n) i command cmd =
    let c = get_or command i 0 in
    let rest = copy_command n (i + 1) command (set cmd i c) in
    if c == b' ' || c == 0 then (cmd, i) else rest

-- The name of the program as a string, and the index behind it in the command.
unfoldable pub parse_command : List ℕ → List ℕ × ℕ
parse_command command =
    let (cmd, i) = copy_command exec_buffer_size 0 command (replicate exec_buffer_size 0) in
    (set cmd i 0, i)

-- The loop over the spaces in front of the arguments.
unfoldable pub skip_spaces : ℕ → ℕ → List ℕ → ℕ
skip_spaces zero i command = i
skip_spaces (suc n) i command =
    let rest = skip_spaces n (i + 1) command in if get_or command i 0 == b' ' then rest else i

-- The arguments of the command, into the block of the current process.
unfoldable pub pass_args : List ℕ → ℕ → Processes → Processes
pass_args command i p =
    let rest = drop (skip_spaces exec_buffer_size i command) command in
    if first rest == 0
    then clear_args p
    else modify_block p p.current_pid (λ b. record b { args = strncpy b.args rest (strlen rest) })

-- `memcpy` of four bytes into an integer.
abbrev pub le32_at : ℕ → List ℕ → ℕ
le32_at k buf =
    get_or buf k 0
    + 2 ^ 8 * get_or buf (k + 1) 0
    + 2 ^ 16 * get_or buf (k + 2) 0
    + 2 ^ 24 * get_or buf (k + 3) 0

abbrev pub magic_lead : ℕ
magic_lead = 0x464c457f

abbrev pub shell : List ℕ
shell = b's' ∷ b'h' ∷ b'e' ∷ b'l' ∷ b'l' ∷ []

abbrev pub is_shell : List ℕ → Bool
is_shell cmd = eqb_ℤ (pos 0) (strncmp cmd shell (strlen shell)) && (strlen cmd == strlen shell)

-- What follows `create_new_pcb`, which gave `new_pid` and left the table `p`: the new process
-- becomes the current one, with its arguments, its pages, an empty line and an empty history, the
-- program in its memory, and its place on the stack of the displayed terminal.
unfoldable pub start_process :
    Locals → List ℕ → List ℕ → ℕ → List ℕ → ℕ → Processes → System → System
start_process l command cmd i buf new_pid p s =
    let t = s.machine.current_terminal in
    let current = record (modify_block p new_pid (λ b. record b { stack_pos = l.esp })) {
      current_pid = new_pid;
    } in
    let loaded = load_pcb new_pid 0x18 (kernel_stack new_pid) current in
    with_scheduler schedule (record s {
      machine = record s.machine { processes = pass_args command i loaded };
      scheduler = record s.scheduler { esp0 = kernel_stack new_pid; video_mem = vidmap_page };
      paging = map_process new_pid s.paging;
      line = clear_line s.line;
      histories = modify s.histories new_pid clear_history_buffer;
      terminal_running = modify s.terminal_running t (λ r. if r == 0 then 1 else r);
      shell_pid = if is_shell cmd then set s.shell_pid t (pos new_pid) else s.shell_pid;
      memory = take 10000 buf;
    })

-- How a call of `execute` goes on: it returns -1; it enters the program at an address; it waits
-- for the clock, whose file it opened as the program; it never comes back from the listing of a
-- directory; or it goes on with the process number -1.
pub data Execution : Type 0 where
  denied : System → Execution
  entered : System → ℕ → Execution
  waiting : Execution
  listing : Execution
  lost : Execution

-- Behind the read of the file `fd`, which gave `out`.
unfoldable pub run_image : Locals → List ℕ → List ℕ → ℕ → ℤ → Outcome → System → Execution
run_image l command cmd i fd out s =
    let m = (close fd (record s.machine { processes = out.state })).0 in
    let closed = record s { machine = m } in
    let (p, new_pid) = create_new_pcb m.processes.current_pid m.processes in
    if not (le32_at 0 out.buf == magic_lead) then denied closed else elim new_pid [
      | pos k ↦ entered (start_process l command cmd i out.buf k p closed) (le32_at 24 out.buf)
      | negsuc k ↦ lost
    ]

unfoldable pub execute : Locals → Option (List ℕ) → System → Execution
execute l none s = denied s
execute l (some command) s =
    let (cmd, i) = parse_command command in
    let (m, fd) = open_file l.position l.unset (some cmd) s.machine in
    let opened = record s { machine = m } in
    if not (ltb_ℤ s.machine.processes.num_active_processes (pos 6))
    then denied s
    else (if not (ltb (strlen command) exec_buffer_size)
        then denied s
        else (if eqb_ℤ fd minus_one
            then denied opened
            else elim (read fd (some l.buf) (pos 10000) l.dentry m) [
              | returned out ↦ run_image l command cmd i fd out opened
              | waits ↦ waiting
              | endless ↦ listing
            ]))

-- `halt` up to its jump, and what `execute` does behind the label it jumps to, where the parent
-- takes over: the state there, the stack pointer, and whether the shell is executed again. The value returned to the
-- parent is the status.
unfoldable pub halt : System → System × ℕ × Bool
halt s =
    let p = s.machine.processes in
    let parent = (block p p.current_pid).parent in
    let destroyed = (destroy_pcb p.current_pid (record p { past_pid = p.current_pid })).0 in
    let back = with_scheduler deschedule (record s {
      machine = record s.machine { processes = record destroyed { current_pid = parent } };
      scheduler = record s.scheduler { esp0 = (block destroyed parent).esp };
      paging = record s.paging { pages = set s.paging.pages 32 (program_entry parent) };
    }) in
    (back, (block destroyed p.current_pid).stack_pos, parent == 0)
