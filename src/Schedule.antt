-- ===== src/Schedule.antt =====
-- The scheduler: `schedule` and `deschedule` of student-distrib/syscalls.c, `timer_handler` and the
-- counters of student-distrib/interrupts.c. Each of the three terminals has a stack of processes
-- (`schedule_stack`, with `schedule_top` as its height) and a saved context for each of them.
-- A process table entry's address space is the number written to `process_pages[VIRTUAL_PROGRAM]`;
-- `video_page` is the page that the user's video memory maps to, `video_mem` the kernel's pointer
-- for output. `tss` is its `esp0` field, the one
-- that the kernel sets.
pub mod Stacks
pub mod Turns
pub mod Contexts
pub mod RoundRobin
pub mod Fairness
use ece391linux_os.Prelude.{
  get_or, modify, ◌==◌, if◌then◌else◌, ℕ, zero, suc, ◌+◌, ◌-◌, ◌*◌, ◌%◌, bit_or, Option, none, some,
  List, [],
}
use ece391linux_os.Prelude.Int.{ℤ, pos, negsuc, ◌+ℤ◌, ◌-ℤ◌, eqb_ℤ, minus_one}
use ece391linux_os.Paging.{video, video_1, user_present, program_entry}

abbrev pub num_terminals : ℕ
num_terminals = 3

-- One cell of `schedule_stack`, `schedule_esp`, `schedule_ebp` and `schedule_tss`.
pub record Context : Type 0 where
  pub pid : ℕ
  pub esp : ℕ
  pub ebp : ℕ
  pub tss : ℕ

abbrev pub no_context : Context
no_context = record { pid = 0; esp = 0; ebp = 0; tss = 0 }

-- `schedule_top[t]` and the seven cells of terminal `t`.
pub record Stack : Type 0 where
  pub top : ℤ
  pub cells : List Context

abbrev pub no_stack : Stack
no_stack = record { top = pos 0; cells = [] }

-- A read or write at an index before the array is left out.
abbrev pub get_at : List Context → ℤ → Context
get_at cs (pos i) = get_or cs i no_context
get_at cs (negsuc i) = no_context

abbrev pub modify_at : List Context → ℤ → (Context → Context) → List Context
modify_at cs (pos i) f = modify cs i f
modify_at cs (negsuc i) f = cs

pub record Scheduler : Type 0 where
  pub stacks : List Stack
  pub current_process : ℕ
  pub current_terminal : ℕ
  pub current_pid : ℕ
  pub terminal_request : ℤ
  pub schedule_tick : ℕ
  pub last_esp : ℕ
  pub last_ebp : ℕ
  pub esp0 : ℕ
  pub program_page : ℕ
  pub video_page : ℕ
  pub video_mem : ℕ

abbrev pub stack_of : Scheduler → ℕ → Stack
stack_of s t = get_or s.stacks t no_stack

abbrev pub top_of : Scheduler → ℕ → ℤ
top_of s t = (stack_of s t).top

-- The cell at `schedule_top[t] - 1`.
abbrev pub top_cell : Scheduler → ℕ → Context
top_cell s t = get_at (stack_of s t).cells (top_of s t -ℤ pos 1)

abbrev pub modify_top : (Context → Context) → Stack → Stack
modify_top f k = record k { cells = modify_at k.cells (k.top -ℤ pos 1) f }

abbrev pub on_stack : Scheduler → ℕ → (Stack → Stack) → Scheduler
on_stack s t f = record s { stacks = modify s.stacks t f }

-- The context fields of a new entry keep what the cell held.
unfoldable pub push_entry : ℕ → Stack → Stack
push_entry pid k = record k {
  top = k.top +ℤ pos 1;
  cells = modify_at k.cells k.top (λ c. record c { pid = pid });
}

unfoldable pub schedule : Scheduler → Scheduler
schedule s = on_stack s s.current_terminal (push_entry s.current_pid)

abbrev pub clear_entry : Context → Context
clear_entry c = record c { pid = 0; esp = 0; ebp = 0 }

unfoldable pub pop_entry : Stack → Stack
pop_entry k = record k {
  top = k.top -ℤ pos 1;
  cells = modify_at k.cells (k.top -ℤ pos 1) clear_entry;
}

unfoldable pub deschedule : Scheduler → Scheduler
deschedule s = on_stack s s.current_process pop_entry

-- The loop `while (schedule_top[next_process] == 0)` with fuel; `none` if it runs out.
unfoldable pub next_busy : ℕ → ℕ → Scheduler → Option ℕ
next_busy zero t s = none
next_busy (suc fuel) t s =
    let rest = next_busy fuel ((t + 1) % num_terminals) s in
    if eqb_ℤ (top_of s t) (pos 0) then rest else some t

-- A request for a terminal other than 0, 1 and 2 leaves `next_process` unset in the code: the
-- value it then has is the argument `garbage`. `rounds` is the fuel of the search.
unfoldable pub choose : ℕ → ℕ → Scheduler → Option ℕ
choose rounds garbage s =
    if eqb_ℤ s.terminal_request minus_one
    then next_busy rounds ((s.current_process + 1) % num_terminals) s
    else (if eqb_ℤ s.terminal_request (pos 0)
        then some 0
        else (if eqb_ℤ s.terminal_request (pos 1)
            then some 1
            else (if eqb_ℤ s.terminal_request (pos 2) then some 2 else some garbage)))

-- The stack pointer that a trap of process `pid` starts from: KERNEL_ADDR + (M_4 - 0xF) - 2 * K_4 * pid.
abbrev pub kernel_stack : ℕ → ℕ
kernel_stack pid = 0x400000 + (0x400000 - 0xf) - 2 * 0x4000 * pid

unfoldable pub save_context : Scheduler → Scheduler
save_context s =
    if eqb_ℤ (top_of s s.current_process) (pos 0)
    then s
    else on_stack s s.current_process
        (modify_top (λ c. record c { tss = s.esp0; esp = s.last_esp; ebp = s.last_ebp }))

-- VIDMAP, the page that the kernel writes to for the displayed terminal.
abbrev pub vidmap_page : ℕ
vidmap_page = 0x8421000

-- The new process runs only if it has been saved before (`schedule_ebp` is not 0). The directory
-- entry of VID_IDX, which the code writes again here, is the one that `execute` set.
unfoldable pub load_context : Scheduler → Scheduler
load_context s =
    let c = top_cell s s.current_process in
    let loaded = record s {
      current_pid = c.pid;
      last_esp = c.esp;
      last_ebp = c.ebp;
      program_page = program_entry c.pid;
      video_page =
          if s.current_process == s.current_terminal
          then bit_or video user_present
          else bit_or (video_1 + 0x1000 * s.current_process) user_present;
      video_mem =
          if s.current_process == s.current_terminal
          then vidmap_page
          else video_1 + 0x1000 * s.current_process;
      esp0 = kernel_stack c.pid;
    } in
    if eqb_ℤ (top_of s s.current_process) (pos 0) then s else (if c.ebp == 0 then s else loaded)

unfoldable pub flip_tick : Scheduler → Scheduler
flip_tick s = record s { schedule_tick = if s.schedule_tick == 0 then 1 else 0 }

-- `none` means that the search for a terminal with a process has not ended in `rounds` rounds.
unfoldable pub timer_handler : ℕ → ℕ → Scheduler → Option Scheduler
timer_handler rounds garbage s =
    let saved = save_context s in
    elim (choose rounds garbage saved) [
      | none ↦ none
      | some t ↦ some (
          flip_tick
            (load_context (record saved { current_process = t; terminal_request = minus_one })))
    ]
