-- ===== src/Examples/Programs.antt =====
-- The theorems about starting and ending programs on one process, whose terminal is not the
-- displayed one (student-distrib/syscalls.c).
use ece391linux_os.Prelude.{
  List, Option, ◌++◌, false, ◌*◌, ◌^◌, length, get_or, replicate, length-replicate,
  get_or-replicate, ◌==◌, ℕ, zero, suc, ◌+◌, ◌<◌, ◌≡◌, refl, sym, subst, ap, ◌∙◌, ◌⊎◌, inl, inr,
  true, none, some, [], ◌∷◌, arith,
}
use ece391linux_os.Prelude.Int.{pos, minus_one}
use ece391linux_os.Examples.Data.{idle, dot, image, idle-WellFormed, page, line_ab, name_ab}
use ece391linux_os.Execute.{
  System, Locals, exec_buffer_size, parse_command, copy_command, run_image, Execution, waiting,
  listing, lost, entered, start_process, denied, execute, halt,
}
use ece391linux_os.Execute.Command.{word, parse_command_lem}
use ece391linux_os.Execute.Follows.{Follows, execute-Follows}
use ece391linux_os.Execute.Return.{Returned, halt-Returned, halt-other_terminal}
use ece391linux_os.Execute.Slots.{HasSlots}
use ece391linux_os.Execute.Started.{Entered, start_process-Entered}
use ece391linux_os.Execute.Steps.{
  tick, Sound, ticks_on, starts, ends, Reaches, stays, goes_on, Reaches-Sound,
}
use ece391linux_os.Filesystem.{read_dentry_by_name, find_entry, file_open, find_slot, file_close}
use ece391linux_os.Filesystem.Reading.{file_read, read_data, read_loop}
use ece391linux_os.Paging.{Paging, map_process}
use ece391linux_os.Paging.Isolation.{
  page_of, is_large, IsVideo, is_present, frame_of, map_process-isolates,
}
use ece391linux_os.Process.{find_free, block, create_new_pcb}
use ece391linux_os.Process.Count.{is_free}
use ece391linux_os.Process.Create.{create_new_pcb_lem}
use ece391linux_os.Process.Invariant.{create_new_pcb-WellFormed}
use ece391linux_os.Rtc.{Clock}
use ece391linux_os.Schedule.{
  timer_handler, choose, next_busy, save_context, load_context, flip_tick, Context, no_context,
  Stack, no_stack, stack_of, pop_entry, top_of, top_cell,
}
use ece391linux_os.Syscalls.{read, open_file, close}
use ece391linux_os.Text.{strncmp, strlen, text}

abbrev empty_stack : Stack
empty_stack = record { top = pos 0; cells = replicate 7 no_context }

abbrev one_process : Stack
one_process = record {
  top = pos 1;
  cells = record { pid = 1; esp = 0; ebp = 0; tss = 0 } ∷ replicate 6 no_context;
}

abbrev paging : Paging
paging = record { pages = replicate 1024 2; tables = replicate 1024 2; tables_at = 0x9000 }

abbrev clock_off : Clock
clock_off = record {
  ports = [];
  existing = 0;
  rtc_running = [];
  rtc_virtual_interupt = [];
  current_process = 0;
}

-- Process 1 runs on terminal 0 while terminal 1 is displayed.
abbrev away : System
away = record {
  machine = record {
    image = image;
    processes = idle;
    screen = page;
    clock = clock_off;
    current_terminal = 1;
  };
  scheduler = record {
    stacks = one_process ∷ empty_stack ∷ empty_stack ∷ [];
    current_process = 0;
    current_terminal = 1;
    current_pid = 1;
    terminal_request = minus_one;
    schedule_tick = 0;
    last_esp = 0;
    last_ebp = 0;
    esp0 = 0;
    program_page = 0;
    video_page = 0;
    video_mem = 0;
  };
  paging = paging;
  line = line_ab;
  histories = [];
  terminal_running = 1 ∷ 1 ∷ 0 ∷ [];
  shell_pid = [];
  memory = [];
}

abbrev locals : Locals
locals = record { esp = 0; dentry = dot; position = 0; unset = pos 0; buf = replicate 40 0 }

parse_command_example :
    (text exec_buffer_size (parse_command (97 ∷ 98 ∷ b' ' ∷ 99 ∷ [])).0
      ≡ word (97 ∷ 98 ∷ b' ' ∷ 99 ∷ []))
    × ((parse_command (97 ∷ 98 ∷ b' ' ∷ 99 ∷ [])).1 ≡ length (word (97 ∷ 98 ∷ b' ' ∷ 99 ∷ [])))
unfolding strlen
parse_command_example = parse_command_lem (97 ∷ 98 ∷ b' ' ∷ 99 ∷ []) short
  where
    short : strlen (97 ∷ 98 ∷ b' ' ∷ 99 ∷ []) < exec_buffer_size
    short = omega arith

abbrev run : ℕ → System
run k = start_process locals name_ab name_ab 2 [] k (create_new_pcb 1 idle).0 away

-- Some slot is free, and the program is started in it.
in_slot : (k : ℕ) × Entered away k (run k)
in_slot = elim (create_new_pcb_lem 1 idle idle-WellFormed) [
  | inl full ↦ absurd (ground (arith, full.1 2 (omega arith) (omega arith)))
  | inr made ↦ (
    made.0,
    start_process-Entered locals name_ab name_ab 2 [] made.0 (create_new_pcb 1 idle).0 away
        (create_new_pcb-WellFormed 1 idle idle-WellFormed) made.2,
  )
]

halt-Returned_example :
    Returned away (run in_slot.0) in_slot.0 (halt (run in_slot.0)).0
    × ((halt (run in_slot.0)).2 ≡ (idle.current_pid == 0))
halt-Returned_example = halt-Returned away (run in_slot.0) in_slot.0 idle-WellFormed in_slot.1

halt-other_terminal_example :
    (top_of (halt (run in_slot.0)).0.scheduler 1 ≡ pos (0 + 1))
    × ((top_cell (halt (run in_slot.0)).0.scheduler 1).pid ≡ in_slot.0)
    × (is_free (block (halt (run in_slot.0)).0.machine.processes in_slot.0) ≡ true)
    × (stack_of (halt (run in_slot.0)).0.scheduler 0 ≡ pop_entry one_process)
halt-other_terminal_example =
    halt-other_terminal away (run in_slot.0) in_slot.0 0 idle-WellFormed in_slot.1 (omega arith)
      (omega arith) (omega arith) refl (omega arith)

map_process-isolates_example :
    let pages = (map_process 2 paging).pages in
    ((i : ℕ)
      → i < 1024
      → is_present (get_or pages i 0) ≡ true
      → (i ≡ 0) ⊎ ((i ≡ 1) ⊎ ((i ≡ 32) ⊎ (i ≡ 33))))
    × ((is_large (get_or pages 0 0) ≡ false) × (page_of (get_or pages 0 0) * 2 ^ 12 ≡ 0x9000))
    × ((is_large (get_or pages 33 0) ≡ false) × (page_of (get_or pages 33 0) * 2 ^ 12 ≡ 0x9000))
    × ((i : ℕ) → i < 1024 → IsVideo (get_or (map_process 2 paging).tables i 0))
    × ((is_large (get_or pages 1 0) ≡ true) × (frame_of (get_or pages 1 0) ≡ 1))
    × ((is_large (get_or pages 32 0) ≡ true) × (is_present (get_or pages 32 0) ≡ true))
    × (frame_of (get_or pages 32 0) ≡ 2 + 1)
    × ((other : ℕ) (h : Paging)
        → length h.pages ≡ 1024
        → other < 7
        → frame_of (get_or (map_process other h).pages 32 0) ≡ frame_of (get_or pages 32 0)
        → other ≡ 2)
map_process-isolates_example =
    map_process-isolates 2 paging (length-replicate {A = ℕ} 1024 2)
      (length-replicate {A = ℕ} 1024 2) (omega arith) (omega arith) (omega arith)

-- The file "ab" holds a program of 40 bytes, whose entry is 0x08048000.
abbrev program : List ℕ
program = 0x7f ∷ 0x45 ∷ 0x4c ∷ 0x46 ∷ (replicate 20 0 ++ (0 ∷ 0x80 ∷ 0x04 ∷ 0x08 ∷ replicate 12 0))

abbrev armed : System
armed = record away {
  machine = record away.machine {
    image = record image {
      node_list =
          replicate 5 (record { b_length = 0; data_blocks = [] })
          ++ (record { b_length = 40; data_blocks = 1 ∷ [] } ∷ []);
      data_list = [] ∷ program ∷ [];
    };
  };
}

armed-Sound : Sound armed
armed-Sound = record {
  table = idle-WellFormed;
  terminal = omega arith;
  parents = parents;
  slots = slots;
}
  where
    parents : (j : ℕ) → j < 7 → (block armed.machine.processes j).parent < 7
    parents zero h = omega arith
    parents (suc zero) h = omega arith
    parents (suc (suc zero)) h = omega arith
    parents (suc (suc (suc zero))) h = omega arith
    parents (suc (suc (suc (suc zero)))) h = omega arith
    parents (suc (suc (suc (suc (suc zero))))) h = omega arith
    parents (suc (suc (suc (suc (suc (suc zero)))))) h = omega arith
    parents (suc (suc (suc (suc (suc (suc (suc j))))))) h = absurd (omega arith)

    empty-HasSlots : HasSlots empty_stack
    empty-HasSlots i =
        subst (λ (c : Context). c.pid < 7) (sym (get_or-replicate {A = Context} 7 i no_context))
          (omega arith)

    slots : (x : ℕ) → HasSlots (get_or armed.scheduler.stacks x no_stack)
    slots zero zero = omega arith
    slots zero (suc i) =
        subst (λ (c : Context). c.pid < 7) (sym (get_or-replicate {A = Context} 6 i no_context))
          (omega arith)
    slots (suc zero) i = empty-HasSlots i
    slots (suc (suc zero)) i = empty-HasSlots i
    slots (suc (suc (suc x))) i = omega arith

abbrev state_of : Execution → System
state_of (entered t entry) = t
state_of (denied t) = t
state_of waiting = away
state_of listing = away
state_of lost = away

abbrev state_if : Option System → System
state_if (some t) = t
state_if none = away

abbrev ticked : System
ticked = state_if (tick 3 0 armed)

armed_ticks : tick 3 0 armed ≡ some ticked
unfolding timer_handler choose next_busy save_context load_context flip_tick
armed_ticks = refl

abbrev entering : System
entering = state_of (execute locals (some name_ab) ticked)

begun : execute locals (some name_ab) ticked ≡ entered entering 0x08048000
unfolding timer_handler choose next_busy save_context load_context flip_tick execute run_image
    parse_command copy_command open_file close read read_dentry_by_name find_entry strlen strncmp
    file_open find_slot file_read read_data read_loop file_close create_new_pcb find_free
begun = refl

program_runs : (n : ℕ) × Entered ticked n entering
program_runs =
    let sound =
      Reaches-Sound
        (goes_on armed ticked ticked (ticks_on armed ticked 3 0 armed_ticks) (stays ticked))
        armed-Sound in
    subst (Follows ticked) begun
      (execute-Follows locals (some name_ab) ticked sound.table sound.terminal)

is_alive :
    (0 < entering.machine.processes.current_pid)
    × ((block entering.machine.processes entering.machine.processes.current_pid).pid
        ≡ pos entering.machine.processes.current_pid)
is_alive =
    let (n, e) = program_runs in
    (
      omega (arith, e.current, e.slot),
      ap (λ m. (block entering.machine.processes m).pid) e.current
          ∙ e.numbered.0
          ∙ ap pos (sym e.current),
    )

-- The timer ticks, a program starts, and it ends.
three_steps : Reaches armed (halt entering).0
three_steps = goes_on armed ticked (halt entering).0 (ticks_on armed ticked 3 0 armed_ticks) (
    goes_on ticked entering (halt entering).0
      (starts ticked entering locals (some name_ab) 0x08048000 begun)
      (goes_on entering (halt entering).0 (halt entering).0 (ends entering is_alive.0 is_alive.1)
        (stays (halt entering).0)))

Reaches-Sound_example : Sound (halt entering).0
Reaches-Sound_example = Reaches-Sound three_steps armed-Sound

execute-Follows_example : Follows armed (execute locals (some name_ab) armed)
execute-Follows_example = execute-Follows locals (some name_ab) armed idle-WellFormed (omega arith)
