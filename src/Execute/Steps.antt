-- ===== src/Execute/Steps.antt =====
-- Programs that start, end, open, read and close in any order, with ticks of the timer between
-- (student-distrib/syscalls.c and student-distrib/interrupts.c).
use ece391linux_os.Prelude.{
  get_or, modify, ℕ, ◌<◌, ◌≡◌, refl, sym, ap, subst, ◌∙◌, Option, none, some, List, arith,
}
use native.Mathlib.Decide.{ℕ_discrete}
use ece391linux_os.Prelude.Int.{ℤ, pos, minus_one}
use ece391linux_os.Execute.{System, Locals, with_scheduler, denied, entered, execute, halt}
use ece391linux_os.Execute.Blocks.{switch-SameProcesses}
use ece391linux_os.Execute.Follows.{Denied, Follows, execute-Follows}
use ece391linux_os.Execute.Frames.{open_file-frame, close-frame}
use ece391linux_os.Execute.Slots.{
  modify-all, HasSlots, push_entry-HasSlots, pop_entry-HasSlots, IsSlottedIfAny,
  timer_handler-IsSlottedIfAny, modify-same,
}
use ece391linux_os.Execute.Started.{Entered}
use ece391linux_os.Filesystem.{DirEntry}
use ece391linux_os.Filesystem.Reading.{Outcome}
use ece391linux_os.Process.{Pcb, no_pcb, block, destroy_pcb}
use ece391linux_os.Process.Invariant.{WellFormed, destroy_pcb-WellFormed}
use ece391linux_os.Schedule.{
  no_context, no_stack, Scheduler, push_entry, pop_entry, deschedule, timer_handler,
}
use ece391linux_os.Syscalls.{Machine, returned, read, open_file, close}
use ece391linux_os.Syscalls.Keeps.{Keeps, open_file-Keeps, close-Keeps}
use ece391linux_os.Syscalls.Reads.{IsReadKept, read-Keeps}

-- What the calls and the timer keep.
pub record Sound (s : System) : Type 0 where
  pub table : WellFormed s.machine.processes
  pub terminal : s.machine.current_terminal < 7
  pub parents : (j : ℕ) → j < 7 → (block s.machine.processes j).parent < 7
  pub slots : (x : ℕ) → HasSlots (get_or s.scheduler.stacks x no_stack)

-- A tick of the timer, which sees the shared variables.
abbrev pub tick : ℕ → ℕ → System → Option System
tick rounds garbage s =
    let p = s.machine.processes in
    elim (timer_handler rounds garbage (record s.scheduler {
      current_pid = p.current_pid;
      current_terminal = s.machine.current_terminal;
      program_page = get_or s.paging.pages 32 0;
      video_page = get_or s.paging.tables 33 0;
    })) [ none ↦ none | some t ↦ some (with_scheduler (λ u. t) s) ]

abbrev pub on_machine : System → Machine → System
on_machine s m = record s { machine = m }

-- One step: a call of the current process, which is alive and not the sentinel where it halts, or
-- a tick.
pub data Step : System → System → Type 0 where
  starts :
      (s t : System) (l : Locals) (c : Option (List ℕ)) (entry : ℕ)
      → execute l c s ≡ entered t entry
      → Step s t
  fails : (s t : System) (l : Locals) (c : Option (List ℕ)) → execute l c s ≡ denied t → Step s t
  ends :
      (s : System)
      → 0 < s.machine.processes.current_pid
      → (block s.machine.processes s.machine.processes.current_pid).pid
        ≡ pos s.machine.processes.current_pid
      → Step s (halt s).0
  opens :
      (s : System) (garbage : ℕ) (unset : ℤ) (fname : Option (List ℕ))
      → Step s (on_machine s (open_file garbage unset fname s.machine).0)
  closes : (s : System) (fd : ℤ) → Step s (on_machine s (close fd s.machine).0)
  reads :
      (s : System) (fd : ℤ) (buf : Option (List ℕ)) (nbytes : ℤ) (dentry : DirEntry) (out : Outcome)
      → read fd buf nbytes dentry s.machine ≡ returned out
      → Step s (on_machine s (record s.machine { processes = out.state }))
  ticks_on : (s t : System) (rounds garbage : ℕ) → tick rounds garbage s ≡ some t → Step s t

-- Any number of steps.
pub data Reaches : System → System → Type 0 where
  stays : (s : System) → Reaches s s
  goes_on : (s t u : System) → Step s t → Reaches t u → Reaches s u

Keeps-Sound :
    (s t : System)
    → Keeps s.machine.processes t.machine.processes
    → t.scheduler ≡ s.scheduler
    → t.machine.current_terminal ≡ s.machine.current_terminal
    → Sound s
    → Sound t
Keeps-Sound s t k scheduler terminal w = record {
  table = k.well_formed;
  terminal = omega (arith, terminal, w.terminal);
  parents = λ j l.
      let same : (block t.machine.processes j).parent ≡ (block s.machine.processes j).parent =
        ap (λ (b : Pcb). b.parent) (k.rest j) in
      omega (arith, same, w.parents j l);
  slots = λ x i.
      let same : (get_or (get_or t.scheduler.stacks x no_stack).cells i no_context).pid
          ≡ (get_or (get_or s.scheduler.stacks x no_stack).cells i no_context).pid =
        ap (λ (c : Scheduler). (get_or (get_or c.stacks x no_stack).cells i no_context).pid)
          scheduler in
      omega (arith, same, w.slots x i);
}

Entered-Sound : (s t : System) (k : ℕ) → Entered s k t → Sound s → Sound t
Entered-Sound s t k e w = record {
  table = e.well_formed;
  terminal = omega (arith, e.terminal, w.terminal);
  parents = λ j l. elim (ℕ_discrete j k) [
    | yes p ↦
        let own : (block t.machine.processes j).parent ≡ s.machine.processes.current_pid =
          ap (λ n. (block t.machine.processes n).parent) p ∙ e.numbered.1 in
        omega (arith, own, w.table.current)
    | no ne ↦
        let same : (block t.machine.processes j).parent ≡ (block s.machine.processes j).parent =
          ap (λ (b : Pcb). b.parent) (e.others j l ne) in
        omega (arith, same, w.parents j l)
  ];
  slots = λ x.
      subst (λ ks. HasSlots (get_or ks x no_stack)) (sym e.stacks)
        (modify-all HasSlots (push_entry k) no_stack s.scheduler.stacks
          (λ z h. push_entry-HasSlots k z (omega (arith, e.slot)) h) w.slots
          s.machine.current_terminal x);
}

halt-Sound :
    (s : System)
    → 0 < s.machine.processes.current_pid
    → (block s.machine.processes s.machine.processes.current_pid).pid
      ≡ pos s.machine.processes.current_pid
    → Sound s
    → Sound (halt s).0
unfolding halt deschedule destroy_pcb
halt-Sound s lo alive w =
    let p = s.machine.processes in
    let c = p.current_pid in
    let past = record p { past_pid = c } in
    let past_well_formed : WellFormed past = record {
      blocks = w.table.blocks;
      current = w.table.current;
      sentinel = w.table.sentinel;
      counted = w.table.counted;
      shaped = w.table.shaped;
    } in
    let destroyed = destroy_pcb-WellFormed c past lo w.table.current alive past_well_formed in
    let back = w.parents c w.table.current in
    record {
      table =
          (switch-SameProcesses (destroy_pcb c past).0 (block p c).parent destroyed
            back).well_formed;
      terminal = w.terminal;
      parents = λ j l.
          let same : (get_or (modify p.control_blocks c (λ b. record b { pid = minus_one })) j
                no_pcb).parent
              ≡ (block p j).parent =
            modify-same (λ (b : Pcb). b.parent) (λ b. record b { pid = minus_one }) no_pcb
              p.control_blocks (λ b. refl) c j in
          omega (arith, same, w.parents j l);
      slots =
          modify-all HasSlots pop_entry no_stack s.scheduler.stacks pop_entry-HasSlots w.slots
            s.scheduler.current_process;
    }

-- Whatever a tick gives.
abbrev SoundIfAny : Option System → Type 0
SoundIfAny none = Unit
SoundIfAny (some t) = Sound t

tick-Sound : (rounds garbage : ℕ) (s : System) → Sound s → SoundIfAny (tick rounds garbage s)
tick-Sound rounds garbage s w =
    shared_by (timer_handler rounds garbage seen)
      (timer_handler-IsSlottedIfAny rounds garbage seen (w.table.current, w.slots))
  where
    seen : Scheduler
    seen = record s.scheduler {
      current_pid = s.machine.processes.current_pid;
      current_terminal = s.machine.current_terminal;
      program_page = get_or s.paging.pages 32 0;
      video_page = get_or s.paging.tables 33 0;
    }

    shared_by :
        (o : Option Scheduler)
        → IsSlottedIfAny o
        → SoundIfAny (elim o [ none ↦ none | some t ↦ some (with_scheduler (λ u. t) s) ])
    shared_by none h = tt
    shared_by (some t) h = record {
      table = (switch-SameProcesses s.machine.processes t.current_pid w.table h.0).well_formed;
      terminal = w.terminal;
      parents = w.parents;
      slots = h.1;
    }

Step-Sound : {s t : System} → Step s t → Sound s → Sound t
Step-Sound (starts s t l c entry eq) w =
    let (k, e) = subst (Follows s) eq (execute-Follows l c s w.table w.terminal) in
    Entered-Sound s t k e w
Step-Sound (fails s t l c eq) w =
    let d : Denied s t = subst (Follows s) eq (execute-Follows l c s w.table w.terminal) in
    Keeps-Sound s t d.processes d.scheduler d.terminal w
Step-Sound (ends s lo alive) w = halt-Sound s lo alive w
Step-Sound (opens s garbage unset fname) w =
    Keeps-Sound s (on_machine s (open_file garbage unset fname s.machine).0)
      (open_file-Keeps garbage unset fname s.machine w.table) refl
      (open_file-frame garbage unset fname s.machine).1 w
Step-Sound (closes s fd) w =
    Keeps-Sound s (on_machine s (close fd s.machine).0)
      (close-Keeps fd s.machine w.terminal w.table) refl (close-frame fd s.machine).1 w
Step-Sound (reads s fd buf nbytes dentry out eq) w =
    let kept : Keeps s.machine.processes out.state =
      subst (IsReadKept s.machine.processes) eq
        (read-Keeps fd buf nbytes dentry s.machine w.table) in
    Keeps-Sound s (on_machine s (record s.machine { processes = out.state })) kept refl refl w
Step-Sound (ticks_on s t rounds garbage eq) w = subst SoundIfAny eq (tick-Sound rounds garbage s w)

-- In whatever order programs start and fail to start, files are opened, read and closed, the timer
-- ticks, and current processes end that are alive and not the sentinel: from a sound state only
-- sound states are reached, in which the process table is well-formed, each block's parent is a
-- slot of the table, and so is each process on the terminals' stacks. A halt of a process whose
-- block is already free, and a call that does not come back, are not among these steps.
pub Reaches-Sound : {s t : System} → Reaches s t → Sound s → Sound t
Reaches-Sound (stays s) w = w
Reaches-Sound (goes_on s u t step rest) w = Reaches-Sound rest (Step-Sound step w)
