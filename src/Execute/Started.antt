-- ===== src/Execute/Started.antt =====
-- The state in which a program starts (`execute` of student-distrib/syscalls.c).
use ece391linux_os.Prelude.{
  sym, [], Bool-cases, inl, inr, get_or-set_ne, get_or-modify_ne, ◌==◌, if◌then◌else◌, get_or,
  modify, ℕ, ◌≤◌, ◌<◌, ◌≡◌, refl, ap, ◌∙◌, ◌≢◌, true, List, arith,
}
use ece391linux_os.Prelude.Int.{minus_one, ℤ, pos, ◌+ℤ◌}
use ece391linux_os.Execute.{is_shell, System, Locals, pass_args, start_process}
use ece391linux_os.Execute.Blocks.{
  SameProcesses, SameProcesses-trans, switch-SameProcesses, stack_pos-SameProcesses,
  load_pcb-SameProcesses, load_pcb-others, pass_args-others, pass_args-SameProcesses,
  pass_args-current,
}
use ece391linux_os.Process.{Pcb, no_pcb, FdBlock, Processes, no_fd, block, modify_block, load_pcb}
use ece391linux_os.Process.Count.{is_free}
use ece391linux_os.Process.Create.{IsClosed, Created}
use ece391linux_os.Process.Invariant.{WellFormed}
use ece391linux_os.Schedule.{push_entry, schedule, kernel_stack}

-- A block without its descriptors and arguments.
abbrev pub kept_of : Pcb → Pcb
kept_of b = record b { fd_table = []; args = [] }

-- A terminal that was not running runs.
abbrev pub starts_running : ℕ → ℕ
starts_running r = if r == 0 then 1 else r

-- The system in which process `k` has been started from `s`.
pub record Entered (s : System) (k : ℕ) (t : System) : Type 0 where
  pub well_formed : WellFormed t.machine.processes
  pub slot : (1 ≤ k) × (k ≤ 6)
  pub was_free : is_free (block s.machine.processes k) ≡ true
  pub current : t.machine.processes.current_pid ≡ k
  pub count :
      t.machine.processes.num_active_processes ≡ s.machine.processes.num_active_processes +ℤ pos 1
  pub numbered :
      ((block t.machine.processes k).pid ≡ pos k)
      × ((block t.machine.processes k).parent ≡ s.machine.processes.current_pid)
  pub closed :
      (fd : ℕ) → 2 ≤ fd → fd < 8 → IsClosed (get_or (block t.machine.processes k).fd_table fd no_fd)
  pub others :
      (j : ℕ)
      → j < 7
      → j ≢ k
      → kept_of (block t.machine.processes j) ≡ kept_of (block s.machine.processes j)
  pub stacks :
      t.scheduler.stacks ≡ modify s.scheduler.stacks s.machine.current_terminal (push_entry k)
  pub turn : t.scheduler.current_process ≡ s.scheduler.current_process
  pub terminal : t.machine.current_terminal ≡ s.machine.current_terminal
  pub screen : t.machine.screen ≡ s.machine.screen
  pub image : t.machine.image ≡ s.machine.image
  pub running :
      t.terminal_running ≡ modify s.terminal_running s.machine.current_terminal starts_running
  pub shells :
      (x : ℕ)
      → x ≢ s.machine.current_terminal
      → get_or t.shell_pid x minus_one ≡ get_or s.shell_pid x minus_one

pub start_process-Entered :
    (l : Locals) (command cmd : List ℕ) (i : ℕ) (buf : List ℕ) (k : ℕ) (p : Processes) (s : System)
    → WellFormed p
    → Created s.machine.processes.current_pid s.machine.processes k p
    → Entered s k (start_process l command cmd i buf k p s)
unfolding start_process schedule load_pcb
start_process-Entered l command cmd i buf k p s w c =
    let h : k < 7 = omega (arith, c.in_range) in
    let stacked = stack_pos-SameProcesses p k l.esp w h in
    let switched =
      switch-SameProcesses (modify_block p k (λ b. record b { stack_pos = l.esp })) k
        stacked.well_formed h in
    let loaded =
      load_pcb-SameProcesses k 0x18 (kernel_stack k) (current_one) switched.well_formed h in
    let passed =
      pass_args-SameProcesses command i (load_pcb k 0x18 (kernel_stack k) current_one)
        loaded.well_formed in
    let all : SameProcesses p (pass_args command i (load_pcb k 0x18 (kernel_stack k) current_one)) =
      SameProcesses-trans stacked
        (SameProcesses-trans switched (SameProcesses-trans loaded passed)) in
    let own = all.identities k in
    record {
      well_formed = all.well_formed;
      slot = c.in_range;
      was_free = c.was_free;
      current = now;
      count = all.count ∙ c.count;
      numbered = (
        ap (λ (r : ℤ × ℕ × List FdBlock). r.0) own ∙ c.numbered.0,
        ap (λ (r : ℤ × ℕ × List FdBlock). r.1) own ∙ c.numbered.1,
      );
      closed = λ fd lo hi.
          let fds = ap (λ (r : ℤ × ℕ × List FdBlock). r.2) own in rw fds (c.closed fd lo hi);
      others = λ j lt ne. ap kept_of (untouched j (λ e. ne (sym e))) ∙ ap kept_of (c.rest j lt ne);
      stacks = ap (λ n. modify s.scheduler.stacks s.machine.current_terminal (push_entry n)) now;
      turn = refl;
      terminal = refl;
      screen = refl;
      image = refl;
      running = refl;
      shells = λ x ne. elim (Bool-cases (is_shell cmd)) [
        | inl e ↦ rw e (
            get_or-set_ne s.shell_pid s.machine.current_terminal x (pos k) minus_one
              (λ q. ne (sym q)))
        | inr e ↦ rw e refl
      ];
    }
  where
    current_one : Processes
    current_one = record (modify_block p k (λ b. record b { stack_pos = l.esp })) {
      current_pid = k;
    }

    now : (pass_args command i (load_pcb k 0x18 (kernel_stack k) current_one)).current_pid ≡ k
    now = pass_args-current command i (load_pcb k 0x18 (kernel_stack k) current_one)

    untouched :
        (j : ℕ)
        → k ≢ j
        → block (pass_args command i (load_pcb k 0x18 (kernel_stack k) current_one)) j ≡ block p j
    untouched j ne =
        pass_args-others command i (load_pcb k 0x18 (kernel_stack k) current_one) j ne
        ∙ load_pcb-others k 0x18 (kernel_stack k) current_one j ne
        ∙ get_or-modify_ne p.control_blocks k j (λ b. record b { stack_pos = l.esp }) no_pcb ne
