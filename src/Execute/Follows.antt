-- ===== src/Execute/Follows.antt =====
-- Every way in which a call of `execute` can end (student-distrib/syscalls.c).
use ece391linux_os.Prelude.{
  get_or, modify, ltb, ◌==◌, Bool-cases, ℕ, ◌<◌, ◌≡◌, refl, sym, ap, ◌∙◌, ◌≢◌, inl, inr, true,
  Option, none, some, List, arith,
}
use ece391linux_os.Prelude.Int.{ℤ, pos, ◌+ℤ◌, ltb_ℤ, eqb_ℤ, minus_one}
use ece391linux_os.Execute.{
  System, Locals, exec_buffer_size, parse_command, le32_at, magic_lead, Execution, denied, entered,
  waiting, listing, lost, run_image, execute,
}
use ece391linux_os.Execute.Frames.{open_file-frame, close-frame, num_active-pos}
use ece391linux_os.Execute.Started.{kept_of, starts_running, Entered, start_process-Entered}
use ece391linux_os.Filesystem.Reading.{Outcome}
use ece391linux_os.Process.{Pcb, Processes, block, create_new_pcb}
use ece391linux_os.Process.Create.{create_new_pcb_lem, create_new_pcb-succeeds}
use ece391linux_os.Process.Invariant.{WellFormed, create_new_pcb-WellFormed}
use ece391linux_os.Schedule.{Scheduler, push_entry}
use ece391linux_os.Syscalls.{Machine, Reading, returned, waits, endless, read, open_file, close}
use ece391linux_os.Syscalls.Keeps.{Keeps, Keeps-refl, Keeps-trans, open_file-Keeps, close-Keeps}
use ece391linux_os.Syscalls.Reads.{IsReadKept, read-Keeps}
use ece391linux_os.Text.{strlen}

-- What a refused call has left: only descriptors and the clock can have changed.
pub record Denied (s t : System) : Type 0 where
  pub processes : Keeps s.machine.processes t.machine.processes
  pub scheduler : t.scheduler ≡ s.scheduler
  pub paging : t.paging ≡ s.paging
  pub line : t.line ≡ s.line
  pub histories : t.histories ≡ s.histories
  pub memory : t.memory ≡ s.memory
  pub screen : t.machine.screen ≡ s.machine.screen
  pub terminal : t.machine.current_terminal ≡ s.machine.current_terminal
  pub image : t.machine.image ≡ s.machine.image
  pub running : t.terminal_running ≡ s.terminal_running
  pub shells : t.shell_pid ≡ s.shell_pid

abbrev pub Follows : System → Execution → Type 0
Follows s (denied t) = Denied s t
Follows s (entered t entry) = (k : ℕ) × Entered s k t
Follows s waiting = Unit
Follows s listing = Unit
Follows s lost = ⊥

Keeps-Entered : (s u t : System) (k : ℕ) → Denied s u → Entered u k t → Entered s k t
Keeps-Entered s u t k d e =
    let pid_of : (j : ℕ) → (block u.machine.processes j).pid ≡ (block s.machine.processes j).pid =
      λ j. ap (λ (b : Pcb). b.pid) (d.processes.rest j) in
    record {
      well_formed = e.well_formed;
      slot = e.slot;
      was_free = ap (λ n. eqb_ℤ n minus_one) (sym (pid_of k)) ∙ e.was_free;
      current = e.current;
      count = e.count ∙ ap (λ n. n +ℤ pos 1) d.processes.count;
      numbered = (e.numbered.0, e.numbered.1 ∙ d.processes.current);
      closed = e.closed;
      others = λ j lt ne. e.others j lt ne ∙ ap kept_of (d.processes.rest j);
      stacks = e.stacks ∙ λ i. modify (d.scheduler i).stacks (d.terminal i) (push_entry k);
      turn = e.turn ∙ ap (λ (c : Scheduler). c.current_process) d.scheduler;
      terminal = e.terminal ∙ d.terminal;
      screen = e.screen ∙ d.screen;
      image = e.image ∙ d.image;
      running = e.running ∙ λ i. modify (d.running i) (d.terminal i) starts_running;
      shells =
          λ x ne. e.shells x (λ q. ne (q ∙ d.terminal)) ∙ ap (λ xs. get_or xs x minus_one) d.shells;
    }

Denied-refl : (s : System) → WellFormed s.machine.processes → Denied s s
Denied-refl s w = record {
  processes = Keeps-refl s.machine.processes w;
  scheduler = refl;
  paging = refl;
  line = refl;
  histories = refl;
  memory = refl;
  screen = refl;
  terminal = refl;
  image = refl;
  running = refl;
  shells = refl;
}

Denied-trans : {s t u : System} → Denied s t → Denied t u → Denied s u
Denied-trans a b = record {
  processes = Keeps-trans a.processes b.processes;
  scheduler = b.scheduler ∙ a.scheduler;
  paging = b.paging ∙ a.paging;
  line = b.line ∙ a.line;
  histories = b.histories ∙ a.histories;
  memory = b.memory ∙ a.memory;
  screen = b.screen ∙ a.screen;
  terminal = b.terminal ∙ a.terminal;
  image = b.image ∙ a.image;
  running = b.running ∙ a.running;
  shells = b.shells ∙ a.shells;
}

run_image-Follows :
    (l : Locals) (command cmd : List ℕ) (i : ℕ) (fd : ℤ) (out : Outcome) (s : System)
    → Keeps s.machine.processes out.state
    → ltb_ℤ s.machine.processes.num_active_processes (pos 6) ≡ true
    → s.machine.current_terminal < 7
    → Follows s (run_image l command cmd i fd out s)
unfolding run_image
run_image-Follows l command cmd i fd out s kept few low =
    let p = m.processes in
    elim (Bool-cases (le32_at 0 out.buf == magic_lead)) [
      | inr e ↦ rw e unchanged
      | inl e ↦ elim (create_new_pcb_lem p.current_pid p w) [
        | inl (fails, full) ↦
            let (n, is) = num_active-pos p w in
            let small : n < 6 = ground (arith, few', is) in
            let (k, gives, lo, hi) = create_new_pcb-succeeds p.current_pid n p w is small in
            absurd (not_minus_one k (sym (ap (λ (r : Processes × ℤ). r.1) fails) ∙ gives))
        | inr (k, gives, c) ↦
            rw (e, gives)
              (
                k,
                Keeps-Entered s closed_one _ k unchanged (
                    start_process-Entered l command cmd i out.buf k
                      (create_new_pcb p.current_pid p).0 closed_one
                      (create_new_pcb-WellFormed p.current_pid p w) c),
              )
      ]
    ]
  where
    m : Machine
    m = (close fd (record s.machine { processes = out.state })).0

    closed_one : System
    closed_one = record s { machine = m }

    kept_all : Keeps s.machine.processes m.processes
    kept_all =
        Keeps-trans kept
          (close-Keeps fd (record s.machine { processes = out.state }) low kept.well_formed)

    w : WellFormed m.processes
    w = kept_all.well_formed

    few' : ltb_ℤ m.processes.num_active_processes (pos 6) ≡ true
    few' = ap (λ n. ltb_ℤ n (pos 6)) kept_all.count ∙ few

    not_minus_one : (k : ℕ) → minus_one ≢ pos k
    not_minus_one k e = absurd (ground arith)

    unchanged : Denied s closed_one
    unchanged = record {
      processes = kept_all;
      scheduler = refl;
      paging = refl;
      line = refl;
      histories = refl;
      memory = refl;
      screen = (close-frame fd (record s.machine { processes = out.state })).0;
      terminal = (close-frame fd (record s.machine { processes = out.state })).1;
      image = (close-frame fd (record s.machine { processes = out.state })).2;
      running = refl;
      shells = refl;
    }

-- In a system with a well-formed process table and a displayed terminal below 7, a call of `execute` that is refused has changed
-- descriptors and the clock only, and one that enters a program has started one new process as
-- `Entered` says: a free slot with closed descriptors, the caller as its parent, on top of the
-- stack of the displayed terminal, which is marked as running; the other blocks are as before but
-- for descriptors and arguments, and the shells of the other terminals, the image and the screen
-- are as before. It never goes on without a slot.
-- Of a call that waits for the clock or never comes back from a listing nothing is said.
pub execute-Follows :
    (l : Locals) (command : Option (List ℕ)) (s : System)
    → WellFormed s.machine.processes
    → s.machine.current_terminal < 7
    → Follows s (execute l command s)
unfolding execute
execute-Follows l none s w low = Denied-refl s w
execute-Follows l (some command) s w low =
    elim (Bool-cases (ltb_ℤ s.machine.processes.num_active_processes (pos 6))) [
      | inr full ↦ rw full (Denied-refl s w)
      | inl few ↦ elim (Bool-cases (ltb (strlen command) exec_buffer_size)) [
        | inr long ↦ rw (few, long) (Denied-refl s w)
        | inl short ↦ elim (Bool-cases (eqb_ℤ fd minus_one)) [
          | inl fails ↦ rw (few, short, fails) unchanged
          | inr works ↦
              rw (few, short, works)
                (by_reading (read fd (some l.buf) (pos 10000) l.dentry m)
                  (read-Keeps fd (some l.buf) (pos 10000) l.dentry m opens.well_formed)
                  (ap (λ n. ltb_ℤ n (pos 6)) opens.count ∙ few))
        ]
      ]
    ]
  where
    parsed : List ℕ × ℕ
    parsed = parse_command command

    result : Machine × ℤ
    result = open_file l.position l.unset (some parsed.0) s.machine

    m : Machine
    m = result.0

    fd : ℤ
    fd = result.1

    frame :
        (m.screen ≡ s.machine.screen)
        × (m.current_terminal ≡ s.machine.current_terminal)
        × (m.image ≡ s.machine.image)
    frame = open_file-frame l.position l.unset (some parsed.0) s.machine

    opens : Keeps s.machine.processes m.processes
    opens = open_file-Keeps l.position l.unset (some parsed.0) s.machine w

    unchanged : Denied s (record s { machine = m })
    unchanged = record {
      processes = opens;
      scheduler = refl;
      paging = refl;
      line = refl;
      histories = refl;
      memory = refl;
      screen = frame.0;
      terminal = frame.1;
      image = frame.2;
      running = refl;
      shells = refl;
    }

    weaken : (e : Execution) → Follows (record s { machine = m }) e → Follows s e
    weaken (denied t) d = Denied-trans unchanged d
    weaken (entered t entry) (k, e) =
        (k, Keeps-Entered s (record s { machine = m }) t k unchanged e)
    weaken waiting e = e
    weaken listing e = e
    weaken lost e = e

    by_reading :
        (r : Reading)
        → IsReadKept m.processes r
        → ltb_ℤ m.processes.num_active_processes (pos 6) ≡ true
        → Follows s (elim r [
          | returned out ↦ run_image l command parsed.0 parsed.1 fd out (record s { machine = m })
          | waits ↦ waiting
          | endless ↦ listing
        ])
    by_reading (returned out) kept few = weaken _ (
        run_image-Follows l command parsed.0 parsed.1 fd out (record s { machine = m }) kept few
          (omega (arith, frame.1)))
    by_reading waits kept few = record {}
    by_reading endless kept few = record {}
