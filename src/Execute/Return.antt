-- ===== src/Execute/Return.antt =====
-- How a program that was started comes back to its parent (`halt` and the end of `execute` of
-- student-distrib/syscalls.c).
use ece391linux_os.Prelude.{
  length, get_or, modify, length-modify, get_or-modify_self, get_or-modify_ne, ◌==◌, ==_iff,
  Bool-cases, ℕ, suc, ◌+◌, ◌<◌, ◌≡◌, sym, ap, ◌∙◌, ◌≢◌, inl, inr, true, false, arith,
}
use ece391linux_os.Prelude.Int.{pos, ◌+ℤ◌, ◌-ℤ◌, minus_one}
use ece391linux_os.Execute.{System, halt}
use ece391linux_os.Execute.Blocks.{switch-SameProcesses}
use ece391linux_os.Execute.Frames.{num_active-pos}
use ece391linux_os.Execute.Started.{kept_of, Entered}
use ece391linux_os.History.{up, down}
use ece391linux_os.Process.{Processes, no_pcb, block, destroy_pcb}
use ece391linux_os.Process.Count.{is_free}
use ece391linux_os.Process.Invariant.{WellFormed, destroy_pcb-WellFormed}
use ece391linux_os.Schedule.{
  no_context, Stack, no_stack, get_at, stack_of, top_of, top_cell, push_entry, pop_entry,
  deschedule,
}
use ece391linux_os.Schedule.Stacks.{SameBelow, push_entry_lem, pop_entry_lem}

-- What the halt of program `k`, started in `t`, leaves of the system `s` it was started from.
pub record Returned (s t : System) (k : ℕ) (u : System) : Type 0 where
  pub well_formed : WellFormed u.machine.processes
  pub current : u.machine.processes.current_pid ≡ s.machine.processes.current_pid
  pub count : u.machine.processes.num_active_processes ≡ s.machine.processes.num_active_processes
  pub freed : is_free (block u.machine.processes k) ≡ true
  pub others :
      (j : ℕ)
      → j < 7
      → j ≢ k
      → (block u.machine.processes j ≡ block t.machine.processes j)
        × (kept_of (block u.machine.processes j) ≡ kept_of (block s.machine.processes j))
  pub stacks :
      u.scheduler.stacks
      ≡ modify
          (modify s.scheduler.stacks s.machine.current_terminal (push_entry k))
          s.scheduler.current_process
          pop_entry
  pub screen : u.machine.screen ≡ s.machine.screen

-- For a well-formed system `s` and the state `t` in which the program `k` has been entered from it,
-- `halt` frees the program's block again, gives the processor back to the process that was current
-- in `s`, leaves the number of processes and the screen as in `s`, the other blocks wholly as in `t`
-- and so as in `s` but for descriptors and arguments, keeps the table well-formed, and asks for a
-- new shell just where the parent is process 0.
pub halt-Returned :
    (s t : System) (k : ℕ)
    → WellFormed s.machine.processes
    → Entered s k t
    → Returned s t k (halt t).0 × ((halt t).2 ≡ (s.machine.processes.current_pid == 0))
unfolding halt deschedule destroy_pcb
halt-Returned s t k w e =
    let c = t.machine.processes.current_pid in
    let back : (block p c).parent ≡ s.machine.processes.current_pid =
      ap (λ n. (block p n).parent) e.current ∙ e.numbered.1 in
    let small : c < 7 = omega (arith, e.current, e.slot) in
    let alive : (block p c).pid ≡ pos c =
      ap (λ n. (block p n).pid) e.current ∙ e.numbered.0 ∙ ap pos (sym e.current) in
    let destroyed =
      destroy_pcb-WellFormed c past (omega (arith, e.current, e.slot)) small alive
        past_well_formed in
    let parent_in : (block p c).parent < 7 = omega (arith, back, w.current) in
    let (n, is) = num_active-pos s.machine.processes w in
    (
      record {
        well_formed =
            (switch-SameProcesses (destroy_pcb c past).0 (block p c).parent destroyed
              parent_in).well_formed;
        current = back;
        count = ap (λ z. z -ℤ pos 1) (e.count ∙ ap (λ z. z +ℤ pos 1) is) ∙ back_to n ∙ sym is;
        freed =
            ap
              (λ m.
                is_free
                  (get_or (modify p.control_blocks m (λ b. record b { pid = minus_one })) k no_pcb))
              e.current
            ∙ ap is_free (
                get_or-modify_self p.control_blocks k (λ b. record b { pid = minus_one }) no_pcb
                  (omega (arith, e.well_formed.blocks, e.slot)));
        others = λ j lt ne.
            let same : get_or (modify p.control_blocks c (λ b. record b { pid = minus_one })) j
                  no_pcb
                ≡ block p j =
              get_or-modify_ne p.control_blocks c j (λ b. record b { pid = minus_one }) no_pcb
                (λ q. ne (sym q ∙ e.current)) in
            (same, ap kept_of same ∙ e.others j lt ne);
        stacks = λ i. modify (e.stacks i) (e.turn i) pop_entry;
        screen = e.screen;
      },
      ap (λ m. m == 0) back,
    )
  where
    p : Processes
    p = t.machine.processes

    past : Processes
    past = record p { past_pid = p.current_pid }

    past_well_formed : WellFormed past
    past_well_formed = record {
      blocks = e.well_formed.blocks;
      current = e.well_formed.current;
      sentinel = e.well_formed.sentinel;
      counted = e.well_formed.counted;
      shaped = e.well_formed.shaped;
    }

    back_to : (m : ℕ) → pos m +ℤ pos 1 -ℤ pos 1 ≡ pos m
    back_to m = ground arith

apart : (x t : ℕ) → (x == t) ≡ false → x ≢ t
apart x t e = ground arith

push_entry-room :
    (k n : ℕ) (z : Stack) → z.top ≡ pos n → n < length z.cells → n < length (push_entry k z).cells
unfolding push_entry
push_entry-room k n z e h = rw (e, length-modify z.cells n (λ c. record c { pid = k })) h

-- For a program that ran on the displayed terminal, whose stack is `n` high and not full: after its
-- return each stack is as high as before and the entries of the stack below `n` are as before.
pub halt-same_terminal :
    (s t u : System) (k n : ℕ)
    → Returned s t k u
    → s.scheduler.current_process ≡ s.machine.current_terminal
    → s.machine.current_terminal < length s.scheduler.stacks
    → top_of s.scheduler s.machine.current_terminal ≡ pos n
    → n < length (stack_of s.scheduler s.machine.current_terminal).cells
    → ((x : ℕ) → top_of u.scheduler x ≡ top_of s.scheduler x)
      × SameBelow n
          (stack_of s.scheduler s.machine.current_terminal).cells
          (stack_of u.scheduler s.machine.current_terminal).cells
halt-same_terminal s started u k n r same here top room =
    let ks = s.scheduler.stacks in
    let t = s.machine.current_terminal in
    let pushed : Stack = push_entry k (get_or ks t no_stack) in
    let own : stack_of u.scheduler t ≡ pop_entry pushed =
      ap (λ xs. get_or xs t no_stack)
        (r.stacks ∙ ap (λ j. modify (modify ks t (push_entry k)) j pop_entry) same)
      ∙ get_or-modify_self (modify ks t (push_entry k)) t pop_entry no_stack
          (omega (arith, length-modify ks t (push_entry k), here))
      ∙ ap pop_entry (get_or-modify_self ks t (push_entry k) no_stack here) in
    let (up, pid, below) = push_entry_lem k n (get_or ks t no_stack) top room in
    let height : pushed.top ≡ pos (suc n) = up ∙ ap pos (omega arith) in
    let (down, cleared, under) =
      pop_entry_lem n pushed height (push_entry-room k n (get_or ks t no_stack) top room) in
    (
      λ x. elim (Bool-cases (x == t)) [
        | inl e ↦
            ap (top_of u.scheduler) ((==_iff x t).0 e)
            ∙ ap (λ (z : Stack). z.top) own
            ∙ down
            ∙ sym top
            ∙ ap (top_of s.scheduler) (sym ((==_iff x t).0 e))
        | inr e ↦
            ap (λ (z : Stack). z.top)
              (ap (λ xs. get_or xs x no_stack) r.stacks
                ∙ get_or-modify_ne (modify ks t (push_entry k)) s.scheduler.current_process x
                    pop_entry no_stack (λ q. apart x t e (sym q ∙ same))
                ∙ get_or-modify_ne ks t x (push_entry k) no_stack (λ q. apart x t e (sym q)))
      ],
      λ i l. ap (λ (z : Stack). get_or z.cells i no_context) own ∙ under i l ∙ below i l,
    )

-- For a well-formed system `s` and the state `t` in which the program `k` has been entered from it
-- while another terminal than the one that runs is displayed, both being terminals that have a stack, that of the displayed one `n` high and not full: after
-- `halt` the number `k` is still on top of that stack, which is one higher than in `s`,
-- although the block of `k` is free again, and the stack of the terminal that runs has lost its top
-- in the place of `k`.
pub halt-other_terminal :
    (s t : System) (k n : ℕ)
    → WellFormed s.machine.processes
    → Entered s k t
    → s.scheduler.current_process ≢ s.machine.current_terminal
    → s.machine.current_terminal < length s.scheduler.stacks
    → s.scheduler.current_process < length s.scheduler.stacks
    → top_of s.scheduler s.machine.current_terminal ≡ pos n
    → n < length (stack_of s.scheduler s.machine.current_terminal).cells
    → let u = (halt t).0 in
      (top_of u.scheduler s.machine.current_terminal ≡ pos (n + 1))
      × ((top_cell u.scheduler s.machine.current_terminal).pid ≡ k)
      × (is_free (block u.machine.processes k) ≡ true)
      × (stack_of u.scheduler s.scheduler.current_process
          ≡ pop_entry (stack_of s.scheduler s.scheduler.current_process))
halt-other_terminal s t k n w e other here there top room =
    let r = (halt-Returned s t k w e).0 in
    let u = (halt t).0 in
    let ks = s.scheduler.stacks in
    let d = s.machine.current_terminal in
    let c = s.scheduler.current_process in
    let own : stack_of u.scheduler d ≡ push_entry k (get_or ks d no_stack) =
      ap (λ xs. get_or xs d no_stack) r.stacks
      ∙ get_or-modify_ne (modify ks d (push_entry k)) c d pop_entry no_stack other
      ∙ get_or-modify_self ks d (push_entry k) no_stack here in
    let (up, pid, below) = push_entry_lem k n (get_or ks d no_stack) top room in
    (
      ap (λ (z : Stack). z.top) own ∙ up,
      ap (λ (z : Stack). (get_at z.cells (z.top -ℤ pos 1)).pid) own ∙ pid,
      r.freed,
      ap (λ xs. get_or xs c no_stack) r.stacks
          ∙ get_or-modify_self (modify ks d (push_entry k)) c pop_entry no_stack
              (omega (arith, length-modify ks d (push_entry k), there))
          ∙ ap pop_entry (get_or-modify_ne ks d c (push_entry k) no_stack (λ q. other (sym q))),
    )
