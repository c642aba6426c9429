-- ===== src/Schedule/Stacks.antt =====
-- The stack of processes of a terminal: `schedule` and `deschedule` of student-distrib/syscalls.c.
use ece391linux_os.Prelude.{
  length, get_or, modify, get_or-modify_self, get_or-modify_ne, ℕ, suc, ◌+◌, ◌<◌, ◌≡◌, sym, ap, ◌∙◌,
  ◌≢◌, List, arith,
}
use ece391linux_os.Prelude.Int.{pos, ◌+ℤ◌, ◌-ℤ◌}
use ece391linux_os.Schedule.{
  Context, no_context, Stack, no_stack, get_at, modify_at, Scheduler, stack_of, top_of, top_cell,
  push_entry, schedule, clear_entry, pop_entry, deschedule,
}

-- Writing the cell at the top and clearing it again leaves the others alone.
abbrev pub SameBelow : ℕ → List Context → List Context → Type 0
SameBelow n cs ds = (i : ℕ) → i < n → get_or ds i no_context ≡ get_or cs i no_context

pub push_entry_lem :
    (pid n : ℕ) (k : Stack)
    → k.top ≡ pos n
    → n < length k.cells
    → ((push_entry pid k).top ≡ pos (n + 1))
      × ((get_at (push_entry pid k).cells ((push_entry pid k).top -ℤ pos 1)).pid ≡ pid)
      × SameBelow n k.cells (push_entry pid k).cells
unfolding push_entry
push_entry_lem pid n k e room =
    let g : Context → Context = λ c. record c { pid = pid } in
    let up : (k.top +ℤ pos 1) ≡ pos (n + 1) = ap (λ u. u +ℤ pos 1) e ∙ ground arith in
    let down : (k.top +ℤ pos 1 -ℤ pos 1) ≡ pos n = ap (λ u. u +ℤ pos 1 -ℤ pos 1) e ∙ ground arith in
    let cells : modify_at k.cells k.top g ≡ modify k.cells n g =
      ap (λ u. modify_at k.cells u g) e in
    (
      up,
      rw (down, cells)
          (ap (λ (c : Context). c.pid) (get_or-modify_self k.cells n g no_context room)),
      λ i l. rw cells (get_or-modify_ne k.cells n i g no_context (omega arith)),
    )

pub pop_entry_lem :
    (n : ℕ) (k : Stack)
    → k.top ≡ pos (suc n)
    → n < length k.cells
    → ((pop_entry k).top ≡ pos n)
      × ((get_or (pop_entry k).cells n no_context).ebp ≡ 0)
      × SameBelow n k.cells (pop_entry k).cells
unfolding pop_entry
pop_entry_lem n k e room =
    let down : (k.top -ℤ pos 1) ≡ pos n = ap (λ u. u -ℤ pos 1) e ∙ ground arith in
    let cells : modify_at k.cells (k.top -ℤ pos 1) clear_entry ≡ modify k.cells n clear_entry =
      ap (λ u. modify_at k.cells u clear_entry) down in
    (
      down,
      rw cells
          (ap (λ (c : Context). c.ebp) (get_or-modify_self k.cells n clear_entry no_context room)),
      λ i l. rw cells (get_or-modify_ne k.cells n i clear_entry no_context (omega arith)),
    )

-- Where the displayed terminal's stack is at a height `n` below its size, `schedule` puts the
-- current process on top of the stack of the displayed terminal, one higher; the entries below it
-- and the other terminals' stacks stay as they were.
pub schedule_lem :
    (s : Scheduler) (n : ℕ)
    → s.current_terminal < length s.stacks
    → top_of s s.current_terminal ≡ pos n
    → n < length (stack_of s s.current_terminal).cells
    → (top_of (schedule s) s.current_terminal ≡ pos (n + 1))
      × ((top_cell (schedule s) s.current_terminal).pid ≡ s.current_pid)
      × SameBelow n
          (stack_of s s.current_terminal).cells
          (stack_of (schedule s) s.current_terminal).cells
      × ((u : ℕ) → u ≢ s.current_terminal → stack_of (schedule s) u ≡ stack_of s u)
unfolding schedule
schedule_lem s n h top room =
    let t = s.current_terminal in
    let here : stack_of (schedule s) t ≡ push_entry s.current_pid (stack_of s t) =
      get_or-modify_self s.stacks t (push_entry s.current_pid) no_stack h in
    let (up, pid, same) = push_entry_lem s.current_pid n (stack_of s t) top room in
    (
      ap (λ (k : Stack). k.top) here ∙ up,
      ap (λ (k : Stack). (get_at k.cells (k.top -ℤ pos 1)).pid) here ∙ pid,
      λ i l. ap (λ (k : Stack). get_or k.cells i no_context) here ∙ same i l,
      λ u ne. get_or-modify_ne s.stacks t u (push_entry s.current_pid) no_stack (λ q. ne (sym q)),
    )

-- Where the running terminal's stack has a top entry within its size, `deschedule` takes the top
-- entry off the stack of the running terminal: the height falls by one, the entries below and the
-- other terminals' stacks stay as they were, and the freed cell is marked as never saved.
pub deschedule_lem :
    (s : Scheduler) (n : ℕ)
    → s.current_process < length s.stacks
    → top_of s s.current_process ≡ pos (suc n)
    → n < length (stack_of s s.current_process).cells
    → (top_of (deschedule s) s.current_process ≡ pos n)
      × ((get_or (stack_of (deschedule s) s.current_process).cells n no_context).ebp ≡ 0)
      × SameBelow n
          (stack_of s s.current_process).cells
          (stack_of (deschedule s) s.current_process).cells
      × ((u : ℕ) → u ≢ s.current_process → stack_of (deschedule s) u ≡ stack_of s u)
unfolding deschedule
deschedule_lem s n h top room =
    let t = s.current_process in
    let here : stack_of (deschedule s) t ≡ pop_entry (stack_of s t) =
      get_or-modify_self s.stacks t pop_entry no_stack h in
    let (down, cleared, same) = pop_entry_lem n (stack_of s t) top room in
    (
      ap (λ (k : Stack). k.top) here ∙ down,
      ap (λ (k : Stack). (get_or k.cells n no_context).ebp) here ∙ cleared,
      λ i l. ap (λ (k : Stack). get_or k.cells i no_context) here ∙ same i l,
      λ u ne. get_or-modify_ne s.stacks t u pop_entry no_stack (λ q. ne (sym q)),
    )
