-- ===== src/Execute/Blocks.antt =====
-- What `execute` does to the block of the process that it starts (student-distrib/syscalls.c).
use ece391linux_os.Prelude.{
  ◌≢◌, length, drop, get_or-modify_self, get_or-modify_ne, ◌==◌, Bool-cases, ℕ, zero, suc, ◌<◌, ◌≡◌,
  refl, ap, subst, ◌∙◌, inl, inr, List, [], ◌∷◌, arith,
}
use native.Mathlib.Decide.{ℕ_discrete}
use ece391linux_os.Prelude.Int.{ℤ}
use ece391linux_os.Execute.{exec_buffer_size, skip_spaces, pass_args}
use ece391linux_os.Process.{
  FdBlock, Pcb, Processes, no_pcb, block, modify_block, clear_block_args, clear_args, load_pcb,
}
use ece391linux_os.Process.Invariant.{WellFormed, length-clear_loop, modify_block-WellFormed}
use ece391linux_os.Text.{first, next, strlen, pad, strncpy}

-- The number, the parent and the descriptors of a block.
abbrev pub identity_of : Pcb → ℤ × ℕ × List FdBlock
identity_of b = (b.pid, b.parent, b.fd_table)

-- The table `q` is well formed, and its processes are those of `p`.
pub record SameProcesses (p q : Processes) : Type 0 where
  pub well_formed : WellFormed q
  pub count : q.num_active_processes ≡ p.num_active_processes
  pub identities : (j : ℕ) → identity_of (block q j) ≡ identity_of (block p j)

pub SameProcesses-trans :
    {p q r : Processes} → SameProcesses p q → SameProcesses q r → SameProcesses p r
SameProcesses-trans a b = record {
  well_formed = b.well_formed;
  count = b.count ∙ a.count;
  identities = λ j. b.identities j ∙ a.identities j;
}

modify_block-SameProcesses :
    (p : Processes) (i : ℕ) (f : Pcb → Pcb)
    → WellFormed p
    → i < 7
    → ((b : Pcb) → identity_of (f b) ≡ identity_of b)
    → ((b : Pcb) → length (f b).args ≡ length b.args)
    → SameProcesses p (modify_block p i f)
modify_block-SameProcesses p i f w h same args = record {
  well_formed =
      modify_block-WellFormed p i f h (λ b. ap (λ (r : ℤ × ℕ × List FdBlock). r.0) (same b))
        (λ b s. record {
          fds = ap (λ (r : ℤ × ℕ × List FdBlock). length r.2) (same b) ∙ s.fds;
          args_size = args b ∙ s.args_size;
          numbered = rw (ap (λ (r : ℤ × ℕ × List FdBlock). r.0) (same b)) s.numbered;
        })
        w;
  count = refl;
  identities = λ j. elim (ℕ_discrete i j) [
    | yes e ↦
        subst (λ m. identity_of (block (modify_block p i f) m) ≡ identity_of (block p m)) e
          (ap identity_of (get_or-modify_self p.control_blocks i f no_pcb (omega (arith, w.blocks)))
            ∙ same (block p i))
    | no ne ↦ ap identity_of (get_or-modify_ne p.control_blocks i j f no_pcb ne)
  ];
}

-- Another process becomes the current one.
pub switch-SameProcesses :
    (p : Processes) (k : ℕ) → WellFormed p → k < 7 → SameProcesses p (record p { current_pid = k })
switch-SameProcesses p k w h = record {
  well_formed = record {
    blocks = w.blocks;
    current = h;
    sentinel = w.sentinel;
    counted = w.counted;
    shaped = w.shaped;
  };
  count = refl;
  identities = λ j. refl;
}

pub stack_pos-SameProcesses :
    (p : Processes) (k esp : ℕ)
    → WellFormed p
    → k < 7
    → SameProcesses p (modify_block p k (λ b. record b { stack_pos = esp }))
stack_pos-SameProcesses p k esp w h =
    modify_block-SameProcesses p k (λ b. record b { stack_pos = esp }) w h (λ b. refl) (λ b. refl)

pub load_pcb-SameProcesses :
    (pid ss esp : ℕ) (p : Processes)
    → WellFormed p
    → pid < 7
    → SameProcesses p (load_pcb pid ss esp p)
unfolding load_pcb
load_pcb-SameProcesses pid ss esp p w h =
    modify_block-SameProcesses p pid (λ b. record b { ss = ss; esp = esp }) w h (λ b. refl)
      (λ b. refl)

length-pad : (n : ℕ) (dest : List ℕ) → length (pad dest n) ≡ length dest
unfolding pad
length-pad zero dest = refl
length-pad (suc n) [] = refl
length-pad (suc n) (d ∷ dest) = ap suc (length-pad n dest)

length-strncpy : (n : ℕ) (dest src : List ℕ) → length (strncpy dest src n) ≡ length dest
unfolding strncpy
length-strncpy zero dest src = refl
length-strncpy (suc n) [] src = refl
length-strncpy (suc n) (d ∷ dest) src = elim (Bool-cases (first src == 0)) [
  | inl e ↦ rw e (length-pad (suc n) (d ∷ dest))
  | inr e ↦ rw e (ap suc (length-strncpy n dest (next src)))
]

pub pass_args-SameProcesses :
    (command : List ℕ) (i : ℕ) (p : Processes)
    → WellFormed p
    → SameProcesses p (pass_args command i p)
unfolding pass_args clear_args
pass_args-SameProcesses command i p w =
    let rest = drop (skip_spaces exec_buffer_size i command) command in
    elim (Bool-cases (first rest == 0)) [
      | inl e ↦ rw e (
          modify_block-SameProcesses p p.current_pid clear_block_args w w.current (λ b. refl)
            (λ b. length-clear_loop 1024 b.args))
      | inr e ↦ rw e (
          modify_block-SameProcesses p p.current_pid
            (λ b. record b { args = strncpy b.args rest (strlen rest) }) w w.current (λ b. refl)
            (λ b. length-strncpy (strlen rest) b.args rest))
    ]

-- The block of another process than the current one is left alone.
pub pass_args-others :
    (command : List ℕ) (i : ℕ) (p : Processes) (j : ℕ)
    → p.current_pid ≢ j
    → block (pass_args command i p) j ≡ block p j
unfolding pass_args clear_args
pass_args-others command i p j ne =
    let rest = drop (skip_spaces exec_buffer_size i command) command in
    elim (Bool-cases (first rest == 0)) [
      | inl e ↦ rw e (get_or-modify_ne p.control_blocks p.current_pid j clear_block_args no_pcb ne)
      | inr e ↦ rw e (
          get_or-modify_ne p.control_blocks p.current_pid j
            (λ b. record b { args = strncpy b.args rest (strlen rest) }) no_pcb ne)
    ]

pub load_pcb-others :
    (pid ss esp : ℕ) (p : Processes) (j : ℕ) → pid ≢ j → block (load_pcb pid ss esp p) j ≡ block p j
unfolding load_pcb
load_pcb-others pid ss esp p j ne =
    get_or-modify_ne p.control_blocks pid j (λ b. record b { ss = ss; esp = esp }) no_pcb ne

pub pass_args-current :
    (command : List ℕ) (i : ℕ) (p : Processes) → (pass_args command i p).current_pid ≡ p.current_pid
unfolding pass_args clear_args
pass_args-current command i p =
    elim (Bool-cases (first (drop (skip_spaces exec_buffer_size i command) command) == 0)) [
      | inl e ↦ rw e refl
      | inr e ↦ rw e refl
    ]
