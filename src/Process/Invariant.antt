-- ===== src/Process/Invariant.antt =====
-- The invariant of the process table, and that the operations of
-- student-distrib/process_control.c keep it.
use ece391linux_os.Prelude.{
  length, get_or, modify, length-modify, get_or-modify_self, get_or-modify_ne, Option-cases, ℕ,
  zero, suc, ◌<◌, ◌≡◌, refl, sym, ap, subst, ◌∙◌, ◌⊎◌, inl, inr, List, [], ◌∷◌, arith,
}
use native.Mathlib.Decide.{ℕ_discrete}
use ece391linux_os.Prelude.Int.{pos, ◌+ℤ◌, minus_one}
use ece391linux_os.Prelude.Range.{length-update_range}
use ece391linux_os.Process.{
  Pcb, Processes, no_fd, no_pcb, block, modify_block, clear_fd, close_table, clear_loop,
  clear_block_args, clear_args, find_free, fresh_block, create_new_pcb, load_pcb, destroy_pcb,
}
use ece391linux_os.Process.Count.{live, count_live, count_live-modify, Found, find_free-Found}

-- What holds of the block in slot `i`: its arrays have the sizes that the header declares, and a
-- live block carries the number of its slot.
pub record IsShaped (i : ℕ) (b : Pcb) : Type 0 where
  pub fds : length b.fd_table ≡ 8
  pub args_size : length b.args ≡ 1024
  pub numbered : (b.pid ≡ minus_one) ⊎ (b.pid ≡ pos i)

pub record WellFormed (p : Processes) : Type 0 where
  pub blocks : length p.control_blocks ≡ 7
  pub current : p.current_pid < 7
  pub sentinel : (block p 0).pid ≡ pos 0
  pub counted : p.num_active_processes +ℤ pos 1 ≡ pos (count_live p.control_blocks)
  pub shaped : (i : ℕ) → i < 7 → IsShaped i (block p i)

pub length-clear_loop : (n : ℕ) (cs : List ℕ) → length (clear_loop n cs) ≡ length cs
unfolding clear_loop
length-clear_loop zero cs = refl
length-clear_loop (suc n) [] = refl
length-clear_loop (suc n) (c ∷ cs) = ground (arith, length-clear_loop n cs)

pub length-close_table : (t : List _) → length (close_table t) ≡ length t
unfolding close_table
length-close_table t = length-update_range clear_fd no_fd 6 2 t

-- A block update that keeps slot `i` shaped keeps every slot shaped.
pub modify_block-IsShaped :
    (p : Processes) (i : ℕ) (f : Pcb → Pcb)
    → length p.control_blocks ≡ 7
    → ((j : ℕ) → j < 7 → IsShaped j (block p j))
    → (IsShaped i (block p i) → IsShaped i (f (block p i)))
    → (j : ℕ) → j < 7
    → IsShaped j (block (modify_block p i f) j)
modify_block-IsShaped p i f len all keep j h = elim (ℕ_discrete i j) [
  | yes e ↦
      subst (λ m. IsShaped m (block (modify_block p i f) m)) e
        (rw (get_or-modify_self p.control_blocks i f no_pcb (omega arith))
          (keep (all i (omega arith))))
  | no ne ↦ rw (get_or-modify_ne p.control_blocks i j f no_pcb ne) (all j h)
]

-- An update that changes neither the number nor the liveness of slot `i` keeps the invariant.
pub modify_block-WellFormed :
    (p : Processes) (i : ℕ) (f : Pcb → Pcb)
    → i < 7
    → ((b : Pcb) → (f b).pid ≡ b.pid)
    → ((b : Pcb) → IsShaped i b → IsShaped i (f b))
    → WellFormed p
    → WellFormed (modify_block p i f)
modify_block-WellFormed p i f h same keep w = record {
  blocks = length-modify p.control_blocks i f ∙ w.blocks;
  current = w.current;
  sentinel = elim (ℕ_discrete i 0) [
    | yes e ↦
        let at_zero : 0 < length p.control_blocks = omega (arith, w.blocks) in
        subst (λ m. (get_or (modify p.control_blocks m f) 0 no_pcb).pid ≡ pos 0) (sym e)
          (ap (λ (b : Pcb). b.pid) (get_or-modify_self p.control_blocks 0 f no_pcb at_zero)
            ∙ same (block p 0)
            ∙ w.sentinel)
    | no ne ↦
        ap (λ (b : Pcb). b.pid) (get_or-modify_ne p.control_blocks i 0 f no_pcb ne) ∙ w.sentinel
  ];
  counted =
      w.counted
      ∙ ap pos (
          let e : live (f (block p i)) ≡ live (block p i) = rw (same (block p i)) in
          omega (arith, e, w.blocks, count_live-modify p.control_blocks i f));
  shaped = modify_block-IsShaped p i f w.blocks w.shaped (keep (block p i));
}

pub clear_args-WellFormed : (p : Processes) → WellFormed p → WellFormed (clear_args p)
unfolding clear_args
clear_args-WellFormed p w =
    modify_block-WellFormed p p.current_pid clear_block_args w.current (λ b. refl)
      (λ b s. record {
        fds = s.fds;
        args_size = length-clear_loop 1024 b.args ∙ s.args_size;
        numbered = s.numbered;
      })
      w

-- `load_pcb` of an existing slot keeps the table well formed.
pub load_pcb-WellFormed :
    (pid ss esp : ℕ) (p : Processes) → pid < 7 → WellFormed p → WellFormed (load_pcb pid ss esp p)
unfolding load_pcb
load_pcb-WellFormed pid ss esp p h w =
    modify_block-WellFormed p pid _ h (λ b. refl)
      (λ b s. record { fds = s.fds; args_size = s.args_size; numbered = s.numbered }) w

create_slot-WellFormed :
    (parent k : ℕ) (p : Processes)
    → WellFormed p
    → Found 6 1 p.control_blocks k
    → WellFormed (record p {
      control_blocks = modify p.control_blocks k (fresh_block k parent);
      num_active_processes = p.num_active_processes +ℤ pos 1;
    })
unfolding fresh_block
create_slot-WellFormed parent k p w found = record {
  blocks = length-modify p.control_blocks k (fresh_block k parent) ∙ w.blocks;
  current = w.current;
  sentinel =
      ap (λ (b : Pcb). b.pid)
        (get_or-modify_ne p.control_blocks k 0 (fresh_block k parent) no_pcb
          (omega (arith, found.lower)))
      ∙ w.sentinel;
  counted =
      let n =
        count_live-modify p.control_blocks k (fresh_block k parent)
          (omega (arith, found.upper, w.blocks)) in
      let free = found.free in let total = w.counted in ground (arith, n, free, total);
  shaped = modify_block-IsShaped p k (fresh_block k parent) w.blocks w.shaped (λ s. record {
    fds = length-close_table (block p k).fd_table ∙ s.fds;
    args_size = s.args_size;
    numbered = inr refl;
  });
}

-- `create_new_pcb` keeps the table well formed, whether it finds a block or not.
pub create_new_pcb-WellFormed :
    (parent : ℕ) (p : Processes) → WellFormed p → WellFormed (create_new_pcb parent p).0
unfolding create_new_pcb
create_new_pcb-WellFormed parent p w = elim (Option-cases (find_free 6 1 p.control_blocks)) [
  | inl e ↦ rw (e, create_new_pcb) w
  | inr (k, e) ↦
      rw (e, create_new_pcb)
        (clear_args-WellFormed _
          (create_slot-WellFormed parent k p w (find_free-Found 6 1 k p.control_blocks e)))
]

-- `destroy_pcb` of a live process other than the sentinel keeps the table well formed.
pub destroy_pcb-WellFormed :
    (pid : ℕ) (p : Processes)
    → 0 < pid
    → pid < 7
    → (block p pid).pid ≡ pos pid
    → WellFormed p
    → WellFormed (destroy_pcb pid p).0
unfolding destroy_pcb
destroy_pcb-WellFormed pid p positive h alive w = record {
  blocks = length-modify p.control_blocks pid _ ∙ w.blocks;
  current = w.current;
  sentinel =
      ap (λ (b : Pcb). b.pid) (get_or-modify_ne p.control_blocks pid 0 _ no_pcb (omega arith))
      ∙ w.sentinel;
  counted =
      let n =
        count_live-modify p.control_blocks pid (λ b. record b { pid = minus_one })
          (omega (arith, w.blocks)) in
      let total = w.counted in ground (arith, n, alive, total);
  shaped =
      modify_block-IsShaped p pid (λ b. record b { pid = minus_one }) w.blocks w.shaped
        (λ s. record { fds = s.fds; args_size = s.args_size; numbered = inl refl });
}
