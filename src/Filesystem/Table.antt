-- ===== src/Filesystem/Table.antt =====
-- Reads behind writes of the current process's descriptor table.
use ece391linux_os.Prelude.{
  length, modify, length-modify, get_or-modify_self, get_or-modify_ne, ℕ, ◌<◌, ◌≡◌, refl, ap, ◌∙◌,
  ◌≢◌, List, arith,
}
use ece391linux_os.Filesystem.{fd_block, modify_fd}
use ece391linux_os.Process.{FdBlock, Pcb, Processes, no_fd, no_pcb, block}
use ece391linux_os.Process.Invariant.{WellFormed, modify_block-WellFormed}

abbrev pub current_table : Processes → List FdBlock
current_table p = (block p p.current_pid).fd_table

module _ (p : Processes) (w : WellFormed p) where
  pub current_table-modify_fd :
      (fd : ℕ) (f : FdBlock → FdBlock)
      → current_table (modify_fd p fd f) ≡ modify (current_table p) fd f
  current_table-modify_fd fd f =
      ap (λ (b : Pcb). b.fd_table)
        (get_or-modify_self p.control_blocks p.current_pid
          (λ b. record b { fd_table = modify b.fd_table fd f }) no_pcb
          (omega (arith, w.blocks, w.current)))

  pub length-current_table : length (current_table p) ≡ 8
  length-current_table = (w.shaped p.current_pid w.current).fds

  pub fd_block-modify_fd_self :
      (fd : ℕ) (f : FdBlock → FdBlock) → fd < 8 → fd_block (modify_fd p fd f) fd ≡ f (fd_block p fd)
  fd_block-modify_fd_self fd f h =
      rw (current_table-modify_fd fd f)
        (get_or-modify_self (current_table p) fd f no_fd (omega (arith, length-current_table)))

  pub fd_block-modify_fd_ne :
      (fd j : ℕ) (f : FdBlock → FdBlock) → fd ≢ j → fd_block (modify_fd p fd f) j ≡ fd_block p j
  fd_block-modify_fd_ne fd j f ne =
      rw (current_table-modify_fd fd f) (get_or-modify_ne (current_table p) fd j f no_fd ne)

  -- Descriptor tables can change freely: the invariant fixes only their size.
  pub modify_fd-WellFormed : (fd : ℕ) (f : FdBlock → FdBlock) → WellFormed (modify_fd p fd f)
  modify_fd-WellFormed fd f =
      modify_block-WellFormed p p.current_pid _ w.current (λ b. refl)
        (λ b s. record {
          fds = length-modify b.fd_table fd f ∙ s.fds;
          args_size = s.args_size;
          numbered = s.numbered;
        })
        w
