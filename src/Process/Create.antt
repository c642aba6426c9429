-- ===== src/Process/Create.antt =====
-- What `create_new_pcb` and `destroy_pcb` of student-distrib/process_control.c promise.
use ece391linux_os.Prelude.{
  [], ℕ, ◌≤◌, ◌<◌, ◌≡◌, refl, sym, subst, ap, ◌∙◌, ◌⊎◌, inl, inr, ◌≢◌, true, false, some, List,
  arith, Option-cases, length, get_or, modify, length-modify, get_or-modify_self, get_or-modify_ne,
}
use native.Mathlib.Decide.{ℕ_discrete}
use ece391linux_os.Prelude.Int.{pos, minus_one, ◌+ℤ◌}
use ece391linux_os.Prelude.Range.{get_or-update_range_in, get_or-update_range_below}
use ece391linux_os.Process.{
  Pcb, Processes, FdBlock, null, no_pcb, no_fd, block, close_table, clear_fd, clear_block_args,
  clear_args, fresh_block, create_new_pcb, find_free,
}
use ece391linux_os.Process.Count.{
  is_free, count_live, count_live_all, find_free-Found, Found, find_free-none,
}
use ece391linux_os.Process.Invariant.{WellFormed}

-- The descriptor is unused.
abbrev pub IsClosed : FdBlock → Type 0
IsClosed b = (b.flags ≡ minus_one) × (b.inode ≡ minus_one) × (b.file_operations_pointer ≡ null)

-- The closing loop leaves `stdin` and `stdout` alone and closes the six others.
pub close_table-IsClosed :
    (t : List FdBlock)
    → length t ≡ 8
    → (get_or (close_table t) 0 no_fd ≡ get_or t 0 no_fd)
      × (get_or (close_table t) 1 no_fd ≡ get_or t 1 no_fd)
      × ((fd : ℕ) → 2 ≤ fd → fd < 8 → IsClosed (get_or (close_table t) fd no_fd))
unfolding close_table
close_table-IsClosed t len = (
  get_or-update_range_below clear_fd no_fd 6 2 0 t (omega arith),
  get_or-update_range_below clear_fd no_fd 6 2 1 t (omega arith),
  λ fd h k.
      rw (get_or-update_range_in clear_fd no_fd 6 2 fd t h k (omega arith)) (refl, refl, refl),
)

-- Clearing the arguments changes the argument buffer of the current block only.
pub clear_args-keeps :
    (p : Processes) (j : ℕ)
    → j < length p.control_blocks
    → ((block (clear_args p) j).fd_table ≡ (block p j).fd_table)
      × ((block (clear_args p) j).pid ≡ (block p j).pid)
      × ((block (clear_args p) j).parent ≡ (block p j).parent)
unfolding clear_args
clear_args-keeps p j h = elim (ℕ_discrete p.current_pid j) [
  | yes e ↦
      let here : block (clear_args p) j ≡ clear_block_args (block p j) =
        subst
          (λ m.
            get_or (modify p.control_blocks m clear_block_args) j no_pcb
            ≡ clear_block_args (block p j))
          (sym e) (get_or-modify_self p.control_blocks j clear_block_args no_pcb h) in
      rw here (refl, refl, refl)
  | no ne ↦
      rw (get_or-modify_ne p.control_blocks p.current_pid j clear_block_args no_pcb ne)
        (refl, refl, refl)
]

abbrev pub without_args : Pcb → Pcb
without_args b = record b { args = [] }

clear_args-others :
    (p : Processes) (j : ℕ)
    → j < length p.control_blocks
    → without_args (block (clear_args p) j) ≡ without_args (block p j)
unfolding clear_args
clear_args-others p j h = elim (ℕ_discrete p.current_pid j) [
  | yes e ↦ ap without_args (
      subst
        (λ m.
          get_or (modify p.control_blocks m clear_block_args) j no_pcb
          ≡ clear_block_args (block p j))
        (sym e) (get_or-modify_self p.control_blocks j clear_block_args no_pcb h))
  | no ne ↦
      ap without_args (get_or-modify_ne p.control_blocks p.current_pid j clear_block_args no_pcb ne)
]

-- What a call that returns `k` has done.
pub record Created (parent : ℕ) (p : Processes) (k : ℕ) (q : Processes) : Type 0 where
  pub in_range : (1 ≤ k) × (k ≤ 6)
  pub was_free : is_free (block p k) ≡ true
  pub lowest : (j : ℕ) → 1 ≤ j → j < k → is_free (block p j) ≡ false
  pub numbered : ((block q k).pid ≡ pos k) × ((block q k).parent ≡ parent)
  pub closed : (fd : ℕ) → 2 ≤ fd → fd < 8 → IsClosed (get_or (block q k).fd_table fd no_fd)
  pub others :
      (j : ℕ)
      → j < 7
      → j ≢ k
      → ((block q j).fd_table ≡ (block p j).fd_table)
        × ((block q j).pid ≡ (block p j).pid)
        × ((block q j).parent ≡ (block p j).parent)
  pub rest : (j : ℕ) → j < 7 → j ≢ k → without_args (block q j) ≡ without_args (block p j)
  pub count : q.num_active_processes ≡ p.num_active_processes +ℤ pos 1

create-Created :
    (parent k : ℕ) (p : Processes)
    → WellFormed p
    → find_free 6 1 p.control_blocks ≡ some k
    → Created parent p k (create_new_pcb parent p).0
unfolding create_new_pcb clear_args fresh_block
create-Created parent k p w e =
    let found : Found 6 1 p.control_blocks k = find_free-Found 6 1 k p.control_blocks e in
    let q : Processes = record p {
      control_blocks = modify p.control_blocks k (fresh_block k parent);
      num_active_processes = p.num_active_processes +ℤ pos 1;
    } in
    let size : length q.control_blocks ≡ 7 =
      length-modify p.control_blocks k (fresh_block k parent) ∙ w.blocks in
    let inside : k < 7 = omega (arith, found.upper) in
    let here : block q k ≡ fresh_block k parent (block p k) =
      get_or-modify_self p.control_blocks k (fresh_block k parent) no_pcb
        (omega (arith, w.blocks)) in
    let kept = clear_args-keeps q k (omega arith) in
    rw (e, create_new_pcb)
      (record {
        in_range = (found.lower, omega arith);
        was_free = found.free;
        lowest = found.first;
        numbered =
            (kept.1 ∙ ap (λ (b : Pcb). b.pid) here, kept.2 ∙ ap (λ (b : Pcb). b.parent) here);
        closed = λ fd h l.
            rw (kept.0, here)
              ((close_table-IsClosed (block p k).fd_table (w.shaped k inside).fds).2 fd h l);
        others = λ j h ne.
            let other : block q j ≡ block p j =
              get_or-modify_ne p.control_blocks k j (fresh_block k parent) no_pcb
                (λ s. ne (sym s)) in
            let same = clear_args-keeps q j (omega arith) in rw (← other) same;
        rest = λ j h ne.
            clear_args-others q j (omega arith)
            ∙ ap without_args (
                get_or-modify_ne p.control_blocks k j (fresh_block k parent) no_pcb
                  (λ s. ne (sym s)));
        count = refl;
      })

-- In a well-formed process table, `create_new_pcb` fails with -1, and then changes nothing, exactly
-- when the six user slots are all live; otherwise it returns the lowest free slot, numbers it,
-- records its parent, closes its descriptors 2 to 7, and leaves the other slots alone but for the
-- arguments.
pub create_new_pcb_lem :
    (parent : ℕ) (p : Processes)
    → WellFormed p
    → ((create_new_pcb parent p ≡ (p, minus_one))
        × ((j : ℕ) → 1 ≤ j → j < 7 → is_free (block p j) ≡ false))
      ⊎ ((k : ℕ) × ((create_new_pcb parent p).1 ≡ pos k)
          × Created parent p k (create_new_pcb parent p).0)
unfolding create_new_pcb
create_new_pcb_lem parent p w = elim (Option-cases (find_free 6 1 p.control_blocks)) [
  | inl e ↦ inl (rw (e, create_new_pcb) refl, λ j h k. find_free-none 6 1 j p.control_blocks e h k)
  | inr (k, e) ↦ inr (k, rw (e, create_new_pcb) refl, create-Created parent k p w e)
]

-- The guard of `execute` is enough: with fewer than six active processes in a well-formed table
-- `create_new_pcb` returns a slot from 1 to 6.
pub create_new_pcb-succeeds :
    (parent n : ℕ) (p : Processes)
    → WellFormed p
    → p.num_active_processes ≡ pos n
    → n < 6
    → (k : ℕ) × ((create_new_pcb parent p).1 ≡ pos k) × (1 ≤ k) × (k ≤ 6)
create_new_pcb-succeeds parent n p w e h = elim (create_new_pcb_lem parent p w) [
  | inl (_, busy) ↦
      let all : count_live p.control_blocks ≡ length p.control_blocks =
        count_live_all p.control_blocks λ j l. elim (ℕ_discrete j 0) [
          | yes z ↦ rw (z, w.sentinel) refl
          | no nz ↦ busy j (omega arith) (omega (arith, w.blocks))
        ] in
      absurd (ground (arith, all, w.blocks, w.counted))
  | inr (k, r, c) ↦ (k, r, c.in_range.0, c.in_range.1)
]
