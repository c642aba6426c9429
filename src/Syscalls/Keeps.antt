-- ===== src/Syscalls/Keeps.antt =====
-- What the calls on descriptors leave alone in the process table (student-distrib/syscalls.c with
-- the drivers it calls).
use ece391linux_os.Prelude.{
  length, modify, length-modify, get_or-modify_self, get_or-modify_ne, ◌==◌, Bool-cases,
  Option-cases, ℕ, ◌<◌, ◌≡◌, refl, ap, subst, ◌∙◌, inl, inr, Option, none, some, List, [], arith,
}
use native.Mathlib.Decide.{ℕ_discrete}
use ece391linux_os.Prelude.Int.{ℤ, pos, pos_part, eqb_ℤ, minus_one}
use ece391linux_os.Filesystem.{
  Image, read_dentry_by_name, fd_block, modify_fd, Slot, found, refused, exhausted, place_in,
  file_open, directory_open, bad_fd, file_close, directory_close,
}
use ece391linux_os.Process.{
  FileOps, null, file, dir, stdin, stdout, rtc, FdBlock, Pcb, Processes, no_pcb, block,
  modify_block, clear_fd,
}
use ece391linux_os.Process.Invariant.{WellFormed, modify_block-WellFormed}
use ece391linux_os.Rtc.{Clock, is_open, rtc_open, rtc_close}
use ece391linux_os.Syscalls.{Machine, open_file, keyboard_close, terminal_close, close}

-- A block without its descriptors.
abbrev pub without_fds : Pcb → Pcb
without_fds b = record b { fd_table = [] }

-- The table `q` is well formed and differs from `p` in descriptors only.
pub record Keeps (p q : Processes) : Type 0 where
  pub well_formed : WellFormed q
  pub count : q.num_active_processes ≡ p.num_active_processes
  pub current : q.current_pid ≡ p.current_pid
  pub past : q.past_pid ≡ p.past_pid
  pub rest : (j : ℕ) → without_fds (block q j) ≡ without_fds (block p j)

pub Keeps-refl : (p : Processes) → WellFormed p → Keeps p p
Keeps-refl p w = record {
  well_formed = w;
  count = refl;
  current = refl;
  past = refl;
  rest = λ j. refl;
}

pub Keeps-trans : {p q r : Processes} → Keeps p q → Keeps q r → Keeps p r
Keeps-trans a b = record {
  well_formed = b.well_formed;
  count = b.count ∙ a.count;
  current = b.current ∙ a.current;
  past = b.past ∙ a.past;
  rest = λ j. b.rest j ∙ a.rest j;
}

pub modify_table-Keeps :
    (p : Processes) (i : ℕ) (g : List FdBlock → List FdBlock)
    → WellFormed p
    → i < 7
    → ((t : List FdBlock) → length (g t) ≡ length t)
    → Keeps p (modify_block p i (λ b. record b { fd_table = g b.fd_table }))
modify_table-Keeps p i g w h same = record {
  well_formed =
      modify_block-WellFormed p i f h (λ b. refl)
        (λ b s. record {
          fds = same b.fd_table ∙ s.fds;
          args_size = s.args_size;
          numbered = s.numbered;
        })
        w;
  count = refl;
  current = refl;
  past = refl;
  rest = λ j. elim (ℕ_discrete i j) [
    | yes e ↦
        subst (λ m. without_fds (block (modify_block p i f) m) ≡ without_fds (block p m)) e
          (ap without_fds
            (get_or-modify_self p.control_blocks i f no_pcb (omega (arith, w.blocks))))
    | no ne ↦ ap without_fds (get_or-modify_ne p.control_blocks i j f no_pcb ne)
  ];
}
  where
    f : Pcb → Pcb
    f b = record b { fd_table = g b.fd_table }

pub modify_fd-Keeps :
    (p : Processes) (fd : ℕ) (f : FdBlock → FdBlock) → WellFormed p → Keeps p (modify_fd p fd f)
modify_fd-Keeps p fd f w =
    modify_table-Keeps p p.current_pid (λ t. modify t fd f) w w.current (λ t. length-modify t fd f)

place_in-Keeps :
    (p : Processes) (b : FdBlock) (s : Slot) → WellFormed p → Keeps p (place_in p b s).0
place_in-Keeps p b (found i) w = modify_fd-Keeps p i (λ _. b) w
place_in-Keeps p b refused w = Keeps-refl p w
place_in-Keeps p b exhausted w = modify_fd-Keeps p 0 (λ _. b) w

file_open-Keeps :
    (img : Image) (fname : List ℕ) (p : Processes)
    → WellFormed p
    → Keeps p (file_open img fname p).0
unfolding file_open
file_open-Keeps img fname p w = elim (Option-cases (read_dentry_by_name img fname)) [
  | inl e ↦ rw (e, file_open) (Keeps-refl p w)
  | inr (d, e) ↦ rw (e, file_open) (place_in-Keeps p _ _ w)
]

directory_open-Keeps :
    (img : Image) (fname : List ℕ) (p : Processes)
    → WellFormed p
    → Keeps p (directory_open img fname p).0
unfolding directory_open
directory_open-Keeps img fname p w = elim (Option-cases (read_dentry_by_name img fname)) [
  | inl e ↦ rw (e, directory_open) (Keeps-refl p w)
  | inr (d, e) ↦ rw (e, directory_open) (place_in-Keeps p _ _ w)
]

rtc_open-Keeps :
    (garbage : ℕ) (p : Processes) (c : Clock) → WellFormed p → Keeps p (rtc_open garbage p c).0
unfolding rtc_open
rtc_open-Keeps garbage p c w = elim (Bool-cases (is_open 6 2 (block p p.current_pid).fd_table)) [
  | inl e ↦ rw (e, rtc_open) (Keeps-refl p w)
  | inr e ↦ rw (e, rtc_open) (place_in-Keeps p _ _ w)
]

-- `open` changes no process, whatever kind of file the name has.
pub open_file-Keeps :
    (garbage : ℕ) (unset : ℤ) (fname : Option (List ℕ)) (m : Machine)
    → WellFormed m.processes
    → Keeps m.processes (open_file garbage unset fname m).0.processes
unfolding open_file
open_file-Keeps garbage unset none m w = Keeps-refl m.processes w
open_file-Keeps garbage unset (some fname) m w =
    elim (Option-cases (read_dentry_by_name m.image fname)) [
      | inl e ↦ rw (e, open_file) (Keeps-refl m.processes w)
      | inr (d, e) ↦
          let a = rtc_open-Keeps garbage m.processes m.clock w in
          let b = directory_open-Keeps m.image fname m.processes w in
          let c = file_open-Keeps m.image fname m.processes w in
          elim (Bool-cases (d.file_type == 0)) [
            | inl k ↦ rw (e, open_file) (rw k a)
            | inr k0 ↦ elim (Bool-cases (d.file_type == 1)) [
              | inl k ↦ rw (e, open_file) (rw (k0, k) b)
              | inr k1 ↦ elim (Bool-cases (d.file_type == 2)) [
                | inl k ↦ rw (e, open_file) (rw (k0, k1, k) c)
                | inr k2 ↦ rw (e, open_file) (rw (k0, k1, k2) (Keeps-refl m.processes w))
              ]
            ]
          ]
    ]

close_fd-Keeps :
    (fd : ℤ) (p : Processes)
    → WellFormed p
    → Keeps p (file_close fd p).0 × Keeps p (directory_close fd p).0 × Keeps p (rtc_close fd p).0
unfolding file_close directory_close rtc_close
close_fd-Keeps fd p w =
    let cleared = modify_fd-Keeps p (pos_part fd) clear_fd w in
    let same = Keeps-refl p w in
    elim (Bool-cases (bad_fd fd)) [
      | inl e ↦ rw e (same, same, same)
      | inr e ↦ elim (Bool-cases (eqb_ℤ (fd_block p (pos_part fd)).flags minus_one)) [
        | inl e1 ↦ elim (Bool-cases (eqb_ℤ (fd_block p (pos_part fd)).flags (pos 0))) [
          | inl e2 ↦ rw (e, e1, e2) (same, same, same)
          | inr e2 ↦ rw (e, e1, e2) (same, same, cleared)
        ]
        | inr e1 ↦ elim (Bool-cases (eqb_ℤ (fd_block p (pos_part fd)).flags (pos 0))) [
          | inl e2 ↦ rw (e, e1, e2) (cleared, cleared, same)
          | inr e2 ↦ rw (e, e1, e2) (cleared, cleared, cleared)
        ]
      ]
    ]

-- `close` changes no process; the displayed terminal has one of the numbers 0 to 6.
pub close-Keeps :
    (fd : ℤ) (m : Machine)
    → m.current_terminal < 7
    → WellFormed m.processes
    → Keeps m.processes (close fd m).0.processes
unfolding close keyboard_close terminal_close
close-Keeps fd m h w =
    let p = m.processes in
    let by_fd = close_fd-Keeps fd p w in
    elim (Bool-cases (bad_fd fd)) [
      | inl e ↦ rw e (Keeps-refl p w)
      | inr e ↦ rw e (by_kind (fd_block p (pos_part fd)).file_operations_pointer by_fd)
    ]
  where
    by_kind :
        (o : FileOps)
        → Keeps m.processes (file_close fd m.processes).0
          × Keeps m.processes (directory_close fd m.processes).0
          × Keeps m.processes (rtc_close fd m.processes).0
        → Keeps m.processes
            (elim o as (λ _. Processes × ℤ) [
              | null ↦ (m.processes, minus_one)
              | file ↦ file_close fd m.processes
              | dir ↦ directory_close fd m.processes
              | stdin ↦ keyboard_close m.current_terminal m.processes
              | stdout ↦ terminal_close m.processes
              | rtc ↦ rtc_close fd m.processes
            ]).0
    by_kind null k = Keeps-refl m.processes w
    by_kind file k = k.0
    by_kind dir k = k.1
    by_kind stdin k =
        modify_table-Keeps m.processes m.current_terminal (λ t. modify t 0 clear_fd) w h
          (λ t. length-modify t 0 clear_fd)
    by_kind stdout k = modify_fd-Keeps m.processes 1 clear_fd w
    by_kind rtc k = k.2
