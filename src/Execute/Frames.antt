-- ===== src/Execute/Frames.antt =====
-- What `execute` needs of the calls on descriptors and of the number of processes
-- (student-distrib/syscalls.c).
-- The calls on descriptors change nothing but tables and the clock.
use ece391linux_os.Prelude.{
  length, get_or, ◌==◌, if◌then◌else◌, Bool-cases, Option-cases, ℕ, ◌≤◌, ◌<◌, ◌≡◌, refl, ap, inl,
  inr, Option, none, some, List, [], ◌∷◌, arith,
}
use ece391linux_os.Prelude.Int.{ℤ, pos, negsuc, ◌+ℤ◌, eqb_ℤ, minus_one}
use ece391linux_os.Filesystem.{read_dentry_by_name, bad_fd}
use ece391linux_os.Process.{Pcb, Processes, no_pcb}
use ece391linux_os.Process.Count.{live, count_live}
use ece391linux_os.Process.Invariant.{WellFormed}
use ece391linux_os.Syscalls.{Machine, open_file, close}

pub open_file-frame :
    (garbage : ℕ) (unset : ℤ) (fname : Option (List ℕ)) (m : Machine)
    → ((open_file garbage unset fname m).0.screen ≡ m.screen)
      × ((open_file garbage unset fname m).0.current_terminal ≡ m.current_terminal)
      × ((open_file garbage unset fname m).0.image ≡ m.image)
unfolding open_file
open_file-frame garbage unset none m = (refl, refl, refl)
open_file-frame garbage unset (some fname) m =
    elim (Option-cases (read_dentry_by_name m.image fname)) [
      | inl e ↦ rw (e, open_file) (refl, refl, refl)
      | inr (d, e) ↦ elim (Bool-cases (d.file_type == 0)) [
        | inl k ↦ rw (e, open_file) (rw k (refl, refl, refl))
        | inr k0 ↦ elim (Bool-cases (d.file_type == 1)) [
          | inl k ↦ rw (e, open_file) (rw (k0, k) (refl, refl, refl))
          | inr k1 ↦ elim (Bool-cases (d.file_type == 2)) [
            | inl k ↦ rw (e, open_file) (rw (k0, k1, k) (refl, refl, refl))
            | inr k2 ↦ rw (e, open_file) (rw (k0, k1, k2) (refl, refl, refl))
          ]
        ]
      ]
    ]

pub close-frame :
    (fd : ℤ) (m : Machine)
    → ((close fd m).0.screen ≡ m.screen)
      × ((close fd m).0.current_terminal ≡ m.current_terminal)
      × ((close fd m).0.image ≡ m.image)
unfolding close
close-frame fd m = elim (Bool-cases (bad_fd fd)) [
  | inl e ↦ rw e (refl, refl, refl)
  | inr e ↦ rw e (refl, refl, refl)
]

-- The process table of a well-formed machine counts at least the sentinel.
count_live-positive :
    (bs : List Pcb) → 0 < length bs → (get_or bs 0 no_pcb).pid ≡ pos 0 → 1 ≤ count_live bs
unfolding count_live
count_live-positive [] h e = absurd (omega arith)
count_live-positive (b ∷ bs) h e =
    let alive : live b ≡ 1 = ap (λ n. if eqb_ℤ n minus_one then 0 else 1) e in omega (arith, alive)

active_count : (z : ℤ) (c : ℕ) → z +ℤ pos 1 ≡ pos c → 1 ≤ c → (n : ℕ) × (z ≡ pos n)
active_count (pos n) c e h = (n, refl)
active_count (negsuc m) c e h = absurd (ground arith)

pub num_active-pos : (p : Processes) → WellFormed p → (n : ℕ) × (p.num_active_processes ≡ pos n)
num_active-pos p w =
    active_count p.num_active_processes (count_live p.control_blocks) w.counted
      (count_live-positive p.control_blocks (omega (arith, w.blocks)) w.sentinel)
