-- ===== src/Examples/Users.antt =====
-- The theorems about the user programs on the kernel (syscalls/), the wait for the clock
-- (student-distrib/rtc_driver.c) and the saved page (student-distrib/lib.c).
use ece391linux_os.Examples.Calls.{clock, machine}
use ece391linux_os.Prelude.{
  replicate, length-replicate, ℕ, zero, suc, ◌≤◌, ◌<◌, ◌≡◌, refl, ap, ◌↔◌, none, some, [], ◌∷◌,
  arith,
}
use ece391linux_os.Prelude.Int.{pos, minus_one}
use ece391linux_os.Console.{shown, blank}
use ece391linux_os.Console.Saving.{save_vid, act_vid_restore, restore_vid, restore_vid-save_vid}
use ece391linux_os.Examples.Data.{idle, dot, file_ab, image, idle-WellFormed, page}
use ece391linux_os.Filesystem.{no_entry, find_entry, read_dentry_by_name, fd_block}
use ece391linux_os.Interrupts.{Pic}
use ece391linux_os.Interrupts.ClockRead.{
  clock_interrupt, read_by, Ended, count_of, rtc_read, rtc_read-returns,
}
use ece391linux_os.Process.{null, Processes, block, modify_block}
use ece391linux_os.Process.Invariant.{WellFormed, modify_block-WellFormed}
use ece391linux_os.Text.{strlen, strncmp, text}
use ece391linux_os.User.{bytes}
use ece391linux_os.User.Errors.{all_errors}
use ece391linux_os.User.Files.{cat, ls}
use ece391linux_os.User.Kernel.Cat.{shown_file}
use ece391linux_os.User.Kernel.Cat.Whole.{args_of, cat-shows}
use ece391linux_os.User.Kernel.Ls.{show_lines}
use ece391linux_os.User.Kernel.Ls.Whole.{ls-shows}
use ece391linux_os.User.Kernel.Output.{IsFresh, on_kernel}
use ece391linux_os.User.Kernel.Passes.{with_processes, printed_all, reports, all_errors-passes}
use ece391linux_os.User.Support.{ece391_strcmp}
use ece391linux_os.User.Support.Compare.{ece391_strcmp-eq-zero_iff}

-- The process was started with the argument "ab".
abbrev with_args : Processes
with_args = modify_block idle 1 (λ b. record b { args = 97 ∷ 98 ∷ replicate 1022 0 })

with_args-WellFormed : WellFormed with_args
with_args-WellFormed =
    modify_block-WellFormed idle 1 (λ b. record b { args = 97 ∷ 98 ∷ replicate 1022 0 })
      (omega arith) (λ b. refl)
      (λ b s. record {
        fds = s.fds;
        args_size = ap (λ n. suc (suc n)) (length-replicate {A = ℕ} 1022 0);
        numbered = s.numbered;
      })
      idle-WellFormed

two_args : strlen (block with_args 1).args ≡ 2
unfolding strlen
two_args = refl

-- All lines masked.
abbrev masked : Pic
masked = record {
  master_mask = 255;
  slave_mask = 255;
  master_register = 255;
  slave_register = 255;
  ports = [];
}

idle-IsFresh : IsFresh idle
idle-IsFresh = record {
  well_formed = idle-WellFormed;
  input = refl;
  output = refl;
  unused = λ k l h. (closed k l h).0;
  without_ops = λ k l h. (closed k l h).1;
}
  where
    closed :
        (k : ℕ)
        → 2 ≤ k
        → k < 8
        → ((fd_block idle k).flags ≡ minus_one) × ((fd_block idle k).file_operations_pointer ≡ null)
    closed zero l h = absurd (omega arith)
    closed (suc zero) l h = absurd (omega arith)
    closed (suc (suc zero)) l h = (refl, refl)
    closed (suc (suc (suc zero))) l h = (refl, refl)
    closed (suc (suc (suc (suc zero)))) l h = (refl, refl)
    closed (suc (suc (suc (suc (suc zero))))) l h = (refl, refl)
    closed (suc (suc (suc (suc (suc (suc zero)))))) l h = (refl, refl)
    closed (suc (suc (suc (suc (suc (suc (suc zero))))))) l h = (refl, refl)
    closed (suc (suc (suc (suc (suc (suc (suc (suc k)))))))) l h = absurd (omega arith)

with_args-IsFresh : IsFresh with_args
with_args-IsFresh = record {
  well_formed = with_args-WellFormed;
  input = refl;
  output = refl;
  unused = idle-IsFresh.unused;
  without_ops = idle-IsFresh.without_ops;
}

lookup_args :
    read_dentry_by_name image (args_of (record machine { processes = with_args })) ≡ some file_ab
unfolding read_dentry_by_name find_entry strlen strncmp
lookup_args = refl

cat-shows_example :
    (q : Processes) × (cat
        (on_kernel no_entry 0 (pos 0))
        2
        (replicate 1024 0)
        (record machine { processes = with_args })
      ≡ some (record machine { processes = q; screen = shown_file image 5 3 page }, pos 0))
cat-shows_example =
    cat-shows no_entry file_ab 0 (pos 0) 2 3 (replicate 1024 0)
      (record machine { processes = with_args }) with_args-IsFresh (length-replicate {A = ℕ} 1024 0)
      (omega (arith, two_args)) (omega (arith, two_args)) lookup_args refl (omega arith) refl
      (omega arith) (omega arith) (omega arith)

lookup_dot : read_dentry_by_name image (bytes ".") ≡ some dot
unfolding read_dentry_by_name find_entry strlen strncmp
lookup_dot = refl

-- The names are "." and "ab".
ls-shows_example :
    (q : Processes) × (ls (on_kernel no_entry 0 (pos 0)) 64 (replicate 33 0) machine
      ≡ some (
        record machine {
          processes = q;
          screen = show_lines ((46 ∷ []) ∷ (97 ∷ 98 ∷ []) ∷ []) page;
        },
        pos 0,
      ))
ls-shows_example =
    ls-shows no_entry dot 0 (pos 0) 64 (replicate 33 0) machine idle-IsFresh lookup_dot refl
      (omega arith) (omega arith) (omega arith) (length-replicate {A = ℕ} 33 0) (omega arith)

no_helloo : read_dentry_by_name image (bytes "helloo") ≡ none
unfolding read_dentry_by_name find_entry strlen strncmp
no_helloo = refl

no_shel : read_dentry_by_name image (bytes "shel") ≡ none
unfolding read_dentry_by_name find_entry strlen strncmp
no_shel = refl

all_errors-passes_example :
    (q : Processes) × IsFresh q
    × (all_errors (on_kernel no_entry 0 (pos 0)) (replicate 32 0) machine
        ≡ some (with_processes (printed_all reports machine) q, 0))
all_errors-passes_example =
    all_errors-passes no_entry dot 0 (pos 0) (replicate 32 0) machine idle-IsFresh lookup_dot refl
      (omega arith) no_helloo no_shel

ece391_strcmp-eq-zero_iff_example :
    (ece391_strcmp (101 ∷ 120 ∷ 0 ∷ 7 ∷ []) (101 ∷ 120 ∷ []) ≡ pos 0)
    ↔ (text 4 (101 ∷ 120 ∷ 0 ∷ 7 ∷ []) ≡ text 4 (101 ∷ 120 ∷ []))
ece391_strcmp-eq-zero_iff_example =
    ece391_strcmp-eq-zero_iff 4 (101 ∷ 120 ∷ 0 ∷ 7 ∷ []) (101 ∷ 120 ∷ []) (omega arith)
      (omega arith)

-- The process of terminal 1 waits while one of terminal 0 reads too.
rtc_read-returns_example :
    (rtc_read (read_by 0 ∷ []) clock masked ≡ none)
    × ((out : Ended) × (rtc_read (read_by 0 ∷ clock_interrupt ∷ []) clock masked
          ≡ some (out, pos 0))
        × (count_of 1 out.clock ≡ 0)
        × (out.later ≡ []))
rtc_read-returns_example =
    rtc_read-returns (read_by 0 ∷ []) [] clock masked (omega arith) refl
      ((λ e. absurd (omega (arith, e))), record {})

restore_vid-save_vid_example :
    ((restore_vid (save_vid page (replicate 4000 1)) page).video ≡ page.video)
    × (act_vid_restore (save_vid page (replicate 4000 1)) (replicate 2000 (shown 1)) ≡ page.video)
restore_vid-save_vid_example =
    restore_vid-save_vid page page (replicate 4000 1) (replicate 2000 (shown 1))
      (length-replicate 2000 blank) (length-replicate 2000 blank) (length-replicate 2000 (shown 1))
      (omega (arith, length-replicate {A = ℕ} 4000 1))
