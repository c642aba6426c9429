-- ===== src/Examples/Schedules.antt =====
-- The scheduler's theorems on two running terminals (student-distrib/interrupts.c and
-- student-distrib/syscalls.c).
use ece391linux_os.Prelude.{replicate, ℕ, ◌<◌, ◌≡◌, refl, ◌⊎◌, none, some, [], ◌∷◌, arith}
use ece391linux_os.Prelude.Int.{pos, minus_one}
use ece391linux_os.Schedule.{no_context, Stack, Scheduler, timer_handler}
use ece391linux_os.Schedule.Fairness.{ticks, ticks_fair}
use ece391linux_os.Schedule.RoundRobin.{Ticked, timer_handler-Ticked, timer_handler-hangs}

abbrev running : ℕ → Stack
running pid = record {
  top = pos 1;
  cells = record { pid = pid; esp = 0; ebp = 0; tss = 0 } ∷ replicate 6 no_context;
}

abbrev empty : Stack
empty = record { top = pos 0; cells = replicate 7 no_context }

-- Terminals 0 and 2 run a process.
abbrev busy_two : Scheduler
busy_two = record {
  stacks = running 1 ∷ empty ∷ running 2 ∷ [];
  current_process = 0;
  current_terminal = 0;
  current_pid = 1;
  terminal_request = minus_one;
  schedule_tick = 0;
  last_esp = 0;
  last_ebp = 0;
  esp0 = 0;
  program_page = 0;
  video_page = 0;
  video_mem = 0;
}

abbrev asleep : Scheduler
asleep = record busy_two { stacks = empty ∷ empty ∷ empty ∷ [] }

ticks_fair_example :
    (s1 : Scheduler) × (s2 : Scheduler) × (s3 : Scheduler) × (ticks 3 0 1 busy_two ≡ some s1)
    × (ticks 3 0 2 busy_two ≡ some s2)
    × (ticks 3 0 3 busy_two ≡ some s3)
    × ((s1.current_process ≡ 2) ⊎ ((s2.current_process ≡ 2) ⊎ (s3.current_process ≡ 2)))
ticks_fair_example = ticks_fair 3 0 2 busy_two (omega arith) refl (omega arith) (omega arith) refl

timer_handler-Ticked_example :
    (t : Scheduler) × (timer_handler 3 0 busy_two ≡ some t)
    × Ticked busy_two t
    × (t.current_process < 3)
timer_handler-Ticked_example =
    timer_handler-Ticked 3 0 busy_two (omega arith) refl (omega arith) refl

timer_handler-hangs_example : timer_handler 7 0 asleep ≡ none
timer_handler-hangs_example = timer_handler-hangs 7 0 asleep refl (omega arith) refl
