-- ===== src/Examples/Sessions.antt =====
-- The theorems about the user programs of syscalls/: the counter on the kernel, the shell over calls
-- that give one line, and grep over calls that keep what is printed.
use ece391linux_os.Examples.Calls.{machine}
use ece391linux_os.Prelude.{
  get_or, set, replicate, length-replicate, ℕ, zero, suc, ◌+◌, ◌≤◌, ◌<◌, ◌≡◌, refl, ◌≢◌, ◌⊎◌, none,
  some, List, [], ◌∷◌, ◌++◌, arith,
}
use ece391linux_os.Prelude.Int.{ℤ, pos, pos_part, minus_one}
use ece391linux_os.Examples.Data.{page}
use ece391linux_os.Filesystem.{no_entry}
use ece391linux_os.Text.{strlen, text}
use ece391linux_os.User.{Run, ◌>>=◌, ◌>>◌, Calls, bytes, ece391_fdputs}
use ece391linux_os.User.Counter.{count_loop}
use ece391linux_os.User.Counter.Counting.{show_numbers, count_loop-shows}
use ece391linux_os.User.Grep.{show_line, search_line}
use ece391linux_os.User.Grep.Search.{Occurs, search_line_lem}
use ece391linux_os.User.Kernel.Output.{on_kernel}
use ece391linux_os.User.Shell.{report, shell_loop}
use ece391linux_os.User.Shell.Lines.{IsLineTyped}
use ece391linux_os.User.Shell.Session.{Holds, shell_loop-answers}

-- The keyboard gives "ls"; every other call fails, and the programs started are kept.
abbrev ls_typed : List ℕ
ls_typed = bytes "ls" ++ (b'\n' ∷ replicate 1021 0)

abbrev typist : Calls (List (List ℕ))
typist = record {
  read = λ fd buf n w. some (w, record { buf = ls_typed; ret = pos 3 });
  write = λ fd buf n w. some (w, n);
  open_file = λ name w. some (w, minus_one);
  close = λ fd w. some (w, minus_one);
  getargs = λ buf n w. some (w, record { buf = buf; ret = minus_one });
  vidmap = λ start w. some (w, minus_one);
  call_sys = λ num w. some (w, minus_one);
}

abbrev start : List ℕ → Run (List (List ℕ)) ℤ
start command w = some (text 1024 command ∷ w, pos 0)

ls-IsLineTyped : IsLineTyped (bytes "ls")
ls-IsLineTyped = record { short = omega arith; no_nul = letters }
  where
    letters : (k : ℕ) → k < 2 → get_or (bytes "ls") k 0 ≢ 0
    letters zero h = λ e. absurd (omega (arith, e))
    letters (suc zero) h = λ e. absurd (omega (arith, e))
    letters (suc (suc k)) h = absurd (omega arith)

ls-Holds : Holds (bytes "ls") ls_typed
ls-Holds = record {
  room = omega (arith, length-replicate {A = ℕ} 1021 0);
  bytes_of = same;
  ending = refl;
}
  where
    same : (k : ℕ) → k < 2 → get_or ls_typed k 0 ≡ get_or (bytes "ls") k 0
    same zero h = refl
    same (suc zero) h = refl
    same (suc (suc k)) h = absurd (omega arith)

prompt_shown : ece391_fdputs typist (pos 1) (bytes "391OS> ") [] ≡ some ([], tt)
unfolding ece391_fdputs
prompt_shown = refl

shell_loop-answers_example :
    let command = set ls_typed 2 0 in
    let loop = shell_loop typist start in
    (text 1024 command ≡ bytes "ls")
    × (bytes "ls" ≡ bytes "exit" → loop 4 (replicate 1024 0) [] ≡ some ([], pos 0))
    × (bytes "ls" ≡ [] → loop 4 (replicate 1024 0) [] ≡ loop 3 command [])
    × (bytes "ls" ≢ bytes "exit"
        → bytes "ls" ≢ []
        → loop 4 (replicate 1024 0) []
          ≡ (do rval ← start command; report typist start rval; loop 3 command) [])
shell_loop-answers_example =
    shell_loop-answers typist start 3 (bytes "ls") (replicate 1024 0) ls_typed [] [] []
      ls-IsLineTyped prompt_shown refl ls-Holds

-- What is written, up to the NUL.
abbrev printer : Calls (List ℕ)
printer = record {
  read = λ fd buf n w. none;
  write = λ fd buf n w. some (w ++ text (pos_part n) buf, n);
  open_file = λ name w. some (w, minus_one);
  close = λ fd w. some (w, minus_one);
  getargs = λ buf n w. some (w, record { buf = buf; ret = minus_one });
  vidmap = λ start w. some (w, minus_one);
  call_sys = λ num w. some (w, minus_one);
}

count_loop-shows_example :
    count_loop (on_kernel no_entry 0 (pos 0)) 12 0 (replicate 1024 0) machine
    ≡ some (record machine { screen = show_numbers 12 0 page }, pos 0)
count_loop-shows_example =
    count_loop-shows no_entry 0 (pos 0) 12 0 (replicate 1024 0) machine refl (omega arith)
      (omega (arith, length-replicate {A = ℕ} 1024 0))

-- "an ant" in a file "f".
abbrev ants : List ℕ
ants = bytes "an ant" ++ (0 ∷ [])

some_text : 0 < strlen (bytes "ant")
unfolding strlen
some_text = omega arith

search_line_example :
    ((k : ℕ) × (0 ≤ k)
      × (k < 0 + 6)
      × Occurs (bytes "ant") ants k
      × (search_line printer 6 0 0 (bytes "ant") (bytes "f") ants []
          ≡ show_line printer (bytes "f") ants []))
    ⊎ (((k : ℕ) → 0 ≤ k → k < 0 + 6 → ¬ Occurs (bytes "ant") ants k)
        × (search_line printer 6 0 0 (bytes "ant") (bytes "f") ants [] ≡ some ([], tt)))
search_line_example =
    search_line_lem printer 0 (bytes "ant") (bytes "f") ants 6 0 [] some_text (omega arith)
