-- ===== src/Examples/Switches.antt =====
-- The theorems about the terminals and the interrupts at concrete inputs
-- (student-distrib/terminal.c, student-distrib/i8259.c, student-distrib/interrupts.c).
use ece391linux_os.Prelude.{
  replicate, length-replicate, get_or-replicate, ◌<◌, get_or, ltb, ◌==◌, ℕ, zero, suc, ◌+◌, ◌≡◌,
  refl, ◌≢◌, ◌||◌, none, some, List, [], ◌∷◌, arith,
}
use ece391linux_os.Prelude.Int.{pos, minus_one}
use ece391linux_os.Examples.Data.{page}
use ece391linux_os.Interrupts.Gates.{
  is_callable, is_interrupt_gate, gate_of, is_device_or_call, initialize_idt-gates,
}
use ece391linux_os.Terminal.{Terminals, terminal_switch, terminal_read_end}
use ece391linux_os.Terminal.Input.{EndsAt, Gets, terminal_read_end_lem}
use ece391linux_os.Terminal.Switching.{Switched, terminal_switch-Switched}

abbrev buffer_ab : List ℕ
buffer_ab = 97 ∷ 98 ∷ b'\n' ∷ replicate 125 0

-- Terminal 0 is displayed, terminal 1 is running too, and the line in buffer 0 is "ab".
abbrev two_terminals : Terminals
two_terminals = record {
  current_terminal = 0;
  current_process = 0;
  current_pid = 1;
  num_active_processes = pos 2;
  terminal_request = minus_one;
  terminal_running = 1 ∷ 1 ∷ 0 ∷ [];
  screen = page;
  pages = page.video ∷ page.video ∷ page.video ∷ [];
  cursors = (0, 0) ∷ (7, 2) ∷ (0, 0) ∷ [];
  vid_data = [];
  stacks = [];
  return_switch = 0 ∷ 0 ∷ 0 ∷ [];
  read_buffers = buffer_ab ∷ [] ∷ [] ∷ [];
}

terminal_switch-Switched_example : Switched 1 two_terminals (terminal_switch 1 two_terminals)
terminal_switch-Switched_example =
    terminal_switch-Switched 1 two_terminals (omega arith) refl refl (refl, refl)

ab-EndsAt : EndsAt 2 buffer_ab
ab-EndsAt = record {
  room = omega (arith, length-replicate {A = ℕ} 125 0);
  inside = omega arith;
  newline = refl;
  only = only;
  no_nul = no_nul;
}
  where
    only : (j : ℕ) → j ≢ 2 → get_or buffer_ab j 0 ≢ b'\n'
    only zero h = λ e. absurd (omega (arith, e))
    only (suc zero) h = λ e. absurd (omega (arith, e))
    only (suc (suc zero)) h = absurd (h refl)
    only (suc (suc (suc j))) h = λ e. absurd (omega (arith, e, get_or-replicate {A = ℕ} 125 j 0))

    no_nul : (j : ℕ) → j < 2 → get_or buffer_ab j 0 ≢ 0
    no_nul zero h = λ e. absurd (omega (arith, e))
    no_nul (suc zero) h = λ e. absurd (omega (arith, e))
    no_nul (suc (suc j)) h = absurd (omega arith)

-- A read of 1023 bytes, as the shell's, writes its NUL behind the row.
terminal_read_end_example :
    (1023 ≢ 2 + 1
      → (t : Terminals) × (copied : List ℕ) × (terminal_read_end 0
            (replicate 1024 1)
            1023
            two_terminals
          ≡ some (t, copied, 2 + 1))
        × Gets 2 1023 buffer_ab (replicate 1024 1) copied)
    × (1023 ≡ 2 + 1 → terminal_read_end 0 (replicate 1024 1) 1023 two_terminals ≡ none)
terminal_read_end_example =
    terminal_read_end_lem 0 2 1023 (replicate 1024 1) two_terminals ab-EndsAt (omega arith)

initialize_idt-gates_example :
    (is_callable (gate_of 0x80) ≡ is_device_or_call 0x80)
    × (((gate_of 0x80).present == 1) ≡ (ltb 0x80 0x20 || is_device_or_call 0x80))
    × (is_interrupt_gate (gate_of 0x80) ≡ ((gate_of 0x80).present == 1))
initialize_idt-gates_example = initialize_idt-gates 0x80 (omega arith)
