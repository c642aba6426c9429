-- ===== src/Examples/Keys.antt =====
-- The theorems about keys on a terminal with a typed line (student-distrib/keyboard.c).
use ece391linux_os.Prelude.{get_or, replicate, length-replicate, ℕ, ◌<◌, ◌≡◌, refl, none, [], arith}
use ece391linux_os.Examples.Data.{page, line_ab, no_history, line_ab-IsLine, line_ab-IsTyped}
use ece391linux_os.Keyboard.{Keyboard, translate, handle_keyboard_input}
use ece391linux_os.Keyboard.Enter.{keyboard_enter-delivers}
use ece391linux_os.Keyboard.Keys.{handle-released, IsTyping, handle-types}
use ece391linux_os.Line.Text.{text_of, insert_at}

abbrev terminal : Keyboard
terminal = record {
  shift_down = 0;
  caps_lock = 0;
  ctrl_down = 0;
  alt_down = 0;
  line = line_ab;
  history = no_history;
  screen = page;
  read_buffer = replicate 128 0;
  return_switch = 1;
}

keyboard_enter-delivers_example :
    let after = (handle_keyboard_input 0x1C terminal).0 in
    ((j : ℕ) → j < 2 → get_or after.read_buffer j 0 ≡ get_or line_ab.chars j 0)
    × (get_or after.read_buffer 2 0 ≡ b'\n')
    × ((j : ℕ) → 2 < j → get_or after.read_buffer j 0 ≡ get_or terminal.read_buffer j 0)
    × (after.return_switch ≡ 0)
    × (text_of after.line ≡ [])
keyboard_enter-delivers_example =
    keyboard_enter-delivers terminal line_ab-IsTyped (length-replicate {A = ℕ} 128 0) refl

-- Key 0x10 is Q.
q-IsTyping : IsTyping 0x10 terminal
unfolding translate
q-IsTyping = record {
  pressed = omega arith;
  not_caps = omega arith;
  not_ctrl = omega arith;
  not_alt = omega arith;
  not_left_shift = omega arith;
  not_right_shift = omega arith;
  not_arrow = (omega arith, omega arith, omega arith, omega arith);
  not_backspace = omega arith;
  not_enter = omega arith;
  no_ctrl = omega arith;
  has_character = omega arith;
  no_switch = (omega arith, omega arith, omega arith);
}

handle-types_example :
    let (after, switch) = handle_keyboard_input 0x10 terminal in
    (switch ≡ none)
    × (text_of after.line ≡ insert_at 1 (translate 0x10 terminal) (text_of line_ab))
    × ((handle_keyboard_input 0x0E after).0.line ≡ line_ab)
handle-types_example = handle-types 0x10 terminal line_ab-IsLine (omega arith) q-IsTyping

handle-released_example : handle_keyboard_input 0x90 terminal ≡ (terminal, none)
handle-released_example =
    handle-released 0x90 terminal (omega arith) (omega arith) (omega arith) (omega arith)
      (omega arith) (omega arith)
