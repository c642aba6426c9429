-- ===== src/Keyboard.antt =====
-- What a key does to the displayed terminal: `handle_keyboard_input` of
-- student-distrib/keyboard.c, with the functions that it calls there, and `terminal_return` and
-- `set_return_switch` of student-distrib/terminal.c. `terminal_switch` is the last thing that a
-- key can call; the handler gives the terminal's number and leaves the call to its caller.
pub mod Tables
pub mod Opening
pub mod Enter
pub mod Keys
use ece391linux_os.Prelude.{
  get_or, set, drop, ltb, ◌==◌, if◌then◌else◌, ℕ, ◌+◌, ◌-◌, ◌%◌, Bool, not, ◌&&◌, ◌||◌, Option,
  none, some, List,
}
use ece391linux_os.Prelude.Int.{ℤ, pos, ◌+ℤ◌, ◌-ℤ◌}
use ece391linux_os.Console.{
  Screen, next_line, cursor_update, cursor_update_left, cursor_update_right, terminal_clear,
  terminal_backspace, terminal_write, reset_terminal_keyboard_input,
}
use ece391linux_os.History.{History, copy_to_history, increment_history_indices, up, down, recall}
use ece391linux_os.Keyboard.Tables.{scancode, caps_code, alt_code}
use ece391linux_os.Line.{
  max_buffer_size, max_characters, Line, insert_char, delete_char, clear_line, left, right,
  keyboard_read,
}

-- The modifier keys and, for the displayed terminal, its line, the history of its process, its
-- screen, and the buffer and switch of `terminal_read`.
pub record Keyboard : Type 0 where
  pub shift_down : ℕ
  pub caps_lock : ℕ
  pub ctrl_down : ℕ
  pub alt_down : ℕ
  pub line : Line
  pub history : History
  pub screen : Screen
  pub read_buffer : List ℕ
  pub return_switch : ℕ

-- `key & RELEASE`: bit 7 of the key.
abbrev pub released : ℕ → Bool
released key = not (ltb (key % 256) 128)

-- A toggle between 1 and 0: everything but 1 becomes 1.
abbrev pub toggle : ℕ → ℕ
toggle n = if n == 1 then 0 else 1

-- `bufferSIZE - bufferIDX + 1`
abbrev pub num_chars : Line → ℤ
num_chars l = pos l.size -ℤ pos l.idx +ℤ pos 1

unfoldable pub keyboard_insert : ℕ → Keyboard → Keyboard
keyboard_insert c k =
    let l = insert_char c k.line in
    let n = num_chars k.line in
    let written =
      (terminal_write (drop k.line.idx l.chars) n (record k.screen { key_flag = 1 })).0 in
    record k {
      line = l;
      screen = cursor_update_left (n -ℤ pos 1) (record written { key_flag = 0 });
    }

unfoldable pub keyboard_backspace : Keyboard → Keyboard
keyboard_backspace k =
    let l = delete_char k.line in
    let n = num_chars k.line in
    let s = terminal_backspace k.screen in
    record k {
      line = l;
      screen = cursor_update_left n (terminal_write (drop (k.line.idx - 1) l.chars) n s).0;
    }

unfoldable pub keyboard_left_arrow : Keyboard → Keyboard
keyboard_left_arrow k =
    if k.line.idx == 0
    then k
    else record k { line = left k.line; screen = cursor_update_left (pos 1) k.screen }

unfoldable pub keyboard_right_arrow : Keyboard → Keyboard
keyboard_right_arrow k =
    if k.line.idx == k.line.size
    then k
    else record k { line = right k.line; screen = cursor_update_right (pos 1) k.screen }

-- The line replaced by the row that the history is at, on the screen too.
unfoldable pub show_history : History → Keyboard → Keyboard
show_history h k =
    let l = recall h k.line in
    let s = reset_terminal_keyboard_input k.line.idx k.line.size k.screen in
    record k { line = l; history = h; screen = (terminal_write l.chars (pos l.size) s).0 }

unfoldable pub up_history : Keyboard → Keyboard
up_history k =
    let moved = up k.line.chars k.history in
    if moved.1 then show_history moved.0 k else record k { history = moved.0 }

unfoldable pub down_history : Keyboard → Keyboard
down_history k =
    let moved = down k.history in
    if moved.1 then show_history moved.0 k else record k { history = moved.0 }

unfoldable pub set_return_switch : ℕ → Keyboard → Keyboard
set_return_switch value k =
    if value == 0 || value == 1 then record k { return_switch = value } else k

unfoldable pub terminal_return : Keyboard → Keyboard
terminal_return k =
    if k.return_switch == 1
    then set_return_switch 0 (record k {
      read_buffer = (keyboard_read k.line.chars (pos max_buffer_size) k.read_buffer).0;
    })
    else (if k.return_switch == 0
        then record k { screen = cursor_update (next_line k.screen) }
        else k)

-- The branch of ENTER.
unfoldable pub keyboard_enter : Keyboard → Keyboard
keyboard_enter k =
    let entered = increment_history_indices (copy_to_history k.line.chars k.history) in
    let h = if get_or k.line.chars 0 0 == 0 then k.history else entered in
    let l = record k.line { chars = set k.line.chars k.line.size b'\n' } in
    let returned = terminal_return (record k { line = l; history = h }) in
    record returned { line = clear_line returned.line }

-- The character of a key under the modifiers.
unfoldable pub translate : ℕ → Keyboard → ℕ
translate key k =
    let shift = k.shift_down == 1 in
    let caps = k.caps_lock == 1 in
    let alt = k.alt_down == 1 in
    if shift && not caps && not alt
    then get_or scancode (key + 90) 0
    else (if not shift && caps && not alt
        then get_or caps_code key 0
        else (if shift && caps && not alt
            then get_or caps_code (key + 90) 0
            else (if not shift && not caps && alt
                then get_or alt_code (key + 90) 0
                else get_or scancode key 0)))

-- A key that is not released and not special, without CTRL.
unfoldable pub character_key : ℕ → Keyboard → Keyboard × Option ℕ
character_key key k =
    let c = translate key k in
    if k.line.size == max_characters
    then (k, none)
    else (if c == 0
        then (k, none)
        else (if c == 0xF1
            then (k, some 0)
            else (if c == 0xF2
                then (k, some 1)
                else (if c == 0xF3 then (k, some 2) else (keyboard_insert c k, none)))))

-- With CTRL: only L does something.
unfoldable pub control_key : ℕ → Keyboard → Keyboard
control_key key k =
    if key == 0x26
    then record k { line = clear_line k.line; screen = terminal_clear k.screen }
    else k

-- The keys that are pressed, behind the modifier keys.
unfoldable pub pressed_key : ℕ → Keyboard → Keyboard × Option ℕ
pressed_key key k =
    if key == 0x48
    then (up_history k, none)
    else (if key == 0x50
        then (down_history k, none)
        else (if key == 0x4B
            then (keyboard_left_arrow k, none)
            else (if key == 0x4D
                then (keyboard_right_arrow k, none)
                else (if key == 0x0E
                    then ((if k.line.idx == 0 then k else keyboard_backspace k), none)
                    else (if key == 0x1C
                        then (keyboard_enter k, none)
                        else (if k.ctrl_down == 1
                            then (control_key key k, none)
                            else character_key key k))))))

-- The state after the key, and the terminal to switch to.
unfoldable pub handle_keyboard_input : ℕ → Keyboard → Keyboard × Option ℕ
handle_keyboard_input key k =
    if key == 0x3A
    then (record k { caps_lock = toggle k.caps_lock }, none)
    else (if key == 0x1D
        then (record k { ctrl_down = 1 }, none)
        else (if key == 0x9D
            then (record k { ctrl_down = 0 }, none)
            else (if key == 0x38
                then (record k { alt_down = 1 }, none)
                else (if key == 0xB8
                    then (record k { alt_down = 0 }, none)
                    else (if key == 0x36 || key == 0x2A || key == 0xB6 || key == 0xAA
                        then (record k { shift_down = toggle k.shift_down }, none)
                        else (if released key then (k, none) else pressed_key key k))))))
