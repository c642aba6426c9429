-- ===== src/Console.antt =====
-- The screen: the text-mode routines of student-distrib/lib.c (`clear`, `scroll`, `backspace`,
-- `next_line`, `putc`, `puts`), `send_eoi` of student-distrib/i8259.c for the keyboard line, and
-- the output half of student-distrib/terminal.c.
-- `video` is the page that `video_mem` points to, a list of 2000 character and attribute pairs; a
-- write outside the page changes nothing in it. `ports` records the calls of `outb`, the latest
-- first. `cli` and `sti` only shut out the interrupt handlers, which are calls of their own here.
pub mod Bounds
pub mod Saving
pub mod Scroll
pub mod Printing
use ece391linux_os.Prelude.{
  ℕ, zero, suc, ◌+◌, ◌-◌, ◌*◌, ◌/◌, ◌%◌, ◌^◌, Bool, ◌&&◌, ◌||◌, List, [], ◌∷◌, if◌then◌else◌, ltb,
  leb, ◌==◌, get_or, set,
}
use ece391linux_os.Prelude.Int.{ℤ, pos, negsuc, eqb_ℤ, ltb_ℤ, minus_one, pos_part, ◌+ℤ◌, ◌-ℤ◌}
use ece391linux_os.Prelude.Range.{count_up, update_range}

abbrev pub num_cols : ℕ
num_cols = 80

abbrev pub num_rows : ℕ
num_rows = 25

pub record Cell : Type 0 where
  pub char : ℕ
  pub attrib : ℕ

-- The attribute byte of every character that the kernel writes.
abbrev pub shown : ℕ → Cell
shown c = record { char = c; attrib = 7 }

abbrev pub blank : Cell
blank = shown b' '

pub record Screen : Type 0 where
  pub video : List Cell
  pub screen_x : ℤ
  pub screen_y : ℤ
  pub key_flag : ℕ
  pub ports : List (ℕ × ℕ)

abbrev pub set_screen_x : ℤ → Screen → Screen
set_screen_x x s = record s { screen_x = x }

abbrev pub set_screen_y : ℤ → Screen → Screen
set_screen_y y s = record s { screen_y = y }

-- `k * a`, for a positive `k`.
abbrev pub scale : ℕ → ℤ → ℤ
scale k (pos n) = pos (k * n)
scale k (negsuc n) = negsuc (k * suc n - 1)

-- C's `%` and `/` by a positive number round towards zero.
abbrev pub rem : ℤ → ℕ → ℤ
rem (pos n) k = pos (n % k)
rem (negsuc n) k = pos 0 -ℤ pos (suc n % k)

abbrev pub quot : ℤ → ℕ → ℤ
quot (pos n) k = pos (n / k)
quot (negsuc n) k = pos 0 -ℤ pos (suc n / k)

-- `NUM_COLS * screen_y + screen_x`, the cell of the cursor.
abbrev pub cursor : Screen → ℤ
cursor s = scale num_cols s.screen_y +ℤ s.screen_x

abbrev pub put_cell : ℤ → Cell → Screen → Screen
put_cell (pos i) c s = record s { video = set s.video i c }
put_cell (negsuc i) c s = s

unfoldable pub clear : Screen → Screen
clear s = record s { video = update_range 2000 0 (λ _. blank) s.video }

-- The first loop of `scroll` moves each cell up by a row, in the order of the cells.
unfoldable pub move_up : List Cell → List Cell
move_up v = count_up 1920 0 (λ i w. set w i (get_or w (i + 80) blank)) v

unfoldable pub scroll : Screen → Screen
scroll s = record s {
  video = update_range 80 1920 (λ _. blank) (move_up s.video);
  screen_x = pos 0;
}

-- The byte offset `(cursor << 1) - 2` is the cell before the cursor.
unfoldable pub backspace : Screen → Screen
backspace s =
    let erased = put_cell (cursor s -ℤ pos 1) blank s in
    if eqb_ℤ s.screen_x (pos 0) && eqb_ℤ s.screen_y (pos 0)
    then s
    else (if eqb_ℤ s.screen_x (pos 0)
        then record erased { screen_y = s.screen_y -ℤ pos 1; screen_x = pos 79 }
        else record erased { screen_x = s.screen_x -ℤ pos 1 })

unfoldable pub next_line : Screen → Screen
next_line s =
    if ltb_ℤ s.screen_y (pos 24)
    then set_screen_y (s.screen_y +ℤ pos 1) (set_screen_x (pos 0) s)
    else scroll s

-- The row is stepped by `screen_x / NUM_COLS` after `screen_x %= NUM_COLS`.
unfoldable pub putc : ℕ → Screen → Screen
putc c s =
    let x = rem (s.screen_x +ℤ pos 1) num_cols in
    if c == b'\n' || c == b'\r'
    then record s { screen_y = s.screen_y +ℤ pos 1; screen_x = pos 0 }
    else record (put_cell (cursor s) (shown c) s) {
      screen_x = x;
      screen_y = rem (s.screen_y +ℤ quot x num_cols) num_rows;
    }

-- The string is the list of its bytes up to the NUL.
unfoldable pub puts : List ℕ → Screen → Screen × ℕ
puts [] s = (s, 0)
puts (c ∷ str) s = let rest = puts str (putc c s) in if c == 0 then (s, 0) else (rest.0, suc rest.1)

abbrev pub outb : ℕ → ℕ → Screen → Screen
outb v port s = record s { ports = (v, port) ∷ s.ports }

-- The `unsigned short` that an `int` is cut to.
abbrev pub to_u16 : ℤ → ℕ
to_u16 (pos n) = n % 2 ^ 16
to_u16 (negsuc n) = (2 ^ 16 - 1 - n % 2 ^ 16) % 2 ^ 16

unfoldable pub cursor_update_spec : ℤ → ℤ → Screen → Screen
cursor_update_spec x y s =
    let screen_position = to_u16 (scale num_cols y +ℤ x) in
    outb (screen_position % 256) 0x3d5
      (outb 0x0f 0x3d4 (outb (screen_position / 256 % 256) 0x3d5 (outb 0x0e 0x3d4 s)))

unfoldable pub cursor_update : Screen → Screen
cursor_update s = cursor_update_spec s.screen_x s.screen_y s

unfoldable pub cursor_update_left : ℤ → Screen → Screen
cursor_update_left amount s = cursor_update (set_screen_x (s.screen_x -ℤ amount) s)

unfoldable pub cursor_update_right : ℤ → Screen → Screen
cursor_update_right amount s = cursor_update (set_screen_x (s.screen_x +ℤ amount) s)

unfoldable pub terminal_clear : Screen → Screen
terminal_clear s = cursor_update (set_screen_y (pos 0) (set_screen_x (pos 0) (clear s)))

unfoldable pub terminal_backspace : Screen → Screen
terminal_backspace s = cursor_update (backspace s)

-- `EOI | 1` to the master PIC: `send_eoi(IRQ1)`.
abbrev pub eoi_keyboard : Screen → Screen
eoi_keyboard = outb 0x61 0x20

-- One round of the loop of `terminal_write`, for the character `c`.
unfoldable pub write_char : ℕ → Screen → Screen
write_char c s =
    let last_column = eqb_ℤ s.screen_x (pos 79) in
    let printed = record (putc c s) { key_flag = 0 } in
    if c == b'\n' then next_line s else (if last_column then next_line printed else printed)

unfoldable pub write_chars : ℕ → ℕ → List ℕ → Screen → Screen
write_chars zero i output s = s
write_chars (suc n) i output s = write_chars n (i + 1) output (write_char (get_or output i 0) s)

unfoldable pub terminal_write : List ℕ → ℤ → Screen → Screen × ℤ
terminal_write buf nbytes s =
    let done = write_chars (pos_part nbytes) 0 buf s in
    if ltb_ℤ nbytes (pos 1) then (s, minus_one) else (eoi_keyboard (cursor_update done), nbytes)

-- The loop `for (i = size; i > 0; i--) terminal_backspace()`.
unfoldable pub backspaces : ℕ → Screen → Screen
backspaces zero s = s
backspaces (suc n) s = backspaces n (terminal_backspace s)

unfoldable pub reset_terminal_keyboard_input : ℕ → ℕ → Screen → Screen
reset_terminal_keyboard_input index size s =
    backspaces size (cursor_update_right (pos size -ℤ pos index) s)
