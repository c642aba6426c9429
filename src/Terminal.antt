-- ===== src/Terminal.antt =====
-- The three terminals: `terminal_switch`, `terminal_open`, `terminal_read`, the read buffers, the
-- return switches and the hardware cursor of student-distrib/terminal.c.
-- A page of video memory is its list of cells, so that a `memcpy` of 0x1000 bytes from page to page
-- is an assignment. Reading behind an array of three gives 0, writing there changes nothing.
pub mod Switching
pub mod Input
use ece391linux_os.Prelude.{
  get_or, set, modify, ltb, ◌==◌, if◌then◌else◌, ℕ, zero, suc, ◌+◌, ◌-◌, ◌*◌, ◌/◌, ◌%◌, ◌^◌, bit_or,
  not, ◌&&◌, ◌||◌, Option, none, some, List, [], ◌∷◌, ◌++◌,
}
use ece391linux_os.Prelude.Int.{ℤ, pos, negsuc, ltb_ℤ}
use ece391linux_os.Prelude.Range.{count_up, update_range}
use ece391linux_os.Console.{
  Cell, blank, Screen, set_screen_x, set_screen_y, next_line, outb, cursor_update, terminal_clear,
  eoi_keyboard, terminal_write,
}
use ece391linux_os.Paging.{video}
use ece391linux_os.Schedule.{Context, Stack}
use ece391linux_os.Text.{strlen, strncpy}

-- `screen` is the displayed page with the cursor; `pages` are the pages from VIDEO_1 on, `cursors`
-- the fields `cursor_x` and `cursor_y` of `switch_data_arr`, `vid_data` its saved screens.
pub record Terminals : Type 0 where
  pub current_terminal : ℕ
  pub current_process : ℕ
  pub current_pid : ℕ
  pub num_active_processes : ℤ
  pub terminal_request : ℤ
  pub terminal_running : List ℕ
  pub screen : Screen
  pub pages : List (List Cell)
  pub cursors : List (ℕ × ℕ)
  pub vid_data : List (List Cell)
  pub stacks : List Stack
  pub return_switch : List ℕ
  pub read_buffers : List (List ℕ)

abbrev pub no_page : List Cell
no_page = []

abbrev pub no_cursor : ℕ × ℕ
no_cursor = (0, 0)

-- The `uint8_t` that an `int` is cut to.
abbrev pub to_u8 : ℤ → ℕ
to_u8 (pos n) = n % 256
to_u8 (negsuc n) = 255 - n % 256

-- How `terminal_switch` ends: with FAILURE; with SUCCESS at once; with SUCCESS after the next timer
-- tick, which it waits for; or in the execution of a new shell.
pub data Switch : Type 0 where
  out_of_range : Switch
  unchanged : Switch
  resumed : Terminals → Switch
  fresh : Terminals → Switch

-- The displayed page and cursor are saved, those of `num` displayed.
abbrev pub save_screen : Terminals → Terminals
save_screen s =
    let t = s.current_terminal in
    record s {
      cursors = set s.cursors t (to_u8 s.screen.screen_x, to_u8 s.screen.screen_y);
      pages = set s.pages t s.screen.video;
    }

abbrev pub show_page : ℕ → Terminals → Terminals
show_page num s = record s {
  current_terminal = num;
  screen = record s.screen { video = get_or s.pages num no_page };
}

unfoldable pub terminal_switch : ℕ → Terminals → Switch
terminal_switch num s =
    let running = get_or s.terminal_running num 0 in
    let displayed = show_page num (save_screen s) in
    let (x, y) = get_or displayed.cursors num no_cursor in
    if ltb 3 num
    then out_of_range
    else (if num == s.current_terminal
        then unchanged
        else (if not (ltb_ℤ s.num_active_processes (pos 6)) && (running == 0)
            then unchanged
            else (if running == 1
                then resumed (record displayed {
                  screen = eoi_keyboard (
                      cursor_update (set_screen_y (pos y) (set_screen_x (pos x) displayed.screen)));
                  terminal_request = pos num;
                })
                else fresh (record displayed {
                  screen = eoi_keyboard (terminal_clear displayed.screen);
                  current_pid = 0;
                  current_process = num;
                }))))

-- MAX_BUFFER_SIZE
abbrev pub read_buffer_size : ℕ
read_buffer_size = 128

unfoldable pub clear_read_buffer : Terminals → Terminals
clear_read_buffer s = record s {
  read_buffers =
      modify s.read_buffers s.current_terminal (update_range read_buffer_size 0 (λ _. 0));
}

-- The outer loop does not use its counter.
unfoldable pub clear_all_read_buffers : Terminals → Terminals
clear_all_read_buffers s = count_up 3 0 (λ j t. clear_read_buffer t) s

abbrev pub clear_context : Context → Context
clear_context c = record c { pid = 0; esp = 0; ebp = 0 }

-- What the loop of `terminal_open` sets for terminal `i`.
abbrev pub open_one : ℕ → Terminals → Terminals
open_one i s = record s {
  return_switch = set s.return_switch i 0;
  terminal_running = set s.terminal_running i 0;
  cursors = set s.cursors i (0, 0);
  stacks =
      modify s.stacks i
        (λ k. record k { top = pos 0; cells = update_range 7 0 clear_context k.cells });
  vid_data = modify s.vid_data i (update_range 2000 0 (λ _. blank));
}

unfoldable pub terminal_open : Terminals → Terminals
terminal_open s = count_up 3 0 open_one (record (clear_all_read_buffers s) { current_terminal = 0 })

-- `terminal_read` up to its wait for `return_switch` to go off; `none` is its return of FAILURE.
unfoldable pub terminal_read_start : Option (List ℕ) → ℤ → Terminals → Option Terminals
terminal_read_start none nbytes s = none
terminal_read_start (some buf) nbytes s =
    if ltb_ℤ nbytes (pos 1)
    then none
    else some (record s { return_switch = set s.return_switch s.current_process 1 })

-- The loop `while (read_buffer[cip][i] != '\n')` within the buffer; `none` where it leaves it.
unfoldable pub find_newline : ℕ → ℕ → List ℕ → Option ℕ
find_newline zero i b = none
find_newline (suc n) i b =
    let rest = find_newline n (i + 1) b in if get_or b i 0 == b'\n' then some i else rest

-- The write of NUL to `read_buffer[cip][i]`. The rows of 128 bytes stand one behind the other, so
-- that from 128 on `i` is in the row of another terminal; a write behind the last row is left out.
abbrev pub end_row : ℕ → ℕ → List (List ℕ) → List (List ℕ)
end_row cip i rows = modify rows (cip + i / read_buffer_size) (λ b. set b (i % read_buffer_size) 0)

-- The bytes from the start of row `cip` on.
abbrev pub rows_from : ℕ → List (List ℕ) → List ℕ
rows_from cip [] = []
rows_from zero (b ∷ rows) = b ++ rows_from zero rows
rows_from (suc cip) (b ∷ rows) = rows_from cip rows

-- `terminal_read` behind its wait, with `cip`, the process's terminal when it was called.
unfoldable pub terminal_read_end : ℕ → List ℕ → ℕ → Terminals → Option (Terminals × List ℕ × ℕ)
terminal_read_end cip buf nbytes s =
    let rows = end_row cip (nbytes - 1) s.read_buffers in
    elim (find_newline read_buffer_size 0 (get_or rows cip [])) [
      | none ↦ none
      | some i ↦ some (
        record s {
          read_buffers = rows;
          screen = eoi_keyboard (cursor_update (next_line s.screen));
        },
        strncpy buf (rows_from cip rows) nbytes,
        i + 1,
      )
    ]

unfoldable pub terminal_print : List ℕ → Screen → Screen
terminal_print string s = (terminal_write string (pos (strlen string)) s).0

unfoldable pub get_return_switch : Terminals → ℕ
get_return_switch s = get_or s.return_switch s.current_process 0

unfoldable pub flip_return_switch : Terminals → Terminals
flip_return_switch s = record s {
  return_switch = modify s.return_switch s.current_terminal (λ r. if r == 0 then 1 else 0);
}

unfoldable pub set_return_switch_spec : ℕ → ℕ → Terminals → Terminals
set_return_switch_spec terminal value s =
    if ltb terminal 3 && (value == 0 || value == 1 || value == 2)
    then record s { return_switch = set s.return_switch terminal value }
    else s

-- `top` and `bottom` are what the two reads of the cursor registers give.
unfoldable pub cursor_enable_spec : ℕ → ℕ → ℕ → ℕ → Screen → Screen
cursor_enable_spec top bottom top_scanline bottom_scanline s =
    outb (bit_or (bottom % 256 / 32 * 32) bottom_scanline) 0x3D5
      (outb 0x0B 0x3D4 (outb (bit_or (top % 256 / 64 * 64) top_scanline) 0x3D5 (outb 0x0a 0x3D4 s)))

unfoldable pub cursor_enable : Screen → Screen
cursor_enable s = outb 25 0x3D5 (outb 0x0B 0x3D4 (outb 0 0x3D5 (outb 0x0A 0x3D4 s)))

unfoldable pub cursor_disable : Screen → Screen
cursor_disable s = outb 0x20 0x3D5 (outb 0x0A 0x3D4 s)

-- The position from the bytes that the two reads give.
unfoldable pub cursor_position : ℕ → ℕ → Screen → Screen × ℕ
cursor_position low high s = (outb 0x0E 0x3D4 (outb 0x0F 0x3D4 s), low % 256 + 2 ^ 8 * (high % 256))
