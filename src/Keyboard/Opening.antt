-- ===== src/Keyboard/Opening.antt =====
-- `keyboard_open` and `clear_all_keyboard_buffers` of student-distrib/keyboard.c.
use ece391linux_os.Prelude.{length, get_or, ℕ, ◌<◌, ◌≡◌, List, arith}
use ece391linux_os.Prelude.Range.{update_range, get_or-update_range_in}
use ece391linux_os.History.{History, clear_history_buffer}
use ece391linux_os.Line.{Line, clear_line}

-- The lines of the terminals and the histories of the processes. The two kinds of arrays are
-- cleared one after the other, each element as `clear_keyboard_buffer` and `clear_history_buffer`
-- clear it.
unfoldable pub clear_all_keyboard_buffers : List Line → List History → List Line × List History
clear_all_keyboard_buffers lines histories =
    (update_range 3 0 clear_line lines, update_range 7 0 clear_history_buffer histories)

-- The last part is `key_flag`; `keyboard_open` returns SUCCESS.
unfoldable pub keyboard_open : List Line → List History → (List Line × List History) × ℕ
keyboard_open lines histories = (clear_all_keyboard_buffers lines histories, 0)

-- `keyboard_open` clears the line of each terminal and the history of each process.
keyboard_open_lem :
    (lines : List Line) (histories : List History) (l : Line) (h : History)
    → length lines ≡ 3
    → length histories ≡ 7
    → ((t : ℕ)
        → t < 3
        → get_or (keyboard_open lines histories).0.0 t l ≡ clear_line (get_or lines t l))
      × ((k : ℕ)
          → k < 7
          → get_or (keyboard_open lines histories).0.1 k h
            ≡ clear_history_buffer (get_or histories k h))
unfolding keyboard_open clear_all_keyboard_buffers
keyboard_open_lem lines histories l h three seven = (
  λ t lt.
      get_or-update_range_in clear_line l 3 0 t lines (omega arith) (omega (arith, lt))
        (omega (arith, lt, three)),
  λ k lt.
      get_or-update_range_in clear_history_buffer h 7 0 k histories (omega arith)
        (omega (arith, lt)) (omega (arith, lt, seven)),
)
