-- ===== src/History.antt =====
-- The lines that a process has been sent: `history`, `historyIDX`, `historyBASE` and `historySIZE`
-- of student-distrib/keyboard.c, for one process. The rows form a ring; `base` is the row that the
-- next line goes to and `idx` the row that the arrow keys are at.
pub mod Recall
use ece391linux_os.Prelude.{
  get_or, set, modify, ltb, ◌==◌, if◌then◌else◌, ℕ, zero, suc, ◌+◌, ◌-◌, ◌%◌, Bool, true, false,
  ◌&&◌, ◌||◌, List, [],
}
use ece391linux_os.Prelude.Range.{count_up, update_range}
use ece391linux_os.Line.{Line, clear_line}

abbrev pub num_history_buffers : ℕ
num_history_buffers = 20

pub record History : Type 0 where
  pub rows : List (List ℕ)
  pub idx : ℕ
  pub base : ℕ
  pub size : ℕ

-- A line feed is stored as NUL.
abbrev pub stored : ℕ → ℕ
stored c = if c == b'\n' || c == 0 then 0 else c

abbrev pub copy_row : List ℕ → List ℕ → List ℕ
copy_row chars row = count_up 128 0 (λ i r. set r i (stored (get_or chars i 0))) row

unfoldable pub copy_to_history : List ℕ → History → History
copy_to_history chars h = record h { rows = modify h.rows h.base (copy_row chars) }

unfoldable pub increment_history_indices : History → History
increment_history_indices h =
    let b = (h.base + 1) % num_history_buffers in
    record h {
      base = b;
      idx = b;
      size = if ltb h.size num_history_buffers then h.size + 1 else h.size;
    }

unfoldable pub clear_history_buffer : History → History
clear_history_buffer h = record h {
  rows = update_range num_history_buffers 0 (update_range 128 0 (λ _. 0)) h.rows;
  idx = 0;
  base = 0;
  size = 0;
}

-- The loop that copies a row into the line, `n` rounds from cell `i`, up to NUL or a line feed.
unfoldable pub load_row : ℕ → ℕ → List ℕ → Line → Line
load_row zero i row l = l
load_row (suc n) i row l =
    let c = get_or row i 0 in
    let rest =
      load_row n (i + 1) row (record l {
        chars = set l.chars i c;
        idx = (l.idx + 1) % 256;
        size = (l.size + 1) % 256;
      }) in
    if c == 0 || c == b'\n' then l else rest

-- Where an arrow key leaves the history, and whether the line is to be replaced. The first test of
-- `down_history` implies the second, which leads to the same return.
unfoldable pub up : List ℕ → History → History × Bool
up chars h =
    let saved = if h.idx == h.base then copy_to_history chars h else h in
    let i = if h.idx == 0 then 19 else h.idx - 1 in
    if ltb h.size num_history_buffers && h.idx == 0
    then (h, false)
    else (if i == h.base then (saved, false) else (record saved { idx = i }, true))

unfoldable pub down : History → History × Bool
down h =
    if h.idx == h.base
    then (h, false)
    else (record h { idx = (h.idx + 1) % num_history_buffers }, true)

-- The recalled row in the cleared line.
unfoldable pub recall : History → Line → Line
recall h l = load_row 128 0 (get_or h.rows h.idx []) (clear_line l)
