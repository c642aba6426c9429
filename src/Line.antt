-- ===== src/Line.antt =====
-- The line being typed at one terminal: `buffer[t]`, `bufferIDX[t]` and `bufferSIZE[t]` of
-- student-distrib/keyboard.c, and what its editing routines do to them. The display calls of the
-- same routines are in `Keyboard`.
pub mod Editing
pub mod Text
use ece391linux_os.Prelude.{
  get_or, set, ◌==◌, if◌then◌else◌, ℕ, zero, suc, ◌+◌, ◌-◌, ◌%◌, ◌||◌, List,
}
use ece391linux_os.Prelude.Int.{ℤ, pos, pos_part, ltb_ℤ, minus_one}
use ece391linux_os.Prelude.Range.{update_range}

abbrev pub max_buffer_size : ℕ
max_buffer_size = 128

abbrev pub max_characters : ℕ
max_characters = 127

-- `bufferIDX` and `bufferSIZE` are bytes.
pub record Line : Type 0 where
  pub chars : List ℕ
  pub idx : ℕ
  pub size : ℕ

-- The loop of `keyboard_insert`, `n` rounds down from `i`: each moves cell `i` to `i + 1`.
unfoldable pub shift_right : ℕ → ℕ → List ℕ → List ℕ
shift_right zero i cs = cs
shift_right (suc n) i cs = shift_right n (i - 1) (set cs (i + 1) (get_or cs i 0))

unfoldable pub insert_char : ℕ → Line → Line
insert_char c l = record l {
  chars = set (shift_right (l.size + 1 - l.idx) l.size l.chars) l.idx c;
  idx = (l.idx + 1) % 256;
  size = (l.size + 1) % 256;
}

-- The loop of `keyboard_backspace`, `n` rounds up from `i`: each moves cell `i + 1` to `i`.
unfoldable pub shift_left : ℕ → ℕ → List ℕ → List ℕ
shift_left zero i cs = cs
shift_left (suc n) i cs = shift_left n (i + 1) (set cs i (get_or cs (i + 1) 0))

-- Called only with `idx` above 0.
unfoldable pub delete_char : Line → Line
delete_char l = record l {
  chars = set (shift_left (l.size - (l.idx - 1)) (l.idx - 1) l.chars) l.size 0;
  idx = (l.idx + 255) % 256;
  size = (l.size + 255) % 256;
}

unfoldable pub clear_line : Line → Line
clear_line l = record l { chars = update_range 128 0 (λ _. 0) l.chars; idx = 0; size = 0 }

unfoldable pub left : Line → Line
left l = if l.idx == 0 then l else record l { idx = (l.idx + 255) % 256 }

unfoldable pub right : Line → Line
right l = if l.idx == l.size then l else record l { idx = (l.idx + 1) % 256 }

-- The copying loop of `keyboard_read`, `n` rounds from `i`, and its result.
unfoldable pub read_line : ℕ → ℕ → List ℕ → List ℕ → List ℕ × ℤ
read_line zero i cs output = (output, pos i)
read_line (suc n) i cs output =
    let c = get_or cs i 0 in
    let out = set output i c in
    let rest = read_line n (i + 1) cs out in
    if c == b'\n' || c == 0
    then (out, pos i)
    else (if i + 1 == max_buffer_size then (set out (i + 1) b'\n', pos (i + 1)) else rest)

unfoldable pub keyboard_read : List ℕ → ℤ → List ℕ → List ℕ × ℤ
keyboard_read cs nbytes output =
    let read = read_line (pos_part nbytes) 0 cs output in
    if ltb_ℤ nbytes (pos 1) then (output, minus_one) else read
