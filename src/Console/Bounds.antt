-- ===== src/Console/Bounds.antt =====
-- The cursor stays on the screen (student-distrib/lib.c and student-distrib/terminal.c).
use ece391linux_os.Prelude.{
  length, get_or, set, length-set, ltb, ◌==◌, if◌then◌else◌, Bool-cases, ℕ, zero, suc, ◌+◌, ◌-◌,
  ◌*◌, ◌%◌, ◌<◌, ◌≡◌, refl, ap, ap₂, subst, ◌∙◌, ◌≢◌, inl, inr, false, ◌&&◌, ◌||◌, List, arith,
}
use ece391linux_os.Prelude.Int.{ℤ, pos, pos_part, ◌+ℤ◌, ◌-ℤ◌, ltb_ℤ, eqb_ℤ, minus_one}
use ece391linux_os.Prelude.Range.{count_up-keeps, length-update_range}
use ece391linux_os.Console.{
  Cell, shown, blank, Screen, scale, rem, quot, cursor, move_up, scroll, backspace, next_line, putc,
  cursor_update_spec, cursor_update, write_char, write_chars, terminal_write,
}

-- The cursor is at column `x` and row `y` of the screen, and the page has its size.
pub record At (s : Screen) (x y : ℕ) : Type 0 where
  pub column : s.screen_x ≡ pos x
  pub row : s.screen_y ≡ pos y
  pub x_in : x < 80
  pub y_in : y < 25
  pub page : length s.video ≡ 2000

pub length-move_up : (v : List Cell) → length (move_up v) ≡ length v
unfolding move_up
length-move_up v =
    count_up-keeps (λ i w. length w ≡ length v) (λ i w. set w i (get_or w (i + 80) blank)) 1920 0
      1920 v (λ k t lo hi e. length-set t k _ ∙ e) (omega arith) refl

pub length-scroll : (s : Screen) → length (scroll s).video ≡ length s.video
unfolding scroll
length-scroll s =
    length-update_range (λ _. blank) blank 80 1920 (move_up s.video) ∙ length-move_up s.video

-- The row below, or the last row again.
abbrev pub next_row : ℕ → ℕ
next_row y = if ltb y 24 then y + 1 else y

pub next_line-At : (s : Screen) (x y : ℕ) → At s x y → At (next_line s) 0 (next_row y)
unfolding next_line
next_line-At s x y a =
    let test : ltb_ℤ s.screen_y (pos 24) ≡ ltb y 24 =
      ap (λ r. ltb_ℤ r (pos 24)) a.row ∙ ground arith in
    elim (Bool-cases (ltb y 24)) [
      | inl lt ↦
          rw (test, lt)
            (record {
              column = refl;
              row = ap (λ r. r +ℤ pos 1) a.row ∙ ground arith;
              x_in = omega arith;
              y_in = ground arith;
              page = a.page;
            })
      | inr ge ↦
          rw (test, ge)
            (record {
              column = unfold scroll in refl;
              row = unfold scroll in a.row;
              x_in = omega arith;
              y_in = a.y_in;
              page = length-scroll s ∙ a.page;
            })
    ]

-- A character that `putc` shows: neither line feed nor carriage return.
abbrev pub IsShown : ℕ → Type 0
IsShown c = (c ≢ b'\n') × (c ≢ b'\r')

-- For a character other than line feed and carriage return and a cursor on the screen, `putc` shows
-- it in the cell of the cursor and moves on by a column; at the end of a row it goes back to the
-- start of the same row.
pub putc-At :
    (c : ℕ) (s : Screen) (x y : ℕ)
    → IsShown c
    → At s x y
    → At (putc c s) ((x + 1) % 80) y × ((putc c s).video ≡ set s.video (80 * y + x) (shown c))
unfolding putc
putc-At c s x y h a =
    let plain : (c == b'\n' || c == b'\r') ≡ false = ground (arith, h) in
    let at : cursor s ≡ pos (80 * y + x) =
      ap₂ (λ u v. scale 80 u +ℤ v) a.row a.column ∙ ground arith in
    rw (plain, at)
      (
        record {
          column = ap (λ u. rem (u +ℤ pos 1) 80) a.column ∙ ground arith;
          row =
              ap₂ (λ u v. rem (u +ℤ quot (rem (v +ℤ pos 1) 80) 80) 25) a.row a.column
              ∙ ground (arith, a.y_in, a.x_in);
          x_in = omega arith;
          y_in = a.y_in;
          page = length-set s.video (80 * y + x) (shown c) ∙ a.page;
        },
        refl,
      )

-- One round of `terminal_write` from inside the screen, for any character but a carriage return.
pub write_char-At :
    (c : ℕ) (s : Screen) (x y : ℕ)
    → c ≢ b'\r'
    → At s x y
    → At
        (write_char c s)
        (if c == b'\n' then 0 else (if x == 79 then 0 else x + 1))
        (if c == b'\n' then next_row y else (if x == 79 then next_row y else y))
unfolding write_char
write_char-At c s x y h a =
    let last : eqb_ℤ s.screen_x (pos 79) ≡ (x == 79) = ap (λ u. eqb_ℤ u (pos 79)) a.column in
    elim (Bool-cases (c == b'\n')) [
      | inl nl ↦ rw nl (next_line-At s x y a)
      | inr no_nl ↦
          let printed = (putc-At c s x y (ground arith, h) a).0 in
          let kept : At (record (putc c s) { key_flag = 0 }) ((x + 1) % 80) y = record {
            column = printed.column;
            row = printed.row;
            x_in = printed.x_in;
            y_in = printed.y_in;
            page = printed.page;
          } in
          elim (Bool-cases (x == 79)) [
            | inl full ↦ rw (no_nl, last, full) (next_line-At _ ((x + 1) % 80) y kept)
            | inr room ↦
                let step : (x + 1) % 80 ≡ x + 1 = ground (arith, a.x_in) in
                rw (no_nl, last, room)
                  (subst (λ m. At (record (putc c s) { key_flag = 0 }) m y) step kept)
          ]
    ]

abbrev pub InBounds : Screen → Type 0
InBounds s = (x : ℕ) × (y : ℕ) × At s x y

write_chars-InBounds :
    (n i : ℕ) (output : List ℕ) (s : Screen)
    → ((j : ℕ) → get_or output j 0 ≢ b'\r')
    → InBounds s
    → InBounds (write_chars n i output s)
unfolding write_chars
write_chars-InBounds zero i output s h (x, y, a) = (x, y, a)
write_chars-InBounds (suc n) i output s h (x, y, a) =
    write_chars-InBounds n (i + 1) output (write_char (get_or output i 0) s) h
      (_, _, write_char-At (get_or output i 0) s x y (h i) a)

-- `terminal_write` of a text without carriage return, from inside the screen, leaves the cursor
-- inside the screen, and returns the number of bytes, or -1 if that is not positive.
pub terminal_write-InBounds :
    (buf : List ℕ) (nbytes : ℤ) (s : Screen)
    → ((j : ℕ) → get_or buf j 0 ≢ b'\r')
    → InBounds s
    → InBounds (terminal_write buf nbytes s).0
      × ((terminal_write buf nbytes s).1 ≡ (if ltb_ℤ nbytes (pos 1) then minus_one else nbytes))
unfolding terminal_write
terminal_write-InBounds buf nbytes s h b = elim (Bool-cases (ltb_ℤ nbytes (pos 1))) [
  | inl bad ↦ rw bad (b, refl)
  | inr good ↦
      let (x, y, a) = write_chars-InBounds (pos_part nbytes) 0 buf s h b in
      rw good (
        (
          x,
          y,
          unfold cursor_update cursor_update_spec in
              (record {
                column = a.column;
                row = a.row;
                x_in = a.x_in;
                y_in = a.y_in;
                page = a.page;
              }),
        ),
        refl,
      )
]

-- `backspace` from inside the screen stays inside it.
pub backspace-InBounds : (s : Screen) → InBounds s → InBounds (backspace s)
unfolding backspace
backspace-InBounds s (x, y, a) =
    let at : cursor s -ℤ pos 1
        ≡ (if (x == 0) && (y == 0) then minus_one else pos (80 * y + x - 1)) =
      ap₂ (λ u v. scale 80 u +ℤ v -ℤ pos 1) a.row a.column ∙ ground arith in
    let left : eqb_ℤ s.screen_x (pos 0) ≡ (x == 0) = ap (λ u. eqb_ℤ u (pos 0)) a.column in
    let top : eqb_ℤ s.screen_y (pos 0) ≡ (y == 0) = ap (λ u. eqb_ℤ u (pos 0)) a.row in
    elim (Bool-cases (x == 0)) [
      | inl zx ↦ elim (Bool-cases (y == 0)) [
        | inl zy ↦ rw (left, top, zx, zy) (x, y, a)
        | inr py ↦
            rw (left, top, at, zx, py)
              (
                79,
                y - 1,
                record {
                  column = refl;
                  row = ap (λ u. u -ℤ pos 1) a.row ∙ ground arith;
                  x_in = omega arith;
                  y_in = omega (arith, a.y_in);
                  page = length-set s.video _ blank ∙ a.page;
                },
              )
      ]
      | inr px ↦
          rw (left, at, px)
            (
              x - 1,
              y,
              record {
                column = ap (λ u. u -ℤ pos 1) a.column ∙ ground arith;
                row = a.row;
                x_in = omega (arith, a.x_in);
                y_in = a.y_in;
                page = length-set s.video _ blank ∙ a.page;
              },
            )
    ]
