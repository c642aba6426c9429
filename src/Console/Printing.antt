-- ===== src/Console/Printing.antt =====
-- What `terminal_write` of student-distrib/terminal.c shows: the text, cell after cell.
use ece391linux_os.Prelude.{
  get_or, set, get_or-set_self, get_or-set_ne, ◌==◌, Bool-cases, ℕ, zero, suc, ◌+◌, ◌-◌, ◌/◌, ◌%◌,
  ◌≤◌, ◌<◌, ◌≡◌, refl, sym, ap, subst, ◌∙◌, ◌⊎◌, inl, inr, true, false, List, arith,
}
use native.Mathlib.Decide.{ℕ_discrete}
use ece391linux_os.Prelude.Int.{pos, ltb_ℤ, eqb_ℤ}
use ece391linux_os.Console.{
  shown, blank, Screen, next_line, putc, cursor_update_spec, cursor_update, write_char, write_chars,
  terminal_write,
}
use ece391linux_os.Console.Bounds.{At, next_row, IsShown, putc-At, write_char-At}

-- The cursor is at cell `at` of the page, counted along the rows.
abbrev pub AtCell : Screen → ℕ → Type 0
AtCell s at = At s (at % 80) (at / 80)

-- One character moves the cursor to the next cell, from the end of a row to the next row too.
write_char-AtCell :
    (c : ℕ) (s : Screen) (at : ℕ)
    → IsShown c
    → AtCell s at
    → at + 1 < 2000
    → AtCell (write_char c s) (at + 1)
write_char-AtCell c s at h a room =
    let step = write_char-At c s (at % 80) (at / 80) h.1 a in
    let plain : c == b'\n' ≡ false = ground (arith, h) in
    elim (Bool-cases (at % 80 == 79)) [
      | inl full ↦
          let x : (at + 1) % 80 ≡ 0 = ground arith in
          let below : next_row (at / 80) ≡ (at + 1) / 80 = ground arith in
          rw (x, ← below) (rw (plain, full) at step)
      | inr more ↦
          let x : (at + 1) % 80 ≡ at % 80 + 1 = ground arith in
          let y : (at + 1) / 80 ≡ at / 80 = ground arith in rw (x, y) (rw (plain, more) at step)
    ]

write_char-video :
    (c : ℕ) (s : Screen) (at : ℕ)
    → IsShown c
    → AtCell s at
    → at + 1 < 2000
    → (write_char c s).video ≡ set s.video at (shown c)
unfolding write_char
write_char-video c s at h a room =
    let plain : c == b'\n' ≡ false = ground (arith, h) in
    let shows : (putc c s).video ≡ set s.video at (shown c) =
      (putc-At c s (at % 80) (at / 80) h a).1 ∙ ap (λ i. set s.video i (shown c)) (omega arith) in
    elim (Bool-cases (eqb_ℤ s.screen_x (pos 79))) [
      | inl full ↦
          let last : eqb_ℤ (pos (at % 80)) (pos 79) ≡ true =
            ap (λ u. eqb_ℤ u (pos 79)) (sym a.column) ∙ full in
          let lower : ltb_ℤ (putc c s).screen_y (pos 24) ≡ true =
            ap (λ u. ltb_ℤ u (pos 24)) (putc-At c s (at % 80) (at / 80) h a).0.row ∙ ground arith in
          rw (plain, full) (unfold next_line in rw lower shows)
      | inr more ↦ rw (plain, more) shows
    ]

-- Below the last cell the characters appear in the cells from the cursor on, the other cells stay
-- as they were, and the cursor ends behind the text.
pub write_chars_lem :
    (n i at : ℕ) (output : List ℕ) (s : Screen)
    → ((j : ℕ) → i ≤ j → j < i + n → IsShown (get_or output j 0))
    → AtCell s at
    → at + n < 2000
    → let t = write_chars n i output s in
      AtCell t (at + n)
      × ((k : ℕ) → k < n → get_or t.video (at + k) blank ≡ shown (get_or output (i + k) 0))
      × ((k : ℕ) → (k < at) ⊎ (at + n ≤ k) → get_or t.video k blank ≡ get_or s.video k blank)
unfolding write_chars
write_chars_lem zero i at output s h a room =
    let z : at + 0 ≡ at = omega arith in (rw z a, λ k l. absurd (omega arith), λ k o. refl)
write_chars_lem (suc n) i at output s h a room =
    let c = get_or output i 0 in
    let ok = h i (omega arith) (omega arith) in
    let video = write_char-video c s at ok a (omega arith) in
    let (a', inside, outside) =
      write_chars_lem n (i + 1) (at + 1) output (write_char c s)
        (λ j lo hi. h j (omega arith) (omega arith)) (write_char-AtCell c s at ok a (omega arith))
        (omega arith) in
    let e : at + suc n ≡ at + 1 + n = omega arith in
    (
      rw e a',
      λ k l. elim (ℕ_discrete k 0) [
        | yes z ↦
            let here : at + k ≡ at = omega arith in
            let there : i + k ≡ i = omega arith in
            rw (here, there)
              (outside at (inl (omega arith))
                ∙ rw video (get_or-set_self s.video at (shown c) blank (omega (arith, a.page))))
        | no nz ↦
            let here : at + k ≡ at + 1 + (k - 1) = omega arith in
            let there : i + k ≡ i + 1 + (k - 1) = omega arith in
            rw (here, there) (inside (k - 1) (omega arith))
      ],
      λ k o.
          outside k (elim o [ inl l ↦ inl (omega arith) | inr g ↦ inr (omega arith) ])
          ∙ rw video (
              get_or-set_ne s.video at k (shown c) blank
                (elim o [ inl l ↦ omega arith | inr g ↦ omega arith ])),
    )

-- A text of `n` characters, none a line feed or carriage return, that ends before the last cell:
-- `terminal_write` shows it from the cursor on, keeps every other cell, leaves the cursor behind
-- it and returns `n`.
pub terminal_write-shows :
    (n at : ℕ) (buf : List ℕ) (s : Screen)
    → 0 < n
    → ((j : ℕ) → j < n → IsShown (get_or buf j 0))
    → AtCell s at
    → at + n < 2000
    → let (t, ret) = terminal_write buf (pos n) s in
      (ret ≡ pos n)
      × AtCell t (at + n)
      × ((k : ℕ) → k < n → get_or t.video (at + k) blank ≡ shown (get_or buf k 0))
      × ((k : ℕ) → (k < at) ⊎ (at + n ≤ k) → get_or t.video k blank ≡ get_or s.video k blank)
unfolding terminal_write cursor_update cursor_update_spec
terminal_write-shows n at buf s some_text h a room =
    let (a', inside, outside) =
      write_chars_lem n 0 at buf s (λ j lo hi. h j (omega arith)) a room in
    let positive : ltb_ℤ (pos n) (pos 1) ≡ false = ground arith in
    rw positive (
      refl,
      record { column = a'.column; row = a'.row; x_in = a'.x_in; y_in = a'.y_in; page = a'.page },
      λ k l.
          let e : 0 + k ≡ k = omega arith in
          subst (λ m. get_or (write_chars n 0 buf s).video (at + k) blank ≡ shown (get_or buf m 0))
            e (inside k l),
      outside,
    )
