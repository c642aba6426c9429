-- ===== src/Console/Scroll.antt =====
-- What `scroll` and `clear` of student-distrib/lib.c leave on the page.
use ece391linux_os.Prelude.{
  length, get_or, set, length-set, get_or-set_self, get_or-set_ne, ℕ, ◌+◌, ◌≤◌, ◌<◌, ◌≡◌, refl,
  subst, ◌∙◌, List, arith,
}
use native.Mathlib.Decide.{ℕ_discrete}
use ece391linux_os.Prelude.Int.{pos}
use ece391linux_os.Prelude.Range.{
  count_up-keeps, length-update_range, get_or-update_range_below, get_or-update_range_in,
}
use ece391linux_os.Console.{
  Cell, blank, Screen, clear, move_up, scroll, cursor_update_spec, cursor_update, terminal_clear,
}
use ece391linux_os.Console.Bounds.{At}

-- The cells that the first loop of `scroll` has moved after the rounds below `i`.
record Moved (v : List Cell) (i : ℕ) (w : List Cell) : Type 0 where
  size : length w ≡ length v
  done : (k : ℕ) → k < i → k + 80 < length v → get_or w k blank ≡ get_or v (k + 80) blank
  rest : (k : ℕ) → i ≤ k → get_or w k blank ≡ get_or v k blank

move_up-Moved : (v : List Cell) → length v ≡ 2000 → Moved v 1920 (move_up v)
unfolding move_up
move_up-Moved v len =
    count_up-keeps (Moved v) (λ i w. set w i (get_or w (i + 80) blank)) 1920 0 1920 v
      (λ i w lo hi m. record {
        size = length-set w i _ ∙ m.size;
        done = λ k h s. elim (ℕ_discrete i k) [
          | yes e ↦
              subst
                (λ j. get_or (set w i (get_or w (i + 80) blank)) j blank ≡ get_or v (j + 80) blank)
                e
                (get_or-set_self w i (get_or w (i + 80) blank) blank (omega (arith, m.size))
                  ∙ m.rest (i + 80) (omega arith))
          | no ne ↦
              get_or-set_ne w i k (get_or w (i + 80) blank) blank ne ∙ m.done k (omega arith) s
        ];
        rest = λ k h.
            get_or-set_ne w i k (get_or w (i + 80) blank) blank (omega arith)
            ∙ m.rest k (omega arith);
      })
      (omega arith)
      (record { size = refl; done = λ k h s. absurd (omega arith); rest = λ k h. refl })

-- Scrolling a page of 2000 cells moves each row up by one, blanks the last row and puts the cursor
-- at the start of its row.
pub scroll_lem :
    (s : Screen)
    → length s.video ≡ 2000
    → (length (scroll s).video ≡ 2000)
      × ((k : ℕ) → k < 1920 → get_or (scroll s).video k blank ≡ get_or s.video (k + 80) blank)
      × ((k : ℕ) → 1920 ≤ k → k < 2000 → get_or (scroll s).video k blank ≡ blank)
      × ((scroll s).screen_x ≡ pos 0)
      × ((scroll s).screen_y ≡ s.screen_y)
unfolding scroll
scroll_lem s len =
    let m : Moved s.video 1920 (move_up s.video) = move_up-Moved s.video len in
    (
      length-update_range (λ _. blank) blank 80 1920 (move_up s.video) ∙ m.size ∙ len,
      λ k h.
          get_or-update_range_below (λ _. blank) blank 80 1920 k (move_up s.video) h
          ∙ m.done k h (omega (arith, len)),
      λ k h l.
          get_or-update_range_in (λ _. blank) blank 80 1920 k (move_up s.video) h (omega arith)
            (omega (arith, m.size, len)),
      refl,
      refl,
    )

-- `terminal_clear` blanks the whole page and puts the cursor in the top left corner.
pub terminal_clear_lem :
    (s : Screen)
    → length s.video ≡ 2000
    → ((k : ℕ) → k < 2000 → get_or (terminal_clear s).video k blank ≡ blank)
      × At (terminal_clear s) 0 0
unfolding terminal_clear clear cursor_update cursor_update_spec
terminal_clear_lem s len = (
  λ k h.
      get_or-update_range_in (λ _. blank) blank 2000 0 k s.video (omega arith) (omega arith)
        (omega (arith, len)),
  record {
    column = refl;
    row = refl;
    x_in = omega arith;
    y_in = omega arith;
    page = length-update_range (λ _. blank) blank 2000 0 s.video ∙ len;
  },
)
