-- ===== src/Examples/Screens.antt =====
-- The theorems about the screen on an empty page (student-distrib/lib.c and
-- student-distrib/terminal.c), and those about strings (student-distrib/lib.c).
use ece391linux_os.Prelude.{
  get_or, length-replicate, ℕ, zero, suc, ◌+◌, ◌≤◌, ◌<◌, ◌≡◌, refl, ◌≢◌, ◌⊎◌, List, [], ◌∷◌, arith,
}
use ece391linux_os.Prelude.Int.{pos}
use ece391linux_os.Console.{shown, blank, terminal_write}
use ece391linux_os.Console.Bounds.{At, IsShown, InBounds, terminal_write-InBounds}
use ece391linux_os.Console.Printing.{AtCell, terminal_write-shows}
use ece391linux_os.Examples.Data.{page}
use ece391linux_os.Text.{IsBytes}

page-At : At page 3 24
page-At = record {
  column = refl;
  row = refl;
  x_in = omega arith;
  y_in = omega arith;
  page = length-replicate 2000 blank;
}

page-InBounds : InBounds page
page-InBounds = (3, 24, page-At)

abbrev hi : List ℕ
hi = 104 ∷ 105 ∷ []

terminal_write-shows_example :
    let (t, ret) = terminal_write hi (pos 2) page in
    (ret ≡ pos 2)
    × AtCell t 1925
    × ((k : ℕ) → k < 2 → get_or t.video (1923 + k) blank ≡ shown (get_or hi k 0))
    × ((k : ℕ) → (k < 1923) ⊎ (1925 ≤ k) → get_or t.video k blank ≡ get_or page.video k blank)
terminal_write-shows_example =
    terminal_write-shows 2 1923 hi page (omega arith) hi-IsShown page-At (omega arith)
  where
    hi-IsShown : (j : ℕ) → j < 2 → IsShown (get_or hi j 0)
    hi-IsShown zero h = (λ e. absurd (omega (arith, e)), λ e. absurd (omega (arith, e)))
    hi-IsShown (suc zero) h = (λ e. absurd (omega (arith, e)), λ e. absurd (omega (arith, e)))
    hi-IsShown (suc (suc j)) h = absurd (omega arith)

terminal_write-InBounds_example :
    InBounds (terminal_write hi (pos 2) page).0 × ((terminal_write hi (pos 2) page).1 ≡ pos 2)
terminal_write-InBounds_example = terminal_write-InBounds hi (pos 2) page no_return page-InBounds
  where
    no_return : (j : ℕ) → get_or hi j 0 ≢ b'\r'
    no_return zero e = absurd (omega (arith, e))
    no_return (suc zero) e = absurd (omega (arith, e))
    no_return (suc (suc j)) e = absurd (omega (arith, e))

hi-IsBytes : IsBytes hi
hi-IsBytes = (omega arith, (omega arith, record {}))
