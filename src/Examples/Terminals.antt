-- ===== src/Examples/Terminals.antt =====
-- The theorems about the line editor and its history on a short line
-- (student-distrib/keyboard.c).
use ece391linux_os.Prelude.{
  length, get_or, replicate, length-replicate, ℕ, zero, suc, ◌<◌, ◌≡◌, refl, true, List, [], arith,
}
use ece391linux_os.Examples.Data.{line_ab, no_history, line_ab-IsLine, line_ab-IsTyped}
use ece391linux_os.History.{up, recall}
use ece391linux_os.History.Recall.{IsHistory, enter, recall-enter}
use ece391linux_os.Line.{insert_char}
use ece391linux_os.Line.Editing.{IsLine}
use ece391linux_os.Line.Text.{text_of, insert_at, insert_char-text}

insert_char-text_example :
    (text_of (insert_char 99 line_ab) ≡ insert_at 1 99 (text_of line_ab))
    × ((insert_char 99 line_ab).idx ≡ 2)
    × IsLine (insert_char 99 line_ab)
insert_char-text_example = insert_char-text 99 line_ab line_ab-IsLine (omega arith)

no_history-IsHistory : IsHistory no_history
no_history-IsHistory = record {
  count = length-replicate {A = List ℕ} 20 (replicate 128 0);
  width = width 20;
  base_in = omega arith;
  bounded = omega arith;
  filling = λ h. refl;
}
  where
    width : (n k : ℕ) → k < n → length {A = ℕ} (get_or (replicate n (replicate 128 0)) k []) ≡ 128
    width zero k h = absurd (omega arith)
    width (suc n) zero h = length-replicate {A = ℕ} 128 0
    width (suc n) (suc k) h = width n k (omega arith)

recall-enter_example :
    let (h, moved) = up (replicate 128 0) (enter line_ab.chars no_history) in
    (moved ≡ true)
    × (recall h (record { chars = replicate 128 0; idx = 0; size = 0 })
        ≡ record line_ab { idx = 2 })
recall-enter_example =
    recall-enter line_ab (record { chars = replicate 128 0; idx = 0; size = 0 }) no_history
      line_ab-IsTyped no_history-IsHistory (length-replicate {A = ℕ} 128 0)
