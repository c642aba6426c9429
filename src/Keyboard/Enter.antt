-- ===== src/Keyboard/Enter.antt =====
-- What ENTER gives to a process that waits in `terminal_read` (student-distrib/keyboard.c).
use ece391linux_os.Prelude.{
  length, get_or, set, length-set, get_or-set_self, get_or-set_ne, ◌==◌, ℕ, zero, suc, ◌+◌, ◌≤◌,
  ◌<◌, ◌≡◌, refl, sym, ap, subst, ◌∙◌, ◌≢◌, ◌⊎◌, inl, inr, true, false, ◌||◌, List, [], arith,
}
use native.Mathlib.Decide.{ℕ_discrete}
use ece391linux_os.Prelude.Int.{pos}
use ece391linux_os.History.Recall.{IsTyped}
use ece391linux_os.Keyboard.{
  Keyboard, set_return_switch, terminal_return, keyboard_enter, pressed_key, handle_keyboard_input,
}
use ece391linux_os.Line.{Line, clear_line, read_line, keyboard_read}
use ece391linux_os.Line.Text.{text_of}

-- The copying loop takes the bytes up to the first line feed or NUL, and that one.
read_line_lem :
    (n i size : ℕ) (cs out : List ℕ)
    → i + n ≡ 128
    → i ≤ size
    → size ≤ 127
    → length out ≡ 128
    → ((k : ℕ) → i ≤ k → k < size → (get_or cs k 0 ≢ 0) × (get_or cs k 0 ≢ b'\n'))
    → get_or cs size 0 ≡ b'\n'
    → ((k : ℕ) → i ≤ k → k ≤ size → get_or (read_line n i cs out).0 k 0 ≡ get_or cs k 0)
      × ((k : ℕ) → (k < i) ⊎ (size < k) → get_or (read_line n i cs out).0 k 0 ≡ get_or out k 0)
      × ((read_line n i cs out).1 ≡ pos size)
unfolding read_line
read_line_lem zero i size cs out e lo hi len some_text stop = absurd (omega arith)
read_line_lem (suc n) i size cs out e lo hi len some_text stop = elim (ℕ_discrete i size) [
  | yes same ↦
      let end : (get_or cs i 0 == b'\n' || get_or cs i 0 == 0) ≡ true = rw same (rw stop refl) in
      rw end (
        λ k p q.
            subst (λ m. get_or (set out i (get_or cs i 0)) m 0 ≡ get_or cs m 0)
              (let here : i ≡ k = omega arith in here)
              (get_or-set_self out i (get_or cs i 0) 0 (omega arith)),
        λ k q.
            get_or-set_ne out i k (get_or cs i 0) 0
              (elim q [ inl a ↦ omega arith | inr b ↦ omega arith ]),
        ap pos same,
      )
  | no ne ↦
      let t = some_text i (omega arith) (omega arith) in
      let c = get_or cs i 0 in
      let more : (c == b'\n' || c == 0) ≡ false = ground (arith, t) in
      let fits : (i + 1 == 128) ≡ false = ground arith in
      let (shows, keeps, ret) =
        read_line_lem n (i + 1) size cs (set out i c) (omega arith) (omega arith) hi
          (length-set out i c ∙ len) (λ k q r. some_text k (omega arith) r) stop in
      rw more (
        rw fits (
          λ k p q. elim (ℕ_discrete i k) [
            | yes here ↦
                keeps k (inl (omega arith))
                ∙ subst (λ m. get_or (set out i c) m 0 ≡ get_or cs m 0) here
                    (get_or-set_self out i c 0 (omega arith))
            | no later ↦ shows k (omega arith) q
          ],
          λ k q.
              keeps k (elim q [ inl a ↦ inl (omega arith) | inr b ↦ inr b ])
              ∙ get_or-set_ne out i k c 0 (elim q [ inl a ↦ omega arith | inr b ↦ omega arith ]),
          ret,
        ))
]

-- The line as ENTER leaves it for the reader.
abbrev ended : Line → List ℕ
ended l = set l.chars l.size b'\n'

-- ENTER, while a process waits for the typed line: the kernel's read buffer of the displayed
-- terminal, 128 bytes long, holds the text and a line feed behind it, and is otherwise as before;
-- the switch that the process waits for is off, and the line is empty again. The caller's own
-- buffer is filled later, by the end of `terminal_read`.
pub keyboard_enter-delivers :
    (k : Keyboard)
    → IsTyped k.line
    → length k.read_buffer ≡ 128
    → k.return_switch ≡ 1
    → let after = (handle_keyboard_input 0x1C k).0 in
      ((j : ℕ) → j < k.line.size → get_or after.read_buffer j 0 ≡ get_or k.line.chars j 0)
      × (get_or after.read_buffer k.line.size 0 ≡ b'\n')
      × ((j : ℕ) → k.line.size < j → get_or after.read_buffer j 0 ≡ get_or k.read_buffer j 0)
      × (after.return_switch ≡ 0)
      × (text_of after.line ≡ [])
unfolding handle_keyboard_input pressed_key keyboard_enter terminal_return set_return_switch
    keyboard_read clear_line
keyboard_enter-delivers k t len on =
    let l = k.line in
    let waits : (k.return_switch == 1) ≡ true = ap (λ n. n == 1) on in
    let line_feed : get_or (ended l) l.size 0 ≡ b'\n' =
      get_or-set_self l.chars l.size b'\n' 0 (omega (arith, t.line.cells, t.line.room)) in
    let same : (j : ℕ) → j < l.size → get_or (ended l) j 0 ≡ get_or l.chars j 0 =
      λ j q. get_or-set_ne l.chars l.size j b'\n' 0 (omega arith) in
    let (shows, keeps, ret) =
      read_line_lem 128 0 l.size (ended l) k.read_buffer refl (omega arith) t.line.room len
        (λ j p q. (λ e. t.no_nul j q (sym (same j q) ∙ e), λ e. t.no_feed j q (sym (same j q) ∙ e)))
        line_feed in
    rw waits (
      λ j q. shows j (omega arith) (omega arith) ∙ same j q,
      shows l.size (omega arith) (omega arith) ∙ line_feed,
      λ j q. keeps j (inr q),
      refl,
      refl,
    )
