-- ===== src/Keyboard/Keys.antt =====
-- How keys are told apart (`handle_keyboard_input` of student-distrib/keyboard.c).
use ece391linux_os.Prelude.{◌==◌, ℕ, ◌≤◌, ◌<◌, ◌≡◌, refl, ◌≢◌, true, false, ◌||◌, none, arith}
use ece391linux_os.Keyboard.{
  Keyboard, released, keyboard_insert, keyboard_backspace, translate, character_key, pressed_key,
  handle_keyboard_input,
}
use ece391linux_os.Line.{insert_char}
use ece391linux_os.Line.Editing.{IsLine}
use ece391linux_os.Line.Text.{text_of, insert_at, insert_char-text, delete-insert}

-- Releasing a key other than SHIFT, CTRL and ALT does nothing.
pub handle-released :
    (key : ℕ) (k : Keyboard)
    → 128 ≤ key
    → key < 256
    → key ≢ 0x9D
    → key ≢ 0xB8
    → key ≢ 0xB6
    → key ≢ 0xAA
    → handle_keyboard_input key k ≡ (k, none)
unfolding handle_keyboard_input
handle-released key k lo hi ctrl alt left_shift right_shift =
    let is : released key ≡ true = ground arith in
    rw
      (
        is,
        (let t : (key == 0x3A) ≡ false = ground arith in t),
        (let t : (key == 0x1D) ≡ false = ground arith in t),
        (let t : (key == 0x9D) ≡ false = ground arith in t),
        (let t : (key == 0x38) ≡ false = ground arith in t),
        (let t : (key == 0xB8) ≡ false = ground arith in t),
        (let t : (key == 0x36 || key == 0x2A || key == 0xB6 || key == 0xAA) ≡ false =
              ground arith in
            t),
      )
      refl

-- A key that types its character: not released, none of the keys with a meaning of their own,
-- without CTRL, and with a character in the table that the modifiers select.
pub record IsTyping (key : ℕ) (k : Keyboard) : Type 0 where
  pub pressed : key < 128
  pub not_caps : key ≢ 0x3A
  pub not_ctrl : key ≢ 0x1D
  pub not_alt : key ≢ 0x38
  pub not_left_shift : key ≢ 0x36
  pub not_right_shift : key ≢ 0x2A
  pub not_arrow : (key ≢ 0x48) × (key ≢ 0x50) × (key ≢ 0x4B) × (key ≢ 0x4D)
  pub not_backspace : key ≢ 0x0E
  pub not_enter : key ≢ 0x1C
  pub no_ctrl : k.ctrl_down ≢ 1
  pub has_character : translate key k ≢ 0
  pub no_switch : (translate key k ≢ 0xF1) × (translate key k ≢ 0xF2) × (translate key k ≢ 0xF3)

handle-inserts :
    (key : ℕ) (k : Keyboard)
    → IsTyping key k
    → k.line.size < 127
    → handle_keyboard_input key k ≡ (keyboard_insert (translate key k) k, none)
unfolding handle_keyboard_input pressed_key character_key
handle-inserts key k t room =
    let u = t.not_arrow in
    let v = t.no_switch in
    rw
      (
        (let e : released key ≡ false = ground (arith, t.pressed) in e),
        (let e : (key == 0x3A) ≡ false = ground (arith, t.not_caps) in e),
        (let e : (key == 0x1D) ≡ false = ground (arith, t.not_ctrl) in e),
        (let e : (key == 0x9D) ≡ false = ground (arith, t.pressed) in e),
        (let e : (key == 0x38) ≡ false = ground (arith, t.not_alt) in e),
        (let e : (key == 0xB8) ≡ false = ground (arith, t.pressed) in e),
        (let e : (key == 0x36 || key == 0x2A || key == 0xB6 || key == 0xAA) ≡ false =
              ground (arith, t.pressed, t.not_left_shift, t.not_right_shift) in
            e),
        (let e : (key == 0x48) ≡ false = ground (arith, u) in e),
        (let e : (key == 0x50) ≡ false = ground (arith, u) in e),
        (let e : (key == 0x4B) ≡ false = ground (arith, u) in e),
        (let e : (key == 0x4D) ≡ false = ground (arith, u) in e),
        (let e : (key == 0x0E) ≡ false = ground (arith, t.not_backspace) in e),
        (let e : (key == 0x1C) ≡ false = ground (arith, t.not_enter) in e),
        (let e : (k.ctrl_down == 1) ≡ false = ground (arith, t.no_ctrl) in e),
        (let e : (k.line.size == 127) ≡ false = ground arith in e),
        (let e : (translate key k == 0) ≡ false = ground (arith, t.has_character) in e),
        (let e : (translate key k == 0xF1) ≡ false = ground (arith, v) in e),
        (let e : (translate key k == 0xF2) ≡ false = ground (arith, v) in e),
        (let e : (translate key k == 0xF3) ≡ false = ground (arith, v) in e),
      )
      refl

-- With room in a well-formed line, a key that types its character asks for no switch of the
-- terminal and inserts, at the cursor, the character that the modifiers select; BACKSPACE then
-- brings back the line as it was.
pub handle-types :
    (key : ℕ) (k : Keyboard)
    → IsLine k.line
    → k.line.size < 127
    → IsTyping key k
    → let (after, switch) = handle_keyboard_input key k in
      (switch ≡ none)
      × (text_of after.line ≡ insert_at k.line.idx (translate key k) (text_of k.line))
      × ((handle_keyboard_input 0x0E after).0.line ≡ k.line)
unfolding handle_keyboard_input pressed_key keyboard_insert keyboard_backspace
handle-types key k v room t =
    let c = translate key k in
    let typed = insert_char-text c k.line v room in
    let behind : ((insert_char c k.line).idx == 0) ≡ false = ground (arith, typed.1) in
    rw (handle-inserts key k t room) (refl, typed.0, rw behind (delete-insert c k.line v room))
