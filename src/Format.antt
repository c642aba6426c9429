-- ===== src/Format.antt =====
-- `printf` of student-distrib/lib.c: the output of a format string with its arguments.
-- The arguments are the words on the stack from the one behind `format` on; `string_at` gives the
-- string that a word points to. `conv_buf` is what the conversion buffer holds before it is used.
pub mod Rendered
use ece391linux_os.Prelude.{
  take, drop, ltb, ◌==◌, if◌then◌else◌, ℕ, ◌+◌, ◌-◌, ◌%◌, ◌^◌, List, [], ◌∷◌, ◌++◌,
}
use ece391linux_os.Prelude.Range.{update_range}
use ece391linux_os.Console.{Screen, putc, puts}
use ece391linux_os.Memory.Fill.{filled}
use ece391linux_os.Numbers.{itoa}
use ece391linux_os.Text.{strlen}

-- Where the loop stands: at a character, or at a conversion, with `alternate`.
pub data Mode : Type 0 where
  plain : Mode
  conversion : ℕ → Mode

-- The strings that are put for %x, %#x, %u and %d.
unfoldable pub hex_string : ℕ → List ℕ → List ℕ
hex_string value conv_buf = itoa value conv_buf 16

unfoldable pub hex8_string : ℕ → List ℕ → List ℕ
hex8_string value conv_buf =
    let digits = itoa value (drop 8 conv_buf) 16 in
    let starting_index = strlen digits in
    let filled =
      update_range (8 - starting_index) starting_index (λ _. b'0') (take 8 conv_buf ++ digits) in
    drop starting_index filled

unfoldable pub unsigned_string : ℕ → List ℕ → List ℕ
unsigned_string value conv_buf = itoa value conv_buf 10

-- A word from 2 ^ 31 on is negative.
unfoldable pub signed_string : ℕ → List ℕ → List ℕ
signed_string value conv_buf =
    if ltb value (2 ^ 31)
    then itoa value conv_buf 10
    else b'-' ∷ itoa (2 ^ 32 - value) (drop 1 conv_buf) 10

module _ (stack : ℕ → ℕ) (string_at : ℕ → List ℕ) (conv_buf : List ℕ) where
  -- The conversions that take the argument `value`, and how many words they take.
  unfoldable pub convert : ℕ → ℕ → ℕ → Screen → Screen × ℕ
  convert c alternate value s =
      let number =
        if alternate == 0 then hex_string value conv_buf else hex8_string value conv_buf in
      if c == b'x'
      then ((puts number s).0, 1)
      else (if c == b'u'
          then ((puts (unsigned_string value conv_buf) s).0, 1)
          else (if c == b'd'
              then ((puts (signed_string value conv_buf) s).0, 1)
              else (if c == b'c'
                  then (putc (value % 256) s, 1)
                  else (if c == b's' then ((puts (string_at value) s).0, 1) else (s, 0)))))

  -- The loop from the character that `buf` points to, with the argument `esp`, `n` characters
  -- behind the start; gives the screen and the number of characters that were passed.
  unfoldable pub printf_loop : List ℕ → Mode → ℕ → ℕ → Screen → Screen × ℕ
  printf_loop [] plain esp n s = (s, n)
  printf_loop [] (conversion alternate) esp n s = (s, n + 1)
  printf_loop (c ∷ buf) plain esp n s =
      let specified = printf_loop buf (conversion 0) esp (n + 1) s in
      let printed = printf_loop buf plain esp (n + 1) (putc c s) in
      if c == 0 then (s, n) else (if c == b'%' then specified else printed)
  printf_loop (c ∷ buf) (conversion alternate) esp n s =
      let again = printf_loop buf (conversion 1) esp (n + 1) s in
      let percent = printf_loop buf plain esp (n + 1) (putc b'%' s) in
      let (t, words) = convert c alternate (stack esp) s in
      let behind = printf_loop buf plain (esp + words) (n + 1) t in
      if c == b'%' then percent else (if c == b'#' then again else behind)

  unfoldable pub printf : List ℕ → Screen → Screen × ℕ
  printf format s = printf_loop format plain 0 0 s
