-- ===== src/Examples/Blocks.antt =====
-- The theorems about memory blocks, numerals and formats at concrete inputs
-- (student-distrib/lib.c).
use ece391linux_os.Prelude.{
  replicate, length-replicate, ℕ, ◌%◌, ◌^◌, ◌<◌, ◌≡◌, List, [], ◌∷◌, arith,
}
use ece391linux_os.Examples.Data.{page}
use ece391linux_os.Format.{plain, printf}
use ece391linux_os.Format.Rendered.{put_all, rendered, printf-shows}
use ece391linux_os.Memory.{Memory, memmove}
use ece391linux_os.Memory.Copies.{copied, memmove-copies}
use ece391linux_os.Numbers.{itoa}
use ece391linux_os.Numbers.Decimal.{parse-itoa}
use ece391linux_os.Numbers.Digits.{parse}
use ece391linux_os.Text.{text}

abbrev zeros : Memory
zeros = λ a. 0

abbrev ramp : Memory
ramp = λ a. a % 256

memmove-copies_example : memmove 22 20 9 ramp 25 ≡ copied 22 20 9 ramp 25
memmove-copies_example = memmove-copies 22 20 9 ramp 25

parse-itoa_example : parse 10 0 (text 33 (itoa 391 (replicate 36 0) 10)) ≡ 391
parse-itoa_example =
    parse-itoa 391 10 (replicate 36 0) (omega arith) (omega arith) (omega arith) (omega arith)

-- Every argument is 10, and no pointer leads to a string.
abbrev tens : ℕ → ℕ
tens = λ i. 10

abbrev no_strings : ℕ → List ℕ
no_strings = λ a. []

tens-small : (i : ℕ) → tens i < 2 ^ 32
tens-small i = omega arith

-- "%#x"
abbrev hex_format : List ℕ
hex_format = b'%' ∷ b'#' ∷ b'x' ∷ []

printf-shows_example :
    (printf tens no_strings (replicate 64 0) hex_format page).0
    ≡ put_all (rendered tens no_strings hex_format plain 0) page
printf-shows_example =
    printf-shows tens no_strings (replicate 64 0) tens-small
      (omega (arith, length-replicate {A = ℕ} 64 0)) hex_format page
