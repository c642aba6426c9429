-- ===== src/Numbers.antt =====
-- Numbers as text: `itoa` and `strrev` of student-distrib/lib.c.
-- A buffer that is written is a list of its whole size; a write behind it changes nothing.
pub mod Reverse
pub mod Digits
pub mod Decimal
use ece391linux_os.Prelude.{
  get_or, set, ltb, ◌==◌, if◌then◌else◌, ℕ, zero, suc, ◌+◌, ◌-◌, ◌/◌, ◌%◌, List,
}
use ece391linux_os.Text.{strlen}

-- "0123456789ABCDEFGHIJKLMNOPQRSTUVWXYZ"
abbrev pub lookup : ℕ → ℕ
lookup i = if ltb i 10 then b'0' + i else (if ltb i 36 then b'A' + (i - 10) else 0)

-- The loop `while (beg < end)` of `strrev`, with fuel.
unfoldable pub strrev_loop : ℕ → ℕ → ℕ → List ℕ → List ℕ
strrev_loop zero beg end s = s
strrev_loop (suc n) beg end s =
    let rest =
      strrev_loop n (beg + 1) (end - 1) (set (set s end (get_or s beg 0)) beg (get_or s end 0)) in
    if ltb beg end then rest else s

-- On the empty string `end` starts as -1; the loop ends at once there, and for 0 too.
unfoldable pub strrev : List ℕ → List ℕ
strrev s = strrev_loop (strlen s) 0 (strlen s - 1) s

-- The loop `while (newval > 0)` of `itoa` from the cell `i` on, with fuel; gives the cell behind
-- the last digit too.
unfoldable pub itoa_loop : ℕ → ℕ → ℕ → ℕ → List ℕ → List ℕ × ℕ
itoa_loop zero newval radix i buf = (buf, i)
itoa_loop (suc n) newval radix i buf =
    let rest = itoa_loop n (newval / radix) radix (i + 1) (set buf i (lookup (newval % radix))) in
    if newval == 0 then (buf, i) else rest

-- A number of 32 bits has at most 32 digits, in any base from 2 on.
unfoldable pub itoa : ℕ → List ℕ → ℕ → List ℕ
itoa value buf radix =
    let (digits, i) = itoa_loop 32 value radix 0 buf in
    if value == 0 then set (set buf 0 b'0') 1 0 else strrev (set digits i 0)
