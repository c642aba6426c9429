-- ===== src/User/Support.antt =====
-- The string and number functions of the user programs, syscalls/ece391support.c.
pub mod Kernel
pub mod Compare
use ece391linux_os.Prelude.{
  get_or, set, ltb, ◌==◌, if◌then◌else◌, ℕ, zero, suc, ◌+◌, ◌-◌, ◌/◌, ◌%◌, ◌||◌, List, [], ◌∷◌,
}
use ece391linux_os.Prelude.Int.{ℤ, pos, ◌-ℤ◌}
use ece391linux_os.Memory.Copies.{copied}
use ece391linux_os.Numbers.{lookup}
use ece391linux_os.Text.{first, next}

unfoldable pub ece391_strlen : List ℕ → ℕ
ece391_strlen [] = 0
ece391_strlen (c ∷ s) = let rest = ece391_strlen s in if c == 0 then 0 else rest + 1

-- Both pointers stand in the memory `mem`, which may overlap; at most `n` bytes.
unfoldable pub ece391_strcpy : ℕ → ℕ → ℕ → List ℕ → List ℕ
ece391_strcpy zero dst src mem = mem
ece391_strcpy (suc n) dst src mem =
    let c = get_or mem src 0 in
    let copied = set mem dst c in
    let rest = ece391_strcpy n (dst + 1) (src + 1) copied in if c == 0 then copied else rest

-- The bytes are compared as unsigned numbers.
unfoldable pub ece391_strcmp : List ℕ → List ℕ → ℤ
ece391_strcmp [] s2 = pos 0 -ℤ pos (first s2)
ece391_strcmp (c ∷ s1) s2 =
    let rest = ece391_strcmp s1 (next s2) in
    if c == first s2 then (if c == 0 then pos 0 else rest) else pos c -ℤ pos (first s2)

unfoldable pub ece391_strncmp : List ℕ → List ℕ → ℕ → ℤ
ece391_strncmp s1 s2 zero = pos 0
ece391_strncmp s1 s2 (suc n) =
    let rest = ece391_strncmp (next s1) (next s2) n in
    if first s1 == first s2
    then (if first s1 == 0 || n == 0 then pos 0 else rest)
    else pos (first s1) -ℤ pos (first s2)

-- The loop `while (beg < end)`, at most `n` rounds.
unfoldable pub reverse_loop : ℕ → ℕ → ℕ → List ℕ → List ℕ
reverse_loop zero beg end s = s
reverse_loop (suc n) beg end s =
    let tmp = get_or s end 0 in
    let rest = reverse_loop n (beg + 1) (end - 1) (set (set s end (get_or s beg 0)) beg tmp) in
    if ltb beg end then rest else s

-- `end` is negative or 0 for a string of at most one byte.
unfoldable pub ece391_strrev : List ℕ → List ℕ
ece391_strrev s =
    let len = ece391_strlen s in if ltb len 2 then s else reverse_loop len 0 (len - 1) s

-- The loop `while (newval > 0)`, at most `n` rounds, with `newbuf` as the cell `i` of the buffer.
unfoldable pub digits_loop : ℕ → ℕ → ℕ → ℕ → List ℕ → List ℕ × ℕ
digits_loop zero newval radix i buf = (buf, i)
digits_loop (suc n) newval radix i buf =
    let rest = digits_loop n (newval / radix) radix (i + 1) (set buf i (lookup (newval % radix))) in
    if ltb 0 newval then rest else (buf, i)

-- A number of 32 bits has at most 32 digits, in any base from 2 on.
unfoldable pub ece391_itoa : ℕ → List ℕ → ℕ → List ℕ
ece391_itoa value buf radix =
    let (digits, i) = digits_loop 32 value radix 0 buf in
    if value == 0 then set (set buf 0 b'0') 1 0 else ece391_strrev (set digits i 0)
