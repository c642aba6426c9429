-- ===== src/Paging/Bits.antt =====
-- The flags in the low bits of a page entry (student-distrib/interrupts.c and
-- student-distrib/syscalls.c).
use Prim.Native.Nat.{max, digits, bit_or-bitwise}
use ece391linux_os.Prelude.{
  ◌-◌, ◌<◌, sym, ap, ◌∙◌, ℕ, zero, suc, ◌+◌, ◌*◌, ◌/◌, ◌%◌, ◌≤◌, bit_or, ◌≡◌, refl, arith,
}

-- The number whose digits are set where those of `x` or `y` are, from `n` rounds over the digits.
abbrev either : ℕ → ℕ → ℕ → ℕ
either x y n = digits (λ rest. rest) max n x y

-- One round more than there are digits changes nothing, nor do any number of them.
either_once : (x y n : ℕ) → x ≤ n → either x y (suc n) ≡ either x y n
either_once zero y zero few = refl
either_once zero y (suc n) few = refl
either_once (suc x) y zero few = absurd (omega arith)
either_once (suc x) y (suc n) few =
    ap (λ r. r * 2 + max (suc x % 2) (y % 2)) (either_once (suc x / 2) (y / 2) n (omega arith))

either_often : (x y more : ℕ) → either x y (more + x) ≡ bit_or x y
either_often x y zero =
    let same : 0 + x ≡ x = omega arith in ap (either x y) same ∙ sym (bit_or-bitwise x y)
either_often x y (suc more) =
    let next : suc more + x ≡ suc (more + x) = omega arith in
    ap (either x y) next ∙ either_once x y (more + x) (omega arith) ∙ either_often x y more

lowest_digit : (x y : ℕ) → 0 < x → bit_or x y ≡ bit_or (x / 2) (y / 2) * 2 + max (x % 2) (y % 2)
lowest_digit zero y positive = absurd (omega arith)
lowest_digit (suc x) y positive =
    let half = suc x / 2 in
    let count : x ≡ (x - half) + half = omega arith in
    bit_or-bitwise (suc x) y
    ∙ ap (λ r. r * 2 + max (suc x % 2) (y % 2))
        (ap (either half (y / 2)) count ∙ either_often half (y / 2) (x - half))

no_digits : (y : ℕ) → bit_or 0 y ≡ y
no_digits y = bit_or-bitwise 0 y

-- A flag in the lowest digit, by the parity of the flags.
flag_set : (x y : ℕ) → y % 2 ≡ 1 → bit_or x y ≡ bit_or (x / 2) (y / 2) * 2 + 1
flag_set zero y odd =
    no_digits y
    ∙ (let parts : y ≡ y / 2 * 2 + 1 = omega arith in parts)
    ∙ ap (λ r. r * 2 + 1) (sym (no_digits (y / 2)))
flag_set (suc x) y odd = omega (arith, lowest_digit (suc x) y (omega arith))

no_flags : (bound x : ℕ) → x ≤ bound → bit_or x 0 ≡ x
no_flags bound zero few = no_digits 0
no_flags zero (suc x) few = absurd (omega arith)
no_flags (suc bound) (suc x) few =
    omega (arith, lowest_digit (suc x) 0, no_flags bound (suc x / 2) (omega arith))

-- Three flags set the three lowest bits.
pub bit_or_seven : (a : ℕ) → bit_or a 7 ≡ a / 8 * 8 + 7
bit_or_seven a = omega (
  arith,
  flag_set a 7,
  flag_set (a / 2) 3,
  flag_set (a / 2 / 2) 1,
  no_flags (a / 2 / 2 / 2) (a / 2 / 2 / 2),
)
