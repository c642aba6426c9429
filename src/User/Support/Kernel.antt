-- ===== src/User/Support/Kernel.antt =====
-- The functions of syscalls/ece391support.c against those of student-distrib/lib.c.
use ece391linux_os.Prelude.{
  set, ltb, ltb→lt, Bool-cases, ℕ, zero, suc, ◌+◌, ◌-◌, ◌/◌, ◌%◌, ◌<◌, ◌≡◌, refl, sym, inl, inr,
  List, [], ◌∷◌, arith,
}
use ece391linux_os.Numbers.{lookup, strrev_loop, strrev, itoa_loop, itoa}
use ece391linux_os.Text.{strlen}
use ece391linux_os.User.Support.{
  ece391_strlen, reverse_loop, ece391_strrev, digits_loop, ece391_itoa,
}

pub ece391_strlen-strlen : (s : List ℕ) → ece391_strlen s ≡ strlen s
unfolding ece391_strlen strlen
ece391_strlen-strlen [] = refl
ece391_strlen-strlen (c ∷ s) = ground (arith, ece391_strlen-strlen s)

reverse_loop-strrev_loop :
    (n beg end : ℕ) (s : List ℕ) → reverse_loop n beg end s ≡ strrev_loop n beg end s
unfolding reverse_loop strrev_loop
reverse_loop-strrev_loop zero beg end s = refl
reverse_loop-strrev_loop (suc n) beg end s = elim (Bool-cases (ltb beg end)) [
  | inl e ↦ rw e (reverse_loop-strrev_loop n _ _ _)
  | inr e ↦ rw e refl
]

digits_loop-itoa_loop :
    (n newval radix i : ℕ) (buf : List ℕ)
    → digits_loop n newval radix i buf ≡ itoa_loop n newval radix i buf
unfolding digits_loop itoa_loop
digits_loop-itoa_loop zero newval radix i buf = refl
digits_loop-itoa_loop (suc n) newval radix i buf = ground (
  arith,
  digits_loop-itoa_loop n (newval / radix) radix (i + 1) (set buf i (lookup (newval % radix))),
)

-- The guard for strings of at most one byte changes nothing.
ece391_strrev-strrev : (s : List ℕ) → ece391_strrev s ≡ strrev s
unfolding ece391_strrev strrev strrev_loop
ece391_strrev-strrev s = elim (Bool-cases (ltb (strlen s) 2)) [
  | inl e ↦ rw (ece391_strlen-strlen s, e) (sym (short (strlen s) s (ltb→lt _ _ e)))
  | inr e ↦ rw (ece391_strlen-strlen s, e) (reverse_loop-strrev_loop (strlen s) 0 (strlen s - 1) s)
]
  where
    short : (n : ℕ) (s : List ℕ) → n < 2 → strrev_loop n 0 (n - 1) s ≡ s
    short zero s h = ground arith
    short (suc zero) s h = ground arith
    short (suc (suc n)) s h = absurd (omega arith)

-- A user program and the kernel print each number alike.
pub ece391_itoa-itoa :
    (value : ℕ) (buf : List ℕ) (radix : ℕ) → ece391_itoa value buf radix ≡ itoa value buf radix
unfolding ece391_itoa itoa
ece391_itoa-itoa value buf radix =
    rw
      (
        digits_loop-itoa_loop 32 value radix 0 buf,
        ece391_strrev-strrev
            (set (itoa_loop 32 value radix 0 buf).0 (itoa_loop 32 value radix 0 buf).1 0),
      )
      refl
