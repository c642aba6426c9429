-- ===== src/Interrupts/Masks.antt =====
-- What `enable_irq` and `disable_irq` of student-distrib/i8259.c do to the lines.
use ece391linux_os.Prelude.{
  ltb, ◌==◌, if◌then◌else◌, ltb→lt, ==_iff, Bool-cases, ℕ, ◌-◌, ◌/◌, ◌%◌, ◌^◌, ◌≤◌, ◌<◌, bit_and,
  bit_or, ◌≡◌, refl, inl, inr, Bool, true, false, ◌&&◌, arith,
}
use ece391linux_os.Prelude.Check.{and→both, check_below, check_below-holds}
use ece391linux_os.Interrupts.{Pic, bit_of, enable_irq, disable_irq}

-- Whether a line is masked, by the registers of the controllers.
abbrev pub is_masked : ℕ → Pic → Bool
is_masked irq p =
    if ltb irq 8
    then p.master_register / 2 ^ irq % 2 == 1
    else p.slave_register / 2 ^ (irq - 8) % 2 == 1

-- The bits of the byte `x` after bit `k` has become `b` in `y`.
abbrev bits_after : ℕ → ℕ → ℕ → ℕ → Bool
bits_after b k x y =
    ltb y 256 && check_below 8 (λ j. y / 2 ^ j % 2 == (if j == k then b else x / 2 ^ j % 2))

abbrev byte_test : ℕ → ℕ → Bool
byte_test k x =
    bits_after 0 k x (bit_and x (255 - bit_of k)) && bits_after 1 k x (bit_or x (bit_of k))

all_bits : check_below 8 (λ k. check_below 256 (byte_test k)) ≡ true
unfolding check_below
all_bits = refl

-- `y` is the byte `x` with the bit `k` set to `b`.
abbrev IsBitSet : ℕ → ℕ → ℕ → ℕ → Type 0
IsBitSet b k x y =
    (y < 256) × ((j : ℕ) → j < 8 → y / 2 ^ j % 2 ≡ (if j == k then b else x / 2 ^ j % 2))

bits_after-IsBitSet : (b k x y : ℕ) → bits_after b k x y ≡ true → IsBitSet b k x y
bits_after-IsBitSet b k x y h =
    let (small, all) = and→both (ltb y 256) _ h in
    (ltb→lt y 256 small, λ j l. (==_iff _ _).0 (check_below-holds 8 _ all j l))

masked_bits :
    (k x : ℕ)
    → k < 8
    → x < 256
    → IsBitSet 0 k x (bit_and x (255 - bit_of k)) × IsBitSet 1 k x (bit_or x (bit_of k))
masked_bits k x small byte =
    let row = check_below-holds 8 (λ i. check_below 256 (byte_test i)) all_bits k small in
    let both =
      and→both (bits_after 0 k x (bit_and x (255 - bit_of k))) _
        (check_below-holds 256 (byte_test k) row x byte) in
    (bits_after-IsBitSet 0 k x _ both.0, bits_after-IsBitSet 1 k x _ both.1)

-- The registers hold bytes.
abbrev pub HasBytes : Pic → Type 0
HasBytes p = (p.master_register < 256) × (p.slave_register < 256)

-- The lines of `q` are those of `p`, but line `irq` is masked just if `b`.
abbrev pub OnlyLine : Bool → ℕ → Pic → Pic → Type 0
OnlyLine b irq p q =
    HasBytes q × ((j : ℕ) → j < 16 → is_masked j q ≡ (if j == irq then b else is_masked j p))

line_bit :
    (b : Bool) (n k x y j : ℕ)
    → (b ≡ (n == 1))
    → y / 2 ^ j % 2 ≡ (if j == k then n else x / 2 ^ j % 2)
    → (y / 2 ^ j % 2 == 1) ≡ (if j == k then b else x / 2 ^ j % 2 == 1)
line_bit b n k x y j e h = elim (Bool-cases (j == k)) [
  | inl q ↦ rw (h, e, q) refl
  | inr q ↦ rw (h, e, q) refl
]

master-line :
    (b : Bool) (n irq y : ℕ) (p : Pic)
    → (b ≡ (n == 1))
    → irq < 8
    → IsBitSet n irq p.master_register y
    → (j : ℕ)
    → (if ltb j 8 then y / 2 ^ j % 2 == 1 else p.slave_register / 2 ^ (j - 8) % 2 == 1)
      ≡ (if j == irq then b else is_masked j p)
master-line b n irq y p e l set_bit j = elim (Bool-cases (ltb j 8)) [
  | inl f ↦ rw f (line_bit b n irq p.master_register y j e (set_bit.1 j (ltb→lt j 8 f)))
  | inr f ↦ let other : (j == irq) ≡ false = ground (arith, f, l) in rw (f, other) refl
]

slave-line :
    (b : Bool) (n irq y : ℕ) (p : Pic)
    → (b ≡ (n == 1))
    → 8 ≤ irq
    → IsBitSet n (irq - 8) p.slave_register y
    → (j : ℕ) → j < 16
    → (if ltb j 8 then p.master_register / 2 ^ j % 2 == 1 else y / 2 ^ (j - 8) % 2 == 1)
      ≡ (if j == irq then b else is_masked j p)
slave-line b n irq y p e l set_bit j h = elim (Bool-cases (ltb j 8)) [
  | inl f ↦ let other : (j == irq) ≡ false = ground (arith, f, l) in rw (f, other) refl
  | inr f ↦
      let same : (j == irq) ≡ (j - 8 == irq - 8) = ground (arith, f, l) in
      rw (f, same)
        (line_bit b n (irq - 8) p.slave_register y (j - 8) e
          (set_bit.1 (j - 8) (ground (arith, f, h))))
]

-- `enable_irq` unmasks its line and `disable_irq` masks it, and each leaves the other fifteen lines
-- as they were, for a line below 16 and registers of eight bits.
pub irq-OnlyLine :
    (irq : ℕ) (p : Pic)
    → irq < 16
    → HasBytes p
    → OnlyLine false irq p (enable_irq irq p) × OnlyLine true irq p (disable_irq irq p)
unfolding enable_irq disable_irq
irq-OnlyLine irq p l bytes = elim (Bool-cases (ltb irq 8)) [
  | inl e ↦
      let (off, on) = masked_bits irq p.master_register (ltb→lt irq 8 e) bytes.0 in
      rw e (
        ((off.0, bytes.1), λ j h. master-line false 0 irq _ p refl (ltb→lt irq 8 e) off j),
        ((on.0, bytes.1), λ j h. master-line true 1 irq _ p refl (ltb→lt irq 8 e) on j),
      )
  | inr e ↦
      let (off, on) = masked_bits (irq - 8) p.slave_register (omega (arith, l)) bytes.1 in
      rw e (
        ((bytes.0, off.0), slave-line false 0 irq _ p refl (ground (arith, e)) off),
        ((bytes.0, on.0), slave-line true 1 irq _ p refl (ground (arith, e)) on),
      )
]
