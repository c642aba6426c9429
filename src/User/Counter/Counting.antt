-- ===== src/User/Counter/Counting.antt =====
-- What the loop of syscalls/ece391counter.c prints.
use ece391linux_os.Prelude.{
  length, get_or, set, length-set, ltb, ◌==◌, Bool-cases, ℕ, zero, suc, ◌+◌, ◌-◌, ◌/◌, ◌%◌, ◌^◌,
  ◌≤◌, ◌<◌, ◌≡◌, refl, ap, ◌∙◌, inl, inr, some, List, [], ◌∷◌, arith,
}
use ece391linux_os.Prelude.Int.{ℤ, pos}
use ece391linux_os.Console.{Screen, terminal_write}
use ece391linux_os.Filesystem.{DirEntry, fd_block}
use ece391linux_os.Numbers.{lookup}
use ece391linux_os.Numbers.Decimal.{text-itoa}
use ece391linux_os.Numbers.Digits.{numeral, length-numeral-lt}
use ece391linux_os.Process.{stdout_block}
use ece391linux_os.Syscalls.{Machine}
use ece391linux_os.Text.{strlen, text}
use ece391linux_os.User.{◌>>=◌, bytes, ece391_fdputs}
use ece391linux_os.User.Counter.{count_loop}
use ece391linux_os.User.Kernel.Cat.{terminal_write-same}
use ece391linux_os.User.Kernel.Output.{on_kernel, ece391_fdputs-prints}
use ece391linux_os.User.Support.{
  ece391_strlen, reverse_loop, ece391_strrev, digits_loop, ece391_itoa,
}
use ece391linux_os.User.Support.Kernel.{ece391_itoa-itoa}

-- The screen behind a print of `t`.
abbrev pub show_text : List ℕ → Screen → Screen
show_text t s = (terminal_write t (pos (length t)) s).0

-- The screen behind a print of `n` numbers from `i + 1` on, in decimal and each on a line.
abbrev pub show_numbers : ℕ → ℕ → Screen → Screen
show_numbers zero i s = s
show_numbers (suc n) i s =
    show_numbers n (i + 1) (show_text (b'\n' ∷ []) (show_text (numeral 10 (i + 1)) s))

length-reverse_loop : (n beg end : ℕ) (s : List ℕ) → length (reverse_loop n beg end s) ≡ length s
unfolding reverse_loop
length-reverse_loop zero beg end s = refl
length-reverse_loop (suc n) beg end s = elim (Bool-cases (ltb beg end)) [
  | inl e ↦
      let tail = set s end (get_or s beg 0) in
      let swapped = set tail beg (get_or s end 0) in
      rw e (
        length-reverse_loop n (beg + 1) (end - 1) swapped
        ∙ length-set tail beg (get_or s end 0)
        ∙ length-set s end (get_or s beg 0))
  | inr e ↦ rw e refl
]

length-ece391_strrev : (s : List ℕ) → length (ece391_strrev s) ≡ length s
unfolding ece391_strrev
length-ece391_strrev s = elim (Bool-cases (ltb (ece391_strlen s) 2)) [
  | inl e ↦ rw e refl
  | inr e ↦ rw e (length-reverse_loop (ece391_strlen s) 0 (ece391_strlen s - 1) s)
]

length-digits_loop :
    (n v radix i : ℕ) (buf : List ℕ) → length (digits_loop n v radix i buf).0 ≡ length buf
unfolding digits_loop
length-digits_loop zero v radix i buf = refl
length-digits_loop (suc n) v radix i buf = elim (Bool-cases (ltb 0 v)) [
  | inl e ↦ rw e (
      length-digits_loop n (v / radix) radix (i + 1) (set buf i (lookup (v % radix)))
      ∙ length-set buf i (lookup (v % radix)))
  | inr e ↦ rw e refl
]

length-ece391_itoa :
    (value radix : ℕ) (buf : List ℕ) → length (ece391_itoa value buf radix) ≡ length buf
unfolding ece391_itoa
length-ece391_itoa value radix buf =
    let (digits, i) = digits_loop 32 value radix 0 buf in
    elim (Bool-cases (value == 0)) [
      | inl e ↦ rw e (length-set (set buf 0 b'0') 1 0 ∙ length-set buf 0 b'0')
      | inr e ↦ rw e (
          length-ece391_strrev (set digits i 0)
          ∙ length-set digits i 0
          ∙ length-digits_loop 32 value radix 0 buf)
    ]

text-ece391_itoa :
    (value : ℕ) (buf : List ℕ)
    → 34 ≤ length buf
    → text 33 (ece391_itoa value buf 10) ≡ numeral 10 value
text-ece391_itoa value buf room =
    ap (text 33) (ece391_itoa-itoa value buf 10)
    ∙ text-itoa value 10 buf (omega arith) (omega arith) room

-- The bytes of a string that ends within `n` bytes are those of its text.
get_or-text :
    (n : ℕ) (s : List ℕ) (k : ℕ) → k < length (text n s) → get_or s k 0 ≡ get_or (text n s) k 0
get_or-text zero s k h = absurd (omega arith)
get_or-text (suc n) [] k h = absurd (omega arith)
get_or-text (suc n) (c ∷ s) zero h = elim (Bool-cases (c == 0)) [
  | inl e ↦ absurd (ground arith)
  | inr e ↦ rw e refl
]
get_or-text (suc n) (c ∷ s) (suc k) h = elim (Bool-cases (c == 0)) [
  | inl e ↦ absurd (ground arith)
  | inr e ↦ rw e (get_or-text n s k (ground arith))
]

strlen-text_lt : (n : ℕ) (s : List ℕ) → length (text n s) < n → strlen s ≡ length (text n s)
unfolding strlen
strlen-text_lt zero s h = absurd (omega arith)
strlen-text_lt (suc n) [] h = refl
strlen-text_lt (suc n) (c ∷ s) h = elim (Bool-cases (c == 0)) [
  | inl e ↦ rw e refl
  | inr e ↦ rw e (ap suc (strlen-text_lt n s (ground arith)))
]

module _ (dentry : DirEntry) (garbage : ℕ) (unset : ℤ) where
  -- A print on the kernel shows the text of its string.
  prints_text :
      (n : ℕ) (s t : List ℕ) (m : Machine)
      → fd_block m.processes 1 ≡ stdout_block
      → text n s ≡ t
      → length t < n
      → ece391_fdputs (on_kernel dentry garbage unset) (pos 1) s m
        ≡ some (record m { screen = show_text t m.screen }, tt)
  prints_text n s t m out e short =
      let size : strlen s ≡ length t =
        strlen-text_lt n s (omega (arith, ap length e, short)) ∙ ap length e in
      let bytes_of : (k : ℕ) → k < length t → get_or s k 0 ≡ get_or t k 0 =
        λ k l. get_or-text n s k (omega (arith, ap length e, l)) ∙ ap (λ x. get_or x k 0) e in
      ece391_fdputs-prints dentry garbage unset s m out
      ∙ ap (λ k. some (record m { screen = (terminal_write s (pos k) m.screen).0 }, tt)) size
      ∙ ap (λ (r : Screen × ℤ). some (record m { screen = r.0 }, tt))
          (terminal_write-same (length t) s t m.screen bytes_of)

-- On the kernel, in a process whose output goes to the terminal: the loop of the counter for `n` numbers from `i + 1` on, all below 2 ^ 32, with a buffer of at least 34 bytes, returns 0 and leaves the screen as the writes of exactly these numbers in decimal leave it, in their order and each followed by the end of its line. It changes nothing else.
pub count_loop-shows :
    (dentry : DirEntry) (garbage : ℕ) (unset : ℤ) (n i : ℕ) (buf : List ℕ) (m : Machine)
    → fd_block m.processes 1 ≡ stdout_block
    → i + n < 2 ^ 32
    → 34 ≤ length buf
    → count_loop (on_kernel dentry garbage unset) n i buf m
      ≡ some (record m { screen = show_numbers n i m.screen }, pos 0)
unfolding count_loop
count_loop-shows dentry garbage unset zero i buf m out small room = refl
count_loop-shows dentry garbage unset (suc n) i buf m out small room =
    let digits = ece391_itoa (i + 1) buf 10 in
    let number = numeral 10 (i + 1) in
    let short = length-numeral-lt 10 (i + 1) (omega arith) (omega arith) in
    let m1 = record m { screen = show_text number m.screen } in
    let m2 = record m1 { screen = show_text (b'\n' ∷ []) m1.screen } in
    let says =
      prints_text dentry garbage unset 33 digits number m out (text-ece391_itoa (i + 1) buf room)
        short in
    let feeds =
      prints_text dentry garbage unset 2 (bytes "\n") (b'\n' ∷ []) m1 out refl (omega arith) in
    let rest =
      count_loop-shows dentry garbage unset n (i + 1) digits m2 out (omega arith)
        (omega (arith, length-ece391_itoa (i + 1) 10 buf)) in
    rw (says, ◌>>=◌) (rw (feeds, ◌>>=◌) rest)
