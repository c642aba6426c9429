-- ===== src/Numbers/Decimal.antt =====
-- `itoa` of student-distrib/lib.c writes a number so that it can be read back.
use ece391linux_os.Prelude.{
  length, get_or, set, length-set, get_or-set_ne, ◌==◌, Bool-cases, ℕ, zero, suc, ◌+◌, ◌-◌, ◌/◌,
  ◌%◌, ◌^◌, ◌≤◌, ◌<◌, ◌≡◌, refl, sym, ap, ◌∙◌, ◌≢◌, inl, inr, List, [], ◌∷◌, arith,
}
use ece391linux_os.Numbers.{lookup, strrev, itoa_loop, itoa}
use ece391linux_os.Numbers.Digits.{
  digits_of, parse, turned, length-digits, length-turned, get_or-turned, digits-nonzero, numeral,
  parse-numeral,
}
use ece391linux_os.Numbers.Reverse.{strrev_lem}
use ece391linux_os.Text.{strlen, text}
use ece391linux_os.Text.Writing.{
  Written, Written-cons, text-from_entries, ended, strlen-from_entries,
}

itoa_loop-writes :
    (n v radix i : ℕ) (buf : List ℕ)
    → i + n < length buf
    → ((itoa_loop n v radix i buf).1 ≡ i + length (digits_of n radix v))
      × Written buf i (digits_of n radix v) (itoa_loop n v radix i buf).0
      × (length (itoa_loop n v radix i buf).0 ≡ length buf)
unfolding itoa_loop digits_of
itoa_loop-writes zero v radix i buf room =
    (omega arith, (λ j l. refl, λ j l. absurd (omega (arith, l))), refl)
itoa_loop-writes (suc n) v radix i buf room = elim (Bool-cases (v == 0)) [
  | inl e ↦ rw e (omega arith, (λ j l. refl, λ j l. absurd (omega (arith, l))), refl)
  | inr e ↦
      let c = lookup (v % radix) in
      let size = length-set buf i c in
      let (at, bytes, long) =
        itoa_loop-writes n (v / radix) radix (i + 1) (set buf i c) (omega (arith, room, size)) in
      rw e (
        at ∙ omega arith,
        Written-cons buf (itoa_loop n (v / radix) radix (i + 1) (set buf i c)).0 i c
            (digits_of n radix (v / radix)) (omega (arith, room)) bytes,
        long ∙ size,
      )
]

-- A reversed string, from its characters.
text-strrev :
    (n : ℕ) (ds xs : List ℕ)
    → length ds ≤ n
    → length ds < length xs
    → ((j : ℕ) → j < length ds → (get_or xs j 0 ≡ get_or ds j 0) × (get_or ds j 0 ≢ 0))
    → get_or xs (length ds) 0 ≡ 0
    → text n (strrev xs) ≡ turned ds
text-strrev n ds xs short room same end =
    let size = length-turned ds in
    let long : strlen xs ≡ length ds =
      strlen-from_entries (length ds) xs room (λ j l q. (same j l).1 (sym (same j l).0 ∙ q)) end in
    let (inside, behind) = strrev_lem xs (omega (arith, long, room)) in
    text-from_entries n (turned ds) (strrev xs) (omega (arith, size, short))
      (λ j l.
        let here : j < length ds = omega (arith, size, l) in
        let there : length ds - 1 - j < length ds = omega (arith, here) in
        let value : get_or (turned ds) j 0 ≡ get_or ds (length ds - 1 - j) 0 =
          get_or-turned ds j here in
        (
          inside j (omega (arith, long, here))
              ∙ ap (λ m. get_or xs (m - 1 - j) 0) long
              ∙ (same (length ds - 1 - j) there).0
              ∙ sym value,
          λ q. (same (length ds - 1 - j) there).1 (sym value ∙ q),
        ))
      (ap (λ m. get_or (strrev xs) m 0) size ∙ behind (length ds) (omega (arith, long)) ∙ end)

pub text-itoa :
    (value radix : ℕ) (buf : List ℕ)
    → 2 ≤ radix
    → radix ≤ 36
    → 34 ≤ length buf
    → text 33 (itoa value buf radix) ≡ numeral radix value
unfolding itoa
text-itoa value radix buf lo hi room = elim (Bool-cases (value == 0)) [
  | inl e ↦ rw (e, zero_text buf room) refl
  | inr e ↦
      let ds = digits_of 32 radix value in
      let r = itoa_loop 32 value radix 0 buf in
      let (at, bytes, long) = itoa_loop-writes 32 value radix 0 buf (omega (arith, room)) in
      let size : length (set r.0 r.1 0) ≡ length buf = length-set r.0 r.1 0 ∙ long in
      let most = length-digits 32 radix value in
      rw e (
        text-strrev 33 ds (set r.0 r.1 0) (omega (arith, most)) (omega (arith, most, size, room))
          (λ j l. (
            get_or-set_ne r.0 r.1 j 0 0 (omega (arith, at, l))
                ∙ ap (λ m. get_or r.0 m 0) (front j)
                ∙ bytes.1 j l,
            digits-nonzero 32 radix value lo hi j l,
          ))
          (ap (λ m. get_or (set r.0 r.1 0) m 0) (place at) ∙ ended r.0 r.1))
]
  where
    zero_text : (b : List ℕ) → 34 ≤ length b → text 33 (set (set b 0 b'0') 1 0) ≡ b'0' ∷ []
    zero_text [] h = absurd (omega arith)
    zero_text (x ∷ []) h = absurd (omega arith)
    zero_text (x ∷ y ∷ b) h = refl

    front : (j : ℕ) → j ≡ 0 + j
    front j = omega arith

    place : {a n : ℕ} → a ≡ 0 + n → n ≡ a
    place h = omega (arith, h)

-- A number of 32 bits in a base from 2 to 36, printed by `itoa` into a buffer of at least 34 bytes,
-- is read back from the string that then stands in the buffer.
pub parse-itoa :
    (value radix : ℕ) (buf : List ℕ)
    → value < 2 ^ 32
    → 2 ≤ radix
    → radix ≤ 36
    → 34 ≤ length buf
    → parse radix 0 (text 33 (itoa value buf radix)) ≡ value
parse-itoa value radix buf small lo hi room =
    ap (parse radix 0) (text-itoa value radix buf lo hi room)
    ∙ parse-numeral radix value lo hi small
