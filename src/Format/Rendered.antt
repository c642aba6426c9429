-- ===== src/Format/Rendered.antt =====
-- What `printf` of student-distrib/lib.c shows: the text that its format stands for.
use ece391linux_os.Prelude.{
  length, take, drop, replicate, length-append, length-replicate, length-take, length-drop, ltb,
  ◌==◌, if◌then◌else◌, Bool-cases, ℕ, zero, suc, ◌+◌, ◌-◌, ◌%◌, ◌^◌, ◌≤◌, ◌<◌, ◌≡◌, refl, sym, ap,
  ◌∙◌, inl, inr, List, [], ◌∷◌, ◌++◌, arith,
}
use ece391linux_os.Prelude.Range.{update_range, update_range-cons, update_range-start}
use ece391linux_os.Console.{Screen, putc, puts}
use ece391linux_os.Format.{
  Mode, plain, conversion, hex_string, hex8_string, unsigned_string, signed_string, convert,
  printf_loop, printf,
}
use ece391linux_os.Numbers.{itoa}
use ece391linux_os.Numbers.Decimal.{text-itoa}
use ece391linux_os.Numbers.Digits.{numeral, length-numeral-le, length-numeral-lt}
use ece391linux_os.Text.{strlen, text}

-- One `putc` for each character.
abbrev pub put_all : List ℕ → Screen → Screen
put_all [] s = s
put_all (c ∷ str) s = put_all str (putc c s)

put_all-append : (a b : List ℕ) (s : Screen) → put_all (a ++ b) s ≡ put_all b (put_all a s)
put_all-append [] b s = refl
put_all-append (c ∷ a) b s = put_all-append a b (putc c s)

-- `puts` shows the characters in front of the terminator.
puts_lem :
    (n : ℕ) (str : List ℕ) (s : Screen)
    → length (text n str) < n
    → (puts str s).0 ≡ put_all (text n str) s
unfolding puts
puts_lem zero str s h = absurd (omega arith)
puts_lem (suc n) [] s h = refl
puts_lem (suc n) (c ∷ str) s h = elim (Bool-cases (c == 0)) [
  | inl e ↦ rw e refl
  | inr e ↦
      let less : length (text n str) < n = ground (arith, h, e) in
      rw e (puts_lem n str (putc c s) less)
]

puts-whole : (str : List ℕ) (s : Screen) → (puts str s).0 ≡ put_all (text (length str) str) s
unfolding puts
puts-whole [] s = refl
puts-whole (c ∷ str) s = elim (Bool-cases (c == 0)) [
  | inl e ↦ rw e refl
  | inr e ↦ rw e (puts-whole str (putc c s))
]

-- At least eight digits.
abbrev pub padded : List ℕ → List ℕ
padded digits = replicate (8 - length digits) b'0' ++ digits

-- The loop that writes zeros in front of the digits, seen from its first cell.
zeros_in_front :
    (n l : ℕ) (xs ys : List ℕ)
    → length xs ≡ l + n
    → drop l (update_range n l (λ _. b'0') (xs ++ ys)) ≡ replicate n b'0' ++ ys
zeros_in_front n (suc l) [] ys h = absurd (omega arith)
zeros_in_front n (suc l) (x ∷ xs) ys h =
    ap (drop (suc l)) (update_range-cons n l (λ _. b'0') x (xs ++ ys))
    ∙ zeros_in_front n l xs ys (omega arith)
zeros_in_front n zero xs ys h = update_range-start n b'0' xs ys (omega (arith, h))

text_zeros :
    (k n : ℕ) (s : List ℕ) → text (k + n) (replicate k b'0' ++ s) ≡ replicate k b'0' ++ text n s
text_zeros zero n s = let none_more : 0 + n ≡ n = omega arith in rw none_more refl
text_zeros (suc k) n s =
    let one_more : suc k + n ≡ suc (k + n) = omega arith in
    rw one_more (ap (λ w. b'0' ∷ w) (text_zeros k n s))

strlen-text : (n : ℕ) (s : List ℕ) → length (text n s) < n → strlen s ≡ length (text n s)
unfolding strlen
strlen-text zero s h = absurd (omega arith)
strlen-text (suc n) [] h = refl
strlen-text (suc n) (c ∷ s) h = elim (Bool-cases (c == 0)) [
  | inl e ↦ rw e refl
  | inr e ↦
      let less : length (text n s) < n = ground (arith, h, e) in
      rw e (ap suc (strlen-text n s less))
]

put-numeral :
    (value radix : ℕ) (buf : List ℕ) (s : Screen)
    → value < 2 ^ 32
    → 2 ≤ radix
    → radix ≤ 36
    → 34 ≤ length buf
    → (puts (itoa value buf radix) s).0 ≡ put_all (numeral radix value) s
put-numeral value radix buf s small lo hi room =
    let shown_text = text-itoa value radix buf lo hi room in
    puts_lem 33 (itoa value buf radix) s
      (omega (arith, ap length shown_text, length-numeral-lt radix value lo small))
    ∙ ap (λ w. put_all w s) shown_text

put-hex8 :
    (value : ℕ) (conv_buf : List ℕ) (s : Screen)
    → value < 2 ^ 32
    → 42 ≤ length conv_buf
    → (puts (hex8_string value conv_buf) s).0 ≡ put_all (padded (numeral 16 value)) s
unfolding hex8_string
put-hex8 value conv_buf s small room =
    let digits = itoa value (drop 8 conv_buf) 16 in
    let w = numeral 16 value in
    let shown_text : text 33 digits ≡ w =
      text-itoa value 16 (drop 8 conv_buf) (omega arith) (omega arith)
        (omega (arith, length-drop 8 conv_buf, room)) in
    let few : length w ≤ 8 =
      length-numeral-le 8 16 value (omega arith) (omega (arith, small)) (omega arith) in
    let size : strlen digits ≡ length w =
      strlen-text 33 digits (omega (arith, ap length shown_text, few)) ∙ ap length shown_text in
    let whole =
      zeros_in_front (8 - strlen digits) (strlen digits) (take 8 conv_buf) digits
        (omega (arith, length-take 8 conv_buf, room, size, few)) in
    let k = 8 - strlen digits in
    let seen : text (k + 33) (hex8_string value conv_buf) ≡ padded w =
      ap (text (k + 33)) whole
      ∙ text_zeros k 33 digits
      ∙ ap (λ t. replicate k b'0' ++ t) shown_text
      ∙ ap (λ n. replicate (8 - n) b'0' ++ w) size in
    puts_lem (k + 33) (hex8_string value conv_buf) s (
      omega (
        arith,
        ap length seen,
        length-append (replicate (8 - length w) b'0') w,
        length-replicate {A = ℕ} (8 - length w) b'0',
        few,
      ))
    ∙ ap (λ t. put_all t s) seen

-- The numeral of a word taken as signed.
abbrev pub signed_numeral : ℕ → List ℕ
signed_numeral value =
    if ltb value (2 ^ 31) then numeral 10 value else b'-' ∷ numeral 10 (2 ^ 32 - value)

put-signed :
    (value : ℕ) (conv_buf : List ℕ) (s : Screen)
    → value < 2 ^ 32
    → 42 ≤ length conv_buf
    → (puts (signed_string value conv_buf) s).0 ≡ put_all (signed_numeral value) s
unfolding signed_string puts
put-signed value conv_buf s small room = elim (Bool-cases (ltb value (2 ^ 31))) [
  | inl e ↦
      rw e (put-numeral value 10 conv_buf s small (omega arith) (omega arith) (omega (arith, room)))
  | inr e ↦ rw e (
      put-numeral (2 ^ 32 - value) 10 (drop 1 conv_buf) (putc b'-' s) (ground (arith, e))
        (omega arith) (omega arith) (omega (arith, length-drop 1 conv_buf, room)))
]

module _ (stack : ℕ → ℕ) (string_at : ℕ → List ℕ) where
  -- What a conversion stands for, and how many arguments it takes.
  abbrev pub converted : ℕ → ℕ → ℕ → List ℕ × ℕ
  converted c alternate value =
      if c == b'x'
      then (if alternate == 0 then numeral 16 value else padded (numeral 16 value), 1)
      else (if c == b'u'
          then (numeral 10 value, 1)
          else (if c == b'd'
              then (signed_numeral value, 1)
              else (if c == b'c'
                  then ((value % 256) ∷ [], 1)
                  else (if c == b's'
                      then (text (length (string_at value)) (string_at value), 1)
                      else ([], 0)))))

  -- The text that a format stands for, from the argument `esp` on.
  abbrev pub rendered : List ℕ → Mode → ℕ → List ℕ
  rendered [] mode esp = []
  rendered (c ∷ buf) plain esp =
      let specified = rendered buf (conversion 0) esp in
      let more = rendered buf plain esp in
      if c == 0 then [] else (if c == b'%' then specified else c ∷ more)
  rendered (c ∷ buf) (conversion alternate) esp =
      let again = rendered buf (conversion 1) esp in
      let more = rendered buf plain esp in
      let (shown_text, words) = converted c alternate (stack esp) in
      let behind = rendered buf plain (esp + words) in
      if c == b'%' then b'%' ∷ more else (if c == b'#' then again else shown_text ++ behind)

  module _ (conv_buf : List ℕ) (small : (i : ℕ) → stack i < 2 ^ 32)
      (room : 42 ≤ length conv_buf) where
    convert-shows :
        (c alternate esp : ℕ) (s : Screen)
        → let value = stack esp in
          ((convert stack string_at conv_buf c alternate value s).1
            ≡ (converted c alternate value).1)
          × ((convert stack string_at conv_buf c alternate value s).0
              ≡ put_all (converted c alternate value).0 s)
    unfolding convert hex_string unsigned_string
    convert-shows c alternate esp s = elim (Bool-cases (c == b'x')) [
      | inl x ↦ elim (Bool-cases (alternate == 0)) [
        | inl a ↦
            rw (x, a)
              (
                refl,
                put-numeral (stack esp) 16 conv_buf s (small esp) (omega arith) (omega arith)
                    (omega (arith, room)),
              )
        | inr a ↦ rw (x, a) (refl, put-hex8 (stack esp) conv_buf s (small esp) room)
      ]
      | inr x ↦ elim (Bool-cases (c == b'u')) [
        | inl u ↦
            rw (x, u)
              (
                refl,
                put-numeral (stack esp) 10 conv_buf s (small esp) (omega arith) (omega arith)
                    (omega (arith, room)),
              )
        | inr u ↦ elim (Bool-cases (c == b'd')) [
          | inl d ↦ rw (x, u, d) (refl, put-signed (stack esp) conv_buf s (small esp) room)
          | inr d ↦ elim (Bool-cases (c == b'c')) [
            | inl k ↦ rw (x, u, d, k) (refl, refl)
            | inr k ↦ elim (Bool-cases (c == b's')) [
              | inl t ↦ rw (x, u, d, k, t) (refl, puts-whole (string_at (stack esp)) s)
              | inr t ↦ rw (x, u, d, k, t) (refl, refl)
            ]
          ]
        ]
      ]
    ]

    printf_loop-shows :
        (buf : List ℕ) (mode : Mode) (esp n : ℕ) (s : Screen)
        → (printf_loop stack string_at conv_buf buf mode esp n s).0
          ≡ put_all (rendered buf mode esp) s
    unfolding printf_loop
    printf_loop-shows [] plain esp n s = refl
    printf_loop-shows [] (conversion alternate) esp n s = refl
    printf_loop-shows (c ∷ buf) plain esp n s = elim (Bool-cases (c == 0)) [
      | inl e ↦ rw e refl
      | inr e ↦ elim (Bool-cases (c == b'%')) [
        | inl f ↦ rw (e, f) (printf_loop-shows buf (conversion 0) esp (n + 1) s)
        | inr f ↦ rw (e, f) (printf_loop-shows buf plain esp (n + 1) (putc c s))
      ]
    ]
    printf_loop-shows (c ∷ buf) (conversion alternate) esp n s = elim (Bool-cases (c == b'%')) [
      | inl e ↦ rw e (printf_loop-shows buf plain esp (n + 1) (putc b'%' s))
      | inr e ↦ elim (Bool-cases (c == b'#')) [
        | inl f ↦ rw (e, f) (printf_loop-shows buf (conversion 1) esp (n + 1) s)
        | inr f ↦
            let r = convert stack string_at conv_buf c alternate (stack esp) s in
            let w = converted c alternate (stack esp) in
            let (words, seen) = convert-shows c alternate esp s in
            rw (e, f)
              (printf_loop-shows buf plain (esp + r.1) (n + 1) r.0
                ∙ ap (λ k. put_all (rendered buf plain (esp + k)) r.0) words
                ∙ ap (put_all (rendered buf plain (esp + w.1))) seen
                ∙ sym (put_all-append w.0 (rendered buf plain (esp + w.1)) s))
      ]
    ]

    -- For arguments of 32 bits and a conversion buffer of at least 42 bytes: `printf` shows, one
    -- `putc` after the other, the text that its format and arguments stand for, where %u and %d
    -- stand for decimal numerals, %x for the hexadecimal one, %#x for that with leading zeros up to
    -- eight digits, %c for a character, %s for a string, and an unknown conversion for nothing.
    pub printf-shows :
        (format : List ℕ) (s : Screen)
        → (printf stack string_at conv_buf format s).0 ≡ put_all (rendered format plain 0) s
    unfolding printf
    printf-shows format s = printf_loop-shows format plain 0 0 s
