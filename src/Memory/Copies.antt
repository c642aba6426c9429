-- ===== src/Memory/Copies.antt =====
-- `memcpy` and `memmove` of student-distrib/lib.c copy a range.
use ece391linux_os.Prelude.{
  ltb, leb, ◌==◌, if◌then◌else◌, ltb→lt, Bool-cases, ℕ, zero, suc, ◌+◌, ◌-◌, ◌*◌, ◌/◌, ◌%◌, ◌≤◌,
  ◌<◌, ◌≡◌, refl, sym, ap, subst, ◌∙◌, ◌⊎◌, inl, inr, ◌&&◌, arith,
}
use ece391linux_os.Memory.{
  Memory, store, movsb_up, movsb_down, copy_dword, movsl, memcpy_top, memcpy, memmove,
}

-- Memory `m` with the `n` bytes from `src` on, as `m` has them, at `dest`.
abbrev pub copied : ℕ → ℕ → ℕ → Memory → Memory
copied dest src n m = λ a. if leb dest a && ltb a (dest + n) then m (src + (a - dest)) else m a

-- A copy that goes upwards never reads what it has written.
abbrev pub IsForward : ℕ → ℕ → ℕ → Type 0
IsForward dest src n = (dest ≤ src) ⊎ (src + n ≤ dest)

IsForward-take : (k dest src n : ℕ) → k ≤ n → IsForward dest src n → IsForward dest src k
IsForward-take k dest src n l (inl h) = inl h
IsForward-take k dest src n l (inr h) = inr (omega (arith, h))

IsForward-drop :
    (k dest src n j : ℕ) → k + j ≤ n → IsForward dest src n → IsForward (dest + k) (src + k) j
IsForward-drop k dest src n j l (inl h) = inl (omega (arith, h))
IsForward-drop k dest src n j l (inr h) = inr (omega (arith, h))

movsb_up-copies :
    (n src dest : ℕ) (m : Memory) (a : ℕ)
    → IsForward dest src n
    → movsb_up n src dest m a ≡ copied dest src n m a
unfolding movsb_up
movsb_up-copies zero src dest m a apart = ground arith
movsb_up-copies (suc n) src dest m a apart =
    let rest =
      movsb_up-copies n (src + 1) (dest + 1) (store dest (m src) m) a
        (IsForward-drop 1 dest src (suc n) n (omega arith) apart) in
    rw rest (grind (arith, apart))

movsb_down-copies :
    (n src dest : ℕ) (m : Memory) (a : ℕ)
    → src ≤ dest
    → movsb_down n (src + n - 1) (dest + n - 1) m a ≡ copied dest src n m a
unfolding movsb_down
movsb_down-copies zero src dest m a below = ground arith
movsb_down-copies (suc n) src dest m a below =
    let s0 : src + suc n - 1 ≡ src + n = omega arith in
    let d0 : dest + suc n - 1 ≡ dest + n = omega arith in
    let rest = movsb_down-copies n src dest (store (dest + n) (m (src + n)) m) a below in
    rw (s0, d0, rest) (grind (arith, below))

copied_in :
    (dest src n : ℕ) (m : Memory) (a : ℕ)
    → dest ≤ a
    → a < dest + n
    → copied dest src n m a ≡ m (src + (a - dest))
copied_in dest src n m a lo hi = ground arith

copied_out :
    (dest src n : ℕ) (m : Memory) (a : ℕ)
    → (a < dest) ⊎ (dest + n ≤ a)
    → copied dest src n m a ≡ m a
copied_out dest src n m a (inl h) = ground arith
copied_out dest src n m a (inr h) = ground arith

unread :
    (k j src dest a : ℕ)
    → IsForward dest src (k + j)
    → dest + k ≤ a
    → a < dest + k + j
    → (src + (a - dest) < dest) ⊎ (dest + k ≤ src + (a - dest))
unread k j src dest a (inl h) lo hi = inr (omega arith)
unread k j src dest a (inr h) lo hi = inl (omega arith)

-- Two copies, one behind the other, are one copy.
copied-joins :
    (k j src dest : ℕ) (m m1 : Memory) (a : ℕ)
    → IsForward dest src (k + j)
    → ((b : ℕ) → m1 b ≡ copied dest src k m b)
    → copied (dest + k) (src + k) j m1 a ≡ copied dest src (k + j) m a
copied-joins k j src dest m m1 a apart h = elim (Bool-cases (ltb a (dest + k))) [
  | inl e ↦
      let l = ltb→lt a (dest + k) e in
      copied_out (dest + k) (src + k) j m1 a (inl l) ∙ h a ∙ ground (arith, l)
  | inr e ↦ elim (Bool-cases (ltb a (dest + k + j))) [
    | inl f ↦
        let l = ltb→lt a (dest + k + j) f in
        let lo : dest + k ≤ a = ground (arith, e) in
        copied_in (dest + k) (src + k) j m1 a lo l
        ∙ ap m1 (omega (arith, lo))
        ∙ h (src + (a - dest))
        ∙ copied_out dest src k m (src + (a - dest)) (unread k j src dest a apart lo l)
        ∙ sym (copied_in dest src (k + j) m a (omega (arith, lo)) (omega (arith, l)))
    | inr f ↦
        let hi : dest + k + j ≤ a = ground (arith, f) in
        copied_out (dest + k) (src + k) j m1 a (inr hi)
        ∙ h a
        ∙ copied_out dest src k m a (inr (omega (arith, hi)))
        ∙ sym (copied_out dest src (k + j) m a (inr (omega (arith, hi))))
  ]
]

store-copies : (src dest : ℕ) (m : Memory) (b : ℕ) → store dest (m src) m b ≡ copied dest src 1 m b
store-copies src dest m b = grind arith

copy_dword-copies :
    (src dest : ℕ) (m : Memory) (b : ℕ) → copy_dword src dest m b ≡ copied dest src 4 m b
copy_dword-copies src dest m b = grind arith

movsl-copies :
    (n src dest : ℕ) (m : Memory) (a : ℕ)
    → IsForward dest src (4 * n)
    → movsl n src dest m a ≡ copied dest src (4 * n) m a
unfolding movsl
movsl-copies zero src dest m a apart = ground arith
movsl-copies (suc n) src dest m a apart =
    let rest =
      movsl-copies n (src + 4) (dest + 4) (copy_dword src dest m) a
        (IsForward-drop 4 dest src (4 * suc n) (4 * n) (omega arith) apart) in
    let long : 4 * suc n ≡ 4 + 4 * n = omega arith in
    rw (rest, long)
      (copied-joins 4 (4 * n) src dest m (copy_dword src dest m) a
        (subst (IsForward dest src) long apart) (copy_dword-copies src dest m))

memcpy_top-copies :
    (n src dest : ℕ) (m : Memory)
    → IsForward dest src n
    → let (t, s, d, c) = memcpy_top n src dest m in
      (k : ℕ) × (s ≡ src + k)
      × (d ≡ dest + k)
      × (k + c ≡ n)
      × ((a : ℕ) → t a ≡ copied dest src k m a)
unfolding memcpy_top
memcpy_top-copies zero src dest m apart = (0, omega arith, omega arith, refl, λ a. ground arith)
memcpy_top-copies (suc n) src dest m apart = elim (Bool-cases (dest % 4 == 0)) [
  | inl e ↦ rw e (0, omega arith, omega arith, omega arith, λ a. ground arith)
  | inr e ↦
      let (k, s, d, c, all) =
        memcpy_top-copies n (src + 1) (dest + 1) (store dest (m src) m)
          (IsForward-drop 1 dest src (suc n) n (omega arith) apart) in
      rw e (
        1 + k,
        s ∙ omega arith,
        d ∙ omega arith,
        count k (memcpy_top n (src + 1) (dest + 1) (store dest (m src) m)).3 c,
        λ a.
            all a
            ∙ copied-joins 1 k src dest m (store dest (m src) m) a
                (IsForward-take (1 + k) dest src (suc n) (omega (arith, c)) apart)
                (store-copies src dest m),
      )
]
  where
    count : (k rest : ℕ) → k + rest ≡ n → 1 + k + rest ≡ suc n
    count k rest e = omega (arith, e)

-- The double words and the last bytes.
bulk :
    (j r src dest : ℕ) (m : Memory) (a : ℕ)
    → IsForward dest src (4 * j + r)
    → movsb_up r (src + 4 * j) (dest + 4 * j) (movsl j src dest m) a
      ≡ copied dest src (4 * j + r) m a
bulk j r src dest m a apart =
    movsb_up-copies r (src + 4 * j) (dest + 4 * j) (movsl j src dest m) a
      (IsForward-drop (4 * j) dest src (4 * j + r) r (omega arith) apart)
    ∙ copied-joins (4 * j) r src dest m (movsl j src dest m) a apart (λ b.
      movsl-copies j src dest m b (IsForward-take (4 * j) dest src (4 * j + r) (omega arith) apart))

-- `memcpy` copies the range as it was before the call, whatever its alignment and length, where the
-- destination starts no later than the source or behind its end, and leaves all else alone.
pub memcpy-copies :
    (dest src n : ℕ) (m : Memory) (a : ℕ)
    → IsForward dest src n
    → memcpy dest src n m a ≡ copied dest src n m a
unfolding memcpy
memcpy-copies dest src n m a apart =
    let r = memcpy_top n src dest m in
    let (k, s, d, c, all) = memcpy_top-copies n src dest m apart in
    finish k r.3 r.1 r.2 r.0 s d c all
  where
    finish :
        (k c s d : ℕ) (t : Memory)
        → s ≡ src + k
        → d ≡ dest + k
        → k + c ≡ n
        → ((b : ℕ) → t b ≡ copied dest src k m b)
        → movsb_up (c % 4) (s + 4 * (c / 4)) (d + 4 * (c / 4)) (movsl (c / 4) s d t) a
          ≡ copied dest src n m a
    finish k c s d t at to total all =
        let split : 4 * (c / 4) + c % 4 ≡ c = omega arith in
        let whole : IsForward dest src (k + c) = subst (IsForward dest src) (sym total) apart in
        let behind = IsForward-drop k dest src (k + c) c (omega arith) whole in
        rw (at, to)
          (bulk (c / 4) (c % 4) (src + k) (dest + k) t a
              (subst (IsForward (dest + k) (src + k)) (sym split) behind)
            ∙ ap (λ l. copied (dest + k) (src + k) l t a) split
            ∙ copied-joins k c src dest m t a whole all
            ∙ ap (λ l. copied dest src l m a) total)

-- `memmove` copies the range as it was before the call and leaves all else alone, however source
-- and destination overlap.
pub memmove-copies :
    (dest src n : ℕ) (m : Memory) (a : ℕ) → memmove dest src n m a ≡ copied dest src n m a
unfolding memmove
memmove-copies dest src n m a = elim (Bool-cases (ltb src dest)) [
  | inl e ↦ rw e (movsb_down-copies n src dest m a (omega (arith, ltb→lt src dest e)))
  | inr e ↦ rw e (movsb_up-copies n src dest m a (inl (ground (arith, e))))
]
