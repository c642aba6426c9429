-- ===== src/Memory/Fill.antt =====
-- `memset`, `memset_word` and `memset_dword` of student-distrib/lib.c fill a range, however it is
-- aligned.
use ece391linux_os.Prelude.{
  ltb, leb, ◌==◌, if◌then◌else◌, Bool-cases, ℕ, zero, suc, ◌+◌, ◌*◌, ◌/◌, ◌%◌, ◌^◌, ◌≤◌, ◌<◌, ◌≡◌,
  refl, ◌∙◌, inl, inr, ◌&&◌, arith,
}
use ece391linux_os.History.{up}
use ece391linux_os.Memory.{Memory, store, store_dword, stosb, memset_top, stosl, memset}

-- Memory `m` with the byte `v` at the addresses from `lo` up to `hi`.
abbrev pub filled : ℕ → ℕ → ℕ → Memory → Memory
filled lo hi v m = λ a. if leb lo a && ltb a hi then v else m a

stosb-fills : (n edi al : ℕ) (m : Memory) (a : ℕ) → stosb n edi al m a ≡ filled edi (edi + n) al m a
unfolding stosb
stosb-fills zero edi al m a = ground arith
stosb-fills (suc n) edi al m a = ground (arith, stosb-fills n (edi + 1) al (store edi al m) a)

-- Four equal bytes as a word of the processor.
abbrev repeated : ℕ → ℕ
repeated c = c * 2 ^ 24 + c * 2 ^ 16 + c * 2 ^ 8 + c

store_dword-fills :
    (c edi : ℕ) (m : Memory) (a : ℕ)
    → c < 256
    → store_dword edi (repeated c) m a ≡ filled edi (edi + 4) c m a
store_dword-fills c edi m a h =
    let b0 : repeated c % 2 ^ 16 % 256 ≡ c = omega arith in
    let b1 : repeated c % 2 ^ 16 / 2 ^ 8 % 256 ≡ c = omega arith in
    let b2 : repeated c / 2 ^ 16 % 2 ^ 16 % 256 ≡ c = omega arith in
    let b3 : repeated c / 2 ^ 16 % 2 ^ 16 / 2 ^ 8 % 256 ≡ c = omega arith in
    rw (b0, b1, b2, b3) (ground arith)

stosl-fills :
    (n c edi : ℕ) (m : Memory) (a : ℕ)
    → c < 256
    → stosl n edi (repeated c) m a ≡ filled edi (edi + 4 * n) c m a
unfolding stosl
stosl-fills zero c edi m a h = ground arith
stosl-fills (suc n) c edi m a h =
    let rest = stosl-fills n c (edi + 4) (store_dword edi (repeated c) m) a h in
    let now = store_dword-fills c edi m a h in rw rest (rw now (ground arith))

memset_top-fills :
    (n edi al : ℕ) (m : Memory)
    → let (t, e, c) = memset_top n edi al m in
      (e + c ≡ edi + n) × (edi ≤ e) × ((a : ℕ) → t a ≡ filled edi e al m a)
unfolding memset_top
memset_top-fills zero edi al m = (refl, omega arith, λ a. ground arith)
memset_top-fills (suc n) edi al m = elim (Bool-cases (edi % 4 == 0)) [
  | inl e ↦ rw e (refl, omega arith, λ a. ground arith)
  | inr e ↦
      let (end, up, all) = memset_top-fills n (edi + 1) al (store edi al m) in
      rw e (end ∙ omega arith, omega (arith, up), λ a. all a ∙ ground (arith, up))
]

-- `memset` puts the low byte of its value at each address of the range, and leaves all others alone,
-- whatever the alignment of the range and its length.
pub memset-fills :
    (s value n : ℕ) (m : Memory) (a : ℕ) → memset s value n m a ≡ filled s (s + n) (value % 256) m a
unfolding memset
memset-fills s value n m a =
    let c = value % 256 in
    let small : c < 256 = omega arith in
    let low : repeated c % 256 ≡ c = omega arith in
    let r = memset_top n s c m in
    let (end, up, all) = memset_top-fills n s c m in
    rw
      (
        low,
        stosb-fills (r.2 % 4) (r.1 + 4 * (r.2 / 4)) c (stosl (r.2 / 4) r.1 (repeated c) r.0) a,
        stosl-fills (r.2 / 4) c r.1 r.0 a small,
        all a,
      )
      (joined c r.1 (4 * (r.2 / 4)) (r.2 % 4) (omega (arith, end)) up)
  where
    joined :
        (c e k j : ℕ)
        → e + k + j ≡ s + n
        → s ≤ e
        → filled (e + k) (e + k + j) c (filled e (e + k) c (filled s e c m)) a
          ≡ filled s (s + n) c m a
    joined c e k j end up = ground (arith, end, up)
