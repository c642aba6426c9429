-- ===== src/Memory.antt =====
-- The block routines of student-distrib/lib.c, whose bodies are inline assembly: `memset`,
-- `memset_word`, `memset_dword`, `memcpy` and `memmove`, over registers and memory. Memory is the
-- byte at each address; the ranges are taken not to wrap round the end of the address space.
-- `& 0x3` is `% 4`, and a combination of separate bytes by `|` and `<<` is their sum.
pub mod Fill
pub mod Copies
use ece391linux_os.Prelude.{ltb, ◌==◌, if◌then◌else◌, ℕ, zero, suc, ◌+◌, ◌-◌, ◌*◌, ◌/◌, ◌%◌, ◌^◌}

abbrev pub Memory : Type 0
Memory = ℕ → ℕ

abbrev pub store : ℕ → ℕ → Memory → Memory
store a v m = λ x. if x == a then v else m x

-- Two and four bytes, the low one first.
abbrev pub store_word : ℕ → ℕ → Memory → Memory
store_word a v m = store (a + 1) (v / 2 ^ 8 % 256) (store a (v % 256) m)

abbrev pub store_dword : ℕ → ℕ → Memory → Memory
store_dword a v m = store_word (a + 2) (v / 2 ^ 16 % 2 ^ 16) (store_word a (v % 2 ^ 16) m)

-- `n` times a store of `al`, with `edi` moving up: the loop at `.memset_bottom`.
unfoldable pub stosb : ℕ → ℕ → ℕ → Memory → Memory
stosb zero edi al m = m
stosb (suc n) edi al m = stosb n (edi + 1) al (store edi al m)

-- The loop at `.memset_top`: up to the end or an aligned address; gives `edi` and `ecx` too.
unfoldable pub memset_top : ℕ → ℕ → ℕ → Memory → Memory × ℕ × ℕ
memset_top zero edi al m = (m, edi, 0)
memset_top (suc n) edi al m =
    let rest = memset_top n (edi + 1) al (store edi al m) in
    if edi % 4 == 0 then (m, edi, suc n) else rest

-- `rep stosw` and `rep stosl`.
unfoldable pub stosw : ℕ → ℕ → ℕ → Memory → Memory
stosw zero edi ax m = m
stosw (suc n) edi ax m = stosw n (edi + 2) ax (store_word edi ax m)

unfoldable pub stosl : ℕ → ℕ → ℕ → Memory → Memory
stosl zero edi eax m = m
stosl (suc n) edi eax m = stosl n (edi + 4) eax (store_dword edi eax m)

unfoldable pub memset : ℕ → ℕ → ℕ → Memory → Memory
memset s value n m =
    let c = value % 256 in
    let eax = c * 2 ^ 24 + c * 2 ^ 16 + c * 2 ^ 8 + c in
    let (top, edi, ecx) = memset_top n s (eax % 256) m in
    stosb (ecx % 4) (edi + 4 * (ecx / 4)) (eax % 256) (stosl (ecx / 4) edi eax top)

unfoldable pub memset_word : ℕ → ℕ → ℕ → Memory → Memory
memset_word s c n m = stosw n s (c % 2 ^ 16) m

unfoldable pub memset_dword : ℕ → ℕ → ℕ → Memory → Memory
memset_dword s c n m = stosl n s (c % 2 ^ 32) m

-- `n` times a byte from `esi` to `edi`, both moving up: the loop at `.memcpy_bottom`, and
-- `rep movsb` with the direction flag clear.
unfoldable pub movsb_up : ℕ → ℕ → ℕ → Memory → Memory
movsb_up zero esi edi m = m
movsb_up (suc n) esi edi m = movsb_up n (esi + 1) (edi + 1) (store edi (m esi) m)

-- `rep movsb` with the direction flag set, `esi` and `edi` pointing to the last bytes.
unfoldable pub movsb_down : ℕ → ℕ → ℕ → Memory → Memory
movsb_down zero esi edi m = m
movsb_down (suc n) esi edi m = movsb_down n (esi - 1) (edi - 1) (store edi (m esi) m)

-- `rep movsl`: four bytes are read, then written.
abbrev pub copy_dword : ℕ → ℕ → Memory → Memory
copy_dword esi edi m =
    store (edi + 3) (m (esi + 3))
      (store (edi + 2) (m (esi + 2)) (store (edi + 1) (m (esi + 1)) (store edi (m esi) m)))

unfoldable pub movsl : ℕ → ℕ → ℕ → Memory → Memory
movsl zero esi edi m = m
movsl (suc n) esi edi m = movsl n (esi + 4) (edi + 4) (copy_dword esi edi m)

-- The loop at `.memcpy_top`; gives `esi`, `edi` and `ecx` too.
unfoldable pub memcpy_top : ℕ → ℕ → ℕ → Memory → Memory × ℕ × ℕ × ℕ
memcpy_top zero esi edi m = (m, esi, edi, 0)
memcpy_top (suc n) esi edi m =
    let rest = memcpy_top n (esi + 1) (edi + 1) (store edi (m esi) m) in
    if edi % 4 == 0 then (m, esi, edi, suc n) else rest

unfoldable pub memcpy : ℕ → ℕ → ℕ → Memory → Memory
memcpy dest src n m =
    let (top, esi, edi, ecx) = memcpy_top n src dest m in
    movsb_up (ecx % 4) (esi + 4 * (ecx / 4)) (edi + 4 * (ecx / 4)) (movsl (ecx / 4) esi edi top)

unfoldable pub memmove : ℕ → ℕ → ℕ → Memory → Memory
memmove dest src n m =
    if ltb src dest then movsb_down n (src + n - 1) (dest + n - 1) m else movsb_up n src dest m
