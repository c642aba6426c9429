-- ===== src/Text.antt =====
-- The string routines of student-distrib/lib.c.
-- A C string is the list of the bytes from its pointer on; what lies past the list reads as NUL,
-- so the list may stop at the terminator. A buffer that is written is a list of its whole size.
pub mod Compare
pub mod Copy
pub mod Writing
use ece391linux_os.Prelude.{
  ℕ, zero, suc, ◌-◌, ◌≡◌, ◌<◌, Bool, not, ◌||◌, List, [], ◌∷◌, if◌then◌else◌, ltb, ◌==◌,
}
use ece391linux_os.Prelude.Int.{ℤ, pos, negsuc, ◌-ℤ◌}

-- `*s`, and the pointer `s + 1`.
abbrev pub first : List ℕ → ℕ
first [] = 0
first (c ∷ s) = c

abbrev pub next : List ℕ → List ℕ
next [] = []
next (c ∷ s) = s

abbrev pub IsBytes : List ℕ → Type 0
IsBytes [] = Unit
IsBytes (c ∷ s) = (c < 256) × IsBytes s

-- The value of a byte read as `int8_t`.
abbrev pub int8 : ℕ → ℤ
int8 c = if ltb c 128 then pos c else negsuc (255 - c)

unfoldable pub strlen : List ℕ → ℕ
strlen [] = 0
strlen (c ∷ s) = if c == 0 then 0 else suc (strlen s)

unfoldable pub strncmp : List ℕ → List ℕ → ℕ → ℤ
strncmp s1 s2 zero = pos 0
strncmp s1 s2 (suc n) =
    let rest = strncmp (next s1) (next s2) n in
    if not (first s1 == first s2) || first s1 == 0 then int8 (first s1) -ℤ int8 (first s2) else rest

unfoldable pub strcpy : List ℕ → List ℕ → List ℕ
strcpy [] src = []
strcpy (d ∷ dest) [] = 0 ∷ dest
strcpy (d ∷ dest) (c ∷ src) = if c == 0 then 0 ∷ dest else c ∷ strcpy dest src

-- The second loop of `strncpy`: NUL into the cells that are left.
unfoldable pub pad : List ℕ → ℕ → List ℕ
pad dest zero = dest
pad [] (suc n) = []
pad (d ∷ dest) (suc n) = 0 ∷ pad dest n

unfoldable pub strncpy : List ℕ → List ℕ → ℕ → List ℕ
strncpy dest src zero = dest
strncpy [] src (suc n) = []
strncpy (d ∷ dest) src (suc n) =
    if first src == 0 then pad (d ∷ dest) (suc n) else first src ∷ strncpy dest (next src) n

-- The text that a C string holds, cut off at `n` bytes.
abbrev pub text : ℕ → List ℕ → List ℕ
text zero s = []
text (suc n) [] = []
text (suc n) (c ∷ s) = if c == 0 then [] else c ∷ text n s
