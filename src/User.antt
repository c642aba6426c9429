-- ===== src/User.antt =====
-- The user programs of syscalls/, over the system calls of syscalls/ece391syscall.h as an interface.
-- `W` is the state that the calls work on: the kernel's, with what its users type. A call that does
-- not come back gives none, and so does a program that makes it. A pointer to a buffer is the list
-- of the bytes from it on.
pub mod Support
pub mod Files
pub mod Errors
pub mod Shell
pub mod Counter
pub mod Pingpong
pub mod Grep
pub mod Kernel
use Prim.Native.Char.{code}
use Prim.Native.String.{String}
use ece391linux_os.Prelude.{ℕ, Option, none, some, List, [], ◌∷◌}
use ece391linux_os.Prelude.Int.{ℤ, pos}
use ece391linux_os.Text.{strlen}

abbrev pub Run : Type 0 → Type 0 → Type 0
Run W A = W → Option (W × A)

infixl 5 ◌>>=◌ ◌>>◌
abbrev pub ◌>>=◌ : {W A B : Type 0} → Run W A → (A → Run W B) → Run W B
◌>>=◌ m f w = elim (m w) [ none ↦ none | some r ↦ f r.1 r.0 ]

abbrev pub ◌>>◌ : {W A B : Type 0} → Run W A → Run W B → Run W B
m >> k = m >>= λ _. k

abbrev pub pure : {W A : Type 0} → A → Run W A
pure a w = some (w, a)

abbrev pub no_return : {W A : Type 0} → Run W A
no_return w = none

-- What `read` and `getargs` leave in the caller's buffer, with the value returned.
pub record Filled : Type 0 where
  pub buf : List ℕ
  pub ret : ℤ

-- `execute` stands by itself: only the shell starts programs.
pub record Calls (W : Type 0) : Type 0 where
  pub read : ℤ → List ℕ → ℤ → Run W Filled
  pub write : ℤ → List ℕ → ℤ → Run W ℤ
  pub open_file : List ℕ → Run W ℤ
  pub close : ℤ → Run W ℤ
  pub getargs : List ℕ → ℤ → Run W Filled
  pub vidmap : ℕ → Run W ℤ
  pub call_sys : ℤ → Run W ℤ

-- A string literal.
abbrev pub bytes : String → List ℕ
bytes String.[] = []
bytes (String.◌∷◌ c s) = code c ∷ bytes s

unfoldable pub ece391_fdputs : {W : Type 0} → Calls W → ℤ → List ℕ → Run W (Unit {0})
ece391_fdputs c fd s = do c.write fd s (pos (strlen s)); pure tt
