-- ===== src/User/Kernel/Cat.antt =====
-- `cat` of syscalls/ece391cat.c on the kernel: what it prints of a file.
pub mod Chunks
pub mod Rounds
pub mod Names
pub mod Whole
use ece391linux_os.Syscalls
use ece391linux_os.Prelude.{
  get_or, ltb, if◌then◌else◌, ℕ, zero, suc, ◌+◌, ◌/◌, ◌%◌, ◌^◌, ◌≤◌, ◌<◌, ◌≡◌, refl, ap, ◌∙◌, false,
  List, [], ◌∷◌, arith,
}
use ece391linux_os.Prelude.Int.{pos, ltb_ℤ}
use ece391linux_os.Console.{Screen, write_char, write_chars, terminal_write}
use ece391linux_os.Filesystem.{Image, fd_block, modify_fd, advance}
use ece391linux_os.Filesystem.Fill.{file_byte}
use ece391linux_os.Filesystem.Table.{
  fd_block-modify_fd_self, fd_block-modify_fd_ne, modify_fd-WellFormed,
}
use ece391linux_os.Process.{file, Processes, stdout_block}
use ece391linux_os.Process.Invariant.{WellFormed}

-- `n` bytes of a file from `from` on.
abbrev pub file_bytes : Image → ℕ → ℕ → ℕ → List ℕ
file_bytes img inode from zero = []
file_bytes img inode from (suc n) = file_byte img inode from ∷ file_bytes img inode (from + 1) n

pub get_or-file_bytes :
    (img : Image) (inode from n k : ℕ)
    → k < n
    → get_or (file_bytes img inode from n) k 0 ≡ file_byte img inode (from + k)
get_or-file_bytes img inode from zero k h = absurd (omega arith)
get_or-file_bytes img inode from (suc n) zero h = ap (file_byte img inode) (omega arith)
get_or-file_bytes img inode from (suc n) (suc k) h =
    get_or-file_bytes img inode (from + 1) n k (omega arith)
    ∙ ap (file_byte img inode) (omega arith)

-- `terminal_write` reads only the bytes that it is to write.
write_chars-same :
    (n i : ℕ) (a b : List ℕ) (s : Screen)
    → ((k : ℕ) → i ≤ k → k < i + n → get_or a k 0 ≡ get_or b k 0)
    → write_chars n i a s ≡ write_chars n i b s
unfolding write_chars
write_chars-same zero i a b s h = refl
write_chars-same (suc n) i a b s h = rw (h i (omega arith) (omega arith)) (
    write_chars-same n (i + 1) a b (write_char (get_or b i 0) s)
      (λ k l u. h k (omega arith) (omega arith)))

pub terminal_write-same :
    (n : ℕ) (a b : List ℕ) (s : Screen)
    → ((k : ℕ) → k < n → get_or a k 0 ≡ get_or b k 0)
    → terminal_write a (pos n) s ≡ terminal_write b (pos n) s
unfolding terminal_write
terminal_write-same n a b s h = rw (write_chars-same n 0 a b s (λ k l u. h k (omega arith))) refl

pub terminal_write-ret :
    (n : ℕ) (a : List ℕ) (s : Screen) → 0 < n → (terminal_write a (pos n) s).1 ≡ pos n
unfolding terminal_write
terminal_write-ret n a s h = let t : ltb_ℤ (pos n) (pos 1) ≡ false = ground arith in rw t refl

-- `k` writes of 1024 bytes of the file each, from `from` on.
abbrev pub show_chunks : Image → ℕ → ℕ → ℕ → Screen → Screen
show_chunks img inode from zero s = s
show_chunks img inode from (suc k) s =
    show_chunks img inode (from + 1024) k
      (terminal_write (file_bytes img inode from 1024) (pos 1024) s).0

-- Descriptor `fd` reads the file at position `at`, and the output goes to the screen.
pub record Reads (inode fd at : ℕ) (p : Processes) : Type 0 where
  pub well_formed : WellFormed p
  pub output : fd_block p 1 ≡ stdout_block
  pub here : fd_block p fd ≡ record {
    file_operations_pointer = file;
    inode = pos inode;
    file_position = at;
    flags = pos 1;
  }

pub Reads-advance :
    (inode fd at n : ℕ) (p : Processes)
    → 2 ≤ fd
    → fd < 8
    → at + n < 2 ^ 32
    → Reads inode fd at p
    → Reads inode fd (at + n) (modify_fd p fd (advance n))
Reads-advance inode fd at n p l h small r = record {
  well_formed = modify_fd-WellFormed p r.well_formed fd (advance n);
  output = fd_block-modify_fd_ne p r.well_formed fd 1 (advance n) (λ e. omega arith) ∙ r.output;
  here = fd_block-modify_fd_self p r.well_formed fd (advance n) h ∙ rw (r.here, same) refl;
}
  where
    same : (at + n) % 2 ^ 32 ≡ at + n
    same = omega arith

-- What `cat` prints of a file: whole chunks of 1024 bytes only, or all of a file that is shorter.
abbrev pub shown_file : Image → ℕ → ℕ → Screen → Screen
shown_file img inode size s =
    if ltb size 1024
    then (terminal_write (file_bytes img inode 0 size) (pos size) s).0
    else show_chunks img inode 0 (size / 1024) s
