-- ===== src/User/Kernel/Ls.antt =====
-- `ls` of syscalls/ece391ls.c on the kernel: the names that it prints.
pub mod Rounds
pub mod Whole
use ece391linux_os.Prelude.{
  length, get_or, set, length-set, ◌==◌, if◌then◌else◌, Bool-cases, ℕ, zero, suc, ◌+◌, ◌-◌, ◌≤◌,
  ◌<◌, ◌≡◌, refl, subst, ◌∙◌, ◌≢◌, ◌⊎◌, inl, inr, true, false, List, [], ◌∷◌, ◌++◌, arith,
}
use native.Mathlib.Decide.{ℕ_discrete}
use ece391linux_os.Prelude.Int.{pos}
use ece391linux_os.Console.{Screen, terminal_write}
use ece391linux_os.Filesystem.{DirEntry, Image, no_entry, fd_block}
use ece391linux_os.Filesystem.Listing.{entry_bytes, copy_name}
use ece391linux_os.Line.{left}
use ece391linux_os.Process.{dir, Processes, stdout_block}
use ece391linux_os.Process.Invariant.{WellFormed}
use ece391linux_os.Text.{first, text}
use ece391linux_os.Text.Copy.{length-text-le}

abbrev pub entry_at : Image → ℕ → DirEntry
entry_at img k = get_or img.boot.dir_entries k no_entry

abbrev pub name_at : Image → ℕ → List ℕ
name_at img k = text 32 (entry_bytes (entry_at img k))

-- The names of the first `left` used entries among the `m` entries from `k` on.
abbrev pub listed : Image → ℕ → ℕ → ℕ → List (List ℕ)
listed img zero k left = []
listed img (suc m) k zero = []
listed img (suc m) k (suc left) =
    if first (entry_at img k).filename == 0
    then listed img m (k + 1) (suc left)
    else name_at img k ∷ listed img m (k + 1) left

-- Each name on its line.
abbrev pub show_lines : List (List ℕ) → Screen → Screen
show_lines [] s = s
show_lines (name ∷ rest) s =
    show_lines rest (terminal_write (name ++ (b'\n' ∷ [])) (pos (length name + 1)) s).0

-- Descriptor `fd` lists the directory from entry `k` on, with `left` names to come.
pub record Lists (fd k left : ℕ) (p : Processes) : Type 0 where
  pub well_formed : WellFormed p
  pub output : fd_block p 1 ≡ stdout_block
  pub here :
      fd_block p fd
      ≡ record { file_operations_pointer = dir; inode = pos 0; file_position = k; flags = pos left }

-- The bytes of a name, and the end of its line.
pub get_or-line :
    (n : ℕ) (s : List ℕ) (i : ℕ)
    → i < length (text n s)
    → get_or (text n s ++ (b'\n' ∷ [])) i 0 ≡ get_or s i 0
get_or-line zero s i h = absurd (omega arith)
get_or-line (suc n) [] i h = absurd (omega arith)
get_or-line (suc n) (c ∷ s) zero h = elim (Bool-cases (c == 0)) [
  | inl e ↦ absurd (ground arith)
  | inr e ↦ rw e refl
]
get_or-line (suc n) (c ∷ s) (suc i) h = elim (Bool-cases (c == 0)) [
  | inl e ↦ absurd (ground arith)
  | inr e ↦ rw e (get_or-line n s i (ground arith))
]

pub get_or-line_end : (name : List ℕ) → get_or (name ++ (b'\n' ∷ [])) (length name) 0 ≡ b'\n'
get_or-line_end [] = refl
get_or-line_end (c ∷ name) = get_or-line_end name

-- A used entry has a name of 1 to 32 bytes.
pub name_at-bounds :
    (img : Image) (k : ℕ)
    → first (entry_at img k).filename ≢ 0
    → (0 < length (name_at img k)) × (length (name_at img k) ≤ 32)
name_at-bounds img k used =
    (starts (entry_at img k).filename _ used, length-text-le 32 (entry_bytes (entry_at img k)))
  where
    starts : (name rest : List ℕ) → first name ≢ 0 → 0 < length (text 32 (name ++ rest))
    starts [] rest ne = absurd (ne refl)
    starts (c ∷ name) rest ne = let more : (c == 0) ≡ false = ground arith in rw more (omega arith)

pub length-copy_name :
    (n k : ℕ) (name buf : List ℕ) → length (copy_name n k name buf).0 ≡ length buf
unfolding copy_name
length-copy_name zero k name buf = refl
length-copy_name (suc n) k name buf = elim (Bool-cases (get_or name k 0 == 0)) [
  | inl e ↦ rw e (length-set buf k 0)
  | inr e ↦ rw e (
      length-copy_name n (k + 1) name (set buf k (get_or name k 0))
      ∙ length-set buf k (get_or name k 0))
]

-- The next used entry, if there is one, heads the list.
pub Next : Image → ℕ → ℕ → Type 0
Next img m k =
    ((j : ℕ) × (k ≤ j)
      × (j < k + m)
      × (first (entry_at img j).filename ≢ 0)
      × ((i : ℕ) → k ≤ i → i < j → first (entry_at img i).filename ≡ 0)
      × ((left : ℕ)
          → listed img m k (suc left) ≡ name_at img j ∷ listed img (k + m - (j + 1)) (j + 1) left))
    ⊎ (((i : ℕ) → k ≤ i → i < k + m → first (entry_at img i).filename ≡ 0)
        × ((left : ℕ) → listed img m k left ≡ []))

none_from :
    (img : Image) (m k left : ℕ)
    → (first (entry_at img k).filename == 0) ≡ true
    → listed img m (k + 1) left ≡ []
    → listed img (suc m) k left ≡ []
none_from img m k zero skip e = refl
none_from img m k (suc left) skip e = rw skip e

pub Next-entry : (img : Image) (m k : ℕ) → Next img m k
unfolding Next
Next-entry img zero k = inr (λ i l u. absurd (omega arith), λ left. refl)
Next-entry img (suc m) k = elim (ℕ_discrete (first (entry_at img k).filename) 0) [
  | yes e ↦
      let skip : (first (entry_at img k).filename == 0) ≡ true = ground arith in
      elim (Next-entry img m (k + 1)) [
        | inl (j, low, up, used, blank, heads) ↦ inl (
          j,
          omega arith,
          omega arith,
          used,
          λ i l u. elim (ℕ_discrete k i) [
            | yes same ↦ subst (λ x. first (entry_at img x).filename ≡ 0) same e
            | no ne ↦ blank i (omega arith) u
          ],
          λ left.
              let size : k + suc m - (j + 1) ≡ k + 1 + m - (j + 1) = omega arith in
              rw (skip, size) (heads left),
        )
        | inr (blank, none_left) ↦ inr (
          λ i l u. elim (ℕ_discrete k i) [
            | yes same ↦ subst (λ x. first (entry_at img x).filename ≡ 0) same e
            | no ne ↦ blank i (omega arith) (omega arith)
          ],
          λ left. none_from img m k left skip (none_left left),
        )
      ]
  | no ne ↦
      let keep : (first (entry_at img k).filename == 0) ≡ false = ground arith in
      let size : k + suc m - (k + 1) ≡ m = omega arith in
      inl (
        k,
        omega arith,
        omega arith,
        ne,
        λ i l u. absurd (omega arith),
        λ left. rw (keep, size) refl,
      )
]
