-- ===== src/Filesystem/Fill.antt =====
-- The contents of a file of student-distrib/filesystem_driver.c, and a buffer filled with them.
use ece391linux_os.Prelude.{
  length, get_or, set, length-set, get_or-set_self, get_or-set_ne, ℕ, zero, suc, ◌+◌, ◌/◌, ◌%◌, ◌≤◌,
  ◌<◌, ◌≡◌, refl, subst, ◌∙◌, List, arith,
}
use native.Mathlib.Decide.{ℕ_discrete}
use ece391linux_os.Filesystem.{Image, data_byte, data_block_of}

-- Byte `k` of the file: its data blocks in the order of the inode, 4096 bytes each.
abbrev pub file_byte : Image → ℕ → ℕ → ℕ
file_byte img inode k = data_byte img (data_block_of img inode (k / 4096)) (k % 4096)

-- `n` bytes of the file from `from + i` on, put into the buffer from `i` on.
unfoldable pub fill : Image → ℕ → ℕ → ℕ → ℕ → List ℕ → List ℕ
fill img inode from zero i buf = buf
fill img inode from (suc n) i buf =
    fill img inode from n (i + 1) (set buf i (file_byte img inode (from + i)))

module _ (img : Image) (inode from : ℕ) where
  pub length-fill : (n i : ℕ) (buf : List ℕ) → length (fill img inode from n i buf) ≡ length buf
  unfolding fill
  length-fill zero i buf = refl
  length-fill (suc n) i buf = length-fill n (i + 1) (set buf i _) ∙ length-set buf i _

  pub get_or-fill_below :
      (n i k : ℕ) (buf : List ℕ) → k < i → get_or (fill img inode from n i buf) k 0 ≡ get_or buf k 0
  unfolding fill
  get_or-fill_below zero i k buf h = refl
  get_or-fill_below (suc n) i k buf h =
      get_or-fill_below n (i + 1) k (set buf i _) (omega arith)
      ∙ get_or-set_ne buf i k _ 0 (omega arith)

  pub get_or-fill_above :
      (n i k : ℕ) (buf : List ℕ)
      → i + n ≤ k
      → get_or (fill img inode from n i buf) k 0 ≡ get_or buf k 0
  unfolding fill
  get_or-fill_above zero i k buf h = refl
  get_or-fill_above (suc n) i k buf h =
      get_or-fill_above n (i + 1) k (set buf i _) (omega arith)
      ∙ get_or-set_ne buf i k _ 0 (omega arith)

  pub get_or-fill_in :
      (n i k : ℕ) (buf : List ℕ)
      → i ≤ k
      → k < i + n
      → k < length buf
      → get_or (fill img inode from n i buf) k 0 ≡ file_byte img inode (from + k)
  unfolding fill
  get_or-fill_in zero i k buf h l s = absurd (omega arith)
  get_or-fill_in (suc n) i k buf h l s = elim (ℕ_discrete i k) [
    | yes e ↦
        get_or-fill_below n (i + 1) k (set buf i _) (omega arith)
        ∙ subst
            (λ m.
              get_or (set buf i (file_byte img inode (from + i))) m 0
              ≡ file_byte img inode (from + m))
            e (get_or-set_self buf i _ 0 (omega arith))
    | no ne ↦
        get_or-fill_in n (i + 1) k (set buf i _) (omega arith) (omega arith)
          (omega (arith, length-set buf i (file_byte img inode (from + i))))
  ]
