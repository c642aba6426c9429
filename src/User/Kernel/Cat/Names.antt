-- ===== src/User/Kernel/Cat/Names.antt =====
-- A name that `getargs` copies into a buffer is looked up as the arguments themselves
-- (student-distrib/filesystem_driver.c).
use ece391linux_os.Prelude.{
  length, get_or, ◌==◌, Bool-cases, ℕ, zero, suc, ◌+◌, ◌<◌, ◌≡◌, refl, ap, inl, inr, List, [], ◌∷◌,
  arith,
}
use ece391linux_os.Filesystem.{DirEntry, Image, no_entry, find_entry, read_dentry_by_name}
use ece391linux_os.Text.{first, next, strlen, strncmp, strcpy}

strncmp-strcpy :
    (n : ℕ) (s dest src : List ℕ)
    → strlen src < length dest
    → strncmp s (strcpy dest src) n ≡ strncmp s src n
unfolding strncmp strcpy strlen
strncmp-strcpy zero s dest src h = refl
strncmp-strcpy (suc n) s [] src h = absurd (omega arith)
strncmp-strcpy (suc n) s (d ∷ dest) [] h = elim (Bool-cases (first s == 0)) [
  | inl e ↦ rw e refl
  | inr e ↦ rw e refl
]
strncmp-strcpy (suc n) s (d ∷ dest) (c ∷ src) h = elim (Bool-cases (c == 0)) [
  | inl e ↦
      let zero_c : c ≡ 0 = ground arith in
      elim (Bool-cases (first s == 0)) [
        | inl f ↦ rw (e, zero_c) (rw f refl)
        | inr f ↦ rw (e, zero_c) (rw f refl)
      ]
  | inr e ↦
      let same : strncmp (next s) (strcpy dest src) n ≡ strncmp (next s) src n =
        strncmp-strcpy n (next s) dest src (ground arith) in
      rw e (rw same refl)
]

find_entry-same :
    (n i : ℕ) (entries : List DirEntry) (a b : List ℕ)
    → ((s : List ℕ) → strncmp s a 32 ≡ strncmp s b 32)
    → find_entry n i entries a ≡ find_entry n i entries b
unfolding find_entry
find_entry-same zero i entries a b h = refl
find_entry-same (suc n) i entries a b h =
    rw (h (get_or entries i no_entry).filename, find_entry-same n (i + 1) entries a b h) refl

strlen-strcpy :
    (dest src : List ℕ) → strlen src < length dest → strlen (strcpy dest src) ≡ strlen src
unfolding strlen strcpy
strlen-strcpy [] src h = absurd (omega arith)
strlen-strcpy (d ∷ dest) [] h = refl
strlen-strcpy (d ∷ dest) (c ∷ src) h = elim (Bool-cases (c == 0)) [
  | inl e ↦ rw e refl
  | inr e ↦ rw e (rw e (ap suc (strlen-strcpy dest src (ground arith))))
]

pub read_dentry_by_name-strcpy :
    (img : Image) (dest src : List ℕ)
    → strlen src < length dest
    → read_dentry_by_name img (strcpy dest src) ≡ read_dentry_by_name img src
unfolding read_dentry_by_name
read_dentry_by_name-strcpy img dest src h =
    rw
      (
        strlen-strcpy dest src h,
        find_entry-same 63 0 img.boot.dir_entries (strcpy dest src) src
            (λ s. strncmp-strcpy 32 s dest src h),
      )
      refl

pub length-strcpy : (dest src : List ℕ) → length (strcpy dest src) ≡ length dest
unfolding strcpy
length-strcpy [] src = refl
length-strcpy (d ∷ dest) [] = refl
length-strcpy (d ∷ dest) (c ∷ src) = ground (arith, length-strcpy dest src)
