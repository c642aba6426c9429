-- ===== src/Filesystem/Lookup.antt =====
-- `read_dentry_by_name` and `read_dentry_by_index` of student-distrib/filesystem_driver.c.
use ece391linux_os.Prelude.{
  get_or, ltb, ◌==◌, if◌then◌else◌, Bool-cases, ℕ, zero, suc, ◌+◌, ◌^◌, ◌≤◌, ◌<◌, ◌≡◌, refl, subst,
  ◌≢◌, ◌↔◌, ◌⊎◌, inl, inr, Bool, true, not, ◌&&◌, ◌||◌, Option, none, some, List, arith,
}
use native.Mathlib.Decide.{ℕ_discrete}
use ece391linux_os.Prelude.Int.{pos, eqb_ℤ, eqb_ℤ→eq}
use ece391linux_os.Filesystem.{
  DirEntry, Image, no_entry, find_entry, read_dentry_by_name, read_dentry_by_index,
}
use ece391linux_os.Text.{first, IsBytes, strlen, strncmp, text}
use ece391linux_os.Text.Compare.{strncmp-eq-zero_iff}

-- The entry is in use, and its name and the one looked for hold the same text within 32 bytes.
abbrev pub Matches : List ℕ → DirEntry → Type 0
Matches fname d = (first d.filename ≢ 0) × (text 32 d.filename ≡ text 32 fname)

-- What a search of `n` entries from `i` gives: the first entry that matches, or none.
abbrev pub LookupResult : ℕ → ℕ → List DirEntry → List ℕ → Option DirEntry → Type 0
LookupResult n i es fname none =
    (j : ℕ) → i ≤ j → j < i + n → ¬ Matches fname (get_or es j no_entry)
LookupResult n i es fname (some d) =
    (k : ℕ) × (i ≤ k)
    × (k < i + n)
    × (get_or es k no_entry ≡ d)
    × Matches fname d
    × ((j : ℕ) → i ≤ j → j < k → ¬ Matches fname (get_or es j no_entry))

matches_test : List ℕ → DirEntry → Bool
matches_test fname d = not (first d.filename == 0) && eqb_ℤ (pos 0) (strncmp d.filename fname 32)

matches_test_iff :
    (fname : List ℕ) (d : DirEntry)
    → IsBytes fname
    → IsBytes d.filename
    → (matches_test fname d ≡ true) ↔ Matches fname d
unfolding matches_test
matches_test_iff fname d h k =
    let e = strncmp-eq-zero_iff 32 d.filename fname k h in
    let split = eqb_ℤ→eq (pos 0) (strncmp d.filename fname 32) in
    (
      λ t. (ground arith, e.0 (ground (arith, split))),
      λ m. let z : strncmp d.filename fname 32 ≡ pos 0 = e.1 m.1 in rw z (ground (arith, m.0)),
    )

find_entry-suc :
    (n i : ℕ) (es : List DirEntry) (fname : List ℕ)
    → find_entry (suc n) i es fname ≡ (
        if matches_test fname (get_or es i no_entry)
        then some (get_or es i no_entry)
        else find_entry n (i + 1) es fname)
unfolding find_entry matches_test
find_entry-suc n i es fname = ground arith

-- The first round's entry does not match: a result for the later rounds is one for all.
extend_lookup :
    (n i : ℕ) (es : List DirEntry) (fname : List ℕ) (r : Option DirEntry)
    → ¬ Matches fname (get_or es i no_entry)
    → LookupResult n (i + 1) es fname r
    → LookupResult (suc n) i es fname r
extend_lookup n i es fname none miss r = λ j h k. elim (ℕ_discrete i j) [
  | yes e ↦ subst (λ m. ¬ Matches fname (get_or es m no_entry)) e miss
  | no ne ↦ r j (omega arith) (omega arith)
]
extend_lookup n i es fname (some d) miss (k, lo, hi, at, m, early) = (
  k,
  omega arith,
  omega arith,
  at,
  m,
  λ j h l. elim (ℕ_discrete i j) [
    | yes e ↦ subst (λ v. ¬ Matches fname (get_or es v no_entry)) e miss
    | no ne ↦ early j (omega arith) l
  ],
)

abbrev pub NamesAreBytes : List DirEntry → Type 0
NamesAreBytes es = (j : ℕ) → IsBytes (get_or es j no_entry).filename

find_entry-LookupResult :
    (n i : ℕ) (es : List DirEntry) (fname : List ℕ)
    → NamesAreBytes es
    → IsBytes fname
    → LookupResult n i es fname (find_entry n i es fname)
find_entry-LookupResult zero i es fname b f = unfold find_entry in (λ j h k. absurd (omega arith))
find_entry-LookupResult (suc n) i es fname b f =
    let d = get_or es i no_entry in
    elim (Bool-cases (matches_test fname d)) [
      | inl hit ↦
          rw (find_entry-suc n i es fname, hit)
            (
              i,
              omega arith,
              omega arith,
              refl,
              (matches_test_iff fname d f (b i)).0 hit,
              λ j h l. absurd (omega arith),
            )
      | inr miss ↦
          rw (find_entry-suc n i es fname, miss)
            (extend_lookup n i es fname (find_entry n (i + 1) es fname)
              (λ m. cc ((matches_test_iff fname d f (b i)).1 m))
              (find_entry-LookupResult n (i + 1) es fname b f))
    ]

-- Where all names are strings of bytes: for a name of 1 to 32 bytes the first entry in use with
-- that name is returned, and failure means that no entry has it; a name that is empty or longer
-- always fails.
pub read_dentry_by_name_lem :
    (img : Image) (fname : List ℕ)
    → NamesAreBytes img.boot.dir_entries
    → IsBytes fname
    → ((1 ≤ strlen fname)
        × (strlen fname ≤ 32)
        × LookupResult 63 0 img.boot.dir_entries fname (read_dentry_by_name img fname))
      ⊎ (((strlen fname ≡ 0) ⊎ (32 < strlen fname)) × (read_dentry_by_name img fname ≡ none))
unfolding read_dentry_by_name
read_dentry_by_name_lem img fname b f = elim (Bool-cases (strlen fname == 0)) [
  | inl z ↦ inr (inl (ground arith), rw z refl)
  | inr nz ↦ elim (Bool-cases (ltb 32 (strlen fname))) [
    | inl long ↦ inr (inr (ground arith), rw (nz, long) refl)
    | inr short ↦ inl (
      ground arith,
      ground arith,
      rw (nz, short) (find_entry-LookupResult 63 0 img.boot.dir_entries fname b f),
    )
  ]
]

-- With fewer than 2 ^ 32 inodes, at least one, and an index below 2 ^ 32, `read_dentry_by_index`
-- succeeds exactly below the number of inodes, and gives the entry at the index. (It does not look
-- at the number of entries; with no inode its unsigned bound wraps and it accepts every index.)
pub read_dentry_by_index_lem :
    (img : Image) (index : ℕ)
    → img.boot.inodes < 2 ^ 32
    → index < 2 ^ 32
    → read_dentry_by_index img index ≡ (
        if ltb index img.boot.inodes || (img.boot.inodes == 0)
        then some (get_or img.boot.dir_entries index no_entry)
        else none)
unfolding read_dentry_by_index
read_dentry_by_index_lem img index h k = ground arith
