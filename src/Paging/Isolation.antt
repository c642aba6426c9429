-- ===== src/Paging/Isolation.antt =====
-- Which memory a process can reach through its pages (the mapping of `execute` in
-- student-distrib/syscalls.c).
use ece391linux_os.Prelude.{
  false, [], ◌∷◌, length, get_or, set, length-set, get_or-set_self, get_or-set_ne, ◌==◌, ℕ, zero,
  suc, ◌+◌, ◌*◌, ◌/◌, ◌%◌, ◌^◌, ◌≤◌, ◌<◌, bit_or, ◌≡◌, refl, sym, ap, ◌∙◌, ◌⊎◌, inl, inr, Bool,
  true, List, arith,
}
use native.Mathlib.Decide.{ℕ_discrete}
use ece391linux_os.Prelude.Range.{update_range, length-update_range, get_or-update_range_in}
use ece391linux_os.Paging.Bits.{bit_or_seven}
use ece391linux_os.Paging.{Paging, page_size, user_present, program_entry, map_process}

-- The entry of a process is its 4 MB frame, with the flags in the bits below.
program_entry_lem : (pid : ℕ) → pid < 7 → program_entry pid ≡ 0x400000 * (pid + 1) + 0x87
program_entry_lem zero h = refl
program_entry_lem (suc zero) h = refl
program_entry_lem (suc (suc zero)) h = refl
program_entry_lem (suc (suc (suc zero))) h = refl
program_entry_lem (suc (suc (suc (suc zero)))) h = refl
program_entry_lem (suc (suc (suc (suc (suc zero))))) h = refl
program_entry_lem (suc (suc (suc (suc (suc (suc zero)))))) h = refl
program_entry_lem (suc (suc (suc (suc (suc (suc (suc pid))))))) h = absurd (omega arith)

-- The present bit of an entry, and the 4 MB frame that it points to.
abbrev pub is_present : ℕ → Bool
is_present entry = entry % 2 == 1

abbrev pub frame_of : ℕ → ℕ
frame_of entry = entry / 0x400000

length-pages : (pid : ℕ) (g : Paging) → length (map_process pid g).pages ≡ length g.pages
unfolding map_process
length-pages pid g =
    length-set _ 33 _
    ∙ length-set _ 32 _
    ∙ length-set _ 0 _
    ∙ length-set _ 1 _
    ∙ length-update_range (λ _. 2) 0 page_size 0 g.pages

-- The 4 KB page that a page table entry points to, and whether a directory entry is a 4 MB page.
abbrev pub page_of : ℕ → ℕ
page_of entry = entry / 2 ^ 12

abbrev pub is_large : ℕ → Bool
is_large entry = entry / 2 ^ 7 % 2 == 1

set-keeps :
    (P : ℕ → Type 0) (xs : List ℕ) (k v i : ℕ)
    → P v
    → P (get_or xs i 0)
    → P (get_or (set xs k v) i 0)
set-keeps P [] k v i new old = old
set-keeps P (x ∷ xs) zero v zero new old = new
set-keeps P (x ∷ xs) zero v (suc i) new old = old
set-keeps P (x ∷ xs) (suc k) v zero new old = old
set-keeps P (x ∷ xs) (suc k) v (suc i) new old = set-keeps P xs k v i new old

-- A present entry of the page table is one of the four pages of video memory.
abbrev pub IsVideo : ℕ → Type 0
IsVideo entry = is_present entry ≡ true → (0xB8 ≤ page_of entry) × (page_of entry ≤ 0xBB)

tables-IsVideo :
    (pid : ℕ) (g : Paging) (i : ℕ)
    → length g.tables ≡ 1024
    → i < 1024
    → IsVideo (get_or (map_process pid g).tables i 0)
unfolding map_process
tables-IsVideo pid g i len h =
    let two : get_or (update_range page_size 0 (λ _. 2) g.tables) i 0 ≡ 2 =
      get_or-update_range_in (λ _. 2) 0 page_size 0 i g.tables (omega arith) (omega arith)
        (omega arith) in
    set-keeps IsVideo _ 33 _ i (λ p. (omega arith, omega arith))
      (set-keeps IsVideo _ 0xBB _ i (λ p. (omega arith, omega arith))
        (set-keeps IsVideo _ 0xBA _ i (λ p. (omega arith, omega arith))
          (set-keeps IsVideo _ 0xB9 _ i (λ p. (omega arith, omega arith))
            (set-keeps IsVideo _ 184 _ i (λ p. (omega arith, omega arith))
              (λ p. absurd (cc (p, ap is_present two)))))))

-- The two directory entries of the page table, and the kernel's.
module _ (pid : ℕ) (g : Paging) (len : length g.pages ≡ 1024) where
  abbrev directory : List ℕ
  directory = update_range page_size 0 (λ _. 2) g.pages

  abbrev with_kernel : List ℕ
  with_kernel = set directory 1 0x400087

  abbrev with_table : List ℕ
  with_table = set with_kernel 0 (bit_or g.tables_at user_present)

  abbrev with_program : List ℕ
  with_program = set with_table 32 (program_entry pid)

  abbrev video_table : ℕ
  video_table = bit_or ((g.tables_at + 4 * 33) / 2 ^ 12 * 2 ^ 12) user_present

  size : length with_kernel ≡ 1024
  size = length-set directory 1 0x400087 ∙ length-update_range (λ _. 2) 0 page_size 0 g.pages ∙ len

  first_entry : get_or (map_process pid g).pages 0 0 ≡ bit_or g.tables_at user_present
  unfolding map_process
  first_entry =
      get_or-set_ne with_program 33 0 video_table 0 (omega arith)
      ∙ get_or-set_ne with_table 32 0 (program_entry pid) 0 (omega arith)
      ∙ get_or-set_self with_kernel 0 (bit_or g.tables_at user_present) 0 (omega (arith, size))

  kernel_entry : get_or (map_process pid g).pages 1 0 ≡ 0x400087
  unfolding map_process
  kernel_entry =
      get_or-set_ne with_program 33 1 video_table 0 (omega arith)
      ∙ get_or-set_ne with_table 32 1 (program_entry pid) 0 (omega arith)
      ∙ get_or-set_ne with_kernel 0 1 (bit_or g.tables_at user_present) 0 (omega arith)
      ∙ get_or-set_self directory 1 0x400087 0
          (omega (arith, size, length-set directory 1 0x400087))

  video_entry : get_or (map_process pid g).pages 33 0 ≡ video_table
  unfolding map_process
  video_entry = get_or-set_self with_program 33 video_table 0 (
      omega (
        arith,
        length-set with_table 32 (program_entry pid),
        length-set with_kernel 0 (bit_or g.tables_at user_present),
        size,
      ))

-- With a page directory and a page table of 1024 entries, the table at the start of a page, a process from 1 to 6 reaches no memory but its own, the kernel's and the video memory: of the directory entries that
-- `execute` sets up only 0, 1, 32 and 33 can be present. Entries 0 and 33 point to the page table,
-- whose present entries are the four pages from 0xB8000 on; entry 1 is the kernel's 4 MB frame 1;
-- entry 32 is present and is the 4 MB frame `pid + 1`, which is neither 0 nor 1 and which no other
-- process has.
pub map_process-isolates :
    (pid : ℕ) (g : Paging)
    → length g.pages ≡ 1024
    → length g.tables ≡ 1024
    → g.tables_at % 2 ^ 12 ≡ 0
    → 1 ≤ pid
    → pid < 7
    → let pages = (map_process pid g).pages in
      ((i : ℕ)
        → i < 1024
        → is_present (get_or pages i 0) ≡ true
        → (i ≡ 0) ⊎ ((i ≡ 1) ⊎ ((i ≡ 32) ⊎ (i ≡ 33))))
      × ((is_large (get_or pages 0 0) ≡ false)
          × (page_of (get_or pages 0 0) * 2 ^ 12 ≡ g.tables_at))
      × ((is_large (get_or pages 33 0) ≡ false)
          × (page_of (get_or pages 33 0) * 2 ^ 12 ≡ g.tables_at))
      × ((i : ℕ) → i < 1024 → IsVideo (get_or (map_process pid g).tables i 0))
      × ((is_large (get_or pages 1 0) ≡ true) × (frame_of (get_or pages 1 0) ≡ 1))
      × ((is_large (get_or pages 32 0) ≡ true) × (is_present (get_or pages 32 0) ≡ true))
      × (frame_of (get_or pages 32 0) ≡ pid + 1)
      × ((other : ℕ) (h : Paging)
          → length h.pages ≡ 1024
          → other < 7
          → frame_of (get_or (map_process other h).pages 32 0) ≡ frame_of (get_or pages 32 0)
          → other ≡ pid)
unfolding map_process
map_process-isolates pid g len tables aligned lo hi =
    let cleared = update_range page_size 0 (λ _. 2) g.pages in
    let own = program (pid) g len hi in
    let base = (g.tables_at + 4 * 33) / 2 ^ 12 * 2 ^ 12 in
    let first_is = first_entry pid g len ∙ bit_or_seven g.tables_at in
    let video_is = video_entry pid g len ∙ bit_or_seven base in
    let kernel_is = kernel_entry pid g len in
    (
      only,
      (
        ap is_large first_is ∙ small_page g.tables_at aligned,
        ap (λ e. page_of e * 2 ^ 12) first_is ∙ omega arith,
      ),
      (
        ap is_large video_is ∙ small_page base (omega arith),
        ap (λ e. page_of e * 2 ^ 12) video_is ∙ omega arith,
      ),
      λ i h. tables-IsVideo pid g i tables h,
      (ap is_large kernel_is, ap frame_of kernel_is),
      (
        rw own (rw (program_entry_lem pid hi) (ground arith)),
        rw own (rw (program_entry_lem pid hi) (ground arith)),
      ),
      rw own (rw (program_entry_lem pid hi) (omega arith)),
      λ other h len' hi' same.
          let theirs = program other h len' hi' in
          let e : frame_of (program_entry other) ≡ frame_of (program_entry pid) =
            ap frame_of (sym theirs) ∙ same ∙ ap frame_of own in
          omega (arith, e, program_entry_lem pid hi, program_entry_lem other hi'),
    )
  where
    cells : Paging → List ℕ
    cells k = update_range page_size 0 (λ _. 2) k.pages

    program :
        (q : ℕ) (k : Paging)
        → length k.pages ≡ 1024
        → q < 7
        → get_or (map_process q k).pages 32 0 ≡ program_entry q
    program q k l h =
        let base = set (set (cells k) 1 0x400087) 0 (bit_or k.tables_at user_present) in
        let size : length base ≡ 1024 =
          length-set (set (cells k) 1 0x400087) 0 (bit_or k.tables_at user_present)
          ∙ length-set (cells k) 1 0x400087
          ∙ length-update_range (λ _. 2) 0 page_size 0 k.pages
          ∙ l in
        get_or-set_ne (set base 32 (program_entry q)) 33 32
          (bit_or ((k.tables_at + 4 * 33) / 2 ^ 12 * 2 ^ 12) user_present) 0 (omega arith)
        ∙ get_or-set_self base 32 (program_entry q) 0 (omega (arith, size))

    only :
        (i : ℕ)
        → i < 1024
        → is_present (get_or (map_process pid g).pages i 0) ≡ true
        → (i ≡ 0) ⊎ ((i ≡ 1) ⊎ ((i ≡ 32) ⊎ (i ≡ 33)))
    only i h present = elim (ℕ_discrete i 0) [
      | yes e ↦ inl e
      | no n0 ↦ elim (ℕ_discrete i 1) [
        | yes e ↦ inr (inl e)
        | no n1 ↦ elim (ℕ_discrete i 32) [
          | yes e ↦ inr (inr (inl e))
          | no n32 ↦ elim (ℕ_discrete i 33) [
            | yes e ↦ inr (inr (inr e))
            | no n33 ↦
                let two : get_or (map_process pid g).pages i 0 ≡ 2 =
                  get_or-set_ne _ 33 i _ 0 (omega arith)
                  ∙ get_or-set_ne _ 32 i _ 0 (omega arith)
                  ∙ get_or-set_ne _ 0 i _ 0 (omega arith)
                  ∙ get_or-set_ne _ 1 i _ 0 (omega arith)
                  ∙ get_or-update_range_in (λ _. 2) 0 page_size 0 i g.pages (omega arith)
                      (omega arith) (omega arith) in
                absurd (cc (present, ap is_present two))
          ]
        ]
      ]
    ]

    small_page : (a : ℕ) → a % 2 ^ 12 ≡ 0 → is_large (a / 8 * 8 + 7) ≡ false
    small_page a e = ground arith
