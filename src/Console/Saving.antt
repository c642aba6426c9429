-- ===== src/Console/Saving.antt =====
-- The routines of student-distrib/lib.c that save the page in an array of bytes and restore it, and
-- `force_putc`, which writes to the page at VIDEO whatever `video_mem` is. That page is a list of
-- cells of its own, `act_vid_mem`.
use ece391linux_os.Prelude.{
  length, get_or, set, length-set, get_or-set_self, get_or-set_ne, eq_of_get_or, ◌==◌,
  if◌then◌else◌, ℕ, ◌+◌, ◌*◌, ◌≤◌, ◌<◌, ◌≡◌, refl, sym, subst, ◌∙◌, ◌≢◌, ◌||◌, List, arith,
}
use native.Mathlib.Decide.{ℕ_discrete}
use ece391linux_os.Prelude.Int.{ℤ, pos, ◌+ℤ◌}
use ece391linux_os.Prelude.Range.{count_up, count_up-keeps}
use ece391linux_os.Console.{
  num_cols, num_rows, Cell, shown, blank, Screen, rem, quot, cursor, put_cell,
}

abbrev pub get_screen_x : Screen → ℤ
get_screen_x s = s.screen_x

abbrev pub get_screen_y : Screen → ℤ
get_screen_y s = s.screen_y

-- The bytes of cell `i` are those at `2 * i` and behind it.
abbrev pub cell_at : List ℕ → ℕ → Cell
cell_at arr i = record { char = get_or arr (2 * i) 0; attrib = get_or arr (2 * i + 1) 0 }

unfoldable pub save_vid : Screen → List ℕ → List ℕ
save_vid s save_arr =
    count_up 2000 0
      (λ i arr. let c = get_or s.video i blank in set (set arr (2 * i) c.char) (2 * i + 1) c.attrib)
      save_arr

unfoldable pub act_vid_restore : List ℕ → List Cell → List Cell
act_vid_restore restore_arr act_vid_mem =
    count_up 2000 0 (λ i page. set page i (cell_at restore_arr i)) act_vid_mem

unfoldable pub restore_vid : List ℕ → Screen → Screen
restore_vid restore_arr s = record s {
  video = count_up 2000 0 (λ i page. set page i (cell_at restore_arr i)) s.video;
}

unfoldable pub force_putc : ℕ → List Cell → Screen → List Cell × Screen
force_putc c act_vid_mem s =
    let x = rem (s.screen_x +ℤ pos 1) num_cols in
    let shown_on = record (put_cell (cursor s) (shown c) (record s { video = act_vid_mem })) {
      screen_x = x;
      screen_y = rem (s.screen_y +ℤ quot x num_cols) num_rows;
    } in
    if c == b'\n' || c == b'\r'
    then (act_vid_mem, record s { screen_y = s.screen_y +ℤ pos 1; screen_x = pos 0 })
    else (shown_on.video, record shown_on { video = s.video })

cell_eq : (a b : Cell) → a.char ≡ b.char → a.attrib ≡ b.attrib → a ≡ b
cell_eq a b p q = λ t. record { char = p t; attrib = q t }

module _ (arr : List ℕ) (i a b : ℕ) where
  abbrev both : List ℕ
  both = set (set arr (2 * i) a) (2 * i + 1) b

  cell_at-same : 2 * i + 1 < length arr → cell_at both i ≡ record { char = a; attrib = b }
  cell_at-same h =
      cell_eq _ _
        (get_or-set_ne (set arr (2 * i) a) (2 * i + 1) (2 * i) b 0 (λ e. omega (arith, e))
          ∙ get_or-set_self arr (2 * i) a 0 (omega arith))
        (get_or-set_self (set arr (2 * i) a) (2 * i + 1) b 0
          (omega (arith, length-set arr (2 * i) a)))

  cell_at-other : (j : ℕ) → i ≢ j → cell_at both j ≡ cell_at arr j
  cell_at-other j ne =
      cell_eq _ _
        (get_or-set_ne (set arr (2 * i) a) (2 * i + 1) (2 * j) b 0 (λ e. omega (arith, e))
          ∙ get_or-set_ne arr (2 * i) (2 * j) a 0 (λ e. ne (omega (arith, e))))
        (get_or-set_ne (set arr (2 * i) a) (2 * i + 1) (2 * j + 1) b 0 (λ e. ne (omega (arith, e)))
          ∙ get_or-set_ne arr (2 * i) (2 * j + 1) a 0 (λ e. omega (arith, e)))

-- The first `n` cells of the page stand in the array.
record IsSaved (s : Screen) (n : ℕ) (arr : List ℕ) : Type 0 where
  room : 4000 ≤ length arr
  cells : (j : ℕ) → j < n → cell_at arr j ≡ get_or s.video j blank

save_step-IsSaved :
    (s : Screen) (i : ℕ) (arr : List ℕ)
    → i < 2000
    → IsSaved s i arr
    → let c = get_or s.video i blank in
      IsSaved s (i + 1) (set (set arr (2 * i) c.char) (2 * i + 1) c.attrib)
save_step-IsSaved s i arr h saved = record {
  room = omega (
    arith,
    saved.room,
    length-set (set arr (2 * i) c.char) (2 * i + 1) c.attrib,
    length-set arr (2 * i) c.char,
  );
  cells = λ j l. elim (ℕ_discrete i j) [
    | yes e ↦
        subst (λ k. cell_at (both arr i c.char c.attrib) k ≡ get_or s.video k blank) e
          (cell_at-same arr i c.char c.attrib (omega (arith, saved.room)))
    | no ne ↦ cell_at-other arr i c.char c.attrib j ne ∙ saved.cells j (omega arith)
  ];
}
  where
    c : Cell
    c = get_or s.video i blank

save_vid-IsSaved : (s : Screen) (arr : List ℕ) → 4000 ≤ length arr → IsSaved s 2000 (save_vid s arr)
unfolding save_vid
save_vid-IsSaved s arr h =
    count_up-keeps (IsSaved s) _ 2000 0 2000 arr
      (λ i now below above saved. save_step-IsSaved s i now above saved) refl
      (record { room = h; cells = λ j l. absurd (omega arith) })

-- The first `n` cells of the page are those of the array.
record IsRestored (arr : List ℕ) (n : ℕ) (page : List Cell) : Type 0 where
  size : length page ≡ 2000
  cells : (j : ℕ) → j < n → get_or page j blank ≡ cell_at arr j

restore_step-IsRestored :
    (arr : List ℕ) (i : ℕ) (page : List Cell)
    → i < 2000
    → IsRestored arr i page
    → IsRestored arr (i + 1) (set page i (cell_at arr i))
restore_step-IsRestored arr i page h done = record {
  size = length-set page i (cell_at arr i) ∙ done.size;
  cells = λ j l. elim (ℕ_discrete i j) [
    | yes e ↦
        subst (λ k. get_or (set page i (cell_at arr i)) k blank ≡ cell_at arr k) e
          (get_or-set_self page i (cell_at arr i) blank (omega (arith, done.size)))
    | no ne ↦ get_or-set_ne page i j (cell_at arr i) blank ne ∙ done.cells j (omega arith)
  ];
}

act_vid_restore-IsRestored :
    (arr : List ℕ) (page : List Cell)
    → length page ≡ 2000
    → IsRestored arr 2000 (act_vid_restore arr page)
unfolding act_vid_restore
act_vid_restore-IsRestored arr page h =
    count_up-keeps (IsRestored arr) _ 2000 0 2000 page
      (λ i now below above done. restore_step-IsRestored arr i now above done) refl
      (record { size = h; cells = λ j l. absurd (omega arith) })

-- A page of 2000 cells saved in an array of at least 4000 bytes is restored as it was, by `restore_vid` onto any page that is displayed and by `act_vid_restore` onto the page at VIDEO, whatever these held.
pub restore_vid-save_vid :
    (s t : Screen) (arr : List ℕ) (page : List Cell)
    → length s.video ≡ 2000
    → length t.video ≡ 2000
    → length page ≡ 2000
    → 4000 ≤ length arr
    → ((restore_vid (save_vid s arr) t).video ≡ s.video)
      × (act_vid_restore (save_vid s arr) page ≡ s.video)
unfolding restore_vid act_vid_restore
restore_vid-save_vid s t arr page hs ht hp h = (
  restored t.video (act_vid_restore-IsRestored (save_vid s arr) t.video ht),
  restored page (act_vid_restore-IsRestored (save_vid s arr) page hp),
)
  where
    restored :
        (old : List Cell)
        → IsRestored (save_vid s arr) 2000 (act_vid_restore (save_vid s arr) old)
        → act_vid_restore (save_vid s arr) old ≡ s.video
    restored old done =
        eq_of_get_or (act_vid_restore (save_vid s arr) old) s.video blank (done.size ∙ sym hs)
          (λ j l.
            done.cells j (omega (arith, done.size))
            ∙ (save_vid-IsSaved s arr h).cells j (omega (arith, done.size)))
