-- ===== src/Line/Text.antt =====
-- The text of the typed line as a list, and the editing routines on it (student-distrib/keyboard.c).
use ece391linux_os.Prelude.{
  length, get_or, take, length-take, get_or-take, eq_of_get_or, ltb, ◌==◌, if◌then◌else◌, ℕ, zero,
  suc, ◌+◌, ◌-◌, ◌≤◌, ◌<◌, min, ◌≡◌, sym, ap, subst, ◌∙◌, true, false, List, [], ◌∷◌, arith,
}
use native.Mathlib.Decide.{ℕ_discrete, dec_lt}
use ece391linux_os.Line.{Line, insert_char, delete_char, left, right}
use ece391linux_os.Line.Editing.{IsLine, insert_char-Inserted, delete_char-Deleted}

-- The text, and its halves before and behind the cursor.
abbrev pub text_of : Line → List ℕ
text_of l = take l.size l.chars

abbrev pub insert_at : ℕ → ℕ → List ℕ → List ℕ
insert_at zero c xs = c ∷ xs
insert_at (suc i) c [] = c ∷ []
insert_at (suc i) c (x ∷ xs) = x ∷ insert_at i c xs

abbrev pub delete_at : ℕ → List ℕ → List ℕ
delete_at i [] = []
delete_at zero (x ∷ xs) = xs
delete_at (suc i) (x ∷ xs) = x ∷ delete_at i xs

length-insert_at : (i c : ℕ) (xs : List ℕ) → length (insert_at i c xs) ≡ length xs + 1
length-insert_at zero c xs = omega arith
length-insert_at (suc i) c [] = omega arith
length-insert_at (suc i) c (x ∷ xs) = omega (arith, length-insert_at i c xs)

length-delete_at : (i : ℕ) (xs : List ℕ) → i < length xs → length (delete_at i xs) + 1 ≡ length xs
length-delete_at i [] h = absurd (omega arith)
length-delete_at zero (x ∷ xs) h = omega arith
length-delete_at (suc i) (x ∷ xs) h = omega (arith, length-delete_at i xs (omega arith))

get_or-insert_at :
    (i c k : ℕ) (xs : List ℕ)
    → i ≤ length xs
    → get_or (insert_at i c xs) k 0
      ≡ (if ltb k i then get_or xs k 0 else (if k == i then c else get_or xs (k - 1) 0))
get_or-insert_at zero c zero xs h = ground arith
get_or-insert_at zero c (suc k) xs h = let e : suc k - 1 ≡ k = omega arith in rw e (ground arith)
get_or-insert_at (suc i) c k [] h = absurd (omega arith)
get_or-insert_at (suc i) c zero (x ∷ xs) h = ground arith
get_or-insert_at (suc i) c (suc zero) (x ∷ xs) h =
    get_or-insert_at i c zero xs (omega arith) ∙ ground arith
get_or-insert_at (suc i) c (suc (suc k)) (x ∷ xs) h =
    let e : suc (suc k) - 1 ≡ suc k = omega arith in
    let e' : suc k - 1 ≡ k = omega arith in
    rw e (get_or-insert_at i c (suc k) xs (omega arith) ∙ rw e' (ground arith))

get_or-delete_at :
    (i k : ℕ) (xs : List ℕ)
    → get_or (delete_at i xs) k 0 ≡ (if ltb k i then get_or xs k 0 else get_or xs (k + 1) 0)
get_or-delete_at i k [] = ground arith
get_or-delete_at zero k (x ∷ xs) = let e : k + 1 ≡ suc k = omega arith in rw e (ground arith)
get_or-delete_at (suc i) zero (x ∷ xs) = ground arith
get_or-delete_at (suc i) (suc k) (x ∷ xs) =
    let e : suc k + 1 ≡ suc (k + 1) = omega arith in rw e (get_or-delete_at i k xs ∙ ground arith)

-- Typing a character into a well-formed line with room inserts it into the text at the cursor,
-- moves the cursor behind it, and keeps the line well formed.
pub insert_char-text :
    (c : ℕ) (l : Line)
    → IsLine l
    → l.size < 127
    → (text_of (insert_char c l) ≡ insert_at l.idx c (text_of l))
      × ((insert_char c l).idx ≡ l.idx + 1)
      × IsLine (insert_char c l)
insert_char-text c l v h =
    let m = insert_char c l in
    let r = insert_char-Inserted c l v h in
    let size : length (text_of l) ≡ l.size =
      omega (arith, length-take l.size l.chars, v.cells, v.room) in
    let size' : length (text_of m) ≡ l.size + 1 =
      omega (arith, length-take m.size m.chars, r.line.cells, r.line.room, r.size) in
    (
      eq_of_get_or (text_of m) (insert_at l.idx c (text_of l)) 0
          (omega (arith, size, size', length-insert_at l.idx c (text_of l)))
          (λ k q.
            let old : k < l.size → get_or (text_of l) k 0 ≡ get_or l.chars k 0 =
              λ p. get_or-take l.size k l.chars 0 p in
            let prev : k - 1 < l.size → get_or (text_of l) (k - 1) 0 ≡ get_or l.chars (k - 1) 0 =
              λ p. get_or-take l.size (k - 1) l.chars 0 p in
            get_or-take m.size k m.chars 0 (omega (arith, r.size, size'))
            ∙ (elim (dec_lt k l.idx) [
              | yes below ↦
                  let t : ltb k l.idx ≡ true = ground arith in
                  rw t (r.before k below ∙ sym (old (omega (arith, v.cursor))))
              | no above ↦
                  let t : ltb k l.idx ≡ false = ground arith in
                  elim (ℕ_discrete k l.idx) [
                    | yes e ↦
                        let s : (k == l.idx) ≡ true = ground arith in
                        rw (t, s) (ap (λ j. get_or m.chars j 0) e ∙ r.at)
                    | no ne ↦
                        let s : (k == l.idx) ≡ false = ground arith in
                        rw (t, s) (r.behind k (omega arith) ∙ sym (prev (omega (arith, size'))))
                  ]
            ])
            ∙ sym (get_or-insert_at l.idx c k (text_of l) (omega (arith, size, v.cursor)))),
      r.idx,
      r.line,
    )

-- In a well-formed line, backspace behind a character takes that character out of the text, moves
-- the cursor to its place, and keeps the line well formed.
pub delete_char-text :
    (l : Line)
    → IsLine l
    → 0 < l.idx
    → (text_of (delete_char l) ≡ delete_at (l.idx - 1) (text_of l))
      × ((delete_char l).idx ≡ l.idx - 1)
      × IsLine (delete_char l)
delete_char-text l v h =
    let m = delete_char l in
    let r = delete_char-Deleted l v h in
    let size : length (text_of l) ≡ l.size =
      omega (arith, length-take l.size l.chars, v.cells, v.room) in
    let size' : length (text_of m) + 1 ≡ l.size =
      omega (arith, length-take m.size m.chars, r.line.cells, r.line.room, r.size) in
    let shorter = length-delete_at (l.idx - 1) (text_of l) (omega (arith, size, v.cursor)) in
    (
      eq_of_get_or (text_of m) (delete_at (l.idx - 1) (text_of l)) 0
          (omega (arith, size, size', shorter))
          (λ k q.
            get_or-take m.size k m.chars 0 (omega (arith, r.size, size'))
            ∙ (elim (dec_lt k (l.idx - 1)) [
              | yes below ↦
                  let t : ltb k (l.idx - 1) ≡ true = ground arith in
                  rw t (
                    r.before k below
                    ∙ sym (get_or-take l.size k l.chars 0 (omega (arith, v.cursor))))
              | no above ↦
                  let t : ltb k (l.idx - 1) ≡ false = ground arith in
                  rw t (
                    r.behind k (omega arith)
                    ∙ sym (get_or-take l.size (k + 1) l.chars 0 (omega (arith, size'))))
            ])
            ∙ sym (get_or-delete_at (l.idx - 1) k (text_of l))),
      omega (arith, r.idx),
      r.line,
    )

-- In a well-formed line with room, backspace undoes typing: the line is again the same, buffer,
-- cursor and size.
pub delete-insert : (c : ℕ) (l : Line) → IsLine l → l.size < 127 → delete_char (insert_char c l) ≡ l
delete-insert c l v h =
    let m = insert_char c l in
    let r = insert_char-Inserted c l v h in
    let d = delete_char-Deleted m r.line (omega (arith, r.idx)) in
    let chars : (delete_char m).chars ≡ l.chars =
      eq_of_get_or (delete_char m).chars l.chars 0 (d.line.cells ∙ sym v.cells) (λ k q.
        elim (dec_lt k (m.idx - 1)) [
          | yes below ↦ d.before k below ∙ r.before k (omega (arith, r.idx))
          | no above ↦
              let e : k + 1 - 1 ≡ k = omega arith in
              d.behind k (omega arith)
              ∙ r.behind (k + 1) (omega (arith, r.idx))
              ∙ ap (λ j. get_or l.chars j 0) e
        ]) in
    let idx : (delete_char m).idx ≡ l.idx = omega (arith, d.idx, r.idx) in
    let size : (delete_char m).size ≡ l.size = omega (arith, d.size, r.size) in
    λ i. record { chars = chars i; idx = idx i; size = size i }

-- In a well-formed line, the arrow keys move the cursor by one within the text and change nothing
-- else.
pub arrows_lem :
    (l : Line)
    → IsLine l
    → (left l ≡ record l { idx = l.idx - 1 })
      × (right l ≡ record l { idx = min (l.idx + 1) l.size })
      × IsLine (left l)
      × IsLine (right l)
unfolding left right
arrows_lem l v =
    let back : left l ≡ record l { idx = l.idx - 1 } =
      unfold left in ground (arith, v.cursor, v.room) in
    let ahead : right l ≡ record l { idx = min (l.idx + 1) l.size } =
      unfold right in ground (arith, v.cursor, v.room) in
    (
      back,
      ahead,
      subst IsLine (sym back) (record {
        cells = v.cells;
        cursor = omega (arith, v.cursor);
        room = v.room;
        zeros = v.zeros;
      }),
      subst IsLine (sym ahead)
          (record { cells = v.cells; cursor = omega arith; room = v.room; zeros = v.zeros }),
    )
