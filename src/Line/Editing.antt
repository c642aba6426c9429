-- ===== src/Line/Editing.antt =====
-- Editing keeps the typed line well formed, cell by cell (student-distrib/keyboard.c).
use ece391linux_os.Prelude.{
  length, get_or, set, length-set, get_or-set_self, get_or-set_ne, ℕ, zero, suc, ◌+◌, ◌-◌, ◌≤◌, ◌<◌,
  ◌≡◌, refl, sym, subst, ◌∙◌, List, arith,
}
use native.Mathlib.Decide.{ℕ_discrete, dec_lt}
use ece391linux_os.Line.{Line, shift_right, insert_char, shift_left, delete_char}

-- The buffer has its size, the cursor lies within the text, one cell is left for the terminator,
-- and the cells behind the text are NUL.
pub record IsLine (l : Line) : Type 0 where
  pub cells : length l.chars ≡ 128
  pub cursor : l.idx ≤ l.size
  pub room : l.size ≤ 127
  pub zeros : (k : ℕ) → l.size ≤ k → get_or l.chars k 0 ≡ 0

length-shift_right : (n i : ℕ) (cs : List ℕ) → length (shift_right n i cs) ≡ length cs
unfolding shift_right
length-shift_right zero i cs = refl
length-shift_right (suc n) i cs =
    length-shift_right n (i - 1) (set cs (i + 1) _) ∙ length-set cs (i + 1) _

-- Moving the cells from `a` to `a + n - 1` up by one: the cells that the move leaves alone, and the
-- moved ones.
record ShiftedUp (a n : ℕ) (cs ds : List ℕ) : Type 0 where
  below : (k : ℕ) → k ≤ a → get_or ds k 0 ≡ get_or cs k 0
  moved : (k : ℕ) → a < k → k ≤ a + n → get_or ds k 0 ≡ get_or cs (k - 1) 0
  above : (k : ℕ) → a + n < k → get_or ds k 0 ≡ get_or cs k 0

shift_right-ShiftedUp :
    (n a i : ℕ) (cs : List ℕ)
    → (0 < n → a + n ≡ i + 1)
    → a + n < length cs
    → ShiftedUp a n cs (shift_right n i cs)
unfolding shift_right
shift_right-ShiftedUp zero a i cs e room = record {
  below = λ k h. refl;
  moved = λ k h l. absurd (omega arith);
  above = λ k h. refl;
}
shift_right-ShiftedUp (suc n) a i cs e room =
    let at : i ≡ a + n = omega (arith, e (omega arith)) in
    let v = get_or cs i 0 in
    let r =
      shift_right-ShiftedUp n a (i - 1) (set cs (i + 1) v) (λ h. omega arith)
        (omega (arith, length-set cs (i + 1) v)) in
    record {
      below = λ k h. r.below k h ∙ get_or-set_ne cs (i + 1) k v 0 (omega arith);
      moved = λ k h l. elim (ℕ_discrete (i + 1) k) [
        | yes same ↦
            let before : k - 1 ≡ i = omega arith in
            r.above k (omega arith)
            ∙ subst (λ m. get_or (set cs (i + 1) v) m 0 ≡ get_or cs (k - 1) 0) same
                (get_or-set_self cs (i + 1) v 0 (omega arith) ∙ rw before refl)
        | no ne ↦ r.moved k h (omega arith) ∙ get_or-set_ne cs (i + 1) (k - 1) v 0 (omega arith)
      ];
      above = λ k h. r.above k (omega arith) ∙ get_or-set_ne cs (i + 1) k v 0 (omega arith);
    }

-- Moving the cells from `a + 1` to `a + n` down by one.
record ShiftedDown (a n : ℕ) (cs ds : List ℕ) : Type 0 where
  below : (k : ℕ) → k < a → get_or ds k 0 ≡ get_or cs k 0
  moved : (k : ℕ) → a ≤ k → k < a + n → get_or ds k 0 ≡ get_or cs (k + 1) 0
  above : (k : ℕ) → a + n ≤ k → get_or ds k 0 ≡ get_or cs k 0

length-shift_left : (n i : ℕ) (cs : List ℕ) → length (shift_left n i cs) ≡ length cs
unfolding shift_left
length-shift_left zero i cs = refl
length-shift_left (suc n) i cs = length-shift_left n (i + 1) (set cs i _) ∙ length-set cs i _

shift_left-ShiftedDown :
    (n a : ℕ) (cs : List ℕ) → a + n ≤ length cs → ShiftedDown a n cs (shift_left n a cs)
unfolding shift_left
shift_left-ShiftedDown zero a cs room = record {
  below = λ k h. refl;
  moved = λ k h l. absurd (omega arith);
  above = λ k h. refl;
}
shift_left-ShiftedDown (suc n) a cs room =
    let v = get_or cs (a + 1) 0 in
    let r = shift_left-ShiftedDown n (a + 1) (set cs a v) (omega (arith, length-set cs a v)) in
    record {
      below = λ k h. r.below k (omega arith) ∙ get_or-set_ne cs a k v 0 (omega arith);
      moved = λ k h l. elim (ℕ_discrete a k) [
        | yes same ↦
            r.below k (omega arith)
            ∙ subst (λ m. get_or (set cs a v) m 0 ≡ get_or cs (m + 1) 0) same
                (get_or-set_self cs a v 0 (omega arith))
        | no ne ↦
            r.moved k (omega arith) (omega arith) ∙ get_or-set_ne cs a (k + 1) v 0 (omega arith)
      ];
      above = λ k h. r.above k (omega arith) ∙ get_or-set_ne cs a k v 0 (omega arith);
    }

-- Every cell of the buffer after an insertion: those before the cursor stay, the character stands
-- at the cursor, and those behind it have moved up by one; the cursor and the size are one more.
pub record Inserted (c : ℕ) (l m : Line) : Type 0 where
  pub before : (k : ℕ) → k < l.idx → get_or m.chars k 0 ≡ get_or l.chars k 0
  pub at : get_or m.chars l.idx 0 ≡ c
  pub behind : (k : ℕ) → l.idx < k → get_or m.chars k 0 ≡ get_or l.chars (k - 1) 0
  pub idx : m.idx ≡ l.idx + 1
  pub size : m.size ≡ l.size + 1
  pub line : IsLine m

-- An insertion into a line with room for it puts the character at the cursor and keeps the line
-- well formed.
pub insert_char-Inserted :
    (c : ℕ) (l : Line) → IsLine l → l.size < 127 → Inserted c l (insert_char c l)
unfolding insert_char
insert_char-Inserted c l v h =
    let n = l.size + 1 - l.idx in
    let ds = shift_right n l.size l.chars in
    let r =
      shift_right-ShiftedUp n l.idx l.size l.chars (λ q. omega (arith, v.cursor))
        (omega (arith, v.cells, v.cursor)) in
    let size = length-shift_right n l.size l.chars in
    let behind : (k : ℕ) → l.idx < k → get_or (set ds l.idx c) k 0 ≡ get_or l.chars (k - 1) 0 =
      λ k q. get_or-set_ne ds l.idx k c 0 (omega arith) ∙ elim (dec_lt (l.size + 1) k) [
        | yes far ↦
            r.above k (omega (arith, v.cursor))
            ∙ v.zeros k (omega arith)
            ∙ sym (v.zeros (k - 1) (omega arith))
        | no near ↦ r.moved k q (omega (arith, v.cursor))
      ] in
    record {
      before = λ k q. get_or-set_ne ds l.idx k c 0 (omega arith) ∙ r.below k (omega arith);
      at = get_or-set_self ds l.idx c 0 (omega (arith, size, v.cells, v.cursor));
      behind = behind;
      idx = omega (arith, v.cursor);
      size = omega arith;
      line = record {
        cells = length-set ds l.idx c ∙ size ∙ v.cells;
        cursor = omega (arith, v.cursor);
        room = omega arith;
        zeros = λ k q. behind k (omega (arith, v.cursor)) ∙ v.zeros (k - 1) (omega arith);
      };
    }

-- Every cell of the buffer after a deletion: those before the deleted character stay, and those
-- behind it have moved down by one; the cursor and the size are one less.
pub record Deleted (l m : Line) : Type 0 where
  pub before : (k : ℕ) → k < l.idx - 1 → get_or m.chars k 0 ≡ get_or l.chars k 0
  pub behind : (k : ℕ) → l.idx - 1 ≤ k → get_or m.chars k 0 ≡ get_or l.chars (k + 1) 0
  pub idx : m.idx + 1 ≡ l.idx
  pub size : m.size + 1 ≡ l.size
  pub line : IsLine m

-- With the cursor behind a character, a deletion takes that character out and keeps the line well
-- formed.
pub delete_char-Deleted : (l : Line) → IsLine l → 0 < l.idx → Deleted l (delete_char l)
unfolding delete_char
delete_char-Deleted l v h =
    let n = l.size - (l.idx - 1) in
    let a = l.idx - 1 in
    let ds = shift_left n a l.chars in
    let r = shift_left-ShiftedDown n a l.chars (omega (arith, v.cells, v.cursor, v.room)) in
    let size = length-shift_left n a l.chars in
    let behind : (k : ℕ) → a ≤ k → get_or (set ds l.size 0) k 0 ≡ get_or l.chars (k + 1) 0 = λ k q.
      elim (ℕ_discrete l.size k) [
        | yes e ↦
            subst (λ m. get_or (set ds l.size 0) m 0 ≡ get_or l.chars (k + 1) 0) e
              (get_or-set_self ds l.size 0 0 (omega (arith, size, v.cells, v.room))
                ∙ sym (v.zeros (k + 1) (omega arith)))
        | no ne ↦ get_or-set_ne ds l.size k 0 0 ne ∙ elim (dec_lt l.size k) [
          | yes far ↦
              r.above k (omega (arith, v.cursor))
              ∙ v.zeros k (omega arith)
              ∙ sym (v.zeros (k + 1) (omega arith))
          | no near ↦ r.moved k q (omega (arith, v.cursor))
        ]
      ] in
    record {
      before =
          λ k q. get_or-set_ne ds l.size k 0 0 (omega (arith, v.cursor)) ∙ r.below k (omega arith);
      behind = behind;
      idx = omega (arith, v.cursor, v.room);
      size = omega (arith, v.cursor, v.room);
      line = record {
        cells = length-set ds l.size 0 ∙ size ∙ v.cells;
        cursor = omega (arith, v.cursor, v.room);
        room = omega (arith, v.room);
        zeros = λ k q.
            behind k (omega (arith, v.cursor, v.room))
            ∙ v.zeros (k + 1) (omega (arith, v.cursor, v.room));
      };
    }
