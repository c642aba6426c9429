-- ===== src/History/Recall.antt =====
-- The arrow keys bring back what was entered (student-distrib/keyboard.c).
use ece391linux_os.Prelude.{
  length, get_or, set, length-set, get_or-set_self, get_or-set_ne, eq_of_get_or, modify,
  length-modify, get_or-modify_self, get_or-modify_ne, ltb, ◌==◌, if◌then◌else◌, ℕ, zero, suc, ◌+◌,
  ◌-◌, ◌%◌, ◌≤◌, ◌<◌, ◌≡◌, refl, sym, ap, subst, ◌∙◌, ◌≢◌, ◌⊎◌, inl, inr, true, false, ◌&&◌, ◌||◌,
  List, [], arith,
}
use native.Mathlib.Decide.{ℕ_discrete, dec_lt}
use ece391linux_os.Prelude.Range.{
  count_up-keeps, update_range, length-update_range, get_or-update_range_in,
}
use ece391linux_os.History.{
  History, stored, copy_row, copy_to_history, increment_history_indices, load_row, up, recall,
}
use ece391linux_os.Line.{Line, clear_line}
use ece391linux_os.Line.Editing.{IsLine}

-- The ring has its rows, the base lies in it, and until the ring is full it counts the entries.
pub record IsHistory (h : History) : Type 0 where
  pub count : length h.rows ≡ 20
  pub width : (k : ℕ) → k < 20 → length (get_or h.rows k []) ≡ 128
  pub base_in : h.base < 20
  pub bounded : h.size ≤ 20
  pub filling : h.size < 20 → h.base ≡ h.size

copy_row_lem :
    (chars row : List ℕ) (k : ℕ)
    → length row ≡ 128
    → k < 128
    → get_or (copy_row chars row) k 0 ≡ stored (get_or chars k 0)
copy_row_lem chars row k e h =
    (count_up-keeps
        (λ i r. (length r ≡ 128) × ((j : ℕ) → j < i → get_or r j 0 ≡ stored (get_or chars j 0)))
        (λ i r. set r i (stored (get_or chars i 0))) 128 0 128 row
        (λ i r lo hi inv. (
          length-set r i _ ∙ inv.0,
          λ j q. elim (ℕ_discrete i j) [
            | yes s ↦
                subst
                  (λ m.
                    get_or (set r i (stored (get_or chars i 0))) m 0 ≡ stored (get_or chars m 0))
                  s (get_or-set_self r i (stored (get_or chars i 0)) 0 (omega (arith, inv.0)))
            | no ne ↦ get_or-set_ne r i j (stored (get_or chars i 0)) 0 ne ∙ inv.1 j (omega arith)
          ],
        ))
        (omega arith) (e, λ j q. absurd (omega arith))).1
      k h

length-copy_row : (chars row : List ℕ) → length (copy_row chars row) ≡ length row
length-copy_row chars row =
    count_up-keeps (λ i r. length r ≡ length row) (λ i r. set r i (stored (get_or chars i 0))) 128 0
      128 row (λ i r lo hi e. length-set r i _ ∙ e) (omega arith) refl

-- A text that a line can hold: as long as the size says, with no NUL or line feed in it.
pub record IsTyped (l : Line) : Type 0 where
  pub line : IsLine l
  pub no_nul : (k : ℕ) → k < l.size → get_or l.chars k 0 ≢ 0
  pub no_feed : (k : ℕ) → k < l.size → get_or l.chars k 0 ≢ b'\n'

load_row_lem :
    (n i size : ℕ) (row : List ℕ) (l : Line)
    → length l.chars ≡ 128
    → i + n ≡ 128
    → l.size ≡ i
    → l.idx ≡ i
    → i ≤ size
    → size ≤ 127
    → ((k : ℕ) → i ≤ k → k < size → (get_or row k 0 ≢ 0) × (get_or row k 0 ≢ b'\n'))
    → get_or row size 0 ≡ 0
    → ((load_row n i row l).size ≡ size)
      × ((load_row n i row l).idx ≡ size)
      × (length (load_row n i row l).chars ≡ 128)
      × ((k : ℕ)
          → (k < i) ⊎ (size ≤ k)
          → get_or (load_row n i row l).chars k 0 ≡ get_or l.chars k 0)
      × ((k : ℕ) → i ≤ k → k < size → get_or (load_row n i row l).chars k 0 ≡ get_or row k 0)
unfolding load_row
load_row_lem zero i size row l len e s x lo hi some_text stop = absurd (omega arith)
load_row_lem (suc n) i size row l len e s x lo hi some_text stop = elim (ℕ_discrete i size) [
  | yes same ↦
      let end : (get_or row i 0 == 0 || get_or row i 0 == b'\n') ≡ true = rw same (rw stop refl) in
      rw end (s ∙ same, x ∙ same, len, λ k q. refl, λ k q r. absurd (omega arith))
  | no ne ↦
      let t = some_text i (omega arith) (omega arith) in
      let more : (get_or row i 0 == 0 || get_or row i 0 == b'\n') ≡ false = ground (arith, t) in
      let c = get_or row i 0 in
      let l' : Line = record l {
        chars = set l.chars i c;
        idx = (l.idx + 1) % 256;
        size = (l.size + 1) % 256;
      } in
      let (z, y, w, keeps, shows) =
        load_row_lem n (i + 1) size row l' (length-set l.chars i c ∙ len) (omega arith)
          (omega arith) (omega arith) (omega arith) hi (λ k q r. some_text k (omega arith) r)
          stop in
      rw more (
        z,
        y,
        w,
        λ k q.
            keeps k (elim q [ inl a ↦ inl (omega arith) | inr b ↦ inr b ])
            ∙ get_or-set_ne l.chars i k c 0 (elim q [ inl a ↦ omega arith | inr b ↦ omega arith ]),
        λ k q r. elim (ℕ_discrete i k) [
          | yes here ↦
              keeps k (inl (omega arith))
              ∙ subst (λ m. get_or (set l.chars i c) m 0 ≡ get_or row m 0) here
                  (get_or-set_self l.chars i c 0 (omega arith))
          | no later ↦ shows k (omega arith) r
        ],
      )
]

abbrev loaded : Line → Line → List ℕ → Line
loaded typed l row =
    load_row 128 0 (copy_row typed.chars row)
      (record { chars = update_range 128 0 (λ _. 0) l.chars; idx = 0; size = 0 })

-- A typed text that was copied to the history is recalled into any line: the same buffer, cell by
-- cell, the same size, and the cursor at its end.
recall-copy :
    (typed l : Line) (h : History) (row : List ℕ)
    → IsTyped typed
    → length l.chars ≡ 128
    → length row ≡ 128
    → get_or h.rows h.idx [] ≡ copy_row typed.chars row
    → ((recall h l).chars ≡ typed.chars)
      × ((recall h l).size ≡ typed.size)
      × ((recall h l).idx ≡ typed.size)
unfolding recall clear_line
recall-copy typed l h row v len width e =
    let cell : (k : ℕ)
        → k < 128
        → get_or (copy_row typed.chars row) k 0 ≡ stored (get_or typed.chars k 0) =
      λ k q. copy_row_lem typed.chars row k width q in
    let blank : (k : ℕ) → k < 128 → get_or (update_range 128 0 (λ _. 0) l.chars) k 0 ≡ 0 = λ k q.
      get_or-update_range_in (λ _. 0) 0 128 0 k l.chars (omega arith) (omega arith) (omega arith) in
    let text : (k : ℕ)
        → k < typed.size
        → get_or (copy_row typed.chars row) k 0 ≡ get_or typed.chars k 0 =
      λ k q. cell k (omega (arith, v.line.room)) ∙ ground (arith, v.no_feed k q, v.no_nul k q) in
    let (z, y, w, keeps, shows) =
      load_row_lem 128 0 typed.size (copy_row typed.chars row)
        (record { chars = update_range 128 0 (λ _. 0) l.chars; idx = 0; size = 0 })
        (length-update_range (λ _. 0) 0 128 0 l.chars ∙ len) (omega arith) refl refl (omega arith)
        v.line.room
        (λ k q r. (λ b. v.no_nul k r (sym (text k r) ∙ b), λ b. v.no_feed k r (sym (text k r) ∙ b)))
        (cell typed.size (omega (arith, v.line.room))
          ∙ ap stored (v.line.zeros typed.size (omega arith))) in
    rw e (
      eq_of_get_or (loaded typed l row).chars typed.chars 0 (w ∙ sym v.line.cells) (λ k q.
          elim (dec_lt k typed.size) [
            | yes inside ↦ shows k (omega arith) inside ∙ text k inside
            | no behind ↦
                keeps k (inr (omega arith))
                ∙ blank k (omega (arith, w))
                ∙ sym (v.line.zeros k (omega arith))
          ]),
      z,
      y,
    )

-- What pressing ENTER on a line that is not empty does to the history.
abbrev pub enter : List ℕ → History → History
enter chars h = increment_history_indices (copy_to_history chars h)

-- The ring stays well formed when a line is entered.
pub enter-IsHistory : (chars : List ℕ) (h : History) → IsHistory h → IsHistory (enter chars h)
unfolding increment_history_indices copy_to_history
enter-IsHistory chars h v = record {
  count = length-modify h.rows h.base (copy_row chars) ∙ v.count;
  width = λ k q. elim (ℕ_discrete h.base k) [
    | yes e ↦
        ap length (
          subst
            (λ m.
              get_or (modify h.rows h.base (copy_row chars)) m []
              ≡ copy_row chars (get_or h.rows m []))
            e (get_or-modify_self h.rows h.base (copy_row chars) [] (omega (arith, v.count))))
        ∙ length-copy_row chars (get_or h.rows k [])
        ∙ v.width k q
    | no ne ↦ ap length (get_or-modify_ne h.rows h.base k (copy_row chars) [] ne) ∙ v.width k q
  ];
  base_in = omega arith;
  bounded = ground (arith, v.bounded);
  filling = λ q. ground (arith, v.filling, v.base_in, v.bounded);
}

-- After a typed line has been entered into a well-formed ring, the up arrow brings it back,
-- whatever stands in the line's 128 cells now: its text, its size, and the cursor at its end.
pub recall-enter :
    (typed now : Line) (h : History)
    → IsTyped typed
    → IsHistory h
    → length now.chars ≡ 128
    → let (h', moved) = up now.chars (enter typed.chars h) in
      (moved ≡ true) × (recall h' now ≡ record typed { idx = typed.size })
unfolding up increment_history_indices copy_to_history
recall-enter typed now h t v len =
    let h1 = enter typed.chars h in
    let not_first : (ltb h1.size 20 && h1.idx == 0) ≡ false =
      ground (arith, v.filling, v.base_in, v.bounded) in
    let i : (if h1.idx == 0 then 19 else h1.idx - 1) ≡ h.base = ground (arith, v.base_in) in
    let saves : (h1.idx == h1.base) ≡ true = ground arith in
    let moves : (h.base == h1.base) ≡ false = ground (arith, v.base_in) in
    let row : get_or (copy_to_history now.chars h1).rows h.base []
        ≡ copy_row typed.chars (get_or h.rows h.base []) =
      get_or-modify_ne h1.rows h1.base h.base (copy_row now.chars) [] (omega (arith, v.base_in))
      ∙ get_or-modify_self h.rows h.base (copy_row typed.chars) []
          (omega (arith, v.base_in, v.count)) in
    let h2 : History = record (copy_to_history now.chars h1) { idx = h.base } in
    let (c, s, x) =
      recall-copy typed now h2 (get_or h.rows h.base []) t len (v.width h.base v.base_in) row in
    rw not_first
      (rw i (rw saves (rw moves (refl, λ j. record { chars = c j; idx = x j; size = s j }))))
