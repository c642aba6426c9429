-- ===== src/Terminal/Input.antt =====
-- What `terminal_read` of student-distrib/terminal.c gives back, and the buffers it reads from.
use ece391linux_os.Prelude.{
  true, ◌/◌, ◌%◌, ltb, ltb→lt, modify, get_or-modify_self, get_or-modify_ne, length-set, subst, ◌∷◌,
  ◌++◌, length, get_or, set, get_or-set_ne, ◌==◌, ==_iff, Bool-cases, ℕ, zero, suc, ◌+◌, ◌-◌, ◌≤◌,
  ◌<◌, ◌≡◌, refl, sym, ap, ◌∙◌, ◌≢◌, inl, inr, false, none, some, List, [], arith,
}
use native.Mathlib.Decide.{ℕ_discrete}
use ece391linux_os.Console.{next_line, cursor_update, eoi_keyboard}
use ece391linux_os.Terminal.{
  Terminals, read_buffer_size, find_newline, end_row, rows_from, terminal_read_end,
}
use ece391linux_os.Text.{pad, strncpy}
use ece391linux_os.Text.Writing.{ended}

find_newline-found :
    (n i l : ℕ) (b : List ℕ)
    → i ≤ l
    → l < i + n
    → ((j : ℕ) → j < l → get_or b j 0 ≢ b'\n')
    → get_or b l 0 ≡ b'\n'
    → find_newline n i b ≡ some l
unfolding find_newline
find_newline-found zero i l b lo hi before at_end = absurd (omega arith)
find_newline-found (suc n) i l b lo hi before at_end = elim (Bool-cases (get_or b i 0 == b'\n')) [
  | inl e ↦ rw e (elim (ℕ_discrete i l) [
    | yes p ↦ ap some p
    | no ne ↦ absurd (before i (omega arith) ((==_iff (get_or b i 0) b'\n').0 e))
  ])
  | inr e ↦ rw e (elim (ℕ_discrete i l) [
    | yes p ↦ absurd (differ (get_or b i 0) e (ap (λ k. get_or b k 0) p ∙ at_end))
    | no ne ↦ find_newline-found n (i + 1) l b (omega arith) (omega arith) before at_end
  ])
]
  where
    differ : (c : ℕ) → (c == b'\n') ≡ false → c ≢ b'\n'
    differ c e = ground (arith, e)

find_newline-lost :
    (n i : ℕ) (b : List ℕ) → ((j : ℕ) → get_or b j 0 ≢ b'\n') → find_newline n i b ≡ none
unfolding find_newline
find_newline-lost zero i b free = refl
find_newline-lost (suc n) i b free =
    let other : (get_or b i 0 == b'\n') ≡ false = ground (arith, free i) in
    rw other (find_newline-lost n (i + 1) b free)

-- A line of `l` characters, none of them NUL, in a read buffer whose only newline follows it.
pub record EndsAt (l : ℕ) (b : List ℕ) : Type 0 where
  pub room : length b ≡ read_buffer_size
  pub inside : l < read_buffer_size
  pub newline : get_or b l 0 ≡ b'\n'
  pub only : (j : ℕ) → j ≢ l → get_or b j 0 ≢ b'\n'
  pub no_nul : (j : ℕ) → j < l → get_or b j 0 ≢ 0

-- Row `cip` behind the write of NUL.
record Ended (i : ℕ) (b r : List ℕ) : Type 0 where
  others : (j : ℕ) → j ≢ i → get_or r j 0 ≡ get_or b j 0
  nul : i < read_buffer_size → get_or r i 0 ≡ 0
  room : length r ≡ length b

row-Ended :
    (cip i : ℕ) (rows : List (List ℕ))
    → length (get_or rows cip []) ≡ read_buffer_size
    → Ended i (get_or rows cip []) (get_or (end_row cip i rows) cip [])
row-Ended cip i rows size = elim (Bool-cases (ltb i read_buffer_size)) [
  | inl e ↦
      let low = ltb→lt i read_buffer_size e in
      let here : cip + i / read_buffer_size ≡ cip = omega arith in
      let cell : i % read_buffer_size ≡ i = omega arith in
      let row = get_or rows cip [] in
      let is : get_or (end_row cip i rows) cip [] ≡ set row i 0 =
        (λ k. get_or (modify rows (here k) (λ b. set b (cell k) 0)) cip [])
        ∙ get_or-modify_self rows cip (λ b. set b i 0) [] (filled rows cip (omega arith)) in
      subst (Ended i row) (sym is) (record {
        others = λ j ne. get_or-set_ne row i j 0 0 (λ q. ne (sym q));
        nul = λ l. ended row i;
        room = length-set row i 0;
      })
  | inr e ↦
      let high : read_buffer_size ≤ i = ground arith in
      let is : get_or (end_row cip i rows) cip [] ≡ get_or rows cip [] =
        get_or-modify_ne rows (cip + i / read_buffer_size) cip (λ b. set b (i % read_buffer_size) 0)
          [] (λ q. absurd (omega (arith, q, high))) in
      subst (Ended i (get_or rows cip [])) (sym is)
        (record { others = λ j ne. refl; nul = λ l. absurd (omega arith); room = refl })
]
  where
    filled : (rows : List (List ℕ)) (c : ℕ) → 0 < length (get_or rows c []) → c < length rows
    filled [] c h = absurd (omega arith)
    filled (b ∷ rows) zero h = omega arith
    filled (b ∷ rows) (suc c) h = omega (arith, filled rows c h)

get_or-rows_from :
    (cip j : ℕ) (rows : List (List ℕ))
    → j < length (get_or rows cip [])
    → get_or (rows_from cip rows) j 0 ≡ get_or (get_or rows cip []) j 0
get_or-rows_from cip j [] h = absurd (omega arith)
get_or-rows_from zero j (b ∷ rows) h = front b (rows_from 0 rows) j h
  where
    front : (b rest : List ℕ) (j : ℕ) → j < length b → get_or (b ++ rest) j 0 ≡ get_or b j 0
    front [] rest j h = absurd (omega arith)
    front (c ∷ b) rest zero h = refl
    front (c ∷ b) rest (suc j) h = front b rest j (omega arith)
get_or-rows_from (suc cip) j (b ∷ rows) h = get_or-rows_from cip j rows h

get_or-pad : (dest : List ℕ) (n k : ℕ) → k < n → get_or (pad dest n) k 0 ≡ 0
unfolding pad
get_or-pad dest zero k h = absurd (omega arith)
get_or-pad [] (suc n) k h = refl
get_or-pad (d ∷ dest) (suc n) zero h = refl
get_or-pad (d ∷ dest) (suc n) (suc k) h = get_or-pad dest n k (omega arith)

-- `strncpy` copies the bytes in front of the first NUL, and a NUL too.
get_or-strncpy :
    (dest src : List ℕ) (n k : ℕ)
    → k < n
    → k < length dest
    → ((j : ℕ) → j < k → get_or src j 0 ≢ 0)
    → get_or (strncpy dest src n) k 0 ≡ get_or src k 0
unfolding strncpy
get_or-strncpy dest src zero k h room some_text = absurd (omega arith)
get_or-strncpy [] src (suc n) k h room some_text = absurd (omega arith)
get_or-strncpy (d ∷ dest) [] (suc n) k h room some_text = get_or-pad (d ∷ dest) (suc n) k h
get_or-strncpy (d ∷ dest) (c ∷ src) (suc n) zero h room some_text = elim (Bool-cases (c == 0)) [
  | inl e ↦ rw e (get_or-pad (d ∷ dest) (suc n) 0 h ∙ sym ((==_iff c 0).0 e))
  | inr e ↦ rw e refl
]
get_or-strncpy (d ∷ dest) (c ∷ src) (suc n) (suc k) h room some_text =
    let more : (c == 0) ≡ false = ground (arith, some_text 0 (omega arith)) in
    rw more (
      get_or-strncpy dest src n k (omega arith) (omega arith)
        (λ j l. some_text (suc j) (omega arith)))

strncpy-nul :
    (dest src : List ℕ) (n k : ℕ)
    → k < n
    → get_or src k 0 ≡ 0
    → k < length dest
    → get_or (strncpy dest src n) k 0 ≡ 0
unfolding strncpy
strncpy-nul dest src zero k h e room = absurd (omega arith)
strncpy-nul [] src (suc n) k h e room = absurd (omega arith)
strncpy-nul (d ∷ dest) [] (suc n) k h e room = get_or-pad (d ∷ dest) (suc n) k h
strncpy-nul (d ∷ dest) (c ∷ src) (suc n) zero h e room =
    let z : (c == 0) ≡ true = ground arith in rw z (get_or-pad (d ∷ dest) (suc n) 0 h)
strncpy-nul (d ∷ dest) (c ∷ src) (suc n) (suc k) h e room = elim (Bool-cases (c == 0)) [
  | inl z ↦ rw z (get_or-pad (d ∷ dest) (suc n) (suc k) h)
  | inr z ↦ rw z (strncpy-nul dest src n k (omega arith) e (omega arith))
]

outside : (xs : List ℕ) (j : ℕ) → length xs ≤ j → get_or xs j 0 ≡ 0
outside [] j h = refl
outside (x ∷ xs) zero h = absurd (omega arith)
outside (x ∷ xs) (suc j) h = outside xs j (omega arith)

-- What a caller's buffer of `nbytes` bytes gets of the line in row `b`.
pub record Gets (l nbytes : ℕ) (b buf copied : List ℕ) : Type 0 where
  pub line : (k : ℕ) → k ≤ l → k + 1 < nbytes → k < length buf → get_or copied k 0 ≡ get_or b k 0
  pub nul : nbytes ≤ read_buffer_size → nbytes ≤ length buf → get_or copied (nbytes - 1) 0 ≡ 0

-- Where the row of the process's terminal, 128 bytes long, holds a line of `l` characters, none of them NUL, with its newline, the only one in the row, and `nbytes` is at least 1: unless `nbytes` is `l + 1`, `terminal_read` behind its wait puts the characters and the newline into the caller's buffer as far as they stand in front of the last of its `nbytes` bytes, makes this last byte NUL if `nbytes` is at most 128 and the buffer has as many, and returns `l + 1`, also where that is more than `nbytes`. For `l + 1` bytes the NUL overwrites the newline, and the search leaves the read buffer.
pub terminal_read_end_lem :
    (cip l nbytes : ℕ) (buf : List ℕ) (s : Terminals)
    → EndsAt l (get_or s.read_buffers cip [])
    → 1 ≤ nbytes
    → (nbytes ≢ l + 1
        → (t : Terminals) × (copied : List ℕ) × (terminal_read_end cip buf nbytes s
            ≡ some (t, copied, l + 1))
          × Gets l nbytes (get_or s.read_buffers cip []) buf copied)
      × (nbytes ≡ l + 1 → terminal_read_end cip buf nbytes s ≡ none)
unfolding terminal_read_end
terminal_read_end_lem cip l nbytes buf s e some_byte = (
  λ ne.
      let found =
        find_newline-found read_buffer_size 0 l r (omega arith) (omega (arith, e.inside))
          (λ j less. kept j (omega (arith, less)))
          (is.others l (omega (arith, ne, some_byte)) ∙ e.newline) in
      (
        record s {
          read_buffers = end_row cip (nbytes - 1) s.read_buffers;
          screen = eoi_keyboard (cursor_update (next_line s.screen));
        },
        strncpy buf (rows_from cip (end_row cip (nbytes - 1) s.read_buffers)) nbytes,
        rw (found, terminal_read_end) refl,
        record {
          line = λ k at_most before room.
              get_or-strncpy buf src nbytes k (omega (arith, before)) room (λ j less. λ z.
                e.no_nul j (omega (arith, at_most, less)) (
                  sym
                    (byte j (omega (arith, less, before)) (omega (arith, at_most, less, e.inside)))
                  ∙ z))
              ∙ byte k (omega (arith, before)) (omega (arith, at_most, e.inside));
          nul = λ small room.
              strncpy-nul buf src nbytes (nbytes - 1) (omega (arith, some_byte))
                (get_or-rows_from cip (nbytes - 1) (end_row cip (nbytes - 1) s.read_buffers)
                    (omega (arith, is.room, e.room, small, some_byte))
                  ∙ is.nul (omega (arith, small, some_byte)))
                (omega (arith, room, some_byte));
        },
      ),
  λ same.
      let gone = find_newline-lost read_buffer_size 0 r (cleared same) in
      rw (gone, terminal_read_end) refl,
)
  where
    b : List ℕ
    b = get_or s.read_buffers cip []

    r : List ℕ
    r = get_or (end_row cip (nbytes - 1) s.read_buffers) cip []

    src : List ℕ
    src = rows_from cip (end_row cip (nbytes - 1) s.read_buffers)

    is : Ended (nbytes - 1) b r
    is = row-Ended cip (nbytes - 1) s.read_buffers e.room

    byte : (j : ℕ) → j + 1 < nbytes → j < read_buffer_size → get_or src j 0 ≡ get_or b j 0
    byte j before low =
        get_or-rows_from cip j (end_row cip (nbytes - 1) s.read_buffers)
          (omega (arith, is.room, e.room, low))
        ∙ is.others j (omega (arith, before))

    zero_differs : zero ≢ b'\n'
    zero_differs = omega arith

    kept : (j : ℕ) → j ≢ l → get_or r j 0 ≢ b'\n'
    kept j other = elim (ℕ_discrete j (nbytes - 1)) [
      | yes p ↦ λ q. elim (Bool-cases (ltb (nbytes - 1) read_buffer_size)) [
        | inl low ↦
            zero_differs (
              sym (ap (λ k. get_or r k 0) p ∙ is.nul (ltb→lt (nbytes - 1) read_buffer_size low))
              ∙ q)
        | inr high ↦ zero_differs (sym (outside r j (ground (arith, is.room, e.room, high, p))) ∙ q)
      ]
      | no ne ↦ λ q. e.only j other (sym (is.others j ne) ∙ q)
    ]

    cleared : nbytes ≡ l + 1 → (j : ℕ) → get_or r j 0 ≢ b'\n'
    cleared same j = elim (ℕ_discrete j l) [
      | yes p ↦ λ q.
          let last : j ≡ nbytes - 1 = omega (arith, same, p) in
          zero_differs
            (sym (ap (λ k. get_or r k 0) last ∙ is.nul (omega (arith, same, e.inside))) ∙ q)
      | no ne ↦ kept j ne
    ]
