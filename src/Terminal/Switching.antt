-- ===== src/Terminal/Switching.antt =====
-- What the terminals show before and after `terminal_switch` of student-distrib/terminal.c.
use ece391linux_os.Prelude.{
  length, get_or, get_or-set_self, get_or-set_ne, ltb, ◌==◌, if◌then◌else◌, ltb→lt, ==_iff,
  Bool-cases, ℕ, ◌≤◌, ◌<◌, ◌≡◌, refl, sym, ap, ap₂, ◌∙◌, ◌≢◌, ◌⊎◌, inl, inr, true, false, not, ◌&&◌,
  List, arith,
}
use ece391linux_os.Prelude.Int.{ℤ, pos, ltb_ℤ}
use ece391linux_os.Console.{Cell, clear, cursor_update_spec, cursor_update, terminal_clear}
use ece391linux_os.Terminal.{
  Terminals, no_page, no_cursor, to_u8, Switch, out_of_range, unchanged, resumed, fresh,
  save_screen, terminal_switch,
}

-- What a terminal shows, or will show when it is displayed: the page, and the cursor.
pub record View : Type 0 where
  pub page : List Cell
  pub cursor : ℤ × ℤ

abbrev pub saved_view : Terminals → ℕ → View
saved_view s u =
    let (x, y) = get_or s.cursors u no_cursor in
    record { page = get_or s.pages u no_page; cursor = (pos x, pos y) }

abbrev pub view : Terminals → ℕ → View
view s u =
    if u == s.current_terminal
    then record { page = s.screen.video; cursor = (s.screen.screen_x, s.screen.screen_y) }
    else saved_view s u

-- What a switch to `num` may do to `s`.
abbrev pub Switched : ℕ → Terminals → Switch → Type 0
Switched num s out_of_range = 3 < num
Switched num s unchanged =
    (num ≡ s.current_terminal)
    ⊎ ((ltb_ℤ s.num_active_processes (pos 6) ≡ false) × (get_or s.terminal_running num 0 ≡ 0))
Switched num s (resumed t) =
    (num ≤ 3)
    × (num ≢ s.current_terminal)
    × (get_or s.terminal_running num 0 ≡ 1)
    × (t.current_terminal ≡ num)
    × (t.terminal_request ≡ pos num)
    × ((u : ℕ) → u < 3 → view t u ≡ view s u)
Switched num s (fresh t) =
    (num ≤ 3)
    × (num ≢ s.current_terminal)
    × (get_or s.terminal_running num 0 ≢ 1)
    × ((ltb_ℤ s.num_active_processes (pos 6) ≡ true) ⊎ (get_or s.terminal_running num 0 ≢ 0))
    × (t.current_terminal ≡ num)
    × (t.current_process ≡ num)
    × (t.current_pid ≡ 0)
    × (t.screen.video ≡ (clear (record s.screen { video = get_or s.pages num no_page })).video)
    × ((u : ℕ) → u < 3 → u ≢ num → view t u ≡ view s u)

-- The cursor's column and row fit into a byte.
abbrev pub HasCursor : Terminals → Type 0
HasCursor s =
    (pos (to_u8 s.screen.screen_x) ≡ s.screen.screen_x)
    × (pos (to_u8 s.screen.screen_y) ≡ s.screen.screen_y)

-- Saving the screen saves what each terminal shows.
save_screen-view :
    (s : Terminals) (u : ℕ)
    → s.current_terminal < 3
    → length s.pages ≡ 3
    → length s.cursors ≡ 3
    → HasCursor s
    → saved_view (save_screen s) u ≡ view s u
save_screen-view s u current pages cursors fits = elim (Bool-cases (u == s.current_terminal)) [
  | inl e ↦
      let same : u ≡ s.current_terminal = (==_iff u s.current_terminal).0 e in
      let x = s.screen.screen_x in
      let y = s.screen.screen_y in
      let c = s.current_terminal in
      let own : saved_view (save_screen s) c ≡ record { page = s.screen.video; cursor = (x, y) } =
        ap₂ (λ (p : List Cell) (q : ℕ × ℕ). record { page = p; cursor = (pos q.0, pos q.1) })
          (get_or-set_self s.pages c s.screen.video no_page (omega (arith, current, pages)))
          (get_or-set_self s.cursors c (to_u8 x, to_u8 y) no_cursor
            (omega (arith, current, cursors)))
        ∙ ap₂ (λ a b. record { page = s.screen.video; cursor = (a, b) }) fits.0 fits.1 in
      rw e (ap (saved_view (save_screen s)) same ∙ own)
  | inr e ↦
      let other : s.current_terminal ≢ u = ground (arith, e) in
      rw e (
        ap₂ (λ (p : List Cell) (q : ℕ × ℕ). record { page = p; cursor = (pos q.0, pos q.1) })
          (get_or-set_ne s.pages s.current_terminal u s.screen.video no_page other)
          (get_or-set_ne s.cursors s.current_terminal u
            (to_u8 s.screen.screen_x, to_u8 s.screen.screen_y) no_cursor other))
]

-- For three pages and three cursors, a displayed terminal below 3 and its cursor within a byte: `terminal_switch` fails just for a number above 3, so for 3
-- it does not; it changes nothing for the displayed terminal, and for one without a process when
-- six processes are active. Otherwise it displays the terminal: to a running one it switches so that
-- each of the three terminals goes on showing its own page and cursor, and requests it from the
-- scheduler; to one that is not running, where fewer than six processes are active or its flag is
-- neither 0 nor 1, it switches with a cleared page, as process 0, and the others go on showing
-- theirs.
pub terminal_switch-Switched :
    (num : ℕ) (s : Terminals)
    → s.current_terminal < 3
    → length s.pages ≡ 3
    → length s.cursors ≡ 3
    → HasCursor s
    → Switched num s (terminal_switch num s)
unfolding terminal_switch cursor_update cursor_update_spec terminal_clear
terminal_switch-Switched num s current pages cursors fits = elim (Bool-cases (ltb 3 num)) [
  | inl a ↦ rw a (ltb→lt 3 num a)
  | inr a ↦ elim (Bool-cases (num == s.current_terminal)) [
    | inl b ↦ rw (a, b) (inl ((==_iff num s.current_terminal).0 b))
    | inr b ↦
        let other : num ≢ s.current_terminal = ground (arith, b) in
        elim (Bool-cases
          (not (ltb_ℤ s.num_active_processes (pos 6)) && (get_or s.terminal_running num 0 == 0))) [
            | inl c ↦
                rw (a, b, c) (inr (full s.num_active_processes (get_or s.terminal_running num 0) c))
            | inr c ↦ elim (Bool-cases (get_or s.terminal_running num 0 == 1)) [
              | inl d ↦
                  rw (a, b, c, d)
                    (
                      (let within : num ≤ 3 = ground (arith, a) in within),
                      other,
                      (==_iff (get_or s.terminal_running num 0) 1).0 d,
                      refl,
                      refl,
                      λ u l. elim (Bool-cases (u == num)) [
                        | inl e ↦ rw e (
                            save_screen-view s num current pages cursors fits
                            ∙ ap (view s) (sym ((==_iff u num).0 e)))
                        | inr e ↦ rw e (save_screen-view s u current pages cursors fits)
                      ],
                    )
              | inr d ↦
                  let within : num ≤ 3 = ground (arith, a) in
                  rw (a, b, c, d)
                    (
                      within,
                      other,
                      (λ e. not_one (get_or s.terminal_running num 0) d e),
                      few s.num_active_processes (get_or s.terminal_running num 0) c,
                      refl,
                      refl,
                      refl,
                      ap (λ p. (clear (record s.screen { video = p })).video)
                          (get_or-set_ne s.pages s.current_terminal num s.screen.video no_page
                            (λ q. other (sym q))),
                      λ u l ne.
                          let e : (u == num) ≡ false = ground (arith, ne) in
                          rw e (save_screen-view s u current pages cursors fits),
                    )
            ]
          ]
  ]
]
  where
    not_one : (r : ℕ) → (r == 1) ≡ false → r ≢ 1
    not_one r e = ground (arith, e)

    few :
        (n : ℤ) (r : ℕ)
        → (not (ltb_ℤ n (pos 6)) && (r == 0)) ≡ false
        → (ltb_ℤ n (pos 6) ≡ true) ⊎ (r ≢ 0)
    few n r h = elim (Bool-cases (ltb_ℤ n (pos 6))) [
      | inl e ↦ inl e
      | inr e ↦ inr (λ z. absurd (ground (arith, h, e, z)))
    ]

    full :
        (n : ℤ) (r : ℕ)
        → (not (ltb_ℤ n (pos 6)) && (r == 0)) ≡ true
        → (ltb_ℤ n (pos 6) ≡ false) × (r ≡ 0)
    full n r h = (ground (arith, h), ground (arith, h))
