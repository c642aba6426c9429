-- ===== src/Schedule/RoundRobin.antt =====
-- The choice and the switch of `timer_handler` (student-distrib/interrupts.c).
use ece391linux_os.Prelude.{
  get_or, ◌==◌, if◌then◌else◌, ==_iff, Bool-cases, Option-cases, ℕ, suc, ◌+◌, ◌-◌, ◌*◌, ◌%◌, ◌≤◌,
  ◌<◌, bit_or, ◌≡◌, refl, sym, ap, subst, ◌∙◌, ◌≢◌, inl, inr, true, false, ◌||◌, none, some, arith,
}
use ece391linux_os.Prelude.Int.{pos, eqb_ℤ, minus_one}
use ece391linux_os.Paging.{video, video_1, user_present, program_entry}
use ece391linux_os.Schedule.{
  Context, no_stack, Scheduler, top_of, top_cell, next_busy, choose, kernel_stack, save_context,
  vidmap_page, load_context, flip_tick, timer_handler,
}
use ece391linux_os.Schedule.Contexts.{
  save_context-top, load_context-keeps, saved_stacks, save_context-keeps, save_context-saved,
  save_context-busy, any_kept,
}
use ece391linux_os.Schedule.Turns.{
  busy, turn, next_busy-turn, next_busy-idle, turn-lt, turn-busy, turn-some,
}

-- The context that terminal `u` goes on with.
abbrev pub next_context : Scheduler → ℕ → Context
next_context s u = top_cell (record s { stacks = saved_stacks s }) u

-- The registers, pages and pointers are those of context `c`, on the terminal that runs.
pub record Resumed (c : Context) (t : Scheduler) : Type 0 where
  pub pid : t.current_pid ≡ c.pid
  pub registers : (t.last_esp ≡ c.esp) × (t.last_ebp ≡ c.ebp)
  pub kernel : t.esp0 ≡ kernel_stack c.pid
  pub program : t.program_page ≡ program_entry c.pid
  pub shown :
      t.current_process ≡ t.current_terminal
      → (t.video_page ≡ bit_or video user_present) × (t.video_mem ≡ vidmap_page)
  pub hidden :
      t.current_process ≢ t.current_terminal
      → (t.video_page ≡ bit_or (video_1 + 0x1000 * t.current_process) user_present)
        × (t.video_mem ≡ video_1 + 0x1000 * t.current_process)

-- The registers, pages and pointers are as before.
pub record Untouched (s t : Scheduler) : Type 0 where
  pub pid : t.current_pid ≡ s.current_pid
  pub registers : (t.last_esp ≡ s.last_esp) × (t.last_ebp ≡ s.last_ebp)
  pub kernel : t.esp0 ≡ s.esp0
  pub program : t.program_page ≡ s.program_page
  pub display : (t.video_page ≡ s.video_page) × (t.video_mem ≡ s.video_mem)

-- What a tick with no request pending and a busy terminal does: the turn goes to the first busy
-- terminal behind the last one, no request is pending, every stack is as high as before, the
-- registers are saved, and those of the terminal whose turn it is are loaded if it has run before.
pub record Ticked (s t : Scheduler) : Type 0 where
  pub moved : turn (busy s 0) (busy s 1) (busy s 2) s.current_process ≡ some t.current_process
  pub request : t.terminal_request ≡ minus_one
  pub tops : (u : ℕ) → top_of t u ≡ top_of s u
  pub saved : t.stacks ≡ saved_stacks s
  pub displayed : t.current_terminal ≡ s.current_terminal
  pub resumed :
      (next_context s t.current_process).ebp ≢ 0 → Resumed (next_context s t.current_process) t
  pub first_run : (next_context s t.current_process).ebp ≡ 0 → Untouched s t

choose-save :
    (n garbage : ℕ) (s : Scheduler)
    → s.terminal_request ≡ minus_one
    → choose n garbage (save_context s) ≡ next_busy n ((s.current_process + 1) % 3) (save_context s)
unfolding choose
choose-save n garbage s e =
    let kept = save_context-keeps s in
    let none_pending : eqb_ℤ (save_context s).terminal_request minus_one ≡ true =
      ap (λ r. eqb_ℤ r minus_one) (kept.0 ∙ e) in
    rw none_pending (ap (λ c. next_busy n ((c + 1) % 3) (save_context s)) kept.1)

by_context :
    (s : Scheduler) (u : ℕ)
    → turn (busy s 0) (busy s 1) (busy s 2) s.current_process ≡ some u
    → eqb_ℤ (get_or (saved_stacks s) u no_stack).top (pos 0) ≡ false
    → ((v : ℕ) → (get_or (saved_stacks s) v no_stack).top ≡ top_of s v)
    → Ticked s (
        flip_tick (
          load_context (record s {
            stacks = saved_stacks s;
            current_process = u;
            terminal_request = minus_one;
          })))
unfolding load_context flip_tick
by_context s u hit runs tops = elim (Bool-cases ((next_context s u).ebp == 0)) [
  | inl new ↦
      rw (runs, new)
        (record {
          moved = hit;
          request = refl;
          tops = tops;
          saved = refl;
          displayed = refl;
          resumed = λ ne. absurd (ne ((==_iff (next_context s u).ebp 0).0 new));
          first_run = λ z. record {
            pid = refl;
            registers = (refl, refl);
            kernel = refl;
            program = refl;
            display = (refl, refl);
          };
        })
  | inr known ↦
      rw (runs, known)
        (record {
          moved = hit;
          request = refl;
          tops = tops;
          saved = refl;
          displayed = refl;
          resumed = λ ne. record {
            pid = refl;
            registers = (refl, refl);
            kernel = refl;
            program = refl;
            shown = λ e. shows u s.current_terminal e;
            hidden = λ ne. hides u s.current_terminal ne;
          };
          first_run = λ z. absurd (differs (next_context s u).ebp known z);
        })
]
  where
    differs : (n : ℕ) → (n == 0) ≡ false → n ≢ 0
    differs n e = ground arith

    shows :
        (a b : ℕ)
        → a ≡ b
        → ((if a == b
              then bit_or video user_present
              else bit_or (video_1 + 0x1000 * a) user_present)
            ≡ bit_or video user_present)
          × ((if a == b then vidmap_page else video_1 + 0x1000 * a) ≡ vidmap_page)
    shows a b e = let same : (a == b) ≡ true = ground arith in rw same (refl, refl)

    hides :
        (a b : ℕ)
        → a ≢ b
        → ((if a == b
              then bit_or video user_present
              else bit_or (video_1 + 0x1000 * a) user_present)
            ≡ bit_or (video_1 + 0x1000 * a) user_present)
          × ((if a == b then vidmap_page else video_1 + 0x1000 * a) ≡ video_1 + 0x1000 * a)
    hides a b e = let other : (a == b) ≡ false = ground arith in rw other (refl, refl)

-- Loading on the saved stacks, where the terminal `u` is busy.
loaded-Ticked :
    (s : Scheduler) (u : ℕ)
    → turn (busy s 0) (busy s 1) (busy s 2) s.current_process ≡ some u
    → Ticked s (
        flip_tick (
          load_context
            (record (save_context s) { current_process = u; terminal_request = minus_one })))
loaded-Ticked s u hit =
    subst
      (λ (k : Scheduler).
        Ticked s (
          flip_tick
            (load_context (record k { current_process = u; terminal_request = minus_one }))))
      (sym (save_context-saved s)) (by_context s u hit runs same_tops)
  where
    same_tops : (v : ℕ) → (get_or (saved_stacks s) v no_stack).top ≡ top_of s v
    same_tops v = ap (λ k. top_of k v) (sym (save_context-saved s)) ∙ save_context-top s v

    runs : eqb_ℤ (get_or (saved_stacks s) u no_stack).top (pos 0) ≡ false
    runs = ap (λ z. eqb_ℤ z (pos 0)) (same_tops u) ∙ turn-busy s s.current_process u hit

-- A tick with no request pending, one of the three terminals running and some terminal busy ends
-- within three rounds of its search and does what `Ticked` says: the turn goes round to the first
-- busy terminal, the registers of the old one are saved in its top context, and the new one goes on
-- with the number, registers, kernel stack, program page and video page of its own, if it was saved
-- before; otherwise these stay as they were.
pub timer_handler-Ticked :
    (rounds garbage : ℕ) (s : Scheduler)
    → 3 ≤ rounds
    → s.terminal_request ≡ minus_one
    → s.current_process < 3
    → busy s 0 || busy s 1 || busy s 2 ≡ true
    → (t : Scheduler) × (timer_handler rounds garbage s ≡ some t)
      × Ticked s t
      × (t.current_process < 3)
unfolding timer_handler flip_tick
timer_handler-Ticked rounds garbage s enough e h any =
    elim (Option-cases (turn (busy s 0) (busy s 1) (busy s 2) s.current_process)) [
      | inl stuck ↦ absurd (turn-some _ _ _ s.current_process any stuck)
      | inr (u, hit) ↦
          let q = record (save_context s) { current_process = u; terminal_request = minus_one } in
          let kept = load_context-keeps q in
          (
            flip_tick (load_context q),
            rw (chosen ∙ hit, timer_handler),
            loaded-Ticked s u hit,
            omega (arith, kept.1, turn-lt _ _ _ s.current_process u hit),
          )
    ]
  where
    chosen :
        choose rounds garbage (save_context s)
        ≡ turn (busy s 0) (busy s 1) (busy s 2) s.current_process
    chosen =
        let size : rounds ≡ suc (suc (suc (rounds - 3))) = omega arith in
        choose-save rounds garbage s e
        ∙ ap (λ n. next_busy n ((s.current_process + 1) % 3) (save_context s)) size
        ∙ next_busy-turn (rounds - 3) (save_context s) s.current_process h (any_kept s ∙ any)
        ∙ λ i.
            turn (save_context-busy s 0 i) (save_context-busy s 1 i) (save_context-busy s 2 i)
              s.current_process

-- If no terminal is busy and none is requested, while one of the three is the running one, the
-- handler's search never ends: no number of rounds is enough.
pub timer_handler-hangs :
    (rounds garbage : ℕ) (s : Scheduler)
    → s.terminal_request ≡ minus_one
    → s.current_process < 3
    → busy s 0 || busy s 1 || busy s 2 ≡ false
    → timer_handler rounds garbage s ≡ none
unfolding timer_handler
timer_handler-hangs rounds garbage s e h idle = rw (
  choose-save rounds garbage s e
      ∙ next_busy-idle rounds (save_context s) ((s.current_process + 1) % 3) (omega arith)
          (any_kept s ∙ idle),
  timer_handler,
)
