-- ===== src/Schedule/Contexts.antt =====
-- What saving and loading a context change (`timer_handler` of student-distrib/interrupts.c).
use ece391linux_os.Prelude.{
  get_or, modify, if◌then◌else◌, Bool-cases, ℕ, zero, suc, ◌≡◌, refl, ap, inl, inr, not, ◌||◌, List,
  [], ◌∷◌, arith,
}
use ece391linux_os.Prelude.Int.{pos, eqb_ℤ}
use ece391linux_os.Schedule.{
  Stack, no_stack, Scheduler, top_of, modify_top, save_context, load_context,
}
use ece391linux_os.Schedule.Turns.{busy}

-- Saving a context changes no height.
pub save_context-top : (s : Scheduler) (t : ℕ) → top_of (save_context s) t ≡ top_of s t
unfolding save_context
save_context-top s t = elim (Bool-cases (eqb_ℤ (top_of s s.current_process) (pos 0))) [
  | inl idle ↦ rw idle refl
  | inr runs ↦ rw runs (same s.stacks s.current_process t)
]
  where
    f : Stack → Stack
    f = modify_top (λ c. record c { tss = s.esp0; esp = s.last_esp; ebp = s.last_ebp })

    same :
        (ks : List Stack) (i j : ℕ)
        → (get_or (modify ks i f) j no_stack).top ≡ (get_or ks j no_stack).top
    same [] i j = refl
    same (k ∷ ks) zero zero = refl
    same (k ∷ ks) zero (suc j) = refl
    same (k ∷ ks) (suc i) zero = refl
    same (k ∷ ks) (suc i) (suc j) = same ks i j

-- Loading a context changes neither the stacks nor the turn.
pub load_context-keeps :
    (s : Scheduler)
    → ((load_context s).stacks ≡ s.stacks)
      × ((load_context s).current_process ≡ s.current_process)
      × ((load_context s).terminal_request ≡ s.terminal_request)
unfolding load_context
load_context-keeps s = ground arith

-- What saving a context writes: the registers of the terminal that runs, into its top cell.
abbrev pub saved_stacks : Scheduler → List Stack
saved_stacks s =
    if busy s s.current_process
    then modify s.stacks s.current_process
        (modify_top (λ c. record c { tss = s.esp0; esp = s.last_esp; ebp = s.last_ebp }))
    else s.stacks

pub save_context-keeps :
    (s : Scheduler)
    → ((save_context s).terminal_request ≡ s.terminal_request)
      × ((save_context s).current_process ≡ s.current_process)
unfolding save_context
save_context-keeps s = ground arith

-- Saving changes the stacks only.
pub save_context-saved : (s : Scheduler) → save_context s ≡ record s { stacks = saved_stacks s }
unfolding save_context
save_context-saved s = elim (Bool-cases (eqb_ℤ (top_of s s.current_process) (pos 0))) [
  | inl idle ↦ rw idle refl
  | inr runs ↦ rw runs refl
]

pub save_context-busy : (s : Scheduler) (t : ℕ) → busy (save_context s) t ≡ busy s t
save_context-busy s t = ap (λ z. not (eqb_ℤ z (pos 0))) (save_context-top s t)

pub any_kept :
    (s : Scheduler)
    → busy (save_context s) 0 || busy (save_context s) 1 || busy (save_context s) 2
      ≡ busy s 0 || busy s 1 || busy s 2
any_kept s = λ i. save_context-busy s 0 i || save_context-busy s 1 i || save_context-busy s 2 i
