-- ===== src/Execute/Slots.antt =====
-- The processes on the stacks of the terminals stay slots of the table (`schedule`, `deschedule` of
-- student-distrib/syscalls.c and `timer_handler` of student-distrib/interrupts.c).
-- What holds of every block or cell goes on to hold when one is changed so that it does.
use ece391linux_os.Prelude.{
  get_or, modify, ◌==◌, Bool-cases, ℕ, zero, suc, ◌<◌, ◌≡◌, refl, inl, inr, Option, none, some,
  List, [], ◌∷◌, arith,
}
use ece391linux_os.Prelude.Int.{ℤ, pos, negsuc, ◌-ℤ◌, eqb_ℤ, minus_one}
use ece391linux_os.Schedule.{
  Context, no_context, Stack, no_stack, get_at, modify_at, Scheduler, stack_of, top_of, top_cell,
  modify_top, push_entry, clear_entry, pop_entry, choose, save_context, load_context, flip_tick,
  timer_handler,
}

pub modify-all :
    {A : Type 0} (P : A → Type 0) (f : A → A) (d : A) (xs : List A)
    → ((a : A) → P a → P (f a))
    → ((i : ℕ) → P (get_or xs i d))
    → (n i : ℕ) → P (get_or (modify xs n f) i d)
modify-all P f d [] keeps all n i = all i
modify-all P f d (x ∷ xs) keeps all zero zero = keeps x (all 0)
modify-all P f d (x ∷ xs) keeps all zero (suc i) = all (suc i)
modify-all P f d (x ∷ xs) keeps all (suc n) zero = all 0
modify-all P f d (x ∷ xs) keeps all (suc n) (suc i) =
    modify-all P f d xs keeps (λ j. all (suc j)) n i

-- The processes on a stack have slots of the table.
abbrev pub HasSlots : Stack → Type 0
HasSlots k = (i : ℕ) → (get_or k.cells i no_context).pid < 7

cells-HasSlots :
    (f : Context → Context) (cs : List Context) (z : ℤ)
    → ((c : Context) → c.pid < 7 → (f c).pid < 7)
    → ((i : ℕ) → (get_or cs i no_context).pid < 7)
    → (i : ℕ) → (get_or (modify_at cs z f) i no_context).pid < 7
cells-HasSlots f cs (pos n) keeps all = modify-all (λ c. c.pid < 7) f no_context cs keeps all n
cells-HasSlots f cs (negsuc n) keeps all = all

pub push_entry-HasSlots : (k : ℕ) (z : Stack) → k < 7 → HasSlots z → HasSlots (push_entry k z)
unfolding push_entry
push_entry-HasSlots k z h all =
    cells-HasSlots (λ c. record c { pid = k }) z.cells z.top (λ c l. h) all

pub pop_entry-HasSlots : (z : Stack) → HasSlots z → HasSlots (pop_entry z)
unfolding pop_entry
pop_entry-HasSlots z all =
    cells-HasSlots clear_entry z.cells (z.top -ℤ pos 1) (λ c l. omega arith) all

save_context-HasSlots :
    (s : Scheduler)
    → ((x : ℕ) → HasSlots (get_or s.stacks x no_stack))
    → (x : ℕ) → HasSlots (get_or (save_context s).stacks x no_stack)
unfolding save_context
save_context-HasSlots s all = elim (Bool-cases (eqb_ℤ (top_of s s.current_process) (pos 0))) [
  | inl e ↦ rw e all
  | inr e ↦ rw e (
      modify-all HasSlots
        (modify_top (λ c. record c { tss = s.esp0; esp = s.last_esp; ebp = s.last_ebp })) no_stack
        s.stacks
        (λ z h.
          cells-HasSlots (λ c. record c { tss = s.esp0; esp = s.last_esp; ebp = s.last_ebp })
            z.cells (z.top -ℤ pos 1) (λ c l. l) h)
        all s.current_process)
]

-- The stacks and the current process have slots of the table.
abbrev pub IsSlotted : Scheduler → Type 0
IsSlotted s = (s.current_pid < 7) × ((x : ℕ) → HasSlots (get_or s.stacks x no_stack))

get_at-slot :
    (cs : List Context) (z : ℤ)
    → ((i : ℕ) → (get_or cs i no_context).pid < 7)
    → (get_at cs z).pid < 7
get_at-slot cs (pos n) all = all n
get_at-slot cs (negsuc n) all = omega arith

load_context-IsSlotted : (s : Scheduler) → IsSlotted s → IsSlotted (load_context s)
unfolding load_context
load_context-IsSlotted s h = elim (Bool-cases (eqb_ℤ (top_of s s.current_process) (pos 0))) [
  | inl e ↦ rw e h
  | inr e ↦ elim (Bool-cases ((top_cell s s.current_process).ebp == 0)) [
    | inl f ↦ rw (e, f) h
    | inr f ↦
        rw (e, f)
          (
            get_at-slot (stack_of s s.current_process).cells (top_of s s.current_process -ℤ pos 1)
                (h.1 s.current_process),
            h.1,
          )
  ]
]

save_context-pid : (s : Scheduler) → (save_context s).current_pid ≡ s.current_pid
unfolding save_context
save_context-pid s = ground arith

-- Whatever a tick gives.
abbrev pub IsSlottedIfAny : Option Scheduler → Type 0
IsSlottedIfAny none = Unit
IsSlottedIfAny (some t) = IsSlotted t

pub timer_handler-IsSlottedIfAny :
    (rounds garbage : ℕ) (s : Scheduler)
    → IsSlotted s
    → IsSlottedIfAny (timer_handler rounds garbage s)
unfolding timer_handler flip_tick
timer_handler-IsSlottedIfAny rounds garbage s h = chosen (choose rounds garbage (save_context s))
  where
    saved : Scheduler
    saved = save_context s

    chosen :
        (o : Option ℕ)
        → IsSlottedIfAny (elim o [
          | none ↦ none
          | some t ↦ some (
              flip_tick
                (load_context (record saved { current_process = t; terminal_request = minus_one })))
        ])
    chosen none = tt
    chosen (some t) =
        load_context-IsSlotted (record saved { current_process = t; terminal_request = minus_one })
          (omega (arith, save_context-pid s, h.0), save_context-HasSlots s h.1)

-- A change that shows in no block's parent.
pub modify-same :
    {A B : Type 0} (g : A → B) (f : A → A) (d : A) (xs : List A)
    → ((a : A) → g (f a) ≡ g a)
    → (n i : ℕ) → g (get_or (modify xs n f) i d) ≡ g (get_or xs i d)
modify-same g f d [] same n i = refl
modify-same g f d (x ∷ xs) same zero zero = same x
modify-same g f d (x ∷ xs) same zero (suc i) = refl
modify-same g f d (x ∷ xs) same (suc n) zero = refl
modify-same g f d (x ∷ xs) same (suc n) (suc i) = modify-same g f d xs same n i
