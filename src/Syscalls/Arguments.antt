-- ===== src/Syscalls/Arguments.antt =====
-- The arguments of a process are handed out once (`getargs` of student-distrib/syscalls.c).
use ece391linux_os.Prelude.{
  length, set, get_or-modify_self, ◌==◌, Bool-cases, ℕ, suc, ◌≤◌, ◌<◌, ◌≡◌, refl, ap, ◌∙◌, inl, inr,
  false, ◌||◌, some, List, [], ◌∷◌, arith,
}
use ece391linux_os.Prelude.Int.{ℤ, pos, ltb_ℤ, minus_one}
use ece391linux_os.Process.{Pcb, Processes, no_pcb, block, clear_loop, clear_block_args, clear_args}
use ece391linux_os.Process.Invariant.{WellFormed}
use ece391linux_os.Syscalls.{getargs}
use ece391linux_os.Text.{strlen, strcpy, strncpy}

-- Copying as many bytes as the string has, and a NUL behind them, copies the string.
pub strncpy-strlen :
    (dest src : List ℕ)
    → strlen src < length dest
    → set (strncpy dest src (strlen src)) (strlen src) 0 ≡ strcpy dest src
unfolding strlen strncpy strcpy
strncpy-strlen [] src h = absurd (omega arith)
strncpy-strlen (d ∷ dest) [] h = refl
strncpy-strlen (d ∷ dest) (c ∷ src) h = elim (Bool-cases (c == 0)) [
  | inl e ↦ rw e refl
  | inr e ↦ rw e (rw e (ap (λ t. c ∷ t) (strncpy-strlen dest src (ground arith))))
]

strlen-clear_loop : (n : ℕ) (cs : List ℕ) → strlen (clear_loop (suc n) cs) ≡ 0
unfolding strlen clear_loop
strlen-clear_loop n [] = refl
strlen-clear_loop n (c ∷ cs) = ground arith

-- In a well-formed process table, a call with room for the arguments, which are not empty, in the
-- buffer and in `nbytes` copies them with their NUL, returns 0, and clears them, so that a further
-- call fails and changes nothing.
pub getargs_lem :
    (nbytes : ℕ) (buf : List ℕ) (p : Processes)
    → WellFormed p
    → 0 < strlen (block p p.current_pid).args
    → strlen (block p p.current_pid).args ≤ nbytes
    → strlen (block p p.current_pid).args < length buf
    → let (q, out, ret) = getargs (some buf) (pos nbytes) p in
      (out ≡ some (strcpy buf (block p p.current_pid).args))
      × (ret ≡ pos 0)
      × (strlen (block q q.current_pid).args ≡ 0)
      × ((again : List ℕ) (n : ℤ) → getargs (some again) n q ≡ (q, some again, minus_one))
unfolding getargs clear_args
getargs_lem nbytes buf p w some_args fits room =
    let args = (block p p.current_pid).args in
    let q = clear_args p in
    let some_bytes : ltb_ℤ (pos nbytes) (pos 1) ≡ false = ground arith in
    let enough : (ltb_ℤ (pos nbytes) (pos (strlen args)) || (strlen args == 0)) ≡ false =
      ground arith in
    let cleared : block q q.current_pid ≡ clear_block_args (block p p.current_pid) =
      get_or-modify_self p.control_blocks p.current_pid clear_block_args no_pcb
        (omega (arith, w.blocks, w.current)) in
    let empty : strlen (block q q.current_pid).args ≡ 0 =
      ap (λ (b : Pcb). strlen b.args) cleared ∙ strlen-clear_loop 1023 args in
    rw (some_bytes, enough)
      (
        ap some (strncpy-strlen buf args room),
        refl,
        empty,
        λ again n. elim (Bool-cases (ltb_ℤ n (pos 1))) [
          | inl none_wanted ↦ rw none_wanted refl
          | inr wanted ↦ rw wanted (rw empty (ground arith))
        ],
      )
