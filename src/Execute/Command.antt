-- ===== src/Execute/Command.antt =====
-- The name of the program in a command (`execute` of student-distrib/syscalls.c).
use ece391linux_os.Prelude.{
  length, get_or, set, drop, replicate, length-set, length-replicate, get_or-set_ne, ◌==◌,
  if◌then◌else◌, Bool-cases, ℕ, zero, suc, ◌+◌, ◌≤◌, ◌<◌, ◌≡◌, refl, sym, ap, ◌∙◌, ◌≢◌, inl, inr,
  false, ◌||◌, List, [], ◌∷◌, arith,
}
use ece391linux_os.Execute.{exec_buffer_size, copy_command, parse_command}
use ece391linux_os.Text.{strlen, text}
use ece391linux_os.Text.Writing.{Written, Written-cons, nonzero-cons, text-from_entries, ended}

-- What stands in front of the first space or NUL of a command.
abbrev pub word : List ℕ → List ℕ
word [] = []
word (c ∷ s) = if c == b' ' || c == 0 then [] else c ∷ word s

word_at :
    (i : ℕ) (s : List ℕ)
    → word (drop i s) ≡ (
        if get_or s i 0 == b' ' || get_or s i 0 == 0
        then []
        else get_or s i 0 ∷ word (drop (suc i) s))
word_at zero [] = refl
word_at (suc i) [] = refl
word_at zero (c ∷ s) = refl
word_at (suc i) (c ∷ s) = word_at i s

copy_command-writes :
    (n i : ℕ) (command cmd : List ℕ)
    → i + n ≤ length cmd
    → length (word (drop i command)) ≤ n
    → ((copy_command n i command cmd).1 ≡ i + length (word (drop i command)))
      × Written cmd i (word (drop i command)) (copy_command n i command cmd).0
unfolding copy_command
copy_command-writes zero i command cmd room short =
    (omega (arith, short), (λ j l. refl, λ j l. absurd (omega (arith, l, short))))
copy_command-writes (suc n) i command cmd room short =
    elim (Bool-cases (get_or command i 0 == b' ' || get_or command i 0 == 0)) [
      | inl e ↦
          rw (word_at i command, e) (omega arith, (λ j l. refl, λ j l. absurd (omega (arith, l))))
      | inr e ↦
          let c = get_or command i 0 in
          let next : word (drop i command) ≡ c ∷ word (drop (i + 1) command) =
            word_at i command ∙ rw (e, one) refl in
          let all =
            copy_command-writes n (i + 1) command (set cmd i c)
              (omega (arith, room, length-set cmd i c)) (omega (arith, short, ap length next)) in
          rw (next, e)
            (
              all.0 ∙ omega arith,
              Written-cons cmd (copy_command n (i + 1) command (set cmd i c)).0 i c
                  (word (drop (i + 1) command)) (omega (arith, room)) all.1,
            )
    ]
  where
    one : i + 1 ≡ suc i
    one = omega arith

not_end : (c : ℕ) → (c == b' ' || c == 0) ≡ false → c ≢ 0
not_end c e = ground arith

word-nonzero : (s : List ℕ) (j : ℕ) → j < length (word s) → get_or (word s) j 0 ≢ 0
word-nonzero [] j l = absurd (omega arith)
word-nonzero (c ∷ s) j l = elim (Bool-cases (c == b' ' || c == 0)) [
  | inl e ↦ absurd (ground arith)
  | inr e ↦
      let long : j < length (c ∷ word s) =
        omega (arith, l, ap (λ b. length (if b then [] else c ∷ word s)) e) in
      rw e (nonzero-cons c (word s) (not_end c e) (word-nonzero s) j long)
]

length-word : (s : List ℕ) → length (word s) ≤ strlen s
unfolding strlen
length-word [] = omega arith
length-word (c ∷ s) = ground (arith, length-word s)

-- For a command shorter than 128 characters: the name is what stands in front of its first space
-- or its end, terminated, and the index is where that ends.
pub parse_command_lem :
    (command : List ℕ)
    → strlen command < exec_buffer_size
    → (text exec_buffer_size (parse_command command).0 ≡ word command)
      × ((parse_command command).1 ≡ length (word command))
unfolding parse_command
parse_command_lem command short =
    let start : List ℕ = replicate exec_buffer_size 0 in
    let all =
      copy_command-writes exec_buffer_size 0 command start
        (omega (arith, length-replicate {A = ℕ} exec_buffer_size 0))
        (omega (arith, length-word command, short)) in
    let r = copy_command exec_buffer_size 0 command start in
    let place : r.1 ≡ length (word command) = all.0 ∙ front (length (word command)) in
    (
      text-from_entries exec_buffer_size (word command) (set r.0 r.1 0)
          (omega (arith, length-word command, short))
          (λ j l. (
            get_or-set_ne r.0 r.1 j 0 0 (omega (arith, place, l))
                ∙ ap (λ n. get_or r.0 n 0) (sym (front j))
                ∙ all.1.1 j l,
            word-nonzero command j l,
          ))
          (ap (λ n. get_or (set r.0 r.1 0) n 0) (sym place) ∙ ended r.0 r.1),
      place,
    )
  where
    front : (n : ℕ) → 0 + n ≡ n
    front n = omega arith
