-- ===== src/User/Kernel/Opening.antt =====
-- `err_open_lots` of syscalls/ece391syserr.c on the kernel: seven calls of `open` on the directory,
-- of which the last fails, and the calls of `close`.
use ece391linux_os.Prelude.{
  ℕ, ◌+◌, ◌^◌, ◌≤◌, ◌<◌, ◌≡◌, refl, sym, ap, subst, ◌∙◌, ◌≢◌, ◌⊎◌, inl, inr, true, false, some,
  arith,
}
use native.Mathlib.Decide.{ℕ_discrete, dec_lt}
use ece391linux_os.Prelude.Int.{ℤ, pos, eqb_ℤ, minus_one, to_i32}
use ece391linux_os.Filesystem.{
  DirEntry, Image, read_dentry_by_name, fd_block, modify_fd, directory_open, bad_fd,
  directory_close,
}
use ece391linux_os.Filesystem.Open.{Placed, directory_block, directory_open_lem}
use ece391linux_os.Filesystem.Slots.{is_unused, IsLowest}
use ece391linux_os.Filesystem.Table.{
  current_table, fd_block-modify_fd_self, fd_block-modify_fd_ne, modify_fd-WellFormed,
}
use ece391linux_os.History.{up}
use ece391linux_os.Process.{null, FdBlock, Processes, clear_fd, stdin_block, stdout_block}
use ece391linux_os.Process.Invariant.{WellFormed}
use ece391linux_os.User.{bytes}

-- The descriptors from `a` below `b` are the directory's, the others from 2 on are unused.
pub record Between (img : Image) (a b : ℕ) (p : Processes) : Type 0 where
  pub well_formed : WellFormed p
  pub input : fd_block p 0 ≡ stdin_block
  pub output : fd_block p 1 ≡ stdout_block
  pub used : (k : ℕ) → a ≤ k → k < b → fd_block p k ≡ directory_block img
  pub flags : (k : ℕ) → 2 ≤ k → k < 8 → (k < a) ⊎ (b ≤ k) → (fd_block p k).flags ≡ minus_one
  pub ops :
      (k : ℕ) → 2 ≤ k → k < 8 → (k < a) ⊎ (b ≤ k) → (fd_block p k).file_operations_pointer ≡ null

-- `k` gets the directory's block where `k` is the upper end.
Placed-Between :
    (img : Image) (b : ℕ) (p q : Processes)
    → 2 ≤ b
    → b < 8
    → Between img 2 b p
    → Placed p b (directory_block img) q
    → Between img 2 (b + 1) q
Placed-Between img b p q l h s placed = record {
  well_formed = placed.well_formed;
  input = placed.others 0 (λ e. omega arith) ∙ s.input;
  output = placed.others 1 (λ e. omega arith) ∙ s.output;
  used = λ k low up. elim (ℕ_discrete b k) [
    | yes e ↦ subst (λ j. fd_block q j ≡ directory_block img) e placed.here
    | no ne ↦ placed.others k (λ e. ne (sym e)) ∙ s.used k low (omega arith)
  ];
  flags = λ k low up side.
      ap (λ (c : FdBlock). c.flags) (placed.others k (λ e. ground (arith, side)))
      ∙ s.flags k low up (ground (arith, side));
  ops = λ k low up side.
      ap (λ (c : FdBlock). c.file_operations_pointer) (placed.others k (λ e. ground (arith, side)))
      ∙ s.ops k low up (ground (arith, side));
}

-- The count of entries, as a signed number.
count-signed : (n : ℕ) → n < 2 ^ 31 → to_i32 n ≡ pos n
count-signed n h = ground arith

pub directory_block-flags :
    (img : Image)
    → img.boot.num_dir_entries < 2 ^ 31
    → (directory_block img).flags ≡ pos img.boot.num_dir_entries
directory_block-flags img h = count-signed img.boot.num_dir_entries h

module _ (img : Image) (b : ℕ) (p : Processes) (l : 2 ≤ b) (s : Between img 2 b p)
    (signed : img.boot.num_dir_entries < 2 ^ 31) where
  is_used : (k : ℕ) → 2 ≤ k → k < b → is_unused (fd_block p k) ≡ false
  is_used k low up =
      ap is_unused (s.used k low up)
      ∙ ap (λ f. eqb_ℤ f minus_one) (directory_block-flags img signed)

  is_free : b < 8 → is_unused (fd_block p b) ≡ true
  is_free h = rw (s.flags b l h (inr (omega arith))) refl

  lowest-eq : (k : ℕ) → b < 8 → IsLowest 6 2 (current_table p) k → k ≡ b
  lowest-eq k h low = elim (dec_lt b k) [
    | yes above ↦ absurd (cc (is_free h, low.first b l above))
    | no not_above ↦ elim (dec_lt k b) [
      | yes below ↦ absurd (cc (is_used k low.lower below, low.unused))
      | no not_below ↦ omega arith
    ]
  ]

module _ (img : Image) (d : DirEntry) (hit : read_dentry_by_name img (bytes ".") ≡ some d)
    (signed : img.boot.num_dir_entries < 2 ^ 31) where
  pub open_next :
      (b : ℕ) (p : Processes)
      → 2 ≤ b
      → b < 8
      → Between img 2 b p
      → (q : Processes) × (directory_open img (bytes ".") p ≡ (q, pos b)) × Between img 2 (b + 1) q
  open_next b p l h s = elim (directory_open_lem img (bytes ".") d p s.well_formed hit) [
    | inl (k, ret, low, placed) ↦
        let here : k ≡ b = lowest-eq img b p l s signed k h low in
        let q = (directory_open img (bytes ".") p).0 in
        (
          q,
          ap (λ (r : ℤ). (q, r)) (ret ∙ ap pos here),
          Placed-Between img b p q l h s
              (subst (λ j. Placed p j (directory_block img) q) here placed),
        )
    | inr (all, ret, same) ↦ absurd (cc (is_free img b p l s signed h, all b l h))
  ]

  pub open_full :
      (p : Processes) → Between img 2 8 p → directory_open img (bytes ".") p ≡ (p, minus_one)
  open_full p s = elim (directory_open_lem img (bytes ".") d p s.well_formed hit) [
    | inl (k, ret, low, placed) ↦
        absurd (cc (is_used img 8 p (omega arith) s signed k low.lower low.upper, low.unused))
    | inr (all, ret, same) ↦ λ i. (same i, ret i)
  ]

-- `directory_close` of the lowest open descriptor.
pub close_next :
    (img : Image) (a : ℕ) (p : Processes)
    → 2 ≤ a
    → a < 8
    → Between img a 8 p
    → img.boot.num_dir_entries < 2 ^ 31
    → (q : Processes) × (directory_close (pos a) p ≡ (q, pos 0)) × Between img (a + 1) 8 q
unfolding directory_close
close_next img a p l h s signed =
    let w = s.well_formed in
    let q = modify_fd p a clear_fd in
    let good : bad_fd (pos a) ≡ false = ground arith in
    let here : fd_block q a ≡ clear_fd (fd_block p a) = fd_block-modify_fd_self p w a clear_fd h in
    let in_use : eqb_ℤ (fd_block p a).flags minus_one ≡ false =
      ap is_unused (s.used a (omega arith) h)
      ∙ ap (λ f. eqb_ℤ f minus_one) (directory_block-flags img signed) in
    let others = λ (j : ℕ) (ne : a ≢ j). fd_block-modify_fd_ne p w a j clear_fd ne in
    (
      q,
      rw (good, in_use) refl,
      record {
        well_formed = modify_fd-WellFormed p w a clear_fd;
        input = others 0 (λ e. omega arith) ∙ s.input;
        output = others 1 (λ e. omega arith) ∙ s.output;
        used = λ k low up. others k (λ e. omega arith) ∙ s.used k (omega arith) up;
        flags = λ k low up side. elim (ℕ_discrete a k) [
          | yes e ↦
              subst (λ j. (fd_block q j).flags ≡ minus_one) e (ap (λ (c : FdBlock). c.flags) here)
          | no ne ↦
              ap (λ (c : FdBlock). c.flags) (others k ne)
              ∙ s.flags k low up (inl (ground (arith, side)))
        ];
        ops = λ k low up side. elim (ℕ_discrete a k) [
          | yes e ↦
              subst (λ j. (fd_block q j).file_operations_pointer ≡ null) e
                (ap (λ (c : FdBlock). c.file_operations_pointer) here)
          | no ne ↦
              ap (λ (c : FdBlock). c.file_operations_pointer) (others k ne)
              ∙ s.ops k low up (inl (ground (arith, side)))
        ];
      },
    )
