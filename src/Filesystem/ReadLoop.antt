-- ===== src/Filesystem/ReadLoop.antt =====
-- The loop of `read_data` (student-distrib/filesystem_driver.c): what it returns in each case.
use ece391linux_os.Prelude.{
  set, ltb, ◌==◌, Bool-cases, ℕ, zero, suc, ◌+◌, ◌/◌, ◌%◌, ◌^◌, ◌≤◌, ◌<◌, ◌≡◌, refl, ◌≢◌, inl, inr,
  true, false, List, arith,
}
use ece391linux_os.Prelude.Int.{pos}
use ece391linux_os.Filesystem.{Image, fd_block, modify_fd, advance, data_byte, data_block_of}
use ece391linux_os.Filesystem.Fill.{file_byte, fill}
use ece391linux_os.Filesystem.Reading.{Outcome, read_loop}
use ece391linux_os.Line.{left}
use ece391linux_os.Process.{Processes}

-- Where the loop of `read_data` stands after `i` bytes.
pub record Stands (img : Image) (inode at j loop curr : ℕ) : Type 0 where
  pub offset : j ≡ at % 4096
  pub number : loop ≡ at / 4096
  pub pointer : curr ≡ data_block_of img inode loop

Stands-byte :
    (img : Image) (inode at j loop curr : ℕ)
    → Stands img inode at j loop curr
    → data_byte img curr j ≡ file_byte img inode at
Stands-byte img inode at j loop curr s = rw (s.pointer, s.number, s.offset)

Stands-next :
    (img : Image) (inode from i j loop curr : ℕ)
    → Stands img inode (from + i) j loop curr
    → (j + 1) % 4096 ≡ 0
    → Stands img inode (from + (i + 1)) 0 (loop + 1) (data_block_of img inode (loop + 1))
Stands-next img inode from i j loop curr s e = record {
  offset = omega (arith, s.offset);
  number = omega (arith, s.offset, s.number);
  pointer = refl;
}

Stands-same :
    (img : Image) (inode from i j loop curr : ℕ)
    → Stands img inode (from + i) j loop curr
    → (j + 1) % 4096 ≢ 0
    → Stands img inode (from + (i + 1)) (j + 1) loop curr
Stands-same img inode from i j loop curr s ne = record {
  offset = omega (arith, s.offset);
  number = omega (arith, s.offset, s.number);
  pointer = s.pointer;
}

module _ (img : Image) (fd inode num : ℕ) (p : Processes) (small : num < 2 ^ 32) where
  abbrev pub from : ℕ
  from = (fd_block p fd).file_position

  -- One round that copies a byte.
  read_loop-round :
      (left i j loop curr : ℕ) (buf : List ℕ) (r : Outcome)
      → Stands img inode (from + i) j loop curr
      → i ≢ num
      → from + i < num
      → ((j' loop' curr' : ℕ)
          → Stands img inode (from + (i + 1)) j' loop' curr'
          → read_loop img fd inode num left
              (i + 1)
              j'
              loop'
              curr'
              p
              (set buf i (file_byte img inode (from + i)))
            ≡ r)
      → read_loop img fd inode num (suc left) i j loop curr p buf ≡ r
  unfolding read_loop
  read_loop-round left i j loop curr buf r s ne lt rest =
      let more : (i == num) ≡ false = ground arith in
      let inside : ltb ((from + i) % 2 ^ 32) num ≡ true = ground arith in
      elim (Bool-cases ((j + 1) % 4096 == 0)) [
        | inl e ↦
            rw (more, inside, e, Stands-byte img inode (from + i) j loop curr s)
              (rest 0 (loop + 1) (data_block_of img inode (loop + 1))
                (Stands-next img inode from i j loop curr s (ground arith)))
        | inr e ↦
            rw (more, inside, e, Stands-byte img inode (from + i) j loop curr s)
              (rest (j + 1) loop curr (Stands-same img inode from i j loop curr s (ground arith)))
      ]

  -- A read that stays within the file copies all that was asked for.
  pub read_loop-within :
      (left i j loop curr n : ℕ) (buf : List ℕ)
      → Stands img inode (from + i) j loop curr
      → i + left ≡ n
      → from + n ≤ num
      → read_loop img fd inode num left i j loop curr p buf ≡ record {
        state = modify_fd p fd (advance n);
        buf = fill img inode from left i buf;
        ret = pos n;
      }
  unfolding fill
  read_loop-within zero i j loop curr n buf s e h =
      let z : i ≡ n = omega arith in unfold read_loop in rw z
  read_loop-within (suc left) i j loop curr n buf s e h =
      read_loop-round left i j loop curr buf _ s (omega arith) (omega arith)
        λ j' loop' curr' s'. read_loop-within left (i + 1) j' loop' curr' n _ s' (omega arith) h

  -- A read from the start that asks for more than the file holds stops at its length, one byte late.
  pub read_loop-whole :
      (m left i j loop curr : ℕ) (buf : List ℕ)
      → from ≡ 0
      → Stands img inode (from + i) j loop curr
      → i + m ≡ num
      → m < left
      → read_loop img fd inode num left i j loop curr p buf ≡ record {
        state = modify_fd p fd (advance num);
        buf = set (fill img inode from m i buf) num (file_byte img inode num);
        ret = pos num;
      }
  unfolding fill
  read_loop-whole m zero i j loop curr buf z s e h = absurd (omega arith)
  read_loop-whole zero (suc left) i j loop curr buf z s e h =
      let stop : i ≡ num = omega arith in
      let hit : (i == num) ≡ true = ground arith in
      let here : from + i ≡ num = omega arith in
      unfold read_loop in rw (hit, Stands-byte img inode (from + i) j loop curr s, here, stop)
  read_loop-whole (suc m) (suc left) i j loop curr buf z s e h =
      read_loop-round left i j loop curr buf _ s (omega arith) (omega arith) λ j' loop' curr' s'.
        read_loop-whole m left (i + 1) j' loop' curr' _ z s' (omega arith) (omega arith)

  -- A read from further on that asks for more than is left returns 0 and does not advance.
  pub read_loop-tail :
      (m left i j loop curr : ℕ) (buf : List ℕ)
      → 0 < from
      → Stands img inode (from + i) j loop curr
      → from + i + m ≡ num
      → m < left
      → read_loop img fd inode num left i j loop curr p buf
        ≡ record { state = p; buf = fill img inode from m i buf; ret = pos 0 }
  unfolding fill
  read_loop-tail m zero i j loop curr buf z s e h = absurd (omega arith)
  read_loop-tail zero (suc left) i j loop curr buf z s e h =
      let miss : (i == num) ≡ false = ground arith in
      let over : ltb ((from + i) % 2 ^ 32) num ≡ false = ground arith in
      unfold read_loop in rw (miss, over)
  read_loop-tail (suc m) (suc left) i j loop curr buf z s e h =
      read_loop-round left i j loop curr buf _ s (omega arith) (omega arith) λ j' loop' curr' s'.
        read_loop-tail m left (i + 1) j' loop' curr' _ z s' (omega arith) (omega arith)
