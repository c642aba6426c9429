-- ===== src/User/Kernel/Cat/Chunks.antt =====
-- The reads of a file by `cat` (syscalls/ece391cat.c), 1024 bytes at a time.
use ece391linux_os.Prelude.{get_or, set, ℕ, ◌+◌, ◌^◌, ◌≤◌, ◌<◌, ◌≡◌, refl, ap₂, ◌∙◌, List, arith}
use ece391linux_os.Prelude.Int.{ℤ, pos, to_u32}
use ece391linux_os.Filesystem.{Image, no_node, fd_block, modify_fd, advance}
use ece391linux_os.Filesystem.FileRead.{file_read-within, file_read-whole, file_read-tail}
use ece391linux_os.Filesystem.Fill.{file_byte, fill}
use ece391linux_os.Filesystem.Reading.{Outcome, file_read}
use ece391linux_os.Process.{Processes}
use ece391linux_os.User.Kernel.Cat.{Reads}

abbrev pub outcome : Processes → List ℕ → ℤ → Outcome
outcome p out ret = record { state = p; buf = out; ret = ret }

module _ (img : Image) (inode fd size : ℕ) (known : inode ≤ img.boot.inodes)
    (sized : (get_or img.node_list inode no_node).b_length ≡ size) (not_empty : 0 < size)
    (small : size + 1024 < 2 ^ 32) where
  module _ (at : ℕ) (buf : List ℕ) (p : Processes) (r : Reads inode fd at p) where
    known_here : to_u32 (fd_block p fd).inode ≤ img.boot.inodes
    known_here = rw r.here known

    size_here : (get_or img.node_list (to_u32 (fd_block p fd).inode) no_node).b_length ≡ size
    size_here = rw r.here sized

    at_here : (fd_block p fd).file_position ≡ at
    at_here = rw r.here refl

    inode_here : to_u32 (fd_block p fd).inode ≡ inode
    inode_here = rw r.here refl

    pub read_chunk :
        at + 1024 ≤ size
        → file_read img fd buf (pos 1024) p ≡ record {
          state = modify_fd p fd (advance 1024);
          buf = fill img inode at 1024 0 buf;
          ret = pos 1024;
        }
    read_chunk h =
        file_read-within img fd 1024 buf p known_here (omega (arith, size_here))
          (omega (arith, size_here)) (omega (arith, size_here, at_here))
        ∙ ap₂
            (λ (i a : ℕ).
              outcome (modify_fd p fd (advance 1024)) (fill img i a 1024 0 buf) (pos 1024))
            inode_here at_here

    -- Behind the last whole chunk nothing more is read.
    pub read_end :
        0 < at
        → at ≤ size
        → size < at + 1024
        → (out : List ℕ) × (file_read img fd buf (pos 1024) p
            ≡ record { state = p; buf = out; ret = pos 0 })
    read_end z h over = (
      _,
      file_read-tail img fd 1024 buf p known_here (omega (arith, size_here))
          (omega (arith, at_here)) (omega (arith, size_here, at_here))
          (omega (arith, size_here, at_here)),
    )

  pub read_short :
      (buf : List ℕ) (p : Processes)
      → Reads inode fd 0 p
      → size < 1024
      → file_read img fd buf (pos 1024) p
        ≡ outcome
            (modify_fd p fd (advance size))
            (set (fill img inode 0 size 0 buf) size (file_byte img inode size))
            (pos size)
  read_short buf p r short =
      file_read-whole img fd 1024 buf p (known_here 0 buf p r) (omega (arith, size_here 0 buf p r))
        (omega (arith, size_here 0 buf p r)) (at_here 0 buf p r)
        (omega (arith, size_here 0 buf p r))
      ∙ whole (inode_here 0 buf p r) (at_here 0 buf p r) (size_here 0 buf p r)
    where
      whole :
          {i a k : ℕ}
          → i ≡ inode
          → a ≡ 0
          → k ≡ size
          → outcome
              (modify_fd p fd (advance k))
              (set (fill img i a k 0 buf) k (file_byte img i k))
              (pos k)
            ≡ outcome
                (modify_fd p fd (advance size))
                (set (fill img inode 0 size 0 buf) size (file_byte img inode size))
                (pos size)
      whole e f g = λ t.
          outcome (modify_fd p fd (advance (g t)))
            (set (fill img (e t) (f t) (g t) 0 buf) (g t) (file_byte img (e t) (g t))) (pos (g t))
