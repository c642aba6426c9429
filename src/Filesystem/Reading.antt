-- ===== src/Filesystem/Reading.antt =====
-- Reading a file: `read_data` and `file_read` of student-distrib/filesystem_driver.c.
-- What a read leaves: the tables, the buffer, and the value returned.
use ece391linux_os.Prelude.{
  length, get_or, set, ltb, ◌==◌, if◌then◌else◌, ℕ, zero, suc, ◌+◌, ◌/◌, ◌%◌, ◌^◌, not, List,
}
use ece391linux_os.Prelude.Int.{ℤ, pos, minus_one, to_u32}
use ece391linux_os.Filesystem.{
  file_size, Image, no_node, fd_block, modify_fd, advance, data_byte, data_block_of,
}
use ece391linux_os.Line.{left}
use ece391linux_os.Process.{Processes}

pub record Outcome : Type 0 where
  pub state : Processes
  pub buf : List ℕ
  pub ret : ℤ

-- The loop of `read_data`. Its first argument is `length - i`, which falls by one each round;
-- `curr` is the block that `data_pointer` points to.
module _ (img : Image) (fd inode num : ℕ) where
  unfoldable pub read_loop : ℕ → ℕ → ℕ → ℕ → ℕ → Processes → List ℕ → Outcome
  read_loop zero i j loop curr p buf = record {
    state = modify_fd p fd (advance i);
    buf = buf;
    ret = pos i;
  }
  read_loop (suc left) i j loop curr p buf =
      let buf' = set buf i (data_byte img curr j) in
      let same_block = read_loop left (i + 1) (j + 1) loop curr p buf' in
      let next_block =
        read_loop left (i + 1) 0 (loop + 1) (data_block_of img inode (loop + 1)) p buf' in
      if i == num
      then record { state = modify_fd p fd (advance i); buf = buf'; ret = pos i }
      else (if not (ltb (((fd_block p fd).file_position + i) % 2 ^ 32) num)
          then record { state = p; buf = buf; ret = pos 0 }
          else (if (j + 1) % file_size == 0 then next_block else same_block))

unfoldable pub read_data : Image → ℕ → ℕ → List ℕ → ℕ → Processes → Outcome
read_data img fd offset buf length p =
    let inode = to_u32 (fd_block p fd).inode in
    let num = (get_or img.node_list inode no_node).b_length in
    let loop = offset / file_size in
    if ltb img.boot.inodes inode
    then record { state = p; buf = buf; ret = minus_one }
    else (if num == 0
        then record { state = p; buf = buf; ret = pos 0 }
        else (if ltb num (fd_block p fd).file_position
            then record { state = p; buf = buf; ret = pos 0 }
            else (read_loop img fd inode num length 0 (offset % file_size) loop
                (data_block_of img inode loop) p buf)))

unfoldable pub file_read : Image → ℕ → List ℕ → ℤ → Processes → Outcome
file_read img fd buf nbytes p = read_data img fd (fd_block p fd).file_position buf (to_u32 nbytes) p
