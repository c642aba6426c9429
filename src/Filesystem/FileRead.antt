-- ===== src/Filesystem/FileRead.antt =====
-- `file_read` and `read_data` of student-distrib/filesystem_driver.c against the file's contents.
use ece391linux_os.Prelude.{
  length, get_or, set, ltb, ◌==◌, ℕ, zero, suc, ◌+◌, ◌-◌, ◌/◌, ◌%◌, ◌^◌, ◌≤◌, ◌<◌, ◌≡◌, refl, sym,
  ap, ◌∙◌, ◌≢◌, false, List, arith,
}
use ece391linux_os.Prelude.Int.{pos, to_u32}
use ece391linux_os.Filesystem.{Image, no_node, fd_block, modify_fd, advance}
use ece391linux_os.Filesystem.Fill.{file_byte, fill, length-fill, get_or-fill_above, get_or-fill_in}
use ece391linux_os.Filesystem.ReadLoop.{read_loop-within, read_loop-whole, read_loop-tail}
use ece391linux_os.Filesystem.Reading.{read_loop, read_data, file_read}
use ece391linux_os.Filesystem.Table.{fd_block-modify_fd_self, fd_block-modify_fd_ne}
use ece391linux_os.Process.{FdBlock, Processes}
use ece391linux_os.Process.Invariant.{WellFormed}

-- What `file_read` does at a descriptor whose inode is in range, at its own position: `q` is the
-- state after it, `out` the buffer, `ret` the value.
module _ (img : Image) (fd len : ℕ) (buf : List ℕ) (p : Processes) where
  abbrev pub inode_of : ℕ
  inode_of = to_u32 (fd_block p fd).inode

  abbrev pub size_of : ℕ
  size_of = (get_or img.node_list inode_of no_node).b_length

  abbrev pub position_of : ℕ
  position_of = (fd_block p fd).file_position

  -- A read that ends within the file copies exactly the bytes asked for from the position on,
  -- advances the position by their number, and returns it.
  pub file_read-within :
      inode_of ≤ img.boot.inodes
      → size_of < 2 ^ 32
      → 0 < size_of
      → position_of + len ≤ size_of
      → file_read img fd buf (pos len) p ≡ record {
        state = modify_fd p fd (advance len);
        buf = fill img inode_of position_of len 0 buf;
        ret = pos len;
      }
  unfolding file_read read_data
  file_read-within hi hs hz h =
      let known : ltb img.boot.inodes inode_of ≡ false = ground arith in
      let some_data : (size_of == 0) ≡ false = ground arith in
      let inside : ltb size_of position_of ≡ false = ground arith in
      rw (known, some_data, inside)
        (read_loop-within img fd inode_of size_of p hs len 0 (position_of % 4096)
          (position_of / 4096) _ len buf
          (record { offset = omega arith; number = omega arith; pointer = refl }) (omega arith) h)

  -- With an inode in range and a file that is not empty and shorter than 2 ^ 32 bytes, a read from
  -- the start for more than the file holds copies the whole file and one byte more, and returns the
  -- file's size.
  pub file_read-whole :
      inode_of ≤ img.boot.inodes
      → size_of < 2 ^ 32
      → 0 < size_of
      → position_of ≡ 0
      → size_of < len
      → file_read img fd buf (pos len) p ≡ record {
        state = modify_fd p fd (advance size_of);
        buf =
            set
              (fill img inode_of position_of size_of 0 buf)
              size_of
              (file_byte img inode_of size_of);
        ret = pos size_of;
      }
  unfolding file_read read_data
  file_read-whole hi hs hz z h =
      let known : ltb img.boot.inodes inode_of ≡ false = ground arith in
      let some_data : (size_of == 0) ≡ false = ground arith in
      let inside : ltb size_of position_of ≡ false = ground arith in
      rw (known, some_data, inside)
        (read_loop-whole img fd inode_of size_of p hs size_of len 0 (position_of % 4096)
          (position_of / 4096) _ buf z
          (record { offset = omega arith; number = omega arith; pointer = refl }) (omega arith) h)

  -- A read from further on for more than is left, or behind the end, returns 0 and advances
  -- nothing, though bytes are left.
  pub file_read-tail :
      inode_of ≤ img.boot.inodes
      → size_of < 2 ^ 32
      → 0 < position_of
      → position_of ≤ size_of
      → size_of < position_of + len
      → file_read img fd buf (pos len) p ≡ record {
        state = p;
        buf = fill img inode_of position_of (size_of - position_of) 0 buf;
        ret = pos 0;
      }
  unfolding file_read read_data
  file_read-tail hi hs hz z h =
      let known : ltb img.boot.inodes inode_of ≡ false = ground arith in
      let some_data : (size_of == 0) ≡ false = ground arith in
      let inside : ltb size_of position_of ≡ false = ground arith in
      rw (known, some_data, inside)
        (read_loop-tail img fd inode_of size_of p hs (size_of - position_of) len 0
          (position_of % 4096) (position_of / 4096) _ buf hz
          (record { offset = omega arith; number = omega arith; pointer = refl }) (omega arith)
          (omega arith))

-- In a well-formed process table, a read on a descriptor below 8 whose inode is in range, of a file
-- that is not empty and shorter than 2 ^ 32 bytes, that ends within the file and fits the buffer,
-- returns its length; the buffer then holds the file's bytes from the position on and is as before
-- behind them; the position has moved by the length, and no other descriptor has changed.
pub file_read-copies :
    (img : Image) (fd len : ℕ) (buf : List ℕ) (p : Processes)
    → WellFormed p
    → fd < 8
    → inode_of img fd len buf p ≤ img.boot.inodes
    → size_of img fd len buf p < 2 ^ 32
    → 0 < size_of img fd len buf p
    → position_of img fd len buf p + len ≤ size_of img fd len buf p
    → len ≤ length buf
    → let out = file_read img fd buf (pos len) p in
      (out.ret ≡ pos len)
      × (length out.buf ≡ length buf)
      × ((k : ℕ)
          → k < len
          → get_or out.buf k 0
            ≡ file_byte img (inode_of img fd len buf p) (position_of img fd len buf p + k))
      × ((k : ℕ) → len ≤ k → get_or out.buf k 0 ≡ get_or buf k 0)
      × ((fd_block out.state fd).file_position ≡ position_of img fd len buf p + len)
      × ((j : ℕ) → j ≢ fd → fd_block out.state j ≡ fd_block p j)
file_read-copies img fd len buf p w small hi hs hz h room =
    let inode = inode_of img fd len buf p in
    let at = position_of img fd len buf p in
    rw (file_read-within img fd len buf p hi hs hz h) (
      refl,
      length-fill img inode at len 0 buf,
      λ k l. get_or-fill_in img inode at len 0 k buf (omega arith) (omega arith) (omega arith),
      λ k l. get_or-fill_above img inode at len 0 k buf (omega arith),
      ap (λ (b : FdBlock). b.file_position) (fd_block-modify_fd_self p w fd (advance len) small)
          ∙ omega arith,
      λ j ne. fd_block-modify_fd_ne p w fd j (advance len) (λ e. ne (sym e)),
    )

-- With an inode in range and a file shorter than 2 ^ 32 bytes: once the position is past the start,
-- a read for more than is left returns 0, the value for the end of the file, and leaves the
-- position: the bytes between the position and the end are never returned by such reads.
pub file_read-loses_tail :
    (img : Image) (fd len : ℕ) (buf : List ℕ) (p : Processes)
    → inode_of img fd len buf p ≤ img.boot.inodes
    → size_of img fd len buf p < 2 ^ 32
    → 0 < position_of img fd len buf p
    → position_of img fd len buf p < size_of img fd len buf p
    → size_of img fd len buf p < position_of img fd len buf p + len
    → ((file_read img fd buf (pos len) p).ret ≡ pos 0)
      × ((file_read img fd buf (pos len) p).state ≡ p)
file_read-loses_tail img fd len buf p hi hs hz lt over =
    rw (file_read-tail img fd len buf p hi hs hz (omega arith) over) (refl, refl)

-- With an inode in range, and a file and a position past 0 below 2 ^ 32: a read at or behind the
-- end returns 0 and changes neither state nor buffer, for any length that is not 0.
pub file_read-at_end :
    (img : Image) (fd len : ℕ) (buf : List ℕ) (p : Processes)
    → inode_of img fd len buf p ≤ img.boot.inodes
    → size_of img fd len buf p < 2 ^ 32
    → 0 < position_of img fd len buf p
    → position_of img fd len buf p < 2 ^ 32
    → size_of img fd len buf p ≤ position_of img fd len buf p
    → 0 < len
    → file_read img fd buf (pos len) p ≡ record { state = p; buf = buf; ret = pos 0 }
unfolding file_read read_data read_loop
file_read-at_end img fd (suc len) buf p hi hs hz hp lt pz = ground arith
file_read-at_end img fd zero buf p hi hs hz hp lt pz = absurd (omega arith)
