-- ===== src/Examples/Data.antt =====
-- Test data: a process table with one process beside the sentinel (student-distrib/process_control.c),
-- and a file system image with a directory, a file and an unused entry
-- (student-distrib/filesystem_driver.c).
use ece391linux_os.Prelude.{
  length, get_or, replicate, length-replicate, get_or-replicate, ℕ, zero, suc, ◌-◌, ◌≤◌, ◌<◌, ◌≡◌,
  refl, ap, ◌≢◌, ◌⊎◌, inl, inr, some, List, [], ◌∷◌, ◌++◌, arith,
}
use ece391linux_os.Prelude.Int.{ℤ, pos, minus_one}
use ece391linux_os.Console.{blank, Screen}
use ece391linux_os.Filesystem.{DirEntry, Image, find_entry, read_dentry_by_name}
use ece391linux_os.History.{History}
use ece391linux_os.History.Recall.{IsTyped}
use ece391linux_os.Line.{Line}
use ece391linux_os.Line.Editing.{IsLine}
use ece391linux_os.Process.{
  null, file, dir, FdBlock, Pcb, Processes, block, stdin_block, stdout_block,
}
use ece391linux_os.Process.Count.{count_live}
use ece391linux_os.Process.Invariant.{IsShaped, WellFormed}
use ece391linux_os.Text.{strlen, strncmp}

abbrev unused : FdBlock
unused = record {
  file_operations_pointer = null;
  inode = minus_one;
  file_position = 0;
  flags = minus_one;
}

-- A block whose descriptor 2 is `b`.
abbrev pub slot : ℤ → FdBlock → Pcb
slot pid b = record {
  fd_table = stdin_block ∷ stdout_block ∷ b ∷ unused ∷ unused ∷ unused ∷ unused ∷ unused ∷ [];
  pid = pid;
  parent = 0;
  stack_pos = 0;
  ss = 24;
  esp = 8388604;
  args = replicate 1024 0;
}

abbrev pub table : FdBlock → Processes
table b = record {
  control_blocks =
      slot (pos 0) unused
      ∷ slot (pos 1) b
      ∷ slot minus_one unused
      ∷ slot minus_one unused
      ∷ slot minus_one unused
      ∷ slot minus_one unused
      ∷ slot minus_one unused
      ∷ [];
  num_active_processes = pos 1;
  current_pid = 1;
  past_pid = 0;
}

pub table-WellFormed : (b : FdBlock) → WellFormed (table b)
unfolding count_live
table-WellFormed b = record {
  blocks = refl;
  current = omega arith;
  sentinel = refl;
  counted = refl;
  shaped = shapes;
}
  where
    shape : (i : ℕ) (n : ℤ) (c : FdBlock) → (n ≡ minus_one) ⊎ (n ≡ pos i) → IsShaped i (slot n c)
    shape i n c e = record { fds = refl; args_size = length-replicate {A = ℕ} 1024 0; numbered = e }

    shapes : (i : ℕ) → i < 7 → IsShaped i (block (table b) i)
    shapes zero h = shape 0 _ _ (inr refl)
    shapes (suc zero) h = shape 1 _ _ (inr refl)
    shapes (suc (suc zero)) h = shape 2 _ _ (inl refl)
    shapes (suc (suc (suc zero))) h = shape 3 _ _ (inl refl)
    shapes (suc (suc (suc (suc zero)))) h = shape 4 _ _ (inl refl)
    shapes (suc (suc (suc (suc (suc zero))))) h = shape 5 _ _ (inl refl)
    shapes (suc (suc (suc (suc (suc (suc zero)))))) h = shape 6 _ _ (inl refl)
    shapes (suc (suc (suc (suc (suc (suc (suc i))))))) h = absurd (omega arith)

abbrev pub idle : Processes
idle = table unused

abbrev entry : List ℕ → ℕ → ℕ → DirEntry
entry name kind inode = record {
  filename = name ++ replicate (32 - length name) 0;
  file_type = kind;
  inode_num = inode;
  reserved = [];
}

-- "." and "ab"; between them an entry that is not in use.
abbrev pub dot : DirEntry
dot = entry (46 ∷ []) 1 0

abbrev pub file_ab : DirEntry
file_ab = entry (97 ∷ 98 ∷ []) 2 5

abbrev pub image : Image
image = record {
  boot = record {
    num_dir_entries = 2;
    inodes = 64;
    data_blocks = 2;
    dir_entries = dot ∷ entry [] 0 0 ∷ file_ab ∷ [];
  };
  node_list =
      replicate 5 (record { b_length = 0; data_blocks = [] })
      ++ (record { b_length = 3; data_blocks = 1 ∷ [] } ∷ []);
  data_list = [] ∷ (104 ∷ 101 ∷ 121 ∷ []) ∷ [];
}

-- An open file with this inode at this position, and a directory with `n` entries left.
abbrev pub opened_file : ℕ → FdBlock
opened_file position = record {
  file_operations_pointer = file;
  inode = pos 5;
  file_position = position;
  flags = pos 1;
}

abbrev pub opened_directory : ℕ → ℕ → FdBlock
opened_directory position n = record {
  file_operations_pointer = dir;
  inode = pos 0;
  file_position = position;
  flags = pos n;
}

pub idle-WellFormed : WellFormed idle
idle-WellFormed = table-WellFormed unused

-- An empty page with the cursor in its last row.
abbrev pub page : Screen
page = record {
  video = replicate 2000 blank;
  screen_x = pos 3;
  screen_y = pos 24;
  key_flag = 0;
  ports = [];
}

-- The line "ab" with the cursor behind the first character.
abbrev pub line_ab : Line
line_ab = record { chars = 97 ∷ 98 ∷ replicate 126 0; idx = 1; size = 2 }

abbrev pub no_history : History
no_history = record { rows = replicate 20 (replicate 128 0); idx = 0; base = 0; size = 0 }

pub line_ab-IsLine : IsLine line_ab
line_ab-IsLine = record {
  cells = ap (λ n. suc (suc n)) (length-replicate {A = ℕ} 126 0);
  cursor = omega arith;
  room = omega arith;
  zeros = zeros;
}
  where
    zeros : (k : ℕ) → 2 ≤ k → get_or line_ab.chars k 0 ≡ 0
    zeros zero h = absurd (omega arith)
    zeros (suc zero) h = absurd (omega arith)
    zeros (suc (suc k)) h = get_or-replicate {A = ℕ} 126 k 0

pub line_ab-IsTyped : IsTyped line_ab
line_ab-IsTyped = record { line = line_ab-IsLine; no_nul = no_nul; no_feed = no_feed }
  where
    no_nul : (k : ℕ) → k < 2 → get_or line_ab.chars k 0 ≢ 0
    no_nul zero h = λ e. absurd (omega (arith, e))
    no_nul (suc zero) h = λ e. absurd (omega (arith, e))
    no_nul (suc (suc k)) h = absurd (omega arith)

    no_feed : (k : ℕ) → k < 2 → get_or line_ab.chars k 0 ≢ b'\n'
    no_feed zero h = λ e. absurd (omega (arith, e))
    no_feed (suc zero) h = λ e. absurd (omega (arith, e))
    no_feed (suc (suc k)) h = absurd (omega arith)

abbrev pub name_ab : List ℕ
name_ab = 97 ∷ 98 ∷ 0 ∷ []

pub lookup_ab : read_dentry_by_name image name_ab ≡ some file_ab
unfolding read_dentry_by_name find_entry strlen strncmp
lookup_ab = refl
