-- ===== src/Syscalls.antt =====
-- The system calls of student-distrib/syscalls.c that work on descriptors and arguments, with
-- `keyboard_close` of student-distrib/keyboard.c, and `terminal_close` and `terminal_read_fail` of
-- student-distrib/terminal.c. A pointer that may be NULL is an option.
pub mod Arguments
pub mod Descriptors
pub mod Keeps
pub mod Reads
use ece391linux_os.Prelude.{
  set, modify, ltb, ◌==◌, if◌then◌else◌, ℕ, Bool, not, ◌&&◌, ◌||◌, Option, none, some, List, [],
}
use ece391linux_os.Prelude.Int.{ℤ, pos, pos_part, ltb_ℤ, eqb_ℤ, minus_one, to_u32}
use ece391linux_os.Console.{Screen, terminal_write}
use ece391linux_os.Filesystem.{
  DirEntry, Image, read_dentry_by_name, fd_block, modify_fd, file_open, directory_open, bad_fd,
  file_close, directory_close, file_write, directory_write,
}
use ece391linux_os.Filesystem.Listing.{directory_read}
use ece391linux_os.Filesystem.Reading.{Outcome, file_read}
use ece391linux_os.Process.{
  null, file, dir, stdin, stdout, rtc, Processes, block, modify_block, clear_fd, clear_args,
}
use ece391linux_os.Rtc.{Clock, rtc_open, rtc_close, rtc_write}
use ece391linux_os.Text.{strlen, strncpy}

-- The state that the calls work on; `current_terminal` is the displayed one.
pub record Machine : Type 0 where
  pub image : Image
  pub processes : Processes
  pub screen : Screen
  pub clock : Clock
  pub current_terminal : ℕ

-- The numbers that the dispatcher sends back: a signed test against 1, an unsigned one against 10.
abbrev pub is_refused : ℤ → Bool
is_refused num = ltb_ℤ num (pos 1) || ltb 10 (to_u32 num)

-- How a read ends: with a result, or waiting in `terminal_read` or `rtc_read`, which return after
-- an interrupt, or never, in the loop of `directory_read`.
pub data Reading : Type 0 where
  returned : Outcome → Reading
  waits : Reading
  endless : Reading

-- `fd < 0 || fd >= FDT_SIZE`, an unused descriptor, or one without operations.
abbrev pub not_usable : ℤ → Processes → Bool
not_usable fd p =
    (ltb_ℤ fd (pos 0) || not (ltb_ℤ fd (pos 8))) || eqb_ℤ (fd_block p (pos_part fd)).flags minus_one

-- `dentry` is the local variable of `directory_read` before its first use.
unfoldable pub read : ℤ → Option (List ℕ) → ℤ → DirEntry → Machine → Reading
read fd none nbytes dentry m = returned (record { state = m.processes; buf = []; ret = minus_one })
read fd (some buf) nbytes dentry m =
    let p = m.processes in
    let fails = returned (record { state = p; buf = buf; ret = minus_one }) in
    let i = pos_part fd in
    if not_usable fd p then fails else elim (fd_block p i).file_operations_pointer [
      | null ↦ fails
      | file ↦ returned (file_read m.image i buf nbytes p)
      | dir ↦ elim (directory_read m.image i buf nbytes dentry p) [
        | none ↦ endless
        | some out ↦ returned out
      ]
      | stdin ↦ waits
      | stdout ↦ fails
      | rtc ↦ waits
    ]

-- `passed_rate` is what `rtc_write` copies from the buffer.
unfoldable pub write : ℤ → Option (List ℕ) → ℤ → ℤ → Machine → Machine × ℤ
write fd none nbytes passed_rate m = (m, minus_one)
write fd (some buf) nbytes passed_rate m =
    if not_usable fd m.processes
    then (m, minus_one)
    else elim (fd_block m.processes (pos_part fd)).file_operations_pointer [
      | null ↦ (m, minus_one)
      | file ↦ (m, file_write fd buf nbytes)
      | dir ↦ (m, directory_write fd buf nbytes)
      | stdin ↦ (m, minus_one)
      | stdout ↦ let (s, ret) = terminal_write buf nbytes m.screen in (record m { screen = s }, ret)
      | rtc ↦ let (c, ret) = rtc_write passed_rate m.clock in (record m { clock = c }, ret)
    ]

-- `garbage` and `unset` are what the position of a clock descriptor and `ret` hold where the code
-- sets neither.
unfoldable pub open_file : ℕ → ℤ → Option (List ℕ) → Machine → Machine × ℤ
open_file garbage unset none m = (m, minus_one)
open_file garbage unset (some fname) m = elim (read_dentry_by_name m.image fname) [
  | none ↦ (m, minus_one)
  | some dentry ↦
      let clock = rtc_open garbage m.processes m.clock in
      let directory = directory_open m.image fname m.processes in
      let regular = file_open m.image fname m.processes in
      if dentry.file_type == 0
      then (record m { processes = clock.0; clock = clock.1 }, clock.2)
      else (if dentry.file_type == 1
          then (record m { processes = directory.0 }, directory.1)
          else (if dentry.file_type == 2
              then (record m { processes = regular.0 }, regular.1)
              else (m, unset)))
]

-- The code indexes the process table by the terminal's number here.
unfoldable pub keyboard_close : ℕ → Processes → Processes × ℤ
keyboard_close terminal p =
    (modify_block p terminal (λ b. record b { fd_table = modify b.fd_table 0 clear_fd }), pos 0)

unfoldable pub terminal_close : Processes → Processes × ℤ
terminal_close p = (modify_fd p 1 clear_fd, pos 0)

unfoldable pub close : ℤ → Machine → Machine × ℤ
close fd m =
    let p = m.processes in
    let closed : Processes × ℤ = elim (fd_block p (pos_part fd)).file_operations_pointer [
      | null ↦ (p, minus_one)
      | file ↦ file_close fd p
      | dir ↦ directory_close fd p
      | stdin ↦ keyboard_close m.current_terminal p
      | stdout ↦ terminal_close p
      | rtc ↦ rtc_close fd p
    ] in
    if bad_fd fd then (m, minus_one) else (record m { processes = closed.0 }, closed.1)

unfoldable pub getargs : Option (List ℕ) → ℤ → Processes → Processes × Option (List ℕ) × ℤ
getargs none nbytes p = (p, none, minus_one)
getargs (some buf) nbytes p =
    let args = (block p p.current_pid).args in
    let size = strlen args in
    if ltb_ℤ nbytes (pos 1)
    then (p, some buf, minus_one)
    else (if ltb_ℤ nbytes (pos size) || (size == 0)
        then (p, some buf, minus_one)
        else (clear_args p, some (set (strncpy buf args size) size 0), pos 0))

-- What is written to `screen_start`, if anything, and the value returned.
unfoldable pub vidmap : ℕ → Option ℕ × ℤ
vidmap screen_start =
    if screen_start == 0
    then (none, minus_one)
    else (if not (ltb screen_start 0x400000) && not (ltb 0x800000 screen_start)
        then (none, minus_one)
        else (some 0x8421000, pos 0))

unfoldable pub set_handler : ℤ → ℕ → ℤ
set_handler signum handler_address = minus_one

unfoldable pub sigreturn : ℤ
sigreturn = minus_one
