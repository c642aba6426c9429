-- ===== src/Lib.antt =====
-- A small Unix-like kernel for x86 with three text terminals (student-distrib/): processes, a
-- read-only file system, a console with a line editor, and a round-robin scheduler.
--
-- The parts, their files, and how they fit together:
--
-- - Process: the process control blocks (student-distrib/process_control.c, `control_blocks`,
--   `current_pid`, `num_active_processes`). The global arrays and counters are one record,
--   `Processes`, which the operations take and return. `Process.Count` and `Process.Invariant` hold
--   the invariant, `Process.Create` the search for a free block.
-- - Text: the C strings of student-distrib/lib.c, as lists of bytes; the cells behind the end of a
--   list read as 0, so every list is a terminated string. The file system compares names with them.
-- - Filesystem: student-distrib/filesystem_driver.c, with `Filesystem.Reading` for `read_data` and
--   `Filesystem.Listing` for `directory_read`. The image is a record `Image` of a boot block,
--   inodes and data blocks; the descriptors are those of `Processes`. A pointer to a buffer is the
--   list of the bytes from it on; writing behind its end does nothing. `read_loop` counts the
--   rounds that `length` leaves, so it needs no fuel. `directory_loop`, a `while (1)`, runs on fuel
--   64 and gives none without it; each of its rounds that goes on advances the position, and the
--   loop stops behind entry 62, so 64 rounds are enough from any position up to 63. A negative
--   `nbytes` skips the loop's returns, and the model gives none.
-- - Console: the screen of student-distrib/lib.c and the writing part of
--   student-distrib/terminal.c. The video page is a list of 2000 cells; column and row are signed,
--   as in the source; the writes to the VGA and interrupt controller ports are kept in order.
-- - Line: the line that a terminal edits, in student-distrib/keyboard.c (`buffer`, `bufferIDX`,
--   `bufferSIZE` of one terminal).
-- - History: the ring of the lines that a process was sent, in student-distrib/keyboard.c. The
--   arrow keys replace the line by a row of the ring.
-- - Schedule: `schedule` and `deschedule` of student-distrib/syscalls.c and `timer_handler` of
--   student-distrib/interrupts.c. Its search for a busy terminal has no bound in the source; the
--   model takes a number of rounds as fuel and gives none when it runs out. Three rounds visit all
--   three terminals, so they are enough wherever one of them has a process, and no number is where
--   none has.
-- - Keyboard: what a key does to the displayed terminal, `handle_keyboard_input` of
--   student-distrib/keyboard.c with the translation tables of student-distrib/keyboard.h. It works
--   on the line, the history, the screen and the buffer that `terminal_read` waits for. Switching
--   the terminal is the last thing a key can do; the handler gives the number asked for.
-- - Rtc: the clock of student-distrib/rtc_driver.c. The search for a rate doubles from 2 and stops at
--   32768, so fifteen rounds are enough. `Interrupts.ClockRead` has the wait of `rtc_read` over the
--   events that happen meanwhile, given as a list.
-- - Syscalls: `read`, `write`, `open`, `close`, `getargs`, `vidmap` of student-distrib/syscalls.c,
--   which choose the driver's function by the descriptor. A read of the keyboard or the clock
--   waits for an interrupt and is only named.
-- - User: the programs of syscalls/ over their system calls as an interface, `Calls`, whose state is
--   a parameter. `User.Kernel` fills it with the calls of Syscalls; `User.Errors` states what it
--   asks of the calls as a record of laws, which the kernel's calls meet. The loops of the programs end
--   when a call says so, or never; they take a number of rounds as fuel, and give none, as a call
--   that does not come back does, when it runs out.
-- - Execute: `execute` and `halt` of student-distrib/syscalls.c over all of these parts, joined in
--   the record `System`. `Execute.Command` is about the command line, `Execute.Started` and
--   `Execute.Return` about a program's start and its end, and `Execute.Steps` has the calls and the
--   ticks of the timer as steps in any order. Where the code jumps to the program or back to the
--   parent, the model gives the state, the entry point and the stack pointer.
-- - Paging: the page directory and the page table, as `paging_init` of student-distrib/interrupts.c
--   and `execute` fill them.
-- - Memory: `memset`, `memcpy`, `memmove` of student-distrib/lib.c, instruction loop by instruction
--   loop, over memory as a function of the address.
-- - Numbers, Format: `itoa`, `strrev` and `printf` of student-distrib/lib.c. A number of 32 bits has
--   at most 32 digits in any base, which bounds the loop of `itoa`; the loop of `strrev` swaps at
--   most as often as the string is long.
-- - Terminal: the displayed terminal and its switch, `terminal_open`, `terminal_read`, the read
--   buffers and the hardware cursor of student-distrib/terminal.c. `terminal_read` is split at its
--   wait for the return key; the search for the newline has 128 rounds, the size of the buffer, and
--   gives none where it leaves it. The three read buffers stand one behind the other, so a write
--   behind one of them goes into the next; a write behind the last one is left out.
-- - Interrupts: the interrupt controllers of student-distrib/i8259.c, and the descriptor table and
--   the set-up of the devices of student-distrib/interrupts.c. Exceptions: the handlers of
--   student-distrib/exception-handlers.c.
-- - Prelude: lists, signed integers, tests and counted loops that the parts share.
-- - Examples: test data, and the theorems applied to it.
--
-- Machine integers: bytes and unsigned words are natural numbers with their wrap-around written
-- out; `int` values that stay far from their bounds are unbounded integers.
--
-- Not modelled: the boot code, the wrappers of the interrupts and system calls, and the changes of
-- stack and page directory (assembly); of the user programs sigtest, which needs signals; the fish
-- demo and the emulators; the kernel's own tests.
pub mod Prelude
pub mod Process
pub mod Text
pub mod Filesystem
pub mod Console
pub mod Paging
pub mod Rtc
pub mod Schedule
pub mod Line
pub mod History
pub mod Keyboard
pub mod Syscalls
pub mod Execute
pub mod Memory
pub mod Numbers
pub mod Format
pub mod Terminal
pub mod Interrupts
pub mod Exceptions
pub mod Examples
pub mod User
