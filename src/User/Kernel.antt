-- ===== src/User/Kernel.antt =====
-- The system calls of student-distrib/syscalls.c as the interface of the user programs. `dentry`,
-- `garbage` and `unset` are what the kernel's own stack holds where it reads a variable unset.
pub mod Output
pub mod Laws
pub mod Opening
pub mod Passes
pub mod Cat
pub mod Ls
use mathlib.Core.Option
use ece391linux_os.Syscalls
use ece391linux_os.Prelude.{if◌then◌else◌, ℕ, Option, none, some}
use ece391linux_os.Prelude.Int.{ℤ, pos, minus_one}
use ece391linux_os.Execute.{le32_at}
use ece391linux_os.Filesystem.{DirEntry}
use ece391linux_os.Memory.Fill.{filled}
use ece391linux_os.Syscalls.{
  Machine, is_refused, Reading, returned, waits, endless, read, write, open_file, close, getargs,
  vidmap,
}
use ece391linux_os.User.{Run, Filled, Calls}

-- A call of a number in range, with whatever the registers hold, is left out.
abbrev pub dispatch : ℤ → Run Machine ℤ
dispatch num m = if is_refused num then some (m, minus_one) else none

-- Reads that wait for an interrupt do not come back by themselves.
abbrev pub reading : Machine → Reading → Option (Machine × Filled)
reading m (returned out) =
    some (record m { processes = out.state }, record { buf = out.buf; ret = out.ret })
reading m waits = none
reading m endless = none

module _ (dentry : DirEntry) (garbage : ℕ) (unset : ℤ) where
  abbrev pub kernel : Calls Machine
  kernel = record {
    read = λ fd buf nbytes m. reading m (Syscalls.read fd (some buf) nbytes dentry m);
    write = λ fd buf nbytes m. some (Syscalls.write fd (some buf) nbytes (pos (le32_at 0 buf)) m);
    open_file = λ filename m. some (Syscalls.open_file garbage unset (some filename) m);
    close = λ fd m. some (Syscalls.close fd m);
    getargs = λ buf nbytes m.
        let (p, filled, ret) = Syscalls.getargs (some buf) nbytes m.processes in
        some (record m { processes = p }, record { buf = Option.get_or filled buf; ret = ret });
    vidmap = λ screen_start m. some (m, (Syscalls.vidmap screen_start).1);
    call_sys = dispatch;
  }
