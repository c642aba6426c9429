-- ===== src/Rtc.antt =====
-- The real-time clock, student-distrib/rtc_driver.c. `rtc_read` waits for an interrupt.
pub mod Rate
use ece391linux_os.Prelude.{
  get_or, set, ◌==◌, if◌then◌else◌, ℕ, zero, suc, ◌+◌, ◌-◌, ◌*◌, ◌/◌, ◌%◌, Bool, true, false,
  Option, none, some, List, ◌∷◌,
}
use ece391linux_os.Prelude.Int.{ℤ, pos, pos_part, eqb_ℤ, minus_one}
use ece391linux_os.Filesystem.{fd_block, modify_fd, find_slot, place_in, bad_fd}
use ece391linux_os.Process.{
  null, file, dir, stdin, stdout, rtc, FdBlock, Processes, no_fd, block, clear_fd,
}

-- The writes to ports, the newest first, and `rtc_running` and `rtc_virtual_interupt` with the
-- terminal whose process runs. `existing` is what the next read of the clock's register gives.
pub record Clock : Type 0 where
  pub ports : List (ℕ × ℕ)
  pub existing : ℕ
  pub rtc_running : List ℤ
  pub rtc_virtual_interupt : List ℕ
  pub current_process : ℕ

abbrev pub max_rtc_rate : ℕ
max_rtc_rate = 32768

abbrev pub cmos_reg : ℕ
cmos_reg = 0x70

abbrev pub rtc_reg : ℕ
rtc_reg = 0x71

-- The rate in the low four bits of the register, the others as they are.
unfoldable pub send_rate : ℕ → Clock → Clock
send_rate rate c = record c {
  ports =
      (rtc_reg, c.existing % 256 / 16 * 16 + rate) ∷ (cmos_reg, 0x8A) ∷ (cmos_reg, 0x8A) ∷ c.ports;
}

-- Whether one of the `n` descriptors from `i` is the clock's.
unfoldable pub is_open : ℕ → ℕ → List FdBlock → Bool
is_open zero i t = false
is_open (suc n) i t =
    let rest = is_open n (i + 1) t in
    let b = get_or t i no_fd in
    if eqb_ℤ b.flags minus_one then rest else elim b.file_operations_pointer [
      | null ↦ rest
      | file ↦ rest
      | dir ↦ rest
      | stdin ↦ rest
      | stdout ↦ rest
      | rtc ↦ true
    ]

-- `garbage` is what the position of the new descriptor holds, which the code leaves unset.
unfoldable pub rtc_open : ℕ → Processes → Clock → Processes × Clock × ℤ
rtc_open garbage p c =
    let t = (block p p.current_pid).fd_table in
    let b : FdBlock = record {
      file_operations_pointer = rtc;
      inode = pos 0;
      file_position = garbage;
      flags = pos 1;
    } in
    let (q, ret) = place_in p b (find_slot 8 6 2 t) in
    if is_open 6 2 t then (p, c, minus_one) else (q, send_rate 15 c, ret)

unfoldable pub rtc_close : ℤ → Processes → Processes × ℤ
rtc_close fd p =
    if bad_fd fd
    then (p, minus_one)
    else (if eqb_ℤ (fd_block p (pos_part fd)).flags (pos 0)
        then (p, minus_one)
        else (modify_fd p (pos_part fd) clear_fd, pos 0))

-- The loop of `rtc_write`, at most `n` rounds from `mask`; `none` is its return of FAILURE. From 2
-- fifteen rounds reach MAX_RTC_RATE, at which the loop always ends.
unfoldable pub find_rate : ℕ → ℕ → ℕ → ℤ → Option ℕ
find_rate zero mask rate passed_rate = some rate
find_rate (suc n) mask rate passed_rate =
    let rest = find_rate n (mask * 2) (rate - 1) passed_rate in
    if eqb_ℤ (pos mask) passed_rate
    then some rate
    else (if mask == max_rtc_rate then none else rest)

-- `passed_rate` is the number that the caller's buffer holds.
unfoldable pub rtc_write : ℤ → Clock → Clock × ℤ
rtc_write passed_rate c = elim (find_rate 15 2 15 passed_rate) [
  | none ↦ (c, minus_one)
  | some rate ↦
      let running = record c {
        rtc_running = set c.rtc_running c.current_process passed_rate;
        rtc_virtual_interupt = set c.rtc_virtual_interupt c.current_process 0;
      } in
      (send_rate rate running, pos 0)
]
