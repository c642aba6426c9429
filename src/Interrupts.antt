-- ===== src/Interrupts.antt =====
-- The interrupt controllers, student-distrib/i8259.c, and the set-up of the interrupts,
-- student-distrib/interrupts.c.
-- Each of the two controllers has a mask register behind its data port, which a read gives and a
-- write sets. `ports` records the writes to ports, the newest first.
pub mod Masks
pub mod ClockRead
pub mod Gates
use ece391linux_os.Prelude.{
  get_or, set, ltb, if◌then◌else◌, ℕ, ◌+◌, ◌-◌, ◌/◌, ◌%◌, ◌^◌, bit_and, bit_or, Option, List, ◌∷◌,
}
use ece391linux_os.Prelude.Int.{ℤ, pos, minus_one}
use ece391linux_os.Keyboard.{Keyboard, handle_keyboard_input}
use ece391linux_os.Rtc.{Clock}

pub record Pic : Type 0 where
  pub master_mask : ℕ
  pub slave_mask : ℕ
  pub master_register : ℕ
  pub slave_register : ℕ
  pub ports : List (ℕ × ℕ)

abbrev pub pic_outb : ℕ → ℕ → Pic → Pic
pic_outb v port p = record p { ports = (v, port) ∷ p.ports }

-- ICW1 to both, then ICW2, ICW3 and ICW4.
unfoldable pub i8259_init : Pic → Pic
i8259_init p = pic_outb 0x01 0xA1 (
    pic_outb 0x01 0x21 (
      pic_outb 0x02 0xA1 (
        pic_outb 0x04 0x21
          (pic_outb 0x28 0xA1 (pic_outb 0x20 0x21 (pic_outb 0x11 0xA0 (pic_outb 0x11 0x20 p)))))))

-- A byte with the bit `k`, or none from bit 8 on; and all others.
abbrev pub bit_of : ℕ → ℕ
bit_of k = 2 ^ k % 256

abbrev pub set_master : ℕ → Pic → Pic
set_master val p = pic_outb val 0x21 (record p { master_mask = val; master_register = val })

abbrev pub set_slave : ℕ → Pic → Pic
set_slave val p = pic_outb val 0xA1 (record p { slave_mask = val; slave_register = val })

unfoldable pub enable_irq : ℕ → Pic → Pic
enable_irq irq_num p =
    if ltb irq_num 8
    then set_master (bit_and p.master_register (255 - bit_of irq_num)) p
    else set_slave (bit_and p.slave_register (255 - bit_of (irq_num - 8))) p

unfoldable pub disable_irq : ℕ → Pic → Pic
disable_irq irq_num p =
    if ltb irq_num 8
    then set_master (bit_or p.master_register (bit_of irq_num)) p
    else set_slave (bit_or p.slave_register (bit_of (irq_num - 8))) p

unfoldable pub send_eoi : ℕ → Pic → Pic
send_eoi irq_num p =
    if ltb irq_num 8
    then pic_outb (bit_or 0x60 (irq_num % 8)) 0x20 p
    else pic_outb (bit_or 0x60 (irq_num - 8)) 0xA0 (pic_outb (bit_or 0x60 0x02) 0x20 p)

-- The counters of the timer and the scheduler that `PIT_init` resets.
pub record Timer : Type 0 where
  pub timer_ticks : ℕ
  pub schedule_info_arr : List (ℕ × ℕ)
  pub strand_type_lock : ℕ
  pub current_process : ℕ
  pub sanity_check : ℕ
  pub terminal_request : ℤ
  pub schedule_tick : ℕ

-- 1193180 / 100, the divisor for 100 Hz.
abbrev pub divisor : ℕ
divisor = 11931

unfoldable pub pit_init : Timer → Pic → Timer × Pic
pit_init t p = (
  record t {
    timer_ticks = 0;
    schedule_info_arr = set (set (set t.schedule_info_arr 0 (0, 0)) 1 (0, 0)) 2 (0, 0);
    strand_type_lock = 0;
    current_process = 0;
    sanity_check = 0;
    terminal_request = minus_one;
    schedule_tick = 0;
  },
  enable_irq 0
      (pic_outb (divisor / 256) 0x40 (pic_outb (divisor % 256) 0x40 (pic_outb 0x36 0x43 p))),
)

-- The bit for IRQ8 in register B is set in what the clock has there. The operation table that
-- `rtc_optable` fills is the constructor `rtc`.
unfoldable pub rtc_init : Clock → Pic → Clock × Pic
rtc_init c p = (
  record c {
    ports = (0x71, bit_or (c.existing % 256) 0x40) ∷ (0x70, 0x8B) ∷ (0x70, 0x8B) ∷ c.ports;
    rtc_running = set (set (set c.rtc_running 0 two) 1 two) 2 two;
    rtc_virtual_interupt = set (set (set c.rtc_virtual_interupt 0 0) 1 0) 2 0;
  },
  enable_irq 8 (enable_irq 2 p),
)
  where
    two : ℤ
    two = pos 2

-- `handle_RTC`: each terminal's count goes up by one.
unfoldable pub handle_rtc : Clock → Pic → Clock × Pic
handle_rtc c p =
    let count : ℕ → Clock → Clock = λ i k. record k {
      rtc_virtual_interupt = set k.rtc_virtual_interupt i (get_or k.rtc_virtual_interupt i 0 + 1);
    } in
    let counted = count 2 (count 1 (count 0 c)) in
    (record counted { ports = (0x70, 0x0C) ∷ c.ports }, send_eoi 8 p)

-- `rtc_read` up to its wait for the count of its terminal to reach 1, and the test that it waits
-- for; behind the wait the count is reset again.
unfoldable pub rtc_read_start : Clock → Clock
rtc_read_start c = record c {
  rtc_virtual_interupt = set c.rtc_virtual_interupt c.current_process 0;
}

-- `handle_keyboard` for the byte `key` that the keyboard's port gives. The key works on the
-- displayed page, which `video_mem` points to meanwhile. A terminal that the key asks for is left
-- to the caller, as in `handle_keyboard_input`.
unfoldable pub handle_keyboard : ℕ → Keyboard → Pic → Keyboard × Option ℕ × Pic
handle_keyboard key k p =
    let (pressed, terminal) = handle_keyboard_input key k in (pressed, terminal, send_eoi 1 p)
