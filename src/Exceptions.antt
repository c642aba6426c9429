-- ===== src/Exceptions.antt =====
-- The handlers of the processor's exceptions, student-distrib/exception-handlers.c: each prints its
-- message with `printf`, and then halts the process or waits forever.
use Prim.Native.Char.{code}
use Prim.Native.String.{String}
use ece391linux_os.Prelude.{
  ◌==◌, ℕ, ◌+◌, ◌≡◌, refl, List, [], ◌∷◌, arith, Bool, true, not, ◌&&◌, Bool-cases, inl, inr, ap,
}
use ece391linux_os.Console.{Screen, putc}
use ece391linux_os.Format.{plain, printf_loop, printf}
use ece391linux_os.Format.Rendered.{put_all}
use ece391linux_os.Interrupts.Gates.{
  Handler, no_handler, exception_div_zero, exception_debug, exception_nonmaskable_interrupt,
  exception_breakpoint, exception_overflow, exception_bound_range_exceeded,
  exception_invalid_opcode, exception_device_not_available, exception_double_fault,
  exception_coprocessor_segment_overrun, exception_invalid_tss, exception_segment_not_present,
  exception_stack_segment_fault, exception_general_protection_fault, exception_page_fault,
  exception_reserved, exception_x87_floating_point, exception_alignment_check,
  exception_machine_check, exception_simd_floating_point, exception_virtualization,
  exception_security, schedule_wrapper, keyboard_wrapper, rtc_wrapper, system_call,
}

-- How a handler ends: in a call of `halt`, or not at all.
pub data Ending : Type 0 where
  halts_with : ℕ → Ending
  waits_forever : Ending

-- A text with the newline behind it, as bytes.
abbrev pub line_of : String → List ℕ
line_of String.[] = b'\n' ∷ []
line_of (String.◌∷◌ c s) = code c ∷ line_of s

-- The functions of the table that are no exceptions print nothing here.
abbrev pub message : Handler → List ℕ
message exception_div_zero = line_of "Exception: Divide by Zero"
message exception_debug = line_of "Exception: Debug"
message exception_nonmaskable_interrupt = line_of "Exception: Non-maskable Interrupt"
message exception_breakpoint = line_of "Exception: Breakpoint"
message exception_overflow = line_of "Exception: overflow"
message exception_bound_range_exceeded = line_of "Exception: Breakpoint"
message exception_invalid_opcode = line_of "Exception: Invalid opcode"
message exception_device_not_available = line_of "Exception: Device Not Available"
message exception_double_fault = line_of "Exception: Double Fault"
message exception_coprocessor_segment_overrun = line_of "Exception: CoProcessor Segment Overun"
message exception_invalid_tss = line_of "Exception: Invalid TSS"
message exception_segment_not_present = line_of "Exception: Segment Not Present"
message exception_stack_segment_fault = line_of "Exception: Stack Segment Fault"
message exception_general_protection_fault = line_of "Exception: General Protection Fault"
message exception_page_fault = line_of "Exception: Page Fault"
message exception_reserved = line_of "Exception: Reserved. How did you get here?"
message exception_x87_floating_point = line_of "Exception: x87 Floating-Point Exception"
message exception_alignment_check = line_of "Exception: Alignment Check"
message exception_machine_check = line_of "Exception: Machine Check"
message exception_simd_floating_point = line_of "Exception: SIMD Floating-Point Exception"
message exception_virtualization = line_of "Exception: Virtualization Exception"
message exception_security = line_of "Exception: Security Exception"
message no_handler = []
message schedule_wrapper = []
message keyboard_wrapper = []
message rtc_wrapper = []
message system_call = []

abbrev pub ending : Handler → Ending
ending exception_div_zero = halts_with 256
ending exception_debug = waits_forever
ending exception_nonmaskable_interrupt = waits_forever
ending exception_breakpoint = waits_forever
ending exception_overflow = halts_with 256
ending exception_bound_range_exceeded = halts_with 256
ending exception_invalid_opcode = halts_with 256
ending exception_device_not_available = waits_forever
ending exception_double_fault = waits_forever
ending exception_coprocessor_segment_overrun = waits_forever
ending exception_invalid_tss = waits_forever
ending exception_segment_not_present = waits_forever
ending exception_stack_segment_fault = halts_with 256
ending exception_general_protection_fault = halts_with 256
ending exception_page_fault = halts_with 256
ending exception_reserved = waits_forever
ending exception_x87_floating_point = waits_forever
ending exception_alignment_check = waits_forever
ending exception_machine_check = waits_forever
ending exception_simd_floating_point = waits_forever
ending exception_virtualization = waits_forever
ending exception_security = waits_forever
ending no_handler = waits_forever
ending schedule_wrapper = waits_forever
ending keyboard_wrapper = waits_forever
ending rtc_wrapper = waits_forever
ending system_call = waits_forever

-- A format without conversions.
abbrev is_plain : List ℕ → Bool
is_plain [] = true
is_plain (c ∷ str) = not (c == 0) && not (c == b'%') && is_plain str

message-plain : (h : Handler) → is_plain (message h) ≡ true
message-plain exception_div_zero = refl
message-plain exception_debug = refl
message-plain exception_nonmaskable_interrupt = refl
message-plain exception_breakpoint = refl
message-plain exception_overflow = refl
message-plain exception_bound_range_exceeded = refl
message-plain exception_invalid_opcode = refl
message-plain exception_device_not_available = refl
message-plain exception_double_fault = refl
message-plain exception_coprocessor_segment_overrun = refl
message-plain exception_invalid_tss = refl
message-plain exception_segment_not_present = refl
message-plain exception_stack_segment_fault = refl
message-plain exception_general_protection_fault = refl
message-plain exception_page_fault = refl
message-plain exception_reserved = refl
message-plain exception_x87_floating_point = refl
message-plain exception_alignment_check = refl
message-plain exception_machine_check = refl
message-plain exception_simd_floating_point = refl
message-plain exception_virtualization = refl
message-plain exception_security = refl
message-plain no_handler = refl
message-plain schedule_wrapper = refl
message-plain keyboard_wrapper = refl
message-plain rtc_wrapper = refl
message-plain system_call = refl

module _ (stack : ℕ → ℕ) (string_at : ℕ → List ℕ) (conv_buf : List ℕ) where
  unfoldable pub exception : Handler → Screen → Screen × Ending
  exception h s = ((printf stack string_at conv_buf (message h) s).0, ending h)

  printf_loop-plain :
      (str : List ℕ) (esp n : ℕ) (s : Screen)
      → is_plain str ≡ true
      → (printf_loop stack string_at conv_buf str plain esp n s).0 ≡ put_all str s
  unfolding printf_loop
  printf_loop-plain [] esp n s h = refl
  printf_loop-plain (c ∷ str) esp n s h = elim (Bool-cases (c == 0)) [
    | inl e ↦ absurd (ground (arith, h, e))
    | inr e ↦ elim (Bool-cases (c == b'%')) [
      | inl f ↦ absurd (ground (arith, h, f))
      | inr f ↦ rw (e, f) (printf_loop-plain str esp (n + 1) (putc c s) (ground (arith, h, e, f)))
    ]
  ]

  -- Each handler shows its message, which has no conversions, whatever the stack holds, and then
  -- ends as the table says.
  exception-shows : (h : Handler) (s : Screen) → exception h s ≡ (put_all (message h) s, ending h)
  unfolding exception printf
  exception-shows h s =
      ap (λ t. (t, ending h)) (printf_loop-plain (message h) 0 0 s (message-plain h))
