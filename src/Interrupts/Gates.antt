-- ===== src/Interrupts/Gates.antt =====
-- The interrupt descriptor table: `create_idt_entry` and `initialize_IDT` of
-- student-distrib/interrupts.c, on the table of student-distrib/x86_desc.S, which is zero.
use ece391linux_os.Prelude.{
  get_or, set, replicate, ltb, ◌==◌, ℕ, ◌+◌, ◌<◌, ◌≡◌, refl, Bool, true, ◌&&◌, ◌||◌, List, [], ◌∷◌,
}
use ece391linux_os.Prelude.Check.{same_test, same_test→eq, and→both, check_below, check_below-holds}
use ece391linux_os.Console.{Screen, cursor_update}
use ece391linux_os.Interrupts.{Pic, pic_outb, i8259_init}
use ece391linux_os.Terminal.{cursor_enable, cursor_disable}

-- The functions that the table points to.
pub data Handler : Type 0 where
  no_handler exception_div_zero exception_debug exception_nonmaskable_interrupt : Handler
  exception_breakpoint exception_overflow exception_bound_range_exceeded : Handler
  exception_invalid_opcode exception_device_not_available exception_double_fault : Handler
  exception_coprocessor_segment_overrun exception_invalid_tss : Handler
  exception_segment_not_present exception_stack_segment_fault : Handler
  exception_general_protection_fault exception_page_fault exception_reserved : Handler
  exception_x87_floating_point exception_alignment_check exception_machine_check : Handler
  exception_simd_floating_point exception_virtualization exception_security : Handler
  schedule_wrapper keyboard_wrapper rtc_wrapper system_call : Handler

pub record IdtDesc : Type 0 where
  pub offset : Handler
  pub seg_selector : ℕ
  pub reserved4 : ℕ
  pub reserved3 : ℕ
  pub reserved2 : ℕ
  pub reserved1 : ℕ
  pub size : ℕ
  pub reserved0 : ℕ
  pub dpl : ℕ
  pub present : ℕ

abbrev pub no_desc : IdtDesc
no_desc = record {
  offset = no_handler;
  seg_selector = 0;
  reserved4 = 0;
  reserved3 = 0;
  reserved2 = 0;
  reserved1 = 0;
  size = 0;
  reserved0 = 0;
  dpl = 0;
  present = 0;
}

-- The offset is set behind the call.
unfoldable pub create_idt_entry : ℕ → ℕ → ℕ → IdtDesc
create_idt_entry seg_select dpl present = record {
  offset = no_handler;
  seg_selector = seg_select;
  present = present;
  dpl = dpl;
  size = 1;
  reserved0 = 0;
  reserved1 = 1;
  reserved2 = 1;
  reserved3 = 0;
  reserved4 = 0;
}

abbrev pub set_entry : ℕ → Handler → ℕ → List IdtDesc → List IdtDesc
set_entry vector handler dpl idt =
    set idt vector (record (create_idt_entry 0x10 dpl 1) { offset = handler })

-- The handlers of the vectors 0 to 0x1F.
abbrev pub exceptions : List Handler
exceptions =
    exception_div_zero ∷ exception_debug ∷ exception_nonmaskable_interrupt ∷ exception_breakpoint
    ∷ exception_overflow ∷ exception_bound_range_exceeded ∷ exception_invalid_opcode
    ∷ exception_device_not_available ∷ exception_double_fault
    ∷ exception_coprocessor_segment_overrun ∷ exception_invalid_tss ∷ exception_segment_not_present
    ∷ exception_stack_segment_fault ∷ exception_general_protection_fault ∷ exception_page_fault
    ∷ exception_reserved ∷ exception_x87_floating_point ∷ exception_alignment_check
    ∷ exception_machine_check ∷ exception_simd_floating_point ∷ exception_virtualization
    ∷ exception_reserved ∷ exception_reserved ∷ exception_reserved ∷ exception_reserved
    ∷ exception_reserved ∷ exception_reserved ∷ exception_reserved ∷ exception_reserved
    ∷ exception_reserved ∷ exception_security ∷ exception_reserved ∷ []

unfoldable pub set_exceptions : ℕ → List Handler → List IdtDesc → List IdtDesc
set_exceptions vector [] idt = idt
set_exceptions vector (h ∷ hs) idt = set_exceptions (vector + 1) hs (set_entry vector h 0 idt)

unfoldable pub fill_idt : List IdtDesc → List IdtDesc
fill_idt idt = set_entry 0x80 system_call 3 (
    set_entry 0x28 rtc_wrapper 3 (
      set_entry 0x21 keyboard_wrapper 3
        (set_entry 0x20 schedule_wrapper 3 (set_exceptions 0 exceptions idt))))

-- The whole set-up, with the writes of the masks; the last part is `color_flag`.
unfoldable pub initialize_idt : List IdtDesc → Pic → Screen → List IdtDesc × Pic × Screen × ℕ
initialize_idt idt p s =
    let q = pic_outb 0xFD 0x21 (record (i8259_init p) { master_register = 0xFD }) in
    (
      fill_idt idt,
      pic_outb 0xFF 0xA1 (record q { slave_register = 0xFF }),
      cursor_update (cursor_enable (cursor_disable s)),
      0,
    )

-- The table in memory before the set-up.
abbrev pub zero_idt : List IdtDesc
zero_idt = replicate 256 no_desc

-- A program may call the vector.
abbrev pub is_callable : IdtDesc → Bool
is_callable d = d.present == 1 && d.dpl == 3

abbrev pub is_interrupt_gate : IdtDesc → Bool
is_interrupt_gate d =
    d.seg_selector == 0x10
    && d.size == 1
    && d.reserved0 == 0
    && d.reserved1 == 1
    && d.reserved2 == 1
    && d.reserved3 == 0
    && d.reserved4 == 0

unfoldable pub gate_of : ℕ → IdtDesc
gate_of v = get_or (fill_idt zero_idt) v no_desc

-- The vectors of the interrupts and of the system calls.
abbrev pub is_device_or_call : ℕ → Bool
is_device_or_call v = v == 0x20 || v == 0x21 || v == 0x28 || v == 0x80

abbrev expected : ℕ → Bool
expected v =
    same_test (is_callable (gate_of v)) (is_device_or_call v)
    && (same_test ((gate_of v).present == 1) (ltb v 0x20 || is_device_or_call v)
        && same_test (is_interrupt_gate (gate_of v)) ((gate_of v).present == 1))

all_expected : check_below 256 expected ≡ true
unfolding check_below gate_of fill_idt set_exceptions create_idt_entry
all_expected = refl

-- In the table that `initialize_IDT` fills, with all 256 vectors: the present ones are the 32
-- exceptions, the three devices' and the system calls'; they are interrupt gates in the kernel's code
-- segment; and a program can call the system calls' vector and the three devices', but no exception.
pub initialize_idt-gates :
    (v : ℕ)
    → v < 256
    → (is_callable (gate_of v) ≡ is_device_or_call v)
      × (((gate_of v).present == 1) ≡ (ltb v 0x20 || is_device_or_call v))
      × (is_interrupt_gate (gate_of v) ≡ ((gate_of v).present == 1))
initialize_idt-gates v l =
    let all = check_below-holds 256 expected all_expected v l in
    let first_part = and→both (same_test (is_callable (gate_of v)) (is_device_or_call v)) _ all in
    let second_part =
      and→both (same_test ((gate_of v).present == 1) (ltb v 0x20 || is_device_or_call v)) _
        first_part.1 in
    (same_test→eq _ _ first_part.0, same_test→eq _ _ second_part.0, same_test→eq _ _ second_part.1)
