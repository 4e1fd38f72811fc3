-- ===== src/Interrupts.antt =====
-- The interrupt descriptor table of student-distrib/interrupt_table.c, and the exception handlers that
-- the macro of student-distrib/interrupt_table.h makes.
pub mod Gates
pub mod Exceptions
use linux_os.Prelude.{
  ℕ, zero, suc, ◌+◌, Bool, List, [], ◌∷◌, Option, none, some, ◌==◌, ltb, leb, if◌then◌else◌, update,
}
use linux_os.Screen.{Screen, putc, puts}
use linux_os.Kernel.{Kernel, set_exception_death, get_tasks_running}
use linux_os.TaskCalls.{Control, print, syscall_halt}

-- The handlers, by their names in the source.
pub data Handler : Type 0 where
  exception_divide_error debug_intel_only exception_nmi_interrupt exception_breakpoint : Handler
  exception_overflow exception_bound_range_exceeded exception_invalid_opcode : Handler
  exception_device_not_available exception_double_fault : Handler
  exception_coprocessor_segment_overrun exception_invalid_tss : Handler
  exception_segment_not_present exception_stack_segment_fault : Handler
  exception_general_protection exception_page_fault exception_x87_fpu_error : Handler
  exception_alignment_check exception_machine_check exception_simd_floating_point : Handler
  pit_handler_asm keyboard_handler_asm rtc_handler_asm syscall_handler_asm : Handler

-- `idt_desc_t`; the two halves of the offset are the handler, `none` where they are not set.
pub record Gate : Type 0 where
  pub seg_selector : ℕ
  pub reserved4 : ℕ
  pub reserved3 : ℕ
  pub reserved2 : ℕ
  pub reserved1 : ℕ
  pub reserved0 : ℕ
  pub size : ℕ
  pub dpl : ℕ
  pub present : ℕ
  pub offset : Option Handler

abbrev pub kernel_cs : ℕ
kernel_cs = 0x10

abbrev pub num_vec : ℕ
num_vec = 256

abbrev pub vector_pit : ℕ
vector_pit = 0x20

abbrev pub vector_keyboard : ℕ
vector_keyboard = 0x21

abbrev pub vector_rtc : ℕ
vector_rtc = 0x28

abbrev pub vector_syscall : ℕ
vector_syscall = 0x80

-- The body of the loop, for the vector `i`.
unfoldable pub init_gate : ℕ → Gate → Gate
init_gate i g = record g {
  seg_selector = kernel_cs;
  reserved4 = 0;
  reserved3 = if ltb 31 i then 0 else 1;
  reserved2 = 1;
  reserved1 = 1;
  reserved0 = 0;
  size = 1;
  dpl = if i == vector_syscall then 3 else 0;
  present = 1;
}

-- The loop: `rounds` vectors are left, from `i` on.
unfoldable pub init_gates : ℕ → ℕ → (ℕ → Gate) → ℕ → Gate
init_gates zero i idt = idt
init_gates (suc rounds) i idt = init_gates rounds (i + 1) (update idt i (init_gate i (idt i)))

abbrev pub set_idt_entry : ℕ → Handler → (ℕ → Gate) → ℕ → Gate
set_idt_entry i handler idt = update idt i (record (idt i) { offset = some handler })

-- The vectors that `init_idt` sets a handler for, in its order.
abbrev pub handled : List (ℕ × Handler)
handled =
    (0x00, exception_divide_error)
    ∷ (0x01, debug_intel_only)
    ∷ (0x02, exception_nmi_interrupt)
    ∷ (0x03, exception_breakpoint)
    ∷ (0x04, exception_overflow)
    ∷ (0x05, exception_bound_range_exceeded)
    ∷ (0x06, exception_invalid_opcode)
    ∷ (0x07, exception_device_not_available)
    ∷ (0x08, exception_double_fault)
    ∷ (0x09, exception_coprocessor_segment_overrun)
    ∷ (0x0A, exception_invalid_tss)
    ∷ (0x0B, exception_segment_not_present)
    ∷ (0x0C, exception_stack_segment_fault)
    ∷ (0x0D, exception_general_protection)
    ∷ (0x0E, exception_page_fault)
    ∷ (0x10, exception_x87_fpu_error)
    ∷ (0x11, exception_alignment_check)
    ∷ (0x12, exception_machine_check)
    ∷ (0x13, exception_simd_floating_point)
    ∷ (vector_pit, pit_handler_asm)
    ∷ (vector_keyboard, keyboard_handler_asm)
    ∷ (vector_rtc, rtc_handler_asm)
    ∷ (vector_syscall, syscall_handler_asm)
    ∷ []

unfoldable pub set_entries : List (ℕ × Handler) → (ℕ → Gate) → ℕ → Gate
set_entries [] idt = idt
set_entries ((i, handler) ∷ entries) idt = set_entries entries (set_idt_entry i handler idt)

unfoldable pub init_idt : (ℕ → Gate) → ℕ → Gate
init_idt idt = set_entries handled (init_gates num_vec 0 idt)

-- `HANDLE_EXCEPTION`: `none` is its endless loop. The macro tests the number of the running task.
unfoldable pub handle_exception : List ℕ → Kernel → Option Control
handle_exception message k =
    let shown = print message k in
    let marked = set_exception_death (record shown {
      terminals = record shown.terminals { screen = putc 10 shown.terminals.screen };
    }) in
    if get_tasks_running shown == 0 then none else some (syscall_halt marked 0)
