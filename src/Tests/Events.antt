-- ===== src/Tests/Events.antt =====
-- Interrupts: the keyboard, the timer and the exceptions.
use native.Mathlib.Nat.{suc-ne-zero}
use linux_os.Prelude.{
  ◌+◌, ℕ, ◌≡◌, ◌<◌, refl, List, [], ◌∷◌, Option, none, some, true, inr, ◌==◌, if◌then◌else◌, get_or,
  arith, minus_one, load32, bytes_at,
}
use linux_os.Strings.{strlen, strncmp}
use linux_os.Fs.{
  read_data, inode_length, inode_count, inode_addr, copy_blocks, quits, chunk, chunk_len,
  start_offset, end_offset, data_location, data_block, read_dentry_by_name, find_dentry,
  next_length, entries, entry_addr,
}
use linux_os.Io.{Io}
use linux_os.Pic.{send_eoi}
use linux_os.Terminal.{swap_screens}
use linux_os.Kernel.{
  Kernel, find_bottom_task, walk_children, find_open_task, find_slot, switch_running_task,
  run_bottom,
}
use linux_os.Keyboard.{
  on_stack, stored, handled, left_alt, record_key, toggle_caps, Registers, Board,
  switch_display_terminal, keys_after, keyboard_handler, caps_lock, char_of, shift_on, scan_codes,
  with_bottom, switch_to, switched, swap_stacks, is_ignored, ended, key_action,
}
use linux_os.Keyboard.Switch.{KeepsStack, Same, switch_back}
use linux_os.Keyboard.Keys.{board_of, caps_lock-never, type_codes, keyboard_handler_lem, next_board}
use linux_os.TaskCalls.{to_user, to_execute, file_inode, is_elf, inode_in}
use linux_os.TaskCalls.Execute.{Started}
use linux_os.TaskCalls.Halt.{Ended}
use linux_os.Scheduler.Shells.{shell-next_terminal}
use linux_os.Scheduler.{
  back, System, Moment, in_user, shell_name, end_irq, flag_step, pit_irq_num, pit_handler,
  initial_system,
}
use linux_os.Scheduler.Ticks.{pit_handler-starts, shell_command}
use linux_os.Interrupts.{Gate, init_idt, handle_exception, vector_syscall}
use linux_os.Interrupts.Gates.{IsGate, init_idt-IsGate}
use linux_os.Interrupts.Exceptions.{handle_exception_lem, exception_mark-stays}
use linux_os.Tests.{kernel, task, image}

abbrev registers : Registers
registers = record { esp = 1; ebp = 2; operand_0 = 3; operand_1 = 4 }

-- The compiler takes the same two registers for both `asm`.
abbrev same_registers : Registers
same_registers = record { esp = 1; ebp = 2; operand_0 = 1; operand_1 = 2 }

same-KeepsStack : KeepsStack same_registers
same-KeepsStack = record { esp = refl; ebp = refl }

bottom_3 : (tid : ℕ) → tid < 3 → find_bottom_task kernel tid ≡ some 3
unfolding find_bottom_task walk_children
bottom_3 tid lt = ground arith

abbrev board : Board
board = record { pressed = λ i. 0; kernel = kernel }

-- Alt is down.
abbrev alt_board : Board
alt_board = record { pressed = λ i. (if i == left_alt then 1 else 0); kernel = kernel }

-- F2 is pressed, and shows the second terminal.
keyboard_handler_example :
    (b' : Board) × (keyboard_handler same_registers 0x3C alt_board ≡ handled b')
    × (b'.kernel.rtc.pic ≡ send_eoi kernel.rtc.pic 1)
keyboard_handler_example =
    keyboard_handler_lem same_registers 0x3C alt_board (λ e. same-KeepsStack)
      (λ tid lt. (3, bottom_3 tid lt))

abbrev old_gate : Gate
old_gate = record {
  seg_selector = 0;
  reserved4 = 0;
  reserved3 = 0;
  reserved2 = 0;
  reserved1 = 0;
  reserved0 = 0;
  size = 0;
  dpl = 0;
  present = 0;
  offset = none;
}

init_idt_example : IsGate vector_syscall (init_idt (λ i. old_gate) vector_syscall)
init_idt_example = init_idt-IsGate (λ i. old_gate) vector_syscall (omega arith)

handle_exception_example :
    (k' : Kernel) × (handle_exception [] kernel ≡ some (to_execute 30 20 256 k')) × Ended kernel k'
handle_exception_example = handle_exception_lem [] kernel (suc-ne-zero 2) (ground arith)

-- The task 1, which has no parent.
abbrev orphan : Kernel
orphan = record kernel {
  tasks_running = 1;
  pcbs = λ i. (record task { task_id_parent = minus_one });
}

exception_mark_example :
    (k' : Kernel) × (handle_exception [] orphan ≡ some (to_user 40 k'))
    × (k'.exception_death ≡ 1)
    × (k'.tasks_running ≡ 1)
    × (k'.task_slots ≡ orphan.task_slots)
exception_mark_example = exception_mark-stays [] orphan (suc-ne-zero 0) refl

abbrev some_kernel : Option Kernel → Kernel
some_kernel none = kernel
some_kernel (some k) = k

abbrev there : Kernel
there = some_kernel (stored (switch_display_terminal registers 1 kernel))

abbrev and_back : Kernel
and_back = some_kernel (stored (switch_display_terminal registers 0 there))

goes_there : stored (switch_display_terminal registers 1 kernel) ≡ some there
unfolding stored switch_display_terminal with_bottom switch_to switched swap_stacks swap_screens
    find_bottom_task walk_children switch_running_task run_bottom
goes_there = refl

goes_back : stored (switch_display_terminal registers 0 there) ≡ some and_back
unfolding stored switch_display_terminal with_bottom switch_to switched swap_stacks swap_screens
    find_bottom_task walk_children switch_running_task run_bottom
goes_back = refl

switch_back_example : Same kernel.terminals and_back.terminals
switch_back_example =
    switch_back registers registers 1 kernel there and_back (omega arith) (omega arith)
      (ground arith) goes_there goes_back

-- Caps lock, then the key of 'a'.
abbrev caps_a : List (Registers × ℕ)
caps_a = (registers, 0x3A) ∷ (registers, 0xBA) ∷ (registers, 0x1E) ∷ []

abbrev some_board : Option Board → Board
some_board none = board
some_board (some b) = b

abbrev typed : Board
typed = some_board (type_codes caps_a (some board))

types : type_codes caps_a (some board) ≡ some typed
unfolding type_codes board_of next_board keyboard_handler is_ignored ended key_action keys_after
    record_key toggle_caps char_of
types = refl

caps_lock_example :
    (typed.pressed caps_lock ≡ 0)
    × (char_of 0x1E typed.pressed ≡ (
        let (lower, shifted, caps) = get_or scan_codes 0x1E (0, 0, 0) in
        if shift_on typed.pressed then shifted else lower))
caps_lock_example = caps_lock-never caps_a board typed 0x1E refl types (omega arith)

-- The image with its entry renamed to "shell", and a kernel with the first shell, whose terminal is
-- shown.
abbrev shell_image : ℕ → ℕ
shell_image p =
    if p == 66 then b'e' else if p == 67 then b'l' else if p == 68 then b'l' else image p

abbrev system : System
system =
    record (initial_system (record kernel {
      tasks_running = 0;
      task_slots = λ i. (if i == 0 then 1 else 0);
      fs = record { mem = shell_image; boot_block = 0 };
    })) { i = 1 }

abbrev moment : Moment
moment = record {
  at_boot = registers;
  at_start = same_registers;
  stack = record { esp = 10; ebp = 20; file_inode = 9; argument_bytes = λ i. 0 };
}

shell-elf :
    is_elf (read_data system.kernel.fs (file_inode system.kernel moment.stack shell_name) 0 1 4)
    ≡ true
unfolding is_elf read_data inode_length inode_count inode_addr copy_blocks quits chunk chunk_len
    start_offset end_offset data_location data_block load32 bytes_at initial_system file_inode
    inode_in read_dentry_by_name find_dentry next_length entries entry_addr strlen strncmp
shell-elf = refl

slot_1 : find_open_task system.kernel ≡ some 1
unfolding initial_system find_open_task find_slot
slot_1 = refl

pit_handler-starts_example :
    (eip : ℕ) × (k1 k2 : Kernel) × (switch_display_terminal same_registers system.i
        (end_irq pit_irq_num (flag_step Io.cli system.kernel))
      ≡ on_stack k1)
    × (k1.terminals.display_terminal_id ≡ system.i)
    × Started k1 k2 1 shell_command
    × (pit_handler moment system
        ≡ in_user eip (record system {
          bootup_flag = if system.i == 2 then 1 else 0;
          active_process = minus_one;
          kernel = k2;
        }))
unfolding initial_system
pit_handler-starts_example =
    pit_handler-starts moment system 1 (inr same-KeepsStack) (omega arith) refl refl shell-elf
      slot_1

shell-next_example :
    (eip : ℕ) × (s1 s2 : System) × (pit_handler moment system ≡ in_user eip s1)
    × (pit_handler moment s1 ≡ back s2)
    × (s2.i ≡ system.i + 1)
    × (s2.bootup_flag ≡ 0)
    × (s2.active_process ≡ system.i)
    × (s2.kernel.tasks_running ≡ system.i)
    × (s2.kernel.task_slots system.i ≡ 1)
unfolding initial_system
shell-next_example =
    shell-next_terminal moment moment system (inr same-KeepsStack) (omega arith) refl refl shell-elf
      slot_1
