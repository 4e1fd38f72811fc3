-- ===== src/Lib.antt =====
-- A verification library of the kernel under student-distrib/: its file system, its system calls,
-- its terminals, and the devices below them.
--
-- How the parts interact: a user program enters by a system call (system_call.c). `open`, `close`,
-- `read` and `write` go through the descriptor of the running task to the operations of a table:
-- those of the file system (fs_module.c), of the clock (rtc.c) or of the terminal (keyboard.c).
-- `execute` parses a command line, reads a file and starts a task in a free slot with its own page
-- (paging.c); `halt` hands back to the parent. The keyboard's interrupt records the keys, fills
-- the terminal's line buffer and the text screen (lib.c), and switches between the three
-- terminals; the timer's interrupt (pit.c) starts a shell on each of them (scheduler.c); an
-- exception (interrupt_table.c) ends the task. The interrupts are let through and ended by the
-- interrupt controllers (i8259.c).
--
-- Which file models which part:
-- Strings: `strlen`, `strncmp`, `strcpy`, `strncpy`, `strrev` and `itoa` of student-distrib/lib.c,
--   on lists of bytes.
-- Screen: `clear`, `scroll_up`, `putc`, `puts` and the cursor of student-distrib/lib.c; the video
--   memory is a function of the offset.
-- Fs: student-distrib/fs_module.c and fs_module.h over the memory that holds the image.
-- Io: port writes and reads, cli, sti and TLB flushes, as a trace.
-- Pic: student-distrib/i8259.c. Rtc: student-distrib/rtc.c. Paging: student-distrib/paging.c.
-- Terminal: the line buffers of student-distrib/keyboard.c, the operations of stdin and stdout,
--   and the swap of the screens.
-- Kernel: control blocks, descriptors and task slots of student-distrib/system_call.c and
--   system_call.h.
-- FileCalls: `syscall_open`, `syscall_close`, `syscall_read`, `syscall_write` of
--   student-distrib/system_call.c.
-- Command: the parse of the command line in `syscall_execute`. TaskCalls: the rest of
--   `syscall_execute`, and `syscall_halt`, `syscall_getargs` and `syscall_vidmap`.
-- MemOps: `memset`, `memset_word`, `memset_dword`, `memcpy` and `memmove` of
--   student-distrib/lib.c, by the instructions of their assembly. Printf: `printf` of
--   student-distrib/lib.c.
-- Keyboard: the scan codes, `keyboard_handler` and `switch_display_terminal` of
--   student-distrib/keyboard.c.
-- Scheduler: student-distrib/scheduler.c and student-distrib/pit.c.
-- Interrupts: the descriptor table of student-distrib/interrupt_table.c and the exception handlers
--   of student-distrib/interrupt_table.h.
-- Support: the library of the user programs, syscalls/ece391support.c (fish/ece391support.c has
--   copies of its first routines).
-- Programs: syscalls/ece391cat.c and syscalls/ece391ls.c over the system calls. Console:
--   syscalls/ece391hello.c, syscalls/ece391testprint.c, syscalls/ece391counter.c and
--   syscalls/ece391shell.c. Grep: syscalls/ece391grep.c. Pingpong: syscalls/ece391pingpong.c.
--   Fish: fish/fish.c, over what the assembly fish/blink.S does. The processor's way into a system
--   call and the `halt` behind `main` are left out.
-- Boot: the entry in student-distrib/kernel.c, with the descriptors of student-distrib/x86_desc.h
--   and the boot information of student-distrib/multiboot.h.
-- Syserr: the eight tests of syscalls/ece391syserr.c and its menu over the system calls.
-- Emulation: syscalls/ece391emulate.c, the calls on a host system (fish/ece391emulate.c is a
--   copy).
-- Prelude: names passed on from the libraries, lists, tests, words and bits. Tests: runs at
--   concrete inputs.
--
-- Conventions: an `int32_t` or `uint32_t` is its bit pattern below 2 ^ 32, so -1 is `minus_one`;
--   32-bit arithmetic wraps (`u32`), arithmetic on pointers does not. A string is a list of bytes
--   that ends at its first 0 or at the end of the list. A buffer that a routine fills is returned
--   as the list of the bytes placed there. An out-parameter with a result of 0 or -1 is an
--   `Option`. The inline assembly that leaves `syscall_execute` and `syscall_halt` is a value of
--   `Control` that says where control goes. The last assembly of `switch_display_terminal` loads
--   the stack registers from registers that nothing has set: these are arguments, and a switch
--   returns when they hold the stack registers and otherwise ends with other stack registers
--   (`off_stack`), where the model stops. What an uninitialised variable holds, the characters
--   that are typed and the interrupts that come are arguments, as is what a read of a clock
--   register gives.
--
-- Loops are structural recursion on the rounds that are left. Three kinds have fuel: `itoa` has 33
-- rounds, more than a 32-bit number has digits in any radix from 2 on; the chain of children has 7
-- steps, more than there are tasks; the reads of `cat`, `ls` and `grep` and the prompts of the
-- shell have a number of rounds, and their theorems say how many are enough. The loop of
-- `pingpong` has no end, and its theorem is on any number of rounds. The wait of `rtc_read` and of
-- `terminal_read` consumes the interrupts and keys given, and the result says when it still waits.
-- The keys of `terminal_read` are characters, the backspace, the clear of the screen and switches
-- of the terminal that return; the reads of the system calls and of the programs are given
-- characters.
--
-- Not modelled: the load of the descriptor-table register, the assembly entry points, which only
-- save registers around the handlers, the self tests of the kernel, the signal test
-- syscalls/ece391sigtest.c, since the kernel has no signals, the assembly fish/blink.S, whose
-- writes to the video memory stay in its own state, and, at a system call that waits, the keys
-- that are not characters, since a switch also changes the running task.
pub mod Prelude
pub mod Strings
pub mod Fs
pub mod Io
pub mod Pic
pub mod Rtc
pub mod Paging
pub mod Screen
pub mod Terminal
pub mod Kernel
pub mod FileCalls
pub mod Command
pub mod TaskCalls
pub mod MemOps
pub mod Printf
pub mod Keyboard
pub mod Scheduler
pub mod Interrupts
pub mod Support
pub mod Programs
pub mod Boot
pub mod Syserr
pub mod Console
pub mod Grep
pub mod Pingpong
pub mod Fish
pub mod Emulation
pub mod Tests
