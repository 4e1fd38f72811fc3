-- ===== src/Scheduler.antt =====
-- The scheduler of student-distrib/scheduler.c and the timer interrupt of student-distrib/pit.c.
pub mod Ticks
pub mod Shells
use linux_os.Prelude.{
  ℕ, ◌+◌, ◌-◌, ◌/◌, ◌%◌, ◌^◌, Bool, List, [], ◌∷◌, ◌++◌, Option, none, some, ◌==◌, ltb, leb,
  if◌then◌else◌, minus_one,
}
use linux_os.Io.{Io, Trace}
use linux_os.Pic.{Pic, enable_irq, send_eoi}
use linux_os.Kernel.{Kernel, find_bottom_task}
use linux_os.Keyboard.{Registers, Switched, on_stack, off_stack, no_end, switch_display_terminal}
use linux_os.TaskCalls.{Control, to_caller, to_user, to_execute, Stack, syscall_execute}

abbrev pub terminal_count : ℕ
terminal_count = 3

abbrev pub pit_irq_num : ℕ
pit_irq_num = 0

abbrev pub pit_channel0 : ℕ
pit_channel0 = 0x40

abbrev pub pit_cmd_reg : ℕ
pit_cmd_reg = 0x43

abbrev pub pit_command : ℕ
pit_command = 0x36

abbrev pub reload_val : ℕ
reload_val = 23863

-- The globals of scheduler.c, the counter `i` of pit.c, and the kernel.
pub record System : Type 0 where
  pub bootup_flag : ℕ
  pub active_process : ℕ
  pub i : ℕ
  pub kernel : Kernel

-- What the processor holds while the scheduler runs: for the switch of the terminal after boot, for
-- the switch before a shell starts, and for the `syscall_execute`.
pub record Moment : Type 0 where
  pub at_boot : Registers
  pub at_start : Registers
  pub stack : Stack

-- How the scheduler and the handler end: by their return, in user code at an address, on the stack
-- of a `syscall_execute` that returns, with other stack registers behind a switch of the terminal, or
-- not at all.
pub data Scheduled : Type 0 where
  back : System → Scheduled
  in_user : ℕ → System → Scheduled
  in_execute : ℕ → ℕ → ℕ → System → Scheduled
  off_scheduler : ℕ → ℕ → System → Scheduled
  endless : Scheduled

abbrev pub shell_name : List ℕ
shell_name = b's' ∷ b'h' ∷ b'e' ∷ b'l' ∷ b'l' ∷ []

abbrev pub end_irq : ℕ → Kernel → Kernel
end_irq irq k = record k { rtc = record k.rtc { pic = send_eoi k.rtc.pic irq } }

-- `cli` and `sti`, in the order of the port writes.
abbrev pub flag_step : Io → Kernel → Kernel
flag_step io k = record k {
  rtc = record k.rtc { pic = record k.rtc.pic { trace = k.rtc.pic.trace ++ (io ∷ []) } };
}

unfoldable pub after_execute : System → Control → Scheduled
after_execute s (to_caller ret k) = back (record s { kernel = k })
after_execute s (to_user eip k) = in_user eip (record s { kernel = k })
after_execute s (to_execute esp ebp ret k) = in_execute esp ebp ret (record s { kernel = k })

-- The call of `syscall_execute` behind the switch.
unfoldable pub execute_shell : Moment → System → Switched → Scheduled
execute_shell now s no_end = endless
execute_shell now s (off_stack esp ebp k) = off_scheduler esp ebp (record s { kernel = k })
execute_shell now s (on_stack k) = after_execute s (syscall_execute k now.stack shell_name)

-- "invalid task, run shell", for the terminal `t_num`.
unfoldable pub run_shell : Moment → ℕ → System → Scheduled
unfolding execute_shell
run_shell now t_num s =
    let k = end_irq 0 s.kernel in
    let flagged : System = record s { bootup_flag = if t_num == 2 then 1 else s.bootup_flag } in
    execute_shell now flagged (switch_display_terminal now.at_start t_num k)

-- The part of the scheduler behind the boot flag, with the bottom task of the terminal.
unfoldable pub with_active : Moment → ℕ → System → Option ℕ → Scheduled
with_active now t_num s none = endless
with_active now t_num s (some active) =
    let chosen : System = record s { active_process = active } in
    if active == minus_one then run_shell now t_num chosen else back chosen

unfoldable pub find_active : Moment → ℕ → System → Scheduled
unfolding with_active
find_active now t_num s = with_active now t_num s (find_bottom_task s.kernel t_num)

-- "After the first 3 shells have been made, switch back to terminal 1".
unfoldable pub after_boot : Moment → System → Switched → Scheduled
after_boot now s no_end = endless
after_boot now s (off_stack esp ebp k) = off_scheduler esp ebp (record s { kernel = k })
after_boot now s (on_stack k) = find_active now 0 (record s { bootup_flag = 0; kernel = k })

unfoldable pub scheduler : Moment → ℕ → System → Scheduled
scheduler now t_num s =
    if leb terminal_count t_num
    then back s
    else if s.bootup_flag == 0
    then find_active now t_num s
    else after_boot now s (switch_display_terminal now.at_boot 0 s.kernel)

unfoldable pub get_active_terminal : System → ℕ
get_active_terminal s = s.active_process

-- The rest of the handler; `i++` comes after the scheduler, which need not return.
unfoldable pub count_tick : Scheduled → Scheduled
count_tick (back s) = back (record s {
  i = if ltb 2 (s.i + 1) then 0 else s.i + 1;
  kernel = end_irq pit_irq_num (flag_step Io.sti s.kernel);
})
count_tick (in_user eip s) = in_user eip s
count_tick (in_execute esp ebp ret s) = in_execute esp ebp ret s
count_tick (off_scheduler esp ebp s) = off_scheduler esp ebp s
count_tick endless = endless

unfoldable pub pit_handler : Moment → System → Scheduled
unfolding count_tick
pit_handler now s = count_tick (scheduler now s.i (record s { kernel = flag_step Io.cli s.kernel }))

unfoldable pub pit_init : Pic → Pic
pit_init p =
    let set : Pic = record p {
      trace =
          p.trace
          ++ (Io.cli
              ∷ Io.outb pit_command pit_cmd_reg
              ∷ Io.outb (reload_val % 2 ^ 8) pit_channel0
              ∷ Io.outb (reload_val / 2 ^ 8) pit_channel0
              ∷ []);
    } in
    let enabled = enable_irq set pit_irq_num in
    record enabled { trace = enabled.trace ++ (Io.sti ∷ []) }

unfoldable pub initial_system : Kernel → System
initial_system k = record { bootup_flag = 0; active_process = 0; i = 0; kernel = k }
