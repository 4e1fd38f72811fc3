-- ===== src/Scheduler/Ticks.antt =====
-- The timer interrupt of student-distrib/pit.c with the scheduler of student-distrib/scheduler.c.
use linux_os.Prelude.{
  ℕ, ◌+◌, ◌%◌, ◌≡◌, ◌≢◌, ◌<◌, ◌∙◌, ◌⊎◌, ap, refl, inl, inr, [], Option, none, some, ◌==◌, ltb, leb,
  if◌then◌else◌, arith, minus_one, Bool-cases, true, false,
}
use linux_os.Io.{Io}
use linux_os.Fs.{read_data}
use linux_os.Strings.{strlen}
use linux_os.Command.{Command, parse_command, not_blank, skip_spaces, take_name, take_argument}
use linux_os.Kernel.{Kernel, find_bottom_task, find_open_task}
use linux_os.Keyboard.{
  Registers, Switched, on_stack, off_stack, no_end, land, switch_display_terminal,
}
use linux_os.Terminal.{Terminals}
use linux_os.Keyboard.Switch.{
  swap-display, switch_display_terminal_lem, KeepsStack, land-KeepsStack,
}
use linux_os.TaskCalls.{
  Stack, Control, to_caller, to_user, to_execute, file_inode, is_elf, syscall_execute,
}
use linux_os.TaskCalls.Execute.{syscall_execute_lem, Started}
use linux_os.Scheduler.{
  terminal_count, pit_irq_num, System, Moment, Scheduled, back, in_user, in_execute, off_scheduler,
  endless, shell_name, end_irq, flag_step, after_execute, execute_shell, run_shell, with_active,
  find_active, after_boot, scheduler, count_tick, pit_handler,
}

-- What holds of the state in which the handler leaves, if it does.
pub Leaves : (System → Type 0) → Scheduled → Type 0
Leaves P (back s) = P s
Leaves P (in_user eip s) = P s
Leaves P (in_execute esp ebp ret s) = P s
Leaves P (off_scheduler esp ebp s) = P s
Leaves P endless = Unit

after_execute-i : (s : System) (c : Control) → Leaves (λ s'. s'.i ≡ s.i) (after_execute s c)
unfolding Leaves after_execute
after_execute-i s (to_caller ret k) = refl
after_execute-i s (to_user eip k) = refl
after_execute-i s (to_execute esp ebp ret k) = refl

execute_shell-i :
    (now : Moment) (s : System) (found : Switched)
    → Leaves (λ s'. s'.i ≡ s.i) (execute_shell now s found)
unfolding execute_shell Leaves
execute_shell-i now s no_end = tt
execute_shell-i now s (off_stack esp ebp k) = refl
execute_shell-i now s (on_stack k) = after_execute-i s _

with_active-i :
    (now : Moment) (t : ℕ) (s : System) (found : Option ℕ)
    → Leaves (λ s'. s'.i ≡ s.i) (with_active now t s found)
unfolding with_active Leaves
with_active-i now t s none = tt
with_active-i now t s (some active) = elim (Bool-cases (active == minus_one)) [
  | inl idle ↦ rw idle (unfold run_shell in execute_shell-i now _ _)
  | inr busy ↦ rw busy refl
]

after_boot-i :
    (now : Moment) (s : System) (found : Switched)
    → Leaves (λ s'. s'.i ≡ s.i) (after_boot now s found)
unfolding after_boot find_active Leaves
after_boot-i now s no_end = tt
after_boot-i now s (off_stack esp ebp k) = refl
after_boot-i now s (on_stack k) =
    with_active-i now 0 (record s { bootup_flag = 0; kernel = k }) (find_bottom_task k 0)

scheduler-i : (now : Moment) (t : ℕ) (s : System) → Leaves (λ s'. s'.i ≡ s.i) (scheduler now t s)
unfolding scheduler
scheduler-i now t s = elim (Bool-cases (leb terminal_count t)) [
  | inl out ↦ rw out (unfold Leaves in refl)
  | inr inside ↦ elim (Bool-cases (s.bootup_flag == 0)) [
    | inl running ↦
        rw (inside, running)
          (unfold find_active in with_active-i now t s (find_bottom_task s.kernel t))
    | inr booted ↦ rw (inside, booted) (after_boot-i now s _)
  ]
]

count_tick-i :
    (n : ℕ) (out : Scheduled)
    → n < 3
    → Leaves (λ s. s.i ≡ n) out
    → Leaves (λ s. s.i < 3) (count_tick out)
unfolding Leaves count_tick
count_tick-i n (back s) lt e = ground arith
count_tick-i n (in_user eip s) lt e = ground arith
count_tick-i n (in_execute esp ebp ret s) lt e = ground arith
count_tick-i n (off_scheduler esp ebp s) lt e = ground arith
count_tick-i n endless lt e = tt

-- However a timer interrupt leaves, the counter stays the number of one of the three terminals.
pub pit_handler-i :
    (now : Moment) (s : System) → s.i < 3 → Leaves (λ s'. s'.i < 3) (pit_handler now s)
unfolding pit_handler
pit_handler-i now s lt =
    count_tick-i s.i _ lt (scheduler-i now s.i (record s { kernel = flag_step Io.cli s.kernel }))

-- A timer interrupt for a terminal whose bottom task exists, when no shells were just started, makes
-- that task the active one, ends the interrupt and goes on to the next terminal, in a circle. The
-- kernel is otherwise as before.
pub pit_handler-busy :
    (now : Moment) (s : System) (active : ℕ)
    → s.i < 3
    → s.bootup_flag ≡ 0
    → find_bottom_task s.kernel s.i ≡ some active
    → active ≢ minus_one
    → pit_handler now s
      ≡ back (record s {
        active_process = active;
        i = (s.i + 1) % 3;
        kernel = end_irq pit_irq_num (flag_step Io.sti (flag_step Io.cli s.kernel));
      })
unfolding pit_handler scheduler find_active with_active count_tick
pit_handler-busy now s active lt running found busy =
    let inside : leb terminal_count s.i ≡ false = ground arith in
    let there : (active == minus_one) ≡ false = ground arith in
    let turns : (if ltb 2 (s.i + 1) then 0 else s.i + 1) ≡ (s.i + 1) % 3 = ground arith in
    let same : find_bottom_task (flag_step Io.cli s.kernel) s.i ≡ some active =
      (unfold find_bottom_task in found) in
    rw (inside, running, same, there, turns) refl

-- The terminal is shown already, or the load of the stack registers changes nothing.
abbrev pub Stays : Registers → ℕ → Kernel → Type 0
Stays r tid k = (k.terminals.display_terminal_id ≡ tid) ⊎ KeepsStack r

-- A switch to a terminal without a task, or to the one that is shown.
switch-empty :
    (r : Registers) (tid : ℕ) (k : Kernel)
    → Stays r tid k
    → tid < 3
    → k.task_slots tid ≡ 0
    → (k' : Kernel) × (switch_display_terminal r tid k ≡ on_stack k')
      × (k'.task_slots ≡ k.task_slots)
      × (k'.fs ≡ k.fs)
      × (k'.terminals.display_terminal_id ≡ tid)
switch-empty r tid k stays lt empty = elim (Bool-cases (k.terminals.display_terminal_id == tid)) [
  | inl shown ↦ (k, unfold switch_display_terminal in ground arith, refl, refl, ground arith)
  | inr hidden ↦
      let (k', goes, shows) =
        switch_display_terminal_lem r tid minus_one k lt (ground arith)
          (unfold find_bottom_task in ground arith) in
      let hidden' : k.terminals.display_terminal_id ≢ tid = ground arith in
      let keeps : KeepsStack r = elim stays [ inl e ↦ absurd (hidden' e) | inr keeps ↦ keeps ] in
      (
        k',
        goes ∙ (unfold land in land-KeepsStack r k' keeps),
        shows.slots,
        shows.disk,
        ap (λ (t : Terminals). t.display_terminal_id) shows.terminals
            ∙ swap-display k.terminals tid,
      )
]

abbrev pub shell_command : Command
shell_command = record { task_name = shell_name; argument = [] }

shell-parsed : parse_command shell_name ≡ some shell_command
unfolding parse_command skip_spaces take_name take_argument strlen
shell-parsed = refl

shell-named : not_blank shell_name ≡ true
unfolding not_blank
shell-named = refl

-- With no task and no boot flag, the handler is the start of the shell.
to_run_shell :
    (now : Moment) (s : System)
    → s.i < 3
    → s.bootup_flag ≡ 0
    → s.kernel.task_slots s.i ≡ 0
    → pit_handler now s
      ≡ count_tick (
          run_shell now s.i
            (record s { active_process = minus_one; kernel = flag_step Io.cli s.kernel }))
unfolding pit_handler scheduler find_active with_active
to_run_shell now s lt running empty =
    let inside : leb terminal_count s.i ≡ false = ground arith in
    let idle : find_bottom_task (flag_step Io.cli s.kernel) s.i ≡ some minus_one =
      (unfold find_bottom_task in ground arith) in
    rw (inside, running, idle) refl

run_shell-starts :
    (now : Moment) (s : System) (eip : ℕ) (k1 k2 : Kernel)
    → s.bootup_flag ≡ 0
    → switch_display_terminal now.at_start s.i (end_irq pit_irq_num s.kernel) ≡ on_stack k1
    → syscall_execute k1 now.stack shell_name ≡ to_user eip k2
    → run_shell now s.i s
      ≡ in_user eip (record s { bootup_flag = if s.i == 2 then 1 else 0; kernel = k2 })
unfolding run_shell execute_shell after_execute
run_shell-starts now s eip k1 k2 running switches starts = rw (switches, starts, running) refl

module _ (k k' : Kernel) where
  same_file :
      k'.fs ≡ k.fs
      → (stack : Stack)
      → is_elf (read_data k'.fs (file_inode k' stack shell_name) 0 1 4)
        ≡ is_elf (read_data k.fs (file_inode k stack shell_name) 0 1 4)
  unfolding file_inode
  same_file e stack = rw e refl

  same_slots : k'.task_slots ≡ k.task_slots → find_open_task k' ≡ find_open_task k
  unfolding find_open_task
  same_slots e = rw e refl

-- A timer interrupt for a terminal without a task, when no shells were just started, shows that
-- terminal and starts a shell, if "shell" is an ELF file and a slot is free: the interrupt is ended
-- first, and the shell is entered in user code with the terminal's descriptors. The counter stays,
-- and the boot flag is set exactly when the terminal is the third. The terminal is shown already, or
-- the operands of the switch's last `asm` hold the stack registers.
pub pit_handler-starts :
    (now : Moment) (s : System) (task : ℕ)
    → Stays now.at_start s.i s.kernel
    → s.i < 3
    → s.bootup_flag ≡ 0
    → s.kernel.task_slots s.i ≡ 0
    → is_elf (read_data s.kernel.fs (file_inode s.kernel now.stack shell_name) 0 1 4) ≡ true
    → find_open_task s.kernel ≡ some task
    → (eip : ℕ) × (k1 k2 : Kernel) × (switch_display_terminal now.at_start s.i
          (end_irq pit_irq_num (flag_step Io.cli s.kernel))
        ≡ on_stack k1)
      × (k1.terminals.display_terminal_id ≡ s.i)
      × Started k1 k2 task shell_command
      × (pit_handler now s
          ≡ in_user eip (record s {
            bootup_flag = if s.i == 2 then 1 else 0;
            active_process = minus_one;
            kernel = k2;
          }))
pit_handler-starts now s task stays lt running empty elf slot =
    let (k1, switches, slots, disk, shown) =
      switch-empty now.at_start s.i (end_irq pit_irq_num (flag_step Io.cli s.kernel)) stays lt
        empty in
    let (eip, k2, starts, started) =
      syscall_execute_lem k1 now.stack shell_name shell_command task shell-parsed shell-named
        (same_file _ k1 disk now.stack ∙ elf) (same_slots _ k1 slots ∙ slot) in
    (
      eip,
      k1,
      k2,
      switches,
      shown,
      started,
      to_run_shell now s lt running empty
          ∙ ap count_tick (
              run_shell-starts now
                (record s { active_process = minus_one; kernel = flag_step Io.cli s.kernel }) eip k1
                k2 running switches starts)
          ∙ (unfold count_tick in refl),
    )
