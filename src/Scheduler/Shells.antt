-- ===== src/Scheduler/Shells.antt =====
-- The timer interrupts that start the shells, one after the other.
use linux_os.Prelude.{
  ℕ, ◌+◌, ◌≡◌, ◌<◌, ◌∙◌, ap, sym, refl, some, true, ◌==◌, if◌then◌else◌, arith, minus_one,
}
use linux_os.Fs.{read_data}
use linux_os.Kernel.{Kernel, Pcb, find_bottom_task, walk_children, find_open_task}
use linux_os.TaskCalls.{file_inode, is_elf}
use linux_os.TaskCalls.Execute.{Started}
use linux_os.Scheduler.{System, Moment, back, in_user, shell_name, pit_handler}
use linux_os.Scheduler.Ticks.{Stays, shell_command, pit_handler-starts, pit_handler-busy}

-- A shell that has started on its terminal is the terminal's bottom task.
Started-bottom :
    (k k' : Kernel) (task : ℕ)
    → Started k k' task shell_command
    → task < 3
    → find_bottom_task k' task ≡ some task
unfolding find_bottom_task walk_children
Started-bottom k k' task started small =
    let at = ap (λ (t : ℕ). k'.pcbs t) started.running in
    let child : (k'.pcbs task).task_id_child ≡ minus_one =
      ap (λ (p : Pcb). p.task_id_child) (sym at) ∙ started.no_child in
    let id : (k'.pcbs task).task_id ≡ task = ap (λ (p : Pcb). p.task_id) (sym at) ∙ started.id in
    let claimed = started.claimed in ground arith

-- For the first two terminals, when the free slot is the terminal's own: the timer interrupt starts
-- a shell there, and a second one in the state that this leaves finds the shell as the terminal's
-- task, counts on to the next terminal and returns, with the shell still the running task. The
-- terminal is shown already, or the operands of the switch's last `asm` hold the stack registers.
pub shell-next_terminal :
    (now later : Moment) (s : System)
    → Stays now.at_start s.i s.kernel
    → s.i < 2
    → s.bootup_flag ≡ 0
    → s.kernel.task_slots s.i ≡ 0
    → is_elf (read_data s.kernel.fs (file_inode s.kernel now.stack shell_name) 0 1 4) ≡ true
    → find_open_task s.kernel ≡ some s.i
    → (eip : ℕ) × (s1 s2 : System) × (pit_handler now s ≡ in_user eip s1)
      × (pit_handler later s1 ≡ back s2)
      × (s2.i ≡ s.i + 1)
      × (s2.bootup_flag ≡ 0)
      × (s2.active_process ≡ s.i)
      × (s2.kernel.tasks_running ≡ s.i)
      × (s2.kernel.task_slots s.i ≡ 1)
shell-next_terminal now later s stays small running empty elf slot =
    let (eip, k1, k2, switches, shown, started, starts) =
      pit_handler-starts now s s.i stays (omega arith) running empty elf slot in
    let s1 : System = record s {
      bootup_flag = if s.i == 2 then 1 else 0;
      active_process = minus_one;
      kernel = k2;
    } in
    let unflagged : s1.bootup_flag ≡ 0 = ground arith in
    (
      eip,
      s1,
      _,
      starts,
      pit_handler-busy later s1 s.i (omega arith) unflagged
          (Started-bottom k1 k2 s.i started (omega arith)) (λ e. absurd (omega (arith, e, small))),
      ground arith,
      unflagged,
      refl,
      started.running,
      started.claimed,
    )
