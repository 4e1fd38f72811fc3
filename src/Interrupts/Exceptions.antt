-- ===== src/Interrupts/Exceptions.antt =====
-- `HANDLE_EXCEPTION` of student-distrib/interrupt_table.h: what an exception does to the task that
-- runs.
use linux_os.Prelude.{ℕ, ◌≡◌, ◌≢◌, ap, refl, List, some, ◌==◌, arith, minus_one, false}
use linux_os.Screen.{putc, puts}
use linux_os.Kernel.{Kernel, current, kernel_stack, set_exception_death, get_tasks_running}
use linux_os.TaskCalls.{to_user, to_execute, print, final_message}
use linux_os.TaskCalls.Halt.{Ended, syscall_halt_lem, syscall_halt_last}
use linux_os.Interrupts.{handle_exception}

-- The kernel after the message and the mark of the exception.
abbrev dying : List ℕ → Kernel → Kernel
dying message k = record (print message k) {
  exception_death = 1;
  terminals = record k.terminals { screen = putc 10 (puts message k.terminals.screen).0 };
}

-- An exception in a task that has a parent, unless it is the task 0, ends the task: the parent's
-- `syscall_execute` returns 256 on the stack that it saved. The parent then runs, without a child,
-- the task's slot is free, the other slots are as before and the mark of the exception is cleared.
pub handle_exception_lem :
    (message : List ℕ) (k : Kernel)
    → k.tasks_running ≢ 0
    → (current k).task_id_parent ≢ minus_one
    → (k' : Kernel) × (handle_exception message k
        ≡ some (to_execute (current k).old_esp (current k).old_ebp 256 k'))
      × Ended k k'
handle_exception_lem message k running parent =
    let goes : (k.tasks_running == 0) ≡ false = ground arith in
    let (k', leaves, ended) = syscall_halt_lem (dying message k) 0 parent in
    (
      k',
      unfold handle_exception get_tasks_running set_exception_death in rw goes (ap some leaves),
      record {
        running = ended.running;
        slot_free = ended.slot_free;
        other_slots = ended.other_slots;
        no_child = ended.no_child;
        death_cleared = ended.death_cleared;
        stack = ended.stack;
      },
    )

-- An exception in a task without a parent, unless it is the task 0, starts the task again at its
-- entry point, in its own slot; the mark of the exception stays, for the next task that halts.
pub exception_mark-stays :
    (message : List ℕ) (k : Kernel)
    → k.tasks_running ≢ 0
    → (current k).task_id_parent ≡ minus_one
    → (k' : Kernel) × (handle_exception message k ≡ some (to_user (current k).old_eip k'))
      × (k'.exception_death ≡ 1)
      × (k'.tasks_running ≡ k.tasks_running)
      × (k'.task_slots ≡ k.task_slots)
exception_mark-stays message k running orphan =
    let goes : (k.tasks_running == 0) ≡ false = ground arith in
    let again = record (print final_message (dying message k)) {
      esp0 = kernel_stack k.tasks_running;
    } in
    (
      again,
      (unfold handle_exception get_tasks_running set_exception_death in
          rw goes (ap some (syscall_halt_last (dying message k) 0 orphan))),
      refl,
      refl,
      refl,
    )
