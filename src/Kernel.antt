-- ===== src/Kernel.antt =====
-- The state that the system calls of student-distrib/system_call.c share: the process control blocks
-- of student-distrib/system_call.h, the task slots, and the components below them.
-- An `int32_t` or `uint32_t` is its bit pattern, so -1 is `minus_one`.
pub mod Tasks
use linux_os.Prelude.{
  ℕ, zero, suc, ◌+◌, ◌-◌, ◌*◌, Bool, List, Option, none, some, ◌==◌, ltb, ◌||◌, if◌then◌else◌, u32,
  minus_one, update,
}
use linux_os.Fs.{FileSystem}
use linux_os.Rtc.{Rtc}
use linux_os.Paging.{Paging}
use linux_os.Terminal.{Terminals}

-- The five tables of file operations.
pub data Fops : Type 0 where
  stdin_fops stdout_fops rtc_fops dir_fops file_fops : Fops

-- `fops_table` is a pointer: `none` is NULL.
pub record FileDescriptor : Type 0 where
  pub fops_table : Option Fops
  pub inode : ℕ
  pub file_position : ℕ
  pub flags : ℕ

pub record Pcb : Type 0 where
  pub fd : ℕ → FileDescriptor
  pub file_name : List ℕ
  pub task_id : ℕ
  pub task_id_child : ℕ
  pub task_id_parent : ℕ
  pub old_ebp : ℕ
  pub old_esp : ℕ
  pub old_eip : ℕ
  pub argument_buf : ℕ → ℕ

-- `pcbs` gives the control block of each task, `user_mem` what each task's 4 MB frame holds from
-- `program_addr` on, and `esp0` is the kernel stack of the task state segment.
pub record Kernel : Type 0 where
  pub tasks_running : ℕ
  pub task_slots : ℕ → ℕ
  pub exception_death : ℕ
  pub pcbs : ℕ → Pcb
  pub user_mem : ℕ → ℕ → ℕ
  pub esp0 : ℕ
  pub fs : FileSystem
  pub rtc : Rtc
  pub paging : Paging
  pub terminals : Terminals

-- The address of a task's control block, and the stack pointer that the task's kernel stack starts
-- from: `eightK * oneK - (eightK * tasks_running) - 4`.
unfoldable pub get_pcb : ℕ → ℕ
get_pcb grab_task_id = u32 (8192 * 1024 + 4294967296 - u32 (8192 * u32 (grab_task_id + 1)))

unfoldable pub kernel_stack : ℕ → ℕ
kernel_stack task = u32 (8192 * 1024 + 4294967296 - u32 (8192 * task) + 4294967292)

abbrev pub current : Kernel → Pcb
current k = k.pcbs k.tasks_running

abbrev pub with_pcb : Kernel → ℕ → Pcb → Kernel
with_pcb k task p = record k { pcbs = update k.pcbs task p }

abbrev pub with_fd : Kernel → ℕ → FileDescriptor → Kernel
with_fd k i d = with_pcb k k.tasks_running (record (current k) { fd = update (current k).fd i d })

abbrev pub closed_fd : FileDescriptor
closed_fd = record { fops_table = none; inode = 0; file_position = 0; flags = 0 }

-- The loop of `fda_init`: `rounds` are left, from entry `i` on.
unfoldable pub reset_fds : ℕ → ℕ → (ℕ → FileDescriptor) → ℕ → FileDescriptor
reset_fds zero i fds = fds
reset_fds (suc rounds) i fds = reset_fds rounds (i + 1) (update fds i closed_fd)

unfoldable pub fda_init : Kernel → Kernel
unfolding reset_fds
fda_init k =
    let fds = reset_fds 8 0 (current k).fd in
    let stdin : FileDescriptor = record (fds 0) { fops_table = some Fops.stdin_fops; flags = 1 } in
    let stdout : FileDescriptor = record (fds 1) {
      fops_table = some Fops.stdout_fops;
      flags = 1;
    } in
    with_pcb k k.tasks_running (record (current k) { fd = update (update fds 0 stdin) 1 stdout })

unfoldable pub get_tasks_running : Kernel → ℕ
get_tasks_running k = k.tasks_running

unfoldable pub set_exception_death : Kernel → Kernel
set_exception_death k = record k { exception_death = 1 }

-- The loop of `find_open_task`: `rounds` slots are left, from `i` on; `none` is -1.
unfoldable pub find_slot : ℕ → ℕ → (ℕ → ℕ) → Option ℕ
find_slot zero i slots = none
find_slot (suc rounds) i slots =
    let rest = find_slot rounds (i + 1) slots in if slots i == 0 then some i else rest

unfoldable pub find_open_task : Kernel → Option ℕ
find_open_task k = find_slot 6 0 k.task_slots

-- The loop of `find_bottom_task` down the chain of children; `none` when the fuel runs out, which
-- with six tasks is a chain that does not end.
unfoldable pub walk_children : ℕ → (ℕ → Pcb) → ℕ → Option ℕ
walk_children zero pcbs task = none
walk_children (suc fuel) pcbs task =
    let rest = walk_children fuel pcbs (pcbs task).task_id_child in
    if (pcbs task).task_id_child == minus_one then some (pcbs task).task_id else rest

-- The result -1 of an invalid or empty slot is `some minus_one`.
unfoldable pub find_bottom_task : Kernel → ℕ → Option ℕ
find_bottom_task k task_num =
    if ltb 2 task_num
    then some minus_one
    else if k.task_slots task_num == 0
    then some minus_one
    else walk_children 7 k.pcbs task_num

-- The branches on the bottom task.
unfoldable pub run_bottom : Kernel → Option ℕ → Option (ℕ × Kernel)
run_bottom k none = none
run_bottom k (some new_task_num) =
    if new_task_num == minus_one
    then some (minus_one, k)
    else some (0, record k { tasks_running = new_task_num })

-- What `switch_running_task` returns, and the state that it leaves.
unfoldable pub switch_running_task : Kernel → ℕ → Option (ℕ × Kernel)
unfolding run_bottom
switch_running_task k task_num = run_bottom k (find_bottom_task k task_num)
