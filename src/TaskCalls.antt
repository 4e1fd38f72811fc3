-- ===== src/TaskCalls.antt =====
-- The system calls of student-distrib/system_call.c that start and end programs, and those that hand
-- a program its arguments and the video page.
pub mod Execute
pub mod Load
pub mod Halt
use linux_os.Prelude.{
  ℕ, zero, suc, ◌+◌, ◌-◌, ◌*◌, ◌/◌, ◌%◌, Bool, true, false, List, [], ◌∷◌, ◌++◌, Option, none, some,
  ◌==◌, ltb, leb, not, ◌||◌, ◌&&◌, if◌then◌else◌, u32, minus_one, update, get_or, bytes_at, load32,
  replicate,
}
use linux_os.Strings.{strlen}
use linux_os.Screen.{puts}
use linux_os.Fs.{Read, Dentry, read_dentry_by_name, read_data}
use linux_os.Paging.{
  Paging, syscall_paging_setup, videomem_map, videomem_unmap, eight_m, four_m, user_video,
  video_mem_addr,
}
use linux_os.Kernel.{
  Kernel, Pcb, FileDescriptor, current, with_pcb, fda_init, find_open_task, kernel_stack,
}
use linux_os.FileCalls.{Outcome, returns, spins, faults, syscall_close}
use linux_os.Command.{Command, parse_command, not_blank}

-- How `syscall_execute` and `syscall_halt` leave: with a value to their caller; by `iret` into user
-- code at an address; or by the return of the `syscall_execute` whose stack is restored, with the
-- value in `eax`.
pub data Control : Type 0 where
  to_caller : ℕ → Kernel → Control
  to_user : ℕ → Kernel → Control
  to_execute : ℕ → ℕ → ℕ → Kernel → Control

-- `printf` of a text without conversions.
abbrev pub print : List ℕ → Kernel → Kernel
print text k = record k {
  terminals = record k.terminals { screen = (puts text k.terminals.screen).0 };
}

-- What the processor and the stack hold when `syscall_execute` runs: the two stack registers, the
-- inode in the `dentry_t` that is not initialised, and the bytes of the argument array.
pub record Stack : Type 0 where
  pub esp : ℕ
  pub ebp : ℕ
  pub file_inode : ℕ
  pub argument_bytes : ℕ → ℕ

abbrev pub max_message : List ℕ
max_message =
    b'M' ∷ b'a' ∷ b'x' ∷ b' ' ∷ b'p' ∷ b'r' ∷ b'o' ∷ b'g' ∷ b'r' ∷ b'a' ∷ b'm' ∷ b's' ∷ b' ' ∷ b'r'
    ∷ b'e' ∷ b'a' ∷ b'c' ∷ b'h' ∷ b'e' ∷ b'd' ∷ b',' ∷ b' ' ∷ b'o' ∷ b'n' ∷ b'l' ∷ b'y' ∷ b' '
    ∷ b'v' ∷ b'a' ∷ b'l' ∷ b'i' ∷ b'd' ∷ b' ' ∷ b'c' ∷ b'o' ∷ b'm' ∷ b'm' ∷ b'a' ∷ b'n' ∷ b'd'
    ∷ b':' ∷ b' ' ∷ b'e' ∷ b'x' ∷ b'i' ∷ b't' ∷ 10 ∷ []

-- The inode that is read: the entry's, or what the stack held when there is no such entry, since
-- the result of `read_dentry_by_name` is not looked at.
unfoldable pub inode_in : Stack → Option Dentry → ℕ
inode_in stack none = stack.file_inode
inode_in stack (some file_check) = file_check.inode

unfoldable pub file_inode : Kernel → Stack → List ℕ → ℕ
file_inode k stack name = inode_in stack (read_dentry_by_name k.fs name 1)

-- Four bytes could be read, and they are those of an ELF file.
unfoldable pub is_elf : Read → Bool
is_elf r =
    r.ret == 4
    && (get_or r.out 0 0 == 0x7f
        && (get_or r.out 1 0 == 0x45 && (get_or r.out 2 0 == 0x4C && get_or r.out 3 0 == 0x46)))

-- The frame of a task after `read_data` into it, and the entry point in its bytes 24 to 27.
unfoldable pub load_file : Kernel → ℕ → ℕ → ℕ → ℕ
load_file k inode task k_byte =
    get_or (read_data k.fs inode 0 0x08048000 0x200000).out k_byte (k.user_mem task k_byte)

unfoldable pub fill_argument : Stack → List ℕ → ℕ → ℕ
fill_argument stack argument i = get_or (argument ++ (0 ∷ [])) i (stack.argument_bytes i)

-- The parent is told of its child, unless the task is one of the three base shells.
unfoldable pub link_parent : Kernel → ℕ → ℕ → Kernel
link_parent k task old_slot =
    if leb 3 task
    then with_pcb k old_slot (record (k.pcbs old_slot) { task_id_child = task })
    else k

unfoldable pub new_pcb : Pcb → Stack → Command → ℕ → ℕ → ℕ → Pcb
new_pcb p stack command task old_slot eip = record p {
  task_id = task;
  task_id_parent = if leb 3 task then old_slot else minus_one;
  task_id_child = minus_one;
  old_esp = stack.esp;
  old_ebp = stack.ebp;
  old_eip = eip;
  file_name = command.task_name;
  argument_buf = fill_argument stack command.argument;
}

-- The part of `syscall_execute` behind the checks, for the slot found.
unfoldable pub start_task : Kernel → Stack → Command → ℕ → ℕ → Control
start_task k stack command inode task =
    let old_slot = k.tasks_running in
    let loaded = load_file k inode task in
    let eip = load32 loaded 24 in
    let claimed : Kernel = record k {
      tasks_running = task;
      task_slots = update k.task_slots task 1;
      paging = syscall_paging_setup (u32 (eight_m + task * four_m)) k.paging;
      user_mem = update k.user_mem task loaded;
    } in
    let linked = link_parent claimed task old_slot in
    let filled =
      with_pcb linked task (new_pcb (linked.pcbs task) stack command task old_slot eip) in
    to_user eip (record (fda_init filled) { esp0 = kernel_stack task })

-- The branches on the slot found, and the checks on the file.
unfoldable pub start_in : Kernel → Stack → Command → ℕ → Option ℕ → Control
start_in k stack command inode none = to_caller minus_one (print max_message k)
start_in k stack command inode (some task) = start_task k stack command inode task

unfoldable pub execute_file : Kernel → Stack → Command → ℕ → Control
execute_file k stack command inode =
    if is_elf (read_data k.fs inode 0 1 4)
    then start_in k stack command inode (find_open_task k)
    else to_caller minus_one k

-- The part behind the parse.
unfoldable pub execute_parsed : Kernel → Stack → Option Command → Control
execute_parsed k stack none = to_caller minus_one k
execute_parsed k stack (some parsed) =
    if not_blank parsed.task_name
    then execute_file k stack parsed (file_inode k stack parsed.task_name)
    else to_caller 0 k

unfoldable pub syscall_execute : Kernel → Stack → List ℕ → Control
syscall_execute k stack command = execute_parsed k stack (parse_command command)

abbrev pub final_message : List ℕ
final_message =
    b'H' ∷ b'a' ∷ b'l' ∷ b't' ∷ b'i' ∷ b'n' ∷ b'g' ∷ b' ' ∷ b'f' ∷ b'i' ∷ b'n' ∷ b'a' ∷ b'l' ∷ b' '
    ∷ b's' ∷ b'h' ∷ b'e' ∷ b'l' ∷ b'l' ∷ b' ' ∷ b'i' ∷ b's' ∷ b' ' ∷ b'n' ∷ b'o' ∷ b't' ∷ b' '
    ∷ b'a' ∷ b'l' ∷ b'l' ∷ b'o' ∷ b'w' ∷ b'e' ∷ b'd' ∷ 10 ∷ []

-- The state that a `syscall_close` leaves; its result is not looked at.
unfoldable pub after_close : Kernel → Outcome → Kernel
after_close k (returns r out k') = k'
after_close k spins = k
after_close k faults = k

-- The loop of `syscall_halt` over the descriptors: `rounds` are left, from `i` on. It looks at the
-- control block of the halting task, which is the running one.
unfoldable pub close_fds : ℕ → ℕ → Kernel → Kernel
close_fds zero i k = k
close_fds (suc rounds) i k =
    close_fds rounds (i + 1)
      (if ((current k).fd i).flags == 0 then k else after_close k (syscall_close k i))

-- "Restore parent paging": the parent's frame, and no video page.
unfoldable pub parent_paging : ℕ → Paging → Paging
parent_paging parent p =
    let q = syscall_paging_setup (u32 (eight_m + parent * four_m)) p in
    if q.page_directory (user_video / four_m) % 2 == 0
    then q
    else videomem_unmap user_video video_mem_addr q

-- The halting task with its parent told and the parent's paging restored.
unfoldable pub unlink : Kernel → Kernel
unlink k =
    let parent = (current k).task_id_parent in
    let told = with_pcb k parent (record (k.pcbs parent) { task_id_child = minus_one }) in
    record told { paging = parent_paging parent told.paging }

-- The state once its descriptors are closed, its slot is free and its parent runs.
unfoldable pub hand_back : Kernel → Kernel
hand_back k =
    let closed = close_fds 8 0 (unlink k) in
    record closed {
      task_slots = update closed.task_slots k.tasks_running 0;
      tasks_running = (current k).task_id_parent;
      esp0 = (closed.pcbs k.tasks_running).old_esp;
      exception_death = 0;
    }

-- The end of a task that has a parent.
unfoldable pub end_task : Kernel → ℕ → Control
end_task k status =
    let closed = close_fds 8 0 (unlink k) in
    let p = closed.pcbs k.tasks_running in
    to_execute p.old_esp p.old_ebp (if closed.exception_death == 0 then status else 256)
      (hand_back k)

unfoldable pub syscall_halt : Kernel → ℕ → Control
syscall_halt k status =
    if (current k).task_id_parent == minus_one
    then to_user (current k).old_eip
        (record (print final_message k) { esp0 = kernel_stack k.tasks_running })
    else end_task k status

-- What `syscall_getargs` places at `buf`, or `none` for -1.
unfoldable pub syscall_getargs : Kernel → ℕ → ℕ → Option (List ℕ)
syscall_getargs k buf nbytes =
    let arg = (current k).argument_buf in
    if buf == 0
    then none
    else if ltb nbytes (strlen (bytes_at arg 0 129))
    then none
    else if arg 0 == 0
    then none
    else if ltb 129 nbytes
    then some (bytes_at arg 0 129 ++ replicate (nbytes - 129) 0)
    else some (bytes_at arg 0 nbytes)

-- The value that `syscall_vidmap` returns, the address that it stores and the state.
unfoldable pub syscall_vidmap : Kernel → ℕ → ℕ × Option ℕ × Kernel
syscall_vidmap k screen_start =
    if screen_start == 0 || screen_start == four_m
    then (minus_one, none, k)
    else (0, some user_video, record k { paging = videomem_map user_video video_mem_addr k.paging })
