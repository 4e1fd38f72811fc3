-- ===== src/TaskCalls/Execute.antt =====
-- `syscall_execute` of student-distrib/system_call.c: the task that it starts.
use linux_os.Prelude.{
  ℕ, zero, suc, ◌+◌, ◌≡◌, ◌≢◌, ◌≤◌, ◌<◌, inl, inr, refl, ◌∙◌, ap, List, some, true, ◌==◌, leb,
  if◌then◌else◌, arith, minus_one, Bool-cases, update, load32,
}
use linux_os.Fs.{read_data}
use linux_os.Command.{Command, parse_command, not_blank}
use linux_os.Kernel.{
  Kernel, FileDescriptor, Fops, Pcb, current, with_pcb, kernel_stack, fda_init, reset_fds,
  find_open_task,
}
use linux_os.TaskCalls.{
  Stack, to_user, start_task, execute_file, file_inode, syscall_execute, execute_parsed, start_in,
  is_elf, load_file, link_parent, new_pcb,
}

-- The state in which a new task runs: its slot is claimed, its control block is filled, its first
-- two descriptors are the terminal's and the others are free.
pub record Started (k k' : Kernel) (task : ℕ) (command : Command) : Type 0 where
  pub running : k'.tasks_running ≡ task
  pub claimed : k'.task_slots task ≡ 1
  pub other_slots : (t : ℕ) → t ≢ task → k'.task_slots t ≡ k.task_slots t
  pub id : (current k').task_id ≡ task
  pub name : (current k').file_name ≡ command.task_name
  pub no_child : (current k').task_id_child ≡ minus_one
  pub parent : 3 ≤ task → (current k').task_id_parent ≡ k.tasks_running
  pub no_parent : task < 3 → (current k').task_id_parent ≡ minus_one
  pub told : 3 ≤ task → k.tasks_running ≢ task → (k'.pcbs k.tasks_running).task_id_child ≡ task
  pub others : (t : ℕ) → t ≢ task → t ≢ k.tasks_running → k'.pcbs t ≡ k.pcbs t
  pub stdin :
      (((current k').fd 0).fops_table ≡ some Fops.stdin_fops) × (((current k').fd 0).flags ≡ 1)
  pub stdout :
      (((current k').fd 1).fops_table ≡ some Fops.stdout_fops) × (((current k').fd 1).flags ≡ 1)
  pub free : (i : ℕ) → 2 ≤ i → i < 8 → ((current k').fd i).flags ≡ 0
  pub stack : k'.esp0 ≡ kernel_stack task

reset_fds_lem :
    (rounds i : ℕ) (fds : ℕ → FileDescriptor) (j : ℕ)
    → ((i ≤ j) → (j < i + rounds) → (reset_fds rounds i fds j).flags ≡ 0)
      × ((fds j).flags ≡ 0 → (reset_fds rounds i fds j).flags ≡ 0)
unfolding reset_fds
reset_fds_lem zero i fds j = (λ le lt. absurd (omega arith), λ h. h)
reset_fds_lem (suc rounds) i fds j = elim (Bool-cases (j == i)) [
  | inl here ↦ let z = (reset_fds_lem rounds (i + 1) _ j).1 (ground arith) in (λ le lt. z, λ h. z)
  | inr away ↦
      let (rest, kept) = reset_fds_lem rounds (i + 1) _ j in
      (λ le lt. rest (ground arith) (omega arith), λ h. kept (ground arith))
]

-- What `fda_init` sets up, and what it leaves.
record Ready (k k' : Kernel) : Type 0 where
  running : k'.tasks_running ≡ k.tasks_running
  slots : k'.task_slots ≡ k.task_slots
  id : (current k').task_id ≡ (current k).task_id
  name : (current k').file_name ≡ (current k).file_name
  child : (current k').task_id_child ≡ (current k).task_id_child
  parent : (current k').task_id_parent ≡ (current k).task_id_parent
  others : (t : ℕ) → t ≢ k.tasks_running → k'.pcbs t ≡ k.pcbs t
  stdin : (((current k').fd 0).fops_table ≡ some Fops.stdin_fops) × (((current k').fd 0).flags ≡ 1)
  stdout :
      (((current k').fd 1).fops_table ≡ some Fops.stdout_fops) × (((current k').fd 1).flags ≡ 1)
  free : (i : ℕ) → 2 ≤ i → i < 8 → ((current k').fd i).flags ≡ 0

fda_init-Ready : (k : Kernel) → Ready k (fda_init k)
fda_init-Ready k = record {
  running = unfold fda_init in refl;
  slots = unfold fda_init in refl;
  id = unfold fda_init in ground arith;
  name = unfold fda_init in ground arith;
  child = unfold fda_init in ground arith;
  parent = unfold fda_init in ground arith;
  others = λ t ne. (unfold fda_init in ground arith);
  stdin = unfold fda_init in ground arith;
  stdout = unfold fda_init in ground arith;
  free = λ i le lt.
      (let cleared = (reset_fds_lem 8 0 (current k).fd i).0 (omega arith) (omega arith) in
        unfold fda_init in ground arith);
}

-- The kernel of `start_task` before its descriptors are reset.
record Filled (k f : Kernel) (task : ℕ) (command : Command) : Type 0 where
  running : f.tasks_running ≡ task
  slots : f.task_slots ≡ update k.task_slots task 1
  id : (f.pcbs task).task_id ≡ task
  name : (f.pcbs task).file_name ≡ command.task_name
  child : (f.pcbs task).task_id_child ≡ minus_one
  parent : (f.pcbs task).task_id_parent ≡ (if leb 3 task then k.tasks_running else minus_one)
  told : 3 ≤ task → k.tasks_running ≢ task → (f.pcbs k.tasks_running).task_id_child ≡ task
  others : (t : ℕ) → t ≢ task → t ≢ k.tasks_running → f.pcbs t ≡ k.pcbs t

link_parent-Filled :
    (k c : Kernel) (stack : Stack) (command : Command) (task eip : ℕ)
    → c.tasks_running ≡ task
    → c.task_slots ≡ update k.task_slots task 1
    → c.pcbs ≡ k.pcbs
    → Filled k
        (with_pcb (link_parent c task k.tasks_running) task (
          new_pcb
            ((link_parent c task k.tasks_running).pcbs task)
            stack
            command
            task
            k.tasks_running
            eip))
        task
        command
link_parent-Filled k c stack command task eip running slots pcbs = elim (Bool-cases (leb 3 task)) [
  | inl child ↦
      unfold link_parent new_pcb in
      rw child (record {
        running = running;
        slots = slots;
        id = ground arith;
        name = ground arith;
        child = ground arith;
        parent = ground arith;
        told = λ le ne. ground arith;
        others = λ t ne ne'. (let old = ap (λ (f : ℕ → Pcb). f t) pcbs in ground arith);
      })
  | inr base ↦
      unfold link_parent new_pcb in
      rw base (record {
        running = running;
        slots = slots;
        id = ground arith;
        name = ground arith;
        child = ground arith;
        parent = ground arith;
        told = λ le ne. ground arith;
        others = λ t ne ne'. (let old = ap (λ (f : ℕ → Pcb). f t) pcbs in ground arith);
      })
]

fda_init-Started :
    (k f : Kernel) (task : ℕ) (command : Command)
    → Filled k f task command
    → Started k (record (fda_init f) { esp0 = kernel_stack task }) task command
fda_init-Started k f task command filled =
    let r = fda_init-Ready f in
    record {
      running = r.running ∙ filled.running;
      claimed = ap (λ (g : ℕ → ℕ). g task) (r.slots ∙ filled.slots) ∙ ground arith;
      other_slots = λ t ne. ap (λ (g : ℕ → ℕ). g t) (r.slots ∙ filled.slots) ∙ ground arith;
      id = r.id ∙ now (λ p. p.task_id) ∙ filled.id;
      name = r.name ∙ now (λ p. p.file_name) ∙ filled.name;
      no_child = r.child ∙ now (λ p. p.task_id_child) ∙ filled.child;
      parent = λ le. r.parent ∙ now (λ p. p.task_id_parent) ∙ filled.parent ∙ ground arith;
      no_parent = λ lt. r.parent ∙ now (λ p. p.task_id_parent) ∙ filled.parent ∙ ground arith;
      told = λ le ne.
          ap (λ (p : Pcb). p.task_id_child)
            (r.others k.tasks_running (λ e. ne (e ∙ filled.running)))
          ∙ filled.told le ne;
      others = λ t ne ne'. r.others t (λ e. ne (e ∙ filled.running)) ∙ filled.others t ne ne';
      stdin = r.stdin;
      stdout = r.stdout;
      free = r.free;
      stack = refl;
    }
  where
    now : {A : Type 0} → (field : Pcb → A) → field (current f) ≡ field (f.pcbs task)
    now field = ap (λ (t : ℕ). field (f.pcbs t)) filled.running

link_parent-user_mem :
    (k : Kernel) (task old_slot : ℕ) → (link_parent k task old_slot).user_mem ≡ k.user_mem
unfolding link_parent
link_parent-user_mem k task old_slot = elim (Bool-cases (leb 3 task)) [
  | inl child ↦ rw child refl
  | inr base ↦ rw base refl
]

-- The frame of a task, and its entry point.
pub record Placed (k k' : Kernel) (inode task eip : ℕ) : Type 0 where
  pub frame : k'.user_mem task ≡ load_file k inode task
  pub entry : eip ≡ load32 (load_file k inode task) 24

pub start_task_lem :
    (k : Kernel) (stack : Stack) (command : Command) (inode task : ℕ)
    → (eip : ℕ) × (k' : Kernel) × (start_task k stack command inode task ≡ to_user eip k')
      × Started k k' task command
      × Placed k k' inode task eip
unfolding start_task fda_init
start_task_lem k stack command inode task =
    let here : (task == task) ≡ true = ground arith in
    (
      _,
      _,
      refl,
      fda_init-Started k _ task command
          (link_parent-Filled k _ stack command task _ refl refl refl),
      record {
        frame =
            ap (λ (m : ℕ → ℕ → ℕ). m task) (link_parent-user_mem _ task k.tasks_running)
            ∙ rw here refl;
        entry = refl;
      },
    )

pub checks_pass :
    (k : Kernel) (stack : Stack) (line : List ℕ) (command : Command) (task : ℕ)
    → parse_command line ≡ some command
    → not_blank command.task_name ≡ true
    → is_elf (read_data k.fs (file_inode k stack command.task_name) 0 1 4) ≡ true
    → find_open_task k ≡ some task
    → syscall_execute k stack line
      ≡ start_task k stack command (file_inode k stack command.task_name) task
unfolding syscall_execute execute_parsed execute_file start_in
checks_pass k stack line command task parsed name elf slot = rw (parsed, name, elf, slot) refl

-- A command whose name is read, whose file starts like an ELF file, and for which a slot is free,
-- starts a task in that slot, which is entered in user code. The task has the name of the command,
-- no child and the terminal's two descriptors. A task from the third slot on is the child of the one that ran
-- before it; the first three have no parent. The other slots and control blocks are as before.
pub syscall_execute_lem :
    (k : Kernel) (stack : Stack) (line : List ℕ) (command : Command) (task : ℕ)
    → parse_command line ≡ some command
    → not_blank command.task_name ≡ true
    → is_elf (read_data k.fs (file_inode k stack command.task_name) 0 1 4) ≡ true
    → find_open_task k ≡ some task
    → (eip : ℕ) × (k' : Kernel) × (syscall_execute k stack line ≡ to_user eip k')
      × Started k k' task command
syscall_execute_lem k stack line command task parsed name elf slot =
    let (eip, k', starts, started, placed) = start_task_lem k stack command _ task in
    (eip, k', checks_pass k stack line command task parsed name elf slot ∙ starts, started)
