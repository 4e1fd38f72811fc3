-- ===== src/TaskCalls/Halt.antt =====
-- `syscall_halt` of student-distrib/system_call.c: what it hands back to the parent.
use linux_os.Prelude.{
  ℕ, zero, suc, ◌+◌, ◌≡◌, ◌≢◌, inl, inr, refl, ◌∙◌, ap, Option, none, some, false, ◌==◌, ltb, ◌||◌,
  if◌then◌else◌, arith, minus_one, Bool-cases,
}
use linux_os.Rtc.{rtc_close}
use linux_os.Kernel.{Kernel, FileDescriptor, Fops, current, with_fd, kernel_stack}
use linux_os.FileCalls.{run_close, syscall_close}
use linux_os.TaskCalls.{
  to_user, to_execute, after_close, close_fds, unlink, hand_back, end_task, syscall_halt, print,
  final_message,
}

-- What closing descriptors leaves of the tasks.
record Kept (k k' : Kernel) : Type 0 where
  running : k'.tasks_running ≡ k.tasks_running
  slots : k'.task_slots ≡ k.task_slots
  death : k'.exception_death ≡ k.exception_death
  child : (t : ℕ) → (k'.pcbs t).task_id_child ≡ (k.pcbs t).task_id_child
  esp : (t : ℕ) → (k'.pcbs t).old_esp ≡ (k.pcbs t).old_esp
  ebp : (t : ℕ) → (k'.pcbs t).old_ebp ≡ (k.pcbs t).old_ebp

Kept-refl : (k : Kernel) → Kept k k
Kept-refl k = record {
  running = refl;
  slots = refl;
  death = refl;
  child = λ t. refl;
  esp = λ t. refl;
  ebp = λ t. refl;
}

Kept-trans : {k1 k2 k3 : Kernel} → Kept k1 k2 → Kept k2 k3 → Kept k1 k3
Kept-trans a b = record {
  running = b.running ∙ a.running;
  slots = b.slots ∙ a.slots;
  death = b.death ∙ a.death;
  child = λ t. b.child t ∙ a.child t;
  esp = λ t. b.esp t ∙ a.esp t;
  ebp = λ t. b.ebp t ∙ a.ebp t;
}

with_fd-Kept : (k : Kernel) (i : ℕ) (d : FileDescriptor) → Kept k (with_fd k i d)
with_fd-Kept k i d = record {
  running = refl;
  slots = refl;
  death = refl;
  child = λ t. ground arith;
  esp = λ t. ground arith;
  ebp = λ t. ground arith;
}

run_close-Kept :
    (k : Kernel) (i : ℕ) (d : FileDescriptor) (t : Option Fops)
    → Kept k (after_close k (run_close k i d t))
unfolding after_close run_close rtc_close
run_close-Kept k i d none = Kept-refl k
run_close-Kept k i d (some Fops.stdin_fops) = Kept-refl k
run_close-Kept k i d (some Fops.stdout_fops) = Kept-refl k
run_close-Kept k i d (some Fops.rtc_fops) = with_fd-Kept k i _
run_close-Kept k i d (some Fops.dir_fops) = with_fd-Kept k i _
run_close-Kept k i d (some Fops.file_fops) = with_fd-Kept k i _

close-Kept : (k : Kernel) (i : ℕ) → Kept k (after_close k (syscall_close k i))
unfolding syscall_close
close-Kept k i = elim (Bool-cases (ltb 7 i || ltb i 2)) [
  | inl out ↦ rw out (unfold after_close in Kept-refl k)
  | inr inside ↦ elim (Bool-cases (((current k).fd i).flags == 0)) [
    | inl free ↦ rw (inside, free) (unfold after_close in Kept-refl k)
    | inr used ↦ rw (inside, used) (run_close-Kept k i _ _)
  ]
]

close_fds-Kept : (n i : ℕ) (k : Kernel) → Kept k (close_fds n i k)
unfolding close_fds
close_fds-Kept zero i k = Kept-refl k
close_fds-Kept (suc n) i k = elim (Bool-cases (((current k).fd i).flags == 0)) [
  | inl free ↦ rw free (close_fds-Kept n (i + 1) k)
  | inr used ↦ rw used (Kept-trans (close-Kept k i) (close_fds-Kept n (i + 1) _))
]

-- What the parent finds when a child has ended.
pub record Ended (k k' : Kernel) : Type 0 where
  pub running : k'.tasks_running ≡ (current k).task_id_parent
  pub slot_free : k'.task_slots k.tasks_running ≡ 0
  pub other_slots : (t : ℕ) → t ≢ k.tasks_running → k'.task_slots t ≡ k.task_slots t
  pub no_child : (k'.pcbs (current k).task_id_parent).task_id_child ≡ minus_one
  pub death_cleared : k'.exception_death ≡ 0
  pub stack : k'.esp0 ≡ (current k).old_esp

unlink_lem :
    (k : Kernel)
    → ((unlink k).tasks_running ≡ k.tasks_running)
      × ((unlink k).task_slots ≡ k.task_slots)
      × ((unlink k).exception_death ≡ k.exception_death)
      × (((unlink k).pcbs (current k).task_id_parent).task_id_child ≡ minus_one)
      × (((unlink k).pcbs k.tasks_running).old_esp ≡ (current k).old_esp)
      × (((unlink k).pcbs k.tasks_running).old_ebp ≡ (current k).old_ebp)
unfolding unlink
unlink_lem k = (refl, refl, refl, ground arith, ground arith, ground arith)

closed-Kept : (k : Kernel) → Kept (unlink k) (close_fds 8 0 (unlink k))
closed-Kept k = close_fds-Kept 8 0 (unlink k)

-- A task with a parent that halts goes back to the stack that its `syscall_execute` saved, with its
-- status, or with 256 when it died by an exception. The parent then runs, without a child, the
-- task's slot is free and the other slots are as before.
pub syscall_halt_lem :
    (k : Kernel) (status : ℕ)
    → (current k).task_id_parent ≢ minus_one
    → (k' : Kernel) × (syscall_halt k status
        ≡ to_execute
            (current k).old_esp
            (current k).old_ebp
            (if k.exception_death == 0 then status else 256)
            k')
      × Ended k k'
syscall_halt_lem k status h = (hand_back k, leaves, ended)
  where
    leaves :
        syscall_halt k status
        ≡ to_execute
            (current k).old_esp
            (current k).old_ebp
            (if k.exception_death == 0 then status else 256)
            (hand_back k)
    leaves =
        let closed = closed-Kept k in
        let (_, _, death, _, esp, ebp) = unlink_lem k in
        let goes : ((current k).task_id_parent == minus_one) ≡ false = ground arith in
        unfold syscall_halt end_task in
        rw (
          goes,
          closed.esp k.tasks_running ∙ esp,
          closed.ebp k.tasks_running ∙ ebp,
          closed.death ∙ death,
        )

    ended : Ended k (hand_back k)
    ended =
        let closed = closed-Kept k in
        let (running, slots, death, child, esp, ebp) = unlink_lem k in
        unfold hand_back in
        record {
          running = refl;
          slot_free = ground arith;
          other_slots = λ t ne.
              (let other : (t == k.tasks_running) ≡ false = ground arith in
                rw other (ap (λ (f : ℕ → ℕ). f t) (closed.slots ∙ slots)));
          no_child = closed.child (current k).task_id_parent ∙ child;
          death_cleared = refl;
          stack = closed.esp k.tasks_running ∙ esp;
        }

-- A task without a parent is not ended: it starts again at its entry point, with the message shown
-- and its own slot kept.
pub syscall_halt_last :
    (k : Kernel) (status : ℕ)
    → (current k).task_id_parent ≡ minus_one
    → syscall_halt k status
      ≡ to_user
          (current k).old_eip
          (record (print final_message k) { esp0 = kernel_stack k.tasks_running })
unfolding syscall_halt
syscall_halt_last k status h = ground arith
