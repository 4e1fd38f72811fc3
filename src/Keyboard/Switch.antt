-- ===== src/Keyboard/Switch.antt =====
-- `switch_display_terminal` of student-distrib/keyboard.c: what it shows, what it keeps, and back.
use linux_os.Prelude.{
  ◌&&◌, sym, ℕ, ◌+◌, ◌<◌, ◌≡◌, ◌≢◌, ◌∙◌, ap, refl, false, none, some, ◌==◌, ltb, ◌||◌,
  if◌then◌else◌, arith, minus_one, u32, ◌*◌, Option-cases, inl, inr, Bool-cases,
}
use linux_os.Paging.{syscall_paging_setup, eight_m, four_m}
use linux_os.Screen.{set_screen_pos}
use linux_os.Terminal.{Terminals, copy_terminal, cpy_screen_pos, swap_screens}
use linux_os.Kernel.{Kernel, Pcb, kernel_stack, find_bottom_task, switch_running_task, run_bottom}
use linux_os.Keyboard.{
  Registers, on_stack, off_stack, land, stored, swap_stacks, switched, switch_to, with_bottom,
  switch_display_terminal,
}

-- The operands of the last `asm` hold the stack registers, so that its load changes nothing.
pub record KeepsStack (r : Registers) : Type 0 where
  pub esp : r.operand_0 ≡ r.esp
  pub ebp : r.operand_1 ≡ r.ebp

pub land-KeepsStack : (r : Registers) (k : Kernel) → KeepsStack r → land r k ≡ on_stack k
unfolding land
land-KeepsStack r k keeps = ground (arith, keeps.esp, keeps.ebp)

stored-land : (r : Registers) (k : Kernel) → stored (land r k) ≡ some k
unfolding stored land
stored-land r k = elim (Bool-cases (r.operand_0 == r.esp && r.operand_1 == r.ebp)) [
  | inl e ↦ rw e refl
  | inr e ↦ rw e refl
]

-- What a switch to a terminal with the bottom task `bottom` leaves.
pub record Shows (r : Registers) (k : Kernel) (tid bottom : ℕ) (k' : Kernel) : Type 0 where
  pub left_esp : (k'.pcbs k.terminals.display_terminal_id).old_esp ≡ r.esp
  pub left_ebp : (k'.pcbs k.terminals.display_terminal_id).old_ebp ≡ r.ebp
  pub shown_esp : (k'.pcbs tid).old_esp ≡ r.operand_0
  pub shown_ebp : (k'.pcbs tid).old_ebp ≡ r.operand_1
  pub terminals : k'.terminals ≡ swap_screens tid k.terminals
  pub running : k'.tasks_running ≡ (if bottom == minus_one then k.tasks_running else bottom)
  pub stack : k'.esp0 ≡ kernel_stack bottom
  pub slots : k'.task_slots ≡ k.task_slots
  pub clock : k'.rtc ≡ k.rtc
  pub disk : k'.fs ≡ k.fs
  pub children : (t : ℕ) → (k'.pcbs t).task_id_child ≡ (k.pcbs t).task_id_child
  pub parents : (t : ℕ) → (k'.pcbs t).task_id_parent ≡ (k.pcbs t).task_id_parent
  pub files : (t : ℕ) → (k'.pcbs t).fd ≡ (k.pcbs t).fd

-- The kernel after the task to run is chosen.
chosen : ℕ → Kernel → Kernel
chosen bottom k = if bottom == minus_one then k else record k { tasks_running = bottom }

switch_running_task_lem :
    (k : Kernel) (tid bottom : ℕ)
    → find_bottom_task k tid ≡ some bottom
    → (ret : ℕ) × (switch_running_task k tid ≡ some (ret, chosen bottom k))
unfolding switch_running_task run_bottom chosen
switch_running_task_lem k tid bottom e = elim (Bool-cases (bottom == minus_one)) [
  | inl bad ↦ (minus_one, rw (e, bad) refl)
  | inr good ↦ (0, rw (e, good) refl)
]

swap_stacks-Shows :
    (r : Registers) (prev tid bottom : ℕ) (k s : Kernel)
    → s.terminals ≡ swap_screens tid k.terminals
    → s.tasks_running ≡ (if bottom == minus_one then k.tasks_running else bottom)
    → s.esp0 ≡ kernel_stack bottom
    → s.task_slots ≡ k.task_slots
    → s.rtc ≡ k.rtc
    → s.fs ≡ k.fs
    → s.pcbs ≡ k.pcbs
    → prev ≡ k.terminals.display_terminal_id
    → prev ≢ tid
    → Shows r k tid bottom (swap_stacks r prev tid s)
unfolding swap_stacks
swap_stacks-Shows r prev tid bottom k s terminals running stack slots clock disk pcbs here other =
    record {
      left_esp = ground arith;
      left_ebp = ground arith;
      shown_esp = ground arith;
      shown_ebp = ground arith;
      terminals = terminals;
      running = running;
      stack = stack;
      slots = slots;
      clock = clock;
      disk = disk;
      children = λ t. (let same = ap (λ (f : ℕ → Pcb). f t) pcbs in ground arith);
      parents = λ t. (let same = ap (λ (f : ℕ → Pcb). f t) pcbs in ground arith);
      files = λ t. (let same = ap (λ (f : ℕ → Pcb). f t) pcbs in ground arith);
    }

-- The kernel before the running task is chosen.
shown_kernel : ℕ → ℕ → Kernel → Kernel
shown_kernel tid bottom k = record k {
  paging = syscall_paging_setup (u32 (eight_m + u32 (four_m * bottom))) k.paging;
  esp0 = kernel_stack bottom;
  terminals = swap_screens tid k.terminals;
}

shown-bottom :
    (tid bottom t : ℕ) (k : Kernel)
    → find_bottom_task (shown_kernel tid bottom k) t ≡ find_bottom_task k t
unfolding shown_kernel find_bottom_task
shown-bottom tid bottom t k = refl

to_shown :
    (r : Registers) (tid bottom : ℕ) (k : Kernel)
    → with_bottom r tid k (some bottom)
      ≡ switched r k.terminals.display_terminal_id tid
          (switch_running_task (shown_kernel tid bottom k) tid)
unfolding with_bottom switch_to shown_kernel
to_shown r tid bottom k = refl

chosen-Shows :
    (r : Registers) (tid bottom : ℕ) (k : Kernel)
    → k.terminals.display_terminal_id ≢ tid
    → Shows r k tid bottom (
        swap_stacks r k.terminals.display_terminal_id tid
          (chosen bottom (shown_kernel tid bottom k)))
unfolding chosen
chosen-Shows r tid bottom k other = elim (Bool-cases (bottom == minus_one)) [
  | inl bad ↦ rw bad (
      swap_stacks-Shows r _ tid bottom k (shown_kernel tid bottom k) (unfold shown_kernel in refl)
        (rw bad (unfold shown_kernel in refl)) (unfold shown_kernel in refl)
        (unfold shown_kernel in refl) (unfold shown_kernel in refl) (unfold shown_kernel in refl)
        (unfold shown_kernel in refl) refl other)
  | inr good ↦ rw good (
      swap_stacks-Shows r _ tid bottom k
        (record (shown_kernel tid bottom k) { tasks_running = bottom })
        (unfold shown_kernel in refl) (rw good refl) (unfold shown_kernel in refl)
        (unfold shown_kernel in refl) (unfold shown_kernel in refl) (unfold shown_kernel in refl)
        (unfold shown_kernel in refl) refl other)
]

pub switch_display_terminal_lem :
    (r : Registers) (tid bottom : ℕ) (k : Kernel)
    → tid < 3
    → k.terminals.display_terminal_id ≢ tid
    → find_bottom_task k tid ≡ some bottom
    → (k' : Kernel) × (switch_display_terminal r tid k ≡ (
        if r.operand_0 == r.esp && r.operand_1 == r.ebp
        then on_stack k'
        else off_stack r.operand_0 r.operand_1 k'))
      × Shows r k tid bottom k'
unfolding switch_display_terminal land
switch_display_terminal_lem r tid bottom k small other e =
    let goes : (k.terminals.display_terminal_id == tid || ltb 2 tid) ≡ false = ground arith in
    let s = shown_kernel tid bottom k in
    let (ret, runs) = switch_running_task_lem s tid bottom (shown-bottom tid bottom tid k ∙ e) in
    (
      swap_stacks r k.terminals.display_terminal_id tid (chosen bottom s),
      rw (goes, e)
          (to_shown r tid bottom k
            ∙ ap (switched r k.terminals.display_terminal_id tid) runs
            ∙ (unfold switched in refl)),
      chosen-Shows r tid bottom k other,
    )

pub switch_display_terminal_inv :
    (r : Registers) (tid : ℕ) (k k' : Kernel)
    → tid < 3
    → k.terminals.display_terminal_id ≢ tid
    → stored (switch_display_terminal r tid k) ≡ some k'
    → k'.terminals ≡ swap_screens tid k.terminals
switch_display_terminal_inv r tid k k' small other e =
    elim (Option-cases (find_bottom_task k tid)) [
      | inl endless ↦
          let goes : (k.terminals.display_terminal_id == tid || ltb 2 tid) ≡ false = ground arith in
          let stuck : stored (switch_display_terminal r tid k) ≡ none =
            (unfold switch_display_terminal with_bottom stored in rw (goes, endless) refl) in
          cc (e, stuck)
      | inr (bottom, found) ↦
          let (k1, runs, shows) = switch_display_terminal_lem r tid bottom k small other found in
          let left : stored (switch_display_terminal r tid k) ≡ some k1 =
            ap stored runs ∙ (unfold land in stored-land r k1) in
          let same : k' ≡ k1 = cc (e, left) in rw same shows.terminals
    ]

-- The swap of the screens by itself: to a terminal and back.
pub record Same (s u : Terminals) : Type 0 where
  pub shown : u.display_terminal_id ≡ s.display_terminal_id
  pub cells : (i : ℕ) → i < 4000 → u.screen.video i ≡ s.screen.video i
  pub column : u.screen.screen_x ≡ s.screen.screen_x
  pub row : u.screen.screen_y ≡ s.screen.screen_y
  pub lines : (t : ℕ) → (u.terminal t).keyboard_buffer ≡ (s.terminal t).keyboard_buffer
  pub sizes : (t : ℕ) → (u.terminal t).keyboard_buffer_size ≡ (s.terminal t).keyboard_buffer_size
  pub reads : (t : ℕ) → (u.terminal t).allow_terminal_read ≡ (s.terminal t).allow_terminal_read

swap_back :
    (s : Terminals) (tid : ℕ)
    → s.display_terminal_id ≢ tid
    → Same s (swap_screens s.display_terminal_id (swap_screens tid s))
unfolding swap_screens cpy_screen_pos copy_terminal set_screen_pos
swap_back s tid other = record {
  shown = refl;
  cells = λ i lt. ground arith;
  column = ground arith;
  row = ground arith;
  lines = λ t. ground arith;
  sizes = λ t. ground arith;
  reads = λ t. ground arith;
}

pub swap-display : (s : Terminals) (tid : ℕ) → (swap_screens tid s).display_terminal_id ≡ tid
unfolding swap_screens
swap-display s tid = refl

-- Switching to another terminal and back, whatever stack registers the two switches load, gives the same screen and cursor, and the line buffers of
-- all terminals are as before both switches.
pub switch_back :
    (r r' : Registers) (tid : ℕ) (k k1 k2 : Kernel)
    → tid < 3
    → k.terminals.display_terminal_id < 3
    → k.terminals.display_terminal_id ≢ tid
    → stored (switch_display_terminal r tid k) ≡ some k1
    → stored (switch_display_terminal r' k.terminals.display_terminal_id k1) ≡ some k2
    → Same k.terminals k2.terminals
switch_back r r' tid k k1 k2 small old other there back =
    let first = switch_display_terminal_inv r tid k k1 small other there in
    let display =
      ap (λ (s : Terminals). s.display_terminal_id) first ∙ swap-display k.terminals tid in
    let second =
      switch_display_terminal_inv r' k.terminals.display_terminal_id k1 k2 old
        (λ e. other (sym (sym display ∙ e))) back in
    rw (second, first) (swap_back k.terminals tid other)
