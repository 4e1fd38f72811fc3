-- ===== src/Kernel/Tasks.antt =====
-- The task slots and control blocks of student-distrib/system_call.c.
use linux_os.Prelude.{
  some_inv, sym, ◌∙◌, ℕ, zero, suc, ◌+◌, ◌*◌, ◌≤◌, ◌<◌, ◌≡◌, ◌≢◌, none, some, arith,
}
use native.Mathlib.Decide.{ℕ_discrete}
use linux_os.Kernel.{Kernel, get_pcb, kernel_stack, find_slot, find_open_task}

-- The control blocks of two different tasks of the six are at least 8 KB apart, and the kernel stack
-- of a task starts below the next block and above its own.
pub get_pcb_layout :
    (i j : ℕ)
    → i < 6
    → j < 6
    → (get_pcb i + 8192 ≡ kernel_stack i + 4)
      × (i < j → get_pcb j + 8192 ≤ get_pcb i)
      × (get_pcb i < 8388608)
      × (8388608 ≤ get_pcb i + 8192 * 6)
unfolding get_pcb kernel_stack
get_pcb_layout i j hi hj = omega arith

find_slot_step :
    (n i : ℕ) (slots : ℕ → ℕ)
    → (slots i ≡ 0 → find_slot (suc n) i slots ≡ some i)
      × (slots i ≢ 0 → find_slot (suc n) i slots ≡ find_slot n (i + 1) slots)
unfolding find_slot
find_slot_step n i slots = (ground arith, ground arith)

find_slot-some :
    (n i : ℕ) (slots : ℕ → ℕ) (r : ℕ)
    → find_slot n i slots ≡ some r
    → (i ≤ r) × (r < i + n) × (slots r ≡ 0) × ((j : ℕ) → i ≤ j → j < r → slots j ≢ 0)
find_slot-some zero i slots r e = unfold find_slot in cc
find_slot-some (suc n) i slots r e = elim (ℕ_discrete (slots i) 0) [
  | yes free ↦
      let here : i ≡ r = some_inv i r (sym ((find_slot_step n i slots).0 free) ∙ e) in
      (omega arith, omega arith, rw (← here) free, λ j lo hi. absurd (omega arith))
  | no used ↦
      let (lo, hi, free, before) =
        find_slot-some n (i + 1) slots r (sym ((find_slot_step n i slots).1 used) ∙ e) in
      (
        omega arith,
        omega arith,
        free,
        λ j lo' hi' z. elim (ℕ_discrete i j) [
          | yes here ↦ used (rw here z)
          | no other ↦ before j (omega arith) hi' z
        ],
      )
]

find_slot_none :
    (n i : ℕ) (slots : ℕ → ℕ)
    → find_slot n i slots ≡ none
    → (j : ℕ) → i ≤ j
    → j < i + n
    → slots j ≢ 0
find_slot_none zero i slots e j lo hi z = absurd (omega arith)
find_slot_none (suc n) i slots e j lo hi z = elim (ℕ_discrete (slots i) 0) [
  | yes free ↦ let found = (find_slot_step n i slots).0 free in cc (e, found)
  | no used ↦ elim (ℕ_discrete i j) [
    | yes here ↦ used (rw here z)
    | no other ↦
        find_slot_none n (i + 1) slots (sym ((find_slot_step n i slots).1 used) ∙ e) j (omega arith)
          (omega arith) z
  ]
]

-- `find_open_task` gives the lowest of the six slots that is free, and -1 only when none is.
pub find_open_task_lem :
    (k : Kernel)
    → ((r : ℕ)
        → find_open_task k ≡ some r
        → (r < 6) × (k.task_slots r ≡ 0) × ((j : ℕ) → j < r → k.task_slots j ≢ 0))
      × (find_open_task k ≡ none → (j : ℕ) → j < 6 → k.task_slots j ≢ 0)
unfolding find_open_task
find_open_task_lem k = (
  λ r e.
      (let (_, hi, free, before) = find_slot-some 6 0 k.task_slots r e in
        (hi, free, λ j h. before j (omega arith) h)),
  λ e j h. find_slot_none 6 0 k.task_slots e j (omega arith) h,
)
