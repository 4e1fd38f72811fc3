-- ===== src/FileCalls/Close.antt =====
-- `syscall_close`, `syscall_read` and `syscall_write` of student-distrib/system_call.c: the checks on
-- the descriptor, and what closing leaves.
use linux_os.Prelude.{
  ap₂, ℕ, ◌≤◌, ◌<◌, ◌≡◌, ◌≢◌, ◌⊎◌, inl, inr, refl, sym, ◌∙◌, ap, List, Option, none, some, true,
  false, ◌==◌, ltb, ◌||◌, arith, minus_one,
}
use native.Mathlib.Decide.{ℕ_discrete}
use linux_os.Kernel.{Kernel, Pcb, FileDescriptor, Fops, current, with_fd}
use linux_os.FileCalls.{
  Ensures, Ensures-map, fails, Interrupts, run_close, syscall_close, syscall_read, syscall_write,
}
use linux_os.FileCalls.Open.{fd-with_fd, Opened}

-- A call that closed `r` frees it at position 0 and changes no other descriptor.
pub record Closed (k : Kernel) (r : ℕ) (k' : Kernel) : Type 0 where
  pub now_free : ((current k').fd r).flags ≡ 0
  pub at_start : ((current k').fd r).file_position ≡ 0
  pub others_kept : (j : ℕ) → j ≢ r → (current k').fd j ≡ (current k).fd j
  pub running : k'.tasks_running ≡ k.tasks_running

-- The tables whose `close` is NULL.
abbrev pub IsTerminalTable : Option Fops → Type 0
IsTerminalTable t = (t ≡ some Fops.stdin_fops) ⊎ (t ≡ some Fops.stdout_fops)

abbrev pub CloseResult : Kernel → ℕ → ℕ → List ℕ → Kernel → Type 0
CloseResult k fd r out k' =
    (r ≡ 0) × Closed k fd k'
    ⊎ (r ≡ minus_one) × (k' ≡ k) × IsTerminalTable ((current k).fd fd).fops_table

closed_lem :
    (k k1 : Kernel) (fd : ℕ) (d : FileDescriptor)
    → k1.tasks_running ≡ k.tasks_running
    → k1.pcbs ≡ k.pcbs
    → d.flags ≡ 0
    → d.file_position ≡ 0
    → Closed k fd (with_fd k1 fd d)
closed_lem k k1 fd d r p f z =
    let same : (j : ℕ) → (current k1).fd j ≡ (current k).fd j =
      λ j. ap₂ (λ (q : ℕ → Pcb) (n : ℕ). (q n).fd j) p r in
    let here : (fd == fd) ≡ true = ground arith in
    let at : (current (with_fd k1 fd d)).fd fd ≡ d = fd-with_fd k1 fd d fd ∙ rw here in
    record {
      now_free = rw at f;
      at_start = rw at z;
      others_kept = λ j h.
          (let other : (j == fd) ≡ false = ground arith in
            fd-with_fd k1 fd d j ∙ rw other (same j));
      running = r;
    }

run_close_lem :
    (k : Kernel) (fd : ℕ) (d : FileDescriptor) (t : Option Fops)
    → t ≡ ((current k).fd fd).fops_table
    → t ≢ none
    → Ensures (CloseResult k fd) (run_close k fd d t)
unfolding run_close
run_close_lem k fd d none e n = absurd (n refl)
run_close_lem k fd d (some Fops.stdin_fops) e n = inr (refl, refl, inl (sym e))
run_close_lem k fd d (some Fops.stdout_fops) e n = inr (refl, refl, inr (sym e))
run_close_lem k fd d (some Fops.rtc_fops) e n = inl (refl, closed_lem k _ fd _ refl refl refl refl)
run_close_lem k fd d (some Fops.dir_fops) e n = inl (refl, closed_lem k _ fd _ refl refl refl refl)
run_close_lem k fd d (some Fops.file_fops) e n = inl (refl, closed_lem k _ fd _ refl refl refl refl)

-- `syscall_close` of a descriptor from 2 to 7 that is in use and has a table returns 0, frees it with
-- its file position at 0 and leaves the others; for a table without a `close` it returns -1 instead
-- and changes nothing.
pub syscall_close_lem :
    (k : Kernel) (fd : ℕ)
    → 2 ≤ fd
    → fd < 8
    → ((current k).fd fd).flags ≢ 0
    → ((current k).fd fd).fops_table ≢ none
    → Ensures (CloseResult k fd) (syscall_close k fd)
unfolding syscall_close
syscall_close_lem k fd lo hi used table =
    let inside : ltb 7 fd || ltb fd 2 ≡ false = ground arith in
    let in_use : (((current k).fd fd).flags == 0) ≡ false = ground arith in
    rw (inside, in_use) (run_close_lem k fd ((current k).fd fd) _ refl table)

-- A descriptor out of range, or not in use, is refused by `syscall_close`, `syscall_read` and
-- `syscall_write` alike, with -1 and no change; so are reads of 1, writes of 0 and closing 0 and 1.
pub bad_fd_refused :
    (env : Interrupts) (k : Kernel) (fd buf nbytes word : ℕ) (bytes : List ℕ)
    → ((7 < fd) ⊎ (fd < 2) ⊎ (((current k).fd fd).flags ≡ 0) → syscall_close k fd ≡ fails k)
      × ((7 < fd) ⊎ (fd ≡ 1) ⊎ (((current k).fd fd).flags ≡ 0)
          → syscall_read env k fd buf nbytes ≡ fails k)
      × ((7 < fd) ⊎ (fd ≡ 0) ⊎ (((current k).fd fd).flags ≡ 0)
          → syscall_write k fd bytes word nbytes ≡ fails k)
unfolding syscall_close syscall_read syscall_write
bad_fd_refused env k fd buf nbytes word bytes = (ground arith, ground arith, ground arith)

-- Closing the descriptor that an open has just returned leaves the descriptors in use as they were
-- before the open, unless the table that was opened has no `close`.
pub close-open :
    (k k' : Kernel) (r : ℕ)
    → Opened k r k'
    → Ensures
        (λ ret out k2.
          ((ret ≡ 0) × ((j : ℕ) → ((current k2).fd j).flags ≡ ((current k).fd j).flags))
          ⊎ IsTerminalTable ((current k').fd r).fops_table)
        (syscall_close k' r)
close-open k k' r o =
    Ensures-map (CloseResult k' r) _ weaken (syscall_close k' r)
      (syscall_close_lem k' r o.low o.high (omega (arith, o.in_use)) o.has_table)
  where
    kept :
        (k2 : Kernel)
        → Closed k' r k2
        → (j : ℕ) → ((current k2).fd j).flags ≡ ((current k).fd j).flags
    kept k2 c j = elim (ℕ_discrete j r) [
      | yes e ↦ rw e (c.now_free ∙ sym o.was_free)
      | no ne ↦ ap FileDescriptor.flags (c.others_kept j ne ∙ o.others_kept j ne)
    ]

    weaken :
        (ret : ℕ) (out : List ℕ) (k2 : Kernel)
        → CloseResult k' r ret out k2
        → (ret ≡ 0) × ((j : ℕ) → ((current k2).fd j).flags ≡ ((current k).fd j).flags)
          ⊎ IsTerminalTable ((current k').fd r).fops_table
    weaken ret out k2 (inl (z, c)) = inl (z, kept k2 c)
    weaken ret out k2 (inr (m, same, t)) = inr t
