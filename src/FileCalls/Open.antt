-- ===== src/FileCalls/Open.antt =====
-- `syscall_open` of student-distrib/system_call.c: which descriptor it takes, and what it leaves.
use linux_os.Prelude.{
  Option-cases, ap₂, ℕ, zero, suc, ◌+◌, ◌≤◌, ◌<◌, ◌≡◌, ◌≢◌, ◌⊎◌, inl, inr, refl, sym, ◌∙◌, List,
  Option, none, some, true, false, ◌==◌, ◌||◌, if◌then◌else◌, arith, minus_one, some_inv,
  Bool-cases,
}
use native.Mathlib.Decide.{ℕ_discrete}
use linux_os.Strings.{head_or}
use linux_os.Fs.{entries, read_dentry_by_name, dir_open, file_open}
use linux_os.Fs.Name.{read_dentry_by_name_entry}
use linux_os.Kernel.{Kernel, Pcb, FileDescriptor, Fops, current, with_fd}
use linux_os.FileCalls.{
  Ensures, fails, find_fd, fops_of_type, install, run_open, open_at, syscall_open,
}

-- What the descriptors of a task are after a change of one of them.
pub fd-with_fd :
    (k : Kernel) (i : ℕ) (d : FileDescriptor) (j : ℕ)
    → (current (with_fd k i d)).fd j ≡ (if j == i then d else (current k).fd j)
fd-with_fd k i d j =
    let here : (k.tasks_running == k.tasks_running) ≡ true = ground arith in rw here

-- A call that failed to open leaves which descriptors are in use.
pub record Refused (k k' : Kernel) : Type 0 where
  pub flags_kept : (j : ℕ) → ((current k').fd j).flags ≡ ((current k).fd j).flags
  pub running : k'.tasks_running ≡ k.tasks_running

-- A call that opened `r` found it free, with all below it in use, and changes no other descriptor.
pub record Opened (k : Kernel) (r : ℕ) (k' : Kernel) : Type 0 where
  pub low : 2 ≤ r
  pub high : r < 8
  pub was_free : ((current k).fd r).flags ≡ 0
  pub below_used : (j : ℕ) → 2 ≤ j → j < r → ((current k).fd j).flags ≢ 0
  pub in_use : ((current k').fd r).flags ≡ 1
  pub has_table : ((current k').fd r).fops_table ≢ none
  pub others_kept : (j : ℕ) → j ≢ r → (current k').fd j ≡ (current k).fd j
  pub running : k'.tasks_running ≡ k.tasks_running

abbrev pub OpenResult : Kernel → ℕ → List ℕ → Kernel → Type 0
OpenResult k r out k' = (r ≡ minus_one) × Refused k k' ⊎ Opened k r k'

pub find_fd-some :
    (n i : ℕ) (fds : ℕ → FileDescriptor) (r : ℕ)
    → find_fd n i fds ≡ some r
    → (i ≤ r) × (r < i + n) × ((fds r).flags ≡ 0) × ((j : ℕ) → i ≤ j → j < r → (fds j).flags ≢ 0)
find_fd-some zero i fds r e = unfold find_fd in cc
find_fd-some (suc n) i fds r e = elim (ℕ_discrete (fds i).flags 0) [
  | yes free ↦
      let first : find_fd (suc n) i fds ≡ some i = unfold find_fd in ground arith in
      let here : i ≡ r = some_inv i r (sym first ∙ e) in
      (omega arith, omega arith, rw (← here) free, λ j lo hi. absurd (omega arith))
  | no used ↦
      let later : find_fd (suc n) i fds ≡ find_fd n (i + 1) fds = unfold find_fd in ground arith in
      let (lo, hi, free, before) = find_fd-some n (i + 1) fds r (sym later ∙ e) in
      (
        omega arith,
        omega arith,
        free,
        λ j lo' hi' z. elim (ℕ_discrete i j) [
          | yes here ↦ used (rw here z)
          | no other ↦ before j (omega arith) hi' z
        ],
      )
]

-- The descriptor at a free position, with another table.
module _ (k : Kernel) (i : ℕ) (low : 2 ≤ i) (high : i < 8) (free : ((current k).fd i).flags ≡ 0)
    (below : (j : ℕ) → 2 ≤ j → j < i → ((current k).fd j).flags ≢ 0) where
  refused_lem : (d : FileDescriptor) → d.flags ≡ 0 → Refused k (with_fd k i d)
  refused_lem d z = record { flags_kept = λ j. ground (arith, fd-with_fd k i d j); running = refl }

  opened_lem :
      (k1 : Kernel) (d : FileDescriptor)
      → k1.tasks_running ≡ k.tasks_running
      → k1.pcbs ≡ k.pcbs
      → d.flags ≡ 1
      → d.fops_table ≢ none
      → Opened k i (with_fd k1 i d)
  opened_lem k1 d r p f t =
      let same : (j : ℕ) → (current k1).fd j ≡ (current k).fd j =
        λ j. ap₂ (λ (q : ℕ → Pcb) (n : ℕ). (q n).fd j) p r in
      let here : (i == i) ≡ true = ground arith in
      let at : (current (with_fd k1 i d)).fd i ≡ d = fd-with_fd k1 i d i ∙ rw here in
      record {
        low = low;
        high = high;
        was_free = free;
        below_used = below;
        in_use = rw at f;
        has_table = rw at t;
        others_kept = λ j h.
            (let other : (j == i) ≡ false = ground arith in
              fd-with_fd k1 i d j ∙ rw other (same j));
        running = r;
      }

  install_lem :
      (d : FileDescriptor) (stored : Option ℕ)
      → d.flags ≡ 0
      → d.fops_table ≢ none
      → Ensures (OpenResult k) (install k i d stored)
  unfolding install
  install_lem d none z t = inl (refl, refused_lem d z)
  install_lem d (some inode) z t = inr (opened_lem k _ refl refl refl t)

  run_open_lem :
      (d : FileDescriptor) (filename : List ℕ) (fops : Option Fops)
      → d.flags ≡ 0
      → d.fops_table ≡ fops
      → fops ≢ none
      → Ensures (OpenResult k) (run_open k i d filename fops)
  unfolding run_open
  run_open_lem d filename none z e n = absurd (n refl)
  run_open_lem d filename (some Fops.rtc_fops) z e n =
      inr (opened_lem _ _ refl refl refl (λ q. n (sym e ∙ q)))
  run_open_lem d filename (some Fops.stdin_fops) z e n =
      inr (opened_lem _ _ refl refl refl (λ q. n (sym e ∙ q)))
  run_open_lem d filename (some Fops.stdout_fops) z e n =
      inr (opened_lem _ _ refl refl refl (λ q. n (sym e ∙ q)))
  run_open_lem d filename (some Fops.dir_fops) z e n =
      install_lem d (dir_open k.fs filename) z (λ q. n (sym e ∙ q))
  run_open_lem d filename (some Fops.file_fops) z e n =
      install_lem d (file_open k.fs filename) z (λ q. n (sym e ∙ q))

  fops_of_type_some : (type : ℕ) (old : Option Fops) → type ≤ 2 → fops_of_type type old ≢ none
  unfolding fops_of_type
  fops_of_type_some type old h = ground arith

  open_at_lem :
      (filename : List ℕ)
      → ((j : ℕ) → j < 63 → (entries k.fs j).type ≤ 2)
      → Ensures (OpenResult k) (open_at k i filename)
  unfolding open_at
  open_at_lem filename types = elim (Option-cases (read_dentry_by_name k.fs filename 1)) [
    | inl missing ↦ rw (missing, Ensures) (inl (refl, refused_lem _ free))
    | inr (dentry, found) ↦
        let (j, inside, at) = read_dentry_by_name_entry k.fs filename 1 dentry found in
        let type : dentry.type ≤ 2 = rw at (types j inside) in
        rw (found, Ensures)
          (run_open_lem _ filename _ free refl (fops_of_type_some dentry.type _ type))
  ]

-- In a file system whose entries have the types 0 to 2, `syscall_open` always returns. It either
-- fails, with the descriptors in use unchanged, or returns the lowest free descriptor from 2 to 7,
-- which is then in use and has a table of operations; the other descriptors are as before.
pub syscall_open_lem :
    (k : Kernel) (pointer : ℕ) (filename : List ℕ)
    → ((j : ℕ) → j < 63 → (entries k.fs j).type ≤ 2)
    → Ensures (OpenResult k) (syscall_open k pointer filename)
unfolding syscall_open
syscall_open_lem k pointer filename types =
    elim (Bool-cases (pointer == 0 || head_or filename == 0)) [
      | inl null ↦ rw null (inl (refl, kept))
      | inr given ↦ elim (Option-cases (find_fd 6 2 (current k).fd)) [
        | inl full ↦ rw (given, full) (inl (refl, kept))
        | inr (i, found) ↦
            let (low, high, free, below) = find_fd-some 6 2 (current k).fd i found in
            rw (given, found) (open_at_lem k i low high free below filename types)
      ]
    ]
  where
    kept : Refused k k
    kept = record { flags_kept = λ j. refl; running = refl }

find_fd_full :
    (n i : ℕ) (fds : ℕ → FileDescriptor)
    → ((j : ℕ) → i ≤ j → j < i + n → (fds j).flags ≢ 0)
    → find_fd n i fds ≡ none
unfolding find_fd
find_fd_full zero i fds h = refl
find_fd_full (suc n) i fds h =
    ground (arith, h i, find_fd_full n (i + 1) fds (λ j lo hi. h j (omega arith) (omega arith)))

-- `syscall_open` of NULL, of the empty name and with the descriptors 2 to 7 in use returns -1 and
-- changes nothing.
pub syscall_open_refused :
    (k : Kernel) (pointer : ℕ) (filename : List ℕ)
    → ((pointer ≡ 0) ⊎ (head_or filename ≡ 0) → syscall_open k pointer filename ≡ fails k)
      × (((i : ℕ) → 2 ≤ i → i < 8 → ((current k).fd i).flags ≢ 0)
          → syscall_open k pointer filename ≡ fails k)
unfolding syscall_open
syscall_open_refused k pointer filename = (given, full)
  where
    given : (pointer ≡ 0) ⊎ (head_or filename ≡ 0) → syscall_open k pointer filename ≡ fails k
    given h = let null : pointer == 0 || head_or filename == 0 ≡ true = ground arith in rw null

    full :
        ((i : ℕ) → 2 ≤ i → i < 8 → ((current k).fd i).flags ≢ 0)
        → syscall_open k pointer filename ≡ fails k
    full h =
        let none_free = find_fd_full 6 2 (current k).fd (λ j lo hi. h j lo hi) in
        elim (Bool-cases (pointer == 0 || head_or filename == 0)) [
          | inl null ↦ rw null
          | inr given ↦ rw (given, none_free)
        ]
