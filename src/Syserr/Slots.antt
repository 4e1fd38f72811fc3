-- ===== src/Syserr/Slots.antt =====
-- The descriptors of a task while the test `err_open_lots` of syscalls/ece391syserr.c opens and closes
-- them.
use native.Mathlib.Decide.{ℕ_discrete}
use mathlib.Core.Path.{subst}
use linux_os.Prelude.{
  ℕ, zero, suc, ◌+◌, ◌≤◌, ◌<◌, ◌≡◌, ◌≢◌, ◌∙◌, refl, sym, ap, some, true, false, ◌==◌, arith,
}
use linux_os.Fs.{FileSystem}
use linux_os.Kernel.{Kernel, FileDescriptor, Fops, current, with_fd}
use linux_os.FileCalls.{find_fd}
use linux_os.FileCalls.Open.{fd-with_fd}
use linux_os.Programs.Output.{HasOutput, kept-HasOutput}

-- The file system and the output of a task, with the terminals that it has.
pub record Runs (fs : FileSystem) (k0 k : Kernel) : Type 0 where
  pub disk : k.fs ≡ fs
  pub output : HasOutput k
  pub terminals : k.terminals ≡ k0.terminals

-- The descriptors from 2 up to `n` are directories in use, and those behind are free.
pub record OpenTo (fs : FileSystem) (k0 : Kernel) (n : ℕ) (k : Kernel) : Type 0 where
  pub runs : Runs fs k0 k
  pub used : (j : ℕ) → 2 ≤ j → j < n → ((current k).fd j).flags ≢ 0
  pub table : (j : ℕ) → 2 ≤ j → j < n → ((current k).fd j).fops_table ≡ some Fops.dir_fops
  pub free : (j : ℕ) → n ≤ j → j < 8 → ((current k).fd j).flags ≡ 0

-- The descriptors from 2 up to `n` are free, and those behind are directories in use.
pub record ClosedTo (fs : FileSystem) (k0 : Kernel) (n : ℕ) (k : Kernel) : Type 0 where
  pub runs : Runs fs k0 k
  pub free : (j : ℕ) → 2 ≤ j → j < n → ((current k).fd j).flags ≡ 0
  pub used : (j : ℕ) → n ≤ j → j < 8 → ((current k).fd j).flags ≢ 0
  pub table : (j : ℕ) → n ≤ j → j < 8 → ((current k).fd j).fops_table ≡ some Fops.dir_fops

pub find_fd-first :
    (rounds i n : ℕ) (fds : ℕ → FileDescriptor)
    → i ≤ n
    → n < i + rounds
    → ((j : ℕ) → i ≤ j → j < n → (fds j).flags ≢ 0)
    → (fds n).flags ≡ 0
    → find_fd rounds i fds ≡ some n
unfolding find_fd
find_fd-first zero i n fds le lt used free = absurd (omega arith)
find_fd-first (suc rounds) i n fds le lt used free = elim (ℕ_discrete i n) [
  | yes e ↦
      let here : ((fds i).flags == 0) ≡ true =
        subst (λ m. ((fds m).flags == 0) ≡ true) (sym e) (ground arith) in
      rw here (ap (λ m. some m) e)
  | no ne ↦
      let taken = used i (omega arith) (omega arith) in
      let busy : ((fds i).flags == 0) ≡ false = ground arith in
      rw busy (
        find_fd-first rounds (i + 1) n fds (omega arith) (omega arith)
          (λ j lo hi. used j (omega arith) hi) free)
]

-- Another descriptor changes nothing.
with_fd-Runs :
    (fs : FileSystem) (k0 k : Kernel) (n : ℕ) (d : FileDescriptor)
    → 2 ≤ n
    → Runs fs k0 k
    → Runs fs k0 (with_fd k n d)
with_fd-Runs fs k0 k n d le r =
    let other : (1 == n) ≡ false = ground arith in
    let kept : (current (with_fd k n d)).fd 1 ≡ (current k).fd 1 =
      fd-with_fd k n d 1 ∙ rw other refl in
    record {
      disk = r.disk;
      output = kept-HasOutput k (with_fd k n d) kept r.output;
      terminals = r.terminals;
    }

pub fd-same : (k : Kernel) (n : ℕ) (d : FileDescriptor) → (current (with_fd k n d)).fd n ≡ d
fd-same k n d = let here : (n == n) ≡ true = ground arith in fd-with_fd k n d n ∙ rw here refl

pub fd-other :
    (k : Kernel) (n j : ℕ) (d : FileDescriptor)
    → j ≢ n
    → (current (with_fd k n d)).fd j ≡ (current k).fd j
fd-other k n j d ne =
    let there : (j == n) ≡ false = ground arith in fd-with_fd k n d j ∙ rw there refl

pub opened-OpenTo :
    (fs : FileSystem) (k0 k : Kernel) (n : ℕ) (d : FileDescriptor)
    → 2 ≤ n
    → d.flags ≢ 0
    → d.fops_table ≡ some Fops.dir_fops
    → OpenTo fs k0 n k
    → OpenTo fs k0 (n + 1) (with_fd k n d)
opened-OpenTo fs k0 k n d le used table o = record {
  runs = with_fd-Runs fs k0 k n d le o.runs;
  used = λ j lo hi. elim (ℕ_discrete j n) [
    | yes e ↦ rw (e, fd-same k n d) used
    | no ne ↦ rw (fd-other k n j d ne) (o.used j lo (omega arith))
  ];
  table = λ j lo hi. elim (ℕ_discrete j n) [
    | yes e ↦ rw (e, fd-same k n d) table
    | no ne ↦ rw (fd-other k n j d ne) (o.table j lo (omega arith))
  ];
  free = λ j lo hi. rw (fd-other k n j d (omega arith)) (o.free j (omega arith) hi);
}

pub closed-ClosedTo :
    (fs : FileSystem) (k0 k : Kernel) (n : ℕ) (d : FileDescriptor)
    → 2 ≤ n
    → d.flags ≡ 0
    → ClosedTo fs k0 n k
    → ClosedTo fs k0 (n + 1) (with_fd k n d)
closed-ClosedTo fs k0 k n d le freed c = record {
  runs = with_fd-Runs fs k0 k n d le c.runs;
  free = λ j lo hi. elim (ℕ_discrete j n) [
    | yes e ↦ rw (e, fd-same k n d) freed
    | no ne ↦ rw (fd-other k n j d ne) (c.free j lo (omega arith))
  ];
  used = λ j lo hi. rw (fd-other k n j d (omega arith)) (c.used j (omega arith) hi);
  table = λ j lo hi. rw (fd-other k n j d (omega arith)) (c.table j (omega arith) hi);
}
