-- ===== src/Syserr/Lots.antt =====
-- The test `err_open_lots` of syscalls/ece391syserr.c: six opens succeed, the seventh does not, and six
-- closes free the descriptors again.

use native.Mathlib.Nat.{suc-ne-zero}
use mathlib.Core.Path.{subst}
use linux_os.Prelude.{
  take, ℕ, zero, suc, ◌+◌, ◌≤◌, ◌<◌, ◌≡◌, ◌≢◌, ◌∙◌, refl, ap, List, [], some, false, ◌==◌, ltb,
  ◌||◌, arith, minus_one,
}
use linux_os.Prelude.Text.{codes}
use linux_os.Fs.{FileSystem, Dentry, read_dentry_by_name, dir_close}
use linux_os.Kernel.{Kernel, FileDescriptor, Fops, current, with_fd}
use linux_os.FileCalls.{returns, syscall_open, syscall_close, run_close}
use linux_os.FileCalls.Open.{syscall_open_refused}
use linux_os.Programs.Output.{shown, with_line, HasOutput}
use linux_os.Programs.Opening.{open_directory}
use linux_os.Console.{answer}
use linux_os.Console.Typing.{say-HasOutput}
use linux_os.Support.{ece391_strlen}
use linux_os.Programs.{Run, complain, ends_with, ece391_fdputs}
use linux_os.FileCalls.{syscall_write, run_write}
use linux_os.Syserr.Slots.{OpenTo, ClosedTo, find_fd-first, opened-OpenTo, closed-ClosedTo}
use linux_os.Syserr.Opens.{open_lots, close_up, err_open_lots}

module _ (fs : FileSystem) (k0 : Kernel) (dot : ℕ) (dentry : Dentry) (d : dot ≢ 0)
    (found : read_dentry_by_name fs (codes ".") 1 ≡ some dentry) (directory : dentry.type ≡ 1) where
  -- One open takes the first free descriptor.
  open_one :
      (n : ℕ) (k : Kernel)
      → 2 ≤ n
      → n < 8
      → OpenTo fs k0 n k
      → (k' : Kernel) × (syscall_open k dot (codes ".") ≡ returns n [] k') × OpenTo fs k0 (n + 1) k'
  open_one n k low high o =
      let first =
        find_fd-first 6 2 n (current k).fd low (omega arith) o.used (o.free n (omega arith) high) in
      let entry : read_dentry_by_name k.fs (codes ".") 1 ≡ some dentry =
        ap (λ (f : FileSystem). read_dentry_by_name f (codes ".") 1) o.runs.disk ∙ found in
      let taken : FileDescriptor = record ((current k).fd n) {
        fops_table = some Fops.dir_fops;
        inode = dentry.inode;
        flags = 1;
      } in
      (
        with_fd k n taken,
        open_directory k dot n (codes ".") dentry d (suc-ne-zero 45) first entry directory,
        opened-OpenTo fs k0 k n taken low (suc-ne-zero 0) refl o,
      )

  open_lots_lem :
      (rounds n : ℕ) (k : Kernel)
      → n + rounds ≡ 8
      → 2 ≤ n
      → OpenTo fs k0 n k
      → (k' : Kernel) × (open_lots dot (suc rounds) 0 k ≡ some (1, k')) × OpenTo fs k0 8 k'
  unfolding open_lots answer
  open_lots_lem zero n k e low o =
      let all : OpenTo fs k0 8 k = subst (λ m. OpenTo fs k0 m k) (omega arith) o in
      let full = (syscall_open_refused k dot (codes ".")).1 all.used in (k, rw full refl, all)
  open_lots_lem (suc rounds) n k e low o =
      let (k1, opens, o1) = open_one n k low (omega arith) o in
      let good : (n == minus_one) ≡ false = ground arith in
      let (k', goes, o2) = open_lots_lem rounds (n + 1) k1 (omega arith) (omega arith) o1 in
      (k', rw opens (rw good goes), o2)

close_one :
    (fs : FileSystem) (k0 : Kernel) (n : ℕ) (k : Kernel)
    → 2 ≤ n
    → n < 8
    → ClosedTo fs k0 n k
    → (k' : Kernel) × (syscall_close k n ≡ returns 0 [] k') × ClosedTo fs k0 (n + 1) k'
close_one fs k0 n k low high c =
    let old = (current k).fd n in
    let range : (ltb 7 n || ltb n 2) ≡ false = ground arith in
    let in_use : (old.flags == 0) ≡ false = ground (arith, c.used n (omega arith) high) in
    let dispatch : syscall_close k n ≡ run_close k n old old.fops_table =
      (unfold syscall_close in rw (range, in_use) refl) in
    let freed : FileDescriptor = record old {
      inode = (dir_close old.inode).0;
      file_position = 0;
      flags = 0;
    } in
    (
      with_fd k n freed,
      dispatch ∙ ap (run_close k n old) (c.table n (omega arith) high) ∙ (unfold run_close in refl),
      closed-ClosedTo fs k0 k n freed low refl c,
    )

close_up_lem :
    (fs : FileSystem) (k0 : Kernel) (rounds n : ℕ) (k : Kernel)
    → n + rounds ≡ 8
    → 2 ≤ n
    → ClosedTo fs k0 n k
    → (k' : Kernel) × (close_up rounds n k ≡ some k') × ClosedTo fs k0 8 k'
unfolding close_up answer
close_up_lem fs k0 zero n k e low c = (k, refl, subst (λ m. ClosedTo fs k0 m k) (omega arith) c)
close_up_lem fs k0 (suc rounds) n k e low c =
    let (k1, closes, c1) = close_one fs k0 n k low (omega arith) c in
    let (k', goes, c2) = close_up_lem fs k0 rounds (n + 1) k1 (omega arith) (omega arith) c1 in
    (k', rw closes goes, c2)

-- A task with the terminal as its output and no other descriptor in use.
pub record Ready (fs : FileSystem) (k : Kernel) : Type 0 where
  pub disk : k.fs ≡ fs
  pub output : HasOutput k
  pub free : (j : ℕ) → 2 ≤ j → j < 8 → ((current k).fd j).flags ≡ 0

-- A test passes: it ends with 0, shows its line, and leaves the task as ready as before.
abbrev pub Passes : FileSystem → List ℕ → (Kernel → Run) → Kernel → Type 0
Passes fs line test k =
    (k' : Kernel) × (test k ≡ some (0, k')) × Ready fs k' × (k'.terminals ≡ shown line k.terminals)

pub complain_lem :
    (message : List ℕ) (ret : ℕ) (k : Kernel)
    → HasOutput k
    → take (ece391_strlen message) message ≡ message
    → complain message ret k ≡ some (ret, with_line message k)
unfolding complain ends_with ece391_fdputs syscall_write run_write HasOutput
complain_lem message ret k (used, table) whole =
    let in_use : (((current k).fd 1).flags == 0) ≡ false = ground arith in
    rw (in_use, table, whole) refl

pub line-Ready :
    (fs : FileSystem) (line : List ℕ) (k : Kernel) → Ready fs k → Ready fs (with_line line k)
line-Ready fs line k r = record {
  disk = r.disk;
  output = say-HasOutput line k r.output;
  free = r.free;
}

pub err_open_lots_lem :
    (fs : FileSystem) (dot : ℕ) (dentry : Dentry) (k : Kernel)
    → dot ≢ 0
    → read_dentry_by_name fs (codes ".") 1 ≡ some dentry
    → dentry.type ≡ 1
    → Ready fs k
    → Passes fs (codes "err_open_lots: PASS\n") (err_open_lots dot) k
unfolding err_open_lots
err_open_lots_lem fs dot dentry k d found directory r =
    let start : OpenTo fs k 2 k = record {
      runs = record { disk = r.disk; output = r.output; terminals = refl };
      used = λ j lo hi. absurd (omega arith);
      table = λ j lo hi. absurd (omega arith);
      free = r.free;
    } in
    let (k1, opens, o) =
      open_lots_lem fs k dot dentry d found directory 6 2 k refl (omega arith) start in
    let full : ClosedTo fs k 2 k1 = record {
      runs = o.runs;
      free = λ j lo hi. absurd (omega arith);
      used = o.used;
      table = o.table;
    } in
    let (k2, closes, c) = close_up_lem fs k 6 2 k1 refl (omega arith) full in
    let line = codes "err_open_lots: PASS\n" in
    let told = complain_lem line 0 k2 c.runs.output (unfold ece391_strlen in refl) in
    let ready : Ready fs k2 = record {
      disk = c.runs.disk;
      output = c.runs.output;
      free = c.free;
    } in
    (
      with_line line k2,
      rw opens (rw closes told),
      line-Ready fs line k2 ready,
      ap (shown line) c.runs.terminals,
    )
