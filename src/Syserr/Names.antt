-- ===== src/Syserr/Names.antt =====
-- The tests `err_open` and `err_syscall_num` of syscalls/ece391syserr.c.

use native.Mathlib.Decide.{ℕ_discrete}
use native.Mathlib.Nat.{suc-ne-zero}
use linux_os.Fs.{is_positive}
use linux_os.Prelude.{
  ◌⊎◌, leb, ◌&&◌, ℕ, ◌≤◌, ◌<◌, ◌≡◌, ◌≢◌, ◌∙◌, refl, ap, inl, inr, List, [], some, none, false, ◌==◌,
  ◌||◌, arith,
}
use linux_os.Prelude.Text.{codes}
use linux_os.Strings.{head_or}
use linux_os.Fs.{FileSystem, read_dentry_by_name}
use linux_os.Kernel.{Kernel, FileDescriptor, current, with_fd}
use linux_os.FileCalls.{Outcome, fails, syscall_open, open_at, fops_of_name}
use linux_os.FileCalls.Open.{syscall_open_refused}
use linux_os.Support.{ece391_strlen}
use linux_os.Programs.Output.{shown, with_line, kept-HasOutput}
use linux_os.Syserr.{big_fd, neg_fd, expect_error, checked}
use linux_os.Syserr.Pass.{expect-fails, verdict-pass}
use linux_os.Syserr.Slots.{find_fd-first, fd-same, fd-other}
use linux_os.Syserr.Lots.{Ready, Passes, line-Ready}
use linux_os.Syserr.Opens.{err_open, call_sys, err_syscall_num}

-- A name that is not in the directory: the call fails, and at most the table of a free descriptor
-- has changed.
open_missing :
    (fs : FileSystem) (k : Kernel) (pointer : ℕ) (name : List ℕ)
    → pointer ≢ 0
    → head_or name ≢ 0
    → read_dentry_by_name fs name 1 ≡ none
    → Ready fs k
    → (k' : Kernel) × (syscall_open k pointer name ≡ fails k')
      × Ready fs k'
      × (k'.terminals ≡ k.terminals)
open_missing fs k pointer name a named missing r =
    let first =
      find_fd-first 6 2 2 (current k).fd (omega arith) (omega arith)
        (λ j lo hi. absurd (omega arith)) (r.free 2 (omega arith) (omega arith)) in
    let given : (pointer == 0 || head_or name == 0) ≡ false = ground arith in
    let entry : read_dentry_by_name k.fs name 1 ≡ none =
      ap (λ (f : FileSystem). read_dentry_by_name f name 1) r.disk ∙ missing in
    let d : FileDescriptor = record ((current k).fd 2) {
      fops_table = fops_of_name name ((current k).fd 2).fops_table;
    } in
    let kept : (current (with_fd k 2 d)).fd 1 ≡ (current k).fd 1 = fd-other k 2 1 d (omega arith) in
    let free : (j : ℕ) → 2 ≤ j → j < 8 → ((current (with_fd k 2 d)).fd j).flags ≡ 0 = (λ j lo hi.
      elim (ℕ_discrete j 2) [
        | yes e ↦ rw (e, fd-same k 2 d) (r.free 2 (omega arith) (omega arith))
        | no ne ↦ rw (fd-other k 2 j d ne) (r.free j lo hi)
      ]) in
    (
      with_fd k 2 d,
      unfold syscall_open open_at in rw (given, first) (rw (entry, open_at) refl),
      record {
        disk = r.disk;
        output = kept-HasOutput k (with_fd k 2 d) kept r.output;
        free = free;
      },
      refl,
    )

expect_lem :
    (message : List ℕ) (call : Kernel → Outcome) (fail : ℕ) (k k' : Kernel)
    → call k ≡ fails k'
    → expect_error message call (some (fail, k)) ≡ some (fail, k')
unfolding expect_error checked
expect_lem message call fail k k' e = rw e refl

pub err_open_lem :
    (fs : FileSystem) (a1 a2 a3 : ℕ) (k : Kernel)
    → a1 ≢ 0
    → a2 ≢ 0
    → read_dentry_by_name fs (codes "helloo") 1 ≡ none
    → read_dentry_by_name fs (codes "shel") 1 ≡ none
    → Ready fs k
    → Passes fs (codes "err_open: PASS\n") (err_open a1 a2 a3) k
unfolding err_open
err_open_lem fs a1 a2 a3 k n1 n2 no_helloo no_shel r =
    let (k1, opens1, r1, t1) =
      open_missing fs k a1 (codes "helloo") n1 (suc-ne-zero 103) no_helloo r in
    let (k2, opens2, r2, t2) =
      open_missing fs k1 a2 (codes "shel") n2 (suc-ne-zero 114) no_shel r1 in
    let refused = (syscall_open_refused k2 a3 []).0 (inr refl) in
    let line = codes "err_open: PASS\n" in
    let told =
      verdict-pass line (codes "err_open: FAIL\n") k2 r2.output (unfold ece391_strlen in refl) in
    (
      with_line line k2,
      rw
          (
            expect_lem (codes "'helloo' fail\n") (λ k'. syscall_open k' a1 (codes "helloo")) 0 k k1
                opens1,
            expect_lem (codes "'shel' fail\n") (λ k'. syscall_open k' a2 (codes "shel")) 0 k1 k2
                opens2,
            expect_lem (codes "empty string fail\n") (λ k'. syscall_open k' a3 []) 0 k2 k2 refused,
          )
          told,
      line-Ready fs line k2 r2,
      ap (shown line) (t2 ∙ t1),
    )

-- A number that is 0, above 10 or negative is refused.
call_sys_refused :
    (valid : ℕ → Kernel → Outcome) (num : ℕ) (k : Kernel)
    → (num ≡ 0) ⊎ (10 < num)
    → call_sys valid num k ≡ fails k
unfolding call_sys
call_sys_refused valid num k h =
    let out_of_range : (is_positive num && leb num 10) ≡ false = ground arith in
    rw out_of_range refl

pub err_syscall_num_lem :
    (fs : FileSystem) (valid : ℕ → Kernel → Outcome) (k : Kernel)
    → Ready fs k
    → Passes fs (codes "err_syscall_num: PASS\n") (err_syscall_num valid) k
unfolding err_syscall_num
err_syscall_num_lem fs valid k r =
    let line = codes "err_syscall_num: PASS\n" in
    let told =
      verdict-pass line (codes "err_syscall_num: FAIL\n") k r.output
        (unfold ece391_strlen in refl) in
    (
      with_line line k,
      rw
          (
            expect-fails (codes "syscall 0 fail\n") (call_sys valid big_fd) 0 k
                (call_sys_refused valid big_fd k (inr (omega arith))),
            expect-fails (codes "big num syscall fail\n") (call_sys valid neg_fd) 0 k
                (call_sys_refused valid neg_fd k (inr (omega arith))),
            expect-fails (codes "neg num syscall fail\n") (call_sys valid 0) 0 k
                (call_sys_refused valid 0 k (inl refl)),
          )
          told,
      line-Ready fs line k r,
      refl,
    )
