-- ===== src/Programs/Descriptor.antt =====
-- The descriptor that a user program reads from.
use native.Mathlib.Nat.{suc-ne-zero}
use mathlib.Core.Path.{subst}
use linux_os.Prelude.{ℕ, ◌<◌, ◌≡◌, ◌≢◌, ◌∙◌, ap, sym, refl, some, true, false, ◌==◌, arith}
use linux_os.Terminal.{Terminals}
use linux_os.Kernel.{Kernel, FileDescriptor, Fops, current, with_fd}
use linux_os.FileCalls.{find_fd}
use linux_os.FileCalls.Open.{fd-with_fd, find_fd-some}
use linux_os.Programs.Output.{HasOutput, kept-HasOutput}

-- The descriptor `fd` has the operations `ops`, and is at the position `p`.
pub record Holds (ops : Fops) (k : Kernel) (fd inode p : ℕ) : Type 0 where
  pub low : 1 < fd
  pub high : fd < 8
  pub used : ((current k).fd fd).flags ≢ 0
  pub table : ((current k).fd fd).fops_table ≡ some ops
  pub content : ((current k).fd fd).inode ≡ inode
  pub position : ((current k).fd fd).file_position ≡ p
  pub output : HasOutput k

-- The descriptor is replaced.
with_fd-Holds :
    (ops : Fops) (k : Kernel) (fd : ℕ) (d : FileDescriptor) (t : Terminals)
    → 1 < fd
    → fd < 8
    → d.flags ≢ 0
    → d.fops_table ≡ some ops
    → HasOutput k
    → Holds ops (record (with_fd k fd d) { terminals = t }) fd d.inode d.file_position
with_fd-Holds ops k fd d t low high used table output =
    let here : (fd == fd) ≡ true = ground arith in
    let other : (1 == fd) ≡ false = ground arith in
    let at : (current (with_fd k fd d)).fd fd ≡ d = fd-with_fd k fd d fd ∙ rw here refl in
    let kept : (current (with_fd k fd d)).fd 1 ≡ (current k).fd 1 =
      fd-with_fd k fd d 1 ∙ rw other refl in
    record {
      low = low;
      high = high;
      used = λ e. used (sym (ap (λ (x : FileDescriptor). x.flags) at) ∙ e);
      table = ap (λ (x : FileDescriptor). x.fops_table) at ∙ table;
      content = ap (λ (x : FileDescriptor). x.inode) at;
      position = ap (λ (x : FileDescriptor). x.file_position) at;
      output = kept-HasOutput k _ kept output;
    }

-- The position moves on, and the terminals change.
pub move-Holds :
    (ops : Fops) (k : Kernel) (fd inode p q : ℕ) (t : Terminals)
    → Holds ops k fd inode p
    → Holds ops
        (record (with_fd k fd (record ((current k).fd fd) { file_position = q })) { terminals = t })
        fd
        inode
        q
move-Holds ops k fd inode p q t on =
    subst
      (λ i.
        Holds ops
          (record (with_fd k fd (record ((current k).fd fd) { file_position = q })) {
            terminals = t;
          })
          fd i q)
      on.content
      (with_fd-Holds ops k fd (record ((current k).fd fd) { file_position = q }) t on.low on.high
        on.used on.table on.output)

-- A descriptor that was free is opened at its start.
pub open-Holds :
    (ops : Fops) (k : Kernel) (fd inode : ℕ)
    → find_fd 6 2 (current k).fd ≡ some fd
    → ((current k).fd fd).file_position ≡ 0
    → HasOutput k
    → Holds ops
        (with_fd k fd
          (record ((current k).fd fd) { fops_table = some ops; inode = inode; flags = 1 }))
        fd
        inode
        0
open-Holds ops k fd inode free start output =
    let (low, high, _, _) = find_fd-some 6 2 (current k).fd fd free in
    subst
      (λ p.
        Holds ops
          (with_fd k fd
            (record ((current k).fd fd) { fops_table = some ops; inode = inode; flags = 1 }))
          fd inode p)
      start
      (with_fd-Holds ops k fd
        (record ((current k).fd fd) { fops_table = some ops; inode = inode; flags = 1 }) k.terminals
        (omega (arith, low)) (omega (arith, high)) (suc-ne-zero 0) refl output)
