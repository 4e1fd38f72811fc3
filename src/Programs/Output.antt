-- ===== src/Programs/Output.antt =====
-- What a user program shows on the terminal by its writes.

use linux_os.Prelude.{
  ℕ, ◌≤◌, ◌≡◌, ◌≢◌, ◌∙◌, ap, sym, refl, List, [], ◌∷◌, ◌++◌, some, false, ◌==◌, minus_one, length,
  take, drop, arith,
}
use linux_os.Screen.{putc}
use linux_os.Terminal.{Terminals, terminal_write}
use linux_os.Kernel.{Kernel, FileDescriptor, Fops, current}
use linux_os.FileCalls.{syscall_write, run_write}
use linux_os.Programs.{Run, placed, write_out, after_write}

-- What the terminals are when bytes have been written.
abbrev pub shown : List ℕ → Terminals → Terminals
shown bytes t = (terminal_write bytes t).1

-- The kernel after bytes on the terminal.
abbrev pub with_line : List ℕ → Kernel → Kernel
with_line line k = record k { terminals = shown line k.terminals }

pub shown-append : (a b : List ℕ) (t : Terminals) → shown (a ++ b) t ≡ shown b (shown a t)
unfolding terminal_write
shown-append [] b t = refl
shown-append (c ∷ a) b t = shown-append a b (record t { screen = putc c t.screen })

pub written_small : (bytes : List ℕ) (t : Terminals) → (terminal_write bytes t).0 ≤ length bytes
unfolding terminal_write
written_small [] t = omega arith
written_small (c ∷ bytes) t =
    let rest = written_small bytes (record t { screen = putc c t.screen }) in ground (arith, rest)

pub take-placed : (out bytes : List ℕ) → take (length out) (placed out bytes) ≡ out
take-placed out bytes = go out (drop (length out) bytes)
  where
    go : (out rest : List ℕ) → take (length out) (out ++ rest) ≡ out
    go [] rest = refl
    go (c ∷ out) rest = ap (λ s. c ∷ s) (go out rest)

-- The task's output is the terminal's.
unfoldable pub HasOutput : Kernel → Type 0
HasOutput k =
    (((current k).fd 1).flags ≢ 0) × (((current k).fd 1).fops_table ≡ some Fops.stdout_fops)

pub kept-HasOutput :
    (k k' : Kernel) → (current k').fd 1 ≡ (current k).fd 1 → HasOutput k → HasOutput k'
unfolding HasOutput
kept-HasOutput k k' kept (used, table) = (
  λ e. used (sym (ap (λ (x : FileDescriptor). x.flags) kept) ∙ e),
  ap (λ (x : FileDescriptor). x.fops_table) kept ∙ table,
)

-- A write of a chunk on the terminal succeeds.
pub write_out_lem :
    (next : Kernel → Run) (k : Kernel) (out held : List ℕ) (n : ℕ)
    → HasOutput k
    → take n held ≡ out
    → length out ≤ 1024
    → after_write next (write_out k 1 held n)
      ≡ next (record k { terminals = shown out k.terminals })
unfolding after_write syscall_write run_write HasOutput
write_out_lem next k out held n (used, table) taken small =
    let in_use : (((current k).fd 1).flags == 0) ≡ false = ground arith in
    let good : ((terminal_write out k.terminals).0 == minus_one) ≡ false =
      ground (arith, written_small out k.terminals) in
    rw (in_use, table, taken, good) refl
