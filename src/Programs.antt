-- ===== src/Programs.antt =====
-- User programs over the kernel's system calls: syscalls/ece391cat.c and syscalls/ece391ls.c. A program
-- is a function of the kernel's state; `none` says that a call does not return, or that the rounds
-- given are over. The list `bytes` is what the program's buffer holds, `buf` is its address.
pub mod Output
pub mod Descriptor
pub mod Reading
pub mod Opening
pub mod Cat
pub mod Clock
pub mod Ls
use linux_os.Prelude.{
  ℕ, zero, suc, ◌+◌, ◌*◌, ◌^◌, List, [], ◌∷◌, ◌++◌, Option, none, some, ◌==◌, if◌then◌else◌,
  minus_one, length, get_or, set, take, drop,
}
use linux_os.Kernel.{Kernel}
use linux_os.FileCalls.{
  Outcome, returns, spins, faults, Interrupts, syscall_open, syscall_read, syscall_write,
}
use linux_os.TaskCalls.{syscall_getargs}
use linux_os.Support.{ece391_strlen}

-- How a run ends: the value of `main` and the kernel.
abbrev pub Run : Type 0
Run = Option (ℕ × Kernel)

-- The bytes that a call placed at the start of the buffer.
abbrev pub placed : List ℕ → List ℕ → List ℕ
placed out bytes = out ++ drop (length out) bytes

-- The first four bytes as a number.
abbrev pub word_at : List ℕ → ℕ
word_at bytes =
    get_or bytes 0 0
    + 2 ^ 8 * get_or bytes 1 0
    + 2 ^ 16 * get_or bytes 2 0
    + 2 ^ 24 * get_or bytes 3 0

-- A write of the first `n` bytes.
abbrev pub write_out : Kernel → ℕ → List ℕ → ℕ → Outcome
write_out k fd bytes n = syscall_write k fd (take n bytes) (word_at bytes) n

unfoldable pub ece391_fdputs : Kernel → ℕ → List ℕ → Outcome
ece391_fdputs k fd s = write_out k fd s (ece391_strlen s)

abbrev pub no_arguments : List ℕ
no_arguments =
    b'c' ∷ b'o' ∷ b'u' ∷ b'l' ∷ b'd' ∷ 32 ∷ b'n' ∷ b'o' ∷ b't' ∷ 32 ∷ b'r' ∷ b'e' ∷ b'a' ∷ b'd' ∷ 32
    ∷ b'a' ∷ b'r' ∷ b'g' ∷ b'u' ∷ b'm' ∷ b'e' ∷ b'n' ∷ b't' ∷ b's' ∷ 10 ∷ []

abbrev pub no_file : List ℕ
no_file =
    b'f' ∷ b'i' ∷ b'l' ∷ b'e' ∷ 32 ∷ b'n' ∷ b'o' ∷ b't' ∷ 32 ∷ b'f' ∷ b'o' ∷ b'u' ∷ b'n' ∷ b'd' ∷ 10
    ∷ []

abbrev pub file_failed : List ℕ
file_failed =
    b'f' ∷ b'i' ∷ b'l' ∷ b'e' ∷ 32 ∷ b'r' ∷ b'e' ∷ b'a' ∷ b'd' ∷ 32 ∷ b'f' ∷ b'a' ∷ b'i' ∷ b'l'
    ∷ b'e' ∷ b'd' ∷ 10 ∷ []

abbrev pub no_directory : List ℕ
no_directory =
    b'd' ∷ b'i' ∷ b'r' ∷ b'e' ∷ b'c' ∷ b't' ∷ b'o' ∷ b'r' ∷ b'y' ∷ 32 ∷ b'o' ∷ b'p' ∷ b'e' ∷ b'n'
    ∷ 32 ∷ b'f' ∷ b'a' ∷ b'i' ∷ b'l' ∷ b'e' ∷ b'd' ∷ 10 ∷ []

abbrev pub entry_failed : List ℕ
entry_failed =
    b'd' ∷ b'i' ∷ b'r' ∷ b'e' ∷ b'c' ∷ b't' ∷ b'o' ∷ b'r' ∷ b'y' ∷ 32 ∷ b'e' ∷ b'n' ∷ b't' ∷ b'r'
    ∷ b'y' ∷ 32 ∷ b'r' ∷ b'e' ∷ b'a' ∷ b'd' ∷ 32 ∷ b'f' ∷ b'a' ∷ b'i' ∷ b'l' ∷ b'e' ∷ b'd' ∷ 10 ∷ []

-- A message on the terminal, and the value that `main` returns.
unfoldable pub ends_with : ℕ → Outcome → Run
ends_with ret (returns r out k) = some (ret, k)
ends_with ret spins = none
ends_with ret faults = none

unfoldable pub complain : List ℕ → ℕ → Kernel → Run
complain message ret k = ends_with ret (ece391_fdputs k 1 message)

-- Behind a write in a loop: the next round, or the value 3.
unfoldable pub after_write : (Kernel → Run) → Outcome → Run
after_write next (returns r out k) =
    let rest = next k in if r == minus_one then some (3, k) else rest
after_write next spins = none
after_write next faults = none

module _ (buf : ℕ) (env : ℕ → Interrupts) where
  -- Behind the read: what the program does with `cnt` bytes, then the rest of the rounds.
  unfoldable pub cat_chunk : (List ℕ → Kernel → Run) → List ℕ → Outcome → Run
  unfolding after_write complain
  cat_chunk next bytes (returns cnt out k) =
      let held = placed out bytes in
      let rest = after_write (next held) (write_out k 1 held cnt) in
      if cnt == 0 then some (0, k) else if cnt == minus_one then complain file_failed 3 k else rest
  cat_chunk next bytes spins = none
  cat_chunk next bytes faults = none

  -- The loop: `rounds` reads at most, each with the interrupts of its round.
  unfoldable pub cat_loop : ℕ → ℕ → List ℕ → Kernel → Run
  unfolding cat_chunk
  cat_loop zero fd bytes k = none
  cat_loop (suc rounds) fd bytes k =
      cat_chunk (cat_loop rounds fd) bytes (syscall_read (env rounds) k fd buf 1024)

  unfoldable pub cat_opened : ℕ → List ℕ → Outcome → Run
  cat_opened rounds bytes (returns fd out k) =
      let rest = cat_loop rounds fd bytes k in
      if fd == minus_one then complain no_file 2 k else rest
  cat_opened rounds bytes spins = none
  cat_opened rounds bytes faults = none

  unfoldable pub cat_named : ℕ → List ℕ → Kernel → Option (List ℕ) → Run
  unfolding cat_opened
  cat_named rounds bytes k none = complain no_arguments 3 k
  cat_named rounds bytes k (some arg) =
      cat_opened rounds (placed arg bytes) (syscall_open k buf (placed arg bytes))

  unfoldable pub cat : ℕ → List ℕ → Kernel → Run
  unfolding cat_named
  cat rounds bytes k = cat_named rounds bytes k (syscall_getargs k buf 1024)

  -- The same for `ls`; the newline goes behind the name.
  unfoldable pub ls_entry : (List ℕ → Kernel → Run) → List ℕ → Outcome → Run
  ls_entry next bytes (returns cnt out k) =
      let held = set (placed out bytes) cnt 10 in
      let rest = after_write (next held) (write_out k 1 held (cnt + 1)) in
      if cnt == 0 then some (0, k) else if cnt == minus_one then complain entry_failed 3 k else rest
  ls_entry next bytes spins = none
  ls_entry next bytes faults = none

  unfoldable pub ls_loop : ℕ → ℕ → List ℕ → Kernel → Run
  unfolding ls_entry
  ls_loop zero fd bytes k = none
  ls_loop (suc rounds) fd bytes k =
      ls_entry (ls_loop rounds fd) bytes (syscall_read (env rounds) k fd buf 32)

  unfoldable pub ls_opened : ℕ → List ℕ → Outcome → Run
  ls_opened rounds bytes (returns fd out k) =
      let rest = ls_loop rounds fd bytes k in
      if fd == minus_one then complain no_directory 2 k else rest
  ls_opened rounds bytes spins = none
  ls_opened rounds bytes faults = none

  -- `dot` is the address of the string ".".
  unfoldable pub ls : ℕ → ℕ → List ℕ → Kernel → Run
  unfolding ls_opened
  ls dot rounds bytes k = ls_opened rounds bytes (syscall_open k dot (b'.' ∷ []))
