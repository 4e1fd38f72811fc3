-- ===== src/FileCalls.antt =====
-- The file system calls of student-distrib/system_call.c: open, close, read and write, which dispatch
-- on the table of operations of a descriptor.
pub mod Open
pub mod Close
use linux_os.Prelude.{
  ℕ, zero, suc, ◌+◌, ◌-◌, ◌*◌, Bool, List, [], ◌∷◌, Option, none, some, ◌==◌, ltb, leb, ◌||◌,
  if◌then◌else◌, u32, minus_one, update,
}
use linux_os.Prelude.Int.{is_zero}
use linux_os.Strings.{strncmp, head_or}
use linux_os.Fs.{
  Read, Dentry, read_dentry_by_name, file_open, file_close, file_read, file_write, dir_open,
  dir_close, dir_read, dir_write,
}
use linux_os.Rtc.{rtc_open, rtc_close, rtc_read, rtc_write}
use linux_os.Terminal.{Copied, terminal_open, typing, terminal_read, terminal_write}
use linux_os.Kernel.{Kernel, FileDescriptor, Fops, current, with_fd}

-- How a system call ends: it returns a value, with the bytes that it placed in the caller's buffer;
-- it spins for interrupts that do not come; or it follows a NULL pointer.
pub data Outcome : Type 0 where
  returns : ℕ → List ℕ → Kernel → Outcome
  spins : Outcome
  faults : Outcome

-- The interrupts that come while a call spins: characters typed, and ticks of the clock.
pub record Interrupts : Type 0 where
  pub keys : List ℕ
  pub ticks : ℕ

-- What a call ensures: it returns, and the value, the bytes and the state that it leaves satisfy the
-- predicate.
abbrev pub Ensures : (ℕ → List ℕ → Kernel → Type 0) → Outcome → Type 0
Ensures P (returns r out k) = P r out k
Ensures P spins = ⊥
Ensures P faults = ⊥

pub Ensures-map :
    (P Q : ℕ → List ℕ → Kernel → Type 0)
    → ((r : ℕ) (out : List ℕ) (k : Kernel) → P r out k → Q r out k)
    → (o : Outcome) → Ensures P o
    → Ensures Q o
Ensures-map P Q f (returns r out k) h = f r out k h
Ensures-map P Q f spins h = h
Ensures-map P Q f faults h = h

abbrev pub fails : Kernel → Outcome
fails k = returns minus_one [] k

-- The loop of `syscall_open` for an empty position: `rounds` are left, from `fd_index` on.
unfoldable pub find_fd : ℕ → ℕ → (ℕ → FileDescriptor) → Option ℕ
find_fd zero fd_index fds = none
find_fd (suc rounds) fd_index fds =
    let rest = find_fd rounds (fd_index + 1) fds in
    if (fds fd_index).flags == 0 then some fd_index else rest

abbrev stdin_name : List ℕ
stdin_name = b's' ∷ b't' ∷ b'd' ∷ b'i' ∷ b'n' ∷ []

abbrev stdout_name : List ℕ
stdout_name = b's' ∷ b't' ∷ b'd' ∷ b'o' ∷ b'u' ∷ b't' ∷ []

-- The table that a name and then a directory entry's type select; other types leave the table as
-- it is.
unfoldable pub fops_of_name : List ℕ → Option Fops → Option Fops
fops_of_name filename old =
    if is_zero (strncmp stdin_name filename 6)
    then some Fops.stdin_fops
    else if is_zero (strncmp stdout_name filename 7)
    then some Fops.stdout_fops
    else old

unfoldable pub fops_of_type : ℕ → Option Fops → Option Fops
fops_of_type type old =
    if type == 0
    then some Fops.rtc_fops
    else if type == 1
    then some Fops.dir_fops
    else if type == 2
    then some Fops.file_fops
    else old

-- The end of `syscall_open`: the entry is taken, with the inode that the file's `open` stored.
unfoldable pub install : Kernel → ℕ → FileDescriptor → Option ℕ → Outcome
install k i d none = fails (with_fd k i d)
install k i d (some inode) = returns i [] (with_fd k i (record d { inode = inode; flags = 1 }))

unfoldable pub run_open : Kernel → ℕ → FileDescriptor → List ℕ → Option Fops → Outcome
unfolding install
run_open k i d filename none = faults
run_open k i d filename (some Fops.rtc_fops) =
    install (record k { rtc = (rtc_open k.rtc).1 }) i d (some d.inode)
run_open k i d filename (some Fops.dir_fops) = install k i d (dir_open k.fs filename)
run_open k i d filename (some Fops.file_fops) = install k i d (file_open k.fs filename)
run_open k i d filename (some Fops.stdin_fops) =
    install (record k { terminals = (terminal_open k.terminals).1 }) i d (some d.inode)
run_open k i d filename (some Fops.stdout_fops) =
    install (record k { terminals = (terminal_open k.terminals).1 }) i d (some d.inode)

-- The part behind the search for a position.
unfoldable pub open_at : Kernel → ℕ → List ℕ → Outcome
unfolding run_open
open_at k i filename =
    let named : FileDescriptor = record ((current k).fd i) {
      fops_table = fops_of_name filename ((current k).fd i).fops_table;
    } in
    elim (read_dentry_by_name k.fs filename 1) [
      | none ↦ fails (with_fd k i named)
      | some dentry ↦
          let fops = fops_of_type dentry.type named.fops_table in
          run_open k i (record named { fops_table = fops }) filename fops
    ]

-- `pointer` is the address of the name, 0 for NULL.
unfoldable pub syscall_open : Kernel → ℕ → List ℕ → Outcome
unfolding open_at
syscall_open k pointer filename =
    let found : Outcome = elim (find_fd 6 2 (current k).fd) [
      | none ↦ fails k
      | some i ↦ open_at k i filename
    ] in
    if pointer == 0 || head_or filename == 0 then fails k else found

-- The `close` of a descriptor's table: the inode that it stores. `stdin` and `stdout` have none.
unfoldable pub run_close : Kernel → ℕ → FileDescriptor → Option Fops → Outcome
run_close k i d none = faults
run_close k i d (some Fops.stdin_fops) = fails k
run_close k i d (some Fops.stdout_fops) = fails k
run_close k i d (some Fops.rtc_fops) =
    returns 0 [] (
      with_fd (record k { rtc = (rtc_close k.rtc).1 }) i
        (record d { file_position = 0; flags = 0 }))
run_close k i d (some Fops.dir_fops) =
    returns 0 []
      (with_fd k i (record d { inode = (dir_close d.inode).0; file_position = 0; flags = 0 }))
run_close k i d (some Fops.file_fops) =
    returns 0 []
      (with_fd k i (record d { inode = (file_close d.inode).0; file_position = 0; flags = 0 }))

-- `fd` is signed: a negative one is a pattern above 7.
unfoldable pub syscall_close : Kernel → ℕ → Outcome
syscall_close k fd =
    let d = (current k).fd fd in
    if ltb 7 fd || ltb fd 2
    then fails k
    else if d.flags == 0
    then fails k
    else run_close k fd d d.fops_table

-- A file's read: its result and the file position that it leaves.
unfoldable pub moved : Kernel → ℕ → FileDescriptor → Read × ℕ → Outcome
moved k i d (r, position) =
    returns r.ret r.out (with_fd k i (record d { file_position = position }))

unfoldable pub run_read : Interrupts → Kernel → ℕ → FileDescriptor → ℕ → ℕ → Option Fops → Outcome
unfolding moved
run_read env k i d buf nbytes none = faults
run_read env k i d buf nbytes (some Fops.stdout_fops) = fails k
run_read env k i d buf nbytes (some Fops.stdin_fops) =
    elim (terminal_read nbytes (typing env.keys) k.terminals) [
      | none ↦ spins
      | some (line, terminals) ↦ returns line.numbytes line.out (record k { terminals = terminals })
    ]
run_read env k i d buf nbytes (some Fops.rtc_fops) = elim (rtc_read k.rtc env.ticks) [
  | none ↦ spins
  | some rtc ↦ returns 0 [] (record k { rtc = rtc })
]
run_read env k i d buf nbytes (some Fops.dir_fops) =
    moved k i d (dir_read k.fs d.inode d.file_position buf nbytes)
run_read env k i d buf nbytes (some Fops.file_fops) =
    moved k i d (file_read k.fs d.inode d.file_position buf nbytes)

unfoldable pub syscall_read : Interrupts → Kernel → ℕ → ℕ → ℕ → Outcome
syscall_read env k fd buf nbytes =
    let d = (current k).fd fd in
    if ltb 7 fd || fd == 1
    then fails k
    else if d.flags == 0
    then fails k
    else run_read env k fd d buf nbytes d.fops_table

-- The bytes at `buf` are given as the list, of the length that the caller passes as `nbytes`; `word`
-- is their value as a `uint32_t`.
unfoldable pub run_write : Kernel → ℕ → FileDescriptor → List ℕ → ℕ → ℕ → Option Fops → Outcome
run_write k i d bytes word nbytes none = faults
run_write k i d bytes word nbytes (some Fops.stdin_fops) = fails k
run_write k i d bytes word nbytes (some Fops.stdout_fops) =
    let (n, terminals) = terminal_write bytes k.terminals in
    returns n [] (record k { terminals = terminals })
run_write k i d bytes word nbytes (some Fops.rtc_fops) =
    let (ret, rtc) = rtc_write k.rtc word nbytes in returns ret [] (record k { rtc = rtc })
run_write k i d bytes word nbytes (some Fops.dir_fops) =
    returns (dir_write d.inode d.file_position 1 nbytes) [] k
run_write k i d bytes word nbytes (some Fops.file_fops) =
    returns (file_write d.inode d.file_position 1 nbytes) [] k

unfoldable pub syscall_write : Kernel → ℕ → List ℕ → ℕ → ℕ → Outcome
syscall_write k fd bytes word nbytes =
    let d = (current k).fd fd in
    if ltb 7 fd || ltb fd 1
    then fails k
    else if d.flags == 0
    then fails k
    else run_write k fd d bytes word nbytes d.fops_table
