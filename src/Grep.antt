-- ===== src/Grep.antt =====
-- The user program syscalls/ece391grep.c. A program is a function of the kernel's state; `bytes` is
-- what the buffer `data` of `do_one_file` holds and `buf` its address.
pub mod Match
pub mod Lines
pub mod Scan
pub mod Round
pub mod File
use linux_os.Prelude.{
  ℕ, zero, suc, ◌+◌, ◌-◌, Bool, true, false, not, List, [], ◌∷◌, ◌++◌, Option, none, some, ◌==◌,
  leb, ◌&&◌, if◌then◌else◌, minus_one, get_or, set, take, drop,
}
use linux_os.Prelude.Int.{is_zero}
use linux_os.Prelude.Text.{codes, ◌>>=◌}
use linux_os.Strings.{head_or, tail_of}
use linux_os.Kernel.{Kernel}
use linux_os.FileCalls.{Interrupts, syscall_open, syscall_close, syscall_read}
use linux_os.TaskCalls.{syscall_getargs}
use linux_os.Support.{ece391_strlen, ece391_strncmp, ece391_strcpy}
use linux_os.Programs.{Run, placed, complain, no_directory, entry_failed}
use linux_os.Console.{Answer, answer, say}

-- The loop that looks for the end of a line: how far it goes, `rounds` bytes at most.
unfoldable pub to_newline : ℕ → List ℕ → ℕ
to_newline zero s = 0
to_newline (suc rounds) s =
    let rest = to_newline rounds (tail_of s) in if head_or s == 10 then 0 else suc rest

-- The loop that looks for the pattern in a line of which `rounds` bytes are left.
unfoldable pub found : List ℕ → ℕ → List ℕ → Bool
found pattern zero s = false
found pattern (suc rounds) s =
    let rest = found pattern rounds (tail_of s) in
    if (head_or pattern == head_or s) && is_zero (ece391_strncmp s pattern (ece391_strlen pattern))
    then true
    else rest

-- The four writes for a line that is found.
unfoldable pub show_line : List ℕ → List ℕ → Kernel → Option Kernel
unfolding say
show_line fname line k = do
  k1 ← say fname k
  k2 ← say (codes ":") k1
  k3 ← say line k2
  say (codes "\n") k3

-- What is left in `data`, `last` and the kernel.
pub record Scanned : Type 0 where
  pub bytes : List ℕ
  pub last : ℕ
  pub kernel : Kernel

-- The end of `do_one_file`.
unfoldable pub close_file : ℕ → Kernel → Run
close_file fd k = do
  closed ← answer (syscall_close k fd)
  if closed.0 == minus_one
      then complain (codes "file close failed\n") minus_one closed.2
      else some (0, closed.2)

module _ (pattern fname : List ℕ) where
  -- The inner loop over the lines, from `line_start` on; `rounds` bounds the lines.
  unfoldable pub scan_lines : ℕ → ℕ → List ℕ → ℕ → ℕ → Kernel → Option Scanned
  unfolding to_newline found show_line
  scan_lines zero cnt bytes last line_start k = none
  scan_lines (suc rounds) cnt bytes last line_start k =
      let line_end = line_start + to_newline (last - line_start) (drop line_start bytes) in
      let cut = set bytes line_end 0 in
      let moved = ece391_strcpy cut (drop line_start cut) in
      let line = drop line_start cut in
      let told =
        if found pattern (line_end - line_start) line then show_line fname line k else some k in
      let next = (λ (k' : Kernel). scan_lines rounds cnt cut last (line_end + 1) k') in
      if not (get_or bytes line_end 0 == 10) && (not (cnt == 0) && not (line_start == 0))
      then some (record { bytes = moved; last = last - line_start; kernel = k })
      else do
        k' ← told
        if leb last (line_end + 1)
            then some (record { bytes = cut; last = 0; kernel = k' })
            else next k'

  -- Behind a read of the outer loop.
  unfoldable pub scan_read : (List ℕ → ℕ → Kernel → Run) → ℕ → List ℕ → ℕ → Answer → Run
  unfolding scan_lines close_file
  scan_read next fd bytes last (cnt, out, k) =
      let filled = take last bytes ++ placed out (drop last bytes) in
      let scanned : Run = (do
        s ← scan_lines (suc (last + cnt)) cnt filled (last + cnt) 0 k
        if cnt == 0 then close_file fd s.kernel else next s.bytes s.last s.kernel) in
      if cnt == minus_one then complain (codes "file read failed\n") minus_one k else scanned

  module _ (buf : ℕ) (env : ℕ → Interrupts) where
    -- The outer loop: `rounds` reads at most.
    unfoldable pub file_loop : ℕ → ℕ → List ℕ → ℕ → Kernel → Run
    unfolding scan_read
    file_loop zero fd bytes last k = none
    file_loop (suc rounds) fd bytes last k = do
      chunk ← answer (syscall_read (env rounds) k fd (buf + last) (1024 - last))
      scan_read (file_loop rounds fd) fd bytes last chunk

    unfoldable pub do_one_file : ℕ → ℕ → List ℕ → Kernel → Run
    unfolding file_loop
    do_one_file name_addr rounds bytes k = do
      opened ← answer (syscall_open k name_addr fname)
      if opened.0 == minus_one
          then complain (codes "file open failed\n") minus_one opened.2
          else file_loop rounds opened.0 bytes 0 opened.2

-- The loop of `main` over the directory: `search` runs `do_one_file` for a name, `names` is the
-- address of the buffer for the names and `held` what it holds. An entry that starts with a dot is
-- passed over.
module _ (search : List ℕ → Kernel → Run) (names : ℕ) (env : ℕ → Interrupts) where
  unfoldable pub grep_entry : (List ℕ → Kernel → Run) → List ℕ → Answer → Run
  grep_entry next held (cnt, out, k) =
      let read = placed out held in
      let named = set read cnt 0 in
      let skip = next read k in
      let searched : Run = (do
        done ← search named k
        if done.0 == 0 then next named done.1 else some (3, done.1)) in
      if cnt == 0
      then some (0, k)
      else if cnt == minus_one
      then complain entry_failed 3 k
      else if head_or read == b'.'
      then skip
      else searched

  unfoldable pub grep_loop : ℕ → ℕ → List ℕ → Kernel → Run
  unfolding grep_entry
  grep_loop zero fd held k = none
  grep_loop (suc rounds) fd held k = do
    entry ← answer (syscall_read (env rounds) k fd names 32)
    grep_entry (grep_loop rounds fd) held entry

-- `main`. `dot` is the address of the string "." and `buf` that of `do_one_file`'s buffer, which is not
-- initialised: `stale` is what it holds when a call starts. A file is read in at most `reads` rounds.
unfoldable pub grep :
    (dot names buf search_addr reads rounds : ℕ)
    → (ℕ → Interrupts)
    → (Kernel → List ℕ)
    → List ℕ
    → Kernel
    → Run
unfolding do_one_file grep_loop
grep dot names buf search_addr reads rounds env stale held k =
    elim (syscall_getargs k search_addr 1024) [
      | none ↦ complain (codes "could not read argument\n") 3 k
      | some pattern ↦ do
        opened ← answer (syscall_open k dot (codes "."))
        if opened.0 == minus_one
            then complain no_directory 2 opened.2
            else grep_loop (λ fname k'. do_one_file pattern fname buf env names reads (stale k') k')
                names env rounds opened.0 held opened.2
    ]
