-- ===== src/Tests/Calls.antt =====
-- System calls of the test kernel.

use linux_os.Prelude.{
  ℕ, ◌<◌, ◌≤◌, ◌≡◌, ◌⊎◌, refl, List, [], ◌∷◌, none, some, arith, true, bytes_at, load32,
}
use linux_os.Fs.{
  entries, entry_addr, read_data, inode_length, inode_count, inode_addr, copy_blocks, quits, chunk,
  chunk_len, start_offset, end_offset, data_location, data_block, read_dentry_by_name, find_dentry,
  next_length,
}
use linux_os.Strings.{strlen, strncmp}
use linux_os.Command.{Command, parse_command, not_blank, skip_spaces, take_name, take_argument}
use linux_os.Kernel.{closed_fd, Kernel, current, find_open_task, find_slot}
use linux_os.FileCalls.{Ensures, syscall_open, syscall_close}
use linux_os.FileCalls.Open.{syscall_open_lem, OpenResult, Opened}
use linux_os.FileCalls.Close.{close-open, IsTerminalTable}
use linux_os.TaskCalls.{
  Stack, to_user, to_execute, syscall_execute, syscall_halt, file_inode, inode_in, is_elf,
}
use linux_os.TaskCalls.Execute.{syscall_execute_lem, Started}
use linux_os.TaskCalls.Load.{syscall_execute_missing, Loaded}
use linux_os.TaskCalls.Halt.{syscall_halt_lem, Ended}
use linux_os.Tests.{disk, kernel, task}

types_small : (j : ℕ) → j < 63 → (entries disk j).type ≤ 2
unfolding entries entry_addr load32
types_small j h = ground arith

syscall_open_example : Ensures (OpenResult kernel) (syscall_open kernel 1 (115 ∷ 104 ∷ []))
syscall_open_example = syscall_open_lem kernel 1 (115 ∷ 104 ∷ []) types_small

abbrev nine : ℕ
nine = 9

-- The kernel in which the descriptor 2 is not open yet.
abbrev before_open : Kernel
before_open = record kernel { pcbs = λ i. (record task { fd = λ j. closed_fd }) }

opened : Opened before_open 2 kernel
opened = record {
  low = omega arith;
  high = omega arith;
  was_free = refl;
  below_used = λ j lo hi. absurd (omega arith);
  in_use = refl;
  has_table = λ e. cc;
  others_kept = λ j ne. ground arith;
  running = refl;
}

close-open_example :
    Ensures
      (λ ret out k2.
        ((ret ≡ 0) × ((j : ℕ) → ((current k2).fd j).flags ≡ ((current before_open).fd j).flags))
        ⊎ IsTerminalTable ((current kernel).fd 2).fops_table)
      (syscall_close kernel 2)
close-open_example = close-open before_open kernel 2 opened

abbrev stack : Stack
stack = record { esp = 10; ebp = 20; file_inode = 0; argument_bytes = λ i. 0 }

abbrev sh : Command
sh = record { task_name = 115 ∷ 104 ∷ []; argument = 97 ∷ [] }

-- "sh a"
abbrev line : List ℕ
line = 115 ∷ 104 ∷ 32 ∷ 97 ∷ 10 ∷ []

line-parsed : parse_command line ≡ some sh
unfolding parse_command skip_spaces take_name take_argument strlen
line-parsed = refl

sh-named : not_blank sh.task_name ≡ true
unfolding not_blank
sh-named = refl

slot_4 : find_open_task kernel ≡ some 4
unfolding find_open_task find_slot
slot_4 = refl

elf : is_elf (read_data disk 0 0 1 4) ≡ true
unfolding is_elf read_data inode_length inode_count inode_addr copy_blocks quits chunk chunk_len
    start_offset end_offset data_location data_block load32 bytes_at
elf = refl

sh-inode : file_inode kernel stack sh.task_name ≡ 0
unfolding file_inode inode_in read_dentry_by_name find_dentry next_length entries entry_addr strlen
    strncmp load32 bytes_at
sh-inode = refl

syscall_execute_example :
    (eip : ℕ) × (k' : Kernel) × (syscall_execute kernel stack line ≡ to_user eip k')
    × Started kernel k' 4 sh
syscall_execute_example =
    syscall_execute_lem kernel stack line sh 4 line-parsed sh-named (rw sh-inode elf) slot_4

-- "zz", which is not on the disk.
abbrev missing : List ℕ
missing = 122 ∷ 122 ∷ 10 ∷ []

abbrev zz : Command
zz = record { task_name = 122 ∷ 122 ∷ []; argument = [] }

missing-parsed : parse_command missing ≡ some zz
unfolding parse_command skip_spaces take_name take_argument strlen
missing-parsed = refl

zz-named : not_blank zz.task_name ≡ true
unfolding not_blank
zz-named = refl

zz-missing : read_dentry_by_name disk zz.task_name 1 ≡ none
unfolding read_dentry_by_name find_dentry next_length entries entry_addr strlen strncmp load32
    bytes_at
zz-missing = refl

inode_0 : 0 < inode_count disk
unfolding inode_count load32 bytes_at
inode_0 = omega arith

length_0 : inode_length disk 0 < 4294967296
unfolding inode_length inode_addr load32 bytes_at
length_0 = omega arith

syscall_execute_missing_example :
    (eip : ℕ) × (k' : Kernel) × (syscall_execute kernel stack missing ≡ to_user eip k')
    × Started kernel k' 4 zz
    × Loaded disk 0 4 eip k'
syscall_execute_missing_example =
    syscall_execute_missing kernel stack missing zz 4 missing-parsed zz-named zz-missing inode_0
      length_0 elf slot_4

syscall_halt_example :
    (k' : Kernel) × (syscall_halt kernel 7 ≡ to_execute 30 20 7 k') × Ended kernel k'
syscall_halt_example = syscall_halt_lem kernel 7 (ground arith)
