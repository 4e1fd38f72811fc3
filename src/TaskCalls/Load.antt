-- ===== src/TaskCalls/Load.antt =====
-- The file that `syscall_execute` of student-distrib/system_call.c loads.
use linux_os.Prelude.{
  ℕ, ◌≡◌, ◌<◌, refl, ◌∙◌, ap, List, none, some, true, arith, sym, get_or, load32, ◌-◌,
}
use linux_os.Fs.{FileSystem, Read, read_data, read_dentry_by_name, inode_count, inode_length}
use linux_os.Fs.Bytes.{file_byte, get_or-file_bytes}
use linux_os.Fs.Data.{read_data_lem, read_end}
use linux_os.Command.{Command, parse_command, not_blank}
use linux_os.Kernel.{Kernel, find_open_task}
use linux_os.TaskCalls.{
  Stack, to_user, start_task, file_inode, syscall_execute, inode_in, is_elf, load_file,
}
use linux_os.TaskCalls.Execute.{Started, Placed, start_task_lem, checks_pass}

-- The task holds the file: the first 2 MB of its bytes are in the task's frame, and the entry point is
-- the word at byte 24 there.
pub record Loaded (fs : FileSystem) (inode task eip : ℕ) (k' : Kernel) : Type 0 where
  pub bytes :
      (i : ℕ) → i < inode_length fs inode → i < 0x200000 → k'.user_mem task i ≡ file_byte fs inode i
  pub entry : eip ≡ load32 (k'.user_mem task) 24

load_file_lem :
    (k : Kernel) (inode task i : ℕ)
    → inode < inode_count k.fs
    → inode_length k.fs inode < 4294967296
    → i < inode_length k.fs inode
    → i < 0x200000
    → load_file k inode task i ≡ file_byte k.fs inode i
unfolding load_file
load_file_lem k inode task i known small inside room =
    let read =
      read_data_lem k.fs inode 0 0x08048000 0x200000 (omega arith) small (omega arith) (omega arith)
        known in
    let reaches : i < read_end k.fs inode 0 0x200000 - 0 = (unfold read_end in ground arith) in
    ap (λ (r : Read). get_or r.out i (k.user_mem task i)) read
    ∙ get_or-file_bytes k.fs inode 0 (read_end k.fs inode 0 0x200000 - 0) i (k.user_mem task i)
        reaches
    ∙ ap (file_byte k.fs inode) (omega arith)

Placed-Loaded :
    (k k' : Kernel) (inode task eip : ℕ)
    → inode < inode_count k.fs
    → inode_length k.fs inode < 4294967296
    → Placed k k' inode task eip
    → Loaded k.fs inode task eip k'
Placed-Loaded k k' inode task eip known small placed = record {
  bytes = λ i inside room.
      ap (λ (m : ℕ → ℕ). m i) placed.frame ∙ load_file_lem k inode task i known small inside room;
  entry = placed.entry ∙ ap (λ m. load32 m 24) (sym placed.frame);
}

-- A command that names no file is not refused for that: when the stack happens to hold the valid inode
-- of an ELF file where the entry is expected, a task starts all the same. Its frame holds that file's
-- bytes, of the first 2 MB, and it is entered at the word at byte 24 there.
pub syscall_execute_missing :
    (k : Kernel) (stack : Stack) (line : List ℕ) (command : Command) (task : ℕ)
    → parse_command line ≡ some command
    → not_blank command.task_name ≡ true
    → read_dentry_by_name k.fs command.task_name 1 ≡ none
    → stack.file_inode < inode_count k.fs
    → inode_length k.fs stack.file_inode < 4294967296
    → is_elf (read_data k.fs stack.file_inode 0 1 4) ≡ true
    → find_open_task k ≡ some task
    → (eip : ℕ) × (k' : Kernel) × (syscall_execute k stack line ≡ to_user eip k')
      × Started k k' task command
      × Loaded k.fs stack.file_inode task eip k'
syscall_execute_missing k stack line command task parsed name missing known small elf slot =
    let taken : file_inode k stack command.task_name ≡ stack.file_inode =
      (unfold file_inode inode_in in rw missing refl) in
    let (eip, k', starts, started, placed) = start_task_lem k stack command stack.file_inode task in
    (
      eip,
      k',
      checks_pass k stack line command task parsed name
            (ap (λ i. is_elf (read_data k.fs i 0 1 4)) taken ∙ elf) slot
          ∙ ap (λ i. start_task k stack command i task) taken
          ∙ starts,
      started,
      Placed-Loaded k k' stack.file_inode task eip known small placed,
    )
