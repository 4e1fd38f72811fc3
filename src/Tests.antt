-- ===== src/Tests.antt =====
-- Runs of the development on small inputs: this file has the data, the child modules the runs.
mod Text
mod Files
mod Devices
mod Calls
mod Terms
mod Memory
mod Events
mod Users
mod Starting
mod Consoles
mod Hosts
use linux_os.Prelude.{
  ℕ, ◌+◌, ◌<◌, ◌≡◌, List, [], ◌∷◌, none, some, ◌==◌, if◌then◌else◌, arith, minus_one, ltb,
}
use linux_os.Fs.{FileSystem}
use linux_os.Rtc.{Rtc}
use linux_os.Paging.{Paging}
use linux_os.Screen.{Screen}
use linux_os.Terminal.{Term, Terminals}
use linux_os.Kernel.{Kernel, Pcb, FileDescriptor, Fops, closed_fd}
use linux_os.Pic.{Pic}

-- An image at address 0: one directory entry "sh" of a file with inode 0, and two inodes. The file
-- has 4096 + 8 bytes in the blocks 1 and 0, and starts like an ELF file.
abbrev pub image : ℕ → ℕ
image p =
    if p == 0
    then 1
    else if p == 4
    then 2
    else if p == 64
    then 115
    else if p == 65
    then 104
    else if p == 96
    then 2
    else if p == 4096
    then 8
    else if p == 4097
    then 16
    else if p == 4100
    then 1
    else if p == 16384
    then 127
    else if p == 16385
    then 69
    else if p == 16386
    then 76
    else if p == 16387
    then 70
    else if p == 12288
    then 7
    else 0

abbrev pub disk : FileSystem
disk = record { mem = image; boot_block = 0 }

abbrev pub pic : Pic
pic = record { master_mask = 0xFB; slave_mask = 0xFF; trace = [] }

abbrev pub clock : Rtc
clock = record { virt_freq = 512; rtc_inter_count = 9; trace = []; pic = pic }

abbrev pub pages : Paging
pages = record {
  page_directory = λ i. 0;
  page_table = λ i. 0;
  video_page = λ i. 0;
  page_table_addr = 4096;
  video_page_addr = 8192;
  trace = [];
}

abbrev pub screen : Screen
screen = record { screen_x = 3; screen_y = 4; video = λ i. 0 }

abbrev pub term : Term
term = record {
  keyboard_buffer = λ i. 0;
  cursor_pos_x = 0;
  cursor_pos_y = 0;
  keyboard_buffer_size = 0;
  allow_terminal_read = 0;
  terminal_buffer = λ i. 0;
}

abbrev pub terminals : Terminals
terminals = record { terminal = λ i. term; display_terminal_id = 0; screen = screen }

-- A task with the terminal and one open file, whose parent is the task 0.
abbrev pub open_file : FileDescriptor
open_file = record { fops_table = some Fops.file_fops; inode = 0; file_position = 5; flags = 1 }

abbrev pub task : Pcb
task = record {
  fd = λ i. (if i == 2 then open_file else closed_fd);
  file_name = [];
  task_id = 3;
  task_id_child = minus_one;
  task_id_parent = 0;
  old_ebp = 20;
  old_esp = 30;
  old_eip = 40;
  argument_buf = λ i. 0;
}

-- The tasks 0 to 3 run, 3 the last of them.
abbrev pub kernel : Kernel
kernel = record {
  tasks_running = 3;
  task_slots = λ i. (if ltb i 4 then 1 else 0);
  exception_death = 0;
  pcbs = λ i. task;
  user_mem = λ i j. 0;
  esp0 = 0;
  fs = disk;
  rtc = clock;
  paging = pages;
  terminals = terminals;
}
