-- ===== src/Tests/Consoles.antt =====
-- User programs at the terminal.
use native.Mathlib.Nat.{suc-ne-zero}
use linux_os.Prelude.{
  ap, ◌∙◌, ℕ, ◌*◌, ◌≡◌, ◌<◌, ◌≤◌, refl, none, List, [], ◌∷◌, ◌++◌, Option, some, ◌==◌,
  if◌then◌else◌, arith, length, replicate, load32, bytes_at,
}
use linux_os.Prelude.Text.{codes}
use linux_os.Strings.{strlen, strncmp}
use linux_os.Fs.{
  FileSystem, Dentry, read_dentry_by_name, find_dentry, next_length, entries, entry_addr,
  inode_length, inode_count, inode_addr, data_block, data_location,
}
use linux_os.Fs.Bytes.{file_bytes, file_byte}
use linux_os.Terminal.{Terminals, Copied, displayed, typing, terminal_read}
use linux_os.Kernel.{Kernel, FileDescriptor, Fops, closed_fd, current, with_fd}
use linux_os.FileCalls.{Outcome, fails, Interrupts, find_fd}
use linux_os.Programs.Output.{shown, HasOutput, with_line}
use linux_os.Programs.Reading.{IsReadable}
use linux_os.Console.{counter, counter_prompt, shell, shell_prompt, c_text}
use linux_os.Console.Typing.{HasInput}
use linux_os.Console.Counter.{counter_lem, counted}
use linux_os.Console.Session.{Session, leaves, runs, shell_lem, typed_line}
use linux_os.Console.Shell.{message, line_of, IsCommand}
use linux_os.Terminal.Line.{IsLineChar}
use linux_os.Strings.Compare.{All}
use linux_os.Terminal.{Term}
use linux_os.Console.Typing.{shown-displayed}
use linux_os.Grep.{do_one_file}
use linux_os.Grep.Lines.{report_of, spelled}
use linux_os.Grep.File.{do_one_file_lem}
use linux_os.Pingpong.{pingpong}
use linux_os.Pingpong.Play.{all_frames}
use linux_os.Pingpong.Lines.{film}
use linux_os.Pingpong.Film.{pingpong_lem, clock_fd}
use linux_os.Programs.Clock.{waited}
use linux_os.Syserr.Opens.{Places, syserr, menu_prompt}
use linux_os.Syserr.Lots.{Ready}
use linux_os.Syserr.Menu.{syserr_lem, all_lines}
use linux_os.Tests.{term, disk, kernel, task}

-- A task with the terminal as its input and output, on a disk with a file "sh" of two lines and the
-- directory ".".
abbrev input_fd : FileDescriptor
input_fd = record { fops_table = some Fops.stdin_fops; inode = 0; file_position = 0; flags = 1 }

abbrev output_fd : FileDescriptor
output_fd = record { fops_table = some Fops.stdout_fops; inode = 0; file_position = 0; flags = 1 }

abbrev texts : FileSystem
texts = record {
  mem = λ p.
      (if p == 128
        then b'.'
        else if p == 160
        then 1
        else if p == 4096
        then 5
        else if p == 4097
        then 0
        else if p == 16384
        then b'a'
        else if p == 16385
        then b'b'
        else if p == 16386
        then 10
        else if p == 16387
        then b'b'
        else if p == 16388
        then 10
        else disk.mem p);
  boot_block = 0;
}

abbrev speaker : Kernel
speaker = record kernel {
  fs = texts;
  pcbs = λ i. (record task {
    fd = λ j. (if j == 0 then input_fd else if j == 1 then output_fd else closed_fd);
  });
}

speaker-HasInput : HasInput speaker
unfolding HasInput
speaker-HasInput = (suc-ne-zero 0, refl)

speaker-HasOutput : HasOutput speaker
unfolding HasOutput
speaker-HasOutput = (suc-ne-zero 0, refl)

counter_example :
    (line : Copied) × (t : Terminals) × (terminal_read 1023
        (typing (codes "0" ++ (10 ∷ [])))
        (shown counter_prompt speaker.terminals)
      ≡ some (line, t))
    × (counter (record { keys = codes "0" ++ (10 ∷ []); ticks = 0 }) 1 [] speaker
        ≡ some (0, record speaker { terminals = shown (counted (codes "0")) t }))
counter_example =
    counter_lem 1 0 [] (codes "0") speaker speaker-HasInput speaker-HasOutput refl (λ i. refl) refl
      (omega arith) (omega arith)

-- Every program ends by an exception, on a fresh terminal.
abbrev crash : List ℕ → Kernel → Option (ℕ × Kernel)
crash cs k = some (256, speaker)

abbrev keys_of : ℕ → Interrupts
keys_of rounds = record {
  keys = if rounds == 1 then codes "ls" ++ (10 ∷ []) else codes "exit" ++ (10 ∷ []);
  ticks = 0;
}

abbrev started : Kernel
started = with_line (codes "Starting 391 Shell\n") speaker

-- The lines that are typed at the two prompts.
abbrev typed :
    (cs : List ℕ) (k : Kernel)
    → displayed k.terminals ≡ term
    → All IsLineChar cs
    → length cs < 126
    → (buffer : ℕ → ℕ) × (t : Terminals) × (terminal_read 1023
          (typing (cs ++ (10 ∷ [])))
          (shown shell_prompt k.terminals)
        ≡ some (line_of cs buffer, t))
typed cs k fresh ok short =
    let same = shown-displayed shell_prompt k.terminals ∙ fresh in
    typed_line 1023 cs (shown shell_prompt k.terminals)
      (ap (λ (d : Term). d.keyboard_buffer_size) same)
      (λ i. ap (λ (d : Term). d.keyboard_buffer i) same)
      (ap (λ (d : Term). d.allow_terminal_read) same) ok short (omega arith)

started-fresh : displayed started.terminals ≡ term
started-fresh = shown-displayed (codes "Starting 391 Shell\n") speaker.terminals

crashed-fresh : displayed (with_line (message 256) speaker).terminals ≡ term
crashed-fresh = shown-displayed (message 256) speaker.terminals

exit-line : All IsLineChar (codes "exit")
exit-line = omega arith

ls-IsCommand : IsCommand (codes "ls")
ls-IsCommand = (omega arith, omega arith, omega arith, cc)

abbrev typed_exit :
    (buffer : ℕ → ℕ) × (t : Terminals) × (terminal_read 1023
        (typing (codes "exit" ++ (10 ∷ [])))
        (shown shell_prompt (with_line (message 256) speaker).terminals)
      ≡ some (line_of (codes "exit") buffer, t))
typed_exit =
    typed (codes "exit") (with_line (message 256) speaker) crashed-fresh exit-line (omega arith)

abbrev at_exit : Kernel
at_exit = record (with_line (message 256) speaker) { terminals = typed_exit.1 }

session : Session crash keys_of 2 started at_exit
session =
    let (buffer, t, reads) =
      typed (codes "ls") started started-fresh ls-IsCommand.0 (omega arith) in
    runs buffer t (codes "ls") 256 speaker reads ls-IsCommand refl speaker-HasInput
      speaker-HasOutput (leaves typed_exit.0 typed_exit.1 typed_exit.2 refl)

shell_example : shell crash 1 keys_of 2 [] speaker ≡ some (0, at_exit)
shell_example =
    shell_lem crash keys_of 1 2 [] speaker at_exit speaker-HasInput speaker-HasOutput session

abbrev file_entry : Dentry
file_entry = entries texts 0

file-found : read_dentry_by_name speaker.fs (codes "sh") 1 ≡ some file_entry
unfolding read_dentry_by_name find_dentry next_length entries entry_addr strlen strncmp load32
    bytes_at
file-found = refl

file-regular : file_entry.type ≡ 2
unfolding entries entry_addr load32
file-regular = refl

file-inode_0 : file_entry.inode ≡ 0
unfolding entries entry_addr load32
file-inode_0 = refl

file-length : inode_length texts file_entry.inode ≡ 5
unfolding inode_length load32 inode_addr entries entry_addr
file-length = refl

inodes_2 : inode_count texts ≡ 2
unfolding inode_count load32
inodes_2 = refl

file-IsReadable : IsReadable texts file_entry.inode
file-IsReadable = record {
  known = omega (arith, file-inode_0, inodes_2);
  small = omega (arith, file-length);
  quarter = omega (arith, file-length);
}

abbrev two_lines : List (List ℕ)
two_lines = codes "ab" ∷ codes "b" ∷ []

file-lines :
    file_bytes texts file_entry.inode 0 (inode_length texts file_entry.inode) ≡ spelled two_lines
unfolding file_bytes file_byte data_location data_block inode_count inode_length load32 inode_addr
    entries entry_addr
file-lines = refl

free_2 : find_fd 6 2 (current speaker).fd ≡ some 2
unfolding find_fd
free_2 = refl

do_one_file_example :
    (k' : Kernel) × (do_one_file (codes "b") (codes "sh") 1 keys_of 1 2 [] speaker ≡ some (0, k'))
    × (k'.terminals
        ≡ shown (report_of (codes "b") (c_text (codes "sh")) two_lines) speaker.terminals)
    × (((current k').fd 2).flags ≡ 0)
do_one_file_example =
    do_one_file_lem (codes "b") (codes "sh") [] 1 1 keys_of 2 2 file_entry two_lines speaker
      (suc-ne-zero 0) (suc-ne-zero 0) (suc-ne-zero 114) file-found file-regular free_2 refl
      speaker-HasOutput file-IsReadable (omega arith) (omega arith) (omega arith) file-lines
      (omega (arith, file-length)) (omega arith)

-- A disk with the clock's file, and a clock that ticks.
abbrev ringer : Kernel
ringer = record speaker {
  fs = record {
    mem = λ p.
        (if p == 64
          then b'r'
          else if p == 65
          then b't'
          else if p == 66
          then b'c'
          else if p == 96
          then 0
          else disk.mem p);
    boot_block = 0;
  };
}

abbrev rtc_entry : Dentry
rtc_entry = entries ringer.fs 0

rtc-found : read_dentry_by_name ringer.fs (codes "rtc") 1 ≡ some rtc_entry
unfolding read_dentry_by_name find_dentry next_length entries entry_addr strlen strncmp load32
    bytes_at
rtc-found = refl

rtc-type : rtc_entry.type ≡ 0
unfolding entries entry_addr load32 bytes_at
rtc-type = refl

ringer-free : find_fd 6 2 (current ringer).fd ≡ some 2
unfolding find_fd
ringer-free = refl

ringer-HasOutput : HasOutput ringer
unfolding HasOutput
ringer-HasOutput = (suc-ne-zero 0, refl)

abbrev ringing : ℕ → Interrupts
ringing i = record { keys = []; ticks = 40 }

pingpong_example :
    (buf : List ℕ) × (pingpong 1 2 ringing 3 (replicate 81 7) ringer
      ≡ some (record {
        buf = buf;
        ticks = 152 * 3;
        kernel = record (with_fd ringer 2 (clock_fd ringer 2)) {
          terminals = shown (film (all_frames 3 0)) ringer.terminals;
          rtc = waited (152 * 3) (record ringer.rtc { rtc_inter_count = 0; virt_freq = 32 });
        };
      }))
pingpong_example =
    pingpong_lem 1 2 3 2 ringing (replicate 81 7) rtc_entry ringer refl (suc-ne-zero 0)
      ringer-HasOutput ringer-free rtc-found rtc-type (λ i. omega arith)

abbrev places : Places
places = record { dot = 1; helloo = 2; shel = 3; empty = 4; buf = 5 }

abbrev dot_entry : Dentry
dot_entry = entries texts 1

dot-found : read_dentry_by_name speaker.fs (codes ".") 1 ≡ some dot_entry
unfolding read_dentry_by_name find_dentry next_length entries entry_addr strlen strncmp load32
    bytes_at
dot-found = refl

dot-directory : dot_entry.type ≡ 1
unfolding entries entry_addr load32
dot-directory = refl

no_helloo : read_dentry_by_name speaker.fs (codes "helloo") 1 ≡ none
unfolding read_dentry_by_name find_dentry next_length entries entry_addr strlen strncmp load32
    bytes_at
no_helloo = refl

no_shel : read_dentry_by_name speaker.fs (codes "shel") 1 ≡ none
unfolding read_dentry_by_name find_dentry next_length entries entry_addr strlen strncmp load32
    bytes_at
no_shel = refl

speaker-free : (j : ℕ) → 2 ≤ j → j < 8 → ((current speaker).fd j).flags ≡ 0
speaker-free j lo hi = ground arith

speaker-Ready : Ready texts speaker
speaker-Ready = record { disk = refl; output = speaker-HasOutput; free = speaker-free }

abbrev refuses : ℕ → Kernel → Outcome
refuses num k = fails k

syserr_example :
    (line : Copied) × (t : Terminals) × (k' : Kernel) × (terminal_read 127
        (typing (b'0' ∷ ([] ++ (10 ∷ []))))
        (shown menu_prompt speaker.terminals)
      ≡ some (line, t))
    × (syserr refuses places
          (keys_of 0)
          []
          (record { keys = b'0' ∷ ([] ++ (10 ∷ [])); ticks = 0 })
          6
          []
          speaker
        ≡ some (0, k'))
    × (k'.terminals ≡ shown all_lines t)
    × ((j : ℕ) → 2 ≤ j → j < 8 → ((current k').fd j).flags ≡ 0)
syserr_example =
    syserr_lem refuses places (keys_of 0) [] [] [] 6 0 dot_entry speaker (suc-ne-zero 0)
      (suc-ne-zero 1) (suc-ne-zero 2) dot-found dot-directory no_helloo no_shel speaker-HasInput
      speaker-Ready refl (λ i. refl) refl (omega arith) (omega arith)
