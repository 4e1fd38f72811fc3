-- ===== src/Tests/Users.antt =====
-- User programs and their library.
use native.Mathlib.Nat.{suc-ne-zero}
use linux_os.Prelude.{
  ◌≤◌, zero, suc, length, ◌<◌, ℕ, ◌≡◌, ◌≢◌, refl, List, [], ◌∷◌, ◌++◌, some, ◌==◌, if◌then◌else◌,
  arith, load32, bytes_at, replicate,
}
use linux_os.Strings.{strlen, strncmp, head_or}
use linux_os.Strings.Compare.{text}
use linux_os.Fs.{
  FileSystem, Dentry, read_dentry_by_name, find_dentry, next_length, entries, entry_addr,
  inode_length, inode_count, inode_addr,
}
use linux_os.Fs.Bytes.{file_bytes}
use linux_os.Kernel.{Kernel, FileDescriptor, Fops, closed_fd, current}
use linux_os.FileCalls.{Interrupts, find_fd}
use linux_os.TaskCalls.{syscall_getargs}
use linux_os.Fs.Dir.{name_of}
use linux_os.Programs.Ls.{ls_lem, listing}
use linux_os.Programs.{ls, placed, cat}
use linux_os.Programs.Output.{shown, HasOutput}
use linux_os.Programs.Reading.{IsReadable}
use linux_os.Programs.Cat.{cat_lem}
use linux_os.Tests.{disk, kernel, task}

abbrev hi : List ℕ
hi = b'h' ∷ b'i' ∷ 0 ∷ []

abbrev hit : List ℕ
hit = b'h' ∷ b'i' ∷ b't' ∷ []

strlen-hi : strlen hi ≡ 2
unfolding strlen
strlen-hi = refl

-- A task with the argument "sh" and the terminal as its output.
abbrev output_fd : FileDescriptor
output_fd = record { fops_table = some Fops.stdout_fops; inode = 0; file_position = 0; flags = 1 }

abbrev reader : Kernel
reader = record kernel {
  pcbs = λ i. (record task {
    fd = λ j. (if j == 1 then output_fd else closed_fd);
    argument_buf = λ j. (if j == 0 then 115 else if j == 1 then 104 else 0);
  });
}

abbrev sh_arg : List ℕ
sh_arg = bytes_at (current reader).argument_buf 0 129 ++ replicate 895 0

abbrev sh_entry : Dentry
sh_entry = entries disk 0

got_args : syscall_getargs reader 1 1024 ≡ some sh_arg
unfolding syscall_getargs strlen bytes_at
got_args = refl

sh-head : head_or (placed sh_arg []) ≢ 0
unfolding bytes_at
sh-head = suc-ne-zero 114

sh-found : read_dentry_by_name disk (placed sh_arg []) 1 ≡ some sh_entry
unfolding read_dentry_by_name find_dentry next_length entries entry_addr strlen strncmp load32
    bytes_at
sh-found = refl

sh-regular : sh_entry.type ≡ 2
unfolding entries entry_addr load32
sh-regular = refl

sh-inode_0 : sh_entry.inode ≡ 0
unfolding entries entry_addr load32
sh-inode_0 = refl

free_2 : find_fd 6 2 (current reader).fd ≡ some 2
unfolding find_fd
free_2 = refl

reader-HasOutput : HasOutput reader
unfolding HasOutput
reader-HasOutput = (suc-ne-zero 0, refl)

sh-length : inode_length disk sh_entry.inode ≡ 4104
unfolding inode_length load32 inode_addr entries entry_addr
sh-length = refl

disk_2 : inode_count disk ≡ 2
unfolding inode_count load32
disk_2 = refl

sh-IsReadable : IsReadable disk sh_entry.inode
sh-IsReadable = record {
  known = omega (arith, sh-inode_0, disk_2);
  small = omega (arith, sh-length);
  quarter = omega (arith, sh-length);
}

no_interrupts : ℕ → Interrupts
no_interrupts i = record { keys = []; ticks = 0 }

cat_example :
    (k' : Kernel) × (cat 1 no_interrupts 6 [] reader ≡ some (0, k'))
    × (k'.terminals
        ≡ shown
            (file_bytes disk sh_entry.inode 0 (inode_length disk sh_entry.inode))
            reader.terminals)
cat_example =
    cat_lem 1 no_interrupts 6 2 [] sh_arg sh_entry reader (suc-ne-zero 0) got_args sh-head sh-found
      sh-regular free_2 refl reader-HasOutput sh-IsReadable (omega (arith, sh-length))

-- The test disk with a second entry, ".".
abbrev listed : FileSystem
listed = record {
  mem = λ p. (if p == 128 then b'.' else if p == 160 then 1 else disk.mem p);
  boot_block = 0;
}

abbrev lister : Kernel
lister = record reader { fs = listed }

lister-HasOutput : HasOutput lister
unfolding HasOutput
lister-HasOutput = (suc-ne-zero 0, refl)

abbrev dot_entry : Dentry
dot_entry = entries listed 1

dot-found : read_dentry_by_name listed (b'.' ∷ []) 1 ≡ some dot_entry
unfolding read_dentry_by_name find_dentry next_length entries entry_addr strlen strncmp load32
    bytes_at
dot-found = refl

dot-directory : dot_entry.type ≡ 1
unfolding entries entry_addr load32
dot-directory = refl

names_2 : (length (name_of listed 0 32) ≡ 2) × (length (name_of listed 1 32) ≡ 1)
unfolding entries entry_addr bytes_at text
names_2 = (refl, refl)

no_name : length (name_of listed 2 32) ≡ 0
unfolding entries entry_addr bytes_at text
no_name = refl

both_named : (j : ℕ) → j < 2 → 0 < length (name_of listed j 32)
both_named zero lt = omega (arith, names_2.0)
both_named (suc zero) lt = omega (arith, names_2.1)
both_named (suc (suc j)) lt = absurd (omega arith)

ls_example :
    (k' : Kernel) × (ls 1 no_interrupts 1 3 (replicate 33 0) lister ≡ some (0, k'))
    × (k'.terminals ≡ shown (listing listed 2 0) lister.terminals)
ls_example =
    ls_lem 1 1 no_interrupts 3 2 2 (replicate 33 0) dot_entry lister (suc-ne-zero 0) (suc-ne-zero 0)
      refl dot-found dot-directory free_2 refl lister-HasOutput (omega arith) both_named no_name
      (omega arith)

reader-free : (j : ℕ) → 2 ≤ j → j < 8 → ((current reader).fd j).flags ≡ 0
reader-free j lo hi = ground arith
