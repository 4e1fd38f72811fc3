-- ===== src/Programs/Opening.antt =====
-- The opens of a file, a directory and the clock by a user program.

use linux_os.Prelude.{ℕ, ◌≡◌, ◌≢◌, ◌∙◌, ap, refl, Option, List, [], some, false, ◌==◌, ◌||◌, arith}
use linux_os.Strings.{head_or}
use linux_os.Fs.{Dentry, read_dentry_by_name, file_open, dir_open}
use linux_os.Rtc.{rtc_open}
use linux_os.Kernel.{Kernel, FileDescriptor, Fops, current, with_fd}
use linux_os.FileCalls.{
  find_fd, syscall_open, open_at, run_open, install, fops_of_type, fops_of_name, returns,
}

-- The open of an entry whose type has the operations `ops`, which store the entry's inode: the
-- descriptor that is free takes it.
open_entry :
    (ops : Fops) (k : Kernel) (buf fd : ℕ) (name : List ℕ) (dentry : Dentry)
    → buf ≢ 0
    → head_or name ≢ 0
    → find_fd 6 2 (current k).fd ≡ some fd
    → read_dentry_by_name k.fs name 1 ≡ some dentry
    → ((old : Option Fops) → fops_of_type dentry.type old ≡ some ops)
    → ((d : FileDescriptor) → run_open k fd d name (some ops) ≡ install k fd d (some dentry.inode))
    → syscall_open k buf name
      ≡ returns fd [] (
          with_fd k fd
            (record ((current k).fd fd) { fops_table = some ops; inode = dentry.inode; flags = 1 }))
open_entry ops k buf fd name dentry b named free found table stored =
    let given : (buf == 0 || head_or name == 0) ≡ false = ground arith in
    let opens : syscall_open k buf name ≡ open_at k fd name =
      (unfold syscall_open in rw (given, free) refl) in
    let d : FileDescriptor = record ((current k).fd fd) {
      fops_table = fops_of_name name ((current k).fd fd).fops_table;
    } in
    let entry : open_at k fd name
        ≡ run_open k fd (record d { fops_table = fops_of_type dentry.type d.fops_table }) name
            (fops_of_type dentry.type d.fops_table) =
      (unfold open_at in rw (found, open_at) refl) in
    opens
    ∙ entry
    ∙ ap (λ f. run_open k fd (record d { fops_table = f }) name f) (table d.fops_table)
    ∙ stored (record d { fops_table = some ops })
    ∙ (unfold install in refl)

module _ (k : Kernel) (buf fd : ℕ) (name : List ℕ) (dentry : Dentry) (b : buf ≢ 0)
    (named : head_or name ≢ 0) (free : find_fd 6 2 (current k).fd ≡ some fd)
    (found : read_dentry_by_name k.fs name 1 ≡ some dentry) where
  pub open_file :
      dentry.type ≡ 2
      → syscall_open k buf name
        ≡ returns fd [] (
            with_fd k fd (record ((current k).fd fd) {
              fops_table = some Fops.file_fops;
              inode = dentry.inode;
              flags = 1;
            }))
  open_file regular =
      let content : file_open k.fs name ≡ some dentry.inode =
        (unfold file_open in rw (found, file_open) refl) in
      open_entry Fops.file_fops k buf fd name dentry b named free found
        (λ old. (unfold fops_of_type in rw regular refl))
        (λ d. (unfold run_open in ap (install k fd d) content))

  pub open_directory :
      dentry.type ≡ 1
      → syscall_open k buf name
        ≡ returns fd [] (
            with_fd k fd (record ((current k).fd fd) {
              fops_table = some Fops.dir_fops;
              inode = dentry.inode;
              flags = 1;
            }))
  open_directory directory =
      let content : dir_open k.fs name ≡ some dentry.inode =
        (unfold dir_open in rw (found, dir_open) refl) in
      open_entry Fops.dir_fops k buf fd name dentry b named free found
        (λ old. (unfold fops_of_type in rw directory refl))
        (λ d. (unfold run_open in ap (install k fd d) content))

  -- The clock is set to its slowest rate.
  pub open_clock :
      dentry.type ≡ 0
      → syscall_open k buf name
        ≡ returns fd [] (
            with_fd
              (record k { rtc = record k.rtc { virt_freq = 2 } })
              fd
              (record ((current k).fd fd) { fops_table = some Fops.rtc_fops; flags = 1 }))
  open_clock clock =
      let given : (buf == 0 || head_or name == 0) ≡ false = ground arith in
      let opens : syscall_open k buf name ≡ open_at k fd name =
        (unfold syscall_open in rw (given, free) refl) in
      let d : FileDescriptor = record ((current k).fd fd) {
        fops_table = fops_of_name name ((current k).fd fd).fops_table;
      } in
      let table : fops_of_type dentry.type d.fops_table ≡ some Fops.rtc_fops =
        (unfold fops_of_type in rw clock refl) in
      let entry : open_at k fd name
          ≡ run_open k fd (record d { fops_table = fops_of_type dentry.type d.fops_table }) name
              (fops_of_type dentry.type d.fops_table) =
        (unfold open_at in rw (found, open_at) refl) in
      opens
      ∙ entry
      ∙ ap (λ f. run_open k fd (record d { fops_table = f }) name f) table
      ∙ (unfold run_open install rtc_open in refl)
