-- ===== src/Programs/Cat.antt =====
-- `cat` of syscalls/ece391cat.c: what it shows of a file.

use linux_os.Prelude.{
  ℕ, zero, suc, ◌+◌, ◌-◌, ◌*◌, ◌%◌, ◌≤◌, ◌≡◌, ◌≢◌, ◌∙◌, ◌⊎◌, inl, inr, ap, sym, refl, List, some,
  true, false, ◌==◌, minus_one, length, take, arith, Bool-cases,
}
use linux_os.Strings.{head_or}
use linux_os.Fs.{Dentry, read_dentry_by_name, FileSystem, inode_length}
use linux_os.Fs.Bytes.{file_bytes, file_bytes-append, length-file_bytes}
use linux_os.Terminal.{terminal_write}
use linux_os.Kernel.{Fops, Kernel, current, with_fd}
use linux_os.TaskCalls.{syscall_getargs}
use linux_os.FileCalls.{find_fd, returns, Interrupts}
use linux_os.FileCalls.Open.{find_fd-some}
use linux_os.Programs.{Run, placed, cat_chunk, cat_loop, cat_opened, cat_named, cat}
use linux_os.Programs.Output.{shown, shown-append, take-placed, HasOutput, write_out_lem}
use linux_os.Programs.Descriptor.{Holds, move-Holds, open-Holds}
use linux_os.Programs.Reading.{IsReadable, piece_len, read_lem, chunk_next}
use linux_os.Programs.Opening.{open_file}

module _ (buf : ℕ) (env : ℕ → Interrupts) (next : List ℕ → Kernel → Run) (bytes out : List ℕ)
    (k : Kernel) where
  chunk_done : (cnt : ℕ) → cnt ≡ 0 → cat_chunk buf env next bytes (returns cnt out k) ≡ some (0, k)
  unfolding cat_chunk
  chunk_done cnt e = let stop : (cnt == 0) ≡ true = ground arith in rw stop refl

  chunk_shown :
      (cnt : ℕ)
      → HasOutput k
      → length out ≡ cnt
      → cnt ≢ 0
      → cnt ≤ 1024
      → cat_chunk buf env next bytes (returns cnt out k)
        ≡ next (placed out bytes) (record k { terminals = shown out k.terminals })
  unfolding cat_chunk
  chunk_shown cnt output e some_left small =
      let more : (cnt == 0) ≡ false = ground arith in
      let good : (cnt == minus_one) ≡ false = ground arith in
      let taken : take cnt (placed out bytes) ≡ out =
        ap (λ m. take m (placed out bytes)) (sym e) ∙ take-placed out bytes in
      rw (more, good)
        (write_out_lem (next (placed out bytes)) k out (placed out bytes) cnt output taken
          (omega (arith, e, small)))

module _ (fs : FileSystem) (inode buf : ℕ) (b : buf ≢ 0) (readable : IsReadable fs inode) where
  cat_loop_lem :
      (env : ℕ → Interrupts) (rounds fd p : ℕ) (bytes : List ℕ) (k : Kernel)
      → k.fs ≡ fs
      → Holds Fops.file_fops k fd inode p
      → (p % 1024 ≡ 0) ⊎ (inode_length fs inode ≤ p)
      → p ≤ inode_length fs inode
      → inode_length fs inode + 1024 ≤ p + 1024 * rounds
      → (k' : Kernel) × (cat_loop buf env rounds fd bytes k ≡ some (0, k'))
        × (k'.terminals ≡ shown (file_bytes fs inode p (inode_length fs inode - p)) k.terminals)
  cat_loop_lem env zero fd p bytes k disk on aligned le enough = absurd (omega arith)
  cat_loop_lem env (suc rounds) fd p bytes k disk on aligned le enough =
      elim (Bool-cases (n == 0)) [
        | inl over ↦
            let end : p ≡ inode_length fs inode = (unfold piece_len in ground arith) in
            let rest : inode_length fs inode - p ≡ 0 = omega (arith, end) in
            (
              k1,
              reads ∙ chunk_done buf env _ bytes out k1 n (ground arith),
              rw rest (unfold file_bytes terminal_write in refl),
            )
        | inr more ↦
            let some_left : n ≢ 0 = ground arith in
            let (small, inside, place, left) =
              chunk_next fs inode buf b readable rounds p aligned le enough some_left in
            let (k2, goes, terminals) =
              cat_loop_lem env rounds fd (p + n) (placed out bytes) k2' disk
                (move-Holds Fops.file_fops k fd inode p (p + n) _ on) place inside left in
            (
              k2,
              reads
                  ∙ chunk_shown buf env _ bytes out k1 n output (length-file_bytes fs inode p n)
                      some_left small
                  ∙ goes,
              terminals
                  ∙ sym (shown-append out _ k.terminals)
                  ∙ ap (λ s. shown s k.terminals)
                      (file_bytes-append fs inode p (p + n) n (inode_length fs inode - (p + n)) refl
                        ∙ ap (file_bytes fs inode p) (omega (arith, inside))),
            )
      ]
    where
      n : ℕ
      n = piece_len fs inode p

      out : List ℕ
      out = file_bytes fs inode p n

      k1 : Kernel
      k1 = with_fd k fd (record ((current k).fd fd) { file_position = p + n })

      k2' : Kernel
      k2' = record k1 { terminals = shown out k.terminals }

      output : HasOutput k1
      output = (move-Holds Fops.file_fops k fd inode p (p + n) k.terminals on).output

      reads :
          cat_loop buf env (suc rounds) fd bytes k
          ≡ cat_chunk buf env (cat_loop buf env rounds fd) bytes (returns n out k1)
      reads =
          unfold cat_loop in
          ap (cat_chunk buf env (cat_loop buf env rounds fd) bytes)
            (read_lem fs inode buf b readable (env rounds) k fd p disk on aligned le)

-- `cat` of a regular file shows exactly the bytes of the file, from the first to the last, and ends
-- with 0, in as many rounds as the file has started pieces of 1024 bytes and one more. The program's
-- argument names the file in the directory, a descriptor is free, and the end of the file is not in
-- the last quarter of a block.
pub cat_lem :
    (buf : ℕ) (env : ℕ → Interrupts) (rounds fd : ℕ) (bytes arg : List ℕ) (dentry : Dentry)
    (k : Kernel)
    → buf ≢ 0
    → syscall_getargs k buf 1024 ≡ some arg
    → head_or (placed arg bytes) ≢ 0
    → read_dentry_by_name k.fs (placed arg bytes) 1 ≡ some dentry
    → dentry.type ≡ 2
    → find_fd 6 2 (current k).fd ≡ some fd
    → ((current k).fd fd).file_position ≡ 0
    → HasOutput k
    → IsReadable k.fs dentry.inode
    → inode_length k.fs dentry.inode + 1024 ≤ 1024 * rounds
    → (k' : Kernel) × (cat buf env rounds bytes k ≡ some (0, k'))
      × (k'.terminals
          ≡ shown (file_bytes k.fs dentry.inode 0 (inode_length k.fs dentry.inode)) k.terminals)
cat_lem buf env rounds fd bytes arg dentry k b args named found regular free start output readable
      enough =
    let (low, high, _, _) = find_fd-some 6 2 (current k).fd fd free in
    let real : (fd == minus_one) ≡ false = ground arith in
    let on = open-Holds Fops.file_fops k fd dentry.inode free start output in
    let (k', goes, terminals) =
      cat_loop_lem k.fs dentry.inode buf b readable env rounds fd 0 (placed arg bytes) _ refl on
        (inl refl) (omega arith) (omega arith) in
    (
      k',
      (unfold cat cat_named in
          rw (args, open_file k buf fd (placed arg bytes) dentry b named free found regular)
            (unfold cat_opened in rw real goes)),
      terminals ∙ ap (λ n. shown (file_bytes k.fs dentry.inode 0 n) k.terminals) (omega arith),
    )
