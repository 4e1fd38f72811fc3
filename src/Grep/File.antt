-- ===== src/Grep/File.antt =====
-- One file of syscalls/ece391grep.c, from its open to its close.
use linux_os.Prelude.{
  ap₂, ◌%◌, ◌⊎◌, ℕ, zero, suc, ◌+◌, ◌≤◌, ◌<◌, ◌≡◌, ◌≢◌, ◌∙◌, refl, sym, ap, false, inl, inr, List,
  [], ◌∷◌, some, ◌==◌, arith, length, minus_one,
}
use linux_os.Strings.{head_or}
use linux_os.Strings.Compare.{All}
use linux_os.Fs.{Dentry, read_dentry_by_name, FileSystem, inode_length}
use linux_os.Fs.Bytes.{file_bytes, length-file_bytes}
use linux_os.Terminal.{terminal_write}
use linux_os.Terminal.Line.{IsLineChar}
use linux_os.Kernel.{FileDescriptor, Kernel, Fops, current, with_fd}
use linux_os.FileCalls.{find_fd, Interrupts}
use linux_os.FileCalls.Open.{find_fd-some}
use linux_os.Support.Text.{IsText}
use linux_os.Programs.{placed}
use linux_os.Programs.Output.{with_line, shown, HasOutput}
use linux_os.Programs.Descriptor.{Holds, move-Holds, open-Holds}
use linux_os.Programs.Reading.{IsReadable, piece_len, read_lem}
use linux_os.Programs.Opening.{open_file}
use linux_os.Console.{answer, c_text}
use linux_os.Grep.{found, scan_read, file_loop, do_one_file}
use linux_os.Grep.Lines.{spelled, report_of}
use linux_os.Grep.Round.{scan_empty, close_file_lem, scan_ends, read_lines}

module _ (pattern fname : List ℕ) (buf : ℕ) (env : ℕ → Interrupts) (fs : FileSystem) (inode : ℕ)
    (b : buf + 0 ≢ 0) (readable : IsReadable fs inode) where
  -- A round of the outer loop: the read at `p`.
  loop_read :
      (rounds fd p : ℕ) (bytes : List ℕ) (k : Kernel)
      → k.fs ≡ fs
      → Holds Fops.file_fops k fd inode p
      → (p % 1024 ≡ 0) ⊎ (inode_length fs inode ≤ p)
      → p ≤ inode_length fs inode
      → file_loop pattern fname buf env (suc rounds) fd bytes 0 k
        ≡ scan_read pattern fname (file_loop pattern fname buf env rounds fd) fd bytes 0 (
          piece_len fs inode p,
          file_bytes fs inode p (piece_len fs inode p),
          with_fd k fd (record ((current k).fd fd) { file_position = p + piece_len fs inode p }),
        )
  unfolding file_loop answer
  loop_read rounds fd p bytes k disk on aligned le =
      rw (read_lem fs inode (buf + 0) b readable (env rounds) k fd p disk on aligned le) refl

  -- The last round: the read gives nothing, and the file is closed.
  loop_end :
      (rounds fd p : ℕ) (bytes : List ℕ) (k : Kernel)
      → k.fs ≡ fs
      → Holds Fops.file_fops k fd inode p
      → p ≡ inode_length fs inode
      → (k' : Kernel) × (file_loop pattern fname buf env (suc rounds) fd bytes 0 k ≡ some (0, k'))
        × (k'.terminals ≡ k.terminals)
        × (((current k').fd fd).flags ≡ 0)
  unfolding file_bytes
  loop_end rounds fd p bytes k disk on end =
      let none_left : piece_len fs inode p ≡ 0 = (unfold piece_len in omega arith) in
      let k1 = with_fd k fd (record ((current k).fd fd) { file_position = p + 0 }) in
      let held = move-Holds Fops.file_fops k fd inode p (p + 0) k.terminals on in
      let (k', closed, terminals, free) = close_file_lem k1 fd inode (p + 0) held in
      (
        k',
        loop_read rounds fd p bytes k disk on (inr (omega arith)) (omega arith)
            ∙ rw none_left (
                scan_ends pattern fname (file_loop pattern fname buf env rounds fd) fd bytes k1 _
                  (scan_empty pattern fname (placed [] bytes) 0 k1)
                ∙ closed),
        terminals,
        free,
      )

  loop_lem :
      (rounds fd : ℕ) (bytes : List ℕ) (lines : List (List ℕ)) (k : Kernel)
      → k.fs ≡ fs
      → Holds Fops.file_fops k fd inode 0
      → IsText pattern
      → 0 < length pattern
      → All (All IsLineChar) lines
      → file_bytes fs inode 0 (inode_length fs inode) ≡ spelled lines
      → inode_length fs inode ≤ 1024
      → 2 ≤ rounds
      → (k' : Kernel) × (file_loop pattern fname buf env rounds fd bytes 0 k ≡ some (0, k'))
        × (k'.terminals ≡ shown (report_of pattern (c_text fname) lines) k.terminals)
        × (((current k').fd fd).flags ≡ 0)
  loop_lem zero fd bytes lines k disk on p some_pattern ok content fits enough =
      absurd (omega arith)
  loop_lem (suc rounds) fd bytes [] k disk on p some_pattern ok content fits enough =
      let size : inode_length fs inode ≡ 0 =
        omega (
          arith,
          ap (λ s. length s) content,
          length-file_bytes fs inode 0 (inode_length fs inode),
        ) in
      let (k', goes, terminals, free) =
        loop_end rounds fd 0 bytes k disk on (omega (arith, size)) in
      (k', goes, terminals ∙ (unfold report_of terminal_write in refl), free)
  loop_lem (suc zero) fd bytes (line ∷ lines) k disk on p some_pattern ok content fits enough =
      absurd (omega arith)
  loop_lem (suc (suc rounds)) fd bytes (line ∷ lines) k disk on p some_pattern ok content fits
        enough =
      let out = spelled (line ∷ lines) in
      let size : inode_length fs inode ≡ length out =
        sym (length-file_bytes fs inode 0 (inode_length fs inode)) ∙ ap (λ s. length s) content in
      let n = piece_len fs inode 0 in
      let all : n ≡ inode_length fs inode = (unfold piece_len in omega (arith, fits)) in
      let bytes_read : file_bytes fs inode 0 n ≡ out = ap (file_bytes fs inode 0) all ∙ content in
      let d : FileDescriptor = record ((current k).fd fd) { file_position = 0 + n } in
      let report = report_of pattern (c_text fname) (line ∷ lines) in
      let next = file_loop pattern fname buf env (suc rounds) fd in
      let (held, shows) =
        read_lines pattern fname next fd bytes (with_fd k fd d) line lines
          (move-Holds Fops.file_fops k fd inode 0 (0 + n) k.terminals on).output p some_pattern ok
          (omega (arith, fits, size)) in
      let on2 = move-Holds Fops.file_fops k fd inode 0 (0 + n) (shown report k.terminals) on in
      let (k', ends, terminals, free) =
        loop_end rounds fd (0 + n) held (with_line report (with_fd k fd d)) disk on2
          (omega (arith, all)) in
      (
        k',
        loop_read (suc rounds) fd 0 bytes k disk on (inl refl) (omega arith)
            ∙ ap₂ (λ m b. scan_read pattern fname next fd bytes 0 (m, b, with_fd k fd d))
                (all ∙ size) bytes_read
            ∙ shows
            ∙ ends,
        terminals,
        free,
      )

-- A file of at most 1024 bytes that consists of lines, each with its newline and without a 0: for a
-- pattern that is not empty `do_one_file` shows exactly the lines in which it occurs, in order, each
-- behind the file's name and a colon; it ends with 0 and the descriptor is free again. The file is a
-- regular one of the directory, a descriptor is free, the end of the file is not in the last quarter
-- of a block, and two reads are enough.
pub do_one_file_lem :
    (pattern fname bytes : List ℕ) (buf name_addr : ℕ) (env : ℕ → Interrupts) (rounds fd : ℕ)
    (dentry : Dentry) (lines : List (List ℕ)) (k : Kernel)
    → buf + 0 ≢ 0
    → name_addr ≢ 0
    → head_or fname ≢ 0
    → read_dentry_by_name k.fs fname 1 ≡ some dentry
    → dentry.type ≡ 2
    → find_fd 6 2 (current k).fd ≡ some fd
    → ((current k).fd fd).file_position ≡ 0
    → HasOutput k
    → IsReadable k.fs dentry.inode
    → IsText pattern
    → 0 < length pattern
    → All (All IsLineChar) lines
    → file_bytes k.fs dentry.inode 0 (inode_length k.fs dentry.inode) ≡ spelled lines
    → inode_length k.fs dentry.inode ≤ 1024
    → 2 ≤ rounds
    → (k' : Kernel) × (do_one_file pattern fname buf env name_addr rounds bytes k ≡ some (0, k'))
      × (k'.terminals ≡ shown (report_of pattern (c_text fname) lines) k.terminals)
      × (((current k').fd fd).flags ≡ 0)
do_one_file_lem pattern fname bytes buf name_addr env rounds fd dentry lines k b a named found
      regular free start output readable p some_pattern ok content fits enough =
    let (low, high, _, _) = find_fd-some 6 2 (current k).fd fd free in
    let real : (fd == minus_one) ≡ false = ground arith in
    let on = open-Holds Fops.file_fops k fd dentry.inode free start output in
    let opened = open_file k name_addr fd fname dentry a named free found regular in
    let (k', goes, terminals, freed) =
      loop_lem pattern fname buf env k.fs dentry.inode b readable rounds fd bytes lines _ refl on p
        some_pattern ok content fits enough in
    (k', (unfold do_one_file answer in rw opened (rw real goes)), terminals, freed)
